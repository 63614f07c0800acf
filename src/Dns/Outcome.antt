-- ===== src/Dns/Outcome.antt =====
-- The exceptions that src/dnsd throws, as values. `out_of_bounds` stands for a read outside the
-- buffer, which the language leaves undefined, `out_of_fuel` for a loop cut short, and `endless_loop` for a
-- call that does not return.
use v_ubercool.Base.{◌≡◌, refl, ◌⊎◌, inl, inr}

pub data Error : Type 0 where
  message_header_exception : Error
  label_header_exception no_labels illegal_label illegal_pointer : Error
  question_header_exception : Error
  invalid_query refused unknown_domain unknown_sub_domain no_soa_record truncated : Error
  std_out_of_range : Error
  out_of_bounds out_of_fuel endless_loop : Error

pub data Outcome {ℓ} (A : Type ℓ) : Type ℓ where
  ok : A → Outcome A
  err : Error → Outcome A

module _ {ℓ κ} {A : Type ℓ} {B : Type κ} where
  infixl 5 ◌>>=◌
  abbrev pub ◌>>=◌ : Outcome A → (A → Outcome B) → Outcome B
  ok a >>= f = f a
  err e >>= f = err e

  -- Inversion of a successful bind.
  pub >>=-eq-ok :
      (first : Outcome A) (next : A → Outcome B) {last : B}
      → (first >>= next) ≡ ok last
      → (x : A) × (first ≡ ok x) × (next x ≡ ok last)
  >>=-eq-ok (ok x) next both = (x, refl, both)
  >>=-eq-ok (err e) next both = cc

pub Outcome-cases {ℓ} :
    {A : Type ℓ} (o : Outcome A) → ((a : A) × (o ≡ ok a)) ⊎ ((e : Error) × (o ≡ err e))
Outcome-cases (ok a) = inl (a, refl)
Outcome-cases (err e) = inr (e, refl)
