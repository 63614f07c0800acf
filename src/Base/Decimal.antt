-- ===== src/Base/Decimal.antt =====
-- Numbers in decimal digits, as `ostream <<` writes unsigned ones.
use Prim.Native.Nat.{ℕ, zero, suc, ◌+◌, ◌-◌, ◌*◌, ◌/◌, ◌%◌, ◌≤◌, ◌<◌}
use mathlib.Core.Path.{◌≡◌, refl, ◌∙◌}
use mathlib.Core.Logic.{inl, inr}
use mathlib.Core.List.{[], ◌∷◌, ◌++◌}
use native.Mathlib.Omega.{arith}
use v_ubercool.Base.Tests.{ltb, if◌then◌else◌, Bool-cases}
use v_ubercool.Base.Lists.{Bytes, All, All-append}

decimal_from : ℕ → ℕ → Bytes
decimal_from zero n = []
decimal_from (suc rounds) n =
    let front = decimal_from rounds (n / 10) in
    if ltb n 10 then (b'0' + n) ∷ [] else front ++ (b'0' + n % 10) ∷ []

unfoldable pub decimal : ℕ → Bytes
unfolding decimal_from
decimal n = decimal_from (suc n) n

-- The number that a reader makes of digits, behind those that made `seen`.
pub number_from : ℕ → Bytes → ℕ
number_from seen [] = seen
number_from seen (c ∷ cs) = number_from (seen * 10 + (c - b'0')) cs

number_from-append :
    (seen : ℕ) (xs ys : Bytes) → number_from seen (xs ++ ys) ≡ number_from (number_from seen xs) ys
unfolding number_from
number_from-append seen [] ys = refl
number_from-append seen (x ∷ xs) ys = number_from-append (seen * 10 + (x - b'0')) xs ys

number_from-decimal_from : (rounds n : ℕ) → n < rounds → number_from 0 (decimal_from rounds n) ≡ n
unfolding decimal_from number_from
number_from-decimal_from zero n h = absurd (omega (arith, h))
number_from-decimal_from (suc rounds) n h = elim (Bool-cases (ltb n 10)) [
  | inl small ↦ rw (small, decimal_from) (omega arith)
  | inr large ↦
      let ten : 10 ≤ n = ground arith in
      let front = number_from-decimal_from rounds (n / 10) (omega arith) in
      rw (large, decimal_from)
        (number_from-append 0 (decimal_from rounds (n / 10)) _ ∙ rw front (omega arith))
]

-- The digits of a number are read as that number.
pub number_from-decimal : (n : ℕ) → number_from 0 (decimal n) ≡ n
unfolding decimal
number_from-decimal n = number_from-decimal_from (suc n) n (omega arith)

-- Digits.
abbrev pub IsDigit : ℕ → Type 0
IsDigit c = (b'0' ≤ c) × (c ≤ b'9')

decimal_from-IsDigit : (rounds n : ℕ) → All IsDigit (decimal_from rounds n)
unfolding decimal_from
decimal_from-IsDigit zero n = tt
decimal_from-IsDigit (suc rounds) n = elim (Bool-cases (ltb n 10)) [
  | inl small ↦ rw (small, decimal_from) (ground arith)
  | inr large ↦
      rw (large, decimal_from)
        (All-append IsDigit (decimal_from rounds (n / 10)) _ (decimal_from-IsDigit rounds (n / 10))
          (omega arith))
]

pub decimal-IsDigit : (n : ℕ) → All IsDigit (decimal n)
unfolding decimal
decimal-IsDigit n = decimal_from-IsDigit (suc n) n
