-- ===== src/Base/Tree.antt =====
-- The trees of boost::property_tree, in which the configuration files are read: a node has a text and
-- named children in an order. How a child is found by its name, and how texts are converted, are
-- parameters where they are used.
use Prim.Native.Nat.{ℕ}
use mathlib.Core.Path.{◌≡◌, refl, ap, subst, ◌∙◌}
use mathlib.Core.Option.{Option, none, some}
use mathlib.Core.List.{List, [], ◌∷◌}

mutual
  pub data Tree : Type 0 where
    node : List ℕ → Forest → Tree

  pub data Forest : Type 0 where
    leaf : Forest
    branch : List ℕ → Tree → Forest → Forest

abbrev pub text_of : Tree → List ℕ
text_of (node text kids) = text

abbrev pub children_of : Tree → Forest
children_of (node text kids) = kids

abbrev pub keys_of : Forest → List (List ℕ)
keys_of leaf = []
keys_of (branch key t rest) = key ∷ keys_of rest

-- An exception ends the reading of a file.
module _ {ℓ κ} {A : Type ℓ} {B : Type κ} where
  infixl 5 ◌>>=◌
  unfoldable pub ◌>>=◌ : Option A → (A → Option B) → Option B
  none >>= f = none
  some a >>= f = f a

-- A property of the result, if there is one.
unfoldable pub OnSome {ℓ κ} : {A : Type ℓ} → (A → Type κ) → Option A → Type κ
OnSome P none = Unit
OnSome P (some a) = P a

pub >>=-OnSome {ℓ κ μ ν} :
    {A : Type ℓ} {B : Type κ} (Q : A → Type μ) (P : B → Type ν) (o : Option A) (f : A → Option B)
    → OnSome Q o
    → ((a : A) → Q a → OnSome P (f a))
    → OnSome P (o >>= f)
unfolding ◌>>=◌ OnSome
>>=-OnSome Q P none f h k = tt
>>=-OnSome Q P (some a) f h k = k a h

-- A chain that does not depend on its first result.
pub >>=-any {ℓ κ ν} :
    {A : Type ℓ} {B : Type κ} (P : B → Type ν) (o : Option A) (f : A → Option B)
    → ((a : A) → OnSome P (f a))
    → OnSome P (o >>= f)
unfolding ◌>>=◌ OnSome
>>=-any P none f k = tt
>>=-any P (some a) f k = k a

-- A chain that does: the first result is there.
pub >>=-found {ℓ κ ν} :
    {A : Type ℓ} {B : Type κ} (P : B → Type ν) (o : Option A) (f : A → Option B)
    → ((a : A) → o ≡ some a → OnSome P (f a))
    → OnSome P (o >>= f)
unfolding ◌>>=◌ OnSome
>>=-found P none f k = tt
>>=-found P (some a) f k = k a refl

-- That there is a result.
abbrev pub IsFound {ℓ} : {A : Type ℓ} → Option A → Type 0
IsFound none = ⊥
IsFound (some a) = Unit

pub >>=-IsFound {ℓ κ} :
    {A : Type ℓ} {B : Type κ} (o : Option A) (f : A → Option B)
    → IsFound o
    → ((a : A) → IsFound (f a))
    → IsFound (o >>= f)
unfolding ◌>>=◌
>>=-IsFound none f h k = absurd h
>>=-IsFound (some a) f h k = k a

pub IsFound-some {ℓ} : {A : Type ℓ} (o : Option A) → IsFound o → (a : A) × (o ≡ some a)
IsFound-some none h = absurd h
IsFound-some (some a) h = (a, refl)

pub OnSome-every {ℓ κ} : {A : Type ℓ} (P : A → Type κ) (o : Option A) → ((a : A) → P a) → OnSome P o
unfolding OnSome
OnSome-every P none h = tt
OnSome-every P (some a) h = h a

pub OnSome-mono {ℓ κ μ} :
    {A : Type ℓ} (P : A → Type κ) (Q : A → Type μ) (o : Option A)
    → OnSome P o
    → ((a : A) → P a → Q a)
    → OnSome Q o
unfolding OnSome
OnSome-mono P Q none h f = tt
OnSome-mono P Q (some a) h f = f a h

pub OnSome-at {ℓ κ} :
    {A : Type ℓ} (P : A → Type κ) (o : Option A) {a : A} → OnSome P o → o ≡ some a → P a
unfolding OnSome
OnSome-at P none h e = cc
OnSome-at P (some x) {a} h e = subst P (let k : x ≡ a = cc in k) h

module _ (get_child : List ℕ → Tree → Option Tree) where
  -- `get<T>(path, value)` and `get_optional<T>(path)`: a text that cannot be converted counts as none.
  unfoldable pub get_optional {ℓ} : {A : Type ℓ} → (List ℕ → Option A) → List ℕ → Tree → Option A
  unfolding ◌>>=◌
  get_optional convert path t = get_child path t >>= λ u. convert (text_of u)

  unfoldable pub get_or {ℓ} : {A : Type ℓ} → (List ℕ → Option A) → A → List ℕ → Tree → A
  unfolding get_optional
  get_or convert default path t = elim (get_optional convert path t) [ none ↦ default | some a ↦ a ]

  -- The children of the child at a path, if there is one.
  abbrev pub kids_at : List ℕ → Tree → Forest
  kids_at path t = elim (get_child path t) [ none ↦ leaf | some u ↦ children_of u ]

  pub get_or-same {ℓ} :
      {A : Type ℓ} (convert : List ℕ → Option A) (default : A) (path : List ℕ) (t u : Tree)
      → get_child path t ≡ get_child path u
      → get_or convert default path t ≡ get_or convert default path u
  unfolding get_or get_optional ◌>>=◌
  get_or-same convert default path t u e =
      ap (λ o. elim (o >>= λ v. convert (text_of v)) [ none ↦ default | some a ↦ a ]) e

  -- A child whose text is empty, where the conversion refuses the empty text.
  pub get_or-empty {ℓ} :
      {A : Type ℓ} (convert : List ℕ → Option A) (default : A) (path : List ℕ) (t u : Tree)
      → get_child path t ≡ some u
      → text_of u ≡ []
      → convert [] ≡ none
      → get_or convert default path t ≡ default
  unfolding get_or get_optional ◌>>=◌
  get_or-empty convert default path t u e bare refused =
      ap (λ o. elim (o >>= λ v. convert (text_of v)) [ none ↦ default | some a ↦ a ]) e
      ∙ ap (λ text. elim (convert text) [ none ↦ default | some a ↦ a ]) bare
      ∙ ap (λ o. elim o [ none ↦ default | some a ↦ a ]) refused
