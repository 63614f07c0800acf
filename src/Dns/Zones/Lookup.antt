-- ===== src/Dns/Zones/Lookup.antt =====
-- `ZoneMgr::Lookup` of src/dnsd/Zone.h against the rule in its comment.
use v_ubercool.Base.{
  ℕ, ◌≡◌, refl, inl, inr, Bool, true, false, Option, none, some, List, [], ◌∷◌, Bytes, arith,
  Option-cases, Bool-cases,
}
use v_ubercool.Dns.Zones.{ZoneMgr, zone_at, scan_level}

-- The first element that passes the test.
abbrev pub find_first {ℓ} : {A : Type ℓ} → (A → Bool) → List A → Option A
find_first p [] = none
find_first p (x ∷ xs) = elim (p x) [ true ↦ some x | false ↦ find_first p xs ]

-- The last one, or `default`.
abbrev pub find_last {ℓ} : {A : Type ℓ} → (A → Bool) → Option A → List A → Option A
find_last p default [] = default
find_last p default (x ∷ xs) = find_last p (elim (p x) [ true ↦ some x | false ↦ default ]) xs

abbrev is_unnamed : Bytes → Bool
is_unnamed [] = true
is_unnamed (c ∷ cs) = false

abbrev pub unnamed_at : ZoneMgr → ℕ → Bool
unnamed_at m z = elim (zone_at m z) [ none ↦ false | some zone ↦ is_unnamed zone.label ]

module _ (iequals : Bytes → Bytes → Bool) where
  abbrev pub matches_at : ZoneMgr → Bytes → ℕ → Bool
  matches_at m key z = elim (zone_at m z) [ none ↦ false | some zone ↦ iequals key zone.label ]

  -- The rule for one level, with the unnamed zone seen before it.
  abbrev pub choose_from : ZoneMgr → Bytes → Option ℕ → List ℕ → Option ℕ
  choose_from m key wildcard zones = elim (find_first (matches_at m key) zones) [
    | some z ↦ some z
    | none ↦ find_last (unnamed_at m) wildcard zones
  ]

  -- The one-pass search of a level finds what the comment on `Lookup` promises: the first zone whose
  -- label matches, and, if there is none, an unnamed zone, the last of them.
  pub scan_level-choose_from :
      (m : ZoneMgr) (key : Bytes) (wildcard : Option ℕ) (zones : List ℕ)
      → scan_level iequals m key wildcard zones ≡ choose_from m key wildcard zones
  unfolding scan_level
  scan_level-choose_from m key wildcard [] = refl
  scan_level-choose_from m key wildcard (z ∷ zs) = elim (Option-cases (zone_at m z)) [
    | inl e ↦ let ih = scan_level-choose_from m key wildcard zs in ground arith
    | inr (zone, e) ↦ elim (Bool-cases (iequals key zone.label)) [
      | inl f ↦ ground arith
      | inr f ↦ elim (Bool-cases (is_unnamed zone.label)) [
        | inl g ↦ let ih = scan_level-choose_from m key (some z) zs in ground arith
        | inr g ↦ let ih = scan_level-choose_from m key wildcard zs in ground arith
      ]
    ]
  ]
