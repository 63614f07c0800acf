-- ===== src/Dns/Zones/Ancestors.antt =====
-- `Zone::GetDomainName` (src/dnsd/Zone.h), when every parent is older than its children.
use v_ubercool.Base.{
  ℕ, zero, suc, ◌<◌, ◌≡◌, refl, sym, ap, ◌∙◌, inl, inr, none, some, List, [], ◌∷◌, ◌++◌, Bytes,
  arith, Option-cases,
}
use v_ubercool.Dns.Zones.{
  Zone, ZoneMgr, zone_at, zone_labels_fuel, zone_labels, join_dots, domain_name,
}

-- A parent is older than its child.
unfoldable pub IsAged : ZoneMgr → Type 0
IsAged m = (z p : ℕ) (zone : Zone) → zone_at m z ≡ some zone → zone.parent ≡ some p → p < z

module _ (m : ZoneMgr) (aged : IsAged m) where
  -- The way up does not depend on how much longer it might be.
  zone_labels_fuel_enough :
      (n f z : ℕ) → z < n → z < f → zone_labels_fuel n m z ≡ zone_labels_fuel f m z
  unfolding zone_labels_fuel IsAged
  zone_labels_fuel_enough zero f z h k = absurd (omega (arith, h))
  zone_labels_fuel_enough (suc n) zero z h k = absurd (omega (arith, k))
  zone_labels_fuel_enough (suc n) (suc f) z h k = elim (Option-cases (zone_at m z)) [
    | inl e ↦ rw e refl
    | inr (zone, e) ↦ rw e (elim (Option-cases zone.parent) [
      | inl r ↦ rw r refl
      | inr (p, r) ↦
          let older = aged z p zone e r in
          rw r (
            ap (◌∷◌ zone.label)
              (zone_labels_fuel_enough n f p (omega (arith, h, older)) (omega (arith, k, older))))
    ])
  ]

  pub zone_labels-parent :
      (z p : ℕ) (zone : Zone)
      → zone_at m z ≡ some zone
      → zone.parent ≡ some p
      → zone_labels m z ≡ zone.label ∷ zone_labels m p
  unfolding zone_labels zone_labels_fuel IsAged
  zone_labels-parent z p zone e r =
      rw (e, r)
        (ap (◌∷◌ zone.label)
          (zone_labels_fuel_enough z (suc p) p (aged z p zone e r) (omega arith)))

  pub zone_labels-root :
      (z : ℕ) (zone : Zone)
      → zone_at m z ≡ some zone
      → zone.parent ≡ none
      → zone_labels m z ≡ zone.label ∷ []
  unfolding zone_labels zone_labels_fuel
  zone_labels-root z zone e r = rw (e, r) refl

  zone_labels-some :
      (z : ℕ) (zone : Zone)
      → zone_at m z ≡ some zone
      → (l : Bytes) × (ls : List Bytes) × (zone_labels m z ≡ l ∷ ls)
  zone_labels-some z zone e = elim (Option-cases zone.parent) [
    | inl r ↦ (zone.label, [], zone_labels-root z zone e r)
    | inr (p, r) ↦ (zone.label, zone_labels m p, zone_labels-parent z p zone e r)
  ]

  -- The name of a zone is its label, a dot and the name of its parent.
  pub domain_name-parent :
      (z p : ℕ) (zone above : Zone)
      → zone_at m z ≡ some zone
      → zone.parent ≡ some p
      → zone_at m p ≡ some above
      → domain_name m z ≡ zone.label ++ (b'.' ∷ domain_name m p)
  unfolding domain_name join_dots
  domain_name-parent z p zone above e r e1 =
      let (l, ls, same) = zone_labels-some p above e1 in
      ap join_dots (zone_labels-parent z p zone e r ∙ ap (◌∷◌ zone.label) same)
      ∙ sym (ap (λ k. zone.label ++ (b'.' ∷ join_dots k)) same)

  pub domain_name-root :
      (z : ℕ) (zone : Zone)
      → zone_at m z ≡ some zone
      → zone.parent ≡ none
      → domain_name m z ≡ zone.label
  unfolding domain_name join_dots
  domain_name-root z zone e r = ap join_dots (zone_labels-root z zone e r)
