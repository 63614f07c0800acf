-- ===== src/Dns/Zones/Matching.antt =====
-- The zone that `ZoneMgr::Lookup` (src/dnsd/Zone.h) finds in a tree of zones.
use mathlib.Core.List.{reverse, reverse_aux, reverse-reverse}
use v_ubercool.Base.{
  ℕ, ◌≡◌, refl, sym, subst, ◌⊎◌, inl, inr, Bool, true, false, Option, none, some, List, [], ◌∷◌,
  Bytes, All, Bool-cases, Option-cases,
}
use v_ubercool.Base.Tree.{OnSome, OnSome-at}
use v_ubercool.Dns.Zones.{
  Zone, ZoneMgr, zone_at, zone_labels, scan_level, Found, arrive, lookup_in, lookup,
}
use v_ubercool.Dns.Zones.Ancestors.{IsAged, zone_labels-parent, zone_labels-root}

-- A zone of the store with the parent `parent`.
abbrev pub IsBelow : ZoneMgr → Option ℕ → ℕ → Type 0
IsBelow m parent z = (zone : Zone) × (zone_at m z ≡ some zone) × (zone.parent ≡ parent)

-- The children of a zone have it as their parent, and the root zones have none.
pub record IsFamily (m : ZoneMgr) : Type 0 where
  pub aged : IsAged m
  pub children :
      (z : ℕ) (zone : Zone) → zone_at m z ≡ some zone → All (IsBelow m (some z)) zone.children
  pub roots : All (IsBelow m none) m.zones

module _ (iequals : Bytes → Bytes → Bool) (m : ZoneMgr) (family : IsFamily m) where
  -- A label of a zone for a label that is sought: it is equal, or empty, which stands for any.
  abbrev pub IsMatch : Bytes → Bytes → Type 0
  IsMatch key label = (iequals key label ≡ true) ⊎ (label ≡ [])

  abbrev pub Matches : List Bytes → List Bytes → Type 0
  Matches [] [] = Unit
  Matches (k ∷ ks) (l ∷ ls) = IsMatch k l × Matches ks ls
  Matches _ _ = ⊥

  -- The zone of a level that is taken for a label.
  abbrev IsTaken : Option ℕ → Bytes → ℕ → Type 0
  IsTaken parent key z =
      (zone : Zone) × (zone_at m z ≡ some zone) × (zone.parent ≡ parent) × IsMatch key zone.label

  -- The labels above a zone.
  abbrev above : Option ℕ → List Bytes
  above none = []
  above (some p) = zone_labels m p

  zone_labels-above :
      (z : ℕ) (zone : Zone) (parent : Option ℕ)
      → zone_at m z ≡ some zone
      → zone.parent ≡ parent
      → zone_labels m z ≡ zone.label ∷ above parent
  zone_labels-above z zone none e r = zone_labels-root m family.aged z zone e r
  zone_labels-above z zone (some p) e r = zone_labels-parent m family.aged z p zone e r

  unnamed-IsTaken :
      (parent : Option ℕ) (key label : Bytes) (z : ℕ) (zone : Zone) (wildcard : Option ℕ)
      → zone_at m z ≡ some zone
      → zone.parent ≡ parent
      → zone.label ≡ label
      → OnSome (IsTaken parent key) wildcard
      → OnSome (IsTaken parent key) (elim label [ [] ↦ some z | _ ↦ wildcard ])
  unfolding OnSome
  unnamed-IsTaken parent key [] z zone wildcard e r l h = (zone, e, r, inr l)
  unnamed-IsTaken parent key (c ∷ cs) z zone wildcard e r l h = h

  scan_level-IsTaken :
      (parent : Option ℕ) (key : Bytes) (wildcard : Option ℕ) (zones : List ℕ)
      → All (IsBelow m parent) zones
      → OnSome (IsTaken parent key) wildcard
      → OnSome (IsTaken parent key) (scan_level iequals m key wildcard zones)
  unfolding scan_level OnSome
  scan_level-IsTaken parent key wildcard [] below h = h
  scan_level-IsTaken parent key wildcard (z ∷ zs) ((zone, e, r), below) h =
      rw (e, scan_level)
        (elim (Bool-cases (iequals key zone.label)) [
          | inl t ↦ rw t (zone, e, r, inl t)
          | inr f ↦ rw f (
              scan_level-IsTaken parent key _ zs below
                (unnamed-IsTaken parent key zone.label z zone wildcard e r refl h))
        ])

  arrive-Matches :
      (keys acc : List Bytes) (z : ℕ) (authorative : Bool) (deeper : Found)
      → Matches acc (zone_labels m z)
      → OnSome (λ y. Matches (reverse_aux keys acc) (zone_labels m y)) deeper.zone
      → OnSome
          (λ y. Matches (reverse_aux keys acc) (zone_labels m y))
          (arrive z authorative keys deeper).zone
  unfolding arrive OnSome
  arrive-Matches [] acc z authorative deeper h k = h
  arrive-Matches (key ∷ keys) acc z authorative deeper h k = k

  lookup_in-Matches :
      (keys acc : List Bytes) (zones : List ℕ) (authorative : Bool) (parent : Option ℕ)
      → All (IsBelow m parent) zones
      → Matches acc (above parent)
      → OnSome
          (λ z. Matches (reverse_aux keys acc) (zone_labels m z))
          (lookup_in iequals m keys zones authorative).zone
  unfolding lookup_in OnSome
  lookup_in-Matches [] acc zones authorative parent below h = tt
  lookup_in-Matches (k ∷ keys) acc zones authorative parent below h =
      elim (Option-cases (scan_level iequals m k none zones)) [
        | inl e ↦ rw (e, lookup_in) tt
        | inr (z, e) ↦
            let (zone, at_z, up, match) =
              OnSome-at (IsTaken parent k) _ (scan_level-IsTaken parent k none zones below tt) e in
            rw (e, lookup_in)
              (rw (at_z, lookup_in)
                (arrive-Matches keys (k ∷ acc) z zone.authorative _
                  (subst (Matches (k ∷ acc)) (sym (zone_labels-above z zone parent at_z up))
                    (match, h))
                  (lookup_in-Matches keys (k ∷ acc) zone.children zone.authorative (some z)
                    (family.children z zone at_z)
                    (subst (Matches (k ∷ acc)) (sym (zone_labels-above z zone parent at_z up))
                      (match, h)))))
      ]

  -- The zone that Lookup finds for a name is a zone of that name: it has as many labels, with those of
  -- its parents, as the name, and each is equal to the label of the name at its place or empty, which
  -- stands for any label. The zones must be linked as in a tree.
  pub lookup-Matches :
      (key : List Bytes) (z : ℕ)
      → (lookup iequals m key).zone ≡ some z
      → Matches key (zone_labels m z)
  unfolding lookup
  lookup-Matches key z e =
      subst (λ k. Matches k (zone_labels m z)) (reverse-reverse key)
        (OnSome-at (λ y. Matches (reverse_aux (reverse key) []) (zone_labels m y)) _
          (lookup_in-Matches (reverse key) [] m.zones false none family.roots tt) e)
