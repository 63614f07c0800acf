-- ===== src/Dns/Zones/Visible.antt =====
-- `ZoneMgr::Lookup` (src/dnsd/Zone.h) finds the zones of the tree by their names.
use mathlib.Core.List.{reverse_aux}
use v_ubercool.Base.{
  ℕ, ◌≡◌, refl, ap, ◌∙◌, Bool, true, false, Option, none, some, List, [], ◌∷◌, ◌++◌, Bytes, All,
}
use v_ubercool.Dns.Zones.{
  Zone, ZoneMgr, zone_at, zone_labels, scan_level, arrive, lookup_in, lookup,
}
use v_ubercool.Dns.Zones.Ancestors.{IsAged, zone_labels-parent, zone_labels-root}

module _ (iequals : Bytes → Bytes → Bool) (m : ZoneMgr) where
  -- A zone whose label is another one.
  abbrev pub IsUnlike : Bytes → ℕ → Type 0
  IsUnlike label y = (zone : Zone) × (zone_at m y ≡ some zone) × (iequals label zone.label ≡ false)

  -- A zone of a level that has no earlier one with an equal label.
  pub record IsFirst (z : ℕ) (label : Bytes) (zones : List ℕ) : Type 0 where
    pub before : List ℕ
    pub behind : List ℕ
    pub split : zones ≡ before ++ z ∷ behind
    pub unlike : All (IsUnlike label) before

  -- A zone that can be come to from the roots by such zones.
  pub data IsVisible : ℕ → Zone → Type 0 where
    at_root :
        {z : ℕ} {zone : Zone}
        → zone_at m z ≡ some zone
        → zone.parent ≡ none
        → IsFirst z zone.label m.zones
        → IsVisible z zone
    below :
        {p z : ℕ} {above zone : Zone}
        → IsVisible p above
        → zone_at m z ≡ some zone
        → zone.parent ≡ some p
        → IsFirst z zone.label above.children
        → IsVisible z zone

  scan_level_past :
      (key : Bytes) (wildcard : Option ℕ) (before : List ℕ) (z : ℕ) (behind : List ℕ) (zone : Zone)
      → All (IsUnlike key) before
      → zone_at m z ≡ some zone
      → iequals key zone.label ≡ true
      → scan_level iequals m key wildcard (before ++ z ∷ behind) ≡ some z
  unfolding scan_level
  scan_level_past key wildcard [] z behind zone h e t = rw (e, scan_level) (rw t refl)
  scan_level_past key wildcard (y ∷ before) z behind zone ((other, at_y, f), h) e t =
      rw (at_y, scan_level) (rw f (scan_level_past key _ before z behind zone h e t))

  module _ (same : (label : Bytes) → iequals label label ≡ true) (aged : IsAged m) where
    -- One level of the lookup.
    lookup_in-first :
        (z : ℕ) (zone : Zone) (rest : List Bytes) (zones : List ℕ) (authorative : Bool)
        → zone_at m z ≡ some zone
        → IsFirst z zone.label zones
        → lookup_in iequals m (zone.label ∷ rest) zones authorative
          ≡ arrive z zone.authorative rest (lookup_in iequals m rest zone.children zone.authorative)
    unfolding lookup_in
    lookup_in-first z zone rest zones authorative e first =
        let found : scan_level iequals m zone.label none zones ≡ some z =
          ap (scan_level iequals m zone.label none) first.split
          ∙ scan_level_past zone.label none first.before z first.behind zone first.unlike e
              (same zone.label) in
        rw (found, lookup_in) (rw (e, lookup_in) refl)

    -- The labels of a zone, and others below it.
    lookup_in-labels :
        (z : ℕ) (zone : Zone) (rest : List Bytes)
        → IsVisible z zone
        → lookup_in iequals m (reverse_aux (zone_labels m z) rest) m.zones false
          ≡ arrive z zone.authorative rest (lookup_in iequals m rest zone.children zone.authorative)
    unfolding arrive
    lookup_in-labels z zone rest (at_root e r first) =
        ap (λ ls. lookup_in iequals m (reverse_aux ls rest) m.zones false)
          (zone_labels-root m aged z zone e r)
        ∙ lookup_in-first z zone rest m.zones false e first
    lookup_in-labels z zone rest (below {p} {above} v e r first) =
        ap (λ ls. lookup_in iequals m (reverse_aux ls rest) m.zones false)
          (zone_labels-parent m aged z p zone e r)
        ∙ lookup_in-labels p above (zone.label ∷ rest) v
        ∙ lookup_in-first z zone rest above.children above.authorative e first

    -- Lookup finds every zone by its own name, with its own flag of authority, if no zone on the way to
    -- it from a root has an earlier sibling with an equal label. Parents must be older than their
    -- children, and labels be equal to themselves.
    pub lookup-zone_labels :
        (z : ℕ) (zone : Zone)
        → IsVisible z zone
        → lookup iequals m (zone_labels m z)
          ≡ record { zone = some z; authorative = zone.authorative }
    unfolding lookup arrive
    lookup-zone_labels z zone v = lookup_in-labels z zone [] v
