-- ===== src/Dns/Zones.antt =====
-- `Zone` and `ZoneMgr` of src/dnsd/Zone.h. Zones are objects that point to one another, so they
-- stand in a store, and a pointer is an index into it. `iequals` of boost::algorithm, which compares
-- labels, is a parameter of the lookup.
pub mod Lookup
pub mod Ancestors
pub mod Matching
pub mod Visible
use mathlib.Core.List.{reverse}
use v_ubercool.Base.{
  ℕ, zero, suc, Bool, true, false, Option, none, some, List, [], ◌∷◌, ◌++◌, Bytes, length,
  get_elem?, if◌then◌else◌,
}

-- `Zone::ns` and `Zone::mx`: a name with the zone that it is relative to.
pub record Server : Type 0 where
  pub fqdn : Bytes
  pub zone : Option ℕ

pub record Exchange : Type 0 where
  pub server : Server
  pub priority : ℕ

-- `Zone::soa`, whose zone is the one that owns it.
pub record SoaData : Type 0 where
  pub rname : Bytes
  pub serial : ℕ
  pub refresh : ℕ
  pub retry : ℕ
  pub expire : ℕ
  pub minimum : ℕ

pub record Zone : Type 0 where
  pub parent : Option ℕ
  pub label : Bytes
  pub a : List Bytes
  pub ns : List Server
  pub mx : List Exchange
  pub cname : Bytes
  pub soa : Option SoaData
  pub children : List ℕ
  pub authorative : Bool

-- The objects, and the root zones of `ZoneMgr`.
pub record ZoneMgr : Type 0 where
  pub objects : List Zone
  pub zones : List ℕ

abbrev pub zone_at : ZoneMgr → ℕ → Option Zone
zone_at m z = get_elem? m.objects z

-- The labels of a zone and of its parents, from it to the root, which `GetDomainName` joins. A
-- parent is older than its children, so the index bounds the way up.
abbrev zone_labels_from : (ℕ → List Bytes) → Option Zone → List Bytes
zone_labels_from rec none = []
zone_labels_from rec (some z) = elim z.parent [ none ↦ z.label ∷ [] | some p ↦ z.label ∷ rec p ]

zone_labels_fuel : ℕ → ZoneMgr → ℕ → List Bytes
zone_labels_fuel zero m z = []
zone_labels_fuel (suc fuel) m z = zone_labels_from (zone_labels_fuel fuel m) (zone_at m z)

unfoldable pub zone_labels : ZoneMgr → ℕ → List Bytes
unfolding zone_labels_fuel
zone_labels m z = zone_labels_fuel (suc z) m z

unfoldable pub join_dots : List Bytes → Bytes
join_dots [] = []
join_dots (l ∷ []) = l
join_dots (l ∷ k ∷ ls) = l ++ (b'.' ∷ join_dots (k ∷ ls))

-- `Zone::GetDomainName`.
unfoldable pub domain_name : ZoneMgr → ℕ → Bytes
unfolding zone_labels join_dots
domain_name m z = join_dots (zone_labels m z)

-- `Zone::ns::GetFdqn`.
unfoldable pub server_fqdn : ZoneMgr → Server → Bytes
unfolding domain_name
server_fqdn m s = elim s.zone [ none ↦ s.fqdn | some z ↦ s.fqdn ++ (b'.' ∷ domain_name m z) ]

-- What the recursive `Lookup` returns, and what it leaves in `*authorative`. The labels are those of
-- the name from its end, as the reverse iterator gives them.
pub record Found : Type 0 where
  pub zone : Option ℕ
  pub authorative : Bool

-- The zone `z` is the answer unless more labels are to be found, by the call `deeper`.
arrive : ℕ → Bool → List Bytes → Found → Found
arrive z authorative [] deeper = record { zone = some z; authorative = authorative }
arrive z authorative (key ∷ rest) deeper = deeper

module _ (iequals : Bytes → Bytes → Bool) where
  -- The loop over the zones of one level: the last unnamed zone so far, and the label sought. The
  -- zone that the level gives is `match ? match : wildchard`.
  pub scan_level : ZoneMgr → Bytes → Option ℕ → List ℕ → Option ℕ
  scan_level m key wildcard [] = wildcard
  scan_level m key wildcard (z ∷ zs) = elim (zone_at m z) [
    | none ↦ scan_level m key wildcard zs
    | some zone ↦ elim (iequals key zone.label) [
      | true ↦ some z
      | false ↦ scan_level m key (elim zone.label [ [] ↦ some z | _ ↦ wildcard ]) zs
    ]
  ]

  lookup_in : ZoneMgr → List Bytes → List ℕ → Bool → Found
  unfolding scan_level arrive
  lookup_in m [] zones authorative = record { zone = none; authorative = authorative }
  lookup_in m (key ∷ rest) zones authorative = elim (scan_level m key none zones) [
    | none ↦ record { zone = none; authorative = authorative }
    | some z ↦ elim (zone_at m z) [
      | none ↦ record { zone = none; authorative = authorative }
      | some zone ↦ arrive z zone.authorative rest (lookup_in m rest zone.children zone.authorative)
    ]
  ]

  -- `Lookup` of the labels of a name, whose `*authorative` was false.
  unfoldable pub lookup : ZoneMgr → List Bytes → Found
  unfolding lookup_in
  lookup m key = lookup_in m (reverse key) m.zones false
