-- ===== src/Dns/Config/Tests.antt =====
-- A configuration of two zones, read.
use v_ubercool.Base.{
  ℕ, ◌≡◌, refl, Bool, true, false, Option, none, some, [], ◌∷◌, ◌++◌, Bytes, codes, equal,
  equal_iff,
}
use v_ubercool.Base.Tree.{Tree, Forest, node, leaf, branch, children_of, get_or, ◌>>=◌}
use v_ubercool.Dns.Zones.Visible.{IsVisible, at_root, below, lookup-zone_labels}
use v_ubercool.Dns.Zones.{lookup, zone_labels, Zone, ZoneMgr, domain_name}
use v_ubercool.Dns.Zones.Matching.{IsFamily, Matches, lookup-Matches}
use v_ubercool.Dns.Config.{read_soa, setup_zones}
use v_ubercool.Dns.Config.Setup.{
  IsTree-IsFamily, IsTree-IsAged, IsTree, setup_zones-IsTree, setup_zones-domain_name,
  read_soa-rname,
}
use v_ubercool.Dns.Config.Total.{setup_zones-some}

-- The first child with the name.
abbrev find_child : Bytes → Forest → Option Tree
find_child key leaf = none
find_child key (branch k t rest) = elim (equal k key) [
  | true ↦ some t
  | false ↦ find_child key rest
]

abbrev get_child : Bytes → Tree → Option Tree
get_child key t = find_child key (children_of t)

abbrev flag : Bytes → Option Bool
flag text = some true

abbrev five : Bytes → Option ℕ
five text = some 5

abbrev home : Bytes → Option Bytes
home text = some (127 ∷ 0 ∷ 0 ∷ 1 ∷ [])

abbrev soa : Bytes → Tree
soa serial = node [] (
    branch (codes "rname") (node (codes "me") leaf)
      (branch (codes "serial") (node serial leaf) leaf))

abbrev config : Tree
config = node [] (
    branch (codes "network") (node [] leaf) (
      branch (codes "@com")
        (node [] (
          branch (codes "@x")
            (node [] (
              branch (codes "soa") (soa (codes "1")) (
                branch (codes "mx") (node [] (branch (codes "mail") (node (codes "5") leaf) leaf))
                  leaf)))
            leaf))
        leaf))

setup_zones-some_at_input :
    (m : ZoneMgr) × (setup_zones get_child flag five five home config ≡ some m)
setup_zones-some_at_input =
    setup_zones-some get_child flag five five home (λ text. tt) (λ text. tt) config

abbrev com_zone : Zone
com_zone = record {
  parent = none;
  label = codes "com";
  a = [];
  ns = [];
  mx = [];
  cname = [];
  soa = none;
  children = 1 ∷ [];
  authorative = false;
}

abbrev x_zone : Zone
x_zone = record {
  parent = some 0;
  label = codes "x";
  a = [];
  ns = [];
  mx = record { server = record { fqdn = codes "mail"; zone = some 1 }; priority = 5 } ∷ [];
  cname = [];
  soa =
      some (record {
        rname = codes "me";
        serial = 5;
        refresh = 5;
        retry = 5;
        expire = 5;
        minimum = 5;
      });
  children = [];
  authorative = false;
}

abbrev zones : ZoneMgr
zones = record { objects = com_zone ∷ x_zone ∷ []; zones = 0 ∷ [] }

read : setup_zones get_child flag five five home config ≡ some zones
unfolding setup_zones equal get_or ◌>>=◌
read = refl

zones_linked : IsTree zones
zones_linked = setup_zones-IsTree get_child flag five five home config zones read

setup_zones-IsTree_example : IsTree zones
setup_zones-IsTree_example = setup_zones-IsTree get_child flag five five home config zones read

setup_zones-domain_name_at_input : domain_name zones 1 ≡ codes "x" ++ (b'.' ∷ domain_name zones 0)
setup_zones-domain_name_at_input =
    setup_zones-domain_name get_child flag five five home config zones 1 x_zone read refl

read_soa-rname_at_input :
    read_soa get_child flag five five home (soa (codes "1"))
    ≡ read_soa get_child flag five five home (soa (codes "2"))
unfolding equal
read_soa-rname_at_input =
    read_soa-rname get_child flag five five home (soa (codes "1")) (soa (codes "2")) refl

zones_family : IsFamily zones
zones_family = IsTree-IsFamily zones zones_linked

-- The zone x.com is found.
looked_up : (lookup equal zones (codes "x" ∷ codes "com" ∷ [])).zone ≡ some 1
unfolding lookup equal
looked_up = refl

lookup-Matches_example :
    Matches equal zones zones_family (codes "x" ∷ codes "com" ∷ []) (zone_labels zones 1)
lookup-Matches_example =
    lookup-Matches equal zones zones_family (codes "x" ∷ codes "com" ∷ []) 1 looked_up

com-IsVisible : IsVisible equal zones 0 com_zone
com-IsVisible = at_root refl refl (record { before = []; behind = []; split = refl; unlike = tt })

x-IsVisible : IsVisible equal zones 1 x_zone
x-IsVisible =
    below com-IsVisible refl refl (record { before = []; behind = []; split = refl; unlike = tt })

lookup-zone_labels_example :
    lookup equal zones (zone_labels zones 1) ≡ record { zone = some 1; authorative = false }
lookup-zone_labels_example =
    lookup-zone_labels equal zones (λ label. (equal_iff label label).1 refl)
      (IsTree-IsAged zones zones_linked) 1 x_zone x-IsVisible
