-- ===== src/Dns/Config.antt =====
-- The zones of the configuration file: `SetupZones`, `AddZones` and `AddZone` of src/dnsd/DnsDaemon.cpp
-- and `AddRootZone` of src/dnsd/Zone.h. A new zone is the next object of the store; an exception ends
-- the start of the server. The search of a child and the conversions of texts are parameters.
pub mod Links
pub mod Setup
pub mod Total
mod Tests
use mathlib.Core.List.{reverse}
use v_ubercool.Base.{
  ℕ, Bool, true, false, ◌==◌, Option, none, some, List, [], ◌∷◌, ◌++◌, Bytes, codes, length, set,
}
use v_ubercool.Base.Tree.{
  Tree, Forest, node, leaf, branch, text_of, children_of, keys_of, ◌>>=◌, get_or, get_optional,
  kids_at,
}
use v_ubercool.Dns.Zones.{Server, Exchange, SoaData, Zone, ZoneMgr}

-- A new `Zone::soa`.
abbrev pub default_soa : SoaData
default_soa = record {
  rname = codes "hostmaster";
  serial = 1;
  refresh = 7200;
  retry = 600;
  expire = 3600000;
  minimum = 60;
}

-- `name[0] == '@'`, of a name that is not empty.
pub is_zone : Bytes → Bool
is_zone [] = false
is_zone (c ∷ cs) = c == b'@'

-- The name without its first octet.
erase_first : Bytes → Bytes
erase_first [] = []
erase_first (c ∷ cs) = cs

module _ (get_child : Bytes → Tree → Option Tree) (to_bool : Bytes → Option Bool)
    (to_uint32 to_uint16 : Bytes → Option ℕ) (to_address : Bytes → Option Bytes) where
  -- The record at the key "soa". All numbers are read from the key "rname".
  pub read_soa : Tree → SoaData
  read_soa t = record {
    rname = get_or get_child some default_soa.rname (codes "rname") t;
    serial = get_or get_child to_uint32 default_soa.serial (codes "rname") t;
    refresh = get_or get_child to_uint32 default_soa.refresh (codes "rname") t;
    retry = get_or get_child to_uint32 default_soa.retry (codes "rname") t;
    expire = get_or get_child to_uint32 default_soa.expire (codes "rname") t;
    minimum = get_or get_child to_uint32 default_soa.minimum (codes "rname") t;
  }

  read_soa_of : Option Tree → Option SoaData
  unfolding read_soa
  read_soa_of none = none
  read_soa_of (some t) = some (read_soa t)

  read_ns : ℕ → List Bytes → List Server
  read_ns z [] = []
  read_ns z (key ∷ keys) = record { fqdn = key; zone = some z } ∷ read_ns z keys

  read_mx : ℕ → Forest → Option (List Exchange)
  read_mx z leaf = some []
  read_mx z (branch key t rest) = do
    priority ← to_uint16 (text_of t)
    more ← read_mx z rest
    some (record { server = record { fqdn = key; zone = some z }; priority = priority } ∷ more)

  read_a : List Bytes → Option (List Bytes)
  read_a [] = some []
  read_a (key ∷ keys) = do address ← to_address key; more ← read_a keys; some (address ∷ more)

  -- The zone `z` without its children.
  read_zone : ℕ → Bytes → Option ℕ → Tree → Option Zone
  unfolding read_soa_of read_ns read_mx read_a
  read_zone z name parent t = do
    mx ← read_mx z (kids_at get_child (codes "mx") t)
    a ← read_a (keys_of (kids_at get_child (codes "a") t))
    some (record {
      parent = parent;
      label = name;
      a = a;
      ns = read_ns z (keys_of (kids_at get_child (codes "ns") t));
      mx = mx;
      cname = get_or get_child some [] (codes "cname") t;
      soa = read_soa_of (get_child (codes "soa") t);
      children = [];
      authorative = get_or get_child to_bool false (codes "authorative") t;
    })

  -- `zone->children = move(AddZones(pt, zone.get()))`.
  close_zone : ℕ → Zone → List Zone × List ℕ → List Zone × ℕ
  close_zone z zone (objects, children) = (set objects z (record zone { children = children }), z)

  mutual
    unfolding is_zone erase_first read_zone close_zone

    pub add_zones : Option ℕ → Forest → List Zone → Option (List Zone × List ℕ)
    add_zones parent leaf objects = some (objects, [])
    add_zones parent (branch key t rest) objects = elim (is_zone key) [
      | true ↦ (do
        (objects1, z) ← add_zone (erase_first key) parent t objects
        (objects2, zs) ← add_zones parent rest objects1
        some (objects2, z ∷ zs))
      | false ↦ add_zones parent rest objects
    ]

    pub add_zone : Bytes → Option ℕ → Tree → List Zone → Option (List Zone × ℕ)
    add_zone name parent (node text kids) objects = do
      zone ← read_zone (length objects) name parent (node text kids)
      below ← add_zones (some (length objects)) kids (objects ++ zone ∷ [])
      some (close_zone (length objects) zone below)

  -- `SetupZones`, which takes the root zones from the end of the vector.
  close_setup : List Zone × List ℕ → ZoneMgr
  close_setup (objects, zs) = record { objects = objects; zones = reverse zs }

  unfoldable pub setup_zones : Tree → Option ZoneMgr
  unfolding add_zones close_setup
  setup_zones t = do found ← add_zones none (children_of t) []; some (close_setup found)
