-- ===== src/Dns/Config/Setup.antt =====
-- What `SetupZones` (src/dnsd/DnsDaemon.cpp) makes of a configuration.
use mathlib.Core.List.{reverse_aux}
use v_ubercool.Base.{
  ℕ, zero, suc, ◌+◌, ◌<◌, ◌≡◌, refl, sym, subst, inl, inr, Bool, Option, none, some, List, [], ◌∷◌,
  ◌++◌, Bytes, codes, get_elem?, get_elem?_of_lt, lt-get_elem?, All, arith, Option-cases,
}
use v_ubercool.Base.Tree.{Tree, children_of, OnSome, >>=-OnSome, OnSome-at, get_or, get_or-same}
use v_ubercool.Dns.Zones.{Zone, ZoneMgr, zone_at, domain_name}
use v_ubercool.Dns.Zones.Matching.{IsBelow, IsFamily}
use v_ubercool.Dns.Zones.Ancestors.{IsAged, domain_name-parent, domain_name-root}
use v_ubercool.Dns.Config.{default_soa, read_soa, close_setup, setup_zones}
use v_ubercool.Dns.Config.Links.{parents, IsOlder, HasParent, IsLinked, Links, add_zones-Adds}

-- The tree of zones: all are linked, and the roots have no parent.
pub IsTree : ZoneMgr → Type 0
IsTree m =
    Links (parents m.objects) 0 m.objects × All (HasParent (parents m.objects) 0 none) m.zones

All-reverse_aux {ℓ κ} :
    {A : Type ℓ} (P : A → Type κ) (xs acc : List A)
    → All P xs
    → All P acc
    → All P (reverse_aux xs acc)
All-reverse_aux P [] acc h k = k
All-reverse_aux P (x ∷ xs) acc h k = All-reverse_aux P xs (x ∷ acc) h.1 (h.0, k)

Links-at :
    (ps : List (Option ℕ)) (n : ℕ) (zs : List Zone) (i : ℕ) {z : Zone}
    → Links ps n zs
    → get_elem? zs i ≡ some z
    → IsLinked ps (n + i) z
Links-at ps n [] i h e = cc
Links-at ps n (x ∷ xs) zero {z} h e =
    subst (IsLinked ps (n + 0)) (let k : x ≡ z = cc in k)
      (subst (λ m. IsLinked ps m x) (let k : n ≡ n + 0 = omega arith in k) h.0)
Links-at ps n (x ∷ xs) (suc i) {z} h e =
    subst (λ m. IsLinked ps m z) (let k : suc n + i ≡ n + suc i = omega arith in k)
      (Links-at ps (suc n) xs i h.1 e)

IsOlder-some : (o : Option ℕ) (z p : ℕ) → IsOlder o z → o ≡ some p → p < z
IsOlder-some none z p h e = cc
IsOlder-some (some q) z p h e = let k : q ≡ p = cc in omega (arith, k, h)

pub IsTree-IsAged : (m : ZoneMgr) → IsTree m → IsAged m
unfolding IsTree IsAged IsLinked
IsTree-IsAged m h z p zone e r =
    let below : p < 0 + z =
      IsOlder-some zone.parent (0 + z) p (Links-at (parents m.objects) 0 m.objects z h.0 e).0 r in
    omega (arith, below)

parents-get_elem? :
    (zs : List Zone) (c : ℕ) (parent : Option ℕ)
    → get_elem? (parents zs) c ≡ some parent
    → (zone : Zone) × (get_elem? zs c ≡ some zone) × (zone.parent ≡ parent)
parents-get_elem? [] c parent e = cc
parents-get_elem? (z ∷ zs) zero parent e = (z, refl, (let k : z.parent ≡ parent = cc in k))
parents-get_elem? (z ∷ zs) (suc c) parent e = parents-get_elem? zs c parent e

HasParent-IsBelow :
    (m : ZoneMgr) (n : ℕ) (parent : Option ℕ) (cs : List ℕ)
    → All (HasParent (parents m.objects) n parent) cs
    → All (IsBelow m parent) cs
HasParent-IsBelow m n parent [] h = tt
HasParent-IsBelow m n parent (c ∷ cs) h =
    (parents-get_elem? m.objects c parent h.0.1, HasParent-IsBelow m n parent cs h.1)

pub IsTree-IsFamily : (m : ZoneMgr) → IsTree m → IsFamily m
unfolding IsTree IsLinked
IsTree-IsFamily m h = record {
  aged = IsTree-IsAged m h;
  children = λ z zone e. HasParent-IsBelow m (suc (0 + z)) (some z) zone.children (
      subst (λ y. All (HasParent (parents m.objects) (suc (0 + z)) (some y)) zone.children)
        (let k : 0 + z ≡ z = omega arith in k)
        (Links-at (parents m.objects) 0 m.objects z h.0 e).1);
  roots = HasParent-IsBelow m 0 none m.zones h.1;
}

module _ (get_child : Bytes → Tree → Option Tree) (to_bool : Bytes → Option Bool)
    (to_uint32 to_uint16 : Bytes → Option ℕ) (to_address : Bytes → Option Bytes) where
  -- The zones of a configuration that is read without an error form a tree: every zone is older than
  -- its children, each child of a zone has it as its parent, and the root zones have no parent.
  pub setup_zones-IsTree :
      (t : Tree) (m : ZoneMgr)
      → setup_zones get_child to_bool to_uint32 to_uint16 to_address t ≡ some m
      → IsTree m
  unfolding setup_zones close_setup IsTree OnSome
  setup_zones-IsTree t m e =
      OnSome-at IsTree _
        (>>=-OnSome _ IsTree _ _
          (add_zones-Adds get_child to_bool to_uint32 to_uint16 to_address none (children_of t) []
            tt)
          (λ (objects, zs) (new, same, links, roots). (
            subst (Links (parents objects) 0) (sym same) links,
            All-reverse_aux (HasParent (parents objects) 0 none) zs [] roots tt,
          )))
        e

  -- The loop of GetDomainName ends at a root for every zone of a configuration that is read without an
  -- error: the name of a zone with a parent is its label, a dot and the name of the parent, and that of
  -- a zone without one is its label.
  pub setup_zones-domain_name :
      (t : Tree) (m : ZoneMgr) (z : ℕ) (zone : Zone)
      → setup_zones get_child to_bool to_uint32 to_uint16 to_address t ≡ some m
      → zone_at m z ≡ some zone
      → domain_name m z
        ≡ elim zone.parent [ none ↦ zone.label | some p ↦ zone.label ++ (b'.' ∷ domain_name m p) ]
  unfolding IsAged
  setup_zones-domain_name t m z zone e at_z =
      let aged = IsTree-IsAged m (setup_zones-IsTree t m e) in
      elim (Option-cases zone.parent) [
        | inl r ↦ rw r (domain_name-root m aged z zone at_z r)
        | inr (p, r) ↦
            let older = aged z p zone at_z r in
            let (above, at_p) =
              get_elem?_of_lt m.objects p (omega (arith, older, lt-get_elem? m.objects z at_z)) in
            rw r (domain_name-parent m aged z p zone above at_z r at_p)
      ]

  -- The numbers of an SOA record do not depend on the keys of the configuration that are named after
  -- them: two with the same value for "rname" give the same record.
  pub read_soa-rname :
      (t u : Tree)
      → get_child (codes "rname") t ≡ get_child (codes "rname") u
      → read_soa get_child to_bool to_uint32 to_uint16 to_address t
        ≡ read_soa get_child to_bool to_uint32 to_uint16 to_address u
  unfolding read_soa
  read_soa-rname t u e =
      let number : (n : ℕ)
          → get_or get_child to_uint32 n (codes "rname") t
            ≡ get_or get_child to_uint32 n (codes "rname") u =
        λ n. get_or-same get_child to_uint32 n (codes "rname") t u e in
      rw
        (
          get_or-same get_child some default_soa.rname (codes "rname") t u e,
          number default_soa.serial,
          number default_soa.refresh,
          number default_soa.retry,
          number default_soa.expire,
          number default_soa.minimum,
        )
        refl
