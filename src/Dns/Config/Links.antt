-- ===== src/Dns/Config/Links.antt =====
-- The tree of zones that the configuration makes (src/dnsd/DnsDaemon.cpp): how zones, their parents and
-- their children are linked.
use mathlib.Core.List.{append-nil, append_assoc}
use v_ubercool.Base.{
  ℕ, suc, ◌+◌, ◌≤◌, ◌<◌, ◌≡◌, refl, sym, ap, ◌∙◌, subst, Bool, true, false, Option, none, some,
  List, [], ◌∷◌, ◌++◌, Bytes, length, length-append, get_elem?, get_elem?-append_left, set, All,
  arith,
}
use v_ubercool.Base.Tree.{Tree, Forest, node, leaf, branch, ◌>>=◌, OnSome, >>=-OnSome, >>=-any}
use v_ubercool.Dns.Zones.{Zone}
use v_ubercool.Dns.Config.{is_zone, erase_first, read_zone, close_zone, add_zones, add_zone}

-- The parents of the zones of a store.
abbrev pub parents : List Zone → List (Option ℕ)
parents [] = []
parents (z ∷ zs) = z.parent ∷ parents zs

-- A zone that is older than `n`, if there is one.
abbrev pub IsOlder : Option ℕ → ℕ → Type 0
IsOlder none n = Unit
IsOlder (some p) n = p < n

-- A zone `c` with the parent `parent`, of index `n` or more.
abbrev pub HasParent : List (Option ℕ) → ℕ → Option ℕ → ℕ → Type 0
HasParent ps n parent c = (n ≤ c) × (get_elem? ps c ≡ some parent)

-- The zone `n`: its parent is older, and its children are younger and have it as their parent.
unfoldable pub IsLinked : List (Option ℕ) → ℕ → Zone → Type 0
IsLinked ps n z = IsOlder z.parent n × All (HasParent ps (suc n) (some n)) z.children

abbrev pub Links : List (Option ℕ) → ℕ → List Zone → Type 0
Links ps n [] = Unit
Links ps n (z ∷ zs) = IsLinked ps n z × Links ps (suc n) zs

parents-append : (xs ys : List Zone) → parents (xs ++ ys) ≡ parents xs ++ parents ys
parents-append [] ys = refl
parents-append (x ∷ xs) ys = ap (◌∷◌ x.parent) (parents-append xs ys)

HasParent-append :
    (ps qs : List (Option ℕ)) (n : ℕ) (parent : Option ℕ) (cs : List ℕ)
    → All (HasParent ps n parent) cs
    → All (HasParent (ps ++ qs) n parent) cs
HasParent-append ps qs n parent [] h = tt
HasParent-append ps qs n parent (c ∷ cs) ((above, e), h) =
    ((above, get_elem?-append_left ps qs c e), HasParent-append ps qs n parent cs h)

Links-append :
    (ps qs : List (Option ℕ)) (n : ℕ) (zs : List Zone) → Links ps n zs → Links (ps ++ qs) n zs
unfolding IsLinked
Links-append ps qs n [] h = tt
Links-append ps qs n (z ∷ zs) ((older, below), h) = (
  (older, HasParent-append ps qs (suc n) (some n) z.children below),
  Links-append ps qs (suc n) zs h,
)

Links-join :
    (ps : List (Option ℕ)) (n : ℕ) (xs ys : List Zone)
    → Links ps n xs
    → Links ps (n + length xs) ys
    → Links ps n (xs ++ ys)
Links-join ps n [] ys h k = subst (λ m. Links ps m ys) (let e : n + 0 ≡ n = omega arith in e) k
Links-join ps n (x ∷ xs) ys h k = (
  h.0,
  Links-join ps (suc n) xs ys h.1 (
      subst (λ m. Links ps m ys)
        (let e : n + length (x ∷ xs) ≡ suc n + length xs = omega arith in e) k),
)

HasParent-weaken :
    (ps : List (Option ℕ)) (m n : ℕ) (parent : Option ℕ) (cs : List ℕ)
    → m ≤ n
    → All (HasParent ps n parent) cs
    → All (HasParent ps m parent) cs
HasParent-weaken ps m n parent [] l h = tt
HasParent-weaken ps m n parent (c ∷ cs) l ((above, e), h) =
    ((omega (arith, l, above), e), HasParent-weaken ps m n parent cs l h)

set-append_length :
    (xs : List Zone) (z z' : Zone) (ys : List Zone)
    → set ((xs ++ z ∷ []) ++ ys) (length xs) z' ≡ xs ++ z' ∷ ys
set-append_length [] z z' ys = refl
set-append_length (x ∷ xs) z z' ys = ap (◌∷◌ x) (set-append_length xs z z' ys)

get_elem?-parents :
    (xs : List Zone) (z : Zone) (ys : List Zone)
    → get_elem? (parents (xs ++ z ∷ ys)) (length xs) ≡ some z.parent
get_elem?-parents [] z ys = refl
get_elem?-parents (x ∷ xs) z ys = get_elem?-parents xs z ys

-- What adding zones does to the store: it appends linked zones, and the zones returned are among them.
abbrev Adds : Option ℕ → List Zone → List Zone × List ℕ → Type 0
Adds parent objects (objects', zs) =
    (new : List Zone) × (objects' ≡ objects ++ new)
    × Links (parents objects') (length objects) new
    × All (HasParent (parents objects') (length objects) parent) zs

abbrev AddsOne : Option ℕ → List Zone → List Zone × ℕ → Type 0
AddsOne parent objects (objects', z) = Adds parent objects (objects', z ∷ [])

-- One zone and its subzones, then others.
Adds-chain :
    (parent : Option ℕ) (objects objects1 objects2 : List Zone) (z : ℕ) (zs : List ℕ)
    → AddsOne parent objects (objects1, z)
    → Adds parent objects1 (objects2, zs)
    → Adds parent objects (objects2, z ∷ zs)
Adds-chain parent objects objects1 objects2 z zs (new1, e1, l1, h1) (new2, e2, l2, h2) =
    let ps : parents objects2 ≡ parents objects1 ++ parents new2 =
      ap parents e2 ∙ parents-append objects1 new2 in
    let size : length objects1 ≡ length objects + length new1 =
      omega (arith, ap length e1, length-append objects new1) in
    let first =
      subst (λ q. All (HasParent q (length objects) parent) (z ∷ [])) (sym ps)
        (HasParent-append (parents objects1) (parents new2) (length objects) parent (z ∷ []) h1) in
    (
      new1 ++ new2,
      e2 ∙ ap (λ o. o ++ new2) e1 ∙ append_assoc objects new1 new2,
      Links-join (parents objects2) (length objects) new1 new2
          (subst (λ q. Links q (length objects) new1) (sym ps)
            (Links-append (parents objects1) (parents new2) (length objects) new1 l1))
          (subst (λ m. Links (parents objects2) m new2) size l2),
      (
        first.0,
        HasParent-weaken (parents objects2) (length objects) (length objects1) parent zs
            (omega (arith, size)) h2,
      ),
    )

IsOlder-Adds :
    (parent : Option ℕ) (objects objects1 : List Zone) (zs : List ℕ)
    → Adds parent objects (objects1, zs)
    → IsOlder parent (length objects)
    → IsOlder parent (length objects1)
IsOlder-Adds none objects objects1 zs h older = tt
IsOlder-Adds (some p) objects objects1 zs (new, e, l, h) older =
    omega (arith, ap length e, length-append objects new, older)

module _ (get_child : Bytes → Tree → Option Tree) (to_bool : Bytes → Option Bool)
    (to_uint32 to_uint16 : Bytes → Option ℕ) (to_address : Bytes → Option Bytes) where
  Adds-close :
      (parent : Option ℕ) (objects : List Zone) (zone : Zone) (below : List Zone × List ℕ)
      → zone.parent ≡ parent
      → IsOlder parent (length objects)
      → Adds (some (length objects)) (objects ++ zone ∷ []) below
      → AddsOne parent objects
          (close_zone get_child to_bool to_uint32 to_uint16 to_address (length objects) zone below)
  unfolding close_zone IsLinked
  Adds-close parent objects zone (objects1, cs) p older (new, e, l, h) =
      let n = length objects in
      let zone' : Zone = record zone { children = cs } in
      let objects' = set objects1 n zone' in
      let e' : objects' ≡ objects ++ zone' ∷ new =
        ap (λ o. set o n zone') e ∙ set-append_length objects zone zone' new in
      let same : parents objects1 ≡ parents objects' =
        ap parents e
        ∙ ap parents (append_assoc objects (zone ∷ []) new)
        ∙ parents-append objects (zone ∷ new)
        ∙ sym (parents-append objects (zone' ∷ new))
        ∙ sym (ap parents e') in
      let size : length (objects ++ zone ∷ []) ≡ suc n =
        omega (arith, length-append objects (zone ∷ [])) in
      (
        zone' ∷ new,
        e',
        (
          (
            subst (λ q. IsOlder q n) (sym p) older,
            subst (λ q. All (HasParent q (suc n) (some n)) cs) same
                (subst (λ m. All (HasParent (parents objects1) m (some n)) cs) size h),
          ),
          subst (λ q. Links q (suc n) new) same
              (subst (λ m. Links (parents objects1) m new) size l),
        ),
        (
          (
            omega arith,
            ap (λ o. get_elem? (parents o) n) e' ∙ get_elem?-parents objects zone' new ∙ ap some p,
          ),
          tt,
        ),
      )

  -- A zone that is read has the parent given.
  abbrev IsChildOf : Option ℕ → Zone → Type 0
  IsChildOf parent zone = zone.parent ≡ parent

  read_zone-IsChildOf :
      (z : ℕ) (name : Bytes) (parent : Option ℕ) (t : Tree)
      → OnSome
          (IsChildOf parent)
          (read_zone get_child to_bool to_uint32 to_uint16 to_address z name parent t)
  unfolding read_zone OnSome
  read_zone-IsChildOf z name parent t =
      >>=-any (IsChildOf parent) _ _ (λ mx. >>=-any (IsChildOf parent) _ _ (λ a. refl))

  mutual
    unfolding add_zones OnSome

    pub add_zones-Adds :
        (parent : Option ℕ) (kids : Forest) (objects : List Zone)
        → IsOlder parent (length objects)
        → OnSome
            (Adds parent objects)
            (add_zones get_child to_bool to_uint32 to_uint16 to_address parent kids objects)
    add_zones-Adds parent leaf objects older = ([], sym (append-nil objects), tt, tt)
    add_zones-Adds parent (branch key t rest) objects older =
        elim (is_zone key)
          as (λ b. OnSome (Adds parent objects) (elim b [
            | true ↦
                (add_zone get_child to_bool to_uint32 to_uint16 to_address (erase_first key) parent
                    t objects
                  >>= λ (objects1, z).
                      add_zones get_child to_bool to_uint32 to_uint16 to_address parent rest
                        objects1
                      >>= λ (objects2, zs). some (objects2, z ∷ zs))
            | false ↦ add_zones get_child to_bool to_uint32 to_uint16 to_address parent rest objects
          ])) [
            | true ↦
                >>=-OnSome (AddsOne parent objects) (Adds parent objects) _ _
                  (add_zone-Adds (erase_first key) parent t objects older)
                  (λ (objects1, z) h.
                    >>=-OnSome (Adds parent objects1) (Adds parent objects) _ _
                      (add_zones-Adds parent rest objects1
                        (IsOlder-Adds parent objects objects1 (z ∷ []) h older))
                      (λ (objects2, zs) k. Adds-chain parent objects objects1 objects2 z zs h k))
            | false ↦ add_zones-Adds parent rest objects older
          ]

    add_zone-Adds :
        (name : Bytes) (parent : Option ℕ) (t : Tree) (objects : List Zone)
        → IsOlder parent (length objects)
        → OnSome
            (AddsOne parent objects)
            (add_zone get_child to_bool to_uint32 to_uint16 to_address name parent t objects)
    add_zone-Adds name parent (node text kids) objects older =
        >>=-OnSome (IsChildOf parent) (AddsOne parent objects) _ _
          (read_zone-IsChildOf (length objects) name parent (node text kids))
          (λ zone p.
            >>=-OnSome (Adds (some (length objects)) (objects ++ zone ∷ []))
              (AddsOne parent objects) _ _
              (add_zones-Adds (some (length objects)) kids (objects ++ zone ∷ [])
                (omega (arith, length-append objects (zone ∷ []))))
              (λ below h. Adds-close parent objects zone below p older h))
