-- ===== src/Dns/Config/Total.antt =====
-- When `SetupZones` (src/dnsd/DnsDaemon.cpp) makes zones of a configuration.
use v_ubercool.Base.{
  ℕ, ◌≡◌, Bool, true, false, Option, none, some, List, [], ◌∷◌, ◌++◌, Bytes, length,
}
use v_ubercool.Base.Tree.{
  Tree, Forest, node, leaf, branch, text_of, children_of, ◌>>=◌, IsFound, >>=-IsFound, IsFound-some,
}
use v_ubercool.Dns.Zones.{Zone, ZoneMgr}
use v_ubercool.Dns.Config.{
  is_zone, erase_first, read_mx, read_a, read_zone, add_zones, add_zone, setup_zones,
}

module _ (get_child : Bytes → Tree → Option Tree) (to_bool : Bytes → Option Bool)
    (to_uint32 to_uint16 : Bytes → Option ℕ) (to_address : Bytes → Option Bytes)
    (number : (text : Bytes) → IsFound (to_uint16 text))
    (address : (text : Bytes) → IsFound (to_address text)) where
  read_mx-IsFound :
      (z : ℕ) (kids : Forest)
      → IsFound (read_mx get_child to_bool to_uint32 to_uint16 to_address z kids)
  unfolding read_mx
  read_mx-IsFound z leaf = tt
  read_mx-IsFound z (branch key t rest) =
      >>=-IsFound _ _ (number (text_of t))
        (λ priority. >>=-IsFound _ _ (read_mx-IsFound z rest) (λ more. tt))

  read_a-IsFound :
      (keys : List Bytes) → IsFound (read_a get_child to_bool to_uint32 to_uint16 to_address keys)
  unfolding read_a
  read_a-IsFound [] = tt
  read_a-IsFound (key ∷ keys) =
      >>=-IsFound _ _ (address key) (λ a. >>=-IsFound _ _ (read_a-IsFound keys) (λ more. tt))

  read_zone-IsFound :
      (z : ℕ) (name : Bytes) (parent : Option ℕ) (t : Tree)
      → IsFound (read_zone get_child to_bool to_uint32 to_uint16 to_address z name parent t)
  unfolding read_zone
  read_zone-IsFound z name parent t =
      >>=-IsFound _ _ (read_mx-IsFound z _) (λ mx. >>=-IsFound _ _ (read_a-IsFound _) (λ a. tt))

  mutual
    unfolding add_zones

    add_zones-IsFound :
        (parent : Option ℕ) (kids : Forest) (objects : List Zone)
        → IsFound (add_zones get_child to_bool to_uint32 to_uint16 to_address parent kids objects)
    add_zones-IsFound parent leaf objects = tt
    add_zones-IsFound parent (branch key t rest) objects =
        elim (is_zone key)
          as (λ b. IsFound (elim b [
            | true ↦
                (add_zone get_child to_bool to_uint32 to_uint16 to_address (erase_first key) parent
                    t objects
                  >>= λ (objects1, z).
                      add_zones get_child to_bool to_uint32 to_uint16 to_address parent rest
                        objects1
                      >>= λ (objects2, zs). some (objects2, z ∷ zs))
            | false ↦ add_zones get_child to_bool to_uint32 to_uint16 to_address parent rest objects
          ])) [
            | true ↦
                >>=-IsFound _ _ (add_zone-IsFound (erase_first key) parent t objects)
                  (λ (objects1, z).
                    >>=-IsFound _ _ (add_zones-IsFound parent rest objects1) (λ r. tt))
            | false ↦ add_zones-IsFound parent rest objects
          ]

    add_zone-IsFound :
        (name : Bytes) (parent : Option ℕ) (t : Tree) (objects : List Zone)
        → IsFound (add_zone get_child to_bool to_uint32 to_uint16 to_address name parent t objects)
    add_zone-IsFound name parent (node text kids) objects =
        >>=-IsFound _ _ (read_zone-IsFound (length objects) name parent (node text kids)) (λ zone.
          >>=-IsFound _ _ (add_zones-IsFound (some (length objects)) kids (objects ++ zone ∷ []))
            (λ below. tt))

  -- Every configuration, however deep, gives a tree of zones, if the texts for priorities and
  -- addresses can be converted: the reading has no other error.
  pub setup_zones-some :
      (t : Tree)
      → (m : ZoneMgr) × (setup_zones get_child to_bool to_uint32 to_uint16 to_address t ≡ some m)
  unfolding setup_zones
  setup_zones-some t =
      IsFound-some _ (>>=-IsFound _ _ (add_zones-IsFound none (children_of t) []) (λ found. tt))
