-- ===== src/Http/Vhosts/Store.antt =====
-- The memory-mapped file of `VectorVhostManager` (src/daemon/VhostManager.cpp), which holds the
-- `PackedHostData` of all sites. The size of that structure, and what its octets say, are the
-- compiler's: they are parameters.
mod Tests
use native.Mathlib.Nat.{suc-mul}
use v_ubercool.Base.{
  ℕ, zero, suc, ◌+◌, ◌*◌, ◌-◌, ◌<◌, ◌≡◌, refl, ap, ◌∙◌, ◌⊎◌, inl, inr, Bool, true, false, not, ◌||◌,
  Option, none, some, List, [], ◌∷◌, ◌++◌, Bytes, length, length-append, take, drop, replicate,
  arith, ◌==◌, All, All-replicate, Bool-cases, if◌then◌else◌,
}
use v_ubercool.Http.Config.{HttpConfig}
use v_ubercool.Http.Vhosts.{PackedHostData}
use v_ubercool.Http.Session.Safe.{HasFactory, IsHosted}

abbrev pub zeros : ℕ → Bytes
zeros n = replicate n 0

zeros-snoc : (n : ℕ) → zeros n ++ (0 ∷ []) ≡ 0 ∷ zeros n
zeros-snoc zero = refl
zeros-snoc (suc n) = ap (◌∷◌ 0) (zeros-snoc n)

take-zeros : (s k m : ℕ) → k ≡ s + m → take s (zeros k) ≡ zeros s
take-zeros zero k m h = refl
take-zeros (suc s) zero m h = absurd (omega (arith, h))
take-zeros (suc s) (suc k) m h = ap (◌∷◌ 0) (take-zeros s k m (omega (arith, h)))

drop-zeros : (s k m : ℕ) → k ≡ s + m → drop s (zeros k) ≡ zeros m
drop-zeros zero k m h = ap zeros (omega (arith, h))
drop-zeros (suc s) zero m h = absurd (omega (arith, h))
drop-zeros (suc s) (suc k) m h = drop-zeros s k m (omega (arith, h))

-- A new file: `seekp` to its last octet, which fails for a size of zero, and a zero there. The octets
-- before it read as zeros.
create_file : ℕ → Bytes
create_file zero = []
create_file (suc n) = zeros n ++ (0 ∷ [])

create_file-zeros : (n : ℕ) → create_file n ≡ zeros n
unfolding create_file
create_file-zeros zero = refl
create_file-zeros (suc n) = zeros-snoc n

-- `do_create`, of a file that may not be there.
unfoldable pub do_create : Option Bytes → ℕ → Bool → Bool
do_create none size force = true
do_create (some f) size force = force || not (length f == size)

-- `PreAllocateMmapFile`: the file that it leaves.
pre_allocate : Option Bytes → ℕ → Bool → Bytes
unfolding do_create create_file
pre_allocate none size force = create_file size
pre_allocate (some f) size force = if do_create (some f) size force then create_file size else f

module _ (size_of : ℕ) (decode : Bytes → PackedHostData) where
  -- `data_`: the structures at the head of the region.
  unfoldable pub hosts_in : ℕ → Bytes → List PackedHostData
  hosts_in zero f = []
  hosts_in (suc n) f = decode (take size_of f) ∷ hosts_in n (drop size_of f)

  -- The file that the constructor of the manager maps.
  unfoldable pub create_data : Option Bytes → HttpConfig → Bytes
  unfolding pre_allocate
  create_data file config = pre_allocate file (config.num_sites * size_of) config.recreate_mmap_file

  -- The data of a site of a new file.
  abbrev pub zero_data : PackedHostData
  zero_data = decode (zeros size_of)

  length-hosts_in : (n : ℕ) (f : Bytes) → length (hosts_in n f) ≡ n
  unfolding hosts_in
  length-hosts_in zero f = refl
  length-hosts_in (suc n) f = ap suc (length-hosts_in n (drop size_of f))

  hosts_in-zeros : (n k : ℕ) → k ≡ n * size_of → hosts_in n (zeros k) ≡ replicate n zero_data
  unfolding hosts_in
  hosts_in-zeros zero k h = refl
  hosts_in-zeros (suc n) k h =
      let split : k ≡ size_of + n * size_of = omega (arith, h, suc-mul n size_of) in
      rw (take-zeros size_of k (n * size_of) split, drop-zeros size_of k (n * size_of) split)
        (ap (◌∷◌ zero_data) (hosts_in-zeros n (n * size_of) refl))

  hosts_in-create_file : (n : ℕ) → hosts_in n (create_file (n * size_of)) ≡ replicate n zero_data
  hosts_in-create_file n =
      ap (hosts_in n) (create_file-zeros (n * size_of)) ∙ hosts_in-zeros n (n * size_of) refl

  -- A new file is to be made: by the configuration, or for want of one of the right size.
  abbrev pub IsUnfit : Option Bytes → HttpConfig → Type 0
  IsUnfit file config =
      (config.recreate_mmap_file ≡ true)
      ⊎ ((file ≡ none)
          ⊎ ((g : Bytes) × (file ≡ some g) × (length g == config.num_sites * size_of ≡ false)))

  -- A file that is kept as it was, or a new one.
  abbrev pub IsStored : Option Bytes → HttpConfig → Bytes → Type 0
  IsStored file config f =
      ((config.recreate_mmap_file ≡ false)
        × (length f == config.num_sites * size_of ≡ true)
        × (file ≡ some f))
      ⊎ (IsUnfit file config × (hosts_in config.num_sites f ≡ replicate config.num_sites zero_data))

  pre_allocate-IsStored :
      (file : Option Bytes) (config : HttpConfig) → IsStored file config (create_data file config)
  unfolding create_data pre_allocate do_create
  pre_allocate-IsStored none config = inr (inr (inl refl), hosts_in-create_file config.num_sites)
  pre_allocate-IsStored (some f) config =
      let n = config.num_sites in
      elim (Bool-cases config.recreate_mmap_file) [
        | inl e ↦ inr (inl e, rw e (hosts_in-create_file n))
        | inr e ↦ elim (Bool-cases (length f == n * size_of)) [
          | inl h ↦ rw (e, h) (inl (refl, h, refl))
          | inr h ↦ rw (e, h) (inr (inr (inr (f, refl, h)), hosts_in-create_file n))
        ]
      ]

  kept-All :
      (file : Option Bytes) (config : HttpConfig) (f : Bytes)
      → HasFactory zero_data
      → ((g : Bytes) → file ≡ some g → All HasFactory (hosts_in config.num_sites g))
      → IsStored file config f
      → All HasFactory (hosts_in config.num_sites f)
  kept-All file config f h old (inl (_, _, e)) = old f e
  kept-All file config f h old (inr (_, e)) =
      rw e (All-replicate HasFactory config.num_sites zero_data h)

  -- The file that the manager maps is the one that was there, if it has the right size and is not to
  -- be recreated, or a new one, in which every site has the data of zero octets. Every site has its
  -- data and a template with a factory, if those of the file that was there have one and so have the
  -- zero octets.
  pub create_data-IsHosted :
      (file : Option Bytes) (config : HttpConfig)
      → HasFactory zero_data
      → ((g : Bytes) → file ≡ some g → All HasFactory (hosts_in config.num_sites g))
      → let f = create_data file config in
        IsStored file config f × IsHosted config (hosts_in config.num_sites f)
  unfolding IsHosted
  create_data-IsHosted file config h old =
      let f = create_data file config in
      let stored = pre_allocate-IsStored file config in
      (stored, (length-hosts_in config.num_sites f, kept-All file config f h old stored))
