-- ===== src/Http/Vhosts/Sites.antt =====
-- The site that `GetHost` of src/daemon/VhostManager.cpp finds, and the pages that the hosts serve.
use v_ubercool.Base.{
  ℕ, ◌%◌, ◌^◌, ◌<◌, ◌≡◌, refl, ap, ◌∙◌, ◌⊎◌, inl, inr, Bool, true, false, not, Option, some, [],
  ◌∷◌, ◌++◌, Bytes, arith, ◌==◌, if◌then◌else◌, Bool-cases, Option-cases,
}
use v_ubercool.Http.Config.{HttpConfig}
use v_ubercool.Http.Vhosts.{
  Resolved, site, unknown_host, redirect, find_key, before, contains, redirect_from,
  get_host_index_from_name, in_range, get_host_index, get_host, PackedHostData, file,
  invalid_resource, starts_with_dots, find_dots, as_condition, serve_page, with_default_page,
  static_page_host, inc_hit_count, Page,
}

before-append : (c : ℕ) (xs ys : Bytes) → before c (xs ++ c ∷ ys) ≡ before c xs
unfolding before
before-append c [] ys = ground arith
before-append c (x ∷ xs) ys = elim (Bool-cases (x == c)) [
  | inl t ↦ rw (t, before) refl
  | inr f ↦ rw (f, before) (ap (◌∷◌ x) (before-append c xs ys))
]

in_range-site :
    (config : HttpConfig) (r : Resolved) {ix : ℕ}
    → in_range config r ≡ site ix
    → (r ≡ site ix) × (ix < config.num_sites)
unfolding in_range
in_range-site config (site i) h = ground arith
in_range-site config unknown_host h = cc
in_range-site config (redirect u) h = cc

module _ (to_number : Bytes → Option ℕ) (config : HttpConfig) where
  -- The port of a host's name does not change its site.
  pub get_host_port :
      (name port : Bytes)
      → get_host to_number config (name ++ b':' ∷ port) ≡ get_host to_number config name
  unfolding get_host
  get_host_port name port =
      ap (λ n. in_range config (get_host_index to_number config n)) (before-append b':' name port)

  get_host_index_from_name-site :
      (name : Bytes) {ix : ℕ}
      → get_host_index_from_name config name ≡ site ix
      → find_key name config.site_aliases ≡ some ix
  unfolding get_host_index_from_name redirect_from
  get_host_index_from_name-site name h = ground arith

  get_host_index-site :
      (name : Bytes) {ix : ℕ}
      → get_host_index to_number config name ≡ site ix
      → ((n : ℕ) × (to_number (before b'.' name) ≡ some n) × (n % 2 ^ 32 ≡ ix))
        ⊎ (find_key name config.site_aliases ≡ some ix)
  unfolding get_host_index
  get_host_index-site name {ix} h = elim (Bool-cases (contains b'.' name)) [
    | inl t ↦ elim (Option-cases (to_number (before b'.' name))) [
      | inl e ↦ inr (get_host_index_from_name-site name (rw (t, e) at h))
      | inr (n, e) ↦
          let k : site (n % 2 ^ 32) ≡ site ix = (rw (t, e) at h) in inl (n, e, ground arith)
    ]
    | inr f ↦ inr (get_host_index_from_name-site name (rw f at h))
  ]

  -- A site that is found exists, and is the number before the first dot of the host's name without
  -- its port, modulo 2 ^ 32, or the site of which that name is an alias.
  pub get_host_found :
      (name : Bytes) {ix : ℕ}
      → get_host to_number config name ≡ site ix
      → (ix < config.num_sites)
        × (((n : ℕ) × (to_number (before b'.' (before b':' name)) ≡ some n) × (n % 2 ^ 32 ≡ ix))
            ⊎ (find_key (before b':' name) config.site_aliases ≡ some ix))
  unfolding get_host
  get_host_found name h =
      let (e, lt) = in_range-site config _ h in (lt, get_host_index-site (before b':' name) e)

as_condition-find_dots :
    (page : Bytes) → as_condition (find_dots page) ≡ not (starts_with_dots page)
unfolding as_condition find_dots
as_condition-find_dots [] = refl
as_condition-find_dots (c ∷ cs) = elim (Bool-cases (starts_with_dots (c ∷ cs))) [
  | inl t ↦ ground arith
  | inr f ↦ (elim (Option-cases (find_dots cs)) [
    | inl e ↦ ground arith
    | inr (i, e) ↦ ground arith
  ])
]

starts_with_dots-default :
    (uri : Bytes) → starts_with_dots (with_default_page uri) ≡ starts_with_dots uri
unfolding starts_with_dots with_default_page
starts_with_dots-default [] = refl
starts_with_dots-default (c ∷ []) = ground arith
starts_with_dots-default (c ∷ d ∷ []) = ground arith
starts_with_dots-default (c ∷ d ∷ e ∷ cs) = refl

serve_if :
    (b : Bool) (d : PackedHostData) (x y : Page)
    → ◌≡◌ {A = PackedHostData × Page} (if not b then (d, x) else (d, y)) (d, if b then y else x)
serve_if true d x y = refl
serve_if false d x y = refl

-- `StaticPageHost` serves the pages whose path begins with "..", if they are files, and counts the
-- hits on them; it refuses all others, and does not count them.
pub static_page_host_dots :
    (is_regular_file : Bytes → Bool) (uri : Bytes) (d : PackedHostData)
    → static_page_host is_regular_file uri d ≡ (
        if starts_with_dots uri
        then (
          inc_hit_count d,
          if is_regular_file (with_default_page uri)
              then file (with_default_page uri)
              else invalid_resource,
        )
        else (d, invalid_resource))
unfolding static_page_host serve_page
static_page_host_dots is_regular_file uri d =
    let check =
      as_condition-find_dots (with_default_page uri) ∙ ap not (starts_with_dots-default uri) in
    elim (Bool-cases (starts_with_dots uri)) [
      | inl t ↦ rw (check, t) (serve_if (is_regular_file (with_default_page uri)) _ _ _)
      | inr f ↦ rw (check, f) refl
    ]
