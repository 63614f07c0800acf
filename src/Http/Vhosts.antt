-- ===== src/Http/Vhosts.antt =====
-- `GetHost` of src/daemon/VhostManager.cpp, which chooses the site for a request, and the hosts of
-- src/hosts: the hit counter of `PackedHostData` and the checks of `ProcessRequest`.
-- `boost::lexical_cast<uint32_t>` and `is_regular_file` are parameters.
pub mod Sites
pub mod Hits
pub mod Template
pub mod Store
use v_ubercool.Base.{
  ℕ, zero, suc, ◌+◌, ◌%◌, ◌^◌, Bool, true, false, not, Option, none, some, List, [], ◌∷◌, ◌++◌,
  Bytes, ltb, ◌==◌, equal, if◌then◌else◌, ◌||◌,
}
use v_ubercool.Http.Config.{HttpConfig}
use v_ubercool.Http.Request.{Method, get, head}

-- A site's index, or `ExceptionUnknownHost` or `ExceptionRedirect`.
pub data Resolved : Type 0 where
  site : ℕ → Resolved
  unknown_host : Resolved
  redirect : Bytes → Resolved

-- `find` of a map.
pub find_key {ℓ} : {A : Type ℓ} → Bytes → List (Bytes × A) → Option A
find_key key [] = none
find_key key ((k, x) ∷ m) = elim (equal k key) [ true ↦ some x | false ↦ find_key key m ]

-- What stands before the first `c`, or all.
pub before : ℕ → Bytes → Bytes
before c [] = []
before c (x ∷ xs) = elim (x == c) [ true ↦ [] | false ↦ x ∷ before c xs ]

pub contains : ℕ → Bytes → Bool
contains c [] = false
contains c (x ∷ xs) = x == c || contains c xs

-- `GetHostIndexFromName`.
redirect_from : Option Bytes → Resolved
redirect_from none = unknown_host
redirect_from (some url) = redirect url

pub get_host_index_from_name : HttpConfig → Bytes → Resolved
unfolding find_key redirect_from
get_host_index_from_name config name = elim (find_key name config.site_aliases) [
  | some ix ↦ site ix
  | none ↦ redirect_from (find_key name config.http_redirects)
]

-- The check of `GetHost` on the index.
in_range : HttpConfig → Resolved → Resolved
in_range config (site ix) = if ltb ix config.num_sites then site ix else unknown_host
in_range config r = r

module _ (to_number : Bytes → Option ℕ) where
  -- `GetHostIndex`.
  pub get_host_index : HttpConfig → Bytes → Resolved
  unfolding before contains get_host_index_from_name
  get_host_index config name =
      if contains b'.' name
      then elim (to_number (before b'.' name)) [
        | some ix ↦ site (ix % 2 ^ 32)
        | none ↦ get_host_index_from_name config name
      ]
      else get_host_index_from_name config name

  -- `GetHost`, up to the site that it finds.
  unfoldable pub get_host : HttpConfig → Bytes → Resolved
  unfolding before get_host_index in_range
  get_host config name = in_range config (get_host_index config (before b':' name))

-- `PackedHostData`: bit fields of 23 and 5 bits.
pub record PackedHostData : Type 0 where
  pub hostbits : ℕ
  pub host_template : ℕ

-- `IncHitCount`.
pub inc_hit_count : PackedHostData → PackedHostData
inc_hit_count d = record d { hostbits = (d.hostbits + 1) % 2 ^ 23 }

-- How `ProcessRequest` ends: with a page, of which `hits` is the hit count that it shows, or with
-- `ExceptionInvalidResource` or `ExceptionUnsupportedMethod`.
pub data Page : Type 0 where
  welcome : ℕ → Page
  file : Bytes → Page
  invalid_resource unsupported_method : Page

-- `DefaultHost::ProcessRequest`.
welcome_page : PackedHostData → PackedHostData × Page
unfolding inc_hit_count
welcome_page d = let d1 = inc_hit_count d in (d1, welcome d1.hostbits)

is_root : Bytes → Bool
unfolding before
is_root uri = equal (before b'?' uri) (b'/' ∷ [])

is_readable : Method → Bool
is_readable get = true
is_readable head = true
is_readable _ = false

pub default_host : Method → Bytes → PackedHostData → PackedHostData × Page
unfolding is_readable is_root welcome_page
default_host method uri d =
    if is_readable method
    then (if is_root uri then welcome_page d else (d, invalid_resource))
    else (d, unsupported_method)

-- `page.find("..")`, as a condition: it holds if there is no "..", as `npos` is not zero, and if there
-- is one behind the first octet.
pub starts_with_dots : Bytes → Bool
starts_with_dots [] = false
starts_with_dots (c ∷ []) = false
starts_with_dots (c ∷ d ∷ cs) = elim (c == b'.') [ true ↦ d == b'.' | false ↦ false ]

pub find_dots : Bytes → Option ℕ
unfolding starts_with_dots
find_dots [] = none
find_dots (c ∷ cs) = elim (starts_with_dots (c ∷ cs)) [
  | true ↦ some 0
  | false ↦ elim (find_dots cs) [ none ↦ none | some i ↦ some (suc i) ]
]

as_condition : Option ℕ → Bool
as_condition none = true
as_condition (some i) = not (i == 0)

-- `if (page.back() == '/') page += "index.html"`.
pub with_default_page : Bytes → Bytes
with_default_page [] = []
with_default_page (c ∷ []) =
    if c == b'/'
    then c ∷ b'i' ∷ b'n' ∷ b'd' ∷ b'e' ∷ b'x' ∷ b'.' ∷ b'h' ∷ b't' ∷ b'm' ∷ b'l' ∷ []
    else c ∷ []
with_default_page (c ∷ d ∷ cs) = c ∷ with_default_page (d ∷ cs)

-- `StaticPageHost::ProcessRequest`.
module _ (is_regular_file : Bytes → Bool) where
  serve_page : Bytes → PackedHostData → PackedHostData × Page
  unfolding find_dots as_condition inc_hit_count
  serve_page page d =
      if as_condition (find_dots page)
      then (d, invalid_resource)
      else if not (is_regular_file page)
      then (inc_hit_count d, invalid_resource)
      else (inc_hit_count d, file page)

  pub static_page_host : Bytes → PackedHostData → PackedHostData × Page
  unfolding with_default_page serve_page
  static_page_host uri d = serve_page (with_default_page uri) d
