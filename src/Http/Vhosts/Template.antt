-- ===== src/Http/Vhosts/Template.antt =====
-- The hosts of src/hosts leave the number of a site's template alone.
use v_ubercool.Base.{◌≡◌, refl, Bool, not, Bytes, if_intro}
use v_ubercool.Http.Request.{Method}
use v_ubercool.Http.Vhosts.{
  PackedHostData, Page, inc_hit_count, is_readable, is_root, welcome_page, default_host, find_dots,
  as_condition, serve_page, with_default_page, static_page_host,
}

abbrev pub Keeps : PackedHostData → PackedHostData × Page → Type 0
Keeps d (d', page) = d'.host_template ≡ d.host_template

pub default_host-Keeps :
    (method : Method) (uri : Bytes) (d : PackedHostData) → Keeps d (default_host method uri d)
unfolding default_host welcome_page inc_hit_count
default_host-Keeps method uri d =
    if_intro (Keeps d) (is_readable method) _ _
      (λ _. if_intro (Keeps d) (is_root uri) _ _ (λ _. refl) (λ _. refl)) (λ _. refl)

pub static_page_host-Keeps :
    (is_regular_file : Bytes → Bool) (uri : Bytes) (d : PackedHostData)
    → Keeps d (static_page_host is_regular_file uri d)
unfolding static_page_host serve_page inc_hit_count
static_page_host-Keeps is_regular_file uri d =
    let page = with_default_page uri in
    if_intro (Keeps d) (as_condition (find_dots page)) _ _ (λ _. refl)
      (λ _. if_intro (Keeps d) (not (is_regular_file page)) _ _ (λ _. refl) (λ _. refl))
