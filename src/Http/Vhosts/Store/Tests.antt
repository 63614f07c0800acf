-- ===== src/Http/Vhosts/Store/Tests.antt =====
-- The file of one site, with bit fields from the lowest bit of a little-endian word on.
use v_ubercool.Base.{
  ◌+◌, ◌*◌, ◌/◌, ◌%◌, ◌^◌, ◌≡◌, refl, true, some, [], ◌∷◌, Bytes, All, arith, subst,
}
use v_ubercool.Http.Config.{HttpConfig, default_config}
use v_ubercool.Http.Vhosts.{PackedHostData}
use v_ubercool.Http.Vhosts.Store.{zero_data, hosts_in, create_data, IsStored, create_data-IsHosted}
use v_ubercool.Http.Session.Safe.{HasFactory, IsHosted}

abbrev decode_word : Bytes → PackedHostData
decode_word (a ∷ b ∷ c ∷ d ∷ rest) = record {
  hostbits = (a + b * 256 + c * 65536) % 2 ^ 23;
  host_template = (c / 128 + d * 2) % 32;
}
decode_word bytes = record { hostbits = 0; host_template = 0 }

abbrev one_site : HttpConfig
one_site = record default_config { num_sites = 1 }

-- Seven hits of a site of static pages.
abbrev seven : Bytes
seven = 7 ∷ 0 ∷ 128 ∷ 0 ∷ []

kept : create_data 4 decode_word (some seven) one_site ≡ seven
unfolding create_data
kept = refl

recreated :
    hosts_in 4 decode_word 1
      (create_data 4 decode_word (some seven) (record one_site { recreate_mmap_file = true }))
    ≡ record { hostbits = 0; host_template = 0 } ∷ []
unfolding create_data hosts_in
recreated = refl

zero_data-HasFactory : HasFactory (zero_data 4 decode_word)
unfolding HasFactory
zero_data-HasFactory = omega arith

seven-HasFactory : (g : Bytes) → some seven ≡ some g → All HasFactory (hosts_in 4 decode_word 1 g)
unfolding HasFactory hosts_in
seven-HasFactory g e =
    let same : seven ≡ g = cc in
    subst (λ f. All HasFactory (hosts_in 4 decode_word 1 f)) same (omega arith, tt)

create_data-IsHosted_example :
    let f = create_data 4 decode_word (some seven) one_site in
    IsStored 4 decode_word (some seven) one_site f × IsHosted one_site (hosts_in 4 decode_word 1 f)
create_data-IsHosted_example =
    create_data-IsHosted 4 decode_word (some seven) one_site zero_data-HasFactory seven-HasFactory
