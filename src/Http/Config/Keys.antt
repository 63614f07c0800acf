-- ===== src/Http/Config/Keys.antt =====
-- What the keys of the configuration file mean to `ParseHttpConfig` (src/daemon/main.cpp).
use v_ubercool.Base.{ℕ, ◌≡◌, ◌∙◌, sym, subst, Bool, Option, none, some, List, [], Bytes, codes}
use v_ubercool.Base.Tree.{Tree, text_of, OnSome, >>=-any, >>=-found, OnSome-at, get_or-empty}
use v_ubercool.Http.Config.{HttpConfig}
use v_ubercool.Http.Config.Parse.{parse_http_config}

module _ (get_child : Bytes → Tree → Option Tree) (to_bool : Bytes → Option Bool)
    (to_unsigned : Bytes → Option ℕ) (copy_to_container : Tree → List (Bytes × Bytes))
    (copy_ids : Tree → List (Bytes × ℕ) → Option (List (Bytes × ℕ)))
    (copy_names : Tree → List (Bytes × Bytes) → List (Bytes × Bytes)) where
  -- A key without a value under "compression" changes nothing: if the conversion refuses the empty
  -- text, a file with the bare keys "deflate" and "gzip" leaves both as they were.
  pub parse_http_config-bare_flags :
      (pt http compression deflate gzip : Tree) (conf : HttpConfig)
      {found : HttpConfig × List (Bytes × Bytes)}
      → get_child (codes "http") pt ≡ some http
      → get_child (codes "compression") http ≡ some compression
      → get_child (codes "deflate") compression ≡ some deflate
      → get_child (codes "gzip") compression ≡ some gzip
      → text_of deflate ≡ []
      → text_of gzip ≡ []
      → to_bool [] ≡ none
      → parse_http_config get_child to_bool to_unsigned copy_to_container copy_ids copy_names pt
          conf
        ≡ some found
      → (found.0.allow_deflate ≡ conf.allow_deflate) × (found.0.allow_gzip ≡ conf.allow_gzip)
  unfolding parse_http_config OnSome
  parse_http_config-bare_flags pt http compression deflate gzip conf h c d g no_d no_g no_bool e =
      let P : HttpConfig × List (Bytes × Bytes) → Type 0 = λ found.
        (found.0.allow_deflate ≡ conf.allow_deflate) × (found.0.allow_gzip ≡ conf.allow_gzip) in
      OnSome-at P _
        (>>=-found P _ _ (λ http' e0. >>=-any P _ _ (λ num_sites. >>=-any P _ _ (λ root_path.
          >>=-any P _ _ (λ data_mmap_file. >>=-any P _ _ (λ network. >>=-any P _ _ (λ aliases.
            >>=-any P _ _ (λ site_aliases. >>=-any P _ _ (λ redirects.
              let same : http ≡ http' = (let k : some http ≡ some http' = sym h ∙ e0 in cc) in
              rw (subst (λ t. get_child (codes "compression") t ≡ some compression) same c) (
                get_or-empty get_child to_bool conf.allow_deflate (codes "deflate") compression
                    deflate d no_d no_bool,
                get_or-empty get_child to_bool conf.allow_gzip (codes "gzip") compression gzip g
                    no_g no_bool,
              ))))))))))
        e
