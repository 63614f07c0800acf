-- ===== src/Http/Config/Tests.antt =====
-- A configuration with bare compression keys, as in conf/http.conf, read.
use v_ubercool.Base.{
  ℕ, ◌≡◌, refl, Bool, true, false, Option, none, some, List, [], ◌∷◌, Bytes, codes, equal,
}
use v_ubercool.Base.Tree.{
  Tree, Forest, node, leaf, branch, children_of, get_optional, get_or, ◌>>=◌,
}
use v_ubercool.Http.Config.{HttpConfig, default_config}
use v_ubercool.Http.Config.Parse.{parse_http_config}
use v_ubercool.Http.Config.Keys.{parse_http_config-bare_flags}

-- The first child with the name.
abbrev find_child : Bytes → Forest → Option Tree
find_child key leaf = none
find_child key (branch k t rest) = elim (equal k key) [
  | true ↦ some t
  | false ↦ find_child key rest
]

abbrev get_child : Bytes → Tree → Option Tree
get_child key t = find_child key (children_of t)

abbrev flag : Bytes → Option Bool
flag [] = none
flag (c ∷ cs) = some true

abbrev ten : Bytes → Option ℕ
ten text = some 10

abbrev no_pairs : Tree → List (Bytes × Bytes)
no_pairs t = []

abbrev keep_ids : Tree → List (Bytes × ℕ) → Option (List (Bytes × ℕ))
keep_ids t ids = some ids

abbrev keep_names : Tree → List (Bytes × Bytes) → List (Bytes × Bytes)
keep_names t names = names

abbrev bare : Tree
bare = node [] leaf

abbrev compression : Tree
compression = node [] (branch (codes "deflate") bare (branch (codes "gzip") bare leaf))

abbrev http : Tree
http = node [] (
    branch (codes "num-sites") (node (codes "10") leaf) (
      branch (codes "compression") compression (
        branch (codes "data-mmap-file") (node (codes "/m") leaf) (
          branch (codes "root-path") (node (codes "/w") leaf) (
            branch (codes "network") bare
              (branch (codes "aliases") bare (branch (codes "redirects") bare leaf)))))))

abbrev file : Tree
file = node [] (branch (codes "http") http leaf)

abbrev config : HttpConfig
config = record default_config {
  num_sites = 10;
  root_path = codes "/w";
  data_mmap_file = codes "/m";
}

read :
    parse_http_config get_child flag ten no_pairs keep_ids keep_names file default_config
    ≡ some (config, [])
unfolding parse_http_config get_optional get_or equal ◌>>=◌
read = refl

parse_http_config-bare_flags_at_input : (config.allow_deflate ≡ false) × (config.allow_gzip ≡ false)
unfolding equal
parse_http_config-bare_flags_at_input =
    parse_http_config-bare_flags get_child flag ten no_pairs keep_ids keep_names file http
      compression bare bare default_config refl refl refl refl refl refl refl read
