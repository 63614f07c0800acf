-- ===== src/Http/Config/Parse.antt =====
-- `ParseHttpConfig` of src/daemon/main.cpp, on the tree that `read_info` makes of the file. The search
-- of a child, the conversions of texts, and the copies of warlib are parameters.
use v_ubercool.Base.{ℕ, Bool, Option, none, some, List, Bytes, codes}
use v_ubercool.Base.Tree.{Tree, ◌>>=◌, get_or, get_optional}
use v_ubercool.Http.Config.{HttpConfig}

-- `get_child(path)` and `get<T>(path)`, which throw where there is none, as a missing result.
module _ (get_child : Bytes → Tree → Option Tree) (to_bool : Bytes → Option Bool)
    (to_unsigned : Bytes → Option ℕ) (copy_to_container : Tree → List (Bytes × Bytes))
    (copy_ids : Tree → List (Bytes × ℕ) → Option (List (Bytes × ℕ)))
    (copy_names : Tree → List (Bytes × Bytes) → List (Bytes × Bytes)) where
  -- `if (auto flag = compression->get_optional<bool>(path)) conf = *flag`.
  read_flag : Bytes → Tree → Bool → Bool
  read_flag path compression old = get_or get_child to_bool old path compression

  read_compression : Option Tree → HttpConfig → HttpConfig
  unfolding read_flag
  read_compression none conf = conf
  read_compression (some compression) conf = record conf {
    allow_deflate = read_flag (codes "deflate") compression conf.allow_deflate;
    allow_gzip = read_flag (codes "gzip") compression conf.allow_gzip;
  }

  -- The configuration, and the addresses to listen at.
  unfoldable pub parse_http_config : Tree → HttpConfig → Option (HttpConfig × List (Bytes × Bytes))
  unfolding read_compression
  parse_http_config pt conf = do
    http ← get_child (codes "http") pt
    num_sites ← get_optional get_child to_unsigned (codes "num-sites") http
    root_path ← get_optional get_child some (codes "root-path") http
    data_mmap_file ← get_optional get_child some (codes "data-mmap-file") http
    network ← get_child (codes "network") http
    aliases ← get_child (codes "aliases") http
    site_aliases ← copy_ids aliases conf.site_aliases
    redirects ← get_child (codes "redirects") http
    some (
      read_compression (get_child (codes "compression") http) (record conf {
        num_sites = num_sites;
        root_path = root_path;
        data_mmap_file = data_mmap_file;
        connection_timeout =
            get_or get_child to_unsigned conf.connection_timeout (codes "connection-timeout") http;
        max_connections =
            get_or get_child to_unsigned conf.max_connections (codes "max-connections") http;
        site_aliases = site_aliases;
        http_redirects = copy_names redirects conf.http_redirects;
      }),
      copy_to_container network,
    )
