-- ===== src/Http/Config.antt =====
-- `HttpConfig` and `ApplicationVersion` of include/vUbercool.h.
pub mod Parse
pub mod Keys
mod Tests
use v_ubercool.Base.{ℕ, Bool, false, List, [], Bytes}

pub record HttpConfig : Type 0 where
  pub num_sites : ℕ
  pub recreate_mmap_file : Bool
  pub site_aliases : List (Bytes × ℕ)
  pub http_redirects : List (Bytes × Bytes)
  pub root_path : Bytes
  pub data_mmap_file : Bytes
  pub allow_deflate : Bool
  pub allow_gzip : Bool
  pub connection_timeout : ℕ
  pub max_connections : ℕ

abbrev pub default_config : HttpConfig
default_config = record {
  num_sites = 0;
  recreate_mmap_file = false;
  site_aliases = [];
  http_redirects = [];
  root_path = [];
  data_mmap_file = [];
  allow_deflate = false;
  allow_gzip = false;
  connection_timeout = 3;
  max_connections = 0;
}

abbrev pub major : ℕ
major = 0

abbrev pub minor : ℕ
minor = 20
