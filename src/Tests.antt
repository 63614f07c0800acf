-- ===== src/Tests.antt =====
-- Runs of the statistics and of the HTTP server on small inputs.
use v_ubercool.Base.{
  ℕ, ◌+◌, ◌≤◌, ◌<◌, ◌%◌, ◌^◌, ◌≡◌, refl, ◌⊎◌, Bool, true, false, Option, some, List, [], ◌∷◌, ◌++◌,
  Bytes, length, All, arith, if◌then◌else◌,
}
use v_ubercool.Stats.{Statistics, reset, StatType, http, dns, count_request, sucess}
use v_ubercool.Stats.Totals.{IsSum, collect, empty, collect_totals}
use v_ubercool.Http.Connections.{
  Entry, ConnectionMgr, create_connection, is_expired, remove_expired,
}
use v_ubercool.Http.Connections.Expiry.{remove_expired-alive}
use v_ubercool.Http.Connections.Limits.{
  start, at_start, after, create, IsOpen, IsClosed, Reachable-limits,
}
use v_ubercool.Http.Config.{HttpConfig, default_config}
use v_ubercool.Http.Request.{Method, get, post}
use v_ubercool.Http.Vhosts.{
  site, find_key, before, get_host, PackedHostData, file, invalid_resource, starts_with_dots,
  with_default_page, static_page_host, inc_hit_count,
}
use v_ubercool.Http.Vhosts.Hits.{after_requests, hits, after_requests-hits}
use v_ubercool.Http.Vhosts.Sites.{get_host_found, get_host_port, static_page_host_dots}

abbrev reports : List (StatType × Statistics)
reports = (http, count_request sucess reset) ∷ (dns, reset) ∷ []

collect_totals_example :
    let m = collect reports empty in
    (IsSum reports empty m (λ s. s.connections))
    × (IsSum reports empty m (λ s. s.failed_connections))
    × (IsSum reports empty m (λ s. s.ok_requests))
    × (IsSum reports empty m (λ s. s.failed_requests))
    × (IsSum reports empty m (λ s. s.bad_requests))
    × (IsSum reports empty m (λ s. s.overflow_dropped_connections))
    × (IsSum reports empty m (λ s. s.bytes_received))
    × (IsSum reports empty m (λ s. s.bytes_sent))
    × (IsSum reports empty m (λ s. s.unknown_names))
    × (m.http_stats.timeout_dropped_connections ≡ 0)
    × (m.dns_stats.timeout_dropped_connections ≡ 0)
collect_totals_example = collect_totals reports

-- Two connections under a limit of one.
abbrev one : ConnectionMgr
one = create_connection 1 100 1 start

abbrev two : ConnectionMgr
two = create_connection 1 101 2 one

Reachable-limits_example :
    (length two.connections ≤ 1) × All IsOpen two.connections × All IsClosed two.dead
Reachable-limits_example =
    Reachable-limits 1 (omega arith)
      (after (after at_start (create 100 1 start)) (create 101 2 one))

-- Every text is the number 7.
abbrev seven : Bytes → Option ℕ
seven text = some 7

abbrev config : HttpConfig
config = record default_config { num_sites = 10 }

abbrev name : Bytes
name = b'7' ∷ b'.' ∷ b'x' ∷ []

get_host-name : get_host seven config name ≡ site 7
unfolding get_host
get_host-name = refl

get_host_found_example :
    (7 < config.num_sites)
    × (((n : ℕ) × (seven (before b'.' (before b':' name)) ≡ some n) × (n % 2 ^ 32 ≡ 7))
        ⊎ (find_key (before b':' name) config.site_aliases ≡ some 7))
get_host_found_example = get_host_found seven config name get_host-name

get_host_port_at_input :
    get_host seven config (name ++ b':' ∷ (b'8' ∷ b'0' ∷ [])) ≡ get_host seven config name
get_host_port_at_input = get_host_port seven config name (b'8' ∷ b'0' ∷ [])

abbrev all_files : Bytes → Bool
all_files page = true

abbrev uri : Bytes
uri = b'/' ∷ []

abbrev fresh : PackedHostData
fresh = record { hostbits = 0; host_template = 1 }

static_page_host_dots_example : static_page_host all_files uri fresh ≡ (
    if starts_with_dots uri
    then (
      inc_hit_count fresh,
      if all_files (with_default_page uri) then file (with_default_page uri) else invalid_resource,
    )
    else (fresh, invalid_resource))
static_page_host_dots_example = static_page_host_dots all_files uri fresh

abbrev requests : List (Method × Bytes)
requests = (get, uri) ∷ (post, uri) ∷ []

after_requests-hits_example :
    (after_requests requests fresh).hostbits ≡ (fresh.hostbits + hits requests) % 2 ^ 23
after_requests-hits_example = after_requests-hits requests fresh (omega arith)

-- The first of three connections has run out of time.
abbrev entry : ℕ → ℕ → Entry
entry key expire = record { key = key; expire = expire; is_open = true }

abbrev waiting : ConnectionMgr
waiting = record start { connections = entry 1 10 ∷ entry 2 0 ∷ entry 3 30 ∷ [] }

remove_expired-alive_at_input :
    let m' = remove_expired 20 waiting in
    (m'.connections ≡ entry 2 0 ∷ entry 3 30 ∷ [])
    × (m'.dead ≡ start.dead ++ record (entry 1 10) { is_open = false } ∷ [])
unfolding is_expired
remove_expired-alive_at_input = remove_expired-alive 20 waiting (
  omega arith,
  ((λ e. cc), ((λ e. cc), tt)),
  (omega arith, ((λ e. cc), tt), (omega arith, tt, tt)),
)
