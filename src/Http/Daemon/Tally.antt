-- ===== src/Http/Daemon/Tally.antt =====
-- The counters of connections in src/httpd/HttpDaemon.cpp, and their sums.
use v_ubercool.Base.{
  ℕ, zero, suc, ◌+◌, ◌%◌, ◌^◌, ◌≡◌, refl, some, List, [], ◌∷◌, ◌++◌, get_elem?, set, arith,
}
use v_ubercool.Stats.{Statistics, plus, add, reset, StatType, http, dns, State, count_request}
use v_ubercool.Stats.Totals.{sum_of}
use v_ubercool.Http.Connections.{ConnectionMgr}
use v_ubercool.Http.Daemon.{Daemon, count_connection, count_failure}

-- The sum of a counter over the threads.
abbrev pub sum_threads : (Statistics → ℕ) → List ConnectionMgr → ℕ
sum_threads field [] = 0
sum_threads field (m ∷ ms) = field m.stats + sum_threads field ms

-- What has been counted: in the totals, in the reports under way and by the threads.
abbrev pub tally : (Statistics → ℕ) → Daemon → ℕ
tally field d =
    field d.totals.http_stats + sum_of http field d.reports + sum_threads field d.managers

pub sum_threads-set :
    (field : Statistics → ℕ) (ms : List ConnectionMgr) (i : ℕ) (v : ConnectionMgr)
    {m : ConnectionMgr}
    → get_elem? ms i ≡ some m
    → sum_threads field (set ms i v) + field m.stats ≡ sum_threads field ms + field v.stats
sum_threads-set field [] i v h = cc
sum_threads-set field (x ∷ ms) zero v {m} h =
    let same : field x.stats ≡ field m.stats = cc in omega (arith, same)
sum_threads-set field (x ∷ ms) (suc i) v h = omega (arith, sum_threads-set field ms i v h)

pub sum_of-snoc_dns :
    (field : Statistics → ℕ) (reports : List (StatType × Statistics)) (s : Statistics)
    → sum_of http field (reports ++ (dns, s) ∷ []) ≡ sum_of http field reports
unfolding sum_of
sum_of-snoc_dns field [] s = refl
sum_of-snoc_dns field ((http, v) ∷ reports) s = omega (arith, sum_of-snoc_dns field reports s)
sum_of-snoc_dns field ((dns, v) ∷ reports) s = sum_of-snoc_dns field reports s

-- A counter that only the acceptors change: by `a` for a connection and by `b` for a failure.
pub record IsTally (field : Statistics → ℕ) (a b : ℕ) : Type 0 where
  pub summed : (s v : Statistics) → field (add s v) ≡ plus (field s) (field v)
  pub cleared : field reset ≡ 0
  pub connection :
      (m : ConnectionMgr) → field (count_connection m).stats % 2 ^ 64 ≡ (field m.stats + a) % 2 ^ 64
  pub failure :
      (m : ConnectionMgr) → field (count_failure m).stats % 2 ^ 64 ≡ (field m.stats + b) % 2 ^ 64
  pub keeps_request : (state : State) (s : Statistics) → field (count_request state s) ≡ field s
  pub keeps_received : (s : Statistics) (n : ℕ) → field (record s { bytes_received = n }) ≡ field s
  pub keeps_sent : (s : Statistics) (n : ℕ) → field (record s { bytes_sent = n }) ≡ field s
  pub keeps_timeouts :
      (s : Statistics) (n : ℕ) → field (record s { timeout_dropped_connections = n }) ≡ field s
  pub keeps_overflows :
      (s : Statistics) (n : ℕ) → field (record s { overflow_dropped_connections = n }) ≡ field s

pub connections-IsTally : IsTally (λ s. s.connections) 1 0
unfolding add reset count_connection count_failure count_request
connections-IsTally = record {
  summed = λ s v. refl;
  cleared = refl;
  connection = λ m. omega arith;
  failure = λ m. omega arith;
  keeps_request = λ state s. ground arith;
  keeps_received = λ s n. refl;
  keeps_sent = λ s n. refl;
  keeps_timeouts = λ s n. refl;
  keeps_overflows = λ s n. refl;
}

pub failures-IsTally : IsTally (λ s. s.failed_connections) 0 1
unfolding add reset count_connection count_failure count_request
failures-IsTally = record {
  summed = λ s v. refl;
  cleared = refl;
  connection = λ m. omega arith;
  failure = λ m. omega arith;
  keeps_request = λ state s. ground arith;
  keeps_received = λ s n. refl;
  keeps_sent = λ s n. refl;
  keeps_timeouts = λ s n. refl;
  keeps_overflows = λ s n. refl;
}
