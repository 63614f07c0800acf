-- ===== src/Stats.antt =====
-- The counters of include/Statistics.h, and `AddStat` of src/daemon/StatisticsManager.cpp. They are
-- unsigned 64-bit numbers.
pub mod Totals
pub mod Service
use v_ubercool.Base.{ℕ, ◌+◌, ◌%◌, ◌^◌}

pub record Statistics : Type 0 where
  pub connections : ℕ
  pub failed_connections : ℕ
  pub ok_requests : ℕ
  pub failed_requests : ℕ
  pub bad_requests : ℕ
  pub timeout_dropped_connections : ℕ
  pub overflow_dropped_connections : ℕ
  pub bytes_received : ℕ
  pub bytes_sent : ℕ
  pub unknown_names : ℕ

abbrev pub plus : ℕ → ℕ → ℕ
plus m n = (m + n) % 2 ^ 64

-- `operator +=`.
unfoldable pub add : Statistics → Statistics → Statistics
add s v = record {
  connections = plus s.connections v.connections;
  failed_connections = plus s.failed_connections v.failed_connections;
  ok_requests = plus s.ok_requests v.ok_requests;
  failed_requests = plus s.failed_requests v.failed_requests;
  bad_requests = plus s.bad_requests v.bad_requests;
  timeout_dropped_connections = plus s.timeout_dropped_connections s.timeout_dropped_connections;
  overflow_dropped_connections = plus s.overflow_dropped_connections v.overflow_dropped_connections;
  bytes_received = plus s.bytes_received v.bytes_received;
  bytes_sent = plus s.bytes_sent v.bytes_sent;
  unknown_names = plus s.unknown_names v.unknown_names;
}

-- A new object, and what `Reset` leaves.
unfoldable pub reset : Statistics
reset = record {
  connections = 0;
  failed_connections = 0;
  ok_requests = 0;
  failed_requests = 0;
  bad_requests = 0;
  timeout_dropped_connections = 0;
  overflow_dropped_connections = 0;
  bytes_received = 0;
  bytes_sent = 0;
  unknown_names = 0;
}

pub data StatType : Type 0 where
  http dns : StatType

-- `stats_` of the manager.
pub record Manager : Type 0 where
  pub http_stats : Statistics
  pub dns_stats : Statistics

-- `AddStat`, as the pipeline runs it.
unfoldable pub add_stat : StatType → Statistics → Manager → Manager
unfolding add
add_stat http s m = record m { http_stats = add m.http_stats s }
add_stat dns s m = record m { dns_stats = add m.dns_stats s }

-- `RequestStats::State`, and what its destructor counts.
pub data State : Type 0 where
  sucess ignore fail bad unset : State

unfoldable pub count_request : State → Statistics → Statistics
count_request sucess s = record s { ok_requests = plus s.ok_requests 1 }
count_request ignore s = s
count_request fail s = record s { failed_requests = plus s.failed_requests 1 }
count_request unset s = record s { failed_requests = plus s.failed_requests 1 }
count_request bad s = record s { bad_requests = plus s.bad_requests 1 }
