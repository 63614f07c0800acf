-- ===== src/Http/Daemon.antt =====
-- `HttpDaemonImpl` of src/httpd/HttpDaemon.cpp: the acceptors, the connections of all threads, and the
-- housekeeping with its reports to src/daemon/StatisticsManager.cpp. What the threads do is a list
-- of events, in the order in which they come to do it. Sockets and timers are not modelled.
mod Threads
pub mod Keys
pub mod House
pub mod Arrivals
pub mod Tally
pub mod Counts
mod Tests
use v_ubercool.Base.{
  ℕ, zero, suc, ◌+◌, ◌%◌, ◌^◌, true, false, Option, none, some, List, [], ◌∷◌, ◌++◌, length,
  get_elem?, set, replicate, ltb, ◌==◌, if◌then◌else◌,
}
use v_ubercool.Base.Tree.{◌>>=◌}
use v_ubercool.Stats.{
  Statistics, plus, reset, StatType, http, dns, Manager, add_stat, State, count_request,
}
use v_ubercool.Stats.Totals.{empty}
use v_ubercool.Http.Connections.{
  ConnectionMgr, create_connection, close_connection, set_end_of_life, remove_expired,
}
use v_ubercool.Http.Connections.Limits.{start}

-- The managers of the threads, the counter of `GetNextKey`, the threads at which `OnNewConnection`
-- waits, and what `AddStat` has given to the pipeline of the statistics' manager.
pub record Daemon : Type 0 where
  pub managers : List ConnectionMgr
  pub next_key : ℕ
  pub arriving : List ℕ
  pub reports : List (StatType × Statistics)
  pub totals : Manager

-- The constructor, for a number of threads.
pub create_daemon : ℕ → Daemon
create_daemon threads = record {
  managers = replicate threads start;
  next_key = 0;
  arriving = [];
  reports = [];
  totals = empty;
}

-- What is done on one thread; `none` is a thread that is not there.
change_manager : ℕ → (ConnectionMgr → ConnectionMgr) → Daemon → Option ConnectionMgr → Option Daemon
change_manager i f d none = none
change_manager i f d (some m) = some (record d { managers = set d.managers i (f m) })

pub on_thread : ℕ → (ConnectionMgr → ConnectionMgr) → Daemon → Option Daemon
unfolding change_manager
on_thread i f d = change_manager i f d (get_elem? d.managers i)

-- The counters of an acceptor's thread.
pub count_connection : ConnectionMgr → ConnectionMgr
count_connection m = record m {
  stats = record m.stats { connections = plus m.stats.connections 1 };
}

pub count_failure : ConnectionMgr → ConnectionMgr
count_failure m = record m {
  stats = record m.stats { failed_connections = plus m.stats.failed_connections 1 };
}

-- A connection accepted on thread `a`, for the pipeline that `GetAnyPipeline` has chosen.
accepted_at : ℕ → ℕ → Daemon → Option Daemon
unfolding on_thread count_connection
accepted_at a i d =
    if ltb i (length d.managers)
    then on_thread a count_connection (record d { arriving = d.arriving ++ i ∷ [] })
    else none

accept_failed_at : ℕ → Daemon → Option Daemon
unfolding on_thread count_failure
accept_failed_at a d = on_thread a count_failure d

-- `GetNextKey`, and `OnNewConnection` up to the start of the connection's coroutine.
pub next_key_of : Daemon → ℕ
next_key_of d = (d.next_key + 1) % 2 ^ 64

pub on_new_connection : ℕ → ℕ → ℕ → Daemon → Option Daemon
unfolding next_key_of on_thread
on_new_connection max now i d =
    on_thread i (create_connection max now (next_key_of d)) (record d { next_key = next_key_of d })

-- One of the tasks that wait at thread `i` is taken.
keep_first : ℕ → Option (List ℕ) → Option (List ℕ)
keep_first i none = none
keep_first i (some is) = some (i ∷ is)

pub take_out : ℕ → List ℕ → Option (List ℕ)
unfolding keep_first
take_out i [] = none
take_out i (j ∷ is) = elim (j == i) [ true ↦ some is | false ↦ keep_first j (take_out i is) ]

arrived_at : ℕ → ℕ → ℕ → Daemon → Option Daemon
unfolding take_out on_new_connection
arrived_at max now i d =
    take_out i d.arriving >>= λ rest. on_new_connection max now i (record d { arriving = rest })

-- `UpdateStats`.
report_of : ℕ → Daemon → Option ConnectionMgr → Option Daemon
report_of i d none = none
report_of i d (some m) = some (record d {
  managers = set d.managers i (record m { stats = reset });
  reports = d.reports ++ (http, m.stats) ∷ [];
})

pub update_stats : ℕ → Daemon → Option Daemon
unfolding report_of
update_stats i d = report_of i d (get_elem? d.managers i)

-- The task of `ScheduleHttpHousekeeping`.
pub housekeeping : ℕ → ℕ → Daemon → Option Daemon
unfolding on_thread update_stats
housekeeping now i d = on_thread i (remove_expired now) d >>= update_stats i

-- The first of the tasks of `AddStat` is run.
collect_report : List (StatType × Statistics) → Daemon → Option Daemon
collect_report [] d = none
collect_report ((t, s) ∷ reports) d =
    some (record d { reports = reports; totals = add_stat t s d.totals })

-- What the coroutine of a connection does to its manager.
pub data Call : Type 0 where
  removed : ℕ → Call
  prolonged : ℕ → ℕ → Call
  counted : State → Call
  got sent : ℕ → Call

pub call : Call → ConnectionMgr → ConnectionMgr
call (removed key) m = close_connection key m
call (prolonged key eol) m = set_end_of_life key eol m
call (counted state) m = record m { stats = count_request state m.stats }
call (got n) m = record m {
  stats = record m.stats { bytes_received = plus m.stats.bytes_received n };
}
call (sent n) m = record m { stats = record m.stats { bytes_sent = plus m.stats.bytes_sent n } }

pub data Event : Type 0 where
  accepted : ℕ → ℕ → Event
  accept_failed : ℕ → Event
  arrived : ℕ → ℕ → Event
  called : ℕ → Call → Event
  kept_house : ℕ → ℕ → Event
  collected : Event
  dns_reported : Statistics → Event

pub step : ℕ → Event → Daemon → Option Daemon
unfolding accepted_at accept_failed_at arrived_at on_thread housekeeping collect_report
step max (accepted a i) d = accepted_at a i d
step max (accept_failed a) d = accept_failed_at a d
step max (arrived now i) d = arrived_at max now i d
step max (called i c) d = on_thread i (call c) d
step max (kept_house now i) d = housekeeping now i d
step max collected d = collect_report d.reports d
step max (dns_reported s) d = some (record d { reports = d.reports ++ (dns, s) ∷ [] })

-- Events in their order; `none` if one of them cannot be.
pub run : ℕ → List Event → Daemon → Option Daemon
unfolding step
run max [] d = some d
run max (e ∷ es) d = step max e d >>= run max es
