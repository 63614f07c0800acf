-- ===== src/Http/Daemon/Tests.antt =====
-- Runs of the HTTP server's threads (src/httpd/HttpDaemon.cpp) on a few events.
use v_ubercool.Base.{
  ℕ, ◌%◌, ◌^◌, ◌≤◌, ◌≡◌, ◌≢◌, refl, some, List, [], ◌∷◌, ◌++◌, length, get_elem?, All, arith,
}
use v_ubercool.Base.Tree.{◌>>=◌}
use v_ubercool.Stats.{reset, http}
use v_ubercool.Stats.Totals.{empty}
use v_ubercool.Http.Connections.{ConnectionMgr, create_connection, remove_expired}
use v_ubercool.Http.Connections.Limits.{start}
use v_ubercool.Http.Connections.Expiry.{Lacks, alive, killed}
use v_ubercool.Http.Connections.Newest.{new_entry, IsLast}
use v_ubercool.Http.Daemon.House.{run-housekeeping}
use v_ubercool.Http.Daemon.Arrivals.{run-arrived}
use v_ubercool.Http.Daemon.Counts.{accepts, accept_failures, run-tally}
use v_ubercool.Http.Daemon.Tally.{tally}
use v_ubercool.Http.Daemon.{
  Daemon, create_daemon, take_out, housekeeping, Event, accepted, accept_failed, arrived, step, run,
}

-- One thread accepts two connections, of which the first is made.
abbrev events : List Event
events = accepted 0 0 ∷ arrived 100 0 ∷ accepted 0 0 ∷ accept_failed 0 ∷ []

abbrev manager : ConnectionMgr
manager = record {
  connections = new_entry 100 1 ∷ [];
  dead = [];
  stats = record reset { connections = 2; failed_connections = 1 };
}

abbrev after_events : Daemon
after_events = record {
  managers = manager ∷ [];
  next_key = 1;
  arriving = 0 ∷ [];
  reports = [];
  totals = empty;
}

run-events : run 1 events (create_daemon 1) ≡ some after_events
unfolding run create_daemon create_connection start reset empty ◌>>=◌
run-events = refl

run-housekeeping_example :
    (d' : Daemon) × (m' : ConnectionMgr) × (housekeeping 200 0 after_events ≡ some d')
    × (get_elem? d'.managers 0 ≡ some m')
    × (m'.connections ≡ alive 200 manager.connections)
    × (m'.dead ≡ manager.dead ++ killed 200 manager.connections)
    × (m'.stats ≡ reset)
    × (d'.reports ≡ after_events.reports ++ (http, (remove_expired 200 manager).stats) ∷ [])
run-housekeeping_example = run-housekeeping 1 1 events (omega arith) run-events 200 0 refl

one_arriving : take_out 0 after_events.arriving ≡ some []
unfolding take_out
one_arriving = refl

run-arrived_example :
    (d' : Daemon) × (m : ConnectionMgr) × (step 1 (arrived 300 0) after_events ≡ some d')
    × (get_elem? d'.managers 0 ≡ some m)
    × IsLast (new_entry 300 d'.next_key) m
    × All (λ (other : ConnectionMgr). Lacks d'.next_key other.connections) after_events.managers
    × (◌≢◌ {A = ℕ} 1 0 → length m.connections ≤ 1)
run-arrived_example = run-arrived 1 1 events (omega arith) run-events 300 0 one_arriving

run-tally_example :
    (tally (λ s. s.connections) after_events % 2 ^ 64 ≡ accepts events % 2 ^ 64)
    × (tally (λ s. s.failed_connections) after_events % 2 ^ 64 ≡ accept_failures events % 2 ^ 64)
run-tally_example = run-tally 1 1 events run-events
