-- ===== src/Http/Daemon/House.antt =====
-- The housekeeping of the threads of src/httpd/HttpDaemon.cpp.
use v_ubercool.Base.{
  ℕ, ◌+◌, ◌<◌, ◌^◌, ◌≡◌, ◌∙◌, refl, ap, some, List, [], ◌∷◌, ◌++◌, get_elem?, set,
  get_elem?-set_self, All-get_elem?, arith,
}
use v_ubercool.Base.Tree.{◌>>=◌}
use v_ubercool.Stats.{reset, http}
use v_ubercool.Http.Connections.{ConnectionMgr, remove_expired}
use v_ubercool.Http.Connections.Expiry.{alive, killed, remove_expired-alive}
use v_ubercool.Http.Connections.Keys.{HaveKeysUpto-HaveKeys}
use v_ubercool.Http.Daemon.Threads.{IsWell}
use v_ubercool.Http.Daemon.Keys.{arrivals, run-IsKept_from_start}
use v_ubercool.Http.Daemon.{
  Daemon, create_daemon, change_manager, on_thread, report_of, update_stats, housekeeping, Event,
  run,
}

pub on_thread-some :
    (i : ℕ) (f : ConnectionMgr → ConnectionMgr) (d : Daemon) {m : ConnectionMgr}
    → get_elem? d.managers i ≡ some m
    → on_thread i f d ≡ some (record d { managers = set d.managers i (f m) })
unfolding on_thread change_manager
on_thread-some i f d at = ap (change_manager i f d) at

update_stats-some :
    (i : ℕ) (d : Daemon) {m : ConnectionMgr}
    → get_elem? d.managers i ≡ some m
    → update_stats i d
      ≡ some (record d {
        managers = set d.managers i (record m { stats = reset });
        reports = d.reports ++ (http, m.stats) ∷ [];
      })
unfolding update_stats report_of
update_stats-some i d at = ap (report_of i d) at

-- The daemon behind the housekeeping of a thread.
abbrev pub kept_at : ℕ → ℕ → ConnectionMgr → Daemon → Daemon
kept_at now i m d =
    let m' = remove_expired now m in
    record d {
      managers = set (set d.managers i m') i (record m' { stats = reset });
      reports = d.reports ++ (http, m'.stats) ∷ [];
    }

housekeeping-some :
    (now i : ℕ) (d : Daemon) {m : ConnectionMgr}
    → get_elem? d.managers i ≡ some m
    → housekeeping now i d ≡ some (kept_at now i m d)
unfolding housekeeping ◌>>=◌
housekeeping-some now i d {m} at =
    let m' = remove_expired now m in
    ap (λ o. o >>= update_stats i) (on_thread-some i (remove_expired now) d at)
    ∙ update_stats-some i (record d { managers = set d.managers i m' })
        (get_elem?-set_self d.managers i m' at)

-- Whatever the threads have done since the start, if fewer than 2 ^ 31 connections have been made, the
-- housekeeping of a thread that is there kills exactly those of its connections whose time is over,
-- in their order, leaves the others in theirs, reports the thread's counters and sets them to zero.
pub run-housekeeping :
    (max n : ℕ) (es : List Event) {d : Daemon}
    → arrivals es < 2 ^ 31
    → run max es (create_daemon n) ≡ some d
    → (now i : ℕ) {m : ConnectionMgr} → get_elem? d.managers i ≡ some m
    → (d' : Daemon) × (m' : ConnectionMgr) × (housekeeping now i d ≡ some d')
      × (get_elem? d'.managers i ≡ some m')
      × (m'.connections ≡ alive now m.connections)
      × (m'.dead ≡ m.dead ++ killed now m.connections)
      × (m'.stats ≡ reset)
      × (d'.reports ≡ d.reports ++ (http, (remove_expired now m).stats) ∷ [])
run-housekeeping max n es {d} small h now i {m} at =
    let w = run-IsKept_from_start max n es small h in
    let well = All-get_elem? (IsWell max (0 + arrivals es)) d.managers i w.well at in
    let keys =
      HaveKeysUpto-HaveKeys (0 + arrivals es) m.connections (omega arith) well.apart.apart in
    let gone = remove_expired-alive now m keys in
    let m' = remove_expired now m in
    (
      kept_at now i m d,
      record m' { stats = reset },
      housekeeping-some now i d at,
      get_elem?-set_self (set d.managers i m') i (record m' { stats = reset })
          (get_elem?-set_self d.managers i m' at),
      gone.0,
      gone.1,
      refl,
      refl,
    )
