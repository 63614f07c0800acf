-- ===== src/Http/Daemon/Counts.antt =====
-- The counts of connections in src/httpd/HttpDaemon.cpp and src/daemon/StatisticsManager.cpp.
use v_ubercool.Base.{
  ℕ, zero, suc, ◌+◌, ◌%◌, ◌^◌, ◌≡◌, refl, ap, inl, inr, some, List, [], ◌∷◌, ◌++◌, length,
  get_elem?, replicate, arith, ltb, if_intro, Option-cases,
}
use v_ubercool.Base.Tree.{OnSome, >>=-OnSome, >>=-any, OnSome-at, OnSome-mono}
use v_ubercool.Stats.{Statistics, reset, StatType, http, dns, add_stat}
use v_ubercool.Stats.Totals.{sum_of-snoc, sum_of, empty}
use v_ubercool.Http.Connections.{ConnectionMgr, remove_expired}
use v_ubercool.Http.Connections.Limits.{start}
use v_ubercool.Http.Connections.Unmoved.{
  create-stats, close_connection-stats, prolong-stats, expire-field,
}
use v_ubercool.Http.Daemon.Tally.{
  tally, sum_threads, sum_threads-set, sum_of-snoc_dns, IsTally, connections-IsTally,
  failures-IsTally,
}
use v_ubercool.Http.Daemon.{
  Daemon, create_daemon, change_manager, on_thread, count_connection, count_failure, accepted_at,
  accept_failed_at, next_key_of, on_new_connection, take_out, arrived_at, report_of, update_stats,
  housekeeping, collect_report, Call, removed, prolonged, counted, got, sent, call, Event, accepted,
  accept_failed, arrived, called, kept_house, collected, dns_reported, step, run,
}

-- What an event adds.
abbrev gain : ℕ → ℕ → Event → ℕ
gain a b (accepted i j) = a
gain a b (accept_failed i) = b
gain a b _ = 0

abbrev gains : ℕ → ℕ → List Event → ℕ
gains a b [] = 0
gains a b (e ∷ es) = gain a b e + gains a b es

module _ (field : Statistics → ℕ) (a b : ℕ) (c : IsTally field a b) where
  -- The tally has grown by `g`.
  abbrev HasGained : ℕ → Daemon → Daemon → Type 0
  HasGained g d d' = tally field d' % 2 ^ 64 ≡ (tally field d + g) % 2 ^ 64

  on_thread-HasGained :
      (g i : ℕ) (f : ConnectionMgr → ConnectionMgr) (d : Daemon)
      → ((m : ConnectionMgr) → field (f m).stats % 2 ^ 64 ≡ (field m.stats + g) % 2 ^ 64)
      → OnSome (HasGained g d) (on_thread i f d)
  unfolding on_thread change_manager OnSome
  on_thread-HasGained g i f d h = elim (Option-cases (get_elem? d.managers i)) [
    | inl e ↦ rw (e, change_manager) tt
    | inr (m, e) ↦
        rw (e, change_manager) (omega (arith, h m, sum_threads-set field d.managers i (f m) e))
  ]

  call-field : (k : Call) (m : ConnectionMgr) → field (call k m).stats ≡ field m.stats
  unfolding call
  call-field (removed key) m = ap field (close_connection-stats key m)
  call-field (prolonged key eol) m = ap field (prolong-stats key eol m)
  call-field (counted state) m = c.keeps_request state m.stats
  call-field (got n) m = c.keeps_received m.stats _
  call-field (sent n) m = c.keeps_sent m.stats _

  update_stats-HasGained : (i : ℕ) (d : Daemon) → OnSome (HasGained 0 d) (update_stats i d)
  unfolding update_stats report_of OnSome
  update_stats-HasGained i d = elim (Option-cases (get_elem? d.managers i)) [
    | inl e ↦ rw (e, report_of) tt
    | inr (m, e) ↦
        rw (e, report_of)
          (omega (
            arith,
            c.cleared,
            sum_of-snoc http field d.reports m.stats,
            sum_threads-set field d.managers i (record m { stats = reset }) e,
          ))
  ]

  collect_report-HasGained :
      (d : Daemon) (reports : List (StatType × Statistics))
      → d.reports ≡ reports
      → OnSome (HasGained 0 d) (collect_report reports d)
  unfolding collect_report OnSome add_stat sum_of
  collect_report-HasGained d [] same = tt
  collect_report-HasGained d ((http, s) ∷ reports) same =
      omega (arith, c.summed d.totals.http_stats s, ap (sum_of http field) same)
  collect_report-HasGained d ((dns, s) ∷ reports) same = omega (arith, ap (sum_of http field) same)

  arrived_at-HasGained :
      (max now i : ℕ) (d : Daemon) → OnSome (HasGained 0 d) (arrived_at max now i d)
  unfolding arrived_at on_new_connection
  arrived_at-HasGained max now i d = >>=-any (HasGained 0 d) (take_out i d.arriving) _ (λ rest.
      on_thread-HasGained 0 i _ _
        (λ m. omega (arith, ap field (create-stats max now (next_key_of d) m))))

  step-HasGained :
      (max : ℕ) (e : Event) (d : Daemon) → OnSome (HasGained (gain a b e) d) (step max e d)
  unfolding step accepted_at accept_failed_at housekeeping OnSome
  step-HasGained max (accepted i j) d =
      if_intro (OnSome (HasGained a d)) (ltb j (length d.managers)) _ _
        (λ t.
          on_thread-HasGained a i count_connection (record d { arriving = d.arriving ++ j ∷ [] })
            c.connection)
        (λ f. tt)
  step-HasGained max (accept_failed i) d = on_thread-HasGained b i count_failure d c.failure
  step-HasGained max (arrived now i) d = arrived_at-HasGained max now i d
  step-HasGained max (called i k) d =
      on_thread-HasGained 0 i (call k) d (λ m. omega (arith, call-field k m))
  step-HasGained max (kept_house now i) d =
      >>=-OnSome (HasGained 0 d) (HasGained 0 d) (on_thread i (remove_expired now) d)
        (update_stats i)
        (on_thread-HasGained 0 i (remove_expired now) d
          (λ m. omega (arith, expire-field field c.keeps_timeouts c.keeps_overflows now m)))
        (λ d' h.
          OnSome-mono (HasGained 0 d') (HasGained 0 d) (update_stats i d')
            (update_stats-HasGained i d') (λ d'' k. omega (arith, h, k)))
  step-HasGained max collected d = collect_report-HasGained d d.reports refl
  step-HasGained max (dns_reported s) d = omega (arith, sum_of-snoc_dns field d.reports s)

  run-HasGained :
      (max : ℕ) (es : List Event) (d : Daemon) → OnSome (HasGained (gains a b es) d) (run max es d)
  unfolding run OnSome
  run-HasGained max [] d = omega arith
  run-HasGained max (e ∷ es) d =
      >>=-OnSome (HasGained (gain a b e) d) (HasGained (gains a b (e ∷ es)) d) (step max e d)
        (run max es) (step-HasGained max e d)
        (λ d' h.
          OnSome-mono (HasGained (gains a b es) d') (HasGained (gains a b (e ∷ es)) d)
            (run max es d') (run-HasGained max es d') (λ d'' k. omega (arith, h, k)))

  sum_threads-start : (n : ℕ) → sum_threads field (replicate n start) ≡ 0
  unfolding start
  sum_threads-start zero = refl
  sum_threads-start (suc n) = omega (arith, c.cleared, sum_threads-start n)

  tally-start : (n : ℕ) → tally field (create_daemon n) ≡ 0
  unfolding create_daemon empty sum_of
  tally-start n = omega (arith, c.cleared, sum_threads-start n)

  run-gains :
      (max n : ℕ) (es : List Event) {d : Daemon}
      → run max es (create_daemon n) ≡ some d
      → tally field d % 2 ^ 64 ≡ gains a b es % 2 ^ 64
  run-gains max n es {d} h =
      let k =
        OnSome-at (HasGained (gains a b es) (create_daemon n)) (run max es (create_daemon n))
          (run-HasGained max es (create_daemon n)) h in
      omega (arith, k, tally-start n)

-- The connections accepted, and the failures to accept one.
abbrev pub accepts : List Event → ℕ
accepts es = gains 1 0 es

abbrev pub accept_failures : List Event → ℕ
accept_failures es = gains 0 1 es

-- Whatever the threads do and whenever they report, no connection and no failure to accept one is lost
-- from the statistics or counted twice: the totals, the reports under way and the counters of the
-- threads add up to their numbers, modulo 2 ^ 64.
pub run-tally :
    (max n : ℕ) (es : List Event) {d : Daemon}
    → run max es (create_daemon n) ≡ some d
    → (tally (λ s. s.connections) d % 2 ^ 64 ≡ accepts es % 2 ^ 64)
      × (tally (λ s. s.failed_connections) d % 2 ^ 64 ≡ accept_failures es % 2 ^ 64)
run-tally max n es h = (
  run-gains (λ s. s.connections) 1 0 connections-IsTally max n es h,
  run-gains (λ s. s.failed_connections) 0 1 failures-IsTally max n es h,
)
