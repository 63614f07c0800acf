-- ===== src/Stats/Service/Answers.antt =====
-- What `GetStats` of src/daemon/StatisticsManager.cpp gives to the callbacks.
use mathlib.Core.List.{append-nil, append_assoc}
use v_ubercool.Base.{
  ℕ, zero, suc, ◌≡◌, refl, sym, ap, ◌∙◌, Bool, true, false, List, [], ◌∷◌, ◌++◌, All, replicate,
  arith,
}
use v_ubercool.Stats.{Statistics, Manager, add_stat}
use v_ubercool.Stats.Totals.{empty}
use v_ubercool.Stats.Service.Tasks.{
  returned, promised, settle, turns, returned-append, promised-append, settle-append, turns-append,
}
use v_ubercool.Stats.Service.{
  Task, adding, fetching, returning, logging, Service, create_service, stats_of, post, run_task,
  dispatch, Event, add_called, get_called, timer_ends, turn, take_turn, log_later, step, run,
}

-- A manager without tasks: it serves every call when it comes.
unfoldable pub serve : List Event → Manager → List (ℕ × Statistics)
serve [] m = []
serve (add_called at_once t s ∷ es) m = serve es (add_stat t s m)
serve (get_called at_once t callback ∷ es) m = (callback, stats_of t m) ∷ serve es m
serve (timer_ends ∷ es) m = serve es m
serve (turn ∷ es) m = serve es m

-- A call that does not come from the pipeline's own thread.
unfoldable pub IsOutside : Event → Type 0
IsOutside (add_called at_once t s) = at_once ≡ false
IsOutside (get_called at_once t callback) = at_once ≡ false
IsOutside timer_ends = Unit
IsOutside turn = Unit

-- The replies that have been given, and those that are to come.
outstanding : Service → List (ℕ × Statistics)
unfolding returned promised
outstanding v = v.answers ++ (returned v.queue ++ promised v.queue v.stats)

settled : Service → Manager
unfolding settle
settled v = settle v.queue v.stats

outstanding-post :
    (task : Task) (v : Service)
    → returned (task ∷ []) ≡ []
    → outstanding (post task v) ≡ outstanding v ++ promised (task ∷ []) (settled v)
unfolding outstanding settled
outstanding-post task v h =
    let q = v.queue in
    rw
      (
        returned-append q (task ∷ []),
        promised-append q (task ∷ []) v.stats,
        h,
        append-nil (returned q),
      )
      (sym (
        append_assoc v.answers (returned q ++ promised q v.stats)
          (promised (task ∷ []) (settle q v.stats))
        ∙ ap (λ xs. v.answers ++ xs)
            (append_assoc (returned q) (promised q v.stats)
              (promised (task ∷ []) (settle q v.stats)))))

settled-post : (task : Task) (v : Service) → settled (post task v) ≡ settle (task ∷ []) (settled v)
unfolding settled
settled-post task v = settle-append v.queue (task ∷ []) v.stats

-- A turn changes neither the replies nor the counters that come of the tasks.
turn-outstanding :
    (q : List Task) (v : Service)
    → v.queue ≡ q
    → (outstanding (take_turn q v) ≡ outstanding v) × (settled (take_turn q v) ≡ settled v)
unfolding outstanding settled take_turn run_task returned promised settle
turn-outstanding [] v e = (refl, refl)
turn-outstanding (adding t s ∷ q) v e = rw e (refl, refl)
turn-outstanding (logging ∷ q) v e = rw e (refl, refl)
turn-outstanding (returning s callback ∷ q) v e =
    rw e (append_assoc v.answers ((callback, s) ∷ []) (returned q ++ promised q v.stats), refl)
turn-outstanding (fetching t callback ∷ q) v e =
    let reply = returning (stats_of t v.stats) callback in
    rw
      (
        e,
        returned-append q (reply ∷ []),
        promised-append q (reply ∷ []) v.stats,
        settle-append q (reply ∷ []) v.stats,
        append-nil (promised q v.stats),
      )
      (
        ap (λ xs. v.answers ++ xs)
            (append_assoc (returned q) ((callback, stats_of t v.stats) ∷ []) (promised q v.stats)),
        refl,
      )

-- A task that is posted is done after those before it.
post-serve :
    (task : Task) (es : List Event) (v : Service)
    → returned (task ∷ []) ≡ []
    → outstanding (post task v) ++ serve es (settled (post task v))
      ≡ outstanding v
        ++ (promised (task ∷ []) (settled v) ++ serve es (settle (task ∷ []) (settled v)))
post-serve task es v h =
    rw (outstanding-post task v h, settled-post task v)
      (append_assoc (outstanding v) (promised (task ∷ []) (settled v))
        (serve es (settle (task ∷ []) (settled v))))

log_later-serve :
    (timer : Bool) (es : List Event) (v : Service)
    → outstanding (log_later timer v) ++ serve es (settled (log_later timer v))
      ≡ outstanding v ++ serve es (settled v)
unfolding log_later returned promised settle outstanding settled
log_later-serve false es v = refl
log_later-serve true es v = post-serve logging es (record v { timer = false }) refl

-- One event.
step-serve :
    (e : Event) (es : List Event) (v : Service)
    → IsOutside e
    → outstanding (step e v) ++ serve es (settled (step e v))
      ≡ outstanding v ++ serve (e ∷ es) (settled v)
unfolding step serve IsOutside dispatch returned promised settle
step-serve (add_called at_once t s) es v h = rw h (post-serve (adding t s) es v refl)
step-serve (get_called at_once t callback) es v h =
    rw h (post-serve (fetching t callback) es v refl)
step-serve timer_ends es v h = log_later-serve v.timer es v
step-serve turn es v h = let same = turn-outstanding v.queue v refl in rw (same.0, same.1) refl

run-serve :
    (es : List Event) (v : Service)
    → All IsOutside es
    → outstanding (run es v) ≡ outstanding v ++ serve es (settled v)
unfolding run serve
run-serve [] v h = sym (append-nil (outstanding v))
run-serve (e ∷ es) v (h, hs) = run-serve es (step e v) hs ∙ step-serve e es v h

-- Turns until there is no task.
take_turn-turns :
    (q : List Task) (v : Service) (n : ℕ)
    → v.queue ≡ q
    → turns q ≡ suc n
    → turns (take_turn q v).queue ≡ n
unfolding turns take_turn run_task
take_turn-turns [] v n e h = omega (arith, h)
take_turn-turns (adding t s ∷ q) v n e h = omega (arith, h)
take_turn-turns (logging ∷ q) v n e h = omega (arith, h)
take_turn-turns (returning s callback ∷ q) v n e h = omega (arith, h)
take_turn-turns (fetching t callback ∷ q) v n e h =
    omega (arith, h, turns-append q (returning (stats_of t v.stats) callback ∷ []))

turns-zero : (q : List Task) → turns q ≡ 0 → q ≡ []
unfolding turns
turns-zero [] h = refl
turns-zero (adding t s ∷ q) h = absurd (omega (arith, h))
turns-zero (logging ∷ q) h = absurd (omega (arith, h))
turns-zero (returning s callback ∷ q) h = absurd (omega (arith, h))
turns-zero (fetching t callback ∷ q) h = absurd (omega (arith, h))

run-turns : (n : ℕ) (v : Service) → turns v.queue ≡ n → (run (replicate n turn) v).queue ≡ []
unfolding run step
run-turns zero v h = turns-zero v.queue h
run-turns (suc n) v h = run-turns n (step turn v) (take_turn-turns v.queue v n refl h)

turns-IsOutside : (n : ℕ) → All IsOutside (replicate n turn)
unfolding IsOutside
turns-IsOutside zero = tt
turns-IsOutside (suc n) = (tt, turns-IsOutside n)

serve_turns : (n : ℕ) (m : Manager) → serve (replicate n turn) m ≡ []
unfolding serve
serve_turns zero m = refl
serve_turns (suc n) m = serve_turns n m

outstanding-done : (v : Service) → v.queue ≡ [] → outstanding v ≡ v.answers
unfolding outstanding returned promised
outstanding-done v e = rw e (append-nil v.answers)

run-serve_start :
    (has_interval : Bool) (es : List Event)
    → All IsOutside es
    → outstanding (run es (create_service has_interval)) ≡ serve es empty
unfolding outstanding returned promised settled settle create_service
run-serve_start has_interval es h = run-serve es (create_service has_interval) h

-- After any calls of AddStat and GetStats, ends of the timer and turns of the pipeline, there is a
-- number of turns that leaves no task and gives every callback of GetStats, once and in the order of
-- the calls, the counters that a manager would have given it which adds and reads at once. No call
-- may come from the pipeline's own thread.
pub run-answers :
    (has_interval : Bool) (es : List Event)
    → All IsOutside es
    → (n : ℕ) × (let v = run (replicate n turn) (run es (create_service has_interval)) in
        (v.queue ≡ []) × (v.answers ≡ serve es empty))
run-answers has_interval es h =
    let v = run es (create_service has_interval) in
    let n = turns v.queue in
    let done = run-turns n v refl in
    (
      n,
      (
        done,
        sym (outstanding-done (run (replicate n turn) v) done)
            ∙ run-serve (replicate n turn) v (turns-IsOutside n)
            ∙ ap (λ xs. outstanding v ++ xs) (serve_turns n (settled v))
            ∙ append-nil (outstanding v)
            ∙ run-serve_start has_interval es h,
      ),
    )
