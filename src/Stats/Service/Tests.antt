-- ===== src/Stats/Service/Tests.antt =====
-- Runs of the statistics manager on a few calls.
use v_ubercool.Base.{ℕ, ◌≡◌, refl, true, false, List, [], ◌∷◌, All, replicate}
use v_ubercool.Stats.{http, dns, reset, add_stat, count_request, sucess, bad}
use v_ubercool.Stats.Totals.{empty}
use v_ubercool.Stats.Service.{
  create_service, Event, add_called, get_called, timer_ends, turn, run, stats_of,
}
use v_ubercool.Stats.Service.Answers.{serve, IsOutside, run-answers}

abbrev calls : List Event
calls =
    add_called false http (count_request sucess reset)
    ∷ get_called false http 1
    ∷ timer_ends
    ∷ turn
    ∷ add_called false http (count_request bad reset)
    ∷ get_called false dns 2
    ∷ []

calls-IsOutside : All IsOutside calls
unfolding IsOutside
calls-IsOutside = (refl, (refl, (tt, (tt, (refl, (refl, tt))))))

-- The first callback is not given the second report.
answered :
    (run (replicate 7 turn) (run calls (create_service true))).answers
    ≡ (1, count_request sucess reset) ∷ (2, reset) ∷ []
unfolding run count_request stats_of create_service add_stat reset empty
answered = refl

run-answers_example :
    (n : ℕ) × (let v = run (replicate n turn) (run calls (create_service true)) in
      (v.queue ≡ []) × (v.answers ≡ serve calls empty))
run-answers_example = run-answers true calls calls-IsOutside
