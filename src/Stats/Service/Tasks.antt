-- ===== src/Stats/Service/Tasks.antt =====
-- What the tasks of the statistics manager (src/daemon/StatisticsManager.cpp) will do.
use v_ubercool.Base.{ℕ, suc, ◌+◌, ◌≡◌, refl, ap, List, [], ◌∷◌, ◌++◌, arith}
use v_ubercool.Stats.{Statistics, Manager, add_stat}
use v_ubercool.Stats.Service.{Task, adding, fetching, returning, logging, stats_of}

-- The replies on their way to the callbacks.
unfoldable pub returned : List Task → List (ℕ × Statistics)
returned [] = []
returned (adding t s ∷ q) = returned q
returned (fetching t callback ∷ q) = returned q
returned (returning s callback ∷ q) = (callback, s) ∷ returned q
returned (logging ∷ q) = returned q

-- The replies that are still to be made.
unfoldable pub promised : List Task → Manager → List (ℕ × Statistics)
promised [] m = []
promised (adding t s ∷ q) m = promised q (add_stat t s m)
promised (fetching t callback ∷ q) m = (callback, stats_of t m) ∷ promised q m
promised (returning s callback ∷ q) m = promised q m
promised (logging ∷ q) m = promised q m

-- The counters after the tasks.
unfoldable pub settle : List Task → Manager → Manager
settle [] m = m
settle (adding t s ∷ q) m = settle q (add_stat t s m)
settle (fetching t callback ∷ q) m = settle q m
settle (returning s callback ∷ q) m = settle q m
settle (logging ∷ q) m = settle q m

-- The turns that the tasks take.
unfoldable pub turns : List Task → ℕ
turns [] = 0
turns (adding t s ∷ q) = suc (turns q)
turns (fetching t callback ∷ q) = suc (suc (turns q))
turns (returning s callback ∷ q) = suc (turns q)
turns (logging ∷ q) = suc (turns q)

pub returned-append : (q r : List Task) → returned (q ++ r) ≡ returned q ++ returned r
unfolding returned
returned-append [] r = refl
returned-append (adding t s ∷ q) r = returned-append q r
returned-append (fetching t callback ∷ q) r = returned-append q r
returned-append (returning s callback ∷ q) r = ap (◌∷◌ (callback, s)) (returned-append q r)
returned-append (logging ∷ q) r = returned-append q r

pub promised-append :
    (q r : List Task) (m : Manager) → promised (q ++ r) m ≡ promised q m ++ promised r (settle q m)
unfolding promised settle
promised-append [] r m = refl
promised-append (adding t s ∷ q) r m = promised-append q r (add_stat t s m)
promised-append (fetching t callback ∷ q) r m =
    ap (◌∷◌ (callback, stats_of t m)) (promised-append q r m)
promised-append (returning s callback ∷ q) r m = promised-append q r m
promised-append (logging ∷ q) r m = promised-append q r m

pub settle-append : (q r : List Task) (m : Manager) → settle (q ++ r) m ≡ settle r (settle q m)
unfolding settle
settle-append [] r m = refl
settle-append (adding t s ∷ q) r m = settle-append q r (add_stat t s m)
settle-append (fetching t callback ∷ q) r m = settle-append q r m
settle-append (returning s callback ∷ q) r m = settle-append q r m
settle-append (logging ∷ q) r m = settle-append q r m

pub turns-append : (q r : List Task) → turns (q ++ r) ≡ turns q + turns r
unfolding turns
turns-append [] r = omega arith
turns-append (adding t s ∷ q) r = omega (arith, turns-append q r)
turns-append (fetching t callback ∷ q) r = omega (arith, turns-append q r)
turns-append (returning s callback ∷ q) r = omega (arith, turns-append q r)
turns-append (logging ∷ q) r = omega (arith, turns-append q r)
