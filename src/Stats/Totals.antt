-- ===== src/Stats/Totals.antt =====
-- The totals that the manager of src/daemon/StatisticsManager.cpp keeps of the threads' counters.
use v_ubercool.Base.{ℕ, ◌+◌, ◌%◌, ◌^◌, ◌≡◌, refl, ◌<◌, List, [], ◌∷◌, ◌++◌, arith}
use v_ubercool.Stats.{Statistics, plus, add, reset, StatType, http, dns, Manager, add_stat}

-- The manager after the reports have come in, in their order.
pub collect : List (StatType × Statistics) → Manager → Manager
collect [] m = m
collect ((t, s) ∷ reports) m = collect reports (add_stat t s m)

-- The sum of a counter over the reports of one type.
unfoldable pub sum_of : StatType → (Statistics → ℕ) → List (StatType × Statistics) → ℕ
sum_of t field [] = 0
sum_of http field ((http, s) ∷ reports) = field s + sum_of http field reports
sum_of dns field ((dns, s) ∷ reports) = field s + sum_of dns field reports
sum_of http field ((dns, s) ∷ reports) = sum_of http field reports
sum_of dns field ((http, s) ∷ reports) = sum_of dns field reports

pub sum_of-snoc :
    (t : StatType) (field : Statistics → ℕ) (reports : List (StatType × Statistics))
    (s : Statistics)
    → sum_of t field (reports ++ (t, s) ∷ []) ≡ sum_of t field reports + field s
unfolding sum_of
sum_of-snoc http field [] s = omega arith
sum_of-snoc dns field [] s = omega arith
sum_of-snoc http field ((http, v) ∷ reports) s = omega (arith, sum_of-snoc http field reports s)
sum_of-snoc http field ((dns, v) ∷ reports) s = sum_of-snoc http field reports s
sum_of-snoc dns field ((dns, v) ∷ reports) s = omega (arith, sum_of-snoc dns field reports s)
sum_of-snoc dns field ((http, v) ∷ reports) s = sum_of-snoc dns field reports s

-- The counter of a total.
abbrev pub IsSum : List (StatType × Statistics) → Manager → Manager → (Statistics → ℕ) → Type 0
IsSum reports m m' field =
    (field m'.http_stats ≡ (field m.http_stats + sum_of http field reports) % 2 ^ 64)
    × (field m'.dns_stats ≡ (field m.dns_stats + sum_of dns field reports) % 2 ^ 64)

abbrev IsLow : (Statistics → ℕ) → Manager → Type 0
IsLow field m = (field m.http_stats < 2 ^ 64) × (field m.dns_stats < 2 ^ 64)

-- A counter that `add` sums up.
abbrev IsSummed : (Statistics → ℕ) → Type 0
IsSummed field = (s v : Statistics) → field (add s v) ≡ plus (field s) (field v)

collect-IsSum :
    (field : Statistics → ℕ) (reports : List (StatType × Statistics)) (m : Manager)
    → IsSummed field
    → IsLow field m
    → IsSum reports m (collect reports m) field
unfolding collect sum_of add_stat
collect-IsSum field [] m h low = (omega (arith, low.0), omega (arith, low.1))
collect-IsSum field ((http, s) ∷ reports) m h low =
    let e = h m.http_stats s in
    let ih = collect-IsSum field reports (add_stat http s m) h (omega (arith, e), low.1) in
    (omega (arith, e, ih.0), omega (arith, ih.1))
collect-IsSum field ((dns, s) ∷ reports) m h low =
    let e = h m.dns_stats s in
    let ih = collect-IsSum field reports (add_stat dns s m) h (low.0, omega (arith, e)) in
    (omega (arith, ih.0), omega (arith, e, ih.1))

collect_timeouts :
    (reports : List (StatType × Statistics)) (m : Manager)
    → m.http_stats.timeout_dropped_connections ≡ 0
    → m.dns_stats.timeout_dropped_connections ≡ 0
    → ((collect reports m).http_stats.timeout_dropped_connections ≡ 0)
      × ((collect reports m).dns_stats.timeout_dropped_connections ≡ 0)
unfolding collect add_stat add
collect_timeouts [] m h d = (h, d)
collect_timeouts ((http, s) ∷ reports) m h d =
    collect_timeouts reports (add_stat http s m) (omega (arith, h)) d
collect_timeouts ((dns, s) ∷ reports) m h d =
    collect_timeouts reports (add_stat dns s m) h (omega (arith, d))

-- The manager that the program starts with.
unfoldable pub empty : Manager
empty = record { http_stats = reset; dns_stats = reset }

-- The totals of any reports are, for each type, the sums of the counters reported, modulo
-- 2 ^ 64, except for the connections dropped on time-out, which stay zero whatever is reported.
pub collect_totals :
    (reports : List (StatType × Statistics))
    → let m = collect reports empty in
      (IsSum reports empty m (λ s. s.connections))
      × (IsSum reports empty m (λ s. s.failed_connections))
      × (IsSum reports empty m (λ s. s.ok_requests))
      × (IsSum reports empty m (λ s. s.failed_requests))
      × (IsSum reports empty m (λ s. s.bad_requests))
      × (IsSum reports empty m (λ s. s.overflow_dropped_connections))
      × (IsSum reports empty m (λ s. s.bytes_received))
      × (IsSum reports empty m (λ s. s.bytes_sent))
      × (IsSum reports empty m (λ s. s.unknown_names))
      × (m.http_stats.timeout_dropped_connections ≡ 0)
      × (m.dns_stats.timeout_dropped_connections ≡ 0)
unfolding empty reset add
collect_totals reports =
    let low : (0 < 2 ^ 64) × (0 < 2 ^ 64) = (omega arith, omega arith) in
    (
      collect-IsSum (λ s. s.connections) reports empty (λ s v. refl) low,
      collect-IsSum (λ s. s.failed_connections) reports empty (λ s v. refl) low,
      collect-IsSum (λ s. s.ok_requests) reports empty (λ s v. refl) low,
      collect-IsSum (λ s. s.failed_requests) reports empty (λ s v. refl) low,
      collect-IsSum (λ s. s.bad_requests) reports empty (λ s v. refl) low,
      collect-IsSum (λ s. s.overflow_dropped_connections) reports empty (λ s v. refl) low,
      collect-IsSum (λ s. s.bytes_received) reports empty (λ s v. refl) low,
      collect-IsSum (λ s. s.bytes_sent) reports empty (λ s v. refl) low,
      collect-IsSum (λ s. s.unknown_names) reports empty (λ s v. refl) low,
      (collect_timeouts reports empty refl refl).0,
      (collect_timeouts reports empty refl refl).1,
    )
