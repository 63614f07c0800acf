-- ===== src/Stats/Service.antt =====
-- `StatisticsManagerImpl` of src/daemon/StatisticsManager.cpp, whose state is changed by tasks on
-- the first pipeline of the thread pool. The pipeline runs its tasks one by one, in the order in
-- which they were posted. `Dispatch` posts a task too, or runs it at once if the caller is on the
-- pipeline already: each call says which.
pub mod Tasks
pub mod Answers
pub mod Tests
use v_ubercool.Base.{ℕ, Bool, true, false, List, [], ◌∷◌, ◌++◌}
use v_ubercool.Stats.{Statistics, reset, StatType, http, dns, Manager, add_stat}
use v_ubercool.Stats.Totals.{empty}

-- The tasks of `AddStat`, of `GetStats`, of its reply and of the log. A callback is a number.
pub data Task : Type 0 where
  adding : StatType → Statistics → Task
  fetching : StatType → ℕ → Task
  returning : Statistics → ℕ → Task
  logging : Task

-- What the callbacks have been given, and the lines of the log, are kept in their order. The timer
-- is set while `PostWithTimer` has a task.
pub record Service : Type 0 where
  pub stats : Manager
  pub queue : List Task
  pub answers : List (ℕ × Statistics)
  pub logged : List Manager
  pub timer : Bool

-- The constructor, whose interval is more than zero or not.
unfoldable pub create_service : Bool → Service
create_service has_interval = record {
  stats = empty;
  queue = [];
  answers = [];
  logged = [];
  timer = has_interval;
}

unfoldable pub stats_of : StatType → Manager → Statistics
stats_of http m = m.http_stats
stats_of dns m = m.dns_stats

abbrev pub post : Task → Service → Service
post task v = record v { queue = v.queue ++ task ∷ [] }

unfoldable pub run_task : Task → Service → Service
unfolding stats_of
run_task (adding t s) v = record v { stats = add_stat t s v.stats }
run_task (fetching t callback) v = post (returning (stats_of t v.stats) callback) v
run_task (returning s callback) v = record v { answers = v.answers ++ (callback, s) ∷ [] }
run_task logging v = record v { logged = v.logged ++ v.stats ∷ []; timer = true }

unfoldable pub dispatch : Bool → Task → Service → Service
unfolding run_task
dispatch true task v = run_task task v
dispatch false task v = post task v

-- The calls, the end of the timer's time, and a turn of the pipeline.
pub data Event : Type 0 where
  add_called : Bool → StatType → Statistics → Event
  get_called : Bool → StatType → ℕ → Event
  timer_ends turn : Event

take_turn : List Task → Service → Service
unfolding run_task
take_turn [] v = v
take_turn (task ∷ tasks) v = run_task task (record v { queue = tasks })

log_later : Bool → Service → Service
log_later false v = v
log_later true v = post logging (record v { timer = false })

unfoldable pub step : Event → Service → Service
unfolding dispatch take_turn log_later
step (add_called at_once t s) v = dispatch at_once (adding t s) v
step (get_called at_once t callback) v = dispatch at_once (fetching t callback) v
step timer_ends v = log_later v.timer v
step turn v = take_turn v.queue v

unfoldable pub run : List Event → Service → Service
unfolding step
run [] v = v
run (e ∷ es) v = run es (step e v)
