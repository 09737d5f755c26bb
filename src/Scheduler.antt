-- ===== src/Scheduler.antt =====
-- The scheduler of task chains (internal/scheduler/scheduler.go): what a tick launches. A chain itself
-- is in Scheduler.Chain. Times are in nanoseconds.
pub mod Chain
pub mod Await
pub mod Order
pub mod Finish
pub mod Launch
mod Tests
use quetzal.Prelude.{
  ℕ, String, Bool, true, false, not, Option, none, some, List, [], ◌∷◌, ◌+◌, ◌*◌, ◌==◌,
  if◌then◌else◌, ltb, select, any, delete, is_some,
}
use quetzal.Models.Schedule.{Schedule, ScheduleTask, ScheduleRun, task_chain}
use quetzal.Schedules.{start_schedule_run, set_schedule_next_run}

abbrev pub seconds : ℕ → ℕ
seconds n = n * 1000000000

-- A chain that was launched, with the run that it starts from, and whether it is carried on.
pub record Launched : Type 0 where
  pub schedule : Schedule
  pub run : ScheduleRun
  pub resumed : Bool

-- The table, the schedules whose chain runs here, and the chains that a tick has launched, the last
-- one first.
pub record State : Type 0 where
  pub rows : List Schedule
  pub inflight : List ℕ
  pub launched : List Launched

abbrev pub is_inflight : ℕ → List ℕ → Bool
is_inflight id ids = any (λ i. i == id) ids

-- `acquire`: marked here unless it was.
unfoldable pub acquire : ℕ → State → State × Bool
acquire id st =
    if is_inflight id st.inflight
    then (st, false)
    else (record st { inflight = id ∷ st.inflight }, true)

unfoldable pub release : ℕ → State → State
release id st = record st { inflight = delete (λ i. i == id) st.inflight }

abbrev pub launch : Schedule → ScheduleRun → Bool → State → State
launch sc run resumed st = record st {
  launched = record { schedule = sc; run = run; resumed = resumed } ∷ st.launched;
}

abbrev pub first_due : ℕ → List ScheduleTask → ℕ
first_due now [] = now
first_due now (t ∷ ts) = now + seconds t.time_offset

abbrev pub new_run : ℕ → Schedule → ScheduleRun
new_run now sc = record {
  generation = 0;
  fired = now;
  next = 0;
  due = first_due now (task_chain sc);
  backup = 0;
  done = [];
}

-- The claim of a firing, once the schedule is marked: a claim that is not won takes the mark back.
abbrev pub claim : Schedule → State → List Schedule × Bool × ScheduleRun → State
claim sc st (rows, started, run) =
    if started
    then launch sc run false (record st { rows = rows })
    else release sc.id (record st { rows = rows })

abbrev pub fire : ℕ → Schedule → Option ℕ → State × Bool → State
fire now sc next (st, false) = st
fire now sc next (st, true) = claim sc st (start_schedule_run sc (new_run now sc) next st.rows)

abbrev pub carry_on : Schedule → ScheduleRun → State × Bool → State
carry_on sc run (st, false) = st
carry_on sc run (st, true) = launch sc run true st

-- A schedule with no next run gets one, unless its cron expression is bad.
abbrev pub plan : Schedule → Option ℕ → State → State
plan sc none st = st
plan sc (some next) st = record st { rows = set_schedule_next_run sc (some next) st.rows }

abbrev pub when_due : ℕ → Schedule → Option ℕ → ℕ → State → State
when_due now sc next due st = if ltb now due then st else fire now sc next (acquire sc.id st)

-- The next firing of a cron expression after a time, in a zone, or `none` for an error of either, is
-- an argument: cron and time are libraries.
module _ (next_run_in : String → ℕ → String → Option ℕ) where
  abbrev pub tick_idle : ℕ → Schedule → Option ℕ → State → State
  tick_idle now sc none st = plan sc (next_run_in sc.cron now sc.timezone) st
  tick_idle now sc (some due) st = when_due now sc (next_run_in sc.cron now sc.timezone) due st

  abbrev pub tick_run : ℕ → Schedule → Option ScheduleRun → State → State
  tick_run now sc none st = tick_idle now sc sc.next_run st
  tick_run now sc (some run) st = carry_on sc run (acquire sc.id st)

  -- A round of the loop of `Tick`, on a schedule as the list had it.
  unfoldable pub tick_one : ℕ → Schedule → State → State
  unfolding acquire release
  tick_one now sc st = tick_run now sc sc.run st

  unfoldable pub tick_all : ℕ → List Schedule → State → State
  unfolding tick_one
  tick_all now [] st = st
  tick_all now (sc ∷ rest) st = tick_all now rest (tick_one now sc st)

  -- `Tick` over the schedules that `ListEnabledSchedules` gives.
  unfoldable pub tick : ℕ → State → State
  unfolding tick_all
  tick now st = tick_all now (select (λ sc. sc.enabled) st.rows) st
