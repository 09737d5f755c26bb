-- ===== src/Schedules.antt =====
-- The table of schedules and the runs of their chains (internal/store/store.go, "Schedules").
-- A run is written only under the generation that it was started with.
pub mod Stale
pub mod Claims
mod Tests
use quetzal.Prelude.{
  ℕ, String, Bool, true, false, not, ◌&&◌, Option, none, some, List, [], ◌∷◌, ◌+◌, ◌%◌, ◌==◌,
  if◌then◌else◌, first, update, delete, count, Result, Error, ok, err, or_error, refuse_if, ◌>>=◌,
  ◌>>◌, is_some, is_none, str_eq,
}
use quetzal.Models.Schedule.{Schedule, ScheduleTask, ScheduleRun, task_chain}

-- `Generation++` on a uint64.
abbrev pub next_generation : ℕ → ℕ
next_generation g = (g + 1) % 18446744073709551616

abbrev bool_eq : Bool → Bool → Bool
bool_eq true b = b
bool_eq false b = not b

abbrev same_task : ScheduleTask → ScheduleTask → Bool
same_task a b =
    (str_eq a.action b.action && str_eq a.payload b.payload)
    && ((a.time_offset == b.time_offset) && bool_eq a.continue_on_failure b.continue_on_failure)

-- `slices.Equal`.
abbrev pub same_tasks : List ScheduleTask → List ScheduleTask → Bool
same_tasks [] [] = true
same_tasks [] (b ∷ bs) = false
same_tasks (a ∷ as') [] = false
same_tasks (a ∷ as') (b ∷ bs) = same_task a b && same_tasks as' bs

abbrev pub with_id : ℕ → Schedule → Bool
with_id id r = r.id == id

-- The generation and the run that an edit leaves.
abbrev pub edited : Schedule → Schedule → Schedule
edited current sc =
    if not sc.enabled
    then record sc { generation = next_generation current.generation; run = none; next_run = none }
    else if is_none current.run
    then record sc { generation = next_generation current.generation; run = current.run }
    else record sc { generation = current.generation; run = current.run }

-- The columns that an edit writes.
abbrev pub edit : Schedule → Schedule → Schedule
edit sc r = record r {
  name = sc.name;
  cron = sc.cron;
  timezone = sc.timezone;
  tasks = sc.tasks;
  action = sc.action;
  payload = sc.payload;
  enabled = sc.enabled;
  next_run = sc.next_run;
  run = sc.run;
  generation = sc.generation;
}

unfoldable pub update_schedule : Schedule → List Schedule → Result (List Schedule)
unfolding task_chain
update_schedule sc rows = do
  current ← or_error (first (with_id sc.id) rows) Error.not_found
  refuse_if (is_some current.run && not (same_tasks (task_chain current) (task_chain sc)))
      Error.schedule_active
  ok (update (with_id sc.id) (edit (edited current sc)) rows)

-- `id = ? AND enabled AND generation = ? AND run IS NULL`.
abbrev pub idle_at : ℕ → ℕ → Schedule → Bool
idle_at id g r = (r.id == id) && (r.enabled && ((r.generation == g) && is_none r.run))

-- `id = ? AND enabled AND generation = ? AND run IS NOT NULL`.
abbrev pub live_at : ℕ → ℕ → Schedule → Bool
live_at id g r = (r.id == id) && (r.enabled && ((r.generation == g) && is_some r.run))

abbrev pub started : ScheduleRun → ℕ → ScheduleRun
started run g = record run { generation = next_generation g }

abbrev pub claimed : ScheduleRun → Option ℕ → Schedule → Schedule
claimed run next_run r = record r {
  run = some run;
  generation = run.generation;
  next_run = next_run;
}

abbrev pub closed : ScheduleRun → String → Schedule → Schedule
closed run status r = record r { run = none; last_run = some run.fired; last_status = status }

-- The caller's `run` carries the new generation afterwards, claimed or not.
unfoldable pub start_schedule_run :
    Schedule → ScheduleRun → Option ℕ → List Schedule → List Schedule × Bool × ScheduleRun
start_schedule_run sc run next_run rows =
    let run' = started run sc.generation in
    (
      update (idle_at sc.id sc.generation) (claimed run' next_run) rows,
      count (idle_at sc.id sc.generation) rows == 1,
      run',
    )

unfoldable pub schedule_run_active : ℕ → ℕ → List Schedule → Bool
schedule_run_active id g rows = count (live_at id g) rows == 1

unfoldable pub save_schedule_run : ℕ → ScheduleRun → List Schedule → List Schedule × Bool
save_schedule_run id run rows = (
  update (live_at id run.generation) (λ r. record r { run = some run }) rows,
  count (live_at id run.generation) rows == 1,
)

unfoldable pub finish_schedule_run : ℕ → ScheduleRun → String → List Schedule → List Schedule × Bool
finish_schedule_run id run status rows = (
  update (live_at id run.generation) (closed run status) rows,
  count (live_at id run.generation) rows == 1,
)

unfoldable pub set_schedule_next_run : Schedule → Option ℕ → List Schedule → List Schedule
set_schedule_next_run sc next_run =
    update (idle_at sc.id sc.generation) (λ r. record r { next_run = next_run })

unfoldable pub create_schedule : ℕ → Schedule → List Schedule → List Schedule
create_schedule new_id sc rows = record sc { id = new_id } ∷ rows

unfoldable pub delete_schedule : ℕ → List Schedule → List Schedule
delete_schedule id = delete (with_id id)

unfoldable pub delete_schedules_for_server : ℕ → List Schedule → List Schedule
delete_schedules_for_server server = delete (λ r. r.server_id == server)
