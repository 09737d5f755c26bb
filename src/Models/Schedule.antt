-- ===== src/Models/Schedule.antt =====
-- Schedules and the run of one (internal/models/schedule.go).
use quetzal.Prelude.{ℕ, String, Bool, Option, List, [], ◌∷◌, if◌then◌else◌, str_eq}

pub record ScheduleTask : Type 0 where
  pub action : String
  pub payload : String
  pub time_offset : ℕ
  pub continue_on_failure : Bool

pub record ScheduleRun : Type 0 where
  pub generation : ℕ
  pub fired : ℕ
  pub next : ℕ
  pub due : ℕ
  pub backup : ℕ
  pub done : List String

pub record Schedule : Type 0 where
  pub id : ℕ
  pub server_id : ℕ
  pub name : String
  pub cron : String
  pub tasks : List ScheduleTask
  pub action : String
  pub payload : String
  pub enabled : Bool
  pub timezone : String
  pub next_run : Option ℕ
  pub last_run : Option ℕ
  pub last_status : String
  pub run : Option ScheduleRun
  pub generation : ℕ

one_task : String → String → List ScheduleTask
one_task action payload =
    if str_eq action ""
    then []
    else (record {
      action = action;
      payload = payload;
      time_offset = 0;
      continue_on_failure = Bool.false;
    })
      ∷ []

tasks_or : List ScheduleTask → List ScheduleTask → List ScheduleTask
tasks_or [] legacy = legacy
tasks_or (t ∷ ts) legacy = t ∷ ts

-- The tasks in order: a schedule from before chains has one, in `action` and `payload`.
unfoldable pub task_chain : Schedule → List ScheduleTask
unfolding one_task tasks_or
task_chain sc = tasks_or sc.tasks (one_task sc.action sc.payload)
