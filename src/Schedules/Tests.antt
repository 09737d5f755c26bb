-- ===== src/Schedules/Tests.antt =====
-- A table of one schedule, and the results of Schedules on it.
use quetzal.Prelude.{true, false, none, some, List, [], ◌∷◌, ◌≡◌, ok, refl, arith, inl}
use quetzal.Models.Schedule.{Schedule, ScheduleRun}
use quetzal.Schedules.{
  update_schedule, schedule_run_active, save_schedule_run, finish_schedule_run, edit, edited,
}
use quetzal.Schedules.Stale.{Write, apply_all, stale_stays_stale}
use quetzal.Schedules.Claims.{disable_cancels}

abbrev run : ScheduleRun
run = record { generation = 4; fired = 60; next = 1; due = 90; backup = 0; done = [] }

-- The chain of `nightly` runs as generation 4.
abbrev nightly : Schedule
nightly = record {
  id = 1;
  server_id = 1;
  name = "nightly";
  cron = "0 4 * * *";
  tasks = [];
  action = "backup";
  payload = "";
  enabled = true;
  timezone = "";
  next_run = some 900;
  last_run = none;
  last_status = "";
  run = some run;
  generation = 4;
}

abbrev rows : List Schedule
rows = nightly ∷ []

abbrev disabled : Schedule
disabled = record nightly { enabled = false }

abbrev off : List Schedule
off = edit (edited nightly disabled) nightly ∷ []

disable_ok : update_schedule disabled rows ≡ ok off
unfolding update_schedule
disable_ok = refl

-- It is enabled again and run again before the old runner looks.
abbrev later : List Write
later = Write.edits nightly ∷ Write.starts (record nightly { generation = 6 }) run none ∷ []

disable_cancels_example :
    (schedule_run_active 1 4 (apply_all later off) ≡ false)
    × ((save_schedule_run 1 run (apply_all later off)).1 ≡ false)
    × ((finish_schedule_run 1 run "done" (apply_all later off)).1 ≡ false)
disable_cancels_example =
    disable_cancels disabled nightly run "done" 4 later rows off disable_ok refl refl (omega arith)
      (omega arith, tt) (omega arith)

stale_stays_stale_example :
    (schedule_run_active 1 4 (apply_all later off) ≡ false)
    × ((save_schedule_run 1 run (apply_all later off)).1 ≡ false)
    × ((finish_schedule_run 1 run "done" (apply_all later off)).1 ≡ false)
stale_stays_stale_example =
    stale_stays_stale 1 5 run "done" later off (omega arith)
      ((omega arith, λ e. inl (omega arith)), tt)

abbrev idle : Schedule
idle = record nightly { run = none }
