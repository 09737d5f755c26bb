-- ===== src/Scheduler/Tests.antt =====
-- A chain of two tasks, and the results of Scheduler on it.
use quetzal.Prelude.{
  ℕ, String, true, false, Option, none, some, List, [], ◌∷◌, ◌+◌, ◌*◌, ◌≡◌, ◌≤◌, All, length, refl,
  arith, str_append,
}
use quetzal.Models.Schedule.{Schedule, ScheduleTask, ScheduleRun, task_chain}
use quetzal.Models.Samples.{lobby}
use quetzal.Scheduler.{State, tick, is_inflight}
use quetzal.Scheduler.Chain.{
  Turn, Poll, there, gone, RunEnd, run_chain, chain, run_task, summary, await_backup, backup_poll,
  backup_wait, enough_rounds, command, restart,
}
use quetzal.Scheduler.Await.{Ends, await_backup-Ends}
use quetzal.Scheduler.Order.{Served, run_chain-Served}
use quetzal.Scheduler.Finish.{run_chain-some}
use quetzal.Scheduler.Launch.{Apart, tick-Apart}

abbrev polls : ℕ → Poll
polls i = record { active = true; backup = gone; now = 100 + i * backup_poll; slept = none }

clock : (i : ℕ) → 100 + i * backup_poll ≤ (polls i).now
clock i = omega arith

await_backup-Ends_example : Ends (await_backup polls (100 + backup_wait) enough_rounds 0)
await_backup-Ends_example = await_backup-Ends polls 100 clock

abbrev restart_it : ScheduleTask
restart_it = record {
  action = "restart";
  payload = "";
  time_offset = 0;
  continue_on_failure = false;
}

abbrev say_it : ScheduleTask
say_it = record {
  action = "command";
  payload = "say hello";
  time_offset = 0;
  continue_on_failure = false;
}

abbrev nightly : Schedule
nightly = record {
  id = 1;
  server_id = 1;
  name = "nightly";
  cron = "0 4 * * *";
  tasks = say_it ∷ restart_it ∷ [];
  action = "";
  payload = "";
  enabled = true;
  timezone = "";
  next_run = some 50;
  last_run = none;
  last_status = "";
  run = none;
  generation = 4;
}

abbrev run : ScheduleRun
run = record { generation = 5; fired = 60; next = 0; due = 60; backup = 0; done = [] }

abbrev good_turn : Turn
good_turn = record {
  before = 60;
  slept = true;
  active = true;
  server = some lobby;
  failure = none;
  backup_id = 0;
  checkpoint = true;
  wait_from = 60;
  polls = polls;
  stopping = false;
  now = 61;
  saved = true;
}

abbrev label : ℕ → String → String
label i action = str_append action ": "

abbrev printed : ℕ → String
printed late = "a day"

abbrev turns : List Turn
turns = good_turn ∷ good_turn ∷ []

enough : length (task_chain nightly) ≤ run.next + length turns
unfolding task_chain
enough = omega arith

clock_60 : (i : ℕ) → 60 + i * backup_poll ≤ (polls i).now
clock_60 i = omega arith

run_chain-some_example :
    (end : RunEnd) × (run_chain label printed (there lobby) turns 60 false nightly run ≡ some end)
run_chain-some_example =
    run_chain-some label printed (there lobby) turns 60 false nightly run enough
      (clock_60, (clock_60, tt))

abbrev whole : RunEnd
whole = record {
  status = "command: ok; restart: ok";
  ended = true;
  run = record run { next = 2; due = 61; done = "command: ok" ∷ "restart: ok" ∷ [] };
  effects =
      record { index = 0; server = lobby; call = command "say hello" }
      ∷ record { index = 1; server = lobby; call = restart }
      ∷ [];
  removed = false;
}

whole_run : run_chain label printed (there lobby) turns 60 false nightly run ≡ some whole
unfolding run_chain task_chain chain run_task summary
whole_run = refl

run_chain-Served_example : Served (task_chain nightly) 0 (length (task_chain nightly)) whole.effects
run_chain-Served_example =
    run_chain-Served label printed turns 60 false (there lobby) nightly run whole whole_run

abbrev next_day : String → ℕ → String → Option ℕ
next_day cron now zone = some (now + 86400000000000)

abbrev idle_state : State
idle_state = record { rows = nightly ∷ []; inflight = 7 ∷ []; launched = [] }

tick-Apart_example :
    Apart (tick next_day 60 idle_state).launched
    × All (λ l. is_inflight l.schedule.id (7 ∷ []) ≡ false) (tick next_day 60 idle_state).launched
tick-Apart_example = tick-Apart next_day 60 (7 ∷ []) idle_state refl refl
