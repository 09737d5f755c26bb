-- ===== src/Scheduler/Chain.antt =====
-- A chain of tasks as it runs (runTask, awaitBackup and runChain of internal/scheduler/scheduler.go).
-- What the chain meets on its way is given as it is met: a list of turns, one for each task.
use quetzal.Prelude.{
  ℕ, zero, suc, String, Bool, true, false, not, ◌&&◌, ◌||◌, Option, none, some, List, [], ◌∷◌, ◌++◌,
  ◌+◌, ◌-◌, ◌*◌, ◌==◌, if◌then◌else◌, ltb, get_elem?, is_some, str_eq, str_append,
}
use quetzal.Models.Server.{Server, DesiredState, is_state}
use quetzal.Models.Backup.{Backup, BackupPhase}
use quetzal.Models.Schedule.{Schedule, ScheduleTask, ScheduleRun, task_chain}

abbrev pub backup_poll : ℕ
backup_poll = 5000000000

abbrev pub backup_wait : ℕ
backup_wait = 25200000000000

abbrev pub resume_limit : ℕ
resume_limit = 86400000000000

-- A row that was looked for: there, gone, or not read, with the error's text.
pub data Look (A : Type 0) : Type 0 where
  there : A → Look A
  gone : Look A
  unread : String → Look A

-- What a round of `awaitBackup` meets; a sleep gives the error that ends it.
pub record Poll : Type 0 where
  pub active : Bool
  pub backup : Look Backup
  pub now : ℕ
  pub slept : Option String

abbrev pub after_sleep : Option String → Option (Option String) → Option (Option String)
after_sleep (some e) later = some (some e)
after_sleep none later = later

abbrev pub waited_out : Poll → ℕ → Option (Option String) → Option (Option String)
waited_out p deadline later =
    if not (ltb p.now deadline)
    then some (some "the backup had not finished after 7h0m0s")
    else after_sleep p.slept later

abbrev pub by_phase :
    BackupPhase → String → Poll → ℕ → Option (Option String) → Option (Option String)
by_phase BackupPhase.succeeded message p deadline later = some none
by_phase BackupPhase.deleting message p deadline later = some none
by_phase BackupPhase.failed message p deadline later =
    some (some (str_append "the backup failed: " message))
by_phase BackupPhase.pending message p deadline later = waited_out p deadline later
by_phase BackupPhase.running message p deadline later = waited_out p deadline later

abbrev pub by_look : Look Backup → Poll → ℕ → Option (Option String) → Option (Option String)
by_look gone p deadline later = some (some "the backup was deleted before it finished")
by_look (unread e) p deadline later = some (some e)
by_look (there b) p deadline later = by_phase b.phase b.message p deadline later

-- The loop of `awaitBackup` from round `k`: `none` where the rounds do not suffice, and then the
-- error or, within, none.
unfoldable pub await_backup : (ℕ → Poll) → ℕ → ℕ → ℕ → Option (Option String)
await_backup polls deadline zero k = none
await_backup polls deadline (suc rounds) k =
    let later = await_backup polls deadline rounds (k + 1) in
    if not (polls k).active
    then some (some "schedule cancelled or checkpoint unavailable")
    else by_look (polls k).backup (polls k) deadline later

-- 7 hours of 5 seconds, and one.
abbrev pub enough_rounds : ℕ
enough_rounds = 5041

-- What the chain meets at one task: the clock before the delay and whether the delay was slept
-- through, whether the run is still active, the server, what the executor answers, whether the
-- checkpoint before a wait is saved, the wait's start and rounds, whether the controller is going
-- away, the clock after the task, and whether the progress is saved.
pub record Turn : Type 0 where
  pub before : ℕ
  pub slept : Bool
  pub active : Bool
  pub server : Option Server
  pub failure : Option String
  pub backup_id : ℕ
  pub checkpoint : Bool
  pub wait_from : ℕ
  pub polls : ℕ → Poll
  pub stopping : Bool
  pub now : ℕ
  pub saved : Bool

-- A call of the executor, with what it is given besides the server.
pub data Call : Type 0 where
  start stop restart backup : Call
  command : String → Call

-- A side effect that the executor was asked for: the task's index, the server and the call.
pub record Effect : Type 0 where
  pub index : ℕ
  pub server : Server
  pub call : Call

-- Whether a task succeeded, its message, the side effect that it asked for, and the run after it.
pub record Verdict : Type 0 where
  pub succeeded : Bool
  pub message : String
  pub effects : List Effect
  pub run : ScheduleRun

abbrev pub result : Option String → List Effect → ScheduleRun → Verdict
result none effects run = record { succeeded = true; message = "ok"; effects = effects; run = run }
result (some e) effects run = record {
  succeeded = false;
  message = str_append "error: " e;
  effects = effects;
  run = run;
}

abbrev pub without_effect : Bool → String → ScheduleRun → Verdict
without_effect succeeded message run = record {
  succeeded = succeeded;
  message = message;
  effects = [];
  run = run;
}

-- `awaitBackup` on the rounds of a turn: `none` where 5041 rounds do not suffice.
abbrev pub awaited : Turn → Option (Option String)
awaited turn = await_backup turn.polls (turn.wait_from + backup_wait) enough_rounds 0

-- The result of a wait that is over.
abbrev pub waited : Option (Option String) → List Effect → ScheduleRun → Option Verdict
waited none effects run = none
waited (some e) effects run = some (result e effects run)

-- The backup that a task asked for: noted in the run, saved, and waited for.
abbrev pub backup_requested : Turn → Option String → List Effect → ScheduleRun → Option Verdict
backup_requested turn (some e) effects run = some (result (some e) effects run)
backup_requested turn none effects run =
    waited
      (if turn.checkpoint
        then awaited turn
        else some (some "schedule cancelled or checkpoint unavailable"))
      effects (record run { backup = turn.backup_id })

abbrev pub starts_server : String → Bool
starts_server action = str_eq action "start" || str_eq action "restart"

abbrev pub called : ℕ → Server → Call → List Effect
called i srv call = record { index = i; server = srv; call = call } ∷ []

-- The switch of `runTask`.
abbrev pub on_action : Server → ScheduleTask → ℕ → Turn → ScheduleRun → Option Verdict
on_action srv t i turn run =
    if str_eq t.action "start"
    then some (result turn.failure (called i srv start) run)
    else if str_eq t.action "stop"
    then some (result turn.failure (called i srv stop) run)
    else if str_eq t.action "restart"
    then some (result turn.failure (called i srv restart) run)
    else if str_eq t.action "command"
    then some (result turn.failure (called i srv (command t.payload)) run)
    else if str_eq t.action "backup"
    then backup_requested turn turn.failure (called i srv backup) run
    else some (without_effect false (str_append "error: unknown action " t.action) run)

unfoldable pub run_task : Server → ScheduleTask → ℕ → Turn → ScheduleRun → Option Verdict
unfolding await_backup
run_task srv t i turn run =
    if is_state srv.desired_state DesiredState.suspended
    then some (without_effect true "skipped (server suspended)" run)
    else if starts_server t.action && is_some srv.transfer
    then some
        (without_effect false "skipped (the server is being transferred to another cluster)" run)
    else on_action srv t i turn run

-- A chain that is over, with the run as it stands and whether it ended; one that did not is left to
-- the next controller, or cancelled.
pub record Chained : Type 0 where
  pub run : ScheduleRun
  pub ended : Bool
  pub effects : List Effect

abbrev pub with_effects : List Effect → Option Chained → Option Chained
with_effects effects none = none
with_effects effects (some c) = some (record c { effects = effects ++ c.effects })

abbrev pub closed_with : ScheduleRun → Bool → List Effect → Option Chained
closed_with run ended effects = some (record { run = run; ended = ended; effects = effects })

abbrev pub noted : String → ScheduleRun → ScheduleRun
noted entry run = record run { done = run.done ++ (entry ∷ []) }

abbrev pub due_of : Option ScheduleTask → ℕ → ℕ → ℕ
due_of none now due = due
due_of (some t) now due = now + t.time_offset * 1000000000

-- The run after a task that the chain goes on from.
abbrev pub moved_on : List ScheduleTask → Turn → String → ScheduleRun → ScheduleRun
moved_on tasks turn entry run =
    let next = run.next + 1 in
    record (noted entry run) {
      next = next;
      backup = 0;
      due = due_of (get_elem? tasks next) turn.now run.due;
    }

-- What follows a task's verdict; `later` is the rest of the chain.
abbrev pub judged :
    List ScheduleTask
    → ScheduleTask
    → Turn
    → String
    → Verdict
    → (ScheduleRun → Option Chained)
    → Option Chained
judged tasks t turn label v later =
    let entry = str_append label v.message in
    if not v.succeeded && turn.stopping
    then closed_with v.run false v.effects
    else if not v.succeeded && not t.continue_on_failure
    then closed_with (noted (str_append entry " — chain aborted") v.run) true v.effects
    else if not turn.saved
    then closed_with (moved_on tasks turn entry v.run) false v.effects
    else with_effects v.effects (later (moved_on tasks turn entry v.run))

abbrev pub verdict : Server → ScheduleTask → Turn → ScheduleRun → Option Verdict
verdict srv t turn run =
    if str_eq t.action "backup" && not (run.backup == 0)
    then waited (awaited turn) [] run
    else run_task srv t run.next turn run

-- A verdict that is there is judged; a wait that is not over leaves the chain where it is.
abbrev pub once_judged :
    List ScheduleTask
    → ScheduleTask
    → Turn
    → String
    → Option Verdict
    → (ScheduleRun → Option Chained)
    → Option Chained
once_judged tasks t turn label none later = none
once_judged tasks t turn label (some v) later = judged tasks t turn label v later

abbrev pub on_server :
    Option Server
    → List ScheduleTask
    → ScheduleTask
    → Turn
    → String
    → ScheduleRun
    → (ScheduleRun → Option Chained)
    → Option Chained
on_server none tasks t turn label run later =
    closed_with (noted (str_append label "error: server unavailable") run) true []
on_server (some srv) tasks t turn label run later =
    once_judged tasks t turn label (verdict srv t turn run) later

-- The delay before a task; a chain that is carried on waits for what is left of it.
abbrev pub delay : Bool → ScheduleTask → Turn → ScheduleRun → ℕ
delay carried t turn run = if carried then run.due - turn.before else t.time_offset * 1000000000

-- The loop's condition: past the last task the chain has ended.
abbrev pub or_end :
    Option ScheduleTask → ScheduleRun → (ScheduleTask → Option Chained) → Option Chained
or_end none run body = closed_with run true []
or_end (some t) run body = body t

-- The label of a task in the status, "#1 backup: ", is an argument.
module _ (label : ℕ → String → String) where
  abbrev pub one_task :
      Bool
      → List ScheduleTask
      → ScheduleTask
      → Turn
      → ScheduleRun
      → (ScheduleRun → Option Chained)
      → Option Chained
  one_task carried tasks t turn run later =
      if ltb 0 (delay carried t turn run) && not turn.slept
      then closed_with run false []
      else if not turn.active
      then closed_with run false []
      else on_server turn.server tasks t turn (label (run.next + 1) t.action) run later

  -- The loop of `runChain`; `carried` is `first && resumed`, and `none` is a chain that has not
  -- ended within the turns, or waits for a backup still.
  unfoldable pub chain : List Turn → Bool → List ScheduleTask → ScheduleRun → Option Chained
  unfolding run_task
  chain [] carried tasks run = or_end (get_elem? tasks run.next) run (λ t. none)
  chain (turn ∷ turns) carried tasks run =
      or_end (get_elem? tasks run.next) run
        (λ t. one_task carried tasks t turn run (λ run'. chain turns false tasks run'))

-- `strings.Join(run.Done, "; ")`.
unfoldable pub joined : List String → String
joined [] = ""
joined (d ∷ []) = d
joined (d ∷ e ∷ ds) = str_append d (str_append "; " (joined (e ∷ ds)))

unfoldable pub summary : ScheduleRun → String → String
unfolding joined
summary run note =
    let out = joined run.done in
    if str_eq note ""
    then out
    else if str_eq out ""
    then note
    else str_append out (str_append " (" (str_append note ")"))

-- The end of `runChain`: its status, whether the chain ended, the run, the side effects that were
-- asked for, and whether the schedule was removed as an orphan.
pub record RunEnd : Type 0 where
  pub status : String
  pub ended : Bool
  pub run : ScheduleRun
  pub effects : List Effect
  pub removed : Bool

abbrev pub ended_at_once : String → ScheduleRun → RunEnd
ended_at_once status run = record {
  status = status;
  ended = true;
  run = run;
  effects = [];
  removed = false;
}

abbrev pub closing_note : Bool → String
closing_note resumed = if resumed then "carried on after the controller restarted" else ""

abbrev pub run_end : Bool → Chained → RunEnd
run_end resumed c = record {
  status = if c.ended then summary c.run (closing_note resumed) else "";
  ended = c.ended;
  run = c.run;
  effects = c.effects;
  removed = false;
}

abbrev pub map_end : Bool → Option Chained → Option RunEnd
map_end resumed none = none
map_end resumed (some c) = some (run_end resumed c)

-- The label of a task and the text of a delay are arguments.
module _ (label : ℕ → String → String) (printed : ℕ → String) where
  abbrev pub overdue_note : ℕ → String
  overdue_note late =
      str_append "the controller restarted mid-chain and the rest was "
        (str_append (printed late) " overdue; not run")

  unfoldable pub run_tasks : List Turn → ℕ → Bool → List ScheduleTask → ScheduleRun → Option RunEnd
  unfolding chain summary
  run_tasks turns now resumed [] run = some (ended_at_once "error: no tasks" run)
  run_tasks turns now resumed (t ∷ ts) run =
      if resumed && ltb resume_limit (now - run.due)
      then some (ended_at_once (summary run (overdue_note (now - run.due))) run)
      else map_end resumed (chain label turns resumed (t ∷ ts) run)

  -- `runChain`, by the look for the schedule's server before it begins.
  unfoldable pub run_chain :
      Look Server → List Turn → ℕ → Bool → Schedule → ScheduleRun → Option RunEnd
  unfolding run_tasks
  run_chain gone turns now resumed sc run =
      some (record (ended_at_once "removed (server deleted)" run) { removed = true })
  run_chain (unread e) turns now resumed sc run =
      some (ended_at_once (str_append "error: server: " e) run)
  run_chain (there srv) turns now resumed sc run = run_tasks turns now resumed (task_chain sc) run
