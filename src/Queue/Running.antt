-- ===== src/Queue/Running.antt =====
-- How the controller ends the operations that run (processRunning, resumeSubmission, jobOutcome and
-- cleanupFinished of internal/backup/manager.go).
use quetzal.Prelude.{
  ℕ, String, Bool, false, not, ◌&&◌, ◌||◌, Option, none, some, List, [], ◌∷◌, ◌==◌, if◌then◌else◌,
  ltb, first, select, commit, Result, ok, err, str_eq, str_append,
}
use quetzal.Models.Server.{Server, TransferState}
use quetzal.Models.User.{contains}
use quetzal.Models.Backup.{
  Backup, BackupPhase, running, succeeded, failed, dir_backup, dir_restore, dir_database_import,
  is_direction,
}
use quetzal.Store.Db.{Db, find_server, update_backups}
use quetzal.Store.Operations.{complete_backup, observe_backup_job, clear_backup_job, in_phase_from}
use quetzal.Queue.{list_backups_by_phase, operation_cluster}

pub data ConditionType : Type 0 where
  job_complete job_failed other_type : ConditionType

pub record Condition : Type 0 where
  pub condition_type : ConditionType
  pub is_true : Bool

-- What is read of a Job.
pub record Job : Type 0 where
  pub uid : String
  pub expires : Bool
  pub succeeded_pods : ℕ
  pub failed_pods : ℕ
  pub conditions : List Condition
  pub backoff_limit : Option ℕ

pub data Outcome : Type 0 where
  completed gave_up undecided : Outcome

abbrev pub past_limit : Job → Outcome
past_limit j = elim (j.backoff_limit) [
  | none ↦ undecided
  | some limit ↦ if ltb limit j.failed_pods then gave_up else undecided
]

abbrev pub or_next : ConditionType → Outcome → Outcome
or_next job_complete rest = completed
or_next job_failed rest = gave_up
or_next other_type rest = rest

-- The loop of `jobOutcome`, and what it falls through to.
unfoldable pub by_conditions : Job → List Condition → Outcome
by_conditions j [] = past_limit j
by_conditions j (c ∷ cs) =
    let rest = by_conditions j cs in if c.is_true then or_next c.condition_type rest else rest

unfoldable pub job_outcome : Job → Outcome
unfolding by_conditions
job_outcome j = if j.succeeded_pods == 0 then by_conditions j j.conditions else completed

pub data Looked : Type 0 where
  found : Job → Looked
  missing unread : Looked

-- What the outside answers during a tick: the clients of a cluster; an operation's Job, the Job
-- without its expiry, and its pods; whether its specification decodes, and the UID that its creation
-- gives; the size that its log reports, why it failed, and what retention it was made with; and
-- whether its Job and credentials could be deleted.
pub record Evidence : Type 0 where
  pub reachable : ℕ → Bool
  pub job : Backup → Looked
  pub without_expiry : Job → Option Job
  pub job_pods : Backup → Option ℕ
  pub decodes : String → Bool
  pub created_uid : Backup → Option String
  pub backup_size : Backup → ℕ
  pub failure : Server → Backup → String
  pub retention_policy : Job → ℕ
  pub cleaned : Backup → Bool

pub data Event : Type 0 where
  submitted : Backup → Event
  ended : Backup → BackupPhase → Event

pub record World : Type 0 where
  pub db : Db
  pub events : List Event

abbrev pub emit : Event → World → World
emit e w = record w { events = e ∷ w.events }

unfoldable pub hold_operation : Backup → String → Db → Db
hold_operation b message =
    update_backups (in_phase_from b.id running) (λ c. record c { message = message })

abbrev pub job_replaced : String
job_replaced =
    "the operation Job was replaced; an administrator must inspect its pods before releasing the server"

abbrev pub job_lost : String
job_lost =
    "the operation Job is missing; an administrator must inspect and drain its pods before releasing the server (the operation will not be replayed)"

abbrev pub pods_remain : String
pods_remain =
    "the operation Job is missing but its pods remain; an administrator must recover the Job evidence before releasing the server"

abbrev pub undecodable : String
undecodable = "the stored operation Job cannot be decoded; administrator intervention is required"

abbrev pub held : Backup → String → World → World
held b message w = record w { db = hold_operation b message w.db }

-- `complete`: the row with its end, and whether it could be written. The event that `announce` emits
-- is left out.
unfoldable pub complete : Backup → BackupPhase → ℕ → String → ℕ → Db → Result Db
complete b phase size message keep_last db =
    complete_backup
      (record b { phase = phase; size_bytes = size; message = message; completed_at = some db.now })
      b.phase keep_last db

abbrev pub lost_names : List String → List String → List String
lost_names here wanted = select (λ name. not (contains here name)) wanted

abbrev pub joined : List String → String
joined [] = ""
joined (n ∷ []) = n
joined (n ∷ m ∷ ns) = str_append n (str_append ", " (joined (m ∷ ns)))

abbrev pub note_on : List String → String
note_on [] = ""
note_on (n ∷ []) =
    str_append "database " (str_append n " was not restored: the server no longer has it")
note_on (n ∷ m ∷ ns) =
    str_append "databases "
      (str_append (joined (n ∷ m ∷ ns)) " were not restored: the server no longer has them")

abbrev pub note_of : Backup → Option Backup → String
note_of b none = ""
note_of b (some src) = note_on (lost_names b.databases src.databases)

unfoldable pub restore_note : Backup → Db → String
unfolding contains
restore_note b db =
    if is_direction b.direction dir_restore && b.with_databases
    then note_of b (first (λ c. c.id == b.source_id) db.backups)
    else ""

module _ (seen : Evidence) where
  -- `cleanupFinished`, after an end that was written.
  abbrev pub clean_up : Backup → Db → Db
  clean_up b db = if seen.cleaned b then clear_backup_job b.id b.job_name db else db

  abbrev pub after_end : Backup → BackupPhase → World → Result Db → World
  after_end b phase w (err e) = w
  after_end b phase w (ok db) = emit (ended b phase) (record w { db = clean_up b db })

  abbrev pub or_default : String → String → String
  or_default default text = if str_eq text "" then default else text

  abbrev pub direction_name : Backup → String
  direction_name b = elim (b.direction) [
    | dir_backup ↦ "backup"
    | dir_restore ↦ "restore"
    | dir_database_import ↦ "db-import"
  ]

  -- A size and the note of why every file was copied for a backup, the databases left for a restore.
  abbrev pub on_outcome : Server → Backup → Job → Outcome → World → World
  on_outcome srv b j completed w = after_end b succeeded w (
      if is_direction b.direction dir_backup
      then complete b succeeded (seen.backup_size b) b.message (seen.retention_policy j) w.db
      else complete b succeeded 0 (restore_note b w.db) (seen.retention_policy j) w.db)
  on_outcome srv b j gave_up w = after_end b failed w (
      complete b failed 0
        (or_default (str_append (direction_name b) " job failed") (seen.failure srv b)) 0 w.db)
  on_outcome srv b j undecided w = w

  abbrev pub once_observed : Server → Backup → Job → Result Db → World → World
  once_observed srv b j (err e) w = w
  once_observed srv b j (ok db) w = on_outcome srv b j (job_outcome j) (record w { db = db })

  abbrev pub observed : Backup → Job → Db → Result Db
  observed b j db =
      if str_eq b.job_uid "" && not (str_eq j.uid "")
      then observe_backup_job b.id j.uid db
      else ok db

  abbrev pub adopted : Server → Backup → Option Job → World → World
  adopted srv b none w = w
  adopted srv b (some j) w = once_observed srv b j (observed b j w.db) w

  -- The recorded UID is another Job's.
  abbrev pub was_replaced : Backup → Job → Bool
  was_replaced b j = not (str_eq b.job_uid "") && not (str_eq b.job_uid j.uid)

  abbrev pub with_job : Server → Backup → Job → World → World
  with_job srv b j w =
      if was_replaced b j
      then held b job_replaced w
      else adopted srv b (if j.expires then seen.without_expiry j else some j) w

  abbrev pub submit : Backup → Option String → World → World
  submit b none w = emit (submitted b) w
  submit b (some uid) w =
      emit (submitted b) (record w { db = commit w.db (observe_backup_job b.id uid w.db) })

  abbrev pub without_pods : Backup → Option ℕ → World → World
  without_pods b none w = w
  without_pods b (some pods) w =
      if pods == 0
      then (if seen.decodes b.job_spec
          then submit b (seen.created_uid b) w
          else held b undecodable w)
      else held b pods_remain w

  abbrev pub resume_submission : Backup → World → World
  resume_submission b w =
      if not (str_eq b.job_uid "") || str_eq b.job_spec ""
      then held b job_lost w
      else without_pods b (seen.job_pods b) w

  abbrev pub on_looked : Server → Backup → Looked → World → World
  on_looked srv b (found j) w = with_job srv b j w
  on_looked srv b missing w = resume_submission b w
  on_looked srv b unread w = w

  -- The cancellation of a transfer drains its own operations.
  abbrev pub drained_by : Option TransferState → Backup → Bool
  drained_by none b = false
  drained_by (some t) b = t.cancelled && ((t.backup_id == b.id) || (t.restore_id == b.id))

  abbrev pub on_server : Backup → Option Server → World → World
  on_server b none w = w
  on_server b (some srv) w =
      if drained_by srv.transfer b
      then w
      else if seen.reachable (operation_cluster b srv)
      then on_looked srv b (seen.job b) w
      else w

  unfoldable pub end_all : List Backup → World → World
  unfolding hold_operation complete restore_note job_outcome operation_cluster
  end_all [] w = w
  end_all (b ∷ bs) w = end_all bs (on_server b (find_server b.server_id w.db.servers) w)

  -- `processRunning`.
  unfoldable pub process_running : Db → World
  unfolding list_backups_by_phase end_all
  process_running db = end_all (list_backups_by_phase running db) (record { db = db; events = [] })
