-- ===== src/Store/Interlock/Steps.antt =====
-- Every sequence of accepted transactions of Store.Power, Store.Operations and Store.Transfer. The
-- creation and deletion of servers and the unguarded writes of Store.Bookkeeping are not among them.
use quetzal.Prelude.{ℕ, String, Bool, false, Option, List, ◌<◌, ◌≡◌, ◌≢◌, ok}
use quetzal.Models.Server.{Server, DesiredState, running, Hibernation}
use quetzal.Models.Backup.{Backup, BackupPhase, BackupDirection, dir_backup, is_active}
use quetzal.Store.Db.{Db}
use quetzal.Store.Power.{
  set_desired_state, hibernate_if_unchanged, update_last_active, wake, start_server,
  request_restart, finish_restart, update_server_hibernation,
}
use quetzal.Store.Operations.{
  create_backup, create_while_stopped, cancel_pending_backup, claim_backup, complete_backup,
  delete_backup, mark_backup_deleting,
}
use quetzal.Store.Transfer.{
  begin_server_transfer, create_transfer_operation, advance_server_transfer, cancel_server_transfer,
  finish_cancelled_transfer_operation, finish_server_transfer, commit_server_transfer,
}
use quetzal.Store.Interlock.Writes.{IsSafe}
use quetzal.Store.Interlock.Power.{
  wake-IsSafe, update_last_active-IsSafe, finish_restart-IsSafe, request_restart-IsSafe,
  update_server_hibernation-IsSafe, hibernate_if_unchanged-IsSafe, set_desired_state-IsSafe,
  start_server-IsSafe,
}
use quetzal.Store.Interlock.Operations.{
  create_backup-IsSafe, create_while_stopped-IsSafe, claim_backup-IsSafe, complete_backup-IsSafe,
  cancel_pending_backup-IsSafe, delete_backup-IsSafe, mark_backup_deleting-IsSafe,
}
use quetzal.Store.Interlock.Transfer.{
  begin_server_transfer-IsSafe, advance_server_transfer-IsSafe, commit_server_transfer-IsSafe,
  finish_server_transfer-IsSafe, create_transfer_operation-IsSafe, cancel_server_transfer-IsSafe,
  finish_cancelled_transfer_operation-IsSafe,
}

-- One transaction that is accepted, made by any of the callers, which no caller's check guards.
-- The conditions are the callers' constants: `SetDesiredState` is called to stop or to suspend,
-- `CreateBackup` with a backup, `CompleteBackup` with a phase that ends the operation; a primary
-- key is positive.
pub data Step (db : Db) : Db → Type 0 where
  tick : (now : ℕ) → Step db (record db { now = now })
  start : {db' : Db} (id when : ℕ) → start_server id when db ≡ ok db' → Step db db'
  stop : (id : ℕ) (state : DesiredState) → state ≢ running → Step db (set_desired_state id state db)
  restart : (id when : ℕ) → Step db (request_restart id when db).0
  restarted : (id : ℕ) → Step db (finish_restart id db)
  wakes : (id when : ℕ) → Step db (wake id when db)
  active : (id when : ℕ) → Step db (update_last_active id when db)
  hibernate : (observed : Server) → Step db (hibernate_if_unchanged observed db).0
  policy :
      (id : ℕ) (h : Hibernation) (rearm_at : Option ℕ)
      → Step db (update_server_hibernation id h rearm_at db)
  backs_up :
      {db' : Db} (new_id : ℕ) (b : Backup)
      → 0 < new_id
      → b.direction ≡ dir_backup
      → create_backup new_id b db ≡ ok db'
      → Step db db'
  restores :
      {db' : Db} (new_id : ℕ) (b : Backup)
      → 0 < new_id
      → create_while_stopped new_id b db ≡ ok db'
      → Step db db'
  cancels : (id : ℕ) → Step db (cancel_pending_backup id db).0
  claims :
      (id : ℕ) (job_name target : String) (databases : Option (List String))
      (ignored note job_spec : String) (cluster : ℕ) (r : Db × Bool)
      → claim_backup id job_name target databases ignored note job_spec cluster db ≡ ok r
      → Step db r.0
  completes :
      {db' : Db} (b : Backup) (from : BackupPhase) (keep_last : ℕ)
      → is_active b.phase ≡ false
      → complete_backup b from keep_last db ≡ ok db'
      → Step db db'
  deletes : (id : ℕ) → Step db (delete_backup id db)
  marks : (id : ℕ) → Step db (mark_backup_deleting id db)
  begins :
      {db' : Db} (id target when : ℕ)
      → begin_server_transfer id target when db ≡ ok db'
      → Step db db'
  operates :
      {db' : Db} (new_id id : ℕ) (direction : BackupDirection)
      → 0 < new_id
      → create_transfer_operation new_id id direction db ≡ ok db'
      → Step db db'
  advances : {db' : Db} (id : ℕ) → advance_server_transfer id db ≡ ok db' → Step db db'
  commits : {db' : Db} (id : ℕ) → commit_server_transfer id db ≡ ok db' → Step db db'
  aborts :
      {db' : Db} (id : ℕ) (message : String)
      → cancel_server_transfer id message db ≡ ok db'
      → Step db db'
  reaps :
      {db' : Db} (server operation : ℕ)
      → finish_cancelled_transfer_operation server operation db ≡ ok db'
      → Step db db'
  finishes :
      {db' : Db} (id : ℕ) (rollback : Bool)
      → finish_server_transfer id rollback db ≡ ok db'
      → Step db db'

pub Step-IsSafe : {db db' : Db} → Step db db' → IsSafe db → IsSafe db'
Step-IsSafe (tick now) safe = record { keyed = safe.keyed; still = safe.still; apart = safe.apart }
Step-IsSafe {db} (start id when h) safe = start_server-IsSafe id when db h safe
Step-IsSafe (stop id state down) safe = set_desired_state-IsSafe safe id state down
Step-IsSafe (restart id when) safe = request_restart-IsSafe safe id when
Step-IsSafe (restarted id) safe = finish_restart-IsSafe safe id
Step-IsSafe (wakes id when) safe = wake-IsSafe safe id when
Step-IsSafe (active id when) safe = update_last_active-IsSafe safe id when
Step-IsSafe (hibernate observed) safe = hibernate_if_unchanged-IsSafe safe observed
Step-IsSafe (policy id h rearm_at) safe = update_server_hibernation-IsSafe safe id h rearm_at
Step-IsSafe (backs_up new_id b positive d h) safe = create_backup-IsSafe safe new_id b h positive d
Step-IsSafe (restores new_id b positive h) safe =
    create_while_stopped-IsSafe safe new_id b h positive
Step-IsSafe (cancels id) safe = cancel_pending_backup-IsSafe safe id
Step-IsSafe (claims id job_name target databases ignored note job_spec cluster r h) safe =
    claim_backup-IsSafe safe id job_name target databases ignored note job_spec cluster r h
Step-IsSafe (completes b from keep_last ended h) safe =
    complete_backup-IsSafe b from keep_last h ended safe
Step-IsSafe (deletes id) safe = delete_backup-IsSafe safe id
Step-IsSafe (marks id) safe = mark_backup_deleting-IsSafe safe id
Step-IsSafe (begins id target when h) safe = begin_server_transfer-IsSafe safe id target when h
Step-IsSafe (operates new_id id direction positive h) safe =
    create_transfer_operation-IsSafe safe new_id id direction h positive
Step-IsSafe (advances id h) safe = advance_server_transfer-IsSafe safe id h
Step-IsSafe (commits id h) safe = commit_server_transfer-IsSafe safe id h
Step-IsSafe (aborts id message h) safe = cancel_server_transfer-IsSafe safe id message h
Step-IsSafe (reaps server operation h) safe =
    finish_cancelled_transfer_operation-IsSafe safe server operation h
Step-IsSafe (finishes id rollback h) safe = finish_server_transfer-IsSafe safe id rollback h

pub data Reach (db : Db) : Db → Type 0 where
  here : Reach db db
  next : {db' db'' : Db} → Reach db db' → Step db' db'' → Reach db db''

pub Reach-IsSafe : {db db' : Db} → Reach db db' → IsSafe db → IsSafe db'
Reach-IsSafe here safe = safe
Reach-IsSafe (next r st) safe = Step-IsSafe st (Reach-IsSafe r safe)
