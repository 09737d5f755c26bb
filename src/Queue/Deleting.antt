-- ===== src/Queue/Deleting.antt =====
-- How the controller deletes snapshots (processDeleting, cleanupForgotten and processCleanup of
-- internal/backup/manager.go).
use quetzal.Prelude.{
  ℕ, String, Bool, true, false, not, ◌&&◌, ◌||◌, Option, none, some, List, [], ◌∷◌, ◌==◌,
  if◌then◌else◌, select, Result, ok, err, str_eq,
}
use quetzal.Models.Server.{Server}
use quetzal.Models.Backup.{Backup, deleting, succeeded, failed, is_phase}
use quetzal.Store.Db.{Db, find_server}
use quetzal.Store.Operations.{mark_backup_forgotten, claim_backup_deletion, delete_backup}
use quetzal.Store.Bookkeeping.{update_backup}
use quetzal.Queue.{Round, is_busy, busy_servers, list_backups_by_phase, operation_cluster}
use quetzal.Queue.Running.{
  Job, Outcome, completed, gave_up, undecided, job_outcome, Looked, found, missing, unread,
  Evidence, clean_up,
}

-- What the outside answers beyond the evidence: the target in use, if its settings can be read;
-- whether the credentials are in place; and the name of a deletion's Job.
pub record Target : Type 0 where
  pub seen : Evidence
  pub target_id : Option String
  pub secret_in_place : Backup → Bool
  pub job_name : Backup → String

-- A row that is marked as forgotten, a row that is removed, and a Job that is submitted.
pub data Deed : Type 0 where
  marked removed sent : Backup → Deed

-- The tables, the busy servers and those of which a deletion began, with what was done.
pub record Sweep : Type 0 where
  pub round : Round
  pub deeds : List Deed

abbrev pub with_db : Db → Sweep → Sweep
with_db db s = record s { round = record s.round { db = db } }

abbrev pub deed : Deed → Sweep → Sweep
deed d s = record s { deeds = d ∷ s.deeds }

abbrev pub deletion_failed : String
deletion_failed = "snapshot deletion failed; retrying (the snapshot may already have been removed)"

-- The snapshot can be reached: it is in the target in use, or its target was not recorded.
abbrev pub same_target : Backup → Option String → Bool
same_target b none = false
same_target b (some id) = str_eq b.target "" || str_eq b.target id

module _ (at : Target) where
  abbrev pub cleanup_forgotten : Backup → Sweep → Sweep
  cleanup_forgotten b s =
      if at.seen.cleaned b then deed (removed b) (with_db (delete_backup b.id s.round.db) s) else s

  abbrev pub marked_done : Backup → Result Db → Sweep → Sweep
  marked_done b (err e) s = s
  marked_done b (ok db) s = cleanup_forgotten b (deed (marked b) (with_db db s))

  -- The Job that gave up is removed from the cluster, and its name from no row.
  abbrev pub on_end : Backup → Outcome → Sweep → Sweep
  on_end b completed s = marked_done b (mark_backup_forgotten b.id s.round.db) s
  on_end b gave_up s = with_db (update_backup (record b { message = deletion_failed }) s.round.db) s
  on_end b undecided s = s

  abbrev pub on_kept : Backup → Option Job → Sweep → Sweep
  on_kept b none s = s
  on_kept b (some j) s = on_end b (job_outcome j) s

  abbrev pub resent : Backup → Sweep → Sweep
  resent b s =
      deed (sent b) (record s { round = record s.round { busy = b.server_id ∷ s.round.busy } })

  abbrev pub once_claimed : Backup → Db × Bool → Sweep → Sweep
  once_claimed b (db, false) s = with_db db s
  once_claimed b (db, true) s = deed (sent b) (record s {
    round = record {
      db = db;
      busy = b.server_id ∷ s.round.busy;
      taken = b.server_id ∷ s.round.taken;
    };
  })

  abbrev pub send : Server → Backup → Sweep → Sweep
  send srv b s =
      if same_target b at.target_id && at.secret_in_place b
      then (if str_eq b.job_name ""
          then once_claimed b
              (claim_backup_deletion b.id (at.job_name b) (operation_cluster b srv) s.round.db) s
          else resent b s)
      else s

  abbrev pub send_without_pods : Server → Backup → Option ℕ → Sweep → Sweep
  send_without_pods srv b none s = s
  send_without_pods srv b (some pods) s = if pods == 0 then send srv b s else s

  abbrev pub on_job : Server → Backup → Looked → Sweep → Sweep
  on_job srv b (found j) s = on_kept b (if j.expires then at.seen.without_expiry j else some j) s
  on_job srv b missing s = send_without_pods srv b (at.seen.job_pods b) s
  on_job srv b unread s = s

  abbrev pub by_job : Server → Backup → Sweep → Sweep
  by_job srv b s =
      if b.forgotten
      then cleanup_forgotten b s
      else if not (str_eq b.job_name "")
      then on_job srv b (at.seen.job b) s
      else if is_busy s.round.busy b.server_id
      then s
      else send srv b s

  abbrev pub for_server : Backup → Option Server → Sweep → Sweep
  for_server b none s = s
  for_server b (some srv) s =
      if at.seen.reachable (operation_cluster b srv) then by_job srv b s else s

  unfoldable pub delete_all : List Backup → Sweep → Sweep
  unfolding delete_backup mark_backup_forgotten update_backup claim_backup_deletion job_outcome
      operation_cluster
  delete_all [] s = s
  delete_all (b ∷ bs) s =
      delete_all bs (for_server b (find_server b.server_id s.round.db.servers) s)

  -- `processDeleting`.
  unfoldable pub process_deleting : Db → Sweep
  unfolding list_backups_by_phase busy_servers delete_all
  process_deleting db =
      delete_all (list_backups_by_phase deleting db)
        (record { round = record { db = db; busy = busy_servers db; taken = [] }; deeds = [] })

-- `ListBackupCleanup`.
unfoldable pub list_backup_cleanup : Db → List Backup
list_backup_cleanup db =
    select
      (λ b. (is_phase b.phase succeeded || is_phase b.phase failed) && not (str_eq b.job_name ""))
      db.backups

module _ (seen : Evidence) where
  abbrev pub finished_on : Backup → Option Server → Db → Db
  finished_on b none db = db
  finished_on b (some srv) db =
      if seen.reachable (operation_cluster b srv) then clean_up seen b db else db

  unfoldable pub clean_all : List Backup → Db → Db
  unfolding operation_cluster
  clean_all [] db = db
  clean_all (b ∷ bs) db = clean_all bs (finished_on b (find_server b.server_id db.servers) db)

  -- `processCleanup`.
  unfoldable pub process_cleanup : Db → Db
  unfolding list_backup_cleanup clean_all
  process_cleanup db = clean_all (list_backup_cleanup db) db
