-- ===== src/Moves.antt =====
-- The driver of transfers (internal/transfer/transfer.go): one tick over the servers in transfer. It
-- calls the transactions of Store.Transfer and, between them, the clusters.
mod Tests
pub mod Refines
pub mod Deletion
pub mod Sources
use quetzal.Prelude.{
  ℕ, String, Bool, true, false, not, ◌&&◌, Option, none, some, List, [], ◌∷◌, ◌==◌, if◌then◌else◌,
  ltb, first, Result, Error, ok, err, ◌>>=◌, ◌>>◌, refuse_if, or_error, str_eq, str_append,
}
use quetzal.Models.Server.{Server, TransferState, TransferPhase, backing_up, restoring, committing}
use quetzal.Models.Backup.{Backup, BackupPhase, dir_backup, dir_restore, is_phase}
use quetzal.Store.Db.{Db, find_server}
use quetzal.Store.Transfer.{
  create_transfer_operation, advance_server_transfer, cancel_server_transfer,
  finish_cancelled_transfer_operation, finish_server_transfer, commit_server_transfer,
}

-- What a call of the cluster answers about one object.
pub data Answer : Type 0 where
  found missing failed : Answer

-- The label selectors of `hasServerPods`.
pub data Selector : Type 0 where
  game_pods data_pods operation_pods : Selector

-- What the outside answers during a tick, about the server that is being moved: whether a cluster
-- has clients, whether a record cannot be read, the pods of a selector (`none`: the call failed), the
-- data volume, the deletion of the namespace and the read after it, and the same for a job, its
-- pods and the credentials; with them the name that `backup.JobName` gives, and the primary key that
-- the database draws for a new operation.
pub record Outside : Type 0 where
  pub reachable : ℕ → Bool
  pub unreadable : ℕ → Bool
  pub pods : ℕ → Selector → Option ℕ
  pub volume : ℕ → Answer
  pub namespace_deleted : ℕ → Answer
  pub namespace_left : ℕ → Answer
  pub job_deleted : ℕ → String → Answer
  pub job_left : ℕ → String → Answer
  pub job_pods : ℕ → String → Option ℕ
  pub secret_deleted : ℕ → Answer
  pub job_name : Backup → String
  pub new_id : ℕ

pub data Event : Type 0 where
  complete : ℕ → ℕ → Event
  cancelled : ℕ → String → Event

-- The tables, the clusters whose namespace of the server was asked to be deleted, and the events.
pub record World : Type 0 where
  pub db : Db
  pub asked : List ℕ
  pub events : List Event

abbrev pub after : Result Db → World → World
after (ok db') w = record w { db = db' }
after (err e) w = w

abbrev pub clients_for : Outside → ℕ → Result (Unit {0})
clients_for out cluster = refuse_if (not (out.reachable cluster)) Error.cluster_unreachable

-- `m.backup`: the record, or that it is gone, or that it could not be read.
pub data Read : Type 0 where
  got : Backup → Read
  lost unread : Read

abbrev pub as_read : Option Backup → Read
as_read none = lost
as_read (some b) = got b

unfoldable pub read_backup : Outside → ℕ → Db → Read
read_backup out id db =
    if out.unreadable id then unread else as_read (first (λ b. b.id == id) db.backups)

-- The loop of `hasServerPods`; `none` is an error.
unfoldable pub has_pods : Outside → ℕ → List Selector → Option Bool
has_pods out cluster [] = some false
has_pods out cluster (sel ∷ sels) = elim (out.pods cluster sel) [
  | none ↦ none
  | some n ↦ if ltb 0 n then some true else has_pods out cluster sels
]

abbrev pub selectors : List Selector
selectors = game_pods ∷ data_pods ∷ operation_pods ∷ []

abbrev pub left_gone : Answer → Result (Unit {0})
left_gone missing = ok tt
left_gone failed = err Error.call_failed
left_gone found = err Error.deletion_in_progress

-- `deleteNamespace`: done only once the namespace is no more.
unfoldable pub delete_namespace : Outside → ℕ → Result (Unit {0})
delete_namespace out cluster = elim (out.namespace_deleted cluster) [
  | missing ↦ ok tt
  | failed ↦ err Error.call_failed
  | found ↦ left_gone (out.namespace_left cluster)
]

abbrev pub ask : ℕ → World → World
ask cluster w = record w { asked = cluster ∷ w.asked }

-- What follows a deletion that is done.
abbrev pub when_gone : Result (Unit {0}) → World → World → World
when_gone (ok done) w next = next
when_gone (err e) w next = w

abbrev pub finished : Result Db → Event → World → World
finished (err e) event w = w
finished (ok db') event w = record w { db = db'; events = event ∷ w.events }

unfoldable pub advance_committing : Outside → Server → TransferState → World → World
unfolding delete_namespace
advance_committing out srv t w =
    if not (out.reachable t.source_cluster)
    then w
    else when_gone (delete_namespace out t.source_cluster) (ask t.source_cluster w) (
        finished (finish_server_transfer srv.id false w.db) (Event.complete srv.id t.target_cluster)
          (ask t.source_cluster w))

-- The end of `stopOperation`, once no job and no pod of the operation is left.
abbrev pub settled : Server → Backup → Db → Result (Db × Bool)
settled srv b db =
    if is_phase b.phase BackupPhase.running
    then (finish_cancelled_transfer_operation srv.id b.id db >>= λ db'. ok (db', true))
    else ok (db, true)

abbrev pub secret_gone : Answer → Result (Unit {0})
secret_gone failed = err Error.call_failed
secret_gone found = ok tt
secret_gone missing = ok tt

abbrev pub no_pods : Option ℕ → Server → Backup → Answer → Db → Result (Db × Bool)
no_pods none srv b secret db = err Error.call_failed
no_pods (some n) srv b secret db =
    if ltb 0 n then ok (db, false) else secret_gone secret >> settled srv b db

abbrev pub job_gone :
    Answer → Answer → Option ℕ → Server → Backup → Answer → Db → Result (Db × Bool)
job_gone failed left pods srv b secret db = err Error.call_failed
job_gone found found pods srv b secret db = ok (db, false)
job_gone found failed pods srv b secret db = err Error.call_failed
job_gone found missing pods srv b secret db = no_pods pods srv b secret db
job_gone missing found pods srv b secret db = ok (db, false)
job_gone missing failed pods srv b secret db = err Error.call_failed
job_gone missing missing pods srv b secret db = no_pods pods srv b secret db

abbrev pub or_cluster : Option ℕ → ℕ → ℕ
or_cluster none cluster = cluster
or_cluster (some c) cluster = c

abbrev pub stop_job : Outside → Server → Backup → ℕ → Db → Result (Db × Bool)
stop_job out srv b cluster db =
    let name = if str_eq b.job_name "" then out.job_name b else b.job_name in
    clients_for out cluster
    >> job_gone (out.job_deleted cluster name) (out.job_left cluster name)
        (out.job_pods cluster name) srv b (out.secret_deleted cluster) db

abbrev pub stop_read : Outside → Server → ℕ → Db → Read → Result (Db × Bool)
stop_read out srv cluster db lost = ok (db, true)
stop_read out srv cluster db unread = err Error.database_busy
stop_read out srv cluster db (got b) =
    if str_eq b.job_name "" && not (is_phase b.phase BackupPhase.running)
    then ok (db, true)
    else stop_job out srv b (or_cluster b.cluster_id cluster) db

-- Whether nothing of the operation runs any more; an operation that is gone has stopped.
unfoldable pub stop_operation : Outside → Server → ℕ → ℕ → Db → Result (Db × Bool)
unfolding read_backup
stop_operation out srv id cluster db = stop_read out srv cluster db (read_backup out id db)

-- After an operation: an error, or one that still runs, ends the loop.
abbrev pub or_stop : Result (Db × Bool) → (Db → Db × Bool) → Db → Db × Bool
or_stop (err e) later db = (db, false)
or_stop (ok (db', true)) later db = later db'
or_stop (ok (db', false)) later db = (db', false)

-- The loop over the operations of the transfer; one that has no id is passed over.
unfoldable pub stop_all : Outside → Server → List (ℕ × ℕ) → Db → Db × Bool
unfolding stop_operation
stop_all out srv [] db = (db, true)
stop_all out srv ((id, cluster) ∷ ops) db =
    if id == 0
    then stop_all out srv ops db
    else or_stop (stop_operation out srv id cluster db) (λ db'. stop_all out srv ops db') db

abbrev pub target_gone : Outside → TransferState → World → World → World
target_gone out t w next =
    if not (out.reachable t.target_cluster)
    then w
    else when_gone (delete_namespace out t.target_cluster) (ask t.target_cluster w) next

abbrev pub finish_back : Server → String → World → World
finish_back srv message w =
    finished (finish_server_transfer srv.id true w.db) (Event.cancelled srv.id message) w

-- The end of `rollback`, once nothing of the operations runs: by the phase of the transfer.
abbrev pub unwound_in : TransferPhase → Outside → Server → TransferState → String → World → World
unwound_in backing_up out srv t message w = finish_back srv message w
unwound_in restoring out srv t message w =
    target_gone out t w (finish_back srv message (ask t.target_cluster w))
unwound_in committing out srv t message w =
    target_gone out t w (finish_back srv message (ask t.target_cluster w))

abbrev pub unwound : Outside → Server → TransferState → String → World → Db × Bool → World
unwound out srv t message w (db', false) = record w { db = db' }
unwound out srv t message w (db', true) =
    unwound_in t.phase out srv t message (record w { db = db' })

-- The operations of a transfer, each with the cluster that it began on.
abbrev pub operations : TransferState → List (ℕ × ℕ)
operations t = (t.backup_id, t.source_cluster) ∷ (t.restore_id, t.target_cluster) ∷ []

abbrev pub unwind_from : Option TransferState → Outside → Server → String → World → World
unwind_from none out srv message w = w
unwind_from (some t) out srv message w =
    unwound out srv t message w (stop_all out srv (operations t) w.db)

abbrev pub unwind : Outside → String → World → Option Server → World
unwind out message w none = w
unwind out message w (some srv) = unwind_from srv.transfer out srv message w

-- On the row that `CancelServerTransfer` returns.
abbrev pub rolled_back : Outside → ℕ → String → World → Result Db → World
rolled_back out id message w (err e) = w
rolled_back out id message w (ok db') =
    unwind out message (record w { db = db' }) (find_server id db'.servers)

unfoldable pub rollback : Outside → ℕ → String → World → World
unfolding stop_all delete_namespace
rollback out id message w = rolled_back out id message w (cancel_server_transfer id message w.db)

abbrev pub no_pod_left : Option Bool → Result Db → World → World
no_pod_left none created w = w
no_pod_left (some true) created w = w
no_pod_left (some false) created w = after created w

abbrev pub backup_in : BackupPhase → Outside → Server → Backup → World → World
backup_in BackupPhase.succeeded out srv b w = after (advance_server_transfer srv.id w.db) w
backup_in BackupPhase.failed out srv b w =
    rollback out srv.id (str_append "backup failed: " b.message) w
backup_in BackupPhase.pending out srv b w = w
backup_in BackupPhase.running out srv b w = w
backup_in BackupPhase.deleting out srv b w = w

-- What a tick does with the backup that it reads.
abbrev pub backup_read : Outside → Server → World → Read → World
backup_read out srv w lost = rollback out srv.id "backup record lost" w
backup_read out srv w unread = w
backup_read out srv w (got b) = backup_in b.phase out srv b w

unfoldable pub advance_backing_up : Outside → Server → TransferState → World → World
unfolding rollback has_pods read_backup
advance_backing_up out srv t w =
    if t.backup_id == 0
    then if not (out.reachable t.source_cluster)
      then w
      else no_pod_left (has_pods out t.source_cluster selectors)
          (create_transfer_operation out.new_id srv.id dir_backup w.db) w
    else backup_read out srv w (read_backup out t.backup_id w.db)

abbrev pub when_ready : Answer → Result Db → World → World
when_ready found created w = after created w
when_ready missing created w = w
when_ready failed created w = w

abbrev pub committed : Outside → Server → TransferState → World → Result Db → World
committed out srv t w (err e) = w
committed out srv t w (ok db') = advance_committing out srv t (record w { db = db' })

abbrev pub restore_in : BackupPhase → Outside → Server → TransferState → Backup → World → World
restore_in BackupPhase.succeeded out srv t b w =
    committed out srv t w (commit_server_transfer srv.id w.db)
restore_in BackupPhase.failed out srv t b w =
    rollback out srv.id (str_append "restore failed: " b.message) w
restore_in BackupPhase.pending out srv t b w = w
restore_in BackupPhase.running out srv t b w = w
restore_in BackupPhase.deleting out srv t b w = w

-- What a tick does with the restore that it reads.
abbrev pub restore_read : Outside → Server → TransferState → World → Read → World
restore_read out srv t w lost = rollback out srv.id "restore record lost" w
restore_read out srv t w unread = w
restore_read out srv t w (got b) = restore_in b.phase out srv t b w

unfoldable pub advance_restoring : Outside → Server → TransferState → World → World
unfolding rollback advance_committing read_backup
advance_restoring out srv t w =
    if not (out.reachable t.target_cluster)
    then w
    else if t.restore_id == 0
    then when_ready (out.volume t.target_cluster)
        (create_transfer_operation out.new_id srv.id dir_restore w.db) w
    else restore_read out srv t w (read_backup out t.restore_id w.db)

abbrev pub advance_in : TransferPhase → Outside → Server → TransferState → World → World
advance_in backing_up out srv t w = advance_backing_up out srv t w
advance_in restoring out srv t w = advance_restoring out srv t w
advance_in committing out srv t w = advance_committing out srv t w

abbrev pub process_from : Option TransferState → Outside → Server → World → World
process_from none out srv w = w
process_from (some t) out srv w =
    if t.cancelled then rollback out srv.id t.message w else advance_in t.phase out srv t w

-- A round of the loop of `Process`, on a server as the list had it.
unfoldable pub process_one : Outside → Server → World → World
unfolding rollback advance_backing_up advance_restoring advance_committing
process_one out srv w = process_from srv.transfer out srv w

-- The loop of `Process`; the outside answers anew for each server.
unfoldable pub process : (Server → Outside) → List Server → World → World
unfolding process_one
process out [] w = w
process out (srv ∷ srvs) w = process out srvs (process_one (out srv) srv w)
