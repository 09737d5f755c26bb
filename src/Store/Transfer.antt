-- ===== src/Store/Transfer.antt =====
-- The transfer of a server to another cluster (internal/store/transfer.go): each function is one
-- transaction that holds the server's row.
use quetzal.Prelude.{
  ℕ, String, Bool, true, false, not, ◌&&◌, ◌||◌, Option, none, some, [], ◌==◌, if◌then◌else◌, first,
  count, Result, Error, ok, err, or_error, refuse_if, ◌>>=◌, ◌>>◌, is_some,
}
use quetzal.Models.Server.{
  Server, stopped, TransferState, backing_up, restoring, committing, in_phase,
}
use quetzal.Models.Backup.{
  Backup, BackupDirection, dir_backup, dir_restore, dir_database_import, pending, running,
  succeeded, failed, is_phase, is_unfinished,
}
use quetzal.Store.Db.{Db, lock_server, update_server, update_backups, insert_backup, active_on}

-- The server's operations that wait, run or are being deleted.
abbrev pub unfinished_on : ℕ → Backup → Bool
unfinished_on id b = (b.server_id == id) && is_unfinished b.phase

-- The transfer as it begins, and the server's row with it: stopped, and off any restart.
abbrev pub begun : Server → ℕ → ℕ → TransferState
begun srv target when = record {
  phase = backing_up;
  source_cluster = srv.cluster_id;
  target_cluster = target;
  backup_id = 0;
  restore_id = 0;
  prev_state = srv.desired_state;
  started_at = when;
  message = "";
  cancelled = false;
}

abbrev pub stopped_for : TransferState → Server → Server
stopped_for t s = record s {
  transfer = some t;
  desired_state = stopped;
  restart_requested_at = none;
}

unfoldable pub begin_server_transfer : ℕ → ℕ → ℕ → Db → Result Db
unfolding lock_server
begin_server_transfer id target when db = do
  srv ← lock_server id db
  refuse_if (is_some srv.transfer) Error.transfer_active
  refuse_if (srv.cluster_id == target) Error.transfer_changed
  refuse_if (not (count (unfinished_on id) db.backups == 0)) Error.transfer_operation_active
  ok (update_server id (stopped_for (begun srv target when)) db)

-- A transfer that is not cancelled, or `ErrTransferChanged`.
abbrev pub ongoing : Option TransferState → Result TransferState
ongoing none = err Error.transfer_changed
ongoing (some t) = if t.cancelled then err Error.transfer_changed else ok t

-- A new operation of a server, its other columns at their zero values.
abbrev pub transfer_backup : ℕ → ℕ → BackupDirection → ℕ → ℕ → Bool → Backup
transfer_backup now server direction cluster source full = record {
  id = 0;
  created_at = now;
  completed_at = none;
  server_id = server;
  direction = direction;
  phase = pending;
  source_id = source;
  size_bytes = 0;
  message = "";
  job_name = "";
  job_spec = "";
  job_uid = "";
  cluster_id = some cluster;
  forgotten = false;
  target = "";
  other_target = false;
  databases = [];
  with_databases = false;
  ignored = "";
  full = full;
  database_id = 0;
  path = "";
  wipe = false;
}

-- The operation and the transfer's link to it, for each direction.
unfoldable pub planned :
    ℕ → ℕ → ℕ → BackupDirection → TransferState → Result (Backup × TransferState)
planned now new_id id dir_backup t =
    if not (in_phase t.phase backing_up) || not (t.backup_id == 0)
    then err Error.transfer_changed
    else ok
        (transfer_backup now id dir_backup t.source_cluster 0 true, record t { backup_id = new_id })
planned now new_id id dir_restore t =
    if not (in_phase t.phase restoring) || not (t.restore_id == 0)
    then err Error.transfer_changed
    else ok (
      transfer_backup now id dir_restore t.target_cluster t.backup_id false,
      record t { restore_id = new_id },
    )
planned now new_id id dir_database_import t = err Error.transfer_changed

abbrev pub carrying : TransferState → Server → Server
carrying t s = record s { transfer = some t }

abbrev pub with_transfer : ℕ → TransferState → Db → Db
with_transfer id t = update_server id (carrying t)

unfoldable pub create_transfer_operation : ℕ → ℕ → BackupDirection → Db → Result Db
unfolding lock_server planned
create_transfer_operation new_id id direction db = do
  srv ← lock_server id db
  t ← ongoing srv.transfer
  (b, linked) ← planned db.now new_id id direction t
  ok (with_transfer id linked (insert_backup new_id b db))

abbrev pub find_backup : ℕ → Db → Result Backup
find_backup id db = or_error (first (λ b. b.id == id) db.backups) Error.record_not_found

abbrev pub moved_on : TransferState → Server → Server
moved_on t s = record s {
  transfer = some (record t { phase = restoring });
  cluster_id = t.target_cluster;
}

unfoldable pub advance_server_transfer : ℕ → Db → Result Db
unfolding lock_server
advance_server_transfer id db = do
  srv ← lock_server id db
  t ← ongoing srv.transfer
  refuse_if (not (in_phase t.phase backing_up)) Error.transfer_changed
  b ← find_backup t.backup_id db
  refuse_if (not (is_phase b.phase succeeded)) Error.transfer_changed
  refuse_if (not (count (λ c. unfinished_on id c && not (c.id == t.backup_id)) db.backups == 0))
      Error.transfer_operation_active
  ok (update_server id (moved_on t) db)

-- The operations that a transfer tracks.
abbrev pub tracked : TransferState → Backup → Bool
tracked t b = (b.id == t.backup_id) || (b.id == t.restore_id)

abbrev pub failed_with : String → ℕ → Backup → Backup
failed_with message now b = record b { phase = failed; message = message; completed_at = some now }

abbrev cancellable : Option TransferState → Result TransferState
cancellable none = err Error.transfer_changed
cancellable (some t) = if in_phase t.phase committing then err Error.transfer_changed else ok t

-- The operations of a transfer that nothing has started.
abbrev pub waiting_for : ℕ → TransferState → Backup → Bool
waiting_for id t b = (b.server_id == id) && (tracked t b && is_phase b.phase pending)

unfoldable pub cancel_server_transfer : ℕ → String → Db → Result Db
unfolding lock_server
cancel_server_transfer id message db = do
  srv ← lock_server id db
  t ← cancellable srv.transfer
  ok (
      with_transfer id (record t { cancelled = true; message = message })
        (update_backups (waiting_for id t) (failed_with message db.now) db))

abbrev being_cancelled : Option TransferState → ℕ → Result TransferState
being_cancelled none operation = err Error.transfer_changed
being_cancelled (some t) operation =
    if not t.cancelled || (not (t.backup_id == operation) && not (t.restore_id == operation))
    then err Error.transfer_changed
    else ok t

abbrev pub running_as : ℕ → ℕ → Backup → Bool
running_as operation server b =
    (b.id == operation) && ((b.server_id == server) && is_phase b.phase running)

unfoldable pub finish_cancelled_transfer_operation : ℕ → ℕ → Db → Result Db
unfolding lock_server
finish_cancelled_transfer_operation server operation db = do
  srv ← lock_server server db
  t ← being_cancelled srv.transfer operation
  ok (update_backups (running_as operation server) (failed_with t.message db.now) db)

abbrev ending : Option TransferState → Bool → Result TransferState
ending none rollback = err Error.transfer_changed
ending (some t) true = if t.cancelled then ok t else err Error.transfer_changed
ending (some t) false = if t.cancelled then err Error.transfer_changed else ok t

-- The cluster that the server ends on: the source, or the target if its restore succeeded.
unfoldable pub final_cluster : TransferState → Bool → Db → Result ℕ
final_cluster t true db = ok t.source_cluster
final_cluster t false db = do
  refuse_if (not (in_phase t.phase committing)) Error.transfer_changed
  refuse_if (t.restore_id == 0) Error.transfer_changed
  restore ← find_backup t.restore_id db
  refuse_if (not (is_phase restore.phase succeeded)) Error.transfer_changed
  ok t.target_cluster

abbrev pub released : TransferState → ℕ → Server → Server
released t cluster s = record s {
  transfer = none;
  cluster_id = cluster;
  desired_state = t.prev_state;
}

unfoldable pub finish_server_transfer : ℕ → Bool → Db → Result Db
unfolding lock_server final_cluster
finish_server_transfer id rollback db = do
  srv ← lock_server id db
  t ← ending srv.transfer rollback
  refuse_if (not (count (λ b. active_on id b && tracked t b) db.backups == 0))
      Error.transfer_operation_active
  cluster ← final_cluster t rollback db
  ok (update_server id (released t cluster) db)

unfoldable pub commit_server_transfer : ℕ → Db → Result Db
unfolding lock_server
commit_server_transfer id db = do
  srv ← lock_server id db
  t ← ongoing srv.transfer
  refuse_if (not (in_phase t.phase restoring) || (t.restore_id == 0)) Error.transfer_changed
  restore ← find_backup t.restore_id db
  refuse_if (not (is_phase restore.phase succeeded)) Error.transfer_changed
  ok (with_transfer id (record t { phase = committing }) db)
