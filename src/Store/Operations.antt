-- ===== src/Store/Operations.antt =====
-- Backups, restores and database imports as rows (internal/store/store.go): how one is queued,
-- claimed by the controller, completed and removed.
use quetzal.Prelude.{
  ℕ, String, Bool, true, false, not, ◌&&◌, ◌||◌, Option, none, some, List, [], ◌∷◌, map, ◌==◌,
  if◌then◌else◌, first, delete, select, count, any, drop, Result, Error, ok, err, refuse_if, ◌>>=◌,
  ◌>>◌, is_some, leb, str_eq,
}
use quetzal.Models.Server.{DesiredState, is_state, TransferState}
use quetzal.Models.Backup.{
  Backup, BackupPhase, dir_backup, pending, running, succeeded, failed, deleting, is_direction,
  is_phase,
}
use quetzal.Store.Db.{Db, lock_server, update_backups, insert_backup}
use quetzal.Store.Power.{offline_operation_active}

unfoldable pub create_backup : ℕ → Backup → Db → Result Db
unfolding lock_server
create_backup new_id b db = do
  srv ← lock_server b.server_id db
  refuse_if (is_some srv.transfer) Error.transfer_active
  ok (insert_backup new_id b db)

-- `CreateRestore` and `CreateDatabaseImport` are both this.
unfoldable pub create_while_stopped : ℕ → Backup → Db → Result Db
unfolding lock_server offline_operation_active
create_while_stopped new_id b db = do
  srv ← lock_server b.server_id db
  refuse_if (is_state srv.desired_state DesiredState.running) Error.server_running
  offline_operation_active b.server_id db
  ok (insert_backup new_id b db)

abbrev pub pending_with : ℕ → Backup → Bool
pending_with id b = (b.id == id) && is_phase b.phase pending

unfoldable pub cancel_pending_backup : ℕ → Db → Db × Bool
cancel_pending_backup id db = (
  record db { backups = delete (pending_with id) db.backups },
  count (pending_with id) db.backups == 1,
)

abbrev pub if_given : String → String → String
if_given new old = if str_eq new "" then old else new

abbrev pub if_some {ℓ} : {A : Type ℓ} → Option A → A → A
if_some none old = old
if_some (some new) old = new

-- A transfer lets only its own operations start, and none once it is cancelled.
unfoldable pub barred_by : Option TransferState → ℕ → Bool
barred_by none id = false
barred_by (some t) id = t.cancelled || (not (t.backup_id == id) && not (t.restore_id == id))

-- The operation is bound to another cluster than the one that claims it.
unfoldable pub elsewhere : Option ℕ → ℕ → ℕ → Bool
elsewhere (some bound) server_cluster cluster = not (bound == cluster)
elsewhere none server_cluster cluster = not (server_cluster == cluster)

abbrev pub claimed :
    String → String → Option (List String) → String → String → String → ℕ → Backup → Backup
claimed job_name target databases ignored note job_spec cluster b = record b {
  phase = running;
  job_name = job_name;
  job_spec = job_spec;
  cluster_id = some cluster;
  target = if_given target b.target;
  databases = if_some databases b.databases;
  ignored = if_given ignored b.ignored;
  message = if_given note b.message;
}

unfoldable pub claim_backup :
    ℕ
    → String
    → String
    → Option (List String)
    → String
    → String
    → String
    → ℕ
    → Db
    → Result (Db × Bool)
unfolding lock_server barred_by elsewhere
claim_backup id job_name target databases ignored note job_spec cluster db =
    elim (first (λ b. b.id == id) db.backups) [
      | none ↦ ok (db, false)
      | some b ↦ do
        srv ← lock_server b.server_id db
        if barred_by srv.transfer id || elsewhere b.cluster_id srv.cluster_id cluster
            then ok (db, false)
            else ok (
              update_backups (pending_with id)
                  (claimed job_name target databases ignored note job_spec cluster) db,
              count (pending_with id) db.backups == 1,
            )
    ]

-- Retention.

abbrev pub kept_in : ℕ → String → Backup → Bool
kept_in server target b =
    ((b.server_id == server) && str_eq b.target target)
    && (is_direction b.direction dir_backup && is_phase b.phase succeeded)

unfoldable pub insert_desc : ℕ → List ℕ → List ℕ
insert_desc n [] = n ∷ []
insert_desc n (m ∷ ms) = if leb m n then n ∷ m ∷ ms else m ∷ insert_desc n ms

unfoldable pub sort_desc : List ℕ → List ℕ
unfolding insert_desc
sort_desc [] = []
sort_desc (n ∷ ns) = insert_desc n (sort_desc ns)

-- `Order("id desc").Offset(keepLast).Pluck("id")`.
unfoldable pub old_ids : ℕ → String → ℕ → List Backup → List ℕ
unfolding sort_desc
old_ids server target keep_last bs =
    drop keep_last (sort_desc (map (λ b. b.id) (select (kept_in server target) bs)))

abbrev pub id_in : List ℕ → Backup → Bool
id_in ids b = any (λ i. b.id == i) ids

abbrev pub to_deleting : Backup → Backup
to_deleting b = record b {
  phase = deleting;
  job_name = "";
  message = "";
  job_spec = "";
  job_uid = "";
  cluster_id = none;
}

unfoldable pub queue_old : List ℕ → Db → Result Db
queue_old [] db = ok db
queue_old (i ∷ is) db =
    if count (λ b. id_in (i ∷ is) b && not (str_eq b.job_name "")) db.backups == 0
    then ok (update_backups (λ b. id_in (i ∷ is) b && is_phase b.phase succeeded) to_deleting db)
    else err Error.retention_waiting

-- A `keepLast` of 0 or less keeps every backup.
unfoldable pub prune_backups : ℕ → String → ℕ → Db → Result Db
unfolding old_ids queue_old
prune_backups server target keep_last db =
    if keep_last == 0 then ok db else queue_old (old_ids server target keep_last db.backups) db

abbrev pub in_phase_from : ℕ → BackupPhase → Backup → Bool
in_phase_from id from c = (c.id == id) && is_phase c.phase from

abbrev pub with_result : Backup → Backup → Backup
with_result b c = record c {
  phase = b.phase;
  size_bytes = b.size_bytes;
  message = b.message;
  completed_at = b.completed_at;
}

-- `b` carries the result, and `from` is the phase that it was read in.
unfoldable pub complete_backup : Backup → BackupPhase → ℕ → Db → Result Db
complete_backup b from keep_last db = do
  refuse_if (not (count (in_phase_from b.id from) db.backups == 1)) Error.not_found
  let done = update_backups (in_phase_from b.id from) (with_result b) db
  if is_direction b.direction dir_backup && is_phase b.phase succeeded
      then prune_backups b.server_id b.target keep_last done
      else ok done

unfoldable pub delete_backup : ℕ → Db → Db
delete_backup id db = record db { backups = delete (λ b. b.id == id) db.backups }

unfoldable pub mark_backup_deleting : ℕ → Db → Db
mark_backup_deleting id = update_backups (λ b. b.id == id) to_deleting

unfoldable pub delete_backups_for_server : ℕ → Db → Db
delete_backups_for_server server db = record db {
  backups = delete (λ b. b.server_id == server) db.backups;
}

abbrev pub observable : ℕ → String → Backup → Bool
observable id uid b = in_phase_from id running b && (str_eq b.job_uid "" || str_eq b.job_uid uid)

-- A Job may be bound once: a second Job of another UID is refused.
unfoldable pub observe_backup_job : ℕ → String → Db → Result Db
observe_backup_job id uid db = do
  refuse_if (not (count (observable id uid) db.backups == 1)) Error.not_found
  ok (update_backups (observable id uid) (λ b. record b { job_uid = uid }) db)

unfoldable pub clear_backup_job : ℕ → String → Db → Db
clear_backup_job id job_name =
    update_backups
      (λ b.
        (b.id == id)
        && (str_eq b.job_name job_name && (is_phase b.phase succeeded || is_phase b.phase failed)))
      (λ b. record b { job_name = ""; job_spec = ""; job_uid = "" })

unfoldable pub mark_backup_forgotten : ℕ → Db → Result Db
mark_backup_forgotten id db = do
  refuse_if (not (count (in_phase_from id deleting) db.backups == 1)) Error.not_found
  ok (update_backups (in_phase_from id deleting) (λ b. record b { forgotten = true }) db)

abbrev pub undeleted_job : ℕ → Backup → Bool
undeleted_job id b = in_phase_from id deleting b && str_eq b.job_name ""

unfoldable pub claim_backup_deletion : ℕ → String → ℕ → Db → Db × Bool
claim_backup_deletion id job_name cluster db = (
  update_backups (undeleted_job id)
      (λ b. record b { job_name = job_name; cluster_id = some cluster }) db,
  count (undeleted_job id) db.backups == 1,
)
