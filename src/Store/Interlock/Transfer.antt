-- ===== src/Store/Interlock/Transfer.antt =====
-- The transactions of `Store/Transfer.antt` keep the interlock.
use quetzal.Prelude.{ℕ, String, Bool, true, ◌&&◌, some, ◌<◌, count-zero, ◌≡◌, refl, arith, ok}
use quetzal.Models.Server.{Server, TransferState, committing}
use quetzal.Models.Backup.{Backup, BackupDirection, dir_backup, dir_restore, dir_database_import}
use quetzal.Store.Db.{Db, find_server, update_server, active_on, with_id, stamped}
use quetzal.Store.Rows.{find_server-update, find_server-id}
use quetzal.Store.Transfer.{
  begin_server_transfer, create_transfer_operation, advance_server_transfer, cancel_server_transfer,
  finish_cancelled_transfer_operation, finish_server_transfer, commit_server_transfer,
  unfinished_on, begun, stopped_for, planned, with_transfer, carrying, running_as, moved_on,
  tracked, waiting_for, failed_with, released,
}
use quetzal.Store.TransferSteps.{
  begin_server_transfer-eq, create_transfer_operation-eq, advance_server_transfer-eq,
  finish_cancelled_transfer_operation-eq, cancel_server_transfer-eq, finish_server_transfer-eq,
  commit_server_transfer-eq,
}
use quetzal.Store.Interlock.Writes.{
  IsSafe, allows, insert-IsSafe, locked-IsSafe, update_backups-IsSafe,
}

module _ {db : Db} (safe : IsSafe db) (id : ℕ) where
  -- In a transfer, what is written keeps tracking what the transfer tracked.
  still_tracked :
      (s : Server) (t t' : TransferState) (f : Server → Server)
      → find_server id db.servers ≡ some s
      → s.transfer ≡ some t
      → ((r : Server) → (f r).id ≡ r.id)
      → (f s).transfer ≡ some t'
      → (f s).desired_state ≡ s.desired_state
      → ((b : Backup) → 0 < b.id → tracked t b ≡ true → tracked t' b ≡ true)
      → IsSafe (update_server id f db)
  still_tracked s t t' f found busy keeps busy' state more =
      locked-IsSafe safe id f s found keeps
        (rw busy' (rw state (rw busy at (safe.still id s found))))
        (λ b m a. rw busy' (more b (safe.keyed b m) (rw busy at (safe.apart id s found b m a))))

module _ {db : Db} (safe : IsSafe db) (id : ℕ) {db' : Db} where
  pub begin_server_transfer-IsSafe :
      (target when : ℕ) → begin_server_transfer id target when db ≡ ok db' → IsSafe db'
  begin_server_transfer-IsSafe target when h =
      let (s, found, free, other, quiet, e) = begin_server_transfer-eq id target when db h in
      rw e (
        locked-IsSafe safe id (stopped_for (begun s target when)) s found (λ r. refl) refl
          (λ b m a. ground (arith, count-zero (unfinished_on id) db.backups quiet m)))

  pub advance_server_transfer-IsSafe : advance_server_transfer id db ≡ ok db' → IsSafe db'
  advance_server_transfer-IsSafe h =
      let (s, t, found, busy, (b, known, done, live, phase, e)) =
        advance_server_transfer-eq id db h in
      rw e (still_tracked safe id s t _ (moved_on t) found busy (λ r. refl) refl refl (λ c p h. h))

  pub commit_server_transfer-IsSafe : commit_server_transfer id db ≡ ok db' → IsSafe db'
  commit_server_transfer-IsSafe h =
      let (s, t, found, busy, (b, known, done, live, phase, some_restore, e)) =
        commit_server_transfer-eq id db h in
      rw e (
        still_tracked safe id s t _ (carrying (record t { phase = committing })) found busy
          (λ r. refl) refl refl (λ c p h. h))

  pub finish_server_transfer-IsSafe :
      (rollback : Bool) → finish_server_transfer id rollback db ≡ ok db' → IsSafe db'
  finish_server_transfer-IsSafe rollback h =
      let (s, t, found, busy, (cluster, cancelled, quiet, chosen, e)) =
        finish_server_transfer-eq id db rollback h in
      rw e (
        locked-IsSafe safe id (released t cluster) s found (λ r. refl) refl
          (λ b m a. ground (
            arith,
            rw busy at (safe.apart id s found b m a),
            count-zero (λ c. active_on id c && tracked t c) db.backups quiet m,
          )))

-- The operation that a plan makes is tracked, and so is what was tracked before.
planned-tracked :
    (now new_id id : ℕ) (direction : BackupDirection) (t linked : TransferState) (b : Backup)
    → planned now new_id id direction t ≡ ok (b, linked)
    → (tracked linked (record b { id = new_id }) ≡ true)
      × (b.server_id ≡ id)
      × ((c : Backup) → 0 < c.id → tracked t c ≡ true → tracked linked c ≡ true)
unfolding planned
planned-tracked now new_id id dir_backup t linked b h =
    (ground arith, ground arith, λ c p k. ground (arith, k))
planned-tracked now new_id id dir_restore t linked b h =
    (ground arith, ground arith, λ c p k. ground (arith, k))
planned-tracked now new_id id dir_database_import t linked b h = absurd (ground arith)

allows_linked :
    (id : ℕ) (linked : TransferState) (db : Db) (b : Backup)
    → tracked linked b ≡ true
    → (s : Server) → find_server id (with_transfer id linked db).servers ≡ some s
    → allows s.transfer s.desired_state b ≡ true
allows_linked id linked db b tracks s here =
    let (r, found, e) =
      find_server-update (with_id id) (stamped db.now (carrying linked)) id db.servers (λ r. refl)
        here in
    let hit : with_id id r ≡ true = ground (arith, find_server-id id db.servers found) in
    rw e (rw hit tracks)

pub create_transfer_operation-IsSafe :
    {db : Db} (safe : IsSafe db) (new_id id : ℕ) (direction : BackupDirection) {db' : Db}
    → create_transfer_operation new_id id direction db ≡ ok db'
    → 0 < new_id
    → IsSafe db'
create_transfer_operation-IsSafe {db} safe new_id id direction h positive =
    let (s, t, found, busy, (b, linked, live, plan, e)) =
      create_transfer_operation-eq id db new_id direction h in
    let (tracks, on, more) = planned-tracked db.now new_id id direction t linked b plan in
    let linked-IsSafe : IsSafe (with_transfer id linked db) =
      still_tracked safe id s t linked (carrying linked) found busy (λ r. refl) refl refl more in
    rw e (
      insert-IsSafe linked-IsSafe new_id b positive
        (λ r here. allows_linked id linked db (record b { id = new_id }) tracks r (rw on at here)))

pub cancel_server_transfer-IsSafe :
    {db : Db} (safe : IsSafe db) (id : ℕ) (message : String) {db' : Db}
    → cancel_server_transfer id message db ≡ ok db'
    → IsSafe db'
cancel_server_transfer-IsSafe {db} safe id message h =
    let (s, t, found, busy, (phase, e)) = cancel_server_transfer-eq id db message h in
    let swept-IsSafe =
      update_backups-IsSafe safe (waiting_for id t) (failed_with message db.now)
        (λ b. (refl, refl, refl)) (λ b hit a. cc) in
    rw e (
      still_tracked swept-IsSafe id s t _
        (carrying (record t { cancelled = true; message = message })) found busy (λ r. refl) refl
        refl (λ c p h. h))

pub finish_cancelled_transfer_operation-IsSafe :
    {db : Db} (safe : IsSafe db) (server operation : ℕ) {db' : Db}
    → finish_cancelled_transfer_operation server operation db ≡ ok db'
    → IsSafe db'
finish_cancelled_transfer_operation-IsSafe {db} safe server operation h =
    let (s, t, found, busy, (cancelled, linked, e)) =
      finish_cancelled_transfer_operation-eq server db operation h in
    rw e (
      update_backups-IsSafe safe (running_as operation server) (failed_with t.message db.now)
        (λ b. (refl, refl, refl)) (λ b hit a. cc))
