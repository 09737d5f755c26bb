-- ===== src/Store/TransferSteps.antt =====
-- What an accepted transaction of `Store/Transfer.antt` found, and what it wrote.
use quetzal.Prelude.{
  ◌⊎◌, ℕ, String, Bool, true, false, ◌&&◌, none, some, ◌==◌, first, count, ◌≡◌, ◌≢◌, arith,
  Option-cases, Result-cases, inl, inr, ok,
}
use quetzal.Models.Server.{Server, TransferState, backing_up, restoring, committing}
use quetzal.Models.Backup.{Backup, BackupDirection, succeeded}
use quetzal.Store.Db.{Db, find_server, insert_backup, update_backups, update_server, active_on}
use quetzal.Store.Transfer.{
  begin_server_transfer, create_transfer_operation, advance_server_transfer, cancel_server_transfer,
  finish_cancelled_transfer_operation, finish_server_transfer, commit_server_transfer,
  unfinished_on, begun, stopped_for, planned, with_transfer, moved_on, tracked, waiting_for,
  failed_with, released, final_cluster, running_as,
}

pub begin_server_transfer-eq :
    (id target when : ℕ) (db : Db) {db' : Db}
    → begin_server_transfer id target when db ≡ ok db'
    → (s : Server) × (find_server id db.servers ≡ some s)
      × (s.transfer ≡ none)
      × (s.cluster_id ≢ target)
      × (count (unfinished_on id) db.backups ≡ 0)
      × (db' ≡ update_server id (stopped_for (begun s target when)) db)
unfolding begin_server_transfer
begin_server_transfer-eq id target when db h = elim (Option-cases (find_server id db.servers)) [
  | inl missing ↦ absurd (ground (arith, missing))
  | inr (s, found) ↦ (
    s,
    found,
    ground (arith, found),
    ground (arith, found),
    ground (arith, found),
    ground (arith, found),
  )
]

-- A server found in a transfer.
abbrev pub InTransfer : ℕ → Db → (Server → TransferState → Type 0) → Type 0
InTransfer id db P =
    (s : Server) × (t : TransferState) × (find_server id db.servers ≡ some s)
    × (s.transfer ≡ some t)
    × P s t

in_transfer :
    (id : ℕ) (db : Db) (P : Server → TransferState → Type 0)
    → find_server id db.servers ≢ none
    → ((s : Server) → find_server id db.servers ≡ some s → s.transfer ≢ none)
    → ((s : Server) (t : TransferState)
        → find_server id db.servers ≡ some s
        → s.transfer ≡ some t
        → P s t)
    → InTransfer id db P
in_transfer id db P known busy holds = elim (Option-cases (find_server id db.servers)) [
  | inl missing ↦ absurd (known missing)
  | inr (s, found) ↦ elim (Option-cases s.transfer) [
    | inl free ↦ absurd (busy s found free)
    | inr (t, moving) ↦ (s, t, found, moving, holds s t found moving)
  ]
]

module _ (id : ℕ) (db : Db) {db' : Db} where
  pub create_transfer_operation-eq :
      (new_id : ℕ) (direction : BackupDirection)
      → create_transfer_operation new_id id direction db ≡ ok db'
      → InTransfer id db (λ s t.
        (b : Backup) × (linked : TransferState) × (t.cancelled ≡ false)
        × (planned db.now new_id id direction t ≡ ok (b, linked))
        × (db' ≡ with_transfer id linked (insert_backup new_id b db)))
  unfolding create_transfer_operation
  create_transfer_operation-eq new_id direction h =
      in_transfer id db _ (λ missing. ground (arith, missing))
        (λ s found free. ground (arith, found, free))
        (λ s t found busy. elim (Result-cases (planned db.now new_id id direction t)) [
          | inl ((b, linked), plan) ↦
              (b, linked, ground (arith, found, busy), plan, ground (arith, found, busy, plan))
          | inr (e, refused) ↦ absurd (ground (arith, found, busy, refused))
        ])

  pub advance_server_transfer-eq :
      advance_server_transfer id db ≡ ok db'
      → InTransfer id db (λ s t.
        (b : Backup) × (first (λ c. c.id == t.backup_id) db.backups ≡ some b)
        × (b.phase ≡ succeeded)
        × (t.cancelled ≡ false)
        × (t.phase ≡ backing_up)
        × (db' ≡ update_server id (moved_on t) db))
  unfolding advance_server_transfer
  advance_server_transfer-eq h =
      in_transfer id db _ (λ missing. ground (arith, missing))
        (λ s found free. ground (arith, found, free))
        (λ s t found busy. elim (Option-cases (first (λ c. c.id == t.backup_id) db.backups)) [
          | inl lost ↦ absurd (ground (arith, found, busy, lost))
          | inr (b, known) ↦ (
            b,
            known,
            ground (arith, found, busy, known),
            ground (arith, found, busy, known),
            ground (arith, found, busy, known),
            ground (arith, found, busy, known),
          )
        ])

  pub cancel_server_transfer-eq :
      (message : String)
      → cancel_server_transfer id message db ≡ ok db'
      → InTransfer id db (λ s t.
        (t.phase ≢ committing)
        × (db'
            ≡ with_transfer id
                (record t { cancelled = true; message = message })
                (update_backups (waiting_for id t) (failed_with message db.now) db)))
  unfolding cancel_server_transfer
  cancel_server_transfer-eq message h =
      in_transfer id db _ (λ missing. ground (arith, missing))
        (λ s found free. ground (arith, found, free))
        (λ s t found busy. (ground (arith, found, busy), ground (arith, found, busy)))

  pub finish_server_transfer-eq :
      (rollback : Bool)
      → finish_server_transfer id rollback db ≡ ok db'
      → InTransfer id db (λ s t.
        (cluster : ℕ) × (t.cancelled ≡ rollback)
        × (count (λ b. active_on id b && tracked t b) db.backups ≡ 0)
        × (final_cluster t rollback db ≡ ok cluster)
        × (db' ≡ update_server id (released t cluster) db))
  unfolding finish_server_transfer
  finish_server_transfer-eq rollback h =
      in_transfer id db _ (λ missing. ground (arith, missing))
        (λ s found free. ground (arith, found, free))
        (λ s t found busy. elim (Result-cases (final_cluster t rollback db)) [
          | inl (cluster, chosen) ↦ (
            cluster,
            ground (arith, found, busy),
            ground (arith, found, busy, chosen),
            chosen,
            ground (arith, found, busy, chosen),
          )
          | inr (e, refused) ↦ absurd (ground (arith, found, busy, refused))
        ])

  pub commit_server_transfer-eq :
      commit_server_transfer id db ≡ ok db'
      → InTransfer id db (λ s t.
        (b : Backup) × (first (λ c. c.id == t.restore_id) db.backups ≡ some b)
        × (b.phase ≡ succeeded)
        × (t.cancelled ≡ false)
        × (t.phase ≡ restoring)
        × (t.restore_id ≢ 0)
        × (db' ≡ with_transfer id (record t { phase = committing }) db))
  unfolding commit_server_transfer
  commit_server_transfer-eq h =
      in_transfer id db _ (λ missing. ground (arith, missing))
        (λ s found free. ground (arith, found, free))
        (λ s t found busy. elim (Option-cases (first (λ c. c.id == t.restore_id) db.backups)) [
          | inl lost ↦ absurd (ground (arith, found, busy, lost))
          | inr (b, known) ↦ (
            b,
            known,
            ground (arith, found, busy, known),
            ground (arith, found, busy, known),
            ground (arith, found, busy, known),
            ground (arith, found, busy, known),
            ground (arith, found, busy, known),
          )
        ])

  pub finish_cancelled_transfer_operation-eq :
      (operation : ℕ)
      → finish_cancelled_transfer_operation id operation db ≡ ok db'
      → InTransfer id db (λ s t.
        (t.cancelled ≡ true)
        × ((t.backup_id ≡ operation) ⊎ (t.restore_id ≡ operation))
        × (db' ≡ update_backups (running_as operation id) (failed_with t.message db.now) db))
  unfolding finish_cancelled_transfer_operation
  finish_cancelled_transfer_operation-eq operation h =
      in_transfer id db _ (λ missing. ground (arith, missing))
        (λ s found free. ground (arith, found, free))
        (λ s t found busy.
          (ground (arith, found, busy), ground (arith, found, busy), ground (arith, found, busy)))
