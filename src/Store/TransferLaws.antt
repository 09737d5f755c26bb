-- ===== src/Store/TransferLaws.antt =====
-- What a transfer does to its server, from its beginning to its end.
use quetzal.Prelude.{
  count-none, ok-injective, ℕ, String, true, false, ◌&&◌, none, some, List, ◌==◌, first, update,
  count, count-zero, Memᴰ-update, ◌≡◌, ◌≢◌, refl, sym, ap, ◌∙◌, arith, Option-cases, inl, inr, ok,
  err, Error,
}
use quetzal.Models.Server.{Server, TransferState, committing}
use quetzal.Models.Backup.{Backup, succeeded}
use quetzal.Store.Db.{Db, find_server, update_server, update_backups, active_on, stamped}
use quetzal.Store.Rows.{find_server-update_self}
use quetzal.Store.Transfer.{
  begin_server_transfer, cancel_server_transfer, finish_server_transfer, commit_server_transfer,
  begun, stopped_for, with_transfer, unfinished_on, waiting_for, failed_with, carrying, tracked,
  released, final_cluster,
}
use quetzal.Store.TransferSteps.{
  begin_server_transfer-eq, finish_server_transfer-eq, commit_server_transfer-eq, InTransfer,
}

final_cluster-forward :
    (t : TransferState) (db : Db) {cluster : ℕ}
    → final_cluster t false db ≡ ok cluster
    → (b : Backup) × (first (λ c. c.id == t.restore_id) db.backups ≡ some b)
      × (b.phase ≡ succeeded)
      × (t.phase ≡ committing)
      × (cluster ≡ t.target_cluster)
unfolding final_cluster
final_cluster-forward t db h = elim (Option-cases (first (λ c. c.id == t.restore_id) db.backups)) [
  | inl lost ↦ absurd (ground (arith, lost))
  | inr (b, known) ↦ (b, known, ground (arith, known), ground (arith, known), ground (arith, known))
]

final_cluster-back :
    (t : TransferState) (db : Db) {cluster : ℕ}
    → final_cluster t true db ≡ ok cluster
    → cluster ≡ t.source_cluster
unfolding final_cluster
final_cluster-back t db h = sym (ok-injective h)

-- Once a transfer is committed, it cannot be cancelled.
pub commit-cancel :
    (id : ℕ) (message : String) (db : Db) {db' : Db}
    → commit_server_transfer id db ≡ ok db'
    → cancel_server_transfer id message db' ≡ err Error.transfer_changed
unfolding cancel_server_transfer
commit-cancel id message db h =
    let (s, t, found, busy, (b, known, done, live, phase, some_restore, e)) =
      commit_server_transfer-eq id db h in
    let found' =
      find_server-update_self id (stamped db.now (carrying (record t { phase = committing })))
        db.servers (λ r. refl) found in
    rw e (rw found' refl)

-- The server's row once its transfer is over.
abbrev pub EndsAs : ℕ → Db → (Server → Type 0) → Type 0
EndsAs id db P = (s : Server) × (find_server id db.servers ≡ some s) × P s

released-row :
    (id : ℕ) (t : TransferState) (cluster : ℕ) (db : Db) {db' : Db} {s : Server}
    → db' ≡ update_server id (released t cluster) db
    → find_server id db.servers ≡ some s
    → find_server id db'.servers ≡ some (stamped db.now (released t cluster) s)
released-row id t cluster db e found =
    ap (λ d. find_server id d.servers) e
    ∙ find_server-update_self id (stamped db.now (released t cluster)) db.servers (λ r. refl) found

-- A transfer that ends without a rollback was committed with a restore that succeeded. It leaves
-- the server on the target cluster, in the power state that it had, and in no transfer.
pub finish_forward :
    (id : ℕ) (db : Db) {db' : Db}
    → finish_server_transfer id false db ≡ ok db'
    → InTransfer id db (λ s t.
      (b : Backup) × (first (λ c. c.id == t.restore_id) db.backups ≡ some b)
      × (b.phase ≡ succeeded)
      × (t.phase ≡ committing)
      × (t.cancelled ≡ false)
      × EndsAs id db' (λ r.
        (r.cluster_id ≡ t.target_cluster) × (r.desired_state ≡ t.prev_state) × (r.transfer ≡ none)))
finish_forward id db h =
    let (s, t, found, busy, (cluster, live, quiet, chosen, e)) =
      finish_server_transfer-eq id db false h in
    let (b, known, done, phase, target) = final_cluster-forward t db chosen in
    (
      s,
      t,
      found,
      busy,
      (
        b,
        known,
        done,
        phase,
        live,
        (
          stamped db.now (released t cluster) s,
          released-row id t cluster db e found,
          (target, refl, refl),
        ),
      ),
    )

-- A transfer that is rolled back leaves the server on the source cluster, in the power state that it
-- had, and in no transfer.
pub finish_back :
    (id : ℕ) (db : Db) {db' : Db}
    → finish_server_transfer id true db ≡ ok db'
    → InTransfer id db (λ s t.
      (t.cancelled ≡ true)
      × EndsAs id db' (λ r.
        (r.cluster_id ≡ t.source_cluster) × (r.desired_state ≡ t.prev_state) × (r.transfer ≡ none)))
finish_back id db h =
    let (s, t, found, busy, (cluster, cancelled, quiet, chosen, e)) =
      finish_server_transfer-eq id db true h in
    (
      s,
      t,
      found,
      busy,
      (
        cancelled,
        (
          stamped db.now (released t cluster) s,
          released-row id t cluster db e found,
          (final_cluster-back t db chosen, refl, refl),
        ),
      ),
    )

cancel_server_transfer-ok :
    (id : ℕ) (message : String) (db : Db) (s : Server) (t : TransferState)
    → find_server id db.servers ≡ some s
    → s.transfer ≡ some t
    → t.phase ≢ committing
    → cancel_server_transfer id message db
      ≡ ok (
          with_transfer id
            (record t { cancelled = true; message = message })
            (update_backups (waiting_for id t) (failed_with message db.now) db))
unfolding cancel_server_transfer
cancel_server_transfer-ok id message db s t found busy open_ = ground (arith, found, busy)

finish_back-ok :
    (id : ℕ) (db : Db) (s : Server) (t : TransferState)
    → find_server id db.servers ≡ some s
    → s.transfer ≡ some t
    → t.cancelled ≡ true
    → count (λ b. active_on id b && tracked t b) db.backups ≡ 0
    → finish_server_transfer id true db ≡ ok (update_server id (released t t.source_cluster) db)
unfolding finish_server_transfer
finish_back-ok id db s t found busy cancelled quiet = ground (arith, found, busy, quiet)

-- No operation of a server that had none unfinished is one that waits or runs, after a sweep.
quiet_after :
    (id : ℕ) (t : TransferState) (message : String) (now : ℕ) (bs : List Backup)
    → count (unfinished_on id) bs ≡ 0
    → count
        (λ b. active_on id b && tracked t b)
        (update (waiting_for id t) (failed_with message now) bs)
      ≡ 0
quiet_after id t message now bs quiet = count-none _ _ λ c m.
    let (b, old, e) = Memᴰ-update (waiting_for id t) (failed_with message now) bs m in
    let finished = count-zero (unfinished_on id) bs quiet old in ground (arith, e, finished)

module _ (id target when : ℕ) (message : String) (db : Db) (s : Server) where
  abbrev begun_db : Db
  begun_db = update_server id (stopped_for (begun s target when)) db

  abbrev cancelled_state : TransferState
  cancelled_state = record (begun s target when) { cancelled = true; message = message }

  abbrev cancelled_db : Db
  cancelled_db =
      with_transfer id cancelled_state (
        update_backups (waiting_for id (begun s target when)) (failed_with message db.now) begun_db)

  abbrev ended_db : Db
  ended_db = update_server id (released cancelled_state s.cluster_id) cancelled_db

  taken_back :
      find_server id db.servers ≡ some s
      → s.transfer ≡ none
      → count (unfinished_on id) db.backups ≡ 0
      → (cancel_server_transfer id message begun_db ≡ ok cancelled_db)
        × (finish_server_transfer id true cancelled_db ≡ ok ended_db)
        × (find_server id ended_db.servers
            ≡ some (record s { restart_requested_at = none; updated_at = db.now }))
  taken_back found free quiet =
      let begun_row =
        find_server-update_self id (stamped db.now (stopped_for (begun s target when))) db.servers
          (λ r. refl) found in
      let cancelled_row =
        find_server-update_self id (stamped db.now (carrying cancelled_state)) begun_db.servers
          (λ r. refl) begun_row in
      let ended_row =
        find_server-update_self id (stamped db.now (released cancelled_state s.cluster_id))
          cancelled_db.servers (λ r. refl) cancelled_row in
      (
        cancel_server_transfer-ok id message begun_db _ (begun s target when) begun_row refl
            (λ p. cc),
        finish_back-ok id cancelled_db _ cancelled_state cancelled_row refl refl
            (quiet_after id (begun s target when) message db.now db.backups quiet),
        ended_row
            ∙ ap some (λ i. record s {
              transfer = sym free i;
              restart_requested_at = none;
              updated_at = db.now;
            }),
      )

-- A begun transfer can be taken back: cancelled and rolled back, it leaves the server's row as it
-- was, but for a restart that was under way, which the transfer ends, and the time of the write.
pub begin-cancel-finish :
    (id target when : ℕ) (message : String) (db : Db) {db' : Db}
    → begin_server_transfer id target when db ≡ ok db'
    → (before : Server) × (after : Db) × (end : Db) × (find_server id db.servers ≡ some before)
      × (cancel_server_transfer id message db' ≡ ok after)
      × (finish_server_transfer id true after ≡ ok end)
      × (find_server id end.servers
          ≡ some (record before { restart_requested_at = none; updated_at = db.now }))
begin-cancel-finish id target when message db h =
    let (s, found, free, other, quiet, e) = begin_server_transfer-eq id target when db h in
    let (cancels, ends, row) = taken_back id target when message db s found free quiet in
    (
      s,
      cancelled_db id target when message db s,
      ended_db id target when message db s,
      found,
      ap (cancel_server_transfer id message) e ∙ cancels,
      ends,
      row,
    )
