-- ===== src/Store/Interlock/Operations.antt =====
-- The writes of `Store/Operations.antt` keep the interlock.
use quetzal.Prelude.{
  ok-injective, ◌⊎◌, ℕ, String, Bool, true, false, ◌&&◌, ◌||◌, Option, none, some, List, [], ◌∷◌,
  ◌==◌, ◌<◌, first, count, ◌≡◌, refl, arith, Bool-cases, Option-cases, inl, inr, ok,
}
use quetzal.Models.Server.{Server, DesiredState, running, is_state, TransferState}
use quetzal.Models.Backup.{
  Backup, BackupPhase, is_direction, is_phase, succeeded, dir_backup, is_active,
}
use quetzal.Store.Db.{Db, find_server, insert_backup, update_backups}
use quetzal.Store.Operations.{
  create_backup, create_while_stopped, cancel_pending_backup, claim_backup, prune_backups,
  complete_backup, delete_backup, mark_backup_deleting, to_deleting, pending_with, claimed,
  in_phase_from, with_result, barred_by, elsewhere, queue_old, old_ids, id_in,
}
use quetzal.Store.Interlock.Writes.{
  IsSafe, allows, insert-IsSafe, update_backups-IsSafe, delete-IsSafe,
}

-- A backup that is accepted: its server is in no transfer.
pub create_backup-eq :
    (new_id : ℕ) (b : Backup) (db : Db) {db' : Db}
    → create_backup new_id b db ≡ ok db'
    → (s : Server) × (find_server b.server_id db.servers ≡ some s)
      × (s.transfer ≡ none)
      × (db' ≡ insert_backup new_id b db)
unfolding create_backup
create_backup-eq new_id b db h = elim (Option-cases (find_server b.server_id db.servers)) [
  | inl missing ↦ absurd (ground (arith, missing))
  | inr (s, found) ↦ (s, found, ground (arith, found), ground (arith, found))
]

-- A restore or an import that is accepted: its server is idle and not meant to run.
pub create_while_stopped-eq :
    (new_id : ℕ) (b : Backup) (db : Db) {db' : Db}
    → create_while_stopped new_id b db ≡ ok db'
    → (s : Server) × (find_server b.server_id db.servers ≡ some s)
      × (is_state s.desired_state running ≡ false)
      × (s.transfer ≡ none)
      × (db' ≡ insert_backup new_id b db)
unfolding create_while_stopped
create_while_stopped-eq new_id b db h = elim (Option-cases (find_server b.server_id db.servers)) [
  | inl missing ↦ absurd (ground (arith, missing))
  | inr (s, found) ↦ (s, found, ground (arith, found), ground (arith, found), ground (arith, found))
]

allows_backup :
    (t : Option TransferState) (state : DesiredState) (b : Backup)
    → t ≡ none
    → b.direction ≡ dir_backup
    → allows t state b ≡ true
allows_backup none state b free d = ground arith
allows_backup (some t) state b free d = cc

allows_stopped :
    (t : Option TransferState) (state : DesiredState) (b : Backup)
    → t ≡ none
    → is_state state running ≡ false
    → allows t state b ≡ true
allows_stopped none state b free down = ground arith
allows_stopped (some t) state b free down = cc

pub claim_backup-eq :
    (id : ℕ) (job_name target : String) (databases : Option (List String))
    (ignored note job_spec : String) (cluster : ℕ) (db : Db) (r : Db × Bool)
    → claim_backup id job_name target databases ignored note job_spec cluster db ≡ ok r
    → (r.0 ≡ db)
      ⊎ ((r.0
            ≡ update_backups
                (pending_with id)
                (claimed job_name target databases ignored note job_spec cluster)
                db)
          × ((s : Server) × (b : Backup) × (first (λ c. c.id == id) db.backups ≡ some b)
              × (find_server b.server_id db.servers ≡ some s)
              × (barred_by s.transfer id ≡ false)
              × (elsewhere b.cluster_id s.cluster_id cluster ≡ false)))
unfolding claim_backup
claim_backup-eq id job_name target databases ignored note job_spec cluster db r h =
    elim (Option-cases (first (λ c. c.id == id) db.backups)) [
      | inl missing ↦ inl (ground (arith, missing))
      | inr (b, known) ↦ elim (Option-cases (find_server b.server_id db.servers)) [
        | inl gone ↦ absurd (ground (arith, known, gone))
        | inr (s, found) ↦
            elim (Bool-cases
              (barred_by s.transfer id || elsewhere b.cluster_id s.cluster_id cluster)) [
                | inl refused ↦ inl (ground (arith, known, found, refused))
                | inr free ↦ inr (
                  ground (arith, known, found, free),
                  (s, b, known, found, ground (arith, free), ground (arith, free)),
                )
              ]
      ]
    ]

pub queue_old-eq :
    (i : ℕ) (is : List ℕ) (db : Db) {db' : Db}
    → queue_old (i ∷ is) db ≡ ok db'
    → db' ≡ update_backups (λ b. id_in (i ∷ is) b && is_phase b.phase succeeded) to_deleting db
unfolding queue_old
queue_old-eq i is db h = ground arith

module _ {db : Db} (safe : IsSafe db) where
  pub create_backup-IsSafe :
      (new_id : ℕ) (b : Backup) {db' : Db}
      → create_backup new_id b db ≡ ok db'
      → 0 < new_id
      → b.direction ≡ dir_backup
      → IsSafe db'
  create_backup-IsSafe new_id b h positive d =
      let (srv, held, free, e) = create_backup-eq new_id b db h in
      rw e (
        insert-IsSafe safe new_id b positive (λ s found.
          let same : s ≡ srv = cc in allows_backup s.transfer s.desired_state _ (rw same free) d))

  pub create_while_stopped-IsSafe :
      (new_id : ℕ) (b : Backup) {db' : Db}
      → create_while_stopped new_id b db ≡ ok db'
      → 0 < new_id
      → IsSafe db'
  create_while_stopped-IsSafe new_id b h positive =
      let (srv, held, down, free, e) = create_while_stopped-eq new_id b db h in
      rw e (
        insert-IsSafe safe new_id b positive (λ s found.
          let same : s ≡ srv = cc in
          allows_stopped s.transfer s.desired_state _ (rw same free) (rw same down)))

  pub claim_backup-IsSafe :
      (id : ℕ) (job_name target : String) (databases : Option (List String))
      (ignored note job_spec : String) (cluster : ℕ) (r : Db × Bool)
      → claim_backup id job_name target databases ignored note job_spec cluster db ≡ ok r
      → IsSafe r.0
  claim_backup-IsSafe id job_name target databases ignored note job_spec cluster r h =
      elim (claim_backup-eq id job_name target databases ignored note job_spec cluster db r h) [
        | inl refused ↦ rw refused safe
        | inr (taken, started) ↦ rw taken (
            update_backups-IsSafe safe (pending_with id) _ (λ b. (refl, refl, refl))
              (λ b hit a. ground arith))
      ]

  queue_old-IsSafe : (ids : List ℕ) {db' : Db} → queue_old ids db ≡ ok db' → IsSafe db'
  unfolding queue_old
  queue_old-IsSafe [] h = rw (← ok-injective h) safe
  queue_old-IsSafe (i ∷ is) h =
      let e = queue_old-eq i is db h in
      rw e (update_backups-IsSafe safe _ to_deleting (λ b. (refl, refl, refl)) (λ b hit a. cc))

  pub prune_backups-IsSafe :
      (server : ℕ) (target : String) (keep_last : ℕ) {db' : Db}
      → prune_backups server target keep_last db ≡ ok db'
      → IsSafe db'
  unfolding prune_backups
  prune_backups-IsSafe server target keep_last h = elim (Bool-cases (keep_last == 0)) [
    | inl all_kept ↦ rw (← ok-injective (rw all_kept at h)) safe
    | inr some_old ↦
        queue_old-IsSafe (old_ids server target keep_last db.backups) (rw some_old at h)
  ]

  -- The result is one of an operation that has ended.
  with_result-IsSafe :
      (b : Backup) (from : BackupPhase)
      → is_active b.phase ≡ false
      → IsSafe (update_backups (in_phase_from b.id from) (with_result b) db)
  with_result-IsSafe b from ended =
      update_backups-IsSafe safe _ (with_result b) (λ c. (refl, refl, refl)) (λ c hit a. cc)

  pub to_deleting-IsSafe : (p : Backup → Bool) → IsSafe (update_backups p to_deleting db)
  to_deleting-IsSafe p =
      update_backups-IsSafe safe p to_deleting (λ b. (refl, refl, refl)) (λ b hit a. cc)

  -- A write that leaves the phase alone.
  pub same_phase-IsSafe :
      (p : Backup → Bool) (g : Backup → Backup)
      → ((b : Backup)
          → ((g b).id ≡ b.id) × ((g b).server_id ≡ b.server_id) × ((g b).direction ≡ b.direction))
      → ((b : Backup) → (g b).phase ≡ b.phase)
      → IsSafe (update_backups p g db)
  same_phase-IsSafe p g keeps phase =
      update_backups-IsSafe safe p g keeps (λ b hit a. rw (phase b) at a)

  pub cancel_pending_backup-IsSafe : (id : ℕ) → IsSafe (cancel_pending_backup id db).0
  unfolding cancel_pending_backup
  cancel_pending_backup-IsSafe id = delete-IsSafe safe _

  pub delete_backup-IsSafe : (id : ℕ) → IsSafe (delete_backup id db)
  unfolding delete_backup
  delete_backup-IsSafe id = delete-IsSafe safe _

  pub mark_backup_deleting-IsSafe : (id : ℕ) → IsSafe (mark_backup_deleting id db)
  unfolding mark_backup_deleting
  mark_backup_deleting-IsSafe id = to_deleting-IsSafe _

pub complete_backup-IsSafe :
    {db : Db} (b : Backup) (from : BackupPhase) (keep_last : ℕ) {db' : Db}
    → complete_backup b from keep_last db ≡ ok db'
    → is_active b.phase ≡ false
    → IsSafe db
    → IsSafe db'
unfolding complete_backup
complete_backup-IsSafe {db} b from keep_last h ended safe =
    let done = with_result-IsSafe safe b from ended in
    elim (Bool-cases (count (in_phase_from b.id from) db.backups == 1)) [
      | inl one ↦
          elim (Bool-cases (is_direction b.direction dir_backup && is_phase b.phase succeeded)) [
            | inl prunes ↦
                prune_backups-IsSafe done b.server_id b.target keep_last (rw (one, prunes) at h)
            | inr rest ↦ rw (← ok-injective (rw (one, rest) at h)) done
          ]
      | inr lost ↦ absurd (ground (arith, lost))
    ]
