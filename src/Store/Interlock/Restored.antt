-- ===== src/Store/Interlock/Restored.antt =====
-- A transfer commits only after its restore has succeeded, in every sequence of accepted
-- transactions.
use quetzal.Prelude.{
  ℕ, String, Bool, true, not, ◌&&◌, ◌||◌, some, List, [], ◌∷◌, ◌==◌, ◌≡◌, ◌≢◌, ◌⊎◌, ◌∙◌, first,
  update, count, refl, sym, ap, subst, inl, inr, arith, Bool-cases, ok, ok-injective,
}
use quetzal.Models.Server.{Server, TransferState, restoring, committing, running, is_state}
use quetzal.Models.Backup.{
  Backup, BackupPhase, BackupDirection, succeeded, dir_backup, dir_restore, dir_database_import,
  is_direction, is_phase,
}
use quetzal.Store.Db.{Db, find_server, stamped, with_id}
use quetzal.Store.Rows.{find_server-id, find_server-update}
use quetzal.Store.Power.{
  set_desired_state, hibernate_if_unchanged, update_last_active, wake, request_restart,
  finish_restart, update_server_hibernation, powered_on,
}
use quetzal.Store.Operations.{
  cancel_pending_backup, complete_backup, delete_backup, mark_backup_deleting, prune_backups,
  queue_old, old_ids, in_phase_from,
}
use quetzal.Store.Transfer.{planned, moved_on, begun, stopped_for, released, carrying}
use quetzal.Store.TransferSteps.{
  begin_server_transfer-eq, create_transfer_operation-eq, advance_server_transfer-eq,
  finish_cancelled_transfer_operation-eq, cancel_server_transfer-eq, finish_server_transfer-eq,
  commit_server_transfer-eq,
}
use quetzal.Store.Interlock.Power.{start_server-eq}
use quetzal.Store.Interlock.Operations.{
  create_backup-eq, create_while_stopped-eq, claim_backup-eq, queue_old-eq,
}
use quetzal.Store.Interlock.Steps.{Step, Reach}

-- The server is in a transfer that commits, with this restore.
abbrev pub Commits : ℕ → ℕ → List Server → Type 0
Commits i restore rows =
    (s : Server) × (t : TransferState) × (find_server i rows ≡ some s)
    × (s.transfer ≡ some t)
    × (t.phase ≡ committing)
    × (t.restore_id ≡ restore)

-- The server's transfer restores, and this restore of it has succeeded.
abbrev pub HasRestored : ℕ → ℕ → Db → Type 0
HasRestored i restore db =
    (s : Server) × (t : TransferState) × (b : Backup) × (find_server i db.servers ≡ some s)
    × (s.transfer ≡ some t)
    × (t.phase ≡ restoring)
    × (t.restore_id ≡ restore)
    × (first (λ c. c.id == restore) db.backups ≡ some b)
    × (b.phase ≡ succeeded)

module _ (i restore : ℕ) (db : Db) where
  abbrev Past : Type 0
  Past = Commits i restore db.servers ⊎ HasRestored i restore db

  same-Past : {rows : List Server} → rows ≡ db.servers → Commits i restore rows → Past
  same-Past e now = inl (subst (Commits i restore) e now)

  -- A write of rows, by what it makes of a row that it writes.
  write-Past :
      (p : Server → Bool) (g : Server → Server)
      → ((s : Server) → (g s).id ≡ s.id)
      → ((s : Server) (t : TransferState)
          → find_server i db.servers ≡ some s
          → p s ≡ true
          → (g s).transfer ≡ some t
          → t.phase ≡ committing
          → t.restore_id ≡ restore
          → Past)
      → Commits i restore (update p g db.servers)
      → Past
  write-Past p g keeps written (s, t, found, busy, phase, linked) =
      let (old, was, e) = find_server-update p g i db.servers keeps found in
      elim (Bool-cases (p old)) [
        | inl hit ↦
            let e' : s ≡ g old = rw hit at e in
            written old t was hit (sym (ap (λ q. q.transfer) e') ∙ busy) phase linked
        | inr miss ↦
            let e' : s ≡ old = rw miss at e in
            inl (old, t, was, sym (ap (λ q. q.transfer) e') ∙ busy, phase, linked)
      ]

  other-Past :
      (p : Server → Bool) (g : Server → Server)
      → ((s : Server) → ((g s).id ≡ s.id) × ((g s).transfer ≡ s.transfer))
      → Commits i restore (update p g db.servers)
      → Past
  other-Past p g keeps now =
      write-Past p g (λ s. (keeps s).0)
        (λ s t found hit busy phase linked.
          inl (s, t, found, sym (keeps s).1 ∙ busy, phase, linked))
        now

  -- A write that leaves no transfer, or one that does not commit.
  halting-Past :
      (p : Server → Bool) (g : Server → Server)
      → ((s : Server) → (g s).id ≡ s.id)
      → ((s : Server) (t : TransferState) → (g s).transfer ≡ some t → t.phase ≢ committing)
      → Commits i restore (update p g db.servers)
      → Past
  halting-Past p g keeps halts now =
      write-Past p g keeps (λ s t found hit busy phase linked. absurd (halts s t busy phase)) now

prune_backups-servers :
    (server : ℕ) (target : String) (keep_last : ℕ) (db : Db) {db' : Db}
    → prune_backups server target keep_last db ≡ ok db'
    → db'.servers ≡ db.servers
unfolding prune_backups queue_old
prune_backups-servers server target keep_last db h = elim (Bool-cases (keep_last == 0)) [
  | inl all_kept ↦ ap (λ q. q.servers) (sym (ok-injective (rw all_kept at h)))
  | inr some_old ↦ queued (old_ids server target keep_last db.backups) (rw some_old at h)
]
  where
    queued : (ids : List ℕ) {db' : Db} → queue_old ids db ≡ ok db' → db'.servers ≡ db.servers
    queued [] e = ap (λ q. q.servers) (sym (ok-injective e))
    queued (i ∷ is) e = ap (λ q. q.servers) (queue_old-eq i is db e)

complete_backup-servers :
    (b : Backup) (from : BackupPhase) (keep_last : ℕ) (db : Db) {db' : Db}
    → complete_backup b from keep_last db ≡ ok db'
    → db'.servers ≡ db.servers
unfolding complete_backup
complete_backup-servers b from keep_last db h =
    elim (Bool-cases (count (in_phase_from b.id from) db.backups == 1)) [
      | inl one ↦
          elim (Bool-cases (is_direction b.direction dir_backup && is_phase b.phase succeeded)) [
            | inl prunes ↦
                prune_backups-servers b.server_id b.target keep_last _ (rw (one, prunes) at h)
            | inr rest ↦ ap (λ q. q.servers) (sym (ok-injective (rw (one, rest) at h)))
          ]
      | inr lost ↦ absurd (ground (arith, lost))
    ]

planned-phase :
    (now new_id id : ℕ) (direction : BackupDirection) (t linked : TransferState) (b : Backup)
    → planned now new_id id direction t ≡ ok (b, linked)
    → linked.phase ≢ committing
unfolding planned
planned-phase now new_id id dir_backup t linked b h = λ e. ground (arith, e)
planned-phase now new_id id dir_restore t linked b h = λ e. ground (arith, e)
planned-phase now new_id id dir_database_import t linked b h = λ e. ground (arith, e)

hibernated-Past :
    (i restore : ℕ) (db : Db) (observed : Server)
    → Commits i restore (hibernate_if_unchanged observed db).0.servers
    → Commits i restore db.servers ⊎ HasRestored i restore db
unfolding hibernate_if_unchanged
hibernated-Past i restore db observed c =
    elim (Bool-cases (
      not observed.hibernation.enabled
      || (not (is_state observed.desired_state running) || observed.hibernated))) [
        | inl skipped ↦ inl (rw skipped at c)
        | inr due ↦ other-Past i restore db _ _ (λ s. (refl, refl)) (rw due at c)
      ]

-- One accepted transaction.
Step-Past :
    {db db' : Db} (i restore : ℕ)
    → Step db db'
    → Commits i restore db'.servers
    → Commits i restore db.servers ⊎ HasRestored i restore db
unfolding set_desired_state wake update_last_active finish_restart request_restart
    update_server_hibernation cancel_pending_backup delete_backup mark_backup_deleting
Step-Past {db} i restore (Step.tick now) c = inl c
Step-Past {db} i restore (Step.start id when h) c =
    let (idle, e) = start_server-eq id when db h in
    other-Past i restore db (with_id id) (stamped db.now (powered_on when)) (λ s. (refl, refl))
      (subst (λ q. Commits i restore q.servers) e c)
Step-Past {db} i restore (Step.stop id state down) c =
    other-Past i restore db _ _ (λ s. (refl, refl)) c
Step-Past {db} i restore (Step.restart id when) c =
    other-Past i restore db _ _ (λ s. (refl, refl)) c
Step-Past {db} i restore (Step.restarted id) c = other-Past i restore db _ _ (λ s. (refl, refl)) c
Step-Past {db} i restore (Step.wakes id when) c = other-Past i restore db _ _ (λ s. (refl, refl)) c
Step-Past {db} i restore (Step.active id when) c = other-Past i restore db _ _ (λ s. (refl, refl)) c
Step-Past {db} i restore (Step.hibernate observed) c = hibernated-Past i restore db observed c
Step-Past {db} i restore (Step.policy id h rearm_at) c =
    other-Past i restore db _ _ (λ s. (refl, refl)) c
Step-Past {db} i restore (Step.backs_up new_id b positive d h) c =
    let (s, found, free, e) = create_backup-eq new_id b db h in
    same-Past i restore db (ap (λ q. q.servers) e) c
Step-Past {db} i restore (Step.restores new_id b positive h) c =
    let (s, found, down, free, e) = create_while_stopped-eq new_id b db h in
    same-Past i restore db (ap (λ q. q.servers) e) c
Step-Past {db} i restore (Step.cancels id) c = inl c
Step-Past {db} i restore
      (Step.claims id job_name target databases ignored note job_spec cluster r h) c =
    elim (claim_backup-eq id job_name target databases ignored note job_spec cluster db r h) [
      | inl refused ↦ same-Past i restore db (ap (λ q. q.servers) refused) c
      | inr (taken, started) ↦ same-Past i restore db (ap (λ q. q.servers) taken) c
    ]
Step-Past {db} i restore (Step.completes b from keep_last ended h) c =
    same-Past i restore db (complete_backup-servers b from keep_last db h) c
Step-Past {db} i restore (Step.deletes id) c = inl c
Step-Past {db} i restore (Step.marks id) c = inl c
Step-Past {db} i restore (Step.begins id target when h) c =
    let (s, found, free, other, quiet, e) = begin_server_transfer-eq id target when db h in
    halting-Past i restore db (with_id id) (stamped db.now (stopped_for (begun s target when)))
      (λ r. refl)
      (λ r t busy phase.
        let same : begun s target when ≡ t = cc in let k = ap (λ q. q.phase) same ∙ phase in cc)
      (subst (λ q. Commits i restore q.servers) e c)
Step-Past {db} i restore (Step.operates new_id id direction positive h) c =
    let (s, t, found, busy, (b, linked, live, plan, e)) =
      create_transfer_operation-eq id db new_id direction h in
    halting-Past i restore db (with_id id) (stamped db.now (carrying linked)) (λ r. refl)
      (λ r t' busy' phase.
        let same : linked ≡ t' = cc in
        planned-phase db.now new_id id direction t linked b plan (ap (λ q. q.phase) same ∙ phase))
      (subst (λ q. Commits i restore q.servers) e c)
Step-Past {db} i restore (Step.advances id h) c =
    let (s, t, found, busy, (b, known, done, live, phase, e)) =
      advance_server_transfer-eq id db h in
    halting-Past i restore db (with_id id) (stamped db.now (moved_on t)) (λ r. refl)
      (λ r t' busy' phase'.
        let same : record t { phase = restoring } ≡ t' = cc in
        let k = ap (λ q. q.phase) same ∙ phase' in cc)
      (subst (λ q. Commits i restore q.servers) e c)
Step-Past {db} i restore (Step.commits id h) c =
    let (s, t, found, busy, (b, known, done, live, phase, some_restore, e)) =
      commit_server_transfer-eq id db h in
    write-Past i restore db (with_id id)
      (stamped db.now (carrying (record t { phase = committing }))) (λ r. refl)
      (λ r t' here hit busy' phase' linked.
        let same : record t { phase = committing } ≡ t' = cc in
        let own : t.restore_id ≡ restore = ap (λ q. q.restore_id) same ∙ linked in
        let at : id ≡ i = ground (arith, hit, find_server-id i db.servers here) in
        inr (
          s,
          t,
          b,
          subst (λ j. find_server j db.servers ≡ some s) at found,
          busy,
          phase,
          own,
          subst (λ j. first (λ c. c.id == j) db.backups ≡ some b) own known,
          done,
        ))
      (subst (λ q. Commits i restore q.servers) e c)
Step-Past {db} i restore (Step.aborts id message h) c =
    let (s, t, found, busy, (open_yet, e)) = cancel_server_transfer-eq id db message h in
    halting-Past i restore db (with_id id)
      (stamped db.now (carrying (record t { cancelled = true; message = message }))) (λ r. refl)
      (λ r t' busy' phase.
        let same : record t { cancelled = true; message = message } ≡ t' = cc in
        open_yet (ap (λ q. q.phase) same ∙ phase))
      (subst (λ q. Commits i restore q.servers) e c)
Step-Past {db} i restore (Step.reaps server operation h) c =
    let (s, t, found, busy, (given_up, own, e)) =
      finish_cancelled_transfer_operation-eq server db operation h in
    same-Past i restore db (ap (λ q. q.servers) e) c
Step-Past {db} i restore (Step.finishes id rollback h) c =
    let (s, t, found, busy, (cluster, cancelled, quiet, chosen, e)) =
      finish_server_transfer-eq id db rollback h in
    halting-Past i restore db (with_id id) (stamped db.now (released t cluster)) (λ r. refl)
      (λ r t' busy' phase. cc) (subst (λ q. Commits i restore q.servers) e c)

-- At some point of a run the restore had succeeded, while the transfer restored.
pub record Restored (i restore : ℕ) (db db' : Db) : Type 0 where
  pub at : Db
  pub before : Reach db at
  pub after : Reach at db'
  pub succeeded_there : HasRestored i restore at

-- From tables in which the server is in no transfer that commits, to ones where it is.
pub Reach-Restored :
    {db db' : Db} (i restore : ℕ)
    → Reach db db'
    → ((s : Server) (t : TransferState)
        → find_server i db.servers ≡ some s
        → s.transfer ≡ some t
        → t.phase ≢ committing)
    → Commits i restore db'.servers
    → Restored i restore db db'
Reach-Restored i restore Reach.here fresh (s, t, found, busy, phase, linked) =
    absurd (fresh s t found busy phase)
Reach-Restored i restore (Reach.next run st) fresh c = elim (Step-Past i restore st c) [
  | inl earlier ↦
      let past = Reach-Restored i restore run fresh earlier in
      record {
        at = past.at;
        before = past.before;
        after = Reach.next past.after st;
        succeeded_there = past.succeeded_there;
      }
  | inr there ↦ record {
    at = _;
    before = run;
    after = Reach.next Reach.here st;
    succeeded_there = there;
  }
]
