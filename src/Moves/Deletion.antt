-- ===== src/Moves/Deletion.antt =====
-- Which namespaces the driver asks a cluster to delete.
use quetzal.Prelude.{
  ℕ, String, Bool, true, false, not, Option, none, some, [], ◌==◌, ◌≡◌, ◌≢◌, ◌⊎◌, if◌then◌else◌,
  Result, ok, err, All, first, inl, inr, refl, sym, ◌∙◌, ap, subst, Memᴰ, All-Memᴰ,
}
use quetzal.Models.Server.{Server, TransferState, TransferPhase, backing_up, restoring, committing}
use quetzal.Models.Backup.{Backup, BackupPhase, dir_backup, dir_restore}
use quetzal.Store.Db.{Db, find_server, stamped}
use quetzal.Store.Rows.{find_server-update_self}
use quetzal.Store.Transfer.{
  create_transfer_operation, advance_server_transfer, cancel_server_transfer,
  finish_server_transfer, commit_server_transfer, carrying,
}
use quetzal.Store.TransferSteps.{cancel_server_transfer-eq, commit_server_transfer-eq}
use quetzal.Moves.{
  Outside, World, Answer, Event, Read, got, lost, unread, after, has_pods, selectors,
  delete_namespace, ask, when_gone, finished, advance_committing, finish_back, unwound_in, unwound,
  operations, stop_all, unwind_from, unwind, rolled_back, rollback, no_pod_left, backup_in,
  backup_read, advance_backing_up, when_ready, committed, restore_in, restore_read,
  advance_restoring, advance_in, process_from, process_one, read_backup,
}

-- Every cluster asked is one that `P` allows.
pub record Asks (P : ℕ → Type 0) (w : World) : Type 0 where
  pub each : All P w.asked

module _ (P : ℕ → Type 0) where
  if_Asks : (b : Bool) {x y : World} → Asks P x → Asks P y → Asks P (if b then x else y)
  if_Asks true h k = h
  if_Asks false h k = k

  when_gone-Asks :
      (r : Result (Unit {0})) {x y : World} → Asks P x → Asks P y → Asks P (when_gone r x y)
  when_gone-Asks (ok done) h k = k
  when_gone-Asks (err e) h k = h

  after-Asks : (r : Result Db) {w : World} → Asks P w → Asks P (after r w)
  after-Asks (ok db') h = record { each = h.each }
  after-Asks (err e) h = h

  finished-Asks :
      (r : Result Db) (event : Event) {w : World} → Asks P w → Asks P (finished r event w)
  finished-Asks (ok db') event h = record { each = h.each }
  finished-Asks (err e) event h = h

  advance_committing-Asks :
      (out : Outside) (srv : Server) (t : TransferState) (w : World)
      → P t.source_cluster
      → Asks P w
      → Asks P (advance_committing out srv t w)
  unfolding advance_committing
  advance_committing-Asks out srv t w source h =
      let more : Asks P (ask t.source_cluster w) = record { each = (source, h.each) } in
      if_Asks (not (out.reachable t.source_cluster)) h (
        when_gone-Asks (delete_namespace out t.source_cluster) more (
          finished-Asks (finish_server_transfer srv.id false w.db)
            (Event.complete srv.id t.target_cluster) more))

  finish_back-Asks :
      (srv : Server) (message : String) (w : World) → Asks P w → Asks P (finish_back srv message w)
  finish_back-Asks srv message w h =
      finished-Asks (finish_server_transfer srv.id true w.db) (Event.cancelled srv.id message) h

  unwound_in-Asks :
      (p : TransferPhase) (out : Outside) (srv : Server) (t : TransferState) (message : String)
      (w : World)
      → (p ≢ backing_up → P t.target_cluster)
      → Asks P w
      → Asks P (unwound_in p out srv t message w)
  unwound_in-Asks backing_up out srv t message w target h = finish_back-Asks srv message w h
  unwound_in-Asks restoring out srv t message w target h =
      let more : Asks P (ask t.target_cluster w) = record { each = (target (λ e. cc), h.each) } in
      if_Asks (not (out.reachable t.target_cluster)) h (
        when_gone-Asks (delete_namespace out t.target_cluster) more
          (finish_back-Asks srv message (ask t.target_cluster w) more))
  unwound_in-Asks committing out srv t message w target h =
      let more : Asks P (ask t.target_cluster w) = record { each = (target (λ e. cc), h.each) } in
      if_Asks (not (out.reachable t.target_cluster)) h (
        when_gone-Asks (delete_namespace out t.target_cluster) more
          (finish_back-Asks srv message (ask t.target_cluster w) more))

  unwound-Asks :
      (out : Outside) (srv : Server) (t : TransferState) (message : String) (w : World)
      (r : Db × Bool)
      → (t.phase ≢ backing_up → P t.target_cluster)
      → Asks P w
      → Asks P (unwound out srv t message w r)
  unwound-Asks out srv t message w (db', false) target h = record { each = h.each }
  unwound-Asks out srv t message w (db', true) target h =
      unwound_in-Asks t.phase out srv t message (record w { db = db' }) target
        (record { each = h.each })

-- The row that a rollback finds after its cancellation, and its transfer.
abbrev Cancelled : ℕ → Db → Db → Type 0
Cancelled id db db' =
    (s : Server) × (t : TransferState) × (s' : Server) × (t' : TransferState) × (find_server id
        db.servers
      ≡ some s)
    × (s.transfer ≡ some t)
    × (find_server id db'.servers ≡ some s')
    × (s'.transfer ≡ some t')
    × (t'.target_cluster ≡ t.target_cluster)
    × (t'.phase ≡ t.phase)
    × (t.phase ≢ committing)

cancel_server_transfer-Cancelled :
    (id : ℕ) (message : String) (db db' : Db)
    → cancel_server_transfer id message db ≡ ok db'
    → Cancelled id db db'
cancel_server_transfer-Cancelled id message db db' h =
    let (s, t, found, busy, (open_yet, e)) = cancel_server_transfer-eq id db message h in
    let t' : TransferState = record t { cancelled = true; message = message } in
    let found' =
      find_server-update_self id (stamped db.now (carrying t')) db.servers (λ r. refl) found in
    (
      s,
      t,
      stamped db.now (carrying t') s,
      t',
      found,
      busy,
      ap (λ q. find_server id q.servers) e ∙ found',
      refl,
      refl,
      refl,
      open_yet,
    )

-- Why a cluster may be asked to delete the namespace of the server with this row: it is the source of
-- a transfer that commits or whose restore has succeeded, or the target of one that restores.
pub record MayDelete (db : Db) (srv : Server) (cluster : ℕ) : Type 0 where
  pub moving : TransferState
  pub is_moving : srv.transfer ≡ some moving
  pub reason :
      ((cluster ≡ moving.source_cluster)
        × ((moving.phase ≡ committing)
            ⊎ ((moving.phase ≡ restoring)
                × ((b : Backup) × (first (λ c. c.id == moving.restore_id) db.backups ≡ some b)
                    × (b.phase ≡ BackupPhase.succeeded)))))
      ⊎ ((cluster ≡ moving.target_cluster) × (moving.phase ≡ restoring))

only_restoring : (p : TransferPhase) → p ≢ backing_up → p ≢ committing → p ≡ restoring
only_restoring backing_up a b = absurd (a refl)
only_restoring restoring a b = refl
only_restoring committing a b = absurd (b refl)

module _ (out : Outside) (srv : Server) (w : World)
    (current : find_server srv.id w.db.servers ≡ some srv) (none_asked : w.asked ≡ []) where
  abbrev May : ℕ → Type 0
  May = MayDelete w.db srv

  at_first : Asks May w
  at_first = record { each = subst (λ l. All May l) (sym none_asked) tt }

  rollback-Asks : (message : String) → Asks May (rollback out srv.id message w)
  unfolding rollback
  rollback-Asks message = from (cancel_server_transfer srv.id message w.db) refl
    where
      from :
          (r : Result Db)
          → cancel_server_transfer srv.id message w.db ≡ r
          → Asks May (rolled_back out srv.id message w r)
      from (err e) h = at_first
      from (ok db') h =
          let (s, t, s', t', found, busy, found', busy', target, phase, open_yet) =
            cancel_server_transfer-Cancelled srv.id message w.db db' h in
          let own : s ≡ srv = let k = sym found ∙ current in cc in
          let w' : World = record w { db = db' } in
          let may : t'.phase ≢ backing_up → May t'.target_cluster = λ a. record {
            moving = t;
            is_moving = sym (ap (λ q. q.transfer) own) ∙ busy;
            reason = inr (target, only_restoring t.phase (λ e. a (phase ∙ e)) open_yet);
          } in
          subst (λ o. Asks May (unwind out message w' o)) (sym found')
            (subst (λ o. Asks May (unwind_from o out s' message w')) (sym busy')
              (unwound-Asks May out s' t' message w' (stop_all out s' (operations t') db') may
                (record { each = at_first.each })))

  module _ (t : TransferState) (busy : srv.transfer ≡ some t) where
    backup_in-Asks : (p : BackupPhase) (b : Backup) → Asks May (backup_in p out srv b w)
    backup_in-Asks BackupPhase.succeeded b =
        after-Asks May (advance_server_transfer srv.id w.db) at_first
    backup_in-Asks BackupPhase.failed b = rollback-Asks _
    backup_in-Asks BackupPhase.pending b = at_first
    backup_in-Asks BackupPhase.running b = at_first
    backup_in-Asks BackupPhase.deleting b = at_first

    backup_read-Asks : (r : Read) → Asks May (backup_read out srv w r)
    backup_read-Asks lost = rollback-Asks _
    backup_read-Asks unread = at_first
    backup_read-Asks (got b) = backup_in-Asks b.phase b

    committed-Asks :
        t.phase ≡ restoring
        → (r : Result Db) → commit_server_transfer srv.id w.db ≡ r
        → Asks May (committed out srv t w r)
    committed-Asks phase (err e) h = at_first
    committed-Asks phase (ok db') h =
        let (s, t', found, busy', (b, known, done, live, at, linked, e)) =
          commit_server_transfer-eq srv.id w.db h in
        let own : s ≡ srv = let k = sym found ∙ current in cc in
        let same : t' ≡ t = let k = sym busy' ∙ ap (λ q. q.transfer) own ∙ busy in cc in
        let known' : first (λ c. c.id == t.restore_id) w.db.backups ≡ some b =
          subst (λ q. first (λ c. c.id == q.restore_id) w.db.backups ≡ some b) same known in
        advance_committing-Asks May out srv t (record w { db = db' })
          (record {
            moving = t;
            is_moving = busy;
            reason = inl (refl, inr (phase, (b, known', done)));
          })
          (record { each = at_first.each })

    restore_in-Asks :
        t.phase ≡ restoring → (p : BackupPhase) (b : Backup) → Asks May (restore_in p out srv t b w)
    restore_in-Asks phase BackupPhase.succeeded b =
        committed-Asks phase (commit_server_transfer srv.id w.db) refl
    restore_in-Asks phase BackupPhase.failed b = rollback-Asks _
    restore_in-Asks phase BackupPhase.pending b = at_first
    restore_in-Asks phase BackupPhase.running b = at_first
    restore_in-Asks phase BackupPhase.deleting b = at_first

    restore_read-Asks : t.phase ≡ restoring → (r : Read) → Asks May (restore_read out srv t w r)
    restore_read-Asks phase lost = rollback-Asks _
    restore_read-Asks phase unread = at_first
    restore_read-Asks phase (got b) = restore_in-Asks phase b.phase b

    no_pod_left-Asks : (o : Option Bool) (r : Result Db) → Asks May (no_pod_left o r w)
    no_pod_left-Asks none r = at_first
    no_pod_left-Asks (some true) r = at_first
    no_pod_left-Asks (some false) r = after-Asks May r at_first

    when_ready-Asks : (a : Answer) (r : Result Db) → Asks May (when_ready a r w)
    when_ready-Asks Answer.found r = after-Asks May r at_first
    when_ready-Asks Answer.missing r = at_first
    when_ready-Asks Answer.failed r = at_first

    advance-Asks : (p : TransferPhase) → t.phase ≡ p → Asks May (advance_in p out srv t w)
    unfolding advance_backing_up advance_restoring
    advance-Asks backing_up phase =
        if_Asks May (t.backup_id == 0)
          (if_Asks May (not (out.reachable t.source_cluster)) at_first (
            no_pod_left-Asks (has_pods out t.source_cluster selectors)
              (create_transfer_operation out.new_id srv.id dir_backup w.db)))
          (backup_read-Asks (read_backup out t.backup_id w.db))
    advance-Asks restoring phase = if_Asks May (not (out.reachable t.target_cluster)) at_first (
        if_Asks May (t.restore_id == 0)
          (when_ready-Asks (out.volume t.target_cluster)
            (create_transfer_operation out.new_id srv.id dir_restore w.db))
          (restore_read-Asks phase (read_backup out t.restore_id w.db)))
    advance-Asks committing phase =
        advance_committing-Asks May out srv t w
          (record { moving = t; is_moving = busy; reason = inl (refl, inl phase) }) at_first

  from-Asks : (o : Option TransferState) → srv.transfer ≡ o → Asks May (process_from o out srv w)
  from-Asks none busy = at_first
  from-Asks (some t) busy =
      if_Asks May t.cancelled (rollback-Asks t.message) (advance-Asks t busy t.phase refl)

  -- A tick on a server as its row stands asks a cluster to delete the server's namespace only if the
  -- cluster is the source of a transfer that is committing, or that was restoring with a restore that
  -- had succeeded, or the target of a transfer that was restoring.
  pub process_one-MayDelete :
      (cluster : ℕ) → Memᴰ cluster (process_one out srv w).asked → MayDelete w.db srv cluster
  unfolding process_one
  process_one-MayDelete cluster m =
      All-Memᴰ May (process_from srv.transfer out srv w).asked (from-Asks srv.transfer refl).each m
