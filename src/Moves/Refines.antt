-- ===== src/Moves/Refines.antt =====
-- A tick of the driver is a sequence of the transactions of the store.
use quetzal.Prelude.{
  ℕ, String, Bool, true, false, Option, none, some, List, [], ◌∷◌, ◌==◌, ◌≡◌, ◌<◌, if◌then◌else◌,
  Result, Error, ok, err, ◌>>=◌, ◌>>◌, refuse_if, refl, ltb, not, ◌&&◌, str_eq,
}
use quetzal.Models.Server.{Server, TransferState, TransferPhase, backing_up, restoring, committing}
use quetzal.Models.Backup.{Backup, BackupPhase, BackupDirection, is_phase, dir_backup, dir_restore}
use quetzal.Store.Db.{Db, find_server}
use quetzal.Store.Transfer.{
  create_transfer_operation, advance_server_transfer, cancel_server_transfer,
  finish_cancelled_transfer_operation, finish_server_transfer, commit_server_transfer,
}
use quetzal.Store.Interlock.Steps.{Step, Reach}
use quetzal.Moves.{
  Outside, World, Answer, Event, Read, got, lost, unread, after, has_pods, selectors,
  delete_namespace, ask, when_gone, finished, advance_committing, settled, no_pods, job_gone,
  stop_read, stop_operation, stop_all, target_gone, unwound, operations, unwind, or_cluster,
  or_stop, clients_for, rolled_back, rollback, no_pod_left, backup_read, advance_backing_up,
  when_ready, committed, restore_read, advance_restoring, process_one, read_backup, unwound_in,
  finish_back, unwind_from, backup_in, restore_in, advance_in, process_from, process,
}

-- A sequence of transactions after another.
Reach-trans : {a b c : Db} → Reach a b → Reach b c → Reach a c
Reach-trans r Reach.here = r
Reach-trans r (Reach.next s st) = Reach.next (Reach-trans r s) st

one : {a b : Db} → Step a b → Reach a b
one st = Reach.next Reach.here st

-- What a result that carries tables has reached.
data Reaches (db : Db) : Result (Db × Bool) → Type 0 where
  reached : {r : Db × Bool} → Reach db r.0 → Reaches db (ok r)
  refused : {e : Error} → Reaches db (err e)

module _ (out : Outside) (srv : Server) (db : Db) where
  reaped :
      (operation : ℕ) (r : Result Db)
      → finish_cancelled_transfer_operation srv.id operation db ≡ r
      → Reaches db (r >>= λ db'. ok (db', true))
  reaped operation (ok db') e = reached (one (Step.reaps srv.id operation e))
  reaped operation (err e') e = refused

  if_Reaches :
      (b : Bool) {r s : Result (Db × Bool)}
      → Reaches db r
      → Reaches db s
      → Reaches db (if b then r else s)
  if_Reaches true x y = x
  if_Reaches false x y = y

  still : {b : Bool} → Reaches db (ok (db, b))
  still = reached Reach.here

  settled-Reaches : (b : Backup) → Reaches db (settled srv b db)
  settled-Reaches b =
      if_Reaches (is_phase b.phase BackupPhase.running)
        (reaped b.id (finish_cancelled_transfer_operation srv.id b.id db) refl) still

  no_pods-Reaches :
      (pods : Option ℕ) (b : Backup) (secret : Answer) → Reaches db (no_pods pods srv b secret db)
  no_pods-Reaches none b secret = refused
  no_pods-Reaches (some n) b Answer.failed = if_Reaches (ltb 0 n) still refused
  no_pods-Reaches (some n) b Answer.found = if_Reaches (ltb 0 n) still (settled-Reaches b)
  no_pods-Reaches (some n) b Answer.missing = if_Reaches (ltb 0 n) still (settled-Reaches b)

  job_gone-Reaches :
      (deleted left : Answer) (pods : Option ℕ) (b : Backup) (secret : Answer)
      → Reaches db (job_gone deleted left pods srv b secret db)
  job_gone-Reaches Answer.failed left pods b secret = refused
  job_gone-Reaches Answer.found Answer.found pods b secret = still
  job_gone-Reaches Answer.found Answer.failed pods b secret = refused
  job_gone-Reaches Answer.found Answer.missing pods b secret = no_pods-Reaches pods b secret
  job_gone-Reaches Answer.missing Answer.found pods b secret = still
  job_gone-Reaches Answer.missing Answer.failed pods b secret = refused
  job_gone-Reaches Answer.missing Answer.missing pods b secret = no_pods-Reaches pods b secret

  clients_for-Reaches :
      (cluster : ℕ) {r : Result (Db × Bool)}
      → Reaches db r
      → Reaches db (clients_for out cluster >> r)
  clients_for-Reaches cluster {r} h = here (not (out.reachable cluster))
    where
      here : (b : Bool) → Reaches db (refuse_if b Error.cluster_unreachable >> r)
      here true = refused
      here false = h

  stop_read-Reaches : (cluster : ℕ) (r : Read) → Reaches db (stop_read out srv cluster db r)
  stop_read-Reaches cluster lost = still
  stop_read-Reaches cluster unread = refused
  stop_read-Reaches cluster (got b) =
      let on = or_cluster b.cluster_id cluster in
      let name = if str_eq b.job_name "" then out.job_name b else b.job_name in
      if_Reaches (str_eq b.job_name "" && not (is_phase b.phase BackupPhase.running)) still (
        clients_for-Reaches on (
          job_gone-Reaches (out.job_deleted on name) (out.job_left on name) (out.job_pods on name) b
            (out.secret_deleted on)))

-- A run from one state of the tables to a later one.
record Runs (db : Db) (r : Db × Bool) : Type 0 where
  run : Reach db r.0

if_Runs :
    (b : Bool) {db : Db} {x y : Db × Bool} → Runs db x → Runs db y → Runs db (if b then x else y)
if_Runs true h k = h
if_Runs false h k = k

stop_all-Runs :
    (out : Outside) (srv : Server) (ops : List (ℕ × ℕ)) (db : Db)
    → Runs db (stop_all out srv ops db)
unfolding stop_all stop_operation
stop_all-Runs out srv [] db = record { run = Reach.here }
stop_all-Runs out srv ((id, cluster) ∷ ops) db = if_Runs (id == 0) (stop_all-Runs out srv ops db) (
    next_of (stop_operation out srv id cluster db)
      (stop_read-Reaches out srv db cluster (read_backup out id db))
      (λ db' r. record { run = Reach-trans r (stop_all-Runs out srv ops db').run }))
  where
    next_of :
        (r : Result (Db × Bool))
        → Reaches db r
        → ((db' : Db) → Reach db db' → Runs db (stop_all out srv ops db'))
        → Runs db (or_stop r (stop_all out srv ops) db)
    next_of (err e) h later = record { run = Reach.here }
    next_of (ok (db', true)) (reached h) later = later db' h
    next_of (ok (db', false)) (reached h) later = record { run = h }

-- A world reached from another by transactions.
record Ticks (w x : World) : Type 0 where
  ran : Reach w.db x.db

if_Ticks : (b : Bool) {w x y : World} → Ticks w x → Ticks w y → Ticks w (if b then x else y)
if_Ticks true h k = h
if_Ticks false h k = k

module _ (out : Outside) where
  idle : {w : World} → Ticks w w
  idle = record { ran = Reach.here }

  asked_idle : (cluster : ℕ) {w : World} → Ticks w (ask cluster w)
  asked_idle cluster = record { ran = Reach.here }

  when_gone-Ticks :
      (r : Result (Unit {0})) {w x y : World} → Ticks w x → Ticks w y → Ticks w (when_gone r x y)
  when_gone-Ticks (ok done) h k = k
  when_gone-Ticks (err e) h k = h

  after-Ticks :
      (r : Result Db) (w : World) → ((db' : Db) → r ≡ ok db' → Reach w.db db') → Ticks w (after r w)
  after-Ticks (ok db') w h = record { ran = h db' refl }
  after-Ticks (err e) w h = idle

  finished-Ticks :
      (r : Result Db) (event : Event) (w : World)
      → ((db' : Db) → r ≡ ok db' → Reach w.db db')
      → Ticks w (finished r event w)
  finished-Ticks (ok db') event w h = record { ran = h db' refl }
  finished-Ticks (err e) event w h = idle

  advance_committing-Ticks :
      (srv : Server) (t : TransferState) (w : World) → Ticks w (advance_committing out srv t w)
  unfolding advance_committing
  advance_committing-Ticks srv t w = if_Ticks (not (out.reachable t.source_cluster)) idle (
      when_gone-Ticks (delete_namespace out t.source_cluster) (asked_idle t.source_cluster)
        (record {
          ran =
              (finished-Ticks (finish_server_transfer srv.id false w.db)
                (Event.complete srv.id t.target_cluster) (ask t.source_cluster w)
                (λ db' e. one (Step.finishes srv.id false e))).ran;
        }))

  finish_back-Ticks :
      (srv : Server) (message : String) (w : World) → Ticks w (finish_back srv message w)
  finish_back-Ticks srv message w =
      finished-Ticks (finish_server_transfer srv.id true w.db) (Event.cancelled srv.id message) w
        (λ db' e. one (Step.finishes srv.id true e))

  target_gone-Ticks :
      (t : TransferState) {w x : World} → Ticks w x → Ticks w (target_gone out t w x)
  target_gone-Ticks t h =
      if_Ticks (not (out.reachable t.target_cluster)) idle
        (when_gone-Ticks (delete_namespace out t.target_cluster) (asked_idle t.target_cluster) h)

  unwound_in-Ticks :
      (p : TransferPhase) (srv : Server) (t : TransferState) (message : String) (w : World)
      → Ticks w (unwound_in p out srv t message w)
  unwound_in-Ticks backing_up srv t message w = finish_back-Ticks srv message w
  unwound_in-Ticks restoring srv t message w =
      target_gone-Ticks t
        (record { ran = (finish_back-Ticks srv message (ask t.target_cluster w)).ran })
  unwound_in-Ticks committing srv t message w =
      target_gone-Ticks t
        (record { ran = (finish_back-Ticks srv message (ask t.target_cluster w)).ran })

  unwound-Ticks :
      (srv : Server) (t : TransferState) (message : String) (w : World) (r : Db × Bool)
      → Runs w.db r
      → Ticks w (unwound out srv t message w r)
  unwound-Ticks srv t message w (db', false) h = record { ran = h.run }
  unwound-Ticks srv t message w (db', true) h = record {
    ran = Reach-trans h.run (unwound_in-Ticks t.phase srv t message (record w { db = db' })).ran;
  }

  unwind-Ticks :
      (message : String) (w : World) (s : Option Server) → Ticks w (unwind out message w s)
  unwind-Ticks message w none = idle
  unwind-Ticks message w (some srv) = moving srv.transfer
    where
      moving : (t : Option TransferState) → Ticks w (unwind_from t out srv message w)
      moving none = idle
      moving (some t) =
          unwound-Ticks srv t message w (stop_all out srv (operations t) w.db)
            (stop_all-Runs out srv (operations t) w.db)

  rollback-Ticks : (id : ℕ) (message : String) (w : World) → Ticks w (rollback out id message w)
  unfolding rollback
  rollback-Ticks id message w = from (cancel_server_transfer id message w.db) refl
    where
      from :
          (r : Result Db)
          → cancel_server_transfer id message w.db ≡ r
          → Ticks w (rolled_back out id message w r)
      from (err e) h = idle
      from (ok db') h =
          let rest = unwind-Ticks message (record w { db = db' }) (find_server id db'.servers) in
          record { ran = Reach-trans (one (Step.aborts id message h)) rest.ran }

  created-Ticks :
      (srv : Server) (direction : BackupDirection) (w : World)
      → 0 < out.new_id
      → Ticks w (after (create_transfer_operation out.new_id srv.id direction w.db) w)
  created-Ticks srv direction w positive =
      after-Ticks (create_transfer_operation out.new_id srv.id direction w.db) w
        (λ db' e. one (Step.operates out.new_id srv.id direction positive e))

  backup_phase-Ticks :
      (p : BackupPhase) (srv : Server) (b : Backup) (w : World) → Ticks w (backup_in p out srv b w)
  backup_phase-Ticks BackupPhase.succeeded srv b w =
      after-Ticks (advance_server_transfer srv.id w.db) w (λ db' e. one (Step.advances srv.id e))
  backup_phase-Ticks BackupPhase.failed srv b w = rollback-Ticks srv.id _ w
  backup_phase-Ticks BackupPhase.pending srv b w = idle
  backup_phase-Ticks BackupPhase.running srv b w = idle
  backup_phase-Ticks BackupPhase.deleting srv b w = idle

  backup_read-Ticks : (srv : Server) (w : World) (r : Read) → Ticks w (backup_read out srv w r)
  backup_read-Ticks srv w lost = rollback-Ticks srv.id _ w
  backup_read-Ticks srv w unread = idle
  backup_read-Ticks srv w (got b) = backup_phase-Ticks b.phase srv b w

  committed-Ticks :
      (srv : Server) (t : TransferState) (w : World) (r : Result Db)
      → commit_server_transfer srv.id w.db ≡ r
      → Ticks w (committed out srv t w r)
  committed-Ticks srv t w (err e) h = idle
  committed-Ticks srv t w (ok db') h =
      let rest = advance_committing-Ticks srv t (record w { db = db' }) in
      record { ran = Reach-trans (one (Step.commits srv.id h)) rest.ran }

  restore_phase-Ticks :
      (p : BackupPhase) (srv : Server) (t : TransferState) (b : Backup) (w : World)
      → Ticks w (restore_in p out srv t b w)
  restore_phase-Ticks BackupPhase.succeeded srv t b w =
      committed-Ticks srv t w (commit_server_transfer srv.id w.db) refl
  restore_phase-Ticks BackupPhase.failed srv t b w = rollback-Ticks srv.id _ w
  restore_phase-Ticks BackupPhase.pending srv t b w = idle
  restore_phase-Ticks BackupPhase.running srv t b w = idle
  restore_phase-Ticks BackupPhase.deleting srv t b w = idle

  restore_read-Ticks :
      (srv : Server) (t : TransferState) (w : World) (r : Read)
      → Ticks w (restore_read out srv t w r)
  restore_read-Ticks srv t w lost = rollback-Ticks srv.id _ w
  restore_read-Ticks srv t w unread = idle
  restore_read-Ticks srv t w (got b) = restore_phase-Ticks b.phase srv t b w

  module _ (positive : 0 < out.new_id) where
    no_pod_left-Ticks :
        (srv : Server) (o : Option Bool) (w : World)
        → Ticks w (no_pod_left o (create_transfer_operation out.new_id srv.id dir_backup w.db) w)
    no_pod_left-Ticks srv none w = idle
    no_pod_left-Ticks srv (some true) w = idle
    no_pod_left-Ticks srv (some false) w = created-Ticks srv dir_backup w positive

    when_ready-Ticks :
        (srv : Server) (a : Answer) (w : World)
        → Ticks w (when_ready a (create_transfer_operation out.new_id srv.id dir_restore w.db) w)
    when_ready-Ticks srv Answer.found w = created-Ticks srv dir_restore w positive
    when_ready-Ticks srv Answer.missing w = idle
    when_ready-Ticks srv Answer.failed w = idle

    advance-Ticks :
        (p : TransferPhase) (srv : Server) (t : TransferState) (w : World)
        → Ticks w (advance_in p out srv t w)
    unfolding advance_backing_up advance_restoring
    advance-Ticks backing_up srv t w =
        if_Ticks (t.backup_id == 0)
          (if_Ticks (not (out.reachable t.source_cluster)) idle
            (no_pod_left-Ticks srv (has_pods out t.source_cluster selectors) w))
          (backup_read-Ticks srv w (read_backup out t.backup_id w.db))
    advance-Ticks restoring srv t w = if_Ticks (not (out.reachable t.target_cluster)) idle (
        if_Ticks (t.restore_id == 0) (when_ready-Ticks srv (out.volume t.target_cluster) w)
          (restore_read-Ticks srv t w (read_backup out t.restore_id w.db)))
    advance-Ticks committing srv t w = advance_committing-Ticks srv t w

    process_from-Ticks :
        (o : Option TransferState) (srv : Server) (w : World) → Ticks w (process_from o out srv w)
    process_from-Ticks none srv w = idle
    process_from-Ticks (some t) srv w =
        if_Ticks t.cancelled (rollback-Ticks srv.id t.message w) (advance-Ticks t.phase srv t w)

-- A tick of the driver is a sequence of the store's transactions, whatever the clusters answer and
-- however stale its list of servers is: it writes the tables in no other way.
pub process-Reach :
    (out : Server → Outside) (srvs : List Server) (w : World)
    → ((srv : Server) → 0 < (out srv).new_id)
    → Reach w.db (process out srvs w).db
unfolding process process_one
process-Reach out [] w positive = Reach.here
process-Reach out (srv ∷ srvs) w positive =
    Reach-trans (process_from-Ticks (out srv) (positive srv) srv.transfer srv w).ran
      (process-Reach out srvs (process_one (out srv) srv w) positive)
