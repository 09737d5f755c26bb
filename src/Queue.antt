-- ===== src/Queue.antt =====
-- How the controller takes up the operations that wait (busyServers and processPending of
-- internal/backup/manager.go): one tick over them, on the transactions of Store.Operations.
pub mod Serial
pub mod Running
pub mod Evident
pub mod Deleting
pub mod Forgets
mod Tests
use quetzal.Prelude.{
  ℕ, String, Bool, true, false, not, ◌&&◌, ◌||◌, Option, none, some, List, [], ◌∷◌, ◌++◌, ◌-◌, ◌*◌,
  ◌==◌, if◌then◌else◌, ltb, leb, first, select, map, any, is_some, commit, Result, Error, ok, err,
  str_eq,
}
use quetzal.Models.Server.{Server, DesiredState, is_state}
use quetzal.Models.Backup.{
  Backup, BackupPhase, pending, running, failed, deleting, dir_backup, dir_restore,
  dir_database_import, is_direction, is_phase,
}
use quetzal.Store.Db.{Db, find_server}
use quetzal.Store.Operations.{claim_backup, complete_backup, observe_backup_job, barred_by}

-- What a preparation that asks the server's files or databases gives: its value, the end of the
-- operation with a message, or another try at the next tick.
pub data Prepared (A : Type 0) : Type 0 where
  ready : A → Prepared A
  stop : String → Prepared A
  later : Prepared A

-- What the outside answers during a tick: why the target cannot be used, if it cannot, and its id;
-- whether a cluster has clients; whether a server has pods, and game pods (`none`: the call failed);
-- the databases and the exclusions of an operation, the latter with the patterns and the note that
-- go to its row; whether its credentials are in place; its Job's name, its encoding and the UID that
-- its creation gives.
pub record Outside : Type 0 where
  pub unusable : Option String
  pub target_id : String
  pub reachable : ℕ → Bool
  pub server_has_pods : Server → Option Bool
  pub game_has_pods : Server → Option Bool
  pub operation_databases : Server → Backup → Prepared (List String)
  pub exclusions : Server → Backup → Prepared (String × String)
  pub secret_in_place : Backup → Bool
  pub job_name : Backup → String
  pub job_spec : Backup → Option String
  pub created_uid : Backup → Option String

-- Seconds.
abbrev pub restore_wait : ℕ
restore_wait = 15 * 60

abbrev pub stop_wait : ℕ
stop_wait = 15 * 60

unfoldable pub insert_asc : Backup → List Backup → List Backup
insert_asc b [] = b ∷ []
insert_asc b (c ∷ cs) = if leb b.id c.id then b ∷ c ∷ cs else c ∷ insert_asc b cs

unfoldable pub sort_asc : List Backup → List Backup
unfolding insert_asc
sort_asc [] = []
sort_asc (b ∷ bs) = insert_asc b (sort_asc bs)

-- `Where("phase = ?").Order("id asc")`.
unfoldable pub list_backups_by_phase : BackupPhase → Db → List Backup
unfolding sort_asc
list_backups_by_phase phase db = sort_asc (select (λ b. is_phase b.phase phase) db.backups)

unfoldable pub busy_servers : Db → List ℕ
unfolding list_backups_by_phase
busy_servers db =
    map (λ b. b.server_id) (list_backups_by_phase running db)
    ++ map (λ b. b.server_id)
        (select (λ b. not (str_eq b.job_name "")) (list_backups_by_phase deleting db))

-- `busy[id]`.
abbrev pub is_busy : List ℕ → ℕ → Bool
is_busy busy id = any (λ i. i == id) busy

-- The tables, the servers that are busy, and those of which the tick took up an operation.
pub record Round : Type 0 where
  pub db : Db
  pub busy : List ℕ
  pub taken : List ℕ

-- `finish`: a failure to record the end is logged. The event that `announce` emits is left out.
unfoldable pub finish : Backup → BackupPhase → String → Db → Db
finish b phase message db = commit db (
    complete_backup
      (record b { phase = phase; size_bytes = 0; message = message; completed_at = some db.now })
      b.phase 0 db)

abbrev pub failed_with : Backup → String → Round → Round
failed_with b message r = record r { db = finish b failed message r.db }

unfoldable pub operation_cluster : Backup → Server → ℕ
operation_cluster b srv = elim (b.cluster_id) [ some cluster ↦ cluster | none ↦ srv.cluster_id ]

abbrev pub imports : Backup → Bool
imports b = is_direction b.direction dir_database_import

-- How long the operation has waited.
abbrev pub age : Backup → Round → ℕ
age b r = r.db.now - b.created_at

module _ (out : Outside) where
  -- The claimed operation's Job: a failure leaves the row as it is.
  abbrev pub submitted : Backup → Option String → Db → Db
  submitted b none db = db
  submitted b (some uid) db = commit db (observe_backup_job b.id uid db)

  abbrev pub after_claim : Server → Backup → Round → Result (Db × Bool) → Round
  after_claim srv b r (err e) = r
  after_claim srv b r (ok (db, false)) = record r { db = db }
  after_claim srv b r (ok (db, true)) = record r {
    db = submitted b (out.created_uid b) db;
    taken = b.server_id ∷ r.taken;
  }

  -- The names that a claim records: those of a backup or restore that has any.
  abbrev pub recorded : Backup → List String → Option (List String)
  recorded b [] = none
  recorded b (d ∷ ds) = if imports b then none else some (d ∷ ds)

  abbrev pub claim_encoded :
      Server → Backup → List String → String → String → Option String → Round → Round
  claim_encoded srv b dbs ignored note none r = r
  claim_encoded srv b dbs ignored note (some spec) r = after_claim srv b r (
      claim_backup b.id (out.job_name b)
        (if is_direction b.direction dir_backup then out.target_id else "") (recorded b dbs) ignored
        note spec (operation_cluster b srv) r.db)

  abbrev pub with_exclusions :
      Server → Backup → List String → Prepared (String × String) → Round → Round
  with_exclusions srv b dbs (stop message) r = failed_with b message r
  with_exclusions srv b dbs later r = r
  with_exclusions srv b dbs (ready (ignored, note)) r =
      if out.secret_in_place b then claim_encoded srv b dbs ignored note (out.job_spec b) r else r

  abbrev pub with_databases : Server → Backup → Prepared (List String) → Round → Round
  with_databases srv b (stop message) r = failed_with b message r
  with_databases srv b later r = r
  with_databases srv b (ready dbs) r = with_exclusions srv b dbs (out.exclusions srv b) r

  -- A backup of a server on its way down waits for the game to be gone.
  abbrev pub waits_for_stop : Server → Backup → Round → Bool
  waits_for_stop srv b r =
      is_direction b.direction dir_backup
      && ((not (is_state srv.desired_state DesiredState.running) || srv.hibernated)
          && ltb (age b r) stop_wait)

  -- Whether the answer about pods keeps the operation from its turn.
  abbrev pub held : Option Bool → Bool
  held none = true
  held (some up) = up

  abbrev pub prepare : Server → Backup → Round → Round
  prepare srv b r =
      if waits_for_stop srv b r && held (out.game_has_pods srv)
      then r
      else with_databases srv b (out.operation_databases srv b) r

  -- An operation that needs the server's pods gone: it waits, and is called off in the end.
  abbrev pub once_gone : Server → Backup → String → Option Bool → Round → Round
  once_gone srv b message none r = r
  once_gone srv b message (some true) r =
      if ltb restore_wait (age b r) then failed_with b message r else r
  once_gone srv b message (some false) r = prepare srv b r

  abbrev pub restore_late : String
  restore_late =
      "it never started: the server's data was still in use 15m0s after the request, so nothing was restored"

  abbrev pub import_late : String
  import_late =
      "it never started: the server was still running 15m0s after the request, so nothing was imported"

  abbrev pub by_direction : Server → Backup → Round → Round
  by_direction srv b r =
      if is_direction b.direction dir_restore
      then once_gone srv b restore_late (out.server_has_pods srv) r
      else if imports b
      then once_gone srv b import_late (out.game_has_pods srv) r
      else prepare srv b r

  abbrev pub other_target_message : String
  other_target_message =
      "this backup was made to a backup target the panel no longer uses; it can be restored once that target is set again"

  abbrev pub made_elsewhere : Option Backup → Bool
  made_elsewhere none = false
  made_elsewhere (some src) = not (str_eq src.target "") && not (str_eq src.target out.target_id)

  -- What follows the reservation of the server.
  unfoldable pub proceed : Server → Backup → Round → Round
  unfolding operation_cluster finish
  proceed srv b r =
      if is_direction b.direction dir_restore
        && made_elsewhere (first (λ c. c.id == b.source_id) r.db.backups)
      then failed_with b other_target_message r
      else if out.reachable (operation_cluster b srv)
      then by_direction srv b r
      else r

  abbrev pub on_server : Backup → Option Server → Round → Round
  on_server b none r = failed_with b "server not found" r
  on_server b (some srv) r =
      if barred_by srv.transfer b.id
      then r
      else proceed srv b (record r { busy = b.server_id ∷ r.busy })

  abbrev pub unless_busy : Backup → Round → Round
  unless_busy b r =
      if is_busy r.busy b.server_id then r else on_server b (find_server b.server_id r.db.servers) r

  -- One round of the loop; only an import can do without the target.
  abbrev pub by_target : Option String → Backup → Round → Round
  by_target none b r = unless_busy b r
  by_target (some why) b r = if imports b then unless_busy b r else failed_with b why r

  unfoldable pub take_up : List Backup → Round → Round
  unfolding finish proceed
  take_up [] r = r
  take_up (b ∷ bs) r = take_up bs (by_target out.unusable b r)

  -- `processPending`.
  unfoldable pub process_pending : Db → Round
  unfolding list_backups_by_phase busy_servers take_up
  process_pending db =
      take_up (list_backups_by_phase pending db)
        (record { db = db; busy = busy_servers db; taken = [] })
