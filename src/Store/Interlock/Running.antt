-- ===== src/Store/Interlock/Running.antt =====
-- What the interlock means for the pods that the controller runs.
use quetzal.Prelude.{
  any, any-none, Bool-cases, inl, inr, ◌&&◌, not, ℕ, true, false, none, some, ◌≡◌, ◌≢◌, ◌↔◌, arith,
  ok,
}
use quetzal.Models.Server.{Server, TransferState, running, replicas}
use quetzal.Models.Backup.{Backup}
use quetzal.Store.Db.{Db, find_server, active_on, update_server}
use quetzal.Store.Power.{start_server, powered_on, offline_on}
use quetzal.Store.Transfer.{tracked}
use quetzal.Store.Interlock.Writes.{IsSafe, frozen, allows}
use quetzal.Store.Interlock.Power.{IsIdle, start_server-eq, offline_operation_active_iff}
use quetzal.Store.Interlock.Steps.{Reach, Reach-IsSafe}

-- What one row allows, where its pod is wanted.
undisturbed :
    (id : ℕ) (s : Server) (b : Backup)
    → replicas s ≡ 1
    → frozen s.transfer s.desired_state ≡ true
    → (active_on id b ≡ true → allows s.transfer s.desired_state b ≡ true)
    → offline_on id b ≡ false
unfolding replicas
undisturbed id s b wanted still allowed = elim (Bool-cases (active_on id b)) [
  | inl on ↦ let h = allowed on in ground arith
  | inr away ↦ ground (arith, away)
]

free_of_transfer :
    (s : Server) → replicas s ≡ 1 → frozen s.transfer s.desired_state ≡ true → s.transfer ≡ none
unfolding replicas
free_of_transfer s wanted still = ground arith

allowed_tracked :
    (id : ℕ) (s : Server) (t : TransferState) (b : Backup)
    → s.transfer ≡ some t
    → (active_on id b ≡ true → allows s.transfer s.desired_state b ≡ true)
    → (active_on id b && not (tracked t b)) ≡ false
allowed_tracked id s t b busy allowed = elim (Bool-cases (active_on id b)) [
  | inl on ↦ let h = rw busy at (allowed on) in ground (arith, on, h)
  | inr away ↦ ground (arith, away)
]

frozen_down :
    (s : Server) (t : TransferState)
    → s.transfer ≡ some t
    → frozen s.transfer s.desired_state ≡ true
    → (s.desired_state ≢ running) × (replicas s ≡ 0)
unfolding replicas
frozen_down s t busy h = ground arith

module _ {db db' : Db} (safe : IsSafe db) (run : Reach db db') (id : ℕ) (s : Server)
    (found : find_server id db'.servers ≡ some s) where
  -- From tables that satisfy the interlock, after any sequence of accepted transactions on power,
  -- operations and transfers (Step): a server whose pod is wanted is in no transfer, and no restore
  -- and no database import of it waits or runs.
  pub running_undisturbed :
      replicas s ≡ 1 → (s.transfer ≡ none) × (any (offline_on id) db'.backups ≡ false)
  running_undisturbed wanted =
      let after = Reach-IsSafe run safe in
      (
        free_of_transfer s wanted (after.still id s found),
        any-none (offline_on id) db'.backups (λ b m.
            undisturbed id s b wanted (after.still id s found) (after.apart id s found b m)),
      )

  -- From tables that satisfy the interlock, after any sequence of accepted transactions on power,
  -- operations and transfers (Step): a server in transfer is not meant to run and has no pod wanted,
  -- and each operation of it that waits or runs is the transfer's own backup or restore.
  pub transfer_exclusive :
      (t : TransferState)
      → s.transfer ≡ some t
      → (s.desired_state ≢ running)
        × (replicas s ≡ 0)
        × (any (λ b. active_on id b && not (tracked t b)) db'.backups ≡ false)
  transfer_exclusive t busy =
      let after = Reach-IsSafe run safe in
      let (down, no_pod) = frozen_down s t busy (after.still id s found) in
      (
        down,
        no_pod,
        any-none _ db'.backups (λ b m. allowed_tracked id s t b busy (after.apart id s found b m)),
      )

-- A start is accepted exactly if the server is known, in no transfer, and has no restore and no
-- import waiting or running; what is written is then its power state, on the rows of that id.
pub start_server_iff :
    (id when : ℕ) (db : Db)
    → (start_server id when db ≡ ok (update_server id (powered_on when) db)) ↔ IsIdle id db
unfolding start_server
start_server_iff id when db = (λ h. (start_server-eq id when db h).0, from)
  where
    from : IsIdle id db → start_server id when db ≡ ok (update_server id (powered_on when) db)
    from idle =
        let (s, found, free, quiet) = idle in
        let passes = (offline_operation_active_iff id db).1 idle in ground (arith, found)
