-- ===== src/Store/Interlock/Power.antt =====
-- The writes of `Store/Power.antt` keep the interlock.
use quetzal.Prelude.{
  any-false, ◌↔◌, ℕ, Bool, true, false, not, ◌&&◌, ◌||◌, Option, none, some, List, [], ◌∷◌, update,
  any, ◌≡◌, ◌≢◌, refl, arith, Bool-cases, Option-cases, inl, inr, ok,
}
use quetzal.Models.Server.{
  Server, DesiredState, running, stopped, suspended, Hibernation, is_state, TransferState,
}
use quetzal.Models.Backup.{Backup, is_direction, dir_restore}
use quetzal.Store.Db.{Db, find_server, update_server, active_on}
use quetzal.Store.Power.{
  set_desired_state, hibernate_if_unchanged, update_last_active, wake, offline_on,
  offline_operation_active, start_server, powered_on, request_restart, finish_restart,
  update_server_hibernation,
}
use quetzal.Store.Interlock.Writes.{IsSafe, frozen, allows, update-IsSafe, locked-IsSafe}

-- A stop or a suspension asks for less than what was allowed.
frozen_down :
    (t : Option TransferState) (state : DesiredState) → state ≢ running → frozen t state ≡ true
frozen_down none state down = refl
frozen_down (some t) running down = absurd (down refl)
frozen_down (some t) stopped down = refl
frozen_down (some t) suspended down = refl

allows_down :
    (t : Option TransferState) (before state : DesiredState) (b : Backup)
    → state ≢ running
    → allows t before b ≡ true
    → allows t state b ≡ true
allows_down none before running b down h = absurd (down refl)
allows_down none before stopped b down h = ground arith
allows_down none before suspended b down h = ground arith
allows_down (some t) before state b down h = h

module _ {db : Db} (safe : IsSafe db) where
  -- A write that leaves the power state and the transfer alone.
  pub other-IsSafe :
      (p : Server → Bool) (g : Server → Server)
      → ((s : Server)
          → ((g s).id ≡ s.id)
            × ((g s).transfer ≡ s.transfer)
            × ((g s).desired_state ≡ s.desired_state))
      → IsSafe (record db { servers = update p g db.servers })
  other-IsSafe p g keeps =
      update-IsSafe safe p g (λ s. (keeps s).0)
        (λ i s found hit. rw ((keeps s).1) (rw ((keeps s).2) (safe.still i s found)))
        (λ i s found hit b m a. rw ((keeps s).1) (rw ((keeps s).2) (safe.apart i s found b m a)))

  pub wake-IsSafe : (id when : ℕ) → IsSafe (wake id when db)
  unfolding wake
  wake-IsSafe id when = other-IsSafe _ _ (λ s. (refl, refl, refl))

  pub update_last_active-IsSafe : (id when : ℕ) → IsSafe (update_last_active id when db)
  unfolding update_last_active
  update_last_active-IsSafe id when = other-IsSafe _ _ (λ s. (refl, refl, refl))

  pub finish_restart-IsSafe : (id : ℕ) → IsSafe (finish_restart id db)
  unfolding finish_restart
  finish_restart-IsSafe id = other-IsSafe _ _ (λ s. (refl, refl, refl))

  pub request_restart-IsSafe : (id when : ℕ) → IsSafe (request_restart id when db).0
  unfolding request_restart
  request_restart-IsSafe id when = other-IsSafe _ _ (λ s. (refl, refl, refl))

  pub update_server_hibernation-IsSafe :
      (id : ℕ) (h : Hibernation) (rearm_at : Option ℕ)
      → IsSafe (update_server_hibernation id h rearm_at db)
  unfolding update_server_hibernation
  update_server_hibernation-IsSafe id h rearm_at = other-IsSafe _ _ (λ s. (refl, refl, refl))

  pub hibernate_if_unchanged-IsSafe :
      (observed : Server) → IsSafe (hibernate_if_unchanged observed db).0
  unfolding hibernate_if_unchanged
  hibernate_if_unchanged-IsSafe observed =
      elim (Bool-cases (
        not observed.hibernation.enabled
        || (not (is_state observed.desired_state running) || observed.hibernated))) [
          | inl skipped ↦ rw skipped safe
          | inr due ↦ rw due (other-IsSafe _ _ (λ s. (refl, refl, refl)))
        ]

  -- A stop or a suspension, which `SetDesiredState` is called for.
  pub set_desired_state-IsSafe :
      (id : ℕ) (state : DesiredState) → state ≢ running → IsSafe (set_desired_state id state db)
  unfolding set_desired_state
  set_desired_state-IsSafe id state down =
      update-IsSafe safe _ _ (λ s. refl) (λ i s found hit. frozen_down s.transfer state down)
        (λ i s found hit b m a.
          allows_down s.transfer s.desired_state state b down (safe.apart i s found b m a))

-- What a server has that nothing holds down.
abbrev pub IsIdle : ℕ → Db → Type 0
IsIdle id db =
    (s : Server) × (find_server id db.servers ≡ some s)
    × (s.transfer ≡ none)
    × (any (offline_on id) db.backups ≡ false)

any-restore :
    (id : ℕ) (bs : List Backup)
    → any (offline_on id) bs ≡ false
    → any (λ b. offline_on id b && is_direction b.direction dir_restore) bs ≡ false
any-restore id [] h = refl
any-restore id (b ∷ bs) h = ground (arith, any-restore id bs)

-- `offlineOperationActive` lets through exactly the idle servers.
pub offline_operation_active_iff :
    (id : ℕ) (db : Db) → (offline_operation_active id db ≡ ok tt) ↔ IsIdle id db
unfolding offline_operation_active
offline_operation_active_iff id db = (to, from)
  where
    to : offline_operation_active id db ≡ ok tt → IsIdle id db
    to h = elim (Option-cases (find_server id db.servers)) [
      | inl missing ↦ absurd (ground (arith, missing))
      | inr (s, found) ↦ (s, found, ground (arith, found), ground (arith, found))
    ]

    from : IsIdle id db → offline_operation_active id db ≡ ok tt
    from (s, found, free, quiet) =
        ground (arith, found, free, quiet, any-restore id db.backups quiet)

-- A start that is accepted: the server was idle, and its row is powered on.
pub start_server-eq :
    (id when : ℕ) (db : Db) {db' : Db}
    → start_server id when db ≡ ok db'
    → IsIdle id db × (db' ≡ update_server id (powered_on when) db)
unfolding start_server
start_server-eq id when db h = elim (Option-cases (find_server id db.servers)) [
  | inl missing ↦ absurd (ground (arith, missing))
  | inr (s, found) ↦
      ((s, found, ground (arith, found), ground (arith, found)), ground (arith, found))
]

-- Outside a transfer, a server may be meant to run if nothing that needs it down waits or runs.
pub allows_idle :
    (t : Option TransferState) (id : ℕ) (state : DesiredState) (b : Backup)
    → t ≡ none
    → active_on id b ≡ true
    → offline_on id b ≡ false
    → allows t state b ≡ true
allows_idle none id state b free a quiet = ground arith
allows_idle (some t) id state b free a quiet = cc

frozen_free : (t : Option TransferState) (state : DesiredState) → t ≡ none → frozen t state ≡ true
frozen_free none state free = refl
frozen_free (some t) state free = cc

pub start_server-IsSafe :
    (id when : ℕ) (db : Db) {db' : Db} → start_server id when db ≡ ok db' → IsSafe db → IsSafe db'
start_server-IsSafe id when db h safe =
    let ((srv, found, free, quiet), e) = start_server-eq id when db h in
    rw e (
      locked-IsSafe safe id (powered_on when) srv found (λ s. refl)
        (frozen_free srv.transfer running free)
        (λ b m a.
          allows_idle srv.transfer id running b free a
            (any-false (offline_on id) db.backups quiet m)))
