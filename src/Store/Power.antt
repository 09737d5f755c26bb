-- ===== src/Store/Power.antt =====
-- Power and hibernation of a server (internal/store/store.go): the writes that the API, the
-- scheduler and the idle check make to its row.
use quetzal.Prelude.{
  ℕ, Bool, true, false, not, ◌&&◌, ◌||◌, Option, none, some, ◌==◌, if◌then◌else◌, update, count,
  any, Result, Error, ok, or_error, refuse_if, ◌>>=◌, ◌>>◌, is_some, ltb,
}
use quetzal.Models.Server.{Server, DesiredState, running, is_state, Hibernation}
use quetzal.Models.Backup.{Backup, dir_restore, is_direction, is_offline}
use quetzal.Store.Db.{
  Db, find_server, lock_server, update_server, active_on, opt_eq, later_activity,
}

unfoldable pub set_desired_state : ℕ → DesiredState → Db → Db
set_desired_state id state = update_server id (λ s. record s { desired_state = state })

abbrev bool_eq : Bool → Bool → Bool
bool_eq true b = b
bool_eq false b = not b

-- The policy's columns are compared as one JSON text.
abbrev same_policy : Hibernation → Hibernation → Bool
same_policy a b =
    (bool_eq a.enabled b.enabled && bool_eq a.wake_on_connect b.wake_on_connect)
    && (bool_eq a.proxy b.proxy && (a.idle_minutes == b.idle_minutes))

-- The `WHERE` of the compare-and-swap in `HibernateIfUnchanged`.
unfoldable pub unchanged_since : Server → Server → Bool
unchanged_since observed s =
    (s.id == observed.id)
    && ((s.updated_at == observed.updated_at)
        && ((is_state s.desired_state running && not s.hibernated)
            && (same_policy s.hibernation observed.hibernation
                && opt_eq s.last_active_at observed.last_active_at)))

unfoldable pub hibernate_if_unchanged : Server → Db → Db × Bool
unfolding unchanged_since
hibernate_if_unchanged observed db =
    if not observed.hibernation.enabled
      || (not (is_state observed.desired_state running) || observed.hibernated)
    then (db, false)
    else (
      record db {
        servers =
            update (unchanged_since observed)
              (λ s. record s { hibernated = true; updated_at = db.now }) db.servers;
      },
      count (unchanged_since observed) db.servers == 1,
    )

-- `last_active_at IS NULL OR last_active_at < when`.
abbrev older_than : ℕ → Option ℕ → Bool
older_than when none = true
older_than when (some t) = ltb t when

unfoldable pub update_last_active : ℕ → ℕ → Db → Db
update_last_active id when db = record db {
  servers =
      update (λ s. (s.id == id) && older_than when s.last_active_at)
        (λ s. record s { last_active_at = some when; updated_at = db.now }) db.servers;
}

unfoldable pub wake : ℕ → ℕ → Db → Db
wake id when =
    update_server id
      (λ s. record s { hibernated = false; last_active_at = later_activity when s.last_active_at })

-- The operations `offlineOperationActive` looks for.
abbrev pub offline_on : ℕ → Backup → Bool
offline_on id b = active_on id b && is_offline b.direction

-- Refuses what a transfer, a restore or a database import forbids while it waits or runs.
unfoldable pub offline_operation_active : ℕ → Db → Result (Unit {0})
offline_operation_active id db = do
  srv ← or_error (find_server id db.servers) Error.record_not_found
  refuse_if (is_some srv.transfer) Error.transfer_active
  refuse_if (any (λ b. offline_on id b && is_direction b.direction dir_restore) db.backups)
      Error.restore_active
  refuse_if (any (offline_on id) db.backups) Error.database_import_active

abbrev pub powered_on : ℕ → Server → Server
powered_on when s = record s {
  desired_state = running;
  hibernated = false;
  last_active_at = later_activity when s.last_active_at;
}

unfoldable pub start_server : ℕ → ℕ → Db → Result Db
unfolding lock_server offline_operation_active
start_server id when db = do
  _ ← lock_server id db
  offline_operation_active id db
  ok (update_server id (powered_on when) db)

abbrev restartable : ℕ → Server → Bool
restartable id s = (s.id == id) && (is_state s.desired_state running && not s.hibernated)

unfoldable pub request_restart : ℕ → ℕ → Db → Db × Bool
request_restart id when db = (
  record db {
    servers =
        update (restartable id)
          (λ s. record s { restart_requested_at = some when; updated_at = db.now }) db.servers;
  },
  count (restartable id) db.servers == 1,
)

unfoldable pub finish_restart : ℕ → Db → Db
finish_restart id = update_server id (λ s. record s { restart_requested_at = none })

abbrev rearm : Option ℕ → Option ℕ → Option ℕ
rearm none t = t
rearm (some when) t = later_activity when t

unfoldable pub update_server_hibernation : ℕ → Hibernation → Option ℕ → Db → Db
update_server_hibernation id h rearm_at = update_server id (λ s. record s {
  hibernation = h;
  last_active_at = rearm rearm_at s.last_active_at;
  hibernated = if h.enabled then s.hibernated else false;
})
