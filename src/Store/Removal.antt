-- ===== src/Store/Removal.antt =====
-- The deletion of a server and of an account with all that hangs on them
-- (internal/store/store.go,
-- internal/api/handlers.go, cmd/qctl/main.go).
use quetzal.Prelude.{
  ℕ, String, Bool, Option, first, or_error, ◌>>=◌, str_eq, ◌&&◌, List, ◌==◌, any, update, delete,
  Result, Error, ok, err, refuse_if, if◌then◌else◌, ◌>>◌,
}
use quetzal.Models.Server.{Server}
use quetzal.Models.User.{User, ServerAccess}
use quetzal.Models.Credentials.{
  ServerInvite, FileUpload, SftpCursor, ApiKey, Session, SshKey, PasswordReset, EmailConfirmation,
}
use quetzal.Models.Schedule.{Schedule}
use quetzal.Schedules.{delete_schedules_for_server}
use quetzal.Store.Operations.{delete_backups_for_server}
use quetzal.Notify.{Channel}
use quetzal.Ports.{PortAllocation, release_server_ports}
use quetzal.Store.Db.{Db, stamped}
use quetzal.Store.Servers.{owned_by}

-- The tables of `Db` with those whose rows name a server or an account.
pub record Tables : Type 0 where
  pub db : Db
  pub users : List User
  pub accesses : List ServerAccess
  pub allocations : List PortAllocation
  pub schedules : List Schedule
  pub invites : List ServerInvite
  pub uploads : List FileUpload
  pub cursors : List SftpCursor
  pub api_keys : List ApiKey
  pub sessions : List Session
  pub ssh_keys : List SshKey
  pub resets : List PasswordReset
  pub confirmations : List EmailConfirmation
  pub channels : List Channel

unfoldable pub delete_server : ℕ → Tables → Tables
unfolding release_server_ports
delete_server id t = record t {
  allocations = release_server_ports id t.allocations;
  invites = delete (λ r. r.server_id == id) t.invites;
  uploads = delete (λ r. r.server_id == id) t.uploads;
  cursors = delete (λ r. r.server_id == id) t.cursors;
  db = record t.db { servers = delete (λ r. r.id == id) t.db.servers };
}

unfoldable pub delete_access_for_server : ℕ → Tables → Tables
delete_access_for_server id t = record t { accesses = delete (λ a. a.server_id == id) t.accesses }

unfoldable pub delete_channels_for_server : ℕ → Tables → Tables
delete_channels_for_server id t = record t { channels = delete (λ c. c.server_id == id) t.channels }

-- Which of the writes of a deletion the database refuses.
pub record Refusals : Type 0 where
  pub schedules : Bool
  pub backups : Bool
  pub accesses : Bool
  pub channels : Bool
  pub server : Bool

abbrev pub unless {ℓ} : {A : Type ℓ} → Bool → (A → A) → A → A
unless refused write t = if refused then t else write t

-- The writes of `handleDeleteServer` whose errors it ignores.
abbrev pub best_effort : (schedules backups accesses channels : Bool) → ℕ → Tables → Tables
best_effort schedules backups accesses channels id t =
    unless channels (delete_channels_for_server id) (
      unless accesses (delete_access_for_server id) (
        unless backups (λ q. record q { db = delete_backups_for_server id q.db })
          (unless schedules
            (λ q. record q { schedules = delete_schedules_for_server id q.schedules }) t)))

-- `handleDeleteServer`, which the error of the last write ends. The server's game databases, which
-- are dropped on their own hosts, are left out.
unfoldable pub handle_delete_server : Refusals → ℕ → Tables → Result Tables
unfolding delete_server delete_access_for_server delete_backups_for_server
    delete_schedules_for_server delete_channels_for_server
handle_delete_server refused id t =
    if refused.server
    then err Error.database_busy
    else ok (
        delete_server id
          (best_effort refused.schedules refused.backups refused.accesses refused.channels id t))

abbrev pub get_server_by_slug : String → List Server → Option Server
get_server_by_slug slug = first (λ s. str_eq s.slug slug)

-- `cmdRm` of qctl.
unfoldable pub cmd_rm : String → Tables → Result Tables
unfolding delete_server
cmd_rm slug t = do
  srv ← or_error (get_server_by_slug slug t.db.servers) Error.not_found
  ok (delete_server srv.id t)

-- `server_id IN (SELECT id FROM servers WHERE owner_id = ?)`.
abbrev pub on_server_of : ℕ → Db → ServerAccess → Bool
on_server_of owner db a = any (λ s. owned_by owner s && (s.id == a.server_id)) db.servers

abbrev pub reassigned : ℕ → ℕ → Db → Db
reassigned id to db = record db {
  servers = update (owned_by id) (stamped db.now (λ s. record s { owner_id = to })) db.servers;
}

unfoldable pub delete_user : ℕ → ℕ → Tables → Result Tables
delete_user id reassign_to t = do
  refuse_if (reassign_to == id) Error.reassign_to_self
  let moved = reassigned id reassign_to t.db
  ok (record t {
    db = moved;
    accesses =
        delete (λ a. a.user_id == id)
          (delete (λ a. (a.user_id == reassign_to) && on_server_of reassign_to moved a) t.accesses);
    invites = delete (λ r. r.invited_by == id) t.invites;
    api_keys = delete (λ r. r.user_id == id) t.api_keys;
    sessions = delete (λ r. r.user_id == id) t.sessions;
    ssh_keys = delete (λ r. r.user_id == id) t.ssh_keys;
    resets = delete (λ r. r.user_id == id) t.resets;
    confirmations = delete (λ r. r.user_id == id) t.confirmations;
    users = delete (λ u. u.id == id) t.users;
  })
