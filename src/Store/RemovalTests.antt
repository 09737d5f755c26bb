-- ===== src/Store/RemovalTests.antt =====
-- Two servers with grants on them, and the results of Teardown on their removal.
use quetzal.Prelude.{ℕ, ◌+◌, true, false, some, [], ◌∷◌, ◌≡◌, refl, arith, ok, Memᴰ}
use quetzal.Models.Server.{Server}
use quetzal.Models.User.{User, ServerAccess, has_admin_perm, contains, access_has}
use quetzal.Models.Samples.{lobby, ada}
use quetzal.Access.{can}
use quetzal.Ports.{release_server_ports}
use quetzal.Schedules.{delete_schedules_for_server}
use quetzal.Store.Operations.{delete_backups_for_server}
use quetzal.Store.Removal.{
  Refusals, delete_access_for_server, delete_channels_for_server, Tables, delete_server,
  handle_delete_server, cmd_rm, delete_user,
}
use quetzal.Store.Teardown.{
  Cleared, Gone, handle_delete_server-Cleared, cmd_rm-can, delete_user-Gone,
}

abbrev grant : ℕ → ℕ → ServerAccess
grant server user = record {
  id = server + user;
  created_at = 1;
  updated_at = 1;
  server_id = server;
  user_id = user;
  permissions = "view" ∷ "files" ∷ [];
  username = "";
}

abbrev arena : Server
arena = record lobby { id = 5; slug = "arena"; owner_id = 2 }

abbrev heir : User
heir = record ada { id = 3; username = "heir" }

abbrev tables : Tables
tables = record {
  db = record { now = 9; servers = arena ∷ lobby ∷ []; backups = [] };
  users = ada ∷ heir ∷ [];
  accesses = grant 1 2 ∷ grant 5 3 ∷ [];
  schedules = [];
  allocations = [];
  invites = [];
  uploads = [];
  cursors = [];
  api_keys = [];
  sessions = record { token = "t"; user_id = 2; expires_at = 90; created_at = 1 } ∷ [];
  ssh_keys = [];
  resets = [];
  confirmations = [];
  channels = [];
}

-- A server of the heir's that gets the lobby's id.
abbrev later : Server
later = record lobby { slug = "later"; owner_id = 3 }

abbrev accepting : Refusals
accepting = record {
  schedules = false;
  backups = false;
  accesses = false;
  channels = false;
  server = false;
}

abbrev keeping_grants : Refusals
keeping_grants = record accepting { accesses = true }

abbrev cleared : Tables
cleared = record tables {
  db = record tables.db { servers = arena ∷ [] };
  accesses = grant 5 3 ∷ [];
}

lobby_deleted : handle_delete_server accepting 1 tables ≡ ok cleared
unfolding handle_delete_server delete_server delete_access_for_server delete_channels_for_server
    delete_backups_for_server delete_schedules_for_server release_server_ports
lobby_deleted = refl

handle_delete_server-Cleared_example :
    Cleared 1 cleared × (can (some ada) later "view" cleared.accesses ≡ false)
unfolding has_admin_perm contains
handle_delete_server-Cleared_example =
    handle_delete_server-Cleared accepting 1 tables cleared ada later "view" lobby_deleted refl refl
      refl refl refl refl (omega arith)

abbrev without_lobby : Tables
without_lobby = record tables { db = record tables.db { servers = arena ∷ [] } }

lobby_removed : cmd_rm "lobby" tables ≡ ok without_lobby
unfolding cmd_rm delete_server
lobby_removed = refl

cmd_rm-can_example : can (some ada) later "files" without_lobby.accesses ≡ true
unfolding access_has contains
cmd_rm-can_example =
    cmd_rm-can "lobby" tables without_lobby lobby later ada "files" refl lobby_removed refl refl

-- The tables once the heir has taken over.
abbrev inherited : Tables
inherited = record tables {
  db = record tables.db { servers = record arena { owner_id = 3; updated_at = 9 } ∷ lobby ∷ [] };
  users = heir ∷ [];
  accesses = [];
  sessions = [];
}

ada_deleted : delete_user 2 3 tables ≡ ok inherited
unfolding delete_user
ada_deleted = refl

delete_user-Gone_example :
    Gone 2 3 tables inherited × (can (some ada) lobby "view" inherited.accesses ≡ false)
unfolding has_admin_perm contains
delete_user-Gone_example =
    delete_user-Gone 2 3 tables inherited ada lobby "view" ada_deleted refl refl
      (Memᴰ.tail (Memᴰ.head refl))
