-- ===== src/Store/Servers.antt =====
-- The creation of a server, the writes to single columns of its row and its reinstallation
-- (internal/store/store.go). The check of a quota is an argument, as in the source.
use quetzal.Prelude.{
  ℕ, String, Bool, false, not, ◌&&◌, Option, none, some, List, [], ◌∷◌, ◌+◌, ◌==◌, if◌then◌else◌,
  map, select, any, Result, Error, ok, refuse_if, or_error, ◌>>=◌, ◌>>◌, str_eq,
}
use quetzal.Models.Server.{Server, Resources, Status, Expose, PortSpec}
use quetzal.Models.User.{User}
use quetzal.Store.Db.{Db, find_server, update_server}

-- Creation.

-- `INSERT INTO servers`: the database gives the row its primary key, and the index on `slug`
-- refuses a second row with the same one.
unfoldable pub create_server : ℕ → Server → Db → Result Db
create_server new_id srv db = do
  refuse_if (any (λ s. str_eq s.slug srv.slug) db.servers) Error.duplicate
  ok (record db {
    servers = record srv { id = new_id; created_at = db.now; updated_at = db.now } ∷ db.servers;
  })

abbrev pub owned_by : ℕ → Server → Bool
owned_by owner s = s.owner_id == owner

-- The account's row is locked; the rows that it owns are read.
unfoldable pub lock_owner_servers : ℕ → List User → Db → Result (List Server)
lock_owner_servers owner users db = do
  refuse_if (not (any (λ u. u.id == owner) users)) Error.not_found
  ok (select (owned_by owner) db.servers)

abbrev pub Check : Type 0
Check = List Server → Result (Unit {0})

unfoldable pub create_server_checked : Option Check → List User → ℕ → Server → Db → Result Db
unfolding create_server lock_owner_servers
create_server_checked none users new_id srv db = create_server new_id srv db
create_server_checked (some check) users new_id srv db = do
  owned ← lock_owner_servers srv.owner_id users db
  check owned
  create_server new_id srv db

-- Writes to single columns.

unfoldable pub update_server_env : ℕ → List (String × String) → String → Db → Db
update_server_env id env secret_enc =
    update_server id (λ s. record s { env = env; secret_env_enc = secret_enc })

unfoldable pub update_server_image : ℕ → String → Db → Db
update_server_image id image = update_server id (λ s. record s { image = image })

unfoldable pub update_server_startup : ℕ → String → Db → Db
update_server_startup id startup = update_server id (λ s. record s { startup = startup })

unfoldable pub update_server_resources : ℕ → Resources → Db → Db
update_server_resources id r = update_server id (λ s. record s { resources = r })

-- `check` sees the owner's other servers.
unfoldable pub update_server_resources_checked :
    ℕ → ℕ → Resources → Check → List User → Db → Result Db
unfolding lock_owner_servers update_server_resources
update_server_resources_checked id owner r check users db = do
  owned ← lock_owner_servers owner users db
  check (select (λ o. not (o.id == id)) owned)
  ok (update_server_resources id r db)

unfoldable pub update_server_status : ℕ → Status → Db → Db
update_server_status id st = update_server id (λ s. record s { status = st })

unfoldable pub update_server_name : ℕ → String → Db → Db
update_server_name id name = update_server id (λ s. record s { display_name = name })

unfoldable pub update_server_networking : ℕ → Expose → List PortSpec → Db → Db
update_server_networking id expose ports =
    update_server id (λ s. record s { expose = expose; ports = ports })

abbrev pub repointed : ℕ → ℕ → PortSpec → PortSpec
repointed from to p = if p.node_port == from then record p { node_port = to } else p

unfoldable pub repoint_server_node_port : ℕ → ℕ → ℕ → Db → Result Db
repoint_server_node_port server from to db = do
  srv ← or_error (find_server server db.servers) Error.record_not_found
  if any (λ p. p.node_port == from) srv.ports
      then ok
          (update_server server (λ s. record s { ports = map (repointed from to) srv.ports }) db)
      else ok db

-- Reinstallation.

unfoldable pub clear_install_wipe : ℕ → Db → Db
clear_install_wipe id = update_server id (λ s. record s { install_wipe = false; install_keep = [] })

pub record ServerReinstall : Type 0 where
  pub template_id : ℕ
  pub template_version : ℕ
  pub image : String
  pub env : List (String × String)
  pub secret_env_enc : String
  pub install : Bool
  pub wipe : Bool
  pub keep : List String
  pub drop_startup : Bool

-- `keep` counts only where the volume is wiped.
abbrev pub kept_paths : ServerReinstall → List String
kept_paths r = if r.install && r.wipe then r.keep else []

abbrev pub reinstalled : ServerReinstall → Server → Server
reinstalled r s = record s {
  template_id = r.template_id;
  template_version = r.template_version;
  image = r.image;
  env = r.env;
  secret_env_enc = r.secret_env_enc;
  install_wipe = r.install && r.wipe;
  install_keep = kept_paths r;
}

abbrev pub remembering : List String → Server → Server
remembering [] s = s
remembering (k ∷ ks) s = record s { reinstall_keep = k ∷ ks }

-- The last write is an `UpdateColumn`, which leaves `updated_at` as it is.
unfoldable pub reinstall_server : ℕ → ServerReinstall → Db → Db
reinstall_server id r = update_server id (λ s.
    let one = remembering (kept_paths r) (reinstalled r s) in
    let two = if r.drop_startup then record one { startup = "" } else one in
    if r.install then record two { install_generation = two.install_generation + 1 } else two)
