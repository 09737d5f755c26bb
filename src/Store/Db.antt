-- ===== src/Store/Db.antt =====
-- The tables of servers and of operations, and the statements on them that the transactions of
-- internal/store share (store.go). A transaction takes the tables before it and gives the tables
-- after it, or the error with which it is rolled back. The database's own failures are left out.
use quetzal.Prelude.{
  ℕ, Bool, ◌&&◌, Option, none, some, List, ◌∷◌, ◌==◌, if◌then◌else◌, first, update, Result, Error,
  or_error, ltb,
}
use quetzal.Models.Server.{Server}
use quetzal.Models.Backup.{Backup, is_active}

-- `now` is the clock's reading, which gorm writes to `updated_at` with each update of a row.
pub record Db : Type 0 where
  pub now : ℕ
  pub servers : List Server
  pub backups : List Backup

abbrev pub with_id : ℕ → Server → Bool
with_id id s = s.id == id

abbrev pub find_server : ℕ → List Server → Option Server
find_server id = first (with_id id)

-- `lockServer`: the server's row, locked until the transaction ends.
unfoldable pub lock_server : ℕ → Db → Result Server
lock_server id db = or_error (find_server id db.servers) Error.not_found

abbrev pub stamped : ℕ → (Server → Server) → Server → Server
stamped now f s = record (f s) { updated_at = now }

-- `UPDATE servers SET ... WHERE id = ?`.
abbrev pub update_server : ℕ → (Server → Server) → Db → Db
update_server id f db = record db { servers = update (with_id id) (stamped db.now f) db.servers }

abbrev pub update_backups : (Backup → Bool) → (Backup → Backup) → Db → Db
update_backups p f db = record db { backups = update p f db.backups }

-- `INSERT INTO backups`: the database gives the row its primary key.
abbrev pub insert_backup : ℕ → Backup → Db → Db
insert_backup id b db = record db { backups = record b { id = id } ∷ db.backups }

-- `server_id = ? AND phase IN (Pending, Running)`.
abbrev pub active_on : ℕ → Backup → Bool
active_on id b = (b.server_id == id) && is_active b.phase

abbrev pub opt_eq : Option ℕ → Option ℕ → Bool
opt_eq none none = Bool.true
opt_eq none (some b) = Bool.false
opt_eq (some a) none = Bool.false
opt_eq (some a) (some b) = a == b

-- `laterActivity`: the later of the recorded activity and `when`.
unfoldable pub later_activity : ℕ → Option ℕ → Option ℕ
later_activity when none = some when
later_activity when (some t) = if ltb t when then some when else some t
