-- ===== src/Store/Bookkeeping.antt =====
-- The writes to rows of operations that no transaction guards (internal/store/store.go). An update
-- writes the phase that its caller holds, whatever the row's phase is by then.
use quetzal.Prelude.{ℕ, String, ◌&&◌, ◌==◌, delete, str_eq}
use quetzal.Models.Backup.{
  Backup, dir_backup, dir_database_import, succeeded, is_direction, is_phase,
}
use quetzal.Store.Db.{Db, update_backups}

unfoldable pub update_backup : Backup → Db → Db
update_backup b =
    update_backups (λ c. c.id == b.id)
      (λ c. record c {
        phase = b.phase;
        size_bytes = b.size_bytes;
        message = b.message;
        job_name = b.job_name;
        completed_at = b.completed_at;
        target = b.target;
      })

-- A target that is NULL reads as "".
unfoldable pub stamp_backup_targets : String → Db → Db
stamp_backup_targets target =
    update_backups
      (λ c.
        str_eq c.target "" && (is_direction c.direction dir_backup && is_phase c.phase succeeded))
      (λ c. record c { target = target })

unfoldable pub delete_database_imports : ℕ → Db → Db
delete_database_imports database db = record db {
  backups =
      delete (λ c. (c.database_id == database) && is_direction c.direction dir_database_import)
        db.backups;
}
