-- ===== src/Models/Backup.antt =====
-- Operations on a server's data: backups, restores and database imports
-- (internal/models/backup.go).
use quetzal.Prelude.{ℕ, String, Bool, Option, List, ◌==◌, ◌||◌}

pub data BackupDirection : Type 0 where
  dir_backup dir_restore dir_database_import : BackupDirection

pub data BackupPhase : Type 0 where
  pending running succeeded failed deleting : BackupPhase

-- Go compares the strings; the codes tell the constructors apart as the strings do.
abbrev pub direction_code : BackupDirection → ℕ
direction_code dir_backup = 0
direction_code dir_restore = 1
direction_code dir_database_import = 2

abbrev pub phase_code : BackupPhase → ℕ
phase_code pending = 0
phase_code running = 1
phase_code succeeded = 2
phase_code failed = 3
phase_code deleting = 4

abbrev pub is_direction : BackupDirection → BackupDirection → Bool
is_direction d e = direction_code d == direction_code e

abbrev pub is_phase : BackupPhase → BackupPhase → Bool
is_phase p q = phase_code p == phase_code q

-- Instants are numbers; a pointer that may be nil is an `Option`.
pub record Backup : Type 0 where
  pub id : ℕ
  pub created_at : ℕ
  pub completed_at : Option ℕ
  pub server_id : ℕ
  pub direction : BackupDirection
  pub phase : BackupPhase
  pub source_id : ℕ
  pub size_bytes : ℕ
  pub message : String
  pub job_name : String
  pub job_spec : String
  pub job_uid : String
  pub cluster_id : Option ℕ
  pub forgotten : Bool
  pub target : String
  pub other_target : Bool
  pub databases : List String
  pub with_databases : Bool
  pub ignored : String
  pub full : Bool
  pub database_id : ℕ
  pub path : String
  pub wipe : Bool

-- `phase IN (Pending, Running)`: the operation waits or runs.
abbrev pub is_active : BackupPhase → Bool
is_active p = is_phase p pending || is_phase p running

-- `phase IN (Pending, Running, Deleting)`.
abbrev pub is_unfinished : BackupPhase → Bool
is_unfinished p = is_active p || is_phase p deleting

-- `direction IN (restore, db-import)`: what needs the server down.
abbrev pub is_offline : BackupDirection → Bool
is_offline d = is_direction d dir_restore || is_direction d dir_database_import
