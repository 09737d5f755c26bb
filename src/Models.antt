-- ===== src/Models.antt =====
-- The panel's data (internal/models): servers, operations on their data, schedules and accounts.
pub mod Server
pub mod Backup
pub mod Schedule
pub mod User
pub mod Samples
pub mod Credentials
