-- ===== src/Store.antt =====
-- The database behind the panel (internal/store): its tables and the transactions on them.
pub mod Db
pub mod Power
pub mod Servers
pub mod Removal
pub mod Bookkeeping
pub mod Teardown
pub mod Newest
pub mod Retention
pub mod Operations
pub mod Transfer
pub mod Rows
pub mod TransferSteps
pub mod TransferLaws
pub mod Interlock
pub mod Samples
mod Tests
mod RemovalTests
mod RetentionTests
