-- ===== src/Store/Interlock.antt =====
-- The power interlock: what keeps a game from running on data that an operation is writing, and
-- the data of a server in transfer from being written by anything but the transfer.
pub mod Writes
pub mod Power
pub mod Operations
pub mod Transfer
pub mod Steps
pub mod Running
pub mod Restored
