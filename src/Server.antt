-- ===== src/Server.antt =====
-- The CEServer program.
pub mod Handle
pub mod Driver
pub mod Process
pub mod Snapshot
pub mod Toolhelp
pub mod Query
pub mod Socket
pub mod Dispatch
mod Tests
