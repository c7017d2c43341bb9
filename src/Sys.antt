-- ===== src/Sys.antt =====
-- kernel/sys.c: the system calls on the process itself, its group and limits, the host and the time.
-- Each part has a module; identities and groups are in `Ids` and `Groups`.
pub mod Process
pub mod Limits
pub mod Host
pub mod Time
mod Tests
