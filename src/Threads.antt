-- ===== src/Threads.antt =====
-- project2: processes that share their memory as threads, of proc.c.
pub mod State
pub mod Loops
pub mod Exit
pub mod Join
pub mod Limit
pub mod Memory
pub mod Process
pub mod Thread
mod Tests
