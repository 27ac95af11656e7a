-- ===== src/Threads/Exit.antt =====
-- What `exit` of project2/proc.c leaves in the process table.
pub mod Killing
pub mod Passing
pub mod Outcome
