-- ===== src/Files/Balance.antt =====
-- The operations of the log around the system calls of project3/sysfile.c.
pub mod Rules
pub mod Creating
pub mod Linking
pub mod Opening
pub mod Calls
