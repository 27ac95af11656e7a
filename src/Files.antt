-- ===== src/Files.antt =====
-- Open files and the system calls on files of project3: file.c and sysfile.c.
pub mod State
pub mod File
pub mod Descriptor
pub mod Create
pub mod Open
pub mod Link
pub mod Balance
mod Tests
pub mod Counts
pub mod Rounds
