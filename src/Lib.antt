-- ===== src/Lib.antt =====
-- A verification library for the operating-system projects of ELE3021. Each project is an xv6 kernel
-- for the x86 with a change of its own: project1 has a multi-level feedback queue scheduler, project2
-- threads and a process manager, project3 large files, symbolic links and a log that commits late.
-- Files that the projects leave as they are (pipe.c, string.c, ...) are modelled once.
--
-- The parts, and how they interact. The timer interrupt (project1/trap.c) counts ticks, makes the
-- running process yield, and every 100 ticks calls the boosting of priorities. The scheduler
-- (project1/proc.c) keeps the runnable processes in three array queues; system calls that sleep, wake,
-- fork, exit and wait change the process table and put woken processes back into the queues. A file
-- system call (project3/fs.c) changes blocks in buffers and hands them to the log (project3/log.c)
-- between begin_op and end_op; the log writes them to the disk so that a crash leaves all of a commit or
-- none of it. Pipes (pipe.c) and the memory functions (string.c) serve both.
--
-- Common      what the modules share: names of the libraries, Boolean tests on the native numbers,
--             lists with out-of-range reads and writes as in C, tables as functions, and C's int.
-- Mlfq        project1/proc.c, proc.h and the timer in trap.c. Queue: struct queue with enqueue,
--             dequeue, remove and insertqueue, on the array (Queue.Arrays: its loops); Queue.Refine:
--             these as operations on a sequence. State: struct proc and ptable as the records Proc and Kernel. Sleep: sched,
--             yield, sleep, wakeup, kill. Life: allocproc, userinit, fork, exit, wait. Lock: getLevel,
--             setPriority, schedulerLock, schedulerUnlock. Schedule: mlfqscheduler up to its swtch;
--             Schedule.Pick: its choice and its accounting. Queued: the queues against the process
--             table (Count, Waking, Leaving, Taking, Round, Boosting, Runs). Boost: priorityboosting; Boost.Contents: the
--             queues behind it. Timer: the timer case and the end of trap.
-- Threads     project2/proc.c and proc.h. State: struct proc and ptable, wakeup1 and sleep, the loops over the
--             table, and the sizes that allocuvm and deallocuvm return. Process: allocproc, userinit,
--             growproc, fork, cleanthread, cleanforexec, exit, wait, kill, scheduler, yield. Thread:
--             thread_create (in the parts between which other calls may come: share, over_limit,
--             grow_stack, set_stack), thread_exit, thread_join, setmemorylimit, showprocs. Loops: what a loop over the
--             table finds and changes. Exit (Killing, Passing, Outcome): exit. Memory: growproc. Join:
--             thread_exit and thread_join. Limit (Keeping, Setting, Creating, Runs): the memory limits.
-- Log         project3/log.c over a disk that stops after `budget` block writes: initlog, recovery,
--             begin_op, end_op, write_log, commit, log_write, sync. Recovery: what a crash at any
--             write leaves (Contents, Install, Commit, Crash). Space: log_write. Reserve: the space that
--             begin_op keeps for operations. Sync: the parts of sync between other calls.
-- Fs          project3/fs.c over blocks of bytes. Block: values in a block, and bits of a byte. State: the
--             super block and the buffers. Alloc: bzero, balloc, bfree (Search, Taking, Freeing). Inode:
--             iupdate and ilock (Image: the image in a block). Map: bmap with its three indirect blocks,
--             and itrunc (Stable: bmap as a walk over a tree). Content: stati, readi, writei (Read). Path:
--             skipelem. Cache: iget, idup, iput and ialloc (Counts, Runs, Allocating). Directory: dirlookup and
--             dirlink (Finding). Lookup: namex, namei, nameiparent (Enough). CacheTests: these at a concrete cache.
-- Files       project3/file.c and sysfile.c. State: the file table and the process. File: filealloc, filedup,
--             fileclose, filestat, fileread, filewrite (Counts, Rounds). Descriptor: argfd, fdalloc, sys_dup, sys_close,
--             sys_fstat, sys_read, sys_write, sys_pipe. Create: create, sys_slink, sys_mkdir, sys_mknod,
--             sys_chdir. Open: sys_open, sys_lsopen. Link: sys_link, isdirempty, sys_unlink. Balance (Rules,
--             Creating, Linking, Opening, Calls): the log operations around these calls.
-- Pipe        project1/pipe.c: pipealloc, pipeclose, pipewrite, piperead (Fifo, Reading).
-- Kalloc      project1/kalloc.c: kfree, kalloc and freerange (Runs).
-- Strings     project1/string.c: memset, memcmp, memmove, memcpy, strncmp, strncpy, safestrcpy, strlen
--             (Copy, Compare).
-- Each part has a module Tests with runs at concrete states.
--
-- State is passed explicitly; a panic is a result of its own. A section that runs under one lock is
-- one step, so the locks themselves are no state; a function that sleeps is two functions, up to the
-- sleep and behind it, or a result that says that the caller sleeps. A pointer to an object of a table
-- is its index there, a pointer that may be null is an option. The threads of a process are entries of
-- the table like processes, with the index of their main thread. Calls into parts that are not
-- modelled with a function are recorded with their arguments, a null pointer included, and the callee's
-- own panic is not the caller's result. thread_create holds no lock between its parts: as one
-- definition it is a call that no other interrupts. What other parts return to a function
-- (pages of kalloc, page tables, devices) is an argument of the definitions.
--
-- Bounds and fuel. Counters of 32 bits keep their wrap-around where the code lets them wrap: the
-- counters of a pipe, and `off + n` in readi and writei. A loop over a table or an array recurses on
-- the entries that are left. Loops on fuel: balloc visits size / BPB + 1 bitmap blocks, which covers
-- the disk; a round of readi or writei moves a byte at least, so the number of bytes is enough; a
-- round of priorityboosting never lengthens the queue it runs over; strlen gets its fuel as an
-- argument and finds a NUL that stands within it. Recovery needs as many writes as the log has blocks,
-- and two for the header. The loop of sys_open over symbolic links has no bound, so its fuel is an
-- argument, and a call that uses it up is still in its loop. filewrite writes a byte in each round at
-- least. dirlookup and dirlink read an entry of 16 bytes in each round, and namex takes a character
-- off its path, so that the size and the length are enough. The memory of string.c does not wrap
-- around the address space.
--
-- Not modelled: the drivers, start-up code and page tables (they are hardware access), the user
-- programs, the system calls' fetching of arguments, exec of project2, and the tools that build the
-- disk image.
pub mod Common
pub mod Files
pub mod Fs
pub mod Kalloc
pub mod Log
pub mod Mlfq
pub mod Pipe
pub mod Strings
pub mod Threads
