-- ===== src/Files/Tests.antt =====
-- The theorems on the system calls of project3/sysfile.c at a concrete state.
use ele3021_os.Common.{
  ℕ, ◌≡◌, refl, ◌≢◌, ◌<◌, ◌⊎◌, update, List, [], true, false, Option, none, some, ◌==◌,
  if◌then◌else◌,
}
use ele3021_os.Fs.State.{ok, panic}
use ele3021_os.Fs.Inode.{Inode}
use ele3021_os.Fs.Cache.{iput}
use ele3021_os.Files.State.{nfile, fd_none, fd_inode, World, in_cache}
use ele3021_os.Files.File.{fileclose, close_last, filealloc, free_file, take_free, filedup}
use ele3021_os.Files.Descriptor.{argfd, sys_close}
use ele3021_os.Files.Counts.{Run, Run-filealloc}
use ele3021_os.Files.Balance.Calls.{Syscall, Syscall-ops}

abbrev no_read : ℕ → Option (Inode → ℕ → Option (List ℕ))
no_read major = none

abbrev no_write : ℕ → Option (Inode → List ℕ → ℕ → Option ℕ)
no_write major = none

-- Descriptor 3 is file 5, which is the inode at 2.
abbrev world : World
world = record {
  file = λ f. record {
    type' = if f == 5 then fd_inode else fd_none;
    ref = if f == 5 then 1 else 0;
    readable = true;
    writable = true;
    pipe = 0;
    ip = 2;
    off = 0;
  };
  pipe = λ p. record { data' = λ i. 0; nread = 0; nwrite = 0; readopen = false; writeopen = false };
  icache = record {
    inode = λ p. record {
      inum = p;
      ref = if p == 2 then 1 else 0;
      valid = true;
      type' = 2;
      major = 0;
      minor = 0;
      nlink = 1;
      size = 0;
      addrs = λ i. 0;
    };
    fs = record {
      sb = record { size = 1000; ninodes = 200; inodestart = 32; bmapstart = 58 };
      data' = λ b j. 0;
      logged = [];
    };
  };
  link_path = λ p. [];
  ofile = λ fd. if fd == 3 then some 5 else none;
  cwd = 0;
  ops = 0;
}

abbrev closed : World
closed = elim (sys_close 3 world) [ ok x ↦ x.1 | panic ↦ world ]

close_run : sys_close 3 world ≡ ok (true, closed)
unfolding sys_close argfd fileclose close_last in_cache iput
close_run = refl

Syscall-ops_example : closed.ops ≡ 0
Syscall-ops_example = Syscall-ops false no_read no_write (Syscall.closes 3 true closed close_run)

-- File 0 was allocated, duplicated and closed once.
abbrev no_files : World
no_files = record world { file = λ f. record (world.file f) { ref = 0; type' = fd_none } }

abbrev one_file : World
one_file = (filealloc no_files).1

alloc_run : filealloc no_files ≡ (some 0, one_file)
unfolding filealloc free_file take_free
alloc_run = refl

abbrev two_refs : World
two_refs = elim (filedup 0 one_file) [ ok w ↦ w | panic ↦ one_file ]

dup_run : filedup 0 one_file ≡ ok two_refs
unfolding filedup filealloc free_file take_free
dup_run = refl

abbrev one_ref : World
one_ref = elim (fileclose 0 two_refs) [ ok w ↦ w | panic ↦ two_refs ]

close_one : fileclose 0 two_refs ≡ ok one_ref
unfolding fileclose filedup filealloc free_file take_free
close_one = refl

abbrev held : ℕ → ℕ
held = update (update (update (λ f. 0) 0 1) 0 2) 0 1

Run-filealloc_example :
    ((f : ℕ) → (one_ref.file f).ref ≡ held f)
    × (((f : ℕ) × (w' : World) × (filealloc one_ref ≡ (some f, w')) × (held f ≡ 0))
        ⊎ ((filealloc one_ref ≡ (none, one_ref)) × ((f : ℕ) → f < nfile → held f ≢ 0)))
Run-filealloc_example = Run-filealloc (
    Run.closes
      (Run.dups (Run.allocs (Run.start no_files (λ f. refl)) 0 one_file alloc_run) 0 two_refs
        dup_run)
      0 one_ref close_one)
