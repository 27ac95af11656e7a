-- ===== src/Files/State.antt =====
-- The state of project3/file.c and sysfile.c: the file table, the inode cache with the file system below
-- it, and of the calling process its descriptors, its directory and the operations of the log that it is in.
use ele3021_os.Common.{ℕ, ◌+◌, ◌-◌, ◌%◌, ◌^◌, List, Bool, Option, update}
use ele3021_os.Fs.State.{Result, ok, ◌>>=◌}
use ele3021_os.Fs.Inode.{Inode, iupdate}
use ele3021_os.Fs.Cache.{Icache, ilock_at, iput, iunlockput}
use ele3021_os.Pipe.{Pipe}

pub data FileType : Type 0 where
  fd_none : FileType
  fd_pipe : FileType
  fd_inode : FileType

-- `struct file`; the pipe and the inode are indices, which mean something for their types only
pub record File : Type 0 where
  pub type' : FileType
  pub ref : ℕ
  pub readable : Bool
  pub writable : Bool
  pub pipe : ℕ
  pub ip : ℕ
  pub off : ℕ

-- `link_path` is the field `path` of the inodes in the cache.
pub record World : Type 0 where
  pub file : ℕ → File
  pub pipe : ℕ → Pipe
  pub icache : Icache
  pub link_path : ℕ → List ℕ
  pub ofile : ℕ → Option ℕ
  pub cwd : ℕ
  pub ops : ℕ

-- NFILE and NOFILE
abbrev pub nfile : ℕ
nfile = 100

abbrev pub nofile : ℕ
nofile = 16

abbrev pub set_file : World → ℕ → File → World
set_file w f r = record w { file = update w.file f r }

abbrev pub inode_of : World → ℕ → Inode
inode_of w p = w.icache.inode p

-- an in-memory inode is changed
abbrev pub edit_inode : ℕ → Inode → World → World
edit_inode p ip w = record w { icache = record (w.icache) { inode = update (w.icache.inode) p ip } }

-- `iupdate` of the inode at `p`
abbrev pub update_inode : ℕ → World → World
update_inode p w = record w {
  icache = record (w.icache) { fs = iupdate (w.icache.inode p) (w.icache.fs) };
}

abbrev pub begin_op : World → World
begin_op w = record w { ops = w.ops + 1 }

abbrev pub end_op : World → World
end_op w = record w { ops = w.ops - 1 }

-- a function of the inode cache
unfoldable pub on_cache : {A : Type 0} → (Icache → Result (A × Icache)) → World → Result (A × World)
on_cache f w = do (a, c) ← f w.icache; ok (a, record w { icache = c })

unfoldable pub in_cache : (Icache → Result Icache) → World → Result World
in_cache f w = do c ← f w.icache; ok (record w { icache = c })

abbrev pub lock : ℕ → World → Result World
lock p w = in_cache (ilock_at p) w

abbrev pub put : ℕ → World → Result World
put p w = in_cache (iput p) w

abbrev pub unlock_put : ℕ → World → Result World
unlock_put p w = in_cache (iunlockput p) w

-- `nlink++` and `nlink--` of a `short`
abbrev pub more_links : Inode → Inode
more_links ip = record ip { nlink = (ip.nlink + 1) % 2 ^ 16 }

abbrev pub fewer_links : Inode → Inode
fewer_links ip = record ip { nlink = (ip.nlink + 65535) % 2 ^ 16 }
