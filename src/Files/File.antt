-- ===== src/Files/File.antt =====
-- project3/file.c: `filealloc`, `filedup`, `fileclose`, `filestat`, `fileread` and `filewrite`. The table
-- `devsw` is an argument, and so is whether the process was killed, which a pipe asks for.
use ele3021_os.Common.{
  ℕ, zero, suc, ◌+◌, ◌-◌, ◌%◌, ◌^◌, min, List, length, drop, take, Bool, Option, none, some, ltb,
  if◌then◌else◌, ◌==◌, update,
}
use ele3021_os.Fs.State.{Fs, Result, ok, panic, ◌>>=◌}
use ele3021_os.Fs.Inode.{Inode}
use ele3021_os.Fs.Content.{Stat, stati, readi, writei}
use ele3021_os.Pipe.{
  Written, Read, read, read_failed, wrote, write_failed, pipeclose, piperead, pipewrite,
}
use ele3021_os.Files.State.{
  FileType, fd_none, fd_pipe, fd_inode, File, World, nfile, set_file, inode_of, begin_op, end_op,
  lock, put,
}

-- the first file that is not in use, from `f` on, with `n` files left
unfoldable pub free_file : (ℕ → File) → ℕ → ℕ → Option ℕ
free_file files f zero = none
free_file files f (suc n) =
    let rest = free_file files (suc f) n in if (files f).ref == 0 then some f else rest

-- `f->ref = 1` for the file that the loop found
unfoldable pub take_free : World → Option ℕ → Option ℕ × World
take_free w none = (none, w)
take_free w (some f) = (some f, set_file w f (record (w.file f) { ref = 1 }))

unfoldable pub filealloc : World → Option ℕ × World
filealloc w = take_free w (free_file w.file 0 nfile)

unfoldable pub filedup : ℕ → World → Result World
filedup f w =
    if (w.file f).ref == 0
    then panic
    else ok (set_file w f (record (w.file f) { ref = (w.file f).ref + 1 }))

-- the end of `fileclose` of the last reference, for the file as it was and its type
unfoldable pub close_last : FileType → File → World → Result World
close_last fd_none ff w = ok w
close_last fd_pipe ff w =
    ok (record w { pipe = update w.pipe ff.pipe ((pipeclose ff.writable (w.pipe ff.pipe)).0) })
close_last fd_inode ff w = do w1 ← put ff.ip (begin_op w); ok (end_op w1)

unfoldable pub fileclose : ℕ → World → Result World
fileclose f w =
    let ff = w.file f in
    let last = close_last ff.type' ff (set_file w f (record ff { ref = 0; type' = fd_none })) in
    if ff.ref == 0
    then panic
    else if ltb 1 ff.ref
    then ok (set_file w f (record ff { ref = ff.ref - 1 }))
    else last

-- none is the result -1
unfoldable pub stat_of : FileType → File → World → Result (Option Stat × World)
stat_of fd_inode f w = do w1 ← lock f.ip w; ok (some (stati (inode_of w1 f.ip)), w1)
stat_of fd_pipe f w = ok (none, w)
stat_of fd_none f w = ok (none, w)

unfoldable pub filestat : ℕ → World → Result (Option Stat × World)
filestat f w = stat_of (w.file f).type' (w.file f) w

-- a result of `readi` as one of a step of `piperead`
abbrev pub read_of : Option (List ℕ) → Read
read_of none = read_failed
read_of (some bytes) = read bytes

abbrev pub count_of : Option (List ℕ) → ℕ
count_of none = 0
count_of (some bytes) = length bytes

-- the inode and the file system after `readi` or `writei`
abbrev pub after_io : ℕ → Inode → Fs → World → World
after_io p ip s w = record w { icache = record { inode = update (w.icache.inode) p ip; fs = s } }

-- `f->off += n`
abbrev pub advance : ℕ → ℕ → World → World
advance f n w = set_file w f (record (w.file f) { off = ((w.file f).off + n) % 2 ^ 32 })

module _ (killed : Bool) (read_device : ℕ → Option (Inode → ℕ → Option (List ℕ))) where
  unfoldable pub read_type : FileType → ℕ → ℕ → World → Result (Read × World)
  read_type fd_none f n w = panic
  read_type fd_pipe f n w =
      let (r, p, wakeups) = piperead killed n (w.pipe (w.file f).pipe) in
      ok (r, record w { pipe = update w.pipe (w.file f).pipe p })
  read_type fd_inode f n w = do
    w1 ← lock (w.file f).ip w
    (r, ip, s) ← readi read_device (inode_of w1 (w.file f).ip) (w.file f).off n (w1.icache.fs)
    ok (read_of r, advance f (count_of r) (after_io (w.file f).ip ip s w1))

  unfoldable pub fileread : ℕ → ℕ → World → Result (Read × World)
  fileread f n w =
      if (w.file f).readable then read_type (w.file f).type' f n w else ok (read_failed, w)

-- the most bytes of one operation of the log
abbrev pub write_max : ℕ
write_max = 6656

module _ (killed : Bool) (write_device : ℕ → Option (Inode → List ℕ → ℕ → Option ℕ)) where
  -- The loop of `filewrite` over the bytes that are left: a round writes one at least, so as many
  -- rounds as bytes are enough.
  unfoldable pub write_rounds : ℕ → ℕ → List ℕ → World → Result (Written × World)
  write_rounds zero f src w = ok (wrote, w)
  write_rounds (suc fuel) f src w =
      let n = min (length src) write_max in
      let p = (w.file f).ip in
      let round = (do
        w1 ← lock p (begin_op w)
        (r, ip, s) ←
            writei write_device (inode_of w1 p) (take n src) (w1.file f).off n (w1.icache.fs)
        let w2 = end_op (after_io p ip s w1)
        elim r [
          | none ↦ ok (write_failed, w2)
          | some m ↦
              let rest = write_rounds fuel f (drop n src) (advance f m w2) in
              if m == n then rest else panic
        ]) in
      if length src == 0 then ok (wrote, w) else round

  unfoldable pub write_type : FileType → ℕ → List ℕ → World → Result (Written × World)
  write_type fd_none f src w = panic
  write_type fd_pipe f src w =
      let (r, p, wakeups) = pipewrite killed src (w.pipe (w.file f).pipe) in
      ok (r, record w { pipe = update w.pipe (w.file f).pipe p })
  write_type fd_inode f src w = write_rounds (length src) f src w

  unfoldable pub filewrite : ℕ → List ℕ → World → Result (Written × World)
  filewrite f src w =
      if (w.file f).writable then write_type (w.file f).type' f src w else ok (write_failed, w)
