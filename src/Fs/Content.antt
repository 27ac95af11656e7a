-- ===== src/Fs/Content.antt =====
-- `stati`, `readi` and `writei` of project3/fs.c. A result is -1 (`none`), or the bytes that were
-- read, or the number of bytes that were written. The table
-- `devsw` is an argument. A negative `major` is a 16-bit pattern of 2^15 or more, beyond NDEV too.
pub mod Read
use ele3021_os.Common.{
  ℕ, zero, suc, ◌+◌, ◌-◌, ◌*◌, ◌/◌, ◌%◌, ◌^◌, min, List, [], ◌∷◌, ◌++◌, Bool, ◌||◌, ◌&&◌, Option,
  none, some, ltb, leb, if◌then◌else◌, ◌==◌, update, get_or,
}
use ele3021_os.Fs.Block.{Block, bsize}
use ele3021_os.Fs.State.{Fs, Result, ok, panic, ◌>>=◌, write}
use ele3021_os.Fs.Inode.{Inode, iupdate}
use ele3021_os.Fs.Map.{bmap, maxfile}

-- T_DEV and NDEV
abbrev pub t_dev : ℕ
t_dev = 3

abbrev pub ndev : ℕ
ndev = 10

-- `struct stat`, less the device
pub record Stat : Type 0 where
  pub ino : ℕ
  pub type' : ℕ
  pub nlink : ℕ
  pub size : ℕ

unfoldable pub stati : Inode → Stat
stati ip = record { ino = ip.inum; type' = ip.type'; nlink = ip.nlink; size = ip.size }

-- `n` bytes of a block from byte `o` on
unfoldable pub bytes_at : Block → ℕ → ℕ → List ℕ
bytes_at b o zero = []
bytes_at b o (suc n) = b o ∷ bytes_at b (suc o) n

-- how much of the block at `off` is read or written in one round
abbrev pub chunk : ℕ → ℕ → ℕ
chunk left off = min left (bsize - off % bsize)

-- the loop of `readi`, with `left` bytes to go: each round reads one byte at least, so `left` rounds
-- are enough
unfoldable pub read_loop : ℕ → ℕ → ℕ → Inode → Fs → Result (List ℕ × Inode × Fs)
read_loop zero off left ip s = ok ([], ip, s)
read_loop (suc fuel) off left ip s =
    let m = chunk left off in
    let round = (do
      (addr, ip1, s1) ← bmap ip (off / bsize) s
      (rest, ip2, s2) ← read_loop fuel (off + m) (left - m) ip1 s1
      ok (bytes_at (s1.data' addr) (off % bsize) m ++ rest, ip2, s2)) in
    if left == 0 then ok ([], ip, s) else round

-- `memmove(bp->data + o, src, m)`
unfoldable pub put_bytes : Block → ℕ → List ℕ → Block
put_bytes b o [] = b
put_bytes b o (x ∷ xs) = put_bytes (update b o x) (suc o) xs

unfoldable pub take_bytes : ℕ → List ℕ → List ℕ
take_bytes zero xs = []
take_bytes (suc n) [] = []
take_bytes (suc n) (x ∷ xs) = x ∷ take_bytes n xs

unfoldable pub drop_bytes : ℕ → List ℕ → List ℕ
drop_bytes zero xs = xs
drop_bytes (suc n) [] = []
drop_bytes (suc n) (x ∷ xs) = drop_bytes n xs

module _ (device : ℕ → Option (Inode → ℕ → Option (List ℕ))) where
  unfoldable pub readi : Inode → ℕ → ℕ → Fs → Result (Option (List ℕ) × Inode × Fs)
  unfolding read_loop
  readi ip off n s =
      if ip.type' == t_dev
      then (if leb ndev ip.major
          then ok (none, ip, s)
          else elim (device ip.major) [ none ↦ ok (none, ip, s) | some f ↦ ok (f ip n, ip, s) ])
      else if ltb ip.size off || ltb ((off + n) % 2 ^ 32) off
      then ok (none, ip, s)
      else (let n' = if ltb ip.size (off + n) then ip.size - off else n in
          do (bytes, ip', s') ← read_loop n' off n' ip s; ok (some bytes, ip', s'))

-- the loop of `writei`, which also moves `off`
unfoldable pub write_loop : ℕ → ℕ → ℕ → List ℕ → Inode → Fs → Result (ℕ × Inode × Fs)
unfolding put_bytes take_bytes drop_bytes
write_loop zero off left src ip s = ok (off, ip, s)
write_loop (suc fuel) off left src ip s =
    let m = chunk left off in
    let round = (do
      (addr, ip1, s1) ← bmap ip (off / bsize) s
      write_loop fuel (off + m) (left - m) (drop_bytes m src) ip1
          (write addr (put_bytes (s1.data' addr) (off % bsize) (take_bytes m src)) s1)) in
    if left == 0 then ok (off, ip, s) else round

module _ (device : ℕ → Option (Inode → List ℕ → ℕ → Option ℕ)) where
  unfoldable pub writei : Inode → List ℕ → ℕ → ℕ → Fs → Result (Option ℕ × Inode × Fs)
  unfolding write_loop
  writei ip src off n s =
      if ip.type' == t_dev
      then (if leb ndev ip.major
          then ok (none, ip, s)
          else elim (device ip.major) [ none ↦ ok (none, ip, s) | some f ↦ ok (f ip src n, ip, s) ])
      else if ltb ip.size off || ltb ((off + n) % 2 ^ 32) off
      then ok (none, ip, s)
      else if ltb (maxfile * bsize) (off + n)
      then ok (none, ip, s)
      else do
        (off', ip1, s1) ← write_loop n off n src ip s
        let ip2 = record ip1 { size = off' }
        if ltb 0 n && ltb ip1.size off'
            then ok (some n, ip2, iupdate ip2 s1)
            else ok (some n, ip1, s1)
