-- ===== src/Fs/Map.antt =====
-- `bmap` and `itrunc` of project3/fs.c: six direct blocks, and a single, a double and a triple
-- indirect block.
pub mod Stable
use ele3021_os.Common.{ℕ, zero, suc, ◌+◌, ◌-◌, ◌*◌, ◌/◌, ◌%◌, ltb, if◌then◌else◌, ◌==◌, update}
use ele3021_os.Fs.Block.{Block, get_word, get_entry, put_word, put_entry}
use ele3021_os.Fs.State.{Fs, Result, ok, panic, ◌>>=◌, write}
use ele3021_os.Fs.Alloc.{balloc, bfree}
use ele3021_os.Fs.Inode.{Inode, ndirect, iupdate}

-- NINDIRECT, NDINDIRECT, NTINDIRECT and MAXFILE
abbrev pub nindirect : ℕ
nindirect = 128

abbrev pub ndindirect : ℕ
ndindirect = 16384

abbrev pub ntindirect : ℕ
ntindirect = 2097152

abbrev pub maxfile : ℕ
maxfile = ndirect + nindirect + ndindirect + ntindirect

-- `if((addr = ip->addrs[i]) == 0) ip->addrs[i] = addr = balloc(ip->dev)`
unfoldable pub inode_entry : ℕ → Inode → Fs → Result (ℕ × Inode × Fs)
inode_entry i ip s =
    if ip.addrs i == 0
    then (do (addr, s') ← balloc s; ok (addr, record ip { addrs = update ip.addrs i addr }, s'))
    else ok (ip.addrs i, ip, s)

-- `if((addr = a[i]) == 0){ a[i] = addr = balloc(ip->dev); log_write(bp); }` in block `b`
unfoldable pub block_entry : ℕ → ℕ → Fs → Result (ℕ × Fs)
block_entry b i s =
    if get_entry (s.data' b) i == 0
    then (do (addr, s') ← balloc s; ok (addr, write b (put_entry (s'.data' b) i addr) s'))
    else ok (get_entry (s.data' b) i, s)

unfoldable pub bmap_single : ℕ → Inode → Fs → Result (ℕ × Inode × Fs)
unfolding inode_entry block_entry
bmap_single bn ip s = do
  (a, ip', s1) ← inode_entry ndirect ip s
  (addr, s2) ← block_entry a bn s1
  ok (addr, ip', s2)

unfoldable pub bmap_double : ℕ → Inode → Fs → Result (ℕ × Inode × Fs)
unfolding inode_entry block_entry
bmap_double bn ip s = do
  (d, ip', s1) ← inode_entry (ndirect + 1) ip s
  (a, s2) ← block_entry d (bn / nindirect) s1
  (addr, s3) ← block_entry a (bn % nindirect) s2
  ok (addr, ip', s3)

unfoldable pub bmap_triple : ℕ → Inode → Fs → Result (ℕ × Inode × Fs)
unfolding inode_entry block_entry
bmap_triple bn ip s = do
  (t, ip', s1) ← inode_entry (ndirect + 2) ip s
  (d, s2) ← block_entry t (bn / ndindirect) s1
  (a, s3) ← block_entry d (bn % ndindirect / nindirect) s2
  (addr, s4) ← block_entry a (bn % ndindirect % nindirect) s3
  ok (addr, ip', s4)

unfoldable pub bmap : Inode → ℕ → Fs → Result (ℕ × Inode × Fs)
unfolding bmap_single bmap_double bmap_triple
bmap ip bn s =
    if ltb bn ndirect
    then inode_entry bn ip s
    else if ltb (bn - ndirect) nindirect
    then bmap_single (bn - ndirect) ip s
    else if ltb (bn - ndirect - nindirect) ndindirect
    then bmap_double (bn - ndirect - nindirect) ip s
    else if ltb (bn - ndirect - nindirect - ndindirect) ntindirect
    then bmap_triple (bn - ndirect - nindirect - ndindirect) ip s
    else panic

-- `if(ip->addrs[i]){ bfree(ip->dev, ip->addrs[i]); ip->addrs[i] = 0; }` for `n` entries from `i` on
unfoldable pub free_direct : ℕ → ℕ → Inode → Fs → Result (Inode × Fs)
free_direct i zero ip s = ok (ip, s)
free_direct i (suc n) ip s = if ip.addrs i == 0 then free_direct (suc i) n ip s else (do
  s' ← bfree (ip.addrs i) s
  free_direct (suc i) n (record ip { addrs = update ip.addrs i 0 }) s')

-- the loop over the entries of the indirect block `b`: what `free` does to each that is not 0
unfoldable pub free_entries : (ℕ → Fs → Result Fs) → ℕ → ℕ → ℕ → Fs → Result Fs
free_entries free b j zero s = ok s
free_entries free b j (suc n) s =
    if get_entry (s.data' b) j == 0
    then free_entries free b (suc j) n s
    else (do s' ← free (get_entry (s.data' b) j) s; free_entries free b (suc j) n s')

-- the blocks below an indirect block, and then the block itself
unfoldable pub free_below : (ℕ → Fs → Result Fs) → ℕ → Fs → Result Fs
unfolding free_entries
free_below free b s = do s' ← free_entries free b 0 nindirect s; bfree b s'

unfoldable pub free_single : ℕ → Fs → Result Fs
unfolding free_below
free_single = free_below bfree

unfoldable pub free_double : ℕ → Fs → Result Fs
unfolding free_below
free_double = free_below free_single

unfoldable pub free_triple : ℕ → Fs → Result Fs
unfolding free_below
free_triple = free_below free_double

-- `if(ip->addrs[i]){ … ip->addrs[i] = 0; }` around one of these
unfoldable pub free_entry : (ℕ → Fs → Result Fs) → ℕ → Inode → Fs → Result (Inode × Fs)
free_entry free i ip s =
    if ip.addrs i == 0
    then ok (ip, s)
    else (do s' ← free (ip.addrs i) s; ok (record ip { addrs = update ip.addrs i 0 }, s'))

unfoldable pub itrunc : Inode → Fs → Result (Inode × Fs)
unfolding free_direct free_entry free_single free_double free_triple
itrunc ip s = do
  (ip1, s1) ← free_direct 0 ndirect ip s
  (ip2, s2) ← free_entry free_single ndirect ip1 s1
  (ip3, s3) ← free_entry free_double (ndirect + 1) ip2 s2
  (ip4, s4) ← free_entry free_triple (ndirect + 2) ip3 s3
  ok (record ip4 { size = 0 }, iupdate (record ip4 { size = 0 }) s4)
