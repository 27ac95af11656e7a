-- ===== src/Fs/Cache.antt =====
-- The inode cache of project3/fs.c: `iget`, `idup`, `ilock`, `iput`, `iunlockput` and `ialloc`. An inode
-- is its index in `icache.inode`. The sleep lock of an inode is no state, so `iunlock` changes nothing.
pub mod Counts
pub mod Runs
pub mod Allocating
use ele3021_os.Common.{
  ℕ, zero, suc, ◌+◌, ◌-◌, ◌*◌, ◌/◌, ◌%◌, Bool, true, false, ◌&&◌, Option, none, some, is_some, not,
  ltb, leb, if◌then◌else◌, ◌==◌, update,
}
use ele3021_os.Fs.Block.{Block, get_short, put_short}
use ele3021_os.Fs.State.{Fs, Result, ok, panic, ◌>>=◌, write}
use ele3021_os.Fs.Inode.{Inode, iblock, dinode_at, dinode_size, iupdate, ilock}
use ele3021_os.Fs.Map.{itrunc}

-- NINODE
abbrev pub ninode : ℕ
ninode = 50

-- `icache`, and the file system below it
pub record Icache : Type 0 where
  pub inode : ℕ → Inode
  pub fs : Fs

abbrev pub set_inode : Icache → ℕ → Inode → Icache
set_inode c p ip = record c { inode = update c.inode p ip }

-- where the loop of `iget` ends: at the inode, or with the first empty entry, or with none
pub data Place : Type 0 where
  cached : ℕ → Place
  vacant : ℕ → Place
  full : Place

abbrev pub place_of : Option ℕ → Place
place_of none = full
place_of (some p) = vacant p

-- `if(empty == 0 && ip->ref == 0) empty = ip`
abbrev pub remember : Option ℕ → ℕ → ℕ → Option ℕ
remember empty p ref = if not (is_some empty) && (ref == 0) then some p else empty

-- the loop from entry `p` on, with `n` entries left
unfoldable pub search_cache : (ℕ → Inode) → ℕ → Option ℕ → ℕ → ℕ → Place
search_cache inodes inum empty p zero = place_of empty
search_cache inodes inum empty p (suc n) =
    let ip = inodes p in
    let rest = search_cache inodes inum (remember empty p ip.ref) (suc p) n in
    if ltb 0 ip.ref && (ip.inum == inum) then cached p else rest

-- what `iget` does with the place it found
unfoldable pub take_place : ℕ → Icache → Place → Result (ℕ × Icache)
take_place inum c (cached p) =
    ok (p, set_inode c p (record (c.inode p) { ref = (c.inode p).ref + 1 }))
take_place inum c (vacant p) =
    ok (p, set_inode c p (record (c.inode p) { inum = inum; ref = 1; valid = false }))
take_place inum c full = panic

unfoldable pub iget : ℕ → Icache → Result (ℕ × Icache)
unfolding take_place search_cache
iget inum c = take_place inum c (search_cache c.inode inum none 0 ninode)

unfoldable pub idup : ℕ → Icache → Icache
idup p c = set_inode c p (record (c.inode p) { ref = (c.inode p).ref + 1 })

-- `ilock` of the inode at `p`
unfoldable pub ilock_at : ℕ → Icache → Result Icache
ilock_at p c = do ip ← ilock (c.inode p) c.fs; ok (set_inode c p ip)

-- the part of `iput` that frees an inode without links
unfoldable pub drop_inode : ℕ → Icache → Result Icache
drop_inode p c = do
  (ip, s) ← itrunc (c.inode p) c.fs
  let ip' = record ip { type' = 0 }
  ok (record { inode = update c.inode p (record ip' { valid = false }); fs = iupdate ip' s })

-- `ip->ref--`; whoever calls `iput` holds a reference
abbrev pub release : ℕ → Icache → Icache
release p c = set_inode c p (record (c.inode p) { ref = (c.inode p).ref - 1 })

unfoldable pub iput : ℕ → Icache → Result Icache
iput p c =
    let ip = c.inode p in
    if ip.valid && (ip.nlink == 0) && (ip.ref == 1)
    then (do c' ← drop_inode p c; ok (release p c'))
    else ok (release p c)

unfoldable pub iunlockput : ℕ → Icache → Result Icache
iunlockput p c = iput p c

-- `memset(dip, 0, sizeof(*dip)); dip->type = type` for the image at byte `o`
unfoldable pub fresh_dinode : ℕ → ℕ → Block → Block
fresh_dinode type' o b =
    put_short (λ j. if leb o j && ltb j (o + dinode_size) then 0 else b j) o type'

-- the loop of `ialloc` from `inum` on, with `n` inodes left
unfoldable pub ialloc_from : ℕ → ℕ → ℕ → Icache → Result (ℕ × Icache)
ialloc_from type' inum zero c = panic
ialloc_from type' inum (suc n) c =
    let b = iblock inum c.fs in
    let rest = ialloc_from type' (suc inum) n c in
    if get_short (c.fs.data' b) (dinode_at inum) == 0
    then iget inum
        (record c { fs = write b (fresh_dinode type' (dinode_at inum) (c.fs.data' b)) c.fs })
    else rest

unfoldable pub ialloc : ℕ → Icache → Result (ℕ × Icache)
unfolding ialloc_from
ialloc type' c = ialloc_from type' 1 (c.fs.sb.ninodes - 1) c
