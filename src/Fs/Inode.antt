-- ===== src/Fs/Inode.antt =====
-- Inodes of project3/fs.c: the copy in memory, and its image in an inode block.
pub mod Image
use ele3021_os.Common.{
  ℕ, zero, suc, ◌+◌, ◌*◌, ◌/◌, ◌%◌, Bool, true, false, ltb, if◌then◌else◌, ◌==◌, update,
}
use ele3021_os.Fs.Block.{Block, get_short, put_short, get_word, put_word}
use ele3021_os.Fs.State.{Fs, Result, ok, panic, write}

-- `struct inode`, less its lock and `path`; a `short` is its 16-bit pattern
pub record Inode : Type 0 where
  pub inum : ℕ
  pub ref : ℕ
  pub valid : Bool
  pub type' : ℕ
  pub major : ℕ
  pub minor : ℕ
  pub nlink : ℕ
  pub size : ℕ
  pub addrs : ℕ → ℕ

-- NDIRECT, and the number of all entries of `addrs`
abbrev pub ndirect : ℕ
ndirect = 6

abbrev pub naddrs : ℕ
naddrs = 9

-- IPB and `sizeof(struct dinode)`
abbrev pub ipb : ℕ
ipb = 8

abbrev pub dinode_size : ℕ
dinode_size = 64

-- IBLOCK, and where the inode stands in its block
abbrev pub iblock : ℕ → Fs → ℕ
iblock inum s = inum / ipb + s.sb.inodestart

abbrev pub dinode_at : ℕ → ℕ
dinode_at inum = inum % ipb * dinode_size

-- `memmove(dip->addrs, ip->addrs, sizeof(ip->addrs))`, the first `n` entries
unfoldable pub put_addrs : (ℕ → ℕ) → ℕ → ℕ → Block → Block
put_addrs addrs o zero b = b
put_addrs addrs o (suc n) b = put_word (put_addrs addrs o n b) (o + 28 + 4 * n) (addrs n)

-- the image of an inode at byte `o` of its block
unfoldable pub put_dinode : Inode → ℕ → Block → Block
put_dinode ip o b =
    let b1 = put_short (put_short b o ip.type') (o + 2) ip.major in
    let b2 = put_short (put_short b1 (o + 4) ip.minor) (o + 6) ip.nlink in
    put_addrs ip.addrs o naddrs (put_word b2 (o + 8) ip.size)

unfoldable pub iupdate : Inode → Fs → Fs
iupdate ip s = let b = iblock ip.inum s in write b (put_dinode ip (dinode_at ip.inum) (s.data' b)) s

-- the fields that `ilock` reads from the image at byte `o`
unfoldable pub get_dinode : Inode → ℕ → Block → Inode
get_dinode ip o b = record ip {
  type' = get_short b o;
  major = get_short b (o + 2);
  minor = get_short b (o + 4);
  nlink = get_short b (o + 6);
  size = get_word b (o + 8);
  addrs = λ i. if ltb i naddrs then get_word b (o + 28 + 4 * i) else ip.addrs i;
  valid = true;
}

-- `ilock`, apart from the sleep lock
unfoldable pub ilock : Inode → Fs → Result Inode
ilock ip s =
    if ip.ref == 0
    then panic
    else if ip.valid
    then ok ip
    else (let ip' = get_dinode ip (dinode_at ip.inum) (s.data' (iblock ip.inum s)) in
        if ip'.type' == 0 then panic else ok ip')
