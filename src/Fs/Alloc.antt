-- ===== src/Fs/Alloc.antt =====
-- The block allocator of project3/fs.c: `bzero`, `balloc` and `bfree`.
pub mod Search
pub mod Taking
pub mod Freeing
use ele3021_os.Common.{
  ℕ, zero, suc, ◌+◌, ◌*◌, ◌/◌, ◌%◌, ◌≡◌, Bool, Option, none, some, ltb, leb, if◌then◌else◌, update,
}
use ele3021_os.Fs.Block.{Block, bsize, test_bit, set_bit, clear_bit}
use ele3021_os.Fs.State.{Fs, Result, ok, panic, write}

-- BPB, the bits of a block
abbrev pub bpb : ℕ
bpb = 4096

-- BBLOCK
abbrev pub bblock : ℕ → Fs → ℕ
bblock b s = b / bpb + s.sb.bmapstart

unfoldable pub bzero : ℕ → Fs → Fs
bzero b s = write b (λ j. if ltb j bsize then 0 else s.data' b j) s

-- the inner loop: the first clear bit from `bi` on, in `n` rounds, of a block below the disk's size
unfoldable pub find_free : Block → ℕ → ℕ → ℕ → ℕ → Option ℕ
find_free bits b size bi zero = none
find_free bits b size bi (suc n) =
    let rest = find_free bits b size (suc bi) n in
    if leb size (b + bi) then none else if test_bit (bits (bi / 8)) (bi % 8) then rest else some bi

-- `bp->data[bi/8] |= m`
abbrev pub mark : ℕ → Block → Block
mark bi bits = update bits (bi / 8) (set_bit (bits (bi / 8)) (bi % 8))

unfoldable pub take_block : ℕ → ℕ → Fs → ℕ × Fs
unfolding bzero
take_block b bi s = (b + bi, bzero (b + bi) (write (bblock b s) (mark bi (s.data' (bblock b s))) s))

-- the outer loop from block `b` on, with `n` rounds left
unfoldable pub balloc_from : ℕ → ℕ → Fs → Result (ℕ × Fs)
balloc_from b zero s = panic
balloc_from b (suc n) s =
    let rest = balloc_from (b + bpb) n s in
    if leb s.sb.size b then panic else elim (find_free (s.data' (bblock b s)) b s.sb.size 0 bpb) [
      | none ↦ rest
      | some bi ↦ ok (take_block b bi s)
    ]

-- There are `size / BPB + 1` bitmap blocks at most.
unfoldable pub balloc : Fs → Result (ℕ × Fs)
unfolding balloc_from
balloc s = balloc_from 0 (s.sb.size / bpb + 1) s

unfoldable pub bfree : ℕ → Fs → Result Fs
bfree b s =
    let bi = b % bpb in
    let bits = s.data' (bblock b s) in
    if test_bit (bits (bi / 8)) (bi % 8)
    then ok (write (bblock b s) (update bits (bi / 8) (clear_bit (bits (bi / 8)) (bi % 8))) s)
    else panic
