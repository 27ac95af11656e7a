-- ===== src/Log.antt =====
-- project3/log.c: the redo log under the file system.
-- A block is its words; `cache` is what `bread` shows of each block, `disk` is what is on the disk.
-- `budget` is how many more blocks reach the disk before the power fails: after that a write is
-- lost, and only the disk survives. Each function is one step; locks are not part of the state.
pub mod Recovery
pub mod Space
pub mod Reserve
pub mod Sync
mod Tests
use ele3021_os.Common.{
  ℕ, zero, suc, ◌+◌, ◌-◌, ◌*◌, ◌≤◌, ◌<◌, ◌≡◌, ◌⊎◌, List, Bool, true, false, ◌||◌, Option, none,
  some, ◌==◌, ltb, leb, if◌then◌else◌, update,
}

abbrev pub Block : Type 0
Block = ℕ → ℕ

abbrev pub Disk : Type 0
Disk = ℕ → Block

-- `struct logheader`
pub record LogHeader : Type 0 where
  pub n : ℕ
  pub block : ℕ → ℕ

-- `struct log`, with the buffers and the disk below it
pub record Log : Type 0 where
  pub start : ℕ
  pub size : ℕ
  pub outstanding : ℕ
  pub committing : Bool
  pub lh : LogHeader
  pub cache : Disk
  pub dirty : ℕ → Bool
  pub disk : Disk
  pub budget : ℕ

-- MAXOPBLOCKS and LOGSIZE
abbrev pub maxopblocks : ℕ
maxopblocks = 30

abbrev pub logsize : ℕ
logsize = 90

-- A call panics, or it returns. `misuse` is `end_op` with no operation outstanding, where the count
-- would become -1.
pub data Result (A : Type 0) : Type 0 where
  ok : A → Result A
  panic : Result A
  misuse : Result A

-- `memmove` into the data of a buffer
unfoldable pub fill : ℕ → Block → Log → Log
fill b data' s = record s { cache = update s.cache b data' }

-- `bwrite`: the block goes to the disk, and is clean
unfoldable pub bwrite : ℕ → Log → Log
bwrite b s = if s.budget == 0 then record s { dirty = update s.dirty b false } else record s {
  dirty = update s.dirty b false;
  disk = update s.disk b (s.cache b);
  budget = s.budget - 1;
}

-- the rounds of `install_trans` from `tail` on
unfoldable pub install_from : ℕ → ℕ → Log → Log
unfolding fill bwrite
install_from tail zero s = s
install_from tail (suc n) s =
    let dst = s.lh.block tail in
    install_from (suc tail) n (bwrite dst (fill dst (s.cache (s.start + tail + 1)) s))

unfoldable pub install_trans : Log → Log
unfolding install_from
install_trans s = install_from 0 s.lh.n s

-- `log.lh.block[i] = lh->block[i]` for `i < n`
unfoldable pub copy_in : Block → ℕ → (ℕ → ℕ) → ℕ → ℕ
copy_in b zero block = block
copy_in b (suc n) block = update (copy_in b n block) n (b (n + 1))

-- The first word of the header block is `n`, the others are the block numbers.
unfoldable pub read_head : Log → Log
unfolding copy_in
read_head s =
    let b = s.cache s.start in
    record s { lh = record { n = b 0; block = copy_in b (b 0) s.lh.block } }

-- `hb->block[i] = log.lh.block[i]` for `i < n`
unfoldable pub copy_out : (ℕ → ℕ) → ℕ → Block → Block
copy_out block zero b = b
copy_out block (suc n) b = update (copy_out block n b) (suc n) (block n)

unfoldable pub write_head : Log → Log
unfolding copy_out fill bwrite
write_head s =
    bwrite s.start (fill s.start (copy_out s.lh.block s.lh.n (update (s.cache s.start) 0 s.lh.n)) s)

abbrev pub clear_head : Log → Log
clear_head s = record s { lh = record (s.lh) { n = 0 } }

unfoldable pub recover_from_log : Log → Log
unfolding read_head install_trans write_head
recover_from_log s = write_head (clear_head (install_trans (read_head s)))

-- `initlog` takes the place and the size of the log from the super block. (The header of 91 words
-- fits a block.)
unfoldable pub initlog : ℕ → ℕ → Log → Log
unfolding recover_from_log
initlog logstart nlog s = recover_from_log (record s { start = logstart; size = nlog })

-- The machine starts again from the disk, and will write `budget` blocks before the next failure.
abbrev pub reboot : ℕ → Log → Log
reboot budget s = record s {
  cache = s.disk;
  dirty = λ _. false;
  lh = record { n = 0; block = λ _. 0 };
  outstanding = 0;
  committing = false;
  budget = budget;
}

-- the rounds of `write_log` from `tail` on
unfoldable pub write_log_from : ℕ → ℕ → Log → Log
unfolding fill bwrite
write_log_from tail zero s = s
write_log_from tail (suc n) s =
    let to = s.start + tail + 1 in
    write_log_from (suc tail) n (bwrite to (fill to (s.cache (s.lh.block tail)) s))

unfoldable pub write_log : Log → Log
unfolding write_log_from
write_log s = write_log_from 0 s.lh.n s

unfoldable pub commit : Log → Log
commit s =
    if ltb 0 s.lh.n then write_head (clear_head (install_trans (write_head (write_log s)))) else s

-- None where the caller sleeps until it is woken, and then tries again.
unfoldable pub begin_op : Log → Option Log
begin_op s =
    if s.committing
    then none
    else if ltb logsize (s.lh.n + (s.outstanding + 1) * maxopblocks)
    then none
    else some (record s { outstanding = s.outstanding + 1 })

-- `sync` takes the lock before and after `commit`, so other calls may run between its three parts.
abbrev pub sync_begin : Log → Log
sync_begin s = record s { committing = true }

abbrev pub sync_end : Log → Log
sync_end s = record s { committing = false }

-- the result is the number of blocks in the log before
unfoldable pub sync : Log → ℕ × Log
sync s = (s.lh.n, sync_end (commit (sync_begin s)))

unfoldable pub end_op : Log → Result Log
end_op s =
    if s.outstanding == 0
    then misuse
    else (let s' = record s { outstanding = s.outstanding - 1 } in
        if s.committing
        then panic
        else if ltb 0 s'.outstanding
        then ok s'
        else if ltb logsize (s.lh.n + maxopblocks)
        then ok (sync s').1
        else ok s')

-- the first index from `i` on, in `n` rounds, that holds the block
unfoldable pub find_block : (ℕ → ℕ) → ℕ → ℕ → ℕ → ℕ
find_block block b i zero = i
find_block block b i (suc n) =
    let rest = find_block block b (suc i) n in if block i == b then i else rest

-- `log_write` of the buffer of block `b`
unfoldable pub log_write : ℕ → Log → Result Log
unfolding find_block
log_write b s =
    if leb logsize s.lh.n || leb (s.size - 1) s.lh.n
    then panic
    else if ltb s.outstanding 1
    then panic
    else (let i = find_block s.lh.block b 0 s.lh.n in
        ok (record s {
          lh = record {
            n = if i == s.lh.n then s.lh.n + 1 else s.lh.n;
            block = update s.lh.block i b;
          };
          dirty = update s.dirty b true;
        }))
