-- ===== src/Log/Reserve.antt =====
-- The reservation of log space by `begin_op` and `end_op` of project3/log.c.
use ele3021_os.Common.{
  ℕ, zero, suc, ◌+◌, ◌-◌, ◌*◌, ◌≤◌, ◌<◌, ◌≡◌, refl, ap, ◌∙◌, false, some, arith, lt→ltb, le→ltb,
  dec_lt,
}
use ele3021_os.Log.{
  Block, LogHeader, Log, ok, logsize, maxopblocks, log_write, begin_op, end_op, sync, sync_begin,
  commit, fill, bwrite, install_from, install_trans, write_head, clear_head, write_log_from,
  write_log,
}
use ele3021_os.Log.Space.{Logged, log_write-Logged}

-- The count of operations, the flag and the log in memory do not change.
record SameOps (s s' : Log) : Type 0 where
  outstanding : s'.outstanding ≡ s.outstanding
  committing : s'.committing ≡ s.committing
  lh : s'.lh ≡ s.lh

SameOps-refl : (s : Log) → SameOps s s
SameOps-refl s = record { outstanding = refl; committing = refl; lh = refl }

SameOps-trans : {s t u : Log} → SameOps s t → SameOps t u → SameOps s u
SameOps-trans a b = record {
  outstanding = b.outstanding ∙ a.outstanding;
  committing = b.committing ∙ a.committing;
  lh = b.lh ∙ a.lh;
}

bwrite-SameOps : (b : ℕ) (v : Block) (s : Log) → SameOps s (bwrite b (fill b v s))
unfolding bwrite fill
bwrite-SameOps b v s = ground arith

install_from-SameOps : (m tail : ℕ) (s : Log) → SameOps s (install_from tail m s)
unfolding install_from
install_from-SameOps zero tail s = SameOps-refl s
install_from-SameOps (suc m) tail s =
    SameOps-trans (bwrite-SameOps (s.lh.block tail) (s.cache (s.start + tail + 1)) s)
      (install_from-SameOps m (suc tail) _)

write_log_from-SameOps : (m tail : ℕ) (s : Log) → SameOps s (write_log_from tail m s)
unfolding write_log_from
write_log_from-SameOps zero tail s = SameOps-refl s
write_log_from-SameOps (suc m) tail s =
    SameOps-trans (bwrite-SameOps (s.start + tail + 1) (s.cache (s.lh.block tail)) s)
      (write_log_from-SameOps m (suc tail) _)

write_head-SameOps : (s : Log) → SameOps s (write_head s)
unfolding write_head
write_head-SameOps s = bwrite-SameOps s.start _ s

write_log-SameOps : (s : Log) → SameOps s (write_log s)
unfolding write_log
write_log-SameOps s = write_log_from-SameOps s.lh.n 0 s

install_trans-SameOps : (s : Log) → SameOps s (install_trans s)
unfolding install_trans
install_trans-SameOps s = install_from-SameOps s.lh.n 0 s

-- `commit` empties the log in memory, and leaves the count and the flag alone.
pub commit_ops :
    (s : Log)
    → ((commit s).lh.n ≡ 0)
      × ((commit s).outstanding ≡ s.outstanding)
      × ((commit s).committing ≡ s.committing)
unfolding commit
commit_ops s = elim (dec_lt 0 s.lh.n) [
  | yes h ↦ rw (lt→ltb _ _ h) (
    ap (λ (h : LogHeader). h.n) last.lh,
    last.outstanding ∙ before.outstanding,
    last.committing ∙ before.committing,
  )
  | no h ↦ rw (le→ltb 0 s.lh.n (omega arith)) (omega arith, refl, refl)
]
  where
    s1 : Log
    s1 = install_trans (write_head (write_log s))

    before : SameOps s s1
    before = SameOps-trans (write_log-SameOps s) (
        SameOps-trans (write_head-SameOps (write_log s))
          (install_trans-SameOps (write_head (write_log s))))

    last : SameOps (clear_head s1) (write_head (clear_head s1))
    last = write_head-SameOps (clear_head s1)

-- `sync` returns the length of the log, empties it and ends with the flag clear.
pub sync_ops :
    (s : Log)
    → ((sync s).0 ≡ s.lh.n)
      × ((sync s).1.lh.n ≡ 0)
      × ((sync s).1.outstanding ≡ s.outstanding)
      × ((sync s).1.committing ≡ false)
unfolding sync
sync_ops s = (refl, (commit_ops (sync_begin s)).0, (commit_ops (sync_begin s)).1, refl)

-- After the last outstanding operation has ended the next `begin_op` does not have to wait.
pub end_op-begin_op :
    (s s' : Log)
    → end_op s ≡ ok s'
    → s'.outstanding ≡ 0
    → begin_op s' ≡ some (record s' { outstanding = 1 })
unfolding end_op begin_op
end_op-begin_op s s' h z = ground (arith, sync_ops (record s { outstanding = s.outstanding - 1 }))

-- Runs from an empty log, in which the outstanding operations may still write `r` blocks together:
-- each may write up to MAXOPBLOCKS.
pub data Run : ℕ → Log → Type 0 where
  start : (s : Log) → s.lh.n ≡ 0 → s.outstanding ≡ 0 → Run 0 s
  begins : {r : ℕ} {s s' : Log} → Run r s → begin_op s ≡ some s' → Run (r + maxopblocks) s'
  writes : {r : ℕ} {s s' : Log} → Run (suc r) s → (b : ℕ) → log_write b s ≡ ok s' → Run r s'
  ends :
      {r : ℕ} {s s' : Log}
      → Run r s
      → end_op s ≡ ok s'
      → (r' : ℕ) → r' ≤ r
      → r' ≤ maxopblocks * s'.outstanding
      → Run r' s'

log_write-lh :
    (b : ℕ) (s s' : Log)
    → log_write b s ≡ ok s'
    → (s'.lh.n ≤ s.lh.n + 1) × (s'.outstanding ≡ s.outstanding)
unfolding log_write
log_write-lh b s s' h = ground arith

end_op-lh : (s s' : Log) → end_op s ≡ ok s' → s'.lh.n ≤ s.lh.n
unfolding end_op
end_op-lh s s' h = ground (arith, sync_ops (record s { outstanding = s.outstanding - 1 }))

begin_op-lh :
    (s s' : Log)
    → begin_op s ≡ some s'
    → (s'.lh.n ≡ s.lh.n)
      × (s'.outstanding ≡ s.outstanding + 1)
      × (s.lh.n + (s.outstanding + 1) * maxopblocks ≤ logsize)
unfolding begin_op
begin_op-lh s s' h = ground arith

-- In every run the log and what may still be written fit LOGSIZE.
pub Run-fits :
    {r : ℕ} {s : Log} → Run r s → (s.lh.n + r ≤ logsize) × (r ≤ maxopblocks * s.outstanding)
Run-fits (start s h h') = omega arith
Run-fits (begins {s} {s'} run h) = omega (arith, Run-fits run, begin_op-lh s s' h)
Run-fits (writes {s} {s'} run b h) = omega (arith, Run-fits run, log_write-lh b s s' h)
Run-fits (ends {s} {s'} run h r' le le') = omega (arith, Run-fits run, end_op-lh s s' h)

-- In every run from an empty log, an operation that has begun and has written fewer than MAXOPBLOCKS
-- blocks can write one more, where `r` further writes are still reserved behind it and LOGSIZE is below
-- the blocks of the log area and `r` together. (In an area of LOGSIZE blocks, as mkfs makes it, all
-- reserved writes but the last one find room.)
pub Run-log_write :
    {r : ℕ} {s : Log}
    → Run (suc r) s
    → logsize < s.size + r
    → (b : ℕ) → (s' : Log) × (log_write b s ≡ ok s') × Logged b s s'
Run-log_write {s} run h b =
    log_write-Logged b s (omega (arith, Run-fits run)) (omega (arith, Run-fits run))
      (omega (arith, Run-fits run))
