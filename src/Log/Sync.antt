-- ===== src/Log/Sync.antt =====
-- The three parts of `sync` of project3/log.c between the calls of other processes.
use ele3021_os.Common.{
  ℕ, ◌+◌, ◌-◌, ◌==◌, ltb, ◌<◌, ◌≡◌, refl, sym, ◌∙◌, true, false, some, arith, Bool-cases, inl, inr,
}
use ele3021_os.Log.{
  Log, ok, logsize, maxopblocks, sync, sync_begin, sync_end, commit, begin_op, end_op, log_write,
}
use ele3021_os.Log.Reserve.{commit_ops, sync_ops}

-- Runs in which a process calls `sync` only while no operation is outstanding. The commit and the end
-- of a `sync` come at any time, for several processes may be in it.
pub data SyncRun : Log → Type 0 where
  start : (s : Log) → s.outstanding ≡ 0 → s.committing ≡ false → SyncRun s
  begins : {s s' : Log} → SyncRun s → begin_op s ≡ some s' → SyncRun s'
  writes : {s s' : Log} → SyncRun s → (b : ℕ) → log_write b s ≡ ok s' → SyncRun s'
  ends : {s s' : Log} → SyncRun s → end_op s ≡ ok s' → SyncRun s'
  sync_begins : {s : Log} → SyncRun s → s.outstanding ≡ 0 → SyncRun (sync_begin s)
  commits : {s : Log} → SyncRun s → SyncRun (commit s)
  sync_ends : {s : Log} → SyncRun s → SyncRun (sync_end s)

begin_op-flag : (s s' : Log) → begin_op s ≡ some s' → s'.committing ≡ false
unfolding begin_op
begin_op-flag s s' h = ground (arith, Bool-cases s.committing)

log_write-flag :
    (b : ℕ) (s s' : Log)
    → log_write b s ≡ ok s'
    → (s'.committing ≡ s.committing) × (s'.outstanding ≡ s.outstanding)
unfolding log_write
log_write-flag b s s' h = ground arith

end_op-flag : (s s' : Log) → end_op s ≡ ok s' → s'.committing ≡ false
unfolding end_op
end_op-flag s s' h =
    ground (arith, Bool-cases s.committing, sync_ops (record s { outstanding = s.outstanding - 1 }))

SyncRun-idle : {s : Log} → SyncRun s → s.committing ≡ true → s.outstanding ≡ 0
SyncRun-idle (start s h h') c = h
SyncRun-idle (begins {s} {s'} run h) c = ground (arith, begin_op-flag s s' h)
SyncRun-idle (writes {s} {s'} run b h) c =
    let (flag, ops) = log_write-flag b s s' h in ops ∙ SyncRun-idle run (sym flag ∙ c)
SyncRun-idle (ends {s} {s'} run h) c = ground (arith, end_op-flag s s' h)
SyncRun-idle (sync_begins run h) c = h
SyncRun-idle (commits {s} run) c =
    let (empty, ops, flag) = commit_ops s in ops ∙ SyncRun-idle run (sym flag ∙ c)
SyncRun-idle (sync_ends run) c = ground arith

-- However `begin_op`, `log_write`, `end_op` and the parts of `sync` of several processes follow each
-- other, where `sync` is called only while no operation is outstanding (which the code does not check):
-- an outstanding operation ends without a panic, and the count is one lower and the flag clear then.
pub SyncRun-end_op :
    {s : Log}
    → SyncRun s
    → 0 < s.outstanding
    → (s' : Log) × (end_op s ≡ ok s')
      × (s'.outstanding + 1 ≡ s.outstanding)
      × (s'.committing ≡ false)
unfolding end_op
SyncRun-end_op {s} run h =
    let nz : (s.outstanding == 0) ≡ false = ground arith in
    let s1 : Log = record s { outstanding = s.outstanding - 1 } in
    elim (Bool-cases s.committing) [
      | inl c ↦ absurd (omega (arith, SyncRun-idle run c))
      | inr c ↦ elim (Bool-cases (ltb 0 (s.outstanding - 1))) [
        | inl more ↦ (s1, rw (nz, c, more) refl, omega arith, c)
        | inr last ↦ elim (Bool-cases (ltb logsize (s.lh.n + maxopblocks))) [
          | inl full ↦
              let (length, empty, ops, flag) = sync_ops s1 in
              ((sync s1).1, rw (nz, c, last, full) refl, omega arith, flag)
          | inr room ↦ (s1, rw (nz, c, last, room) refl, omega arith, c)
        ]
      ]
    ]
