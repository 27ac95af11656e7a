-- ===== src/Log/Tests.antt =====
-- Tests of the log of project3/log.c, and its theorems at concrete inputs.
use ele3021_os.Common.{
  ◌+◌, ℕ, ◌≡◌, inr, refl, [], ◌∷◌, false, some, arith, ◌==◌, if◌then◌else◌, update,
}
use ele3021_os.Log.{
  Disk, Log, ok, panic, log_write, begin_op, end_op, commit, write_log, write_head, install_trans,
  recover_from_log, sync_begin, sync_end,
}
use ele3021_os.Log.Recovery.Contents.{Home}
use ele3021_os.Log.Recovery.Commit.{recover, CanCommit}
use ele3021_os.Log.Recovery.Crash.{recoveries, outcome, commit_atomic}
use ele3021_os.Log.Space.{Logged, log_write-Logged}
use ele3021_os.Log.Sync.{SyncRun, SyncRun-end_op}
use ele3021_os.Log.Reserve.{Run, end_op-begin_op, Run-log_write}

-- Block 100 was 1 on the disk and is 7 in its buffer; the log area is blocks 2 to 91.
abbrev old : Disk
old b w = if b == 100 then 1 else 0

abbrev two_logged : ℕ → Log
two_logged budget = record {
  start = 2;
  size = 90;
  outstanding = 1;
  committing = false;
  lh = record { n = 1; block = λ _. 100 };
  cache = update old 100 (λ _. 7);
  dirty = λ _. false;
  disk = old;
  budget = budget;
}

two_logged-CanCommit : (budget : ℕ) → CanCommit (two_logged budget)
two_logged-CanCommit budget = record {
  idle = refl;
  fits = omega arith;
  homes = λ j h. inr (omega arith);
  clean = λ b home out. ground (arith, out 0);
}

-- The power fails right behind the write of the header: the new contents survive.
commit_atomic_example :
    let d = (recover 100 (recoveries (1 ∷ []) (commit (two_logged 2)))).disk in
    (d 2 0 ≡ 0) × ((b : ℕ) → Home 2 90 b → d b ≡ outcome 2 (two_logged 2) b)
commit_atomic_example =
    commit_atomic (two_logged 2) (1 ∷ []) 100 (two_logged-CanCommit 2) (omega arith)

-- and before it they are lost
commit_lost : (recover 100 (commit (two_logged 1))).disk 100 0 ≡ 1
unfolding commit write_log write_head install_trans recover_from_log
commit_lost = refl

commit_survives : (recover 100 (commit (two_logged 2))).disk 100 0 ≡ 7
unfolding commit write_log write_head install_trans recover_from_log
commit_survives = refl

log_write-Logged_example :
    (s' : Log) × (log_write 200 (two_logged 9) ≡ ok s') × Logged 200 (two_logged 9) s'
log_write-Logged_example =
    log_write-Logged 200 (two_logged 9) (omega arith) (omega arith) (omega arith)

end_op-begin_op_example :
    begin_op (record (two_logged 9) { outstanding = 0 })
    ≡ some (record (two_logged 9) { outstanding = 1 })
unfolding end_op
end_op-begin_op_example =
    end_op-begin_op (two_logged 9) (record (two_logged 9) { outstanding = 0 }) refl refl

abbrev empty_log : Log
empty_log = record (two_logged 9) { lh = record { n = 0; block = λ _. 0 }; outstanding = 0 }

Run-log_write_example :
    (s' : Log) × (log_write 100 (record empty_log { outstanding = 1 }) ≡ ok s')
    × Logged 100 (record empty_log { outstanding = 1 }) s'
unfolding begin_op
Run-log_write_example =
    Run-log_write {r = 29} (Run.begins (Run.start empty_log refl refl) refl) (omega arith) 100

abbrev synced : Log
synced = record (sync_end (commit (sync_begin empty_log))) { outstanding = 1 }

SyncRun-end_op_example :
    (s' : Log) × (end_op synced ≡ ok s')
    × (s'.outstanding + 1 ≡ synced.outstanding)
    × (s'.committing ≡ false)
unfolding begin_op commit
SyncRun-end_op_example =
    SyncRun-end_op
      (SyncRun.begins
        (SyncRun.sync_ends
          (SyncRun.commits (SyncRun.sync_begins (SyncRun.start empty_log refl refl) refl)))
        refl)
      (omega arith)

-- A `sync` that begins while an operation is outstanding makes the end of the operation panic.
early_sync : end_op (sync_begin (two_logged 9)) ≡ panic
unfolding end_op
early_sync = refl
