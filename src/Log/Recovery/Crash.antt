-- ===== src/Log/Recovery/Crash.antt =====
-- Atomicity of `commit` in project3/log.c under power failures.
use ele3021_os.Common.{
  ℕ, zero, suc, ◌+◌, ◌≤◌, ◌<◌, ◌≡◌, refl, sym, ap, ◌∙◌, subst, List, [], ◌∷◌, arith, ltb, lt→ltb,
  le→ltb, if◌then◌else◌, dec_lt,
}
use ele3021_os.Log.{
  Block, Disk, LogHeader, Log, install_from, install_trans, write_head, clear_head, write_log,
  commit,
}
use ele3021_os.Log.Recovery.Contents.{
  Home, Holds, Wrote, bwrite-Wrote, Holds-view, write_head-Wrote, head_block, head_block_n,
  head_block_block,
}
use ele3021_os.Log.Recovery.Install.{Installing, Cleared, install_clear}
use ele3021_os.Log.Recovery.Commit.{
  recover, recover-Holds, CanCommit, Logging, write_log-Logging, committed,
}

-- Without power nothing of this reaches the disk.
record Dead (s s' : Log) : Type 0 where
  disk : s'.disk ≡ s.disk
  start : s'.start ≡ s.start
  size : s'.size ≡ s.size
  budget : s'.budget ≡ 0

Wrote-Dead :
    {b : ℕ} {v : Block} {s0 s s' : Log} → s.budget ≡ 0 → Dead s0 s → Wrote b v s s' → Dead s0 s'
Wrote-Dead z d w = record {
  disk = w.frozen z ∙ d.disk;
  start = w.start ∙ d.start;
  size = w.size ∙ d.size;
  budget = omega (arith, w.budget);
}

install_from-Dead :
    (m tail : ℕ) (s0 s : Log) → s.budget ≡ 0 → Dead s0 s → Dead s0 (install_from tail m s)
unfolding install_from
install_from-Dead zero tail s0 s z d = d
install_from-Dead (suc m) tail s0 s z d =
    let v = s.cache (s.start + tail + 1) in
    let d' = Wrote-Dead z d (bwrite-Wrote (s.lh.block tail) v s) in
    install_from-Dead m (suc tail) s0 _ d'.budget d'

install_clear-Dead :
    (s0 s : Log) → s.budget ≡ 0 → Dead s0 s → Dead s0 (write_head (clear_head (install_trans s)))
unfolding install_trans
install_clear-Dead s0 s z d =
    let d' = install_from-Dead s.lh.n 0 s0 s z d in
    Wrote-Dead {s = clear_head (install_trans s)} d'.budget
      (record { disk = d'.disk; start = d'.start; size = d'.size; budget = d'.budget })
      (write_head-Wrote (clear_head (install_trans s)))

-- An empty log on the disk: it holds what it holds.
Holds-idle : (start size : ℕ) (d : Disk) → d start 0 ≡ 0 → 0 < size → Holds start size d d
Holds-idle start size d z h = record {
  small = omega arith;
  homes = λ j lt. absurd (omega arith);
  slots = λ j lt. absurd (omega arith);
  rest = λ b home out. refl;
}

-- The contents of the blocks outside the log after `k` of the writes of a commit.
abbrev pub outcome : ℕ → Log → Disk
outcome k s b = if ltb s.lh.n k then s.cache b else s.disk b

outcome_new : (k : ℕ) (s : Log) (b : ℕ) → s.lh.n < k → outcome k s b ≡ s.cache b
outcome_new k s b h = rw (lt→ltb _ _ h)

outcome_old : (k : ℕ) (s : Log) (b : ℕ) → k ≤ s.lh.n → outcome k s b ≡ s.disk b
outcome_old k s b h = rw (le→ltb _ _ h)

commit_some :
    (s : Log)
    → 0 < s.lh.n
    → commit s ≡ write_head (clear_head (install_trans (write_head (write_log s))))
unfolding commit
commit_some s h = rw (lt→ltb _ _ h)

commit_none : (s : Log) → s.lh.n ≡ 0 → commit s ≡ s
unfolding commit
commit_none s h = rw h

-- What is on the disk when the power fails, and where the log stands.
abbrev pub Left : Log → Log → Type 0
Left s s' =
    Holds s.start s.size s'.disk (outcome s.budget s) × (s'.start ≡ s.start) × (s'.size ≡ s.size)

module _ (s : Log) (c : CanCommit s) where
  Left-none : s.lh.n ≡ 0 → Left s s
  Left-none z = (
    Holds-view (Holds-idle s.start s.size s.disk c.idle (omega (arith, c.fits))) same,
    refl,
    refl,
  )
    where
      same : (b : ℕ) → Home s.start s.size b → s.disk b ≡ outcome s.budget s b
      same b home = elim (dec_lt s.lh.n s.budget) [
        | yes h ↦ sym (outcome_new s.budget s b h ∙ c.clean b home (λ j lt. absurd (omega arith)))
        | no h ↦ sym (outcome_old s.budget s b (omega arith))
      ]

  head : Log
  head = write_head (write_log s)

  head-Wrote : Wrote s.start (head_block (write_log s)) (write_log s) head
  unfolding head
  head-Wrote =
      subst (λ a. Wrote a (head_block (write_log s)) (write_log s) (write_head (write_log s)))
        (write_log-Logging s c).start (write_head-Wrote (write_log s))

  lh_same : (write_log s).lh ≡ s.lh
  lh_same = (write_log-Logging s c).lh

  head-Installing : s.lh.n < s.budget → Installing s.start s.size s.cache s.lh.n 0 s.lh.block head
  head-Installing h =
      committed s c (write_log s) head (head_block (write_log s)) (write_log-Logging s c)
        (omega (arith, (write_log-Logging s c).budget)) head-Wrote
        (head_block_n (write_log s) ∙ n_same)
        (λ j lt.
          head_block_block (write_log s) j (omega (arith, n_same))
          ∙ ap (λ (h : LogHeader). h.block j) lh_same)
    where
      n_same : (write_log s).lh.n ≡ s.lh.n
      n_same = ap (λ (h : LogHeader). h.n) lh_same

  Left-live : s.lh.n < s.budget → Left s (write_head (clear_head (install_trans head)))
  Left-live h =
      let all = install_clear s.start s.size s.cache s.lh.n s.lh.block head (head-Installing h) in
      (Holds-view all.0 (λ b home. sym (outcome_new s.budget s b h)), all.2, all.3)

  Left-dead : s.budget ≤ s.lh.n → Left s (write_head (clear_head (install_trans head)))
  Left-dead h =
      (Holds-view holds (λ b home. sym (outcome_old s.budget s b h)), dead.start, dead.size)
    where
      w : Logging s s.lh.n (write_log s)
      w = write_log-Logging s c

      off : (write_log s).budget ≡ 0
      off = omega (arith, w.budget)

      after_log : Dead head head
      after_log = record {
        disk = refl;
        start = refl;
        size = refl;
        budget = omega (arith, head-Wrote.budget, off);
      }

      later : Dead head (write_head (clear_head (install_trans head)))
      later = install_clear-Dead head head after_log.budget after_log

      dead :
          Dead
            (record s { disk = (write_log s).disk })
            (write_head (clear_head (install_trans head)))
      dead = record {
        disk = later.disk ∙ head-Wrote.frozen off;
        start = later.start ∙ (head-Wrote.start ∙ w.start);
        size = later.size ∙ (head-Wrote.size ∙ w.size);
        budget = later.budget;
      }

      logged : Holds s.start s.size (write_log s).disk s.disk
      logged =
          Holds-view
            (Holds-idle s.start s.size (write_log s).disk
              (ap (λ (f : Block). f 0) w.head_disk ∙ c.idle) (omega (arith, c.fits)))
            w.home_disk

      holds : Holds s.start s.size (write_head (clear_head (install_trans head))).disk s.disk
      holds = subst (λ d. Holds s.start s.size d s.disk) (sym dead.disk) logged

  commit-Left : Left s (commit s)
  commit-Left = elim (dec_lt 0 s.lh.n) [
    | no none_logged ↦ subst (Left s) (sym (commit_none s (omega arith))) (Left-none (omega arith))
    | yes some_logged ↦ subst (Left s) (sym (commit_some s some_logged)) (
        unfold head in
        elim (dec_lt s.lh.n s.budget) [ yes h ↦ Left-live h | no h ↦ Left-dead (omega arith) ])
  ]

-- Restarts in turn, each of which loses its power again after some writes.
abbrev pub recoveries : List ℕ → Log → Log
recoveries [] s = s
recoveries (r ∷ rs) s = recoveries rs (recover r s)

recoveries-Holds :
    (rs : List ℕ) (s : Log) (start size : ℕ) (new : Disk)
    → s.start ≡ start
    → s.size ≡ size
    → Holds start size s.disk new
    → Holds start size (recoveries rs s).disk new
      × ((recoveries rs s).start ≡ start)
      × ((recoveries rs s).size ≡ size)
recoveries-Holds [] s start size new e e' h = (h, e, e')
recoveries-Holds (r ∷ rs) s start size new e e' h =
    let h' =
      subst (λ a. Holds a s.size s.disk new) (sym e)
        (subst (λ a. Holds start a s.disk new) (sym e') h) in
    let next = recover-Holds s new r h' in
    recoveries-Holds rs (recover r s) start size new (next.2 ∙ e) (next.3 ∙ e') (
      subst (λ a. Holds start a (recover r s).disk new) e'
        (subst (λ a. Holds a s.size (recover r s).disk new) e next.0))

-- The power fails after any number `s.budget` of the block writes of a commit, and again during any
-- number of recoveries, each after any number of writes. A last recovery that completes (it writes
-- at most as many blocks as the log has) leaves the log empty, and all the blocks outside the log at
-- once as they were in the buffers, if the writes reached the header block, or else as they were on
-- the disk.
pub commit_atomic :
    (s : Log) (rs : List ℕ) (r : ℕ)
    → CanCommit s
    → s.size ≤ r
    → let d = (recover r (recoveries rs (commit s))).disk in
      (d s.start 0 ≡ 0) × ((b : ℕ) → Home s.start s.size b → d b ≡ outcome s.budget s b)
commit_atomic s rs r c enough =
    let left = commit-Left s c in
    let again =
      recoveries-Holds rs (commit s) s.start s.size (outcome s.budget s) left.1 left.2 left.0 in
    let s' = recoveries rs (commit s) in
    let h' =
      subst (λ a. Holds a s'.size s'.disk (outcome s.budget s)) (sym again.1)
        (subst (λ a. Holds s.start a s'.disk (outcome s.budget s)) (sym again.2) again.0) in
    let last = recover-Holds s' (outcome s.budget s) r h' in
    subst (λ a. Cleared a s.size (outcome s.budget s) (recover r s').disk) again.1
      (subst (λ a. Cleared s'.start a (outcome s.budget s) (recover r s').disk) again.2
        (last.1 (omega (arith, h'.small, again.2))))
