-- ===== src/Log/Space.antt =====
-- Space in the log of project3/log.c: `log_write`, `begin_op`, `end_op` and `sync`.
use ele3021_os.Common.{
  ℕ, zero, suc, ◌+◌, ◌≤◌, ◌<◌, ◌≡◌, ◌≢◌, refl, ap, subst, true, false, arith, ◌==◌, if◌then◌else◌,
  update, ℕ_discrete, dec_lt,
}
use ele3021_os.Log.{Log, ok, logsize, find_block, log_write}

-- `find_block` returns the first index from `i` on at which the block stands, or where it stops.
find_block_lem :
    (block : ℕ → ℕ) (b i n : ℕ)
    → let r = find_block block b i n in
      (i ≤ r) × (r ≤ i + n) × ((j : ℕ) → i ≤ j → j < r → block j ≢ b) × (r < i + n → block r ≡ b)
unfolding find_block
find_block_lem block b i zero =
    (omega arith, omega arith, λ j h h'. absurd (omega arith), λ h. absurd (omega arith))
find_block_lem block b i (suc n) = elim (ℕ_discrete (block i) b) [
  | yes e ↦
      let hit : (block i == b) ≡ true = ground arith in
      rw hit (omega arith, omega arith, λ j h h'. absurd (omega arith), λ h. e)
  | no ne ↦
      let miss : (block i == b) ≡ false = ground arith in
      let (ge, le, before, found) = find_block_lem block b (suc i) n in
      rw miss (
        omega arith,
        omega arith,
        λ j h h'. elim (ℕ_discrete i j) [
          | yes e ↦ subst (λ t. block t ≢ b) e ne
          | no later ↦ before j (omega arith) h'
        ],
        λ h. found (omega arith),
      )
]

-- The blocks of the log in memory are distinct.
abbrev pub Distinct : Log → Type 0
Distinct s = (i j : ℕ) → i < s.lh.n → j < s.lh.n → s.lh.block i ≡ s.lh.block j → i ≡ j

-- What `log_write` promises of the log it leaves.
pub record Logged (b : ℕ) (s s' : Log) : Type 0 where
  pub present : (j : ℕ) × (j < s'.lh.n) × (s'.lh.block j ≡ b)
  pub kept : (i : ℕ) → i < s.lh.n → s'.lh.block i ≡ s.lh.block i
  pub absorbed : (j : ℕ) → j < s.lh.n → s.lh.block j ≡ b → s'.lh.n ≡ s.lh.n
  pub appended : ((j : ℕ) → j < s.lh.n → s.lh.block j ≢ b) → s'.lh.n ≡ s.lh.n + 1
  pub distinct : Distinct s → Distinct s'
  pub pinned : s'.dirty b ≡ true
  pub contents : (s'.cache ≡ s.cache) × (s'.disk ≡ s.disk) × (s'.outstanding ≡ s.outstanding)

-- the log with block `b` entered at index `i`
abbrev logged_at : ℕ → ℕ → Log → Log
logged_at b i s = record s {
  lh = record { n = if i == s.lh.n then s.lh.n + 1 else s.lh.n; block = update s.lh.block i b };
  dirty = update s.dirty b true;
}

module _ (b i : ℕ) (s : Log) (before : (j : ℕ) → j < i → s.lh.block j ≢ b) where
  Logged-old : i < s.lh.n → s.lh.block i ≡ b → Logged b s (logged_at b i s)
  Logged-old lt found =
      let same : (i == s.lh.n) ≡ false = ground arith in
      let kept = λ (j : ℕ). block_same j in
      record {
        present = (i, rw same lt, ground arith);
        kept = λ j h. kept j;
        absorbed = λ j h e. rw same;
        appended = λ out. absurd (out i lt found);
        distinct = λ d j k. rw (same, block_same j, block_same k) (d j k);
        pinned = ground arith;
        contents = (refl, refl, refl);
      }
    where
      block_same : (j : ℕ) → update s.lh.block i b j ≡ s.lh.block j
      block_same j = elim (ℕ_discrete i j) [
        | yes e ↦ ground (arith, ap s.lh.block e)
        | no ne ↦ ground arith
      ]

  Logged-new : i ≡ s.lh.n → Logged b s (logged_at b i s)
  Logged-new e =
      let same : (i == s.lh.n) ≡ true = ground arith in
      record {
        present = (i, rw same (omega arith), ground arith);
        kept = λ j h. ground arith;
        absorbed = λ j h hit. absurd (before j (omega arith) hit);
        appended = λ out. rw same;
        distinct = λ d j k. rw same (distinct d j k);
        pinned = ground arith;
        contents = (refl, refl, refl);
      }
    where
      distinct :
          Distinct s
          → (j k : ℕ) → j < s.lh.n + 1
          → k < s.lh.n + 1
          → update s.lh.block i b j ≡ update s.lh.block i b k
          → j ≡ k
      distinct d j k hj hk eq = ground (arith, before j, before k, d j k)

-- With room in the log and an operation outstanding, `log_write` records the block: once, at its old
-- place if it is in the log already, and else behind the others. It leaves the other entries, the
-- buffers and the disk alone, and marks the buffer dirty.
pub log_write-Logged :
    (b : ℕ) (s : Log)
    → s.lh.n < logsize
    → s.lh.n + 1 < s.size
    → 0 < s.outstanding
    → (s' : Log) × (log_write b s ≡ ok s') × Logged b s s'
unfolding log_write
log_write-Logged b s room space op = (
  logged_at b i s,
  ground arith,
  elim (dec_lt i s.lh.n) [
    | yes lt ↦ Logged-old b i s before lt (facts.3 (omega arith))
    | no ge ↦ Logged-new b i s before (omega (arith, facts.1))
  ],
)
  where
    i : ℕ
    i = find_block s.lh.block b 0 s.lh.n

    facts :
        (0 ≤ i)
        × (i ≤ 0 + s.lh.n)
        × ((j : ℕ) → 0 ≤ j → j < i → s.lh.block j ≢ b)
        × (i < 0 + s.lh.n → s.lh.block i ≡ b)
    facts = find_block_lem s.lh.block b 0 s.lh.n

    before : (j : ℕ) → j < i → s.lh.block j ≢ b
    before j h = facts.2 j (omega arith) h
