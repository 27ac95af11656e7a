-- ===== src/Log/Recovery/Contents.antt =====
-- What the disk holds, read through the log as recovery reads it (project3/log.c).
use ele3021_os.Common.{
  ℕ, zero, suc, ◌+◌, ◌-◌, ◌≤◌, ◌<◌, ◌≡◌, ◌≢◌, ◌⊎◌, inl, inr, refl, sym, ap, ◌∙◌, arith, update,
  ℕ_discrete,
}
use ele3021_os.Log.{Block, Disk, Log, fill, bwrite, copy_in, copy_out, write_head}

-- The block lies outside the log's own area.
abbrev pub Home : ℕ → ℕ → ℕ → Type 0
Home start size b = (b < start) ⊎ (start + size ≤ b)

-- Recovery from the disk `d` brings the contents `new` to all blocks outside the log.
pub record Holds (start size : ℕ) (d new : Disk) : Type 0 where
  pub small : d start 0 < size
  pub homes : (j : ℕ) → j < d start 0 → Home start size (d start (suc j))
  pub slots : (j : ℕ) → j < d start 0 → d (start + j + 1) ≡ new (d start (suc j))
  pub rest :
      (b : ℕ) → Home start size b → ((j : ℕ) → j < d start 0 → d start (suc j) ≢ b) → d b ≡ new b

-- whether one of the first `n` values of `f` is `b`
pub find_value :
    (f : ℕ → ℕ) (n b : ℕ) → ((j : ℕ) × (j < n) × (f j ≡ b)) ⊎ ((j : ℕ) → j < n → f j ≢ b)
find_value f zero b = inr (λ j h. absurd (omega arith))
find_value f (suc n) b = elim (ℕ_discrete (f n) b) [
  | yes e ↦ inl (n, omega arith, e)
  | no ne ↦ elim (find_value f n b) [
    | inl (j, h, e) ↦ inl (j, omega arith, e)
    | inr none_before ↦ inr (λ j h e. elim (ℕ_discrete j n) [
      | yes last ↦ ne (ap f (sym last) ∙ e)
      | no other ↦ none_before j (omega arith) e
    ])
  ]
]

-- From `s` to `s'`, block `b` was filled with `v` and written, unless the power had failed.
pub record Wrote (b : ℕ) (v : Block) (s s' : Log) : Type 0 where
  pub cache_self : s'.cache b ≡ v
  pub cache_other : (c : ℕ) → b ≢ c → s'.cache c ≡ s.cache c
  pub disk_self : 0 < s.budget → s'.disk b ≡ v
  pub disk_other : (c : ℕ) → b ≢ c → s'.disk c ≡ s.disk c
  pub frozen : s.budget ≡ 0 → s'.disk ≡ s.disk
  pub lh : s'.lh ≡ s.lh
  pub start : s'.start ≡ s.start
  pub size : s'.size ≡ s.size
  pub budget : s'.budget ≡ s.budget - 1

pub bwrite-Wrote : (b : ℕ) (v : Block) (s : Log) → Wrote b v s (bwrite b (fill b v s))
unfolding bwrite fill
bwrite-Wrote b v s = record {
  cache_self = ground arith;
  cache_other = λ c ne. ground arith;
  disk_self = λ h. ground arith;
  disk_other = λ c ne. ground arith;
  frozen = λ h. ground arith;
  lh = ground arith;
  start = ground arith;
  size = ground arith;
  budget = ground arith;
}

module _ (start size : ℕ) (d d' new : Disk) (h : Holds start size d new)
    (e : d' start ≡ d start) where
  -- A change that spares the header, the slots and the blocks that are not in the log.
  pub Holds-keep :
      ((j : ℕ) → j < d start 0 → d' (start + j + 1) ≡ d (start + j + 1))
      → ((b : ℕ) → Home start size b → ((j : ℕ) → j < d start 0 → d start (suc j) ≢ b) → d' b ≡ d b)
      → Holds start size d' new
  Holds-keep slots rest = record {
    small = rw e h.small;
    homes = rw e h.homes;
    slots = rw e (λ j lt. slots j lt ∙ h.slots j lt);
    rest = rw e (λ b home out. rest b home out ∙ h.rest b home out);
  }

pub copy_in_lem :
    (b : Block) (n : ℕ) (block : ℕ → ℕ) (j : ℕ) → j < n → copy_in b n block j ≡ b (suc j)
unfolding copy_in
copy_in_lem b zero block j h = absurd (omega arith)
copy_in_lem b (suc n) block j h = elim (ℕ_discrete n j) [
  | yes e ↦ ground arith
  | no ne ↦ ground (arith, copy_in_lem b n block j)
]

pub copy_out_lem :
    (block : ℕ → ℕ) (n : ℕ) (b : Block)
    → (copy_out block n b 0 ≡ b 0) × ((j : ℕ) → j < n → copy_out block n b (suc j) ≡ block j)
unfolding copy_out
copy_out_lem block zero b = (refl, λ j h. absurd (omega arith))
copy_out_lem block (suc n) b = (
  ground (arith, (copy_out_lem block n b).0),
  λ j h. ground (arith, (copy_out_lem block n b).1 j),
)

-- the header block that `write_head` writes
abbrev pub head_block : Log → Block
head_block s = copy_out s.lh.block s.lh.n (update (s.cache s.start) 0 s.lh.n)

pub write_head-Wrote : (s : Log) → Wrote s.start (head_block s) s (write_head s)
unfolding write_head
write_head-Wrote s = bwrite-Wrote s.start (head_block s) s

pub head_block_n : (s : Log) → head_block s 0 ≡ s.lh.n
head_block_n s = (copy_out_lem s.lh.block s.lh.n (update (s.cache s.start) 0 s.lh.n)).0

pub head_block_block : (s : Log) (j : ℕ) → j < s.lh.n → head_block s (suc j) ≡ s.lh.block j
head_block_block s j h = (copy_out_lem s.lh.block s.lh.n (update (s.cache s.start) 0 s.lh.n)).1 j h

-- Only the contents outside the log count.
pub Holds-view :
    {start size : ℕ} {d new new' : Disk}
    → Holds start size d new
    → ((b : ℕ) → Home start size b → new b ≡ new' b)
    → Holds start size d new'
Holds-view h e = record {
  small = h.small;
  homes = h.homes;
  slots = λ j lt. h.slots j lt ∙ e _ (h.homes j lt);
  rest = λ b home out. h.rest b home out ∙ e b home;
}
