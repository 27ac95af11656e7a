-- ===== src/Log/Recovery/Install.antt =====
-- `install_trans` and the clearing of the header (project3/log.c) keep what the disk holds.
use ele3021_os.Common.{
  ℕ, zero, suc, ◌+◌, ◌-◌, ◌<◌, ◌≡◌, ◌≢◌, inl, inr, sym, ap, ◌∙◌, subst, arith, ℕ_discrete,
}
use ele3021_os.Log.{
  Block, Disk, LogHeader, Log, fill, bwrite, install_from, install_trans, write_head, clear_head,
}
use ele3021_os.Log.Recovery.Contents.{
  Home, Holds, find_value, Wrote, bwrite-Wrote, Holds-keep, write_head-Wrote, head_block,
  head_block_n,
}

-- Installing the log that is on the disk, with the first `tail` blocks done.
pub record Installing (start size : ℕ) (new : Disk) (n tail : ℕ) (block : ℕ → ℕ) (s : Log)
    : Type 0 where
  pub at_start : s.start ≡ start
  pub at_size : s.size ≡ size
  pub holds : Holds start size s.disk new
  pub mem_n : s.lh.n ≡ n
  pub mem_block : s.lh.block ≡ block
  pub disk_n : s.disk start 0 ≡ n
  pub disk_block : (j : ℕ) → j < n → s.disk start (suc j) ≡ block j
  pub cached : (j : ℕ) → j < n → s.cache (start + j + 1) ≡ new (block j)
  pub done : 0 < s.budget → (j : ℕ) → j < tail → s.disk (block j) ≡ new (block j)

-- The log on the disk is empty, and the blocks outside it have the contents `new`.
abbrev pub Cleared : ℕ → ℕ → Disk → Disk → Type 0
Cleared start size new d = (d start 0 ≡ 0) × ((b : ℕ) → Home start size b → d b ≡ new b)

module _ (start size : ℕ) (new : Disk) (n : ℕ) (block : ℕ → ℕ) where
  Home-block :
      (d : Disk) (tail : ℕ)
      → Holds start size d new
      → d start 0 ≡ n
      → ((j : ℕ) → j < n → d start (suc j) ≡ block j)
      → tail < n
      → Home start size (block tail)
  Home-block d tail h en eb lt = subst (Home start size) (eb tail lt) (h.homes tail (omega arith))

  -- the step, from the facts about what was written
  installed :
      (tail : ℕ) (s s' : Log)
      → tail < n
      → Installing start size new n tail block s
      → Wrote (block tail) (new (block tail)) s s'
      → Installing start size new n (suc tail) block s'
  installed tail s s' lt i w = record {
    at_start = w.start ∙ i.at_start;
    at_size = w.size ∙ i.at_size;
    holds =
        Holds-keep start size s.disk s'.disk new i.holds head
          (λ j h. w.disk_other (start + j + 1) (λ e. absurd (omega (arith, i.disk_n, small, home))))
          (λ b hb out.
            w.disk_other b (λ e. out tail (omega (arith, i.disk_n)) (i.disk_block tail lt ∙ e)));
    mem_n = ap (λ (h : LogHeader). h.n) w.lh ∙ i.mem_n;
    mem_block = ap (λ (h : LogHeader). h.block) w.lh ∙ i.mem_block;
    disk_n = ap (λ (f : Block). f 0) head ∙ i.disk_n;
    disk_block = λ j h. ap (λ (f : Block). f (suc j)) head ∙ i.disk_block j h;
    cached = λ j h.
        w.cache_other (start + j + 1) (λ e. absurd (omega (arith, i.disk_n, small, home)))
        ∙ i.cached j h;
    done = λ live j h. elim (ℕ_discrete (block tail) (block j)) [
      | yes e ↦ ap s'.disk (sym e) ∙ (w.disk_self (omega (arith, w.budget)) ∙ ap new e)
      | no ne ↦ w.disk_other (block j) ne ∙ i.done (omega (arith, w.budget)) j (before j h ne)
    ];
  }
    where
      small : s.disk start 0 < size
      small = i.holds.small

      home : Home start size (block tail)
      home = Home-block s.disk tail i.holds i.disk_n i.disk_block lt

      head : s'.disk start ≡ s.disk start
      head = w.disk_other start (λ e. absurd (omega (arith, small, home)))

      before : (j : ℕ) → j < suc tail → block tail ≢ block j → j < tail
      before j h ne = elim (ℕ_discrete tail j) [
        | yes e ↦ absurd (ne (ap block e))
        | no other ↦ omega arith
      ]

  install_from-Installing :
      (m tail : ℕ) (s : Log)
      → tail + m ≡ n
      → Installing start size new n tail block s
      → Installing start size new n n block (install_from tail m s)
        × ((install_from tail m s).budget ≡ s.budget - m)
  unfolding install_from
  install_from-Installing zero tail s e i =
      (subst (λ t. Installing start size new n t block s) (omega arith) i, omega arith)
  install_from-Installing (suc m) tail s e i =
      let i' = installed tail s (step s) (omega arith) i wrote in
      let (rest, left) = install_from-Installing m (suc tail) (step s) (omega arith) i' in
      (rest, left ∙ (ap (λ k. k - m) wrote.budget ∙ omega arith))
    where
      step : Log → Log
      step s = bwrite (s.lh.block tail) (fill (s.lh.block tail) (s.cache (s.start + tail + 1)) s)

      slot : s.cache (s.start + tail + 1) ≡ new (block tail)
      slot = ap (λ k. s.cache (k + tail + 1)) i.at_start ∙ i.cached tail (omega arith)

      wrote : Wrote (block tail) (new (block tail)) s (step s)
      wrote =
          subst (λ b. Wrote b (new (block tail)) s (step s)) (ap (λ f. f tail) i.mem_block)
            (subst (λ v. Wrote (s.lh.block tail) v s (step s)) slot
              (bwrite-Wrote (s.lh.block tail) (s.cache (s.start + tail + 1)) s))

  -- all blocks outside the log have their new contents once the power lasted to the end
  complete :
      (s : Log)
      → Installing start size new n n block s
      → 0 < s.budget
      → (b : ℕ) → Home start size b
      → s.disk b ≡ new b
  complete s i live b home = elim (find_value block n b) [
    | inl (j, h, e) ↦ ap s.disk (sym e) ∙ (i.done live j h ∙ ap new e)
    | inr out ↦ i.holds.rest b home (λ j h e.
        out j (omega (arith, i.disk_n)) (sym (i.disk_block j (omega (arith, i.disk_n))) ∙ e))
  ]

  -- What writing an empty header leaves.
  pub cleared :
      (s s' : Log) (v : Block)
      → Installing start size new n n block s
      → Wrote start v (clear_head s) s'
      → v 0 ≡ 0
      → Holds start size s'.disk new × (0 < s.budget → Cleared start size new s'.disk)
  cleared s s' v i w empty = elim (ℕ_discrete s.budget 0) [
    | yes z ↦ (rw (w.frozen z) i.holds, λ live. absurd (omega arith))
    | no nz ↦
        let head : s'.disk start 0 ≡ 0 =
          ap (λ (f : Block). f 0) (w.disk_self (omega arith)) ∙ empty in
        let all : (b : ℕ) → Home start size b → s'.disk b ≡ new b = λ b home.
          w.disk_other b (λ e. absurd (omega arith)) ∙ complete s i (omega arith) b home in
        (
          record {
            small = omega (arith, i.holds.small);
            homes = λ j h. absurd (omega arith);
            slots = λ j h. absurd (omega arith);
            rest = λ b home out. all b home;
          },
          λ live. (head, all),
        )
  ]

  -- installing and clearing, from a log in memory that agrees with the disk
  pub install_clear :
      (s : Log)
      → Installing start size new n 0 block s
      → let s' = write_head (clear_head (install_trans s)) in
        Holds start size s'.disk new
        × (n < s.budget → Cleared start size new s'.disk)
        × (s'.start ≡ start)
        × (s'.size ≡ size)
  install_clear s i = (
    after.0,
    λ live. after.1 (omega (arith, done.1)),
    wrote.start ∙ done.0.at_start,
    wrote.size ∙ done.0.at_size,
  )
    where
      s1 : Log
      s1 = install_trans s

      done : Installing start size new n n block s1 × (s1.budget ≡ s.budget - n)
      done =
          unfold install_trans in
          subst
            (λ m.
              Installing start size new n n block (install_from 0 m s)
              × ((install_from 0 m s).budget ≡ s.budget - n))
            (sym i.mem_n) (install_from-Installing n 0 s (omega arith) i)

      wrote :
          Wrote s1.start (head_block (clear_head s1)) (clear_head s1) (write_head (clear_head s1))
      wrote = write_head-Wrote (clear_head s1)

      after :
          Holds start size (write_head (clear_head s1)).disk new
          × (0 < s1.budget → Cleared start size new (write_head (clear_head s1)).disk)
      after =
          cleared s1 (write_head (clear_head s1)) (head_block (clear_head s1)) done.0
            (subst
              (λ a.
                Wrote a (head_block (clear_head s1)) (clear_head s1) (write_head (clear_head s1)))
              done.0.at_start wrote)
            (head_block_n (clear_head s1))
