-- ===== src/Log/Recovery/Commit.antt =====
-- Recovery, and `commit` up to its commit point (project3/log.c).
use ele3021_os.Common.{
  ℕ, zero, suc, ◌+◌, ◌-◌, ◌<◌, ◌≡◌, ◌≢◌, refl, sym, ap, ◌∙◌, subst, arith, ℕ_discrete,
}
use ele3021_os.Log.{
  Block, Disk, LogHeader, Log, fill, bwrite, read_head, recover_from_log, reboot, write_log_from,
  write_log,
}
use ele3021_os.Log.Recovery.Contents.{Home, Holds, Wrote, bwrite-Wrote, copy_in_lem}
use ele3021_os.Log.Recovery.Install.{Installing, Cleared, install_clear}

-- A restart, and recovery up to the next power failure.
abbrev pub recover : ℕ → Log → Log
recover budget s = recover_from_log (reboot budget s)

-- Recovery keeps what the disk holds, wherever the power fails again; if it does not, all blocks
-- outside the log have those contents and the log is empty.
pub recover-Holds :
    (s : Log) (new : Disk) (r : ℕ)
    → Holds s.start s.size s.disk new
    → Holds s.start s.size (recover r s).disk new
      × (s.disk s.start 0 < r → Cleared s.start s.size new (recover r s).disk)
      × ((recover r s).start ≡ s.start)
      × ((recover r s).size ≡ s.size)
unfolding recover_from_log
recover-Holds s new r h = install_clear s.start s.size new (s.disk s.start 0) s1.lh.block s1 (
    unfold read_head in
    record {
      at_start = refl;
      at_size = refl;
      holds = h;
      mem_n = refl;
      mem_block = refl;
      disk_n = refl;
      disk_block = λ j lt. sym (copy_in_lem b (b 0) (λ _. 0) j lt);
      cached = λ j lt. h.slots j lt ∙ ap new (sym (copy_in_lem b (b 0) (λ _. 0) j lt));
      done = λ live j lt. absurd (omega arith);
    })
  where
    b : Block
    b = s.disk s.start

    s1 : Log
    s1 = read_head (reboot r s)

-- The state in which `commit` starts: the log on the disk is empty, the log in memory fits, names
-- blocks outside the log area, and names every block whose buffer differs from the disk.
pub record CanCommit (s : Log) : Type 0 where
  pub idle : s.disk s.start 0 ≡ 0
  pub fits : s.lh.n < s.size
  pub homes : (j : ℕ) → j < s.lh.n → Home s.start s.size (s.lh.block j)
  pub clean :
      (b : ℕ)
      → Home s.start s.size b
      → ((j : ℕ) → j < s.lh.n → s.lh.block j ≢ b)
      → s.cache b ≡ s.disk b

-- From `s0` to `s`, the first `tail` blocks were copied into the log area.
pub record Logging (s0 : Log) (tail : ℕ) (s : Log) : Type 0 where
  pub lh : s.lh ≡ s0.lh
  pub start : s.start ≡ s0.start
  pub size : s.size ≡ s0.size
  pub head_disk : s.disk s0.start ≡ s0.disk s0.start
  pub home_disk : (b : ℕ) → Home s0.start s0.size b → s.disk b ≡ s0.disk b
  pub home_cache : (b : ℕ) → Home s0.start s0.size b → s.cache b ≡ s0.cache b
  pub cached : (j : ℕ) → j < tail → s.cache (s0.start + j + 1) ≡ s0.cache (s0.lh.block j)
  pub done :
      0 < s.budget → (j : ℕ) → j < tail → s.disk (s0.start + j + 1) ≡ s0.cache (s0.lh.block j)
  pub budget : s.budget ≡ s0.budget - tail

module _ (s0 : Log) (c : CanCommit s0) where
  logged :
      (tail : ℕ) (s s' : Log)
      → tail < s0.lh.n
      → Logging s0 tail s
      → Wrote (s0.start + tail + 1) (s0.cache (s0.lh.block tail)) s s'
      → Logging s0 (suc tail) s'
  logged tail s s' lt i w = record {
    lh = w.lh ∙ i.lh;
    start = w.start ∙ i.start;
    size = w.size ∙ i.size;
    head_disk = w.disk_other s0.start (λ e. absurd (omega arith)) ∙ i.head_disk;
    home_disk = λ b home. w.disk_other b (λ e. absurd (omega (arith, c.fits))) ∙ i.home_disk b home;
    home_cache =
        λ b home. w.cache_other b (λ e. absurd (omega (arith, c.fits))) ∙ i.home_cache b home;
    cached = λ j h. elim (ℕ_discrete tail j) [
      | yes e ↦
          ap (λ t. s'.cache (s0.start + t + 1)) (sym e)
          ∙ (w.cache_self ∙ ap (λ t. s0.cache (s0.lh.block t)) e)
      | no ne ↦ w.cache_other _ (λ e. absurd (omega arith)) ∙ i.cached j (omega arith)
    ];
    done = λ live j h. elim (ℕ_discrete tail j) [
      | yes e ↦
          ap (λ t. s'.disk (s0.start + t + 1)) (sym e)
          ∙ (w.disk_self (omega (arith, w.budget)) ∙ ap (λ t. s0.cache (s0.lh.block t)) e)
      | no ne ↦
          w.disk_other _ (λ e. absurd (omega arith))
          ∙ i.done (omega (arith, w.budget)) j (omega arith)
    ];
    budget = omega (arith, w.budget, i.budget);
  }

  write_log_from-Logging :
      (m tail : ℕ) (s : Log)
      → tail + m ≡ s0.lh.n
      → Logging s0 tail s
      → Logging s0 s0.lh.n (write_log_from tail m s)
  unfolding write_log_from
  write_log_from-Logging zero tail s e i = subst (λ t. Logging s0 t s) (omega arith) i
  write_log_from-Logging (suc m) tail s e i =
      write_log_from-Logging m (suc tail) (step s) (omega arith)
        (logged tail s (step s) (omega arith) i wrote)
    where
      step : Log → Log
      step s = bwrite (s.start + tail + 1) (fill (s.start + tail + 1) (s.cache (s.lh.block tail)) s)

      block : s.lh.block ≡ s0.lh.block
      block = ap (λ (h : LogHeader). h.block) i.lh

      source : s.cache (s.lh.block tail) ≡ s0.cache (s0.lh.block tail)
      source =
          ap (λ f. s.cache (f tail)) block
          ∙ i.home_cache (s0.lh.block tail) (c.homes tail (omega arith))

      wrote : Wrote (s0.start + tail + 1) (s0.cache (s0.lh.block tail)) s (step s)
      wrote =
          subst (λ a. Wrote (a + tail + 1) (s0.cache (s0.lh.block tail)) s (step s)) i.start
            (subst (λ v. Wrote (s.start + tail + 1) v s (step s)) source
              (bwrite-Wrote (s.start + tail + 1) (s.cache (s.lh.block tail)) s))

  pub write_log-Logging : Logging s0 s0.lh.n (write_log s0)
  unfolding write_log
  write_log-Logging = write_log_from-Logging s0.lh.n 0 s0 (omega arith) (record {
    lh = refl;
    start = refl;
    size = refl;
    head_disk = refl;
    home_disk = λ b h. refl;
    home_cache = λ b h. refl;
    cached = λ j h. absurd (omega arith);
    done = λ live j h. absurd (omega arith);
    budget = omega arith;
  })

  -- the log area is written, and the power is still on: the header commits
  pub committed :
      (s s' : Log) (v : Block)
      → Logging s0 s0.lh.n s
      → 0 < s.budget
      → Wrote s0.start v s s'
      → v 0 ≡ s0.lh.n
      → ((j : ℕ) → j < s0.lh.n → v (suc j) ≡ s0.lh.block j)
      → Installing s0.start s0.size s0.cache s0.lh.n 0 s0.lh.block s'
  committed s s' v i live w vn vb = record {
    at_start = w.start ∙ i.start;
    at_size = w.size ∙ i.size;
    holds = record {
      small = omega (arith, hn, c.fits);
      homes = λ j h.
          subst (Home s0.start s0.size) (sym (hb j (omega (arith, hn))))
            (c.homes j (omega (arith, hn)));
      slots = λ j h.
          w.disk_other _ (λ e. absurd (omega arith))
          ∙ (i.done live j (omega (arith, hn)) ∙ ap s0.cache (sym (hb j (omega (arith, hn)))));
      rest = λ b home out.
          w.disk_other b (λ e. absurd (omega (arith, c.fits)))
          ∙ (i.home_disk b home
              ∙ sym (c.clean b home (λ j h e. out j (omega (arith, hn)) (hb j h ∙ e))));
    };
    mem_n = ap (λ (h : LogHeader). h.n) (w.lh ∙ i.lh);
    mem_block = ap (λ (h : LogHeader). h.block) (w.lh ∙ i.lh);
    disk_n = hn;
    disk_block = hb;
    cached = λ j h. w.cache_other _ (λ e. absurd (omega arith)) ∙ i.cached j h;
    done = λ live' j h. absurd (omega arith);
  }
    where
      hn : s'.disk s0.start 0 ≡ s0.lh.n
      hn = ap (λ (f : Block). f 0) (w.disk_self live) ∙ vn

      hb : (j : ℕ) → j < s0.lh.n → s'.disk s0.start (suc j) ≡ s0.lh.block j
      hb j h = ap (λ (f : Block). f (suc j)) (w.disk_self live) ∙ vb j h
