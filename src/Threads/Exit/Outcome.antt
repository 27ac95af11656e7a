-- ===== src/Threads/Exit/Outcome.antt =====
-- `exit` of project2/proc.c as a whole.
use ele3021_os.Common.{
  ℕ, ◌<◌, ◌≡◌, ◌≢◌, true, false, not, ◌&&◌, none, ◌==◌, ==-refl, update_self, update_ne, refl, sym,
  ap, ap₂, ◌∙◌, arith, Bool-cases, inl, inr, ◌⊎◌,
}
use ele3021_os.Mlfq.Queue.{nproc}
use ele3021_os.Mlfq.State.{zombie, ok, panic}
use ele3021_os.Threads.State.{is_some_of, Proc, Kernel, for_procs, wakeup1, close_all}
use ele3021_os.Threads.Process.{kill_threads, close_files, chan_of, pass_to_init, exit_table, exit}
use ele3021_os.Threads.Loops.{in_table, wakeup1-initproc}
use ele3021_os.Threads.Exit.Killing.{after_kill, kill_threads-proc}
use ele3021_os.Threads.Exit.Passing.{
  wakeup1-obs, after_pass, is_unused, sleeping-used, pass-parent, pass-pid, pass-is_unused,
  pass_all,
}

-- What `exit` of `me` leaves of the table `k`.
pub record Exited (me : ℕ) (k k' : Kernel) : Type 0 where
  pub is_zombie : (k'.proc me).state ≡ zombie
  pub threads_gone :
      (q : ℕ)
      → q < nproc
      → q ≢ me
      → (k.proc q).pid ≡ (k.proc me).pid
      → (is_unused (k'.proc q) ≡ true) × ((k'.proc q).pid ≡ 0)
  pub others :
      (q : ℕ)
      → q < nproc
      → (k.proc q).pid ≢ (k.proc me).pid
      → ((k'.proc q).pid ≡ (k.proc q).pid)
        × (is_unused (k'.proc q) ≡ is_unused (k.proc q))
        × ((k'.proc q).parent ≡ after_pass me k.initproc q (k.proc q).parent)

pub close_files-proc : (me q : ℕ) (k : Kernel) → me ≢ q → (close_files me k).proc q ≡ k.proc q
unfolding close_files
close_files-proc me q k ne = update_ne k.proc me _ q ne

pub close_files-me :
    (me : ℕ) (k : Kernel)
    → (close_files me k).proc me
      ≡ record (k.proc me) { ofile = close_all (k.proc me).ofile; cwd = none }
unfolding close_files
close_files-me me k = let s : (me == me) ≡ true = ==-refl me in rw s refl

close_files-pid : (me : ℕ) (k : Kernel) → ((close_files me k).proc me).pid ≡ (k.proc me).pid
unfolding close_files
close_files-pid me k = let s : (me == me) ≡ true = ==-refl me in rw s refl

close_files-initproc : (me : ℕ) (k : Kernel) → (close_files me k).initproc ≡ k.initproc
unfolding close_files
close_files-initproc me k = refl

module _ (me : ℕ) (k : Kernel) where
  killed : Kernel
  killed = kill_threads me (close_files me k)

  woke : Kernel
  woke = wakeup1 (chan_of (killed.proc me).parent) killed

  final : Kernel
  final = exit_table me k

  module _ (q : ℕ) (lt : q < nproc) (ne : q ≢ me) where
    killed-proc : killed.proc q ≡ after_kill me ((k.proc me).pid) q (k.proc q)
    unfolding killed
    killed-proc =
        let t : in_table q ≡ true = ground arith in
        (kill_threads-proc me q (close_files me k)).0
        ∙ (rw t (rw (close_files-pid me k, close_files-proc me q k (λ e. ne (sym e))) refl))

    final-proc {ℓ} :
        {A : Type ℓ} (obs : Proc → A) → obs (final.proc q) ≡ obs ((pass_all me q woke lt).proc q)
    unfolding final exit_table woke killed
    final-proc obs = ap obs (
        update_ne (pass_all me q woke lt).proc me
          (record ((pass_all me q woke lt).proc me) { state = zombie }) q (λ e. ne (sym e)))

    woke-initproc : woke.initproc ≡ k.initproc
    unfolding woke killed
    woke-initproc =
        (wakeup1-initproc (chan_of (killed.proc me).parent) killed).0
        ∙ ((kill_threads-proc me me (close_files me k)).1 ∙ close_files-initproc me k)

    final-pid : (final.proc q).pid ≡ (after_kill me ((k.proc me).pid) q (k.proc q)).pid
    unfolding woke
    final-pid =
        final-proc (λ r. r.pid)
        ∙ (pass-pid me q woke lt
            ∙ (wakeup1-obs (λ r. r.pid) (λ r h. refl) (chan_of (killed.proc me).parent) q killed
                ∙ ap (λ r. r.pid) killed-proc))

    final-is_unused :
        is_unused (final.proc q) ≡ is_unused (after_kill me ((k.proc me).pid) q (k.proc q))
    unfolding woke
    final-is_unused =
        final-proc is_unused
        ∙ (pass-is_unused me q woke lt
            ∙ (wakeup1-obs is_unused (λ r h. sleeping-used r.state h)
                  (chan_of (killed.proc me).parent) q killed
                ∙ ap is_unused killed-proc))

    final-parent :
        (final.proc q).parent
        ≡ after_pass me k.initproc q (after_kill me ((k.proc me).pid) q (k.proc q)).parent
    unfolding woke
    final-parent =
        final-proc (λ r. r.parent)
        ∙ (pass-parent me q woke lt
            ∙ ap₂ (λ i r. after_pass me i q r) woke-initproc
                (wakeup1-obs (λ r. r.parent) (λ r h. refl) (chan_of (killed.proc me).parent) q
                    killed
                  ∙ ap (λ r. r.parent) killed-proc))

  final-zombie : (final.proc me).state ≡ zombie
  unfolding final exit_table woke killed
  final-zombie =
      ap (λ (r : Proc). r.state)
        (update_self ((for_procs (pass_to_init me) 0 nproc woke).proc) me
          (record ((for_procs (pass_to_init me) 0 nproc woke).proc me) { state = zombie }))

  final-Exited : Exited me k final
  final-Exited = record {
    is_zombie = final-zombie;
    threads_gone = λ q lt ne same.
        let t : ((k.proc q).pid == (k.proc me).pid && not (q == me)) ≡ true = ground arith in
        (final-is_unused q lt ne ∙ rw t refl, final-pid q lt ne ∙ rw t refl);
    others = λ q lt other.
        let ne : q ≢ me = λ e. other (ap (λ x. (k.proc x).pid) e) in
        let t : ((k.proc q).pid == (k.proc me).pid && not (q == me)) ≡ false = ground arith in
        (
          final-pid q lt ne ∙ rw t refl,
          final-is_unused q lt ne ∙ rw t refl,
          final-parent q lt ne ∙ rw t refl,
        );
  }

-- `exit` panics for init. For any other process it ends as a zombie, and all other threads of it are
-- gone: their entries are free. Of the entries with other pids none is freed or taken, all keep
-- their pids, and the children of the thread that called it now have init as parent.
pub exit-Exited :
    (me : ℕ) (k : Kernel)
    → ((is_some_of k.initproc me ≡ true) × (exit me k ≡ panic))
      ⊎ ((k' : Kernel) × (exit me k ≡ ok k') × Exited me k k')
unfolding exit
exit-Exited me k = elim (Bool-cases (is_some_of k.initproc me)) [
  | inl t ↦ inl (t, rw t refl)
  | inr t ↦ inr (exit_table me k, rw t refl, unfold final in final-Exited me k)
]
