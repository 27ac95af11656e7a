-- ===== src/Threads/Limit/Creating.antt =====
-- `thread_create` of project2/proc.c sets the sizes of the new thread and of its main thread.
use ele3021_os.Common.{
  ℕ, ◌*◌, ◌-◌, ◌++◌, ◌≡◌, [], ◌∷◌, Bool, Option, some, ◌==◌, update_self, update_ne, refl, sym, ap,
  ◌∙◌, Bool-cases, true, false, inl, inr, ℕ_discrete, subst, Option-cases,
}
use ele3021_os.Mlfq.Life.{dup_files}
use ele3021_os.Mlfq.State.{runnable}
use ele3021_os.Threads.State.{
  Proc, Kernel, set_proc, pgsize, call, copyout, file_calls, filedup, idup, allocuvm,
}
use ele3021_os.Threads.Process.{allocproc}
use ele3021_os.Threads.Thread.{
  share, over_limit, grow_stack, set_stack, start_thread, thread_create,
}
use ele3021_os.Threads.Memory.{asked}
use ele3021_os.Threads.Limit.Keeping.{memory, Keeps, set_proc-Keeps, call-Keeps, allocproc-Keeps}
use ele3021_os.Threads.Limit.Setting.{
  Within, MainWithin, Limited, Keeps-Limited, set_proc-Limited, allocuvm-le, checked, some-some,
  Leaves, alloc-Limited,
}

-- A new thread `np` of `m`, which is its own main thread.
module _ (m np : ℕ) where
  -- An entry with main thread `m` and the limit of itself has room for what `m` has room for.
  of_thread :
      (s : ℕ) (k : Kernel) (r : Proc)
      → r.mainthread ≡ some m
      → r.memorylimit ≡ (k.proc np).memorylimit
      → Within s (k.proc m).memorylimit
      → MainWithin (memory (record r { sz = s })) np
  of_thread s k r ne lim h main =
      let same : m ≡ np = some-some (sym ne ∙ main) in
      subst (Within s) (sym lim) (subst (λ x. Within s (k.proc x).memorylimit) same h)

  abbrev shared : ℕ → Kernel → Proc
  shared me k = record (k.proc np) {
    pgdir = (k.proc m).pgdir;
    sz = (k.proc m).sz;
    tf = (k.proc me).tf;
    mainthread = some m;
    pid = (k.proc m).pid;
    tid = k.nexttid;
    retval = 0;
    parent = (k.proc m).parent;
  }

  module _ (me : ℕ) (k : Kernel) (own : (k.proc m).mainthread ≡ some m) (h : Limited k) where
    share-Limited : Limited (share me m np k)
    unfolding share
    share-Limited =
        set_proc-Limited k np (shared me k) h
          (of_thread (k.proc m).sz k (shared me k) refl refl (h m own))

    share-own : ((share me m np k).proc m).mainthread ≡ some m
    unfolding share
    share-own = elim (ℕ_discrete np m) [
      | yes e ↦
          subst (λ x. ((share me m np k).proc x).mainthread ≡ some m) e
            (ap (λ (r : Proc). r.mainthread) (update_self k.proc np (shared me k)))
      | no ne ↦ ap (λ (r : Proc). r.mainthread) (update_ne k.proc np (shared me k) m ne) ∙ own
    ]

    share-np : ((share me m np k).proc np).mainthread ≡ some m
    unfolding share
    share-np = ap (λ (r : Proc). r.mainthread) (update_self k.proc np (shared me k))

    -- The new thread starts with the size of the main thread.
    share-sz : ((share me m np k).proc m).sz ≡ ((share me m np k).proc np).sz
    unfolding share
    share-sz = elim (ℕ_discrete np m) [
      | yes e ↦ ap (λ x. ((share me m np k).proc x).sz) (sym e)
      | no ne ↦
          ap (λ (r : Proc). r.sz) (update_ne k.proc np (shared me k) m ne)
          ∙ sym (ap (λ (r : Proc). r.sz) (update_self k.proc np (shared me k)))
    ]

  -- the size is set at the new thread, and then at its main thread
  module _ (k : Kernel) (own : (k.proc m).mainthread ≡ some m)
      (at_np : (k.proc np).mainthread ≡ some m) (h : Limited k) (s : ℕ)
      (fits : Within s (k.proc m).memorylimit) where
    abbrev one : Kernel
    one = set_proc k np (record (k.proc np) { sz = s })

    abbrev both : Kernel
    both = set_proc one m (record (one.proc m) { sz = s })

    one-Limited : Limited one
    one-Limited =
        set_proc-Limited k np (record (k.proc np) { sz = s }) h
          (of_thread s k (k.proc np) at_np refl fits)

    one-limit : (one.proc m).memorylimit ≡ (k.proc m).memorylimit
    one-limit = elim (ℕ_discrete np m) [
      | yes e ↦
          subst (λ x. (one.proc x).memorylimit ≡ (k.proc x).memorylimit) e
            (ap (λ (r : Proc). r.memorylimit)
              (update_self k.proc np (record (k.proc np) { sz = s })))
      | no ne ↦
          ap (λ (r : Proc). r.memorylimit)
            (update_ne k.proc np (record (k.proc np) { sz = s }) m ne)
    ]

    both-Limited : Limited both
    both-Limited =
        set_proc-Limited one m (record (one.proc m) { sz = s }) one-Limited
          (λ _. subst (Within s) (sym one-limit) fits)

start_thread-Keeps :
    (m np sz start arg : ℕ) (k : Kernel) → Keeps k (start_thread m np sz start arg k)
unfolding start_thread
start_thread-Keeps m np sz start arg k q =
    let new : Proc = record (k.proc np) {
      tf = record ((k.proc np).tf) { esp = sz - 8; eip = start };
      ofile = dup_files (k.proc m).ofile (k.proc np).ofile;
      cwd = (k.proc m).cwd;
      name = (k.proc m).name;
      state = runnable;
    } in
    let k2 : Kernel = set_proc (call (copyout (sz - 8) (0xffffffff ∷ arg ∷ [])) k) np new in
    call-Keeps (idup (k.proc m).cwd)
      (record k2 { calls = k2.calls ++ file_calls filedup (k.proc m).ofile }) q
    ∙ set_proc-Keeps k np new refl q

grow_stack-Limited :
    (room : Bool) (m np : ℕ) (k : Kernel)
    → (k.proc m).mainthread ≡ some m
    → (k.proc np).mainthread ≡ some m
    → (k.proc m).sz ≡ (k.proc np).sz
    → over_limit m k ≡ false
    → Limited k
    → Limited ((grow_stack room m np k).1)
unfolding over_limit grow_stack
grow_stack-Limited room m np k own at_np same t h =
    let limit = (k.proc m).memorylimit in
    let old = (k.proc np).sz in
    let sz = allocuvm room old (asked old (2 * pgsize)) in
    let fits : Within sz limit =
      subst (λ old. Within (allocuvm room old (asked old (2 * pgsize))) limit) same
        (allocuvm-le room (k.proc m).sz (asked (k.proc m).sz (2 * pgsize)) limit (h m own)
          (checked limit (asked (k.proc m).sz (2 * pgsize)) t)) in
    elim (Bool-cases (sz == 0)) [
      | inl z ↦ rw z (one-Limited m np k own at_np h sz fits)
      | inr z ↦ rw z (both-Limited m np k own at_np h sz fits)
    ]

set_stack-Limited :
    (copied : Bool) (m np sz start arg : ℕ) (k : Kernel)
    → Limited k
    → Limited ((set_stack copied m np sz start arg k).1)
unfolding set_stack
set_stack-Limited true m np sz start arg k h =
    Keeps-Limited k (start_thread m np sz start arg k) (start_thread-Keeps m np sz start arg k) h
set_stack-Limited false m np sz start arg k h =
    set_proc-Limited k np (record (k.proc np) { tf = record ((k.proc np).tf) { esp = sz - 8 } }) h
      (h np)

pub thread_create-Leaves :
    (page : Option ℕ) (room copied : Bool) (start arg me : ℕ) (k : Kernel)
    → ((m : ℕ) → (k.proc me).mainthread ≡ some m → (k.proc m).mainthread ≡ some m)
    → Limited k
    → Leaves (thread_create page room copied start arg me k)
unfolding thread_create
thread_create-Leaves page room copied start arg me k own h =
    let k0 : Kernel = (allocproc page k).1 in
    let h0 : Limited k0 = alloc-Limited page k h in
    elim (Option-cases ((allocproc page k).0)) [
      | inl e ↦ rw (e, thread_create) h0
      | inr (np, e) ↦ elim (Option-cases ((k.proc me).mainthread)) [
        | inl e' ↦ rw (e, thread_create, e') tt
        | inr (m, e') ↦
            let own0 : (k0.proc m).mainthread ≡ some m =
              ap (λ x. x.0) (allocproc-Keeps page k m) ∙ own m e' in
            let k1 : Kernel = share me m np k0 in
            let h1 : Limited k1 = share-Limited m np me k0 own0 h0 in
            elim (Bool-cases (over_limit m k1)) [
              | inl t ↦ rw (e, thread_create, e', t) h1
              | inr t ↦
                  let k2 : Kernel = (grow_stack room m np k1).1 in
                  let h2 : Limited k2 =
                    grow_stack-Limited room m np k1 (share-own m np me k0 own0 h0)
                      (share-np m np me k0 own0 h0) (share-sz m np me k0 own0 h0) t h1 in
                  elim (Option-cases ((grow_stack room m np k1).0)) [
                    | inl s ↦ rw (e, thread_create, e', t, s) h2
                    | inr (sz, s) ↦
                        rw (e, thread_create, e', t, s)
                          (set_stack-Limited copied m np sz start arg k2 h2)
                  ]
            ]
      ]
    ]
