-- ===== src/Threads/Limit/Setting.antt =====
-- `growproc`, `fork` and `setmemorylimit` of project2/proc.c set sizes and limits.
use ele3021_os.Common.{
  ℕ, ◌+◌, ◌-◌, ◌++◌, ◌^◌, ◌≤◌, ◌≡◌, Bool, true, false, not, ◌&&◌, Option, none, some, ◌==◌, ltb,
  update_self, update_ne, refl, sym, arith, Bool-cases, inl, inr, ◌⊎◌, ℕ_discrete, subst,
  Option-cases,
}
use ele3021_os.Mlfq.Life.{dup_files}
use ele3021_os.Mlfq.State.{unused, runnable, Result, ok, panic}
use ele3021_os.Threads.State.{
  Proc, Kernel, set_proc, find_proc, call, file_calls, filedup, idup, kfree, allocuvm, deallocuvm,
}
use ele3021_os.Threads.Process.{allocproc, grown, growproc, fork_child, fork}
use ele3021_os.Threads.Thread.{setmemorylimit}
use ele3021_os.Threads.Memory.{asked, sized}
use ele3021_os.Threads.Limit.Keeping.{memory, Keeps, call-Keeps, allocproc-Keeps}

-- a size within a limit; 0 is no limit
abbrev pub Within : ℕ → ℕ → Type 0
Within sz limit = (limit ≡ 0) ⊎ (sz ≤ limit)

-- of an entry that is its own main thread
abbrev pub MainWithin : Option ℕ × (ℕ × ℕ) → ℕ → Type 0
MainWithin x m = x.0 ≡ some m → Within x.1.0 x.1.1

-- Each main thread's size is within its limit.
abbrev pub Limited : Kernel → Type 0
Limited k = (m : ℕ) → MainWithin (memory (k.proc m)) m

pub Keeps-Limited : (k k' : Kernel) → Keeps k k' → Limited k → Limited k'
Keeps-Limited k k' keeps h m = subst (λ x. MainWithin x m) (sym (keeps m)) (h m)

pub set_proc-Limited :
    (k : Kernel) (p : ℕ) (r : Proc) → Limited k → MainWithin (memory r) p → Limited (set_proc k p r)
set_proc-Limited k p r h ok_r m = elim (ℕ_discrete p m) [
  | yes e ↦
      subst (λ x. MainWithin (memory ((set_proc k p r).proc x)) x) e
        (subst (λ (x : Proc). MainWithin (memory x) p) (sym (update_self k.proc p r)) ok_r)
  | no ne ↦ subst (λ (x : Proc). MainWithin (memory x) m) (sym (update_ne k.proc p r m ne)) (h m)
]

pub allocuvm-le :
    (room : Bool) (sz new limit : ℕ)
    → Within sz limit
    → Within new limit
    → Within (allocuvm room sz new) limit
unfolding allocuvm
allocuvm-le room sz new limit h h' = ground arith

deallocuvm-le :
    (sz new limit : ℕ) → Within sz limit → Within new limit → Within (deallocuvm sz new) limit
unfolding deallocuvm
deallocuvm-le sz new limit h h' = ground arith

pub checked : (limit new : ℕ) → (not (limit == 0) && ltb limit new) ≡ false → Within new limit
checked limit new h = elim (ℕ_discrete limit 0) [
  | yes z ↦ inl z
  | no nz ↦ inr (ground (arith, h, nz))
]

pub some-some : {a b : ℕ} → some a ≡ some b → a ≡ b
some-some e = cc

sized-Within :
    (room : Bool) (sz n limit : ℕ)
    → Within sz limit
    → Within (asked sz n) limit
    → Within (sized room sz n) limit
sized-Within room sz n limit h h' = elim (Bool-cases (ltb n (2 ^ 31))) [
  | inl t ↦ rw t (allocuvm-le room sz (asked sz n) limit h h')
  | inr t ↦ rw t (deallocuvm-le sz (asked sz n) limit h h')
]

grown-Limited :
    (me m s : ℕ) (k : Kernel)
    → Limited k
    → ((k.proc m).mainthread ≡ some m → Within s (k.proc m).memorylimit)
    → Limited ((grown me m s k).1)
unfolding grown
grown-Limited me m s k h within = set_proc-Limited k m (record (k.proc m) { sz = s }) h within

-- of the kernel in a result, where there is one
abbrev pub Leaves {ℓ} : {A : Type ℓ} → Result (A × Kernel) → Type 0
Leaves panic = Unit {0}
Leaves (ok x) = Limited x.1

pub growproc-Leaves :
    (room : Bool) (me n : ℕ) (k : Kernel) → Limited k → Leaves (growproc room me n k)
unfolding growproc
growproc-Leaves room me n k h = elim (Option-cases (k.proc me).mainthread) [
  | inl e ↦ rw (e, growproc) tt
  | inr (m, e) ↦
      let new = asked (k.proc m).sz n in
      let limit = (k.proc m).memorylimit in
      elim (Bool-cases (not (limit == 0) && ltb limit new)) [
        | inl t ↦ rw (e, growproc, t) h
        | inr t ↦ elim (Bool-cases (n == 0)) [
          | inl z ↦
              rw (e, growproc, t, z)
                (grown-Limited me m (k.proc m).sz (record k { locked = true }) h (h m))
          | inr z ↦ elim (Bool-cases (sized room (k.proc m).sz n == 0)) [
            | inl f ↦ rw (e, growproc, t, z, f) h
            | inr f ↦
                rw (e, growproc, t, z, f)
                  (grown-Limited me m (sized room (k.proc m).sz n) (record k { locked = true }) h
                    (λ main.
                      sized-Within room (k.proc m).sz n limit (h m main) (checked limit new t)))
          ]
        ]
      ]
]

fork_child-Limited : (me np d : ℕ) (k : Kernel) → Limited k → Limited (fork_child me np d k)
unfolding fork_child
fork_child-Limited me np d k h =
    let new : Proc = child in
    let k1 = set_proc k np new in
    Keeps-Limited k1 (fork_child me np d k)
      (λ q.
        call-Keeps (idup (k.proc me).cwd)
          (record (set_proc (record k { nextpid = k.nextpid + 1 }) np new) {
            calls = k.calls ++ file_calls filedup (k.proc me).ofile;
          })
          q)
      (set_proc-Limited k np new h (λ _. inl refl))
  where
    child : Proc
    child = record (k.proc np) {
      pgdir = some d;
      sz = (k.proc me).sz;
      parent = some me;
      tf = record ((k.proc me).tf) { eax = 0 };
      mainthread = some np;
      pid = k.nextpid;
      tid = 0;
      stacksize = (k.proc me).stacksize;
      memorylimit = 0;
      ofile = dup_files (k.proc me).ofile (k.proc np).ofile;
      cwd = (k.proc me).cwd;
      name = (k.proc me).name;
      state = runnable;
    }

pub alloc-Limited : (page : Option ℕ) (k : Kernel) → Limited k → Limited ((allocproc page k).1)
alloc-Limited page k h = Keeps-Limited k ((allocproc page k).1) (allocproc-Keeps page k) h

pub fork-Limited :
    (page pgdir : Option ℕ) (me : ℕ) (k : Kernel) → Limited k → Limited ((fork page pgdir me k).1)
unfolding fork
fork-Limited page pgdir me k h =
    let k1 : Kernel = (allocproc page k).1 in
    let h1 : Limited k1 = alloc-Limited page k h in
    elim (Option-cases ((allocproc page k).0)) [
      | inl e ↦ rw (e, fork) h1
      | inr (np, e) ↦ elim (Option-cases pgdir) [
        | inr (d, e') ↦ rw (e, fork, e') (fork_child-Limited me np d k1 h1)
        | inl e' ↦
            let k2 : Kernel = call (kfree (k1.proc np).kstack) k1 in
            rw (e, fork, e')
              (set_proc-Limited k2 np
                (record (k1.proc np) { pgdir = none; kstack = none; state = unused })
                (Keeps-Limited k1 k2 (call-Keeps (kfree (k1.proc np).kstack) k1) h1) (h1 np))
      ]
    ]

pub setmemorylimit-Limited :
    (pid limit : ℕ) (k : Kernel) → Limited k → Limited ((setmemorylimit pid limit k).1)
unfolding setmemorylimit
setmemorylimit-Limited pid limit k h = elim (Bool-cases (ltb (2 ^ 31 - 1) limit)) [
  | inl t ↦ rw t h
  | inr t ↦ elim (Option-cases (find_proc (λ p. p.pid == pid) k)) [
    | inl e ↦ rw (t, e, setmemorylimit) h
    | inr (p, e) ↦ elim (Bool-cases (ltb limit (k.proc p).sz)) [
      | inl l ↦ rw (t, e, setmemorylimit, l) h
      | inr l ↦
          rw (t, e, setmemorylimit, l)
            (set_proc-Limited k p (record (k.proc p) { memorylimit = limit }) h
              (λ _. inr (ground (arith, l))))
    ]
  ]
]
