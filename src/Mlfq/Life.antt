-- ===== src/Mlfq/Life.antt =====
-- The life of a process: `pinit`, `allocproc`, `userinit`, `fork`, `exit` and `wait` of
-- project1/proc.c. What `kalloc`, `setupkvm`, `copyuvm` and `namei` return is an argument.
use ele3021_os.Common.{
  ℕ, zero, suc, ◌+◌, ◌*◌, List, [], ◌∷◌, Bool, false, not, ◌&&◌, ◌||◌, Option, none, some,
  if◌then◌else◌, map,
}
use ele3021_os.Mlfq.Queue.{nproc}
use ele3021_os.Mlfq.State.{
  unused, embryo, zombie, same_state, Chan, no_chan, proc_chan, same_ptr, Trapframe, filedup,
  fileclose, idup, iput, kfree, freevm, begin_op, end_op, Kernel, Result, ok, panic, call, set_proc,
  find_proc, for_procs,
}
use ele3021_os.Mlfq.Sleep.{make_runnable, sched, sleep, wakeup1}

unfoldable pub pinit : Kernel → Kernel
pinit k = record k {
  lockproc = none;
  l = λ i. record (k.l i) { size = 0; timequantum = 2 * i + 4 };
}

unfoldable pub set_found : Option ℕ → ℕ → Kernel → Option ℕ × Kernel
set_found page p k =
    let r = record (k.proc p) {
      state = embryo;
      pid = k.nextpid;
      priority = 3;
      usedtime = 0;
      level = 0;
    } in
    let k' = record k { nextpid = k.nextpid + 1 } in
    elim page [
      | none ↦ (none, set_proc k' p (record r { kstack = none; state = unused }))
      | some s ↦ (some p, set_proc k' p (record r { kstack = some s }))
    ]

-- `page` is what `kalloc` returns
unfoldable pub allocproc : Option ℕ → Kernel → Option ℕ × Kernel
unfolding set_found
allocproc page k = elim (find_proc (λ p. same_state p.state unused) k) [
  | none ↦ (none, k)
  | some p ↦ set_found page p k
]

abbrev pub initcode_name : List ℕ
initcode_name = b'i' ∷ b'n' ∷ b'i' ∷ b't' ∷ b'c' ∷ b'o' ∷ b'd' ∷ b'e' ∷ []

abbrev pub pgsize : ℕ
pgsize = 4096

-- The frame of the first process: `SEG_UCODE << 3 | DPL_USER`, `SEG_UDATA << 3 | DPL_USER`, `FL_IF`.
abbrev pub init_frame : Trapframe
init_frame = record {
  cs = 27;
  ds = 35;
  es = 35;
  ss = 35;
  eflags = 0x200;
  esp = pgsize;
  eip = 0;
  eax = 0;
}

-- A null `allocproc()` is dereferenced, which is a fault.
unfoldable pub userinit : Option ℕ → Option ℕ → ℕ → Kernel → Result Kernel
unfolding allocproc make_runnable
userinit page pgdir root k =
    let (r, k1) = allocproc page k in
    elim r [
      | none ↦ panic
      | some p ↦ elim pgdir [
        | none ↦ panic
        | some d ↦
            let k2 = record k1 { initproc = some p } in
            ok (
              make_runnable p (
                set_proc k2 p (record (k2.proc p) {
                  pgdir = some d;
                  sz = pgsize;
                  tf = init_frame;
                  name = initcode_name;
                  cwd = some root;
                })))
      ]
    ]

-- `if(curproc->ofile[i]) np->ofile[i] = filedup(curproc->ofile[i])` for each `i`
unfoldable pub dup_files : List (Option ℕ) → List (Option ℕ) → List (Option ℕ)
dup_files [] old = old
dup_files (f ∷ fs) [] = []
dup_files (none ∷ fs) (o ∷ old) = o ∷ dup_files fs old
dup_files (some f ∷ fs) (o ∷ old) = some f ∷ dup_files fs old

unfoldable pub call_files : (ℕ → Kernel → Kernel) → List (Option ℕ) → Kernel → Kernel
call_files body [] k = k
call_files body (none ∷ fs) k = call_files body fs k
call_files body (some f ∷ fs) k = call_files body fs (body f k)

-- the child `np` of `me`, with its page table
unfoldable pub fork_child : ℕ → ℕ → ℕ → Kernel → Kernel
unfolding dup_files call_files make_runnable
fork_child me np d k =
    let cur = k.proc me in
    let new = k.proc np in
    let k1 = set_proc k np (record new {
      pgdir = some d;
      sz = cur.sz;
      parent = some me;
      tf = record (cur.tf) { eax = 0 };
      ofile = dup_files cur.ofile new.ofile;
      cwd = cur.cwd;
      name = cur.name;
    }) in
    let k2 = call_files (λ f. call (filedup f)) cur.ofile k1 in
    make_runnable np (call (idup cur.cwd) k2)

-- the child's pid, or none for -1
unfoldable pub fork : ℕ → Option ℕ → Option ℕ → Kernel → Option ℕ × Kernel
unfolding allocproc fork_child
fork me page pgdir k =
    let (r, k1) = allocproc page k in
    elim r [
      | none ↦ (none, k1)
      | some np ↦ elim pgdir [
        | none ↦
            let k2 = call (kfree (k1.proc np).kstack) k1 in
            (
              none,
              set_proc k2 np (record (k2.proc np) { pgdir = none; kstack = none; state = unused }),
            )
        | some d ↦ (some (k1.proc np).pid, fork_child me np d k1)
      ]
    ]

abbrev pub chan_of : Option ℕ → Chan
chan_of none = no_chan
chan_of (some p) = proc_chan p

unfoldable pub pass_to_init : ℕ → ℕ → Kernel → Kernel
unfolding wakeup1
pass_to_init me p k =
    if same_ptr (k.proc p).parent (some me)
    then (let k' = set_proc k p (record (k.proc p) { parent = k.initproc }) in
        if same_state (k.proc p).state zombie then wakeup1 (chan_of k.initproc) k' else k')
    else k

-- closing the files and the directory
unfoldable pub exit_files : ℕ → Kernel → Kernel
unfolding call_files
exit_files me k =
    let cur = k.proc me in
    let k1 = call_files (λ f. call (fileclose f)) cur.ofile k in
    let k2 = call end_op (call (iput cur.cwd) (call begin_op k1)) in
    set_proc k2 me (record (k2.proc me) { ofile = map (λ _. none) cur.ofile; cwd = none })

-- from `acquire` up to `sched`
unfoldable pub exit_table : ℕ → Kernel → Kernel
unfolding wakeup1 pass_to_init for_procs
exit_table me k =
    let k1 = for_procs (pass_to_init me) 0 nproc (wakeup1 (chan_of (k.proc me).parent) k) in
    record (set_proc k1 me (record (k1.proc me) { state = zombie })) { lockproc = none }

unfoldable pub exit : ℕ → ℕ → Kernel → Result Kernel
unfolding exit_files exit_table sched
exit cpu me k =
    if same_ptr (some me) k.initproc then panic else sched cpu me (exit_table me (exit_files me k))

pub data Wait : Type 0 where
  reaped : ℕ → Kernel → Wait
  failed : Kernel → Wait
  sleeps : Result Kernel → Wait

unfoldable pub reap : ℕ → Kernel → Kernel
reap p k =
    let k1 = call (kfree (k.proc p).kstack) k in
    let k2 = call (freevm (k1.proc p).pgdir) k1 in
    set_proc k2 p (record (k2.proc p) {
      kstack = none;
      pid = 0;
      parent = none;
      name = [];
      killed = false;
      state = unused;
    })

-- the scan for a zombie child, from entry `p` on
unfoldable pub wait_scan : ℕ → ℕ → ℕ → ℕ → Bool → Kernel → Wait
unfolding reap sleep
wait_scan cpu me p zero havekids k =
    if not havekids || (k.proc me).killed then failed k else sleeps (sleep cpu me (proc_chan me) k)
wait_scan cpu me p (suc n) havekids k =
    let is_child = same_ptr (k.proc p).parent (some me) in
    let rest = wait_scan cpu me (suc p) n (havekids || is_child) k in
    if is_child && same_state (k.proc p).state zombie
    then reaped (k.proc p).pid (reap p k)
    else rest

-- one round of the loop of `wait`
unfoldable pub wait : ℕ → ℕ → Kernel → Wait
unfolding wait_scan
wait cpu me k = wait_scan cpu me 0 nproc false k
