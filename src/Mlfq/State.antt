-- ===== src/Mlfq/State.antt =====
-- The state of project1/proc.c: `struct proc` of proc.h, `ptable`, and the counters of trap.c.
-- A process is its index in `ptable.proc`; a pointer that may be null is an option. `ptable.lock`
-- is held through each critical section, so a section is one step and the lock is no field.
use ele3021_os.Common.{
  ℕ, zero, suc, List, [], ◌∷◌, ◌++◌, Bool, true, false, Option, none, some, ◌==◌, if◌then◌else◌,
  update,
}
use ele3021_os.Mlfq.Queue.{Queue, nproc}

-- enum procstate
pub data ProcState : Type 0 where
  unused embryo sleeping runnable running zombie : ProcState

abbrev pub same_state : ProcState → ProcState → Bool
same_state unused unused = true
same_state embryo embryo = true
same_state sleeping sleeping = true
same_state runnable runnable = true
same_state running running = true
same_state zombie zombie = true
same_state _ _ = false

-- The addresses that processes sleep on: a process (in `wait`), `&ticks`, or any other object.
pub data Chan : Type 0 where
  no_chan : Chan
  proc_chan : ℕ → Chan
  ticks_chan : Chan
  other_chan : ℕ → Chan

abbrev pub same_chan : Chan → Chan → Bool
same_chan no_chan no_chan = true
same_chan (proc_chan p) (proc_chan q) = p == q
same_chan ticks_chan ticks_chan = true
same_chan (other_chan p) (other_chan q) = p == q
same_chan _ _ = false

abbrev pub same_ptr : Option ℕ → Option ℕ → Bool
same_ptr none none = true
same_ptr (some p) (some q) = p == q
same_ptr _ _ = false

-- the registers of a trap frame that proc.c writes
pub record Trapframe : Type 0 where
  pub cs : ℕ
  pub ds : ℕ
  pub es : ℕ
  pub ss : ℕ
  pub eflags : ℕ
  pub esp : ℕ
  pub eip : ℕ
  pub eax : ℕ

-- `struct proc`. `context` only serves `swtch`, and is left out.
pub record Proc : Type 0 where
  pub sz : ℕ
  pub pgdir : Option ℕ
  pub kstack : Option ℕ
  pub state : ProcState
  pub pid : ℕ
  pub parent : Option ℕ
  pub tf : Trapframe
  pub chan : Chan
  pub killed : Bool
  pub ofile : List (Option ℕ)
  pub cwd : Option ℕ
  pub name : List ℕ
  pub priority : ℕ
  pub usedtime : ℕ
  pub level : ℕ

-- Calls into other parts of the kernel, in the order in which they are made, with their arguments. The
-- functions of proc.c do not test these pointers: a call with a null pointer is made like any other,
-- and what the callee does with it (kfree and freevm panic) is not part of the state here.
pub data Call : Type 0 where
  filedup fileclose switchuvm : ℕ → Call
  idup iput kfree freevm : Option ℕ → Call
  begin_op end_op switchkvm lapiceoi invalid_password print : Call

pub record Kernel : Type 0 where
  pub proc : ℕ → Proc
  pub lockproc : Option ℕ
  pub l : ℕ → Queue
  pub initproc : Option ℕ
  pub nextpid : ℕ
  -- `c->proc` of each CPU
  pub running_on : ℕ → Option ℕ
  pub ticks : ℕ
  pub mlfqticks : ℕ
  pub calls : List Call

-- A kernel function returns, or it panics.
pub data Result {ℓ} (A : Type ℓ) : Type ℓ where
  ok : A → Result A
  panic : Result A

infixl 5 ◌>>=◌
abbrev pub ◌>>=◌ {ℓ κ} : {A : Type ℓ} {B : Type κ} → Result A → (A → Result B) → Result B
ok a >>= f = f a
panic >>= f = panic

abbrev pub call : Call → Kernel → Kernel
call c k = record k { calls = k.calls ++ (c ∷ []) }

abbrev pub set_proc : Kernel → ℕ → Proc → Kernel
set_proc k p r = record k { proc = update k.proc p r }

abbrev pub set_queue : Kernel → ℕ → Queue → Kernel
set_queue k i q = record k { l = update k.l i q }

-- `for(p = ptable.proc; p < &ptable.proc[NPROC]; p++)` up to the first `p` that passes the test,
-- with `n` entries left from `p` on
unfoldable pub find_from : (Proc → Bool) → (ℕ → Proc) → ℕ → ℕ → Option ℕ
find_from test procs p zero = none
find_from test procs p (suc n) =
    let rest = find_from test procs (suc p) n in if test (procs p) then some p else rest

abbrev pub find_proc : (Proc → Bool) → Kernel → Option ℕ
find_proc test k = find_from test k.proc 0 nproc

-- the same loop where its body changes the kernel at every entry
unfoldable pub for_procs : (ℕ → Kernel → Kernel) → ℕ → ℕ → Kernel → Kernel
for_procs body p zero k = k
for_procs body p (suc n) k = for_procs body (suc p) n (body p k)
