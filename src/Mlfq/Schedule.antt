-- ===== src/Mlfq/Schedule.antt =====
-- One round of `mlfqscheduler` of project1/proc.c, up to its `swtch` to the chosen process.
-- (`scheduler` only calls it, and `Sleep.leave` is what follows the `swtch`.)
pub mod Pick
use ele3021_os.Common.{
  ℕ, zero, suc, ◌+◌, ◌-◌, List, Bool, Option, none, some, ◌==◌, ltb, leb, if◌then◌else◌, update,
  get_or,
}
use ele3021_os.Mlfq.Queue.{Queue, dequeue, remove}
use ele3021_os.Mlfq.State.{ProcState, running, Proc, switchuvm, Kernel, call, set_proc, set_queue}

-- the front of the first queue from `L[i]` on, in `n` rounds, that is not empty
unfoldable pub front_from : (ℕ → Queue) → ℕ → ℕ → Option ℕ
front_from l i zero = none
front_from l i (suc n) =
    let rest = front_from l (suc i) n in
    if ltb 0 (l i).size then some (get_or (l i).procs 0 0) else rest

-- `for(i = 1; i < ptable.L[2].size; i++)`, with `n` rounds left
unfoldable pub best_from : (ℕ → ℕ) → List ℕ → ℕ → ℕ → ℕ → ℕ
best_from priority_of procs i zero p = p
best_from priority_of procs i (suc n) p =
    let q = get_or procs i 0 in
    best_from priority_of procs (suc i) n (if ltb (priority_of q) (priority_of p) then q else p)

unfoldable pub pick : Kernel → Option ℕ
unfolding front_from best_from
pick k = elim (front_from k.l 0 3) [
  | none ↦ none
  | some p ↦
      if (k.proc p).level == 2
      then some (best_from (λ q. (k.proc q).priority) (k.l 2).procs 1 ((k.l 2).size - 1) p)
      else some p
]

-- taking the chosen process out of its queue
unfoldable pub take_out : ℕ → Kernel → Kernel
take_out p k =
    let lev = (k.proc p).level in
    if lev == 2
    then set_queue k 2 (remove (λ q. (k.proc q).pid) (k.l 2) (k.proc p).pid)
    else set_queue k lev (dequeue (k.l lev))

-- `p->usedtime++`, and what the end of the time quantum does
unfoldable pub charge : (ℕ → ℕ) → Proc → Proc
charge quantum p =
    if leb (quantum p.level) (p.usedtime + 1)
    then (if ltb p.level 2
        then record p { usedtime = 0; level = p.level + 1 }
        else (if ltb 0 p.priority
            then record p { usedtime = 0; priority = p.priority - 1 }
            else record p { usedtime = 0 }))
    else record p { usedtime = p.usedtime + 1 }

unfoldable pub run_proc : ℕ → ℕ → Kernel → Kernel
unfolding take_out charge
run_proc cpu p k =
    let k1 = call (switchuvm p) (record k { running_on = update k.running_on cpu (some p) }) in
    let k2 = take_out p (set_proc k1 p (record (k1.proc p) { state = running })) in
    set_proc k2 p (charge (λ i. (k2.l i).timequantum) (k2.proc p))

unfoldable pub mlfqscheduler : ℕ → Kernel → Kernel
unfolding pick run_proc
mlfqscheduler cpu k =
    let idle = record k { running_on = update k.running_on cpu none } in
    elim (pick k) [ none ↦ idle | some p ↦ run_proc cpu p idle ]
