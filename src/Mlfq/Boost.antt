-- ===== src/Mlfq/Boost.antt =====
-- `priorityboosting` of project1/proc.c.
pub mod Contents
use ele3021_os.Common.{
  ℕ, zero, suc, ◌+◌, List, Bool, Option, none, some, ltb, if◌then◌else◌, get_or,
}
use ele3021_os.Mlfq.Queue.{Queue, dequeue, enqueue}
use ele3021_os.Mlfq.State.{Proc, Kernel, set_proc, set_queue}

abbrev pub boosted : Proc → Proc
boosted p = record p { priority = 3; usedtime = 0; level = 0 }

-- `dequeue(&ptable.L[i]); enqueue(&ptable.L[0], p)`
unfoldable pub move_front : ℕ → ℕ → Kernel → Kernel
move_front i p k = let k' = set_queue k i (dequeue (k.l i)) in set_queue k' 0 (enqueue (k'.l 0) p)

-- the body of the inner loop, for the front process of queue `i`
unfoldable pub boost_front : ℕ → Kernel → Kernel
unfolding move_front
boost_front i k =
    let p = get_or (k.l i).procs 0 0 in
    let k' = set_proc k p (boosted (k.proc p)) in if ltb 0 i then move_front i p k' else k'

-- `for(s = 0; s < ptable.L[i].size; s++)`: no round lengthens queue `i`, so its size is enough fuel
unfoldable pub boost_loop : ℕ → ℕ → ℕ → Kernel → Kernel
boost_loop zero i s k = k
boost_loop (suc fuel) i s k =
    let rest = boost_loop fuel i (suc s) (boost_front i k) in if ltb s (k.l i).size then rest else k

unfoldable pub boost_level : ℕ → Kernel → Kernel
unfolding boost_loop boost_front
boost_level i k = boost_loop (k.l i).size i 0 k

unfoldable pub unlock_boosted : Kernel → Kernel
unlock_boosted k = elim (k.lockproc) [
  | none ↦ k
  | some p ↦ set_proc (record k { lockproc = none }) p (boosted (k.proc p))
]

unfoldable pub priorityboosting : Kernel → Kernel
unfolding boost_level unlock_boosted
priorityboosting k = unlock_boosted (boost_level 2 (boost_level 1 (boost_level 0 k)))
