-- ===== src/Pipe.antt =====
-- project1/pipe.c: a byte pipe in a ring of PIPESIZE bytes whose counters are `uint`. The lock of the
-- pipe is held from a call to its end or to the next sleep, so what runs in between is one step. A
-- caller that was woken goes on with the loop it slept in. `char` values are bytes as numbers.
pub mod Fifo
pub mod Reading
mod Tests
use ele3021_os.Common.{
  ℕ, zero, suc, ◌+◌, ◌-◌, ◌%◌, ◌^◌, List, [], ◌∷◌, ◌++◌, Bool, true, false, not, ◌&&◌, ◌||◌, Option,
  none, some, if◌then◌else◌, ◌==◌, update,
}

-- PIPESIZE
abbrev pub pipesize : ℕ
pipesize = 512

pub record Pipe : Type 0 where
  pub data' : ℕ → ℕ
  pub nread : ℕ
  pub nwrite : ℕ
  pub readopen : Bool
  pub writeopen : Bool

-- the two channels: `&p->nread` and `&p->nwrite`
pub data Channel : Type 0 where
  readers : Channel
  writers : Channel

-- How a step of `pipewrite` ends: it returned `n`, it returned -1, or it sleeps on `nwrite` with
-- these bytes left.
pub data Written : Type 0 where
  wrote : Written
  write_failed : Written
  write_sleeps : List ℕ → Written

-- How a step of `piperead` ends.
pub data Read : Type 0 where
  read : List ℕ → Read
  read_failed : Read
  read_sleeps : Read

abbrev pub is_full : Pipe → Bool
is_full p = p.nwrite == (p.nread + pipesize) % 2 ^ 32

abbrev pub is_empty : Pipe → Bool
is_empty p = p.nread == p.nwrite

-- `p->data[p->nwrite++ % PIPESIZE] = x`
unfoldable pub put : ℕ → Pipe → Pipe
put x p = record p {
  data' = update p.data' (p.nwrite % pipesize) x;
  nwrite = (p.nwrite + 1) % 2 ^ 32;
}

-- `pipewrite` from a byte of `addr` on; `killed` is that of the process. The list is the wakeups.
unfoldable pub pipewrite : Bool → List ℕ → Pipe → Written × Pipe × List Channel
pipewrite killed [] p = (wrote, p, readers ∷ [])
pipewrite killed (x ∷ xs) p =
    let next = pipewrite killed xs (put x p) in
    if is_full p
    then (if not p.readopen || killed
        then (write_failed, p, [])
        else (write_sleeps (x ∷ xs), p, readers ∷ []))
    else next

abbrev pub skip : Pipe → Pipe
skip p = record p { nread = (p.nread + 1) % 2 ^ 32 }

-- the copying loop of `piperead`, with `n` bytes wanted
unfoldable pub read_copy : ℕ → Pipe → List ℕ × Pipe
read_copy zero p = ([], p)
read_copy (suc n) p =
    let (xs, p') = read_copy n (skip p) in
    if is_empty p then ([], p) else (p.data' (p.nread % pipesize) ∷ xs, p')

unfoldable pub piperead : Bool → ℕ → Pipe → Read × Pipe × List Channel
unfolding read_copy
piperead killed n p =
    let (xs, p') = read_copy n p in
    if is_empty p && p.writeopen
    then (if killed then (read_failed, p, []) else (read_sleeps, p, []))
    else (read xs, p', writers ∷ [])

-- `pipeclose` gives the pipe, the wakeup, and whether the memory of the pipe is freed.
unfoldable pub pipeclose : Bool → Pipe → Pipe × Channel × Bool
pipeclose writable p =
    let p' = if writable then record p { writeopen = false } else record p { readopen = false } in
    (p', if writable then readers else writers, not p'.readopen && not p'.writeopen)

-- What `pipealloc` fills in for one of the two files.
pub record PipeFile : Type 0 where
  pub file : ℕ
  pub readable : Bool
  pub writable : Bool

pub data Allocated : Type 0 where
  allocated : Pipe → PipeFile → PipeFile → Allocated
  -- -1, after `fileclose` of these files
  alloc_failed : List ℕ → Allocated

-- The arguments are what `filealloc` would return twice, and the memory that `kalloc` would return.
-- (The last failing call of the three is the first that fails, so no pipe is ever freed here.)
unfoldable pub pipealloc : Option ℕ → Option ℕ → Option (ℕ → ℕ) → Allocated
pipealloc none f1 memory = alloc_failed []
pipealloc (some f0) none memory = alloc_failed (f0 ∷ [])
pipealloc (some f0) (some f1) none = alloc_failed (f0 ∷ f1 ∷ [])
pipealloc (some f0) (some f1) (some memory) =
    allocated (record { data' = memory; nread = 0; nwrite = 0; readopen = true; writeopen = true })
      (record { file = f0; readable = true; writable = false })
      (record { file = f1; readable = false; writable = true })
