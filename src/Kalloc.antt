-- ===== src/Kalloc.antt =====
-- project1/kalloc.c: the free list of pages, which runs through the pages themselves. `next` is the first
-- word of each page; what else `memset` leaves in a page is no state, nor is the lock. `end` is the first
-- address after the kernel.
pub mod Runs
mod Tests
use ele3021_os.Common.{
  ℕ, zero, suc, ◌+◌, ◌-◌, ◌*◌, ◌/◌, ◌%◌, Bool, true, false, not, ◌&&◌, ◌||◌, ltb, leb,
  if◌then◌else◌, ◌==◌, update,
}
use ele3021_os.Fs.State.{Result, ok, panic, ◌>>=◌}

-- PGSIZE, KERNBASE and PHYSTOP
abbrev pub pgsize : ℕ
pgsize = 4096

abbrev pub kernbase : ℕ
kernbase = 0x80000000

abbrev pub phystop : ℕ
phystop = 0xE000000

-- `kmem`; the null pointer is 0
pub record Kmem : Type 0 where
  pub freelist : ℕ
  pub next : ℕ → ℕ

-- `(uint)v % PGSIZE || v < end || V2P(v) >= PHYSTOP` for an address above KERNBASE
abbrev pub is_bad : ℕ → ℕ → Bool
is_bad end v = not (v % pgsize == 0) || ltb v end || leb phystop (v - kernbase)

unfoldable pub kfree : ℕ → ℕ → Kmem → Result Kmem
kfree end v k =
    if is_bad end v then panic else ok (record { freelist = v; next = update k.next v k.freelist })

unfoldable pub kalloc : Kmem → ℕ × Kmem
kalloc k =
    if k.freelist == 0 then (0, k) else (k.freelist, record k { freelist = k.next k.freelist })

-- the loop of `freerange` from page `p` on, in `n` rounds
unfoldable pub free_pages : ℕ → ℕ → ℕ → ℕ → Kmem → Result Kmem
free_pages zero end p vend k = ok k
free_pages (suc n) end p vend k =
    let round = (do k' ← kfree end p k; free_pages n end (p + pgsize) vend k') in
    if leb (p + pgsize) vend then round else ok k

-- PGROUNDUP
abbrev pub pgroundup : ℕ → ℕ
pgroundup v = (v + (pgsize - 1)) / pgsize * pgsize

-- There are no more rounds than pages below `vend`.
unfoldable pub freerange : ℕ → ℕ → ℕ → Kmem → Result Kmem
unfolding free_pages
freerange end vstart vend k = free_pages (vend / pgsize) end (pgroundup vstart) vend k
