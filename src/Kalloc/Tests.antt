-- ===== src/Kalloc/Tests.antt =====
-- `kalloc` of project1/kalloc.c after pages were freed.
use ele3021_os.Common.{ℕ, ◌+◌, ◌-◌, ◌≡◌, ◌≢◌, ◌⊎◌, refl, arith, Bool, true, false, update}
use ele3021_os.Fs.State.{ok}
use ele3021_os.Kalloc.{Kmem, kfree, kalloc, freerange, free_pages}
use ele3021_os.Kalloc.Runs.{Run, Run-kalloc}

-- two pages above an end of the kernel at 0x80100000
abbrev first : ℕ
first = 0x80100000

abbrev second : ℕ
second = 0x80101000

abbrev empty : Kmem
empty = record { freelist = 0; next = λ v. 0 }

abbrev one : Kmem
one = record { freelist = first; next = update (λ v. 0) first 0 }

abbrev two : Kmem
two = record { freelist = second; next = update (update (λ v. 0) first 0) second first }

free_first : kfree first first empty ≡ ok one
unfolding kfree
free_first = refl

free_second : kfree first second one ≡ ok two
unfolding kfree
free_second = refl

abbrev used : ℕ → Bool
used = update (update (λ v. true) first false) second false

Run-kalloc_example :
    ((kalloc two ≡ (0, two)) × ((v : ℕ) → used v ≡ true))
    ⊎ ((p : ℕ) × (k' : Kmem) × (kalloc two ≡ (p, k')) × (p ≢ 0) × (used p ≡ false))
Run-kalloc_example = Run-kalloc (
    Run.frees (Run.frees (Run.start empty refl) first one refl (omega arith) free_first) second two
      refl (omega arith) free_second)

freerange_run : freerange first (first - 5) (first + 8192) empty ≡ ok two
unfolding freerange free_pages kfree
freerange_run = refl
