-- ===== src/Kalloc/Runs.antt =====
-- Runs of `kalloc` and `kfree` of project1/kalloc.c.
use ele3021_os.Common.{
  ℕ, zero, suc, ◌≤◌, ◌/◌, ◌+◌, ◌≡◌, ◌≢◌, ◌⊎◌, inl, inr, List, [], ◌∷◌, Bool, true, false, not, ◌||◌,
  leb, ◌==◌, ==-refl, update, update_self, update_ne, refl, sym, ap, ◌∙◌, arith, Bool-cases,
  ℕ_discrete, subst,
}
use ele3021_os.Fs.State.{ok, panic, bind-cong}
use ele3021_os.Kalloc.{pgsize, Kmem, is_bad, kfree, kalloc, free_pages}

-- Runs from an empty free list. `used v` says that page `v` is in use: all are at first, and `kfree` is
-- called on a page that is. Who uses a page writes to it. (Page 0 is the null pointer.)
pub data Run (end : ℕ) : (ℕ → Bool) → Kmem → Type 0 where
  start : (k : Kmem) → k.freelist ≡ 0 → Run end (λ v. true) k
  frees :
      {used : ℕ → Bool} {k : Kmem}
      → Run end used k
      → (v : ℕ) (k' : Kmem) → used v ≡ true
      → v ≢ 0
      → kfree end v k ≡ ok k'
      → Run end (update used v false) k'
  allocs :
      {used : ℕ → Bool} {k : Kmem}
      → Run end used k
      → (p : ℕ) (k' : Kmem) → kalloc k ≡ (p, k')
      → p ≢ 0
      → Run end (update used p true) k'
  writes :
      {used : ℕ → Bool} {k : Kmem}
      → Run end used k
      → (v x : ℕ) → used v ≡ true
      → Run end used (record k { next = update k.next v x })

-- is in a list
has : ℕ → List ℕ → Bool
has v [] = false
has v (x ∷ xs) = (x == v) || has v xs

-- The pages from `p` on that are linked by `next`, each once.
Chain : (ℕ → ℕ) → ℕ → List ℕ → Type 0
Chain next p [] = p ≡ 0
Chain next p (x ∷ xs) = (p ≡ x) × (x ≢ 0) × (has x xs ≡ false) × Chain next (next x) xs

record IsFree (used : ℕ → Bool) (k : Kmem) (xs : List ℕ) : Type 0 where
  chain : Chain k.next k.freelist xs
  exact : (v : ℕ) → has v xs ≡ not (used v)

out-cons : (v x : ℕ) (xs : List ℕ) → has v (x ∷ xs) ≡ false → (v ≢ x) × (has v xs ≡ false)
unfolding has
out-cons v x xs h = elim (ℕ_discrete x v) [
  | yes e ↦ let t : (x == v) ≡ true = ground (arith, e) in absurd (true-false (sym (rw t refl) ∙ h))
  | no ne ↦ let t : (x == v) ≡ false = ground (arith, ne) in (λ e. ne (sym e), rw t at h)
]
  where
    true-false : true ≢ false
    true-false e = cc

Chain-update :
    (next : ℕ → ℕ) (v a p : ℕ) (xs : List ℕ)
    → has v xs ≡ false
    → Chain next p xs
    → Chain (update next v a) p xs
unfolding Chain
Chain-update next v a p [] out c = c
Chain-update next v a p (x ∷ xs) out (e, nz, once, c) =
    let (ne, out') = out-cons v x xs out in
    (
      e,
      nz,
      once,
      subst (λ q. Chain (update next v a) q xs) (sym (update_ne next v a x ne))
          (Chain-update next v a (next x) xs out' c),
    )

free-out :
    (used : ℕ → Bool) (k : Kmem) (xs : List ℕ) (v : ℕ)
    → IsFree used k xs
    → used v ≡ true
    → has v xs ≡ false
free-out used k xs v f u = f.exact v ∙ ap not u

frees-IsFree :
    (used : ℕ → Bool) (k : Kmem) (xs : List ℕ) (v : ℕ)
    → IsFree used k xs
    → used v ≡ true
    → v ≢ 0
    → IsFree
        (update used v false)
        (record { freelist = v; next = update k.next v k.freelist })
        (v ∷ xs)
unfolding Chain has
frees-IsFree used k xs v f u nz =
    let out = free-out used k xs v f u in
    record {
      chain = (
        refl,
        nz,
        out,
        subst (λ q. Chain (update k.next v k.freelist) q xs) (sym (update_self k.next v k.freelist))
            (Chain-update k.next v k.freelist k.freelist xs out f.chain),
      );
      exact = λ q. elim (ℕ_discrete v q) [
        | yes e ↦ let t : (v == q) ≡ true = ground (arith, e) in rw t refl
        | no ne ↦ let t : (v == q) ≡ false = ground (arith, ne) in rw t (f.exact q)
      ];
    }

allocs-IsFree :
    (used : ℕ → Bool) (k : Kmem) (x : ℕ) (xs : List ℕ)
    → IsFree used k (x ∷ xs)
    → IsFree (update used x true) (record k { freelist = k.next x }) xs
unfolding Chain has
allocs-IsFree used k x xs f =
    let (e, nz, once, c) = f.chain in
    record {
      chain = c;
      exact = λ q. elim (ℕ_discrete x q) [
        | yes xq ↦
            let t : (x == q) ≡ true = ground (arith, xq) in
            rw t (subst (λ y. has y xs ≡ false) xq once)
        | no ne ↦
            let t : (x == q) ≡ false = ground (arith, ne) in let h = f.exact q in rw t (rw t at h)
      ];
    }

-- the pages that are free in a run
Free : (ℕ → Bool) → Kmem → Type 0
Free used k = (xs : List ℕ) × IsFree used k xs

kalloc-Free :
    (used : ℕ → Bool) (k : Kmem) (xs : List ℕ)
    → IsFree used k xs
    → ((kalloc k ≡ (0, k)) × ((v : ℕ) → used v ≡ true))
      ⊎ ((p : ℕ) × (k' : Kmem) × (kalloc k ≡ (p, k'))
          × (p ≢ 0)
          × (used p ≡ false)
          × Free (update used p true) k')
unfolding kalloc Chain has Free
kalloc-Free used k [] f =
    let z = f.chain in
    let t : (k.freelist == 0) ≡ true = ground (arith, z) in
    inl (rw t refl, λ v. not-false (used v) (sym (f.exact v)))
  where
    not-false : (b : Bool) → not b ≡ false → b ≡ true
    not-false true e = refl
    not-false false e = sym e
kalloc-Free used k (x ∷ xs) f =
    let (e, nz, once, c) = f.chain in
    let t : (k.freelist == 0) ≡ false = ground (arith, e, nz) in
    let s : (x == x) ≡ true = ==-refl x in
    let here = f.exact x in
    inr (
      x,
      record k { freelist = k.next x },
      rw (t, e) refl,
      nz,
      not-true (used x) (sym (rw s at here)),
      (xs, allocs-IsFree used k x xs f),
    )
  where
    not-true : (b : Bool) → not b ≡ true → b ≡ false
    not-true true e = sym e
    not-true false e = refl

ok-ok : {a b : Kmem} → ok a ≡ ok b → a ≡ b
ok-ok e = cc

panic-ok : {a : Kmem} → panic ≢ ok a
panic-ok e = cc

kfree-Free :
    (end : ℕ) (used : ℕ → Bool) (k k' : Kmem) (v : ℕ)
    → Free used k
    → used v ≡ true
    → v ≢ 0
    → kfree end v k ≡ ok k'
    → Free (update used v false) k'
unfolding kfree Free
kfree-Free end used k k' v (xs, f) u nz e = elim (Bool-cases (is_bad end v)) [
  | inl t ↦ absurd (panic-ok (rw t at e))
  | inr t ↦
      subst (Free (update used v false)) (ok-ok (rw t at e))
        (v ∷ xs, frees-IsFree used k xs v f u nz)
]

after_kalloc-Free :
    (used : ℕ → Bool) (k k' : Kmem) (p : ℕ)
    → Free used k
    → kalloc k ≡ (p, k')
    → p ≢ 0
    → Free (update used p true) k'
unfolding Free
after_kalloc-Free used k k' p (xs, f) e nz = elim (kalloc-Free used k xs f) [
  | inl (z, full) ↦ absurd (nz (ap (λ (x : ℕ × Kmem). x.0) (sym e ∙ z)))
  | inr (q, k1, e1, nz1, unused, free) ↦
      subst (λ (x : ℕ × Kmem). Free (update used x.0 true) x.1) (sym e1 ∙ e) free
]

writes-Free :
    (used : ℕ → Bool) (k : Kmem) (v x : ℕ)
    → Free used k
    → used v ≡ true
    → Free used (record k { next = update k.next v x })
unfolding Free
writes-Free used k v x (xs, f) u = (
  xs,
  record {
    chain = Chain-update k.next v x k.freelist xs (free-out used k xs v f u) f.chain;
    exact = f.exact;
  },
)

Run-Free : {end : ℕ} {used : ℕ → Bool} {k : Kmem} → Run end used k → Free used k
unfolding Free Chain has
Run-Free (Run.start k empty) = ([], record { chain = empty; exact = λ v. refl })
Run-Free {end} (Run.frees {used} {k} run v k' u nz e) =
    kfree-Free end used k k' v (Run-Free run) u nz e
Run-Free (Run.allocs {used} {k} run p k' e nz) = after_kalloc-Free used k k' p (Run-Free run) e nz
Run-Free (Run.writes {used} {k} run v x u) = writes-Free used k v x (Run-Free run) u

-- In a run of `kalloc` and `kfree` in which pages in use are freed once each, and are written to by whoever
-- uses them, `kalloc` never gives a page that is in use, and it gives 0 only where all are.
pub Run-kalloc :
    {end : ℕ} {used : ℕ → Bool} {k : Kmem}
    → Run end used k
    → ((kalloc k ≡ (0, k)) × ((v : ℕ) → used v ≡ true))
      ⊎ ((p : ℕ) × (k' : Kmem) × (kalloc k ≡ (p, k')) × (p ≢ 0) × (used p ≡ false))
unfolding Free
Run-kalloc {end} {used} {k} run =
    let (xs, f) = Run-Free run in
    elim (kalloc-Free used k xs f) [
      | inl full ↦ inl full
      | inr (p, k', e, nz, unused, free) ↦ inr (p, k', e, nz, unused)
    ]

-- The rounds that `freerange` has are enough: one more changes nothing.
free_pages-suc :
    (n end p vend : ℕ) (k : Kmem)
    → vend / pgsize ≤ p / pgsize + n
    → free_pages (suc n) end p vend k ≡ free_pages n end p vend k
unfolding free_pages
free_pages-suc zero end p vend k h =
    let t : leb (p + pgsize) vend ≡ false = ground (arith, h) in rw t refl
free_pages-suc (suc n) end p vend k h = elim (Bool-cases (leb (p + pgsize) vend)) [
  | inr t ↦ rw t refl
  | inl t ↦ rw t (
      bind-cong (kfree end p k) (free_pages (suc n) end (p + pgsize) vend)
        (free_pages n end (p + pgsize) vend)
        (λ k'. free_pages-suc n end (p + pgsize) vend k' (omega (arith, h))))
]
