-- ===== src/Threads/Memory.antt =====
-- `growproc` of project2/proc.c.
use ele3021_os.Common.{
  ℕ, ◌+◌, ◌%◌, ◌^◌, ◌<◌, ◌≤◌, ◌≡◌, ◌≢◌, Bool, true, false, [], ◌∷◌, ◌++◌, not, ◌&&◌, some, ◌==◌,
  ltb, leb, if◌then◌else◌, update, update_self, update_ne, refl, sym, ap, ◌∙◌, arith, Bool-cases,
  inl, inr, ◌⊎◌, ℕ_discrete, dec_lt, subst,
}
use ele3021_os.Mlfq.State.{ok}
use ele3021_os.Threads.State.{Proc, Kernel, switchuvm, kernbase, allocuvm, deallocuvm}
use ele3021_os.Threads.Process.{grown, growproc}

-- the new size that is asked for, of a size and the pattern of an `int`
abbrev pub asked : ℕ → ℕ → ℕ
asked sz n = (sz + n) % 2 ^ 32

-- `s` is what `n`, as a signed number, makes of the size `sz`; too large a decrease changes nothing.
pub record NewSize (sz n s : ℕ) : Type 0 where
  pub up : n < 2 ^ 31 → s ≡ sz + n
  pub down : 2 ^ 31 ≤ n → 2 ^ 32 ≤ sz + n → s + 2 ^ 32 ≡ sz + n
  pub stay : 2 ^ 31 ≤ n → sz + n < 2 ^ 32 → s ≡ sz

-- why a change of the size `sz` by `n` is refused: it passes the limit, or it is an increase that
-- reaches the kernel or finds no pages, or a decrease that leaves nothing or has nothing to take
pub data Refused (room : Bool) (sz limit n : ℕ) : Type 0 where
  over_limit : limit ≢ 0 → limit < asked sz n → Refused room sz limit n
  no_space : n < 2 ^ 31 → kernbase ≤ sz + n → Refused room sz limit n
  no_pages : n ≢ 0 → n < 2 ^ 31 → room ≡ false → Refused room sz limit n
  to_zero : 2 ^ 31 ≤ n → asked sz n ≡ 0 → Refused room sz limit n
  empty : 2 ^ 31 ≤ n → sz ≡ 0 → Refused room sz limit n

-- a change that there is room for
record Fits (room : Bool) (sz n : ℕ) : Type 0 where
  below : n < 2 ^ 31 → sz + n < kernbase
  pages : n ≢ 0 → n < 2 ^ 31 → room ≡ true
  left : 2 ^ 31 ≤ n → (asked sz n ≢ 0) × (sz ≢ 0)

Fits-allowed :
    {room : Bool} {sz limit n : ℕ}
    → (limit ≡ 0) ⊎ (asked sz n ≤ limit)
    → Fits room sz n
    → ¬ Refused room sz limit n
Fits-allowed (inl z) fits (over_limit nz over) = nz z
Fits-allowed (inr le) fits (over_limit nz over) = absurd (omega arith)
Fits-allowed lim fits (no_space up far) = absurd (omega (arith, fits.below up))
Fits-allowed lim fits (no_pages nz up r) = ground (arith, fits.pages nz up)
Fits-allowed lim fits (to_zero down z) = (fits.left down).0 z
Fits-allowed lim fits (empty down z) = (fits.left down).1 z

-- The kernel `k'` is `k` with a new size of the main thread `m` and a call of `switchuvm`.
pub record Grown (room : Bool) (me m n : ℕ) (k k' : Kernel) : Type 0 where
  pub allowed : ¬ Refused room (k.proc m).sz (k.proc m).memorylimit n
  pub released : k'.locked ≡ false
  pub size : NewSize (k.proc m).sz n (k'.proc m).sz
  pub in_limit : ((k.proc m).memorylimit ≡ 0) ⊎ (asked (k.proc m).sz n ≤ (k.proc m).memorylimit)
  pub switched : k'.calls ≡ k.calls ++ (switchuvm me ∷ [])
  pub same_limit : (k'.proc m).memorylimit ≡ (k.proc m).memorylimit
  pub others : (q : ℕ) → m ≢ q → k'.proc q ≡ k.proc q

-- the size that `growproc` makes of `sz`, 0 where it fails
abbrev pub sized : Bool → ℕ → ℕ → ℕ
sized room sz n =
    if ltb n (2 ^ 31) then allocuvm room sz (asked sz n) else deallocuvm sz (asked sz n)

sized-up :
    (room : Bool) (sz limit n : ℕ)
    → sz < kernbase
    → n < 2 ^ 31
    → n ≢ 0
    → ((sized room sz n ≡ 0) × Refused room sz limit n)
      ⊎ (((sized room sz n == 0) ≡ false) × NewSize sz n (sized room sz n) × Fits room sz n)
unfolding allocuvm
sized-up room sz limit n small lt some_n =
    let up : ltb n (2 ^ 31) ≡ true = ground arith in
    let no_wrap : asked sz n ≡ sz + n = omega arith in
    let keeps : ltb (sz + n) sz ≡ false = ground arith in
    elim (dec_lt (sz + n) kernbase) [
      | no far ↦
          let f : leb kernbase (sz + n) ≡ true = ground arith in
          inl (rw (up, no_wrap, f) refl, no_space lt (omega arith))
      | yes near ↦
          let f : leb kernbase (sz + n) ≡ false = ground arith in
          elim (Bool-cases room) [
            | inr r ↦ inl (rw (up, no_wrap, f, keeps, r) refl, no_pages some_n lt r)
            | inl r ↦
                let e : sized room sz n ≡ sz + n = rw (up, no_wrap, f, keeps, r) refl in
                inr (
                  rw e (ground arith),
                  record {
                    up = λ _. e;
                    down = λ le. absurd (omega arith);
                    stay = λ le. absurd (omega arith);
                  },
                  record {
                    below = λ _. omega arith;
                    pages = λ _ _. r;
                    left = λ le. absurd (omega arith);
                  },
                )
          ]
    ]

sized-down :
    (room : Bool) (sz limit n : ℕ)
    → sz < kernbase
    → n < 2 ^ 32
    → 2 ^ 31 ≤ n
    → ((sized room sz n ≡ 0) × Refused room sz limit n)
      ⊎ (((sized room sz n == 0) ≡ false) × NewSize sz n (sized room sz n) × Fits room sz n)
unfolding deallocuvm
sized-down room sz limit n small range le =
    let down : ltb n (2 ^ 31) ≡ false = ground arith in
    elim (dec_lt (sz + n) (2 ^ 32)) [
      | yes under ↦
          let no_wrap : asked sz n ≡ sz + n = omega arith in
          let keeps : leb sz (sz + n) ≡ true = ground arith in
          let e : sized room sz n ≡ sz = rw (down, no_wrap, keeps) refl in
          elim (ℕ_discrete sz 0) [
            | yes z ↦ inl (e ∙ z, empty le z)
            | no nz ↦ inr (
              rw e (ground arith),
              record {
                up = λ lt. absurd (omega arith);
                down = λ _ over. absurd (omega arith);
                stay = λ _ _. e;
              },
              record {
                below = λ lt. absurd (omega arith);
                pages = λ _ lt. absurd (omega arith);
                left = λ _. (omega arith, nz);
              },
            )
          ]
      | no over ↦
          let wrap : asked sz n + 2 ^ 32 ≡ sz + n = omega arith in
          let drops : leb sz (asked sz n) ≡ false = ground arith in
          let e : sized room sz n ≡ asked sz n = rw (down, drops) refl in
          elim (ℕ_discrete (asked sz n) 0) [
            | yes z ↦ inl (e ∙ z, to_zero le z)
            | no nz ↦ inr (
              rw e (ground arith),
              record {
                up = λ lt. absurd (omega arith);
                down = λ _ _. rw e wrap;
                stay = λ _ lt. absurd (omega arith);
              },
              record {
                below = λ lt. absurd (omega arith);
                pages = λ _ lt. absurd (omega arith);
                left = λ _. (nz, omega arith);
              },
            )
          ]
    ]

sized-cases :
    (room : Bool) (sz limit n : ℕ)
    → sz < kernbase
    → n < 2 ^ 32
    → n ≢ 0
    → ((sized room sz n ≡ 0) × Refused room sz limit n)
      ⊎ (((sized room sz n == 0) ≡ false) × NewSize sz n (sized room sz n) × Fits room sz n)
sized-cases room sz limit n small range some_n = elim (dec_lt n (2 ^ 31)) [
  | yes lt ↦ sized-up room sz limit n small lt some_n
  | no ge ↦ sized-down room sz limit n small range (omega arith)
]

module _ (room : Bool) (me m n : ℕ) (k : Kernel) where
  abbrev LimitOk : Type 0
  LimitOk = ((k.proc m).memorylimit ≡ 0) ⊎ (asked (k.proc m).sz n ≤ (k.proc m).memorylimit)

  grown-Grown :
      (s : ℕ)
      → LimitOk
      → NewSize (k.proc m).sz n s
      → Fits room (k.proc m).sz n
      → Grown room me m n k ((grown me m s (record k { locked = true })).1)
  unfolding grown
  grown-Grown s lim new fits =
      let r : Proc = record (k.proc m) { sz = s } in
      let at : update k.proc m r m ≡ r = update_self k.proc m r in
      record {
        allowed = Fits-allowed lim fits;
        released = refl;
        size = subst (λ (x : Proc). NewSize (k.proc m).sz n x.sz) (sym at) new;
        in_limit = lim;
        switched = refl;
        same_limit = ap (λ (x : Proc). x.memorylimit) at;
        others = λ q ne. update_ne k.proc m r q ne;
      }

-- For a process whose main thread's size is below KERNBASE, `growproc` fails exactly where the new
-- size, modulo 2^32, would be above a limit that is not zero, where an increase would reach KERNBASE
-- or there are no pages for it, and where a decrease would make the size 0 or it is 0 already. It
-- returns with `ptable.lock` held then and the table as it was. In all other cases the lock is free,
-- the main thread has its size plus the signed number `n` (or its old size, if `n` would make it
-- negative) and the same limit, no other entry changes, and `switchuvm` was called.
pub growproc-Grown :
    (room : Bool) (me n m : ℕ) (k : Kernel)
    → (k.proc me).mainthread ≡ some m
    → (k.proc m).sz < kernbase
    → n < 2 ^ 32
    → ((growproc room me n k ≡ ok (false, record k { locked = true }))
        × Refused room (k.proc m).sz (k.proc m).memorylimit n)
      ⊎ ((k' : Kernel) × (growproc room me n k ≡ ok (true, k')) × Grown room me m n k k')
unfolding growproc
growproc-Grown room me n m k main small range =
    elim (Bool-cases
      (not ((k.proc m).memorylimit == 0) && ltb (k.proc m).memorylimit (asked (k.proc m).sz n))) [
        | inl t ↦
            inl (rw (main, growproc, t) refl, over_limit (ground (arith, t)) (ground (arith, t)))
        | inr t ↦
            let lim : LimitOk room me m n k = elim (ℕ_discrete (k.proc m).memorylimit 0) [
              | yes z ↦ inl z
              | no nz ↦ inr (ground (arith, t, nz))
            ] in
            elim (ℕ_discrete n 0) [
              | yes z ↦
                  let b : (n == 0) ≡ true = ground arith in
                  inr (
                    grown' (k.proc m).sz,
                    rw (main, growproc, t, b) refl,
                    grown-Grown room me m n k (k.proc m).sz lim
                        (record {
                          up = λ _. omega arith;
                          down = λ le. absurd (omega arith);
                          stay = λ le. absurd (omega arith);
                        })
                        (record {
                          below = λ _. omega arith;
                          pages = λ nz. absurd (nz z);
                          left = λ le. absurd (omega arith);
                        }),
                  )
              | no nz ↦
                  let b : (n == 0) ≡ false = ground arith in
                  elim (sized-cases room (k.proc m).sz (k.proc m).memorylimit n small range nz) [
                    | inl (e, why) ↦ inl (rw (main, growproc, t, b, e) refl, why)
                    | inr (e, new, fits) ↦ inr (
                      grown' (sized room (k.proc m).sz n),
                      rw (main, growproc, t, b, e) refl,
                      grown-Grown room me m n k (sized room (k.proc m).sz n) lim new fits,
                    )
                  ]
            ]
      ]
  where
    grown' : ℕ → Kernel
    grown' s = (grown me m s (record k { locked = true })).1
