-- ===== src/Mlfq/Queued/Count.antt =====
-- How often a process occurs in a list, and that a list of different processes is short.
use ele3021_os.Common.{
  ℕ, zero, suc, ◌+◌, ◌<◌, ◌≤◌, ◌≡◌, ◌≢◌, List, [], ◌∷◌, ◌++◌, length, refl, ap, sym, arith, ◌==◌,
  if◌then◌else◌, true, false, dec_lt, ℕ_discrete,
}
use ele3021_os.Mlfq.Queue.Arrays.{erase_pid}

abbrev pub one_if : ℕ → ℕ → ℕ
one_if x p = if x == p then 1 else 0

unfoldable pub count : ℕ → List ℕ → ℕ
count p [] = 0
count p (x ∷ xs) = one_if x p + count p xs

pub count-append : (p : ℕ) (xs ys : List ℕ) → count p (xs ++ ys) ≡ count p xs + count p ys
unfolding count
count-append p [] ys = omega arith
count-append p (x ∷ xs) ys = omega (arith, count-append p xs ys)

-- Where the pid is that of `p` alone among the processes of the list, its erasure removes `p`.
pub count-erase_pid :
    (pid_of : ℕ → ℕ) (p q : ℕ) (xs : List ℕ)
    → ((x : ℕ) → 0 < count x xs → pid_of x ≡ pid_of p → x ≡ p)
    → 0 < count p xs
    → count q (erase_pid pid_of (pid_of p) xs) + one_if p q ≡ count q xs
unfolding count
count-erase_pid pid_of p q [] alone h = absurd (omega arith)
count-erase_pid pid_of p q (x ∷ xs) alone h = elim (ℕ_discrete (pid_of x) (pid_of p)) [
  | yes e ↦
      let e' : x ≡ p = alone x (ground arith) e in
      let t : (pid_of x == pid_of p) ≡ true = ground arith in rw t (ground arith)
  | no ne ↦
      let t : (pid_of x == pid_of p) ≡ false = ground arith in
      let other : x ≢ p = λ z. ne (ap pid_of z) in
      let ih = count-erase_pid pid_of p q xs (λ y hy. alone y (omega arith)) (ground arith) in
      rw t (omega (arith, ih))
]

-- the sum of the first `n` numbers
sum : (ℕ → ℕ) → ℕ → ℕ
sum f zero = 0
sum f (suc n) = f n + sum f n

sum_zero : (n : ℕ) → sum (λ q. 0) n ≡ 0
unfolding sum
sum_zero zero = refl
sum_zero (suc n) = omega (arith, sum_zero n)

sum-one_if_ge : (f : ℕ → ℕ) (x n : ℕ) → n ≤ x → sum (λ q. one_if x q + f q) n ≡ sum f n
unfolding sum
sum-one_if_ge f x zero h = refl
sum-one_if_ge f x (suc n) h =
    let at : one_if x n ≡ 0 = ground arith in omega (arith, sum-one_if_ge f x n (omega arith))

sum-one_if : (f : ℕ → ℕ) (x n : ℕ) → x < n → sum (λ q. one_if x q + f q) n ≡ suc (sum f n)
unfolding sum
sum-one_if f x zero h = absurd (omega arith)
sum-one_if f x (suc n) h = elim (ℕ_discrete x n) [
  | yes e ↦
      let at : one_if x n ≡ 1 = ground arith in omega (arith, sum-one_if_ge f x n (omega arith))
  | no ne ↦ let at : one_if x n ≡ 0 = ground arith in omega (arith, sum-one_if f x n (omega arith))
]

length-sum :
    (xs : List ℕ) (n : ℕ) → ((q : ℕ) → n ≤ q → count q xs ≡ 0) → length xs ≡ sum (λ q. count q xs) n
unfolding count
length-sum [] n h = sym (sum_zero n)
length-sum (x ∷ xs) n h =
    let inside : x < n = elim (dec_lt x n) [
      | yes lt ↦ lt
      | no ge ↦
          let bad : one_if x x + count x xs ≡ 0 = h x (omega arith) in
          let one : one_if x x ≡ 1 = ground arith in absurd (omega arith)
    ] in
    omega (
      arith,
      length-sum xs n (λ q lt. omega (arith, h q lt)),
      sum-one_if (λ q. count q xs) x n inside,
    )

sum_le : (f : ℕ → ℕ) (n : ℕ) → ((q : ℕ) → f q ≤ 1) → sum f n ≤ n
unfolding sum
sum_le f zero h = omega arith
sum_le f (suc n) h = omega (arith, h n, sum_le f n h)

sum_lt : (f : ℕ → ℕ) (p n : ℕ) → p < n → f p ≡ 0 → ((q : ℕ) → f q ≤ 1) → sum f n < n
unfolding sum
sum_lt f p zero lt z h = absurd (omega arith)
sum_lt f p (suc n) lt z h = elim (ℕ_discrete p n) [
  | yes e ↦ ground (arith, sum_le f n h)
  | no ne ↦ omega (arith, h n, sum_lt f p n (omega arith) z h)
]

-- A list of different processes below `n` that misses `p` has fewer than `n`.
pub length_lt :
    (xs : List ℕ) (p n : ℕ)
    → p < n
    → count p xs ≡ 0
    → ((q : ℕ) → count q xs ≤ 1)
    → ((q : ℕ) → n ≤ q → count q xs ≡ 0)
    → length xs < n
length_lt xs p n lt z once out =
    omega (arith, length-sum xs n out, sum_lt (λ q. count q xs) p n lt z once)
