-- ===== src/Mlfq/Queue/Arrays.antt =====
-- What the loops of `dequeue`, `remove` and `insertqueue` of project1/proc.c do to an array.
use ele3021_os.Common.{
  ℕ, zero, suc, ◌+◌, ◌-◌, ◌≤◌, ◌<◌, ◌≡◌, refl, ap, ◌∙◌, sym, ap₂, List, [], ◌∷◌, ◌++◌, arith, ◌==◌,
  if◌then◌else◌, get_or, set, take, drop, length, length-set, append_assoc, Bool-cases, inl, inr,
}
use ele3021_os.Mlfq.Queue.{shift_down, find_pid, shift_up}

-- the list without its entry at `i`
abbrev pub erase_at : List ℕ → ℕ → List ℕ
erase_at [] i = []
erase_at (x ∷ xs) zero = xs
erase_at (x ∷ xs) (suc i) = x ∷ erase_at xs i

-- the list without the first process that has the pid
abbrev pub erase_pid : (ℕ → ℕ) → ℕ → List ℕ → List ℕ
erase_pid pid_of pid [] = []
erase_pid pid_of pid (x ∷ xs) = if pid_of x == pid then xs else x ∷ erase_pid pid_of pid xs

pub take-set :
    (xs : List ℕ) (n : ℕ) (v : ℕ)
    → n < length xs
    → take (suc n) (set xs n v) ≡ take n xs ++ (v ∷ [])
take-set [] n v h = absurd (omega arith)
take-set (x ∷ xs) zero v h = refl
take-set (x ∷ xs) (suc n) v h = ap (λ r. x ∷ r) (take-set xs n v (omega arith))

shift_down-cons :
    (x : ℕ) (xs : List ℕ) (i n : ℕ) → shift_down (x ∷ xs) (suc i) n ≡ x ∷ shift_down xs i n
unfolding shift_down
shift_down-cons x xs i zero = refl
shift_down-cons x xs i (suc n) = shift_down-cons x (set xs i (get_or xs (suc i) 0)) (suc i) n

take-shift_down :
    (x : ℕ) (xs : List ℕ) (n : ℕ) → n ≤ length xs → take n (shift_down (x ∷ xs) 0 n) ≡ take n xs
unfolding shift_down
take-shift_down x xs zero h = refl
take-shift_down x [] (suc n) h = absurd (omega arith)
take-shift_down x (y ∷ ys) (suc n) h =
    ap (take (suc n)) (shift_down-cons y (y ∷ ys) 0 n)
    ∙ ap (λ r. y ∷ r) (take-shift_down y ys n (omega arith))

erase_at-shift_down :
    (xs : List ℕ) (i n : ℕ)
    → i + n < length xs
    → take (i + n) (shift_down xs i n) ≡ erase_at (take (i + suc n) xs) i
erase_at-shift_down [] i n h = absurd (omega arith)
erase_at-shift_down (x ∷ xs) zero n h =
    let e : 0 + n ≡ n = omega arith in
    let e' : 0 + suc n ≡ suc n = omega arith in rw (e, e') (take-shift_down x xs n (omega arith))
erase_at-shift_down (x ∷ xs) (suc i) n h =
    let e : suc i + n ≡ suc (i + n) = omega arith in
    let e' : suc i + suc n ≡ suc (i + suc n) = omega arith in
    rw (e, e', shift_down-cons) (ap (λ r. x ∷ r) (erase_at-shift_down xs i n (omega arith)))

find_pid-cons :
    (pid_of : ℕ → ℕ) (x : ℕ) (xs : List ℕ) (pid i n : ℕ)
    → find_pid pid_of (x ∷ xs) pid (suc i) n ≡ suc (find_pid pid_of xs pid i n)
unfolding find_pid
find_pid-cons pid_of x xs pid i zero = refl
find_pid-cons pid_of x xs pid i (suc n) = elim (Bool-cases (pid_of (get_or xs i 0) == pid)) [
  | inl hit ↦ rw hit refl
  | inr miss ↦ rw miss (find_pid-cons pid_of x xs pid (suc i) n)
]

-- moving `m - 1 - i` entries down from `i` erases entry `i` of the first `m`
pub shift_down_lem :
    (xs : List ℕ) (i m : ℕ)
    → i < m
    → m ≤ length xs
    → take (m - 1) (shift_down xs i (m - 1 - i)) ≡ erase_at (take m xs) i
shift_down_lem xs i m h le =
    ap (λ k. take k (shift_down xs i (m - 1 - i))) (omega arith)
    ∙ (erase_at-shift_down xs i (m - 1 - i) (omega arith)
        ∙ ap (λ k. erase_at (take k xs) i) (omega arith))

-- `find_pid` finds the entry that `erase_pid` drops.
pub erase_at-find_pid :
    (pid_of : ℕ → ℕ) (pid : ℕ) (xs : List ℕ) (n : ℕ)
    → n ≤ length xs
    → erase_at (take n xs) (find_pid pid_of xs pid 0 n) ≡ erase_pid pid_of pid (take n xs)
unfolding find_pid
erase_at-find_pid pid_of pid xs zero h = refl
erase_at-find_pid pid_of pid [] (suc n) h = absurd (omega arith)
erase_at-find_pid pid_of pid (x ∷ xs) (suc n) h = elim (Bool-cases (pid_of x == pid)) [
  | inl hit ↦ rw hit refl
  | inr miss ↦ rw miss (
      ap (erase_at (x ∷ take n xs)) (find_pid-cons pid_of x xs pid 0 n)
      ∙ ap (λ r. x ∷ r) (erase_at-find_pid pid_of pid xs n (omega arith)))
]

-- an index past the end erases nothing
pub erase_at_ge : (xs : List ℕ) (i n : ℕ) → n ≤ i → erase_at (take n xs) i ≡ take n xs
erase_at_ge xs i zero h = refl
erase_at_ge [] i (suc n) h = refl
erase_at_ge (x ∷ xs) zero (suc n) h = absurd (omega arith)
erase_at_ge (x ∷ xs) (suc i) (suc n) h = ap (λ r. x ∷ r) (erase_at_ge xs i n (omega arith))

take-set_ge : (xs : List ℕ) (n m v : ℕ) → n ≤ m → take n (set xs m v) ≡ take n xs
take-set_ge [] zero m v h = refl
take-set_ge [] (suc n) m v h = refl
take-set_ge (x ∷ xs) zero m v h = refl
take-set_ge (x ∷ xs) (suc n) zero v h = absurd (omega arith)
take-set_ge (x ∷ xs) (suc n) (suc m) v h = ap (λ r. x ∷ r) (take-set_ge xs n m v (omega arith))

drop-set : (xs : List ℕ) (n v : ℕ) → n < length xs → drop n (set xs n v) ≡ v ∷ drop (suc n) xs
drop-set [] n v h = absurd (omega arith)
drop-set (x ∷ xs) zero v h = refl
drop-set (x ∷ xs) (suc n) v h = drop-set xs n v (omega arith)

drop-set_gt : (xs : List ℕ) (n m v : ℕ) → m < n → drop n (set xs m v) ≡ drop n xs
drop-set_gt [] n m v h = refl
drop-set_gt (x ∷ xs) zero m v h = absurd (omega arith)
drop-set_gt (x ∷ xs) (suc n) zero v h = refl
drop-set_gt (x ∷ xs) (suc n) (suc m) v h = drop-set_gt xs n m v (omega arith)

take-suc :
    (xs : List ℕ) (n : ℕ) → n < length xs → take (suc n) xs ≡ take n xs ++ (get_or xs n 0 ∷ [])
take-suc [] n h = absurd (omega arith)
take-suc (x ∷ xs) zero h = refl
take-suc (x ∷ xs) (suc n) h = ap (λ r. x ∷ r) (take-suc xs n (omega arith))

get_or-set_pos : (xs : List ℕ) (n v : ℕ) → get_or (set xs (suc n) v) 0 0 ≡ get_or xs 0 0
get_or-set_pos [] n v = refl
get_or-set_pos (x ∷ xs) n v = refl

pub shift_up_lem :
    (n : ℕ) (xs : List ℕ)
    → n < length xs
    → shift_up xs n ≡ get_or xs 0 0 ∷ (take n xs ++ drop (suc n) xs)
unfolding shift_up
shift_up_lem zero [] h = absurd (omega arith)
shift_up_lem zero (x ∷ xs) h = refl
shift_up_lem (suc n) xs h =
    shift_up_lem n (set xs (suc n) v) (rw (length-set xs (suc n) v) (omega arith))
    ∙ ap₂ ◌∷◌ (get_or-set_pos xs n v) (
        ap₂ ◌++◌ (take-set_ge xs n (suc n) v (omega arith)) (drop-set xs (suc n) v h)
        ∙ (sym (append_assoc (take n xs) (v ∷ []) (drop (suc (suc n)) xs))
            ∙ ap (λ r. r ++ drop (suc (suc n)) xs) (sym (take-suc xs n (omega arith)))))
  where
    v : ℕ
    v = get_or xs n 0

pub take-take-append :
    (xs ys : List ℕ) (n : ℕ) → n ≤ length xs → take n (take n xs ++ ys) ≡ take n xs
take-take-append xs ys zero h = refl
take-take-append [] ys (suc n) h = absurd (omega arith)
take-take-append (x ∷ xs) ys (suc n) h = ap (λ r. x ∷ r) (take-take-append xs ys n (omega arith))

pub length-shift_down : (xs : List ℕ) (i n : ℕ) → length (shift_down xs i n) ≡ length xs
unfolding shift_down
length-shift_down xs i zero = refl
length-shift_down xs i (suc n) = length-shift_down (set xs i v) (suc i) n ∙ length-set xs i v
  where
    v : ℕ
    v = get_or xs (suc i) 0

pub length-shift_up : (xs : List ℕ) (n : ℕ) → length (shift_up xs n) ≡ length xs
unfolding shift_up
length-shift_up xs zero = refl
length-shift_up xs (suc n) =
    length-shift_up (set xs (suc n) (get_or xs n 0)) n ∙ length-set xs (suc n) (get_or xs n 0)
