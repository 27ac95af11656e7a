-- ===== src/Strings/Compare.antt =====
-- Comparison and length of the strings of project1/string.c, and what `safestrcpy` leaves.
use ele3021_os.Common.{
  ℕ, zero, suc, ◌+◌, ◌-◌, ◌<◌, ◌≤◌, ◌≡◌, ◌≢◌, ◌⊎◌, ◌↔◌, inl, inr, true, false, arith, ◌&&◌, not,
  ◌==◌, update, refl, ap, subst, ◌∙◌, ℕ_discrete, Bool-cases, some,
}
use ele3021_os.Common.Int.{pos}
use ele3021_os.Strings.{Memory, memcmp, difference, strncmp, safe_copy, safestrcpy, strlen}

difference-pos : (a b : ℕ) → difference a b ≡ pos 0 → a ≡ b
difference-pos a b h = ground arith

memcmp-same :
    (s1 s2 n : ℕ) (m : Memory)
    → ((i : ℕ) → i < n → m (s1 + i) ≡ m (s2 + i))
    → memcmp s1 s2 n m ≡ pos 0
unfolding memcmp
memcmp-same s1 s2 zero m h = refl
memcmp-same s1 s2 (suc n) m h =
    let e : m s1 ≡ m s2 = ground (arith, h 0) in
    let t : (m s1 == m s2) ≡ true = ground arith in
    rw t (memcmp-same (s1 + 1) (s2 + 1) n m (λ i lt. ground (arith, h (i + 1))))

memcmp-equal :
    (s1 s2 n : ℕ) (m : Memory)
    → memcmp s1 s2 n m ≡ pos 0
    → (i : ℕ) → i < n
    → m (s1 + i) ≡ m (s2 + i)
unfolding memcmp
memcmp-equal s1 s2 zero m h i lt = omega arith
memcmp-equal s1 s2 (suc n) m h i lt = elim (ℕ_discrete (m s1) (m s2)) [
  | no ne ↦
      let t : (m s1 == m s2) ≡ false = ground arith in
      absurd (ne (difference-pos (m s1) (m s2) (rw t at h)))
  | yes e ↦
      let t : (m s1 == m s2) ≡ true = ground arith in
      let ih = memcmp-equal (s1 + 1) (s2 + 1) n m (rw t at h) in
      elim (ℕ_discrete i 0) [
        | yes z ↦ ground arith
        | no nz ↦ ground (arith, ih (i - 1) (omega arith))
      ]
]

-- `memcmp` returns 0 exactly when the two regions hold the same bytes.
memcmp-zero :
    (s1 s2 n : ℕ) (m : Memory)
    → (memcmp s1 s2 n m ≡ pos 0) ↔ ((i : ℕ) → i < n → m (s1 + i) ≡ m (s2 + i))
memcmp-zero s1 s2 n m = (memcmp-equal s1 s2 n m, memcmp-same s1 s2 n m)

-- What `safestrcpy` leaves at `s` for a source of memory `m`, with room for `n` bytes.
pub record IsString (s t n : ℕ) (m m' : Memory) (k : ℕ) : Type 0 where
  pub fits : k < n
  pub ends : m' (s + k) ≡ 0
  pub copied : (i : ℕ) → i < k → (m' (s + i) ≡ m (t + i)) × (m (t + i) ≢ 0)
  pub whole : (suc k ≡ n) ⊎ (m (t + k) ≡ 0)
  pub outside : (j : ℕ) → (j < s) ⊎ (s + n ≤ j) → m' j ≡ m j

IsString-next :
    (s t n : ℕ) (m m' : Memory) (k : ℕ)
    → (t + suc n < s) ⊎ (s + suc n < t)
    → m t ≢ 0
    → IsString (s + 1) (t + 1) (suc n) (update m s (m t)) m' k
    → IsString s t (suc (suc n)) m m' (k + 1)
IsString-next s t n m m' k h ne ih = record {
  fits = omega (arith, ih.fits);
  ends = ground (arith, ih.ends);
  copied = λ i lt. elim (ℕ_discrete i 0) [
    | yes i0 ↦
        let e : m' s ≡ m t = ih.outside s (omega arith) ∙ ground arith in
        (ground arith, λ z. ne (ground arith))
    | no pos_i ↦
        let (e, nz) = ih.copied (i - 1) (omega arith) in
        let b : update m s (m t) (t + 1 + (i - 1)) ≡ m (t + i) = ground (arith, ih.fits) in
        let a : s + 1 + (i - 1) ≡ s + i = omega arith in
        (subst (λ q. m' q ≡ update m s (m t) (t + 1 + (i - 1))) a e ∙ b, λ z. nz (b ∙ z))
  ];
  whole = ground (arith, ih.whole, ih.fits);
  outside = λ j o. ih.outside j (omega arith) ∙ ground arith;
}

safe_copy-IsString :
    (s t n : ℕ) (m : Memory)
    → (t + n < s) ⊎ (s + n < t)
    → (k : ℕ) × IsString s t (suc n) m (safe_copy s t n m) k
unfolding safe_copy
safe_copy-IsString s t zero m h = (
  0,
  record {
    fits = omega arith;
    ends = ground arith;
    copied = λ i lt. absurd (omega arith);
    whole = inl refl;
    outside = λ j o. ground arith;
  },
)
safe_copy-IsString s t (suc n) m h = elim (ℕ_discrete (m t) 0) [
  | yes e ↦
      let z : (m t == 0) ≡ true = ground arith in
      rw z (
        0,
        record {
          fits = omega arith;
          ends = ground arith;
          copied = λ i lt. absurd (omega arith);
          whole = inr (ground arith);
          outside = λ j o. ground arith;
        },
      )
  | no ne ↦
      let z : (m t == 0) ≡ false = ground arith in
      let (k, ih) = safe_copy-IsString (s + 1) (t + 1) n (update m s (m t)) (omega arith) in
      rw z (k + 1, IsString-next s t n m _ k h ne ih)
]

-- `safestrcpy` into a region that does not meet the source: it copies the source up to its NUL, or
-- the bytes that fit, ends it with a NUL within the `n` bytes, and changes nothing outside them.
pub safestrcpy-IsString :
    (s t n : ℕ) (m : Memory)
    → 0 < n
    → (t + n ≤ s) ⊎ (s + n ≤ t)
    → (k : ℕ) × IsString s t n m (safestrcpy s t n m) k
unfolding safestrcpy
safestrcpy-IsString s t zero m h d = absurd (omega arith)
safestrcpy-IsString s t (suc n) m h d = safe_copy-IsString s t n m (omega arith)

-- `strlen` returns the place of the first NUL, given enough fuel to come to it.
strlen-first :
    (fuel s k : ℕ) (m : Memory)
    → k < fuel
    → m (s + k) ≡ 0
    → ((i : ℕ) → i < k → m (s + i) ≢ 0)
    → strlen fuel s m ≡ some k
unfolding strlen
strlen-first zero s k m lt e ne = absurd (omega arith)
strlen-first (suc fuel) s zero m lt e ne = let z : (m s == 0) ≡ true = ground arith in rw z refl
strlen-first (suc fuel) s (suc k) m lt e ne =
    let nz : m s ≢ 0 = λ z. ne 0 (omega arith) (ground arith) in
    let z : (m s == 0) ≡ false = ground arith in
    let ih : strlen fuel (s + 1) m ≡ some k =
      strlen-first fuel (s + 1) k m (omega arith) (ground arith)
        (λ i h q. ne (i + 1) (omega arith) (ground arith)) in
    rw (z, ih) (ap (λ q. some q) (omega arith))

strncmp-equal :
    (n p q : ℕ) (m : Memory)
    → strncmp p q n m ≡ pos 0
    → (i : ℕ) → i < n
    → ((j : ℕ) → j < i → m (p + j) ≢ 0)
    → m (p + i) ≡ m (q + i)
unfolding strncmp
strncmp-equal zero p q m h i lt live = absurd (omega arith)
strncmp-equal (suc n) p q m h i lt live = elim (Bool-cases (not (m p == 0) && (m p == m q))) [
  | inr stop ↦
      let e : m p ≡ m q = difference-pos (m p) (m q) (rw stop at h) in
      elim (ℕ_discrete i 0) [
        | yes z ↦ ground arith
        | no nz ↦ absurd (live 0 (omega arith) (ground arith))
      ]
  | inl go ↦ elim (ℕ_discrete i 0) [
    | yes z ↦ ground arith
    | no nz ↦ ground (
      arith,
      strncmp-equal n (p + 1) (q + 1) m (rw go at h) (i - 1) (omega arith)
          (λ j lj z. live (j + 1) (omega arith) (ground arith)),
    )
  ]
]

strncmp-same :
    (n p q : ℕ) (m : Memory)
    → ((i : ℕ) → i < n → ((j : ℕ) → j < i → m (p + j) ≢ 0) → m (p + i) ≡ m (q + i))
    → strncmp p q n m ≡ pos 0
unfolding strncmp
strncmp-same zero p q m h = refl
strncmp-same (suc n) p q m h =
    let e : m p ≡ m q = ground (arith, h 0 (omega arith) (λ j lj. absurd (omega arith))) in
    elim (ℕ_discrete (m p) 0) [
      | yes z ↦ ground arith
      | no nz ↦
          let go : (not (m p == 0) && (m p == m q)) ≡ true = ground arith in
          rw go (
            strncmp-same n (p + 1) (q + 1) m (λ i lt live. ground (
              arith,
              h (i + 1) (omega arith) (λ j lj z. elim (ℕ_discrete j 0) [
                | yes j0 ↦ nz (ground arith)
                | no nj ↦ live (j - 1) (omega arith) (ground arith)
              ]),
            )))
    ]

-- `strncmp` returns 0 exactly when the strings agree up to a common NUL or for `n` bytes.
pub strncmp-zero :
    (n p q : ℕ) (m : Memory)
    → (strncmp p q n m ≡ pos 0)
      ↔ ((i : ℕ) → i < n → ((j : ℕ) → j < i → m (p + j) ≢ 0) → m (p + i) ≡ m (q + i))
strncmp-zero n p q m = (strncmp-equal n p q m, strncmp-same n p q m)
