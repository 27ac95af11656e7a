-- ===== src/Fs/Block/Bits.antt =====
-- The laws of the bits of a byte, by evaluation over all bytes.
use ele3021_os.Common.{
  ℕ, zero, suc, ◌<◌, ◌≡◌, refl, Bool, true, false, ◌&&◌, not, arith, ◌==◌, ltb, if◌then◌else◌,
  ℕ_discrete,
}
use ele3021_os.Fs.Block.{test_bit, set_bit, clear_bit}

checks : (ℕ → Bool) → ℕ → Bool
checks test zero = true
checks test (suc m) = if test m then checks test m else false

checks-at : (test : ℕ → Bool) (m : ℕ) → checks test m ≡ true → {i : ℕ} → i < m → test i ≡ true
unfolding checks
checks-at test zero all {i} lt = absurd (omega arith)
checks-at test (suc m) all {i} lt = elim (ℕ_discrete i m) [
  | yes e ↦ ground arith
  | no ne ↦ checks-at test m (ground arith) (omega arith)
]

same : Bool → Bool → Bool
same true b = b
same false b = not b

same-eq : (a b : Bool) → same a b ≡ true → a ≡ b
unfolding same
same-eq a b h = ground arith

-- a law about a byte and two of its bits holds if it holds of all of them
by_table :
    (p : ℕ → ℕ → ℕ → Bool)
    → checks (λ x. checks (λ k. checks (λ j. p x k j) 8) 8) 256 ≡ true
    → (x k j : ℕ) → x < 256
    → k < 8
    → j < 8
    → p x k j ≡ true
by_table p h x k j hx hk hj = checks-at _ 8 (checks-at _ 8 (checks-at _ 256 h hx) hk) hj

set_table :
    checks
      (λ x.
        checks
          (λ k.
            checks (λ j. same (test_bit (set_bit x k) j) (if k == j then true else test_bit x j)) 8)
          8)
      256
    ≡ true
unfolding checks same test_bit set_bit
set_table = refl

clear_table :
    checks
      (λ x.
        checks
          (λ k.
            checks
              (λ j. same (test_bit (clear_bit x k) j) (if k == j then false else test_bit x j))
              8)
          8)
      256
    ≡ true
unfolding checks same test_bit clear_bit
clear_table = refl

byte_table :
    checks
      (λ x. checks (λ k. checks (λ j. ltb (set_bit x k) 256 && ltb (clear_bit x k) 256) 8) 8)
      256
    ≡ true
unfolding checks set_bit clear_bit
byte_table = refl

pub test_bit-set_bit :
    (x k j : ℕ)
    → x < 256
    → k < 8
    → j < 8
    → test_bit (set_bit x k) j ≡ (if k == j then true else test_bit x j)
test_bit-set_bit x k j hx hk hj = same-eq _ _ (by_table _ set_table x k j hx hk hj)

pub test_bit-clear_bit :
    (x k j : ℕ)
    → x < 256
    → k < 8
    → j < 8
    → test_bit (clear_bit x k) j ≡ (if k == j then false else test_bit x j)
test_bit-clear_bit x k j hx hk hj = same-eq _ _ (by_table _ clear_table x k j hx hk hj)

pub set_bit_lt : (x k : ℕ) → x < 256 → k < 8 → set_bit x k < 256
set_bit_lt x k hx hk = ground (arith, by_table _ byte_table x k 0 hx hk (omega arith))

pub clear_bit_lt : (x k : ℕ) → x < 256 → k < 8 → clear_bit x k < 256
clear_bit_lt x k hx hk = ground (arith, by_table _ byte_table x k 0 hx hk (omega arith))
