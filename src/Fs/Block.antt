-- ===== src/Fs/Block.antt =====
-- The data of a buffer as bytes, and the `ushort` and `uint` values that project3/fs.c reads and
-- writes in it through pointer casts (little-endian).
pub mod Bits
use Prim.Native.Nat.{bit_and, bit_or}
use ele3021_os.Common.{
  ℕ, zero, suc, ◌+◌, ◌-◌, ◌*◌, ◌/◌, ◌%◌, ◌^◌, ◌<◌, ◌≤◌, ◌⊎◌, ◌≡◌, Bool, arith, ◌==◌, if◌then◌else◌,
  update, not,
}

abbrev pub Block : Type 0
Block = ℕ → ℕ

-- BSIZE
abbrev pub bsize : ℕ
bsize = 512

-- the 16-bit value at byte `o`
unfoldable pub get_short : Block → ℕ → ℕ
get_short b o = b o + 256 * b (o + 1)

unfoldable pub put_short : Block → ℕ → ℕ → Block
put_short b o v = update (update b o (v % 256)) (o + 1) (v / 256 % 256)

-- the 32-bit value at byte `o`
unfoldable pub get_word : Block → ℕ → ℕ
get_word b o = b o + 256 * b (o + 1) + 65536 * b (o + 2) + 16777216 * b (o + 3)

unfoldable pub put_word : Block → ℕ → ℕ → Block
put_word b o v =
    update
      (update (update (update b o (v % 256)) (o + 1) (v / 256 % 256)) (o + 2) (v / 65536 % 256))
      (o + 3) (v / 16777216 % 256)

-- `a[i]` and `a[i] = v` for `uint *a = (uint*)bp->data`
abbrev pub get_entry : Block → ℕ → ℕ
get_entry b i = get_word b (4 * i)

abbrev pub put_entry : Block → ℕ → ℕ → Block
put_entry b i v = put_word b (4 * i) v

pub get_word-put_word : (b : Block) (o v : ℕ) → v < 2 ^ 32 → get_word (put_word b o v) o ≡ v
unfolding get_word put_word
get_word-put_word b o v h = ground arith

-- A write spares the values that share no byte with it.
pub get_word-put_word_ne :
    (b : Block) (o p v : ℕ) → (o + 4 ≤ p) ⊎ (p + 4 ≤ o) → get_word (put_word b o v) p ≡ get_word b p
unfolding get_word put_word
get_word-put_word_ne b o p v h = ground arith

pub get_short-put_short : (b : Block) (o v : ℕ) → v < 2 ^ 16 → get_short (put_short b o v) o ≡ v
unfolding get_short put_short
get_short-put_short b o v h = ground arith

pub get_short-put_short_ne :
    (b : Block) (o p v : ℕ)
    → (o + 2 ≤ p) ⊎ (p + 2 ≤ o)
    → get_short (put_short b o v) p ≡ get_short b p
unfolding get_short put_short
get_short-put_short_ne b o p v h = ground arith

pub get_short-put_word :
    (b : Block) (o p v : ℕ)
    → (o + 4 ≤ p) ⊎ (p + 2 ≤ o)
    → get_short (put_word b o v) p ≡ get_short b p
unfolding get_short put_word
get_short-put_word b o p v h = ground arith

pub get_word-put_short :
    (b : Block) (o p v : ℕ)
    → (o + 2 ≤ p) ⊎ (p + 4 ≤ o)
    → get_word (put_short b o v) p ≡ get_word b p
unfolding get_word put_short
get_word-put_short b o p v h = ground arith

-- bits of a byte: `x & (1 << k)`, `x |= 1 << k` and `x &= ~(1 << k)`
unfoldable pub test_bit : ℕ → ℕ → Bool
test_bit x k = not (bit_and x (2 ^ k) == 0)

unfoldable pub set_bit : ℕ → ℕ → ℕ
set_bit x k = bit_or x (2 ^ k)

unfoldable pub clear_bit : ℕ → ℕ → ℕ
clear_bit x k = bit_and x (255 - 2 ^ k)
