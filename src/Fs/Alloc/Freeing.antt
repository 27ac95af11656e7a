-- ===== src/Fs/Alloc/Freeing.antt =====
-- What `bfree` of project3/fs.c does to the free map, also behind `balloc`.
use ele3021_os.Common.{
  ℕ, ◌/◌, ◌%◌, ◌<◌, ◌≡◌, ◌≢◌, ◌⊎◌, inl, inr, refl, sym, ap, ◌∙◌, subst, true, false, arith, ◌==◌,
  if◌then◌else◌, update, update_ne, Bool-cases, ℕ_discrete,
}
use ele3021_os.Fs.Block.{Block, clear_bit}
use ele3021_os.Fs.Block.Bits.{test_bit-clear_bit}
use ele3021_os.Fs.State.{Fs, ok, panic, write}
use ele3021_os.Fs.Alloc.{bpb, bblock, balloc, bfree}
use ele3021_os.Fs.Alloc.Search.{in_use, IsMapped, bit_at}
use ele3021_os.Fs.Alloc.Taking.{balloc-Taken, in_use_later, in_use_self}

-- a bit of the map block after one of its bits is cleared
bit_at-clear :
    (bits : Block) (i j : ℕ)
    → ((k : ℕ) → bits k < 256)
    → bit_at (update bits (i / 8) (clear_bit (bits (i / 8)) (i % 8))) j
      ≡ (if j == i then false else bit_at bits j)
bit_at-clear bits i j bytes = ground (
  arith,
  test_bit-clear_bit (bits (i / 8)) (i % 8) (j % 8) (bytes (i / 8)) (omega arith) (omega arith),
)

-- What freeing block `b` does.
pub record Freed (s : Fs) (b : ℕ) (s' : Fs) : Type 0 where
  pub now_free : (c : ℕ) → in_use s' c ≡ (if c == b then false else in_use s c)
  pub others : (c : ℕ) → c ≢ bblock b s → s'.data' c ≡ s.data' c
  pub super_block : s'.sb ≡ s.sb

abbrev pub freed : ℕ → Fs → Fs
freed b s =
    let bits = s.data' (bblock b s) in
    write (bblock b s) (update bits (b % bpb / 8) (clear_bit (bits (b % bpb / 8)) (b % bpb % 8))) s

freed_bit :
    (s : Fs) (b c : ℕ)
    → IsMapped s
    → bit_at ((freed b s).data' (bblock c s)) (c % bpb)
      ≡ (if c == b then false else bit_at (s.data' (bblock c s)) (c % bpb))
freed_bit s b c w = elim (ℕ_discrete (bblock b s) (bblock c s)) [
  | yes e ↦
      let hit : (bblock b s == bblock c s) ≡ true = ground arith in
      let same : (c % bpb == b % bpb) ≡ (c == b) = ground arith in
      rw hit (
        bit_at-clear (s.data' (bblock b s)) (b % bpb) (c % bpb) (w.bytes b)
        ∙ (ap (λ t. if t then false else bit_at (s.data' (bblock b s)) (c % bpb)) same
            ∙ ap (λ t. if c == b then false else bit_at (s.data' t) (c % bpb)) e))
  | no ne ↦
      let miss : (bblock b s == bblock c s) ≡ false = ground arith in
      let other : (c == b) ≡ false = ground arith in rw (miss, other)
]

bfree-if : (b : ℕ) (s : Fs) → bfree b s ≡ (if in_use s b then ok (freed b s) else panic)
unfolding bfree in_use
bfree-if b s = refl

-- `bfree` panics if the block is free already. Else the block is free, and the other bits of the free
-- map and every block outside it are as before.
pub bfree-Freed :
    {s : Fs} (b : ℕ)
    → IsMapped s
    → ((in_use s b ≡ false) × (bfree b s ≡ panic))
      ⊎ ((in_use s b ≡ true) × (s' : Fs) × (bfree b s ≡ ok s') × Freed s b s')
bfree-Freed {s} b w = elim (Bool-cases (in_use s b)) [
  | inr free ↦ inl (free, bfree-if b s ∙ rw free)
  | inl used ↦ inr (
    used,
    freed b s,
    bfree-if b s ∙ rw used,
    record {
      now_free = λ c.
          in_use_later s (freed b s) c refl
          ∙ (freed_bit s b c w ∙ ap (λ t. if c == b then false else t) (sym (in_use_self s c)));
      others = λ c ne. update_ne s.data' (bblock b s) _ c (λ e. ne (sym e));
      super_block = refl;
    },
  )
]

-- Allocating a block and freeing it again gives back the free map.
pub bfree-balloc :
    {s s' s'' : Fs} {b : ℕ}
    → IsMapped s
    → balloc s ≡ ok (b, s')
    → bfree b s' ≡ ok s''
    → (c : ℕ) → c < s.sb.size
    → in_use s'' c ≡ in_use s c
bfree-balloc {s} {s'} {s''} {b} w e e' c h = elim (balloc-Taken w) [
  | inl (p, all) ↦ cc
  | inr (b2, s2, e2, t) ↦
      let eb : b2 ≡ b = cc in
      let es : s2 ≡ s' = cc in
      elim (bfree-Freed b (subst IsMapped es t.mapped)) [
        | inl (free, p) ↦ cc
        | inr (used, s3, e3, f) ↦
            let es' : s3 ≡ s'' = cc in
            ap (λ x. in_use x c) (sym es')
            ∙ (f.now_free c
                ∙ ground (
                  arith,
                  ap (λ x. in_use x c) es,
                  ap (in_use s) eb,
                  t.now_used c h,
                  t.free_before,
                ))
      ]
]
