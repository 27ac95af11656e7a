-- ===== src/Fs/Alloc/Search.antt =====
-- What the search of `balloc` of project3/fs.c finds in the free map.
use ele3021_os.Common.{
  ℕ, zero, suc, ◌+◌, ◌-◌, ◌*◌, ◌/◌, ◌%◌, ◌≤◌, ◌<◌, ◌≡◌, ◌⊎◌, inl, inr, refl, ◌∙◌, subst, Bool, true,
  false, Option, none, some, arith, leb, Bool-cases, ℕ_discrete, dec_lt,
}
use ele3021_os.Fs.Block.{Block, test_bit}
use ele3021_os.Fs.State.{Fs, Result, ok, panic}
use ele3021_os.Fs.Alloc.{bpb, bblock, find_free, take_block, balloc_from}

-- The free map says that the block is in use.
unfoldable pub in_use : Fs → ℕ → Bool
in_use s b = test_bit (s.data' (bblock b s) (b % bpb / 8)) (b % bpb % 8)

-- The blocks of the free map hold bytes, lie on the disk and are in use themselves.
pub record IsMapped (s : Fs) : Type 0 where
  pub bytes : (b j : ℕ) → s.data' (bblock b s) j < 256
  pub map_used : (b : ℕ) → b < s.sb.size → in_use s (bblock b s) ≡ true
  pub map_in_disk : (b : ℕ) → b < s.sb.size → bblock b s < s.sb.size

abbrev pub bit_at : Block → ℕ → Bool
bit_at bits j = test_bit (bits (j / 8)) (j % 8)

-- from the bit `bi` and the later ones to all from `bi` on
from_next :
    (bits : Block) (bi j : ℕ)
    → bit_at bits bi ≡ true
    → bi ≤ j
    → (suc bi ≤ j → bit_at bits j ≡ true)
    → bit_at bits j ≡ true
from_next bits bi j used h later = elim (ℕ_discrete bi j) [
  | yes e ↦ subst (λ t. bit_at bits t ≡ true) e used
  | no ne ↦ later (omega arith)
]

-- What the inner loop finds: the first clear bit in its range, or that there is none.
abbrev Found : Block → ℕ → ℕ → ℕ → ℕ → Option ℕ → Type 0
Found bits b size bi n none = (j : ℕ) → bi ≤ j → j < bi + n → b + j < size → bit_at bits j ≡ true
Found bits b size bi n (some i) =
    (i < bi + n)
    × (b + i < size)
    × (bit_at bits i ≡ false)
    × ((j : ℕ) → bi ≤ j → j < i → bit_at bits j ≡ true)

Found-next :
    (bits : Block) (b size bi n : ℕ) (o : Option ℕ)
    → bit_at bits bi ≡ true
    → Found bits b size (suc bi) n o
    → Found bits b size bi (suc n) o
Found-next bits b size bi n none used all =
    λ j h h' h''. from_next bits bi j used h (λ later. all j later (omega arith) h'')
Found-next bits b size bi n (some i) used (lt, inside, free, all) =
    (omega arith, inside, free, λ j h h'. from_next bits bi j used h (λ later. all j later h'))

find_free-Found :
    (bits : Block) (b size bi n : ℕ) → Found bits b size bi n (find_free bits b size bi n)
unfolding find_free
find_free-Found bits b size bi zero = λ j h h' h''. absurd (omega arith)
find_free-Found bits b size bi (suc n) = elim (dec_lt (b + bi) size) [
  | no past ↦
      let stop : leb size (b + bi) ≡ true = ground arith in
      rw stop (λ j h h' h''. absurd (omega arith))
  | yes inside ↦
      let go : leb size (b + bi) ≡ false = ground arith in
      rw go (elim (Bool-cases (bit_at bits bi)) [
        | inr free ↦ rw free (omega arith, inside, free, λ j h h'. absurd (omega arith))
        | inl used ↦
            rw used (Found-next bits b size bi n _ used (find_free-Found bits b size (suc bi) n))
      ])
]

in_use_at :
    (s : Fs) (b j : ℕ) → b % bpb ≡ 0 → j < bpb → in_use s (b + j) ≡ bit_at (s.data' (bblock b s)) j
unfolding in_use
in_use_at s b j h lt =
    let q : (b + j) / bpb ≡ b / bpb = omega arith in
    let r : (b + j) % bpb ≡ j = omega arith in rw (q, r)

-- What the outer loop finds from block `b` on: it stops with a panic when all are in use.
abbrev pub Allocates : Fs → ℕ → Result (ℕ × Fs) → Type 0
Allocates s b r =
    ((r ≡ panic) × ((c : ℕ) → b ≤ c → c < s.sb.size → in_use s c ≡ true))
    ⊎ ((a : ℕ) × (i : ℕ) × (r ≡ ok (take_block a i s))
        × (a % bpb ≡ 0)
        × (i < bpb)
        × (a + i < s.sb.size)
        × (in_use s (a + i) ≡ false)
        × ((c : ℕ) → b ≤ c → c < a + i → in_use s c ≡ true))

module _ (s : Fs) (b : ℕ) (aligned : b % bpb ≡ 0) where
  -- the blocks of one bitmap block
  used_below :
      (m : ℕ)
      → m ≤ bpb
      → ((j : ℕ) → j < m → b + j < s.sb.size → bit_at (s.data' (bblock b s)) j ≡ true)
      → (c : ℕ) → b ≤ c
      → c < b + m
      → c < s.sb.size
      → in_use s c ≡ true
  used_below m le all c h h' h'' =
      subst (λ t. in_use s t ≡ true) (omega arith)
        (in_use_at s b (c - b) aligned (omega arith) ∙ all (c - b) (omega arith) (omega arith))

  Allocates-next :
      (r : Result (ℕ × Fs))
      → Found (s.data' (bblock b s)) b s.sb.size 0 bpb none
      → Allocates s (b + bpb) r
      → Allocates s b r
  Allocates-next r all (inl (e, used)) = inl (
    e,
    λ c h h'. elim (dec_lt c (b + bpb)) [
      | yes near ↦
          used_below bpb (omega arith) (λ j lt. all j (omega arith) (omega arith)) c h near h'
      | no far ↦ used c (omega arith) h'
    ],
  )
  Allocates-next r all (inr (a, i, e, al, lt, inside, free, used)) = inr (
    a,
    i,
    e,
    al,
    lt,
    inside,
    free,
    λ c h h'. elim (dec_lt c (b + bpb)) [
      | yes near ↦
          used_below bpb (omega arith) (λ j lt. all j (omega arith) (omega arith)) c h near
            (omega arith)
      | no far ↦ used c (omega arith) h'
    ],
  )

Allocates-scan :
    (s : Fs) (b : ℕ) (rest : Result (ℕ × Fs))
    → b % bpb ≡ 0
    → Allocates s (b + bpb) rest
    → (o : Option ℕ) → Found (s.data' (bblock b s)) b s.sb.size 0 bpb o
    → Allocates s b (elim o [ none ↦ rest | some bi ↦ ok (take_block b bi s) ])
Allocates-scan s b rest al next none all = Allocates-next s b al rest all next
Allocates-scan s b rest al next (some bi) (lt, in_disk, free, all) = inr (
  b,
  bi,
  refl,
  al,
  omega arith,
  in_disk,
  in_use_at s b bi al (omega arith) ∙ free,
  λ c h h'.
      used_below s b al bi (omega arith) (λ j lt' lt''. all j (omega arith) lt') c h h'
        (omega arith),
)

pub balloc_from-Allocates :
    (n b : ℕ) (s : Fs) → b % bpb ≡ 0 → s.sb.size < b + n * bpb → Allocates s b (balloc_from b n s)
unfolding balloc_from
balloc_from-Allocates zero b s al enough = inl (refl, λ c h h'. absurd (omega arith))
balloc_from-Allocates (suc n) b s al enough = elim (dec_lt b s.sb.size) [
  | no past ↦
      let stop : leb s.sb.size b ≡ true = ground arith in
      rw stop (inl (refl, λ c h h'. absurd (omega arith)))
  | yes inside ↦
      let go : leb s.sb.size b ≡ false = ground arith in
      rw go (
        Allocates-scan s b (balloc_from (b + bpb) n s) al
          (balloc_from-Allocates n (b + bpb) s (omega arith) (omega arith))
          (find_free (s.data' (bblock b s)) b s.sb.size 0 bpb)
          (find_free-Found (s.data' (bblock b s)) b s.sb.size 0 bpb))
]
