-- ===== src/Fs/Alloc/Taking.antt =====
-- What `balloc` of project3/fs.c does to the free map and to the other blocks.
use ele3021_os.Common.{
  ℕ, ◌+◌, ◌/◌, ◌%◌, ◌<◌, ◌≡◌, ◌≢◌, ◌⊎◌, inl, inr, refl, sym, ap, ◌∙◌, subst, Bool, true, false,
  arith, ◌==◌, if◌then◌else◌, ℕ_discrete,
}
use ele3021_os.Fs.Block.{Block, bsize}
use ele3021_os.Fs.Block.Bits.{test_bit-set_bit, set_bit_lt}
use ele3021_os.Fs.State.{Fs, Superblock, ok, panic}
use ele3021_os.Fs.Alloc.{bpb, bblock, mark, take_block, balloc_from, balloc}
use ele3021_os.Fs.Alloc.Search.{in_use, IsMapped, bit_at, Allocates, balloc_from-Allocates}

-- What an allocation of block `b` does.
pub record Taken (s : Fs) (b : ℕ) (s' : Fs) : Type 0 where
  pub in_disk : b < s.sb.size
  pub free_before : in_use s b ≡ false
  pub least : (c : ℕ) → c < b → in_use s c ≡ true
  pub now_used : (c : ℕ) → c < s.sb.size → in_use s' c ≡ (if c == b then true else in_use s c)
  pub mapped : IsMapped s'
  pub zeroed : (j : ℕ) → j < bsize → s'.data' b j ≡ 0
  pub others : (c : ℕ) → c ≢ b → c ≢ bblock b s → s'.data' c ≡ s.data' c
  pub super_block : s'.sb ≡ s.sb

-- a bit of the map block after one of its bits is set
bit_at-mark :
    (bits : Block) (i j : ℕ)
    → ((k : ℕ) → bits k < 256)
    → bit_at (mark i bits) j ≡ (if j == i then true else bit_at bits j)
bit_at-mark bits i j bytes = ground (
  arith,
  test_bit-set_bit (bits (i / 8)) (i % 8) (j % 8) (bytes (i / 8)) (omega arith) (omega arith),
)

if_true : (x y : Bool) → y ≡ true → (if x then true else y) ≡ true
if_true x y h = ground arith

-- the free map of a later state, found by the same super block
pub in_use_later :
    (s s' : Fs) (c : ℕ) → s'.sb ≡ s.sb → in_use s' c ≡ bit_at (s'.data' (bblock c s)) (c % bpb)
unfolding in_use
in_use_later s s' c e = λ i. bit_at (s'.data' (c / bpb + (e i).bmapstart)) (c % bpb)

pub in_use_self : (s : Fs) (c : ℕ) → in_use s c ≡ bit_at (s.data' (bblock c s)) (c % bpb)
in_use_self s c = in_use_later s s c refl

module _ (s : Fs) (w : IsMapped s) (a i : ℕ) (al : a % bpb ≡ 0) (lt : i < bpb)
    (in_disk : a + i < s.sb.size) (free : in_use s (a + i) ≡ false) where
  taken : Fs
  taken = (take_block a i s).1

  map_block : bblock (a + i) s ≡ bblock a s
  map_block = omega arith

  -- a map block is not the block that is allocated
  map_ne : (c : ℕ) → c < s.sb.size → a + i ≢ bblock c s
  map_ne c h e = cc (w.map_used c h, ap (in_use s) e, free)

  taken_data :
      (c : ℕ)
      → a + i ≢ c
      → taken.data' c ≡ (if bblock a s == c then mark i (s.data' (bblock a s)) else s.data' c)
  unfolding taken take_block
  taken_data c ne = ground arith

  taken_zero : (j : ℕ) → j < bsize → taken.data' (a + i) j ≡ 0
  unfolding taken take_block
  taken_zero j h = ground arith

  taken_sb : taken.sb ≡ s.sb
  unfolding taken take_block
  taken_sb = refl

  taken_bit :
      (c : ℕ)
      → c < s.sb.size
      → bit_at (taken.data' (bblock c s)) (c % bpb)
        ≡ (if c == a + i then true else bit_at (s.data' (bblock c s)) (c % bpb))
  taken_bit c h = elim (ℕ_discrete (bblock a s) (bblock c s)) [
    | yes e ↦
        let hit : (bblock a s == bblock c s) ≡ true = ground arith in
        let same : (c % bpb == i) ≡ (c == a + i) = ground arith in
        rw (taken_data (bblock c s) (map_ne c h), hit)
          (bit_at-mark (s.data' (bblock a s)) i (c % bpb) (w.bytes a)
            ∙ (ap (λ t. if t then true else bit_at (s.data' (bblock a s)) (c % bpb)) same
                ∙ ap (λ t. if c == a + i then true else bit_at (s.data' t) (c % bpb)) e))
    | no ne ↦
        let miss : (bblock a s == bblock c s) ≡ false = ground arith in
        let other : (c == a + i) ≡ false = ground arith in
        rw (taken_data (bblock c s) (map_ne c h), miss, other)
  ]

  taken_bytes : (b j : ℕ) → taken.data' (bblock b taken) j < 256
  unfolding taken take_block
  taken_bytes b j = ground (
    arith,
    w.bytes b j,
    w.bytes a j,
    set_bit_lt (s.data' (bblock a s) (i / 8)) (i % 8) (w.bytes a (i / 8)) (omega arith),
  )

  taken_in_use :
      (c : ℕ) → c < s.sb.size → in_use taken c ≡ (if c == a + i then true else in_use s c)
  taken_in_use c h =
      in_use_later s taken c taken_sb
      ∙ (taken_bit c h ∙ ap (λ t. if c == a + i then true else t) (sym (in_use_self s c)))

  taken_map : (b : ℕ) → bblock b taken ≡ bblock b s
  taken_map b = λ i. b / bpb + (taken_sb i).bmapstart

  taken_used : (b : ℕ) → b < taken.sb.size → in_use taken (bblock b taken) ≡ true
  taken_used b h =
      let h' : b < s.sb.size = subst (λ t. b < t) (ap (λ (t : Superblock). t.size) taken_sb) h in
      ap (in_use taken) (taken_map b)
      ∙ (taken_in_use (bblock b s) (w.map_in_disk b h')
          ∙ if_true (bblock b s == a + i) (in_use s (bblock b s)) (w.map_used b h'))

  taken_in_disk : (b : ℕ) → b < taken.sb.size → bblock b taken < taken.sb.size
  taken_in_disk b h =
      let e : taken.sb.size ≡ s.sb.size = ap (λ (t : Superblock). t.size) taken_sb in
      omega (arith, w.map_in_disk b (omega arith), taken_map b)

  take_block-Taken : ((c : ℕ) → c < a + i → in_use s c ≡ true) → Taken s (a + i) taken
  take_block-Taken least = record {
    in_disk = in_disk;
    free_before = free;
    least = least;
    now_used = taken_in_use;
    mapped = record { bytes = taken_bytes; map_used = taken_used; map_in_disk = taken_in_disk };
    zeroed = taken_zero;
    others = λ c ne ne'.
        let miss : (bblock a s == c) ≡ false = ground (arith, map_block) in
        taken_data c (λ e. ne (sym e)) ∙ (rw miss);
    super_block = taken_sb;
  }

take_block-fst : (a i : ℕ) (s : Fs) → take_block a i s ≡ (a + i, (take_block a i s).1)
unfolding take_block
take_block-fst a i s = refl

-- `balloc` panics if every block of the disk is in use. Else it returns the first free block: it is
-- then in use and filled with zeros, the other bits of the free map are as before, and so is every
-- block but this one and its block of the free map.
pub balloc-Taken :
    {s : Fs}
    → IsMapped s
    → ((balloc s ≡ panic) × ((c : ℕ) → c < s.sb.size → in_use s c ≡ true))
      ⊎ ((b : ℕ) × (s' : Fs) × (balloc s ≡ ok (b, s')) × Taken s b s')
unfolding balloc
balloc-Taken {s} w =
    finish (balloc_from-Allocates (s.sb.size / bpb + 1) 0 s (omega arith) (omega arith))
  where
    finish :
        Allocates s 0 (balloc_from 0 (s.sb.size / bpb + 1) s)
        → ((balloc_from 0 (s.sb.size / bpb + 1) s ≡ panic)
            × ((c : ℕ) → c < s.sb.size → in_use s c ≡ true))
          ⊎ ((b : ℕ) × (s' : Fs) × (balloc_from 0 (s.sb.size / bpb + 1) s ≡ ok (b, s'))
              × Taken s b s')
    finish (inl (e, all)) = inl (e, λ c h. all c (omega arith) h)
    finish (inr (a, i, e, al, lt, inside, free, used)) = inr (
      a + i,
      (take_block a i s).1,
      e ∙ ap ok (take_block-fst a i s),
      unfold taken in take_block-Taken s w a i al lt inside free (λ c h. used c (omega arith) h),
    )
