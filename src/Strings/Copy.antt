-- ===== src/Strings/Copy.antt =====
-- What the copying functions of project1/string.c leave in memory.
use ele3021_os.Common.{
  ℕ, zero, suc, ◌+◌, ◌-◌, ◌*◌, ◌/◌, ◌%◌, ◌<◌, ◌≤◌, ◌≡◌, ◌⊎◌, inl, inr, Bool, arith, ◌&&◌, ltb, leb,
  if◌then◌else◌, ◌==◌, update, ap, ◌∙◌, dec_lt, Bool-cases,
}
use ele3021_os.Strings.{Memory, stosb, stosl, memset, copy_up, copy_down, memmove}

-- address `j` lies in the `n` bytes from `d` on
abbrev pub within : ℕ → ℕ → ℕ → Bool
within d n j = leb d j && ltb j (d + n)

copy_up-read :
    (d s n : ℕ) (m : Memory) (j : ℕ)
    → (d ≤ s) ⊎ (s + n ≤ d)
    → copy_up d s n m j ≡ (if within d n j then m (s + (j - d)) else m j)
unfolding copy_up
copy_up-read d s zero m j h = ground arith
copy_up-read d s (suc n) m j h =
    let ih = copy_up-read (d + 1) (s + 1) n (update m d (m s)) j (omega arith) in
    elim (dec_lt d j) [
      | no le ↦ ground (arith, ih)
      | yes lt ↦ let at : s + 1 + (j - (d + 1)) ≡ s + (j - d) = omega arith in ground (arith, ih)
    ]

copy_down-read :
    (d s n : ℕ) (m : Memory) (j : ℕ)
    → s ≤ d
    → copy_down d s n m j ≡ (if within d n j then m (s + (j - d)) else m j)
unfolding copy_down
copy_down-read d s zero m j h = ground arith
copy_down-read d s (suc n) m j h =
    ground (arith, copy_down-read d s n (update m (d + n) (m (s + n))) j h)

-- `memmove` copies `n` bytes, also between regions that overlap, and changes nothing else.
pub memmove-read :
    (dst src n : ℕ) (m : Memory) (j : ℕ)
    → memmove dst src n m j ≡ (if within dst n j then m (src + (j - dst)) else m j)
unfolding memmove
memmove-read dst src n m j = elim (Bool-cases (ltb src dst && ltb dst (src + n))) [
  | inl down ↦ rw down (copy_down-read dst src n m j (ground arith))
  | inr up ↦ rw up (copy_up-read dst src n m j (ground arith))
]

stosb-read :
    (a c n : ℕ) (m : Memory) (j : ℕ) → stosb a c n m j ≡ (if within a n j then c % 256 else m j)
unfolding stosb
stosb-read a c zero m j = ground arith
stosb-read a c (suc n) m j = ground (arith, stosb-read (a + 1) c n (update m a (c % 256)) j)

stosl-read :
    (a b n : ℕ) (m : Memory) (j : ℕ)
    → b < 256
    → stosl a (b * 16777216 + b * 65536 + b * 256 + b) n m j
      ≡ (if within a (4 * n) j then b else m j)
unfolding stosl
stosl-read a b zero m j h = ground arith
stosl-read a b (suc n) m j h =
    let w : ℕ = b * 16777216 + b * 65536 + b * 256 + b in
    let b0 : w % 256 ≡ b = omega arith in
    let b1 : w / 256 % 256 ≡ b = omega arith in
    let b2 : w / 65536 % 256 ≡ b = omega arith in
    let b3 : w / 16777216 % 256 ≡ b = omega arith in
    let m' : Memory = update (update (update (update m a b) (a + 1) b) (a + 2) b) (a + 3) b in
    rw (b0, b1, b2, b3) (stosl-read (a + 4) b n m' j h ∙ ground arith)

-- `memset` fills `n` bytes with the low byte of `c`, word by word or byte by byte, and changes nothing
-- else.
pub memset-read :
    (dst c n : ℕ) (m : Memory) (j : ℕ)
    → memset dst c n m j ≡ (if within dst n j then c % 256 else m j)
unfolding memset
memset-read dst c n m j = elim (Bool-cases ((dst % 4 == 0) && (n % 4 == 0))) [
  | inl words ↦
      let e : 4 * (n / 4) ≡ n = ground arith in
      rw words (
        stosl-read dst (c % 256) (n / 4) m j (omega arith)
        ∙ ap (λ k. if within dst k j then c % 256 else m j) e)
  | inr bytes ↦ rw bytes (stosb-read dst c n m j)
]
