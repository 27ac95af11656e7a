-- ===== src/Strings.antt =====
-- project1/string.c over a memory of bytes. An address is a number, and no object wraps around the
-- address space. `int` arguments are their 32-bit patterns, and `char` values are bytes.
pub mod Copy
pub mod Compare
mod Tests
use ele3021_os.Common.{
  ℕ, zero, suc, ◌+◌, ◌-◌, ◌*◌, ◌/◌, ◌%◌, ◌^◌, Bool, ◌&&◌, ltb, leb, if◌then◌else◌, ◌==◌, update,
  Option, none, some, not,
}
use ele3021_os.Common.Int.{ℤ, pos, negsuc}

abbrev pub Memory : Type 0
Memory = ℕ → ℕ

-- `rep stosb`: the low byte of `data` into `n` bytes
unfoldable pub stosb : ℕ → ℕ → ℕ → Memory → Memory
stosb addr data' zero m = m
stosb addr data' (suc n) m = stosb (addr + 1) data' n (update m addr (data' % 256))

-- `rep stosl`: the word `data` into `n` words
unfoldable pub stosl : ℕ → ℕ → ℕ → Memory → Memory
stosl addr data' zero m = m
stosl addr data' (suc n) m =
    let m1 = update (update m addr (data' % 256)) (addr + 1) (data' / 256 % 256) in
    let m2 =
      update (update m1 (addr + 2) (data' / 65536 % 256)) (addr + 3) (data' / 16777216 % 256) in
    stosl (addr + 4) data' n m2

-- The `|` of four bytes at different places is their sum.
unfoldable pub memset : ℕ → ℕ → ℕ → Memory → Memory
unfolding stosb stosl
memset dst c n m =
    if (dst % 4 == 0) && (n % 4 == 0)
    then (let b = c % 256 in stosl dst (b * 16777216 + b * 65536 + b * 256 + b) (n / 4) m)
    else stosb dst c n m

abbrev pub difference : ℕ → ℕ → ℤ
difference a b = if leb b a then pos (a - b) else negsuc (b - a - 1)

unfoldable pub memcmp : ℕ → ℕ → ℕ → Memory → ℤ
memcmp s1 s2 zero m = pos 0
memcmp s1 s2 (suc n) m =
    let rest = memcmp (s1 + 1) (s2 + 1) n m in
    if m s1 == m s2 then rest else difference (m s1) (m s2)

-- `while(n-- > 0) *d++ = *s++`
unfoldable pub copy_up : ℕ → ℕ → ℕ → Memory → Memory
copy_up d s zero m = m
copy_up d s (suc n) m = copy_up (d + 1) (s + 1) n (update m d (m s))

-- `while(n-- > 0) *--d = *--s`, from `d + n` and `s + n` on
unfoldable pub copy_down : ℕ → ℕ → ℕ → Memory → Memory
copy_down d s zero m = m
copy_down d s (suc n) m = copy_down d s n (update m (d + n) (m (s + n)))

unfoldable pub memmove : ℕ → ℕ → ℕ → Memory → Memory
unfolding copy_up copy_down
memmove dst src n m =
    if ltb src dst && ltb dst (src + n) then copy_down dst src n m else copy_up dst src n m

abbrev pub memcpy : ℕ → ℕ → ℕ → Memory → Memory
memcpy dst src n m = memmove dst src n m

unfoldable pub strncmp : ℕ → ℕ → ℕ → Memory → ℤ
strncmp p q zero m = pos 0
strncmp p q (suc n) m =
    let rest = strncmp (p + 1) (q + 1) n m in
    if not (m p == 0) && (m p == m q) then rest else difference (m p) (m q)

-- `while(n-- > 0) *s++ = 0`
unfoldable pub pad : ℕ → ℕ → Memory → Memory
pad s zero m = m
pad s (suc n) m = pad (s + 1) n (update m s 0)

-- `strncpy` with `n > 0` or not: a negative `n` copies nothing, like 0
unfoldable pub strncpy : ℕ → ℕ → ℕ → Memory → Memory
unfolding pad
strncpy s t zero m = m
strncpy s t (suc n) m =
    let m' = update m s (m t) in
    let rest = strncpy (s + 1) (t + 1) n m' in if m t == 0 then pad (s + 1) n m' else rest

-- the loop of `safestrcpy` and the NUL behind it, with room for `n + 1` bytes
unfoldable pub safe_copy : ℕ → ℕ → ℕ → Memory → Memory
safe_copy s t zero m = update m s 0
safe_copy s t (suc n) m =
    let m' = update m s (m t) in
    let rest = safe_copy (s + 1) (t + 1) n m' in if m t == 0 then update m' (s + 1) 0 else rest

unfoldable pub safestrcpy : ℕ → ℕ → ℕ → Memory → Memory
unfolding safe_copy
safestrcpy s t zero m = m
safestrcpy s t (suc n) m = safe_copy s t n m

-- None is a string that does not end within `fuel` bytes.
unfoldable pub strlen : ℕ → ℕ → Memory → Option ℕ
strlen zero s m = none
strlen (suc fuel) s m =
    let rest = strlen fuel (s + 1) m in
    if m s == 0 then some 0 else elim rest [ none ↦ none | some n ↦ some (n + 1) ]
