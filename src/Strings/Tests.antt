-- ===== src/Strings/Tests.antt =====
-- Tests of project1/string.c, and its theorems at concrete inputs.
use ele3021_os.Common.{ℕ, ◌+◌, ◌-◌, ◌≡◌, ◌≢◌, ◌<◌, ◌↔◌, inl, refl, arith, if◌then◌else◌, ◌==◌, ltb}
use ele3021_os.Common.Int.{pos, negsuc}
use ele3021_os.Strings.{
  Memory, memset, memmove, memcmp, strncmp, safestrcpy, copy_down, stosl, strncpy, pad,
}
use ele3021_os.Strings.Copy.{within, memmove-read, memset-read}
use ele3021_os.Strings.Compare.{strncmp-zero, IsString, safestrcpy-IsString}

-- "abc" stands at 100 and "abd" at 200; all other bytes are 0.
abbrev words : Memory
words j =
    if ltb j 100
    then 0
    else if ltb j 103
    then j - 3
    else if j == 200
    then 97
    else if j == 201
    then 98
    else if j == 202
    then 100
    else 0

-- a copy to an overlapping region above the source
memmove-read_example :
    memmove 101 100 3 words 103
    ≡ (if within 101 3 103 then words (100 + (103 - 101)) else words 103)
memmove-read_example = memmove-read 101 100 3 words 103

memmove_run : memmove 101 100 3 words 103 ≡ 99
unfolding memmove copy_down
memmove_run = refl

memset-read_example : memset 100 300 8 words 102 ≡ (if within 100 8 102 then 44 else words 102)
memset-read_example = memset-read 100 300 8 words 102

memset_run : memset 100 300 8 words 102 ≡ 44
unfolding memset stosl
memset_run = refl

memcmp_run : memcmp 100 200 3 words ≡ negsuc 0
unfolding memcmp
memcmp_run = refl

strncmp-zero_example : (strncmp 100 200 9 words ≡ pos 0) ↔ (
    (i : ℕ) → i < 9 → ((j : ℕ) → j < i → words (100 + j) ≢ 0) → words (100 + i) ≡ words (200 + i))
strncmp-zero_example = strncmp-zero 9 100 200 words

strncmp_run : strncmp 100 200 9 words ≡ negsuc 0
unfolding strncmp
strncmp_run = refl

safestrcpy-IsString_example : (k : ℕ) × IsString 300 100 16 words (safestrcpy 300 100 16 words) k
safestrcpy-IsString_example = safestrcpy-IsString 300 100 16 words (omega arith) (inl (omega arith))

strncpy_run : strncpy 300 100 16 words 302 ≡ 99
unfolding strncpy pad
strncpy_run = refl
