-- ===== src/Fs/Content/Read.antt =====
-- What `readi` of project3/fs.c returns, against the contents of the file.
use ele3021_os.Common.{
  ℕ, zero, suc, ◌+◌, ◌-◌, ◌*◌, ◌/◌, ◌%◌, ◌^◌, ◌<◌, ◌≤◌, ◌≡◌, ◌≢◌, min, List, [], ◌∷◌, ◌++◌, true,
  false, Option, none, some, arith, ltb, if◌then◌else◌, ◌==◌, ◌||◌, ◌⊎◌, refl, sym, ap, ap₂, ◌∙◌,
  ℕ_discrete,
}
use ele3021_os.Fs.Block.{bsize}
use ele3021_os.Fs.State.{Fs, ok}
use ele3021_os.Fs.Inode.{Inode}
use ele3021_os.Fs.Map.{bmap, maxfile}
use ele3021_os.Fs.Map.Stable.{block_of, IsLive, bmap-block_of}
use ele3021_os.Fs.Content.{t_dev, bytes_at, read_loop, readi, chunk}

-- byte `k` of a file
unfoldable pub file_byte : Inode → Fs → ℕ → ℕ
file_byte ip s k = s.data' (block_of ip s (k / bsize)) (k % bsize)

-- `n` bytes of a file from byte `off` on
unfoldable pub file_bytes : Inode → Fs → ℕ → ℕ → List ℕ
file_bytes ip s off zero = []
file_bytes ip s off (suc n) = file_byte ip s off ∷ file_bytes ip s (suc off) n

module _ (ip : Inode) (s : Fs) where
  file_bytes_at :
      {off off' : ℕ} (n : ℕ) → off ≡ off' → file_bytes ip s off n ≡ file_bytes ip s off' n
  file_bytes_at n e = ap (λ k. file_bytes ip s k n) e

  file_bytes-append :
      (m n off : ℕ)
      → file_bytes ip s off m ++ file_bytes ip s (off + m) n ≡ file_bytes ip s off (m + n)
  unfolding file_bytes
  file_bytes-append zero n off =
      let e : off + 0 ≡ off = omega arith in
      let e' : n ≡ 0 + n = omega arith in file_bytes_at n e ∙ ap (file_bytes ip s off) e'
  file_bytes-append (suc m) n off =
      let e : off + suc m ≡ suc off + m = omega arith in
      let e' : suc (m + n) ≡ suc m + n = omega arith in
      ap (λ xs. file_byte ip s off ∷ xs)
        (ap (λ xs. file_bytes ip s (suc off) m ++ xs) (file_bytes_at n e)
          ∙ file_bytes-append m n (suc off))
      ∙ ap (file_bytes ip s off) e'

  file_byte_at :
      (bn o : ℕ) → o < bsize → file_byte ip s (bn * bsize + o) ≡ s.data' (block_of ip s bn) o
  unfolding file_byte
  file_byte_at bn o h =
      let q : (bn * bsize + o) / bsize ≡ bn = omega arith in
      let r : (bn * bsize + o) % bsize ≡ o = omega arith in
      ap₂ (λ b k. s.data' (block_of ip s b) k) q r

  bytes_at-file_byte :
      (m bn o : ℕ)
      → o + m ≤ bsize
      → bytes_at (s.data' (block_of ip s bn)) o m ≡ file_bytes ip s (bn * bsize + o) m
  unfolding file_bytes file_byte bytes_at
  bytes_at-file_byte zero bn o h = refl
  bytes_at-file_byte (suc m) bn o h =
      ap₂ (λ x xs. x ∷ xs) (sym (file_byte_at bn o (omega arith)))
        (bytes_at-file_byte m bn (suc o) (omega arith) ∙ file_bytes_at m (omega arith))

  read_loop-file_bytes :
      (fuel off left : ℕ)
      → left ≤ fuel
      → ((bn : ℕ) → off / bsize ≤ bn → bn * bsize < off + left → IsLive ip s bn)
      → off + left ≤ maxfile * bsize
      → read_loop fuel off left ip s ≡ ok (file_bytes ip s off left, ip, s)
  unfolding read_loop
  read_loop-file_bytes zero off left h live lim =
      let e : left ≡ 0 = omega arith in rw e (unfold file_bytes in refl)
  read_loop-file_bytes (suc fuel) off left h live lim = elim (ℕ_discrete left 0) [
    | yes e ↦ rw e (unfold file_bytes in refl)
    | no ne ↦
        let go : (left == 0) ≡ false = ground arith in
        let m : ℕ = chunk left off in
        let found : bmap ip (off / bsize) s ≡ ok (block_of ip s (off / bsize), ip, s) =
          bmap-block_of ip (off / bsize) s (omega arith)
            (live (off / bsize) (omega arith) (omega arith)) in
        let rest : read_loop fuel (off + m) (left - m) ip s
            ≡ ok (file_bytes ip s (off + m) (left - m), ip, s) =
          read_loop-file_bytes fuel (off + m) (left - m) (omega arith)
            (λ bn k k'. live bn (omega arith) (omega arith)) (omega arith) in
        let here : bytes_at (s.data' (block_of ip s (off / bsize))) (off % bsize) m
            ≡ file_bytes ip s off m =
          bytes_at-file_byte m (off / bsize) (off % bsize) (omega arith)
          ∙ file_bytes_at m (omega arith) in
        rw (go, found, rest, here, file_bytes-append m (left - m) off)
          (ap (λ k. ok (file_bytes ip s off k, ip, s)) (omega arith))
  ]

-- `readi` of a file whose blocks are all there, from an offset inside it: it returns the bytes of the
-- file from `off` on, `n` of them or as many as are left, and changes nothing.
pub readi-file_bytes :
    (device : ℕ → Option (Inode → ℕ → Option (List ℕ))) (ip : Inode) (off n : ℕ) (s : Fs)
    → ip.type' ≢ t_dev
    → off ≤ ip.size
    → off + n < 2 ^ 32
    → ip.size ≤ maxfile * bsize
    → ((bn : ℕ) → bn * bsize < ip.size → IsLive ip s bn)
    → readi device ip off n s ≡ ok (some (file_bytes ip s off (min n (ip.size - off))), ip, s)
unfolding readi
readi-file_bytes device ip off n s nd inside small lim live =
    let a : (ip.type' == t_dev) ≡ false = ground arith in
    let b : ltb ip.size off ≡ false = ground arith in
    let c : ltb ((off + n) % 2 ^ 32) off ≡ false = ground arith in
    let d : (if ltb ip.size (off + n) then ip.size - off else n) ≡ min n (ip.size - off) =
      ground arith in
    let k : ℕ = min n (ip.size - off) in
    rw
      (
        a,
        b,
        c,
        d,
        read_loop-file_bytes ip s k off k (omega arith) (λ bn h h'. live bn (omega arith))
            (omega arith),
      )
      refl

-- `readi` returns -1 and changes nothing for an offset beyond the file, and where `off + n` wraps
-- around in 32 bits.
readi-none :
    (device : ℕ → Option (Inode → ℕ → Option (List ℕ))) (ip : Inode) (off n : ℕ) (s : Fs)
    → ip.type' ≢ t_dev
    → off < 2 ^ 32
    → n < 2 ^ 32
    → (ip.size < off) ⊎ (2 ^ 32 ≤ off + n)
    → readi device ip off n s ≡ ok (none, ip, s)
unfolding readi
readi-none device ip off n s nd fo fn bad =
    let a : (ip.type' == t_dev) ≡ false = ground arith in
    let b : (ltb ip.size off || ltb ((off + n) % 2 ^ 32) off) ≡ true = ground arith in
    rw (a, b) refl
