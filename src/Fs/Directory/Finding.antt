-- ===== src/Fs/Directory/Finding.antt =====
-- What `dirlookup` of project3/fs.c finds in a directory.
use ele3021_os.Common.{
  ℕ, zero, suc, ◌+◌, ◌-◌, ◌*◌, ◌%◌, ◌<◌, ◌≤◌, ◌≡◌, ◌≢◌, ◌⊎◌, inl, inr, min, List, length, Bool,
  true, false, ◌&&◌, not, Option, none, some, leb, ◌==◌, update, refl, ap, ◌∙◌, arith, Bool-cases,
  ℕ_discrete, dec_lt, fun_ext,
}
use ele3021_os.Fs.Block.{bsize}
use ele3021_os.Fs.State.{Fs, ok, ◌>>=◌}
use ele3021_os.Fs.Inode.{Inode}
use ele3021_os.Fs.Map.{maxfile}
use ele3021_os.Fs.Map.Stable.{IsLive}
use ele3021_os.Fs.Content.{t_dev, readi}
use ele3021_os.Fs.Content.Read.{file_bytes, readi-file_bytes}
use ele3021_os.Fs.Cache.{Icache, iget}
use ele3021_os.Fs.Directory.{
  t_dir, dirent_size, same_name, de_inum, de_name, read_dirent, find_name, dirlookup,
}

-- A directory of whole entries whose blocks are all there.
pub record IsDirectory (ip : Inode) (s : Fs) : Type 0 where
  pub is_dir : ip.type' ≡ t_dir
  pub whole : ip.size % dirent_size ≡ 0
  pub bounded : ip.size ≤ maxfile * bsize
  pub live : (bn : ℕ) → bn * bsize < ip.size → IsLive ip s bn

length-file_bytes : (ip : Inode) (s : Fs) (off n : ℕ) → length (file_bytes ip s off n) ≡ n
unfolding file_bytes
length-file_bytes ip s off zero = refl
length-file_bytes ip s off (suc n) = ap suc (length-file_bytes ip s (suc off) n)

update-id : {A : Type 0} (f : ℕ → A) (p : ℕ) → update f p (f p) ≡ f
update-id f p = fun_ext (λ q. elim (ℕ_discrete p q) [
  | yes e ↦ let t : (p == q) ≡ true = ground arith in rw t (ap f e)
  | no ne ↦ let t : (p == q) ≡ false = ground arith in rw t refl
])

module _ (device : ℕ → Option (Inode → ℕ → Option (List ℕ))) (dp : ℕ) (c : Icache)
    (d : IsDirectory (c.inode dp) c.fs) where
  -- entry `k` as bytes
  abbrev entry : ℕ → List ℕ
  entry off = file_bytes (c.inode dp) c.fs off dirent_size

  read_dirent-entry :
      (off : ℕ)
      → off % dirent_size ≡ 0
      → off < (c.inode dp).size
      → read_dirent device dp off c ≡ ok (entry off, c)
  unfolding read_dirent
  read_dirent-entry off aligned inside =
      let w = d.whole in
      let b = d.bounded in
      let nd : (c.inode dp).type' ≢ t_dev = λ e. absurd (omega (arith, e, d.is_dir)) in
      let m : min dirent_size ((c.inode dp).size - off) ≡ dirent_size = omega arith in
      let r : readi device (c.inode dp) off dirent_size c.fs
          ≡ ok (some (entry off), c.inode dp, c.fs) =
        readi-file_bytes device (c.inode dp) off dirent_size c.fs nd (omega arith) (omega arith) b
          d.live
        ∙ ap (λ n. ok (some (file_bytes (c.inode dp) c.fs off n), c.inode dp, c.fs)) m in
      let l : (length (entry off) == dirent_size) ≡ true =
        rw (length-file_bytes (c.inode dp) c.fs off dirent_size) refl in
      rw (r, read_dirent, l)
        (ap (λ f. ok (entry off, record { inode = f; fs = c.fs })) (update-id c.inode dp))

  module _ (name : List ℕ) where
    -- entry `k` is in use and has the name
    abbrev pub matches : ℕ → Bool
    matches k =
        not (de_inum (entry (k * dirent_size)) == 0)
        && same_name name (de_name (entry (k * dirent_size)))

    abbrev NoneBefore : ℕ → Type 0
    NoneBefore k = (j : ℕ) → j < k → matches j ≡ false

    -- What a search ends with: no entry, or the first one.
    abbrev First : Option (ℕ × ℕ) → Type 0
    First r =
        ((r ≡ none) × ((j : ℕ) → j * dirent_size < (c.inode dp).size → matches j ≡ false))
        ⊎ ((k : ℕ) × (k * dirent_size < (c.inode dp).size)
            × (matches k ≡ true)
            × NoneBefore k
            × (r ≡ some (de_inum (entry (k * dirent_size)), k * dirent_size)))

    past_end :
        (k : ℕ)
        → NoneBefore k
        → (c.inode dp).size ≤ k * dirent_size
        → (j : ℕ) → j * dirent_size < (c.inode dp).size
        → matches j ≡ false
    past_end k before far j lt = before j (omega arith)

    find_name-First :
        (n k : ℕ)
        → NoneBefore k
        → (c.inode dp).size ≤ (k + n) * dirent_size
        → (r : Option (ℕ × ℕ)) × (find_name device n (k * dirent_size) dp name c ≡ ok (r, c))
          × First r
    unfolding find_name
    find_name-First zero k before far = (none, refl, inl (refl, past_end k before (omega arith)))
    find_name-First (suc n) k before far = elim (dec_lt (k * dirent_size) (c.inode dp).size) [
      | no stop ↦
          let t : leb (c.inode dp).size (k * dirent_size) ≡ true = ground arith in
          (none, rw t refl, inl (refl, past_end k before (omega arith)))
      | yes go ↦
          let t : leb (c.inode dp).size (k * dirent_size) ≡ false = ground arith in
          let e = read_dirent-entry (k * dirent_size) (omega arith) go in
          elim (Bool-cases (matches k)) [
            | inl m ↦ (
              some (de_inum (entry (k * dirent_size)), k * dirent_size),
              rw (t, e, m) refl,
              inr (k, go, m, before, refl),
            )
            | inr m ↦
                let next : k * dirent_size + dirent_size ≡ suc k * dirent_size = omega arith in
                let (r, e', h) =
                  find_name-First n (suc k)
                    (λ j lt. elim (ℕ_discrete j k) [
                      | yes same ↦ rw same m
                      | no ne ↦ before j (omega arith)
                    ])
                    (omega arith) in
                (r, rw (t, e, m, next) e', h)
          ]
    ]

-- `dirlookup` in a directory of whole entries whose blocks are all there: it looks at the entries in
-- use and compares names up to their 14th character. Either no entry has the name, and it returns 0 and
-- changes nothing, or it returns the inode of the first entry that has it, as `iget` gives it, and the
-- offset of that entry.
pub dirlookup-First :
    (device : ℕ → Option (Inode → ℕ → Option (List ℕ))) (dp : ℕ) (name : List ℕ) (c : Icache)
    (d : IsDirectory (c.inode dp) c.fs)
    → ((dirlookup device dp name c ≡ ok (none, c))
        × ((j : ℕ) → j * dirent_size < (c.inode dp).size → matches device dp c d name j ≡ false))
      ⊎ ((k : ℕ) × (k * dirent_size < (c.inode dp).size)
          × (matches device dp c d name k ≡ true)
          × ((j : ℕ) → j < k → matches device dp c d name j ≡ false)
          × (dirlookup device dp name c ≡ (do
            (ip, c') ← iget (de_inum (file_bytes (c.inode dp) c.fs (k * dirent_size) dirent_size)) c
            ok (some (ip, k * dirent_size), c'))))
unfolding dirlookup
dirlookup-First device dp name c d =
    let t : ((c.inode dp).type' == t_dir) ≡ true = (let z = d.is_dir in ground (arith, z)) in
    let (r, e, found) =
      find_name-First device dp c d name (c.inode dp).size 0 (λ j lt. absurd (omega arith))
        (omega arith) in
    elim found [
      | inl (none_r, nowhere) ↦ inl (rw (t, e, none_r) refl, nowhere)
      | inr (k, inside, m, before, some_r) ↦ inr (k, inside, m, before, rw (t, e, some_r) refl)
    ]
