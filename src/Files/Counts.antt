-- ===== src/Files/Counts.antt =====
-- The reference counts of the file table of project3/file.c.
use ele3021_os.Common.{
  ℕ, zero, suc, ◌+◌, ◌-◌, ◌<◌, ◌≤◌, ◌≡◌, ◌≢◌, ◌⊎◌, inl, inr, true, false, Option, none, some,
  Bool-cases, ltb, ◌==◌, update, refl, sym, ap, ◌∙◌, arith, ℕ_discrete, subst,
}
use ele3021_os.Fs.State.{Result, ok, panic, ◌>>=◌}
use ele3021_os.Fs.Cache.{Icache, iput}
use ele3021_os.Fs.Cache.Counts.{Post}
use ele3021_os.Files.State.{
  FileType, fd_none, fd_pipe, fd_inode, File, World, nfile, set_file, begin_op, end_op, in_cache,
}
use ele3021_os.Files.File.{free_file, take_free, filealloc, filedup, close_last, fileclose}

-- Runs that start with an unused table. `held f` counts the references to file `f` that were given out and
-- not closed; `filedup` and `fileclose` are called on a file that is held. Between the calls the state
-- changes in any way that keeps the counts.
pub data Run : (ℕ → ℕ) → World → Type 0 where
  start : (w : World) → ((f : ℕ) → (w.file f).ref ≡ 0) → Run (λ f. 0) w
  allocs :
      {held : ℕ → ℕ} {w : World}
      → Run held w
      → (f : ℕ) (w' : World) → filealloc w ≡ (some f, w')
      → Run (update held f 1) w'
  dups :
      {held : ℕ → ℕ} {w : World}
      → Run held w
      → (f : ℕ) (w' : World) → filedup f w ≡ ok w'
      → Run (update held f (held f + 1)) w'
  closes :
      {held : ℕ → ℕ} {w : World}
      → Run held w
      → (f : ℕ) (w' : World) → fileclose f w ≡ ok w'
      → Run (update held f (held f - 1)) w'
  changes :
      {held : ℕ → ℕ} {w : World}
      → Run held w
      → (w' : World) → ((f : ℕ) → (w'.file f).ref ≡ (w.file f).ref)
      → Run held w'

abbrev IsCounted : (ℕ → ℕ) → World → Type 0
IsCounted held w = (f : ℕ) → (w.file f).ref ≡ held f

set_file-IsCounted :
    (held : ℕ → ℕ) (w : World) (f : ℕ) (r : File) (n : ℕ)
    → IsCounted held w
    → r.ref ≡ n
    → IsCounted (update held f n) (set_file w f r)
set_file-IsCounted held w f r n h e g = elim (ℕ_discrete f g) [
  | yes fg ↦ let t : (f == g) ≡ true = ground arith in rw t e
  | no ne ↦ let t : (f == g) ≡ false = ground arith in rw t (h g)
]

-- what the loop of `filealloc` finds
data Free (files : ℕ → File) (f n : ℕ) : Option ℕ → Type 0 where
  is_free : {g : ℕ} → g < f + n → (files g).ref ≡ 0 → Free files f n (some g)
  none_free : ((g : ℕ) → f ≤ g → g < f + n → (files g).ref ≢ 0) → Free files f n none

free_file-Free : (files : ℕ → File) (f n : ℕ) → Free files f n (free_file files f n)
unfolding free_file
free_file-Free files f zero = none_free (λ g low high. absurd (omega (arith, low, high)))
free_file-Free files f (suc n) = elim (ℕ_discrete (files f).ref 0) [
  | yes z ↦
      let t : ((files f).ref == 0) ≡ true = ground (arith, z) in rw t (is_free (omega arith) z)
  | no nz ↦
      let t : ((files f).ref == 0) ≡ false = ground (arith, nz) in
      rw t (later nz (free_file-Free files (suc f) n))
]
  where
    later :
        {o : Option ℕ} → (nz : (files f).ref ≢ 0) → Free files (suc f) n o → Free files f (suc n) o
    later nz (is_free lt z) = is_free (omega (arith, lt)) z
    later nz (none_free h) = none_free (λ g low high. elim (ℕ_discrete f g) [
      | yes e ↦ subst (λ x. (files x).ref ≢ 0) e nz
      | no ne ↦ h g (omega (arith, low, ne)) (omega (arith, high))
    ])

-- how `filealloc` ends
abbrev Allocs : (ℕ → ℕ) → World → Option ℕ × World → Type 0
Allocs held w x =
    ((f : ℕ) × (x.0 ≡ some f) × (held f ≡ 0) × IsCounted (update held f 1) x.1)
    ⊎ ((x ≡ (none, w)) × ((f : ℕ) → f < nfile → held f ≢ 0))

take_free-Allocs :
    (held : ℕ → ℕ) (w : World)
    → IsCounted held w
    → (o : Option ℕ) → Free w.file 0 nfile o
    → Allocs held w (take_free w o)
unfolding take_free
take_free-Allocs held w h (some f) (is_free lt z) =
    inl
      (f, refl, sym (h f) ∙ z, set_file-IsCounted held w f (record (w.file f) { ref = 1 }) 1 h refl)
take_free-Allocs held w h none (none_free used) =
    inr (refl, λ f lt e. used f (omega arith) lt (h f ∙ e))

filealloc-Allocs : (held : ℕ → ℕ) (w : World) → IsCounted held w → Allocs held w (filealloc w)
unfolding filealloc
filealloc-Allocs held w h =
    take_free-Allocs held w h (free_file w.file 0 nfile) (free_file-Free w.file 0 nfile)

SameFiles : (ℕ → File) → World → Type 0
SameFiles files w = w.file ≡ files

ended_put :
    (w : World) (r : Result Icache)
    → Post
        (SameFiles w.file)
        (do w1 ← (do c ← r; ok (record (begin_op w) { icache = c })); ok (end_op w1))
unfolding SameFiles
ended_put w (ok c) = refl
ended_put w panic = tt

close_last-file : (t : FileType) (f : File) (w : World) → Post (SameFiles w.file) (close_last t f w)
unfolding close_last in_cache SameFiles
close_last-file fd_none f w = refl
close_last-file fd_pipe f w = refl
close_last-file fd_inode f w = ended_put w (iput f.ip w.icache)

fileclose-IsCounted :
    (held : ℕ → ℕ) (f : ℕ) (w : World)
    → IsCounted held w
    → Post (IsCounted (update held f (held f - 1))) (fileclose f w)
unfolding fileclose SameFiles
fileclose-IsCounted held f w h = elim (ℕ_discrete (w.file f).ref 0) [
  | yes z ↦ let t : ((w.file f).ref == 0) ≡ true = ground (arith, z) in rw t tt
  | no nz ↦
      let t : ((w.file f).ref == 0) ≡ false = ground (arith, nz) in
      let e = h f in
      elim (Bool-cases (ltb 1 (w.file f).ref)) [
        | inl more ↦
            rw (t, more)
              (set_file-IsCounted held w f (record (w.file f) { ref = (w.file f).ref - 1 })
                (held f - 1) h (ap (λ n. n - 1) e))
        | inr last ↦
            let w1 = set_file w f (record (w.file f) { ref = 0; type' = fd_none }) in
            let c1 =
              set_file-IsCounted held w f (record (w.file f) { ref = 0; type' = fd_none })
                (held f - 1) h (ground (arith, e, last)) in
            rw (t, last)
              (kept w1 c1 (close_last (w.file f).type' (w.file f) w1)
                (close_last-file (w.file f).type' (w.file f) w1))
      ]
]
  where
    kept :
        (v : World)
        → IsCounted (update held f (held f - 1)) v
        → (r : Result World) → Post (SameFiles v.file) r
        → Post (IsCounted (update held f (held f - 1))) r
    kept v c (ok v') same = λ g. ap (λ (files : ℕ → File). (files g).ref) same ∙ c g
    kept v c panic same = tt

filedup-IsCounted :
    (held : ℕ → ℕ) (f : ℕ) (w : World)
    → IsCounted held w
    → Post (IsCounted (update held f (held f + 1))) (filedup f w)
unfolding filedup
filedup-IsCounted held f w h = elim (Bool-cases ((w.file f).ref == 0)) [
  | inl t ↦ rw t tt
  | inr t ↦ rw t (
      set_file-IsCounted held w f (record (w.file f) { ref = (w.file f).ref + 1 }) (held f + 1) h
        (ap (λ n. n + 1) (h f)))
]

alloc-IsCounted :
    (held : ℕ → ℕ) (w w' : World) (f : ℕ)
    → IsCounted held w
    → filealloc w ≡ (some f, w')
    → IsCounted (update held f 1) w'
alloc-IsCounted held w w' f h e = elim (filealloc-Allocs held w h) [
  | inl (g, some_g, unheld, counted) ↦
      let same : g ≡ f = some-some (sym some_g ∙ ap (λ (x : Option ℕ × World). x.0) e) in
      subst (λ x. IsCounted (update held x 1) w') same
        (subst (IsCounted (update held g 1)) (ap (λ (x : Option ℕ × World). x.1) e) counted)
  | inr (none_e, used) ↦ absurd (none-some (ap (λ (x : Option ℕ × World). x.0) (sym none_e ∙ e)))
]
  where
    some-some : {a b : ℕ} → some a ≡ some b → a ≡ b
    some-some e = cc

    none-some : {a : ℕ} → none ≢ some a
    none-some e = cc

Run-IsCounted : {held : ℕ → ℕ} {w : World} → Run held w → IsCounted held w
Run-IsCounted (Run.start w unused) = unused
Run-IsCounted (Run.allocs {held} {w} run f w' e) = alloc-IsCounted held w w' f (Run-IsCounted run) e
Run-IsCounted (Run.dups {held} {w} run f w' e) =
    subst (Post (IsCounted (update held f (held f + 1)))) e
      (filedup-IsCounted held f w (Run-IsCounted run))
Run-IsCounted (Run.closes {held} {w} run f w' e) =
    subst (Post (IsCounted (update held f (held f - 1)))) e
      (fileclose-IsCounted held f w (Run-IsCounted run))
Run-IsCounted (Run.changes {held} {w} run w' same) = λ f. same f ∙ Run-IsCounted run f

-- In a run that starts with an unused table, the count of each file is the number of references to it that
-- `filealloc` and `filedup` gave out and that were not closed since. Then `filealloc` gives a file to which
-- there is no reference, or it fails, and there is a reference to each file of the table.
pub Run-filealloc :
    {held : ℕ → ℕ} {w : World}
    → Run held w
    → ((f : ℕ) → (w.file f).ref ≡ held f)
      × (((f : ℕ) × (w' : World) × (filealloc w ≡ (some f, w')) × (held f ≡ 0))
          ⊎ ((filealloc w ≡ (none, w)) × ((f : ℕ) → f < nfile → held f ≢ 0)))
Run-filealloc {held} {w} run =
    let h = Run-IsCounted run in
    (
      h,
      elim (filealloc-Allocs held w h) [
        | inl (f, e, unheld, counted) ↦
            inl (f, (filealloc w).1, ap (λ x. (x, (filealloc w).1)) e, unheld)
        | inr (e, used) ↦ inr (e, used)
      ],
    )
