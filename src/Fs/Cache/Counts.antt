-- ===== src/Fs/Cache/Counts.antt =====
-- What the entries of the inode cache of project3/fs.c hold, and how often they are referred to.
use ele3021_os.Common.{
  ℕ, zero, suc, ◌+◌, ◌<◌, ◌≡◌, ◌≢◌, inl, inr, true, false, ◌&&◌, Option, none, some, ltb, ◌==◌,
  update, refl, ◌∙◌, arith, Bool-cases, ℕ_discrete, subst,
}
use ele3021_os.Fs.State.{Fs, Result, ok, panic, ◌>>=◌}
use ele3021_os.Fs.Inode.{Inode, ndirect}
use ele3021_os.Fs.Alloc.{bfree}
use ele3021_os.Fs.Map.{free_direct, free_entry, free_single, free_double, free_triple, itrunc}
use ele3021_os.Fs.Cache.{
  ninode, Icache, Place, cached, vacant, full, place_of, remember, search_cache,
}

-- of the value, where there is no panic
abbrev pub Post : {A : Type 0} → (A → Type 0) → Result A → Type 0
Post P (ok a) = P a
Post P panic = Unit {0}

pub bind-Post :
    {A B : Type 0} (Q : A → Type 0) (P : B → Type 0) (r : Result A) (f : A → Result B)
    → Post Q r
    → ((a : A) → Q a → Post P (f a))
    → Post P (r >>= f)
bind-Post Q P (ok a) f q h = h a q
bind-Post Q P panic f q h = tt

pub any : {A : Type 0} (r : Result A) → Post (λ a. Unit {0}) r
any (ok a) = tt
any panic = tt

-- the same file, referred to as often
abbrev pub SameEntry : Inode → Inode → Type 0
SameEntry ip ip' = (ip'.inum ≡ ip.inum) × (ip'.ref ≡ ip.ref)

abbrev pub Freed : Inode → Result (Inode × Fs) → Type 0
Freed ip r = Post (λ (x : Inode × Fs). SameEntry ip x.0) r

free_direct-Freed : (i n : ℕ) (ip : Inode) (s : Fs) → Freed ip (free_direct i n ip s)
unfolding free_direct
free_direct-Freed i zero ip s = (refl, refl)
free_direct-Freed i (suc n) ip s = elim (Bool-cases (ip.addrs i == 0)) [
  | inl t ↦ rw t (free_direct-Freed (suc i) n ip s)
  | inr t ↦ rw t (
      let ip' : Inode = record ip { addrs = update ip.addrs i 0 } in
      bind-Post (λ _. Unit {0}) (λ (x : Inode × Fs). SameEntry ip x.0) (bfree (ip.addrs i) s)
        (λ s'. free_direct (suc i) n ip' s') (any (bfree (ip.addrs i) s))
        (λ s' _. free_direct-Freed (suc i) n ip' s'))
]

free_entry-Freed :
    (free : ℕ → Fs → Result Fs) (i : ℕ) (ip : Inode) (s : Fs) → Freed ip (free_entry free i ip s)
unfolding free_entry
free_entry-Freed free i ip s = elim (Bool-cases (ip.addrs i == 0)) [
  | inl t ↦ rw t (refl, refl)
  | inr t ↦ rw t (
      let ip' : Inode = record ip { addrs = update ip.addrs i 0 } in
      bind-Post (λ _. Unit {0}) (λ (x : Inode × Fs). SameEntry ip x.0) (free (ip.addrs i) s)
        (λ s'. ok (ip', s')) (any (free (ip.addrs i) s)) (λ s' _. (refl, refl)))
]

Freed-trans : (a b : Inode) (r : Result (Inode × Fs)) → SameEntry a b → Freed b r → Freed a r
Freed-trans a b (ok x) h f = (f.0 ∙ h.0, f.1 ∙ h.1)
Freed-trans a b panic h f = tt

module _ (ip : Inode) where
  abbrev Same : Inode × Fs → Type 0
  Same x = SameEntry ip x.0

  and_then :
      (r : Result (Inode × Fs)) (f : Inode × Fs → Result (Inode × Fs))
      → Freed ip r
      → ((x : Inode × Fs) → Freed x.0 (f x))
      → Freed ip (r >>= f)
  and_then r f h g = bind-Post Same Same r f h (λ x same. Freed-trans ip x.0 (f x) same (g x))

pub itrunc-Freed : (ip : Inode) (s : Fs) → Freed ip (itrunc ip s)
unfolding itrunc
itrunc-Freed ip s =
    and_then ip (free_direct 0 ndirect ip s) _ (free_direct-Freed 0 ndirect ip s) (λ x1.
      and_then x1.0 (free_entry free_single ndirect x1.0 x1.1) _
        (free_entry-Freed free_single ndirect x1.0 x1.1)
        (λ x2.
          and_then x2.0 (free_entry free_double (ndirect + 1) x2.0 x2.1) _
            (free_entry-Freed free_double (ndirect + 1) x2.0 x2.1)
            (λ x3.
              and_then x3.0 (free_entry free_triple (ndirect + 2) x3.0 x3.1) _
                (free_entry-Freed free_triple (ndirect + 2) x3.0 x3.1) (λ x4. (refl, refl)))))

-- where `iget` is to put inode `inum`
pub data Placed (inodes : ℕ → Inode) (inum : ℕ) : Place → Type 0 where
  is_cached :
      {p : ℕ}
      → p < ninode
      → 0 < (inodes p).ref
      → (inodes p).inum ≡ inum
      → Placed inodes inum (cached p)
  is_vacant :
      {p : ℕ}
      → p < ninode
      → (inodes p).ref ≡ 0
      → ((q : ℕ) → q < ninode → 0 < (inodes q).ref → (inodes q).inum ≢ inum)
      → Placed inodes inum (vacant p)
  is_full :
      ((q : ℕ) → q < ninode → (0 < (inodes q).ref) × ((inodes q).inum ≢ inum))
      → Placed inodes inum full

module _ (inodes : ℕ → Inode) (inum : ℕ) where
  -- before entry `p` of the loop
  abbrev Empty : Option ℕ → ℕ → Type 0
  Empty none p = (q : ℕ) → q < p → 0 < (inodes q).ref
  Empty (some e) p = (e < ninode) × ((inodes e).ref ≡ 0)

  abbrev Missed : ℕ → Type 0
  Missed p = (q : ℕ) → q < p → 0 < (inodes q).ref → (inodes q).inum ≢ inum

  end-Placed :
      (empty : Option ℕ) → Empty empty ninode → Missed ninode → Placed inodes inum (place_of empty)
  end-Placed none e m = Placed.is_full (λ q lt. (e q lt, m q lt (e q lt)))
  end-Placed (some p) e m = Placed.is_vacant e.0 e.1 m

  remember-Empty :
      (empty : Option ℕ) (p : ℕ)
      → p < ninode
      → Empty empty p
      → Empty (remember empty p (inodes p).ref) (suc p)
  remember-Empty (some e) p lt h = h
  remember-Empty none p lt h = elim (ℕ_discrete (inodes p).ref 0) [
    | yes z ↦ let t : ((inodes p).ref == 0) ≡ true = ground arith in rw t (lt, z)
    | no nz ↦
        let t : ((inodes p).ref == 0) ≡ false = ground arith in
        rw t (λ q below. elim (ℕ_discrete q p) [
          | yes e ↦ rw e (omega arith)
          | no ne ↦ h q (omega arith)
        ])
  ]

  search-Placed :
      (empty : Option ℕ) (p n : ℕ)
      → p + n ≡ ninode
      → Empty empty p
      → Missed p
      → Placed inodes inum (search_cache inodes inum empty p n)
  unfolding search_cache
  search-Placed empty p zero all h m =
      let e : p ≡ ninode = omega arith in
      end-Placed empty (subst (Empty empty) e h) (subst Missed e m)
  search-Placed empty p (suc n) all h m =
      elim (Bool-cases (ltb 0 (inodes p).ref && ((inodes p).inum == inum))) [
        | inl t ↦ rw t (Placed.is_cached (omega arith) (ground (arith, t)) (ground (arith, t)))
        | inr t ↦ rw t (
            search-Placed (remember empty p (inodes p).ref) (suc p) n (omega arith)
              (remember-Empty empty p (omega arith) h)
              (λ q below live. elim (ℕ_discrete q p) [
                | yes e ↦ ground (arith, t, e, live)
                | no ne ↦ m q (omega arith) live
              ]))
      ]

pub iget-Placed :
    (inum : ℕ) (c : Icache) → Placed c.inode inum (search_cache c.inode inum none 0 ninode)
iget-Placed inum c =
    search-Placed c.inode inum none 0 ninode refl (λ q lt. absurd (omega arith))
      (λ q lt. absurd (omega arith))
