-- ===== src/Fs/Cache/Runs.antt =====
-- Runs of `iget`, `idup` and `iput` of project3/fs.c.
use ele3021_os.Common.{
  ℕ, ◌+◌, ◌-◌, ◌<◌, ◌≡◌, ◌≢◌, inl, inr, true, false, ◌&&◌, none, ◌==◌, update, update_self,
  update_ne, refl, sym, ap, ◌∙◌, arith, Bool-cases, ℕ_discrete, subst,
}
use ele3021_os.Fs.State.{Fs, Result, ok, panic, ◌>>=◌}
use ele3021_os.Fs.Inode.{Inode}
use ele3021_os.Fs.Map.{itrunc}
use ele3021_os.Fs.Cache.{
  ninode, Icache, set_inode, Place, cached, vacant, full, search_cache, take_place, iget, idup,
  drop_inode, release, iput,
}
use ele3021_os.Fs.Cache.Counts.{Post, bind-Post, SameEntry, itrunc-Freed, Placed, iget-Placed}

-- Runs that start with an unused cache. `held p` counts the references to entry `p` that were given
-- out and not put back; `idup` and `iput` are called on an entry that is held. Between the calls the
-- inodes and the blocks change in any way that keeps each entry's number and count.
pub data Run : (ℕ → ℕ) → Icache → Type 0 where
  start : (c : Icache) → ((p : ℕ) → (c.inode p).ref ≡ 0) → Run (λ p. 0) c
  gets :
      {held : ℕ → ℕ} {c : Icache}
      → Run held c
      → (inum p : ℕ) (c' : Icache) → iget inum c ≡ ok (p, c')
      → Run (update held p (held p + 1)) c'
  dups :
      {held : ℕ → ℕ} {c : Icache}
      → Run held c
      → (p : ℕ) → 0 < held p
      → Run (update held p (held p + 1)) (idup p c)
  puts :
      {held : ℕ → ℕ} {c : Icache}
      → Run held c
      → (p : ℕ) (c' : Icache) → 0 < held p
      → iput p c ≡ ok c'
      → Run (update held p (held p - 1)) c'
  changes :
      {held : ℕ → ℕ} {c : Icache}
      → Run held c
      → (c' : Icache) → ((p : ℕ) → SameEntry (c.inode p) (c'.inode p))
      → Run held c'

pub record IsCounted (held : ℕ → ℕ) (c : Icache) : Type 0 where
  pub refs : (p : ℕ) → (c.inode p).ref ≡ held p
  pub in_cache : (p : ℕ) → 0 < held p → p < ninode
  pub distinct : (p q : ℕ) → 0 < held p → 0 < held q → (c.inode p).inum ≡ (c.inode q).inum → p ≡ q

-- one entry gets a count, and the others stay
module _ (held : ℕ → ℕ) (c : Icache) (w : IsCounted held c) (p : ℕ) (ip : Inode) where
  -- of the same inode
  recount :
      0 < held p → ip.inum ≡ (c.inode p).inum → IsCounted (update held p ip.ref) (set_inode c p ip)
  recount live same = record {
    refs = λ q. let e = w.refs q in ground (arith, e);
    in_cache = λ q h. elim (ℕ_discrete p q) [
      | yes e ↦ subst (λ x. x < ninode) e (w.in_cache p live)
      | no ne ↦ w.in_cache q (subst (λ x. 0 < x) (update_ne held p ip.ref q ne) h)
    ];
    distinct = λ q r hq hr e. w.distinct q r (ground arith) (ground arith) (ground arith);
  }

  -- of another inode, in an entry that was not in use
  refill :
      p < ninode
      → (c.inode p).ref ≡ 0
      → ((q : ℕ) → q < ninode → 0 < (c.inode q).ref → (c.inode q).inum ≢ ip.inum)
      → IsCounted (update held p ip.ref) (set_inode c p ip)
  refill lt unused other = record {
    refs = λ q. let e = w.refs q in ground (arith, e);
    in_cache = λ q h. elim (ℕ_discrete p q) [
      | yes e ↦ subst (λ x. x < ninode) e lt
      | no ne ↦ w.in_cache q (live q ne h)
    ];
    distinct = λ q r hq hr e. elim (ℕ_discrete p q) [
      | yes pq ↦ elim (ℕ_discrete p r) [
        | yes pr ↦ sym pq ∙ pr
        | no nr ↦ absurd (clash r nr (live r nr hr) (sym (kept r nr) ∙ (sym e ∙ new q pq)))
      ]
      | no nq ↦ elim (ℕ_discrete p r) [
        | yes pr ↦ absurd (clash q nq (live q nq hq) (sym (kept q nq) ∙ (e ∙ new r pr)))
        | no nr ↦ w.distinct q r (live q nq hq) (live r nr hr) (sym (kept q nq) ∙ (e ∙ kept r nr))
      ]
    ];
  }
    where
      live : (q : ℕ) → p ≢ q → 0 < update held p ip.ref q → 0 < held q
      live q ne h = subst (λ x. 0 < x) (update_ne held p ip.ref q ne) h

      kept : (q : ℕ) → p ≢ q → ((set_inode c p ip).inode q).inum ≡ (c.inode q).inum
      kept q ne = ap (λ (x : Inode). x.inum) (update_ne c.inode p ip q ne)

      new : (q : ℕ) → p ≡ q → ((set_inode c p ip).inode q).inum ≡ ip.inum
      new q e =
          subst (λ x. ((set_inode c p ip).inode x).inum ≡ ip.inum) e
            (ap (λ (x : Inode). x.inum) (update_self c.inode p ip))

      clash : (q : ℕ) → p ≢ q → 0 < held q → (c.inode q).inum ≢ ip.inum
      clash q ne h = other q (w.in_cache q h) (subst (λ x. 0 < x) (sym (w.refs q)) h)

same-IsCounted :
    (held : ℕ → ℕ) (c c' : Icache)
    → ((p : ℕ) → SameEntry (c.inode p) (c'.inode p))
    → IsCounted held c
    → IsCounted held c'
same-IsCounted held c c' same w = record {
  refs = λ p. (same p).1 ∙ w.refs p;
  in_cache = w.in_cache;
  distinct = λ p q hp hq e. w.distinct p q hp hq (sym (same p).0 ∙ (e ∙ (same q).0));
}

-- `drop_inode` keeps numbers and counts.
drop_inode-Same :
    (p : ℕ) (c : Icache)
    → Post (λ (c' : Icache). (q : ℕ) → SameEntry (c.inode q) (c'.inode q)) (drop_inode p c)
unfolding drop_inode
drop_inode-Same p c =
    bind-Post (λ (x : Inode × Fs). SameEntry (c.inode p) x.0)
      (λ (c' : Icache). (q : ℕ) → SameEntry (c.inode q) (c'.inode q)) (itrunc (c.inode p) c.fs) _
      (itrunc-Freed (c.inode p) c.fs)
      (λ x same q. elim (ℕ_discrete p q) [
        | yes e ↦
            let t : (p == q) ≡ true = ground arith in
            rw t (subst (λ y. SameEntry (c.inode y) x.0) e same)
        | no ne ↦ let t : (p == q) ≡ false = ground arith in rw t (refl, refl)
      ])

release-IsCounted :
    (held : ℕ → ℕ) (c : Icache) (p : ℕ)
    → IsCounted held c
    → 0 < held p
    → IsCounted (update held p (held p - 1)) (release p c)
release-IsCounted held c p w live =
    subst (λ n. IsCounted (update held p n) (release p c)) (ap (λ n. n - 1) (w.refs p))
      (recount held c w p (record (c.inode p) { ref = (c.inode p).ref - 1 }) live refl)

release-after :
    (held : ℕ → ℕ) (c : Icache) (p : ℕ) (r : Result Icache)
    → IsCounted held c
    → 0 < held p
    → Post (λ (c' : Icache). (q : ℕ) → SameEntry (c.inode q) (c'.inode q)) r
    → Post (IsCounted (update held p (held p - 1))) (do c' ← r; ok (release p c'))
release-after held c p (ok c') w live same =
    release-IsCounted held c' p (same-IsCounted held c c' same w) live
release-after held c p panic w live same = tt

iput-IsCounted :
    (held : ℕ → ℕ) (c : Icache) (p : ℕ)
    → IsCounted held c
    → 0 < held p
    → Post (IsCounted (update held p (held p - 1))) (iput p c)
unfolding iput
iput-IsCounted held c p w live =
    elim (Bool-cases ((c.inode p).valid && ((c.inode p).nlink == 0) && ((c.inode p).ref == 1))) [
      | inl t ↦ rw t (release-after held c p (drop_inode p c) w live (drop_inode-Same p c))
      | inr t ↦ rw t (release-IsCounted held c p w live)
    ]

idup-IsCounted :
    (held : ℕ → ℕ) (c : Icache) (p : ℕ)
    → IsCounted held c
    → 0 < held p
    → IsCounted (update held p (held p + 1)) (idup p c)
unfolding idup
idup-IsCounted held c p w live =
    subst (λ n. IsCounted (update held p n) (idup p c)) (ap (λ n. n + 1) (w.refs p))
      (recount held c w p (record (c.inode p) { ref = (c.inode p).ref + 1 }) live refl)

Counts : (ℕ → ℕ) → ℕ × Icache → Type 0
Counts held x = IsCounted (update held x.0 (held x.0 + 1)) x.1

take_place-Counts :
    (held : ℕ → ℕ) (c : Icache) (inum : ℕ)
    → IsCounted held c
    → (place : Place) → Placed c.inode inum place
    → Post (Counts held) (take_place inum c place)
unfolding take_place Counts
take_place-Counts held c inum w (cached p) (Placed.is_cached lt live same) =
    subst
      (λ n.
        IsCounted (update held p n)
          (set_inode c p (record (c.inode p) { ref = (c.inode p).ref + 1 })))
      (ap (λ n. n + 1) (w.refs p))
      (recount held c w p (record (c.inode p) { ref = (c.inode p).ref + 1 })
        (subst (λ n. 0 < n) (w.refs p) live) refl)
take_place-Counts held c inum w (vacant p) (Placed.is_vacant lt unused other) =
    subst
      (λ n.
        IsCounted (update held p n)
          (set_inode c p (record (c.inode p) { inum = inum; ref = 1; valid = false })))
      (let h : held p ≡ 0 = sym (w.refs p) ∙ unused in omega (arith, h))
      (refill held c w p (record (c.inode p) { inum = inum; ref = 1; valid = false }) lt unused
        other)
take_place-Counts held c inum w full (Placed.is_full used) = tt

iget-Counts :
    (held : ℕ → ℕ) (c : Icache) (inum : ℕ) → IsCounted held c → Post (Counts held) (iget inum c)
unfolding iget
iget-Counts held c inum w =
    take_place-Counts held c inum w (search_cache c.inode inum none 0 ninode) (iget-Placed inum c)

pub Run-IsCounted : {held : ℕ → ℕ} {c : Icache} → Run held c → IsCounted held c
unfolding Counts
Run-IsCounted (Run.start c unused) = record {
  refs = unused;
  in_cache = λ p h. absurd (omega (arith, h));
  distinct = λ p q h. absurd (omega (arith, h));
}
Run-IsCounted (Run.gets {held} {c} run inum p c' e) =
    subst (Post (Counts held)) e (iget-Counts held c inum (Run-IsCounted run))
Run-IsCounted (Run.dups {held} {c} run p live) = idup-IsCounted held c p (Run-IsCounted run) live
Run-IsCounted (Run.puts {held} {c} run p c' live e) =
    subst (Post (IsCounted (update held p (held p - 1)))) e
      (iput-IsCounted held c p (Run-IsCounted run) live)
Run-IsCounted (Run.changes {held} {c} run c' same) =
    same-IsCounted held c c' same (Run-IsCounted run)

-- the place of an inode that is referred to
held-Placed :
    (held : ℕ → ℕ) (c : Icache) (p : ℕ)
    → IsCounted held c
    → 0 < held p
    → (place : Place) → Placed c.inode (c.inode p).inum place
    → place ≡ cached p
held-Placed held c p w live (cached q) (Placed.is_cached lt used same) =
    ap cached (w.distinct q p (subst (λ n. 0 < n) (w.refs q) used) live same)
held-Placed held c p w live (vacant q) (Placed.is_vacant lt unused other) =
    absurd (other p (w.in_cache p live) (subst (λ n. 0 < n) (sym (w.refs p)) live) refl)
held-Placed held c p w live full (Placed.is_full used) =
    absurd ((used p (w.in_cache p live)).1 refl)

-- In a run that starts with an unused cache, the count of each entry is the number of references to it
-- that were given out by `iget` and `idup` and not yet put back by `iput`. An entry that is held keeps
-- its inode to itself: `iget` of the number of its inode gives this entry, with one count more.
pub Run-iget :
    {held : ℕ → ℕ} {c : Icache}
    → Run held c
    → ((p : ℕ) → (c.inode p).ref ≡ held p)
      × ((p : ℕ) → 0 < held p → iget (c.inode p).inum c ≡ ok (p, idup p c))
unfolding iget take_place idup
Run-iget {held} {c} run =
    let w = Run-IsCounted run in
    (
      w.refs,
      λ p live. ap (take_place (c.inode p).inum c) (
          held-Placed held c p w live (search_cache c.inode (c.inode p).inum none 0 ninode)
            (iget-Placed (c.inode p).inum c)),
    )
