-- ===== src/Fs/Lookup/Enough.antt =====
-- The loop of `namex` of project3/fs.c ends.
use ele3021_os.Common.{
  ℕ, zero, suc, ◌<◌, ◌≤◌, ◌≡◌, ◌⊎◌, inl, inr, List, [], ◌∷◌, ◌++◌, length, length-append, replicate,
  Bool, Option, none, some, Option-cases, refl, sym, ap, ◌∙◌, arith, subst,
}
use ele3021_os.Fs.State.{Result, ok, ◌>>=◌, bind-cong}
use ele3021_os.Fs.Inode.{Inode}
use ele3021_os.Fs.Path.{slash, skipelem}
use ele3021_os.Fs.Path.Element.{SplitsOff, skipelem-SplitsOff}
use ele3021_os.Fs.Cache.{Icache}
use ele3021_os.Fs.Lookup.{Found, step_into, at_end, walk}

-- An element that is split off leaves a shorter path.
SplitsOff-shorter : (path rest name : List ℕ) → SplitsOff path rest name → length rest < length path
SplitsOff-shorter path rest name s =
    let slashes = replicate s.between slash in
    let e = ap length s.split in
    let l1 = length-append (replicate s.before slash) ((s.first ∷ s.others) ++ (slashes ++ rest)) in
    let l2 = length-append (s.first ∷ s.others) (slashes ++ rest) in
    let l3 = length-append slashes rest in omega (arith, e, l1, l2, l3)

skipelem-shorter :
    (path : List ℕ) (x : List ℕ × List ℕ) → skipelem path ≡ some x → length x.0 < length path
skipelem-shorter path x e = elim (skipelem-SplitsOff path) [
  | inl (none_e, slashes) ↦ cc
  | inr (rest, name, some_e, s) ↦
      let same : rest ≡ x.0 = ap (λ o. elim o [ none ↦ [] | some y ↦ y.0 ]) (sym some_e ∙ e) in
      subst (λ r. length r < length path) same (SplitsOff-shorter path rest name s)
]

-- what follows a step
abbrev pub then_do :
    (List ℕ → List ℕ → ℕ → Icache → Result (Found × Icache))
    → List ℕ × List ℕ
    → (Found × Icache) ⊎ (ℕ × Icache)
    → Result (Found × Icache)
then_do go e r = elim r [ inl x ↦ ok x | inr x ↦ go e.0 e.1 x.0 x.1 ]

module _ (device : ℕ → Option (Inode → ℕ → Option (List ℕ))) where
  -- what the loop does after `skipelem`, where `go` is the rest of it
  abbrev pub round :
      (List ℕ → List ℕ → ℕ → Icache → Result (Found × Icache))
      → Bool
      → Option (List ℕ × List ℕ)
      → List ℕ
      → ℕ
      → Icache
      → Result (Found × Icache)
  round go parent none name ip c = at_end parent name ip c
  round go parent (some e) name ip c = do r ← step_into device parent e.0 e.1 ip c; then_do go e r

  walk-suc :
      (n : ℕ) (parent : Bool) (path name : List ℕ) (ip : ℕ) (c : Icache)
      → walk device (suc n) parent path name ip c
        ≡ round (walk device n parent) parent (skipelem path) name ip c
  unfolding walk
  walk-suc n parent path name ip c = elim (Option-cases (skipelem path)) [
    | inl e ↦ rw (e, walk) refl
    | inr (x, e) ↦ rw (e, walk) refl
  ]

  round-cong :
      (f g : List ℕ → List ℕ → ℕ → Icache → Result (Found × Icache)) (parent : Bool)
      (o : Option (List ℕ × List ℕ)) (name : List ℕ) (ip : ℕ) (c : Icache)
      → ((x : List ℕ × List ℕ)
          → o ≡ some x
          → (name : List ℕ) (ip : ℕ) (c : Icache) → f x.0 name ip c ≡ g x.0 name ip c)
      → round f parent o name ip c ≡ round g parent o name ip c
  round-cong f g parent none name ip c h = refl
  round-cong f g parent (some e) name ip c h =
      bind-cong (step_into device parent e.0 e.1 ip c) _ _ (λ r.
        elim r as (λ r. then_do f e r ≡ then_do g e r) [
          | inl x ↦ refl
          | inr x ↦ h e refl e.1 x.0 x.1
        ])

  walk-nil :
      (m : ℕ) (parent : Bool) (name : List ℕ) (ip : ℕ) (c : Icache)
      → walk device m parent [] name ip c ≡ at_end parent name ip c
  unfolding walk skipelem
  walk-nil zero parent name ip c = refl
  walk-nil (suc m) parent name ip c = refl

  walk-enough :
      (n m : ℕ) (parent : Bool) (path name : List ℕ) (ip : ℕ) (c : Icache)
      → length path ≤ n
      → length path ≤ m
      → walk device n parent path name ip c ≡ walk device m parent path name ip c
  walk-enough n m parent [] name ip c hn hm =
      walk-nil n parent name ip c ∙ sym (walk-nil m parent name ip c)
  walk-enough zero m parent (d ∷ path) name ip c hn hm = absurd (omega (arith, hn))
  walk-enough (suc n) zero parent (d ∷ path) name ip c hn hm = absurd (omega (arith, hm))
  walk-enough (suc n) (suc m) parent (d ∷ path) name ip c hn hm =
      walk-suc n parent (d ∷ path) name ip c
      ∙ (round-cong (walk device n parent) (walk device m parent) parent (skipelem (d ∷ path)) name
            ip c
            (λ x e name' q c'.
              let less = skipelem-shorter (d ∷ path) x e in
              walk-enough n m parent x.0 name' q c' (omega (arith, less, hn))
                (omega (arith, less, hm)))
          ∙ sym (walk-suc m parent (d ∷ path) name ip c))

-- The loop of `namex` ends for each path: with as many rounds as the path has characters it does
-- what the loop of the code says. It ends behind the last element, and else it goes into the next
-- element and, where that does not end it, goes on with the rest of the path. More rounds change nothing.
pub walk-loop :
    (device : ℕ → Option (Inode → ℕ → Option (List ℕ))) (parent : Bool) (path name : List ℕ)
    (ip : ℕ) (c : Icache)
    → (walk device (length path) parent path name ip c
        ≡ round device
            (λ rest. walk device (length rest) parent rest)
            parent
            (skipelem path)
            name
            ip
            c)
      × ((n : ℕ)
          → length path ≤ n
          → walk device n parent path name ip c ≡ walk device (length path) parent path name ip c)
walk-loop device parent path name ip c = (
  walk-enough device (length path) (suc (length path)) parent path name ip c (omega arith)
        (omega arith)
      ∙ (walk-suc device (length path) parent path name ip c
          ∙ round-cong device (walk device (length path) parent)
              (λ rest. walk device (length rest) parent rest) parent (skipelem path) name ip c
              (λ x e name' q c'.
                let less = skipelem-shorter path x e in
                walk-enough device (length path) (length x.0) parent x.0 name' q c'
                  (omega (arith, less)) (omega arith))),
  λ n h. walk-enough device n (length path) parent path name ip c h (omega arith),
)
