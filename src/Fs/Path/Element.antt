-- ===== src/Fs/Path/Element.antt =====
-- What `skipelem` of project3/fs.c splits off a path.
use ele3021_os.Common.{
  ℕ, suc, ◌≡◌, ◌≢◌, ◌⊎◌, inl, inr, List, [], ◌∷◌, ◌++◌, append-nil, All, Option, none, some, ◌==◌,
  take, refl, ap, ap₂, sym, ◌∙◌, subst, arith, ℕ_discrete, true, false, replicate,
}
use ele3021_os.Fs.Path.{slash, dirsiz, skip_slashes, element, behind_element, skipelem}

-- The first character, if there is one, is no slash.
abbrev pub NoSlash : List ℕ → Type 0
NoSlash [] = Unit
NoSlash (c ∷ path) = c ≢ slash

skip_slashes-split :
    (path : List ℕ)
    → (n : ℕ) × (path ≡ replicate n slash ++ skip_slashes path) × NoSlash (skip_slashes path)
unfolding skip_slashes
skip_slashes-split [] = (0, refl, tt)
skip_slashes-split (c ∷ path) = elim (ℕ_discrete c slash) [
  | yes e ↦
      let t : (c == slash) ≡ true = ground arith in
      let (n, split, first) = skip_slashes-split path in
      rw (t, e) (suc n, ap (λ r. slash ∷ r) split, first)
  | no ne ↦ let t : (c == slash) ≡ false = ground arith in rw t (0, refl, ne)
]

element-split : (path : List ℕ) → element path ++ behind_element path ≡ path
unfolding element behind_element
element-split [] = refl
element-split (c ∷ path) = elim (ℕ_discrete c slash) [
  | yes e ↦ let t : (c == slash) ≡ true = ground arith in rw t refl
  | no ne ↦
      let t : (c == slash) ≡ false = ground arith in rw t (ap (λ r. c ∷ r) (element-split path))
]

-- The element ends at a slash, or at the end of the path.
abbrev pub AtEnd : List ℕ → Type 0
AtEnd [] = Unit
AtEnd (c ∷ path) = c ≡ slash

behind_element-AtEnd : (path : List ℕ) → AtEnd (behind_element path)
unfolding behind_element
behind_element-AtEnd [] = tt
behind_element-AtEnd (c ∷ path) = elim (ℕ_discrete c slash) [
  | yes e ↦ let t : (c == slash) ≡ true = ground arith in rw t e
  | no ne ↦ let t : (c == slash) ≡ false = ground arith in rw t (behind_element-AtEnd path)
]

AtEnd-ends :
    (path : List ℕ) (n : ℕ) (rest : List ℕ)
    → path ≡ replicate n slash ++ rest
    → AtEnd path
    → NoSlash rest
    → n ≡ 0
    → rest ≡ []
AtEnd-ends path n [] split at first z = refl
AtEnd-ends path n (c ∷ rest) split at first z =
    let whole : path ≡ c ∷ rest = split ∙ ap (λ n. replicate n slash ++ (c ∷ rest)) z in
    absurd (first (subst AtEnd whole at))

element-All : (path : List ℕ) → All (λ c. c ≢ slash) (element path)
unfolding element
element-All [] = tt
element-All (c ∷ path) = elim (ℕ_discrete c slash) [
  | yes e ↦ let t : (c == slash) ≡ true = ground arith in rw t tt
  | no ne ↦ let t : (c == slash) ≡ false = ground arith in rw t (ne, element-All path)
]

-- How `rest` and `name` come from a path: slashes, an element that is not empty and ends at a slash or
-- at the end of the path, all the slashes behind it, the rest.
pub record SplitsOff (path rest name : List ℕ) : Type 0 where
  pub before : ℕ
  pub first : ℕ
  pub others : List ℕ
  pub between : ℕ
  pub split :
      path ≡ replicate before slash ++ ((first ∷ others) ++ (replicate between slash ++ rest))
  pub no_slash : All (λ c. c ≢ slash) (first ∷ others)
  pub rest_first : NoSlash rest
  pub ends : between ≡ 0 → rest ≡ []
  pub name_is : name ≡ take dirsiz (first ∷ others)

abbrev pub Outcome : List ℕ → Option (List ℕ × List ℕ) → Type 0
Outcome path r =
    ((r ≡ none) × ((n : ℕ) × (path ≡ replicate n slash)))
    ⊎ ((rest : List ℕ) × (name : List ℕ) × (r ≡ some (rest, name)) × SplitsOff path rest name)

-- the path after its first slashes
Outcome-skipped :
    (path : List ℕ) (n : ℕ) (tail : List ℕ)
    → path ≡ replicate n slash ++ tail
    → NoSlash tail
    → Outcome path (elim tail [
      | [] ↦ none
      | c ∷ rest ↦ some (skip_slashes (behind_element (c ∷ rest)), take dirsiz (element (c ∷ rest)))
    ])
Outcome-skipped path n [] split first = inl (refl, (n, split ∙ append-nil (replicate n slash)))
Outcome-skipped path n (c ∷ tail) split first =
    let (m, split', first') = skip_slashes-split (behind_element (c ∷ tail)) in
    let rest : List ℕ = skip_slashes (behind_element (c ∷ tail)) in
    let t : (c == slash) ≡ false = ground arith in
    let whole : element (c ∷ tail) ≡ c ∷ element tail = unfold element in rw t refl in
    inr (
      rest,
      take dirsiz (element (c ∷ tail)),
      refl,
      record {
        before = n;
        first = c;
        others = element tail;
        between = m;
        split =
            split
            ∙ ap (λ r. replicate n slash ++ r)
                (sym (element-split (c ∷ tail)) ∙ ap₂ (λ x y. x ++ y) whole split');
        no_slash = (first, element-All tail);
        rest_first = first';
        ends =
            AtEnd-ends (behind_element (c ∷ tail)) m rest split' (behind_element-AtEnd (c ∷ tail))
              first';
        name_is = ap (take dirsiz) whole;
      },
    )

-- `skipelem` returns 0 exactly on a path of slashes only. On any other path it skips the slashes in
-- front, copies the first 14 characters of the element behind them, which reaches up to the next slash
-- or the end of the path, and returns what follows the element and all the slashes behind it.
pub skipelem-SplitsOff : (path : List ℕ) → Outcome path (skipelem path)
unfolding skipelem
skipelem-SplitsOff path =
    let (n, split, first) = skip_slashes-split path in
    Outcome-skipped path n (skip_slashes path) split first
