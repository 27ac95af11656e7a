-- ===== src/Pipe/Fifo.antt =====
-- The pipe of project1/pipe.c is a first-in first-out queue of at most 512 bytes.
use ele3021_os.Common.{
  ℕ, zero, suc, ◌+◌, ◌-◌, ◌%◌, ◌^◌, ◌<◌, ◌≤◌, ◌≡◌, ◌≢◌, inl, inr, List, [], ◌∷◌, ◌++◌, append-nil,
  append_assoc, leb, length, take, take-nil, drop, Bool, true, false, not, ◌||◌, arith,
  if◌then◌else◌, ◌==◌, update, update_self, update_ne, refl, sym, ap, ap₂, ◌∙◌, ℕ_discrete,
  Bool-cases,
}
use ele3021_os.Pipe.{
  Pipe, pipesize, Written, wrote, write_failed, write_sleeps, is_full, is_empty, put, pipewrite,
  skip,
}

-- `k` bytes of the ring from counter `r` on
unfoldable pub ring : (ℕ → ℕ) → ℕ → ℕ → List ℕ
ring d r zero = []
ring d r (suc k) = d (r % pipesize) ∷ ring d ((r + 1) % 2 ^ 32) k

-- how many bytes the pipe holds, across a wrap of the counters
abbrev pub held : Pipe → ℕ
held p = (p.nwrite + 2 ^ 32 - p.nread) % 2 ^ 32

unfoldable pub contents : Pipe → List ℕ
contents p = ring p.data' p.nread (held p)

pub record IsPipe (p : Pipe) : Type 0 where
  pub nread_lt : p.nread < 2 ^ 32
  pub nwrite_lt : p.nwrite < 2 ^ 32
  pub room : held p ≤ pipesize

ring-update :
    (d : ℕ → ℕ) (r k w x : ℕ)
    → ((i : ℕ) → i < k → w ≢ (r + i) % pipesize)
    → ring (update d w x) r k ≡ ring d r k
unfolding ring
ring-update d r zero w x out = refl
ring-update d r (suc k) w x out =
    ap₂ (λ y ys. y ∷ ys) (update_ne d w x (r % pipesize) (λ e. out 0 (omega arith) (omega arith)))
      (ring-update d ((r + 1) % 2 ^ 32) k w x (λ i h e. out (i + 1) (omega arith) (omega arith)))

ring-snoc : (d : ℕ → ℕ) (r k : ℕ) → ring d r (suc k) ≡ ring d r k ++ (d ((r + k) % pipesize) ∷ [])
unfolding ring
ring-snoc d r zero = ap (λ i. d (i % pipesize) ∷ []) (omega arith)
ring-snoc d r (suc k) =
    let e : ((r + 1) % 2 ^ 32 + k) % pipesize ≡ (r + suc k) % pipesize = omega arith in
    ap (λ ys. d (r % pipesize) ∷ ys)
      (ring-snoc d ((r + 1) % 2 ^ 32) k ∙ ap (λ i. ring d ((r + 1) % 2 ^ 32) k ++ (d i ∷ [])) e)

length-ring : (d : ℕ → ℕ) (r k : ℕ) → length (ring d r k) ≡ k
unfolding ring
length-ring d r zero = refl
length-ring d r (suc k) = ap (λ n. suc n) (length-ring d ((r + 1) % 2 ^ 32) k)

pub contents-put :
    (x : ℕ) (p : Pipe)
    → IsPipe p
    → held p < pipesize
    → (contents (put x p) ≡ contents p ++ (x ∷ [])) × IsPipe (put x p)
unfolding contents put
contents-put x p w h =
    let more : (((p.nwrite + 1) % 2 ^ 32) + 2 ^ 32 - p.nread) % 2 ^ 32 ≡ suc (held p) =
      omega (arith, w.nread_lt, w.nwrite_lt) in
    let d : ℕ → ℕ = update p.data' (p.nwrite % pipesize) x in
    let at : (p.nread + held p) % pipesize ≡ p.nwrite % pipesize =
      omega (arith, w.nread_lt, w.nwrite_lt) in
    (
      ap (ring d p.nread) more
          ∙ (ring-snoc d p.nread (held p)
              ∙ ap₂ (λ ys y. ys ++ (y ∷ []))
                  (ring-update p.data' p.nread (held p) (p.nwrite % pipesize) x
                    (λ i lt e. omega arith))
                  (ap d at ∙ update_self p.data' (p.nwrite % pipesize) x)),
      record { nread_lt = w.nread_lt; nwrite_lt = omega arith; room = omega arith },
    )

pub contents-skip :
    (p : Pipe)
    → IsPipe p
    → is_empty p ≡ false
    → (contents p ≡ p.data' (p.nread % pipesize) ∷ contents (skip p)) × IsPipe (skip p)
unfolding contents ring
contents-skip p w h =
    let ne : p.nread ≢ p.nwrite = ground arith in
    let e : held p ≡ suc (held (skip p)) = omega (arith, w.nread_lt, w.nwrite_lt, ne) in
    (
      ap (ring p.data' p.nread) e,
      record { nread_lt = omega arith; nwrite_lt = w.nwrite_lt; room = omega (arith, w.room) },
    )

pub is_full-held : (p : Pipe) → IsPipe p → is_full p ≡ (held p == pipesize)
is_full-held p w = ground (arith, w.nread_lt, w.nwrite_lt)

pub contents-empty : (p : Pipe) → IsPipe p → is_empty p ≡ true → contents p ≡ []
unfolding contents ring
contents-empty p w h =
    let e : held p ≡ 0 = ground (arith, w.nread_lt) in ap (ring p.data' p.nread) e

-- What a call of `pipewrite` does.
pub record Takes (killed : Bool) (bs : List ℕ) (p : Pipe) (r : Written) (p' : Pipe) : Type 0 where
  pub taken : contents p' ≡ contents p ++ take (pipesize - held p) bs
  pub valid : IsPipe p'
  pub answer : r ≡ (
      if leb (length bs) (pipesize - held p)
      then wrote
      else if not p.readopen || killed
      then write_failed
      else write_sleeps (drop (pipesize - held p) bs))
  pub same_ends : (p'.readopen ≡ p.readopen) × (p'.writeopen ≡ p.writeopen) × (p'.nread ≡ p.nread)

Takes-stop :
    (killed : Bool) (x : ℕ) (xs : List ℕ) (p : Pipe) (r : Written)
    → IsPipe p
    → held p ≡ pipesize
    → r ≡ (if not p.readopen || killed then write_failed else write_sleeps (x ∷ xs))
    → Takes killed (x ∷ xs) p r p
Takes-stop killed x xs p r w h e =
    let z : pipesize - held p ≡ 0 = omega arith in
    let b : leb (length (x ∷ xs)) 0 ≡ false = ground arith in
    record {
      taken = rw z (sym (append-nil (contents p)));
      valid = w;
      answer = rw (z, b) e;
      same_ends = (refl, refl, refl);
    }

Takes-all : (killed : Bool) (p : Pipe) → IsPipe p → Takes killed [] p wrote p
Takes-all killed p w =
    let b : leb 0 (pipesize - held p) ≡ true = ground arith in
    record {
      taken = rw (take-nil (pipesize - held p)) (sym (append-nil (contents p)));
      valid = w;
      answer = rw b refl;
      same_ends = (refl, refl, refl);
    }

Takes-put :
    (killed : Bool) (x : ℕ) (xs : List ℕ) (p : Pipe) (r : Written) (p' : Pipe)
    → IsPipe p
    → held p < pipesize
    → Takes killed xs (put x p) r p'
    → Takes killed (x ∷ xs) p r p'
unfolding put
Takes-put killed x xs p r p' w h t =
    let more : pipesize - held p ≡ suc (pipesize - held (put x p)) =
      omega (arith, w.nread_lt, w.nwrite_lt) in
    let b : leb (length (x ∷ xs)) (suc (pipesize - held (put x p)))
        ≡ leb (length xs) (pipesize - held (put x p)) =
      ground arith in
    record {
      taken = rw more (
          t.taken
          ∙ (ap (λ ys. ys ++ take (pipesize - held (put x p)) xs) ((contents-put x p w h).0)
              ∙ append_assoc (contents p) (x ∷ []) (take (pipesize - held (put x p)) xs)));
      valid = t.valid;
      answer = rw (more, b) t.answer;
      same_ends = t.same_ends;
    }

-- `pipewrite` appends to the pipe as many of the bytes as there is room for. If these are all it
-- returns `n`; else it returns -1 where the read end is closed or the process was killed, and sleeps
-- with the other bytes left where not.
pub pipewrite-Takes :
    (killed : Bool) (bs : List ℕ) (p : Pipe)
    → IsPipe p
    → Takes killed bs p ((pipewrite killed bs p).0) ((pipewrite killed bs p).1)
unfolding pipewrite
pipewrite-Takes killed [] p w = Takes-all killed p w
pipewrite-Takes killed (x ∷ xs) p w = elim (ℕ_discrete (held p) pipesize) [
  | yes e ↦
      let f : is_full p ≡ true = is_full-held p w ∙ (ground arith) in
      elim (Bool-cases (not p.readopen || killed)) [
        | inl stop ↦ rw (f, stop) (Takes-stop killed x xs p write_failed w e (rw stop refl))
        | inr sleep ↦
            rw (f, sleep) (Takes-stop killed x xs p (write_sleeps (x ∷ xs)) w e (rw sleep refl))
      ]
  | no ne ↦
      let f : is_full p ≡ false = is_full-held p w ∙ (ground arith) in
      let lt : held p < pipesize = omega (arith, w.room) in
      rw f (
        Takes-put killed x xs p _ _ w lt
          (pipewrite-Takes killed xs (put x p) ((contents-put x p w lt).1)))
]
