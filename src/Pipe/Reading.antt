-- ===== src/Pipe/Reading.antt =====
-- What `piperead` of project1/pipe.c returns, and the order of the bytes over a whole run.
use ele3021_os.Common.{
  ℕ, zero, suc, ◌-◌, ◌%◌, ◌≤◌, ◌≡◌, inl, inr, List, [], ◌∷◌, ◌++◌, append-nil, append_assoc, take,
  drop, take-append-drop, take-nil, drop-nil, Bool, true, false, ◌&&◌, if◌then◌else◌, refl, sym, ap,
  ◌∙◌, Bool-cases,
}
use ele3021_os.Pipe.{
  Pipe, pipesize, Read, read, read_failed, read_sleeps, is_empty, pipewrite, skip, read_copy,
  piperead, pipeclose,
}
use ele3021_os.Pipe.Fifo.{held, contents, IsPipe, contents-skip, contents-empty, pipewrite-Takes}

-- What `piperead` does: it takes the oldest bytes, or it has none and the pipe can still get some.
pub record Gives (killed : Bool) (n : ℕ) (p : Pipe) (r : Read) (p' : Pipe) : Type 0 where
  pub valid : IsPipe p'
  pub answer : r ≡ (
      if is_empty p && p.writeopen
      then (if killed then read_failed else read_sleeps)
      else read (take n (contents p)))
  pub left : contents p' ≡ (if is_empty p && p.writeopen then contents p else drop n (contents p))
  pub same_ends : (p'.readopen ≡ p.readopen) × (p'.writeopen ≡ p.writeopen) × (p'.nwrite ≡ p.nwrite)

-- the copying loop
record Copies (n : ℕ) (p : Pipe) (xs : List ℕ) (p' : Pipe) : Type 0 where
  out : xs ≡ take n (contents p)
  left : contents p' ≡ drop n (contents p)
  valid : IsPipe p'
  same_ends : (p'.readopen ≡ p.readopen) × (p'.writeopen ≡ p.writeopen) × (p'.nwrite ≡ p.nwrite)

Copies-next :
    (n : ℕ) (p : Pipe) (xs : List ℕ) (p' : Pipe)
    → IsPipe p
    → is_empty p ≡ false
    → Copies n (skip p) xs p'
    → Copies (suc n) p (p.data' (p.nread % pipesize) ∷ xs) p'
Copies-next n p xs p' w h c =
    let e = (contents-skip p w h).0 in
    record {
      out = rw e (ap (λ ys. p.data' (p.nread % pipesize) ∷ ys) c.out);
      left = rw e c.left;
      valid = c.valid;
      same_ends = c.same_ends;
    }

Copies-empty : (n : ℕ) (p : Pipe) → IsPipe p → is_empty p ≡ true → Copies n p [] p
Copies-empty n p w h =
    let e = contents-empty p w h in
    record {
      out = rw (e, take-nil n) refl;
      left = rw (e, drop-nil n) refl;
      valid = w;
      same_ends = (refl, refl, refl);
    }

read_copy-Copies :
    (n : ℕ) (p : Pipe) → IsPipe p → Copies n p ((read_copy n p).0) ((read_copy n p).1)
unfolding read_copy
read_copy-Copies zero p w = record {
  out = refl;
  left = refl;
  valid = w;
  same_ends = (refl, refl, refl);
}
read_copy-Copies (suc n) p w = elim (Bool-cases (is_empty p)) [
  | inl e ↦ rw e (Copies-empty (suc n) p w e)
  | inr e ↦ rw e (Copies-next n p _ _ w e (read_copy-Copies n (skip p) ((contents-skip p w e).1)))
]

-- `piperead` of an empty pipe that can still be written sleeps, or returns -1 if the process was
-- killed, and changes nothing. Else it returns the `n` oldest bytes of the pipe, or all of them, and
-- removes these.
pub piperead-Gives :
    (killed : Bool) (n : ℕ) (p : Pipe)
    → IsPipe p
    → Gives killed n p ((piperead killed n p).0) ((piperead killed n p).1)
unfolding piperead
piperead-Gives killed n p w = elim (Bool-cases (is_empty p && p.writeopen)) [
  | inl e ↦ elim (Bool-cases killed) [
    | inl k ↦
        rw (e, k)
          (record {
            valid = w;
            answer = rw e refl;
            left = rw e refl;
            same_ends = (refl, refl, refl);
          })
    | inr k ↦
        rw (e, k)
          (record {
            valid = w;
            answer = rw e refl;
            left = rw e refl;
            same_ends = (refl, refl, refl);
          })
  ]
  | inr e ↦
      let c = read_copy-Copies n p w in
      rw e (record {
        valid = c.valid;
        answer = rw e (ap read c.out);
        left = rw e c.left;
        same_ends = c.same_ends;
      })
]

-- a run of a pipe: calls of its users, and what each of them moved
pub data Event : Type 0 where
  writes : Bool → List ℕ → Event
  reads : Bool → ℕ → Event
  closes : Bool → Event

-- the bytes that a read handed over
abbrev pub given : Read → List ℕ
given (read xs) = xs
given read_failed = []
given read_sleeps = []

-- the bytes taken in, the bytes handed over, and the pipe after the run
unfoldable pub run : List Event → Pipe → List ℕ × List ℕ × Pipe
unfolding pipewrite piperead pipeclose
run [] p = ([], [], p)
run (writes killed bs ∷ es) p =
    let (ins, outs, p') = run es ((pipewrite killed bs p).1) in
    (take (pipesize - held p) bs ++ ins, outs, p')
run (reads killed n ∷ es) p =
    let (ins, outs, p') = run es ((piperead killed n p).1) in
    (ins, given ((piperead killed n p).0) ++ outs, p')
run (closes writable ∷ es) p = run es ((pipeclose writable p).0)

given-contents :
    (killed : Bool) (n : ℕ) (p : Pipe) (r : Read) (p' : Pipe)
    → Gives killed n p r p'
    → given r ++ contents p' ≡ contents p
given-contents killed n p r p' g = elim (Bool-cases (is_empty p && p.writeopen)) [
  | inl e ↦ elim (Bool-cases killed) [
    | inl k ↦ rw (g.answer, g.left, e, k) refl
    | inr k ↦ rw (g.answer, g.left, e, k) refl
  ]
  | inr e ↦ rw (g.answer, g.left, e) (take-append-drop n (contents p))
]

pipeclose-contents :
    (writable : Bool) (p : Pipe)
    → IsPipe p
    → (contents ((pipeclose writable p).0) ≡ contents p) × IsPipe ((pipeclose writable p).0)
unfolding contents pipeclose
pipeclose-contents true p w =
    (refl, record { nread_lt = w.nread_lt; nwrite_lt = w.nwrite_lt; room = w.room })
pipeclose-contents false p w =
    (refl, record { nread_lt = w.nread_lt; nwrite_lt = w.nwrite_lt; room = w.room })

-- Over any sequence of calls of `pipewrite`, `piperead` and `pipeclose`, the bytes that were read are
-- those that were in the pipe and those that were written, in this order, up to what is still in it;
-- no more than 512 bytes are.
pub run-contents :
    (es : List Event) (p : Pipe)
    → IsPipe p
    → let r = run es p in (contents p ++ r.0 ≡ r.1 ++ contents (r.2)) × (held (r.2) ≤ pipesize)
unfolding run
run-contents [] p w = (append-nil (contents p), w.room)
run-contents (writes killed bs ∷ es) p w =
    let t = pipewrite-Takes killed bs p w in
    let (e, room) = run-contents es ((pipewrite killed bs p).1) t.valid in
    (
      sym (
            append_assoc (contents p) (take (pipesize - held p) bs)
              ((run es ((pipewrite killed bs p).1)).0))
          ∙ (ap (λ ys. ys ++ (run es ((pipewrite killed bs p).1)).0) (sym t.taken) ∙ e),
      room,
    )
run-contents (reads killed n ∷ es) p w =
    let g = piperead-Gives killed n p w in
    let q = (piperead killed n p).1 in
    let (e, room) = run-contents es q g.valid in
    (
      ap (λ ys. ys ++ (run es q).0) (sym (given-contents killed n p _ q g))
          ∙ (append_assoc (given ((piperead killed n p).0)) (contents q) ((run es q).0)
              ∙ (ap (λ ys. given ((piperead killed n p).0) ++ ys) e
                  ∙ sym (
                      append_assoc (given ((piperead killed n p).0)) ((run es q).1)
                        (contents ((run es q).2))))),
      room,
    )
run-contents (closes writable ∷ es) p w =
    let (e, w') = pipeclose-contents writable p w in
    let (e', room) = run-contents es ((pipeclose writable p).0) w' in
    (ap (λ ys. ys ++ (run es ((pipeclose writable p).0)).0) (sym e) ∙ e', room)
