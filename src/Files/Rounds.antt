-- ===== src/Files/Rounds.antt =====
-- The loop of `filewrite` of project3/file.c ends.
use ele3021_os.Common.{
  ℕ, zero, suc, ◌-◌, ◌≤◌, ◌≡◌, min, List, [], ◌∷◌, length, take, drop, Bool, true, false, Option,
  none, some, if◌then◌else◌, ◌==◌, refl, ap, ◌∙◌, arith, ℕ_discrete,
}
use ele3021_os.Fs.State.{Result, ok, panic, bind-cong}
use ele3021_os.Fs.Inode.{Inode}
use ele3021_os.Fs.Content.{writei}
use ele3021_os.Pipe.{Written, write_failed}
use ele3021_os.Files.State.{World, inode_of, begin_op, end_op, lock}
use ele3021_os.Files.File.{write_max, after_io, advance, write_rounds}

length-drop : (n : ℕ) (xs : List ℕ) → length (drop n xs) ≡ length xs - n
length-drop zero xs = omega arith
length-drop (suc n) [] = omega arith
length-drop (suc n) (x ∷ xs) = length-drop n xs ∙ omega arith

-- what a round does with the result of `writei`, where `go` is the rest of the loop
abbrev after_write :
    (World → Result (Written × World)) → ℕ → ℕ → World → Option ℕ → Result (Written × World)
after_write go n f w none = ok (write_failed, w)
after_write go n f w (some m) = if m == n then go (advance f m w) else panic

after_write-cong :
    (go go' : World → Result (Written × World)) (n f : ℕ) (w : World) (r : Option ℕ)
    → ((v : World) → go v ≡ go' v)
    → after_write go n f w r ≡ after_write go' n f w r
after_write-cong go go' n f w none h = refl
after_write-cong go go' n f w (some m) h = ap (λ x. if m == n then x else panic) (h (advance f m w))

-- One round more than bytes changes nothing.
write_rounds-suc :
    (killed : Bool) (device : ℕ → Option (Inode → List ℕ → ℕ → Option ℕ)) (fuel f : ℕ)
    (src : List ℕ) (w : World)
    → length src ≤ fuel
    → write_rounds killed device (suc fuel) f src w ≡ write_rounds killed device fuel f src w
unfolding write_rounds
write_rounds-suc killed device zero f src w h =
    let t : (length src == 0) ≡ true = ground (arith, h) in rw t refl
write_rounds-suc killed device (suc fuel) f src w h = elim (ℕ_discrete (length src) 0) [
  | yes z ↦ let t : (length src == 0) ≡ true = ground (arith, z) in rw t refl
  | no nz ↦
      let t : (length src == 0) ≡ false = ground (arith, nz) in
      let n = min (length src) write_max in
      let less : length (drop n src) ≤ fuel = omega (arith, length-drop n src, h, nz) in
      rw t (
        bind-cong (lock (w.file f).ip (begin_op w)) _ _ (λ w1.
          bind-cong
            (writei device (inode_of w1 (w.file f).ip) (take n src) (w1.file f).off n
              (w1.icache.fs))
            _ _
            (λ x.
              after_write-cong (λ v. write_rounds killed device (suc fuel) f (drop n src) v)
                (λ v. write_rounds killed device fuel f (drop n src) v) n f
                (end_op (after_io (w.file f).ip x.1 x.2 w1)) x.0
                (λ v. write_rounds-suc killed device fuel f (drop n src) v less))))
]
