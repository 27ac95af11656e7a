-- ===== src/Files/Balance/Opening.antt =====
-- `sys_open`, `sys_lsopen` and the calls on descriptors leave the operations of the log balanced.
use ele3021_os.Common.{
  ℕ, zero, suc, ◌≡◌, refl, ◌∙◌, arith, List, [], ◌∷◌, Bool, Option, none, some, Option-cases, inl,
  inr,
}
use ele3021_os.Fs.State.{Result, ok, ◌>>=◌}
use ele3021_os.Fs.Inode.{Inode}
use ele3021_os.Fs.Cache.Counts.{Post, bind-Post}
use ele3021_os.Pipe.{Allocated, allocated, alloc_failed}
use ele3021_os.Files.State.{
  FileType, fd_none, fd_pipe, fd_inode, File, World, nfile, nofile, begin_op, end_op, put,
}
use ele3021_os.Files.File.{
  free_file, take_free, filealloc, filedup, close_last, fileclose, stat_of, filestat, read_type,
  fileread, write_rounds, write_type, filewrite,
}
use ele3021_os.Files.Descriptor.{
  free_fd, fdalloc, sys_dup, sys_close, sys_fstat, close_each, close_both, pipe_fds,
  after_pipealloc, second_file, sys_pipe, sys_read, sys_write,
}
use ele3021_os.Files.Open.{
  Opened, opened, refused, looping, take_file, finish_open, resolve, check_dir, find_inode,
  find_itself, create_file, end_open, sys_open, sys_lsopen,
}
use ele3021_os.Files.Balance.Rules.{
  Ends, Leaves, Leaves-ok, Ends-any, in_cache-Leaves, inner_rules, outer_rules,
}
use ele3021_os.Files.Balance.Creating.{create-Ends}

take_free-ops : (w : World) (o : Option ℕ) → ((take_free w o).1).ops ≡ w.ops
unfolding take_free
take_free-ops w none = refl
take_free-ops w (some f) = refl

filealloc-ops : (w : World) → ((filealloc w).1).ops ≡ w.ops
unfolding filealloc
filealloc-ops w = take_free-ops w (free_file w.file 0 nfile)

fdalloc-ops : (f : ℕ) (w : World) → ((fdalloc f w).1).ops ≡ w.ops
unfolding fdalloc
fdalloc-ops f w = elim (Option-cases (free_fd w.ofile 0 nofile)) [
  | inl e ↦ rw (e, fdalloc) refl
  | inr (fd, e) ↦ rw (e, fdalloc) refl
]

module _ (n : ℕ) where
  close_last-Leaves :
      (t : FileType) (f : File) (w : World) → w.ops ≡ n → Leaves n (close_last t f w)
  unfolding close_last
  close_last-Leaves fd_none f w h = Leaves-ok w n h
  close_last-Leaves fd_pipe f w h = record { at = h }
  close_last-Leaves fd_inode f w h = record {
    at =
        bind-Post (λ (x : World). x.ops ≡ suc n) (λ (x : World). x.ops ≡ n) (put f.ip (begin_op w))
          (λ w1. ok (end_op w1)) ((in_cache-Leaves _ (begin_op w) (omega (arith, h))).at)
          (λ w1 h1. omega (arith, h1));
  }

  pub fileclose-Leaves : (f : ℕ) (w : World) → w.ops ≡ n → Leaves n (fileclose f w)
  unfolding fileclose
  fileclose-Leaves f w h = search (inner_rules, close_last-Leaves)

  filedup-Leaves : (f : ℕ) (w : World) → w.ops ≡ n → Leaves n (filedup f w)
  unfolding filedup
  filedup-Leaves f w h = search inner_rules

  pub sys_close-Ends : (fd : ℕ) (w : World) → w.ops ≡ n → Ends n (sys_close fd w)
  unfolding sys_close
  sys_close-Ends fd w h = search (inner_rules, fileclose-Leaves)

  pub sys_dup-Ends : (fd : ℕ) (w : World) → w.ops ≡ n → Ends n (sys_dup fd w)
  unfolding sys_dup
  sys_dup-Ends fd w h = search (inner_rules, filedup-Leaves, fdalloc-ops)

  take_file-Ends : (w : World) → w.ops ≡ n → Ends n (take_file w)
  unfolding take_file
  take_file-Ends w h = search (inner_rules, fileclose-Leaves, filealloc-ops, fdalloc-ops)

  stat_of-Ends : (t : FileType) (f : File) (w : World) → w.ops ≡ n → Ends n (stat_of t f w)
  unfolding stat_of
  stat_of-Ends fd_none f w h = search inner_rules
  stat_of-Ends fd_pipe f w h = search inner_rules
  stat_of-Ends fd_inode f w h = search inner_rules

  pub sys_fstat-Ends : (fd : ℕ) (w : World) → w.ops ≡ n → Ends n (sys_fstat fd w)
  unfolding sys_fstat filestat
  sys_fstat-Ends fd w h = search (inner_rules, stat_of-Ends)

finish_open-Ends : (n omode ip : ℕ) (w : World) → w.ops ≡ suc n → Ends n (finish_open omode ip w)
unfolding finish_open
finish_open-Ends n omode ip w h = search (outer_rules, take_file-Ends)

module _ (n : ℕ) where
  close_each-Leaves : (fs : List ℕ) (w : World) → w.ops ≡ n → Leaves n (close_each fs w)
  unfolding close_each
  close_each-Leaves [] w h = Leaves-ok w n h
  close_each-Leaves (f ∷ fs) w h = search (inner_rules, fileclose-Leaves, close_each-Leaves fs)

  close_both-Ends : (rf wf : ℕ) (w : World) → w.ops ≡ n → Ends n (close_both rf wf w)
  unfolding close_both
  close_both-Ends rf wf w h = search (inner_rules, close_each-Leaves)

  pipe_fds-Ends : (rf wf : ℕ) (w : World) → w.ops ≡ n → Ends n (pipe_fds rf wf w)
  unfolding pipe_fds
  pipe_fds-Ends rf wf w h = search (inner_rules, close_both-Ends, fdalloc-ops)

  after_pipealloc-Ends :
      (q : ℕ) (a : Allocated) (w : World) → w.ops ≡ n → Ends n (after_pipealloc q a w)
  unfolding after_pipealloc
  after_pipealloc-Ends q (alloc_failed fs) w h = search (inner_rules, close_each-Leaves)
  after_pipealloc-Ends q (allocated p rf wf) w h = pipe_fds-Ends rf.file wf.file _ h

  second_file-ops : (r : Option ℕ) (w : World) → ((second_file r w).1).ops ≡ w.ops
  second_file-ops none w = refl
  second_file-ops (some f) w = filealloc-ops w

  pub sys_pipe-Ends :
      (q : ℕ) (memory : Option (ℕ → ℕ)) (w : World) → w.ops ≡ n → Ends n (sys_pipe q memory w)
  unfolding sys_pipe
  sys_pipe-Ends q memory w h =
      after_pipealloc-Ends q _ _
        (second_file-ops ((filealloc w).0) ((filealloc w).1) ∙ (filealloc-ops w ∙ h))

module _ (killed : Bool) (read_device : ℕ → Option (Inode → ℕ → Option (List ℕ))) (n : ℕ) where
  read_type-Ends :
      (t : FileType) (f m : ℕ) (w : World)
      → w.ops ≡ n
      → Ends n (read_type killed read_device t f m w)
  unfolding read_type
  read_type-Ends fd_none f m w h = search inner_rules
  read_type-Ends fd_pipe f m w h = search inner_rules
  read_type-Ends fd_inode f m w h = search (inner_rules, Ends-any)

  pub sys_read-Ends :
      (fd m : ℕ) (w : World) → w.ops ≡ n → Ends n (sys_read killed read_device fd m w)
  unfolding sys_read fileread
  sys_read-Ends fd m w h = search (inner_rules, read_type-Ends)

module _ (killed : Bool) (write_device : ℕ → Option (Inode → List ℕ → ℕ → Option ℕ)) (n : ℕ) where
  write_rounds-Ends :
      (fuel f : ℕ) (src : List ℕ) (w : World)
      → w.ops ≡ n
      → Ends n (write_rounds killed write_device fuel f src w)
  unfolding write_rounds
  write_rounds-Ends zero f src w h = search outer_rules
  write_rounds-Ends (suc fuel) f src w h = search (outer_rules, Ends-any, write_rounds-Ends fuel)

  write_type-Ends :
      (t : FileType) (f : ℕ) (src : List ℕ) (w : World)
      → w.ops ≡ n
      → Ends n (write_type killed write_device t f src w)
  unfolding write_type
  write_type-Ends fd_none f src w h = search inner_rules
  write_type-Ends fd_pipe f src w h = search inner_rules
  write_type-Ends fd_inode f src w h = search (inner_rules, write_rounds-Ends)

  pub sys_write-Ends :
      (fd : ℕ) (src : List ℕ) (w : World)
      → w.ops ≡ n
      → Ends n (sys_write killed write_device fd src w)
  unfolding sys_write filewrite
  sys_write-Ends fd src w h = search (inner_rules, write_type-Ends)

module _ (read_device : ℕ → Option (Inode → ℕ → Option (List ℕ))) (n : ℕ) where
  resolve-Ends : (fuel ip : ℕ) (w : World) → w.ops ≡ n → Ends n (resolve read_device fuel ip w)
  unfolding resolve
  resolve-Ends zero ip w h = search inner_rules
  resolve-Ends (suc fuel) ip w h = search (inner_rules, resolve-Ends fuel)

  check_dir-Ends :
      (omode ip : ℕ) (w : World) → w.ops ≡ n → Ends n (check_dir read_device omode ip w)
  unfolding check_dir
  check_dir-Ends omode ip w h = search inner_rules

  checked-Ends :
      (omode : ℕ) (o : Opened) (w : World)
      → w.ops ≡ n
      → Ends n (elim o [
        | opened ip ↦ check_dir read_device omode ip w
        | refused ↦ ok (refused, w)
        | looping ↦ ok (looping, w)
      ])
  checked-Ends omode (opened ip) w h = check_dir-Ends omode ip w h
  checked-Ends omode refused w h = search inner_rules
  checked-Ends omode looping w h = search inner_rules

  find_inode-Ends :
      (fuel : ℕ) (path : List ℕ) (omode : ℕ) (w : World)
      → w.ops ≡ n
      → Ends n (find_inode read_device fuel path omode w)
  unfolding find_inode
  find_inode-Ends fuel path omode w h = search (inner_rules, resolve-Ends, checked-Ends)

  find_itself-Ends :
      (path : List ℕ) (omode : ℕ) (w : World)
      → w.ops ≡ n
      → Ends n (find_itself read_device path omode w)
  unfolding find_itself
  find_itself-Ends path omode w h = search (inner_rules, check_dir-Ends)

  module _ (write_device : ℕ → Option (Inode → List ℕ → ℕ → Option ℕ)) where
    create_file-Ends :
        (path : List ℕ) (w : World)
        → w.ops ≡ n
        → Ends n (create_file read_device write_device path w)
    unfolding create_file
    create_file-Ends path w h = search (inner_rules, create-Ends)

-- a call that does not loop ends its operation
abbrev pub Returns : ℕ → Option (Option ℕ) × World → Type 0
Returns n x = (r : Option ℕ) → x.0 ≡ some r → x.1.ops ≡ n

module _ (read_device : ℕ → Option (Inode → ℕ → Option (List ℕ)))
    (write_device : ℕ → Option (Inode → List ℕ → ℕ → Option ℕ)) (n : ℕ) where
  end_open-Returns :
      (omode : ℕ) (o : Opened) (w : World)
      → w.ops ≡ suc n
      → Post (Returns n) (end_open read_device write_device omode o w)
  unfolding end_open
  end_open-Returns omode (opened ip) w h =
      bind-Post (λ (x : Option ℕ × World). x.1.ops ≡ n) (Returns n) (finish_open omode ip w)
        (λ (x : Option ℕ × World). ok (some x.0, x.1)) (finish_open-Ends n omode ip w h).at
        (λ x e r _. e)
  end_open-Returns omode refused w h = λ r e. omega (arith, h)
  end_open-Returns omode looping w h = λ r e. absurd (cc)

  ended :
      (omode : ℕ) (r : Result (Opened × World))
      → Ends (suc n) r
      → Post (Returns n) (do (o, w1) ← r; end_open read_device write_device omode o w1)
  ended omode r e =
      bind-Post (λ (x : Opened × World). x.1.ops ≡ suc n) (Returns n) r
        (λ (x : Opened × World). end_open read_device write_device omode x.0 x.1) e.at
        (λ x h. end_open-Returns omode x.0 x.1 h)

  pub sys_open-Returns :
      (fuel : ℕ) (a : Option (List ℕ × ℕ)) (w : World)
      → w.ops ≡ n
      → Post (Returns n) (sys_open read_device write_device fuel a w)
  unfolding sys_open
  sys_open-Returns fuel none w h = λ r e. h
  sys_open-Returns fuel (some a) w h =
      ended a.1 _ (search (inner_rules, find_inode-Ends, create_file-Ends))

  pub sys_lsopen-Returns :
      (a : Option (List ℕ × ℕ)) (w : World)
      → w.ops ≡ n
      → Post (Returns n) (sys_lsopen read_device write_device a w)
  unfolding sys_lsopen
  sys_lsopen-Returns none w h = λ r e. h
  sys_lsopen-Returns (some a) w h =
      ended a.1 _ (search (inner_rules, find_itself-Ends, create_file-Ends))
