-- ===== src/Files/Descriptor.antt =====
-- project3/sysfile.c: `argfd`, `fdalloc` and the calls on a descriptor. A descriptor is its 32-bit
-- pattern, so that a negative one is beyond NOFILE too. `n` and `p` are arguments that were fetched.
use ele3021_os.Common.{
  ℕ, zero, suc, List, [], ◌∷◌, Bool, true, false, Option, none, some, leb, if◌then◌else◌, update,
}
use ele3021_os.Fs.State.{Result, ok, ◌>>=◌}
use ele3021_os.Fs.Inode.{Inode}
use ele3021_os.Fs.Content.{Stat}
use ele3021_os.Pipe.{
  Written, Read, read_failed, write_failed, Allocated, allocated, alloc_failed, PipeFile, pipealloc,
}
use ele3021_os.Files.State.{fd_pipe, World, nofile, set_file}
use ele3021_os.Files.File.{filealloc, filedup, fileclose, filestat, fileread, filewrite}

unfoldable pub argfd : ℕ → World → Option ℕ
argfd fd w = if leb nofile fd then none else w.ofile fd

-- the first free descriptor from `fd` on, with `n` left
unfoldable pub free_fd : (ℕ → Option ℕ) → ℕ → ℕ → Option ℕ
free_fd ofile fd zero = none
free_fd ofile fd (suc n) =
    let rest = free_fd ofile (suc fd) n in elim (ofile fd) [ none ↦ some fd | some f ↦ rest ]

unfoldable pub fdalloc : ℕ → World → Option ℕ × World
unfolding free_fd
fdalloc f w = elim (free_fd w.ofile 0 nofile) [
  | none ↦ (none, w)
  | some fd ↦ (some fd, record w { ofile = update w.ofile fd (some f) })
]

-- none is the result -1
unfoldable pub sys_dup : ℕ → World → Result (Option ℕ × World)
sys_dup fd w = elim (argfd fd w) [
  | none ↦ ok (none, w)
  | some f ↦
      let (r, w1) = fdalloc f w in
      elim r [ none ↦ ok (none, w1) | some fd' ↦ (do w2 ← filedup f w1; ok (some fd', w2)) ]
]

-- true is the result 0, false is -1
unfoldable pub sys_close : ℕ → World → Result (Bool × World)
sys_close fd w = elim (argfd fd w) [
  | none ↦ ok (false, w)
  | some f ↦ (do w1 ← fileclose f (record w { ofile = update w.ofile fd none }); ok (true, w1))
]

unfoldable pub sys_fstat : ℕ → World → Result (Option Stat × World)
sys_fstat fd w = elim (argfd fd w) [ none ↦ ok (none, w) | some f ↦ filestat f w ]

module _ (killed : Bool) where
  unfoldable pub sys_read :
      (ℕ → Option (Inode → ℕ → Option (List ℕ))) → ℕ → ℕ → World → Result (Read × World)
  sys_read device fd n w = elim (argfd fd w) [
    | none ↦ ok (read_failed, w)
    | some f ↦ fileread killed device f n w
  ]

  unfoldable pub sys_write :
      (ℕ → Option (Inode → List ℕ → ℕ → Option ℕ)) → ℕ → List ℕ → World → Result (Written × World)
  sys_write device fd p w = elim (argfd fd w) [
    | none ↦ ok (write_failed, w)
    | some f ↦ filewrite killed device f p w
  ]

unfoldable pub close_each : List ℕ → World → Result World
close_each [] w = ok w
close_each (f ∷ fs) w = do w1 ← fileclose f w; close_each fs w1

-- `fileclose(rf); fileclose(wf); return -1`
unfoldable pub close_both : ℕ → ℕ → World → Result (Option (ℕ × ℕ) × World)
unfolding close_each
close_both rf wf w = do w1 ← close_each (rf ∷ wf ∷ []) w; ok (none, w1)

-- the two descriptors of `sys_pipe`
unfoldable pub pipe_fds : ℕ → ℕ → World → Result (Option (ℕ × ℕ) × World)
pipe_fds rf wf w =
    let (r0, w1) = fdalloc rf w in
    elim r0 [
      | none ↦ close_both rf wf w1
      | some fd0 ↦
          let (r1, w2) = fdalloc wf w1 in
          elim r1 [
            | none ↦ close_both rf wf (record w2 { ofile = update w2.ofile fd0 none })
            | some fd1 ↦ ok (some (fd0, fd1), w2)
          ]
    ]

-- what `pipealloc` fills in for a file of the pipe at `q`
abbrev pub pipe_file : ℕ → PipeFile → World → World
pipe_file q f w = set_file w f.file (record (w.file f.file) {
  type' = fd_pipe;
  readable = f.readable;
  writable = f.writable;
  pipe = q;
})

unfoldable pub after_pipealloc : ℕ → Allocated → World → Result (Option (ℕ × ℕ) × World)
after_pipealloc q (alloc_failed fs) w = do w1 ← close_each fs w; ok (none, w1)
after_pipealloc q (allocated p rf wf) w =
    let w1 = pipe_file q wf (pipe_file q rf w) in
    pipe_fds rf.file wf.file (record w1 { pipe = update w1.pipe q p })

-- the second `filealloc`, which is called if the first gave a file
abbrev pub second_file : Option ℕ → World → Option ℕ × World
second_file none w = (none, w)
second_file (some f) w = filealloc w

-- `memory` is the page that `kalloc` would return, at `q`; none is the result -1
unfoldable pub sys_pipe : ℕ → Option (ℕ → ℕ) → World → Result (Option (ℕ × ℕ) × World)
sys_pipe q memory w =
    let (r0, w1) = filealloc w in
    let (r1, w2) = second_file r0 w1 in after_pipealloc q (pipealloc r0 r1 memory) w2
