-- ===== src/Files/Open.antt =====
-- project3/sysfile.c: `sys_open`, `sys_lsopen` and `sys_pipe`. `omode` is a bit mask.
use Prim.Native.Nat.{bit_and}
use ele3021_os.Common.{
  ℕ, zero, suc, List, Bool, not, ◌&&◌, ◌||◌, Option, none, some, if◌then◌else◌, ◌==◌,
}
use ele3021_os.Fs.State.{Result, ok, ◌>>=◌}
use ele3021_os.Fs.Inode.{Inode}
use ele3021_os.Fs.Directory.{t_dir}
use ele3021_os.Fs.Lookup.{namei}
use ele3021_os.Files.State.{
  fd_inode, File, World, set_file, inode_of, begin_op, end_op, on_cache, lock, unlock_put,
}
use ele3021_os.Files.File.{filealloc, fileclose}
use ele3021_os.Files.Descriptor.{fdalloc}
use ele3021_os.Files.Create.{t_file, t_sym, create}

-- O_WRONLY, O_RDWR and O_CREATE
abbrev pub o_wronly : ℕ
o_wronly = 1

abbrev pub o_rdwr : ℕ
o_rdwr = 2

abbrev pub o_create : ℕ
o_create = 512

-- `omode & flag`
abbrev pub has : ℕ → ℕ → Bool
has omode flag = not (bit_and omode flag == 0)

-- Where the opening of an inode stops: there is none, there is one, or the links are not yet resolved.
pub data Opened : Type 0 where
  opened : ℕ → Opened
  refused : Opened
  looping : Opened

-- `if((f = filealloc()) == 0 || (fd = fdalloc(f)) < 0)` and what it does then, with the file
unfoldable pub take_file : World → Result (Option (ℕ × ℕ) × World)
take_file w =
    let (r, w1) = filealloc w in
    elim r [
      | none ↦ ok (none, w1)
      | some f ↦
          let (r', w2) = fdalloc f w1 in
          elim r' [
            | none ↦ (do w3 ← fileclose f w2; ok (none, w3))
            | some fd ↦ ok (some (f, fd), w2)
          ]
    ]

-- the fields of an open file
abbrev pub open_file : ℕ → ℕ → File → File
open_file omode ip f = record f {
  type' = fd_inode;
  ip = ip;
  off = 0;
  readable = not (has omode o_wronly);
  writable = has omode o_wronly || has omode o_rdwr;
}

-- the end of `sys_open` and `sys_lsopen` for the inode at `ip`; none is -1
unfoldable pub finish_open : ℕ → ℕ → World → Result (Option ℕ × World)
finish_open omode ip w = do
  (r, w1) ← take_file w
  elim r [
    | none ↦ (do w2 ← unlock_put ip w1; ok (none, end_op w2))
    | some x ↦ ok (some x.1, set_file (end_op w1) x.0 (open_file omode ip ((end_op w1).file x.0)))
  ]

module _ (read_device : ℕ → Option (Inode → ℕ → Option (List ℕ))) where
  -- `while(ip->type == T_SYM)`, in `n` rounds at most. The code has no bound on them.
  unfoldable pub resolve : ℕ → ℕ → World → Result (Opened × World)
  resolve zero ip w = ok (looping, w)
  resolve (suc n) ip w =
      let next = λ (rp : ℕ) (w' : World). resolve n rp w' in
      let round = (do
        (r, w1) ← on_cache (namei read_device w.cwd (w.link_path ip)) w
        w2 ← unlock_put ip w1
        elim r [ none ↦ ok (refused, w2) | some e ↦ (do w3 ← lock e.0 w2; next e.0 w3) ]) in
      if (inode_of w ip).type' == t_sym then round else ok (opened ip, w)

  -- `if(ip->type == T_DIR && omode != O_RDONLY)`
  unfoldable pub check_dir : ℕ → ℕ → World → Result (Opened × World)
  check_dir omode ip w =
      if ((inode_of w ip).type' == t_dir) && not (omode == 0)
      then (do w1 ← unlock_put ip w; ok (refused, w1))
      else ok (opened ip, w)

  -- the inode of a path, with its links followed in `fuel` rounds at most
  unfoldable pub find_inode : ℕ → List ℕ → ℕ → World → Result (Opened × World)
  find_inode fuel path omode w = do
    (r, w1) ← on_cache (namei read_device w.cwd path) w
    elim r [
      | none ↦ ok (refused, w1)
      | some e ↦ (do
        w2 ← lock e.0 w1
        (o, w3) ← resolve fuel e.0 w2
        elim o [
          | opened ip ↦ check_dir omode ip w3
          | refused ↦ ok (refused, w3)
          | looping ↦ ok (looping, w3)
        ])
    ]

  -- the same in `sys_lsopen`, which follows no links
  unfoldable pub find_itself : List ℕ → ℕ → World → Result (Opened × World)
  find_itself path omode w = do
    (r, w1) ← on_cache (namei read_device w.cwd path) w
    elim r [ none ↦ ok (refused, w1) | some e ↦ (do w2 ← lock e.0 w1; check_dir omode e.0 w2) ]

  module _ (write_device : ℕ → Option (Inode → List ℕ → ℕ → Option ℕ)) where
    unfoldable pub create_file : List ℕ → World → Result (Opened × World)
    create_file path w = do
      (r, w1) ← create read_device write_device path t_file 0 0 w
      elim r [ none ↦ ok (refused, w1) | some ip ↦ ok (opened ip, w1) ]

    -- Some result is the descriptor or, as none, -1. No result is a call that is still in its loop.
    unfoldable pub end_open : ℕ → Opened → World → Result (Option (Option ℕ) × World)
    end_open omode (opened ip) w = do (r, w1) ← finish_open omode ip w; ok (some r, w1)
    end_open omode refused w = ok (some none, end_op w)
    end_open omode looping w = ok (none, w)

    unfoldable pub sys_open : ℕ → Option (List ℕ × ℕ) → World → Result (Option (Option ℕ) × World)
    sys_open fuel none w = ok (some none, w)
    sys_open fuel (some (path, omode)) w = do
      (o, w1) ←
          if has omode o_create
          then create_file path (begin_op w)
          else find_inode fuel path omode (begin_op w)
      end_open omode o w1

    unfoldable pub sys_lsopen : Option (List ℕ × ℕ) → World → Result (Option (Option ℕ) × World)
    sys_lsopen none w = ok (some none, w)
    sys_lsopen (some (path, omode)) w = do
      (o, w1) ←
          if has omode o_create
          then create_file path (begin_op w)
          else find_itself path omode (begin_op w)
      end_open omode o w1
