-- ===== src/Files/Create.antt =====
-- project3/sysfile.c: `create`, `sys_slink`, `sys_mkdir`, `sys_mknod` and `sys_chdir`. A path that could
-- not be fetched is none. The tables `devsw` of `readi` and `writei` are arguments.
use ele3021_os.Common.{
  ℕ, ◌%◌, ◌^◌, List, [], ◌∷◌, take, Bool, true, false, not, ◌&&◌, Option, none, some, if◌then◌else◌,
  ◌==◌, update,
}
use ele3021_os.Fs.State.{Result, ok, panic, ◌>>=◌}
use ele3021_os.Fs.Inode.{Inode}
use ele3021_os.Fs.Content.{t_dev}
use ele3021_os.Fs.Path.{dirsiz}
use ele3021_os.Fs.Cache.{ialloc}
use ele3021_os.Fs.Directory.{t_dir, dirlookup, dirlink}
use ele3021_os.Fs.Lookup.{namei, nameiparent}
use ele3021_os.Files.State.{
  World, inode_of, edit_inode, update_inode, begin_op, end_op, on_cache, lock, put, unlock_put,
  more_links,
}

-- T_FILE and T_SYM
abbrev pub t_file : ℕ
t_file = 2

abbrev pub t_sym : ℕ
t_sym = 4

-- "." and ".."
abbrev pub dot : List ℕ
dot = 46 ∷ []

abbrev pub dotdot : List ℕ
dotdot = 46 ∷ 46 ∷ []

module _ (read_device : ℕ → Option (Inode → ℕ → Option (List ℕ)))
    (write_device : ℕ → Option (Inode → List ℕ → ℕ → Option ℕ)) where
  -- `dirlink`, and a panic where it fails
  unfoldable pub must_link : ℕ → List ℕ → ℕ → World → Result World
  must_link dp name inum w = do
    (linked, w1) ← on_cache (dirlink read_device write_device dp name inum) w
    if linked then ok w1 else panic

  -- the part of `create` that makes "." and ".."
  unfoldable pub make_dots : ℕ → ℕ → World → Result World
  make_dots dp ip w = do
    let w1 = edit_inode dp (more_links (inode_of w dp)) w
    w2 ← must_link ip dot (inode_of w ip).inum (update_inode dp w1)
    must_link ip dotdot (inode_of w2 dp).inum w2

  -- `create` behind its `ialloc`
  unfoldable pub fill_inode : ℕ → ℕ → ℕ → List ℕ → ℕ → ℕ → World → Result (Option ℕ × World)
  fill_inode type' major minor name dp ip w = do
    w1 ← lock ip w
    let fresh = record (inode_of w1 ip) { major = major; minor = minor; nlink = 1 }
    let w2 = update_inode ip (edit_inode ip fresh w1)
    w3 ← if type' == t_dir then make_dots dp ip w2 else ok w2
    w4 ← must_link dp name (inode_of w3 ip).inum w3
    w5 ← unlock_put dp w4
    ok (some ip, w5)

  -- `create` where the name is there
  unfoldable pub reuse_inode : ℕ → ℕ → ℕ → World → Result (Option ℕ × World)
  reuse_inode type' dp ip w = do
    w1 ← unlock_put dp w
    w2 ← lock ip w1
    if (type' == t_file) && ((inode_of w2 ip).type' == t_file)
        then ok (some ip, w2)
        else (do w3 ← unlock_put ip w2; ok (none, w3))

  -- `major` and `minor` are 16-bit patterns
  unfoldable pub create : List ℕ → ℕ → ℕ → ℕ → World → Result (Option ℕ × World)
  create path type' major minor w = do
    (r, w1) ← on_cache (nameiparent read_device w.cwd path) w
    elim r [
      | none ↦ ok (none, w1)
      | some e ↦ (do
        w2 ← lock e.0 w1
        (old, w3) ← on_cache (dirlookup read_device e.0 e.1) w2
        elim old [
          | some o ↦ reuse_inode type' e.0 o.0 w3
          | none ↦ (do
            (ip, w4) ← on_cache (ialloc type') w3
            fill_inode type' major minor e.1 e.0 ip w4)
        ])
    ]

  -- `sys_slink` behind the check of `old`: an inode of type T_SYM that keeps the first characters of `old`
  unfoldable pub make_slink : List ℕ → List ℕ → World → Result (Bool × World)
  make_slink old new w = do
    (np, w1) ← create new t_sym 0 0 w
    elim np [
      | none ↦ ok (false, end_op w1)
      | some p ↦ (do
        let w2 = record w1 { link_path = update w1.link_path p (take dirsiz old) }
        w3 ← unlock_put p (update_inode p w2)
        ok (true, end_op w3))
    ]

  -- The reference to the inode of `old` is not put back where the link is made.
  unfoldable pub sys_slink : Option (List ℕ × List ℕ) → World → Result (Bool × World)
  sys_slink none w = ok (false, w)
  sys_slink (some a) w = do
    (r, w1) ← on_cache (namei read_device w.cwd a.0) (begin_op w)
    elim r [
      | none ↦ ok (false, end_op w1)
      | some e ↦ (do
        w2 ← lock e.0 w1
        if (inode_of w2 e.0).type' == t_dir
            then (do w3 ← unlock_put e.0 w2; ok (false, end_op w3))
            else make_slink a.0 a.1 w2)
    ]

  -- `sys_mkdir` and `sys_mknod` behind the fetching of their arguments
  unfoldable pub make_node : List ℕ → ℕ → ℕ → ℕ → World → Result (Bool × World)
  make_node path type' major minor w = do
    (r, w1) ← create path type' major minor w
    elim r [
      | none ↦ ok (false, end_op w1)
      | some ip ↦ (do w2 ← unlock_put ip w1; ok (true, end_op w2))
    ]

  unfoldable pub sys_mkdir : Option (List ℕ) → World → Result (Bool × World)
  sys_mkdir none w = ok (false, end_op (begin_op w))
  sys_mkdir (some path) w = make_node path t_dir 0 0 (begin_op w)

  -- the path, and `major` and `minor` as 32-bit patterns
  unfoldable pub sys_mknod : Option (List ℕ × ℕ × ℕ) → World → Result (Bool × World)
  sys_mknod none w = ok (false, end_op (begin_op w))
  sys_mknod (some (path, major, minor)) w =
      make_node path t_dev (major % 2 ^ 16) (minor % 2 ^ 16) (begin_op w)

  unfoldable pub sys_chdir : Option (List ℕ) → World → Result (Bool × World)
  sys_chdir none w = ok (false, end_op (begin_op w))
  sys_chdir (some path) w = do
    (r, w1) ← on_cache (namei read_device w.cwd path) (begin_op w)
    elim r [
      | none ↦ ok (false, end_op w1)
      | some e ↦ (do
        w2 ← lock e.0 w1
        if not ((inode_of w2 e.0).type' == t_dir)
            then (do w3 ← unlock_put e.0 w2; ok (false, end_op w3))
            else (do w3 ← put w2.cwd w2; ok (true, record (end_op w3) { cwd = e.0 })))
    ]
