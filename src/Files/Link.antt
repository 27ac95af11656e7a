-- ===== src/Files/Link.antt =====
-- project3/sysfile.c: `sys_link`, `isdirempty` and `sys_unlink`. Paths that could not be fetched are
-- none. The tables `devsw` of `readi` and `writei` are arguments.
use ele3021_os.Common.{
  ℕ, zero, suc, ◌+◌, ◌*◌, ◌^◌, List, replicate, Bool, true, false, not, ◌||◌, Option, none, some,
  leb, if◌then◌else◌, ◌==◌,
}
use ele3021_os.Fs.State.{Result, ok, panic, ◌>>=◌}
use ele3021_os.Fs.Inode.{Inode}
use ele3021_os.Fs.Content.{writei}
use ele3021_os.Fs.Cache.{Icache}
use ele3021_os.Fs.Directory.{
  t_dir, dirent_size, same_name, de_inum, read_dirent, dirlookup, dirlink,
}
use ele3021_os.Fs.Lookup.{namei, nameiparent}
use ele3021_os.Files.State.{
  World, inode_of, edit_inode, update_inode, begin_op, end_op, on_cache, lock, put, unlock_put,
  more_links, fewer_links,
}
use ele3021_os.Files.Create.{t_sym, dot, dotdot}
use ele3021_os.Files.File.{after_io}

module _ (read_device : ℕ → Option (Inode → ℕ → Option (List ℕ))) where
  -- the loop of `isdirempty` from `off` on, in `n` rounds
  unfoldable pub scan_empty : ℕ → ℕ → ℕ → Icache → Result (Bool × Icache)
  scan_empty zero off dp c = ok (true, c)
  scan_empty (suc n) off dp c =
      let round = (do
        (de, c') ← read_dirent read_device dp off c
        let rest = scan_empty n (off + dirent_size) dp c'
        if de_inum de == 0 then rest else ok (false, c')) in
      if leb (c.inode dp).size off then ok (true, c) else round

  -- The entries are 16 bytes each, so that as many rounds as bytes are enough.
  unfoldable pub isdirempty : ℕ → Icache → Result (Bool × Icache)
  isdirempty dp c = scan_empty (c.inode dp).size (2 * dirent_size) dp c

  module _ (write_device : ℕ → Option (Inode → List ℕ → ℕ → Option ℕ)) where
    -- behind `bad:` of `sys_link`
    unfoldable pub undo_link : ℕ → World → Result (Bool × World)
    undo_link ip w = do
      w1 ← lock ip w
      w2 ← unlock_put ip (update_inode ip (edit_inode ip (fewer_links (inode_of w1 ip)) w1))
      ok (false, end_op w2)

    -- `sys_link` behind `iunlock(ip)`
    unfoldable pub link_into : ℕ → List ℕ → World → Result (Bool × World)
    link_into ip new w = do
      (r, w1) ← on_cache (nameiparent read_device w.cwd new) w
      elim r [
        | none ↦ undo_link ip w1
        | some e ↦ (do
          w2 ← lock e.0 w1
          (linked, w3) ←
              on_cache (dirlink read_device write_device e.0 e.1 (inode_of w2 ip).inum) w2
          w4 ← unlock_put e.0 w3
          if linked then (do w5 ← put ip w4; ok (true, end_op w5)) else undo_link ip w4)
      ]

    unfoldable pub sys_link : Option (List ℕ × List ℕ) → World → Result (Bool × World)
    sys_link none w = ok (false, w)
    sys_link (some (old, new)) w = do
      (r, w1) ← on_cache (namei read_device w.cwd old) (begin_op w)
      elim r [
        | none ↦ ok (false, end_op w1)
        | some e ↦ (do
          w2 ← lock e.0 w1
          if ((inode_of w2 e.0).type' == t_dir) || ((inode_of w2 e.0).type' == t_sym)
              then (do w3 ← unlock_put e.0 w2; ok (false, end_op w3))
              else link_into e.0 new
                  (update_inode e.0 (edit_inode e.0 (more_links (inode_of w2 e.0)) w2)))
      ]

    -- the end of `sys_unlink` with the entry at `off` of the directory `dp`
    unfoldable pub remove_entry : ℕ → ℕ → ℕ → World → Result (Bool × World)
    remove_entry dp ip off w = do
      (r, dir, s) ←
          writei write_device (inode_of w dp) (replicate dirent_size 0) off dirent_size
            (w.icache.fs)
      let w1 = after_io dp dir s w
      let w2 =
          if (inode_of w1 ip).type' == t_dir
          then update_inode dp (edit_inode dp (fewer_links (inode_of w1 dp)) w1)
          else w1
      elim r [
        | none ↦ panic
        | some n ↦ if not (n == dirent_size) then panic else (do
          w3 ← unlock_put dp w2
          w4 ← unlock_put ip (update_inode ip (edit_inode ip (fewer_links (inode_of w3 ip)) w3))
          ok (true, end_op w4))
      ]

    -- behind `bad:` of `sys_unlink`
    unfoldable pub give_up : ℕ → World → Result (Bool × World)
    give_up dp w = do w1 ← unlock_put dp w; ok (false, end_op w1)

    -- `sys_unlink` of the inode at `ip`
    unfoldable pub unlink_inode : ℕ → ℕ → ℕ → World → Result (Bool × World)
    unlink_inode dp ip off w = do
      w1 ← lock ip w
      (empty, w2) ←
          if (inode_of w1 ip).type' == t_dir then on_cache (isdirempty ip) w1 else ok (true, w1)
      if ((inode_of w1 ip).nlink == 0) || leb (2 ^ 15) (inode_of w1 ip).nlink
          then panic
          else if empty
          then remove_entry dp ip off w2
          else (do w3 ← unlock_put ip w2; give_up dp w3)

    unfoldable pub sys_unlink : Option (List ℕ) → World → Result (Bool × World)
    sys_unlink none w = ok (false, w)
    sys_unlink (some path) w = do
      (r, w1) ← on_cache (nameiparent read_device w.cwd path) (begin_op w)
      elim r [
        | none ↦ ok (false, end_op w1)
        | some e ↦ (do
          w2 ← lock e.0 w1
          if same_name e.1 dot || same_name e.1 dotdot then give_up e.0 w2 else (do
            (found, w3) ← on_cache (dirlookup read_device e.0 e.1) w2
            elim found [ none ↦ give_up e.0 w3 | some x ↦ unlink_inode e.0 x.0 x.1 w3 ]))
      ]
