-- ===== src/Files/Balance/Creating.antt =====
-- `create` and the calls that use it leave the operations of the log balanced.
use ele3021_os.Common.{ℕ, suc, ◌≡◌, List, Option, none, some}
use ele3021_os.Fs.Inode.{Inode}
use ele3021_os.Files.State.{World}
use ele3021_os.Files.Create.{
  must_link, make_dots, fill_inode, reuse_inode, create, make_slink, sys_slink, make_node,
  sys_mkdir, sys_mknod, sys_chdir,
}
use ele3021_os.Files.Balance.Rules.{Ends, Leaves, inner_rules, outer_rules}

module _ (read_device : ℕ → Option (Inode → ℕ → Option (List ℕ)))
    (write_device : ℕ → Option (Inode → List ℕ → ℕ → Option ℕ)) (n : ℕ) where
  reuse_inode-Ends :
      (type' dp ip : ℕ) (w : World)
      → w.ops ≡ n
      → Ends n (reuse_inode read_device write_device type' dp ip w)
  unfolding reuse_inode
  reuse_inode-Ends type' dp ip w h = search inner_rules

  must_link-Leaves :
      (dp : ℕ) (name : List ℕ) (inum : ℕ) (w : World)
      → w.ops ≡ n
      → Leaves n (must_link read_device write_device dp name inum w)
  unfolding must_link
  must_link-Leaves dp name inum w h = search inner_rules

  make_dots-Leaves :
      (dp ip : ℕ) (w : World) → w.ops ≡ n → Leaves n (make_dots read_device write_device dp ip w)
  unfolding make_dots
  make_dots-Leaves dp ip w h = search (inner_rules, must_link-Leaves)

  fill_inode-Ends :
      (type' major minor : ℕ) (name : List ℕ) (dp ip : ℕ) (w : World)
      → w.ops ≡ n
      → Ends n (fill_inode read_device write_device type' major minor name dp ip w)
  unfolding fill_inode
  fill_inode-Ends type' major minor name dp ip w h =
      search (inner_rules, must_link-Leaves, make_dots-Leaves)

  pub create-Ends :
      (path : List ℕ) (type' major minor : ℕ) (w : World)
      → w.ops ≡ n
      → Ends n (create read_device write_device path type' major minor w)
  unfolding create
  create-Ends path type' major minor w h = search (inner_rules, fill_inode-Ends, reuse_inode-Ends)

module _ (read_device : ℕ → Option (Inode → ℕ → Option (List ℕ)))
    (write_device : ℕ → Option (Inode → List ℕ → ℕ → Option ℕ)) (n : ℕ) where
  make_slink-Ends :
      (old new : List ℕ) (w : World)
      → w.ops ≡ suc n
      → Ends n (make_slink read_device write_device old new w)
  unfolding make_slink
  make_slink-Ends old new w h = search (outer_rules, create-Ends)

  pub sys_slink-Ends :
      (a : Option (List ℕ × List ℕ)) (w : World)
      → w.ops ≡ n
      → Ends n (sys_slink read_device write_device a w)
  unfolding sys_slink
  sys_slink-Ends none w h = search outer_rules
  sys_slink-Ends (some a) w h = search (outer_rules, make_slink-Ends)

  make_node-Ends :
      (path : List ℕ) (type' major minor : ℕ) (w : World)
      → w.ops ≡ suc n
      → Ends n (make_node read_device write_device path type' major minor w)
  unfolding make_node
  make_node-Ends path type' major minor w h = search (outer_rules, create-Ends)

  pub sys_mkdir-Ends :
      (a : Option (List ℕ)) (w : World)
      → w.ops ≡ n
      → Ends n (sys_mkdir read_device write_device a w)
  unfolding sys_mkdir
  sys_mkdir-Ends none w h = search outer_rules
  sys_mkdir-Ends (some path) w h = search (outer_rules, make_node-Ends)

  pub sys_mknod-Ends :
      (a : Option (List ℕ × ℕ × ℕ)) (w : World)
      → w.ops ≡ n
      → Ends n (sys_mknod read_device write_device a w)
  unfolding sys_mknod
  sys_mknod-Ends none w h = search outer_rules
  sys_mknod-Ends (some a) w h = search (outer_rules, make_node-Ends)

  pub sys_chdir-Ends :
      (a : Option (List ℕ)) (w : World)
      → w.ops ≡ n
      → Ends n (sys_chdir read_device write_device a w)
  unfolding sys_chdir
  sys_chdir-Ends none w h = search outer_rules
  sys_chdir-Ends (some path) w h = search outer_rules
