-- ===== src/Files/Balance/Linking.antt =====
-- `sys_link` and `sys_unlink` leave the operations of the log balanced.
use ele3021_os.Common.{ℕ, suc, ◌≡◌, List, Option, none, some}
use ele3021_os.Fs.Inode.{Inode}
use ele3021_os.Files.State.{World}
use ele3021_os.Files.Link.{
  undo_link, link_into, sys_link, remove_entry, give_up, unlink_inode, sys_unlink,
}
use ele3021_os.Files.Balance.Rules.{Ends, Ends-any, outer_rules}

module _ (read_device : ℕ → Option (Inode → ℕ → Option (List ℕ)))
    (write_device : ℕ → Option (Inode → List ℕ → ℕ → Option ℕ)) (n : ℕ) where
  undo_link-Ends :
      (ip : ℕ) (w : World) → w.ops ≡ suc n → Ends n (undo_link read_device write_device ip w)
  unfolding undo_link
  undo_link-Ends ip w h = search outer_rules

  link_into-Ends :
      (ip : ℕ) (new : List ℕ) (w : World)
      → w.ops ≡ suc n
      → Ends n (link_into read_device write_device ip new w)
  unfolding link_into
  link_into-Ends ip new w h = search (outer_rules, undo_link-Ends)

  pub sys_link-Ends :
      (a : Option (List ℕ × List ℕ)) (w : World)
      → w.ops ≡ n
      → Ends n (sys_link read_device write_device a w)
  unfolding sys_link
  sys_link-Ends none w h = search outer_rules
  sys_link-Ends (some a) w h = search (outer_rules, link_into-Ends)

  give_up-Ends :
      (dp : ℕ) (w : World) → w.ops ≡ suc n → Ends n (give_up read_device write_device dp w)
  unfolding give_up
  give_up-Ends dp w h = search outer_rules

  remove_entry-Ends :
      (dp ip off : ℕ) (w : World)
      → w.ops ≡ suc n
      → Ends n (remove_entry read_device write_device dp ip off w)
  unfolding remove_entry
  remove_entry-Ends dp ip off w h = search (outer_rules, Ends-any)

  unlink_inode-Ends :
      (dp ip off : ℕ) (w : World)
      → w.ops ≡ suc n
      → Ends n (unlink_inode read_device write_device dp ip off w)
  unfolding unlink_inode
  unlink_inode-Ends dp ip off w h = search (outer_rules, remove_entry-Ends, give_up-Ends)

  pub sys_unlink-Ends :
      (a : Option (List ℕ)) (w : World)
      → w.ops ≡ n
      → Ends n (sys_unlink read_device write_device a w)
  unfolding sys_unlink
  sys_unlink-Ends none w h = search outer_rules
  sys_unlink-Ends (some path) w h = search (outer_rules, give_up-Ends, unlink_inode-Ends)
