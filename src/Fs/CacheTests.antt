-- ===== src/Fs/CacheTests.antt =====
-- The theorems on inodes, directories and paths of project3/fs.c at a concrete cache and disk.
use ele3021_os.Common.{
  ℕ, ◌-◌, ◌*◌, ◌<◌, ◌≤◌, ◌≡◌, ◌⊎◌, List, [], ◌∷◌, length, true, false, Option, none, some, arith,
  if◌then◌else◌, ◌==◌, refl, update,
}
use ele3021_os.Fs.Block.{Block}
use ele3021_os.Fs.State.{Fs, ok, ◌>>=◌}
use ele3021_os.Fs.Inode.{Inode}
use ele3021_os.Fs.Map.Stable.{path_to, Live}
use ele3021_os.Fs.Content.Read.{file_bytes}
use ele3021_os.Fs.Path.{skipelem}
use ele3021_os.Fs.Cache.{Icache, iget, idup, ialloc, take_place, search_cache}
use ele3021_os.Fs.Cache.Runs.{Run, Run-iget}
use ele3021_os.Fs.Cache.Allocating.{Allocated, ialloc-Allocated}
use ele3021_os.Fs.Directory.{dirent_size, dirlookup, de_inum}
use ele3021_os.Fs.Directory.Finding.{IsDirectory, matches, dirlookup-First}
use ele3021_os.Fs.Lookup.{walk}
use ele3021_os.Fs.Lookup.Enough.{round, walk-loop}

abbrev no_device : ℕ → Option (Inode → ℕ → Option (List ℕ))
no_device major = none

-- Block 100 holds the entries (7, "a"), a free one, and (9, "b").
abbrev dir_data : ℕ → Block
dir_data b j =
    if b == 100
    then (if j == 0
        then 7
        else if j == 2
        then 97
        else if j == 32
        then 9
        else if j == 34
        then 98
        else 0)
    else 0

abbrev disk : Fs
disk = record {
  sb = record { size = 1000; ninodes = 200; inodestart = 32; bmapstart = 58 };
  data' = dir_data;
  logged = [];
}

abbrev no_inode : Inode
no_inode = record {
  inum = 0;
  ref = 0;
  valid = false;
  type' = 0;
  major = 0;
  minor = 0;
  nlink = 0;
  size = 0;
  addrs = λ i. 0;
}

abbrev directory : Inode
directory = record no_inode {
  inum = 1;
  ref = 1;
  valid = true;
  type' = 1;
  nlink = 1;
  size = 48;
  addrs = λ i. if i == 0 then 100 else 0;
}

abbrev cold : Icache
cold = record { inode = λ p. no_inode; fs = disk }

abbrev warm : Icache
warm = record { inode = λ p. if p == 0 then directory else no_inode; fs = disk }

-- Inode 7 is in entry 0, with one reference.
abbrev got : Icache
got = record { inode = update (λ p. no_inode) 0 (record no_inode { inum = 7; ref = 1 }); fs = disk }

got_seven : iget 7 cold ≡ ok (0, got)
unfolding iget take_place search_cache
got_seven = refl

abbrev held : ℕ → ℕ
held = update (update (λ p. 0) 0 1) 0 2

Run-iget_example :
    ((p : ℕ) → ((idup 0 got).inode p).ref ≡ held p)
    × ((p : ℕ)
        → 0 < held p
        → iget ((idup 0 got).inode p).inum (idup 0 got) ≡ ok (p, idup p (idup 0 got)))
Run-iget_example =
    Run-iget (Run.dups (Run.gets (Run.start cold (λ p. refl)) 7 0 got got_seven) 0 (omega arith))

ialloc-Allocated_example : Allocated 2 1 (200 - 1) cold (ialloc 2 cold)
ialloc-Allocated_example = ialloc-Allocated 2 cold (omega arith)

directory-IsDirectory : IsDirectory directory disk
unfolding path_to Live
directory-IsDirectory = record {
  is_dir = refl;
  whole = refl;
  bounded = omega arith;
  live = λ bn h. let e : bn ≡ 0 = omega (arith, h) in rw e (omega arith);
}

dirlookup-First_example :
    ((dirlookup no_device 0 (98 ∷ []) warm ≡ ok (none, warm))
      × ((j : ℕ)
          → j * dirent_size < 48
          → matches no_device 0 warm directory-IsDirectory (98 ∷ []) j ≡ false))
    ⊎ ((k : ℕ) × (k * dirent_size < 48)
        × (matches no_device 0 warm directory-IsDirectory (98 ∷ []) k ≡ true)
        × ((j : ℕ) → j < k → matches no_device 0 warm directory-IsDirectory (98 ∷ []) j ≡ false)
        × (dirlookup no_device 0 (98 ∷ []) warm ≡ (do
          (ip, c') ← iget (de_inum (file_bytes directory disk (k * dirent_size) dirent_size)) warm
          ok (some (ip, k * dirent_size), c'))))
dirlookup-First_example = dirlookup-First no_device 0 (98 ∷ []) warm directory-IsDirectory

walk-loop_example :
    (walk no_device 3 false (47 ∷ 98 ∷ 47 ∷ []) [] 0 warm
      ≡ round no_device
          (λ rest. walk no_device (length rest) false rest)
          false
          (skipelem (47 ∷ 98 ∷ 47 ∷ []))
          []
          0
          warm)
    × ((n : ℕ)
        → 3 ≤ n
        → walk no_device n false (47 ∷ 98 ∷ 47 ∷ []) [] 0 warm
          ≡ walk no_device 3 false (47 ∷ 98 ∷ 47 ∷ []) [] 0 warm)
walk-loop_example = walk-loop no_device false (47 ∷ 98 ∷ 47 ∷ []) [] 0 warm
