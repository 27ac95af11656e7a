-- ===== src/Fs/Tests.antt =====
-- Tests of the file system of project3/fs.c, and its theorems at concrete inputs.
use ele3021_os.Common.{
  ℕ, ◌+◌, ◌-◌, ◌*◌, ◌/◌, ◌%◌, ◌<◌, ◌≡◌, ◌⊎◌, min, [], ◌∷◌, true, false, none, some, arith, ltb,
  if◌then◌else◌, ◌==◌, refl, dec_lt,
}
use ele3021_os.Fs.Block.{Block, get_word, get_short, test_bit, set_bit}
use ele3021_os.Fs.State.{Fs, ok, panic}
use ele3021_os.Fs.Alloc.{balloc, bfree, balloc_from, find_free, take_block, bzero}
use ele3021_os.Fs.Alloc.Search.{in_use, IsMapped}
use ele3021_os.Fs.Alloc.Taking.{Taken, balloc-Taken}
use ele3021_os.Fs.Alloc.Freeing.{Freed, freed, bfree-Freed, bfree-balloc}
use ele3021_os.Fs.Inode.{Inode, naddrs, ilock, iupdate, dinode_at}
use ele3021_os.Fs.Inode.Image.{Fits, image, ilock-iupdate, iupdate-spares}
use ele3021_os.Fs.Map.{bmap}
use ele3021_os.Fs.Map.Stable.{block_of, IsLive, bmap-block_of, path_to, Live}
use ele3021_os.Fs.Content.{readi, read_loop, bytes_at}
use ele3021_os.Fs.Content.Read.{file_bytes, readi-file_bytes}
use ele3021_os.Fs.Path.{skipelem, skip_slashes, element, behind_element}
use ele3021_os.Fs.Path.Element.{Outcome, skipelem-SplitsOff}

-- A disk of 1000 blocks: the free map is block 58, and the first 60 blocks are in use. Block 106 is
-- an indirect block whose first entry is 200.
abbrev disk_data : ℕ → Block
disk_data b j =
    if b == 58
    then (if ltb j 7 then 255 else if j == 7 then 15 else 0)
    else if b == 106
    then (if j == 0 then 200 else 0)
    else j % 256

abbrev disk : Fs
disk = record {
  sb = record { size = 1000; ninodes = 200; inodestart = 32; bmapstart = 58 };
  data' = disk_data;
  logged = [];
}

disk-IsMapped : IsMapped disk
unfolding in_use test_bit
disk-IsMapped = record {
  bytes = λ b j. ground arith;
  map_used = λ b h. let e : b / 4096 ≡ 0 = omega arith in rw e refl;
  map_in_disk = λ b h. omega arith;
}

balloc-Taken_example :
    ((balloc disk ≡ panic) × ((c : ℕ) → c < disk.sb.size → in_use disk c ≡ true))
    ⊎ ((b : ℕ) × (s' : Fs) × (balloc disk ≡ ok (b, s')) × Taken disk b s')
balloc-Taken_example = balloc-Taken disk-IsMapped

bfree-Freed_example :
    ((in_use disk 7 ≡ false) × (bfree 7 disk ≡ panic))
    ⊎ ((in_use disk 7 ≡ true) × (s' : Fs) × (bfree 7 disk ≡ ok s') × Freed disk 7 s')
bfree-Freed_example = bfree-Freed 7 disk-IsMapped

-- Block 60 is the first free block.
abbrev disk_after : Fs
disk_after = (take_block 0 60 disk).1

balloc_run : balloc disk ≡ ok (60, disk_after)
unfolding balloc balloc_from find_free take_block test_bit
balloc_run = refl

bfree_run : bfree 60 disk_after ≡ ok (freed 60 disk_after)
unfolding bfree take_block test_bit set_bit bzero
bfree_run = refl

bfree-balloc_example : in_use (freed 60 disk_after) 7 ≡ in_use disk 7
bfree-balloc_example = bfree-balloc disk-IsMapped balloc_run bfree_run 7 (omega arith)

-- A file of 3082 bytes in blocks 100 to 105, and in block 200 by the indirect block 106.
abbrev file : Inode
file = record {
  inum = 9;
  ref = 1;
  valid = false;
  type' = 2;
  major = 0;
  minor = 0;
  nlink = 1;
  size = 3082;
  addrs = λ i. if ltb i 7 then 100 + i else 0;
}

file-Fits : Fits file
file-Fits = record {
  type_lt = omega arith;
  major_lt = omega arith;
  minor_lt = omega arith;
  nlink_lt = omega arith;
  size_lt = omega arith;
  addrs_lt = λ i. ground arith;
}

ilock-iupdate_example :
    (ip : Inode) × (ilock file (iupdate file disk) ≡ ok ip)
    × (ip.type' ≡ 2)
    × (ip.major ≡ 0)
    × (ip.minor ≡ 0)
    × (ip.nlink ≡ 1)
    × (ip.size ≡ 3082)
    × ((i : ℕ) → i < naddrs → ip.addrs i ≡ file.addrs i)
ilock-iupdate_example = ilock-iupdate file file disk file-Fits (omega arith) refl (omega arith) refl

-- Inode 10 stands right behind it in the same block.
iupdate-spares_example :
    (get_short (image 10 (iupdate file disk)) (dinode_at 10 + 0)
      ≡ get_short (image 10 disk) (dinode_at 10 + 0))
    × (get_word (image 10 (iupdate file disk)) (dinode_at 10 + 0)
        ≡ get_word (image 10 disk) (dinode_at 10 + 0))
iupdate-spares_example = iupdate-spares file 10 0 disk (omega arith) (omega arith)

file-IsLive : (bn : ℕ) → bn * 512 < 3082 → IsLive file disk bn
unfolding Live path_to get_word
file-IsLive bn h = elim (dec_lt bn 6) [
  | yes d ↦ let e : ltb bn 6 ≡ true = ground arith in rw e (ground arith)
  | no nd ↦ let e : bn ≡ 6 = omega arith in rw e (omega arith, omega arith)
]

bmap-block_of_example : bmap file 6 disk ≡ ok (block_of file disk 6, file, disk)
bmap-block_of_example = bmap-block_of file 6 disk (omega arith) (file-IsLive 6 (omega arith))

readi-file_bytes_example :
    readi (λ _. none) file 3070 100 disk
    ≡ ok (some (file_bytes file disk 3070 (min 100 (3082 - 3070))), file, disk)
readi-file_bytes_example =
    readi-file_bytes (λ _. none) file 3070 100 disk (omega arith) (omega arith) (omega arith)
      (omega arith) file-IsLive

-- It crosses into the indirect block, and stops at the end of the file.
readi_run :
    readi (λ _. none) file 3070 100 disk
    ≡ ok (some (254 ∷ 255 ∷ 0 ∷ 1 ∷ 2 ∷ 3 ∷ 4 ∷ 5 ∷ 6 ∷ 7 ∷ 8 ∷ 9 ∷ []), file, disk)
unfolding readi read_loop bytes_at bmap get_word
readi_run = refl

-- "//ab/c"
skipelem-SplitsOff_example :
    Outcome (47 ∷ 47 ∷ 97 ∷ 98 ∷ 47 ∷ 99 ∷ []) (skipelem (47 ∷ 47 ∷ 97 ∷ 98 ∷ 47 ∷ 99 ∷ []))
skipelem-SplitsOff_example = skipelem-SplitsOff (47 ∷ 47 ∷ 97 ∷ 98 ∷ 47 ∷ 99 ∷ [])

skipelem_run : skipelem (47 ∷ 47 ∷ 97 ∷ 98 ∷ 47 ∷ 99 ∷ []) ≡ some (99 ∷ [], 97 ∷ 98 ∷ [])
unfolding skipelem skip_slashes element behind_element
skipelem_run = refl
