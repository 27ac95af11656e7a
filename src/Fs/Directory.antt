-- ===== src/Fs/Directory.antt =====
-- Directories of project3/fs.c: `namecmp`, `dirlookup` and `dirlink`. A name is the list of its
-- characters before the NUL. The tables `devsw` of `readi` and `writei` are arguments.
pub mod Finding
use ele3021_os.Common.{
  ℕ, zero, suc, ◌+◌, ◌-◌, ◌*◌, ◌/◌, ◌%◌, List, [], ◌∷◌, ◌++◌, length, Bool, true, false, ◌&&◌,
  Option, none, some, is_some, not, ltb, leb, if◌then◌else◌, ◌==◌, update,
}
use ele3021_os.Fs.State.{Fs, Result, ok, panic, ◌>>=◌}
use ele3021_os.Fs.Inode.{Inode}
use ele3021_os.Fs.Content.{readi, writei}
use ele3021_os.Fs.Path.{dirsiz}
use ele3021_os.Fs.Cache.{Icache, iget, iput}

-- T_DIR, and `sizeof(struct dirent)`
abbrev pub t_dir : ℕ
t_dir = 1

abbrev pub dirent_size : ℕ
dirent_size = 16

-- the test `strncmp(s, t, n) == 0`, where a list's end stands for a NUL
unfoldable pub names_agree : ℕ → List ℕ → List ℕ → Bool
names_agree zero s t = true
names_agree (suc n) [] [] = true
names_agree (suc n) [] (d ∷ t) = d == 0
names_agree (suc n) (c ∷ s) [] = c == 0
names_agree (suc n) (c ∷ s) (d ∷ t) =
    let rest = names_agree n s t in if c == d then (if c == 0 then true else rest) else false

-- `namecmp(s, t) == 0`
abbrev pub same_name : List ℕ → List ℕ → Bool
same_name s t = names_agree dirsiz s t

-- `struct dirent` as bytes: the inode number, and the DIRSIZ bytes of the name
abbrev pub de_inum : List ℕ → ℕ
de_inum (a ∷ b ∷ name) = a + 256 * b
de_inum _ = 0

abbrev pub de_name : List ℕ → List ℕ
de_name (a ∷ b ∷ name) = name
de_name _ = []

-- `strncpy(de.name, name, DIRSIZ)`, padded with NULs
unfoldable pub pad : ℕ → List ℕ → List ℕ
pad zero name = []
pad (suc n) [] = 0 ∷ pad n []
pad (suc n) (c ∷ name) = c ∷ pad n name

unfoldable pub dirent : List ℕ → ℕ → List ℕ
unfolding pad
dirent name inum = inum % 256 ∷ inum / 256 % 256 ∷ pad dirsiz name

module _ (read_device : ℕ → Option (Inode → ℕ → Option (List ℕ))) where
  -- `readi(dp, (char*)&de, off, sizeof(de))`, which may not come short
  unfoldable pub read_dirent : ℕ → ℕ → Icache → Result (List ℕ × Icache)
  read_dirent dp off c = do
    (r, ip, s) ← readi read_device (c.inode dp) off dirent_size c.fs
    elim r [
      | none ↦ panic
      | some de ↦
          if length de == dirent_size
          then ok (de, record { inode = update c.inode dp ip; fs = s })
          else panic
    ]

  -- the loop of `dirlookup` from offset `off` on, in `n` rounds: the entry's inode number and offset
  unfoldable pub find_name : ℕ → ℕ → ℕ → List ℕ → Icache → Result (Option (ℕ × ℕ) × Icache)
  find_name zero off dp name c = ok (none, c)
  find_name (suc n) off dp name c =
      let round = (do
        (de, c') ← read_dirent dp off c
        let rest = find_name n (off + dirent_size) dp name c'
        if not (de_inum de == 0) && same_name name (de_name de)
            then ok (some (de_inum de, off), c')
            else rest) in
      if leb (c.inode dp).size off then ok (none, c) else round

  -- The entries are 16 bytes each, so that as many rounds as bytes are enough.
  unfoldable pub dirlookup : ℕ → List ℕ → Icache → Result (Option (ℕ × ℕ) × Icache)
  dirlookup dp name c =
      if (c.inode dp).type' == t_dir
      then (do
        (r, c1) ← find_name (c.inode dp).size 0 dp name c
        elim r [
          | none ↦ ok (none, c1)
          | some e ↦ (do (ip, c2) ← iget e.0 c1; ok (some (ip, e.1), c2))
        ])
      else panic

  -- the loop of `dirlink`: the offset of the first free entry, or behind the last one
  unfoldable pub find_room : ℕ → ℕ → ℕ → Icache → Result (ℕ × Icache)
  find_room zero off dp c = ok (off, c)
  find_room (suc n) off dp c =
      let round = (do
        (de, c') ← read_dirent dp off c
        let rest = find_room n (off + dirent_size) dp c'
        if de_inum de == 0 then ok (off, c') else rest) in
      if leb (c.inode dp).size off then ok (off, c) else round

  module _ (write_device : ℕ → Option (Inode → List ℕ → ℕ → Option ℕ)) where
    -- true is the result 0, false is -1
    unfoldable pub dirlink : ℕ → List ℕ → ℕ → Icache → Result (Bool × Icache)
    dirlink dp name inum c = do
      (r, c1) ← dirlookup dp name c
      elim r [
        | some e ↦ (do c2 ← iput e.0 c1; ok (false, c2))
        | none ↦ (do
          (off, c2) ← find_room (c1.inode dp).size 0 dp c1
          (w, ip, s) ← writei write_device (c2.inode dp) (dirent name inum) off dirent_size c2.fs
          elim w [
            | none ↦ panic
            | some n ↦
                if n == dirent_size
                then ok (true, record { inode = update c2.inode dp ip; fs = s })
                else panic
          ])
      ]
