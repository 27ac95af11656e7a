-- ===== src/Fs/Lookup.antt =====
-- `namex`, `namei` and `nameiparent` of project3/fs.c. The current directory of the process is an
-- argument, and so are the tables `devsw`.
pub mod Enough
use ele3021_os.Common.{
  ℕ, zero, suc, List, [], ◌∷◌, length, Bool, true, false, ◌&&◌, Option, none, some, not, ◌⊎◌, inl,
  inr, if◌then◌else◌, ◌==◌,
}
use ele3021_os.Fs.State.{Result, ok, panic, ◌>>=◌}
use ele3021_os.Fs.Inode.{Inode}
use ele3021_os.Fs.Path.{slash, skipelem}
use ele3021_os.Fs.Cache.{Icache, iget, idup, ilock_at, iput, iunlockput}
use ele3021_os.Fs.Directory.{t_dir, dirlookup}

-- ROOTINO
abbrev pub rootino : ℕ
rootino = 1

abbrev pub is_empty : List ℕ → Bool
is_empty [] = true
is_empty (c ∷ path) = false

-- `*path == '/'`
abbrev pub is_absolute : List ℕ → Bool
is_absolute [] = false
is_absolute (c ∷ path) = c == slash

-- the inode and the last element, or none for the result 0
abbrev pub Found : Type 0
Found = Option (ℕ × List ℕ)

-- where the loop ends when there is no element left
unfoldable pub at_end : Bool → List ℕ → ℕ → Icache → Result (Found × Icache)
at_end parent name ip c =
    if parent then (do c1 ← iput ip c; ok (none, c1)) else ok (some (ip, name), c)

module _ (read_device : ℕ → Option (Inode → ℕ → Option (List ℕ))) where
  -- What a round of the loop does with an element `name` before `path`: it ends the loop, or goes on.
  unfoldable pub step_into :
      Bool → List ℕ → List ℕ → ℕ → Icache → Result ((Found × Icache) ⊎ (ℕ × Icache))
  step_into parent path name ip c = do
    c1 ← ilock_at ip c
    if not ((c1.inode ip).type' == t_dir)
        then (do c2 ← iunlockput ip c1; ok (inl (none, c2)))
        else if parent && is_empty path
        then ok (inl (some (ip, name), c1))
        else (do
          (r, c2) ← dirlookup read_device ip name c1
          c3 ← iunlockput ip c2
          elim r [ none ↦ ok (inl (none, c3)) | some e ↦ ok (inr (e.0, c3)) ])

  -- the loop, in `n` rounds at most
  unfoldable pub walk : ℕ → Bool → List ℕ → List ℕ → ℕ → Icache → Result (Found × Icache)
  walk zero parent path name ip c = at_end parent name ip c
  walk (suc n) parent path name ip c =
      let next =
        λ (path' : List ℕ) (name' : List ℕ) (q : ℕ) (c' : Icache). walk n parent path' name' q c' in
      elim (skipelem path) [
        | none ↦ at_end parent name ip c
        | some e ↦ (do
          r ← step_into parent e.0 e.1 ip c
          elim r [ inl x ↦ ok x | inr x ↦ next e.0 e.1 x.0 x.1 ])
      ]

  -- where the walk starts
  unfoldable pub start_at : ℕ → List ℕ → Icache → Result (ℕ × Icache)
  start_at cwd path c = if is_absolute path then iget rootino c else ok (cwd, idup cwd c)

  -- Each round takes a character off the path at least.
  unfoldable pub namex : ℕ → List ℕ → Bool → Icache → Result (Found × Icache)
  namex cwd path parent c = do
    (ip, c1) ← start_at cwd path c
    walk (length path) parent path [] ip c1

  unfoldable pub namei : ℕ → List ℕ → Icache → Result (Found × Icache)
  namei cwd path c = namex cwd path false c

  unfoldable pub nameiparent : ℕ → List ℕ → Icache → Result (Found × Icache)
  nameiparent cwd path c = namex cwd path true c
