-- ===== src/Fs/Path.antt =====
-- `skipelem` of project3/fs.c. A path is the list of its characters before the NUL, and the buffer
-- `name` of DIRSIZ bytes is the list of what stands in it before a NUL or its end.
pub mod Element
use ele3021_os.Common.{
  ℕ, zero, suc, List, [], ◌∷◌, Bool, Option, none, some, ◌==◌, if◌then◌else◌, take,
}

-- '/' and DIRSIZ
abbrev pub slash : ℕ
slash = 47

abbrev pub dirsiz : ℕ
dirsiz = 14

-- `while(*path == '/') path++`
unfoldable pub skip_slashes : List ℕ → List ℕ
skip_slashes [] = []
skip_slashes (c ∷ path) = let rest = skip_slashes path in if c == slash then rest else c ∷ path

-- `while(*path != '/' && *path != 0) path++`: the characters passed over, and where it stops
unfoldable pub element : List ℕ → List ℕ
element [] = []
element (c ∷ path) = let rest = element path in if c == slash then [] else c ∷ rest

unfoldable pub behind_element : List ℕ → List ℕ
behind_element [] = []
behind_element (c ∷ path) = let rest = behind_element path in if c == slash then c ∷ path else rest

-- None is the result 0; else it is the rest of the path, with what is copied to `name`.
unfoldable pub skipelem : List ℕ → Option (List ℕ × List ℕ)
unfolding skip_slashes element behind_element
skipelem path = elim (skip_slashes path) [
  | [] ↦ none
  | c ∷ rest ↦ some (skip_slashes (behind_element (c ∷ rest)), take dirsiz (element (c ∷ rest)))
]
