-- ===== src/Fs/Path.antt =====
-- `fs_lookup` of src/fs/fs.c.
use snowkernel.Base.{
  ℕ, true, false, ◌||◌, Option, none, some, ◌==◌, if◌then◌else◌, List, [], ◌∷◌, ◌++◌,
}
use snowkernel.Str.{Str, str_eq, kstrncpy}
use snowkernel.Fs.Defs.{Fs, root, find_in}

-- The pointer that is returned, null or not; `fault` is a read past `tmp` or through a null
-- pointer.
pub data Looked : Type 0 where
  at : ℕ → Looked
  nowhere : Looked
  fault : Looked

abbrev pub of_ptr : Option ℕ → Looked
of_ptr none = nowhere
of_ptr (some p) = at p

-- One component of the path, which may be empty.
unfoldable pub enter : Fs → ℕ → Str → Option ℕ
enter s cur tok =
    if str_eq tok []
    then some cur
    else if str_eq tok (b'.' ∷ [])
    then some cur
    else if str_eq tok (b'.' ∷ b'.' ∷ [])
    then elim (s.node cur).parent [ none ↦ some cur | some p ↦ some p ]
    else find_in s cur tok

-- The loop over `tmp`, of which the list is the part from `i` on; `tok` is the text between `tok`
-- and `i`.
unfoldable pub walk : Fs → ℕ → Str → List ℕ → Looked
walk s cur tok [] = fault
walk s cur tok (c ∷ rest) = elim (c == b'/' || c == 0) [
  | true ↦ elim (enter s cur tok) [
    | none ↦ nowhere
    | some cur' ↦ elim (c == 0) [ true ↦ at cur' | false ↦ walk s cur' [] rest ]
  ]
  | false ↦ walk s cur (tok ++ c ∷ []) rest
]

abbrev pub first : Str → ℕ
first [] = 0
first (c ∷ s) = c

-- The same loop from a null pointer: a component that is neither empty nor `.` reads through it, and
-- where there is none, the null pointer is returned.
unfoldable pub walk_null : Str → List ℕ → Looked
walk_null tok [] = fault
walk_null tok (c ∷ rest) = elim (c == b'/' || c == 0) [
  | true ↦ elim (str_eq tok [] || str_eq tok (b'.' ∷ [])) [
    | true ↦ elim (c == 0) [ true ↦ nowhere | false ↦ walk_null [] rest ]
    | false ↦ fault
  ]
  | false ↦ walk_null (tok ++ c ∷ []) rest
]

-- `tmp` is filled from the path, and the walk begins at the start pointer.
unfoldable pub walk_from : Fs → List ℕ → Option ℕ → Str → Looked
unfolding walk
walk_from s junk none path = walk_null [] (kstrncpy junk path 127)
walk_from s junk (some p) path = walk s p [] (kstrncpy junk path 127)

-- `junk` is what the stack holds in the 128 bytes of `tmp` before the call; `kstrncpy` writes all of
-- them but the last. A null `path` is `none`.
unfoldable pub fs_lookup : Fs → List ℕ → Option ℕ → Option Str → Looked
unfolding walk_from
fs_lookup s junk parent none = of_ptr parent
fs_lookup s junk parent (some path) =
    if first path == 0
    then of_ptr parent
    else walk_from s junk (if first path == b'/' then some root else parent) path
