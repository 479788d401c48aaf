-- ===== src/Fs/Write/Tests.antt =====
-- Tests of writing and reading at concrete files.
use snowkernel.Base.{
  ℕ, ◌+◌, ◌≤◌, true, some, ◌==◌, [], ◌∷◌, if◌then◌else◌, ◌≡◌, refl, arith, Bool-cases, inl, inr,
}
use snowkernel.Base.Int.{pos}
use snowkernel.Fs.Defs.{Fs, file, in_arena, root, arena_size, zero_node}
use snowkernel.Fs.Data.{Memory, read_data, fs_write}
use snowkernel.Fs.Write.{IsArena, Stored}
use snowkernel.Fs.Write.Append.{fs_write-append}

-- Every node but the root is a file of the arena's first two bytes.
abbrev files : ℕ → Fs
files off = record {
  node = λ i.
      if i == 0
      then zero_node
      else record zero_node { type = file; contents = in_arena 0; size = 2 };
  cwd = root;
  ni = 3;
  arena = λ i. i + 1;
  aoff = off;
}

abbrev memory : Memory
memory a = a + 65

files-IsArena : (off : ℕ) → 2 ≤ off → off ≤ arena_size → IsArena (files off)
files-IsArena off h k = record {
  used = k;
  below = λ f. elim (Bool-cases (f == 0)) [ inl e ↦ rw e refl | inr e ↦ rw e (omega arith) ];
}

fs_write-append_example :
    ((fs_write (files 2) memory (some 1) 0 3 true).0 ≡ pos 0)
    × Stored
        (files 2)
        memory
        1
        (1 ∷ 2 ∷ 65 ∷ 66 ∷ 67 ∷ [])
        (fs_write (files 2) memory (some 1) 0 3 true).1
unfolding read_data
fs_write-append_example =
    fs_write-append (files 2) memory 1 0 3 (files-IsArena 2 (omega arith) (omega arith)) refl
      (omega arith)
