-- ===== src/Fs/Write/Append.antt =====
-- Appending, and the writes for which the arena has no room.
use snowkernel.Base.{
  ℕ, ◌+◌, ◌^◌, ◌≤◌, ◌<◌, true, some, ◌==◌, if◌then◌else◌, if_elim, [], ◌++◌, ◌≡◌, refl, sym, ap₂,
  ◌∙◌, arith, Bool-cases, inl, inr, ==→eq, lt→ltb, le→ltb,
}
use snowkernel.Base.Int.{pos, negsuc}
use snowkernel.Fs.Defs.{Fs, DataPtr, null, in_arena, outside, is_file, arena_size}
use snowkernel.Fs.Data.{Memory, add_size, copy_in, copy_data, bytes, read_data, fs_write}
use snowkernel.Fs.Contents.{
  bytes_below, bytes-add, bytes-copy_in, bytes-copy_data, copy_data_below, copy_in_below,
}
use snowkernel.Fs.Write.{IsArena, content, Stored, placed-Stored}

-- The old contents, copied to the offset; the copy is skipped for an empty file.
abbrev moved : Fs → Memory → ℕ → Memory
moved s mem f =
    if (s.node f).size == 0
    then s.arena
    else copy_data (s.node f).size s.arena s.aoff mem (s.node f).contents

moved_below : (s : Fs) (mem : Memory) (f j : ℕ) → j < s.aoff → moved s mem f j ≡ s.arena j
moved_below s mem f j h =
    if_elim (λ (m : Memory). m j ≡ s.arena j) ((s.node f).size == 0) _ _ (λ _. refl)
      (λ _. copy_data_below (s.node f).size s.arena s.aoff mem (s.node f).contents j h)

-- What an empty pointer reads is empty.
read_none : (a mem : Memory) (d : DataPtr) → read_data a mem d 0 ≡ []
unfolding read_data
read_none a mem null = refl
read_none a mem (in_arena k) = refl
read_none a mem (outside k) = refl

bytes-moved :
    (s : Fs) (mem : Memory) (f : ℕ)
    → IsArena s
    → bytes (moved s mem f) s.aoff (s.node f).size ≡ content s mem f
bytes-moved s mem f v = elim (Bool-cases ((s.node f).size == 0)) [
  | inl e ↦ rw e (rw (==→eq _ _ e) (sym (read_none s.arena mem (s.node f).contents)))
  | inr e ↦
      rw e (bytes-copy_data (s.node f).size s.arena s.aoff mem (s.node f).contents (v.below f))
]

module _ (s : Fs) (mem : Memory) (f addr len : ℕ) (v : IsArena s)
    (isf : is_file (s.node f).type ≡ true) where
  abbrev size : ℕ
  size = (s.node f).size

  abbrev final : Memory
  final = copy_in len (moved s mem f) (s.aoff + size) mem addr

  final_below : (j : ℕ) → j < s.aoff + size → final j ≡ moved s mem f j
  final_below j h = copy_in_below len (moved s mem f) (s.aoff + size) mem addr j h

  bytes-final : bytes final s.aoff (size + len) ≡ content s mem f ++ bytes mem addr len
  bytes-final =
      bytes-add final s.aoff size len
      ∙ ap₂ ◌++◌
          (bytes_below final (moved s mem f) (s.aoff + size) s.aoff size final_below (omega arith)
            ∙ bytes-moved s mem f v)
          (bytes-copy_in len (moved s mem f) (s.aoff + size) mem addr)

  -- Appending to a file, where the arena has room for a second copy of it with the new bytes: the
  -- call returns 0 and the file holds what it held, followed by the bytes.
  pub fs_write-append :
      s.aoff + size + len ≤ arena_size
      → ((fs_write s mem (some f) addr len true).0 ≡ pos 0)
        × Stored s mem f
            (content s mem f ++ bytes mem addr len)
            (fs_write s mem (some f) addr len true).1
  unfolding fs_write
  fs_write-append room =
      let n : add_size size len ≡ size + len = omega arith in
      rw (isf, n, le→ltb arena_size (add_size s.aoff (size + len)) (omega arith))
        (
          refl,
          placed-Stored s mem f (size + len) final (content s mem f ++ bytes mem addr len) v
              (omega arith) (λ j h. final_below j (omega arith) ∙ moved_below s mem f j h)
              bytes-final,
        )

  -- Where the arena has no room for the old contents with the new bytes behind them, and the sizes
  -- are far below the range of `size_t`, an append is refused with -2 and changes nothing.
  pub fs_write_append_refused :
      len < 2 ^ 63
      → size < 2 ^ 62
      → arena_size < s.aoff + size + len
      → fs_write s mem (some f) addr len true ≡ (negsuc 1, s)
  unfolding fs_write
  fs_write_append_refused small sz full =
      let u = v.used in
      let n : add_size size len ≡ size + len = omega arith in
      rw (isf, n, lt→ltb arena_size (add_size s.aoff (size + len)) (omega arith))
