-- ===== src/Fs/Data.antt =====
-- File contents: the arena of src/fs/fs.c, from which `fs_write` takes space and never gives it
-- back. `mem` is the memory outside the file system at the time of the call.
use snowkernel.Base.{
  ℕ, zero, suc, ◌+◌, ◌%◌, ◌^◌, Bool, true, false, ◌||◌, not, Option, none, some, ◌==◌, ltb, leb,
  if◌then◌else◌, update, List, [], ◌∷◌, replicate,
}
use snowkernel.Base.Int.{ℤ, pos, negsuc}
use snowkernel.Str.{Str, kstrncpy}
use snowkernel.Fs.Defs.{
  Fs, file, null, in_arena, outside, DataPtr, zero_node, is_file, as_dir, pool_size, arena_size,
  find_in, add_child,
}
use snowkernel.Fs.Ops.{take_node}

abbrev pub Memory : Type 0
Memory = ℕ → ℕ

-- `size_t` addition.
abbrev pub add_size : ℕ → ℕ → ℕ
add_size a b = (a + b) % 2 ^ 64

-- `kmemcpy` into the arena at `at`, from outside it.
unfoldable pub copy_in : ℕ → Memory → ℕ → Memory → ℕ → Memory
copy_in zero arena at mem from = arena
copy_in (suc n) arena at mem from = copy_in n (update arena at (mem from)) (at + 1) mem (from + 1)

-- `kmemcpy` from the arena to the arena: each byte is read after the writes before it.
unfoldable pub copy_within : ℕ → Memory → ℕ → ℕ → Memory
copy_within zero arena at from = arena
copy_within (suc n) arena at from = copy_within n (update arena at (arena from)) (at + 1) (from + 1)

-- `kmemcpy(&arena[at], from, n)` for a node's data pointer. Nothing is copied from a null pointer.
unfoldable pub copy_data : ℕ → Memory → ℕ → Memory → DataPtr → Memory
copy_data n arena at mem null = arena
copy_data n arena at mem (in_arena a) = copy_within n arena at a
copy_data n arena at mem (outside a) = copy_in n arena at mem a

-- The `n` bytes from `at` on.
abbrev pub bytes : Memory → ℕ → ℕ → List ℕ
bytes mem at zero = []
bytes mem at (suc n) = mem at ∷ bytes mem (at + 1) n

abbrev pub is_null : DataPtr → Bool
is_null null = true
is_null _ = false

-- `len` bytes at the address `addr` outside; the result 0, -1 or -2.
unfoldable pub fs_write : Fs → Memory → Option ℕ → ℕ → ℕ → Bool → ℤ × Fs
fs_write s mem none addr len append = (negsuc 0, s)
fs_write s mem (some f) addr len append =
    if not (is_file (s.node f).type)
    then (negsuc 0, s)
    else if not append
    then (if ltb arena_size (add_size s.aoff len)
        then (
          pos 0,
          record s {
            node = update s.node f (record (s.node f) { contents = outside addr; size = len });
          },
        )
        else (
          pos 0,
          record s {
            node = update s.node f (record (s.node f) { contents = in_arena s.aoff; size = len });
            arena = copy_in len s.arena s.aoff mem addr;
            aoff = add_size s.aoff len;
          },
        ))
    else (let old = (s.node f).size in
        let newsize = add_size old len in
        if ltb arena_size (add_size s.aoff newsize) then (negsuc 1, s) else (
          pos 0,
          record s {
            node =
                update s.node f (record (s.node f) { contents = in_arena s.aoff; size = newsize });
            arena =
                copy_in len
                  (if old == 0
                    then s.arena
                    else copy_data old s.arena s.aoff mem (s.node f).contents)
                  (s.aoff + old) mem addr;
            aoff = add_size s.aoff newsize;
          },
        ))

-- `n` bytes read through a data pointer, in the arena or outside it.
unfoldable pub read_data : Memory → Memory → DataPtr → ℕ → List ℕ
read_data arena mem null n = []
read_data arena mem (in_arena a) n = bytes arena a n
read_data arena mem (outside a) n = bytes mem a n

-- The bytes that are copied out; their number is what the function returns.
unfoldable pub fs_read : Fs → Memory → Option ℕ → ℕ → List ℕ
unfolding read_data
fs_read s mem none max = []
fs_read s mem (some f) max =
    let n = s.node f in
    if not (is_file n.type) || is_null n.contents
    then []
    else read_data s.arena mem n.contents (if ltb n.size max then n.size else max)

-- The contents are copied before `add_child` links the node.
unfoldable pub fs_clone_file : Fs → Memory → Option ℕ → Option ℕ → Str → Option ℕ × Fs
unfolding take_node copy_data
fs_clone_file s mem parent none newname = (none, s)
fs_clone_file s mem parent (some src) newname = elim (as_dir s parent) [
  | none ↦ (none, s)
  | some p ↦ if not (is_file (s.node src).type) then (none, s) else elim (find_in s p newname) [
    | some e ↦ (none, s)
    | none ↦
        if leb pool_size s.ni
        then (none, s)
        else let n = s.ni + 1 in
          let blank = record zero_node {
            name = kstrncpy (replicate 32 0) newname 31;
            type = file;
          } in
          let s1 = take_node s blank in
          let size = (s.node src).size in
          if size == 0
          then (some n, add_child s1 p n)
          else if ltb arena_size (add_size s.aoff size)
          then (none, s1)
          else (
            some n,
            add_child
                (record s1 {
                  arena = copy_data size s.arena s.aoff mem (s.node src).contents;
                  node =
                      update s1.node n (record blank { contents = in_arena s.aoff; size = size });
                  aoff = add_size s.aoff size;
                })
                p n,
          )
  ]
]
