-- ===== src/Fs/Write.antt =====
-- `fs_write`, `fs_read` and `fs_clone_file` on the contents of files.
pub mod Append
pub mod Read
mod Tests
use snowkernel.Base.{
  ℕ, zero, suc, ◌+◌, ◌-◌, ◌%◌, ◌^◌, ◌≤◌, ◌<◌, Bool, true, false, not, ◌&&◌, ◌||◌, Option, none,
  some, ◌==◌, ltb, leb, if◌then◌else◌, if_elim, update, update_self, update_ne, List, [], ◌∷◌, ◌++◌,
  length, All, All_map, ◌≡◌, ◌≢◌, refl, sym, ap, ap₂, ◌∙◌, arith, Bool-cases, Option-cases, inl,
  inr, ==→eq, ==→ne, eq→==, ne→==, subst, lt→ltb, le→ltb, min, take,
}
use snowkernel.Base.Int.{ℤ, pos, negsuc}
use snowkernel.Fs.Defs.{
  Fs, Node, NodeType, DataPtr, file, null, in_arena, outside, is_file, arena_size,
}
use snowkernel.Fs.Data.{
  Memory, add_size, copy_in, copy_within, copy_data, bytes, read_data, fs_write, fs_read,
}
use snowkernel.Fs.Contents.{
  Within, bytes_below, bytes-add, bytes-copy_in, bytes-copy_data, copy_data_below, copy_in_below,
}

-- The offset is inside the arena, and every node's contents lie below it.
pub record IsArena (s : Fs) : Type 0 where
  pub used : s.aoff ≤ arena_size
  pub below : (f : ℕ) → Within (s.node f).contents (s.node f).size s.aoff

-- The bytes of the node `f`, when the memory outside is `mem`.
abbrev pub content : Fs → Memory → ℕ → List ℕ
content s mem f = read_data s.arena mem (s.node f).contents (s.node f).size

Within-mono : (d : DataPtr) (n k m : ℕ) → k ≤ m → Within d n k → Within d n m
Within-mono null n k m h w = w
Within-mono (in_arena a) n k m h w = omega arith
Within-mono (outside a) n k m h w = tt

read_below :
    (f g mem : Memory) (d : DataPtr) (n k : ℕ)
    → ((j : ℕ) → j < k → f j ≡ g j)
    → Within d n k
    → read_data f mem d n ≡ read_data g mem d n
unfolding read_data
read_below f g mem null n k h w = refl
read_below f g mem (in_arena a) n k h w = bytes_below f g k a n h w
read_below f g mem (outside a) n k h w = refl

-- A write has stored `bs` as the contents of `f`, whatever the outside memory becomes, and has left
-- the other nodes, their contents and the invariant alone.
pub record Stored (s : Fs) (mem : Memory) (f : ℕ) (bs : List ℕ) (s' : Fs) : Type 0 where
  pub holds : (mem' : Memory) → content s' mem' f ≡ bs
  pub others : (g : ℕ) → g ≢ f → s'.node g ≡ s.node g
  pub other_bytes : (g : ℕ) (mem' : Memory) → g ≢ f → content s' mem' g ≡ content s mem' g
  pub arena : IsArena s'
  pub count : s'.ni ≡ s.ni

-- The state with `n` bytes of new contents at the offset, the arena being `arena`.
abbrev placed : Fs → ℕ → ℕ → Memory → Fs
placed s f n arena = record s {
  node = update s.node f (record (s.node f) { contents = in_arena s.aoff; size = n });
  arena = arena;
  aoff = add_size s.aoff n;
}

module _ (s : Fs) (mem : Memory) (f n : ℕ) (arena : Memory) (bs : List ℕ) (v : IsArena s)
    (room : s.aoff + n ≤ arena_size) (same : (j : ℕ) → j < s.aoff → arena j ≡ s.arena j)
    (new : bytes arena s.aoff n ≡ bs) where
  offset : add_size s.aoff n ≡ s.aoff + n
  offset = omega arith

  at_f : (placed s f n arena).node f ≡ record (s.node f) { contents = in_arena s.aoff; size = n }
  at_f = rw (eq→== f f refl)

  at_g : (g : ℕ) → g ≢ f → (placed s f n arena).node g ≡ s.node g
  at_g g ne = rw (ne→== g f ne)

  below_after :
      (g : ℕ)
      → Within
          ((placed s f n arena).node g).contents
          ((placed s f n arena).node g).size
          (add_size s.aoff n)
  below_after g = elim (Bool-cases (g == f)) [
    | inl e ↦ rw (e, offset) (omega arith)
    | inr e ↦
        rw (e, offset)
          (Within-mono (s.node g).contents (s.node g).size s.aoff (s.aoff + n) (omega arith)
            (v.below g))
  ]

  placed-Stored : Stored s mem f bs (placed s f n arena)
  unfolding read_data
  placed-Stored = record {
    holds = λ mem'. rw at_f new;
    others = at_g;
    other_bytes = λ g mem' ne.
        rw (ne→== g f ne) (
          read_below arena s.arena mem' (s.node g).contents (s.node g).size s.aoff same
            (v.below g));
    arena = record { used = rw offset room; below = below_after };
    count = refl;
  }

module _ (s : Fs) (mem : Memory) (f addr len : ℕ) (v : IsArena s)
    (isf : is_file (s.node f).type ≡ true) where
  -- Overwriting a file, where the arena has room: the call returns 0 and the file holds the bytes.
  pub fs_write-Stored :
      s.aoff + len ≤ arena_size
      → ((fs_write s mem (some f) addr len false).0 ≡ pos 0)
        × Stored s mem f (bytes mem addr len) (fs_write s mem (some f) addr len false).1
  unfolding fs_write
  fs_write-Stored room =
      rw (isf, le→ltb arena_size (add_size s.aoff len) (omega arith))
        (
          refl,
          placed-Stored s mem f len (copy_in len s.arena s.aoff mem addr) (bytes mem addr len) v
              room (λ j h. copy_in_below len s.arena s.aoff mem addr j h)
              (bytes-copy_in len s.arena s.aoff mem addr),
        )
