-- ===== src/Fs/Defs.antt =====
-- `node_t`, the static variables of src/fs/fs.c, and its two helpers.
use snowkernel.Base.{
  ℕ, zero, suc, ◌+◌, Bool, true, false, Option, none, some, if◌then◌else◌, update, List, ◌∷◌,
  replicate,
}
use snowkernel.Str.{Str, str_eq}

-- `node_type_t`.
pub data NodeType : Type 0 where
  dir file chr : NodeType

-- What the field `data` points to: nothing, the arena from an offset on, or an address outside the
-- file system (a caller's buffer, an embedded image or a device).
pub data DataPtr : Type 0 where
  null : DataPtr
  in_arena : ℕ → DataPtr
  outside : ℕ → DataPtr

-- `node_t`. A pointer to a node is its place in the pool: 0 is `root`, and `i + 1` is `nodes[i]`.
pub record Node : Type 0 where
  pub name : List ℕ
  pub type : NodeType
  pub parent : Option ℕ
  pub sibling : Option ℕ
  pub child : Option ℕ
  pub contents : DataPtr
  pub size : ℕ

pub record Fs : Type 0 where
  pub node : ℕ → Node
  pub cwd : ℕ
  pub ni : ℕ
  pub arena : ℕ → ℕ
  pub aoff : ℕ

abbrev pub root : ℕ
root = 0

abbrev pub pool_size : ℕ
pool_size = 512

abbrev pub arena_size : ℕ
arena_size = 131072

-- All bytes zero: `NODE_DIR` is 0, and so are the null pointers.
abbrev pub zero_node : Node
zero_node = record {
  name = replicate 32 0;
  type = dir;
  parent = none;
  sibling = none;
  child = none;
  contents = null;
  size = 0;
}

abbrev pub is_dir : NodeType → Bool
is_dir dir = true
is_dir _ = false

abbrev pub is_file : NodeType → Bool
is_file file = true
is_file _ = false

abbrev pub is_chr : NodeType → Bool
is_chr chr = true
is_chr _ = false

-- `!parent || parent->type != NODE_DIR` fails: the directory that the pointer leads to.
abbrev pub as_dir : Fs → Option ℕ → Option ℕ
as_dir s none = none
as_dir s (some p) = if is_dir (s.node p).type then some p else none

-- The loop of `find_in` from the child `c` on. The fuel is one more than the pool has nodes, so a
-- chain of different nodes ends before it.
unfoldable pub find_from : ℕ → Fs → Option ℕ → Str → Option ℕ
find_from zero s c name = none
find_from (suc fuel) s none name = none
find_from (suc fuel) s (some c) name =
    let rest = find_from fuel s (s.node c).sibling name in
    if str_eq (s.node c).name name then some c else rest

unfoldable pub find_in : Fs → ℕ → Str → Option ℕ
find_in s p name = find_from (pool_size + 1) s (s.node p).child name

unfoldable pub add_child : Fs → ℕ → ℕ → Fs
add_child s p n =
    let linked = update s.node n (record (s.node n) {
      parent = some p;
      sibling = (s.node p).child;
      child = none;
      contents = null;
      size = 0;
    }) in
    record s { node = update linked p (record (linked p) { child = some n }) }

-- Only the root is cleared; the pool and the arena start out as zero.
unfoldable pub fs_init : Fs → Fs
fs_init s = record s {
  node = update s.node root (record zero_node { name = b'/' ∷ replicate 31 0 });
  cwd = root;
}

unfoldable pub fs_set_cwd : Fs → Option ℕ → Fs
fs_set_cwd s n = elim (as_dir s n) [ none ↦ s | some p ↦ record s { cwd = p } ]

unfoldable pub fs_find_child : Fs → Option ℕ → Str → Option ℕ
fs_find_child s parent name = elim (as_dir s parent) [ none ↦ none | some p ↦ find_in s p name ]
