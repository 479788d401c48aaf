-- ===== src/Fs/Disk.antt =====
-- The other backend, src/fs/fs_disk.c: the same interface on a pool and an arena of its own, which
-- the record `Fs` holds as well. `d_` stands before the names, as it does before the file's statics.

pub mod Agree
pub mod Calls
mod Tests
use snowkernel.Base.{
  ℕ, zero, suc, ◌+◌, ◌%◌, ◌^◌, Bool, true, false, not, ◌||◌, Option, none, some, ◌==◌, leb, ltb,
  if◌then◌else◌, update, List, [], ◌∷◌, ◌++◌, replicate,
}
use snowkernel.Base.Int.{ℤ, pos, negsuc}
use snowkernel.Str.{Str, str_eq, kstrncpy}
use snowkernel.Fs.Defs.{
  Fs, Node, NodeType, dir, file, DataPtr, null, in_arena, zero_node, root, is_file, as_dir,
  pool_size, arena_size,
}
use snowkernel.Fs.Data.{Memory, add_size, copy_in, copy_data, read_data, is_null}
use snowkernel.Fs.Path.{Looked, at, nowhere, fault, of_ptr, first, walk_null}

unfoldable pub d_add_child : Fs → ℕ → ℕ → Fs
d_add_child s p n =
    let linked = update s.node n (record (s.node n) {
      parent = some p;
      sibling = (s.node p).child;
      child = none;
      contents = null;
      size = 0;
    }) in
    record s { node = update linked p (record (linked p) { child = some n }) }

-- The loop of `d_find_in` from the child `c` on, with the fuel of the other backend's loop.
unfoldable pub d_find_from : ℕ → Fs → Option ℕ → Str → Option ℕ
d_find_from zero s c name = none
d_find_from (suc fuel) s none name = none
d_find_from (suc fuel) s (some c) name =
    let rest = d_find_from fuel s (s.node c).sibling name in
    if str_eq (s.node c).name name then some c else rest

unfoldable pub d_find_in : Fs → ℕ → Str → Option ℕ
unfolding d_find_from
d_find_in s p name = d_find_from (pool_size + 1) s (s.node p).child name

unfoldable pub d_fs_init : Fs → Fs
d_fs_init s = record s {
  node = update s.node root (record zero_node { name = b'/' ∷ replicate 31 0 });
  cwd = root;
}

unfoldable pub d_fs_set_cwd : Fs → Option ℕ → Fs
d_fs_set_cwd s n = elim (as_dir s n) [ none ↦ s | some p ↦ record s { cwd = p } ]

-- `&d_nodes[d_ni++]`, cleared, with a name and a type, and linked below `p`.
unfoldable pub d_new_child : Fs → ℕ → Str → NodeType → Option ℕ × Fs
unfolding d_add_child
d_new_child s p name t =
    if leb pool_size s.ni
    then (none, s)
    else let n = s.ni + 1 in
      let blank = record zero_node { name = kstrncpy (replicate 32 0) name 31; type = t } in
      (some n, d_add_child (record s { node = update s.node n blank; ni = n }) p n)

unfoldable pub d_fs_mkdir : Fs → Option ℕ → Str → Option ℕ × Fs
unfolding d_find_in d_new_child
d_fs_mkdir s parent name = elim (as_dir s parent) [
  | none ↦ (none, s)
  | some p ↦ elim (d_find_in s p name) [ some c ↦ (none, s) | none ↦ d_new_child s p name dir ]
]

unfoldable pub d_fs_create_file : Fs → Option ℕ → Str → Option ℕ × Fs
unfolding d_find_in d_new_child
d_fs_create_file s parent name = elim (as_dir s parent) [
  | none ↦ (none, s)
  | some p ↦ elim (d_find_in s p name) [
    | some e ↦ (if is_file (s.node e).type then some e else none, s)
    | none ↦ d_new_child s p name file
  ]
]

-- One component of the path.
unfoldable pub d_enter : Fs → ℕ → Str → Option ℕ
unfolding d_find_in
d_enter s cur tok =
    if str_eq tok []
    then some cur
    else if str_eq tok (b'.' ∷ [])
    then some cur
    else if str_eq tok (b'.' ∷ b'.' ∷ [])
    then elim (s.node cur).parent [ none ↦ some cur | some p ↦ some p ]
    else d_find_in s cur tok

-- The loop over `tmp`, as in the other backend.
unfoldable pub d_walk : Fs → ℕ → Str → List ℕ → Looked
unfolding d_enter
d_walk s cur tok [] = fault
d_walk s cur tok (c ∷ rest) = elim (c == b'/' || c == 0) [
  | true ↦ elim (d_enter s cur tok) [
    | none ↦ nowhere
    | some cur' ↦ elim (c == 0) [ true ↦ at cur' | false ↦ d_walk s cur' [] rest ]
  ]
  | false ↦ d_walk s cur (tok ++ c ∷ []) rest
]

-- The walk from a null pointer is the other backend's, whose text is the same.
unfoldable pub d_walk_from : Fs → List ℕ → Option ℕ → Str → Looked
unfolding d_walk
d_walk_from s junk none path = walk_null [] (kstrncpy junk path 127)
d_walk_from s junk (some p) path = d_walk s p [] (kstrncpy junk path 127)

unfoldable pub d_fs_lookup : Fs → List ℕ → Option ℕ → Option Str → Looked
unfolding d_walk_from
d_fs_lookup s junk parent none = of_ptr parent
d_fs_lookup s junk parent (some path) =
    if first path == 0
    then of_ptr parent
    else d_walk_from s junk (if first path == b'/' then some root else parent) path

-- An overwrite for which the arena has no room is refused too.
unfoldable pub d_fs_write : Fs → Memory → Option ℕ → ℕ → ℕ → Bool → ℤ × Fs
d_fs_write s mem none addr len append = (negsuc 0, s)
d_fs_write s mem (some f) addr len append =
    let old = (s.node f).size in
    let newsize = add_size old len in
    if not (is_file (s.node f).type)
    then (negsuc 0, s)
    else if not append
    then (if ltb arena_size (add_size s.aoff len) then (negsuc 1, s) else (
      pos 0,
      record s {
        node = update s.node f (record (s.node f) { contents = in_arena s.aoff; size = len });
        arena = copy_in len s.arena s.aoff mem addr;
        aoff = add_size s.aoff len;
      },
    ))
    else if ltb arena_size (add_size s.aoff newsize)
    then (negsuc 1, s)
    else (
      pos 0,
      record s {
        node = update s.node f (record (s.node f) { contents = in_arena s.aoff; size = newsize });
        arena =
            copy_in len
              (if old == 0 then s.arena else copy_data old s.arena s.aoff mem (s.node f).contents)
              (s.aoff + old) mem addr;
        aoff = add_size s.aoff newsize;
      },
    )

unfoldable pub d_fs_read : Fs → Memory → Option ℕ → ℕ → List ℕ
unfolding read_data
d_fs_read s mem none max = []
d_fs_read s mem (some f) max =
    let n = s.node f in
    if not (is_file n.type) || is_null n.contents
    then []
    else read_data s.arena mem n.contents (if ltb n.size max then n.size else max)

unfoldable pub d_fs_find_child : Fs → Option ℕ → Str → Option ℕ
unfolding d_find_in
d_fs_find_child s parent name = elim (as_dir s parent) [ none ↦ none | some p ↦ d_find_in s p name ]

-- The loop of `fs_unlink` at the child `c`, whose predecessor is `prev`.
unfoldable pub d_unlink_from : ℕ → Fs → ℕ → Option ℕ → Option ℕ → Str → Option ℕ × Fs
d_unlink_from zero s p prev c name = (none, s)
d_unlink_from (suc fuel) s p prev none name = (none, s)
d_unlink_from (suc fuel) s p prev (some c) name =
    let rest = d_unlink_from fuel s p (some c) (s.node c).sibling name in
    let next = (s.node c).sibling in
    let cut : ℕ → Node = elim prev [
      | some q ↦ update s.node q (record (s.node q) { sibling = next })
      | none ↦ update s.node p (record (s.node p) { child = next })
    ] in
    if str_eq (s.node c).name name
    then (
      some c,
      record s { node = update cut c (record (cut c) { parent = none; sibling = none }) },
    )
    else rest

unfoldable pub d_fs_unlink : Fs → Option ℕ → Str → Option ℕ × Fs
unfolding d_unlink_from
d_fs_unlink s parent name = elim (as_dir s parent) [
  | none ↦ (none, s)
  | some p ↦ d_unlink_from (pool_size + 1) s p none (s.node p).child name
]

unfoldable pub d_fs_rename : Fs → Option ℕ → Str → Str → ℤ × Fs
unfolding d_find_in
d_fs_rename s parent oldn newn = elim (as_dir s parent) [
  | none ↦ (negsuc 0, s)
  | some p ↦ elim (d_find_in s p oldn) [
    | none ↦ (negsuc 0, s)
    | some n ↦ elim (d_find_in s p newn) [
      | some e ↦ (negsuc 1, s)
      | none ↦ (
        pos 0,
        record s {
          node = update s.node n (record (s.node n) { name = kstrncpy (s.node n).name newn 31 });
        },
      )
    ]
  ]
]

-- The contents are copied before `d_add_child` links the node.
unfoldable pub d_fs_clone_file : Fs → Memory → Option ℕ → Option ℕ → Str → Option ℕ × Fs
unfolding d_find_in d_add_child
d_fs_clone_file s mem parent none newname = (none, s)
d_fs_clone_file s mem parent (some src) newname = elim (as_dir s parent) [
  | none ↦ (none, s)
  | some p ↦ if not (is_file (s.node src).type) then (none, s) else elim (d_find_in s p newname) [
    | some e ↦ (none, s)
    | none ↦
        if leb pool_size s.ni
        then (none, s)
        else let n = s.ni + 1 in
          let size = (s.node src).size in
          let blank = record zero_node {
            name = kstrncpy (replicate 32 0) newname 31;
            type = file;
          } in
          let s1 = record s { node = update s.node n blank; ni = n } in
          if size == 0
          then (some n, d_add_child s1 p n)
          else if ltb arena_size (add_size s.aoff size)
          then (none, s1)
          else (
            some n,
            d_add_child
                (record s1 {
                  node =
                      update s1.node n (record blank { contents = in_arena s.aoff; size = size });
                  arena = copy_data size s.arena s.aoff mem (s.node src).contents;
                  aoff = add_size s.aoff size;
                })
                p n,
          )
  ]
]

unfoldable pub d_fs_stats : Fs → ℕ × ℕ × ℕ
d_fs_stats s = (s.ni, s.aoff, arena_size)
