-- ===== src/Fs/Ops.antt =====
-- The operations of src/fs/fs.c on the directory tree. Each returns the pointer that the function
-- returns, `none` being the null pointer, and the file system after it. A null `name` is not
-- modelled: `find_in` would read through it.
use snowkernel.Base.{
  ℕ, zero, suc, ◌+◌, Option, none, some, ◌==◌, leb, if◌then◌else◌, update, List, [], ◌∷◌, replicate,
}
use snowkernel.Base.Int.{ℤ, pos, negsuc}
use snowkernel.Str.{Str, str_eq, kstrncpy}
use snowkernel.Fs.Defs.{
  Fs, Node, NodeType, dir, file, chr, null, DataPtr, zero_node, is_file, is_chr, as_dir, pool_size,
  arena_size, find_in, add_child,
}

-- The loop of `fs_mkdir` that copies the name, with `31 - j` rounds left, and the terminator.
unfoldable pub copy_name : List ℕ → Str → ℕ → List ℕ
copy_name [] s k = []
copy_name (x ∷ d) s zero = 0 ∷ d
copy_name (x ∷ d) [] (suc k) = 0 ∷ d
copy_name (x ∷ d) (c ∷ s) (suc k) = if c == 0 then 0 ∷ d else c ∷ copy_name d s k

-- `&nodes[ni++]`, set to `n`.
unfoldable pub take_node : Fs → Node → Fs
take_node s n = record s { node = update s.node (s.ni + 1) n; ni = s.ni + 1 }

unfoldable pub fs_mkdir : Fs → Option ℕ → Str → Option ℕ × Fs
unfolding copy_name take_node
fs_mkdir s parent name = elim (as_dir s parent) [
  | none ↦ (none, s)
  | some p ↦ elim (find_in s p name) [
    | some c ↦ (none, s)
    | none ↦
        if leb pool_size s.ni
        then (none, s)
        else let n = s.ni + 1 in
          let s1 = take_node s (record zero_node {
            name = copy_name (replicate 32 0) name 31;
            type = dir;
            parent = some p;
            sibling = (s.node p).child;
          }) in
          (some n, record s1 { node = update s1.node p (record (s1.node p) { child = some n }) })
  ]
]

-- A node of the pool with a name and a type, put first among the children of `p`.
unfoldable pub new_child : Fs → ℕ → Str → NodeType → DataPtr → Option ℕ × Fs
unfolding take_node
new_child s p name t devptr =
    if leb pool_size s.ni
    then (none, s)
    else let n = s.ni + 1 in
      let s1 = take_node s (record zero_node {
        name = kstrncpy (replicate 32 0) name 31;
        type = t;
        contents = devptr;
      }) in
      (some n, add_child s1 p n)

unfoldable pub fs_create_file : Fs → Option ℕ → Str → Option ℕ × Fs
unfolding new_child
fs_create_file s parent name = elim (as_dir s parent) [
  | none ↦ (none, s)
  | some p ↦ elim (find_in s p name) [
    | some e ↦ (if is_file (s.node e).type then some e else none, s)
    | none ↦ new_child s p name file null
  ]
]

unfoldable pub fs_create_chardev : Fs → Option ℕ → Str → DataPtr → Option ℕ × Fs
unfolding new_child
fs_create_chardev s parent name devptr = elim (as_dir s parent) [
  | none ↦ (none, s)
  | some p ↦ elim (find_in s p name) [
    | some e ↦ (if is_chr (s.node e).type then some e else none, s)
    | none ↦ new_child s p name chr devptr
  ]
]

-- The loop of `fs_unlink` at the child `c`, whose predecessor is `prev`. The fuel is as in
-- `find_from`.
unfoldable pub unlink_from : ℕ → Fs → ℕ → Option ℕ → Option ℕ → Str → Option ℕ × Fs
unlink_from zero s p prev c name = (none, s)
unlink_from (suc fuel) s p prev none name = (none, s)
unlink_from (suc fuel) s p prev (some c) name =
    let rest = unlink_from fuel s p (some c) (s.node c).sibling name in
    let next = (s.node c).sibling in
    let cut : ℕ → Node = elim prev [
      | some q ↦ update s.node q (record (s.node q) { sibling = next })
      | none ↦ update s.node p (record (s.node p) { child = next })
    ] in
    if str_eq (s.node c).name name
    then (
      some c,
      record s { node = update cut c (record (cut c) { parent = none; sibling = none }) },
    )
    else rest

unfoldable pub fs_unlink : Fs → Option ℕ → Str → Option ℕ × Fs
unfolding unlink_from
fs_unlink s parent name = elim (as_dir s parent) [
  | none ↦ (none, s)
  | some p ↦ unlink_from (pool_size + 1) s p none (s.node p).child name
]

-- The result 0, -1 or -2.
unfoldable pub fs_rename : Fs → Option ℕ → Str → Str → ℤ × Fs
fs_rename s parent oldn newn = elim (as_dir s parent) [
  | none ↦ (negsuc 0, s)
  | some p ↦ elim (find_in s p oldn) [
    | none ↦ (negsuc 0, s)
    | some n ↦ elim (find_in s p newn) [
      | some e ↦ (negsuc 1, s)
      | none ↦ (
        pos 0,
        record s {
          node = update s.node n (record (s.node n) { name = kstrncpy (s.node n).name newn 31 });
        },
      )
    ]
  ]
]

-- The three numbers of `fs_stats`.
unfoldable pub fs_stats : Fs → ℕ × ℕ × ℕ
fs_stats s = (s.ni, s.aoff, arena_size)
