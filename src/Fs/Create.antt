-- ===== src/Fs/Create.antt =====
-- `fs_mkdir`, `fs_create_file` and `fs_create_chardev`: every branch, and the tree after it.
pub mod Others
use snowkernel.Base.{
  ℕ, zero, suc, ◌+◌, ◌-◌, ◌≤◌, ◌<◌, Bool, true, false, Option, none, some, ◌==◌, leb, if◌then◌else◌,
  if_elim, update, update_self, update_ne, List, [], ◌∷◌, drop, length, All, All_map, ◌≡◌, ◌≢◌,
  refl, sym, ap, ◌∙◌, arith, Bool-cases, Option-cases, inl, inr, ==→eq, ==→ne, eq→==, ne→==, take,
  replicate, subst,
}
use snowkernel.Str.{Str, cstr, str_eq, kstrncpy}
use snowkernel.Str.Copy.{cstr-kstrncpy}
use snowkernel.Fs.Defs.{
  Fs, Node, NodeType, DataPtr, dir, file, chr, null, find_in, pool_size, add_child, zero_node,
  is_dir, is_file, is_chr, as_dir,
}
use snowkernel.Fs.Ops.{copy_name, take_node, fs_mkdir, new_child, fs_create_file, fs_create_chardev}
use snowkernel.Fs.Tree.{IsTree, first_named, find_in-first_named}
use snowkernel.Fs.Link.{Linked, linked_kids, Linked-IsTree}

cstr-copy_name :
    (d : List ℕ) (s : Str) (k : ℕ) → k < length d → cstr (copy_name d s k) ≡ take k (cstr s)
unfolding copy_name
cstr-copy_name [] s k h = absurd (omega arith)
cstr-copy_name (x ∷ d) s zero h = refl
cstr-copy_name (x ∷ d) [] (suc k) h = refl
cstr-copy_name (x ∷ d) (c ∷ s) (suc k) h = ground (arith, cstr-copy_name d s k)

-- The state that `fs_mkdir` leaves when it makes a directory.
abbrev made : Fs → ℕ → Str → Fs
made s p name =
    let s1 = take_node s (record zero_node {
      name = copy_name (replicate 32 0) name 31;
      type = dir;
      parent = some p;
      sibling = (s.node p).child;
    }) in
    record s1 { node = update s1.node p (record (s1.node p) { child = some (s.ni + 1) }) }

module _ (s : Fs) (p : ℕ) (name : Str) (in_pool : p ≤ s.ni) where
  fresh_ne : (p == s.ni + 1) ≡ false
  fresh_ne = ne→== _ _ (omega arith)

  new_ne : (s.ni + 1 == p) ≡ false
  new_ne = ne→== _ _ (omega arith)

  self_eq : (s.ni + 1 == s.ni + 1) ≡ true
  self_eq = eq→== _ _ refl

  p_eq : (p == p) ≡ true
  p_eq = eq→== _ _ refl

  module _ (t : NodeType) (devptr : DataPtr) (room : leb pool_size s.ni ≡ false) where
    pub new_child-some : (new_child s p name t devptr).0 ≡ some (s.ni + 1)
    unfolding new_child
    new_child-some = rw room

    pub new_child-Linked : Linked s p name t (new_child s p name t devptr).1
    unfolding new_child add_child
    new_child-Linked = rw room (record {
      new = record zero_node {
        name = kstrncpy (replicate 32 0) name 31;
        type = t;
        parent = some p;
        sibling = (s.node p).child;
      };
      count = refl;
      at_new = rw (new_ne, self_eq, fresh_ne);
      new_type = refl;
      new_name = cstr-kstrncpy (replicate 32 0) name 31 (omega arith) refl;
      new_parent = refl;
      new_sibling = refl;
      new_child = refl;
      new_data = refl;
      new_size = refl;
      at_parent = rw (p_eq, fresh_ne);
      others = λ x n q. rw (ne→== x (s.ni + 1) n, ne→== x p q);
      arena = refl;
      offset = refl;
    })

  fs_mkdir-Linked : Linked s p name dir (made s p name)
  unfolding take_node
  fs_mkdir-Linked = record {
    new = record zero_node {
      name = copy_name (replicate 32 0) name 31;
      type = dir;
      parent = some p;
      sibling = (s.node p).child;
    };
    count = refl;
    at_new = rw (new_ne, self_eq);
    new_type = refl;
    new_name = cstr-copy_name (replicate 32 0) name 31 (omega arith);
    new_parent = refl;
    new_sibling = refl;
    new_child = refl;
    new_data = refl;
    new_size = refl;
    at_parent = rw (p_eq, fresh_ne);
    others = λ x n q. rw (ne→== x (s.ni + 1) n, ne→== x p q);
    arena = refl;
    offset = refl;
  }

-- What a creating call has done: the parent pointer is no directory, the name is there already, the
-- pool is used up, or a new node of the type is the parent's first child.
pub data Creates (s : Fs) (kids : ℕ → List ℕ) (t : NodeType) (name : Str) (reuse : ℕ → Option ℕ)
    : Option ℕ → Option ℕ × Fs → Type 0 where
  no_dir :
      {parent : Option ℕ} → as_dir s parent ≡ none → Creates s kids t name reuse parent (none, s)
  there :
      {parent : Option ℕ} (p e : ℕ)
      → as_dir s parent ≡ some p
      → first_named s.node (kids p) name ≡ some e
      → Creates s kids t name reuse parent (reuse e, s)
  full :
      {parent : Option ℕ} (p : ℕ)
      → as_dir s parent ≡ some p
      → first_named s.node (kids p) name ≡ none
      → pool_size ≤ s.ni
      → Creates s kids t name reuse parent (none, s)
  new :
      {parent : Option ℕ} {s' : Fs} (p : ℕ)
      → as_dir s parent ≡ some p
      → first_named s.node (kids p) name ≡ none
      → s.ni < pool_size
      → Linked s p name t s'
      → Creates s kids t name reuse parent (some (s.ni + 1), s')

-- A parent pointer that leads to a node of the pool or to the root.
abbrev pub InPool : Fs → Option ℕ → Type 0
InPool s none = Unit
InPool s (some p) = p ≤ s.ni

pub as_dir-eq : (s : Fs) (parent : Option ℕ) (p : ℕ) → as_dir s parent ≡ some p → parent ≡ some p
as_dir-eq s none p h = cc
as_dir-eq s (some q) p h = ground (arith, h)

pub as_dir-is_dir :
    (s : Fs) (parent : Option ℕ) (p : ℕ) → as_dir s parent ≡ some p → is_dir (s.node p).type ≡ true
as_dir-is_dir s none p h = cc
as_dir-is_dir s (some q) p h = elim (Bool-cases (is_dir (s.node q).type)) [
  | inl e ↦
      let same : q ≡ p = ground (arith, h) in ap (λ (x : ℕ). is_dir (s.node x).type) (sym same) ∙ e
  | inr e ↦ absurd (ground (arith, h, e))
]

pub as_dir-InPool :
    (s : Fs) (parent : Option ℕ) (p : ℕ) → as_dir s parent ≡ some p → InPool s parent → p ≤ s.ni
as_dir-InPool s parent p h =
    subst (λ (o : Option ℕ). InPool s o → p ≤ s.ni) (sym (as_dir-eq s parent p h)) (λ v. v)

-- What a file's creation gives where the name is taken: the node, if it is a file too.
abbrev pub reuse_file : Fs → ℕ → Option ℕ
reuse_file s e = if is_file (s.node e).type then some e else none

abbrev pub reuse_chr : Fs → ℕ → Option ℕ
reuse_chr s e = if is_chr (s.node e).type then some e else none

module _ (s : Fs) (kids : ℕ → List ℕ) (parent : Option ℕ) (name : Str) (t : IsTree s kids)
    (ptr : InPool s parent) where
  found : (p : ℕ) (r : Option ℕ) → find_in s p name ≡ r → first_named s.node (kids p) name ≡ r
  found p r e = sym (find_in-first_named s kids p name t) ∙ e

  in_range : (p : ℕ) → as_dir s parent ≡ some p → p ≤ s.ni
  in_range p e = as_dir-InPool s parent p e ptr

  new_child-Creates :
      (p : ℕ) (ty : NodeType) (devptr : DataPtr) (reuse : ℕ → Option ℕ)
      → as_dir s parent ≡ some p
      → find_in s p name ≡ none
      → Creates s kids ty name reuse parent (new_child s p name ty devptr)
  new_child-Creates p ty devptr reuse d e = elim (Bool-cases (leb pool_size s.ni)) [
    | inl f ↦ unfold new_child in rw f (full p d (found p none e) (ground (arith, f)))
    | inr r ↦
        subst
          (λ (o : Option ℕ).
            Creates s kids ty name reuse parent (o, (new_child s p name ty devptr).1))
          (sym (new_child-some s p name (in_range p d) ty devptr r))
          (new p d (found p none e) (ground (arith, r))
            (new_child-Linked s p name (in_range p d) ty devptr r))
  ]

  -- `fs_create_file` on every branch: it refuses a parent that is no directory, gives back a file
  -- that has the name already and refuses another node of that name, refuses when the pool is used
  -- up, and otherwise makes an empty file the first child.
  pub fs_create_file-Creates :
      Creates s kids file name (reuse_file s) parent (fs_create_file s parent name)
  fs_create_file-Creates = elim (Option-cases (as_dir s parent)) [
    | inl d ↦ unfold fs_create_file in rw (d, fs_create_file) (no_dir d)
    | inr (p, d) ↦ elim (Option-cases (find_in s p name)) [
      | inl e ↦
          unfold fs_create_file in
          rw (d, fs_create_file, e) (new_child-Creates p file null (reuse_file s) d e)
      | inr (c, e) ↦
          unfold fs_create_file in rw (d, fs_create_file, e) (there p c d (found p (some c) e))
    ]
  ]
