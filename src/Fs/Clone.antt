-- ===== src/Fs/Clone.antt =====
-- The tree after `fs_clone_file`, on every branch.
use snowkernel.Base.{
  ℕ, ◌+◌, ◌≤◌, ◌<◌, Option, none, some, not, ◌==◌, leb, ltb, if◌then◌else◌, if_elim, update, List,
  All_map, All_both, update_self, update_ne, ==→ne, ◌≢◌, true, false, ap, ◌≡◌, refl, sym, ◌∙◌,
  arith, Bool-cases, Option-cases, inl, inr, ==→eq, eq→==, ne→==, replicate,
}
use snowkernel.Str.{Str, kstrncpy}
use snowkernel.Str.Copy.{cstr-kstrncpy}
use snowkernel.Fs.Defs.{
  Fs, Node, DataPtr, file, null, in_arena, find_in, pool_size, arena_size, add_child, zero_node,
  is_file, is_dir, as_dir,
}
use snowkernel.Fs.Ops.{take_node}
use snowkernel.Fs.Data.{Memory, add_size, copy_data, fs_clone_file}
use snowkernel.Fs.Tree.{IsTree, Chain-frame}
use snowkernel.Fs.Link.{Linked, Linked-IsTree, linked_kids}
use snowkernel.Fs.Create.{InPool, as_dir-InPool, as_dir-is_dir}
use snowkernel.Fs.Same.{SameLinks-IsTree, HasTree}

-- The state that a call leaves has a tree.
abbrev AfterTree : Option ℕ × Fs → Type 0
AfterTree out = HasTree out.1

module _ (s : Fs) (kids : ℕ → List ℕ) (t : IsTree s kids) (name : Str)
    (room : s.ni < pool_size) where
  abbrev blank : Node
  blank = record zero_node { name = kstrncpy (replicate 32 0) name 31; type = file }

  -- A node that was taken from the pool and is linked nowhere.
  taken : Fs
  taken = take_node s blank

  taken-old : (x : ℕ) → x ≤ s.ni → taken.node x ≡ s.node x
  unfolding taken take_node
  taken-old x h = update_ne s.node (s.ni + 1) x blank (λ e. omega (arith, h, e))

  taken-IsTree : IsTree taken kids
  unfolding taken take_node
  taken-IsTree = record {
    chains = λ q. elim (Bool-cases (q == s.ni + 1)) [
      | inl e ↦ rw (t.unused q (let same = ==→eq q (s.ni + 1) e in omega (arith, same)), e) refl
      | inr e ↦ rw e (
          Chain-frame s.node taken.node (s.node q).child (kids q)
            (All_map _ _ (kids q) (λ x h. ap (λ (m : Node). m.sibling) (taken-old x h.1))
              (t.below q))
            (t.chains q))
    ];
    below = λ q. All_map _ _ (kids q) (λ x h. (h.0, omega (arith, h.1))) (t.below q);
    parents = λ q.
        All_both _ _ _ (kids q) (λ x h was. ap (λ (m : Node). m.parent) (taken-old x h.1) ∙ was)
          (t.below q) (t.parents q);
    dirs = λ q.
        All_both _ _ _ (kids q)
          (λ x b d. ap (λ (m : Node). is_dir m.type) (taken-old q (omega (arith, b.0, b.1))) ∙ d)
          (t.below q) (t.dirs q);
    home = λ x q e. elim (Bool-cases (x == s.ni + 1)) [
      | inl n ↦ absurd (ground (arith, n, e))
      | inr n ↦ t.home x q (
          ap (λ (m : Node). m.parent)
            (sym (update_ne s.node (s.ni + 1) x blank (==→ne x (s.ni + 1) n)))
          ∙ e)
    ];
    distinct = t.distinct;
    fits = λ q. let h = t.fits q in omega (arith, h);
    unused = λ q h. t.unused q (omega (arith, h));
    pool = omega (arith, room);
  }

  -- A node that was taken from the pool and filled in, before it is linked into `p`.
  module _ (f : Fs) (p : ℕ) (copy : DataPtr) (size : ℕ) (in_pool : p ≤ s.ni)
      (isd : is_dir (s.node p).type ≡ true) (count : f.ni ≡ s.ni + 1)
      (at_new : f.node (s.ni + 1) ≡ record blank { contents = copy; size = size })
      (old : (x : ℕ) → x ≢ s.ni + 1 → f.node x ≡ s.node x) where
    abbrev before : Fs
    before = record s { arena = f.arena; aoff = f.aoff }

    before-IsTree : IsTree before kids
    before-IsTree =
        SameLinks-IsTree s before kids
          (record {
            child = λ x. refl;
            sibling = λ x. refl;
            parent = λ x. refl;
            type = λ x. refl;
            count = refl;
          })
          t

    filled-Linked : Linked before p name file (add_child f p (s.ni + 1))
    unfolding add_child
    filled-Linked =
        let fresh : (p == s.ni + 1) ≡ false = ne→== _ _ (omega arith) in
        let new_ne : (s.ni + 1 == p) ≡ false = ne→== _ _ (omega arith) in
        let self : (s.ni + 1 == s.ni + 1) ≡ true = eq→== _ _ refl in
        let same : (p == p) ≡ true = eq→== _ _ refl in
        let old_p : f.node p ≡ s.node p = old p (==→ne _ _ fresh) in
        record {
          new = record blank { parent = some p; sibling = (s.node p).child };
          count = count;
          at_new = rw (new_ne, self, at_new, old_p) refl;
          new_type = refl;
          new_name = cstr-kstrncpy (replicate 32 0) name 31 (omega arith) refl;
          new_parent = refl;
          new_sibling = refl;
          new_child = refl;
          new_data = refl;
          new_size = refl;
          at_parent = rw (same, fresh, old_p) refl;
          others = λ x n q. rw (ne→== x (s.ni + 1) n, ne→== x p q) (old x n);
          arena = refl;
          offset = refl;
        }

    filled-HasTree : HasTree (add_child f p (s.ni + 1))
    unfolding HasTree
    filled-HasTree = (
      linked_kids before kids p,
      Linked-IsTree before kids p name file _ before-IsTree in_pool isd room filled-Linked,
    )

  -- What `fs_clone_file` does once the node is taken.
  made-HasTree :
      (p : ℕ) (mem : Memory) (size : ℕ) (from : DataPtr)
      → p ≤ s.ni
      → is_dir (s.node p).type ≡ true
      → AfterTree (
          (if size == 0
            then (some (s.ni + 1), add_child taken p (s.ni + 1))
            else if ltb arena_size (add_size s.aoff size)
            then (none, taken)
            else (
              some (s.ni + 1),
              add_child
                  (record taken {
                    arena = copy_data size s.arena s.aoff mem from;
                    node =
                        update taken.node
                          (s.ni + 1)
                          (record blank { contents = in_arena s.aoff; size = size });
                    aoff = add_size s.aoff size;
                  })
                  p
                  (s.ni + 1),
            )))
  unfolding HasTree taken take_node
  made-HasTree p mem size from in_pool isd =
      if_elim AfterTree (size == 0) _ _
        (λ _.
          filled-HasTree taken p null 0 in_pool isd refl (update_self s.node (s.ni + 1) blank)
            (λ x ne. update_ne s.node (s.ni + 1) x blank ne))
        λ _.
          if_elim AfterTree (ltb arena_size (add_size s.aoff size)) _ _ (λ _. (kids, taken-IsTree))
            λ _.
              filled-HasTree _ p (in_arena s.aoff) size in_pool isd refl
                (update_self taken.node (s.ni + 1) _)
                (λ x ne.
                  update_ne taken.node (s.ni + 1) x _ ne ∙ update_ne s.node (s.ni + 1) x blank ne)

-- A well-formed tree is one after `fs_clone_file` too: also where the arena has no room, and a node
-- is taken from the pool that hangs nowhere.
pub fs_clone_file-HasTree :
    (s : Fs) (mem : Memory) (parent src : Option ℕ) (name : Str)
    → InPool s parent
    → HasTree s
    → HasTree (fs_clone_file s mem parent src name).1
unfolding fs_clone_file taken HasTree
fs_clone_file-HasTree s mem parent none name ptr v = v
fs_clone_file-HasTree s mem parent (some src) name ptr v = elim (Option-cases (as_dir s parent)) [
  | inl d ↦ rw (d, fs_clone_file) v
  | inr (p, d) ↦
      rw (d, fs_clone_file)
        (if_elim AfterTree (not (is_file (s.node src).type)) _ _ (λ _. v)
          λ _. elim (Option-cases (find_in s p name)) [
            | inr (c, e) ↦ rw e v
            | inl e ↦ rw e (
                if_elim AfterTree (leb pool_size s.ni) _ _ (λ _. v)
                  λ room.
                    made-HasTree s v.0 v.1 name (ground (arith, room)) p mem (s.node src).size
                      (s.node src).contents (as_dir-InPool s parent p d ptr)
                      (as_dir-is_dir s parent p d))
          ])
]
