-- ===== src/Fs/Reach.antt =====
-- Whatever calls are made, in whatever order, the file system is a tree.
use snowkernel.Base.{
  ℕ, zero, suc, ◌+◌, ◌<◌, ◌≤◌, ◌≡◌, true, List, [], ◌∷◌, All, arith, Option, none, some, Bool, not,
  ◌==◌, ltb, if◌then◌else◌, if_elim, update, Option-cases, inl, inr, refl,
}
use snowkernel.Base.Int.{ℤ, pos, negsuc}
use snowkernel.Str.{Str}
use snowkernel.Fs.Defs.{
  Fs, DataPtr, dir, file, chr, in_arena, outside, is_file, as_dir, arena_size, find_in, fs_init,
  is_dir, root, fs_set_cwd,
}
use snowkernel.Fs.Ops.{fs_mkdir, fs_create_file, fs_create_chardev, fs_unlink, fs_rename}
use snowkernel.Fs.Data.{Memory, add_size, copy_in, copy_data, fs_write, fs_clone_file}
use snowkernel.Fs.Tree.{IsTree, IsIn, without}
use snowkernel.Fs.Create.{InPool, reuse_file, reuse_chr, fs_create_file-Creates}
use snowkernel.Fs.Create.Others.{fs_create_chardev-Creates, fs_mkdir-Creates}
use snowkernel.Fs.Names.{Creates-IsTree}
use snowkernel.Fs.Unlink.Tree.{fs_unlink_lem}
use snowkernel.Fs.Same.{SameLinks, SameLinks-refl, SameLinks-IsTree, relabel-SameLinks, HasTree}
use snowkernel.Fs.Clone.{fs_clone_file-HasTree}
use snowkernel.Fs.Start.{zeroed, no_kids, start-IsTree}

pub fs_write-SameLinks :
    (s : Fs) (mem : Memory) (f : Option ℕ) (addr len : ℕ) (append : Bool)
    → SameLinks s (fs_write s mem f addr len append).1
unfolding fs_write
fs_write-SameLinks s mem none addr len append = SameLinks-refl s
fs_write-SameLinks s mem (some f) addr len append =
    let P = λ (out : ℤ × Fs). SameLinks s out.1 in
    let old = (s.node f).size in
    let newsize = add_size old len in
    let put =
      λ (where_to : DataPtr) (size : ℕ). record (s.node f) { contents = where_to; size = size } in
    let far : ℤ × Fs = (pos 0, record s { node = update s.node f (put (outside addr) len) }) in
    let near : ℤ × Fs = (
      pos 0,
      record s {
        node = update s.node f (put (in_arena s.aoff) len);
        arena = copy_in len s.arena s.aoff mem addr;
        aoff = add_size s.aoff len;
      },
    ) in
    let kept = if old == 0 then s.arena else copy_data old s.arena s.aoff mem (s.node f).contents in
    let longer : ℤ × Fs = (
      pos 0,
      record s {
        node = update s.node f (put (in_arena s.aoff) newsize);
        arena = copy_in len kept (s.aoff + old) mem addr;
        aoff = add_size s.aoff newsize;
      },
    ) in
    let full = ltb arena_size (add_size s.aoff newsize) in
    let no_room = ltb arena_size (add_size s.aoff len) in
    let appended = if full then (negsuc 1, s) else longer in
    let written = if no_room then far else near in
    if_elim P (not (is_file (s.node f).type)) (negsuc 0, s)
      (if not append then written else appended) (λ _. SameLinks-refl s)
      (λ _.
        if_elim P (not append) written appended
          (λ _.
            if_elim P no_room far near
              (λ _.
                relabel-SameLinks s f (put (outside addr) len) s.arena s.aoff refl refl refl refl)
              (λ _.
                relabel-SameLinks s f (put (in_arena s.aoff) len)
                  (copy_in len s.arena s.aoff mem addr) (add_size s.aoff len) refl refl refl refl))
          (λ _.
            if_elim P full (negsuc 1, s) longer (λ _. SameLinks-refl s)
              (λ _.
                relabel-SameLinks s f (put (in_arena s.aoff) newsize)
                  (copy_in len kept (s.aoff + old) mem addr) (add_size s.aoff newsize) refl refl
                  refl refl)))

fs_rename-SameLinks :
    (s : Fs) (parent : Option ℕ) (oldn newn : Str) → SameLinks s (fs_rename s parent oldn newn).1
fs_rename-SameLinks s parent oldn newn = elim (Option-cases (as_dir s parent)) [
  | inl d ↦ unfold fs_rename in rw (d, fs_rename) (SameLinks-refl s)
  | inr (p, d) ↦ elim (Option-cases (find_in s p oldn)) [
    | inl e ↦ unfold fs_rename in rw (d, fs_rename, e) (SameLinks-refl s)
    | inr (n, e) ↦ elim (Option-cases (find_in s p newn)) [
      | inl g ↦
          unfold fs_rename in
          rw (d, fs_rename, e, g) (relabel-SameLinks s n _ s.arena s.aoff refl refl refl refl)
      | inr (m, g) ↦ unfold fs_rename in rw (d, fs_rename, e, g) (SameLinks-refl s)
    ]
  ]
]

fs_set_cwd-SameLinks : (s : Fs) (n : Option ℕ) → SameLinks s (fs_set_cwd s n)
fs_set_cwd-SameLinks s n = elim (Option-cases (as_dir s n)) [
  | inl d ↦ unfold fs_set_cwd in rw (d, fs_set_cwd) (SameLinks-refl s)
  | inr (p, d) ↦
      unfold fs_set_cwd in
      rw (d, fs_set_cwd)
        (record {
          child = λ x. refl;
          sibling = λ x. refl;
          parent = λ x. refl;
          type = λ x. refl;
          count = refl;
        })
]

fs_unlink-HasTree :
    (s : Fs) (parent : Option ℕ) (name : Str) → HasTree s → HasTree (fs_unlink s parent name).1
unfolding HasTree
fs_unlink-HasTree s parent name (kids, t) = elim (Option-cases (as_dir s parent)) [
  | inl d ↦ unfold fs_unlink in rw (d, fs_unlink) (kids, t)
  | inr (p, d) ↦
      (update kids p (without s.node (kids p) name), (fs_unlink_lem s kids parent p name t d).1)
]

-- One call that changes the file system. A directory that is given to a creating call is null or a
-- node that is in use; all other arguments are free.
pub data FsStep (s : Fs) : Fs → Type 0 where
  makes_dir :
      (parent : Option ℕ) (name : Str) → InPool s parent → FsStep s (fs_mkdir s parent name).1
  makes_file :
      (parent : Option ℕ) (name : Str) → InPool s parent → FsStep s (fs_create_file s parent name).1
  makes_device :
      (parent : Option ℕ) (name : Str) (at : DataPtr)
      → InPool s parent
      → FsStep s (fs_create_chardev s parent name at).1
  unlinks : (parent : Option ℕ) (name : Str) → FsStep s (fs_unlink s parent name).1
  renames : (parent : Option ℕ) (oldn newn : Str) → FsStep s (fs_rename s parent oldn newn).1
  writes :
      (mem : Memory) (f : Option ℕ) (addr len : ℕ) (append : Bool)
      → FsStep s (fs_write s mem f addr len append).1
  clones :
      (mem : Memory) (parent src : Option ℕ) (name : Str)
      → InPool s parent
      → FsStep s (fs_clone_file s mem parent src name).1
  sets_cwd : (n : Option ℕ) → FsStep s (fs_set_cwd s n)

-- The states that calls lead to from the one after `fs_init`.
pub data Reachable : Fs → Type 0 where
  starts : Reachable (fs_init zeroed)
  steps : {s t : Fs} → Reachable s → FsStep s t → Reachable t

FsStep-HasTree : {s t : Fs} → FsStep s t → HasTree s → HasTree t
unfolding HasTree
FsStep-HasTree {s} (makes_dir parent name ptr) (kids, t) =
    Creates-IsTree s kids dir name (λ _. none) parent (fs_mkdir s parent name) t ptr
      (fs_mkdir-Creates s kids parent name t ptr)
FsStep-HasTree {s} (makes_file parent name ptr) (kids, t) =
    Creates-IsTree s kids file name (reuse_file s) parent (fs_create_file s parent name) t ptr
      (fs_create_file-Creates s kids parent name t ptr)
FsStep-HasTree {s} (makes_device parent name at ptr) (kids, t) =
    Creates-IsTree s kids chr name (reuse_chr s) parent (fs_create_chardev s parent name at) t ptr
      (fs_create_chardev-Creates s kids parent name t ptr at)
FsStep-HasTree {s} (unlinks parent name) t = fs_unlink-HasTree s parent name t
FsStep-HasTree {s} (renames parent oldn newn) (kids, t) =
    (kids, SameLinks-IsTree s _ kids (fs_rename-SameLinks s parent oldn newn) t)
FsStep-HasTree {s} (writes mem f addr len append) (kids, t) =
    (kids, SameLinks-IsTree s _ kids (fs_write-SameLinks s mem f addr len append) t)
FsStep-HasTree {s} (clones mem parent src name ptr) t =
    fs_clone_file-HasTree s mem parent src name ptr t
FsStep-HasTree {s} (sets_cwd n) (kids, t) =
    (kids, SameLinks-IsTree s _ kids (fs_set_cwd-SameLinks s n) t)

-- A state that calls lead to has a tree.
pub Reachable-HasTree : {s : Fs} → Reachable s → HasTree s
unfolding HasTree
Reachable-HasTree starts = (no_kids, start-IsTree)
Reachable-HasTree (steps r st) = FsStep-HasTree st (Reachable-HasTree r)

-- From `x` the parent pointers lead through directories, each taken before the one it is the parent
-- of, to a node that hangs nowhere.
pub data Climbs (s : Fs) : ℕ → Type 0 where
  top : (x : ℕ) → (s.node x).parent ≡ none → Climbs s x
  up :
      (x p : ℕ)
      → (s.node x).parent ≡ some p
      → p < x
      → is_dir (s.node p).type ≡ true
      → Climbs s p
      → Climbs s x

child-facts :
    (s : Fs) (p x : ℕ) (xs : List ℕ)
    → All (λ y. (p < y) × (y ≤ s.ni)) xs
    → All (λ y. is_dir (s.node p).type ≡ true) xs
    → IsIn x xs
    → (p < x) × (is_dir (s.node p).type ≡ true)
child-facts s p x [] b d h = elim h [ ]
child-facts s p x (y ∷ ys) b d (inl same) = (omega (arith, b.0.0, same), d.0)
child-facts s p x (y ∷ ys) b d (inr i) = child-facts s p x ys b.1 d.1 i

climb : (fuel x : ℕ) (s : Fs) (kids : ℕ → List ℕ) → IsTree s kids → x < fuel → Climbs s x
climb zero x s kids t h = absurd (omega (arith, h))
climb (suc fuel) x s kids t h = elim (Option-cases (s.node x).parent) [
  | inl e ↦ top x e
  | inr (p, e) ↦
      let (lt, isd) = child-facts s p x (kids p) (t.below p) (t.dirs p) (t.home x p e) in
      up x p e lt isd (climb fuel p s kids t (omega (arith, lt, h)))
]

-- The root hangs nowhere.
root-top : (s : Fs) (kids : ℕ → List ℕ) → IsTree s kids → (s.node root).parent ≡ none
root-top s kids t = elim (Option-cases (s.node root).parent) [
  | inl e ↦ e
  | inr (p, e) ↦
      let (lt, isd) = child-facts s p root (kids p) (t.below p) (t.dirs p) (t.home root p e) in
      absurd (omega (arith, lt))
]

-- Whatever sequence of calls of fs_mkdir, fs_create_file, fs_create_chardev, fs_unlink, fs_rename,
-- fs_write, fs_clone_file and fs_set_cwd follows fs_init, where new nodes are made in nodes in use:
-- the chains of children end, hold each node once, and hold exactly the nodes that name their
-- directory as the parent; the root has no parent; and from every node the parent pointers lead,
-- through directories each taken earlier than the one below it and so without a cycle, to a node
-- without a parent.
pub Reachable-Climbs :
    {s : Fs} → Reachable s → HasTree s × ((s.node root).parent ≡ none) × ((x : ℕ) → Climbs s x)
unfolding HasTree
Reachable-Climbs {s} r =
    let (kids, t) = Reachable-HasTree r in
    ((kids, t), root-top s kids t, λ x. climb (suc x) x s kids t (omega arith))
