-- ===== src/Fs/Create/Others.antt =====
-- `fs_create_chardev` and `fs_mkdir` on every branch.
use snowkernel.Base.{ℕ, Option, none, some, leb, List, arith, Bool-cases, Option-cases, inl, inr}
use snowkernel.Str.{Str}
use snowkernel.Fs.Defs.{Fs, DataPtr, dir, chr, find_in, pool_size, as_dir}
use snowkernel.Fs.Ops.{fs_mkdir, fs_create_chardev}
use snowkernel.Fs.Tree.{IsTree}
use snowkernel.Fs.Create.{
  Creates, no_dir, there, full, new, InPool, reuse_chr, found, in_range, fs_mkdir-Linked,
  new_child-Creates,
}

module _ (s : Fs) (kids : ℕ → List ℕ) (parent : Option ℕ) (name : Str) (t : IsTree s kids)
    (ptr : InPool s parent) where
  -- `fs_create_chardev` on every branch. The new node's data pointer is null whatever `devptr` is:
  -- `Linked` says so of every new node.
  pub fs_create_chardev-Creates :
      (devptr : DataPtr)
      → Creates s kids chr name (reuse_chr s) parent (fs_create_chardev s parent name devptr)
  fs_create_chardev-Creates devptr = elim (Option-cases (as_dir s parent)) [
    | inl d ↦ unfold fs_create_chardev in rw (d, fs_create_chardev) (no_dir d)
    | inr (p, d) ↦ elim (Option-cases (find_in s p name)) [
      | inl e ↦
          unfold fs_create_chardev in
          rw (d, fs_create_chardev, e)
            (new_child-Creates s kids parent name t ptr p chr devptr (reuse_chr s) d e)
      | inr (c, e) ↦
          unfold fs_create_chardev in
          rw (d, fs_create_chardev, e) (there p c d (found s kids parent name t ptr p (some c) e))
    ]
  ]

  -- `fs_mkdir` on every branch: it refuses a parent that is no directory, a name that is there
  -- already and a used-up pool, and otherwise makes an empty directory the first child.
  pub fs_mkdir-Creates : Creates s kids dir name (λ _. none) parent (fs_mkdir s parent name)
  fs_mkdir-Creates = elim (Option-cases (as_dir s parent)) [
    | inl d ↦ unfold fs_mkdir in rw (d, fs_mkdir) (no_dir d)
    | inr (p, d) ↦ elim (Option-cases (find_in s p name)) [
      | inl e ↦ elim (Bool-cases (leb pool_size s.ni)) [
        | inl f ↦
            unfold fs_mkdir in
            rw (d, fs_mkdir, e, f)
              (full p d (found s kids parent name t ptr p none e) (ground (arith, f)))
        | inr r ↦
            unfold fs_mkdir in
            rw (d, fs_mkdir, e, r)
              (new p d (found s kids parent name t ptr p none e) (ground (arith, r))
                (fs_mkdir-Linked s p name (in_range s kids parent name t ptr p d)))
      ]
      | inr (c, e) ↦
          unfold fs_mkdir in
          rw (d, fs_mkdir, e) (there p c d (found s kids parent name t ptr p (some c) e))
    ]
  ]
