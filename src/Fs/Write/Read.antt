-- ===== src/Fs/Write/Read.antt =====
-- Reading back, and the copy that `fs_clone_file` does not keep.
use snowkernel.Base.{
  ℕ, zero, suc, ◌+◌, ◌≤◌, true, not, Option, none, some, ◌==◌, ltb, leb, if◌then◌else◌, if_elim,
  List, [], ◌∷◌, ◌≡◌, ◌≢◌, refl, sym, ap, ◌∙◌, arith, Bool-cases, Option-cases, inl, inr, eq→==,
  ne→==, lt→ltb, le→ltb, take, take-nil,
}
use snowkernel.Fs.Defs.{Fs, DataPtr, file, null, in_arena, outside, is_file, arena_size}
use snowkernel.Fs.Data.{Memory, add_size, bytes, read_data, fs_read, is_null}
use snowkernel.Str.{Str}
use snowkernel.Fs.Create.{InPool, as_dir-InPool}
use snowkernel.Fs.Defs.{find_in, as_dir, add_child, pool_size}
use snowkernel.Fs.Data.{fs_clone_file}
use snowkernel.Fs.Write.{content}

take-bytes : (f : Memory) (a n m : ℕ) → take m (bytes f a n) ≡ bytes f a (if ltb n m then n else m)
take-bytes f a zero zero = refl
take-bytes f a zero (suc m) = rw (lt→ltb 0 (suc m) (omega arith))
take-bytes f a (suc n) zero = rw (le→ltb (suc n) 0 (omega arith))
take-bytes f a (suc n) (suc m) = ap (λ (l : List ℕ). f a ∷ l) (take-bytes f (a + 1) n m) ∙ rest
  where
    rest :
        f a ∷ bytes f (a + 1) (if ltb n m then n else m)
        ≡ bytes f a (if ltb (suc n) (suc m) then suc n else suc m)
    rest = elim (Bool-cases (ltb n m)) [
      | inl e ↦ rw (e, lt→ltb (suc n) (suc m) (ground (arith, e)))
      | inr e ↦ rw (e, le→ltb (suc n) (suc m) (ground (arith, e)))
    ]

-- `fs_read` of a file gives the first `max` bytes of its contents, or all if it has fewer.
pub fs_read_lem :
    (s : Fs) (mem : Memory) (f max : ℕ)
    → is_file (s.node f).type ≡ true
    → fs_read s mem (some f) max ≡ take max (content s mem f)
unfolding fs_read read_data
fs_read_lem s mem f max isf = rw isf (go (s.node f).contents)
  where
    go :
        (d : DataPtr)
        → (if is_null d
            then []
            else read_data s.arena mem d (if ltb (s.node f).size max then (s.node f).size else max))
          ≡ take max (read_data s.arena mem d (s.node f).size)
    go null = sym (take-nil ℕ max)
    go (in_arena a) = sym (take-bytes s.arena a (s.node f).size max)
    go (outside a) = sym (take-bytes mem a (s.node f).size max)

abbrev EmptyAt : ℕ → Option ℕ × Fs → Type 0
EmptyAt n out =
    out.0 ≡ some n
    → ((out.1.node n).type ≡ file) × ((out.1.node n).size ≡ 0) × ((out.1.node n).contents ≡ null)

add_child-EmptyAt :
    (s : Fs) (p m n : ℕ) → m ≢ p → (s.node m).type ≡ file → EmptyAt n (some m, add_child s p m)
unfolding add_child
add_child-EmptyAt s p m n ne e h =
    let same : m ≡ n = cc in rw (← same) (rw (ne→== m p ne, eq→== m m refl) (e, refl, refl))

refuse-EmptyAt : (s : Fs) (n : ℕ) → EmptyAt n (none, s)
refuse-EmptyAt s n = λ h. cc

clone-EmptyAt :
    (s : Fs) (mem : Memory) (parent : Option ℕ) (src : ℕ) (name : Str) (n : ℕ)
    → InPool s parent
    → EmptyAt n (fs_clone_file s mem parent (some src) name)
unfolding fs_clone_file
clone-EmptyAt s mem parent src name n ptr = elim (Option-cases (as_dir s parent)) [
  | inl d ↦ rw (d, fs_clone_file) (refuse-EmptyAt s n)
  | inr (p, d) ↦
      let le : p ≤ s.ni = as_dir-InPool s parent p d ptr in
      let ne : s.ni + 1 ≢ p = omega arith in
      rw (d, fs_clone_file)
        (if_elim (EmptyAt n) (not (is_file (s.node src).type)) _ _ (λ _. refuse-EmptyAt s n)
          λ _. elim (Option-cases (find_in s p name)) [
            | inr (c, e) ↦ rw e (refuse-EmptyAt s n)
            | inl e ↦ rw e (
                if_elim (EmptyAt n) (leb pool_size s.ni) _ _ (λ _. refuse-EmptyAt s n)
                  λ _.
                    if_elim (EmptyAt n) ((s.node src).size == 0) _ _
                      (λ _.
                        add_child-EmptyAt _ p (s.ni + 1) n ne
                          (rw (eq→== (s.ni + 1) (s.ni + 1) refl)))
                      λ _.
                        if_elim (EmptyAt n) (ltb arena_size (add_size s.aoff (s.node src).size)) _ _
                          (λ _ h. cc)
                          λ _.
                            add_child-EmptyAt _ p (s.ni + 1) n ne
                              (rw (eq→== (s.ni + 1) (s.ni + 1) refl)))
          ])
]

-- Whatever the source file holds, the node that `fs_clone_file` makes is an empty file: linking it
-- into the directory clears the contents that were copied.
pub fs_clone_file-empty :
    (s : Fs) (mem : Memory) (parent : Option ℕ) (src : ℕ) (name : Str) (n : ℕ)
    → InPool s parent
    → (fs_clone_file s mem parent (some src) name).0 ≡ some n
    → let node = (fs_clone_file s mem parent (some src) name).1.node n in
      (node.type ≡ file) × (node.size ≡ 0) × (node.contents ≡ null)
fs_clone_file-empty s mem parent src name n ptr made =
    clone-EmptyAt s mem parent src name n ptr made
