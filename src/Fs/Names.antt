-- ===== src/Fs/Names.antt =====
-- What a directory finds after a node was created in it.
use snowkernel.Base.{
  ℕ, ◌+◌, ◌≤◌, ◌<◌, Option, none, some, ◌==◌, if◌then◌else◌, List, [], ◌∷◌, length, All, ◌≡◌, ◌≢◌,
  refl, sym, ap, ◌∙◌, true, arith, Bool-cases, inl, inr, ==→eq, ==→ne, eq→==, take, take_of_le,
  length-take,
}
use snowkernel.Str.{Str, cstr, str_eq, kstrlen}
use snowkernel.Str.Compare.{str_eq_iff, kstrlen-cstr}
use snowkernel.Fs.Defs.{Fs, Node, NodeType, find_in, is_dir, pool_size}
use snowkernel.Fs.Tree.{IsTree, first_named, find_in-first_named}
use snowkernel.Fs.Link.{Linked, linked_kids, Linked-IsTree}
use snowkernel.Fs.Create.{Creates, no_dir, there, full, new, InPool, as_dir-InPool, as_dir-is_dir}

-- A tree stays a tree under every creating call.
pub Creates-IsTree :
    (s : Fs) (kids : ℕ → List ℕ) (t : NodeType) (name : Str) (reuse : ℕ → Option ℕ)
    (parent : Option ℕ) (out : Option ℕ × Fs)
    → IsTree s kids
    → InPool s parent
    → Creates s kids t name reuse parent out
    → (kids' : ℕ → List ℕ) × IsTree out.1 kids'
Creates-IsTree s kids t name reuse parent out v ptr (no_dir d) = (kids, v)
Creates-IsTree s kids t name reuse parent out v ptr (there p e d f) = (kids, v)
Creates-IsTree s kids t name reuse parent out v ptr (full p d f h) = (kids, v)
Creates-IsTree s kids t name reuse parent out v ptr (new {s'} p d f h l) = (
  linked_kids s kids p,
  Linked-IsTree s kids p name t s' v (as_dir-InPool s parent p d ptr) (as_dir-is_dir s parent p d) h
      l,
)

module _ (s : Fs) (kids : ℕ → List ℕ) (p : ℕ) (name : Str) (ty : NodeType) (s' : Fs)
    (t : IsTree s kids) (in_pool : p ≤ s.ni) (isd : is_dir (s.node p).type ≡ true)
    (room : s.ni < pool_size) (l : Linked s p name ty s') where
  old_name : (x : ℕ) → x ≤ s.ni → (s'.node x).name ≡ (s.node x).name
  old_name x h = elim (Bool-cases (x == p)) [
    | inl e ↦ rw (==→eq x p e, l.at_parent)
    | inr e ↦ ap (λ (m : Node). m.name) (l.others x (omega arith) (==→ne x p e))
  ]

  first_named_old :
      (q : ℕ) (xs : List ℕ) (other : Str)
      → All (λ x. (q < x) × (x ≤ s.ni)) xs
      → first_named s'.node xs other ≡ first_named s.node xs other
  unfolding first_named
  first_named_old q [] other h = refl
  first_named_old q (x ∷ xs) other h = rw (old_name x h.0.1, first_named_old q xs other h.1)

  pub find_after :
      (other : Str)
      → find_in s' p other
        ≡ (if str_eq l.new.name other then some (s.ni + 1) else find_in s p other)
  unfolding first_named
  find_after other =
      find_in-first_named s' (linked_kids s kids p) p other
        (Linked-IsTree s kids p name ty s' t in_pool isd room l)
      ∙ rw (
        eq→== p p refl,
        l.at_new,
        first_named_old p (kids p) other (t.below p),
        find_in-first_named s kids p other t,
      )

  -- After a node was made in the directory `p` under a name of at most 31 bytes, a look for the
  -- name finds the new node.
  pub find_in-Linked_new : kstrlen name ≤ 31 → find_in s' p name ≡ some (s.ni + 1)
  find_in-Linked_new h =
      let e =
        (str_eq_iff l.new.name name).1
          (l.new_name ∙ take_of_le 31 (cstr name) (omega (arith, kstrlen-cstr name))) in
      find_after name ∙ rw e

  -- After a node was made in the directory `p`, a look for a name whose text is not the first 31
  -- bytes of the new node's name finds what it found before.
  pub find_in-Linked_other :
      (other : Str) → cstr other ≢ take 31 (cstr name) → find_in s' p other ≡ find_in s p other
  find_in-Linked_other other ne = elim (Bool-cases (str_eq l.new.name other)) [
    | inl e ↦ absurd (ne (sym ((str_eq_iff l.new.name other).0 e) ∙ l.new_name))
    | inr e ↦ find_after other ∙ rw e
  ]

  -- A name of more than 31 bytes that was not there is still not there after its node was made:
  -- the comparison is with the cut name, so the next creation makes another node.
  pub find_in-long : 31 < kstrlen name → find_in s p name ≡ none → find_in s' p name ≡ none
  find_in-long h e =
      find_in-Linked_other name (λ eq. omega (
        arith,
        ap (λ (q : List ℕ). length q) eq,
        length-take {0} 31 (cstr name),
        kstrlen-cstr name,
      ))
      ∙ e
