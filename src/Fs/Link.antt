-- ===== src/Fs/Link.antt =====
-- Operations that put a new node in front of a directory's children.
use snowkernel.Base.{
  ℕ, ◌+◌, ◌≤◌, ◌<◌, Option, none, some, ◌==◌, update, List, [], ◌∷◌, length, All, All_map, All_both,
  ◌≡◌, ◌≢◌, refl, sym, ap, subst, true, ◌∙◌, arith, Bool-cases, inl, inr, ==→eq, ==→ne, eq→==, take,
}
use snowkernel.Str.{Str, cstr}
use snowkernel.Fs.Defs.{Fs, Node, NodeType, null, is_dir, pool_size}
use snowkernel.Fs.Tree.{Chain, Distinct, IsIn, IsTree, Chain-frame}

-- The node `s.ni + 1`, of type `t`, stands in front of the children of `p`; nothing else changed
-- in the tree.
pub record Linked (s : Fs) (p : ℕ) (name : Str) (t : NodeType) (s' : Fs) : Type 0 where
  pub new : Node
  pub count : s'.ni ≡ s.ni + 1
  pub at_new : s'.node (s.ni + 1) ≡ new
  pub new_type : new.type ≡ t
  pub new_name : cstr new.name ≡ take 31 (cstr name)
  pub new_parent : new.parent ≡ some p
  pub new_sibling : new.sibling ≡ (s.node p).child
  pub new_child : new.child ≡ none
  pub new_data : new.contents ≡ null
  pub new_size : new.size ≡ 0
  pub at_parent : s'.node p ≡ record (s.node p) { child = some (s.ni + 1) }
  pub others : (x : ℕ) → x ≢ s.ni + 1 → x ≢ p → s'.node x ≡ s.node x
  pub arena : s'.arena ≡ s.arena
  pub offset : s'.aoff ≡ s.aoff

abbrev pub linked_kids : Fs → (ℕ → List ℕ) → ℕ → ℕ → List ℕ
linked_kids s kids p = update kids p ((s.ni + 1) ∷ kids p)

module _ (s : Fs) (kids : ℕ → List ℕ) (p : ℕ) (name : Str) (ty : NodeType) (s' : Fs)
    (t : IsTree s kids) (in_pool : p ≤ s.ni) (isd : is_dir (s.node p).type ≡ true)
    (room : s.ni < pool_size) (l : Linked s p name ty s') where
  old_sibling : (x : ℕ) → x ≤ s.ni → (s'.node x).sibling ≡ (s.node x).sibling
  old_sibling x h = elim (Bool-cases (x == p)) [
    | inl e ↦ rw (==→eq x p e, l.at_parent)
    | inr e ↦ ap (λ (m : Node). m.sibling) (l.others x (omega arith) (==→ne x p e))
  ]

  old_parent : (x : ℕ) → x ≤ s.ni → (s'.node x).parent ≡ (s.node x).parent
  old_parent x h = elim (Bool-cases (x == p)) [
    | inl e ↦ rw (==→eq x p e, l.at_parent)
    | inr e ↦ ap (λ (m : Node). m.parent) (l.others x (omega arith) (==→ne x p e))
  ]

  old-Chain : (o : Option ℕ) (q : ℕ) → Chain s.node o (kids q) → Chain s'.node o (kids q)
  old-Chain o q =
      Chain-frame s.node s'.node o (kids q)
        (All_map _ _ (kids q) (λ x h. old_sibling x h.1) (t.below q))

  old_parents : (q : ℕ) → All (λ x. (s'.node x).parent ≡ some q) (kids q)
  old_parents q = All_both _ _ _ (kids q) (λ x h e. old_parent x h.1 ∙ e) (t.below q) (t.parents q)

  child_elsewhere : (q : ℕ) → q ≢ p → Chain s'.node (s'.node q).child (kids q)
  child_elsewhere q ne = elim (Bool-cases (q == s.ni + 1)) [
    | inl e ↦
        let q_new : q ≡ s.ni + 1 = ==→eq _ _ e in
        rw (t.unused q (omega arith)) (rw (q_new, l.at_new) l.new_child)
    | inr e ↦ rw (l.others q (==→ne _ _ e) ne) (old-Chain (s.node q).child q (t.chains q))
  ]

  new-Chain : Chain s'.node (s'.node p).child ((s.ni + 1) ∷ kids p)
  new-Chain =
      (rw l.at_parent, rw (l.at_new, l.new_sibling) (old-Chain (s.node p).child p (t.chains p)))

  -- A property of the new child lists, from the parent's and from the others'.
  at_kids :
      (P : ℕ → List ℕ → Type 0)
      → P p ((s.ni + 1) ∷ kids p)
      → ((q : ℕ) → q ≢ p → P q (kids q))
      → (q : ℕ) → P q (linked_kids s kids p q)
  at_kids P here there q = elim (Bool-cases (q == p)) [
    | inl e ↦ rw (==→eq _ _ e, eq→== p p refl) here
    | inr e ↦ rw e (there q (==→ne _ _ e))
  ]

  old_type : (x : ℕ) → x ≤ s.ni → (s'.node x).type ≡ (s.node x).type
  old_type x h = elim (Bool-cases (x == p)) [
    | inl e ↦ rw (==→eq x p e, l.at_parent)
    | inr e ↦ ap (λ (m : Node). m.type) (l.others x (omega arith) (==→ne x p e))
  ]

  still_dir : (q : ℕ) → All (λ x. is_dir (s'.node q).type ≡ true) (kids q)
  still_dir q =
      All_both _ _ _ (kids q)
        (λ x b d. ap (λ (k : NodeType). is_dir k) (old_type q (omega (arith, b.0, b.1))) ∙ d)
        (t.below q) (t.dirs q)

  linked-IsIn : (x q : ℕ) → IsIn x (kids q) → IsIn x (linked_kids s kids p q)
  linked-IsIn x q h = elim (Bool-cases (q == p)) [
    | inl e ↦
        let there : IsIn x (kids p) = subst (λ (z : ℕ). IsIn x (kids z)) (==→eq q p e) h in
        rw e (inr there)
    | inr e ↦ rw e h
  ]

  new-home : (x q : ℕ) → (s'.node x).parent ≡ some q → IsIn x (linked_kids s kids p q)
  new-home x q e = elim (Bool-cases (x == s.ni + 1)) [
    | inl n ↦
        let same : x ≡ s.ni + 1 = ==→eq x (s.ni + 1) n in
        let mine : s'.node x ≡ l.new = ap s'.node same ∙ l.at_new in
        let at_p : some q ≡ some p = sym e ∙ ap (λ (m : Node). m.parent) mine ∙ l.new_parent in
        let to : q ≡ p = ground (arith, at_p) in rw (to, eq→== p p refl) (inl same)
    | inr n ↦ elim (Bool-cases (x == p)) [
      | inl m ↦
          let same : x ≡ p = ==→eq x p m in
          linked-IsIn x q
            (t.home x q (rw same (ap (λ (k : Node). k.parent) (sym l.at_parent) ∙ rw same at e)))
      | inr m ↦ linked-IsIn x q (
          t.home x q (
            ap (λ (k : Node). k.parent) (sym (l.others x (==→ne x (s.ni + 1) n) (==→ne x p m)))
            ∙ e))
    ]
  ]

  -- Linking a new node keeps the tree well formed.
  pub Linked-IsTree : IsTree s' (linked_kids s kids p)
  Linked-IsTree = record {
    chains = at_kids (λ q xs. Chain s'.node (s'.node q).child xs) new-Chain child_elsewhere;
    below =
        at_kids (λ q xs. All (λ x. (q < x) × (x ≤ s'.ni)) xs)
          ((omega arith, omega (arith, l.count)), grow p) (λ q _. grow q);
    parents =
        at_kids (λ q xs. All (λ x. (s'.node x).parent ≡ some q) xs)
          (ap (λ (m : Node). m.parent) l.at_new ∙ l.new_parent, old_parents p)
          (λ q _. old_parents q);
    dirs =
        at_kids (λ q xs. All (λ x. is_dir (s'.node q).type ≡ true) xs)
          (rw l.at_parent isd, still_dir p) (λ q _. still_dir q);
    home = λ x q e. new-home x q e;
    distinct =
        at_kids (λ q xs. Distinct xs)
          (All_map _ _ (kids p) (λ x h. omega (arith, h.1)) (t.below p), t.distinct p)
          (λ q _. t.distinct q);
    fits =
        at_kids (λ q xs. length xs ≤ s'.ni) (omega (arith, t.fits p, l.count))
          (λ q _. omega (arith, t.fits q, l.count));
    unused =
        at_kids (λ q xs. s'.ni < q → xs ≡ []) (λ h. absurd (omega (arith, l.count)))
          (λ q _ h. t.unused q (omega (arith, l.count)));
    pool = omega (arith, l.count);
  }
    where
      grow : (q : ℕ) → All (λ x. (q < x) × (x ≤ s'.ni)) (kids q)
      grow q = All_map _ _ (kids q) (λ x h. (h.0, omega (arith, h.1, l.count))) (t.below q)
