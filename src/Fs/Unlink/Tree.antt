-- ===== src/Fs/Unlink/Tree.antt =====
-- `fs_unlink` as an operation on the tree.
use snowkernel.Base.{
  ℕ, ◌+◌, ◌≤◌, ◌<◌, Option, none, some, ◌==◌, update, List, [], length, All, All_map, All_both, ◌≡◌,
  ◌≢◌, refl, sym, ap, ◌∙◌, arith, true, subst, Bool-cases, Option-cases, inl, inr, ==→eq, ==→ne,
  eq→==,
}
use snowkernel.Str.{Str}
use snowkernel.Fs.Defs.{Fs, NodeType, is_dir, pool_size, as_dir}
use snowkernel.Fs.Ops.{unlink_from, fs_unlink}
use snowkernel.Fs.Tree.{Chain, NotIn, IsIn, Distinct, IsTree, Chain-frame, first_named, without}
use snowkernel.Fs.Unlink.Removed.{
  Removed, All-without, IsIn-without, Distinct-without, length-without, first_named-NotIn,
  stays_unfound, unlink_from-Removed,
}

same-eq : (a b : ℕ) → ◌≡◌ {A = Option ℕ} (some a) (some b) → a ≡ b
same-eq a b h = cc

-- A node whose parent is `q` is no child of `p`.
NotIn-of_parent :
    (s : Fs) (p q x : ℕ) (xs : List ℕ)
    → q ≢ p
    → (s.node x).parent ≡ some q
    → All (λ y. (s.node y).parent ≡ some p) xs
    → NotIn x xs
NotIn-of_parent s p q x xs ne e h =
    All_map _ _ xs
      (λ y f yx. ne (same-eq q p (sym e ∙ ap (λ (z : ℕ). (s.node z).parent) (sym yx) ∙ f))) h

module _ (s : Fs) (kids : ℕ → List ℕ) (p : ℕ) (name : Str) (out : Option ℕ × Fs) (t : IsTree s kids)
    (r : Removed s p (kids p) name out) where
  abbrev after : ℕ → List ℕ
  after = update kids p (without s.node (kids p) name)

  at_kids :
      (P : ℕ → List ℕ → Type 0)
      → P p (without s.node (kids p) name)
      → ((q : ℕ) → q ≢ p → P q (kids q))
      → (q : ℕ) → P q (after q)
  at_kids P here there q = elim (Bool-cases (q == p)) [
    | inl e ↦ rw (==→eq _ _ e, eq→== p p refl) here
    | inr e ↦ rw e (there q (==→ne _ _ e))
  ]

  not_mine : (q : ℕ) → q ≢ p → All (λ x. NotIn x (kids p)) (kids q)
  not_mine q ne =
      All_map _ _ (kids q) (λ x e. NotIn-of_parent s p q x (kids p) ne e (t.parents p))
        (t.parents q)

  others-Chain : (q : ℕ) → q ≢ p → Chain out.1.node (out.1.node q).child (kids q)
  others-Chain q ne = rw (r.child q ne) (
      Chain-frame s.node out.1.node (s.node q).child (kids q)
        (All_map _ _ (kids q) r.outside (not_mine q ne)) (t.chains q))

  others_parents : (q : ℕ) → q ≢ p → All (λ x. (out.1.node x).parent ≡ some q) (kids q)
  others_parents q ne =
      All_both _ _ _ (kids q)
        (λ x out_of e.
          (r.parent x).1 (λ f. first_named-NotIn s.node (kids p) name x out_of (sym r.found ∙ f))
          ∙ e)
        (not_mine q ne) (t.parents q)

  my_parents : All (λ x. (out.1.node x).parent ≡ some p) (without s.node (kids p) name)
  my_parents =
      All_both _ _ _ (without s.node (kids p) name)
        (λ x ne e. (r.parent x).1 (λ f. ne (sym r.found ∙ f)) ∙ e)
        (stays_unfound s.node (kids p) name (t.distinct p))
        (All-without _ s.node (kids p) name (t.parents p))

  still_dirs :
      (q : ℕ) (xs : List ℕ)
      → All (λ x. is_dir (s.node q).type ≡ true) xs
      → All (λ x. is_dir (out.1.node q).type ≡ true) xs
  still_dirs q xs h = All_map _ _ xs (λ x d. ap (λ (k : NodeType). is_dir k) (r.type q) ∙ d) h

  unremoved : (x : ℕ) → out.0 ≢ some x → (q : ℕ) → (s.node x).parent ≡ some q → IsIn x (after q)
  unremoved x ne q e = elim (Bool-cases (q == p)) [
    | inl f ↦
        let there : IsIn x (kids p) =
          subst (λ (z : ℕ). IsIn x (kids z)) (==→eq q p f) (t.home x q e) in
        rw f (IsIn-without s.node (kids p) name x there (λ g. ne (r.found ∙ g)))
    | inr f ↦ rw f (t.home x q e)
  ]

  still_home : (x q : ℕ) → (out.1.node x).parent ≡ some q → IsIn x (after q)
  still_home x q e = elim (Option-cases out.0) [
    | inl n ↦ let ne : out.0 ≢ some x = λ f. cc in unremoved x ne q (sym ((r.parent x).1 ne) ∙ e)
    | inr (c, f) ↦ elim (Bool-cases (c == x)) [
      | inl g ↦
          let gone = (r.parent x).0 (f ∙ ap {B = Option ℕ} some (==→eq c x g)) in
          absurd (nothing (sym gone ∙ e))
      | inr g ↦
          let ne : out.0 ≢ some x = λ k. ==→ne c x g (same-eq c x (sym f ∙ k)) in
          unremoved x ne q (sym ((r.parent x).1 ne) ∙ e)
    ]
  ]
    where
      nothing : {q : ℕ} → ◌≡◌ {A = Option ℕ} none (some q) → ⊥
      nothing h = cc

  still_below :
      (q : ℕ) (xs : List ℕ)
      → All (λ x. (q < x) × (x ≤ s.ni)) xs
      → All (λ x. (q < x) × (x ≤ out.1.ni)) xs
  still_below q xs h = All_map _ _ xs (λ x b. (b.0, omega (arith, b.1, r.size))) h

  Removed-IsTree : IsTree out.1 after
  unfolding without
  Removed-IsTree = record {
    chains = at_kids (λ q xs. Chain out.1.node (out.1.node q).child xs) r.chain others-Chain;
    below =
        at_kids (λ q xs. All (λ x. (q < x) × (x ≤ out.1.ni)) xs)
          (still_below p _ (All-without _ s.node (kids p) name (t.below p)))
          (λ q _. still_below q (kids q) (t.below q));
    parents =
        at_kids (λ q xs. All (λ x. (out.1.node x).parent ≡ some q) xs) my_parents others_parents;
    dirs =
        at_kids (λ q xs. All (λ x. is_dir (out.1.node q).type ≡ true) xs)
          (still_dirs p _ (All-without _ s.node (kids p) name (t.dirs p)))
          (λ q _. still_dirs q (kids q) (t.dirs q));
    home = still_home;
    distinct =
        at_kids (λ q xs. Distinct xs) (Distinct-without s.node (kids p) name (t.distinct p))
          (λ q _. t.distinct q);
    fits =
        at_kids (λ q xs. length xs ≤ out.1.ni)
          (omega (arith, length-without s.node (kids p) name, t.fits p, r.size))
          (λ q _. omega (arith, t.fits q, r.size));
    unused =
        at_kids (λ q xs. out.1.ni < q → xs ≡ [])
          (λ h. rw (t.unused p (omega (arith, r.size)), without))
          (λ q _ h. t.unused q (omega (arith, r.size)));
    pool = omega (arith, t.pool, r.size);
  }

-- The parent of the node that is returned.
abbrev pub parent_of : Fs → Option ℕ → Option ℕ
parent_of s none = none
parent_of s (some x) = (s.node x).parent

parent_of-none :
    (s : Fs) (r : Option ℕ)
    → ((x : ℕ) → r ≡ some x → (s.node x).parent ≡ none)
    → parent_of s r ≡ none
parent_of-none s none h = refl
parent_of-none s (some x) h = h x refl

-- `fs_unlink` on a directory returns the first child of the name, or null if there is none; the
-- node returned has no parent any more, and the directory's children are the others in their order,
-- every other directory's being what they were.
pub fs_unlink_lem :
    (s : Fs) (kids : ℕ → List ℕ) (parent : Option ℕ) (p : ℕ) (name : Str)
    → IsTree s kids
    → as_dir s parent ≡ some p
    → let (r, s') = fs_unlink s parent name in
      (r ≡ first_named s.node (kids p) name)
      × IsTree s' (update kids p (without s.node (kids p) name))
      × (parent_of s' r ≡ none)
fs_unlink_lem s kids parent p name t d =
    unfold fs_unlink in
    rw (d, fs_unlink)
      (let out = unlink_from (pool_size + 1) s p none (s.node p).child name in
        let r =
          unlink_from-Removed (pool_size + 1) s p (kids p) name (omega (arith, t.fits p, t.pool))
            (t.chains p) (t.distinct p) in
        (
          r.found,
          Removed-IsTree s kids p name _ t r,
          parent_of-none out.1 out.0 (λ x. (r.parent x).0),
        ))
