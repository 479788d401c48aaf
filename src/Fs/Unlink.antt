-- ===== src/Fs/Unlink.antt =====
-- `fs_unlink` takes the first child of the name out of the chain.
pub mod Removed
pub mod Tree
use snowkernel.Base.{
  ℕ, zero, suc, ◌+◌, ◌-◌, ◌≤◌, ◌<◌, Bool, true, false, Option, none, some, ◌==◌, leb, if◌then◌else◌,
  update, update_self, update_ne, List, [], ◌∷◌, length, All, All_map, All_both, ◌≡◌, ◌≢◌, refl,
  sym, ap, ◌∙◌, arith, Bool-cases, Option-cases, inl, inr, ==→eq, ==→ne, eq→==, ne→==, subst,
}
use snowkernel.Str.{Str, str_eq}
use snowkernel.Fs.Defs.{Fs, Node, NodeType, find_in, pool_size, as_dir}
use snowkernel.Fs.Ops.{unlink_from, fs_unlink}
use snowkernel.Fs.Tree.{Chain, NotIn, Distinct, IsTree, Chain-frame, first_named, without}
use snowkernel.Fs.Create.{InPool, as_dir-eq}

-- What the loop has done to the chain `xs` behind the node `q`: the first node of the name is out
-- of it and has neither parent nor sibling, and only `q`, the nodes of `xs` and, in the fields
-- `parent` and `sibling`, the node found have changed.
pub record Cut (s : Fs) (q : ℕ) (xs : List ℕ) (name : Str) (out : Option ℕ × Fs) : Type 0 where
  found : out.0 ≡ first_named s.node xs name
  chain : Chain out.1.node (out.1.node q).sibling (without s.node xs name)
  outside : (x : ℕ) → x ≢ q → NotIn x xs → out.1.node x ≡ s.node x
  child : (x : ℕ) → (out.1.node x).child ≡ (s.node x).child
  type : (x : ℕ) → (out.1.node x).type ≡ (s.node x).type
  parent :
      (x : ℕ)
      → (out.0 ≡ some x → (out.1.node x).parent ≡ none)
        × (out.0 ≢ some x → (out.1.node x).parent ≡ (s.node x).parent)
  size : out.1.ni ≡ s.ni

-- The state after the node `c`, first behind `q`, is cut out.
abbrev cut_after : Fs → ℕ → ℕ → Fs
cut_after s q c =
    let cut : ℕ → Node = update s.node q (record (s.node q) { sibling = (s.node c).sibling }) in
    record s { node = update cut c (record (cut c) { parent = none; sibling = none }) }

module _ (s : Fs) (q c : ℕ) (ne : c ≢ q) where
  abbrev s' : Fs
  s' = cut_after s q c

  at_q : s'.node q ≡ record (s.node q) { sibling = (s.node c).sibling }
  at_q = rw (ne→== q c (λ e. ne (sym e)), eq→== q q refl)

  at_c : s'.node c ≡ record (s.node c) { parent = none; sibling = none }
  at_c = rw (eq→== c c refl, ne→== c q ne)

  elsewhere : (x : ℕ) → x ≢ q → x ≢ c → s'.node x ≡ s.node x
  elsewhere x hq hc = rw (ne→== x c hc, ne→== x q hq)

  same_child : (x : ℕ) → (s'.node x).child ≡ (s.node x).child
  same_child x = elim (Bool-cases (x == c)) [
    | inl e ↦ rw (==→eq x c e, at_c)
    | inr e ↦ elim (Bool-cases (x == q)) [
      | inl f ↦ rw (==→eq x q f, at_q)
      | inr f ↦ ap (λ (m : Node). m.child) (elsewhere x (==→ne x q f) (==→ne x c e))
    ]
  ]

  same_type : (x : ℕ) → (s'.node x).type ≡ (s.node x).type
  same_type x = elim (Bool-cases (x == c)) [
    | inl e ↦ rw (==→eq x c e, at_c)
    | inr e ↦ elim (Bool-cases (x == q)) [
      | inl f ↦ rw (==→eq x q f, at_q)
      | inr f ↦ ap (λ (m : Node). m.type) (elsewhere x (==→ne x q f) (==→ne x c e))
    ]
  ]

  same_parent : (x : ℕ) → x ≢ c → (s'.node x).parent ≡ (s.node x).parent
  same_parent x h = elim (Bool-cases (x == q)) [
    | inl f ↦ rw (==→eq x q f, at_q)
    | inr f ↦ ap (λ (m : Node). m.parent) (elsewhere x (==→ne x q f) h)
  ]

  cut-Chain :
      (xs : List ℕ)
      → NotIn q xs
      → NotIn c xs
      → Chain s.node (s.node c).sibling xs
      → Chain s'.node (s'.node q).sibling xs
  cut-Chain xs hq hc h = rw at_q (
      Chain-frame s.node s'.node (s.node c).sibling xs
        (All_both _ _ _ xs (λ x a b. ap (λ (m : Node). m.sibling) (elsewhere x a b)) hq hc) h)

-- The loop finds nothing further: nothing has changed.
nothing-Cut : (s : Fs) (q : ℕ) (name : Str) → (s.node q).sibling ≡ none → Cut s q [] name (none, s)
unfolding first_named without
nothing-Cut s q name e = record {
  found = refl;
  chain = e;
  outside = λ x _ _. refl;
  child = λ x. refl;
  type = λ x. refl;
  parent = λ x. (cc, λ _. refl);
  size = refl;
}

some-ne : (a b : ℕ) → ◌≢◌ {A = Option ℕ} (some a) (some b) → b ≢ a
some-ne a b h e = h (ap {B = Option ℕ} some (sym e))

module _ (s : Fs) (q x : ℕ) (xs : List ℕ) (name : Str) where
  match-Cut :
      str_eq (s.node x).name name ≡ true
      → Distinct (q ∷ x ∷ xs)
      → Chain s.node (s.node x).sibling xs
      → Cut s q (x ∷ xs) name (some x, cut_after s q x)
  unfolding first_named without
  match-Cut e d c = record {
    found = rw e;
    chain = rw e (cut-Chain s q x d.0.0 xs d.0.1 d.1.0 c);
    outside = λ y hq hx. elsewhere s q x d.0.0 y hq (λ e. hx.0 (sym e));
    child = same_child s q x d.0.0;
    type = same_type s q x d.0.0;
    parent = λ y. (
      λ e. let same : x ≡ y = cc in rw (← same) (ap (λ (m : Node). m.parent) (at_c s q x d.0.0)),
      λ h. same_parent s q x d.0.0 y (some-ne x y h),
    );
    size = refl;
  }

  pass-Cut :
      (out : Option ℕ × Fs)
      → str_eq (s.node x).name name ≡ false
      → Distinct (q ∷ x ∷ xs)
      → (s.node q).sibling ≡ some x
      → Cut s x xs name out
      → Cut s q (x ∷ xs) name out
  unfolding first_named without
  pass-Cut out e d link ih = record {
    found = rw e ih.found;
    chain = rw (e, ih.outside q (λ h. d.0.0 (sym h)) d.0.1) (link, ih.chain);
    outside = λ y hq hx. ih.outside y (λ e. hx.0 (sym e)) hx.1;
    child = ih.child;
    type = ih.type;
    parent = ih.parent;
    size = ih.size;
  }

unlink_from-Cut :
    (fuel : ℕ) (s : Fs) (p q : ℕ) (o : Option ℕ) (xs : List ℕ) (name : Str)
    → length xs < fuel
    → o ≡ (s.node q).sibling
    → Chain s.node o xs
    → Distinct (q ∷ xs)
    → Cut s q xs name (unlink_from fuel s p (some q) o name)
unfolding unlink_from
unlink_from-Cut zero s p q o xs name h e c d = absurd (omega arith)
unlink_from-Cut (suc fuel) s p q o [] name h e c d = rw (c) (nothing-Cut s q name (sym e ∙ c))
unlink_from-Cut (suc fuel) s p q o (x ∷ xs) name h e c d =
    let ih = unlink_from-Cut fuel s p x (s.node x).sibling xs name (omega arith) refl c.1 d.1 in
    elim (Bool-cases (str_eq (s.node x).name name)) [
      | inl m ↦ rw (c.0, m) (match-Cut s q x xs name m d c.1)
      | inr m ↦ rw (c.0, m) (pass-Cut s q x xs name _ m d (sym e ∙ c.0) ih)
    ]
