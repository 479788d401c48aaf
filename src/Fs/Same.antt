-- ===== src/Fs/Same.antt =====
-- States whose nodes make the same tree, and states that have a tree at all.
use snowkernel.Base.{
  ℕ, ◌==◌, update, List, All_map, Bool-cases, inl, inr, ◌≡◌, refl, sym, ap, ◌∙◌, arith, ==→eq,
  eq→==, eq→==,
}
use snowkernel.Fs.Defs.{Fs, Node, NodeType, is_dir}
use snowkernel.Fs.Data.{Memory}
use snowkernel.Fs.Tree.{IsTree, Chain-frame}

-- The pointers of the nodes that make the tree are the same.
pub record SameLinks (s s' : Fs) : Type 0 where
  pub child : (x : ℕ) → (s'.node x).child ≡ (s.node x).child
  pub sibling : (x : ℕ) → (s'.node x).sibling ≡ (s.node x).sibling
  pub parent : (x : ℕ) → (s'.node x).parent ≡ (s.node x).parent
  pub type : (x : ℕ) → (s'.node x).type ≡ (s.node x).type
  pub count : s'.ni ≡ s.ni

pub SameLinks-refl : (s : Fs) → SameLinks s s
SameLinks-refl s = record {
  child = λ x. refl;
  sibling = λ x. refl;
  parent = λ x. refl;
  type = λ x. refl;
  count = refl;
}

pub SameLinks-IsTree :
    (s s' : Fs) (kids : ℕ → List ℕ) → SameLinks s s' → IsTree s kids → IsTree s' kids
SameLinks-IsTree s s' kids l t = record {
  chains = λ p. rw (l.child p) (
      Chain-frame s.node s'.node (s.node p).child (kids p)
        (All_map _ _ (kids p) (λ x h. l.sibling x) (t.below p)) (t.chains p));
  below = λ p. All_map _ _ (kids p) (λ x h. (h.0, rw l.count h.1)) (t.below p);
  parents = λ p. All_map _ _ (kids p) (λ x h. l.parent x ∙ h) (t.parents p);
  dirs =
      λ p. All_map _ _ (kids p) (λ x d. ap (λ (k : NodeType). is_dir k) (l.type p) ∙ d) (t.dirs p);
  home = λ x p e. t.home x p (sym (l.parent x) ∙ e);
  distinct = t.distinct;
  fits = λ p. rw l.count (t.fits p);
  unused = λ p h. t.unused p (omega (arith, l.count, h));
  pool = rw l.count t.pool;
}

-- A node with the same pointers takes the place of the node `f`.
module _ (s : Fs) (f : ℕ) (m : Node) {F : Type 0} (field : Node → F)
    (same : field m ≡ field (s.node f)) where
  update-same : (x : ℕ) → field (update s.node f m x) ≡ field (s.node x)
  update-same x = elim (Bool-cases (x == f)) [
    | inl e ↦ rw (==→eq x f e, eq→== f f refl) same
    | inr e ↦ rw e refl
  ]

pub relabel-SameLinks :
    (s : Fs) (f : ℕ) (m : Node) (arena : Memory) (aoff : ℕ)
    → m.child ≡ (s.node f).child
    → m.sibling ≡ (s.node f).sibling
    → m.parent ≡ (s.node f).parent
    → m.type ≡ (s.node f).type
    → SameLinks s (record s { node = update s.node f m; arena = arena; aoff = aoff })
relabel-SameLinks s f m arena aoff c b p k = record {
  child = update-same s f m (λ (n : Node). n.child) c;
  sibling = update-same s f m (λ (n : Node). n.sibling) b;
  parent = update-same s f m (λ (n : Node). n.parent) p;
  type = update-same s f m (λ (n : Node). n.type) k;
  count = refl;
}

-- There is a list of children for each node that makes the nodes a tree.
unfoldable pub HasTree : Fs → Type 0
HasTree s = (kids : ℕ → List ℕ) × IsTree s kids
