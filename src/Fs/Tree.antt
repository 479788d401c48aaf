-- ===== src/Fs/Tree.antt =====
-- The child lists: each directory's chain of siblings is a list of different nodes.
use snowkernel.Base.{
  ℕ, zero, suc, ◌+◌, ◌≤◌, ◌<◌, Option, none, some, if◌then◌else◌, List, [], ◌∷◌, length, All, ◌≡◌,
  ◌≢◌, ◌⊎◌, true, arith,
}
use snowkernel.Str.{Str, str_eq}
use snowkernel.Fs.Defs.{Fs, Node, find_from, find_in, is_dir, pool_size}

-- From the pointer `o` the `sibling` fields lead through `xs` to the null pointer.
abbrev pub Chain : (ℕ → Node) → Option ℕ → List ℕ → Type 0
Chain node o [] = o ≡ none
Chain node o (x ∷ xs) = (o ≡ some x) × Chain node (node x).sibling xs

abbrev pub NotIn : ℕ → List ℕ → Type 0
NotIn x xs = All (λ y. y ≢ x) xs

abbrev pub Distinct : List ℕ → Type 0
Distinct [] = Unit
Distinct (x ∷ xs) = NotIn x xs × Distinct xs

abbrev pub IsIn : ℕ → List ℕ → Type 0
IsIn x [] = ⊥
IsIn x (y ∷ ys) = (x ≡ y) ⊎ IsIn x ys

-- `kids p` lists the children of `p` in the order of the chain. Node 0 is the root, and the nodes 1
-- to `ni` are those taken from the pool. Only a directory has children, and a child was taken after
-- its directory, so that the tree has no cycle. A node is among the children of its parent, and of
-- nothing else.
pub record IsTree (s : Fs) (kids : ℕ → List ℕ) : Type 0 where
  pub chains : (p : ℕ) → Chain s.node (s.node p).child (kids p)
  pub below : (p : ℕ) → All (λ x. (p < x) × (x ≤ s.ni)) (kids p)
  pub parents : (p : ℕ) → All (λ x. (s.node x).parent ≡ some p) (kids p)
  pub dirs : (p : ℕ) → All (λ x. is_dir (s.node p).type ≡ true) (kids p)
  pub home : (x p : ℕ) → (s.node x).parent ≡ some p → IsIn x (kids p)
  pub distinct : (p : ℕ) → Distinct (kids p)
  pub fits : (p : ℕ) → length (kids p) ≤ s.ni
  pub unused : (p : ℕ) → s.ni < p → kids p ≡ []
  pub pool : s.ni ≤ pool_size

-- The first of the nodes that has the name: what a directory promises to find.
unfoldable pub first_named : (ℕ → Node) → List ℕ → Str → Option ℕ
first_named node [] name = none
first_named node (x ∷ xs) name =
    if str_eq (node x).name name then some x else first_named node xs name

-- The nodes without the first that has the name.
unfoldable pub without : (ℕ → Node) → List ℕ → Str → List ℕ
without node [] name = []
without node (x ∷ xs) name = if str_eq (node x).name name then xs else x ∷ without node xs name

pub Chain-frame :
    (node node' : ℕ → Node) (o : Option ℕ) (xs : List ℕ)
    → All (λ x. (node' x).sibling ≡ (node x).sibling) xs
    → Chain node o xs
    → Chain node' o xs
Chain-frame node node' o [] h c = c
Chain-frame node node' o (x ∷ xs) h c =
    (c.0, rw h.0 (Chain-frame node node' (node x).sibling xs h.1 c.1))

find_from-first_named :
    (fuel : ℕ) (s : Fs) (o : Option ℕ) (xs : List ℕ) (name : Str)
    → length xs < fuel
    → Chain s.node o xs
    → find_from fuel s o name ≡ first_named s.node xs name
unfolding find_from first_named
find_from-first_named zero s o xs name h c = absurd (omega arith)
find_from-first_named (suc fuel) s o [] name h c = rw c
find_from-first_named (suc fuel) s o (x ∷ xs) name h c =
    rw (c.0, find_from-first_named fuel s (s.node x).sibling xs name (omega arith) c.1)

-- `find_in` finds the first child that has the name, and none exactly where there is none: its walk
-- along the chain ends and meets every child.
pub find_in-first_named :
    (s : Fs) (kids : ℕ → List ℕ) (p : ℕ) (name : Str)
    → IsTree s kids
    → find_in s p name ≡ first_named s.node (kids p) name
unfolding find_in
find_in-first_named s kids p name t =
    find_from-first_named (pool_size + 1) s (s.node p).child (kids p) name
      (omega (arith, t.fits p, t.pool)) (t.chains p)
