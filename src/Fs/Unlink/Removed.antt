-- ===== src/Fs/Unlink/Removed.antt =====
-- What the whole loop of `fs_unlink` has done to a directory's chain.
use snowkernel.Base.{
  ℕ, zero, suc, ◌≤◌, ◌<◌, true, false, Option, none, some, ◌==◌, update, List, [], ◌∷◌, length, All,
  All_map, ◌≡◌, ◌≢◌, ◌⊎◌, refl, sym, ap, ◌∙◌, arith, Bool-cases, inl, inr, ==→eq, eq→==, ne→==,
}
use snowkernel.Str.{Str, str_eq}
use snowkernel.Fs.Defs.{Fs, Node}
use snowkernel.Fs.Ops.{unlink_from}
use snowkernel.Fs.Tree.{Chain, NotIn, IsIn, Distinct, Chain-frame, first_named, without}
use snowkernel.Fs.Unlink.{Cut, unlink_from-Cut, some-ne}

-- The first child of the name, if there is one, is out of the list and has no parent.
pub record Removed (s : Fs) (p : ℕ) (xs : List ℕ) (name : Str) (out : Option ℕ × Fs) : Type 0 where
  pub found : out.0 ≡ first_named s.node xs name
  pub chain : Chain out.1.node (out.1.node p).child (without s.node xs name)
  pub outside : (x : ℕ) → NotIn x xs → (out.1.node x).sibling ≡ (s.node x).sibling
  pub child : (x : ℕ) → x ≢ p → (out.1.node x).child ≡ (s.node x).child
  pub type : (x : ℕ) → (out.1.node x).type ≡ (s.node x).type
  pub parent :
      (x : ℕ)
      → (out.0 ≡ some x → (out.1.node x).parent ≡ none)
        × (out.0 ≢ some x → (out.1.node x).parent ≡ (s.node x).parent)
  pub size : out.1.ni ≡ s.ni

pub All-without :
    (P : ℕ → Type 0) (node : ℕ → Node) (xs : List ℕ) (name : Str)
    → All P xs
    → All P (without node xs name)
unfolding without
All-without P node [] name h = tt
All-without P node (x ∷ xs) name h = elim (Bool-cases (str_eq (node x).name name)) [
  | inl e ↦ rw e h.1
  | inr e ↦ rw e (h.0, All-without P node xs name h.1)
]

pub Distinct-without :
    (node : ℕ → Node) (xs : List ℕ) (name : Str) → Distinct xs → Distinct (without node xs name)
unfolding without
Distinct-without node [] name h = tt
Distinct-without node (x ∷ xs) name h = elim (Bool-cases (str_eq (node x).name name)) [
  | inl e ↦ rw e h.1
  | inr e ↦ rw e (All-without _ node xs name h.0, Distinct-without node xs name h.1)
]

pub length-without :
    (node : ℕ → Node) (xs : List ℕ) (name : Str) → length (without node xs name) ≤ length xs
unfolding without
length-without node [] name = omega arith
length-without node (x ∷ xs) name = ground (arith, length-without node xs name)

-- A node that stays has not been found.
pub first_named-NotIn :
    (node : ℕ → Node) (xs : List ℕ) (name : Str) (x : ℕ)
    → NotIn x xs
    → first_named node xs name ≢ some x
unfolding first_named
first_named-NotIn node [] name x h = cc
first_named-NotIn node (y ∷ xs) name x h = elim (Bool-cases (str_eq (node y).name name)) [
  | inl e ↦ rw e (λ (p : some y ≡ some x). h.0 (ground (arith, p)))
  | inr e ↦ rw e (first_named-NotIn node xs name x h.1)
]

-- A node that is not the one found stays.
pub IsIn-without :
    (node : ℕ → Node) (xs : List ℕ) (name : Str) (x : ℕ)
    → IsIn x xs
    → first_named node xs name ≢ some x
    → IsIn x (without node xs name)
unfolding first_named without
IsIn-without node [] name x h ne = h
IsIn-without node (y ∷ xs) name x (inl same) ne = elim (Bool-cases (str_eq (node y).name name)) [
  | inl e ↦
      let found : ◌≢◌ {A = Option ℕ} (some y) (some x) = rw e at ne in
      absurd (found (ap {B = Option ℕ} some (sym same)))
  | inr e ↦ let here : (x ≡ y) ⊎ IsIn x (without node xs name) = inl same in rw e here
]
IsIn-without node (y ∷ xs) name x (inr i) ne = elim (Bool-cases (str_eq (node y).name name)) [
  | inl e ↦ rw e i
  | inr e ↦
      let later : first_named node xs name ≢ some x = rw e at ne in
      let there : (x ≡ y) ⊎ IsIn x (without node xs name) =
        inr (IsIn-without node xs name x i later) in
      rw e there
]

pub stays_unfound :
    (node : ℕ → Node) (xs : List ℕ) (name : Str)
    → Distinct xs
    → All (λ x. first_named node xs name ≢ some x) (without node xs name)
unfolding first_named without
stays_unfound node [] name d = tt
stays_unfound node (y ∷ xs) name d = elim (Bool-cases (str_eq (node y).name name)) [
  | inl e ↦ rw e (All_map _ _ xs (λ x ne (p : some y ≡ some x). ne (ground (arith, p))) d.0)
  | inr e ↦ rw e (first_named-NotIn node xs name y d.0, stays_unfound node xs name d.1)
]

-- The state after the first child `c` of `p` is taken out.
abbrev head_cut : Fs → ℕ → ℕ → Fs
head_cut s p c =
    let cut : ℕ → Node = update s.node p (record (s.node p) { child = (s.node c).sibling }) in
    record s { node = update cut c (record (cut c) { parent = none; sibling = none }) }

module _ (s : Fs) (p c : ℕ) where
  abbrev s' : Fs
  s' = head_cut s p c

  head_child : (s'.node p).child ≡ (s.node c).sibling
  head_child = elim (Bool-cases (p == c)) [
    | inl e ↦ rw (e, eq→== c p (sym (==→eq p c e)))
    | inr e ↦ rw (e, eq→== p p refl)
  ]

  head_sibling : (x : ℕ) → x ≢ c → (s'.node x).sibling ≡ (s.node x).sibling
  head_sibling x ne = elim (Bool-cases (x == p)) [
    | inl e ↦ rw (ne→== x c ne, e, ==→eq x p e)
    | inr e ↦ rw (ne→== x c ne, e)
  ]

  head_other_child : (x : ℕ) → x ≢ p → (s'.node x).child ≡ (s.node x).child
  head_other_child x ne = elim (Bool-cases (x == c)) [
    | inl e ↦
        let xc : x ≡ c = ==→eq x c e in
        rw (e, ne→== c p (λ h. ne (xc ∙ h))) (ap (λ (y : ℕ). (s.node y).child) (sym xc))
    | inr e ↦ rw (e, ne→== x p ne)
  ]

  head_type : (x : ℕ) → (s'.node x).type ≡ (s.node x).type
  head_type x = elim (Bool-cases (x == c)) [
    | inl e ↦ elim (Bool-cases (c == p)) [
      | inl f ↦ rw (e, f, ==→eq x c e, ==→eq c p f)
      | inr f ↦ rw (e, f, ==→eq x c e)
    ]
    | inr e ↦ elim (Bool-cases (x == p)) [ inl f ↦ rw (e, f, ==→eq x p f) | inr f ↦ rw (e, f) ]
  ]

  head_parent : (x : ℕ) → x ≢ c → (s'.node x).parent ≡ (s.node x).parent
  head_parent x ne = elim (Bool-cases (x == p)) [
    | inl e ↦ rw (ne→== x c ne, e, ==→eq x p e)
    | inr e ↦ rw (ne→== x c ne, e)
  ]

  head_parent_cut : (s'.node c).parent ≡ none
  head_parent_cut = rw (eq→== c c refl)

module _ (s : Fs) (p : ℕ) (name : Str) where
  match-Removed :
      (c : ℕ) (xs : List ℕ)
      → str_eq (s.node c).name name ≡ true
      → Distinct (c ∷ xs)
      → Chain s.node (s.node c).sibling xs
      → Removed s p (c ∷ xs) name (some c, head_cut s p c)
  unfolding first_named without
  match-Removed c xs e d ch = record {
    found = rw e;
    chain =
        rw (e, head_child s p c)
          (Chain-frame s.node (head_cut s p c).node (s.node c).sibling xs
            (All_map _ _ xs (λ x ne. head_sibling s p c x ne) d.0) ch);
    outside = λ x h. head_sibling s p c x (λ e. h.0 (sym e));
    child = head_other_child s p c;
    type = head_type s p c;
    parent = λ x. (
      λ e. let same : c ≡ x = cc in rw (← same) (head_parent_cut s p c),
      λ h. head_parent s p c x (some-ne c x h),
    );
    size = refl;
  }

  -- Behind the first child the loop changes the chain only.
  Cut-Removed :
      (out : Option ℕ × Fs) (c : ℕ) (xs : List ℕ)
      → str_eq (s.node c).name name ≡ false
      → (s.node p).child ≡ some c
      → Cut s c xs name out
      → Removed s p (c ∷ xs) name out
  unfolding first_named without
  Cut-Removed out c xs e link k = record {
    found = rw e k.found;
    chain = rw (e, k.child p) (link, k.chain);
    outside = λ x h. ap (λ (m : Node). m.sibling) (k.outside x (λ e. h.0 (sym e)) h.1);
    child = λ x _. k.child x;
    type = k.type;
    parent = k.parent;
    size = k.size;
  }

nothing-Removed :
    (s : Fs) (p : ℕ) (name : Str) → (s.node p).child ≡ none → Removed s p [] name (none, s)
unfolding first_named without
nothing-Removed s p name e = record {
  found = refl;
  chain = e;
  outside = λ x _. refl;
  child = λ x _. refl;
  type = λ x. refl;
  parent = λ x. (cc, λ _. refl);
  size = refl;
}

pub unlink_from-Removed :
    (fuel : ℕ) (s : Fs) (p : ℕ) (xs : List ℕ) (name : Str)
    → length xs < fuel
    → Chain s.node (s.node p).child xs
    → Distinct xs
    → Removed s p xs name (unlink_from fuel s p none (s.node p).child name)
unfolding unlink_from
unlink_from-Removed zero s p xs name h c d = absurd (omega arith)
unlink_from-Removed (suc fuel) s p [] name h c d = rw c (nothing-Removed s p name c)
unlink_from-Removed (suc fuel) s p (x ∷ xs) name h c d =
    let rest = unlink_from-Cut fuel s p x (s.node x).sibling xs name (omega arith) refl c.1 d in
    elim (Bool-cases (str_eq (s.node x).name name)) [
      | inl m ↦ rw (c.0, m) (match-Removed s p name x xs m d c.1)
      | inr m ↦ rw (c.0, m) (Cut-Removed s p name _ x xs m c.0 rest)
    ]
