-- ===== src/Paging/Step.antt =====
-- One level of the walk: the next table is there, or it is made from a page that was free.
use mathlib.Core.Bool.{false≢true}
use snowkernel.Base.{
  ℕ, suc, ◌%◌, ◌<◌, true, false, ◌==◌, update, update_self, update_ne, List, [], ◌∷◌, All, ◌≡◌, ◌≢◌,
  refl, sym, ap, ◌∙◌, arith, Bool-cases, inl, inr, ==→eq, ==→ne, eq→==, ne→==,
}
use snowkernel.Paging.{Machine, page_size, slot, frame, present, link_to, clear_page}
use snowkernel.Paging.Levels.{IsLevelled, NoLarge, large, link_to-frame, slots_differ}
use snowkernel.Paging.Pool.{IsPool, Given, clear_page-outside, clear_page-inside, IsPool-words}

module _ (level : ℕ → ℕ) (m : Machine) (free : List ℕ) (table i n : ℕ) (v : IsLevelled level m free)
    (lt : i < 512) (at : level table ≡ suc (suc n)) where
  -- The entry's table is there, or it was made: one step of the walk.
  pub record Stepped (t : ℕ) (m' : Machine) : Type 0 where
    pub level' : ℕ → ℕ
    pub free' : List ℕ
    pub levelled : IsLevelled level' m' free'
    pub next : level' t ≡ suc n
    pub kept_levels : (a : ℕ) → level a ≢ 0 → level' a ≡ level a
    pub kept :
        (a j : ℕ) → level a ≢ 0 → a ≢ table → j < 512 → m'.word (slot a j) ≡ m.word (slot a j)
    pub there : present (m'.word (slot table i)) ≡ true
    pub to : frame (m'.word (slot table i)) ≡ t
    pub rest :
        (is : List ℕ) → All (λ j. j < 512) is → NoLarge m.word table (i ∷ is) → NoLarge m'.word t is

  pub stay :
      present (m.word (slot table i)) ≡ true
      → large (m.word (slot table i)) ≡ false
      → Stepped (frame (m.word (slot table i))) m
  stay e small = record {
    level' = level;
    free' = free;
    levelled = v;
    next = v.entries table i n at lt e small;
    kept_levels = λ a ne. refl;
    kept = λ a j ne other lt. refl;
    there = e;
    to = refl;
    rest = λ is b h. (h e).1;
  }

  abbrev pub linked : ℕ → Machine → Machine
  linked p m1 = record m1 { word = update (clear_page p m1.word) (slot table i) (link_to p) }

  module _ (p : ℕ) (m1 : Machine) (g : Given level m p m1) where
    abbrev level1 : ℕ → ℕ
    level1 = update level p (suc n)

    table_aligned : table % page_size ≡ 0
    table_aligned = v.pool.tables table (omega (arith, at))

    table_ne : table ≢ p
    table_ne e = omega (arith, at, ap level e, g.was_free)

    at_entry : (linked p m1).word (slot table i) ≡ link_to p
    at_entry = update_self (clear_page p m1.word) (slot table i) (link_to p)

    at_new : (j : ℕ) → j < 512 → (linked p m1).word (slot p j) ≡ 0
    at_new j h =
        update_ne (clear_page p m1.word) (slot table i) (slot p j) (link_to p)
          (slots_differ p table j i g.aligned table_aligned (λ e. table_ne (sym e)) h lt)
        ∙ clear_page-inside p j m1.word h

    at_old :
        (a j : ℕ)
        → a % page_size ≡ 0
        → a ≢ p
        → j < 512
        → slot a j ≢ slot table i
        → (linked p m1).word (slot a j) ≡ m.word (slot a j)
    at_old a j al ne h other =
        update_ne (clear_page p m1.word) (slot table i) (slot a j) (link_to p) other
        ∙ clear_page-outside p a j m1.word g.aligned al ne h
        ∙ g.others a j al ne h

    level1-old : (a : ℕ) → level a ≢ 0 → level1 a ≡ level a
    level1-old a ne = rw (ne→== a p (λ e. ne (ap level e ∙ g.was_free)))

    linked-IsPool : IsPool level1 (linked p m1) g.free'
    linked-IsPool = IsPool-words level1 m1 g.free' (linked p m1).word (g.pool (suc n)) same
      where
        same :
            (a : ℕ)
            → a % page_size ≡ 0
            → level1 a ≡ 0
            → (linked p m1).word (slot a 0) ≡ m1.word (slot a 0)
        same a al z =
            let ne : a ≢ p = λ e. omega (arith, z, ap level1 e, update_self level p (suc n)) in
            let other : a ≢ table = λ e.
              omega (arith, at, ap level1 e, level1-old table (λ y. omega (arith, at, y)), z) in
            update_ne (clear_page p m1.word) (slot table i) (slot a 0) (link_to p)
              (slots_differ a table 0 i al table_aligned other (omega arith) lt)
            ∙ clear_page-outside p a 0 m1.word g.aligned al ne (omega arith)

    linked-entries :
        (a j k : ℕ)
        → level1 a ≡ suc (suc k)
        → j < 512
        → present ((linked p m1).word (slot a j)) ≡ true
        → large ((linked p m1).word (slot a j)) ≡ false
        → level1 (frame ((linked p m1).word (slot a j))) ≡ suc k
    linked-entries a j k l h e small = elim (Bool-cases (a == p)) [
      | inl same ↦
          let empty : (linked p m1).word (slot a j) ≡ 0 =
            ap (λ (x : ℕ). (linked p m1).word (slot x j)) (==→eq a p same) ∙ at_new j h in
          absurd (false≢true (sym (ap present empty) ∙ e))
      | inr ne ↦
          let old : level a ≡ suc (suc k) = sym (update_ne level p a (suc n) (==→ne a p ne)) ∙ l in
          let al = v.pool.tables a (omega (arith, old)) in
          elim (Bool-cases (slot a j == slot table i)) [
            | inl entry ↦
                let same : a ≡ table =
                  omega (arith, al, table_aligned, ==→eq (slot a j) (slot table i) entry) in
                let to : frame ((linked p m1).word (slot a j)) ≡ p =
                  ap (λ (x : ℕ). frame ((linked p m1).word x))
                    (==→eq (slot a j) (slot table i) entry)
                  ∙ ap frame at_entry
                  ∙ (link_to-frame p g.aligned).0 in
                ap level1 to ∙ update_self level p (suc n) ∙ omega (arith, old, at, ap level same)
            | inr other ↦
                let unchanged =
                  at_old a j al (==→ne a p ne) h (==→ne (slot a j) (slot table i) other) in
                let below =
                  v.entries a j k old h (sym (ap present unchanged) ∙ e)
                    (sym (ap large unchanged) ∙ small) in
                ap (λ (w : ℕ). level1 (frame w)) unchanged
                ∙ (level1-old (frame (m.word (slot a j))) (omega (arith, below)) ∙ below)
          ]
    ]

    new-NoLarge : (is : List ℕ) → All (λ j. j < 512) is → NoLarge (linked p m1).word p is
    new-NoLarge [] b = tt
    new-NoLarge (j ∷ is) b = λ e. absurd (false≢true (sym (ap present (at_new j b.0)) ∙ e))

    pub made : Stepped p (linked p m1)
    made = record {
      level' = level1;
      free' = g.free';
      levelled = record { pool = linked-IsPool; entries = linked-entries };
      next = rw (eq→== p p refl);
      kept_levels = level1-old;
      kept = λ a j ne other h.
          let al = v.pool.tables a ne in
          at_old a j al (λ e. ne (ap level e ∙ g.was_free)) h
            (slots_differ a table j i al table_aligned other h lt);
      there = rw at_entry ((link_to-frame p g.aligned).1);
      to = rw at_entry ((link_to-frame p g.aligned).0);
      rest = λ is b h. new-NoLarge is b;
    }
