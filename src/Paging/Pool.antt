-- ===== src/Paging/Pool.antt =====
-- The page allocator: pages that are given out are cleared and were free.
use snowkernel.Base.{
  ℕ, ◌+◌, ◌/◌, ◌%◌, ◌^◌, ◌≤◌, ◌<◌, ◌==◌, ltb, update, List, [], ◌∷◌, All, All_map, All_both, ◌≡◌,
  ◌≢◌, refl, sym, arith, Bool-cases, subst, inl, inr, ==→eq, eq→==, ne→==,
}
use snowkernel.Paging.{Machine, page_size, slot, clear_page, pmm_init, pmm_alloc_page}

-- The free list: its pages are linked through their first words.
abbrev pub FreeList : (ℕ → ℕ) → ℕ → List ℕ → Type 0
FreeList word p [] = p ≡ 0
FreeList word p (x ∷ xs) = (p ≡ x) × (x ≢ 0) × FreeList word (word (x / 8)) xs

abbrev pub NotIn : ℕ → List ℕ → Type 0
NotIn x xs = All (λ y. y ≢ x) xs

abbrev pub Distinct : List ℕ → Type 0
Distinct [] = Unit
Distinct (x ∷ xs) = NotIn x xs × Distinct xs

-- `level a` is the level of the table at the address `a`, and 0 where there is no table. The tables
-- and the free pages stand at page boundaries, no free page is a table, and the limit and the next page
-- stay a page below 2^64.
pub record IsPool (level : ℕ → ℕ) (m : Machine) (free : List ℕ) : Type 0 where
  pub started : m.pmm_cur ≢ 0
  pub cur_aligned : m.pmm_cur % page_size ≡ 0
  pub fits : m.pmm_cur + page_size < 2 ^ 64
  pub limit : m.pmm_end + page_size < 2 ^ 64
  pub chain : FreeList m.word m.pmm_free_list free
  pub distinct : Distinct free
  pub aligned : All (λ p. p % page_size ≡ 0) free
  pub untaken : All (λ p. level p ≡ 0) free
  pub below : All (λ p. p < m.pmm_cur) free
  pub unused : (p : ℕ) → m.pmm_cur ≤ p → level p ≡ 0
  pub tables : (p : ℕ) → level p ≢ 0 → p % page_size ≡ 0

pub FreeList-frame :
    (word word' : ℕ → ℕ) (p : ℕ) (xs : List ℕ)
    → All (λ x. word' (x / 8) ≡ word (x / 8)) xs
    → FreeList word p xs
    → FreeList word' p xs
FreeList-frame word word' p [] h f = f
FreeList-frame word word' p (x ∷ xs) h f =
    (f.0, f.1, rw h.0 (FreeList-frame word word' (word (x / 8)) xs h.1 f.2))

-- Words outside the free pages do not matter to the pool.
pub IsPool-words :
    (level : ℕ → ℕ) (m : Machine) (free : List ℕ) (word' : ℕ → ℕ)
    → IsPool level m free
    → ((a : ℕ) → a % page_size ≡ 0 → level a ≡ 0 → word' (slot a 0) ≡ m.word (slot a 0))
    → IsPool level (record m { word = word' }) free
IsPool-words level m free word' v h = record {
  started = v.started;
  cur_aligned = v.cur_aligned;
  fits = v.fits;
  limit = v.limit;
  chain =
      FreeList-frame m.word word' m.pmm_free_list free
        (All_both _ _ _ free
          (λ a al z. subst (λ (k : ℕ). word' k ≡ m.word k) (omega arith) (h a al z)) v.aligned
          v.untaken)
        v.chain;
  distinct = v.distinct;
  aligned = v.aligned;
  untaken = v.untaken;
  below = v.below;
  unused = v.unused;
  tables = v.tables;
}

pub clear_page-outside :
    (p a j : ℕ) (word : ℕ → ℕ)
    → p % page_size ≡ 0
    → a % page_size ≡ 0
    → a ≢ p
    → j < 512
    → clear_page p word (slot a j) ≡ word (slot a j)
clear_page-outside p a j word h k ne lt = ground arith

pub clear_page-inside : (p j : ℕ) (word : ℕ → ℕ) → j < 512 → clear_page p word (slot p j) ≡ 0
clear_page-inside p j word lt = ground arith

-- A page was given out: it is cleared, it was free, and nothing else changed.
pub record Given (level : ℕ → ℕ) (m : Machine) (p : ℕ) (m' : Machine) : Type 0 where
  pub free' : List ℕ
  pub page : p ≢ 0
  pub aligned : p % page_size ≡ 0
  pub was_free : level p ≡ 0
  pub cleared : (j : ℕ) → j < 512 → m'.word (slot p j) ≡ 0
  pub others :
      (a j : ℕ) → a % page_size ≡ 0 → a ≢ p → j < 512 → m'.word (slot a j) ≡ m.word (slot a j)
  pub pool : (n : ℕ) → IsPool (update level p n) m' free'

-- What is left of the free pages keeps its links while the page `p` is cleared.
links_kept :
    (p : ℕ) (xs : List ℕ)
    → p % page_size ≡ 0
    → NotIn p xs
    → All (λ x. x % page_size ≡ 0) xs
    → (word : ℕ → ℕ) → All (λ x. clear_page p word (x / 8) ≡ word (x / 8)) xs
links_kept p [] h ne al word = tt
links_kept p (x ∷ xs) h ne al word =
    (ground (arith, h, al.0, ne.0), links_kept p xs h ne.1 al.1 word)

levels_kept :
    (level : ℕ → ℕ) (p n : ℕ) (xs : List ℕ)
    → NotIn p xs
    → All (λ x. level x ≡ 0) xs
    → All (λ x. update level p n x ≡ 0) xs
levels_kept level p n [] ne z = tt
levels_kept level p n (x ∷ xs) ne z = (rw (ne→== x p ne.0) z.0, levels_kept level p n xs ne.1 z.1)

module _ (level : ℕ → ℕ) (bss_end : ℕ) (m : Machine) where
  -- The page at the head of the free list.
  from_list :
      (x : ℕ) (xs : List ℕ)
      → IsPool level m (x ∷ xs)
      → Given level m x (record m { pmm_free_list = m.word (x / 8); word = clear_page x m.word })
  from_list x xs v = record {
    free' = xs;
    page = v.chain.1;
    aligned = v.aligned.0;
    was_free = v.untaken.0;
    cleared = λ j lt. clear_page-inside x j m.word lt;
    others = λ a j al ne lt. clear_page-outside x a j m.word v.aligned.0 al ne lt;
    pool = λ n. record {
      started = v.started;
      cur_aligned = v.cur_aligned;
      fits = v.fits;
      limit = v.limit;
      chain =
          FreeList-frame m.word (clear_page x m.word) (m.word (x / 8)) xs
            (links_kept x xs v.aligned.0 v.distinct.0 v.aligned.1 m.word) v.chain.2;
      distinct = v.distinct.1;
      aligned = v.aligned.1;
      untaken = levels_kept level x n xs v.distinct.0 v.untaken.1;
      below = v.below.1;
      unused = λ p h. rw (ne→== p x (λ e. omega (arith, v.below.0))) (v.unused p h);
      tables = λ p ne. elim (Bool-cases (p == x)) [
        | inl e ↦ rw (==→eq p x e) v.aligned.0
        | inr e ↦ v.tables p (λ z. ne (rw e z))
      ];
    };
  }

  -- The next page that was never given out.
  from_end :
      (xs : List ℕ)
      → IsPool level m xs
      → m.pmm_cur + page_size ≤ m.pmm_end
      → Given level m m.pmm_cur
          (record m { word = clear_page m.pmm_cur m.word; pmm_cur = m.pmm_cur + page_size })
  from_end xs v room = record {
    free' = xs;
    page = v.started;
    aligned = v.cur_aligned;
    was_free = v.unused m.pmm_cur (omega arith);
    cleared = λ j lt. clear_page-inside m.pmm_cur j m.word lt;
    others = λ a j al ne lt. clear_page-outside m.pmm_cur a j m.word v.cur_aligned al ne lt;
    pool = λ n. record {
      started = omega arith;
      cur_aligned = omega (arith, v.cur_aligned);
      fits = omega (arith, room, v.limit);
      limit = v.limit;
      chain =
          FreeList-frame m.word (clear_page m.pmm_cur m.word) m.pmm_free_list xs
            (links_kept m.pmm_cur xs v.cur_aligned not_cur v.aligned m.word) v.chain;
      distinct = v.distinct;
      aligned = v.aligned;
      untaken = levels_kept level m.pmm_cur n xs not_cur v.untaken;
      below = All_map _ _ xs (λ x h. omega arith) v.below;
      unused = λ p h. rw (ne→== p m.pmm_cur (omega arith)) (v.unused p (omega arith));
      tables = λ p ne. elim (Bool-cases (p == m.pmm_cur)) [
        | inl e ↦ rw (==→eq p m.pmm_cur e) v.cur_aligned
        | inr e ↦ v.tables p (λ z. ne (rw e z))
      ];
    };
  }
    where
      not_cur : NotIn m.pmm_cur xs
      not_cur = All_map _ _ xs (λ x h. omega arith) v.below

  -- `pmm_alloc_page`: it refuses only when no page was freed and the limit is reached, and then
  -- changes nothing; else the page it gives was free, is cleared, and belongs to no one.
  pub data Allocates : ℕ × Machine → Type 0 where
    exhausted : m.pmm_free_list ≡ 0 → m.pmm_end < m.pmm_cur + page_size → Allocates (0, m)
    given : {p : ℕ} {m' : Machine} → Given level m p m' → Allocates (p, m')

  pmm_init-same : m.pmm_cur ≢ 0 → pmm_init bss_end m ≡ m
  unfolding pmm_init
  pmm_init-same ne = rw (ne→== m.pmm_cur 0 ne) refl

  -- After the first call every allocation that finds a page gives one that was free and is cleared,
  -- leaves all other pages alone and keeps the pool well formed, whatever level the page is then
  -- used for; where no page was given back and the limit is reached it gives null and changes
  -- nothing.
  pub pmm_alloc_page-Allocates :
      (xs : List ℕ) → IsPool level m xs → Allocates (pmm_alloc_page bss_end m)
  unfolding pmm_alloc_page
  pmm_alloc_page-Allocates [] v =
      let next : (m.pmm_cur + page_size) % 2 ^ 64 ≡ m.pmm_cur + page_size = omega (arith, v.fits) in
      rw (pmm_init-same v.started, eq→== m.pmm_free_list 0 v.chain, next)
        (elim (Bool-cases (ltb m.pmm_end (m.pmm_cur + page_size))) [
          | inl e ↦ rw e (exhausted v.chain (ground (arith, e)))
          | inr e ↦ rw e (given (from_end [] v (ground (arith, e))))
        ])
  pmm_alloc_page-Allocates (x ∷ xs) v =
      let ne : m.pmm_free_list ≢ 0 = omega (arith, v.chain.0, v.chain.1) in
      rw (pmm_init-same v.started, ne→== m.pmm_free_list 0 ne)
        (given (
          subst
            (λ (p : ℕ).
              Given level m p
                (record m { pmm_free_list = m.word (p / 8); word = clear_page p m.word }))
            (sym v.chain.0) (from_list x xs v)))
