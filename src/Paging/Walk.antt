-- ===== src/Paging/Walk.antt =====
-- The walk that makes the missing tables.
use snowkernel.Base.{
  ℕ, suc, ◌+◌, ◌<◌, ◌==◌, if◌then◌else◌, update, List, [], ◌∷◌, length, All, ◌≡◌, ◌≢◌, refl, sym,
  ap, ◌∙◌, arith, Bool-cases, inl, inr, ne→==, Option, none, some, subst, true, false,
}
use snowkernel.Paging.{
  Machine, page_size, slot, frame, present, link_to, clear_page, alloc_table, next_or_new, reach,
  find_table,
}
use snowkernel.Paging.Step.{Stepped, stay, made, linked}
use snowkernel.Paging.Levels.{IsLevelled, NoLarge, large}
use snowkernel.Paging.Pool.{Given, Allocates, exhausted, given, pmm_alloc_page-Allocates}

-- The walk of `reach` ended at `t`. `level'` labels the tables after it: those there were keep their
-- levels, and the tables above the walk's first keep their entries. Any memory that agrees on the
-- tables above the last level leads the same way.
pub record Reached (level : ℕ → ℕ) (m : Machine) (table : ℕ) (is : List ℕ) (t : ℕ) (m' : Machine)
    : Type 0 where
  pub level' : ℕ → ℕ
  pub free' : List ℕ
  pub levelled : IsLevelled level' m' free'
  pub last : level' t ≡ 1
  pub kept_levels : (a : ℕ) → level a ≢ 0 → level' a ≡ level a
  pub kept :
      (a i : ℕ) → suc (length is) < level a → i < 512 → m'.word (slot a i) ≡ m.word (slot a i)
  pub leads :
      (word : ℕ → ℕ)
      → ((a i : ℕ) → 1 < level' a → i < 512 → word (slot a i) ≡ m'.word (slot a i))
      → find_table word table is ≡ some t

-- What a walk that gives no table found: every page was given out, up to the limit.
abbrev pub IsUsedUp : Machine → Type 0
IsUsedUp m = (m.pmm_free_list ≡ 0) × (m.pmm_end < m.pmm_cur + page_size)

-- What one level gives.
pub data Steps (level : ℕ → ℕ) (m : Machine) (free : List ℕ) (table i n : ℕ)
    (v : IsLevelled level m free) (lt : i < 512) (at : level table ≡ suc (suc n))
    : Option ℕ × Machine → Type 0 where
  stuck : {m' : Machine} → IsUsedUp m' → Steps level m free table i n v lt at (none, m')
  stepped :
      {t : ℕ} {m' : Machine}
      → Stepped level m free table i n v lt at t m'
      → Steps level m free table i n v lt at (some t, m')

module _ (level : ℕ → ℕ) (bss_end : ℕ) (m : Machine) (free : List ℕ) (table i n : ℕ)
    (v : IsLevelled level m free) (lt : i < 512) (at : level table ≡ suc (suc n)) where
  data Tables : ℕ × Machine → Type 0 where
    no_page : {m1 : Machine} → IsUsedUp m1 → Tables (0, m1)
    page :
        {p : ℕ} {m1 : Machine}
        → Given level m p m1
        → Tables (p, record m1 { word = clear_page p m1.word })

  table_of :
      {out : ℕ × Machine}
      → Allocates level bss_end m out
      → Tables (
          if out.0 == 0
          then (0, out.1)
          else (out.0, record out.1 { word = clear_page out.0 out.1.word }))
  table_of (exhausted a b) = no_page (a, b)
  table_of (given {p} {m'} g) = rw (ne→== p 0 g.page) (page g)

  step_of :
      {out : ℕ × Machine}
      → Tables out
      → Steps level m free table i n v lt at (
          let m2 = record out.1 { word = update out.1.word (slot table i) (link_to out.0) } in
          if out.0 == 0 then (none, out.1) else (some (frame (m2.word (slot table i))), m2))
  step_of (no_page h) = stuck h
  step_of (page {p} {m1} g) =
      let s = made level m free table i n v lt at p m1 g in
      rw (ne→== p 0 g.page) (
        subst
          (λ (t : ℕ).
            Steps level m free table i n v lt at
              (some t, linked level m free table i n v lt at p m1))
          (sym s.to) (stepped s))

  pub next_or_new-Steps :
      (present (m.word (slot table i)) ≡ true → large (m.word (slot table i)) ≡ false)
      → Steps level m free table i n v lt at (next_or_new bss_end m table i)
  unfolding next_or_new alloc_table
  next_or_new-Steps small = elim (Bool-cases (present (m.word (slot table i)))) [
    | inl e ↦ rw e (stepped (stay level m free table i n v lt at e (small e)))
    | inr e ↦ rw e (step_of (table_of (pmm_alloc_page-Allocates level bss_end m free v.pool)))
  ]

-- What the walk gives: a table of the last level, or nothing where the pages are used up.
pub data Reaches (level : ℕ → ℕ) (m : Machine) (table : ℕ) (is : List ℕ)
    : Option ℕ × Machine → Type 0 where
  used_up : {m' : Machine} → IsUsedUp m' → Reaches level m table is (none, m')
  reached :
      {t : ℕ} {m' : Machine} → Reached level m table is t m' → Reaches level m table is (some t, m')

-- The walk of `vm_map_page` from a table of the level that the indices ask for: it ends at a table
-- of the last level, to which the entries now lead, or finds the pages used up. It meets no large page.
pub reach-Reaches :
    (bss_end : ℕ) (is : List ℕ) (level : ℕ → ℕ) (m : Machine) (free : List ℕ) (table : ℕ)
    → IsLevelled level m free
    → All (λ i. i < 512) is
    → level table ≡ suc (length is)
    → NoLarge m.word table is
    → Reaches level m table is (reach bss_end m table is)
unfolding reach find_table
reach-Reaches bss_end [] level m free table v lt at none_large = reached (record {
  level' = level;
  free' = free;
  levelled = v;
  last = at;
  kept_levels = λ a ne. refl;
  kept = λ a i l h. refl;
  leads = λ word same. refl;
})
reach-Reaches bss_end (i ∷ is) level m free table v lt at none_large =
    after
      (λ t m1 s.
        reach-Reaches bss_end is s.level' m1 s.free' t s.levelled lt.1 s.next
          (s.rest is lt.1 none_large))
      (next_or_new-Steps level bss_end m free table i (length is) v lt.0 at (λ e. (none_large e).0))
  where
    extend :
        {t t' : ℕ} {m1 m2 : Machine} (s : Stepped level m free table i (length is) v lt.0 at t m1)
        → Reached s.level' m1 t is t' m2
        → Reached level m table (i ∷ is) t' m2
    extend {t} {t'} {m1} {m2} s r = record {
      level' = r.level';
      free' = r.free';
      levelled = r.levelled;
      last = r.last;
      kept_levels =
          λ a ne. r.kept_levels a (λ z. ne (sym (s.kept_levels a ne) ∙ z)) ∙ s.kept_levels a ne;
      kept = λ a j deep h.
          let same = s.kept_levels a (omega arith) in
          r.kept a j (omega arith) h
          ∙ s.kept a j (omega arith) (λ e. omega (arith, ap level e, at)) h;
      leads = λ word same.
          let l1 : s.level' table ≡ suc (suc (length is)) =
            s.kept_levels table (omega (arith, at)) ∙ at in
          let l2 : r.level' table ≡ suc (suc (length is)) =
            r.kept_levels table (omega (arith, l1)) ∙ l1 in
          let entry : word (slot table i) ≡ m1.word (slot table i) =
            same table i (omega (arith, l2)) lt.0 ∙ r.kept table i (omega (arith, l1)) lt.0 in
          rw (entry, s.there, s.to) (r.leads word same);
    }

    next :
        {t : ℕ} {m1 : Machine} (s : Stepped level m free table i (length is) v lt.0 at t m1)
        {out : Option ℕ × Machine}
        → Reaches s.level' m1 t is out
        → Reaches level m table (i ∷ is) out
    next s (used_up h) = used_up h
    next s (reached r) = reached (extend s r)

    after :
        ((t : ℕ) (m1 : Machine) (s : Stepped level m free table i (length is) v lt.0 at t m1)
          → Reaches s.level' m1 t is (reach bss_end m1 t is))
        → {out : Option ℕ × Machine} → Steps level m free table i (length is) v lt.0 at out
        → Reaches level m table
            (i ∷ is)
            (elim out.0 [ none ↦ (none, out.1) | some table' ↦ reach bss_end out.1 table' is ])
    after ih (stuck h) = used_up h
    after ih (stepped {t} {m'} s) = next s (ih t m' s)
