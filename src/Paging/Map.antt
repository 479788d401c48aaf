-- ===== src/Paging/Map.antt =====
-- Mapping a page and translating its addresses.
use Prim.Native.Nat.{bit_or}
use snowkernel.Base.{
  ℕ, ◌+◌, ◌/◌, ◌%◌, ◌<◌, true, update, update_self, update_ne, List, All, ◌≡◌, ◌≢◌, refl, sym, ap,
  ◌∙◌, arith, Option, none, some,
}
use snowkernel.Base.Bits.{bit_or_add}
use snowkernel.Paging.{
  Machine, page_size, slot, frame, present, pml4_index, pdp_index, pd_index, pt_index, upper,
  find_table, vm_map_page_pml4, vm_get_phys_pml4,
}
use snowkernel.Paging.Pool.{IsPool-words}
use snowkernel.Paging.Levels.{IsLevelled, NoLarge, large, slots_differ}
use snowkernel.Paging.Walk.{Reached, Reaches, used_up, reached, IsUsedUp, reach-Reaches}

pub upper_below : (virt : ℕ) → All (λ i. i < 512) (upper virt)
upper_below virt = (omega arith, (omega arith, (omega arith, tt)))

-- Addresses of one page have the same indices.
pub indices_of_page :
    (virt virt' : ℕ)
    → virt' / page_size ≡ virt / page_size
    → (upper virt' ≡ upper virt) × (pt_index virt' ≡ pt_index virt)
indices_of_page virt virt' h =
    let a : pml4_index virt' ≡ pml4_index virt = omega (arith, h) in
    let b : pdp_index virt' ≡ pdp_index virt = omega (arith, h) in
    let c : pd_index virt' ≡ pd_index virt = omega (arith, h) in
    (rw (a, b, c) refl, omega (arith, h))

entry_of : (phys flags : ℕ) → flags < 4096 → bit_or (frame phys) flags ≡ frame phys + flags
entry_of phys flags h = bit_or_add 12 (phys / page_size) flags (omega arith)

-- A last-level table's entry was written: the tables above it are what they were.
module _ (level : ℕ → ℕ) (m : Machine) (free : List ℕ) (v : IsLevelled level m free) (pt i w : ℕ)
    (last : level pt ≡ 1) (lt : i < 512) where
  abbrev pub written : Machine
  written = record m { word = update m.word (slot pt i) w }

  upper-written :
      (a j : ℕ)
      → level a ≢ 1
      → a % page_size ≡ 0
      → j < 512
      → written.word (slot a j) ≡ m.word (slot a j)
  upper-written a j ne al h = update_ne m.word (slot pt i) (slot a j) w (
      slots_differ a pt j i al (v.pool.tables pt (omega (arith, last)))
        (λ e. ne (ap level e ∙ last)) h lt)

  pub written-IsLevelled : IsLevelled level written free
  written-IsLevelled = record {
    pool =
        IsPool-words level m free written.word v.pool
          (λ a al z. upper-written a 0 (omega (arith, z)) al (omega arith));
    entries = λ a j n l h e small.
        let same = upper-written a j (omega (arith, l)) (v.pool.tables a (omega (arith, l))) h in
        ap (λ (x : ℕ). level (frame x)) same
        ∙ v.entries a j n l h (sym (ap present same) ∙ e) (sym (ap large same) ∙ small);
  }

  pub written-upper :
      (a j : ℕ) → 1 < level a → j < 512 → written.word (slot a j) ≡ m.word (slot a j)
  written-upper a j deep h = upper-written a j (omega arith) (v.pool.tables a (omega arith)) h

-- A translation by the last table's entry.
get_phys_by :
    (m : Machine) (pml4 virt t e : ℕ)
    → find_table m.word pml4 (upper virt) ≡ some t
    → m.word (slot t (pt_index virt)) ≡ e
    → present e ≡ true
    → vm_get_phys_pml4 m pml4 virt ≡ frame e + virt % page_size
unfolding vm_get_phys_pml4
get_phys_by m pml4 virt t e found there on =
    rw (found, vm_get_phys_pml4, there, on)
      (bit_or_add 12 (e / page_size) (virt % page_size) (omega arith))

-- What `vm_map_page_pml4` has done: the page is mapped and the tables are well formed, or there was
-- no page left for a table.
pub data Maps (pml4 virt phys : ℕ) : Machine → Type 0 where
  no_table : {m' : Machine} → IsUsedUp m' → Maps pml4 virt phys m'
  mapped :
      {m' : Machine} (level' : ℕ → ℕ) (free' : List ℕ)
      → IsLevelled level' m' free'
      → level' pml4 ≡ 4
      → ((virt' : ℕ)
          → virt' / page_size ≡ virt / page_size
          → vm_get_phys_pml4 m' pml4 virt' ≡ frame phys + virt' % page_size)
      → Maps pml4 virt phys m'

-- Where the tables are well formed, whatever large pages they hold elsewhere, the walk to the page
-- meets no large page, and the flags are a page's attribute bits with the present bit:
-- `vm_map_page_pml4` makes the missing tables and keeps the tables well formed, and every address of
-- the page then translates to its place in the frame; else the pages are used up.
pub vm_map_page_pml4-Maps :
    (bss_end : ℕ) (level : ℕ → ℕ) (m : Machine) (free : List ℕ) (pml4 virt phys flags : ℕ)
    → IsLevelled level m free
    → level pml4 ≡ 4
    → flags < 4096
    → flags % 2 ≡ 1
    → NoLarge m.word pml4 (upper virt)
    → Maps pml4 virt phys (vm_map_page_pml4 bss_end m pml4 virt phys flags)
unfolding vm_map_page_pml4
vm_map_page_pml4-Maps bss_end level m free pml4 virt phys flags v at fl on none_large =
    after (reach-Reaches bss_end (upper virt) level m free pml4 v (upper_below virt) at none_large)
  where
    entry : ℕ
    entry = bit_or (frame phys) flags

    translates :
        {t : ℕ} {m1 : Machine} (r : Reached level m pml4 (upper virt) t m1) (virt' : ℕ)
        → virt' / page_size ≡ virt / page_size
        → vm_get_phys_pml4
            (record m1 { word = update m1.word (slot t (pt_index virt)) entry })
            pml4
            virt'
          ≡ frame phys + virt' % page_size
    translates {t} {m1} r virt' h =
        let w = update m1.word (slot t (pt_index virt)) entry in
        let m2 : Machine = record m1 { word = w } in
        let (u, k) = indices_of_page virt virt' h in
        let upper_kept =
          written-upper r.level' m1 r.free' r.levelled t (pt_index virt) entry r.last
            (omega arith) in
        let found : find_table w pml4 (upper virt') ≡ some t =
          ap (λ is. find_table w pml4 is) u ∙ r.leads w upper_kept in
        let there : w (slot t (pt_index virt')) ≡ frame phys + flags =
          ap (λ i. w (slot t i)) k
          ∙ update_self m1.word (slot t (pt_index virt)) entry
          ∙ entry_of phys flags fl in
        get_phys_by m2 pml4 virt' t (frame phys + flags) found there (ground (arith, on, fl))
        ∙ omega (arith, fl)

    after :
        {out : Option ℕ × Machine}
        → Reaches level m pml4 (upper virt) out
        → Maps pml4 virt phys (elim out.0 [
          | none ↦ out.1
          | some pt ↦ record out.1 { word = update out.1.word (slot pt (pt_index virt)) entry }
        ])
    after (used_up h) = no_table h
    after (reached {t} {m'} r) =
        let four : r.level' pml4 ≡ 4 = r.kept_levels pml4 (omega (arith, at)) ∙ at in
        mapped r.level' r.free'
          (written-IsLevelled r.level' m' r.free' r.levelled t (pt_index virt) entry r.last
            (omega arith))
          four (translates r)
