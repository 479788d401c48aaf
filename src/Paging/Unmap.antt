-- ===== src/Paging/Unmap.antt =====
-- Taking a mapping away.
use snowkernel.Base.{
  ℕ, suc, ◌/◌, ◌<◌, true, update, update_self, List, [], ◌∷◌, length, All, ◌≡◌, refl, ap, ◌∙◌,
  arith, Bool-cases, inl, inr, Option, none, some,
}
use snowkernel.Paging.{
  Machine, page_size, slot, frame, present, pt_index, upper, find_table, vm_unmap_page,
  vm_get_phys_pml4, vm_get_phys,
}
use snowkernel.Paging.Levels.{IsLevelled, NoLarge}
use snowkernel.Paging.Map.{indices_of_page, upper_below, written-IsLevelled, written-upper}

-- The walk that makes no table: it ends at a table of the last level or at an entry that is not
-- present, and memories that agree on the tables above the last level lead it the same way.
data Finds (level : ℕ → ℕ) (m : Machine) (table : ℕ) (is : List ℕ) : Option ℕ → Type 0 where
  missing :
      ((word : ℕ → ℕ)
        → ((a i : ℕ) → 1 < level a → i < 512 → word (slot a i) ≡ m.word (slot a i))
        → find_table word table is ≡ none)
      → Finds level m table is none
  found :
      (t : ℕ)
      → level t ≡ 1
      → ((word : ℕ → ℕ)
          → ((a i : ℕ) → 1 < level a → i < 512 → word (slot a i) ≡ m.word (slot a i))
          → find_table word table is ≡ some t)
      → Finds level m table is (some t)

find_table-Finds :
    (level : ℕ → ℕ) (m : Machine) (free : List ℕ) (table : ℕ) (is : List ℕ)
    → IsLevelled level m free
    → All (λ i. i < 512) is
    → level table ≡ suc (length is)
    → NoLarge m.word table is
    → Finds level m table is (find_table m.word table is)
unfolding find_table
find_table-Finds level m free table [] v lt at none_large = found table at (λ word same. refl)
find_table-Finds level m free table (i ∷ is) v lt at none_large =
    elim (Bool-cases (present (m.word (slot table i)))) [
      | inl e ↦ rw e (
          further e (
            find_table-Finds level m free (frame (m.word (slot table i))) is v lt.1
              (v.entries table i (length is) at lt.0 e (none_large e).0) (none_large e).1))
      | inr e ↦ rw e (missing (λ word same. rw (same table i (omega (arith, at)) lt.0, e) refl))
    ]
  where
    further :
        {out : Option ℕ}
        → present (m.word (slot table i)) ≡ true
        → Finds level m (frame (m.word (slot table i))) is out
        → Finds level m table (i ∷ is) out
    further e (missing f) =
        missing (λ word same. rw (same table i (omega (arith, at)) lt.0, e) (f word same))
    further e (found t l f) =
        found t l (λ word same. rw (same table i (omega (arith, at)) lt.0, e) (f word same))

get_phys-missing :
    (m : Machine) (pml4 virt : ℕ)
    → find_table m.word pml4 (upper virt) ≡ none
    → vm_get_phys_pml4 m pml4 virt ≡ 0
unfolding vm_get_phys_pml4
get_phys-missing m pml4 virt e = rw (e, vm_get_phys_pml4) refl

get_phys-empty :
    (m : Machine) (pml4 virt t : ℕ)
    → find_table m.word pml4 (upper virt) ≡ some t
    → m.word (slot t (pt_index virt)) ≡ 0
    → vm_get_phys_pml4 m pml4 virt ≡ 0
unfolding vm_get_phys_pml4
get_phys-empty m pml4 virt t e z = rw (e, vm_get_phys_pml4, z) refl

-- Where the tables are well formed, whatever large pages they hold elsewhere, and the walk to the page
-- meets no large page: no address of the page translates after `vm_unmap_page`, and the tables are well
-- formed still.
pub vm_unmap_page_lem :
    (level : ℕ → ℕ) (m : Machine) (free : List ℕ) (virt virt' : ℕ)
    → IsLevelled level m free
    → level (frame m.cr3) ≡ 4
    → virt' / page_size ≡ virt / page_size
    → NoLarge m.word (frame m.cr3) (upper virt)
    → (vm_get_phys (vm_unmap_page m virt) virt' ≡ 0) × IsLevelled level (vm_unmap_page m virt) free
unfolding vm_unmap_page vm_get_phys
vm_unmap_page_lem level m free virt virt' v at h none_large =
    after
      (find_table-Finds level m free (frame m.cr3) (upper virt) v (upper_below virt) at none_large)
  where
    after :
        {out : Option ℕ}
        → Finds level m (frame m.cr3) (upper virt) out
        → let m' : Machine = elim out [
          | none ↦ m
          | some pt ↦ record m { word = update m.word (slot pt (pt_index virt)) 0 }
        ] in
          (vm_get_phys m' virt' ≡ 0) × IsLevelled level m' free
    after (missing f) =
        let (u, k) = indices_of_page virt virt' h in
        let nothing : find_table m.word (frame m.cr3) (upper virt') ≡ none =
          ap (λ is. find_table m.word (frame m.cr3) is) u ∙ f m.word (λ a i l b. refl) in
        (get_phys-missing m (frame m.cr3) virt' nothing, v)
    after (found t l f) =
        let (u, k) = indices_of_page virt virt' h in
        let w = update m.word (slot t (pt_index virt)) 0 in
        let m' : Machine = record m { word = w } in
        let there : find_table w (frame m.cr3) (upper virt') ≡ some t =
          ap (λ is. find_table w (frame m.cr3) is) u
          ∙ f w (written-upper level m free v t (pt_index virt) 0 l (omega arith)) in
        let empty : w (slot t (pt_index virt')) ≡ 0 =
          ap (λ i. w (slot t i)) k ∙ update_self m.word (slot t (pt_index virt)) 0 in
        (
          get_phys-empty m' (frame m.cr3) virt' t there empty,
          written-IsLevelled level m free v t (pt_index virt) 0 l (omega arith),
        )
