-- ===== src/Paging.antt =====
-- Physical pages and page tables: src/kernel/pmm.c and src/kernel/vm.c.

pub mod Pool
pub mod Levels
pub mod Step
pub mod Walk
pub mod Map
pub mod Unmap
mod Tests
use Prim.Native.Nat.{bit_or}
use snowkernel.Base.{
  ℕ, zero, suc, ◌+◌, ◌-◌, ◌*◌, ◌/◌, ◌%◌, ◌^◌, Bool, true, false, ◌&&◌, Option, none, some, ◌==◌,
  leb, ltb, if◌then◌else◌, not, update, List, [], ◌∷◌,
}

abbrev pub page_size : ℕ
page_size = 4096

abbrev pub pmm_limit : ℕ
pmm_limit = 128 * 1024 * 1024

-- Physical memory as its 64-bit words, by the word's address divided by 8, with the static variables
-- of the two files and the register CR3. Every page and every table stands at a multiple of 4096,
-- so no access is misaligned.
pub record Machine : Type 0 where
  pub word : ℕ → ℕ
  pub pmm_cur : ℕ
  pub pmm_end : ℕ
  pub pmm_free_list : ℕ
  pub cr3 : ℕ
  pub kernel_cr3 : ℕ

-- `& ~0xFFF`.
abbrev pub frame : ℕ → ℕ
frame w = w / page_size * page_size

-- Entry `i` of the table at the address `table`.
abbrev pub slot : ℕ → ℕ → ℕ
slot table i = table / 8 + i

-- `__bss_end`, which the linker sets, is the parameter `bss_end`.
unfoldable pub pmm_init : ℕ → Machine → Machine
pmm_init bss_end m =
    if m.pmm_cur == 0
    then record m { pmm_cur = frame ((bss_end + page_size - 1) % 2 ^ 64); pmm_end = pmm_limit }
    else m

-- The loop that clears a page.
abbrev pub clear_page : ℕ → (ℕ → ℕ) → (ℕ → ℕ)
clear_page p word = λ j. if leb (p / 8) j && ltb j (p / 8 + 512) then 0 else word j

-- The address of a cleared page; 0 is the null pointer.
unfoldable pub pmm_alloc_page : ℕ → Machine → ℕ × Machine
unfolding pmm_init
pmm_alloc_page bss_end m0 =
    let m = pmm_init bss_end m0 in
    let p = m.pmm_free_list in
    let next = (m.pmm_cur + page_size) % 2 ^ 64 in
    if not (p == 0)
    then (p, record m { pmm_free_list = m.word (p / 8); word = clear_page p m.word })
    else if ltb m.pmm_end next
    then (0, m)
    else (m.pmm_cur, record m { word = clear_page m.pmm_cur m.word; pmm_cur = next })

unfoldable pub pmm_free_page : Machine → ℕ → Machine
pmm_free_page m p =
    if p == 0
    then m
    else record m { word = update m.word (p / 8) m.pmm_free_list; pmm_free_list = p }

abbrev pub pml4_index : ℕ → ℕ
pml4_index virt = virt / 2 ^ 39 % 512

abbrev pub pdp_index : ℕ → ℕ
pdp_index virt = virt / 2 ^ 30 % 512

abbrev pub pd_index : ℕ → ℕ
pd_index virt = virt / 2 ^ 21 % 512

abbrev pub pt_index : ℕ → ℕ
pt_index virt = virt / 2 ^ 12 % 512

-- `entry & PTE_PRESENT`.
abbrev pub present : ℕ → Bool
present entry = entry % 2 == 1

-- The page is cleared once more.
unfoldable pub alloc_table : ℕ → Machine → ℕ × Machine
unfolding pmm_alloc_page
alloc_table bss_end m =
    let (p, m1) = pmm_alloc_page bss_end m in
    if p == 0 then (0, m1) else (p, record m1 { word = clear_page p m1.word })

-- `(uint64_t)table | PTE_PRESENT | PTE_WRITABLE`.
abbrev pub link_to : ℕ → ℕ
link_to table = bit_or (bit_or table 1) 2

-- One level of the walk of `vm_map_page`: the next table, which is made where the entry is not
-- present; `none` where there is no page for it.
unfoldable pub next_or_new : ℕ → Machine → ℕ → ℕ → Option ℕ × Machine
unfolding alloc_table
next_or_new bss_end m table i =
    if present (m.word (slot table i))
    then (some (frame (m.word (slot table i))), m)
    else let (p, m1) = alloc_table bss_end m in
      if p == 0
      then (none, m1)
      else let m2 = record m1 { word = update m1.word (slot table i) (link_to p) } in
        (some (frame (m2.word (slot table i))), m2)

-- The levels one after the other, by the indices into them.
unfoldable pub reach : ℕ → Machine → ℕ → List ℕ → Option ℕ × Machine
unfolding next_or_new
reach bss_end m table [] = (some table, m)
reach bss_end m table (i ∷ is) =
    let (t, m1) = next_or_new bss_end m table i in
    elim t [ none ↦ (none, m1) | some table' ↦ reach bss_end m1 table' is ]

-- The indices above the last level.
abbrev pub upper : ℕ → List ℕ
upper virt = pml4_index virt ∷ pdp_index virt ∷ pd_index virt ∷ []

unfoldable pub vm_map_page_pml4 : ℕ → Machine → ℕ → ℕ → ℕ → ℕ → Machine
unfolding reach
vm_map_page_pml4 bss_end m pml4 virt phys flags =
    let (t, m1) = reach bss_end m pml4 (upper virt) in
    elim t [
      | none ↦ m1
      | some pt ↦ record m1 {
        word = update m1.word (slot pt (pt_index virt)) (bit_or (frame phys) flags);
      }
    ]

-- The same from CR3, and a flush of the translation cache, which memory does not show.
unfoldable pub vm_map_page : ℕ → Machine → ℕ → ℕ → ℕ → Machine
unfolding vm_map_page_pml4
vm_map_page bss_end m virt phys flags = vm_map_page_pml4 bss_end m (frame m.cr3) virt phys flags

-- The walk that makes no table.
unfoldable pub find_table : (ℕ → ℕ) → ℕ → List ℕ → Option ℕ
find_table word table [] = some table
find_table word table (i ∷ is) =
    let rest = find_table word (frame (word (slot table i))) is in
    if present (word (slot table i)) then rest else none

unfoldable pub vm_unmap_page : Machine → ℕ → Machine
unfolding find_table
vm_unmap_page m virt = elim (find_table m.word (frame m.cr3) (upper virt)) [
  | none ↦ m
  | some pt ↦ record m { word = update m.word (slot pt (pt_index virt)) 0 }
]

-- 0 where the address is not mapped.
unfoldable pub vm_get_phys_pml4 : Machine → ℕ → ℕ → ℕ
unfolding find_table
vm_get_phys_pml4 m pml4 virt = elim (find_table m.word pml4 (upper virt)) [
  | none ↦ 0
  | some pt ↦
      let entry = m.word (slot pt (pt_index virt)) in
      if present entry then bit_or (frame entry) (virt % 4096) else 0
]

unfoldable pub vm_get_phys : Machine → ℕ → ℕ
unfolding vm_get_phys_pml4
vm_get_phys m virt = vm_get_phys_pml4 m (frame m.cr3) virt

-- The 512 entries of the current top table are copied to a new page.
unfoldable pub vm_clone_current_pml4 : ℕ → Machine → ℕ × Machine
unfolding pmm_alloc_page
vm_clone_current_pml4 bss_end m =
    let (p, m1) = pmm_alloc_page bss_end m in
    if p == 0
    then (0, m1)
    else (p, record m1 { word = copy_words 512 m1.word (p / 8) (frame m1.cr3 / 8) })
  where
    copy_words : ℕ → (ℕ → ℕ) → ℕ → ℕ → (ℕ → ℕ)
    copy_words zero word to from = word
    copy_words (suc n) word to from = copy_words n (update word to (word from)) (to + 1) (from + 1)

unfoldable pub vm_clear_kernel_mappings : Machine → ℕ → Machine
vm_clear_kernel_mappings m pml4 = record m { word = clear_page pml4 m.word }

unfoldable pub vm_set_cr3 : Machine → ℕ → Machine
vm_set_cr3 m cr3 = record m { cr3 = cr3 }

unfoldable pub vm_set_kernel_cr3 : Machine → ℕ → Machine
vm_set_kernel_cr3 m cr3 = record m { kernel_cr3 = frame cr3 }

unfoldable pub vm_get_kernel_cr3 : Machine → ℕ
vm_get_kernel_cr3 m = m.kernel_cr3
