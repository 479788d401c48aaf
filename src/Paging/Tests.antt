-- ===== src/Paging/Tests.antt =====
-- Tests of mapping at a concrete machine.
use snowkernel.Base.{ℕ, ◌+◌, ◌-◌, ◌*◌, ◌==◌, leb, ltb, ◌&&◌, if◌then◌else◌, [], ◌≡◌, refl, arith}
use mathlib.Core.Bool.{false≢true}
use snowkernel.Paging.{
  Machine, pmm_limit, pmm_alloc_page, vm_map_page_pml4, vm_unmap_page, vm_get_phys,
}
use snowkernel.Paging.Pool.{IsPool, Allocates, pmm_alloc_page-Allocates}
use snowkernel.Paging.Levels.{IsLevelled}
use snowkernel.Paging.Map.{Maps, vm_map_page_pml4-Maps}
use snowkernel.Paging.Unmap.{vm_unmap_page_lem}

-- The kernel's tables: the first 128 MB are 64 large pages. Behind them one page is mapped by a table
-- of the last level. The allocator starts at 2 MiB.
abbrev machine : Machine
machine = record {
  word = λ j.
      if j == 139264
      then 1118211
      else if j == 139776
      then 1122307
      else if leb 140288 j && ltb j 140352
      then (j - 140288) * 2097152 + 131
      else if j == 140352
      then 1126407
      else if j == 140800
      then 8199
      else 0;
  pmm_cur = 2097152;
  pmm_end = pmm_limit;
  pmm_free_list = 0;
  cr3 = 1114112;
  kernel_cr3 = 1114112;
}

abbrev level : ℕ → ℕ
level a =
    if a == 1114112
    then 4
    else if a == 1118208
    then 3
    else if a == 1122304
    then 2
    else if a == 1126400
    then 1
    else 0

machine-IsPool : IsPool level machine []
machine-IsPool = record {
  started = omega arith;
  cur_aligned = refl;
  fits = omega arith;
  limit = omega arith;
  chain = refl;
  distinct = tt;
  aligned = tt;
  untaken = tt;
  below = tt;
  unused = λ p h. ground (arith, h);
  tables = λ p h. ground (arith, h);
}

machine-IsLevelled : IsLevelled level machine []
machine-IsLevelled = record {
  pool = machine-IsPool;
  entries = λ a i n l h e small. ground (arith, l, h, e, small);
}

pmm_alloc_page-Allocates_example : Allocates level 1 machine (pmm_alloc_page 1 machine)
pmm_alloc_page-Allocates_example = pmm_alloc_page-Allocates level 1 machine [] machine-IsPool

-- The page at 1 GB, for which two tables are made.
vm_map_page_pml4-Maps_example :
    Maps 1114112 1073741824 8192 (vm_map_page_pml4 1 machine 1114112 1073741824 8192 7)
vm_map_page_pml4-Maps_example =
    vm_map_page_pml4-Maps 1 level machine [] 1114112 1073741824 8192 7 machine-IsLevelled refl
      (omega arith) refl (λ e. (refl, λ e'. absurd (false≢true e')))

-- The page at 128 MB, which is mapped.
vm_unmap_page_lem_example :
    (vm_get_phys (vm_unmap_page machine 134217728) 134217729 ≡ 0)
    × IsLevelled level (vm_unmap_page machine 134217728) []
vm_unmap_page_lem_example =
    vm_unmap_page_lem level machine [] 134217728 134217729 machine-IsLevelled refl refl
      (λ e. (refl, λ e. (refl, λ e. (refl, tt))))
