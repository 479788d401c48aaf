-- ===== src/Syscall/Space.antt =====
-- `sys_brk` and `sys_exit` of src/kernel/syscall.c: the process's memory.
use snowkernel.Base.{ℕ, zero, suc, ◌+◌, ◌-◌, ◌/◌, ◌%◌, ◌^◌, ◌==◌, ltb, if◌then◌else◌}
use snowkernel.Base.Int.{ℤ, negsuc, to_long}
use snowkernel.Fs.Data.{add_size}
use snowkernel.Proc.{
  Process, Procs, proc_add_allocated_page, proc_free_allocated_pages, proc_get_pml4,
}
use snowkernel.Paging.{
  Machine, frame, page_size, pmm_alloc_page, pmm_free_page, vm_map_page_pml4, vm_get_kernel_cr3,
  vm_set_cr3,
}

-- `(x + 0xFFF) & ~0xFFF`.
abbrev pub page_up : ℕ → ℕ
page_up x = frame (add_size x 0xFFF)

-- `PTE_PRESENT | PTE_USER | PTE_WRITABLE`.
abbrev pub user_flags : ℕ
user_flags = 7

-- The memory and the process record together.
abbrev pub Space : Type 0
Space = Machine × Procs

-- The loop over `va`, for `pages` pages from `va` on. It ends where no page is left; that a table or
-- the list of pages has no room is not noticed.
unfoldable pub map_heap : ℕ → ℕ → ℕ → Space → Space
unfolding pmm_alloc_page vm_map_page_pml4 proc_add_allocated_page proc_get_pml4
map_heap bss_end zero va s = s
map_heap bss_end (suc pages) va s =
    let (phys, m1) = pmm_alloc_page bss_end s.0 in
    let m2 = vm_map_page_pml4 bss_end m1 (proc_get_pml4 s.1) va phys user_flags in
    let rest = map_heap bss_end pages (va + page_size) (m2, (proc_add_allocated_page s.1 phys).1) in
    if phys == 0 then (m1, s.1) else rest

abbrev pub with_process : Procs → Process → Procs
with_process s p = record s { init_proc = p }

-- The heap's place, chosen on the first call: 1 MB past the image, or past 16 MB.
unfoldable pub start_heap : Process → Process
start_heap p =
    if p.brk_start == 0
    then (let base =
          frame (
            ((if p.image_hi == 0 then 0x01000000 else p.image_hi) + 0x00100000 + 0xFFF) % 2 ^ 64) in
        record p { brk_start = base; brk_curr = base })
    else p

-- The part of `sys_brk` that allocates the pages between the heap's old end and the new one.
unfoldable pub grow_heap : ℕ → Space → ℕ → Space
unfolding map_heap
grow_heap bss_end s new_brk =
    let old = s.1.init_proc.brk_curr in
    let start_page = page_up old in
    let end_page = page_up new_brk in
    if ltb old new_brk
    then map_heap bss_end ((end_page - start_page) / page_size) start_page s
    else s

unfoldable pub sys_brk : ℕ → Space → ℕ → ℤ × Space
unfolding start_heap grow_heap
sys_brk bss_end s addr =
    if s.1.current
    then (let p = start_heap s.1.init_proc in
        let procs = with_process s.1 p in
        let new_brk = if ltb addr p.brk_start then p.brk_start else addr in
        let (m', procs') = grow_heap bss_end (s.0, procs) new_brk in
        if addr == 0 then (to_long p.brk_curr, (s.0, procs)) else (
          to_long new_brk,
          (m', with_process procs' (record procs'.init_proc { brk_curr = new_brk })),
        ))
    else (negsuc 0, s)

-- The loop of `sys_exit` over `alloc_pages`, `n` of them from index `i` on.
unfoldable pub free_pages : ℕ → ℕ → (ℕ → ℕ) → Machine → Machine
unfolding pmm_free_page
free_pages zero i pages m = m
free_pages (suc n) i pages m = free_pages n (i + 1) pages (pmm_free_page m (pages i))

-- Where `sys_exit` goes on: `context_restore` leaves to the stack and the place that are saved.
pub data Left : Type 0 where
  returns : Left
  restores : ℕ → ℕ → Left

-- The line that is printed first goes to the text screen, which is not part of `Space`.
unfoldable pub sys_exit : Space → Left × Space
unfolding free_pages vm_set_cr3 vm_get_kernel_cr3 proc_free_allocated_pages
sys_exit s =
    if s.1.current
    then (let p = s.1.init_proc in
        let freed = free_pages p.alloc_count 0 p.alloc_pages s.0 in
        let procs = proc_free_allocated_pages s.1 in
        let out : Space = if p.pml4_phys == 0 then s else (
          vm_set_cr3 freed (vm_get_kernel_cr3 freed),
          with_process procs (record procs.init_proc { pml4_phys = 0 }),
        ) in
        (
          if p.kernel_saved_rip == 0
              then returns
              else restores p.kernel_saved_rsp p.kernel_saved_rip,
          out,
        ))
    else (returns, s)
