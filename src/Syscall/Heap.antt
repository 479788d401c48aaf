-- ===== src/Syscall/Heap.antt =====
-- What `sys_brk` does where no page is left.
use Prim.Native.Nat.{max}
use snowkernel.Base.{
  ℕ, zero, suc, ◌-◌, ◌/◌, ◌^◌, ◌<◌, Bool, true, ltb, if◌then◌else◌, ◌≡◌, ◌≢◌, refl, sym, ap, ap₂,
  subst, arith, if_elim, ne→==,
}
use snowkernel.Base.Int.{ℤ, negsuc, to_long}
use snowkernel.Paging.{page_size, pmm_alloc_page}
use snowkernel.Proc.{Procs}
use snowkernel.Syscall.Space.{
  Space, with_process, page_up, map_heap, grow_heap, start_heap, sys_brk,
}

map_heap-exhausted :
    (bss_end pages va : ℕ) (s : Space)
    → (pmm_alloc_page bss_end s.0).0 ≡ 0
    → (map_heap bss_end pages va s).1 ≡ s.1
unfolding map_heap
map_heap-exhausted bss_end zero va s e = refl
map_heap-exhausted bss_end (suc pages) va s e = rw (e, map_heap) refl

grow_heap-exhausted :
    (bss_end : ℕ) (s : Space) (new_brk : ℕ)
    → (pmm_alloc_page bss_end s.0).0 ≡ 0
    → (grow_heap bss_end s new_brk).1 ≡ s.1
unfolding grow_heap
grow_heap-exhausted bss_end s new_brk e =
    let old = s.1.init_proc.brk_curr in
    let pages = (page_up new_brk - page_up old) / page_size in
    if_elim (λ (t : Space). t.1 ≡ s.1) (ltb old new_brk) (map_heap bss_end pages (page_up old) s) s
      (λ _. map_heap-exhausted bss_end pages (page_up old) s e) (λ _. refl)

-- Where no page is left, a call of `sys_brk` for a running process and a 64-bit address that is not 0
-- allocates no page, still makes the address, or the heap's start if that is higher, the end of the
-- heap, and returns it as a `long`, which is negative from 2^63 on.
pub sys_brk_exhausted :
    (bss_end : ℕ) (s : Space) (addr : ℕ)
    → s.1.current ≡ true
    → addr ≢ 0
    → addr < 2 ^ 64
    → (pmm_alloc_page bss_end s.0).0 ≡ 0
    → ((sys_brk bss_end s addr).0 ≡ to_long (max addr (start_heap s.1.init_proc).brk_start))
      × ((sys_brk bss_end s addr).1.1.init_proc.brk_curr
          ≡ max addr (start_heap s.1.init_proc).brk_start)
      × ((sys_brk bss_end s addr).1.1.init_proc.alloc_count
          ≡ (start_heap s.1.init_proc).alloc_count)
unfolding sys_brk
sys_brk_exhausted bss_end s addr on ne small none_left =
    let p = start_heap s.1.init_proc in
    let procs = with_process s.1 p in
    let new_brk = if ltb addr p.brk_start then p.brk_start else addr in
    let higher : new_brk ≡ max addr p.brk_start = ground arith in
    let grown = grow_heap bss_end (s.0, procs) new_brk in
    let done : ℤ × Space = (
      to_long new_brk,
      (grown.0, with_process grown.1 (record grown.1.init_proc { brk_curr = new_brk })),
    ) in
    let steps : sys_brk bss_end s addr ≡ done =
      ap₂
        (λ (b c : Bool).
          if b then (if c then (to_long p.brk_curr, (s.0, procs)) else done) else (negsuc 0, s))
        on (ne→== addr 0 ne) in
    subst
      (λ (out : ℤ × Space).
        (out.0 ≡ to_long (max addr p.brk_start))
        × (out.1.1.init_proc.brk_curr ≡ max addr p.brk_start)
        × (out.1.1.init_proc.alloc_count ≡ p.alloc_count))
      (sym steps)
      (
        ap (λ (n : ℕ). to_long n) higher,
        higher,
        ap (λ (q : Procs). q.init_proc.alloc_count)
            (grow_heap-exhausted bss_end (s.0, procs) new_brk none_left),
      )
