-- ===== src/Proc/Tests.antt =====
-- Tests of the descriptors after `proc_init`.
use snowkernel.Base.{true, none, some, ◌≡◌, refl, arith}
use snowkernel.Base.Int.{pos}
use snowkernel.Proc.{Process, Procs, proc_init, proc_alloc_fd, proc_get_fd, sys_dup2}
use snowkernel.Proc.Fds.{AllocatesFd, proc_alloc_fd-AllocatesFd, sys_dup2_same}

abbrev process : Process
process = record {
  pid = 1;
  state = 0;
  fds = λ i. record { used = true; node = some 4; ofs = 2; flags = 0 };
  pml4_phys = 0;
  alloc_pages = λ _. 0;
  alloc_count = 0;
  kernel_saved_rsp = 0;
  kernel_saved_rip = 0;
  brk_start = 0;
  brk_curr = 0;
  image_hi = 0;
}

abbrev procs : Procs
procs = record { init_proc = process; current = true; next_pid = 2 }

proc_alloc_fd-AllocatesFd_example :
    AllocatesFd (proc_init procs) (some 7) (proc_alloc_fd (proc_init procs) (some 7))
unfolding proc_init
proc_alloc_fd-AllocatesFd_example = proc_alloc_fd-AllocatesFd (proc_init procs) (some 7) refl

sys_dup2_same_example :
    ((sys_dup2 procs 3 3).0 ≡ pos 3) × (proc_get_fd (sys_dup2 procs 3 3).1 (pos 3) ≡ none)
sys_dup2_same_example = sys_dup2_same procs 3 4 refl (omega arith) (omega arith) refl refl
