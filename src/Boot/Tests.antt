-- ===== src/Boot/Tests.antt =====
-- Tests of the start: two programs are linked in, at addresses of a memory of zeros.
use snowkernel.Base.{false, none, some, if◌then◌else◌, [], ◌∷◌, ◌≡◌, refl}
use snowkernel.Str.{Str, str_eq}
use snowkernel.Fs.Defs.{outside}
use snowkernel.Fs.Start.{zeroed}
use snowkernel.Proc.{Procs, proc_init}
use snowkernel.Boot.{Image, kernel_main64_dirs, kernel_main64_files, kernel_main64_procs}
use snowkernel.Boot.Tree.{HasPrograms, kernel_main64_files-HasPrograms}

abbrev linked : Str → Image
linked name = if str_eq name (b'c' ∷ b'p' ∷ []) then some (0x200000, 5000) else none

kernel_main64_files-HasPrograms_example :
    HasPrograms linked
      (some (0x300000, 70000))
      (kernel_main64_dirs (outside 0) zeroed).0
      (kernel_main64_files (λ _. 0) (outside 0) linked (some (0x300000, 70000)) zeroed)
kernel_main64_files-HasPrograms_example =
    kernel_main64_files-HasPrograms (λ _. 0) (outside 0) linked (some (0x300000, 70000))

-- The process record in static storage, to which nothing points yet.
abbrev no_process : Procs
no_process = record {
  init_proc = record {
    pid = 0;
    state = 0;
    fds = λ _. record { used = false; node = none; ofs = 0; flags = 0 };
    pml4_phys = 0;
    alloc_pages = λ _. 0;
    alloc_count = 0;
    kernel_saved_rsp = 0;
    kernel_saved_rip = 0;
    brk_start = 0;
    brk_curr = 0;
    image_hi = 0;
  };
  current = false;
  next_pid = 1;
}

-- The terminal was found, and the standard output is in use and open on nothing.
stdio_detached : ((kernel_main64_procs (some 3) no_process).init_proc.fds 1).node ≡ none
unfolding kernel_main64_procs proc_init
stdio_detached = refl
