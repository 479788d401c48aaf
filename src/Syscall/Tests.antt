-- ===== src/Syscall/Tests.antt =====
-- Tests of the calls on a process whose descriptors from 3 on are open on a file of two bytes.
use Prim.Native.Nat.{max}
use snowkernel.Base.{ℕ, ◌+◌, ◌≤◌, true, some, [], ◌++◌, ◌≡◌, refl, arith}
use snowkernel.Base.Int.{to_long, pos, negsuc}
use snowkernel.Fs.Defs.{Fs, file, in_arena, root, arena_size, zero_node}
use snowkernel.Fs.Data.{Memory, bytes, fs_write}
use snowkernel.Fs.Write.{IsArena, content}
use snowkernel.Paging.{pmm_alloc_page, pmm_limit}
use snowkernel.Proc.{Process, proc_get_fd}
use snowkernel.Tty.{Tty}
use snowkernel.Syscall.{Kernel, set_ofs, user_fd, sys_read, sys_write}
use snowkernel.Syscall.Seek.{Moves, plus, sys_lseek, sys_lseek-clamp}
use snowkernel.Syscall.Space.{Space, start_heap, sys_brk}
use snowkernel.Syscall.Open.{OpenFile}
use snowkernel.Syscall.Write.{appended, write-seek-read}
use snowkernel.Syscall.Heap.{sys_brk_exhausted}

abbrev files : ℕ → Fs
files off = record {
  node = λ i. record zero_node { type = file; contents = in_arena 0; size = 2 };
  cwd = root;
  ni = 3;
  arena = λ i. i + 1;
  aoff = off;
}

files-IsArena : (off : ℕ) → 2 ≤ off → off ≤ arena_size → IsArena (files off)
files-IsArena off h k = record { used = k; below = λ f. h }

abbrev process : Process
process = record {
  pid = 1;
  state = 0;
  fds = λ i. record { used = true; node = some 1; ofs = 1; flags = 0 };
  pml4_phys = 0;
  alloc_pages = λ _. 0;
  alloc_count = 0;
  kernel_saved_rsp = 0;
  kernel_saved_rip = 0;
  brk_start = 0;
  brk_curr = 0;
  image_hi = 0;
}

abbrev terminal : Tty
terminal = record { index = 0; inbuf = λ i. 0; in_head = 0; in_tail = 0; foreground = true }

abbrev kernel : ℕ → Kernel
kernel off = record {
  fs = files off;
  procs = record { init_proc = process; current = true; next_pid = 2 };
  ttys = record { ttys = λ i. terminal; active_tty = 0 };
  console = record { vga = λ i. 0; cx = 0; cy = 0; color = 7; ports = [] };
}

abbrev memory : Memory
memory a = a + 65

opened : (off : ℕ) → OpenFile (kernel off) (pos 3) 3 1
unfolding user_fd proc_get_fd
opened off = record { got = refl; node = refl; isf = refl }

sys_lseek-clamp_example :
    Moves (kernel 2) 3 2 (pos 0) (sys_lseek (kernel 2) (pos 3) (negsuc 4) 0)
    × Moves (kernel 2) 3 2 (plus 1 (negsuc 4)) (sys_lseek (kernel 2) (pos 3) (negsuc 4) 1)
    × Moves (kernel 2) 3 2 (plus 2 (negsuc 4)) (sys_lseek (kernel 2) (pos 3) (negsuc 4) 2)
unfolding user_fd proc_get_fd
sys_lseek-clamp_example =
    sys_lseek-clamp (kernel 2) (pos 3) 3 1 (negsuc 4) refl refl (omega arith) (omega arith)
      (omega arith)

write-seek-read_example :
    (sys_write (kernel 2) memory (pos 3) 0 3 ≡ (pos 3, appended (kernel 2) memory 3 1 0 3))
    × (sys_lseek (appended (kernel 2) memory 3 1 0 3) (pos 3) (pos 0) 0
        ≡ some (pos 0, set_ofs (appended (kernel 2) memory 3 1 0 3) 3 0))
    × ((sys_read (set_ofs (appended (kernel 2) memory 3 1 0 3) 3 0) memory (pos 3) 8).stored
        ≡ content (files 2) memory 1 ++ bytes memory 0 3)
unfolding fs_write
write-seek-read_example =
    write-seek-read (kernel 2) memory 3 3 1 0 3 (opened 2) (omega arith) memory 8
      (files-IsArena 2 (omega arith) (omega arith)) (omega arith) (omega arith) (omega arith)

-- All of physical memory has been given out.
abbrev space : Space
space = (
  record {
    word = λ i. 0;
    pmm_cur = pmm_limit;
    pmm_end = pmm_limit;
    pmm_free_list = 0;
    cr3 = 4096;
    kernel_cr3 = 4096;
  },
  record { init_proc = process; current = true; next_pid = 2 },
)

no_page : (pmm_alloc_page 1 space.0).0 ≡ 0
unfolding pmm_alloc_page
no_page = refl

sys_brk_exhausted_example :
    ((sys_brk 1 space 40000000).0 ≡ to_long (max 40000000 (start_heap process).brk_start))
    × ((sys_brk 1 space 40000000).1.1.init_proc.brk_curr
        ≡ max 40000000 (start_heap process).brk_start)
    × ((sys_brk 1 space 40000000).1.1.init_proc.alloc_count ≡ (start_heap process).alloc_count)
sys_brk_exhausted_example =
    sys_brk_exhausted 1 space 40000000 refl (omega arith) (omega arith) no_page
