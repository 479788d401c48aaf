-- ===== src/Syscall/Exec.antt =====
-- `sys_execve` of src/kernel/syscall.c: the loading of a program that has passed the tests.
use snowkernel.Base.{
  ℕ, zero, suc, ◌+◌, ◌-◌, ◌*◌, ◌/◌, ◌%◌, ◌^◌, Bool, true, false, ◌==◌, leb, ltb, if◌then◌else◌,
  Option, none, some, List, [], ◌∷◌, ◌++◌, update,
}
use snowkernel.Str.{Str, cstr, kstrlen}
use snowkernel.Fs.Defs.{Fs, DataPtr, null, in_arena, outside, is_file}
use snowkernel.Fs.Data.{Memory, add_size}
use snowkernel.Fs.Path.{at, nowhere, fault, first, fs_lookup}
use snowkernel.Proc.{proc_set_pml4, proc_add_allocated_page}
use snowkernel.Paging.{
  Machine, frame, clear_page, page_size, pmm_alloc_page, vm_map_page_pml4, vm_clone_current_pml4,
}
use snowkernel.Elf.{Image, SegInfo}
use snowkernel.Elf.Exec.{Program, exec_image}
use snowkernel.Syscall.Space.{Space, user_flags, with_process}

-- A byte stored in memory of 64-bit words.
unfoldable pub store_byte : (ℕ → ℕ) → ℕ → ℕ → (ℕ → ℕ)
store_byte word addr v =
    let w = word (addr / 8) in
    let place = 256 ^ (addr % 8) in update word (addr / 8) (w - w / place % 256 * place + v * place)

-- The bytes of the file and, for the places that lie before its first byte, those of the memory there.
pub record Source : Type 0 where
  pub image : Image
  pub before : ℕ → ℕ

-- The byte at the place `to` less `back`, counted from the file's first byte.
abbrev byte_at : Source → ℕ → ℕ → ℕ
byte_at src to back = if leb back to then src.image (to - back) else src.before (back - to)

-- `kmemcpy` of `n` bytes to the address `addr`.
unfoldable pub copy_bytes : (ℕ → ℕ) → Source → ℕ → ℕ → ℕ → ℕ → (ℕ → ℕ)
unfolding store_byte
copy_bytes word src addr to back zero = word
copy_bytes word src addr to back (suc n) =
    copy_bytes (store_byte word addr (byte_at src to back)) src (addr + 1) (to + 1) back n

-- The loop over the pages of a segment, `n` of them from the one at `done` bytes on; `none` is a
-- failure for want of a page.
unfoldable pub load_pages : ℕ → Source → ℕ → SegInfo → ℕ → ℕ → Space → Bool × Space
unfolding pmm_alloc_page copy_bytes vm_map_page_pml4 proc_add_allocated_page
load_pages bss_end src pml4 seg zero done s = (true, s)
load_pages bss_end src pml4 seg (suc n) done s =
    let start = frame seg.vaddr in
    let delta = seg.vaddr - start in
    let filesz = add_size seg.filesz delta in
    let flags = if seg.flags / 2 % 2 == 1 then user_flags else user_flags - 2 in
    let (phys, m1) = pmm_alloc_page bss_end s.0 in
    let cleared = clear_page phys m1.word in
    let len = if ltb page_size (filesz - done) then page_size else filesz - done in
    let filled =
      if ltb done filesz
      then copy_bytes cleared src phys (seg.offset + done) delta len
      else cleared in
    let m2 =
      vm_map_page_pml4 bss_end (record m1 { word = filled }) pml4 (add_size start done) phys
        flags in
    let rest =
      load_pages bss_end src pml4 seg n (done + page_size)
        (m2, (proc_add_allocated_page s.1 phys).1) in
    if phys == 0 then (false, (m1, s.1)) else rest

-- The loop over the segments.
unfoldable pub load_all : ℕ → Source → ℕ → List SegInfo → Space → Bool × Space
unfolding load_pages
load_all bss_end src pml4 [] s = (true, s)
load_all bss_end src pml4 (seg ∷ segs) s =
    let memsz = add_size seg.memsz (seg.vaddr - frame seg.vaddr) in
    let (loaded, s1) = load_pages bss_end src pml4 seg (add_size memsz 4095 / page_size) 0 s in
    let seg_end = add_size seg.vaddr seg.memsz in
    let p = s1.1.init_proc in
    let procs =
      if s1.1.current
      then (if ltb p.image_hi seg_end
          then with_process s1.1 (record p { image_hi = seg_end })
          else s1.1)
      else s1.1 in
    let rest = load_all bss_end src pml4 segs (s1.0, procs) in if loaded then rest else (false, s1)

abbrev pub user_stack_top : ℕ
user_stack_top = 0x7FFFFFF0000

-- The kernel's stack pointer, and the place in `sys_execve` before it enters the program.
pub record KernelPlace : Type 0 where
  pub rsp : ℕ
  pub after_enter : ℕ

-- The stack of the program, its tables, and where the kernel goes on when the program ends; nothing
-- where there is no page for the stack, of which the address is given.
unfoldable pub make_stack : ℕ → KernelPlace → ℕ → Space → Option ℕ × Space
unfolding pmm_alloc_page vm_map_page_pml4 proc_add_allocated_page proc_set_pml4
make_stack bss_end place pml4 s =
    let (stack, m1) = pmm_alloc_page bss_end s.0 in
    let m2 = vm_map_page_pml4 bss_end m1 pml4 (user_stack_top - page_size) stack user_flags in
    let p1 = (proc_add_allocated_page s.1 stack).1 in
    let p2 = (proc_set_pml4 p1 pml4).1 in
    let p3 = (proc_add_allocated_page p2 pml4).1 in
    let kstack = frame place.rsp in
    let m3 = vm_map_page_pml4 bss_end m2 pml4 kstack kstack 3 in
    let p4 =
      if p3.current
      then with_process p3 (record p3.init_proc {
        kernel_saved_rsp = place.rsp;
        kernel_saved_rip = place.after_enter;
      })
      else p3 in
    if stack == 0 then (none, (m1, s.1)) else (some stack, (m3, p4))

-- A text stored from the address on.
unfoldable pub store_text : (ℕ → ℕ) → ℕ → Str → (ℕ → ℕ)
unfolding store_byte
store_text word addr [] = word
store_text word addr (c ∷ s) = store_text (store_byte word addr c) (addr + 1) s

-- How the call ends: it returns -1, or it enters the program at an entry point, with a stack pointer
-- and a top table.
pub data Started : Type 0 where
  refused : Started
  enters : ℕ → ℕ → ℕ → Started

-- From `after_enter` on: the argument's text at 0x100 of the stack's page, the pointer to it and the
-- null behind it in its last words.
unfoldable pub enter_program : ℕ → Str → ℕ → ℕ → Machine → Started × Machine
unfolding store_text
enter_program entry path stack pml4 m =
    let text = store_text m.word (stack + 0x100) (cstr path ++ 0 ∷ []) in
    let argv = update text ((stack + 4080) / 8) (user_stack_top - page_size + 0x100) in
    if ltb (4096 - 0x100) (kstrlen path + 1) then (refused, m) else (
      enters entry (user_stack_top - 16) pml4,
      record m { word = update argv ((stack + 4088) / 8) 0 },
    )

-- The part of `sys_execve` behind the tests.
unfoldable pub start_program : ℕ → KernelPlace → Source → Str → Program → Space → Started × Space
unfolding vm_clone_current_pml4 load_all make_stack enter_program
start_program bss_end place src path prog s =
    let fresh =
      if s.1.current
      then with_process s.1 (record s.1.init_proc { brk_start = 0; brk_curr = 0 })
      else s.1 in
    let (pml4, m1) = vm_clone_current_pml4 bss_end s.0 in
    let (loaded, s1) = load_all bss_end src pml4 prog.segs (m1, fresh) in
    let (stack, s2) = make_stack bss_end place pml4 s1 in
    let entered : Started × Space = elim stack [
      | none ↦ (refused, s2)
      | some at_page ↦
          let (started, m3) = enter_program prog.entry path at_page pml4 s2.0 in
          (started, (m3, s2.1))
    ] in
    if pml4 == 0 then (refused, (m1, fresh)) else if loaded then entered else (refused, s1)

-- The file's bytes; `mem` is the memory outside the file system.
unfoldable pub source_of : Fs → Memory → DataPtr → Source
source_of s mem null = record { image = λ i. mem i; before = λ i. mem (2 ^ 64 - i) }
source_of s mem (in_arena a) = record {
  image = λ i. s.arena (a + i);
  before = λ i. s.arena (a - i);
}
source_of s mem (outside a) = record { image = λ i. mem (a + i); before = λ i. mem (a - i) }

-- The lines that are printed are left out. `none` is a fault of `fs_lookup`, of which `junk` is the
-- stack.
unfoldable pub sys_execve :
    ℕ → KernelPlace → Fs → List ℕ → Memory → Str → Space → Option (Started × Space)
unfolding fs_lookup source_of exec_image start_program
sys_execve bss_end place fs junk mem path s =
    let found = fs_lookup fs junk (some fs.cwd) (some path) in
    let run : Option (Started × Space) = elim found [
      | fault ↦ none
      | nowhere ↦ some (refused, s)
      | at n ↦
          let src = source_of fs mem (fs.node n).contents in
          if is_file (fs.node n).type
          then elim (exec_image src.image (fs.node n).size) [
            | none ↦ some (refused, s)
            | some prog ↦ some (start_program bss_end place src path prog s)
          ]
          else some (refused, s)
    ] in
    if first path == 0 then some (refused, s) else run
