-- ===== src/Proc.antt =====
-- The process record and its descriptors: src/cpu/proc.c, and the descriptor calls `sys_close`,
-- `sys_dup` and `sys_dup2` of src/kernel/syscall.c.
pub mod Fds
mod Tests
use snowkernel.Base.{
  ℕ, zero, suc, ◌+◌, ◌-◌, Bool, true, false, not, ◌&&◌, ◌||◌, Option, none, some, ◌==◌, leb, ltb,
  if◌then◌else◌, update,
}
use snowkernel.Base.Int.{ℤ, pos, negsuc}

abbrev pub proc_fd_max : ℕ
proc_fd_max = 32

abbrev pub proc_max_pages : ℕ
proc_max_pages = 256

-- `fd_entry_t`. The node is a place in the file system's pool.
pub record FdEntry : Type 0 where
  pub used : Bool
  pub node : Option ℕ
  pub ofs : ℕ
  pub flags : ℕ

-- `process_t`; the parent is always null.
pub record Process : Type 0 where
  pub pid : ℕ
  pub state : ℕ
  pub fds : ℕ → FdEntry
  pub pml4_phys : ℕ
  pub alloc_pages : ℕ → ℕ
  pub alloc_count : ℕ
  pub kernel_saved_rsp : ℕ
  pub kernel_saved_rip : ℕ
  pub brk_start : ℕ
  pub brk_curr : ℕ
  pub image_hi : ℕ

-- The file's statics: `current` is null or points to `init_proc`.
pub record Procs : Type 0 where
  pub init_proc : Process
  pub current : Bool
  pub next_pid : ℕ

unfoldable pub proc_init : Procs → Procs
proc_init s = record {
  init_proc = record {
    pid = s.next_pid;
    state = 0;
    fds = λ i.
        if ltb i proc_fd_max
        then record { used = ltb i 3; node = none; ofs = 0; flags = 0 }
        else s.init_proc.fds i;
    pml4_phys = 0;
    alloc_pages = λ i. if ltb i proc_max_pages then 0 else s.init_proc.alloc_pages i;
    alloc_count = 0;
    kernel_saved_rsp = 0;
    kernel_saved_rip = 0;
    brk_start = 0;
    brk_curr = 0;
    image_hi = 0;
  };
  current = true;
  next_pid = s.next_pid + 1;
}

unfoldable pub proc_set_pml4 : Procs → ℕ → ℤ × Procs
proc_set_pml4 s phys =
    if s.current
    then (pos 0, record s { init_proc = record s.init_proc { pml4_phys = phys } })
    else (negsuc 0, s)

unfoldable pub proc_get_pml4 : Procs → ℕ
proc_get_pml4 s = if s.current then s.init_proc.pml4_phys else 0

unfoldable pub proc_add_allocated_page : Procs → ℕ → ℤ × Procs
proc_add_allocated_page s phys =
    let p = s.init_proc in
    if not s.current
    then (negsuc 0, s)
    else if leb proc_max_pages p.alloc_count
    then (negsuc 0, s)
    else (
      pos 0,
      record s {
        init_proc = record p {
          alloc_pages = update p.alloc_pages p.alloc_count phys;
          alloc_count = p.alloc_count + 1;
        };
      },
    )

unfoldable pub proc_free_allocated_pages : Procs → Procs
proc_free_allocated_pages s =
    if s.current then record s { init_proc = record s.init_proc { alloc_count = 0 } } else s

-- The loop of `proc_alloc_fd`, with `n` rounds left from `i` on: the first free descriptor.
unfoldable pub first_unused : ℕ → (ℕ → FdEntry) → ℕ → Option ℕ
first_unused zero fds i = none
first_unused (suc n) fds i =
    let rest = first_unused n fds (i + 1) in if (fds i).used then rest else some i

-- Writing one entry of the current process.
abbrev pub set_fd : Procs → ℕ → FdEntry → Procs
set_fd s i e = record s { init_proc = record s.init_proc { fds = update s.init_proc.fds i e } }

unfoldable pub proc_alloc_fd : Procs → Option ℕ → ℤ × Procs
unfolding first_unused
proc_alloc_fd s n =
    if not s.current then (negsuc 0, s) else elim (first_unused 29 s.init_proc.fds 3) [
      | none ↦ (negsuc 0, s)
      | some i ↦ (pos i, set_fd s i (record { used = true; node = n; ofs = 0; flags = 0 }))
    ]

-- The index of the entry that the pointer leads to.
unfoldable pub proc_get_fd : Procs → ℤ → Option ℕ
proc_get_fd s (negsuc n) = none
proc_get_fd s (pos fd) =
    if not s.current || leb proc_fd_max fd
    then none
    else if not (s.init_proc.fds fd).used
    then none
    else some fd

unfoldable pub proc_get_brk : Procs → ℕ
proc_get_brk s = if s.current then s.init_proc.brk_curr else 0

unfoldable pub proc_set_brk : Procs → ℕ → ℤ × Procs
proc_set_brk s newbrk =
    if s.current
    then (pos 0, record s { init_proc = record s.init_proc { brk_curr = newbrk } })
    else (negsuc 0, s)

-- The flags of the entry stay.
unfoldable pub sys_close : Procs → ℤ → ℤ × Procs
unfolding proc_get_fd
sys_close s fd = elim (proc_get_fd s fd) [
  | none ↦ (negsuc 0, s)
  | some i ↦
      if ltb i 3
      then (negsuc 0, s)
      else (pos 0, set_fd s i (record (s.init_proc.fds i) { used = false; node = none; ofs = 0 }))
]

-- `proc->fds[fd].node` for a descriptor in range; `proc_init` has run, so `proc` is not null.
unfoldable pub open_node : Procs → ℤ → Option ℕ
open_node s (negsuc n) = none
open_node s (pos fd) = if leb proc_fd_max fd then none else (s.init_proc.fds fd).node

unfoldable pub sys_dup : Procs → ℕ → ℤ × Procs
unfolding open_node proc_alloc_fd
sys_dup s oldfd = elim (open_node s (pos oldfd)) [
  | none ↦ (negsuc 0, s)
  | some n ↦
      let (r, s1) = proc_alloc_fd s (some n) in
      elim r [
        | negsuc k ↦ (negsuc 0, s1)
        | pos newfd ↦ (pos newfd, set_fd s1 newfd (s1.init_proc.fds oldfd))
      ]
]

-- The descriptors are not negative here; the code refuses negative ones as it does those past the end.
unfoldable pub sys_dup2 : Procs → ℕ → ℕ → ℤ × Procs
unfolding open_node sys_close
sys_dup2 s oldfd newfd = elim (open_node s (pos oldfd)) [
  | none ↦ (negsuc 0, s)
  | some n ↦
      if leb proc_fd_max newfd
      then (negsuc 0, s)
      else let s1 : Procs = elim (s.init_proc.fds newfd).node [
        | none ↦ s
        | some k ↦ (sys_close s (pos newfd)).1
      ] in
        (pos newfd, set_fd s1 newfd (s1.init_proc.fds oldfd))
]
