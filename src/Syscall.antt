-- ===== src/Syscall.antt =====
-- The system calls of src/kernel/syscall.c on files and terminals: they join the descriptors of the
-- process, the file system, the terminals and the text screen.
pub mod Seek
pub mod Space
pub mod Heap
pub mod Open
pub mod Read
pub mod Write
pub mod Exec
mod Tests
use snowkernel.Base.{
  ℕ, zero, suc, ◌+◌, ◌-◌, ◌*◌, ◌/◌, ◌%◌, ◌^◌, ◌≤◌, ◌<◌, Bool, true, false, ◌||◌, Option, none, some,
  ◌==◌, ltb, leb, if◌then◌else◌, List, [], ◌∷◌, length, update,
}
use snowkernel.Base.Int.{ℤ, pos, negsuc, is_zero}
use snowkernel.Str.{Str, cstr}
use snowkernel.Fs.Defs.{
  Fs, NodeType, DataPtr, dir, file, chr, null, in_arena, outside, is_file, is_chr,
}
use snowkernel.Fs.Ops.{fs_create_file}
use snowkernel.Fs.Data.{Memory, add_size, bytes, fs_read, fs_write}
use snowkernel.Fs.Path.{Looked, at, nowhere, fault, fs_lookup}
use snowkernel.Proc.{FdEntry, Procs, set_fd, proc_get_fd, proc_alloc_fd}
use snowkernel.Tty.{Tty, Ttys, tty_read}
use snowkernel.Kprint.Console.{Console, vga_putc}

-- The state of the files that the calls reach.
pub record Kernel : Type 0 where
  pub fs : Fs
  pub procs : Procs
  pub ttys : Ttys
  pub console : Console

-- The terminal that the data of a device points to. A device's data is null or the address of a
-- `tty_t`, which its place in `ttys` stands for.
abbrev pub device : DataPtr → Option ℕ
device (outside i) = some i
device _ = none

abbrev pub entry : Kernel → ℕ → FdEntry
entry k i = k.procs.init_proc.fds i

-- `e->ofs = ofs` for the entry `i`.
abbrev pub set_ofs : Kernel → ℕ → ℕ → Kernel
set_ofs k i ofs = record k { procs = set_fd k.procs i (record (entry k i) { ofs = ofs }) }

-- `proc_get_fd`, and -1 for a descriptor below 3: the entry that the call goes on with.
unfoldable pub user_fd : Kernel → ℤ → Option ℕ
unfolding proc_get_fd
user_fd k fd = elim (proc_get_fd k.procs fd) [
  | none ↦ none
  | some i ↦ if ltb i 3 then none else some i
]

-- `e->node`, where the call goes on.
unfoldable pub user_node : Kernel → ℤ → Option (ℕ × ℕ)
unfolding user_fd
user_node k fd = elim (user_fd k fd) [
  | none ↦ none
  | some i ↦ elim (entry k i).node [ none ↦ none | some n ↦ some (i, n) ]
]

-- What a read gives: the result, the bytes stored from `buf` on, and the state.
pub record ReadResult : Type 0 where
  pub result : ℤ
  pub stored : List ℕ
  pub kernel : Kernel

abbrev read_failed : Kernel → ReadResult
read_failed k = record { result = negsuc 0; stored = []; kernel = k }

-- The branch for a terminal.
unfoldable pub read_device : Kernel → DataPtr → ℕ → ReadResult
unfolding tty_read
read_device k contents count = elim (device contents) [
  | none ↦ read_failed k
  | some t ↦
      let (cs, t') = tty_read (k.ttys.ttys t) count in
      record {
        result = pos (length cs);
        stored = cs;
        kernel = record k { ttys = record k.ttys { ttys = update k.ttys.ttys t t' } };
      }
]

-- The branch for a file, which the entry `i` has open.
unfoldable pub read_file : Kernel → Memory → ℕ → ℕ → ℕ → ReadResult
unfolding fs_read
read_file k mem i n count =
    let ofs = (entry k i).ofs in
    let size = (k.fs.node n).size in
    if leb size ofs
    then record { result = pos 0; stored = []; kernel = k }
    else let remain = size - ofs in
      let cs = fs_read k.fs mem (some n) (if ltb remain count then remain else count) in
      record {
        result = pos (length cs);
        stored = cs;
        kernel = set_ofs k i (add_size ofs (length cs));
      }

-- `mem` is the memory outside the file system, from which an embedded file's bytes are read. The
-- number of bytes read is below 2^31, so that it fits the `int` that holds it.
unfoldable pub sys_read : Kernel → Memory → ℤ → ℕ → ReadResult
unfolding user_node read_device read_file
sys_read k mem fd count = elim (user_node k fd) [
  | none ↦ read_failed k
  | some (i, n) ↦
      if is_chr (k.fs.node n).type
      then read_device k (k.fs.node n).contents count
      else if is_file (k.fs.node n).type
      then read_file k mem i n count
      else read_failed k
]

-- The loops over `kputc`, no sink being set.
unfoldable pub put_bytes : Console → List ℕ → Console
unfolding vga_putc
put_bytes s [] = s
put_bytes s (c ∷ cs) = put_bytes (vga_putc s c) cs

abbrev pub show_bytes : Kernel → List ℕ → Kernel
show_bytes k cs = record k { console = put_bytes k.console cs }

-- The branch for a file: the bytes are appended, whatever the offset is.
unfoldable pub write_file : Kernel → Memory → ℕ → ℕ → ℕ → ℕ → ℤ × Kernel
unfolding fs_write
write_file k mem i n addr count =
    let (r, fs') = fs_write k.fs mem (some n) addr count true in
    let k' = record k { fs = fs' } in
    if is_zero r then (pos count, set_ofs k' i (fs'.node n).size) else (negsuc 0, k')

-- `count` bytes at the address `addr`.
unfoldable pub sys_write : Kernel → Memory → ℤ → ℕ → ℕ → ℤ × Kernel
unfolding user_node put_bytes write_file
sys_write k mem (negsuc m) addr count = (negsuc 0, k)
sys_write k mem (pos fd) addr count =
    if fd == 1 || fd == 2
    then (pos count, show_bytes k (bytes mem addr count))
    else elim (user_node k (pos fd)) [
      | none ↦ (negsuc 0, k)
      | some (i, n) ↦
          if is_chr (k.fs.node n).type
          then elim (device (k.fs.node n).contents) [
            | none ↦ (negsuc 0, k)
            | some t ↦ (pos count, show_bytes k (bytes mem addr count))
          ]
          else if is_file (k.fs.node n).type
          then write_file k mem i n addr count
          else (negsuc 0, k)
    ]

-- `proc_alloc_fd` of the node that the path leads to, null or not.
unfoldable pub open_at : Kernel → Option ℕ → ℤ × Kernel
unfolding proc_alloc_fd
open_at k none = (negsuc 0, k)
open_at k (some f) =
    let (fd, procs') = proc_alloc_fd k.procs (some f) in (fd, record k { procs = procs' })

-- A path without a node is a new file's name, whole, where the lowest flag is set. `none` is a fault
-- of `fs_lookup`; `junk` is its stack.
unfoldable pub sys_open : Kernel → List ℕ → Str → ℕ → Option (ℤ × Kernel)
unfolding open_at fs_lookup fs_create_file
sys_open k junk path flags = elim (fs_lookup k.fs junk (some k.fs.cwd) (some path)) [
  | fault ↦ none
  | at f ↦ some (open_at k (some f))
  | nowhere ↦
      if flags % 2 == 1
      then (let (f, fs') = fs_create_file k.fs (some k.fs.cwd) path in
          some (open_at (record k { fs = fs' }) f))
      else some (negsuc 0, k)
]

-- `struct stat`.
pub record Stat : Type 0 where
  pub st_dev : ℕ
  pub st_ino : ℕ
  pub st_mode : ℕ
  pub st_nlink : ℕ
  pub st_uid : ℕ
  pub st_gid : ℕ
  pub st_rdev : ℕ
  pub st_size : ℕ
  pub st_blksize : ℕ
  pub st_blocks : ℕ
  pub st_atime : ℕ
  pub st_mtime : ℕ
  pub st_ctime : ℕ

-- `S_IFDIR`, `S_IFREG` and `S_IFCHR`.
abbrev pub format : NodeType → ℕ
format dir = 0x4000
format file = 0x8000
format chr = 0x2000

-- `S_IRUSR | S_IWUSR | S_IRGRP | S_IROTH`.
abbrev pub permissions : ℕ
permissions = 0x100 + 0x80 + 0x20 + 0x4

-- No format shares a bit with the permissions. The inode number is the node's pointer.
unfoldable pub fill_stat : Fs → ℕ → Stat
fill_stat s n = record {
  st_dev = 0;
  st_ino = n;
  st_mode = format (s.node n).type + permissions;
  st_nlink = 1;
  st_uid = 0;
  st_gid = 0;
  st_rdev = 0;
  st_size = (s.node n).size;
  st_blksize = 512;
  st_blocks = add_size (s.node n).size 511 / 512;
  st_atime = 0;
  st_mtime = 0;
  st_ctime = 0;
}
