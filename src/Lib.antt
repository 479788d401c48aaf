-- ===== src/Lib.antt =====
-- Snow Kernel: the parts of a small 64-bit kernel that compute, modelled and proved.
--
-- The keyboard interrupt hands scancodes to src/drivers/keymap.c, which turns them into characters
-- in a ring; src/drivers/keyboard.c drains that ring into the active terminal of src/kernel/tty.c,
-- from which system calls read. The file system of src/fs/fs.c keeps a tree of nodes in a pool and
-- file bytes in an arena; src/fs/fs_disk.c is a second backend of its interface. src/kernel/pmm.c
-- gives out pages, of which src/kernel/vm.c makes page tables. The system calls of
-- src/kernel/syscall.c join the descriptors of the process, the file system, the terminals and the
-- text screen of src/kernel/kprint.c. The shell of src/kernel/shell.c parses lines and runs builtins
-- on the file system. The desktop draws with src/kernel/video.c and follows the mouse of
-- src/kernel/mouse.c. The text parts use the routines of src/kernel/string.c.
--
-- What models what:
--   Base            numbers, integers, lists, arrays, rings of a fixed size, bit masks, tables of cases
--   Str             src/kernel/string.c: a pointer to text is the list of bytes from there on
--   Keymap          src/drivers/keymap.c: the file's statics are the record `Keymap`
--   Tty             src/kernel/tty.c and `kbd_drain_to_tty`: `Ttys` is the terminal table
--   Fs              src/fs/fs.c: `Fs` holds the node pool, the arena and its offset; a node pointer
--                   is a pool index, with 0 for `root`, and null is `none`
--   Fs.Disk         src/fs/fs_disk.c, whose functions have `d_` before their names, on the same
--                   record; `Call` is the interface of both backends
--   Paging          src/kernel/pmm.c and src/kernel/vm.c: `Machine` is physical memory by 64-bit words,
--                   the allocator's statics and CR3; the four levels that the source writes out are
--                   one step (`next_or_new`, `find_table`) taken for each index; as in the code, an
--                   entry of a large page is not told from an entry of a table
--   Env             src/kernel/env.c: `Env` is the store of texts with its count; the disk calls are
--                   parameters
--   Proc            src/cpu/proc.c and the calls sys_close, sys_dup and sys_dup2 of
--                   src/kernel/syscall.c: `Procs` holds `init_proc`, and whether `current` points to it
--   Kprint          src/kernel/kprint.c: `kvprintf` gives the characters in order, `ksnprintf` the
--                   bytes stored; `Console` is the text screen's cells, cursor and colour
--   Syscall         src/kernel/syscall.c: `Kernel` joins the states of the parts above; what a call
--                   stores in the caller's memory is part of its result; `Space` is memory and the
--                   process record, for sys_brk and sys_exit
--   Shell           src/kernel/shell.c: lines, arguments, the working directory's path, and the
--                   builtins on files, whose output is a list of characters in the record `Session`
--   Elf             `elf_inspect` of src/kernel/elf.c, on an image as its bytes by their index, and the
--                   tests of `sys_execve`; the loading that follows them is Syscall.Exec
--   Boot            src/kernel/kernel64.c: what `kernel_main64` does with the file system and the
--                   process, with the images of the table `bins` as a parameter
--   Input           the line editors `kbd_read_line`, `serial_read_line` and `read_line_mux`: one loop
--                   over what the polls bring, with a round for each editor
--   Ui              src/kernel/ui.c: `Ui` is what the loop keeps between its rounds, each of which
--                   reads the ticks, a key and the mouse
--   Video           src/kernel/video.c: `Screen` is the mode and the framebuffer's 32-bit words
--   Mouse           src/kernel/mouse.c: the interrupt handler by the bytes that its ports give
--   Irq             src/kernel/pic.c, src/kernel/idt.c, src/kernel/irq.c, src/cpu/irq_kbd.c and
--                   src/cpu/irq_timer.c: the controllers are a parameter, `Ports`; `irq_init` is two
--                   functions, one on the controllers and one on the table
-- Each function of the model carries the name of the C function, takes the statics it uses as its
-- first argument, and gives them back with the result. Functions of one C function's loops and
-- branches stand beside it with a comment.
--
-- Bounds and fuel. Ring indices are the code's remainders by 128 and 1024; the arena test keeps the
-- wrap of `size_t` (`add_size`). `find_from`, `unlink_from` and `list_from` have fuel 513, one more
-- than the pool has nodes: in a well-formed tree a chain of siblings is a list of different nodes, so
-- the loops end before it. `kbd_drain_to_tty` takes its fuel as an argument and gives `none` where it
-- runs out. `tokenize` and `parents` count the places of `argv` and of `stack`, as the code does.
-- Memory outside the file system is a parameter, as is what the stack holds before `fs_lookup`.
--
-- A line editor and the desktop run on a list of what their polls or rounds bring, and give `none`, or
-- the state, where the list ends first. `edit_loop` has fuel above the number of polls, of which each
-- line takes one at least. `sys_execve` is a parameter of `run_external`.
--
-- Not modelled: port and memory-mapped I/O (the serial port, the disk, and the
-- set-up of mouse and framebuffer), assembly, `elf_load`, which nothing calls, the dispatch of the
-- calls, which casts words of the caller to pointers, and the lines that sys_execve prints.
pub mod Base
pub mod Str
pub mod Keymap
pub mod Tty
pub mod Fs
pub mod Paging
pub mod Env
pub mod Proc
pub mod Kprint
pub mod Syscall
pub mod Video
pub mod Mouse
pub mod Shell
pub mod Boot
pub mod Elf
pub mod Input
pub mod Irq
pub mod Ui
