-- ===== src/Boot.antt =====
-- The start of src/kernel/kernel64.c on the file system and the process: the directories, the
-- terminal's device, and the programs that are linked into the kernel.
pub mod Embed
pub mod Tree
mod Tests
use snowkernel.Base.{
  ℕ, Bool, true, false, ◌&&◌, ◌==◌, ltb, if◌then◌else◌, Option, none, some, List, [], ◌∷◌, map,
}
use snowkernel.Str.{Str}
use snowkernel.Fs.Defs.{Fs, DataPtr, outside, root, fs_init, fs_find_child}
use snowkernel.Fs.Ops.{fs_mkdir, fs_create_file, fs_create_chardev}
use snowkernel.Fs.Data.{Memory, fs_write}
use snowkernel.Proc.{Procs, Process, FdEntry, proc_init}

-- The address and the length of a program, where the linker has put one in.
abbrev pub Image : Type 0
Image = Option (ℕ × ℕ)

pub record Program : Type 0 where
  pub name : Str
  pub image : Image

abbrev pub home_name : Str
home_name = b'h' ∷ b'o' ∷ b'm' ∷ b'e' ∷ []

abbrev pub dev_name : Str
dev_name = b'd' ∷ b'e' ∷ b'v' ∷ []

abbrev pub tty0_name : Str
tty0_name = b't' ∷ b't' ∷ b'y' ∷ b'0' ∷ []

abbrev pub bin_name : Str
bin_name = b'b' ∷ b'i' ∷ b'n' ∷ []

abbrev pub hello_name : Str
hello_name = b'h' ∷ b'e' ∷ b'l' ∷ b'l' ∷ b'o' ∷ []

-- The names of the table `bins`, in its order.
abbrev pub bin_names : List Str
bin_names =
    (b'l' ∷ b's' ∷ [])
    ∷ (b'c' ∷ b'a' ∷ b't' ∷ [])
    ∷ (b'e' ∷ b'c' ∷ b'h' ∷ b'o' ∷ [])
    ∷ (b'm' ∷ b'k' ∷ b'd' ∷ b'i' ∷ b'r' ∷ [])
    ∷ (b'r' ∷ b'm' ∷ [])
    ∷ (b'c' ∷ b'p' ∷ [])
    ∷ (b'm' ∷ b'v' ∷ [])
    ∷ (b'p' ∷ b'w' ∷ b'd' ∷ [])
    ∷ (b't' ∷ b'o' ∷ b'u' ∷ b'c' ∷ b'h' ∷ [])
    ∷ (b'c' ∷ b'h' ∷ b'm' ∷ b'o' ∷ b'd' ∷ [])
    ∷ (b'c' ∷ b'h' ∷ b'o' ∷ b'w' ∷ b'n' ∷ [])
    ∷ (b'l' ∷ b'n' ∷ [])
    ∷ (b'd' ∷ b'f' ∷ [])
    ∷ (b'd' ∷ b'u' ∷ [])
    ∷ (b'h' ∷ b'e' ∷ b'a' ∷ b'd' ∷ [])
    ∷ (b't' ∷ b'a' ∷ b'i' ∷ b'l' ∷ [])
    ∷ (b'g' ∷ b'r' ∷ b'e' ∷ b'p' ∷ [])
    ∷ (b's' ∷ b'o' ∷ b'r' ∷ b't' ∷ [])
    ∷ (b'u' ∷ b'n' ∷ b'i' ∷ b'q' ∷ [])
    ∷ (b'w' ∷ b'c' ∷ [])
    ∷ (b'c' ∷ b'u' ∷ b't' ∷ [])
    ∷ (b'p' ∷ b'a' ∷ b's' ∷ b't' ∷ b'e' ∷ [])
    ∷ (b't' ∷ b'r' ∷ [])
    ∷ (b's' ∷ b'e' ∷ b'd' ∷ [])
    ∷ (b'a' ∷ b'w' ∷ b'k' ∷ [])
    ∷ (b'f' ∷ b'i' ∷ b'n' ∷ b'd' ∷ [])
    ∷ (b'x' ∷ b'a' ∷ b'r' ∷ b'g' ∷ b's' ∷ [])
    ∷ (b't' ∷ b'a' ∷ b'r' ∷ [])
    ∷ (b'g' ∷ b'z' ∷ b'i' ∷ b'p' ∷ [])
    ∷ (b'g' ∷ b'u' ∷ b'n' ∷ b'z' ∷ b'i' ∷ b'p' ∷ [])
    ∷ (b'b' ∷ b'z' ∷ b'c' ∷ b'a' ∷ b't' ∷ [])
    ∷ (b'b' ∷ b'z' ∷ b'i' ∷ b'p' ∷ b'2' ∷ [])
    ∷ (b'x' ∷ b'z' ∷ [])
    ∷ (b'u' ∷ b'n' ∷ b'x' ∷ b'z' ∷ [])
    ∷ (b's' ∷ b'h' ∷ b'r' ∷ b'e' ∷ b'd' ∷ [])
    ∷ (b'd' ∷ b'd' ∷ [])
    ∷ (b'o' ∷ b'd' ∷ [])
    ∷ (b'h' ∷ b'e' ∷ b'x' ∷ b'd' ∷ b'u' ∷ b'm' ∷ b'p' ∷ [])
    ∷ (b's' ∷ b't' ∷ b'r' ∷ b'i' ∷ b'n' ∷ b'g' ∷ b's' ∷ [])
    ∷ (b'f' ∷ b'i' ∷ b'l' ∷ b'e' ∷ [])
    ∷ (b's' ∷ b't' ∷ b'a' ∷ b't' ∷ [])
    ∷ (b'r' ∷ b'e' ∷ b'a' ∷ b'd' ∷ b'l' ∷ b'i' ∷ b'n' ∷ b'k' ∷ [])
    ∷ (b'b' ∷ b'a' ∷ b's' ∷ b'e' ∷ b'n' ∷ b'a' ∷ b'm' ∷ b'e' ∷ [])
    ∷ (b'd' ∷ b'i' ∷ b'r' ∷ b'n' ∷ b'a' ∷ b'm' ∷ b'e' ∷ [])
    ∷ (b'r' ∷ b'e' ∷ b'a' ∷ b'l' ∷ b'p' ∷ b'a' ∷ b't' ∷ b'h' ∷ [])
    ∷ (b'm' ∷ b'k' ∷ b't' ∷ b'e' ∷ b'm' ∷ b'p' ∷ [])
    ∷ (b't' ∷ b'e' ∷ b'm' ∷ b'p' ∷ b'f' ∷ b'i' ∷ b'l' ∷ b'e' ∷ [])
    ∷ (b's' ∷ b'e' ∷ b'q' ∷ [])
    ∷ (b'f' ∷ b'a' ∷ b'c' ∷ b't' ∷ b'o' ∷ b'r' ∷ [])
    ∷ (b'n' ∷ b'u' ∷ b'm' ∷ b'f' ∷ b'm' ∷ b't' ∷ [])
    ∷ (b's' ∷ b'h' ∷ b'u' ∷ b'f' ∷ [])
    ∷ (b't' ∷ b'a' ∷ b'c' ∷ [])
    ∷ (b'n' ∷ b'l' ∷ [])
    ∷ (b'p' ∷ b'r' ∷ [])
    ∷ (b'f' ∷ b'm' ∷ b't' ∷ [])
    ∷ (b'f' ∷ b'o' ∷ b'l' ∷ b'd' ∷ [])
    ∷ (b'e' ∷ b'x' ∷ b'p' ∷ b'a' ∷ b'n' ∷ b'd' ∷ [])
    ∷ (b'u' ∷ b'n' ∷ b'e' ∷ b'x' ∷ b'p' ∷ b'a' ∷ b'n' ∷ b'd' ∷ [])
    ∷ (b'y' ∷ b'e' ∷ b's' ∷ [])
    ∷ (b'f' ∷ b'a' ∷ b'l' ∷ b's' ∷ b'e' ∷ [])
    ∷ (b't' ∷ b'r' ∷ b'u' ∷ b'e' ∷ [])
    ∷ (b't' ∷ b'e' ∷ b's' ∷ b't' ∷ [])
    ∷ (b'e' ∷ b'x' ∷ b'p' ∷ b'r' ∷ [])
    ∷ (b'd' ∷ b'a' ∷ b't' ∷ b'e' ∷ [])
    ∷ (b's' ∷ b'l' ∷ b'e' ∷ b'e' ∷ b'p' ∷ [])
    ∷ (b't' ∷ b'i' ∷ b'm' ∷ b'e' ∷ b'o' ∷ b'u' ∷ b't' ∷ [])
    ∷ (b'n' ∷ b'i' ∷ b'c' ∷ b'e' ∷ [])
    ∷ (b'n' ∷ b'o' ∷ b'h' ∷ b'u' ∷ b'p' ∷ [])
    ∷ (b't' ∷ b'i' ∷ b'm' ∷ b'e' ∷ [])
    ∷ (b'p' ∷ b'r' ∷ b'i' ∷ b'n' ∷ b't' ∷ b'e' ∷ b'n' ∷ b'v' ∷ [])
    ∷ (b'p' ∷ b'r' ∷ b'i' ∷ b'n' ∷ b't' ∷ b'f' ∷ [])
    ∷ (b'p' ∷ b'a' ∷ b't' ∷ b'h' ∷ b'c' ∷ b'h' ∷ b'k' ∷ [])
    ∷ (b't' ∷ b't' ∷ b'y' ∷ [])
    ∷ (b'w' ∷ b'h' ∷ b'o' ∷ b'a' ∷ b'm' ∷ b'i' ∷ [])
    ∷ (b'i' ∷ b'd' ∷ [])
    ∷ (b'g' ∷ b'r' ∷ b'o' ∷ b'u' ∷ b'p' ∷ b's' ∷ [])
    ∷ (b'l' ∷ b'o' ∷ b'g' ∷ b'n' ∷ b'a' ∷ b'm' ∷ b'e' ∷ [])
    ∷ (b'u' ∷ b's' ∷ b'e' ∷ b'r' ∷ b's' ∷ [])
    ∷ (b'w' ∷ b'h' ∷ b'o' ∷ [])
    ∷ (b'w' ∷ [])
    ∷ (b'u' ∷ b'p' ∷ b't' ∷ b'i' ∷ b'm' ∷ b'e' ∷ [])
    ∷ (b'h' ∷ b'o' ∷ b's' ∷ b't' ∷ b'n' ∷ b'a' ∷ b'm' ∷ b'e' ∷ [])
    ∷ (b'u' ∷ b'n' ∷ b'a' ∷ b'm' ∷ b'e' ∷ [])
    ∷ (b'a' ∷ b'r' ∷ b'c' ∷ b'h' ∷ [])
    ∷ (b'n' ∷ b'p' ∷ b'r' ∷ b'o' ∷ b'c' ∷ [])
    ∷ (b's' ∷ b'y' ∷ b'n' ∷ b'c' ∷ [])
    ∷ (b'f' ∷ b's' ∷ b'y' ∷ b'n' ∷ b'c' ∷ [])
    ∷ (b'f' ∷ b'd' ∷ b'a' ∷ b't' ∷ b'a' ∷ b's' ∷ b'y' ∷ b'n' ∷ b'c' ∷ [])
    ∷ []

-- The table, by the images that the linker gives for the names.
unfoldable pub bins : (Str → Image) → List Program
bins linked = map (λ name. record { name = name; image = linked name }) bin_names

-- The address of `ttys[0]` is a parameter.
unfoldable pub tty_register_fs : DataPtr → Fs → Fs
tty_register_fs tty0 s =
    let found = fs_find_child s (some root) dev_name in
    let (dev, s1) : Option ℕ × Fs = elim found [
      | none ↦ fs_mkdir s (some root) dev_name
      | some d ↦ (some d, s)
    ] in
    (fs_create_chardev s1 dev tty0_name tty0).1

-- One program of the table: nothing where it is not linked in.
unfoldable pub embed_one : Memory → Option ℕ → Program → Fs → Fs
embed_one mem bin_dir b s = elim (b.image) [
  | none ↦ s
  | some (start, size) ↦
      let (file, s1) = fs_create_file s bin_dir b.name in (fs_write s1 mem file start size false).1
]

unfoldable pub embed : Memory → Option ℕ → List Program → Fs → Fs
unfolding embed_one
embed mem bin_dir [] s = s
embed mem bin_dir (b ∷ bs) s = embed mem bin_dir bs (embed_one mem bin_dir b s)

unfoldable pub embed_hello : Memory → Option ℕ → Image → Fs → Fs
embed_hello mem bin_dir none s = s
embed_hello mem bin_dir (some (start, size)) s =
    let (hello, s1) = fs_create_file s bin_dir hello_name in
    elim hello [ none ↦ s1 | some f ↦ (fs_write s1 mem (some f) start size false).1 ]

-- The directories and the terminal's device; the result is `bin_dir`.
unfoldable pub kernel_main64_dirs : DataPtr → Fs → Option ℕ × Fs
kernel_main64_dirs tty0 s =
    let s1 = (fs_mkdir (fs_init s) (some root) home_name).1 in
    fs_mkdir (tty_register_fs tty0 s1) (some root) bin_name

-- What `kernel_main64` does with the file system.
unfoldable pub kernel_main64_files : Memory → DataPtr → (Str → Image) → Image → Fs → Fs
kernel_main64_files mem tty0 linked hello s =
    let (bin_dir, s2) = kernel_main64_dirs tty0 s in
    embed_hello mem bin_dir hello (embed mem bin_dir (bins linked) s2)

-- The loop that binds the descriptors 0 to 2 to the node that was found for the terminal.
unfoldable pub attach_stdio : Option ℕ → Procs → Procs
attach_stdio none p = p
attach_stdio (some tty0) p =
    if p.current
    then record p {
      init_proc = record p.init_proc {
        fds = λ fd.
            if ltb fd 3
            then record { used = true; node = some tty0; ofs = 0; flags = 0 }
            else p.init_proc.fds fd;
      };
    }
    else p

-- What `kernel_main64` does with the process.
unfoldable pub kernel_main64_procs : Option ℕ → Procs → Procs
unfolding attach_stdio
kernel_main64_procs tty0 p = proc_init (attach_stdio tty0 p)
