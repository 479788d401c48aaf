-- ===== src/Elf/Exec.antt =====
-- The tests that `sys_execve` of src/kernel/syscall.c makes of a program file before it loads it.
use snowkernel.Base.{
  ℕ, zero, suc, ◌+◌, ◌-◌, ◌*◌, Bool, false, ◌&&◌, ◌||◌, ◌==◌, leb, ltb, if◌then◌else◌, Option, none,
  some, List, min,
}
use snowkernel.Fs.Data.{add_size}
use snowkernel.Elf.{Image, SegInfo, Inspected, ehdr, phdr_type, elf_inspect}

-- `sizeof(Elf64_Phdr)`.
abbrev pub phdr_size : ℕ
phdr_size = 56

abbrev pub pt_dynamic : ℕ
pt_dynamic = 2

abbrev pub pt_interp : ℕ
pt_interp = 3

-- The loop over the program headers, `n` of them from the one at `off` on: whether one has a type that
-- is refused. It stops at a header that is not whole in the file.
unfoldable pub saw_refused : Image → ℕ → ℕ → ℕ → ℕ → Bool
unfolding phdr_type
saw_refused image size step zero off = false
saw_refused image size step (suc n) off =
    let rest = saw_refused image size step n (add_size off step) in
    let type = phdr_type image off in
    if ltb size (add_size off phdr_size)
    then false
    else type == pt_interp || type == pt_dynamic || rest

-- The scan for the two bytes of the instruction, `n` places from the byte `i` on.
unfoldable pub found_syscall : Image → ℕ → ℕ → Bool
found_syscall image zero i = false
found_syscall image (suc n) i =
    (image i == 0x0F && image (i + 1) == 0x05) || found_syscall image n (i + 1)

-- What is loaded: the segments and the entry point.
pub record Program : Type 0 where
  pub segs : List SegInfo
  pub entry : ℕ

-- The tests behind `elf_inspect`.
unfoldable pub exec_inspected : Image → ℕ → Inspected → Option Program
unfolding ehdr saw_refused found_syscall
exec_inspected image size r =
    let eh = ehdr image in
    let table = eh.e_phentsize * eh.e_phnum in
    if leb 16 r.count
    then none
    else if ltb eh.e_phentsize phdr_size
    then none
    else if ltb size eh.e_phoff || ltb size table || ltb size (add_size eh.e_phoff table)
    then none
    else if saw_refused image size eh.e_phentsize eh.e_phnum eh.e_phoff
    then none
    else if found_syscall image (min (size - 1) 4096) 0
    then none
    else some (record { segs = r.segs; entry = r.entry_out })

-- `none` is the -1 of each refusal; the lines that are printed are left out.
unfoldable pub exec_image : Image → ℕ → Option Program
unfolding elf_inspect exec_inspected
exec_image image size = elim (elf_inspect image size 16) [
  | none ↦ none
  | some r ↦ exec_inspected image size r
]
