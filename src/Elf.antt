-- ===== src/Elf.antt =====
-- The inspection of a program file by src/kernel/elf.c.
pub mod Inside
pub mod Exec
pub mod Accepted
mod Tests
use snowkernel.Base.{
  ℕ, zero, suc, ◌+◌, ◌*◌, ◌%◌, ◌^◌, Bool, true, false, not, ◌==◌, ltb, if◌then◌else◌, Option, none,
  some, List, [], ◌∷◌, take, length,
}
use snowkernel.Fs.Data.{add_size}

-- The bytes in memory from the start of the image on, past its end too.
abbrev pub Image : Type 0
Image = ℕ → ℕ

-- The number in `n` bytes from `off` on, the lowest byte first.
unfoldable pub field : Image → ℕ → ℕ → ℕ
field image off zero = 0
field image off (suc n) = image off + 256 * field image (off + 1) n

-- The fields of `Elf64_Ehdr` that are read.
pub record Ehdr : Type 0 where
  pub e_magic : ℕ
  pub e_entry : ℕ
  pub e_phoff : ℕ
  pub e_phentsize : ℕ
  pub e_phnum : ℕ

abbrev pub ehdr_size : ℕ
ehdr_size = 64

unfoldable pub ehdr : Image → Ehdr
unfolding field
ehdr image = record {
  e_magic = field image 0 4;
  e_entry = field image 24 8;
  e_phoff = field image 32 8;
  e_phentsize = field image 54 2;
  e_phnum = field image 56 2;
}

-- `elf_seg_info_t`.
pub record SegInfo : Type 0 where
  pub vaddr : ℕ
  pub memsz : ℕ
  pub filesz : ℕ
  pub offset : ℕ
  pub flags : ℕ

-- What the program header at `off` says, and its type.
unfoldable pub phdr : Image → ℕ → SegInfo
unfolding field
phdr image off = record {
  vaddr = field image (off + 16) 8;
  memsz = field image (off + 40) 8;
  filesz = field image (off + 32) 8;
  offset = field image (off + 8) 8;
  flags = field image (off + 4) 4;
}

unfoldable pub phdr_type : Image → ℕ → ℕ
unfolding field
phdr_type image off = field image off 4

abbrev pub pt_load : ℕ
pt_load = 1

abbrev pub elf_magic : ℕ
elf_magic = 0x464C457F

abbrev and_then : SegInfo → Option (List SegInfo) → Option (List SegInfo)
and_then seg rest = elim rest [ none ↦ none | some segs ↦ some (seg ∷ segs) ]

-- The loop over the program headers, `n` of them from the one at `off` on, `step` bytes apart: the
-- segments to load, or nothing where one is refused.
unfoldable pub load_segments : Image → ℕ → ℕ → ℕ → ℕ → Option (List SegInfo)
unfolding phdr phdr_type
load_segments image size step zero off = some []
load_segments image size step (suc n) off =
    let seg = phdr image off in
    let rest = load_segments image size step n (add_size off step) in
    if not (phdr_type image off == pt_load)
    then rest
    else if ltb size (add_size seg.offset seg.filesz)
    then none
    else and_then seg rest

-- The entries stored in `segs`, the number returned and the entry point; `none` is -1.
pub record Inspected : Type 0 where
  pub segs : List SegInfo
  pub count : ℕ
  pub entry_out : ℕ

unfoldable pub elf_inspect : Image → ℕ → ℕ → Option Inspected
unfolding ehdr load_segments
elf_inspect image size max_segs =
    let eh = ehdr image in
    if ltb size ehdr_size
    then none
    else if not (eh.e_magic == elf_magic)
    then none
    else if ltb size (add_size eh.e_phoff (eh.e_phnum * eh.e_phentsize))
    then none
    else elim (load_segments image size eh.e_phentsize eh.e_phnum eh.e_phoff) [
      | none ↦ none
      | some segs ↦
          some (record { segs = take max_segs segs; count = length segs; entry_out = eh.e_entry })
    ]
