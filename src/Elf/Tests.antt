-- ===== src/Elf/Tests.antt =====
-- Tests of a file of 200 bytes with one segment.
use snowkernel.Base.{ℕ, ◌==◌, if◌then◌else◌, some, List, [], ◌∷◌, length, All, ◌≡◌, refl, arith}
use snowkernel.Elf.{Image, Inspected, elf_inspect}
use snowkernel.Base.{ℕ, ◌+◌, ◌*◌, ◌<◌}
use snowkernel.Elf.{ehdr}
use snowkernel.Elf.Exec.{Program, exec_image}
use snowkernel.Elf.Accepted.{IsStatic, exec_image-IsStatic}
use snowkernel.Elf.Inside.{IsSmall, IsInside}

abbrev byte_of : List (ℕ × ℕ) → Image
byte_of [] i = 0
byte_of (b ∷ bs) i = if i == b.0 then b.1 else byte_of bs i

-- The magic, the entry point, where the program header is, its size and number, and its type, flags,
-- file size and size in memory.
abbrev image : Image
image = byte_of (
    (0, 127)
    ∷ (1, 69)
    ∷ (2, 76)
    ∷ (3, 70)
    ∷ (24, 16)
    ∷ (32, 64)
    ∷ (54, 56)
    ∷ (56, 1)
    ∷ (64, 1)
    ∷ (68, 5)
    ∷ (96, 10)
    ∷ (104, 20)
    ∷ [])

abbrev inspected : Inspected
inspected = record {
  segs = record { vaddr = 0; memsz = 20; filesz = 10; offset = 0; flags = 5 } ∷ [];
  count = 1;
  entry_out = 16;
}

accepted : elf_inspect image 200 16 ≡ some inspected
unfolding elf_inspect
accepted = refl

abbrev program : Program
program = record { segs = inspected.segs; entry = 16 }

taken : exec_image image 200 ≡ some program
unfolding exec_image
taken = refl

exec_image-IsStatic_example :
    (length program.segs < 16)
    × All (IsInside 200) program.segs
    × ((i : ℕ)
        → i < (ehdr image).e_phnum
        → IsStatic image ((ehdr image).e_phoff + i * (ehdr image).e_phentsize))
unfolding IsSmall
exec_image-IsStatic_example =
    exec_image-IsStatic image 200 program (omega arith) taken ((omega arith, omega arith), tt)
