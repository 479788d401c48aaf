-- ===== src/Elf/Inside.antt =====
-- The segments of a program file are in the file.
use snowkernel.Base.{
  ℕ, zero, suc, ◌+◌, ◌*◌, ◌^◌, ◌≤◌, ◌<◌, not, ◌==◌, ltb, if◌then◌else◌, if_elim, Option, none, some,
  List, [], ◌∷◌, take, length, length-take, All, All_both, ◌≡◌, subst, arith,
}
use snowkernel.Fs.Data.{add_size}
use snowkernel.Elf.{
  Image, SegInfo, Inspected, ehdr, phdr, phdr_type, pt_load, ehdr_size, elf_magic, and_then,
  load_segments, elf_inspect,
}

-- What the code tests: the sum is the one of `uint64_t`.
pub Fits : ℕ → SegInfo → Type 0
Fits size seg = add_size seg.offset seg.filesz ≤ size

-- The numbers are below 2^63, so that their sum does not wrap.
unfoldable pub IsSmall : SegInfo → Type 0
IsSmall seg = (seg.offset < 2 ^ 63) × (seg.filesz < 2 ^ 63)

-- The bytes of the segment are bytes of the file.
pub IsInside : ℕ → SegInfo → Type 0
IsInside size seg = seg.offset + seg.filesz ≤ size

AllFit : ℕ → Option (List SegInfo) → Type 0
AllFit size none = Unit
AllFit size (some segs) = All (Fits size) segs

and_then-AllFit :
    (size : ℕ) (seg : SegInfo) (rest : Option (List SegInfo))
    → Fits size seg
    → AllFit size rest
    → AllFit size (and_then seg rest)
unfolding AllFit
and_then-AllFit size seg none h k = tt
and_then-AllFit size seg (some segs) h k = (h, k)

load_segments-AllFit :
    (image : Image) (size step n off : ℕ) → AllFit size (load_segments image size step n off)
unfolding load_segments AllFit Fits
load_segments-AllFit image size step zero off = tt
load_segments-AllFit image size step (suc n) off =
    let seg = phdr image off in
    let rest = load_segments image size step n (add_size off step) in
    let ih = load_segments-AllFit image size step n (add_size off step) in
    let out = ltb size (add_size seg.offset seg.filesz) in
    if_elim (AllFit size) (not (phdr_type image off == pt_load)) rest
      (if out then none else and_then seg rest) (λ _. ih)
      (λ _.
        if_elim (AllFit size) out none (and_then seg rest) (λ _. tt)
          (λ e. and_then-AllFit size seg rest (ground (arith, e)) ih))

All-take : (P : SegInfo → Type 0) (n : ℕ) (segs : List SegInfo) → All P segs → All P (take n segs)
All-take P zero segs h = tt
All-take P (suc n) [] h = tt
All-take P (suc n) (s ∷ segs) h = (h.0, All-take P n segs h.1)

-- What an answer that is not -1 promises.
Sound : ℕ → ℕ → Option Inspected → Type 0
Sound size max none = Unit
Sound size max (some r) = (length r.segs ≤ max) × (length r.segs ≤ r.count) × All (Fits size) r.segs

kept-Sound :
    (size max entry : ℕ) (found : Option (List SegInfo))
    → AllFit size found
    → Sound size max (elim found [
      | none ↦ none
      | some segs ↦ some (record { segs = take max segs; count = length segs; entry_out = entry })
    ])
unfolding Sound AllFit
kept-Sound size max entry none h = tt
kept-Sound size max entry (some segs) h =
    let n = length-take max segs in
    (omega (arith, n), omega (arith, n), All-take (Fits size) max segs h)

elf_inspect-Sound : (image : Image) (size max : ℕ) → Sound size max (elf_inspect image size max)
unfolding elf_inspect Sound
elf_inspect-Sound image size max =
    let eh = ehdr image in
    let found = load_segments image size eh.e_phentsize eh.e_phnum eh.e_phoff in
    let kept : Option Inspected = elim found [
      | none ↦ none
      | some segs ↦
          some (record { segs = take max segs; count = length segs; entry_out = eh.e_entry })
    ] in
    let far = ltb size (add_size eh.e_phoff (eh.e_phnum * eh.e_phentsize)) in
    let magic = not (eh.e_magic == elf_magic) in
    if_elim (Sound size max) (ltb size ehdr_size) none
      (if magic then none else if far then none else kept) (λ _. tt)
      (λ _.
        if_elim (Sound size max) magic none (if far then none else kept) (λ _. tt)
          (λ _.
            if_elim (Sound size max) far none kept (λ _. tt)
              (λ _.
                kept-Sound size max eh.e_entry found
                  (load_segments-AllFit image size eh.e_phentsize eh.e_phnum eh.e_phoff))))

-- Whatever bytes an image has, where `elf_inspect` does not return -1 and the offsets and sizes of the
-- segments that it stores are below 2^63: it stores no more than `max_segs` and no more than it
-- returns, and the bytes of every segment stored are in the file. The code's own test compares a sum
-- that can wrap.
pub elf_inspect-IsInside :
    (image : Image) (size max_segs : ℕ) (r : Inspected)
    → elf_inspect image size max_segs ≡ some r
    → All IsSmall r.segs
    → (length r.segs ≤ max_segs) × (length r.segs ≤ r.count) × All (IsInside size) r.segs
unfolding Sound Fits IsSmall IsInside
elf_inspect-IsInside image size max_segs r e small =
    let s = subst (Sound size max_segs) e (elf_inspect-Sound image size max_segs) in
    (
      s.0,
      s.1,
      All_both IsSmall (Fits size) (IsInside size) r.segs (λ seg h k. omega (arith, h.0, h.1, k))
          small s.2,
    )
