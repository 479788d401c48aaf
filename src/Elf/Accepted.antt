-- ===== src/Elf/Accepted.antt =====
-- What a program file that `sys_execve` accepts is like.
use snowkernel.Base.{
  ℕ, zero, suc, ◌+◌, ◌-◌, ◌*◌, ◌^◌, ◌≤◌, ◌<◌, Bool, false, ◌||◌, ◌==◌, leb, ltb, if◌then◌else◌,
  if_elim, Option, none, some, min, length, All, ◌≡◌, ◌≢◌, Option-cases, inl, inr, List, refl, sym,
  ap, subst, arith,
}
use snowkernel.Fs.Data.{add_size}
use snowkernel.Elf.{Image, SegInfo, Inspected, ehdr, phdr_type, elf_inspect}
use snowkernel.Elf.Exec.{
  phdr_size, pt_dynamic, pt_interp, saw_refused, found_syscall, Program, exec_inspected, exec_image,
}
use snowkernel.Elf.Inside.{IsSmall, IsInside, elf_inspect-IsInside}

-- A program header that needs no other program to be loaded.
pub IsStatic : Image → ℕ → Type 0
IsStatic image off = (phdr_type image off ≢ pt_interp) × (phdr_type image off ≢ pt_dynamic)

-- One round of the loop, at a header that is whole.
round_static :
    (far : Bool) (type : ℕ) (rest : Bool)
    → far ≡ false
    → (if far then false else type == pt_interp || type == pt_dynamic || rest) ≡ false
    → (type ≢ pt_interp) × (type ≢ pt_dynamic) × (rest ≡ false)
round_static far type rest near seen =
    (ground (arith, near, seen), ground (arith, near, seen), ground (arith, near, seen))

-- The numbers of the loop stay in the file, so they do not wrap.
next_header :
    (size step n off : ℕ)
    → size < 2 ^ 63
    → off + suc n * step ≤ size
    → (off + step ≤ size) × (add_size off step ≡ off + step) × (off + step + n * step ≤ size)
next_header size step n off small fits =
    let split : suc n * step ≡ step + n * step = grind arith in
    (omega (arith, split, fits), omega (arith, split, fits, small), omega (arith, split, fits))

saw_refused-IsStatic :
    (image : Image) (size step n off i : ℕ)
    → size < 2 ^ 63
    → phdr_size ≤ step
    → off + n * step ≤ size
    → saw_refused image size step n off ≡ false
    → i < n
    → IsStatic image (off + i * step)
unfolding saw_refused
saw_refused-IsStatic image size step zero off i small wide fits none_seen low = elim low [ ]
saw_refused-IsStatic image size step (suc n) off i small wide fits none_seen low =
    let next = next_header size step n off small fits in
    let rest = saw_refused image size step n (add_size off step) in
    let near : ltb size (add_size off phdr_size) ≡ false = ground (arith, next.0, small, wide) in
    let now =
      round_static (ltb size (add_size off phdr_size)) (phdr_type image off) rest near none_seen in
    elim i as (λ j. j < suc n → IsStatic image (off + j * step)) [
      | zero ↦ λ _.
          let here : off ≡ off + 0 * step = omega arith in
          subst (IsStatic image) here (unfold IsStatic in (now.0, now.1))
      | suc j ↦ λ h.
          let there : off + step + j * step ≡ off + suc j * step = grind arith in
          let seen : saw_refused image size step n (off + step) ≡ false =
            subst (λ (o : ℕ). saw_refused image size step n o ≡ false) next.1 now.2 in
          subst (IsStatic image) there (
            saw_refused-IsStatic image size step n (off + step) j small wide next.2 seen
              (omega (arith, h)))
    ]
      low

leb-false : (a b : ℕ) → leb a b ≡ false → b < a
leb-false a b h = ground arith

ltb-false : (a b : ℕ) → ltb a b ≡ false → b ≤ a
ltb-false a b h = ground arith

-- What the tests behind `elf_inspect` promise of a program.
Passed : Image → ℕ → Inspected → Option Program → Type 0
Passed image size r none = Unit
Passed image size r (some prog) =
    let eh = ehdr image in
    (r.segs ≡ prog.segs)
    × (r.count < 16)
    × (phdr_size ≤ eh.e_phentsize)
    × (eh.e_phoff + eh.e_phentsize * eh.e_phnum ≤ size)
    × (saw_refused image size eh.e_phentsize eh.e_phnum eh.e_phoff ≡ false)

table_fits :
    (size off table : ℕ)
    → size < 2 ^ 63
    → (ltb size off || ltb size table || ltb size (add_size off table)) ≡ false
    → off + table ≤ size
table_fits size off table small h = ground (arith, small, h)

exec_inspected-Passed :
    (image : Image) (size : ℕ) (r : Inspected)
    → size < 2 ^ 63
    → Passed image size r (exec_inspected image size r)
unfolding exec_inspected Passed
exec_inspected-Passed image size r small =
    let P = Passed image size r in
    let eh = ehdr image in
    let table = eh.e_phentsize * eh.e_phnum in
    let refused = saw_refused image size eh.e_phentsize eh.e_phnum eh.e_phoff in
    let scanned = found_syscall image (min (size - 1) 4096) 0 in
    let far = ltb size eh.e_phoff || ltb size table || ltb size (add_size eh.e_phoff table) in
    let prog : Option Program = some (record { segs = r.segs; entry = r.entry_out }) in
    let o1 = if scanned then none else prog in
    let o2 = if refused then none else o1 in
    let o3 = if far then none else o2 in
    let o4 = if ltb eh.e_phentsize phdr_size then none else o3 in
    if_elim P (leb 16 r.count) none o4 (λ _. tt)
      (λ few.
        if_elim P (ltb eh.e_phentsize phdr_size) none o3 (λ _. tt)
          (λ wide.
            if_elim P far none o2 (λ _. tt)
              (λ near.
                if_elim P refused none o1 (λ _. tt)
                  (λ static.
                    if_elim P scanned none prog (λ _. tt)
                      (λ _. (
                        refl,
                        leb-false 16 r.count few,
                        ltb-false eh.e_phentsize phdr_size wide,
                        table_fits size eh.e_phoff table small near,
                        static,
                      ))))))

none-some : {A : Type 0} (a : A) → none ≡ some a → ⊥
none-some a h = cc

exec_image-some :
    (image : Image) (size : ℕ) (prog : Program)
    → exec_image image size ≡ some prog
    → (r : Inspected) × (elf_inspect image size 16 ≡ some r)
      × (exec_inspected image size r ≡ some prog)
exec_image-some image size prog e = elim (Option-cases (elf_inspect image size 16)) [
  | inl n ↦ absurd (none-some prog (unfold exec_image in rw (n, exec_image) at e))
  | inr (r, q) ↦ (r, q, unfold exec_image in rw (q, exec_image) at e)
]

-- A program file of fewer than 2^63 bytes that sys_execve does not refuse before it loads it, with
-- offsets and sizes of its segments below 2^63: it has at most 15 segments, the bytes of every
-- segment are in the file, and none of its program headers asks for an interpreter or for dynamic
-- linking.
pub exec_image-IsStatic :
    (image : Image) (size : ℕ) (prog : Program)
    → size < 2 ^ 63
    → exec_image image size ≡ some prog
    → All IsSmall prog.segs
    → (length prog.segs < 16)
      × All (IsInside size) prog.segs
      × ((i : ℕ)
          → i < (ehdr image).e_phnum
          → IsStatic image ((ehdr image).e_phoff + i * (ehdr image).e_phentsize))
unfolding Passed
exec_image-IsStatic image size prog small e fit =
    let (r, found, checked) = exec_image-some image size prog e in
    let eh = ehdr image in
    let p = subst (Passed image size r) checked (exec_inspected-Passed image size r small) in
    let inside =
      elf_inspect-IsInside image size 16 r found
        (subst (λ (l : List SegInfo). All IsSmall l) (sym p.0) fit) in
    let table : eh.e_phnum * eh.e_phentsize ≡ eh.e_phentsize * eh.e_phnum = grind arith in
    (
      omega (arith, ap length p.0, inside.1, p.1),
      subst (λ (l : List SegInfo). All (IsInside size) l) p.0 inside.2,
      λ i low.
          saw_refused-IsStatic image size eh.e_phentsize eh.e_phnum eh.e_phoff i small p.2
            (rw table p.3) p.4 low,
    )
