-- ===== src/Syscall/Seek.antt =====
-- `sys_lseek`, `sys_stat`, `sys_fstat` and `sys_isatty` of src/kernel/syscall.c.
use snowkernel.Base.{
  ℕ, ◌+◌, ◌-◌, ◌^◌, ◌≤◌, ◌<◌, Option, none, some, ◌==◌, ltb, leb, if◌then◌else◌, List, ◌≡◌, refl,
  ap, ◌∙◌, arith, Bool-cases, inl, inr, lt→ltb,
}
use snowkernel.Base.Int.{ℤ, pos, negsuc, sub_ℕ}
use snowkernel.Str.{Str}
use snowkernel.Fs.Defs.{is_chr}
use snowkernel.Fs.Data.{add_size}
use snowkernel.Fs.Path.{at, nowhere, fault, fs_lookup}
use snowkernel.Proc.{proc_get_fd}
use snowkernel.Syscall.{Kernel, Stat, entry, set_ofs, user_fd, user_node, fill_stat}

-- `base + off` for a signed `off`, in `size_t`.
abbrev pub offset_from : ℕ → ℤ → ℕ
offset_from base (pos o) = add_size base o
offset_from base (negsuc o) = add_size base (2 ^ 64 - (o + 1))

-- `newofs` of `sys_lseek` before the clamp, by `whence`: `none` is an unknown one.
unfoldable pub sought : ℕ → ℕ → ℤ → ℕ → Option ℕ
sought ofs size off whence =
    if whence == 0
    then some (elim off [ pos o ↦ o | negsuc o ↦ 0 ])
    else if whence == 1
    then some (offset_from ofs off)
    else if whence == 2
    then some (offset_from size off)
    else none

-- `none` is a read through a null node.
unfoldable pub sys_lseek : Kernel → ℤ → ℤ → ℕ → Option (ℤ × Kernel)
unfolding user_fd sought
sys_lseek k fd off whence = elim (user_fd k fd) [
  | none ↦ some (negsuc 0, k)
  | some i ↦ elim (entry k i).node [
    | none ↦ if leb whence 2 then none else some (negsuc 0, k)
    | some n ↦
        let size = (k.fs.node n).size in
        elim (sought (entry k i).ofs size off whence) [
          | none ↦ some (negsuc 0, k)
          | some newofs ↦
              let clamped = if ltb size newofs then size else newofs in
              some (pos clamped, set_ofs k i clamped)
        ]
  ]
]

-- What a call stores in the caller's record, if it does.
unfoldable pub sys_fstat : Kernel → ℤ → ℤ × Option Stat
unfolding user_node fill_stat
sys_fstat k fd = elim (user_node k fd) [
  | none ↦ (negsuc 0, none)
  | some (i, n) ↦ (pos 0, some (fill_stat k.fs n))
]

-- The path and the record are not null. The outer `none` is a fault of `fs_lookup`.
unfoldable pub sys_stat : Kernel → List ℕ → Str → Option (ℤ × Option Stat)
unfolding fs_lookup fill_stat
sys_stat k junk path = elim (fs_lookup k.fs junk (some k.fs.cwd) (some path)) [
  | fault ↦ none
  | nowhere ↦ some (negsuc 0, none)
  | at n ↦ some (pos 0, some (fill_stat k.fs n))
]

unfoldable pub sys_isatty : Kernel → ℤ → ℤ
unfolding proc_get_fd
sys_isatty k fd = elim (proc_get_fd k.procs fd) [
  | none ↦ pos 0
  | some i ↦ elim (entry k i).node [
    | none ↦ pos 0
    | some n ↦ if is_chr (k.fs.node n).type then pos 1 else pos 0
  ]
]

-- A clamp of an integer to the offsets of a file, which takes a place before the file to its end.
abbrev pub clamp : ℕ → ℤ → ℕ
clamp size (pos t) = if ltb size t then size else t
clamp size (negsuc t) = size

-- The sum, as an integer.
abbrev pub plus : ℕ → ℤ → ℤ
plus base (pos o) = pos (base + o)
plus base (negsuc o) = sub_ℕ base (o + 1)

abbrev pub InRange : ℤ → Type 0
InRange (pos o) = o < 2 ^ 63
InRange (negsuc o) = o < 2 ^ 63

clamp-plus :
    (size base : ℕ) (off : ℤ)
    → size < 2 ^ 63
    → base ≤ size
    → InRange off
    → (if ltb size (offset_from base off) then size else offset_from base off)
      ≡ clamp size (plus base off)
clamp-plus size base (pos o) small low h =
    let sum : add_size base o ≡ base + o = omega (arith, small, low, h) in rw sum refl
clamp-plus size base (negsuc o) small low h = elim (Bool-cases (leb (o + 1) base)) [
  | inl e ↦
      let le : o + 1 ≤ base = ground (arith, e) in
      let sum : add_size base (2 ^ 64 - (o + 1)) ≡ base - (o + 1) =
        omega (arith, small, low, h, le) in
      rw (sum, e) refl
  | inr e ↦
      let lt : base < o + 1 = ground (arith, e) in
      let sum : add_size base (2 ^ 64 - (o + 1)) ≡ base + 2 ^ 64 - (o + 1) =
        omega (arith, small, low, h, lt) in
      rw (sum, e, lt→ltb size (base + 2 ^ 64 - (o + 1)) (omega (arith, small, low, h, lt))) refl
]

-- The result and the state of a call that sets the offset to the place, clamped.
abbrev pub Moves : Kernel → ℕ → ℕ → ℤ → Option (ℤ × Kernel) → Type 0
Moves k i size t out = out ≡ some (pos (clamp size t), set_ofs k i (clamp size t))

module _ (k : Kernel) (fd : ℤ) (i n : ℕ) (off : ℤ) (got : user_fd k fd ≡ some i)
    (node : (entry k i).node ≡ some n) where
  abbrev size : ℕ
  size = (k.fs.node n).size

  -- What the call does with the place that `sought` computes.
  abbrev put : Option ℕ → Option (ℤ × Kernel)
  put t = elim t [
    | none ↦ some (negsuc 0, k)
    | some newofs ↦
        let clamped = if ltb size newofs then size else newofs in
        some (pos clamped, set_ofs k i clamped)
  ]

  lseek-put :
      (whence : ℕ) → sys_lseek k fd off whence ≡ put (sought (entry k i).ofs size off whence)
  unfolding sys_lseek
  lseek-put whence = rw (got, sys_lseek, node) refl

  -- A seek on an open file of fewer than 2^63 bytes whose offset is not past its end: the result and
  -- the new offset are the offset that is asked for, clamped to the file's size; but a place before
  -- the file, asked for from the current offset or from the end, becomes the file's end, while one
  -- asked for from the start becomes the start.
  pub sys_lseek-clamp :
      size < 2 ^ 63
      → (entry k i).ofs ≤ size
      → InRange off
      → Moves k i size (elim off [ pos o ↦ pos o | negsuc o ↦ pos 0 ]) (sys_lseek k fd off 0)
        × Moves k i size (plus (entry k i).ofs off) (sys_lseek k fd off 1)
        × Moves k i size (plus size off) (sys_lseek k fd off 2)
  unfolding sought
  sys_lseek-clamp small low h =
      let same : size ≤ size = omega arith in
      let answer = λ (c : ℕ). some (pos c, set_ofs k i c) in
      (
        lseek-put 0 ∙ from_start off,
        lseek-put 1 ∙ ap answer (clamp-plus size (entry k i).ofs off small low h),
        lseek-put 2 ∙ ap answer (clamp-plus size size off small same h),
      )
    where
      from_start :
          (off : ℤ)
          → put (some (elim off [ pos o ↦ o | negsuc o ↦ 0 ]))
            ≡ some (
              pos (clamp size (elim off [ pos o ↦ pos o | negsuc o ↦ pos 0 ])),
              set_ofs k i (clamp size (elim off [ pos o ↦ pos o | negsuc o ↦ pos 0 ])),
            )
      from_start (pos o) = refl
      from_start (negsuc o) = refl

  -- The call that goes back to the start.
  pub sys_lseek_start : off ≡ pos 0 → sys_lseek k fd off 0 ≡ some (pos 0, set_ofs k i 0)
  unfolding sought
  sys_lseek_start e =
      lseek-put 0
      ∙ ap (λ (off : ℤ). put (some (elim off [ pos o ↦ o | negsuc o ↦ 0 ]))) e
      ∙ ap (λ (c : ℕ). some (pos c, set_ofs k i c)) (ground arith)
