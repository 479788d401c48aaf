-- ===== src/Str.antt =====
-- The string and memory routines of src/kernel/string.c.
--
-- A pointer to characters is the list of the bytes from there on. Reading past the list's end
-- gives the terminator, so a literal is written without it, and a fixed array may be longer than
-- the text that it holds. A destination is the list of the bytes of the array from the pointer to
-- its end; a write past that end is dropped, and the theorems state when there is none.
pub mod Compare
pub mod Copy
pub mod Dup
use snowkernel.Base.{
  ℕ, zero, suc, ◌+◌, Bool, true, false, List, [], ◌∷◌, ◌==◌, if◌then◌else◌, ◌%◌, Option, none, some,
  ◌||◌, ltb, length, ◌++◌, take, drop, ◌≡◌, ◌<◌, All,
}
use mathlib.Core.Option
use snowkernel.Base.Int.{ℤ, pos, sub_ℕ, is_zero}

abbrev pub Str : Type 0
Str = List ℕ

-- The bytes before the terminator.
abbrev pub cstr : Str → Str
cstr [] = []
cstr (c ∷ s) = if c == 0 then [] else c ∷ cstr s

-- `size_t` does not wrap here: a string is shorter than memory.
unfoldable pub kstrlen : Str → ℕ
kstrlen [] = 0
kstrlen (c ∷ s) = if c == 0 then 0 else suc (kstrlen s)

-- `int`, the difference of the first two bytes that differ or end a string.
unfoldable pub kstrcmp : Str → Str → ℤ
kstrcmp [] [] = pos 0
kstrcmp [] (d ∷ t) = sub_ℕ 0 d
kstrcmp (c ∷ s) [] = sub_ℕ c 0
kstrcmp (c ∷ s) (d ∷ t) = if c == 0 then sub_ℕ c d else if c == d then kstrcmp s t else sub_ℕ c d

-- `kstrcmp(a, b) == 0`, as the callers write it.
unfoldable pub str_eq : Str → Str → Bool
unfolding kstrcmp
str_eq a b = is_zero (kstrcmp a b)

pub kstrncmp : Str → Str → ℕ → ℤ
kstrncmp a b zero = pos 0
kstrncmp [] [] (suc n) = pos 0
kstrncmp [] (d ∷ t) (suc n) = sub_ℕ 0 d
kstrncmp (c ∷ s) [] (suc n) = sub_ℕ c 0
kstrncmp (c ∷ s) (d ∷ t) (suc n) =
    if c == d then (if c == 0 then sub_ℕ c d else kstrncmp s t n) else sub_ℕ c d

-- The first `n` bytes become `v`.
unfoldable pub kmemset : List ℕ → ℕ → ℕ → List ℕ
kmemset d v zero = d
kmemset [] v (suc n) = []
kmemset (x ∷ d) v (suc n) = (v % 256) ∷ kmemset d v n

pub kmemcpy : List ℕ → List ℕ → ℕ → List ℕ
kmemcpy d s zero = d
kmemcpy [] s (suc n) = []
kmemcpy (x ∷ d) [] (suc n) = 0 ∷ kmemcpy d [] n
kmemcpy (x ∷ d) (c ∷ s) (suc n) = c ∷ kmemcpy d s n

-- Copies until the terminator, which is copied too.
unfoldable pub kstrcpy : List ℕ → Str → List ℕ
kstrcpy [] s = []
kstrcpy (x ∷ d) [] = 0 ∷ d
kstrcpy (x ∷ d) (c ∷ s) = if c == 0 then 0 ∷ d else c ∷ kstrcpy d s

-- Writes exactly `n` bytes: the text, then zeros.
unfoldable pub kstrncpy : List ℕ → Str → ℕ → List ℕ
unfolding kmemset
kstrncpy d s zero = d
kstrncpy [] s (suc n) = []
kstrncpy (x ∷ d) [] (suc n) = 0 ∷ kmemset d 0 n
kstrncpy (x ∷ d) (c ∷ s) (suc n) = if c == 0 then 0 ∷ kmemset d 0 n else c ∷ kstrncpy d s n

unfoldable pub kstrcat : List ℕ → Str → List ℕ
unfolding kstrcpy
kstrcat [] s = []
kstrcat (x ∷ d) s = if x == 0 then kstrcpy (x ∷ d) s else x ∷ kstrcat d s

-- The index of the first `c`; of the terminator, if `c` is 0.
unfoldable pub kstrchr : Str → ℕ → Option ℕ
kstrchr [] c = if c == 0 then some 0 else none
kstrchr (x ∷ s) c =
    if x == 0
    then (if c == 0 then some 0 else none)
    else if x == c
    then some 0
    else Option.map suc (kstrchr s c)

-- `_kdup_buf` and `_kdup_off`.
pub record DupBuf : Type 0 where
  pub buf : List ℕ
  pub off : ℕ

abbrev pub dup_size : ℕ
dup_size = 4096

-- The index in `_kdup_buf` that is returned, or the null pointer (`none`). A null argument is
-- `none` too. The buffer is used round: a string that does not fit behind the last one starts
-- again at 0.
pub kstrdup : DupBuf → Option Str → Option ℕ × DupBuf
unfolding kstrlen kmemcpy
kstrdup k none = (none, k)
kstrdup k (some s) =
    let n = kstrlen s + 1 in
    if ltb dup_size n
    then (none, k)
    else let at = if ltb dup_size (k.off + n) then 0 else k.off in
      (some at, record { buf = take at k.buf ++ kmemcpy (drop at k.buf) s n; off = at + n })
