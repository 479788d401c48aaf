-- ===== src/Str/Copy.antt =====
-- What the copying routines leave in the destination.
use snowkernel.Base.{
  ℕ, zero, suc, ◌+◌, ◌≤◌, ◌<◌, List, [], ◌∷◌, ◌++◌, length, take, drop, ◌≡◌, refl, arith, ap,
}
use snowkernel.Str.{Str, cstr, kstrlen, kmemset, kmemcpy, kstrcpy, kstrncpy, kstrcat}

pub length-kmemset : (d : List ℕ) (v n : ℕ) → length (kmemset d v n) ≡ length d
unfolding kmemset
length-kmemset d v zero = refl
length-kmemset [] v (suc n) = refl
length-kmemset (x ∷ d) v (suc n) = ap suc (length-kmemset d v n)

cstr-kmemset : (d : List ℕ) (n : ℕ) → cstr (drop n d) ≡ [] → cstr (kmemset d 0 n) ≡ []
unfolding kmemset
cstr-kmemset d zero h = h
cstr-kmemset [] (suc n) h = refl
cstr-kmemset (x ∷ d) (suc n) h = refl

pub length-kstrncpy : (d : List ℕ) (s : Str) (n : ℕ) → length (kstrncpy d s n) ≡ length d
unfolding kstrncpy
length-kstrncpy d s zero = refl
length-kstrncpy [] s (suc n) = refl
length-kstrncpy (x ∷ d) [] (suc n) = omega (arith, length-kmemset d 0 n)
length-kstrncpy (x ∷ d) (c ∷ s) (suc n) =
    ground (arith, length-kmemset d 0 n, length-kstrncpy d s n)

-- `kstrncpy(d, s, n)` into an array of more than `n` bytes whose byte `n` ends the text leaves
-- the first `n` bytes of the text `s` there.
pub cstr-kstrncpy :
    (d : List ℕ) (s : Str) (n : ℕ)
    → n < length d
    → cstr (drop n d) ≡ []
    → cstr (kstrncpy d s n) ≡ take n (cstr s)
unfolding kstrncpy
cstr-kstrncpy d s zero h e = e
cstr-kstrncpy [] s (suc n) h e = absurd (omega arith)
cstr-kstrncpy (x ∷ d) [] (suc n) h e = refl
cstr-kstrncpy (x ∷ d) (c ∷ s) (suc n) h e = ground (arith, cstr-kstrncpy d s n)

-- With room for the text and its terminator `kstrcpy` leaves the text.
pub cstr-kstrcpy : (d : List ℕ) (s : Str) → kstrlen s < length d → cstr (kstrcpy d s) ≡ cstr s
unfolding kstrcpy kstrlen
cstr-kstrcpy [] s h = absurd (omega arith)
cstr-kstrcpy (x ∷ d) [] h = refl
cstr-kstrcpy (x ∷ d) (c ∷ s) h = ground (arith, cstr-kstrcpy d s)

-- With room for both texts and the terminator `kstrcat` leaves one behind the other.
pub cstr-kstrcat :
    (d : List ℕ) (s : Str)
    → kstrlen d + kstrlen s < length d
    → cstr (kstrcat d s) ≡ cstr d ++ cstr s
unfolding kstrcat kstrlen
cstr-kstrcat [] s h = absurd (omega arith)
cstr-kstrcat (x ∷ d) s h = ground (arith, cstr-kstrcat d s, cstr-kstrcpy (x ∷ d) s)

-- `n` bytes come over unchanged.
pub kmemcpy_lem :
    (d s : List ℕ) (n : ℕ) → n ≤ length d → n ≤ length s → kmemcpy d s n ≡ take n s ++ drop n d
unfolding kmemcpy
kmemcpy_lem d s zero h k = refl
kmemcpy_lem [] s (suc n) h k = absurd (omega arith)
kmemcpy_lem (x ∷ d) [] (suc n) h k = absurd (omega arith)
kmemcpy_lem (x ∷ d) (c ∷ s) (suc n) h k =
    ap (λ t. c ∷ t) (kmemcpy_lem d s n (omega arith) (omega arith))
