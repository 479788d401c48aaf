-- ===== src/Str/Compare.antt =====
-- `kstrcmp` and `kstrlen` read a text up to its terminator and no further.
use snowkernel.Base.{true, [], ◌∷◌, length, ◌≡◌, refl, arith, ◌↔◌}
use snowkernel.Str.{Str, cstr, kstrlen, str_eq}

pub kstrlen-cstr : (s : Str) → kstrlen s ≡ length (cstr s)
unfolding kstrlen
kstrlen-cstr [] = refl
kstrlen-cstr (c ∷ s) = ground (arith, kstrlen-cstr s)

eq_of_str_eq : (a b : Str) → str_eq a b ≡ true → cstr a ≡ cstr b
unfolding str_eq
eq_of_str_eq [] [] h = refl
eq_of_str_eq [] (d ∷ t) h = ground arith
eq_of_str_eq (c ∷ s) [] h = ground arith
eq_of_str_eq (c ∷ s) (d ∷ t) h = ground (arith, eq_of_str_eq s t)

str_eq_of_eq : (a b : Str) → cstr a ≡ cstr b → str_eq a b ≡ true
unfolding str_eq
str_eq_of_eq [] [] h = refl
str_eq_of_eq [] (d ∷ t) h = ground arith
str_eq_of_eq (c ∷ s) [] h = ground arith
str_eq_of_eq (c ∷ s) (d ∷ t) h = ground (arith, str_eq_of_eq s t)

-- `kstrcmp(a, b) == 0` exactly when the texts before the terminators are the same.
pub str_eq_iff : (a b : Str) → (str_eq a b ≡ true) ↔ (cstr a ≡ cstr b)
str_eq_iff a b = (eq_of_str_eq a b, str_eq_of_eq a b)
