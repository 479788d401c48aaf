-- ===== src/Env/Match.antt =====
-- What `name_match` decides.
use snowkernel.Base.{
  true, false, ◌||◌, ◌==◌, [], ◌∷◌, ◌++◌, length, All, ◌≡◌, refl, ap₂, arith, ◌↔◌, subst,
}
use snowkernel.Str.{Str, kstrlen}
use snowkernel.Env.{byte, same_until_eq, no_eq_before, eq_at_end, name_match}

-- A name's bytes: neither `=` nor the terminator.
abbrev pub IsName : Str → Type 0
IsName n = All (λ c. (c == 0 || c == b'=') ≡ false) n

kstrlen-name : (n : Str) → IsName n → kstrlen n ≡ length n
unfolding kstrlen
kstrlen-name [] h = refl
kstrlen-name (c ∷ n) h = ground (arith, h.0, kstrlen-name n h.1)

byte-after : (n rest : Str) → byte (n ++ b'=' ∷ rest) (length n) ≡ b'='
byte-after [] rest = refl
byte-after (c ∷ n) rest = byte-after n rest

same-own : (n rest : Str) → IsName n → same_until_eq (n ++ b'=' ∷ rest) n ≡ true
unfolding same_until_eq
same-own [] rest h = refl
same-own (c ∷ n) rest h = ground (arith, h.0, same-own n rest h.1)

no_eq-own : (n rest : Str) → IsName n → no_eq_before (n ++ b'=' ∷ rest) n ≡ true
unfolding no_eq_before
no_eq-own [] rest h = refl
no_eq-own (c ∷ n) rest h = ground (arith, h.0, no_eq-own n rest h.1)

-- An entry `NAME=...` has its own name.
pub name_match-own : (n rest : Str) → IsName n → name_match (n ++ b'=' ∷ rest) n ≡ true
unfolding name_match eq_at_end
name_match-own n rest h =
    rw (same-own n rest h, no_eq-own n rest h, kstrlen-name n h, byte-after n rest) refl

-- An entry `NAME=...` has no other name.
pub name_match-eq :
    (n rest name : Str)
    → IsName n
    → IsName name
    → name_match (n ++ b'=' ∷ rest) name ≡ true
    → n ≡ name
unfolding name_match same_until_eq no_eq_before eq_at_end kstrlen
name_match-eq [] rest [] h k e = refl
name_match-eq [] rest (d ∷ name) h k e = ground (arith, e, k.0)
name_match-eq (c ∷ n) rest [] h k e = ground (arith, e, h.0)
name_match-eq (c ∷ n) rest (d ∷ name) h k e =
    let same : c ≡ d = ground (arith, e, h.0, k.0) in
    let rest_matches : name_match (n ++ b'=' ∷ rest) name ≡ true = ground (arith, e, h.0, k.0) in
    ap₂ ◌∷◌ same (name_match-eq n rest name h.1 k.1 rest_matches)

-- An entry `NAME=...` matches a name exactly when that is its own.
pub name_match_iff :
    (n rest name : Str)
    → IsName n
    → IsName name
    → (name_match (n ++ b'=' ∷ rest) name ≡ true) ↔ (n ≡ name)
name_match_iff n rest name h k = (
  name_match-eq n rest name h k,
  λ e. subst (λ (x : Str). name_match (n ++ b'=' ∷ rest) x ≡ true) e (name_match-own n rest h),
)
