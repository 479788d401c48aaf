-- ===== src/Shell/Cwd.antt =====
-- `get_cwd_path` of src/kernel/shell.c.
use mathlib.Core.List.{reverse}
use snowkernel.Base.{
  ℕ, zero, suc, ◌+◌, ◌-◌, ◌≤◌, ltb, leb, if◌then◌else◌, List, [], ◌∷◌, ◌++◌, Option, none, some,
  length, length-append, arith, if_elim, ltb→lt,
}
use snowkernel.Str.{Str, cstr}
use snowkernel.Fs.Defs.{Fs}

-- `stack` as it is filled, from the current directory up, with `n` places left of 32.
unfoldable pub parents : ℕ → Fs → Option ℕ → List ℕ
parents zero s cur = []
parents (suc n) s none = []
parents (suc n) s (some c) = c ∷ parents n s (s.node c).parent

-- The loop over one name, `out` being what is in the buffer.
unfoldable pub put_name : ℕ → Str → Str → Str
put_name max out [] = out
put_name max out (c ∷ name) =
    if ltb (length out) (max - 1) then put_name max (out ++ c ∷ []) name else out

-- The loop over the directories below the uppermost.
unfoldable pub put_path : ℕ → Fs → Str → List ℕ → Str
unfolding put_name
put_path max s out [] = out
put_path max s out (d ∷ ds) =
    let out' = put_name max (out ++ b'/' ∷ []) (cstr (s.node d).name) in
    let rest = put_path max s out' ds in if leb (max - 1) (length out') then out' else rest

-- The path from the stack, the uppermost directory first.
unfoldable pub path_of : ℕ → Fs → List ℕ → Str
unfolding put_path
path_of max s [] = []
path_of max s (top ∷ []) = b'/' ∷ []
path_of max s (top ∷ d ∷ ds) = put_path max s [] (d ∷ ds)

-- The text that is stored, without its terminator.
unfoldable pub get_cwd_path : Fs → ℕ → Str
unfolding parents path_of
get_cwd_path s max = path_of max s (reverse (parents 32 s (some s.cwd)))

put_name-bound :
    (max : ℕ) (out name : Str) → length out + 1 ≤ max → length (put_name max out name) + 1 ≤ max
unfolding put_name
put_name-bound max out [] h = h
put_name-bound max out (c ∷ name) h =
    if_elim (λ (t : Str). length t + 1 ≤ max) (ltb (length out) (max - 1))
      (put_name max (out ++ c ∷ []) name) out
      (λ e.
        put_name-bound max (out ++ c ∷ []) name
          (omega (arith, ltb→lt (length out) (max - 1) e, length-append out (c ∷ []))))
      (λ _. h)

put_path-bound :
    (max : ℕ) (s : Fs) (out : Str) (ds : List ℕ)
    → length out + 2 ≤ max
    → length (put_path max s out ds) + 1 ≤ max
unfolding put_path
put_path-bound max s out [] h = omega (arith, h)
put_path-bound max s out (d ∷ ds) h =
    let out' = put_name max (out ++ b'/' ∷ []) (cstr (s.node d).name) in
    let one : length out' + 1 ≤ max =
      put_name-bound max (out ++ b'/' ∷ []) (cstr (s.node d).name)
        (omega (arith, h, length-append out (b'/' ∷ []))) in
    if_elim (λ (t : Str). length t + 1 ≤ max) (leb (max - 1) (length out')) out'
      (put_path max s out' ds) (λ _. one) (λ e. put_path-bound max s out' ds (ground (arith, e)))

path_of-bound : (max : ℕ) (s : Fs) (st : List ℕ) → 2 ≤ max → length (path_of max s st) + 1 ≤ max
unfolding path_of
path_of-bound max s [] h = omega (arith, h)
path_of-bound max s (top ∷ []) h = omega (arith, h)
path_of-bound max s (top ∷ d ∷ ds) h = put_path-bound max s [] (d ∷ ds) (omega (arith, h))

-- Whatever the names and the depth of the current directory are, its path and the terminator are in
-- a buffer of the size that is given, which is at least 2.
pub get_cwd_path-bound : (s : Fs) (max : ℕ) → 2 ≤ max → length (get_cwd_path s max) + 1 ≤ max
unfolding get_cwd_path
get_cwd_path-bound s max h = path_of-bound max s (reverse (parents 32 s (some s.cwd))) h
