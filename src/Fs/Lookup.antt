-- ===== src/Fs/Lookup.antt =====
-- How `fs_lookup` reads a path: component by component.
use snowkernel.Base.{
  ℕ, zero, suc, ◌≤◌, ◌<◌, false, ◌||◌, none, some, ◌==◌, if◌then◌else◌, List, [], ◌∷◌, ◌++◌, length,
  All, All_map, ◌≡◌, ◌≢◌, refl, sym, ap, ◌∙◌, arith, Bool-cases, Option-cases, inl, inr,
  append_assoc, append-nil, ne→==,
}
use snowkernel.Str.{Str, kstrncpy}
use snowkernel.Fs.Defs.{Fs, root}
use snowkernel.Fs.Path.{Looked, at, nowhere, enter, walk, fs_lookup, first}

-- A component: its bytes are neither `/` nor the terminator.
abbrev pub IsComponent : Str → Type 0
IsComponent tok = All (λ c. (c == b'/' || c == 0) ≡ false) tok

-- What the components lead to, one directory step after the other.
unfoldable pub descend : Fs → ℕ → List Str → Looked
descend s cur [] = at cur
descend s cur (tok ∷ toks) = elim (enter s cur tok) [
  | none ↦ nowhere
  | some cur' ↦ descend s cur' toks
]

-- The bytes of `tmp`: the components with `/` between them, then the terminator and what follows.
unfoldable pub joined : Str → List Str → List ℕ → List ℕ
joined tok [] rest = tok ++ 0 ∷ rest
joined tok (tok' ∷ toks) rest = tok ++ b'/' ∷ joined tok' toks rest

walk_gathers :
    (s : Fs) (cur : ℕ) (done : Str) (c : ℕ) (rest : List ℕ)
    → (c == b'/' || c == 0) ≡ false
    → walk s cur done (c ∷ rest) ≡ walk s cur (done ++ c ∷ []) rest
unfolding walk
walk_gathers s cur done c rest h = rw (h, walk)

-- The loop gathers the bytes of a component.
walk-component :
    (s : Fs) (cur : ℕ) (done tok : Str) (rest : List ℕ)
    → IsComponent tok
    → walk s cur done (tok ++ rest) ≡ walk s cur (done ++ tok) rest
unfolding walk
walk-component s cur done [] rest h = rw append-nil
walk-component s cur done (c ∷ tok) rest h =
    walk_gathers s cur done c (tok ++ rest) h.0
    ∙ (walk-component s cur (done ++ c ∷ []) tok rest h.1 ∙ rw append_assoc)

walk-end :
    (s : Fs) (cur : ℕ) (tok : Str) (rest : List ℕ)
    → walk s cur tok (0 ∷ rest) ≡ descend s cur (tok ∷ [])
unfolding walk descend
walk-end s cur tok rest = elim (Option-cases (enter s cur tok)) [
  | inl e ↦ rw (e, walk, descend)
  | inr (p, e) ↦ rw (e, walk, descend)
]

walk-slash :
    (s : Fs) (cur : ℕ) (tok : Str) (rest : List ℕ) (toks : List Str)
    → ((cur' : ℕ) → walk s cur' [] rest ≡ descend s cur' toks)
    → walk s cur tok (b'/' ∷ rest) ≡ descend s cur (tok ∷ toks)
unfolding walk descend
walk-slash s cur tok rest toks h = elim (Option-cases (enter s cur tok)) [
  | inl e ↦ rw (e, walk, descend)
  | inr (p, e) ↦ rw (e, walk, descend) (h p)
]

-- On a path of components the walk goes down one directory step for each, and ends at the
-- terminator whatever stands behind it.
pub walk-descend :
    (s : Fs) (cur : ℕ) (tok : Str) (toks : List Str) (rest : List ℕ)
    → IsComponent tok
    → All IsComponent toks
    → walk s cur [] (joined tok toks rest) ≡ descend s cur (tok ∷ toks)
unfolding joined
walk-descend s cur tok [] rest h hs =
    walk-component s cur [] tok (0 ∷ rest) h ∙ walk-end s cur tok rest
walk-descend s cur tok (tok' ∷ toks) rest h hs =
    walk-component s cur [] tok (b'/' ∷ joined tok' toks rest) h
    ∙ walk-slash s cur tok (joined tok' toks rest) (tok' ∷ toks)
        (λ cur'. walk-descend s cur' tok' toks rest hs.0 hs.1)

-- The text of a path: the components with `/` between them.
abbrev pub path_text : Str → List Str → Str
path_text tok [] = tok
path_text tok (tok' ∷ toks) = tok ++ b'/' ∷ path_text tok' toks

joined-path_text :
    (tok : Str) (toks : List Str) (rest : List ℕ)
    → joined tok toks rest ≡ path_text tok toks ++ 0 ∷ rest
unfolding joined
joined-path_text tok [] rest = refl
joined-path_text tok (tok' ∷ toks) rest =
    ap (λ (l : List ℕ). tok ++ b'/' ∷ l) (joined-path_text tok' toks rest)
    ∙ sym (append_assoc tok (b'/' ∷ path_text tok' toks) (0 ∷ rest))

-- No byte of the text is the terminator.
abbrev NoZero : Str → Type 0
NoZero t = All (λ c. (c == 0) ≡ false) t

NoZero-append : (a b : Str) → NoZero a → NoZero b → NoZero (a ++ b)
NoZero-append [] b h k = k
NoZero-append (c ∷ a) b h k = (h.0, NoZero-append a b h.1 k)

NoZero-component : (tok : Str) → IsComponent tok → NoZero tok
NoZero-component tok h = All_map _ _ tok (λ c e. ground (arith, e)) h

NoZero-path_text :
    (tok : Str) (toks : List Str)
    → IsComponent tok
    → All IsComponent toks
    → NoZero (path_text tok toks)
NoZero-path_text tok [] h hs = NoZero-component tok h
NoZero-path_text tok (tok' ∷ toks) h hs =
    NoZero-append tok (b'/' ∷ path_text tok' toks) (NoZero-component tok h)
      (refl, NoZero-path_text tok' toks hs.0 hs.1)

-- A text that fits comes over with its terminator.
kstrncpy-fits :
    (d : List ℕ) (t rest : Str) (n : ℕ)
    → NoZero t
    → length t < n
    → n ≤ length d
    → (more : List ℕ) × (kstrncpy d (t ++ 0 ∷ rest) n ≡ t ++ 0 ∷ more)
unfolding kstrncpy
kstrncpy-fits d t rest zero z h k = absurd (omega arith)
kstrncpy-fits [] t rest (suc n) z h k = absurd (omega arith)
kstrncpy-fits (x ∷ d) [] rest (suc n) z h k = (_, refl)
kstrncpy-fits (x ∷ d) (c ∷ t) rest (suc n) z h k =
    let (more, e) = kstrncpy-fits d t rest n z.1 (omega arith) (omega arith) in
    (more, rw z.0 (ap (λ (l : List ℕ). c ∷ l) e))

-- A path of fewer than 127 bytes is read whole, whatever the stack held before: from the root if it
-- begins with `/`, from the given node otherwise, its components lead down one directory step each.
pub fs_lookup-descend :
    (s : Fs) (junk : List ℕ) (p : ℕ) (tok : Str) (toks : List Str) (rest : List ℕ)
    → length junk ≡ 128
    → IsComponent tok
    → All IsComponent toks
    → length (path_text tok toks) < 127
    → first (path_text tok toks ++ 0 ∷ rest) ≢ 0
    → fs_lookup s junk (some p) (some (path_text tok toks ++ 0 ∷ rest))
      ≡ descend s (if first (path_text tok toks ++ 0 ∷ rest) == b'/' then root else p) (tok ∷ toks)
unfolding fs_lookup
fs_lookup-descend s junk p tok toks rest size h hs short ne =
    let t = path_text tok toks in
    let (more, e) =
      kstrncpy-fits junk t rest 127 (NoZero-path_text tok toks h hs) short (omega arith) in
    rw (ne→== (first (t ++ 0 ∷ rest)) 0 ne) (elim (Bool-cases (first (t ++ 0 ∷ rest) == b'/')) [
      | inl a ↦ rw (a, e, ← joined-path_text) (walk-descend s root tok toks more h hs)
      | inr a ↦ rw (a, e, ← joined-path_text) (walk-descend s p tok toks more h hs)
    ])
