-- ===== src/Env/Set.antt =====
-- Setting a variable and reading it back.
use snowkernel.Base.{
  ℕ, zero, suc, ◌+◌, ◌-◌, ◌≤◌, ◌<◌, true, false, ◌==◌, leb, update, update_self, List, [], ◌∷◌,
  ◌++◌, length, length-append, All, take, take-append, ◌≡◌, ◌≢◌, refl, sym, ap, ◌∙◌, arith,
  Bool-cases, Option-cases, inl, inr, ==→eq, eq→==, ne→==, append_assoc, Option, some, none, subst,
}
use snowkernel.Base.Int.{ℤ, pos, negsuc}
use snowkernel.Str.{Str, cstr, kstrncpy}
use snowkernel.Env.{
  Env, env_max, env_kv_max, name_match, eq_at, scan_eq, first_match, put_row, value_of, env_get,
  set_named, env_set,
}
use snowkernel.Env.Match.{IsName, name_match-own}

-- The scan stops at the `=` behind a name that is short enough.
scan-name :
    (n rest : Str) (i : ℕ)
    → IsName n
    → i + length n < env_kv_max - 1
    → scan_eq (n ++ b'=' ∷ rest) i ≡ eq_at (i + length n)
unfolding scan_eq
scan-name [] rest i h k = ap eq_at (omega arith)
scan-name (c ∷ n) rest i h k =
    let later : scan_eq (n ++ b'=' ∷ rest) (i + 1) ≡ eq_at (i + suc (length n)) =
      scan-name n rest (i + 1) h.1 (omega arith) ∙ ap eq_at (omega arith) in
    let no_zero : (c == 0) ≡ false = ground (arith, h.0) in
    let no_equals : (c == b'=') ≡ false = ground (arith, h.0) in
    let short : leb (env_kv_max - 2) i ≡ false = ground (arith, k) in
    rw (no_zero, no_equals, short) later

kstrncpy_whole :
    (d : List ℕ) (t : Str) (n : ℕ)
    → All (λ c. (c == 0) ≡ false) t
    → length t < n
    → n ≤ length d
    → (more : List ℕ) × (kstrncpy d t n ≡ t ++ 0 ∷ more)
unfolding kstrncpy
kstrncpy_whole d t zero z h k = absurd (omega arith)
kstrncpy_whole [] t (suc n) z h k = absurd (omega arith)
kstrncpy_whole (x ∷ d) [] (suc n) z h k = (_, refl)
kstrncpy_whole (x ∷ d) (c ∷ t) (suc n) z h k =
    let (more, e) = kstrncpy_whole d t n z.1 (omega arith) (omega arith) in
    (more, rw z.0 (ap (λ (l : List ℕ). c ∷ l) e))

take-past :
    (t more : Str) (n : ℕ)
    → length t < n
    → (more' : List ℕ) × (take n (t ++ 0 ∷ more) ≡ t ++ 0 ∷ more')
take-past t more zero h = absurd (omega arith)
take-past [] more (suc n) h = (take n more, refl)
take-past (c ∷ t) more (suc n) h =
    let (more', e) = take-past t more n (omega arith) in (more', ap (λ (l : List ℕ). c ∷ l) e)

-- A row that takes a text that fits is the text, its terminator, and the terminator behind it.
put_row-fits :
    (row : List ℕ) (t : Str)
    → length row ≡ env_kv_max
    → All (λ c. (c == 0) ≡ false) t
    → length t < env_kv_max - 1
    → (more : List ℕ) × (put_row row t ≡ t ++ 0 ∷ more)
unfolding put_row
put_row-fits row t size z h =
    let (more, e) = kstrncpy_whole row t (env_kv_max - 1) z h (omega (arith, size)) in
    let (more', e') = take-past t more (env_kv_max - 1) h in
    (
      more' ++ 0 ∷ [],
      ap (λ (l : List ℕ). take (env_kv_max - 1) l ++ 0 ∷ []) e
          ∙ (ap (λ (l : List ℕ). l ++ 0 ∷ []) e' ∙ append_assoc t (0 ∷ more') (0 ∷ [])),
    )

value-own : (n value : Str) → IsName n → value_of (n ++ b'=' ∷ value) ≡ value
unfolding value_of
value-own [] value h = refl
value-own (c ∷ n) value h = ground (arith, h.0, value-own n value h.1)

-- Writing a matching row over the first match leaves it the first match.
first_match_kept :
    (store : ℕ → List ℕ) (name : Str) (row : List ℕ) (n i j : ℕ)
    → name_match row name ≡ true
    → first_match store name n i ≡ some j
    → first_match (update store j row) name n i ≡ some j
unfolding first_match
first_match_kept store name row zero i j m h = absurd cc
first_match_kept store name row (suc n) i j m h = elim (Bool-cases (i == j)) [
  | inl e ↦ rw (e, m) (ap some (==→eq i j e))
  | inr ne ↦ elim (Bool-cases (name_match (store i) name)) [
    | inl e ↦ rw (ne, e) (sym (first_here e) ∙ h)
    | inr e ↦ rw (ne, e) (first_match_kept store name row n (i + 1) j m (sym (first_later e) ∙ h))
  ]
]
  where
    first_here : name_match (store i) name ≡ true → first_match store name (suc n) i ≡ some i
    first_here e = rw e

    first_later :
        name_match (store i) name ≡ false
        → first_match store name (suc n) i ≡ first_match store name n (i + 1)
    first_later e = rw e

-- Without a match, a matching row behind the last entry is the first match.
first_match_added :
    (store : ℕ → List ℕ) (name : Str) (row : List ℕ) (n i j : ℕ)
    → j ≡ i + n
    → name_match row name ≡ true
    → first_match store name n i ≡ none
    → first_match (update store j row) name (suc n) i ≡ some j
unfolding first_match
first_match_added store name row zero i j at m h =
    rw (eq→== i j (omega (arith, at)), m) (ap some (omega (arith, at)))
first_match_added store name row (suc n) i j at m h =
    elim (Bool-cases (name_match (store i) name)) [
      | inl e ↦
          let here : first_match store name (suc n) i ≡ some i = rw e in
          absurd (some-none i (sym here ∙ h))
      | inr e ↦
          let later : first_match store name (suc n) i ≡ first_match store name n (i + 1) = rw e in
          let ne : (i == j) ≡ false = ne→== i j (omega (arith, at)) in
          rw (ne, e)
            (first_match_added store name row n (i + 1) j (omega (arith, at)) m (sym later ∙ h))
    ]
  where
    some-none : (i : ℕ) → ◌≢◌ {A = Option ℕ} (some i) none
    some-none i = λ h. cc

-- What `env_set` gives for the name `n` and the value: the value is read back, or there are 64
-- variables, none of them of the name.
pub data Sets (s : Env) (n value : Str) : ℤ × Env → Type 0 where
  set :
      {s' : Env} (text : Str)
      → env_get s' n ≡ some text
      → cstr text ≡ value
      → Sets s n value (pos 0, s')
  full :
      env_max ≤ s.env_count
      → first_match s.env_store n s.env_count 0 ≡ none
      → Sets s n value (negsuc 4, s)

module _ (s : Env) (n value : Str) (name : IsName n) (z : All (λ c. (c == 0) ≡ false) value)
    (long : 0 < length n) (short : length n < 64)
    (fits : length n + 1 + length value < env_kv_max - 1)
    (rows : (i : ℕ) → length (s.env_store i) ≡ env_kv_max) where
  abbrev kv : Str
  kv = n ++ b'=' ∷ value

  kv_text : All (λ c. (c == 0) ≡ false) kv
  kv_text = go n name
    where
      go : (n : Str) → IsName n → All (λ c. (c == 0) ≡ false) (n ++ b'=' ∷ value)
      go [] h = (refl, z)
      go (c ∷ n) h = (ground (arith, h.0), go n h.1)

  taken : take (length n) kv ≡ n
  taken = take-append (length n) n (b'=' ∷ value) refl

  -- The row written at any place: it reads back as the value.
  row-value :
      (i : ℕ)
      → (name_match (put_row (s.env_store i) kv) n ≡ true)
        × (cstr (value_of (put_row (s.env_store i) kv)) ≡ value)
  row-value i =
      let (more, e) =
        put_row-fits (s.env_store i) kv (rows i) kv_text
          (omega (arith, length-append {0} n (b'=' ∷ value))) in
      let row : put_row (s.env_store i) kv ≡ n ++ b'=' ∷ (value ++ 0 ∷ more) =
        e ∙ append_assoc n (b'=' ∷ value) (0 ∷ more) in
      (
        ap (λ (r : Str). name_match r n) row ∙ name_match-own n (value ++ 0 ∷ more) name,
        ap (λ (r : Str). cstr (value_of r)) row
            ∙ (ap {B = Str} (λ (r : Str). cstr r) (value-own n (value ++ 0 ∷ more) name)
                ∙ cstr-ends value more z),
      )
    where
      cstr-ends : (t more : Str) → All (λ c. (c == 0) ≡ false) t → cstr (t ++ 0 ∷ more) ≡ t
      cstr-ends [] more h = refl
      cstr-ends (c ∷ t) more h = rw h.0 (ap (λ (l : Str). c ∷ l) (cstr-ends t more h.1))

  reads :
      (s' : Env) (j : ℕ)
      → first_match s'.env_store n s'.env_count 0 ≡ some j
      → s'.env_store j ≡ put_row (s.env_store j) kv
      → (text : Str) × (env_get s' n ≡ some text) × (cstr text ≡ value)
  unfolding env_get
  reads s' j found row = (
    value_of (s'.env_store j),
    rw (found, env_get) refl,
    ap (λ (r : Str). cstr (value_of r)) row ∙ (row-value j).1,
  )

  env_set-named : env_set s (some kv) ≡ set_named s kv (length n)
  unfolding env_set
  env_set-named =
      let scan : scan_eq kv 0 ≡ eq_at (length n) =
        scan-name n value 0 name (omega arith) ∙ ap eq_at (omega arith) in
      let shorter : leb 64 (length n) ≡ false = ground (arith, short) in
      rw (scan, env_set, ne→== (length n) 0 (omega arith), shorter) refl

  scanned :
      first_match s.env_store (take (length n) kv) s.env_count 0
      ≡ first_match s.env_store n s.env_count 0
  scanned = ap (λ (x : Str). first_match s.env_store x s.env_count 0) taken

  set_named-Sets : Sets s n value (set_named s kv (length n))
  unfolding set_named
  set_named-Sets = elim (Option-cases (first_match s.env_store n s.env_count 0)) [
    | inr (j, found) ↦
        let row = put_row (s.env_store j) kv in
        let s' : Env = record s { env_store = update s.env_store j row } in
        let found' = first_match_kept s.env_store n row s.env_count 0 j (row-value j).0 found in
        let (text, got, ends) = reads s' j found' (update_self s.env_store j row) in
        rw (scanned ∙ found, set_named) (set text got ends)
    | inl missing ↦ elim (Bool-cases (leb env_max s.env_count)) [
      | inl e ↦ rw (scanned ∙ missing, set_named, e) (full (ground (arith, e)) missing)
      | inr e ↦
          let j = s.env_count in
          let row = put_row (s.env_store j) kv in
          let s' : Env = record s {
            env_store = update s.env_store j row;
            env_count = s.env_count + 1;
          } in
          let grown : s.env_count + 1 ≡ suc s.env_count = omega arith in
          let found' : first_match s'.env_store n s'.env_count 0 ≡ some j =
            ap (λ (c : ℕ). first_match s'.env_store n c 0) grown
            ∙ first_match_added s.env_store n row s.env_count 0 j (omega arith) (row-value j).0
                missing in
          let (text, got, ends) = reads s' j found' (update_self s.env_store j row) in
          rw (scanned ∙ missing, set_named, e) (set text got ends)
    ]
  ]

  -- `env_set` of a `NAME=VALUE` that fits an entry, with a name of 1 to 63 bytes, succeeds, and
  -- `env_get` of the name then reads the value; or there are 64 variables, none of them of the name,
  -- and it returns -5 and changes nothing.
  pub env_set-Sets : Sets s n value (env_set s (some kv))
  env_set-Sets = subst (λ (out : ℤ × Env). Sets s n value out) (sym env_set-named) set_named-Sets
