-- ===== src/Env.antt =====
-- The environment of src/kernel/env.c: at most 64 texts `NAME=VALUE` of fewer than 96 bytes.
pub mod Match
pub mod Set
mod Tests
use snowkernel.Base.{
  ℕ, zero, suc, ◌+◌, ◌-◌, ◌%◌, Bool, true, false, not, ◌&&◌, ◌||◌, Option, none, some, ◌==◌, leb,
  ltb, if◌then◌else◌, update, List, [], ◌∷◌, take, drop, replicate, ◌++◌, min, get_or,
}
use snowkernel.Base.Int.{ℤ, pos, negsuc}
use snowkernel.Str.{Str, cstr, kstrlen, kstrncpy, kmemcpy}

abbrev pub env_max : ℕ
env_max = 64

abbrev pub env_kv_max : ℕ
env_kv_max = 96

-- `env_store`, `env_count` and `initialized`.
pub record Env : Type 0 where
  pub env_store : ℕ → List ℕ
  pub env_count : ℕ
  pub initialized : Bool

-- The byte at an index; what stands behind the end of a text is never read, since the loops stop at
-- the terminator first.
abbrev pub byte : Str → ℕ → ℕ
byte s i = get_or s i 0

-- The first loop of `name_match`: up to the end or the `=` of `kv` the bytes are those of `name`.
unfoldable pub same_until_eq : Str → Str → Bool
same_until_eq [] name = true
same_until_eq (c ∷ kv) [] = c == 0 || c == b'='
same_until_eq (c ∷ kv) (d ∷ name) =
    if c == 0 || c == b'=' then true else if c == d then same_until_eq kv name else false

-- The second loop: `name` has no `=`, and `kv` has none where `name` goes on.
unfoldable pub no_eq_before : Str → Str → Bool
no_eq_before kv [] = true
no_eq_before [] (d ∷ name) =
    if d == 0 then true else if d == b'=' then false else no_eq_before [] name
no_eq_before (c ∷ kv) (d ∷ name) =
    if d == 0 then true else if d == b'=' || c == b'=' then false else no_eq_before kv name

-- `kv[nlen] == '='`.
unfoldable pub eq_at_end : Str → Str → Bool
eq_at_end kv name = byte kv (kstrlen name) == b'='

unfoldable pub name_match : Str → Str → Bool
unfolding same_until_eq no_eq_before eq_at_end
name_match kv name = same_until_eq kv name && no_eq_before kv name && eq_at_end kv name

-- The scan of `env_set` for the `=`, from the index `i` on.
pub data EqScan : Type 0 where
  eq_at : ℕ → EqScan
  no_eq too_long : EqScan

unfoldable pub scan_eq : Str → ℕ → EqScan
scan_eq [] i = no_eq
scan_eq (c ∷ kv) i =
    let rest = scan_eq kv (i + 1) in
    if c == 0
    then no_eq
    else if c == b'='
    then eq_at i
    else if leb (env_kv_max - 2) i
    then too_long
    else rest

-- The loops over the store, with `n` entries left from `i` on: the first that has the name.
unfoldable pub first_match : (ℕ → List ℕ) → Str → ℕ → ℕ → Option ℕ
unfolding name_match
first_match store name zero i = none
first_match store name (suc n) i =
    let rest = first_match store name n (i + 1) in
    if name_match (store i) name then some i else rest

-- `kstrncpy(row, kv, ENV_KV_MAX - 1)` and the terminator behind it.
unfoldable pub put_row : List ℕ → Str → List ℕ
put_row row kv = take (env_kv_max - 1) (kstrncpy row kv (env_kv_max - 1)) ++ 0 ∷ []

-- The text from the `=` on.
unfoldable pub value_of : Str → Str
value_of [] = []
value_of (c ∷ kv) = if c == 0 then [] else if c == b'=' then kv else value_of kv

unfoldable pub env_get : Env → Str → Option Str
unfolding first_match value_of
env_get s name = elim (first_match s.env_store name s.env_count 0) [
  | none ↦ none
  | some i ↦ some (value_of (s.env_store i))
]

-- The last entry takes the place of the one removed.
unfoldable pub env_unset : Env → Str → ℤ × Env
unfolding first_match
env_unset s name = elim (first_match s.env_store name s.env_count 0) [
  | none ↦ (negsuc 0, s)
  | some i ↦
      let last = s.env_count - 1 in
      (
        pos 0,
        record s {
          env_count = last;
          env_store =
              if i == last
              then s.env_store
              else update s.env_store i (kmemcpy (s.env_store i) (s.env_store last) env_kv_max);
        },
      )
]

-- The part of `env_set` behind the tests of the text, for a name that ends at `eq`.
unfoldable pub set_named : Env → Str → ℕ → ℤ × Env
unfolding first_match put_row
set_named s kv eq = elim (first_match s.env_store (take eq kv) s.env_count 0) [
  | some i ↦ (pos 0, record s { env_store = update s.env_store i (put_row (s.env_store i) kv) })
  | none ↦ if leb env_max s.env_count then (negsuc 4, s) else (
    pos 0,
    record s {
      env_store = update s.env_store s.env_count (put_row (s.env_store s.env_count) kv);
      env_count = s.env_count + 1;
    },
  )
]

-- The results -1 to -5 are `negsuc 0` to `negsuc 4`.
unfoldable pub env_set : Env → Option Str → ℤ × Env
unfolding scan_eq set_named
env_set s none = (negsuc 0, s)
env_set s (some kv) = elim (scan_eq kv 0) [
  | too_long ↦ (negsuc 1, s)
  | no_eq ↦ (negsuc 2, s)
  | eq_at eq ↦
      if eq == 0 then (negsuc 2, s) else if leb 64 eq then (negsuc 3, s) else set_named s kv eq
]

-- The entries that `env_save` puts into the sector from `off` on: each is its length and its bytes,
-- as long as they fit.
unfoldable pub saved_entries : (ℕ → List ℕ) → ℕ → ℕ → ℕ → List ℕ
saved_entries store zero i off = []
saved_entries store (suc n) i off =
    let len = min (min (kstrlen (store i)) (env_kv_max - 1)) 250 in
    let rest = saved_entries store n (i + 1) (off + 1 + len) in
    if leb 512 off
    then []
    else if leb 512 (off + 1 + len)
    then []
    else len ∷ take len (store i) ++ rest

-- The 512 bytes of the sector.
unfoldable pub env_sector : Env → List ℕ
unfolding saved_entries
env_sector s = take 512 (
    b'E' ∷ b'N' ∷ b'V' ∷ b'0' ∷ s.env_count % 256 ∷ saved_entries s.env_store s.env_count 0 5
    ++ replicate 512 0)

-- `ata_write28`, which drives the disk, is a parameter.
unfoldable pub env_save : (ℕ → List ℕ → ℤ) → Env → ℤ
unfolding env_sector
env_save ata_write28 s = ata_write28 16 (env_sector s)

-- The loop of `env_init` over the sector, with `n` rounds left.
unfoldable pub load_entries : ℕ → Env → ℕ → List ℕ → Env
unfolding env_set
load_entries zero s off sector = s
load_entries (suc n) s off sector =
    let len = byte sector off in
    let entry = take len (drop (off + 1) sector) ++ 0 ∷ [] in
    let rest = load_entries n (env_set s (some entry)).1 (off + 1 + len) sector in
    if leb 512 off
    then s
    else if len == 0 || leb env_kv_max len
    then s
    else if ltb 512 (off + 1 + len)
    then s
    else rest

abbrev pub default_path : Str
default_path = b'P' ∷ b'A' ∷ b'T' ∷ b'H' ∷ b'=' ∷ b'/' ∷ b'b' ∷ b'i' ∷ b'n' ∷ []

-- `ata_read28`, a parameter, gives the sector, or nothing where it fails.
unfoldable pub env_init : (ℕ → Option (List ℕ)) → Env → Env
unfolding load_entries env_set
env_init ata_read28 s =
    let s1 = (env_set (record s { initialized = true }) (some default_path)).1 in
    let loaded : Env = elim (ata_read28 16) [
      | none ↦ s1
      | some sector ↦
          if byte sector 0 == b'E'
            && byte sector 1 == b'N'
            && byte sector 2 == b'V'
            && byte sector 3 == b'0'
          then load_entries (min (byte sector 4) env_max) s1 5 sector
          else s1
    ] in
    if s.initialized then s else loaded
