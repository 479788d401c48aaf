-- ===== src/Str/Dup.antt =====
-- `kstrdup`: a bump allocator of texts that starts again when its buffer is used up.
use snowkernel.Base.{
  ℕ, zero, suc, ◌+◌, ◌≤◌, ◌<◌, List, [], ◌∷◌, ◌++◌, if◌then◌else◌, length, take, drop, ◌≡◌, refl,
  arith, ap, some, none, length-append, length-take, length-drop, ltb, lt→ltb, le→ltb,
}
use snowkernel.Str.{Str, cstr, kstrlen, kmemcpy, kstrdup, DupBuf, dup_size}

length-kmemcpy : (d s : List ℕ) (n : ℕ) → length (kmemcpy d s n) ≡ length d
unfolding kmemcpy
length-kmemcpy d s zero = refl
length-kmemcpy [] s (suc n) = refl
length-kmemcpy (x ∷ d) [] (suc n) = ap suc (length-kmemcpy d [] n)
length-kmemcpy (x ∷ d) (c ∷ s) (suc n) = ap suc (length-kmemcpy d s n)

cstr-kmemcpy :
    (d : List ℕ) (s : Str) (n : ℕ) → kstrlen s < n → n ≤ length d → cstr (kmemcpy d s n) ≡ cstr s
unfolding kmemcpy kstrlen
cstr-kmemcpy d s zero h k = absurd (omega arith)
cstr-kmemcpy [] s (suc n) h k = absurd (omega arith)
cstr-kmemcpy (x ∷ d) [] (suc n) h k = refl
cstr-kmemcpy (x ∷ d) (c ∷ s) (suc n) h k = ground (arith, cstr-kmemcpy d s n)

drop-append-take : (n : ℕ) (b y : List ℕ) → n ≤ length b → drop n (take n b ++ y) ≡ y
drop-append-take zero b y h = refl
drop-append-take (suc n) [] y h = absurd (omega arith)
drop-append-take (suc n) (x ∷ b) y h = drop-append-take n b y (omega arith)

pub record IsDup (k : DupBuf) : Type 0 where
  pub storage : length k.buf ≡ dup_size
  pub used : k.off ≤ dup_size

-- The index at which a text of `n` bytes is put.
abbrev place : DupBuf → ℕ → ℕ
place k n = if ltb dup_size (k.off + n) then 0 else k.off

place_fits : (k : DupBuf) (n : ℕ) → n ≤ dup_size → IsDup k → place k n + n ≤ dup_size
place_fits k n h v = ground arith

-- A text that fits the buffer at all comes back whole at the returned index, and the buffer keeps
-- its size and its offset in range.
pub kstrdup_lem :
    (k : DupBuf) (s : Str)
    → IsDup k
    → kstrlen s < dup_size
    → (at : ℕ) × ((kstrdup k (some s)).0 ≡ some at)
      × (cstr (drop at (kstrdup k (some s)).1.buf) ≡ cstr s)
      × IsDup (kstrdup k (some s)).1
unfolding kstrdup
kstrdup_lem k s v h =
    let room = place_fits k (kstrlen s + 1) (omega arith) v in
    let rest = drop at k.buf in
    let copied = kmemcpy rest s (kstrlen s + 1) in
    let rest_length = length-drop {0} at k.buf in
    rw (le→ltb dup_size (kstrlen s + 1) (omega arith)) (
      at,
      refl,
      rw (drop-append-take at k.buf copied (omega (arith, v.storage))) (
          cstr-kmemcpy rest s (kstrlen s + 1) (omega arith)
            (omega (arith, rest_length, v.storage))),
      record {
        storage = omega (
          arith,
          v.storage,
          length-append {0} (take at k.buf) copied,
          length-kmemcpy rest s (kstrlen s + 1),
          rest_length,
          length-take {0} at k.buf,
        );
        used = room;
      },
    )
  where
    at : ℕ
    at = place k (kstrlen s + 1)

-- A text that does not fit the buffer gives null and changes nothing.
pub kstrdup_long : (k : DupBuf) (s : Str) → dup_size ≤ kstrlen s → kstrdup k (some s) ≡ (none, k)
unfolding kstrdup
kstrdup_long k s h = rw (lt→ltb dup_size (kstrlen s + 1) (omega arith))
