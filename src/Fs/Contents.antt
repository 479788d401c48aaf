-- ===== src/Fs/Contents.antt =====
-- Files keep what is written to them: the arena hands out space that no other file has.
use snowkernel.Base.{
  ℕ, zero, suc, ◌+◌, ◌≤◌, ◌<◌, update, update_self, update_ne, List, ◌∷◌, ◌++◌, ◌≡◌, refl, ap, ap₂,
  ◌∙◌, arith,
}
use snowkernel.Fs.Defs.{DataPtr, null, in_arena, outside}
use snowkernel.Fs.Data.{Memory, copy_in, copy_within, copy_data, bytes, read_data}

-- A copy changes nothing below its destination.
pub copy_in_below :
    (n : ℕ) (arena : Memory) (at : ℕ) (mem : Memory) (from j : ℕ)
    → j < at
    → copy_in n arena at mem from j ≡ arena j
unfolding copy_in
copy_in_below zero arena at mem from j h = refl
copy_in_below (suc n) arena at mem from j h =
    copy_in_below n (update arena at (mem from)) (at + 1) mem (from + 1) j (omega arith)
    ∙ update_ne arena at j (mem from) (omega arith)

copy_within_below :
    (n : ℕ) (arena : Memory) (at from j : ℕ) → j < at → copy_within n arena at from j ≡ arena j
unfolding copy_within
copy_within_below zero arena at from j h = refl
copy_within_below (suc n) arena at from j h =
    copy_within_below n (update arena at (arena from)) (at + 1) (from + 1) j (omega arith)
    ∙ update_ne arena at j (arena from) (omega arith)

pub copy_data_below :
    (n : ℕ) (arena : Memory) (at : ℕ) (mem : Memory) (d : DataPtr) (j : ℕ)
    → j < at
    → copy_data n arena at mem d j ≡ arena j
unfolding copy_data
copy_data_below n arena at mem null j h = refl
copy_data_below n arena at mem (in_arena a) j h = copy_within_below n arena at a j h
copy_data_below n arena at mem (outside a) j h = copy_in_below n arena at mem a j h

-- Memories that agree below `k` hold the same bytes there.
pub bytes_below :
    (f g : Memory) (k a n : ℕ)
    → ((j : ℕ) → j < k → f j ≡ g j)
    → a + n ≤ k
    → bytes f a n ≡ bytes g a n
bytes_below f g k a zero h le = refl
bytes_below f g k a (suc n) h le =
    ap₂ ◌∷◌ (h a (omega arith)) (bytes_below f g k (a + 1) n h (omega arith))

pub bytes-add : (f : Memory) (a n m : ℕ) → bytes f a (n + m) ≡ bytes f a n ++ bytes f (a + n) m
bytes-add f a zero m = ap₂ (λ (b k : ℕ). bytes f b k) (omega arith) (omega arith)
bytes-add f a (suc n) m =
    ap (λ (k : ℕ). bytes f a k) (let e : suc n + m ≡ suc (n + m) = omega arith in e)
    ∙ ap (λ (l : List ℕ). f a ∷ l)
        (bytes-add f (a + 1) n m
          ∙ ap (λ (b : ℕ). bytes f (a + 1) n ++ bytes f b m)
              (let e : a + 1 + n ≡ a + suc n = omega arith in e))

-- The bytes copied stand at the destination.
pub bytes-copy_in :
    (n : ℕ) (arena : Memory) (at : ℕ) (mem : Memory) (from : ℕ)
    → bytes (copy_in n arena at mem from) at n ≡ bytes mem from n
unfolding copy_in
bytes-copy_in zero arena at mem from = refl
bytes-copy_in (suc n) arena at mem from =
    ap₂ ◌∷◌
      (copy_in_below n (update arena at (mem from)) (at + 1) mem (from + 1) at (omega arith)
        ∙ update_self arena at (mem from))
      (bytes-copy_in n (update arena at (mem from)) (at + 1) mem (from + 1))

bytes-copy_within :
    (n : ℕ) (arena : Memory) (at from : ℕ)
    → from + n ≤ at
    → bytes (copy_within n arena at from) at n ≡ bytes arena from n
unfolding copy_within
bytes-copy_within zero arena at from h = refl
bytes-copy_within (suc n) arena at from h =
    ap₂ ◌∷◌
      (copy_within_below n (update arena at (arena from)) (at + 1) (from + 1) at (omega arith)
        ∙ update_self arena at (arena from))
      (bytes-copy_within n (update arena at (arena from)) (at + 1) (from + 1) (omega arith)
        ∙ bytes_below (update arena at (arena from)) arena at (from + 1) n
            (λ j h. update_ne arena at j (arena from) (omega arith)) (omega arith))

-- What a data pointer leads to lies below `k` of the arena, and a null pointer has no bytes.
abbrev pub Within : DataPtr → ℕ → ℕ → Type 0
Within null n k = n ≡ 0
Within (in_arena a) n k = a + n ≤ k
Within (outside a) n k = Unit

pub bytes-copy_data :
    (n : ℕ) (arena : Memory) (at : ℕ) (mem : Memory) (d : DataPtr)
    → Within d n at
    → bytes (copy_data n arena at mem d) at n ≡ read_data arena mem d n
unfolding copy_data read_data
bytes-copy_data n arena at mem null h = rw h
bytes-copy_data n arena at mem (in_arena a) h = bytes-copy_within n arena at a h
bytes-copy_data n arena at mem (outside a) h = bytes-copy_in n arena at mem a
