-- ===== src/Base/Ring.antt =====
-- Circular buffers: the bytes met on the way round from one index.
use Prim.Native.Nat.{ℕ, zero, suc, ◌+◌, ◌-◌, ◌%◌, ◌≤◌, ◌<◌}
use mathlib.Core.Path.{◌≡◌, refl, ap, ap₂}
use mathlib.Core.List.{List, [], ◌∷◌, ◌++◌}
use native.Mathlib.Omega.{arith}
use native.Mathlib.Nat.{mod-eq_of_lt}
use mathlib.Core.Logic.{inl, inr}
use snowkernel.Base.Tests.{◌==◌, leb, if◌then◌else◌, Bool-cases, ==→eq, ==→ne}
use snowkernel.Base.Lists.{length}
use snowkernel.Base.Store.{update, update_self, update_ne}

-- The index after `i` in a ring of `cap` slots.
abbrev pub next : ℕ → ℕ → ℕ
next cap i = (i + 1) % cap

-- The `n` entries from index `i` on.
abbrev pub window {ℓ} : {A : Type ℓ} → (ℕ → A) → ℕ → ℕ → ℕ → List A
window f cap i zero = []
window f cap i (suc n) = f i ∷ window f cap (next cap i) n

-- How many entries lie between a read index and a write index.
abbrev pub gap : ℕ → ℕ → ℕ → ℕ
gap cap i j = if leb i j then j - i else j + cap - i

-- Inside the ring the remainder is a test against the end.
pub next_lem : (cap i : ℕ) → i < cap → next cap i ≡ (if i + 1 == cap then 0 else i + 1)
next_lem cap i h = elim (Bool-cases (i + 1 == cap)) [
  | inl e ↦ rw (e, ==→eq _ _ e) (grind arith)
  | inr e ↦ rw e (mod-eq_of_lt (grind (arith, ==→ne (i + 1) cap e)))
]

pub next-lt : (cap i : ℕ) → i < cap → next cap i < cap
next-lt cap i h = omega arith

pub gap-lt : (cap i j : ℕ) → i < cap → j < cap → gap cap i j < cap
gap-lt cap i j hi hj = ground arith

module _ {ℓ} {A : Type ℓ} (cap : ℕ) (f : ℕ → A) (x : A) where
  -- A write at an index that the window does not reach leaves it alone.
  pub window_skip :
      (n i j : ℕ)
      → i < cap
      → j < cap
      → n ≤ gap cap i j
      → window (update f j x) cap i n ≡ window f cap i n
  window_skip zero i j hi hj hn = refl
  window_skip (suc n) i j hi hj hn =
      ap₂ ◌∷◌ (update_ne f j i x (ground arith))
        (window_skip n (next cap i) j (next-lt cap i hi) hj (ground (arith, next_lem cap i hi)))

  -- A write at the first index past the window extends it by that entry.
  pub window_push :
      (n i j : ℕ)
      → i < cap
      → j < cap
      → n ≡ gap cap i j
      → window (update f j x) cap i (suc n) ≡ window f cap i n ++ (x ∷ [])
  window_push zero i j hi hj hn =
      let e : i ≡ j = ground arith in ap (λ t. t ∷ []) (rw e (update_self f j x))
  window_push (suc n) i j hi hj hn =
      ap₂ ◌∷◌ (update_ne f j i x (ground arith))
        (window_push n (next cap i) j (next-lt cap i hi) hj (ground (arith, next_lem cap i hi)))

pub length-window {ℓ} : {A : Type ℓ} (f : ℕ → A) (cap i n : ℕ) → length (window f cap i n) ≡ n
length-window f cap i zero = refl
length-window f cap i (suc n) = ap suc (length-window f cap (next cap i) n)
