-- ===== src/Base/Store.antt =====
-- C arrays and pools as functions from an index, with one entry written at a time.
use Prim.Native.Nat.{ℕ, zero, suc, ◌+◌, ◌≤◌, ◌<◌}
use mathlib.Core.Path.{◌≡◌, refl, ◌∙◌}
use mathlib.Core.Logic.{◌≢◌, ◌⊎◌, inl, inr}
use native.Mathlib.Omega.{arith}
use snowkernel.Base.Tests.{◌==◌, ltb, ltb→lt, Bool-cases, if◌then◌else◌}

module _ {ℓ} {A : Type ℓ} where
  abbrev pub update : (ℕ → A) → ℕ → A → ℕ → A
  update f i v j = if j == i then v else f j

  pub update_self : (f : ℕ → A) (i : ℕ) (v : A) → update f i v i ≡ v
  update_self f i v = ground arith

  pub update_ne : (f : ℕ → A) (i j : ℕ) (v : A) → j ≢ i → update f i v j ≡ f j
  update_ne f i j v h = ground arith

-- A loop that stores a number `n` times from the index `i` on.
unfoldable pub fill_from : (ℕ → ℕ) → ℕ → ℕ → ℕ → (ℕ → ℕ)
fill_from f v zero i = f
fill_from f v (suc n) i = fill_from (update f i v) v n (i + 1)

pub fill_from-outside :
    (f : ℕ → ℕ) (v n i j : ℕ) → (j < i) ⊎ (i + n ≤ j) → fill_from f v n i j ≡ f j
unfolding fill_from
fill_from-outside f v zero i j out = refl
fill_from-outside f v (suc n) i j (inl h) =
    fill_from-outside (update f i v) v n (i + 1) j (inl (omega (arith, h)))
    ∙ update_ne f i j v (omega (arith, h))
fill_from-outside f v (suc n) i j (inr h) =
    fill_from-outside (update f i v) v n (i + 1) j (inr (omega (arith, h)))
    ∙ update_ne f i j v (omega (arith, h))

pub fill_from-inside : (f : ℕ → ℕ) (v n i j : ℕ) → i ≤ j → j < i + n → fill_from f v n i j ≡ v
unfolding fill_from
fill_from-inside f v zero i j low high = absurd (omega (arith, low, high))
fill_from-inside f v (suc n) i j low high = elim (Bool-cases (ltb i j)) [
  | inl later ↦
      let h = ltb→lt i j later in
      fill_from-inside (update f i v) v n (i + 1) j (omega (arith, h)) (omega (arith, high))
  | inr now ↦
      let same : j ≡ i = ground (arith, now, low) in
      fill_from-outside (update f i v) v n (i + 1) j (inl (omega (arith, same)))
      ∙ rw same (update_self f i v)
]
