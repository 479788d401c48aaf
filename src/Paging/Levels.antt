-- ===== src/Paging/Levels.antt =====
-- The page tables by their levels, and the walk that makes the missing ones.
use Prim.Native.Nat.{bit_or}
use snowkernel.Base.{
  ℕ, suc, ◌+◌, ◌/◌, ◌%◌, ◌<◌, Bool, true, false, ◌==◌, List, [], ◌∷◌, ◌≡◌, ◌≢◌, ap, ◌∙◌, arith,
}
use snowkernel.Base.Bits.{bit_or_low, bit_or_add}
use snowkernel.Paging.{Machine, page_size, slot, frame, present, link_to}
use snowkernel.Paging.Pool.{IsPool}

-- Bit 7: above the last level such an entry maps a large page, and no table. The kernel starts with 64
-- of them, for the first 128 MB.
abbrev pub large : ℕ → Bool
large entry = entry / 128 % 2 == 1

-- A walk by these indices meets no large page.
abbrev pub NoLarge : (ℕ → ℕ) → ℕ → List ℕ → Type 0
NoLarge word table [] = Unit
NoLarge word table (i ∷ is) =
    present (word (slot table i)) ≡ true
    → (large (word (slot table i)) ≡ false) × NoLarge word (frame (word (slot table i))) is

-- An entry that is present in a table above the last level, and maps no large page, leads to a table of
-- the next level.
pub record IsLevelled (level : ℕ → ℕ) (m : Machine) (free : List ℕ) : Type 0 where
  pub pool : IsPool level m free
  pub entries :
      (a i n : ℕ)
      → level a ≡ suc (suc n)
      → i < 512
      → present (m.word (slot a i)) ≡ true
      → large (m.word (slot a i)) ≡ false
      → level (frame (m.word (slot a i))) ≡ suc n

set_low : (p : ℕ) → p % 2 ≡ 0 → bit_or p 1 ≡ p + 1
set_low p even =
    ap (λ (q : ℕ). bit_or q 1) (omega (arith, even))
    ∙ (bit_or_add 1 (p / 2) 1 (omega arith) ∙ omega (arith, even))

link_to_sum : (p : ℕ) → p % page_size ≡ 0 → link_to p ≡ p + 3
link_to_sum p al =
    ap (λ (q : ℕ). bit_or q 2) (set_low p (omega (arith, al)))
    ∙ omega (arith, al, bit_or_low (p + 1) 2, set_low ((p + 1) / 2) (omega (arith, al)))

pub link_to-frame :
    (p : ℕ) → p % page_size ≡ 0 → (frame (link_to p) ≡ p) × (present (link_to p) ≡ true)
link_to-frame p al = rw (link_to_sum p al) (omega (arith, al), ground (arith, al))

pub slots_differ :
    (a b i j : ℕ)
    → a % page_size ≡ 0
    → b % page_size ≡ 0
    → a ≢ b
    → i < 512
    → j < 512
    → slot a i ≢ slot b j
slots_differ a b i j h k ne lt lt' = ground arith
