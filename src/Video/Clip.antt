-- ===== src/Video/Clip.antt =====
-- The clipping of `video_fillrect`.
use snowkernel.Base.{ℕ, ◌+◌, ◌^◌, ◌≤◌, ◌<◌, Bool, true, false, ◌&&◌, not, ltb, leb, ◌≡◌, arith}
use snowkernel.Base.Int.{ℤ, pos, negsuc, ◌+ℤ◌, lt_ℤ, fits_int}
use snowkernel.Video.{clip, rounds}

-- Whether the place is on the side of a rectangle that starts at `x` and is `len` long.
abbrev pub covers : ℤ → ℤ → ℕ → Bool
covers x len p = not (lt_ℤ (pos p) x) && lt_ℤ (pos p) (x +ℤ len)

-- The side's start, its length and its end are each an `int`.
abbrev pub is_side : ℤ → ℤ → Bool
is_side x len = fits_int x && fits_int len && fits_int (x +ℤ len)

-- The cut side covers the places of the screen that the whole side covers.
pub clip-covers :
    (limit : ℕ) (x len : ℤ) (p : ℕ)
    → limit < 2 ^ 31
    → is_side x len ≡ true
    → p < limit
    → covers x len p
      ≡ (leb (clip limit x len).0 p && ltb p ((clip limit x len).0 + rounds (clip limit x len).1))
unfolding clip
clip-covers limit (pos a) (pos n) p small side h = ground arith
clip-covers limit (pos a) (negsuc n) p small side h = ground arith
clip-covers limit (negsuc a) (pos n) p small side h = ground arith
clip-covers limit (negsuc a) (negsuc n) p small side h = ground arith

-- It ends on the screen, where it covers anything.
pub clip-inside :
    (limit : ℕ) (x len : ℤ)
    → limit < 2 ^ 31
    → is_side x len ≡ true
    → lt_ℤ (pos 0) (clip limit x len).1 ≡ true
    → (clip limit x len).0 + rounds (clip limit x len).1 ≤ limit
unfolding clip
clip-inside limit (pos a) (pos n) small side h = ground arith
clip-inside limit (pos a) (negsuc n) small side h = ground arith
clip-inside limit (negsuc a) (pos n) small side h = ground arith
clip-inside limit (negsuc a) (negsuc n) small side h = ground arith

-- Nothing of a side is on a screen without extent.
pub clip-empty : (x len : ℤ) → is_side x len ≡ true → lt_ℤ (pos 0) (clip 0 x len).1 ≡ false
unfolding clip
clip-empty (pos a) (pos n) side = ground arith
clip-empty (pos a) (negsuc n) side = ground arith
clip-empty (negsuc a) (pos n) side = ground arith
clip-empty (negsuc a) (negsuc n) side = ground arith
