-- ===== src/Video/Fill.antt =====
-- Filled areas are inside the framebuffer, and drawings after one another.
use native.Mathlib.Nat.{mul-le-mul_right}
use mathlib.Core.Bool.{false≢true}
use snowkernel.Base.{
  ℕ, zero, suc, ◌+◌, ◌*◌, ◌/◌, ◌≤◌, ◌<◌, not, if◌then◌else◌, if_elim, fill_from, fill_from-outside,
  inr, ◌≡◌, ◌^◌, true, sym, ◌∙◌, refl, arith,
}
use snowkernel.Base.Int.{ℤ, pos, lt_ℤ}
use snowkernel.Video.{Screen, word_at, clip, fill_rows, rounds, video_fillrect, video_clear}
use snowkernel.Video.Bounds.{IsMode, word_at_lem, Draws, Draws-refl, Draws-trans, Draws-IsMode}
use snowkernel.Video.Clip.{is_side, clip-inside, clip-empty}

-- A drawing, and one after it.
pub Draws-then : (a b c : Screen) → IsMode a → Draws a b → (IsMode b → Draws b c) → Draws a c
Draws-then a b c v f g = Draws-trans a b c f (g (Draws-IsMode a b f v))

row_stop : (w h x n y : ℕ) → x + n ≤ w → y < h → y * w + x + n ≤ h * w
row_stop w h x n y fits low =
    let whole : (y + 1) * w ≤ h * w = mul-le-mul_right w (omega (arith, low)) in
    let split : (y + 1) * w ≡ y * w + w = grind arith in omega (arith, whole, split, fits)

fill_rows-Draws :
    (s : Screen) (x y w h rgb : ℕ)
    → IsMode s
    → x + w ≤ s.width
    → y + h ≤ s.height
    → Draws s (fill_rows s x y w h rgb)
unfolding fill_rows
fill_rows-Draws s x y w zero rgb v fits tall = Draws-refl s
fill_rows-Draws s x y w (suc h) rgb v fits tall =
    let low : y < s.height = omega (arith, tall) in
    let at = word_at_lem s x y v low in
    let stop = row_stop s.width s.height x w y fits low in
    let t = record s { fb = fill_from s.fb rgb w (word_at s x y) } in
    let one : Draws s t = record {
      width = refl;
      height = refl;
      pitch = refl;
      beyond = λ i out.
          fill_from-outside s.fb rgb w (word_at s x y) i (inr (omega (arith, at, stop, out)));
    } in
    Draws-then s t (fill_rows t x (y + 1) w h rgb) v one
      (λ v'. fill_rows-Draws t x (y + 1) w h rgb v' fits (omega (arith, tall)))

-- A side that is longer than nothing where it is cut: the screen has an extent there.
extent :
    (limit : ℕ) (x len : ℤ)
    → is_side x len ≡ true
    → lt_ℤ (pos 0) (clip limit x len).1 ≡ true
    → 0 < limit
extent zero x len side h = absurd (false≢true (sym (clip-empty x len side) ∙ h))
extent (suc n) x len side h = omega arith

-- A mode's bytes can be counted in 32 bits, which bounds its sides where the screen has an extent.
pub narrow : (s : Screen) → IsMode s → 0 < s.height → s.width < 2 ^ 31
narrow s v tall =
    let small = v.small in
    let by_width : 1 * (s.width * 4) ≤ s.height * (s.width * 4) =
      mul-le-mul_right (s.width * 4) (omega (arith, tall)) in
    omega (arith, small, by_width)

pub small_screen :
    (s : Screen) → IsMode s → 0 < s.width → 0 < s.height → (s.width < 2 ^ 31) × (s.height < 2 ^ 31)
small_screen s v wide tall =
    let small = v.small in
    let by_height : 1 * (s.height * 4) ≤ s.width * (s.height * 4) =
      mul-le-mul_right (s.height * 4) (omega (arith, wide)) in
    let same : s.width * (s.height * 4) ≡ s.height * (s.width * 4) = grind arith in
    (narrow s v tall, omega (arith, small, by_height, same))

cut-Draws :
    (s : Screen) (x y w h : ℤ) (rgb : ℕ)
    → IsMode s
    → is_side x w ≡ true
    → is_side y h ≡ true
    → lt_ℤ (pos 0) (clip s.width x w).1 ≡ true
    → lt_ℤ (pos 0) (clip s.height y h).1 ≡ true
    → Draws s (
        fill_rows s
          (clip s.width x w).0
          (clip s.height y h).0
          (rounds (clip s.width x w).1)
          (rounds (clip s.height y h).1)
          rgb)
cut-Draws s x y w h rgb v across down wide tall =
    let (less, low) =
      small_screen s v (extent s.width x w across wide) (extent s.height y h down tall) in
    fill_rows-Draws s (clip s.width x w).0 (clip s.height y h).0 (rounds (clip s.width x w).1)
      (rounds (clip s.height y h).1) rgb v (clip-inside s.width x w less across wide)
      (clip-inside s.height y h low down tall)

-- The side across may be any where the screen has no rows.
pub fillrect-Draws :
    (s : Screen) (x y w h : ℤ) (rgb : ℕ)
    → IsMode s
    → (0 < s.height → is_side x w ≡ true)
    → is_side y h ≡ true
    → Draws s (video_fillrect s x y w h rgb)
unfolding video_fillrect
fillrect-Draws s x y w h rgb v across down =
    let (x', w') = clip s.width x w in
    let (y', h') = clip s.height y h in
    let filled = fill_rows s x' y' (rounds w') (rounds h') rgb in
    if_elim (Draws s) (not s.available) s
      (if lt_ℤ (pos 0) w' then (if lt_ℤ (pos 0) h' then filled else s) else s) (λ _. Draws-refl s)
      (λ _.
        if_elim (Draws s) (lt_ℤ (pos 0) w') (if lt_ℤ (pos 0) h' then filled else s) s
          (λ wide.
            if_elim (Draws s) (lt_ℤ (pos 0) h') filled s
              (λ tall.
                cut-Draws s x y w h rgb v (across (extent s.height y h down tall)) down wide tall)
              (λ _. Draws-refl s))
          (λ _. Draws-refl s))

pub clear-Draws : (s : Screen) (rgb : ℕ) → IsMode s → Draws s (video_clear s rgb)
unfolding video_clear
clear-Draws s rgb v =
    let t = record s { fb = fill_from s.fb rgb (s.pitch / 4 * s.height) 0 } in
    let rows = v.rows in
    let words : s.pitch / 4 ≡ s.width = omega (arith, rows) in
    let all : s.pitch / 4 * s.height ≡ s.height * s.width = rw words (grind arith) in
    if_elim (Draws s) s.available t s
      (λ _. record {
        width = refl;
        height = refl;
        pitch = refl;
        beyond = λ i out.
            fill_from-outside s.fb rgb (s.pitch / 4 * s.height) 0 i (inr (omega (arith, all, out)));
      })
      (λ _. Draws-refl s)
