-- ===== src/Video/Bounds.antt =====
-- Drawing writes inside the framebuffer.
use native.Mathlib.Nat.{mul-le-mul_right}
use snowkernel.Base.{
  ℕ, zero, suc, ◌+◌, ◌*◌, ◌^◌, ◌≤◌, ◌<◌, ◌||◌, not, ◌==◌, leb, if◌then◌else◌, List, [], ◌∷◌, update,
  update_ne, ◌≡◌, refl, sym, ap, ◌∙◌, arith, if_elim,
}
use snowkernel.Base.Int.{ℤ, pos, negsuc, ◌+ℤ◌}
use snowkernel.Str.{Str}
use snowkernel.Video.{
  Screen, word_at, video_putpixel, bit_set, no_background, draw_row, draw_rows, glyph,
  video_draw_char, draw_text_from, video_draw_text,
}

-- A mode with 32 bits for a pixel, whose bytes can be counted in 32 bits.
pub record IsMode (s : Screen) : Type 0 where
  pub rows : s.pitch ≡ s.width * 4
  pub small : s.height * (s.width * 4) < 2 ^ 32

pub row_end : (w h x y : ℕ) → x < w → y < h → y * w + x < h * w
row_end w h x y hx hy = grind arith

pub word_at_lem : (s : Screen) (x y : ℕ) → IsMode s → y < s.height → word_at s x y ≡ y * s.width + x
word_at_lem s x y v h =
    let whole : y * (s.width * 4) ≤ s.height * (s.width * 4) =
      mul-le-mul_right (s.width * 4) (omega (arith, h)) in
    let bytes : y * (s.width * 4) ≡ y * s.width * 4 = grind arith in
    let small = v.small in rw v.rows (omega (arith, whole, bytes, small))

-- The screen after a drawing: the same mode, and no word past the framebuffer's pixels changed.
pub record Draws (s t : Screen) : Type 0 where
  pub width : t.width ≡ s.width
  pub height : t.height ≡ s.height
  pub pitch : t.pitch ≡ s.pitch
  pub beyond : (i : ℕ) → s.height * s.width ≤ i → t.fb i ≡ s.fb i

pub Draws-refl : (s : Screen) → Draws s s
Draws-refl s = record { width = refl; height = refl; pitch = refl; beyond = λ i h. refl }

pub Draws-trans : (a b c : Screen) → Draws a b → Draws b c → Draws a c
Draws-trans a b c f g = record {
  width = g.width ∙ f.width;
  height = g.height ∙ f.height;
  pitch = g.pitch ∙ f.pitch;
  beyond = λ i h. g.beyond i (rw (f.width, f.height) h) ∙ f.beyond i h;
}

pub Draws-IsMode : (s t : Screen) → Draws s t → IsMode s → IsMode t
Draws-IsMode s t d v = record {
  rows = d.pitch ∙ v.rows ∙ ap (λ (w : ℕ). w * 4) (sym d.width);
  small = rw (d.width, d.height) v.small;
}

pub putpixel-Draws :
    (s : Screen) (x y : ℤ) (rgb : ℕ) → IsMode s → Draws s (video_putpixel s x y rgb)
unfolding video_putpixel
putpixel-Draws s (negsuc a) y rgb v = Draws-refl s
putpixel-Draws s (pos x) (negsuc b) rgb v = Draws-refl s
putpixel-Draws s (pos x) (pos y) rgb v =
    let off = not s.available || leb s.width x || leb s.height y in
    let t = record s { fb = update s.fb (word_at s x y) rgb } in
    if_elim (Draws s) off s t (λ _. Draws-refl s)
      (λ on.
        let hx : x < s.width = ground (arith, on) in
        let hy : y < s.height = ground (arith, on) in
        let at = word_at_lem s x y v hy in
        let low = row_end s.width s.height x y hx hy in
        record {
          width = refl;
          height = refl;
          pitch = refl;
          beyond = λ i h. update_ne s.fb (word_at s x y) i rgb (omega (arith, at, low, h));
        })

draw_row-Draws :
    (s : Screen) (x y : ℤ) (bits fg bg n col : ℕ)
    → IsMode s
    → Draws s (draw_row s x y bits fg bg n col)
unfolding draw_row
draw_row-Draws s x y bits fg bg zero col v = Draws-refl s
draw_row-Draws s x y bits fg bg (suc n) col v =
    let ink = video_putpixel s (x +ℤ pos col) y fg in
    let paper = video_putpixel s (x +ℤ pos col) y bg in
    let under = if bg == no_background then s else paper in
    let t = if bit_set bits col then ink else under in
    let one : Draws s t =
      if_elim (Draws s) (bit_set bits col) ink under (λ _. putpixel-Draws s (x +ℤ pos col) y fg v)
        (λ _.
          if_elim (Draws s) (bg == no_background) s paper (λ _. Draws-refl s)
            (λ _. putpixel-Draws s (x +ℤ pos col) y bg v)) in
    Draws-trans s t (draw_row t x y bits fg bg n (col + 1)) one
      (draw_row-Draws t x y bits fg bg n (col + 1) (Draws-IsMode s t one v))

draw_rows-Draws :
    (s : Screen) (x y : ℤ) (rows : List ℕ) (fg bg r : ℕ)
    → IsMode s
    → Draws s (draw_rows s x y rows fg bg r)
unfolding draw_rows
draw_rows-Draws s x y [] fg bg r v = Draws-refl s
draw_rows-Draws s x y (bits ∷ rows) fg bg r v =
    let t = draw_row s x (y +ℤ pos r) bits fg bg 8 0 in
    let one = draw_row-Draws s x (y +ℤ pos r) bits fg bg 8 0 v in
    Draws-trans s t (draw_rows t x y rows fg bg (r + 1)) one
      (draw_rows-Draws t x y rows fg bg (r + 1) (Draws-IsMode s t one v))

draw_char-Draws :
    (s : Screen) (x y : ℤ) (c fg bg : ℕ) → IsMode s → Draws s (video_draw_char s x y c fg bg)
unfolding video_draw_char
draw_char-Draws s x y c fg bg v =
    if_elim (Draws s) s.available (draw_rows s x y (glyph c) fg bg 0) s
      (λ _. draw_rows-Draws s x y (glyph c) fg bg 0 v) (λ _. Draws-refl s)

draw_text_from-Draws :
    (s : Screen) (x cx y : ℤ) (text : Str) (fg bg : ℕ)
    → IsMode s
    → Draws s (draw_text_from s x cx y text fg bg)
unfolding draw_text_from
draw_text_from-Draws s x cx y [] fg bg v = Draws-refl s
draw_text_from-Draws s x cx y (c ∷ text) fg bg v =
    let next_line = draw_text_from s x x (y +ℤ pos 16) text fg bg in
    let t = video_draw_char s cx y c fg bg in
    let next = draw_text_from t x (cx +ℤ pos 8) y text fg bg in
    let one = draw_char-Draws s cx y c fg bg v in
    if_elim (Draws s) (c == 0) s (if c == 10 then next_line else next) (λ _. Draws-refl s)
      (λ _.
        if_elim (Draws s) (c == 10) next_line next
          (λ _. draw_text_from-Draws s x x (y +ℤ pos 16) text fg bg v)
          (λ _.
            Draws-trans s t next one
              (draw_text_from-Draws t x (cx +ℤ pos 8) y text fg bg (Draws-IsMode s t one v))))

-- In a mode with 32 bits for a pixel, a text drawn at any place, also one beside the screen, leaves
-- the mode as it is and changes no word past the framebuffer's pixels.
pub draw_text-Draws :
    (s : Screen) (x y : ℤ) (text : Str) (fg bg : ℕ)
    → IsMode s
    → Draws s (video_draw_text s x y text fg bg)
unfolding video_draw_text
draw_text-Draws s x y text fg bg v = draw_text_from-Draws s x x y text fg bg v
