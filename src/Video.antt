-- ===== src/Video.antt =====
-- Drawing of src/kernel/video.c: the framebuffer and what the desktop draws on it.
pub mod Font
pub mod Clip
pub mod Bounds
pub mod Rect
pub mod Fill
mod Tests
use snowkernel.Base.{
  ℕ, zero, suc, ◌+◌, ◌-◌, ◌*◌, ◌/◌, ◌%◌, ◌^◌, Bool, true, false, ◌||◌, not, ◌==◌, ltb, leb,
  if◌then◌else◌, List, [], ◌∷◌, ◌++◌, get_or, update, fill_from, replicate,
}
use snowkernel.Base.Int.{to_int, ℤ, pos, negsuc, ◌+ℤ◌, lt_ℤ, sub_ℕ}
use snowkernel.Str.{Str}
use snowkernel.Video.Font.{Glyph, no_glyph, font_marks, font_capitals, font_small}

-- `video_mode_t`, and the framebuffer's 32-bit words by their index. A row of the modes that are
-- asked for has 32-bit pixels, so the pitch is a multiple of 4, and width and height fit an `int`.
pub record Screen : Type 0 where
  pub width : ℕ
  pub height : ℕ
  pub pitch : ℕ
  pub available : Bool
  pub fb : ℕ → ℕ

-- The index of the word `row[x]` in the row `y`, whose place is computed in 32 bits.
abbrev pub word_at : Screen → ℕ → ℕ → ℕ
word_at s x y = y * s.pitch % 2 ^ 32 / 4 + x

unfoldable pub video_clear : Screen → ℕ → Screen
video_clear s rgb =
    if s.available then record s { fb = fill_from s.fb rgb (s.pitch / 4 * s.height) 0 } else s

unfoldable pub video_putpixel : Screen → ℤ → ℤ → ℕ → Screen
video_putpixel s (negsuc a) y rgb = s
video_putpixel s (pos x) (negsuc b) rgb = s
video_putpixel s (pos x) (pos y) rgb =
    if not s.available || leb s.width x || leb s.height y
    then s
    else record s { fb = update s.fb (word_at s x y) rgb }

-- The part of `video_fillrect` that cuts one side of the rectangle to the screen's: where it starts,
-- and its length, which may be negative. Sums are those of the machine's `int`.
unfoldable pub clip : ℕ → ℤ → ℤ → ℕ × ℤ
clip limit (pos a) len =
    (a, if lt_ℤ (to_int (pos limit)) (to_int (pos a +ℤ len)) then to_int (sub_ℕ limit a) else len)
clip limit (negsuc a) len =
    let cut = to_int (len +ℤ negsuc a) in
    (0, if lt_ℤ (to_int (pos limit)) cut then to_int (pos limit) else cut)

-- The two loops, over `h` rows from the row `y` on.
unfoldable pub fill_rows : Screen → ℕ → ℕ → ℕ → ℕ → ℕ → Screen
fill_rows s x y w zero rgb = s
fill_rows s x y w (suc h) rgb =
    fill_rows (record s { fb = fill_from s.fb rgb w (word_at s x y) }) x (y + 1) w h rgb

-- A loop to a limit that is not positive does nothing.
abbrev pub rounds : ℤ → ℕ
rounds (pos n) = n
rounds (negsuc n) = 0

unfoldable pub video_fillrect : Screen → ℤ → ℤ → ℤ → ℤ → ℕ → Screen
unfolding clip fill_rows
video_fillrect s x y w h rgb =
    let (x', w') = clip s.width x w in
    let (y', h') = clip s.height y h in
    if not s.available
    then s
    else if lt_ℤ (pos 0) w'
    then (if lt_ℤ (pos 0) h' then fill_rows s x' y' (rounds w') (rounds h') rgb else s)
    else s

-- The font from 0 on: control characters are blank.
abbrev pub font8x16 : List Glyph
font8x16 = replicate 32 no_glyph ++ font_marks ++ font_capitals ++ font_small

abbrev pub glyph : ℕ → Glyph
glyph c = get_or font8x16 (if ltb 127 c then b'?' else c) no_glyph

abbrev pub no_background : ℕ
no_background = 0xFFFFFFFF

-- `bits & (1 << col)`.
abbrev pub bit_set : ℕ → ℕ → Bool
bit_set bits col = bits / 2 ^ col % 2 == 1

-- The inner loop of `video_draw_char`, `n` columns from the column `col` on.
unfoldable pub draw_row : Screen → ℤ → ℤ → ℕ → ℕ → ℕ → ℕ → ℕ → Screen
unfolding video_putpixel
draw_row s x y bits fg bg zero col = s
draw_row s x y bits fg bg (suc n) col =
    let s' =
      if bit_set bits col
      then video_putpixel s (x +ℤ pos col) y fg
      else if bg == no_background
      then s
      else video_putpixel s (x +ℤ pos col) y bg in
    draw_row s' x y bits fg bg n (col + 1)

-- The outer loop, over the rest of the glyph's rows from the row `r` on.
unfoldable pub draw_rows : Screen → ℤ → ℤ → List ℕ → ℕ → ℕ → ℕ → Screen
unfolding draw_row
draw_rows s x y [] fg bg r = s
draw_rows s x y (bits ∷ rows) fg bg r =
    draw_rows (draw_row s x (y +ℤ pos r) bits fg bg 8 0) x y rows fg bg (r + 1)

unfoldable pub video_draw_char : Screen → ℤ → ℤ → ℕ → ℕ → ℕ → Screen
unfolding draw_rows
video_draw_char s x y c fg bg = if s.available then draw_rows s x y (glyph c) fg bg 0 else s

-- The loop of `video_draw_text`: the line starts at `x` and has come to `cx`.
unfoldable pub draw_text_from : Screen → ℤ → ℤ → ℤ → Str → ℕ → ℕ → Screen
unfolding video_draw_char
draw_text_from s x cx y [] fg bg = s
draw_text_from s x cx y (c ∷ text) fg bg =
    let next_line = draw_text_from s x x (y +ℤ pos 16) text fg bg in
    let next = draw_text_from (video_draw_char s cx y c fg bg) x (cx +ℤ pos 8) y text fg bg in
    if c == 0 then s else if c == 10 then next_line else next

unfoldable pub video_draw_text : Screen → ℤ → ℤ → Str → ℕ → ℕ → Screen
unfolding draw_text_from
video_draw_text s x y text fg bg = draw_text_from s x x y text fg bg

-- The loops of `video_test_pattern`.
abbrev pub pattern_colour : ℕ → ℕ → ℕ
pattern_colour x y = let v = (x + y) % 256 in v * 2 ^ 16 + (255 - v) * 2 ^ 8 + v

unfoldable pub pattern_row : (ℕ → ℕ) → ℕ → ℕ → ℕ → ℕ → (ℕ → ℕ)
pattern_row fb stride y zero x = fb
pattern_row fb stride y (suc n) x =
    pattern_row (update fb ((y * stride + x) % 2 ^ 32) (pattern_colour x y)) stride y n (x + 1)

unfoldable pub pattern_rows : (ℕ → ℕ) → ℕ → ℕ → ℕ → ℕ → (ℕ → ℕ)
unfolding pattern_row
pattern_rows fb stride width zero y = fb
pattern_rows fb stride width (suc n) y =
    pattern_rows (pattern_row fb stride y width 0) stride width n (y + 1)

unfoldable pub video_test_pattern : Screen → Screen
unfolding pattern_rows
video_test_pattern s =
    if s.available then record s { fb = pattern_rows s.fb (s.pitch / 4) s.width s.height 0 } else s
