-- ===== src/Ui/Draws.antt =====
-- Whatever happens on the desktop, it draws inside the framebuffer.
use snowkernel.Base.{
  ℕ, zero, suc, ◌+◌, ◌-◌, ◌*◌, ◌/◌, ◌%◌, Bool, true, false, ◌&&◌, not, ◌==◌, leb, ltb, ◌<◌, ◌≤◌,
  ◌≡◌, refl, length, arith, if◌then◌else◌, if_elim, List, [], ◌∷◌, none, some,
}
use snowkernel.Base.Int.{ℤ, pos, negsuc, ◌+ℤ◌, lt_ℤ}
use snowkernel.Str.{Str}
use snowkernel.Kprint.Console.{Console, kclear}
use snowkernel.Video.{
  Screen, bit_set, no_background, video_putpixel, video_fillrect, video_draw_text, video_clear,
}
use snowkernel.Video.Bounds.{
  IsMode, Draws, Draws-refl, Draws-IsMode, putpixel-Draws, draw_text-Draws,
}
use snowkernel.Video.Clip.{is_side}
use snowkernel.Video.Fill.{narrow, Draws-then, fillrect-Draws, clear-Draws}
use snowkernel.Ui.Texts.{
  menu_text, shutdown_text, reboot_text, exit_text, bar_text, exit_fb, exit_plain, launching,
}
use snowkernel.Ui.{
  Window, term_win, frame_rows, frame_columns, draw_window_frame, draw_menu_dropdown, draw_bar,
  draw_term_win, draw_icons, icons, pattern_rows, arrow_row, arrow_rows, Ui, Inputs, update_clock,
  clock_text, minus, show_time, toggle_menu, power_shutdown, Outcome, goes_on, exits, reboots,
  runs_shell, menu_key, on_key, on_click, draw_arrow, clicked, says, ui_round, ui_start, ui_loop,
  ui_run,
}

-- The desktop's state when a round or the loop ends.
pub state : Outcome → Ui
state (goes_on u) = u
state (exits u) = u
state (reboots u) = u
state (runs_shell u) = u

-- `Draws`, by its screens only.
data Drawn (s t : Screen) : Type 0 where
  drawn : Draws s t → Drawn s t

Draws-Drawn : {s t : Screen} → Drawn s t → Draws s t
Draws-Drawn (drawn d) = d

-- A window with places far below the bounds of an `int`.
abbrev is_window : Window → Bool
is_window win = ltb win.x 65536 && ltb win.y 65536 && ltb win.w 65536 && ltb win.h 65536

window_sides :
    (win : Window)
    → is_window win ≡ true
    → (is_side (pos (win.x + 1)) (pos win.w +ℤ negsuc 1) ≡ true)
      × (is_side (pos (win.y + 16)) (pos win.h +ℤ negsuc 16) ≡ true)
      × (is_side (pos (win.y + 1)) (pos 14) ≡ true)
window_sides win ok = (ground (arith, ok), ground (arith, ok), ground (arith, ok))

bar_side :
    {s t : Screen} → IsMode s → Drawn s t → 0 < t.height → is_side (pos 0) (pos t.width) ≡ true
bar_side {s} {t} v d tall =
    let less = narrow t (Draws-IsMode s t (Draws-Drawn d) v) tall in ground (arith, less)

-- One more drawing.
module _ {s t : Screen} (v : IsMode s) (d : Drawn s t) where
  rect_after :
      (x y w h : ℤ) (rgb : ℕ)
      → (0 < t.height → is_side x w ≡ true)
      → is_side y h ≡ true
      → Drawn s (video_fillrect t x y w h rgb)
  rect_after x y w h rgb across down = drawn (
      Draws-then s t (video_fillrect t x y w h rgb) v (Draws-Drawn d)
        (λ v'. fillrect-Draws t x y w h rgb v' across down))

  text_after : (x y : ℤ) (text : Str) (fg bg : ℕ) → Drawn s (video_draw_text t x y text fg bg)
  text_after x y text fg bg = drawn (
      Draws-then s t (video_draw_text t x y text fg bg) v (Draws-Drawn d)
        (draw_text-Draws t x y text fg bg))

  pixel_after : (x y : ℤ) (rgb : ℕ) → Drawn s (video_putpixel t x y rgb)
  pixel_after x y rgb =
      drawn (Draws-then s t (video_putpixel t x y rgb) v (Draws-Drawn d) (putpixel-Draws t x y rgb))

module _ {s : Screen} (v : IsMode s) where
  frame_rows-Draws :
      (win : Window) (frame n d : ℕ) (t : Screen) → Drawn s t → Drawn s (frame_rows win frame t n d)
  unfolding frame_rows
  frame_rows-Draws win frame zero d t f = f
  frame_rows-Draws win frame (suc n) d t f =
      let t' = video_putpixel t (pos (win.x + d)) (pos win.y) frame in
      let f' = pixel_after v f (pos (win.x + d)) (pos win.y) frame in
      frame_rows-Draws win frame n (d + 1)
        (video_putpixel t' (pos (win.x + d)) (pos (win.y + win.h - 1)) frame)
        (pixel_after v f' (pos (win.x + d)) (pos (win.y + win.h - 1)) frame)

  frame_columns-Draws :
      (win : Window) (frame n d : ℕ) (t : Screen)
      → Drawn s t
      → Drawn s (frame_columns win frame t n d)
  unfolding frame_columns
  frame_columns-Draws win frame zero d t f = f
  frame_columns-Draws win frame (suc n) d t f =
      let t' = video_putpixel t (pos win.x) (pos (win.y + d)) frame in
      let f' = pixel_after v f (pos win.x) (pos (win.y + d)) frame in
      frame_columns-Draws win frame n (d + 1)
        (video_putpixel t' (pos (win.x + win.w - 1)) (pos (win.y + d)) frame)
        (pixel_after v f' (pos (win.x + win.w - 1)) (pos (win.y + d)) frame)

  window-Draws :
      {t : Screen} (win : Window) (frame title_bar title_fg bg : ℕ)
      → is_window win ≡ true
      → Drawn s t
      → Drawn s (draw_window_frame t win frame title_bar title_fg bg)
  unfolding draw_window_frame
  window-Draws {t} win frame title_bar title_fg bg ok f =
      let f1 = frame_rows-Draws win frame win.w 0 t f in
      let f2 = frame_columns-Draws win frame win.h 0 (frame_rows win frame t win.w 0) f1 in
      let f3 =
        rect_after v f2 (pos (win.x + 1)) (pos (win.y + 16)) (pos win.w +ℤ negsuc 1)
          (pos win.h +ℤ negsuc 16) bg (λ _. (window_sides win ok).0) ((window_sides win ok).1) in
      let f4 =
        rect_after v f3 (pos (win.x + 1)) (pos (win.y + 1)) (pos win.w +ℤ negsuc 1) (pos 14)
          title_bar (λ _. (window_sides win ok).0) ((window_sides win ok).2) in
      text_after v f4 (pos (win.x + 6)) (pos (win.y + 3)) win.title title_fg no_background

  menu-Draws : {t : Screen} (opened : Bool) → Drawn s t → Drawn s (draw_menu_dropdown t opened)
  unfolding draw_menu_dropdown
  menu-Draws false f = f
  menu-Draws true f =
      let f1 = rect_after v f (pos 0) (pos 24) (pos 140) (pos 90) 0x2A2A40 (λ _. refl) refl in
      let f2 = text_after v f1 (pos 8) (pos 30) menu_text 0xFFFFFF 0x2A2A40 in
      let f3 = text_after v f2 (pos 8) (pos 46) shutdown_text 0xCCCCCC 0x2A2A40 in
      let f4 = text_after v f3 (pos 8) (pos 62) reboot_text 0xCCCCCC 0x2A2A40 in
      text_after v f4 (pos 8) (pos 78) exit_text 0xCCCCCC 0x2A2A40

  bar-Draws : {t : Screen} → Drawn s t → Drawn s (draw_bar t)
  unfolding draw_bar
  bar-Draws {t} f =
      let f1 =
        rect_after v f (pos 0) (pos 0) (pos t.width) (pos 24) 0x303860 (λ tall. bar_side v f tall)
          refl in
      let f2 = rect_after v f1 (pos 0) (pos 0) (pos 60) (pos 24) 0x404880 (λ _. refl) refl in
      let f3 = text_after v f2 (pos 8) (pos 4) menu_text 0xFFFFFF 0x404880 in
      text_after v f3 (pos 80) (pos 4) bar_text 0xFFFFFF 0x303860

  icons-Draws :
      (names : List Str) (i : ℕ) (t : Screen)
      → i + length names ≤ 4
      → Drawn s t
      → Drawn s (draw_icons t names i)
  unfolding draw_icons
  icons-Draws [] i t few f = f
  icons-Draws (icon ∷ names) i t few f =
      let x = 16 + i % 4 * 80 in
      let y = 40 + i / 4 * 64 in
      let t1 = video_fillrect t (pos x) (pos y) (pos 64) (pos 48) 0x383838 in
      let f1 =
        rect_after v f (pos x) (pos y) (pos 64) (pos 48) 0x383838 (λ _. ground arith)
          (ground (arith, few)) in
      icons-Draws names (i + 1)
        (video_draw_text t1 (pos (x + 8)) (pos (y + 16)) icon 0xE0E0E0 0x383838)
        (omega (arith, few)) (text_after v f1 (pos (x + 8)) (pos (y + 16)) icon 0xE0E0E0 0x383838)

  arrow_row-Draws :
      (x y : ℤ) (bits n b : ℕ) (t : Screen) → Drawn s t → Drawn s (arrow_row t x y bits n b)
  unfolding arrow_row
  arrow_row-Draws x y bits zero b t f = f
  arrow_row-Draws x y bits (suc n) b t f =
      let set = bit_set bits (15 - b) in
      let inked = video_putpixel t (x +ℤ pos b) y 0xFFFFFF in
      arrow_row-Draws x y bits n (b + 1) (if set then inked else t)
        (if_elim (Drawn s) set inked t (λ _. pixel_after v f (x +ℤ pos b) y 0xFFFFFF) (λ _. f))

  arrow_rows-Draws :
      (x y : ℤ) (rows : List ℕ) (r : ℕ) (t : Screen) → Drawn s t → Drawn s (arrow_rows t x y rows r)
  unfolding arrow_rows
  arrow_rows-Draws x y [] r t f = f
  arrow_rows-Draws x y (bits ∷ rows) r t f =
      arrow_rows-Draws x y rows (r + 1) (arrow_row t x (y +ℤ pos r) bits 16 0)
        (arrow_row-Draws x (y +ℤ pos r) bits 16 0 t f)

  -- The desktop after some of its work, from the screen `s` on.
  abbrev DrawnUi : Ui → Type 0
  DrawnUi u = Drawn s u.screen

  toggle_menu-Draws : (u : Ui) → DrawnUi u → DrawnUi (toggle_menu u)
  unfolding toggle_menu
  toggle_menu-Draws u f =
      menu-Draws (not u.menu_open)
        (window-Draws term_win 0x101018 0x404860 0xFFFFFF 0 refl (bar-Draws f))

  show_time-Draws : (u : Ui) (ticks : ℕ) → DrawnUi u → DrawnUi (show_time u ticks)
  unfolding show_time
  show_time-Draws u ticks f =
      let bar = video_fillrect u.screen (pos 300) (pos 0) (pos 120) (pos 24) 0x303860 in
      let drawn_time = record u {
        screen = video_draw_text bar (pos 300) (pos 4) (clock_text ticks) 0xFFFFFF 0x303860;
      } in
      let printed_time = record u { console = update_clock u.console ticks } in
      let last = minus ticks (minus ticks u.last_tick % 100) in
      let shown = if u.screen.available then drawn_time else printed_time in
      let f1 = rect_after v f (pos 300) (pos 0) (pos 120) (pos 24) 0x303860 (λ _. refl) refl in
      let f2 = text_after v f1 (pos 300) (pos 4) (clock_text ticks) 0xFFFFFF 0x303860 in
      if_elim DrawnUi (leb 100 (minus ticks u.last_tick)) (record shown { last_tick = last }) u
        (λ _. if_elim DrawnUi u.screen.available drawn_time printed_time (λ _. f2) (λ _. f))
        (λ _. f)

  on_click-Draws : (u : Ui) (i : Inputs) → DrawnUi u → DrawnUi (on_click u i)
  unfolding on_click
  on_click-Draws u i f =
      if_elim DrawnUi
        (u.screen.available && i.buttons % 2 == 1 && lt_ℤ i.cy (pos 24) && lt_ℤ i.cx (pos 60))
        (toggle_menu u) u (λ _. toggle_menu-Draws u f) (λ _. f)

  -- The same of how a round ends.
  abbrev DrawnOut : Outcome → Type 0
  DrawnOut o = DrawnUi (state o)

  menu_key-Draws : (u : Ui) (c : ℕ) → DrawnUi u → DrawnOut (menu_key u c)
  unfolding menu_key state
  menu_key-Draws u c f =
      let down = record u { console = power_shutdown u.console } in
      let u' = if u.menu_open && c == b'1' then down else u in
      let f' : DrawnUi u' = if_elim DrawnUi (u.menu_open && c == b'1') down u (λ _. f) (λ _. f) in
      if_elim DrawnOut (u.menu_open && c == b'2') (reboots u)
        (if c == b't' then runs_shell (says u' launching) else goes_on u') (λ _. f)
        (λ _.
          if_elim DrawnOut (c == b't') (runs_shell (says u' launching)) (goes_on u') (λ _. f')
            (λ _. f'))

  on_key-Draws : (u : Ui) (c : ℕ) → DrawnUi u → DrawnOut (on_key u c)
  unfolding on_key state
  on_key-Draws u c f =
      let m = c == b'm' && u.screen.available in
      let u' = if m then toggle_menu u else u in
      let f' : DrawnUi u' =
        if_elim DrawnUi m (toggle_menu u) u (λ _. toggle_menu-Draws u f) (λ _. f) in
      let out = says u (if u.screen.available then exit_fb else exit_plain) in
      if_elim DrawnOut (c == b'q') (exits out) (menu_key u' c) (λ _. f)
        (λ _. menu_key-Draws u' c f')

  clicked-Draws : (o : Outcome) (i : Inputs) → DrawnOut o → DrawnOut (clicked o i)
  unfolding clicked state
  clicked-Draws (goes_on u) i f = on_click-Draws u i f
  clicked-Draws (exits u) i f = f
  clicked-Draws (reboots u) i f = f
  clicked-Draws (runs_shell u) i f = f

  round-Draws : (u : Ui) (i : Inputs) → DrawnUi u → DrawnOut (ui_round u i)
  unfolding ui_round state
  round-Draws u i f =
      let pointed = record u { screen = arrow_rows u.screen i.cx i.cy pattern_rows 0 } in
      let f1 : DrawnUi (draw_arrow u i) =
        if_elim DrawnUi u.screen.available pointed u
          (λ _. arrow_rows-Draws i.cx i.cy pattern_rows 0 u.screen f) (λ _. f) in
      let u' = show_time (draw_arrow u i) i.ticks in
      let f2 = show_time-Draws (draw_arrow u i) i.ticks f1 in
      elim i.key
        as (λ k.
          DrawnOut (elim k [ none ↦ goes_on (on_click u' i) | some c ↦ clicked (on_key u' c) i ])) [
            | none ↦ on_click-Draws u' i f2
            | some c ↦ clicked-Draws (on_key u' c) i (on_key-Draws u' c f2)
          ]

  next-Draws :
      (is : List Inputs)
      → ((u : Ui) → DrawnUi u → DrawnOut (ui_loop u is))
      → (o : Outcome) → DrawnOut o
      → DrawnOut (elim o [
        | goes_on u' ↦ ui_loop u' is
        | exits u' ↦ exits u'
        | reboots u' ↦ reboots u'
        | runs_shell u' ↦ runs_shell u'
      ])
  unfolding state
  next-Draws is rest (goes_on u') h = rest u' h
  next-Draws is rest (exits u') h = h
  next-Draws is rest (reboots u') h = h
  next-Draws is rest (runs_shell u') h = h

  loop-Draws : (is : List Inputs) (u : Ui) → DrawnUi u → DrawnOut (ui_loop u is)
  unfolding ui_loop state
  loop-Draws [] u f = f
  loop-Draws (i ∷ is) u f =
      next-Draws is (λ u' h. loop-Draws is u' h) (ui_round u i) (round-Draws u i f)

-- In a mode with 32 bits for a pixel, whatever ticks, keys, clicks and places of the mouse the rounds
-- of the desktop bring, at the end of the last round the mode is what it was, and no word past the
-- framebuffer's pixels has changed.
pub ui_run-Draws :
    (s : Screen) (console : Console) (inputs : List Inputs)
    → IsMode s
    → Draws s (state (ui_run s console inputs)).screen
unfolding ui_run ui_start
ui_run-Draws s console inputs v =
    let cleared = drawn (clear-Draws s 0x202030 v) in
    let desk =
      icons-Draws v icons 0 (draw_term_win (draw_bar (video_clear s 0x202030))) (omega arith)
        (window-Draws v term_win 0x101018 0x404860 0xFFFFFF 0 refl (bar-Draws v cleared)) in
    let graphic : Ui = record {
      screen = draw_icons (draw_term_win (draw_bar (video_clear s 0x202030))) icons 0;
      console = console;
      menu_open = false;
      last_tick = 0;
    } in
    let plain : Ui = record {
      screen = s;
      console = kclear console;
      menu_open = false;
      last_tick = 0;
    } in
    let start : DrawnUi v (ui_start s console) =
      if_elim (DrawnUi v) s.available graphic plain (λ _. desk) (λ _. drawn (Draws-refl s)) in
    Draws-Drawn (loop-Draws v inputs (ui_start s console) start)
