-- ===== src/Ui.antt =====
-- The desktop of src/kernel/ui.c, with the two calls of src/kernel/power.c that its menu makes.
mod Texts
pub mod Grid
pub mod Cells
pub mod Draws
pub mod Clock
mod Tests
use snowkernel.Base.{
  ℕ, zero, suc, ◌+◌, ◌-◌, ◌*◌, ◌/◌, ◌%◌, ◌^◌, Bool, true, false, ◌&&◌, ◌||◌, not, ◌==◌, ltb, leb,
  if◌then◌else◌, List, [], ◌∷◌, ◌++◌, Option, none, some,
}
use snowkernel.Base.Int.{ℤ, pos, negsuc, ◌+ℤ◌, lt_ℤ}
use snowkernel.Str.{Str, cstr}
use snowkernel.Input.{Poll}
use snowkernel.Kprint.{word, kvprintf, ksnprintf}
use snowkernel.Kprint.Console.{Console, kputs, kclear}
use snowkernel.Video.{
  Screen, bit_set, no_background, video_putpixel, video_fillrect, video_draw_text, video_clear,
}
use snowkernel.Ui.Texts.{
  clock_line, clock_format, menu_text, shutdown_text, reboot_text, exit_text, terminal_text,
  files_text, settings_text, info_text, bar_text, exit_fb, exit_plain, launching, shutdown_line,
}

-- `window_t`; `needs_redraw` is never read.
pub record Window : Type 0 where
  pub x : ℕ
  pub y : ℕ
  pub w : ℕ
  pub h : ℕ
  pub title : Str

abbrev pub term_win : Window
term_win = record { x = 80; y = 120; w = 640; h = 400; title = terminal_text }

-- The first two loops of `draw_window_frame`, `n` rounds from the round `d` on. The sides of a window
-- are positive.
unfoldable pub frame_rows : Window → ℕ → Screen → ℕ → ℕ → Screen
unfolding video_putpixel
frame_rows win frame s zero d = s
frame_rows win frame s (suc n) d =
    let s' = video_putpixel s (pos (win.x + d)) (pos win.y) frame in
    let s'' = video_putpixel s' (pos (win.x + d)) (pos (win.y + win.h - 1)) frame in
    frame_rows win frame s'' n (d + 1)

unfoldable pub frame_columns : Window → ℕ → Screen → ℕ → ℕ → Screen
unfolding video_putpixel
frame_columns win frame s zero d = s
frame_columns win frame s (suc n) d =
    let s' = video_putpixel s (pos win.x) (pos (win.y + d)) frame in
    let s'' = video_putpixel s' (pos (win.x + win.w - 1)) (pos (win.y + d)) frame in
    frame_columns win frame s'' n (d + 1)

unfoldable pub draw_window_frame : Screen → Window → ℕ → ℕ → ℕ → ℕ → Screen
unfolding frame_rows frame_columns video_fillrect video_draw_text
draw_window_frame s win frame title_bar title_fg bg =
    let s1 = frame_rows win frame s win.w 0 in
    let s2 = frame_columns win frame s1 win.h 0 in
    let s3 =
      video_fillrect s2 (pos (win.x + 1)) (pos (win.y + 16)) (pos win.w +ℤ negsuc 1)
        (pos win.h +ℤ negsuc 16) bg in
    let s4 =
      video_fillrect s3 (pos (win.x + 1)) (pos (win.y + 1)) (pos win.w +ℤ negsuc 1) (pos 14)
        title_bar in
    video_draw_text s4 (pos (win.x + 6)) (pos (win.y + 3)) win.title title_fg no_background

unfoldable pub draw_menu_dropdown : Screen → Bool → Screen
unfolding video_fillrect video_draw_text
draw_menu_dropdown s false = s
draw_menu_dropdown s true =
    let s1 = video_fillrect s (pos 0) (pos 24) (pos 140) (pos 90) 0x2A2A40 in
    let s2 = video_draw_text s1 (pos 8) (pos 30) menu_text 0xFFFFFF 0x2A2A40 in
    let s3 = video_draw_text s2 (pos 8) (pos 46) shutdown_text 0xCCCCCC 0x2A2A40 in
    let s4 = video_draw_text s3 (pos 8) (pos 62) reboot_text 0xCCCCCC 0x2A2A40 in
    video_draw_text s4 (pos 8) (pos 78) exit_text 0xCCCCCC 0x2A2A40

-- The bar and its texts, which three places draw alike.
unfoldable pub draw_bar : Screen → Screen
unfolding video_fillrect video_draw_text
draw_bar s =
    let s1 = video_fillrect s (pos 0) (pos 0) (pos s.width) (pos 24) 0x303860 in
    let s2 = video_fillrect s1 (pos 0) (pos 0) (pos 60) (pos 24) 0x404880 in
    let s3 = video_draw_text s2 (pos 8) (pos 4) menu_text 0xFFFFFF 0x404880 in
    video_draw_text s3 (pos 80) (pos 4) bar_text 0xFFFFFF 0x303860

abbrev pub draw_term_win : Screen → Screen
draw_term_win s = draw_window_frame s term_win 0x101018 0x404860 0xFFFFFF 0

-- The loop over `icons` from the icon `i` on: all four stand in one row.
unfoldable pub draw_icons : Screen → List Str → ℕ → Screen
unfolding video_fillrect video_draw_text
draw_icons s [] i = s
draw_icons s (icon ∷ icons) i =
    let x = 16 + i % 4 * 80 in
    let y = 40 + i / 4 * 64 in
    let s1 = video_fillrect s (pos x) (pos y) (pos 64) (pos 48) 0x383838 in
    draw_icons (video_draw_text s1 (pos (x + 8)) (pos (y + 16)) icon 0xE0E0E0 0x383838) icons
      (i + 1)

abbrev pub icons : List Str
icons = terminal_text ∷ files_text ∷ settings_text ∷ info_text ∷ []

-- The arrow: 12 rows of 16 bits, the highest bit first.
abbrev pub pattern_rows : List ℕ
pattern_rows =
    0x8000 ∷ 0xC000 ∷ 0xE000 ∷ 0xF000 ∷ 0xF800 ∷ 0xFC00 ∷ 0xFE00 ∷ 0xFF00 ∷ 0xFF80 ∷ 0xF800 ∷ 0xD800
    ∷ 0x8800 ∷ []

unfoldable pub arrow_row : Screen → ℤ → ℤ → ℕ → ℕ → ℕ → Screen
unfolding video_putpixel
arrow_row s x y bits zero b = s
arrow_row s x y bits (suc n) b =
    let s' = if bit_set bits (15 - b) then video_putpixel s (x +ℤ pos b) y 0xFFFFFF else s in
    arrow_row s' x y bits n (b + 1)

unfoldable pub arrow_rows : Screen → ℤ → ℤ → List ℕ → ℕ → Screen
unfolding arrow_row
arrow_rows s x y [] r = s
arrow_rows s x y (bits ∷ rows) r =
    arrow_rows (arrow_row s x (y +ℤ pos r) bits 16 0) x y rows (r + 1)

-- What `ui_run` keeps between the rounds of its loop, with the text screen.
pub record Ui : Type 0 where
  pub screen : Screen
  pub console : Console
  pub menu_open : Bool
  pub last_tick : ℕ

-- What one round reads: the time, the keyboard, and the mouse.
pub record Inputs : Type 0 where
  pub ticks : ℕ
  pub key : Poll
  pub cx : ℤ
  pub cy : ℤ
  pub buttons : ℕ

abbrev or_empty : Option Str → Str
or_empty none = []
or_empty (some s) = s

-- The characters that `kprintf` puts out.
unfoldable pub update_clock : Console → ℕ → Console
unfolding kvprintf
update_clock s t =
    let seconds = t / 100 in
    let mins = seconds / 60 in
    let hrs = mins / 60 in
    kputs s
      (or_empty (kvprintf clock_line (word hrs ∷ word (mins % 60) ∷ word (seconds % 60) ∷ [])))

abbrev stored : Option (List ℕ × ℕ) → Str
stored none = []
stored (some (bytes, n)) = cstr bytes

-- The text of `buf`.
unfoldable pub clock_text : ℕ → Str
unfolding ksnprintf
clock_text ticks =
    let t = ticks / 100 in
    stored (ksnprintf 64 clock_format (word (t / 3600) ∷ word (t / 60 % 60) ∷ word (t % 60) ∷ []))

-- Numbers of 64 bits.
abbrev pub minus : ℕ → ℕ → ℕ
minus a b = (a + 2 ^ 64 - b) % 2 ^ 64

-- The part of a round that shows the time, once in 100 ticks.
unfoldable pub show_time : Ui → ℕ → Ui
unfolding video_fillrect video_draw_text clock_text update_clock
show_time u ticks =
    let bar = video_fillrect u.screen (pos 300) (pos 0) (pos 120) (pos 24) 0x303860 in
    let shown =
      if u.screen.available
      then record u {
        screen = video_draw_text bar (pos 300) (pos 4) (clock_text ticks) 0xFFFFFF 0x303860;
      }
      else record u { console = update_clock u.console ticks } in
    if leb 100 (minus ticks u.last_tick)
    then record shown { last_tick = minus ticks (minus ticks u.last_tick % 100) }
    else u

-- The menu is opened or closed, and the bar, the window and the menu are drawn.
unfoldable pub toggle_menu : Ui → Ui
unfolding draw_bar draw_window_frame draw_menu_dropdown
toggle_menu u =
    let opened = not u.menu_open in
    record u {
      menu_open = opened;
      screen = draw_menu_dropdown (draw_term_win (draw_bar u.screen)) opened;
    }

-- `power_shutdown`, which returns; the second byte of the number is lost on the port.
unfoldable pub power_shutdown : Console → Console
unfolding kputs
power_shutdown s =
    let s' = kputs s shutdown_line in record s' { ports = s'.ports ++ (0xB004, 0x2000 % 256) ∷ [] }

-- How a round ends: the loop goes on, or `ui_run` returns, or it is in `power_reboot` or `shell_run`,
-- which do not return.
pub data Outcome : Type 0 where
  goes_on : Ui → Outcome
  exits : Ui → Outcome
  reboots : Ui → Outcome
  runs_shell : Ui → Outcome

abbrev pub says : Ui → Str → Ui
says u text = record u { console = kputs u.console text }

-- What follows the test for `m`.
unfoldable pub menu_key : Ui → ℕ → Outcome
unfolding power_shutdown
menu_key u v =
    if u.menu_open && v == b'2'
    then reboots u
    else let u' =
        if u.menu_open && v == b'1' then record u { console = power_shutdown u.console } else u in
      if v == b't' then runs_shell (says u' launching) else goes_on u'

unfoldable pub on_key : Ui → ℕ → Outcome
unfolding toggle_menu menu_key
on_key u v =
    if v == b'q'
    then exits (says u (if u.screen.available then exit_fb else exit_plain))
    else menu_key (if v == b'm' && u.screen.available then toggle_menu u else u) v

-- The click on the menu button, at the end of a round.
unfoldable pub on_click : Ui → Inputs → Ui
unfolding toggle_menu
on_click u i =
    if u.screen.available && i.buttons % 2 == 1 && lt_ℤ i.cy (pos 24) && lt_ℤ i.cx (pos 60)
    then toggle_menu u
    else u

abbrev pub draw_arrow : Ui → Inputs → Ui
draw_arrow u i =
    if u.screen.available
    then record u { screen = arrow_rows u.screen i.cx i.cy pattern_rows 0 }
    else u

unfoldable pub clicked : Outcome → Inputs → Outcome
unfolding on_click
clicked (goes_on u) i = goes_on (on_click u i)
clicked (exits u) i = exits u
clicked (reboots u) i = reboots u
clicked (runs_shell u) i = runs_shell u

unfoldable pub ui_round : Ui → Inputs → Outcome
unfolding arrow_rows show_time on_key clicked
ui_round u i =
    let u' = show_time (draw_arrow u i) i.ticks in
    elim i.key [ none ↦ goes_on (on_click u' i) | some v ↦ clicked (on_key u' v) i ]

-- The part of `ui_run` before its loop, the mode being set.
unfoldable pub ui_start : Screen → Console → Ui
unfolding video_clear draw_bar draw_window_frame draw_icons kclear
ui_start s console =
    let desk = draw_icons (draw_term_win (draw_bar (video_clear s 0x202030))) icons 0 in
    if s.available
    then record { screen = desk; console = console; menu_open = false; last_tick = 0 }
    else record { screen = s; console = kclear console; menu_open = false; last_tick = 0 }

-- The loop, on what its rounds read.
unfoldable pub ui_loop : Ui → List Inputs → Outcome
unfolding ui_round
ui_loop u [] = goes_on u
ui_loop u (i ∷ is) = elim (ui_round u i) [
  | goes_on u' ↦ ui_loop u' is
  | exits u' ↦ exits u'
  | reboots u' ↦ reboots u'
  | runs_shell u' ↦ runs_shell u'
]

unfoldable pub ui_run : Screen → Console → List Inputs → Outcome
unfolding ui_start ui_loop
ui_run s console inputs = ui_loop (ui_start s console) inputs
