-- ===== src/Ui/Tests.antt =====
-- The desktop on a small screen.
use snowkernel.Base.{ℕ, true, false, some, List, [], ◌∷◌, ◌++◌, ◌≡◌, refl, arith}
use snowkernel.Base.Int.{pos}
use snowkernel.Kprint.Console.{Console}
use snowkernel.Video.{Screen}
use snowkernel.Video.Bounds.{Draws}
use snowkernel.Ui.{Ui, Inputs, ui_loop, ui_run}
use snowkernel.Ui.Grid.{Grid, term_putc}
use snowkernel.Ui.Cells.{Stays, term_putc-Stays}
use snowkernel.Ui.Draws.{state, ui_run-Draws}
use snowkernel.Ui.Clock.{Exits, GoesOn, QuietKey, stays_key, ui_loop-Exits}

abbrev screen : Screen
screen = record { width = 40; height = 30; pitch = 160; available = true; fb = λ i. 7 }

abbrev console : Console
console = record { vga = λ i. 0; cx = 0; cy = 0; color = 7; ports = [] }

abbrev desktop : Ui
desktop = record { screen = screen; console = console; menu_open = false; last_tick = 200 }

abbrev pressed : ℕ → Inputs
pressed c = record { ticks = 457; key = some c; cx = pos 3; cy = pos 4; buttons = 1 }

ui_run-Draws_example :
    Draws screen (state (ui_run screen console (pressed b'm' ∷ pressed b'q' ∷ []))).screen
ui_run-Draws_example =
    ui_run-Draws screen console (pressed b'm' ∷ pressed b'q' ∷ [])
      (record { rows = refl; small = omega arith })

abbrev quiet_rounds : List Inputs
quiet_rounds = pressed b'm' ∷ pressed b'1' ∷ []

ui_loop-Exits_example :
    GoesOn (ui_loop desktop quiet_rounds)
    × Exits (ui_loop desktop (quiet_rounds ++ pressed b'q' ∷ []))
    × (ui_loop desktop (quiet_rounds ++ pressed b'q' ∷ pressed b't' ∷ [])
        ≡ ui_loop desktop (quiet_rounds ++ pressed b'q' ∷ []))
unfolding stays_key QuietKey
ui_loop-Exits_example =
    ui_loop-Exits quiet_rounds (pressed b't' ∷ []) (pressed b'q') desktop (refl, (refl, tt)) refl

-- A full row in the last line.
abbrev full : Grid
full = record { cells = λ i. b'x'; term_cx = 78; term_cy = 22 }

term_putc-Stays_example : Stays full (term_putc full b'y')
term_putc-Stays_example =
    term_putc-Stays full b'y' (record { column = omega arith; row = omega arith })

wraps : (term_putc full b'y').cells 1716 ≡ b'y'
unfolding term_putc
wraps = refl
