-- ===== src/Input.antt =====
-- The line editors: `kbd_read_line` of src/drivers/keyboard.c, `serial_read_line` of
-- src/kernel/serial.c and `read_line_mux` of src/kernel/shell.c, on what their polls bring.
pub mod Ends
pub mod Shown
mod Tests
use snowkernel.Base.{
  ℕ, zero, suc, ◌+◌, ◌-◌, Bool, true, false, ◌||◌, ◌==◌, ltb, if◌then◌else◌, Option, none, some,
  List, [], ◌∷◌, ◌++◌, length, take,
}
use snowkernel.Str.{Str}

-- `buf` up to `i`, and the characters that were echoed.
pub record Line : Type 0 where
  pub buf : Str
  pub echo : List ℕ

abbrev pub no_line : Line
no_line = record { buf = []; echo = [] }

-- `i--` and the echo, where the line has a character.
unfoldable pub erase : Line → Line
erase l =
    if length l.buf == 0
    then l
    else record { buf = take (length l.buf - 1) l.buf; echo = l.echo ++ 8 ∷ b' ' ∷ 8 ∷ [] }

-- `buf[i++] = c` and the echo, where the buffer of `max` bytes has room.
unfoldable pub store : ℕ → ℕ → Line → Line
store max c l =
    if ltb (length l.buf) (max - 1)
    then record { buf = l.buf ++ c ∷ []; echo = l.echo ++ c ∷ [] }
    else l

-- The loop of the keyboard's editor for a tab: its test fails for good where it fails once.
unfoldable pub store_blanks : ℕ → ℕ → Line → Line
unfolding store
store_blanks max zero l = l
store_blanks max (suc n) l = store_blanks max n (store max b' ' l)

-- A line that was read: the text before its terminator, of which the length is returned, the echo,
-- and what the polls bring afterwards.
pub record Reading (E : Type 0) : Type 0 where
  pub text : Str
  pub echoed : List ℕ
  pub rest : List E

-- The endless loop of an editor, of which `key` is one round: `none` ends the line. The result is
-- `none` where what the polls bring holds no end of the line, and the loop goes on.
unfoldable pub read_loop :
    {E : Type 0} → (E → Line → Option Line) → Line → List E → Option (Reading E)
read_loop key l [] = none
read_loop key l (e ∷ es) = elim (key e l) [
  | none ↦ some (record { text = l.buf; echoed = l.echo ++ 10 ∷ []; rest = es })
  | some l' ↦ read_loop key l' es
]

-- A poll that gives a negative number is `none`.
abbrev pub Poll : Type 0
Poll = Option ℕ

unfoldable pub kbd_key : ℕ → Poll → Line → Option Line
unfolding erase store_blanks store
kbd_key max none l = some l
kbd_key max (some c) l =
    if c == 10
    then none
    else some (if c == 8 then erase l else if c == 9 then store_blanks max 4 l else store max c l)

unfoldable pub kbd_read_line : ℕ → List Poll → Option (Reading Poll)
unfolding read_loop kbd_key
kbd_read_line max polls = read_loop (kbd_key max) no_line polls

-- A return is a newline, and two codes erase.
unfoldable pub serial_key : ℕ → Poll → Line → Option Line
unfolding erase store
serial_key max none l = some l
serial_key max (some v) l =
    let c = if v == 13 then 10 else v in
    if c == 10 then none else some (if c == 8 || c == 127 then erase l else store max c l)

unfoldable pub serial_read_line : ℕ → List Poll → Option (Reading Poll)
unfolding read_loop serial_key
serial_read_line max polls = read_loop (serial_key max) no_line polls

-- A poll of `read_line_mux`, which asks the serial port and the keyboard in turn.
pub data Source : Type 0 where
  from_serial : Poll → Source
  from_kbd : Poll → Source

unfoldable pub mux_key : ℕ → Source → Line → Option Line
unfolding erase store serial_key
mux_key max (from_serial p) l = serial_key max p l
mux_key max (from_kbd none) l = some l
mux_key max (from_kbd (some c)) l =
    if c == 10 then none else some (if c == 8 then erase l else store max c l)

unfoldable pub read_line_mux : ℕ → List Source → Option (Reading Source)
unfolding read_loop mux_key
read_line_mux max polls = read_loop (mux_key max) no_line polls
