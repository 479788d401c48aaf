-- ===== src/Kprint/Tests.antt =====
-- Tests of printing and of the text screen.
use snowkernel.Base.{◌≤◌, some, [], ◌∷◌, ◌++◌, length, take, ◌≡◌, refl, arith}
use snowkernel.Str.{Str}
use snowkernel.Kprint.{word, print_dec, print_hex, kvprintf, ksnprintf}
use snowkernel.Kprint.Digits.{read_dec, read_hex, printed-read}
use snowkernel.Kprint.Buffer.{ksnprintf-take}
use snowkernel.Kprint.Console.{Console, kputs}
use snowkernel.Kprint.Bounds.{InScreen, Stays, kputs-Stays}
use snowkernel.Kprint.Line.{IsPlain, Shows, kputs-Shows}

printed-read_example : (read_dec (print_dec 4207) ≡ 4207) × (read_hex (print_hex 4207) ≡ 4207)
printed-read_example = printed-read 4207 (omega arith)

-- `"n=%d"` with 42.
abbrev with_number : Str
with_number = b'n' ∷ b'=' ∷ b'%' ∷ b'd' ∷ []

abbrev shown : Str
shown = b'n' ∷ b'=' ∷ b'4' ∷ b'2' ∷ []

with_number-shown : kvprintf with_number (word 42 ∷ []) ≡ some shown
unfolding kvprintf
with_number-shown = refl

ksnprintf-take_example :
    (ksnprintf 4 with_number (word 42 ∷ []) ≡ some (take 3 shown ++ 0 ∷ [], length (take 3 shown)))
    × (length (take 3 shown ++ 0 ∷ []) ≤ 4)
ksnprintf-take_example =
    ksnprintf-take 4 with_number (word 42 ∷ []) shown (omega arith) with_number-shown

-- A screen with the cursor in the last row, whose cells hold their index.
abbrev screen : Console
screen = record { vga = λ i. i; cx = 3; cy = 24; color = 7; ports = [] }

screen-InScreen : InScreen screen
unfolding InScreen
screen-InScreen = (omega arith, omega arith)

abbrev text : Str
text = b'h' ∷ b'i' ∷ []

kputs-Stays_example : Stays screen (kputs screen (10 ∷ 9 ∷ text))
kputs-Stays_example = kputs-Stays screen (10 ∷ 9 ∷ text) screen-InScreen

kputs-Shows_example : Shows screen text (kputs screen text)
unfolding IsPlain
kputs-Shows_example = kputs-Shows screen text (omega arith, (omega arith, tt)) (omega arith)
