-- ===== src/Ui/Texts.antt =====
-- The texts of src/kernel/ui.c and src/kernel/power.c.
use snowkernel.Base.{[], ◌∷◌}
use snowkernel.Str.{Str}

abbrev pub clock_line : Str
clock_line =
    13 ∷ b'[' ∷ b' ' ∷ b'S' ∷ b'n' ∷ b'o' ∷ b'w' ∷ b' ' ∷ b'U' ∷ b'I' ∷ b' ' ∷ b']' ∷ b' ' ∷ b' '
    ∷ b'T' ∷ b'i' ∷ b'm' ∷ b'e' ∷ b':' ∷ b' ' ∷ b'%' ∷ b'0' ∷ b'2' ∷ b'u' ∷ b':' ∷ b'%' ∷ b'0'
    ∷ b'2' ∷ b'u' ∷ b':' ∷ b'%' ∷ b'0' ∷ b'2' ∷ b'u' ∷ b' ' ∷ b' ' ∷ b'A' ∷ b'p' ∷ b'p' ∷ b's'
    ∷ b':' ∷ b' ' ∷ b'[' ∷ b'S' ∷ b'h' ∷ b'e' ∷ b'l' ∷ b'l' ∷ b']' ∷ b' ' ∷ b'[' ∷ b'I' ∷ b'n'
    ∷ b'f' ∷ b'o' ∷ b']' ∷ b' ' ∷ b' ' ∷ b'K' ∷ b'e' ∷ b'y' ∷ b's' ∷ b':' ∷ b' ' ∷ b'q' ∷ b'='
    ∷ b'e' ∷ b'x' ∷ b'i' ∷ b't' ∷ []

abbrev pub clock_format : Str
clock_format =
    b'%' ∷ b'0' ∷ b'2' ∷ b'u' ∷ b':' ∷ b'%' ∷ b'0' ∷ b'2' ∷ b'u' ∷ b':' ∷ b'%' ∷ b'0' ∷ b'2' ∷ b'u'
    ∷ []

abbrev pub menu_text : Str
menu_text = b'M' ∷ b'e' ∷ b'n' ∷ b'u' ∷ []

abbrev pub shutdown_text : Str
shutdown_text = b'1' ∷ b')' ∷ b' ' ∷ b'S' ∷ b'h' ∷ b'u' ∷ b't' ∷ b'd' ∷ b'o' ∷ b'w' ∷ b'n' ∷ []

abbrev pub reboot_text : Str
reboot_text = b'2' ∷ b')' ∷ b' ' ∷ b'R' ∷ b'e' ∷ b'b' ∷ b'o' ∷ b'o' ∷ b't' ∷ []

abbrev pub exit_text : Str
exit_text = b'q' ∷ b')' ∷ b' ' ∷ b'E' ∷ b'x' ∷ b'i' ∷ b't' ∷ b' ' ∷ b'U' ∷ b'I' ∷ []

abbrev pub terminal_text : Str
terminal_text = b'T' ∷ b'e' ∷ b'r' ∷ b'm' ∷ b'i' ∷ b'n' ∷ b'a' ∷ b'l' ∷ []

abbrev pub files_text : Str
files_text = b'F' ∷ b'i' ∷ b'l' ∷ b'e' ∷ b's' ∷ []

abbrev pub settings_text : Str
settings_text = b'S' ∷ b'e' ∷ b't' ∷ b't' ∷ b'i' ∷ b'n' ∷ b'g' ∷ b's' ∷ []

abbrev pub info_text : Str
info_text = b'I' ∷ b'n' ∷ b'f' ∷ b'o' ∷ []

abbrev pub bar_text : Str
bar_text =
    b'S' ∷ b'n' ∷ b'o' ∷ b'w' ∷ b' ' ∷ b'U' ∷ b'I' ∷ b' ' ∷ b'-' ∷ b' ' ∷ b'p' ∷ b'r' ∷ b'e' ∷ b's'
    ∷ b's' ∷ b' ' ∷ b'q' ∷ b' ' ∷ b't' ∷ b'o' ∷ b' ' ∷ b'e' ∷ b'x' ∷ b'i' ∷ b't' ∷ []

abbrev pub exit_fb : Str
exit_fb =
    10 ∷ b'[' ∷ b'u' ∷ b'i' ∷ b']' ∷ b' ' ∷ b'e' ∷ b'x' ∷ b'i' ∷ b't' ∷ b' ' ∷ b'(' ∷ b'f' ∷ b'b'
    ∷ b')' ∷ 10 ∷ []

abbrev pub exit_plain : Str
exit_plain = 10 ∷ b'[' ∷ b'u' ∷ b'i' ∷ b']' ∷ b' ' ∷ b'e' ∷ b'x' ∷ b'i' ∷ b't' ∷ 10 ∷ []

abbrev pub launching : Str
launching =
    10 ∷ b'[' ∷ b'u' ∷ b'i' ∷ b']' ∷ b' ' ∷ b'l' ∷ b'a' ∷ b'u' ∷ b'n' ∷ b'c' ∷ b'h' ∷ b'i' ∷ b'n'
    ∷ b'g' ∷ b' ' ∷ b'T' ∷ b'e' ∷ b'r' ∷ b'm' ∷ b'i' ∷ b'n' ∷ b'a' ∷ b'l' ∷ 10 ∷ []

abbrev pub shutdown_line : Str
shutdown_line =
    b'[' ∷ b'p' ∷ b'o' ∷ b'w' ∷ b'e' ∷ b'r' ∷ b']' ∷ b' ' ∷ b's' ∷ b'h' ∷ b'u' ∷ b't' ∷ b'd' ∷ b'o'
    ∷ b'w' ∷ b'n' ∷ b' ' ∷ b's' ∷ b't' ∷ b'u' ∷ b'b' ∷ b':' ∷ b' ' ∷ b'h' ∷ b'a' ∷ b'l' ∷ b't'
    ∷ b'i' ∷ b'n' ∷ b'g' ∷ b' ' ∷ b'C' ∷ b'P' ∷ b'U' ∷ 10 ∷ []

abbrev pub reboot_line : Str
reboot_line =
    b'[' ∷ b'p' ∷ b'o' ∷ b'w' ∷ b'e' ∷ b'r' ∷ b']' ∷ b' ' ∷ b'r' ∷ b'e' ∷ b'b' ∷ b'o' ∷ b'o' ∷ b't'
    ∷ b' ' ∷ b's' ∷ b't' ∷ b'u' ∷ b'b' ∷ b':' ∷ b' ' ∷ b't' ∷ b'r' ∷ b'i' ∷ b'g' ∷ b'g' ∷ b'e'
    ∷ b'r' ∷ b'i' ∷ b'n' ∷ b'g' ∷ b' ' ∷ b'r' ∷ b'e' ∷ b's' ∷ b'e' ∷ b't' ∷ b' ' ∷ b'v' ∷ b'i'
    ∷ b'a' ∷ b' ' ∷ b'k' ∷ b'e' ∷ b'y' ∷ b'b' ∷ b'o' ∷ b'a' ∷ b'r' ∷ b'd' ∷ b' ' ∷ b'c' ∷ b'o'
    ∷ b'n' ∷ b't' ∷ b'r' ∷ b'o' ∷ b'l' ∷ b'l' ∷ b'e' ∷ b'r' ∷ 10 ∷ []
