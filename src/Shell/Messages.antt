-- ===== src/Shell/Messages.antt =====
-- The texts that the builtins of src/kernel/shell.c put out.
use snowkernel.Base.{[], ◌∷◌}
use snowkernel.Str.{Str}

abbrev pub not_a_file : Str
not_a_file = b'n' ∷ b'o' ∷ b't' ∷ b' ' ∷ b'a' ∷ b' ' ∷ b'f' ∷ b'i' ∷ b'l' ∷ b'e' ∷ 10 ∷ []

abbrev pub usage_mkdir : Str
usage_mkdir =
    b'u' ∷ b's' ∷ b'a' ∷ b'g' ∷ b'e' ∷ b':' ∷ b' ' ∷ b'm' ∷ b'k' ∷ b'd' ∷ b'i' ∷ b'r' ∷ b' ' ∷ b'<'
    ∷ b'n' ∷ b'a' ∷ b'm' ∷ b'e' ∷ b'>' ∷ 10 ∷ []

abbrev pub error : Str
error = b'e' ∷ b'r' ∷ b'r' ∷ b'o' ∷ b'r' ∷ 10 ∷ []

abbrev pub no_such_dir : Str
no_such_dir = b'n' ∷ b'o' ∷ b' ' ∷ b's' ∷ b'u' ∷ b'c' ∷ b'h' ∷ b' ' ∷ b'd' ∷ b'i' ∷ b'r' ∷ 10 ∷ []

abbrev pub usage_touch : Str
usage_touch =
    b'u' ∷ b's' ∷ b'a' ∷ b'g' ∷ b'e' ∷ b':' ∷ b' ' ∷ b't' ∷ b'o' ∷ b'u' ∷ b'c' ∷ b'h' ∷ b' ' ∷ b'<'
    ∷ b'n' ∷ b'a' ∷ b'm' ∷ b'e' ∷ b'>' ∷ 10 ∷ []

abbrev pub usage_rm : Str
usage_rm =
    b'u' ∷ b's' ∷ b'a' ∷ b'g' ∷ b'e' ∷ b':' ∷ b' ' ∷ b'r' ∷ b'm' ∷ b' ' ∷ b'<' ∷ b'n' ∷ b'a' ∷ b'm'
    ∷ b'e' ∷ b'>' ∷ 10 ∷ []

abbrev pub no_such_entry : Str
no_such_entry =
    b'n' ∷ b'o' ∷ b' ' ∷ b's' ∷ b'u' ∷ b'c' ∷ b'h' ∷ b' ' ∷ b'e' ∷ b'n' ∷ b't' ∷ b'r' ∷ b'y' ∷ 10
    ∷ []

abbrev pub not_empty : Str
not_empty = b'n' ∷ b'o' ∷ b't' ∷ b' ' ∷ b'e' ∷ b'm' ∷ b'p' ∷ b't' ∷ b'y' ∷ 10 ∷ []

abbrev pub fail : Str
fail = b'f' ∷ b'a' ∷ b'i' ∷ b'l' ∷ 10 ∷ []

abbrev pub usage_mv : Str
usage_mv =
    b'u' ∷ b's' ∷ b'a' ∷ b'g' ∷ b'e' ∷ b':' ∷ b' ' ∷ b'm' ∷ b'v' ∷ b' ' ∷ b'<' ∷ b'o' ∷ b'l' ∷ b'd'
    ∷ b'>' ∷ b' ' ∷ b'<' ∷ b'n' ∷ b'e' ∷ b'w' ∷ b'>' ∷ 10 ∷ []

abbrev pub target_exists : Str
target_exists =
    b't' ∷ b'a' ∷ b'r' ∷ b'g' ∷ b'e' ∷ b't' ∷ b' ' ∷ b'e' ∷ b'x' ∷ b'i' ∷ b's' ∷ b't' ∷ b's' ∷ 10
    ∷ []

abbrev pub usage_cp : Str
usage_cp =
    b'u' ∷ b's' ∷ b'a' ∷ b'g' ∷ b'e' ∷ b':' ∷ b' ' ∷ b'c' ∷ b'p' ∷ b' ' ∷ b'<' ∷ b's' ∷ b'r' ∷ b'c'
    ∷ b'>' ∷ b' ' ∷ b'<' ∷ b'd' ∷ b's' ∷ b't' ∷ b'>' ∷ 10 ∷ []

abbrev pub no_such_file : Str
no_such_file =
    b'n' ∷ b'o' ∷ b' ' ∷ b's' ∷ b'u' ∷ b'c' ∷ b'h' ∷ b' ' ∷ b'f' ∷ b'i' ∷ b'l' ∷ b'e' ∷ 10 ∷ []

abbrev pub redir_error : Str
redir_error = b'r' ∷ b'e' ∷ b'd' ∷ b'i' ∷ b'r' ∷ b' ' ∷ b'e' ∷ b'r' ∷ b'r' ∷ b'o' ∷ b'r' ∷ 10 ∷ []

abbrev pub usage_edit : Str
usage_edit =
    b'u' ∷ b's' ∷ b'a' ∷ b'g' ∷ b'e' ∷ b':' ∷ b' ' ∷ b'e' ∷ b'd' ∷ b'i' ∷ b't' ∷ b' ' ∷ b'<' ∷ b'f'
    ∷ b'i' ∷ b'l' ∷ b'e' ∷ b'>' ∷ 10 ∷ []

abbrev pub cannot_open : Str
cannot_open = b'c' ∷ b'a' ∷ b'n' ∷ b'n' ∷ b'o' ∷ b't' ∷ b' ' ∷ b'o' ∷ b'p' ∷ b'e' ∷ b'n' ∷ 10 ∷ []

abbrev pub editing : Str
editing =
    b'-' ∷ b'-' ∷ b' ' ∷ b'e' ∷ b'd' ∷ b'i' ∷ b't' ∷ b'i' ∷ b'n' ∷ b'g' ∷ b' ' ∷ b'(' ∷ b'\'' ∷ b'.'
    ∷ b'\'' ∷ b' ' ∷ b'a' ∷ b'l' ∷ b'o' ∷ b'n' ∷ b'e' ∷ b' ' ∷ b't' ∷ b'o' ∷ b' ' ∷ b's' ∷ b'a'
    ∷ b'v' ∷ b'e' ∷ b',' ∷ b' ' ∷ b'\'' ∷ b'!' ∷ b'q' ∷ b'\'' ∷ b' ' ∷ b't' ∷ b'o' ∷ b' ' ∷ b'a'
    ∷ b'b' ∷ b'o' ∷ b'r' ∷ b't' ∷ b')' ∷ b' ' ∷ b'-' ∷ b'-' ∷ 10 ∷ []

abbrev pub aborted : Str
aborted = b'(' ∷ b'a' ∷ b'b' ∷ b'o' ∷ b'r' ∷ b't' ∷ b'e' ∷ b'd' ∷ b')' ∷ 10 ∷ []

abbrev pub saved_text : Str
saved_text = b'(' ∷ b's' ∷ b'a' ∷ b'v' ∷ b'e' ∷ b'd' ∷ b')' ∷ 10 ∷ []

abbrev pub buffer_full : Str
buffer_full =
    b'(' ∷ b'b' ∷ b'u' ∷ b'f' ∷ b'f' ∷ b'e' ∷ b'r' ∷ b' ' ∷ b'f' ∷ b'u' ∷ b'l' ∷ b'l' ∷ b')' ∷ 10
    ∷ []

abbrev pub usage_set : Str
usage_set =
    b'u' ∷ b's' ∷ b'a' ∷ b'g' ∷ b'e' ∷ b':' ∷ b' ' ∷ b's' ∷ b'e' ∷ b't' ∷ b' ' ∷ b'N' ∷ b'A' ∷ b'M'
    ∷ b'E' ∷ b'=' ∷ b'V' ∷ b'A' ∷ b'L' ∷ b'U' ∷ b'E' ∷ 10 ∷ []

abbrev pub set_failed : Str
set_failed = b's' ∷ b'e' ∷ b't' ∷ b' ' ∷ b'f' ∷ b'a' ∷ b'i' ∷ b'l' ∷ b'e' ∷ b'd' ∷ 10 ∷ []

abbrev pub usage_unset : Str
usage_unset =
    b'u' ∷ b's' ∷ b'a' ∷ b'g' ∷ b'e' ∷ b':' ∷ b' ' ∷ b'u' ∷ b'n' ∷ b's' ∷ b'e' ∷ b't' ∷ b' ' ∷ b'N'
    ∷ b'A' ∷ b'M' ∷ b'E' ∷ 10 ∷ []

abbrev pub unset_failed : Str
unset_failed =
    b'u' ∷ b'n' ∷ b's' ∷ b'e' ∷ b't' ∷ b' ' ∷ b'f' ∷ b'a' ∷ b'i' ∷ b'l' ∷ b'e' ∷ b'd' ∷ 10 ∷ []

abbrev pub usage_export : Str
usage_export =
    b'u' ∷ b's' ∷ b'a' ∷ b'g' ∷ b'e' ∷ b':' ∷ b' ' ∷ b'e' ∷ b'x' ∷ b'p' ∷ b'o' ∷ b'r' ∷ b't' ∷ b' '
    ∷ b'V' ∷ b'A' ∷ b'R' ∷ b'=' ∷ b'v' ∷ b'a' ∷ b'l' ∷ b'u' ∷ b'e' ∷ 10 ∷ []

abbrev pub export_failed : Str
export_failed =
    b'e' ∷ b'x' ∷ b'p' ∷ b'o' ∷ b'r' ∷ b't' ∷ b' ' ∷ b'f' ∷ b'a' ∷ b'i' ∷ b'l' ∷ b'e' ∷ b'd' ∷ 10
    ∷ []

abbrev pub usage_keymap : Str
usage_keymap =
    b'u' ∷ b's' ∷ b'a' ∷ b'g' ∷ b'e' ∷ b':' ∷ b' ' ∷ b'k' ∷ b'e' ∷ b'y' ∷ b'm' ∷ b'a' ∷ b'p' ∷ b' '
    ∷ b'[' ∷ b'u' ∷ b's' ∷ b'|' ∷ b'd' ∷ b'v' ∷ b'o' ∷ b'r' ∷ b'a' ∷ b'k' ∷ b'|' ∷ b'f' ∷ b'i'
    ∷ b']' ∷ 10 ∷ []

abbrev pub keymap_is : Str
keymap_is = b'k' ∷ b'e' ∷ b'y' ∷ b'm' ∷ b'a' ∷ b'p' ∷ b':' ∷ b' ' ∷ []

abbrev pub us_text : Str
us_text = b'u' ∷ b's' ∷ []

abbrev pub dvorak_text : Str
dvorak_text = b'd' ∷ b'v' ∷ b'o' ∷ b'r' ∷ b'a' ∷ b'k' ∷ []

abbrev pub fi_text : Str
fi_text = b'f' ∷ b'i' ∷ []

abbrev pub cannot_open_input : Str
cannot_open_input =
    b'c' ∷ b'a' ∷ b'n' ∷ b'n' ∷ b'o' ∷ b't' ∷ b' ' ∷ b'o' ∷ b'p' ∷ b'e' ∷ b'n' ∷ b' ' ∷ b'i' ∷ b'n'
    ∷ b'p' ∷ b'u' ∷ b't' ∷ b' ' ∷ b'f' ∷ b'i' ∷ b'l' ∷ b'e' ∷ 10 ∷ []

abbrev pub cannot_open_output : Str
cannot_open_output =
    b'c' ∷ b'a' ∷ b'n' ∷ b'n' ∷ b'o' ∷ b't' ∷ b' ' ∷ b'o' ∷ b'p' ∷ b'e' ∷ b'n' ∷ b' ' ∷ b'o' ∷ b'u'
    ∷ b't' ∷ b'p' ∷ b'u' ∷ b't' ∷ b' ' ∷ b'f' ∷ b'i' ∷ b'l' ∷ b'e' ∷ 10 ∷ []

abbrev pub command_not_found : Str
command_not_found =
    b'c' ∷ b'o' ∷ b'm' ∷ b'm' ∷ b'a' ∷ b'n' ∷ b'd' ∷ b' ' ∷ b'n' ∷ b'o' ∷ b't' ∷ b' ' ∷ b'f' ∷ b'o'
    ∷ b'u' ∷ b'n' ∷ b'd' ∷ 10 ∷ []

abbrev pub path_text : Str
path_text = b'P' ∷ b'A' ∷ b'T' ∷ b'H' ∷ []

abbrev pub bin_text : Str
bin_text = b'/' ∷ b'b' ∷ b'i' ∷ b'n' ∷ []

abbrev pub hw_text : Str
hw_text =
    b'k' ∷ b'e' ∷ b'r' ∷ b'n' ∷ b'e' ∷ b'l' ∷ b':' ∷ b' ' ∷ b'S' ∷ b'n' ∷ b'o' ∷ b'w' ∷ b'K' ∷ b'e'
    ∷ b'r' ∷ b'n' ∷ b'e' ∷ b'l' ∷ b' ' ∷ b'0' ∷ b'.' ∷ b'1' ∷ 10 ∷ b'a' ∷ b'r' ∷ b'c' ∷ b'h' ∷ b':'
    ∷ b' ' ∷ b'i' ∷ b'3' ∷ b'8' ∷ b'6' ∷ 10 ∷ b'v' ∷ b'i' ∷ b'd' ∷ b'e' ∷ b'o' ∷ b':' ∷ b' ' ∷ b't'
    ∷ b'e' ∷ b'x' ∷ b't' ∷ b' ' ∷ b'%' ∷ b'd' ∷ b'x' ∷ b'%' ∷ b'd' ∷ 10 ∷ []

abbrev pub free_text : Str
free_text =
    b'n' ∷ b'o' ∷ b'd' ∷ b'e' ∷ b's' ∷ b':' ∷ b' ' ∷ b'%' ∷ b'u' ∷ b' ' ∷ b'u' ∷ b's' ∷ b'e' ∷ b'd'
    ∷ b':' ∷ b' ' ∷ b'%' ∷ b'u' ∷ b' ' ∷ b'a' ∷ b'r' ∷ b'e' ∷ b'n' ∷ b'a' ∷ b':' ∷ b' ' ∷ b'%'
    ∷ b'u' ∷ b'/' ∷ b'%' ∷ b'u' ∷ 10 ∷ []
