-- ===== src/Shell/Commands.antt =====
-- The names and descriptions of the builtins, as `CMDS` of src/kernel/shell.c lists them.
use snowkernel.Base.{List, [], ◌∷◌}
use snowkernel.Str.{Str}

-- `cmd_t` without the function.
pub record Cmd : Type 0 where
  pub name : Str
  pub desc : Str

abbrev help_cmd : Cmd
help_cmd = record {
  name = b'h' ∷ b'e' ∷ b'l' ∷ b'p' ∷ [];
  desc =
      b'L' ∷ b'i' ∷ b's' ∷ b't' ∷ b' ' ∷ b'c' ∷ b'o' ∷ b'm' ∷ b'm' ∷ b'a' ∷ b'n' ∷ b'd' ∷ b's' ∷ [];
}

abbrev clear_cmd : Cmd
clear_cmd = record {
  name = b'c' ∷ b'l' ∷ b'e' ∷ b'a' ∷ b'r' ∷ [];
  desc = b'C' ∷ b'l' ∷ b'e' ∷ b'a' ∷ b'r' ∷ b' ' ∷ b's' ∷ b'c' ∷ b'r' ∷ b'e' ∷ b'e' ∷ b'n' ∷ [];
}

abbrev echo_cmd : Cmd
echo_cmd = record {
  name = b'e' ∷ b'c' ∷ b'h' ∷ b'o' ∷ [];
  desc = b'P' ∷ b'r' ∷ b'i' ∷ b'n' ∷ b't' ∷ b' ' ∷ b't' ∷ b'e' ∷ b'x' ∷ b't' ∷ [];
}

abbrev cat_cmd : Cmd
cat_cmd = record {
  name = b'c' ∷ b'a' ∷ b't' ∷ [];
  desc =
      b'S' ∷ b'h' ∷ b'o' ∷ b'w' ∷ b' ' ∷ b'f' ∷ b'i' ∷ b'l' ∷ b'e' ∷ b' ' ∷ b'c' ∷ b'o' ∷ b'n'
      ∷ b't' ∷ b'e' ∷ b'n' ∷ b't' ∷ b's' ∷ [];
}

abbrev mkdir_cmd : Cmd
mkdir_cmd = record {
  name = b'm' ∷ b'k' ∷ b'd' ∷ b'i' ∷ b'r' ∷ [];
  desc =
      b'C' ∷ b'r' ∷ b'e' ∷ b'a' ∷ b't' ∷ b'e' ∷ b' ' ∷ b'd' ∷ b'i' ∷ b'r' ∷ b'e' ∷ b'c' ∷ b't'
      ∷ b'o' ∷ b'r' ∷ b'y' ∷ [];
}

abbrev cd_cmd : Cmd
cd_cmd = record {
  name = b'c' ∷ b'd' ∷ [];
  desc =
      b'C' ∷ b'h' ∷ b'a' ∷ b'n' ∷ b'g' ∷ b'e' ∷ b' ' ∷ b'd' ∷ b'i' ∷ b'r' ∷ b'e' ∷ b'c' ∷ b't'
      ∷ b'o' ∷ b'r' ∷ b'y' ∷ [];
}

abbrev ls_cmd : Cmd
ls_cmd = record {
  name = b'l' ∷ b's' ∷ [];
  desc =
      b'L' ∷ b'i' ∷ b's' ∷ b't' ∷ b' ' ∷ b'd' ∷ b'i' ∷ b'r' ∷ b'e' ∷ b'c' ∷ b't' ∷ b'o' ∷ b'r'
      ∷ b'y' ∷ [];
}

abbrev touch_cmd : Cmd
touch_cmd = record {
  name = b't' ∷ b'o' ∷ b'u' ∷ b'c' ∷ b'h' ∷ [];
  desc =
      b'C' ∷ b'r' ∷ b'e' ∷ b'a' ∷ b't' ∷ b'e' ∷ b' ' ∷ b'e' ∷ b'm' ∷ b'p' ∷ b't' ∷ b'y' ∷ b' '
      ∷ b'f' ∷ b'i' ∷ b'l' ∷ b'e' ∷ [];
}

abbrev rm_cmd : Cmd
rm_cmd = record {
  name = b'r' ∷ b'm' ∷ [];
  desc =
      b'R' ∷ b'e' ∷ b'm' ∷ b'o' ∷ b'v' ∷ b'e' ∷ b' ' ∷ b'f' ∷ b'i' ∷ b'l' ∷ b'e' ∷ b' ' ∷ b'o'
      ∷ b'r' ∷ b' ' ∷ b'e' ∷ b'm' ∷ b'p' ∷ b't' ∷ b'y' ∷ b' ' ∷ b'd' ∷ b'i' ∷ b'r' ∷ [];
}

abbrev mv_cmd : Cmd
mv_cmd = record {
  name = b'm' ∷ b'v' ∷ [];
  desc =
      b'R' ∷ b'e' ∷ b'n' ∷ b'a' ∷ b'm' ∷ b'e' ∷ b' ' ∷ b'(' ∷ b's' ∷ b'a' ∷ b'm' ∷ b'e' ∷ b' '
      ∷ b'd' ∷ b'i' ∷ b'r' ∷ b')' ∷ [];
}

abbrev cp_cmd : Cmd
cp_cmd = record {
  name = b'c' ∷ b'p' ∷ [];
  desc = b'C' ∷ b'o' ∷ b'p' ∷ b'y' ∷ b' ' ∷ b'f' ∷ b'i' ∷ b'l' ∷ b'e' ∷ [];
}

abbrev pwd_cmd : Cmd
pwd_cmd = record {
  name = b'p' ∷ b'w' ∷ b'd' ∷ [];
  desc =
      b'P' ∷ b'r' ∷ b'i' ∷ b'n' ∷ b't' ∷ b' ' ∷ b'w' ∷ b'o' ∷ b'r' ∷ b'k' ∷ b'i' ∷ b'n' ∷ b'g'
      ∷ b' ' ∷ b'd' ∷ b'i' ∷ b'r' ∷ b'e' ∷ b'c' ∷ b't' ∷ b'o' ∷ b'r' ∷ b'y' ∷ [];
}

abbrev keymap_cmd : Cmd
keymap_cmd = record {
  name = b'k' ∷ b'e' ∷ b'y' ∷ b'm' ∷ b'a' ∷ b'p' ∷ [];
  desc =
      b'G' ∷ b'e' ∷ b't' ∷ b'/' ∷ b'S' ∷ b'e' ∷ b't' ∷ b' ' ∷ b'k' ∷ b'e' ∷ b'y' ∷ b'm' ∷ b'a'
      ∷ b'p' ∷ [];
}

abbrev edit_cmd : Cmd
edit_cmd = record {
  name = b'e' ∷ b'd' ∷ b'i' ∷ b't' ∷ [];
  desc = b'E' ∷ b'd' ∷ b'i' ∷ b't' ∷ b' ' ∷ b'f' ∷ b'i' ∷ b'l' ∷ b'e' ∷ [];
}

abbrev env_cmd : Cmd
env_cmd = record {
  name = b'e' ∷ b'n' ∷ b'v' ∷ [];
  desc =
      b'L' ∷ b'i' ∷ b's' ∷ b't' ∷ b' ' ∷ b'e' ∷ b'n' ∷ b'v' ∷ b'i' ∷ b'r' ∷ b'o' ∷ b'n' ∷ b'm'
      ∷ b'e' ∷ b'n' ∷ b't' ∷ [];
}

abbrev set_cmd : Cmd
set_cmd = record {
  name = b's' ∷ b'e' ∷ b't' ∷ [];
  desc =
      b'S' ∷ b'e' ∷ b't' ∷ b' ' ∷ b'N' ∷ b'A' ∷ b'M' ∷ b'E' ∷ b'=' ∷ b'V' ∷ b'A' ∷ b'L' ∷ b'U'
      ∷ b'E' ∷ [];
}

abbrev unset_cmd : Cmd
unset_cmd = record {
  name = b'u' ∷ b'n' ∷ b's' ∷ b'e' ∷ b't' ∷ [];
  desc = b'U' ∷ b'n' ∷ b's' ∷ b'e' ∷ b't' ∷ b' ' ∷ b'N' ∷ b'A' ∷ b'M' ∷ b'E' ∷ [];
}

abbrev exit_cmd : Cmd
exit_cmd = record {
  name = b'e' ∷ b'x' ∷ b'i' ∷ b't' ∷ [];
  desc = b'E' ∷ b'x' ∷ b'i' ∷ b't' ∷ b' ' ∷ b's' ∷ b'h' ∷ b'e' ∷ b'l' ∷ b'l' ∷ [];
}

abbrev export_cmd : Cmd
export_cmd = record {
  name = b'e' ∷ b'x' ∷ b'p' ∷ b'o' ∷ b'r' ∷ b't' ∷ [];
  desc =
      b'E' ∷ b'x' ∷ b'p' ∷ b'o' ∷ b'r' ∷ b't' ∷ b' ' ∷ b'N' ∷ b'A' ∷ b'M' ∷ b'E' ∷ b'=' ∷ b'V'
      ∷ b'A' ∷ b'L' ∷ b'U' ∷ b'E' ∷ [];
}

abbrev hw_cmd : Cmd
hw_cmd = record {
  name = b'h' ∷ b'w' ∷ [];
  desc = b'K' ∷ b'e' ∷ b'r' ∷ b'n' ∷ b'e' ∷ b'l' ∷ b' ' ∷ b'i' ∷ b'n' ∷ b'f' ∷ b'o' ∷ [];
}

abbrev free_cmd : Cmd
free_cmd = record {
  name = b'f' ∷ b'r' ∷ b'e' ∷ b'e' ∷ [];
  desc = b'M' ∷ b'e' ∷ b'm' ∷ b'o' ∷ b'r' ∷ b'y' ∷ b' ' ∷ b'u' ∷ b's' ∷ b'a' ∷ b'g' ∷ b'e' ∷ [];
}

abbrev ui_cmd : Cmd
ui_cmd = record {
  name = b'u' ∷ b'i' ∷ [];
  desc =
      b'L' ∷ b'a' ∷ b'u' ∷ b'n' ∷ b'c' ∷ b'h' ∷ b' ' ∷ b's' ∷ b'i' ∷ b'm' ∷ b'p' ∷ b'l' ∷ b'e'
      ∷ b' ' ∷ b'U' ∷ b'I' ∷ [];
}

abbrev pub cmds : List Cmd
cmds =
    help_cmd ∷ clear_cmd ∷ echo_cmd ∷ cat_cmd ∷ mkdir_cmd ∷ cd_cmd ∷ ls_cmd ∷ touch_cmd ∷ rm_cmd
    ∷ mv_cmd ∷ cp_cmd ∷ pwd_cmd ∷ keymap_cmd ∷ edit_cmd ∷ env_cmd ∷ set_cmd ∷ unset_cmd ∷ exit_cmd
    ∷ export_cmd ∷ hw_cmd ∷ free_cmd ∷ ui_cmd ∷ []
