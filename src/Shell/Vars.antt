-- ===== src/Shell/Vars.antt =====
-- The builtins of src/kernel/shell.c on variables, the keyboard layout and the state of the kernel.
use snowkernel.Base.{
  ℕ, zero, suc, ◌+◌, ◌*◌, ◌==◌, if◌then◌else◌, List, [], ◌∷◌, ◌++◌, Option, none, some, take, drop,
}
use snowkernel.Base.Int.{ℤ, is_zero}
use snowkernel.Str.{Str, cstr, str_eq, kstrchr, kstrcpy, kstrcat}
use snowkernel.Fs.Defs.{Fs}
use snowkernel.Fs.Ops.{fs_stats}
use snowkernel.Fs.Path.{first}
use snowkernel.Env.{Env, env_set, env_unset, env_sector}
use snowkernel.Keymap.{Keymap, keymap_set_layout, keymap_get_layout}
use snowkernel.Kprint.{word, kvprintf}
use snowkernel.Shell.Commands.{Cmd, cmds}
use snowkernel.Shell.Cwd.{get_cwd_path}
use snowkernel.Shell.Messages.{
  usage_set, set_failed, usage_unset, unset_failed, usage_export, export_failed, usage_keymap,
  keymap_is, us_text, dvorak_text, fi_text, hw_text, free_text,
}

-- The variables, the characters put out, and the sectors that `env_save` handed to the disk, in order.
pub record Variables : Type 0 where
  pub env : Env
  pub out : List ℕ
  pub sectors : List (List ℕ)

abbrev say_env : Variables → Str → Variables
say_env s text = record s { out = s.out ++ text }

-- `env_list` with a callback that prints the entry in a line, from the entry `i` on, `n` entries.
unfoldable pub env_list : (ℕ → List ℕ) → ℕ → ℕ → Str
env_list store zero i = []
env_list store (suc n) i = cstr (store i) ++ 10 ∷ env_list store n (i + 1)

unfoldable pub builtin_env : Variables → Variables
unfolding env_list
builtin_env s = say_env s (env_list s.env.env_store s.env.env_count 0)

-- What the three builtins do with a result: a message, or the variables are saved.
unfoldable pub saved_or : Variables → Str → ℤ × Env → Variables
unfolding env_sector
saved_or s text (r, env') =
    let s' = record s { env = env' } in
    if is_zero r then record s' { sectors = s.sectors ++ env_sector env' ∷ [] } else say_env s' text

unfoldable pub builtin_set : Variables → Str → Variables
unfolding env_set saved_or
builtin_set s args =
    if first args == 0
    then say_env s usage_set
    else saved_or s set_failed (env_set s.env (some args))

unfoldable pub builtin_unset : Variables → Str → Variables
unfolding env_unset saved_or
builtin_unset s args =
    if first args == 0
    then say_env s usage_unset
    else saved_or s unset_failed (env_unset s.env args)

-- `buf` of `builtin_export`, for an argument with its first `=` at `eq`; it has 256 bytes, which hold
-- `junk` before.
unfoldable pub export_buf : List ℕ → Str → ℕ → List ℕ
unfolding kstrcpy kstrcat
export_buf junk args eq =
    kstrcat (kstrcat (kstrcpy junk (take eq args)) (b'=' ∷ [])) (drop (eq + 1) args)

unfoldable pub builtin_export : Variables → List ℕ → Str → Variables
unfolding kstrchr export_buf env_set saved_or
builtin_export s junk args =
    if first args == 0 then say_env s usage_export else elim (kstrchr args b'=') [
      | none ↦ say_env s usage_export
      | some eq ↦ saved_or s export_failed (env_set s.env (some (export_buf junk args eq)))
    ]

-- `kbd_set_keymap` and `kbd_get_keymap` of src/drivers/keyboard.c: their numbers are those of the
-- layouts.
unfoldable pub kbd_set_keymap : Keymap → ℕ → Keymap
unfolding keymap_set_layout
kbd_set_keymap k which =
    if which == 1
    then keymap_set_layout k 1
    else if which == 2
    then keymap_set_layout k 2
    else keymap_set_layout k 0

unfoldable pub kbd_get_keymap : Keymap → ℕ
unfolding keymap_get_layout
kbd_get_keymap k = let id = keymap_get_layout k in if id == 1 then 1 else if id == 2 then 2 else 0

-- What is put out, and the keyboard afterwards.
unfoldable pub builtin_keymap : Keymap → Str → Str × Keymap
unfolding kbd_set_keymap kbd_get_keymap str_eq
builtin_keymap k args =
    let name =
      if kbd_get_keymap k == 1
      then dvorak_text
      else if kbd_get_keymap k == 2
      then fi_text
      else us_text in
    if first args == 0
    then (keymap_is ++ name ++ 10 ∷ [], k)
    else if str_eq args us_text
    then ([], kbd_set_keymap k 0)
    else if str_eq args dvorak_text
    then ([], kbd_set_keymap k 1)
    else if str_eq args fi_text
    then ([], kbd_set_keymap k 2)
    else (usage_keymap, k)

abbrev dash : Str
dash = b' ' ∷ b'-' ∷ b' ' ∷ []

-- The loop of `builtin_help`.
unfoldable pub help_lines : List Cmd → Str
help_lines [] = []
help_lines (c ∷ cs) = c.name ++ (dash ++ (c.desc ++ 10 ∷ help_lines cs))

abbrev or_empty : Option Str → Str
or_empty none = []
or_empty (some text) = text

unfoldable pub builtin_help : Str
unfolding help_lines
builtin_help = help_lines cmds

unfoldable pub builtin_hw : Str
unfolding kvprintf
builtin_hw = or_empty (kvprintf hw_text (word 80 ∷ word 25 ∷ []))

-- A `node_t` has 80 bytes.
unfoldable pub builtin_free : Fs → Str
unfolding fs_stats kvprintf
builtin_free s =
    let (nodes, used, tot) = fs_stats s in
    or_empty (kvprintf free_text (word nodes ∷ word (nodes * 80) ∷ word used ∷ word tot ∷ []))

unfoldable pub builtin_pwd : Fs → Str
unfolding get_cwd_path
builtin_pwd s = get_cwd_path s 128 ++ 10 ∷ []

unfoldable pub prompt : Fs → Str
unfolding get_cwd_path
prompt s = get_cwd_path s 128 ++ b' ' ∷ b'$' ∷ b' ' ∷ []
