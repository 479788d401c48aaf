-- ===== src/Shell/Edit.antt =====
-- `builtin_edit` of src/kernel/shell.c, on what the polls of the keyboard bring.
use snowkernel.Base.{
  ℕ, zero, suc, ◌+◌, false, ◌==◌, leb, if◌then◌else◌, List, [], ◌∷◌, ◌++◌, Option, none, some,
  length,
}
use snowkernel.Str.{Str, str_eq}
use snowkernel.Fs.Defs.{Fs}
use snowkernel.Fs.Ops.{fs_create_file}
use snowkernel.Fs.Data.{Memory, fs_write}
use snowkernel.Input.{Poll, kbd_read_line}
use snowkernel.Shell.Messages.{usage_edit, cannot_open, editing, aborted, saved_text, buffer_full}
use snowkernel.Fs.Path.{first}
use snowkernel.Shell.Builtins.{Session, say, with_bytes}

-- How the editor ends: the text of `tmpbuf` that is written, or nothing where the editing is aborted,
-- the characters put out, and what the polls bring afterwards.
pub record Edited : Type 0 where
  pub saved : Option Str
  pub shown : List ℕ
  pub rest : List Poll

-- One round of the editor's loop after a line: it goes on with `tmpbuf`, or it ends.
pub data Round : Type 0 where
  more : Str → Round
  done : Option Str → Str → Round

unfoldable pub edit_line : Str → Str → Round
unfolding str_eq
edit_line tmpbuf line =
    if length line == 0
    then more tmpbuf
    else if str_eq line (b'!' ∷ b'q' ∷ [])
    then done none aborted
    else if str_eq line (b'.' ∷ [])
    then done (some tmpbuf) saved_text
    else if leb 4096 (length tmpbuf + length line + 1)
    then done (some tmpbuf) buffer_full
    else more (tmpbuf ++ line ++ 10 ∷ [])

-- The loop, `out` being what was put out so far. It is `none` where the polls hold no further line, and
-- the editor waits; each line takes a poll, so fuel above their number is enough.
unfoldable pub edit_loop : ℕ → Str → List ℕ → List Poll → Option Edited
unfolding kbd_read_line edit_line
edit_loop zero tmpbuf out polls = none
edit_loop (suc fuel) tmpbuf out polls = elim (kbd_read_line 256 polls) [
  | none ↦ none
  | some r ↦ elim (edit_line tmpbuf r.text) [
    | more tmpbuf' ↦ edit_loop fuel tmpbuf' (out ++ r.echoed) r.rest
    | done saved text ↦
        some (record { saved = saved; shown = (out ++ r.echoed) ++ text; rest = r.rest })
  ]
]

-- `tmpbuf` is written to the file `n`; `tmp_at` is its address.
unfoldable pub save_text : Fs → Memory → ℕ → ℕ → Option Str → Fs
unfolding fs_write
save_text s mem tmp_at n none = s
save_text s mem tmp_at n (some text) =
    (fs_write s (with_bytes mem tmp_at text) (some n) tmp_at (length text) false).1

-- The part of `builtin_edit` behind `fs_create_file`, on what that gave.
unfoldable pub edit_opened :
    Session → Memory → ℕ → List Poll → Option ℕ × Fs → Option (Session × List Poll)
unfolding edit_loop save_text
edit_opened s mem tmp_at polls opened = elim opened.0 [
  | none ↦ some (say (record s { fs = opened.1 }) cannot_open, polls)
  | some n ↦ elim (edit_loop (length polls + 1) [] [] polls) [
    | none ↦ none
    | some e ↦ some (
      record { fs = save_text opened.1 mem tmp_at n e.saved; out = (s.out ++ editing) ++ e.shown },
      e.rest,
    )
  ]
]

unfoldable pub builtin_edit : Session → Memory → ℕ → Str → List Poll → Option (Session × List Poll)
unfolding fs_create_file edit_opened
builtin_edit s mem tmp_at args polls =
    if first args == 0
    then some (say s usage_edit, polls)
    else edit_opened s mem tmp_at polls (fs_create_file s.fs (some s.fs.cwd) args)
