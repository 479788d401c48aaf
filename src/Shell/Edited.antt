-- ===== src/Shell/Edited.antt =====
-- What the editor stores of the lines that are typed.
use snowkernel.Base.{
  ℕ, zero, suc, ◌+◌, ◌≤◌, ◌<◌, true, false, ◌==◌, ne→==, if◌then◌else◌, List, [], ◌∷◌, ◌++◌, map,
  append_assoc, append-nil, none, some, length, length-append, All, ◌≡◌, ◌≢◌, refl, ap, subst, ◌∙◌,
  arith,
}
use snowkernel.Str.{Str, str_eq}
use snowkernel.Fs.Defs.{Fs, is_file, arena_size}
use snowkernel.Fs.Ops.{fs_create_file}
use snowkernel.Fs.Data.{Memory}
use snowkernel.Fs.Path.{first}
use snowkernel.Fs.Write.{IsArena, Stored, fs_write-Stored}
use snowkernel.Input.{Poll, Line, no_line, store, read_loop, kbd_key, kbd_read_line}
use snowkernel.Shell.Messages.{saved_text, editing}
use snowkernel.Shell.Builtins.{Session, with_bytes}
use snowkernel.Shell.Output.{bytes-with_bytes}
use snowkernel.Shell.Edit.{edit_line, more, edit_loop, save_text, edit_opened, builtin_edit}

-- A character that the keyboard's editor stores as it is.
abbrev pub IsPlain : ℕ → Type 0
IsPlain c = (c ≢ 8) × (c ≢ 9) × (c ≢ 10)

keys : Str → List Poll
keys line = map (λ c. some c) line

plain_key :
    (c : ℕ) (l : Line)
    → IsPlain c
    → length l.buf < 255
    → kbd_key 256 (some c) l ≡ some (record { buf = l.buf ++ c ∷ []; echo = l.echo ++ c ∷ [] })
unfolding kbd_key store
plain_key c l p h = ground (arith, p.0, p.1, p.2, h)

kbd_end : (l : Line) → kbd_key 256 (some 10) l ≡ none
unfolding kbd_key
kbd_end l = refl

read_plain :
    (line : Str) (l : Line) (rest : List Poll)
    → All IsPlain line
    → length l.buf + length line ≤ 255
    → read_loop (kbd_key 256) l (keys line ++ some 10 ∷ rest)
      ≡ some (record { text = l.buf ++ line; echoed = (l.echo ++ line) ++ 10 ∷ []; rest = rest })
unfolding keys read_loop
read_plain [] l rest p h = rw (append-nil l.buf, append-nil l.echo) (rw (kbd_end l, read_loop) refl)
read_plain (c ∷ line) l rest p h =
    let l' : Line = record { buf = l.buf ++ c ∷ []; echo = l.echo ++ c ∷ [] } in
    let more = read_plain line l' rest p.1 (omega (arith, length-append l.buf (c ∷ []), h)) in
    rw (plain_key c l p.0 (omega (arith, h)), read_loop)
      (rw (append_assoc l.buf (c ∷ []) line, append_assoc l.echo (c ∷ []) line) at more)

-- A line that the editor keeps: not empty, of at most 255 plain characters, and no command.
unfoldable pub IsTyped : Str → Type 0
IsTyped line =
    (0 < length line)
    × (length line ≤ 255)
    × All IsPlain line
    × (str_eq line (b'!' ∷ b'q' ∷ []) ≡ false)
    × (str_eq line (b'.' ∷ []) ≡ false)

-- What the keyboard brings where the lines are typed, and the text that they make.
pub type_lines : List Str → List Poll
unfolding keys
type_lines [] = []
type_lines (line ∷ lines) = keys line ++ some 10 ∷ type_lines lines

unfoldable pub joined : List Str → Str
joined [] = []
joined (line ∷ lines) = line ++ 10 ∷ joined lines

-- The line that ends the editing.
abbrev pub dot : List Poll → List Poll
dot rest = some b'.' ∷ some 10 ∷ rest

read_line :
    (line : Str) (rest : List Poll)
    → All IsPlain line
    → length line ≤ 255
    → kbd_read_line 256 (keys line ++ some 10 ∷ rest)
      ≡ some (record { text = line; echoed = line ++ 10 ∷ []; rest = rest })
unfolding kbd_read_line
read_line line rest p h = read_plain line no_line rest p (omega (arith, h))

read_dot :
    (rest : List Poll)
    → kbd_read_line 256 (dot rest)
      ≡ some (record { text = b'.' ∷ []; echoed = b'.' ∷ 10 ∷ []; rest = rest })
unfolding kbd_read_line read_loop kbd_key store
read_dot rest = refl

edit_line-typed :
    (tmp line : Str)
    → IsTyped line
    → length tmp + length line + 1 < 4096
    → edit_line tmp line ≡ more (tmp ++ line ++ 10 ∷ [])
unfolding edit_line IsTyped
edit_line-typed tmp line (some_c, h, p, abort, dot_line) room =
    ground (arith, some_c, abort, dot_line, room)

one_line :
    (fuel : ℕ) (tmp : Str) (out : List ℕ) (line : Str) (polls : List Poll)
    → IsTyped line
    → length tmp + length line + 1 < 4096
    → edit_loop (suc fuel) tmp out (keys line ++ some 10 ∷ polls)
      ≡ edit_loop fuel (tmp ++ line ++ 10 ∷ []) (out ++ (line ++ 10 ∷ [])) polls
unfolding edit_loop IsTyped
one_line fuel tmp out line polls h room =
    rw (read_line line polls h.2 h.1, edit_loop) (rw (edit_line-typed tmp line h room) refl)

last_line :
    (fuel : ℕ) (tmp : Str) (out : List ℕ) (rest : List Poll)
    → edit_loop (suc fuel) tmp out (dot rest)
      ≡ some
          (record { saved = some tmp; shown = (out ++ b'.' ∷ 10 ∷ []) ++ saved_text; rest = rest })
unfolding edit_loop edit_line
last_line fuel tmp out rest = refl

edit_loop-saves :
    (lines : List Str) (fuel : ℕ) (tmp : Str) (out : List ℕ) (rest : List Poll)
    → length lines < fuel
    → All IsTyped lines
    → length tmp + length (joined lines) < 4096
    → (shown : List ℕ) × (edit_loop fuel tmp out (type_lines lines ++ dot rest)
        ≡ some (record { saved = some (tmp ++ joined lines); shown = shown; rest = rest }))
unfolding type_lines joined
edit_loop-saves [] (suc fuel) tmp out rest f typed room =
    ((out ++ b'.' ∷ 10 ∷ []) ++ saved_text, rw (append-nil tmp) (last_line fuel tmp out rest))
edit_loop-saves [] zero tmp out rest f typed room = absurd (omega (arith, f))
edit_loop-saves (line ∷ lines) zero tmp out rest f typed room = absurd (omega (arith, f))
edit_loop-saves (line ∷ lines) (suc fuel) tmp out rest f typed room =
    let whole = length-append line (10 ∷ joined lines) in
    let added = length-append (tmp ++ line) (10 ∷ []) in
    let one = length-append tmp line in
    let (shown, e) =
      edit_loop-saves lines fuel (tmp ++ line ++ 10 ∷ []) (out ++ (line ++ 10 ∷ [])) rest
        (omega (arith, f)) typed.1 (omega (arith, whole, added, one, room)) in
    let first =
      one_line fuel tmp out line (type_lines lines ++ dot rest) typed.0
        (omega (arith, whole, room)) in
    let text : (tmp ++ line ++ 10 ∷ []) ++ joined lines ≡ tmp ++ (line ++ 10 ∷ joined lines) =
      append_assoc (tmp ++ line) (10 ∷ []) (joined lines)
      ∙ append_assoc tmp line (10 ∷ joined lines) in
    (
      shown,
      ap (edit_loop (suc fuel) tmp out)
            (append_assoc (keys line) (some 10 ∷ type_lines lines) (dot rest))
          ∙ first
          ∙ e
          ∙ ap (λ (s : Str). some (record { saved = some s; shown = shown; rest = rest })) text,
    )

length-type_lines : (lines : List Str) → length lines ≤ length (type_lines lines)
unfolding type_lines
length-type_lines [] = omega arith
length-type_lines (line ∷ lines) =
    omega (arith, length-type_lines lines, length-append (keys line) (some 10 ∷ type_lines lines))

test_false : {A : Type 0} (c : ℕ) (x : A) {y z : A} → c ≢ 0 → y ≡ z → (if c == 0 then x else y) ≡ z
test_false c x ne e = rw (ne→== c 0 ne) e

-- The session when the editor has saved.
abbrev saved_session : Session → Memory → ℕ → ℕ → Fs → Str → List ℕ → Session
saved_session s mem tmp_at n fs1 text shown = record {
  fs = save_text fs1 mem tmp_at n (some text);
  out = (s.out ++ editing) ++ shown;
}

edit_opened-saves :
    (s : Session) (mem : Memory) (tmp_at n : ℕ) (fs1 : Fs) (polls : List Poll) (text : Str)
    (shown : List ℕ) (rest : List Poll)
    → edit_loop (length polls + 1) [] [] polls
      ≡ some (record { saved = some text; shown = shown; rest = rest })
    → edit_opened s mem tmp_at polls (some n, fs1)
      ≡ some (saved_session s mem tmp_at n fs1 text shown, rest)
unfolding edit_opened
edit_opened-saves s mem tmp_at n fs1 polls text shown rest e = rw (e, edit_opened) refl

save_text-Stored :
    (mem : Memory) (tmp_at n : ℕ) (fs1 : Fs) (text : Str)
    → IsArena fs1
    → is_file (fs1.node n).type ≡ true
    → fs1.aoff + length text ≤ arena_size
    → Stored fs1 (with_bytes mem tmp_at text) n text (save_text fs1 mem tmp_at n (some text))
unfolding save_text
save_text-Stored mem tmp_at n fs1 text v isf room =
    let mem' = with_bytes mem tmp_at text in
    subst (λ (bs : List ℕ). Stored fs1 mem' n bs (save_text fs1 mem tmp_at n (some text)))
      (bytes-with_bytes mem tmp_at text)
      (fs_write-Stored fs1 mem' n tmp_at (length text) v isf room).1

-- The editor of a file that there is or is made, in which lines are typed and then the line with the
-- dot, without a poll in between that brings nothing. Each line is not empty, has at most 255
-- characters, none of them a tab, a backspace or a newline, and is not `!q` or `.`; with their
-- newlines the lines have at most 4095 characters, for which the arena has room. Then the
-- editor ends, the file holds each of these lines with a newline behind it, no other file has
-- changed, and the polls behind the dot are left.
pub builtin_edit-Stored :
    (s : Session) (mem : Memory) (tmp_at n : ℕ) (name : Str) (fs1 : Fs) (lines : List Str)
    (rest : List Poll)
    → first name ≢ 0
    → fs_create_file s.fs (some s.fs.cwd) name ≡ (some n, fs1)
    → IsArena fs1
    → is_file (fs1.node n).type ≡ true
    → All IsTyped lines
    → length (joined lines) < 4096
    → fs1.aoff + length (joined lines) ≤ arena_size
    → (t : Session) × (builtin_edit s mem tmp_at name (type_lines lines ++ dot rest)
        ≡ some (t, rest))
      × Stored fs1 (with_bytes mem tmp_at (joined lines)) n (joined lines) t.fs
unfolding builtin_edit
builtin_edit-Stored s mem tmp_at n name fs1 lines rest named made v isf typed short room =
    let polls = type_lines lines ++ dot rest in
    let fuel = length-append (type_lines lines) (dot rest) in
    let (shown, e) =
      edit_loop-saves lines (length polls + 1) [] [] rest
        (omega (arith, fuel, length-type_lines lines)) typed (omega (arith, short)) in
    (
      saved_session s mem tmp_at n fs1 (joined lines) shown,
      test_false (first name) _ named (
          ap (edit_opened s mem tmp_at polls) made
          ∙ edit_opened-saves s mem tmp_at n fs1 polls (joined lines) shown rest e),
      save_text-Stored mem tmp_at n fs1 (joined lines) v isf room,
    )
