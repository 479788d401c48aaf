-- ===== src/Shell.antt =====
-- The command line of src/kernel/shell.c: redirections, words, and the arguments of a builtin. A
-- line is the text up to its terminator.
pub mod Words
pub mod Redirect
pub mod Args
pub mod Messages
pub mod Builtins
pub mod Output
pub mod Cwd
pub mod Edit
pub mod Edited
pub mod Vars
pub mod External
pub mod Search
mod Commands
mod Tests
use snowkernel.Base.{
  ℕ, zero, suc, ◌+◌, ◌-◌, Bool, true, false, ◌||◌, ◌==◌, ltb, if◌then◌else◌, List, [], ◌∷◌, ◌++◌,
  Option, none, some, length, take,
}
use snowkernel.Str.{Str}
use snowkernel.Fs.Path.{first}

-- `parsed_cmd_t`; the length of `argv` is `argc`.
pub record ParsedCmd : Type 0 where
  pub argv : List Str
  pub out_redir : Option Str
  pub out_append : Bool
  pub in_redir : Option Str

-- `while (*f == ' ') f++`.
unfoldable pub skip_spaces : Str → Str
skip_spaces [] = []
skip_spaces (c ∷ s) = if c == b' ' then skip_spaces s else c ∷ s

-- `last_space`, the loop having come to the end of the text: the text before it, if there is one.
unfoldable pub before_last_space : Str → Option Str
before_last_space [] = none
before_last_space (c ∷ s) = elim (before_last_space s) [
  | some t ↦ some (c ∷ t)
  | none ↦ if c == b' ' then some [] else none
]

-- `if (last_space) *last_space = '\0'`.
unfoldable pub cut_at_space : Str → Str
unfolding before_last_space
cut_at_space s = elim (before_last_space s) [ none ↦ s | some t ↦ t ]

-- The loop that detects redirections: what the command part is, and the files. The first argument is
-- the line up to `p`. Of `>>` the first character stays in the text.
pub record Redirected : Type 0 where
  pub cmd_part : Str
  pub to : Option Str
  pub append : Bool
  pub from : Option Str

abbrev to_file : Str → Str → Bool → Redirected
to_file seen f append = record {
  cmd_part = cut_at_space seen;
  to = some (skip_spaces f);
  append = append;
  from = none;
}

unfoldable pub output_redirect : Str → Str → Redirected
unfolding cut_at_space skip_spaces
output_redirect seen [] = to_file seen [] false
output_redirect seen (c ∷ f) =
    if c == b'>' then to_file (seen ++ b'>' ∷ []) f true else to_file seen (c ∷ f) false

unfoldable pub detect : Str → Str → Redirected
unfolding output_redirect cut_at_space skip_spaces
detect seen [] = record { cmd_part = seen; to = none; append = false; from = none }
detect seen (c ∷ p) =
    let rest = detect (seen ++ c ∷ []) p in
    if c == b'<'
    then record {
      cmd_part = cut_at_space seen;
      to = none;
      append = false;
      from = some (skip_spaces p);
    }
    else if c == b'>'
    then output_redirect seen p
    else rest

-- The loop to the end of a word, at the character that ends it, which is skipped: the word, and what
-- is left.
unfoldable pub word_to : ℕ → Str → Str × Str
word_to stop [] = ([], [])
word_to stop (c ∷ p) =
    let (w, rest) = word_to stop p in if c == stop then ([], p) else (c ∷ w, rest)

abbrev pub is_quote : ℕ → Bool
is_quote c = c == b'"' || c == b'\''

-- One round of the tokenizer past the spaces, at the character `c`.
unfoldable pub one_word : ℕ → Str → Str × Str
unfolding word_to
one_word c p = if is_quote c then word_to c p else word_to b' ' (c ∷ p)

-- The tokenizer, with room for `n` words more.
unfoldable pub tokenize : ℕ → Str → List Str
unfolding skip_spaces one_word
tokenize zero p = []
tokenize (suc n) p = elim (skip_spaces p) [
  | [] ↦ []
  | c ∷ p' ↦ let (w, rest) = one_word c p' in w ∷ tokenize n rest
]

unfoldable pub parse_command_line : Str → ParsedCmd
unfolding detect tokenize
parse_command_line line =
    let r = detect [] line in
    record {
      argv = tokenize 31 r.cmd_part;
      out_redir = r.to;
      out_append = r.append;
      in_redir = r.from;
    }

-- `args_buf` of `run_builtin`, up to its terminator: the loop over one word, from what is in the
-- buffer on, and the one over the words behind the first.
unfoldable pub put_word : Str → Str → Str
put_word buf [] = buf
put_word buf (c ∷ s) = if ltb (length buf) 254 then put_word (buf ++ c ∷ []) s else buf

unfoldable pub put_args : Str → List Str → Str
unfolding put_word
put_args buf [] = buf
put_args buf (w ∷ []) = put_word buf w
put_args buf (w ∷ v ∷ ws) =
    let buf' = put_word buf w in
    put_args (if ltb (length buf') 255 then buf' ++ b' ' ∷ [] else buf') (v ∷ ws)

unfoldable pub builtin_args : List Str → Str
unfolding put_args
builtin_args [] = []
builtin_args (w ∷ ws) = put_args [] ws
