-- ===== src/Shell/Redirect.antt =====
-- Redirected output.
use snowkernel.Base.{
  ℕ, ◌≤◌, Bool, true, false, if◌then◌else◌, List, [], ◌∷◌, ◌++◌, none, some, length, All, ◌≡◌, ◌≢◌,
  refl, ap, ◌∙◌, arith, ne→==,
}
use snowkernel.Str.{Str}
use snowkernel.Shell.{
  Redirected, skip_spaces, before_last_space, cut_at_space, output_redirect, tokenize, detect,
  parse_command_line,
}
use snowkernel.Shell.Words.{
  IsWordChar, IsWord, IsQuiet, joined, tokenize-joined, detect-append, joined-IsQuiet,
  WordChar-IsQuiet,
}

before_last_space-none : (w : Str) → All IsWordChar w → before_last_space w ≡ none
unfolding before_last_space IsWordChar
before_last_space-none [] h = refl
before_last_space-none (c ∷ w) h = rw (before_last_space-none w h.1, ne→== c b' ' h.0.0) refl

before_last_space-some : (s w : Str) → All IsWordChar w → before_last_space (s ++ b' ' ∷ w) ≡ some s
unfolding before_last_space
before_last_space-some [] w h = rw (before_last_space-none w h) refl
before_last_space-some (c ∷ s) w h = rw (before_last_space-some s w h) refl

cut_at_space-last : (s w : Str) → All IsWordChar w → cut_at_space (s ++ b' ' ∷ w) ≡ s
unfolding cut_at_space
cut_at_space-last s w h = rw (before_last_space-some s w h, cut_at_space) refl

-- The redirection that is found.
abbrev output : Str → Str → Redirected
output cmd f = record { cmd_part = cmd; to = some (skip_spaces f); append = false; from = none }

detect-output :
    (s w : Str) (c : ℕ) (f : Str)
    → All IsQuiet s
    → All IsWordChar w
    → c ≢ b'>'
    → detect [] (s ++ ((b' ' ∷ w) ++ (b'>' ∷ c ∷ f))) ≡ output s (c ∷ f)
unfolding detect output_redirect IsQuiet
detect-output s w c f h hw ne =
    let space : All IsQuiet (b' ' ∷ w) = ((omega arith, omega arith), WordChar-IsQuiet w hw) in
    let tail = b'>' ∷ c ∷ f in
    let words : detect [] (s ++ ((b' ' ∷ w) ++ tail)) ≡ detect s ((b' ' ∷ w) ++ tail) =
      detect-append [] s ((b' ' ∷ w) ++ tail) h in
    let rest : detect s ((b' ' ∷ w) ++ tail) ≡ detect (s ++ b' ' ∷ w) tail =
      detect-append s (b' ' ∷ w) tail space in
    let cut : detect (s ++ b' ' ∷ w) tail ≡ output s (c ∷ f) =
      ap
        (λ (b : Bool).
          if b
          then record {
            cmd_part = cut_at_space ((s ++ b' ' ∷ w) ++ b'>' ∷ []);
            to = some (skip_spaces f);
            append = true;
            from = none;
          }
          else output (cut_at_space (s ++ b' ' ∷ w)) (c ∷ f))
        (ne→== c b'>' ne)
      ∙ ap (λ cmd. output cmd (c ∷ f)) (cut_at_space-last s w hw) in
    words ∙ rest ∙ cut

-- A line of at most 31 words without quotes, a space, a text without spaces and redirections, and
-- `>` before a file's name that does not start with another `>`: the command has the words, but not
-- the text between the last space and the `>`; the output goes to the file, whose name is the rest
-- of the line past its spaces, and replaces what is there.
pub parse-output :
    (ws : List Str) (w : Str) (c : ℕ) (f : Str)
    → All IsWord ws
    → length ws ≤ 31
    → All IsWordChar w
    → c ≢ b'>'
    → parse_command_line (joined ws ++ ((b' ' ∷ w) ++ (b'>' ∷ c ∷ f))) ≡ record {
      argv = ws;
      out_redir = some (skip_spaces (c ∷ f));
      out_append = false;
      in_redir = none;
    }
unfolding parse_command_line
parse-output ws w c f h le hw ne =
    ap
      (λ (r : Redirected). record {
        argv = tokenize 31 r.cmd_part;
        out_redir = r.to;
        out_append = r.append;
        in_redir = r.from;
      })
      (detect-output (joined ws) w c f (joined-IsQuiet ws h) hw ne)
    ∙ ap
        (λ ws. record {
          argv = ws;
          out_redir = some (skip_spaces (c ∷ f));
          out_append = false;
          in_redir = none;
        })
        (tokenize-joined 31 ws h le)
