-- ===== src/Shell/Args.antt =====
-- The arguments of a builtin.
use snowkernel.Base.{
  ◌+◌, ◌≤◌, ltb, if◌then◌else◌, List, [], ◌∷◌, ◌++◌, length, All, length-append, ◌≡◌, sym, ap, ◌∙◌,
  arith, if_elim, lt→ltb, ltb→lt, append_assoc, append-nil,
}
use snowkernel.Str.{Str}
use snowkernel.Shell.{put_word, put_args, builtin_args, parse_command_line, ParsedCmd}
use snowkernel.Shell.Words.{IsWord, joined, parse-joined}

put_word-append : (buf s : Str) → length buf + length s ≤ 254 → put_word buf s ≡ buf ++ s
unfolding put_word
put_word-append buf [] h = sym (append-nil buf)
put_word-append buf (c ∷ s) h = rw (lt→ltb (length buf) 254 (omega (arith, h))) (
    put_word-append (buf ++ c ∷ []) s (omega (arith, h, length-append buf (c ∷ [])))
    ∙ append_assoc buf (c ∷ []) s)

put_args-joined :
    (buf : Str) (ws : List Str)
    → length buf + length (joined ws) ≤ 254
    → put_args buf ws ≡ buf ++ joined ws
unfolding put_args joined
put_args-joined buf [] h = sym (append-nil buf)
put_args-joined buf (w ∷ []) h = put_word-append buf w h
put_args-joined buf (w ∷ v ∷ ws) h =
    let tail = b' ' ∷ joined (v ∷ ws) in
    let n = length-append w tail in
    let k = length-append buf w in
    let e : put_word buf w ≡ buf ++ w = put_word-append buf w (omega (arith, h, n)) in
    rw (e, lt→ltb (length (buf ++ w)) 255 (omega (arith, h, n, k)))
      (put_args-joined ((buf ++ w) ++ b' ' ∷ []) (v ∷ ws)
          (omega (arith, h, n, k, length-append (buf ++ w) (b' ' ∷ [])))
        ∙ append_assoc (buf ++ w) (b' ' ∷ []) (joined (v ∷ ws))
        ∙ append_assoc buf w tail)

put_word-bound : (buf s : Str) → length buf ≤ 255 → length (put_word buf s) ≤ 255
unfolding put_word
put_word-bound buf [] h = h
put_word-bound buf (c ∷ s) h =
    if_elim (λ (t : Str). length t ≤ 255) (ltb (length buf) 254) (put_word (buf ++ c ∷ []) s) buf
      (λ e.
        put_word-bound (buf ++ c ∷ []) s
          (omega (arith, ltb→lt (length buf) 254 e, length-append buf (c ∷ []))))
      (λ _. h)

put_args-bound : (buf : Str) (ws : List Str) → length buf ≤ 255 → length (put_args buf ws) ≤ 255
unfolding put_args
put_args-bound buf [] h = h
put_args-bound buf (w ∷ []) h = put_word-bound buf w h
put_args-bound buf (w ∷ v ∷ ws) h =
    let t = put_word buf w in
    let one = put_word-bound buf w h in
    put_args-bound (if ltb (length t) 255 then t ++ b' ' ∷ [] else t) (v ∷ ws) (
      if_elim (λ (u : Str). length u ≤ 255) (ltb (length t) 255) (t ++ b' ' ∷ []) t
        (λ e. omega (arith, ltb→lt (length t) 255 e, length-append t (b' ' ∷ []))) (λ _. one))

-- Whatever the line is, the arguments that `run_builtin` collects fit `args_buf`, which has 256 bytes,
-- with their terminator.
pub builtin_args-bound :
    (line : Str) → length (builtin_args (parse_command_line line).argv) + 1 ≤ 256
unfolding builtin_args
builtin_args-bound line = go (parse_command_line line).argv
  where
    go : (ws : List Str) → length (builtin_args ws) + 1 ≤ 256
    go [] = omega arith
    go (w ∷ ws) = omega (arith, put_args-bound [] ws (omega arith))

-- A line of at most 31 words, with one space between two and no quotes and redirections, of which
-- those behind the first have at most 254 characters with their spaces: the arguments that
-- `run_builtin` hands to a builtin are the line behind the first word.
pub builtin_args-parse :
    (w : Str) (ws : List Str)
    → All IsWord (w ∷ ws)
    → length ws ≤ 30
    → length (joined ws) ≤ 254
    → builtin_args (parse_command_line (joined (w ∷ ws))).argv ≡ joined ws
unfolding builtin_args
builtin_args-parse w ws h le short =
    ap (λ (pc : ParsedCmd). builtin_args pc.argv) (parse-joined (w ∷ ws) h (omega (arith, le)))
    ∙ put_args-joined [] ws (omega (arith, short))
