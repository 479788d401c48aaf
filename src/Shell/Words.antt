-- ===== src/Shell/Words.antt =====
-- Lines made of words.
use snowkernel.Base.{
  ℕ, zero, suc, ◌≤◌, false, List, [], ◌∷◌, ◌++◌, none, length, All, ◌≡◌, ◌≢◌, refl, sym, ap, ◌∙◌,
  arith, ne→==, append_assoc, append-nil,
}
use snowkernel.Str.{Str}
use snowkernel.Shell.{
  Redirected, skip_spaces, word_to, is_quote, one_word, tokenize, detect, parse_command_line,
}

-- A character that neither ends a word nor redirects.
unfoldable pub IsWordChar : ℕ → Type 0
IsWordChar c = (c ≢ b' ') × (c ≢ b'<') × (c ≢ b'>')

-- A word that needs no quotes.
pub data IsWord : Str → Type 0 where
  word : (c : ℕ) (w : Str) → is_quote c ≡ false → All IsWordChar (c ∷ w) → IsWord (c ∷ w)

-- The words with a space between them.
unfoldable pub joined : List Str → Str
joined [] = []
joined (w ∷ []) = w
joined (w ∷ v ∷ ws) = w ++ b' ' ∷ joined (v ∷ ws)

word_to-end : (w : Str) → All IsWordChar w → word_to b' ' w ≡ (w, [])
unfolding word_to IsWordChar
word_to-end [] h = refl
word_to-end (c ∷ w) h = rw (ne→== c b' ' h.0.0, word_to-end w h.1) refl

word_to-space : (w rest : Str) → All IsWordChar w → word_to b' ' (w ++ b' ' ∷ rest) ≡ (w, rest)
unfolding word_to IsWordChar
word_to-space [] rest h = refl
word_to-space (c ∷ w) rest h = rw (ne→== c b' ' h.0.0, word_to-space w rest h.1) refl

-- A round of the tokenizer at a word.
tokenize-end : (n : ℕ) (w : Str) → IsWord w → tokenize (suc n) w ≡ w ∷ tokenize n []
unfolding tokenize skip_spaces one_word IsWordChar
tokenize-end n _ (word c w q h) = rw (ne→== c b' ' h.0.0, q, tokenize, word_to-end (c ∷ w) h) refl

tokenize-space :
    (n : ℕ) (w rest : Str) → IsWord w → tokenize (suc n) (w ++ b' ' ∷ rest) ≡ w ∷ tokenize n rest
unfolding tokenize skip_spaces one_word IsWordChar
tokenize-space n _ rest (word c w q h) =
    rw (ne→== c b' ' h.0.0, q, tokenize, word_to-space (c ∷ w) rest h) refl

tokenize-nil : (n : ℕ) → tokenize n [] ≡ []
unfolding tokenize skip_spaces
tokenize-nil zero = refl
tokenize-nil (suc n) = refl

pub tokenize-joined :
    (n : ℕ) (ws : List Str) → All IsWord ws → length ws ≤ n → tokenize n (joined ws) ≡ ws
unfolding joined
tokenize-joined n [] h le = tokenize-nil n
tokenize-joined zero (w ∷ ws) h le = absurd (omega (arith, le))
tokenize-joined (suc n) (w ∷ []) h le = tokenize-end n w h.0 ∙ ap (λ ws. w ∷ ws) (tokenize-nil n)
tokenize-joined (suc n) (w ∷ v ∷ ws) h le =
    tokenize-space n w (joined (v ∷ ws)) h.0
    ∙ ap (λ ws. w ∷ ws) (tokenize-joined n (v ∷ ws) h.1 (omega (arith, le)))

-- A character that does not redirect.
unfoldable pub IsQuiet : ℕ → Type 0
IsQuiet c = (c ≢ b'<') × (c ≢ b'>')

pub detect-append :
    (seen s rest : Str) → All IsQuiet s → detect seen (s ++ rest) ≡ detect (seen ++ s) rest
unfolding detect IsQuiet
detect-append seen [] rest h = ap (λ t. detect t rest) (sym (append-nil seen))
detect-append seen (c ∷ s) rest h =
    rw (ne→== c b'<' h.0.0, ne→== c b'>' h.0.1)
      (detect-append (seen ++ c ∷ []) s rest h.1
        ∙ ap (λ t. detect t rest) (append_assoc seen (c ∷ []) s))

All-append : (P : ℕ → Type 0) (xs ys : Str) → All P xs → All P ys → All P (xs ++ ys)
All-append P [] ys h k = k
All-append P (x ∷ xs) ys h k = (h.0, All-append P xs ys h.1 k)

pub WordChar-IsQuiet : (w : Str) → All IsWordChar w → All IsQuiet w
unfolding IsWordChar IsQuiet
WordChar-IsQuiet [] h = tt
WordChar-IsQuiet (c ∷ w) h = ((h.0.1, h.0.2), WordChar-IsQuiet w h.1)

word-IsQuiet : (w : Str) → IsWord w → All IsQuiet w
word-IsQuiet _ (word c w q h) = WordChar-IsQuiet (c ∷ w) h

pub joined-IsQuiet : (ws : List Str) → All IsWord ws → All IsQuiet (joined ws)
unfolding joined IsQuiet
joined-IsQuiet [] h = tt
joined-IsQuiet (w ∷ []) h = word-IsQuiet w h.0
joined-IsQuiet (w ∷ v ∷ ws) h =
    All-append IsQuiet w (b' ' ∷ joined (v ∷ ws)) (word-IsQuiet w h.0)
      ((omega arith, omega arith), joined-IsQuiet (v ∷ ws) h.1)

-- A line of at most 31 words, with one space between two and no quotes and redirections, is parsed
-- into these words, without a redirection.
pub parse-joined :
    (ws : List Str)
    → All IsWord ws
    → length ws ≤ 31
    → parse_command_line (joined ws)
      ≡ record { argv = ws; out_redir = none; out_append = false; in_redir = none }
unfolding parse_command_line detect
parse-joined ws h le =
    let whole : detect [] (joined ws)
        ≡ record { cmd_part = joined ws; to = none; append = false; from = none } =
      ap (λ t. detect [] t) (sym (append-nil (joined ws)))
      ∙ detect-append [] (joined ws) [] (joined-IsQuiet ws h) in
    ap
      (λ (r : Redirected). record {
        argv = tokenize 31 r.cmd_part;
        out_redir = r.to;
        out_append = r.append;
        in_redir = r.from;
      })
      whole
    ∙ ap (λ ws. record { argv = ws; out_redir = none; out_append = false; in_redir = none })
        (tokenize-joined 31 ws h le)

length-round :
    (n : ℕ) (q : Str)
    → ((rest : Str) → length (tokenize n rest) ≤ n)
    → length (elim q [ [] ↦ [] | c ∷ p' ↦ let (w, rest) = one_word c p' in w ∷ tokenize n rest ])
      ≤ suc n
length-round n [] h = omega arith
length-round n (c ∷ p') h = omega (arith, h (one_word c p').1)

length-tokenize : (n : ℕ) (p : Str) → length (tokenize n p) ≤ n
unfolding tokenize
length-tokenize zero p = omega arith
length-tokenize (suc n) p = length-round n (skip_spaces p) (λ rest. length-tokenize n rest)

-- Whatever the line is, the command has at most 31 words, so that `argv`, which has 32 places, holds
-- them and the null pointer behind them.
pub length-argv : (line : Str) → length (parse_command_line line).argv ≤ 31
unfolding parse_command_line
length-argv line = length-tokenize 31 (detect [] line).cmd_part
