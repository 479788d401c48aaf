-- ===== src/Kprint.antt =====
-- Formatted printing of src/kernel/kprint.c: the characters that `kvprintf` hands to `kputc`, and
-- `ksnprintf` into a buffer.
pub mod Digits
pub mod Buffer
pub mod Console
pub mod Screen
pub mod Bounds
pub mod Line
mod Tests
use snowkernel.Base.{
  ℕ, zero, suc, ◌+◌, ◌-◌, ◌*◌, ◌/◌, ◌%◌, ◌^◌, Bool, true, false, ◌||◌, Option, none, some, ◌==◌,
  ltb, leb, if◌then◌else◌, List, [], ◌∷◌, ◌++◌, get_or,
}
use mathlib.Core.Option
use mathlib.Core.List.{reverse}
use snowkernel.Str.{Str, cstr}

-- A variadic argument: a pointer to a text, null or not, or the bits of an integer or pointer.
pub data Arg : Type 0 where
  text : Option Str → Arg
  word : ℕ → Arg

-- `"(null)"`.
abbrev pub null_text : Str
null_text = b'(' ∷ b'n' ∷ b'u' ∷ b'l' ∷ b'l' ∷ b')' ∷ []

abbrev pub hex : List ℕ
hex =
    b'0' ∷ b'1' ∷ b'2' ∷ b'3' ∷ b'4' ∷ b'5' ∷ b'6' ∷ b'7' ∷ b'8' ∷ b'9' ∷ b'a' ∷ b'b' ∷ b'c' ∷ b'd'
    ∷ b'e' ∷ b'f' ∷ []

-- The `do` loop that fills `buf`, least digit first, with `fuel` rounds left of 15.
unfoldable pub dec_digits : ℕ → ℕ → List ℕ
dec_digits zero v = []
dec_digits (suc fuel) v =
    let rest = dec_digits fuel (v / 10) in (b'0' + v % 10) ∷ (if v / 10 == 0 then [] else rest)

unfoldable pub hex_digits : ℕ → ℕ → List ℕ
hex_digits zero v = []
hex_digits (suc fuel) v =
    let rest = hex_digits fuel (v / 16) in
    get_or hex (v % 16) 0 ∷ (if v / 16 == 0 then [] else rest)

-- The digits in the order in which they are put out.
unfoldable pub print_dec : ℕ → List ℕ
unfolding dec_digits
print_dec v = reverse (dec_digits 15 v)

unfoldable pub print_hex : ℕ → List ℕ
unfolding hex_digits
print_hex v = reverse (hex_digits 15 v)

-- The loop over `shift`, `n` digits from the one at `4 * (n - 1)` down.
unfoldable pub print_nibbles : ℕ → ℕ → List ℕ
print_nibbles zero v = []
print_nibbles (suc n) v = get_or hex (v / 2 ^ (4 * n) % 16) 0 ∷ print_nibbles n v

-- The characters of one argument: `none` where the argument is of the wrong kind or its negation
-- overflows, which the language leaves undefined.
unfoldable pub conversion : ℕ → Arg → Option (List ℕ)
unfolding print_dec print_hex print_nibbles
conversion c (text s) =
    if c == b's' then some (elim s [ none ↦ null_text | some t ↦ cstr t ]) else none
conversion c (word w) =
    let v = w % 2 ^ 32 in
    if c == b'c'
    then some ((w % 256) ∷ [])
    else if c == b'd'
    then (if ltb v (2 ^ 31)
        then some (print_dec v)
        else if v == 2 ^ 31
        then none
        else some (b'-' ∷ print_dec (2 ^ 32 - v)))
    else if c == b'u'
    then some (print_dec v)
    else if c == b'x'
    then some (print_hex v)
    else if c == b'p'
    then some (b'0' ∷ b'x' ∷ print_nibbles 16 w)
    else none

-- The conversions that take an argument.
abbrev pub takes_arg : ℕ → Bool
takes_arg c = c == b's' || c == b'c' || c == b'd' || c == b'u' || c == b'x' || c == b'p'

abbrev pub before : List ℕ → Option (List ℕ) → Option (List ℕ)
before cs rest = Option.map (λ out. cs ++ out) rest

-- `kvprintf`: the characters in order. A `%` at the end would read past the format, and is `none`.
unfoldable pub kvprintf : Str → List Arg → Option (List ℕ)
unfolding conversion
kvprintf [] args = some []
kvprintf (c ∷ []) args = if c == 0 then some [] else if c == b'%' then none else some (c ∷ [])
kvprintf (c ∷ d ∷ fmt) args = elim (c == b'%') [
  | false ↦ if c == 0 then some [] else before (c ∷ []) (kvprintf (d ∷ fmt) args)
  | true ↦ elim (d == 0) [
    | true ↦ none
    | false ↦ elim (takes_arg d) [
      | true ↦ elim args [
        | [] ↦ none
        | a ∷ args' ↦ elim (conversion d a) [
          | none ↦ none
          | some cs ↦ before cs (kvprintf fmt args')
        ]
      ]
      | false ↦ before (if d == b'%' then b'%' ∷ [] else b'%' ∷ d ∷ []) (kvprintf fmt args)
    ]
  ]
]

-- The buffer of `ksnprintf` as it is filled: the bytes written so far, and `*rem`.
pub record Buf : Type 0 where
  pub written : List ℕ
  pub rem : ℕ

unfoldable pub buf_putc : Buf → ℕ → Buf
buf_putc b c = if ltb 1 b.rem then record { written = b.written ++ c ∷ []; rem = b.rem - 1 } else b

-- `while (*s) buf_putc(bufp, rem, *s++)` and the loops over digits.
unfoldable pub buf_puts : Buf → List ℕ → Buf
unfolding buf_putc
buf_puts b [] = b
buf_puts b (c ∷ cs) = buf_puts (buf_putc b c) cs

unfoldable pub kvsnprintf : Buf → Str → List Arg → Option Buf
unfolding conversion buf_puts
kvsnprintf b [] args = some b
kvsnprintf b (c ∷ []) args =
    if c == 0 then some b else if c == b'%' then none else some (buf_putc b c)
kvsnprintf b (c ∷ d ∷ fmt) args = elim (c == b'%') [
  | false ↦ if c == 0 then some b else kvsnprintf (buf_putc b c) (d ∷ fmt) args
  | true ↦ elim (d == 0) [
    | true ↦ none
    | false ↦ elim (takes_arg d) [
      | true ↦ elim args [
        | [] ↦ none
        | a ∷ args' ↦ elim (conversion d a) [
          | none ↦ none
          | some cs ↦ kvsnprintf (buf_puts b cs) fmt args'
        ]
      ]
      | false ↦
          kvsnprintf (if d == b'%' then buf_putc b b'%' else buf_putc (buf_putc b b'%') d) fmt args
    ]
  ]
]

-- The bytes that are stored from `buf` on, terminator included, and the result.
unfoldable pub ksnprintf : ℕ → Str → List Arg → Option (List ℕ × ℕ)
unfolding kvsnprintf
ksnprintf bufsz fmt args =
    if bufsz == 0
    then some ([], 0)
    else Option.map (λ (b : Buf). (b.written ++ 0 ∷ [], bufsz - b.rem))
        (kvsnprintf (record { written = []; rem = bufsz }) fmt args)
