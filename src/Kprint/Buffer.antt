-- ===== src/Kprint/Buffer.antt =====
-- `ksnprintf` stores what `kprintf` would put out, cut to the buffer.
use mathlib.Core.Option
use snowkernel.Base.{
  ℕ, zero, suc, ◌-◌, ◌≤◌, ◌<◌, true, false, Option, none, some, ◌==◌, List, [], ◌∷◌, ◌++◌, length,
  take, take-nil, length-take, length-append, ◌≡◌, refl, sym, ap, ap₂, ◌∙◌, arith, Bool-cases,
  Option-cases, inl, inr, append_assoc, append-nil, ne→==, lt→ltb,
}
use snowkernel.Str.{Str}
use snowkernel.Kprint.{
  Arg, takes_arg, before, conversion, kvprintf, Buf, buf_putc, buf_puts, kvsnprintf, ksnprintf,
}

buf_puts-append : (b : Buf) (xs ys : List ℕ) → buf_puts b (xs ++ ys) ≡ buf_puts (buf_puts b xs) ys
unfolding buf_puts
buf_puts-append b [] ys = refl
buf_puts-append b (x ∷ xs) ys = buf_puts-append (buf_putc b x) xs ys

abbrev puts_all : Buf → Option (List ℕ) → Option Buf
puts_all b out = Option.map (λ cs. buf_puts b cs) out

puts-before :
    (b : Buf) (xs : List ℕ) (rest : Option (List ℕ))
    → puts_all (buf_puts b xs) rest ≡ puts_all b (before xs rest)
puts-before b xs none = refl
puts-before b xs (some ys) = ap some (sym (buf_puts-append b xs ys))

-- What the formatters share from one place of the format on, whatever the buffer and the arguments.
abbrev Agrees : Str → Type 0
Agrees fmt = (b : Buf) (args : List Arg) → kvsnprintf b fmt args ≡ puts_all b (kvprintf fmt args)

conversion-Agrees :
    (b : Buf) (fmt : Str) (args : List Arg) (c d : ℕ)
    → (c == b'%') ≡ true
    → (d == 0) ≡ false
    → takes_arg d ≡ true
    → Agrees fmt
    → kvsnprintf b (c ∷ d ∷ fmt) args ≡ puts_all b (kvprintf (c ∷ d ∷ fmt) args)
unfolding kvsnprintf kvprintf
conversion-Agrees b fmt [] c d e z t rest = rw (e, kvsnprintf, kvprintf, z, t) refl
conversion-Agrees b fmt (a ∷ args) c d e z t rest = elim (Option-cases (conversion d a)) [
  | inl n ↦ rw (e, kvsnprintf, kvprintf, z, t, n) refl
  | inr (cs, h) ↦
      rw (e, kvsnprintf, kvprintf, z, t, h)
        (rest (buf_puts b cs) args ∙ puts-before b cs (kvprintf fmt args))
]

plain-Agrees :
    (b : Buf) (fmt : Str) (args : List Arg) (c d : ℕ)
    → (c == b'%') ≡ true
    → (d == 0) ≡ false
    → takes_arg d ≡ false
    → Agrees fmt
    → kvsnprintf b (c ∷ d ∷ fmt) args ≡ puts_all b (kvprintf (c ∷ d ∷ fmt) args)
unfolding kvsnprintf kvprintf buf_puts
plain-Agrees b fmt args c d e z t rest = elim (Bool-cases (d == b'%')) [
  | inl p ↦
      rw (e, kvsnprintf, kvprintf, z, t, p)
        (rest (buf_putc b b'%') args ∙ puts-before b (b'%' ∷ []) (kvprintf fmt args))
  | inr p ↦
      rw (e, kvsnprintf, kvprintf, z, t, p)
        (rest (buf_putc (buf_putc b b'%') d) args
          ∙ puts-before b (b'%' ∷ d ∷ []) (kvprintf fmt args))
]

-- The two formatters agree: the one into a buffer stores each character that the other puts out.
pub kvsnprintf-kvprintf :
    (b : Buf) (fmt : Str) (args : List Arg)
    → kvsnprintf b fmt args ≡ Option.map (λ cs. buf_puts b cs) (kvprintf fmt args)
unfolding kvsnprintf kvprintf buf_puts
kvsnprintf-kvprintf b [] args = refl
kvsnprintf-kvprintf b (c ∷ []) args = elim (Bool-cases (c == 0)) [
  | inl z ↦ rw z refl
  | inr z ↦ elim (Bool-cases (c == b'%')) [ inl e ↦ rw (z, e) refl | inr e ↦ rw (z, e) refl ]
]
kvsnprintf-kvprintf b (c ∷ d ∷ fmt) args = elim (Bool-cases (c == b'%')) [
  | inr e ↦ elim (Bool-cases (c == 0)) [
    | inl z ↦ rw (e, kvsnprintf, kvprintf, z) refl
    | inr z ↦
        rw (e, kvsnprintf, kvprintf, z)
          (kvsnprintf-kvprintf (buf_putc b c) (d ∷ fmt) args
            ∙ puts-before b (c ∷ []) (kvprintf (d ∷ fmt) args))
  ]
  | inl e ↦ elim (Bool-cases (d == 0)) [
    | inl z ↦ rw (e, kvsnprintf, kvprintf, z) refl
    | inr z ↦ elim (Bool-cases (takes_arg d)) [
      | inl t ↦
          conversion-Agrees b fmt args c d e z t (λ b' args'. kvsnprintf-kvprintf b' fmt args')
      | inr t ↦ plain-Agrees b fmt args c d e z t (λ b' args'. kvsnprintf-kvprintf b' fmt args')
    ]
  ]
]

pred_suc : (n : ℕ) → suc n - 1 ≡ n
pred_suc n = omega arith

-- The buffer after a text: as much of it as there is room for, one byte kept for the terminator.
abbrev filled : List ℕ → ℕ → List ℕ → Buf
filled xs r cs = record { written = xs ++ take r cs; rem = suc r - length (take r cs) }

buf_puts-filled :
    (xs cs : List ℕ) (r : ℕ) → buf_puts (record { written = xs; rem = suc r }) cs ≡ filled xs r cs
unfolding buf_puts buf_putc
buf_puts-filled xs [] r =
    rw (take-nil ℕ r)
      (ap₂ (λ w n. record { written = w; rem = n }) (sym (append-nil xs)) (omega arith))
buf_puts-filled xs (c ∷ cs) zero = buf_puts-filled xs cs zero
buf_puts-filled xs (c ∷ cs) (suc r) =
    rw (lt→ltb 1 (suc (suc r)) (omega arith), pred_suc (suc r))
      (buf_puts-filled (xs ++ c ∷ []) cs r
        ∙ ap₂ (λ w n. record { written = w; rem = n }) (append_assoc xs (c ∷ []) (take r cs))
            (omega arith))

-- Into a buffer of a positive size, `ksnprintf` stores as many of the characters that `kvprintf`
-- puts out as leave one byte free, and a terminator, its result is how many these are, and with the
-- terminator they are at most the buffer's size.
pub ksnprintf-take :
    (bufsz : ℕ) (fmt : Str) (args : List Arg) (out : List ℕ)
    → 0 < bufsz
    → kvprintf fmt args ≡ some out
    → (ksnprintf bufsz fmt args
        ≡ some (take (bufsz - 1) out ++ 0 ∷ [], length (take (bufsz - 1) out)))
      × (length (take (bufsz - 1) out ++ 0 ∷ []) ≤ bufsz)
unfolding ksnprintf
ksnprintf-take zero fmt args out h e = absurd (omega (arith, h))
ksnprintf-take (suc r) fmt args out h e =
    let w = take r out in
    let bound : length w ≤ r = omega (arith, length-take r out) in
    rw
      (
        pred_suc r,
        ne→== (suc r) 0 (omega arith),
        kvsnprintf-kvprintf (record { written = []; rem = suc r }) fmt args,
        e,
        buf_puts-filled [] out r,
      )
      (
        ap (λ (n : ℕ). some (w ++ 0 ∷ [], n)) (omega (arith, bound)),
        omega (arith, bound, length-append w (0 ∷ [])),
      )
