-- ===== src/Input/Shown.antt =====
-- What the editors read, and what a terminal that follows the echo shows of it.
use snowkernel.Base.{
  ℕ, ◌+◌, ◌-◌, ◌≤◌, Bool, true, false, ◌==◌, ◌||◌, ltb, if◌then◌else◌, Bool-cases, inl, inr, Option,
  none, some, List, [], ◌∷◌, ◌++◌, length, take, take-append, length-append, All, ◌≡◌, ◌≢◌, refl,
  ap, ◌∙◌, arith,
}
use snowkernel.Str.{Str}
use snowkernel.Input.{
  Line, no_line, erase, store, store_blanks, Reading, read_loop, Poll, kbd_key, serial_key, Source,
  from_serial, from_kbd, mux_key, kbd_read_line, serial_read_line, read_line_mux,
}
use snowkernel.Input.Ends.{
  IsBounded, Kept, erase-IsBounded, store-IsBounded, kbd_key-Kept, serial_key-Kept, mux_key-Kept,
  read_loop-ends,
}

-- A line of a terminal after more characters: a backspace takes the last one away.
pub shown : Str → List ℕ → Str
shown s [] = s
shown s (c ∷ cs) = shown (if c == 8 then take (length s - 1) s else s ++ c ∷ []) cs

shown-append : (s : Str) (cs ds : List ℕ) → shown s (cs ++ ds) ≡ shown (shown s cs) ds
unfolding shown
shown-append s [] ds = refl
shown-append s (c ∷ cs) ds =
    shown-append (if c == 8 then take (length s - 1) s else s ++ c ∷ []) cs ds

-- The echo shows the line, and the line fits the buffer.
IsShown : ℕ → Line → Type 0
IsShown max l = (shown [] l.echo ≡ l.buf) × IsBounded max l

shown_wiped : (s : Str) → shown s (8 ∷ b' ' ∷ 8 ∷ []) ≡ take (length s - 1) s
unfolding shown
shown_wiped s =
    let t = take (length s - 1) s in
    take-append (length (t ++ b' ' ∷ []) - 1) t (b' ' ∷ [])
      (omega (arith, length-append t (b' ' ∷ [])))

erase-IsShown : (max : ℕ) (l : Line) → IsShown max l → IsShown max (erase l)
unfolding IsShown
erase-IsShown max l h = (at, erase-IsBounded max l h.1)
  where
    at : shown [] (erase l).echo ≡ (erase l).buf
    at = elim (Bool-cases (length l.buf == 0)) [
      | inl e ↦ unfold erase in rw e h.0
      | inr e ↦
          unfold erase in
          rw e (
            shown-append [] l.echo (8 ∷ b' ' ∷ 8 ∷ [])
            ∙ ap (λ (t : Str). shown t (8 ∷ b' ' ∷ 8 ∷ [])) h.0
            ∙ shown_wiped l.buf)
    ]

shown_one : (s : Str) (c : ℕ) → c ≢ 8 → shown s (c ∷ []) ≡ s ++ c ∷ []
unfolding shown
shown_one s c ne = ground arith

store-IsShown : (max c : ℕ) (l : Line) → c ≢ 8 → IsShown max l → IsShown max (store max c l)
unfolding IsShown
store-IsShown max c l ne h = (at, store-IsBounded max c l h.1)
  where
    at : shown [] (store max c l).echo ≡ (store max c l).buf
    at = elim (Bool-cases (ltb (length l.buf) (max - 1))) [
      | inl e ↦
          unfold store in
          rw e (
            shown-append [] l.echo (c ∷ [])
            ∙ ap (λ (t : Str). shown t (c ∷ [])) h.0
            ∙ shown_one l.buf c ne)
      | inr e ↦ unfold store in rw e h.0
    ]

-- The polls that end a line of each editor.
pub ends_kbd : Poll → Bool
ends_kbd none = false
ends_kbd (some c) = c == 10

pub ends_serial : Poll → Bool
ends_serial none = false
ends_serial (some c) = c == 10 || c == 13

unfoldable pub ends_mux : Source → Bool
unfolding ends_serial ends_kbd
ends_mux (from_serial p) = ends_serial p
ends_mux (from_kbd p) = ends_kbd p

-- An editor returned: the terminal shows the line and its end, the line and its terminator fit the buffer, and the next poll is the one
-- after the end.
pub HasRead : {E : Type 0} → ℕ → List E → Option (Reading E) → Type 0
HasRead max after none = ⊥
HasRead max after (some r) =
    (shown [] r.echoed ≡ r.text ++ 10 ∷ []) × (length r.text + 1 ≤ max) × (r.rest ≡ after)

module _ (max : ℕ) (pos_max : 1 ≤ max) where
  no_line-IsShown : IsShown max no_line
  unfolding IsShown shown IsBounded
  no_line-IsShown = (refl, omega arith)

  last-HasRead :
      {E : Type 0} (after : List E) (l : Line)
      → IsShown max l
      → HasRead max after (some (record { text = l.buf; echoed = l.echo ++ 10 ∷ []; rest = after }))
  unfolding HasRead IsShown IsBounded
  last-HasRead after l h = (
    shown-append [] l.echo (10 ∷ [])
        ∙ ap (λ (t : Str). shown t (10 ∷ [])) h.0
        ∙ shown_one l.buf 10 (omega arith),
    omega (arith, h.1, pos_max),
    refl,
  )

  -- An editor whose rounds keep `IsShown`, and that ends a line at the polls of `ends` only.
  read-HasRead :
      {E : Type 0} (key : E → Line → Option Line) (ends : E → Bool)
      → ((e : E) (l : Line) → IsShown max l → Kept (IsShown max) (key e l))
      → ((e : E) (l : Line) → ends e ≡ true → key e l ≡ none)
      → ((e : E) (l : Line) → ends e ≡ false → (l' : Line) × (key e l ≡ some l'))
      → (before after : List E) (e : E) → All (λ p. ends p ≡ false) before
      → ends e ≡ true
      → HasRead max after (read_loop key no_line (before ++ e ∷ after))
  read-HasRead key ends kept stop on before after e none_before here =
      let (l, h, eq) =
        read_loop-ends (IsShown max) key ends kept stop on before after e no_line none_before here
          no_line-IsShown in
      rw eq (last-HasRead after l h)

kbd_ends : (max : ℕ) (p : Poll) (l : Line) → ends_kbd p ≡ true → kbd_key max p l ≡ none
unfolding kbd_key ends_kbd
kbd_ends max none l h = cc
kbd_ends max (some c) l h = rw h

kbd_on :
    (max : ℕ) (p : Poll) (l : Line) → ends_kbd p ≡ false → (l' : Line) × (kbd_key max p l ≡ some l')
unfolding kbd_key ends_kbd
kbd_on max none l h = (l, refl)
kbd_on max (some c) l h = (
  if c == 8 then erase l else if c == 9 then store_blanks max 4 l else store max c l,
  ground arith,
)

serial_ends : (max : ℕ) (p : Poll) (l : Line) → ends_serial p ≡ true → serial_key max p l ≡ none
unfolding serial_key ends_serial
serial_ends max none l h = cc
serial_ends max (some c) l h = ground arith

serial_on :
    (max : ℕ) (p : Poll) (l : Line)
    → ends_serial p ≡ false
    → (l' : Line) × (serial_key max p l ≡ some l')
unfolding serial_key ends_serial
serial_on max none l h = (l, refl)
serial_on max (some c) l h = (if c == 8 || c == 127 then erase l else store max c l, ground arith)

mux_ends : (max : ℕ) (s : Source) (l : Line) → ends_mux s ≡ true → mux_key max s l ≡ none
unfolding mux_key ends_mux
mux_ends max (from_serial p) l h = serial_ends max p l h
mux_ends max (from_kbd none) l h = cc
mux_ends max (from_kbd (some c)) l h = rw h

mux_on :
    (max : ℕ) (s : Source) (l : Line)
    → ends_mux s ≡ false
    → (l' : Line) × (mux_key max s l ≡ some l')
unfolding mux_key ends_mux
mux_on max (from_serial p) l h = serial_on max p l h
mux_on max (from_kbd none) l h = (l, refl)
mux_on max (from_kbd (some c)) l h = (if c == 8 then erase l else store max c l, ground arith)

-- `kbd_read_line` returns at the first poll that brings a newline, for a buffer of at least one byte:
-- the line and its terminator fit the buffer, a terminal that followed the echo shows the line and
-- its end, and the polls behind the newline are left.
pub kbd_read_line-HasRead :
    (max : ℕ) (before after : List Poll) (e : Poll)
    → 1 ≤ max
    → All (λ p. ends_kbd p ≡ false) before
    → ends_kbd e ≡ true
    → HasRead max after (kbd_read_line max (before ++ e ∷ after))
unfolding kbd_read_line
kbd_read_line-HasRead max before after e m none_before here =
    read-HasRead max m (kbd_key max) ends_kbd
      (kbd_key-Kept (IsShown max) max (erase-IsShown max) (store-IsShown max)) (kbd_ends max)
      (kbd_on max) before after e none_before here

-- `serial_read_line` likewise, at the first poll that brings a newline or a return.
pub serial_read_line-HasRead :
    (max : ℕ) (before after : List Poll) (e : Poll)
    → 1 ≤ max
    → All (λ p. ends_serial p ≡ false) before
    → ends_serial e ≡ true
    → HasRead max after (serial_read_line max (before ++ e ∷ after))
unfolding serial_read_line
serial_read_line-HasRead max before after e m none_before here =
    read-HasRead max m (serial_key max) ends_serial
      (serial_key-Kept (IsShown max) max (erase-IsShown max) (store-IsShown max)) (serial_ends max)
      (serial_on max) before after e none_before here

-- The shell's editor returns at the first poll that brings a newline from either source or a return
-- from the serial port, for a buffer of at least one byte: the line and its terminator fit the buffer,
-- a terminal that followed the echo shows the line and its end, and the polls behind are left.
pub read_line_mux-HasRead :
    (max : ℕ) (before after : List Source) (e : Source)
    → 1 ≤ max
    → All (λ p. ends_mux p ≡ false) before
    → ends_mux e ≡ true
    → HasRead max after (read_line_mux max (before ++ e ∷ after))
unfolding read_line_mux
read_line_mux-HasRead max before after e m none_before here =
    read-HasRead max m (mux_key max) ends_mux
      (mux_key-Kept (IsShown max) max (erase-IsShown max) (store-IsShown max)) (mux_ends max)
      (mux_on max) before after e none_before here
