-- ===== src/Input/Ends.antt =====
-- A line ends, and fits its buffer.
use snowkernel.Base.{
  ℕ, zero, suc, ◌-◌, ◌≤◌, Bool, true, false, ◌==◌, ◌||◌, if◌then◌else◌, if_elim, Option, none, some,
  List, [], ◌∷◌, ◌++◌, length, length-append, length-take, All, ◌≡◌, ◌≢◌, subst, arith,
}
use snowkernel.Input.{
  Line, erase, store, store_blanks, read_loop, Poll, kbd_key, serial_key, Source, from_serial,
  from_kbd, mux_key,
}

unfoldable pub IsBounded : ℕ → Line → Type 0
IsBounded max l = length l.buf ≤ max - 1

pub erase-IsBounded : (max : ℕ) (l : Line) → IsBounded max l → IsBounded max (erase l)
unfolding erase IsBounded
erase-IsBounded max l h = ground (arith, length-take (length l.buf - 1) l.buf)

pub store-IsBounded : (max c : ℕ) (l : Line) → IsBounded max l → IsBounded max (store max c l)
unfolding store IsBounded
store-IsBounded max c l h = ground (arith, length-append l.buf (c ∷ []))

store_blanks-IsBounded :
    (max n : ℕ) (l : Line) → IsBounded max l → IsBounded max (store_blanks max n l)
unfolding store_blanks
store_blanks-IsBounded max zero l h = h
store_blanks-IsBounded max (suc n) l h =
    store_blanks-IsBounded max n (store max b' ' l) (store-IsBounded max b' ' l h)

-- What a round must keep, where it does not end the line.
pub Kept : (Line → Type 0) → Option Line → Type 0
Kept P none = Unit
Kept P (some l) = P l

ne_of_test : (c k : ℕ) → (c == k) ≡ false → c ≢ k
ne_of_test c k h = ground arith

ne_of_tests : (c k j : ℕ) → (c == k || c == j) ≡ false → c ≢ k
ne_of_tests c k j h = ground arith

-- A property of lines that erasing and storing keep is kept by every round.
module _ (P : Line → Type 0) (max : ℕ) (erased : (l : Line) → P l → P (erase l))
    (stored : (c : ℕ) (l : Line) → c ≢ 8 → P l → P (store max c l)) where
  store_blanks-Kept : (n : ℕ) (l : Line) → P l → P (store_blanks max n l)
  unfolding store_blanks
  store_blanks-Kept zero l h = h
  store_blanks-Kept (suc n) l h =
      store_blanks-Kept n (store max b' ' l) (stored b' ' l (omega arith) h)

  pub kbd_key-Kept : (p : Poll) (l : Line) → P l → Kept P (kbd_key max p l)
  unfolding kbd_key Kept
  kbd_key-Kept none l h = h
  kbd_key-Kept (some c) l h =
      let other = if c == 9 then store_blanks max 4 l else store max c l in
      if_elim (Kept P) (c == 10) none (some (if c == 8 then erase l else other)) (λ _. tt)
        (λ _.
          if_elim P (c == 8) (erase l) other (λ _. erased l h)
            (λ e.
              if_elim P (c == 9) (store_blanks max 4 l) (store max c l)
                (λ _. store_blanks-Kept 4 l h) (λ _. stored c l (ne_of_test c 8 e) h)))

  pub serial_key-Kept : (p : Poll) (l : Line) → P l → Kept P (serial_key max p l)
  unfolding serial_key Kept
  serial_key-Kept none l h = h
  serial_key-Kept (some v) l h =
      let c = if v == 13 then 10 else v in
      if_elim (Kept P) (c == 10) none (some (if c == 8 || c == 127 then erase l else store max c l))
        (λ _. tt)
        (λ _.
          if_elim P (c == 8 || c == 127) (erase l) (store max c l) (λ _. erased l h)
            (λ e. stored c l (ne_of_tests c 8 127 e) h))

  pub mux_key-Kept : (s : Source) (l : Line) → P l → Kept P (mux_key max s l)
  unfolding mux_key Kept
  mux_key-Kept (from_serial p) l h = serial_key-Kept p l h
  mux_key-Kept (from_kbd none) l h = h
  mux_key-Kept (from_kbd (some c)) l h =
      if_elim (Kept P) (c == 10) none (some (if c == 8 then erase l else store max c l)) (λ _. tt)
        (λ _.
          if_elim P (c == 8) (erase l) (store max c l) (λ _. erased l h)
            (λ e. stored c l (ne_of_test c 8 e) h))

-- A loop of such rounds ends at the first poll that ends the line, with a line that has the property.
module _ {E : Type 0} (P : Line → Type 0) (key : E → Line → Option Line) (ends : E → Bool)
    (kept : (e : E) (l : Line) → P l → Kept P (key e l))
    (ends_it : (e : E) (l : Line) → ends e ≡ true → key e l ≡ none)
    (goes_on : (e : E) (l : Line) → ends e ≡ false → (l' : Line) × (key e l ≡ some l')) where
  pub read_loop-ends :
      (before after : List E) (e : E) (l : Line)
      → All (λ p. ends p ≡ false) before
      → ends e ≡ true
      → P l
      → (last : Line) × P last
        × (read_loop key l (before ++ e ∷ after)
            ≡ some (record { text = last.buf; echoed = last.echo ++ 10 ∷ []; rest = after }))
  unfolding read_loop Kept
  read_loop-ends [] after e l none_before here h = (l, h, rw (ends_it e l here))
  read_loop-ends (p ∷ before) after e l none_before here h =
      let (l', on) = goes_on p l none_before.0 in
      let h' : P l' = subst (Kept P) on (kept p l h) in
      rw on (read_loop-ends before after e l' none_before.1 here h')
