-- ===== src/Tty/Ring.antt =====
-- A terminal's ring as a queue of at most 1023 characters that refuses more.
use snowkernel.Base.{
  ℕ, zero, suc, ◌≤◌, ◌<◌, true, false, ◌==◌, if◌then◌else◌, List, [], ◌∷◌, ◌++◌, length, take, drop,
  ◌≡◌, refl, ap, arith, Bool-cases, inl, inr,
}
use snowkernel.Base.Ring.{next, gap, window, window_push, length-window}
use snowkernel.Tty.{Tty, tty_buf, putc, tty_read}

pub record IsRing (t : Tty) : Type 0 where
  pub head_in : t.in_head < tty_buf
  pub tail_in : t.in_tail < tty_buf

-- The characters that wait to be read, oldest first.
abbrev pub waiting : Tty → List ℕ
waiting t = window t.inbuf tty_buf t.in_tail (gap tty_buf t.in_tail t.in_head)

unfoldable pub queue_putc : List ℕ → ℕ → List ℕ
queue_putc q c = if length q == 1023 then q else q ++ c ∷ []

pub length-waiting : (t : Tty) → length (waiting t) ≡ gap tty_buf t.in_tail t.in_head
length-waiting t = length-window t.inbuf tty_buf t.in_tail _

pub length-waiting-le : (t : Tty) → IsRing t → length (waiting t) ≤ 1023
length-waiting-le t v = rw (length-waiting t) (ground (arith, v))

pub putc-IsRing : {t : Tty} (c : ℕ) → IsRing t → IsRing (putc t c)
unfolding putc
putc-IsRing c v = ground arith

module _ (t : Tty) (c : ℕ) (v : IsRing t) where
  open t use {inbuf, in_head, in_tail}

  gap_when_full : (next tty_buf in_head == in_tail) ≡ true → gap tty_buf in_tail in_head ≡ 1023
  gap_when_full e = ground (arith, v)

  gap_otherwise :
      (next tty_buf in_head == in_tail) ≡ false
      → (gap tty_buf in_tail (next tty_buf in_head) ≡ suc (gap tty_buf in_tail in_head))
        × ((gap tty_buf in_tail in_head == 1023) ≡ false)
  gap_otherwise e = ground (arith, v)

  -- `tty_kbd_putc` appends the character, or drops it where 1023 characters wait.
  pub waiting-putc : waiting (putc t c) ≡ queue_putc (waiting t) c
  unfolding putc queue_putc
  waiting-putc = elim (Bool-cases (next tty_buf in_head == in_tail)) [
    | inl full ↦ rw (full, length-waiting t, gap_when_full full)
    | inr room ↦
        let (g, m) = gap_otherwise room in
        rw (room, length-waiting t, m, g)
          (window_push tty_buf inbuf c _ in_tail in_head v.tail_in v.head_in refl)
  ]

abbrev after_one : Tty → Tty
after_one t = record t { in_tail = next tty_buf t.in_tail }

gap_empty : (t : Tty) → (t.in_tail == t.in_head) ≡ true → gap tty_buf t.in_tail t.in_head ≡ 0
gap_empty t e = ground arith

gap_more :
    (t : Tty)
    → IsRing t
    → (t.in_tail == t.in_head) ≡ false
    → gap tty_buf t.in_tail t.in_head ≡ suc (gap tty_buf (next tty_buf t.in_tail) t.in_head)
gap_more t v e = ground (arith, v)

after_one-IsRing : (t : Tty) → IsRing t → IsRing (after_one t)
after_one-IsRing t v = record { head_in = v.head_in; tail_in = omega arith }

-- What `tty_read` has done: the bytes read, and the terminal after them.
pub record HasRead (n : ℕ) (t : Tty) (out : List ℕ × Tty) : Type 0 where
  pub bytes : out.0 ≡ take n (waiting t)
  pub rest : waiting out.1 ≡ drop n (waiting t)
  pub ring : IsRing out.1

-- `tty_read` takes the oldest characters, as many as are asked for or as there are, in order, and
-- leaves the others waiting.
pub tty_read-HasRead : (n : ℕ) (t : Tty) → IsRing t → HasRead n t (tty_read t n)
unfolding tty_read
tty_read-HasRead zero t v = record { bytes = refl; rest = refl; ring = v }
tty_read-HasRead (suc n) t v = elim (Bool-cases (t.in_tail == t.in_head)) [
  | inl e ↦ record { bytes = rw (e, gap_empty t e); rest = rw (e, gap_empty t e); ring = rw e v }
  | inr e ↦
      let ih = tty_read-HasRead n (after_one t) (after_one-IsRing t v) in
      record {
        bytes = rw (e, gap_more t v e) (ap (λ l. t.inbuf t.in_tail ∷ l) ih.bytes);
        rest = rw (e, gap_more t v e) ih.rest;
        ring = rw e ih.ring;
      }
]
