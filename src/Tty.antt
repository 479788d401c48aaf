-- ===== src/Tty.antt =====
-- The terminals of src/kernel/tty.c: the keyboard's interrupt puts characters into the active
-- terminal's ring, and readers take them out.
pub mod Ring
pub mod Drain
mod Tests
use snowkernel.Base.{
  ℕ, zero, suc, ◌+◌, ◌%◌, Bool, true, false, Option, none, some, ◌==◌, ltb, if◌then◌else◌, update,
  List, [], ◌∷◌, ◌++◌, length,
}
use snowkernel.Base.Ring.{next}
use snowkernel.Keymap.{Keymap, keymap_get_char}

abbrev pub tty_max : ℕ
tty_max = 4

abbrev pub tty_buf : ℕ
tty_buf = 1024

-- `tty_t`. `in_head` is the producer's index, `in_tail` the reader's.
pub record Tty : Type 0 where
  pub index : ℕ
  pub inbuf : ℕ → ℕ
  pub in_head : ℕ
  pub in_tail : ℕ
  pub foreground : Bool

-- `ttys` and `active_tty`.
pub record Ttys : Type 0 where
  pub ttys : ℕ → Tty
  pub active_tty : ℕ

-- The `uint16_t` cast of `ring_next` cuts nothing off, the remainder being below 1024.
pub ring_next : ℕ → ℕ
ring_next v = next tty_buf v

-- One entry for each terminal; an entry past `tty_max` is no terminal.
pub tty_init : Ttys → Ttys
tty_init s = record s {
  ttys = λ i.
      if ltb i tty_max
      then record (s.ttys i) { index = i; in_head = 0; in_tail = 0; foreground = i == 0 }
      else s.ttys i;
}

-- The index stands for the address `&ttys[idx]`.
pub tty_get : ℕ → Option ℕ
tty_get idx = if ltb idx tty_max then some idx else none

-- A negative `idx` is out of range too; it has no counterpart here.
pub tty_set_active : Ttys → ℕ → Ttys
tty_set_active s idx =
    if ltb idx tty_max
    then record s {
      active_tty = idx;
      ttys = λ i. if ltb i tty_max then record (s.ttys i) { foreground = i == idx } else s.ttys i;
    }
    else s

-- A full ring drops the new character.
pub putc : Tty → ℕ → Tty
unfolding ring_next
putc t c =
    let nh = ring_next t.in_head in
    if nh == t.in_tail then t else record t { inbuf = update t.inbuf t.in_head c; in_head = nh }

pub tty_kbd_putc : Ttys → ℕ → Ttys
unfolding putc
tty_kbd_putc s c = record s { ttys = update s.ttys s.active_tty (putc (s.ttys s.active_tty) c) }

-- The loop of `tty_read`, with `count - r` rounds left. The bytes are those stored from `buf[r]` on;
-- the number returned is how many there are.
unfoldable pub tty_read : Tty → ℕ → List ℕ × Tty
unfolding ring_next
tty_read t zero = ([], t)
tty_read t (suc left) =
    let (cs, t') = tty_read (record t { in_tail = ring_next t.in_tail }) left in
    if t.in_tail == t.in_head then ([], t) else (t.inbuf t.in_tail ∷ cs, t')

-- `kbd_drain_to_tty` of src/drivers/keyboard.c: the loop runs until the keyboard's ring is empty.
-- `none` is a loop that has not ended on this fuel.
pub kbd_drain_to_tty : ℕ → Keymap → Ttys → Option (Keymap × Ttys)
unfolding tty_kbd_putc
kbd_drain_to_tty zero k s = none
kbd_drain_to_tty (suc fuel) k s =
    let (ch, k') = keymap_get_char k in
    elim ch [ none ↦ some (k', s) | some c ↦ kbd_drain_to_tty fuel k' (tty_kbd_putc s c) ]
