-- ===== src/Tty/Tests.antt =====
-- Tests of the terminals at concrete characters.
use snowkernel.Base.{true, false, arith}
use snowkernel.Keymap.{Keymap, us}
use snowkernel.Keymap.Buffer
use snowkernel.Tty.{Tty, Ttys, tty_read, kbd_drain_to_tty}
use snowkernel.Tty.Ring.{IsRing, HasRead, tty_read-HasRead}
use snowkernel.Tty.Drain.{Drained, kbd_drain_to_tty-Drained}

-- Two characters wait, one on each side of the ring's end.
abbrev tty : Tty
tty = record { index = 0; inbuf = λ _. b'x'; in_head = 1; in_tail = 1023; foreground = true }

tty-IsRing : IsRing tty
tty-IsRing = record { head_in = omega arith; tail_in = omega arith }

tty_read-HasRead_example : HasRead 5 tty (tty_read tty 5)
tty_read-HasRead_example = tty_read-HasRead 5 tty tty-IsRing

abbrev ttys : Ttys
ttys = record { ttys = λ _. tty; active_tty = 2 }

-- Two typed characters.
abbrev keys : Keymap
keys = record {
  char_buf = λ _. b'k';
  char_head = 1;
  char_tail = 127;
  modifiers = 0;
  extended_prefix = false;
  active_layout = us;
  initialized = true;
}

keys-IsRing : Buffer.IsRing keys
keys-IsRing = record { head_in = omega arith; tail_in = omega arith }

kbd_drain_to_tty-Drained_example : Drained keys ttys (kbd_drain_to_tty 3 keys ttys)
kbd_drain_to_tty-Drained_example =
    kbd_drain_to_tty-Drained 3 keys ttys keys-IsRing tty-IsRing (omega arith)
