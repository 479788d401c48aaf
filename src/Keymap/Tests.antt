-- ===== src/Keymap/Tests.antt =====
-- Tests of the keyboard at concrete scancodes.
use snowkernel.Base.{true, false, refl, arith}
use snowkernel.Keymap.{Keymap, is_accepted, us, keymap_process_scancode}
use snowkernel.Keymap.Buffer.{IsRing}
use snowkernel.Keymap.Process.{IsSound, typable, keymap_process_scancode-IsSound}

-- The ring holds an `a` at its last place.
abbrev typed : Keymap
typed = record {
  char_buf = λ _. b'a';
  char_head = 0;
  char_tail = 127;
  modifiers = 2;
  extended_prefix = false;
  active_layout = us;
  initialized = true;
}

typed-IsRing : IsRing typed
typed-IsRing = record { head_in = omega arith; tail_in = omega arith }

typed-IsSound : IsSound typed
unfolding typable is_accepted
typed-IsSound = record { ring = typed-IsRing; flags = omega arith; typed = (refl, tt) }

keymap_process_scancode-IsSound_example : IsSound (keymap_process_scancode typed 0x1e)
keymap_process_scancode-IsSound_example =
    keymap_process_scancode-IsSound typed 0x1e (omega arith) (λ _. typed-IsSound)
