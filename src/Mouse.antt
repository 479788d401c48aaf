-- ===== src/Mouse.antt =====
-- The mouse's interrupt handler of src/kernel/mouse.c, packet by packet.
pub mod Packets
mod Tests
use snowkernel.Base.{
  ℕ, zero, suc, ◌+◌, ◌-◌, ◌*◌, ◌/◌, ◌%◌, ◌^◌, Bool, true, false, ◌==◌, ltb, if◌then◌else◌, List, [],
  ◌∷◌, ◌++◌, update, Option, none, some,
}
use snowkernel.Base.Int.{ℤ, pos, negsuc, ◌+ℤ◌, ◌-ℤ◌, lt_ℤ}

-- The file's statics, the bytes that went to ports in order, and for each line that the handler
-- printed `dx` and `dy`. The position stays far below the bounds of an `int`.
pub record Mouse : Type 0 where
  pub mx : ℤ
  pub my : ℤ
  pub mb : ℕ
  pub packet : ℕ → ℕ
  pub packet_index : ℕ
  pub dbg_counter : ℕ
  pub ports : List (ℕ × ℕ)
  pub printed : List (ℤ × ℤ)

-- `(int)((int8_t)b)` for a byte.
abbrev pub signed_byte : ℕ → ℤ
signed_byte b = if ltb b 128 then pos b else negsuc (255 - b)

-- Two tests that keep a coordinate from 0 to `top`.
unfoldable pub bounded : ℕ → ℤ → ℤ
bounded top v =
    let low = if lt_ℤ v (pos 0) then pos 0 else v in if lt_ℤ (pos top) low then pos top else low

-- `((b & 1) ? 1 : 0) | ((b & 2) ? 2 : 0) | ((b & 4) ? 4 : 0)`: the parts share no bit.
abbrev pub buttons : ℕ → ℕ
buttons b =
    (if b % 2 == 1 then 1 else 0)
    + (if b / 2 % 2 == 1 then 2 else 0)
    + (if b / 4 % 2 == 1 then 4 else 0)

-- What the handler does with a whole packet.
unfoldable pub take_packet : Mouse → Mouse
unfolding bounded
take_packet s =
    let dx = signed_byte (s.packet 1) in
    let dy = signed_byte (s.packet 2) in
    let count = s.dbg_counter + 1 in
    record s {
      mx = bounded 1023 (s.mx +ℤ dx);
      my = bounded 767 (s.my -ℤ dy);
      mb = buttons (s.packet 0);
      packet_index = 0;
      dbg_counter = count;
      printed = if count % 50 == 0 then s.printed ++ (dx, dy) ∷ [] else s.printed;
    }

abbrev pub acknowledge : Mouse → Mouse
acknowledge s = record s { ports = s.ports ++ (0x20, 0x20) ∷ (0xA0, 0x20) ∷ [] }

-- `mouse_irq`, by the bytes that the status port and the data port give.
unfoldable pub mouse_irq : Mouse → ℕ → ℕ → Mouse
unfolding take_packet
mouse_irq s status byte =
    let stored = record s {
      packet = update s.packet s.packet_index byte;
      packet_index = s.packet_index + 1;
    } in
    if status / 32 % 2 == 1
    then acknowledge (if stored.packet_index == 3 then take_packet stored else stored)
    else s

unfoldable pub mouse_get_position : Mouse → ℤ × ℤ
mouse_get_position s = (s.mx, s.my)

unfoldable pub mouse_get_buttons : Mouse → ℕ
mouse_get_buttons s = s.mb
