-- ===== src/Mouse/Packets.antt =====
-- Sequences of mouse interrupts.
use snowkernel.Base.{
  ℕ, ◌+◌, ◌/◌, ◌%◌, ◌≤◌, ◌<◌, false, ◌==◌, ltb, if◌then◌else◌, List, [], ◌∷◌, update, ◌≡◌, refl,
  sym, ap, ◌∙◌, arith, if_elim, le→ltb,
}
use snowkernel.Base.Int.{ℤ, pos, negsuc, ◌+ℤ◌, ◌-ℤ◌, lt_ℤ}
use snowkernel.Mouse.{
  Mouse, signed_byte, bounded, buttons, take_packet, acknowledge, mouse_irq, mouse_get_position,
}

-- A coordinate from 0 to `top`.
unfoldable pub OnScreen : ℕ → ℤ → Type 0
OnScreen top v = (n : ℕ) × (v ≡ pos n) × (n ≤ top)

-- The coordinate after the first of the two tests.
abbrev raised : ℤ → ℤ
raised v = if lt_ℤ v (pos 0) then pos 0 else v

raised-pos : (v : ℤ) → (n : ℕ) × (raised v ≡ pos n)
raised-pos (pos n) = (n, rw (le→ltb n 0 (omega arith)) refl)
raised-pos (negsuc n) = (0, refl)

bounded-OnScreen : (top : ℕ) (v : ℤ) → OnScreen top (bounded top v)
unfolding bounded OnScreen
bounded-OnScreen top v =
    if_elim (OnScreen top) (lt_ℤ (pos top) (raised v)) (pos top) (raised v)
      (λ _. (top, refl, omega arith))
      (λ e.
        let (n, h) = raised-pos v in
        let low : ltb top n ≡ false = ap (λ (t : ℤ). lt_ℤ (pos top) t) (sym h) ∙ e in
        (n, h, ground (arith, low)))

-- The state between two interrupts: the position is on a screen of 1024 by 768, and the packet has
-- room for the next byte.
pub record IsMouse (s : Mouse) : Type 0 where
  pub x : OnScreen 1023 s.mx
  pub y : OnScreen 767 s.my
  pub room : s.packet_index < 3

-- The handler on a sequence of interrupts.
pub run : Mouse → List (ℕ × ℕ) → Mouse
unfolding mouse_irq
run s [] = s
run s (i ∷ is) = run (mouse_irq s i.0 i.1) is

mouse_irq-IsMouse : (s : Mouse) (status byte : ℕ) → IsMouse s → IsMouse (mouse_irq s status byte)
unfolding mouse_irq take_packet
mouse_irq-IsMouse s status byte v =
    let stored = record s {
      packet = update s.packet s.packet_index byte;
      packet_index = s.packet_index + 1;
    } in
    let more = s.packet_index + 1 == 3 in
    if_elim IsMouse (status / 32 % 2 == 1)
      (acknowledge (if more then take_packet stored else stored)) s
      (λ _.
        if_elim (λ t. IsMouse (acknowledge t)) more (take_packet stored) stored
          (λ _. record {
            x = bounded-OnScreen 1023 (s.mx +ℤ signed_byte (stored.packet 1));
            y = bounded-OnScreen 767 (s.my -ℤ signed_byte (stored.packet 2));
            room = omega arith;
          })
          (λ e. record { x = v.x; y = v.y; room = ground (arith, e, v.room) }))
      (λ _. v)

-- Whatever bytes a sequence of interrupts brings, from a state where the position is on a screen of
-- 1024 by 768 and fewer than three bytes of a packet are stored: so it is after the sequence, and the
-- index with which each byte is stored is inside `packet`.
pub run-IsMouse : (s : Mouse) (is : List (ℕ × ℕ)) → IsMouse s → IsMouse (run s is)
unfolding run
run-IsMouse s [] v = v
run-IsMouse s (i ∷ is) v = run-IsMouse (mouse_irq s i.0 i.1) is (mouse_irq-IsMouse s i.0 i.1 v)

-- A byte stored at an index.
abbrev stored_at : Mouse → ℕ → ℕ → Mouse
stored_at s i byte = record s { packet = update s.packet i byte; packet_index = i + 1 }

byte-stored :
    (s : Mouse) (i byte : ℕ)
    → s.packet_index ≡ i
    → mouse_irq s 0x20 byte
      ≡ acknowledge (if i + 1 == 3 then take_packet (stored_at s i byte) else stored_at s i byte)
unfolding mouse_irq
byte-stored s i byte e =
    ap
      (λ (i : ℕ).
        acknowledge (if i + 1 == 3 then take_packet (stored_at s i byte) else stored_at s i byte))
      e

-- Three interrupts from the mouse, with no packet begun, move the position by the second byte to the
-- right and by the third up, as signed bytes and within the screen, set the buttons from the lowest
-- three bits of the first, and leave no packet begun.
pub three-bytes :
    (s : Mouse) (b dx dy : ℕ)
    → s.packet_index ≡ 0
    → (mouse_get_position (run s ((0x20, b) ∷ (0x20, dx) ∷ (0x20, dy) ∷ []))
        ≡ (bounded 1023 (s.mx +ℤ signed_byte dx), bounded 767 (s.my -ℤ signed_byte dy)))
      × ((run s ((0x20, b) ∷ (0x20, dx) ∷ (0x20, dy) ∷ [])).mb ≡ buttons b)
      × ((run s ((0x20, b) ∷ (0x20, dx) ∷ (0x20, dy) ∷ [])).packet_index ≡ 0)
unfolding run mouse_irq take_packet mouse_get_position
three-bytes s b dx dy e =
    let one = acknowledge (stored_at s 0 b) in
    let two = acknowledge (stored_at one 1 dx) in
    let steps : run s ((0x20, b) ∷ (0x20, dx) ∷ (0x20, dy) ∷ [])
        ≡ acknowledge (take_packet (stored_at two 2 dy)) =
      ap (λ (t : Mouse). mouse_irq (mouse_irq t 0x20 dx) 0x20 dy) (byte-stored s 0 b e)
      ∙ ap (λ (t : Mouse). mouse_irq t 0x20 dy) (byte-stored one 1 dx refl)
      ∙ byte-stored two 2 dy refl in
    (
      ap (λ (t : Mouse). mouse_get_position t) steps,
      ap (λ (t : Mouse). t.mb) steps,
      ap (λ (t : Mouse). t.packet_index) steps,
    )
