-- ===== src/Irq.antt =====
-- The interrupt controllers of src/kernel/pic.c, the descriptor table of src/kernel/idt.c, and the
-- handlers of src/kernel/irq.c, src/cpu/irq_timer.c and src/cpu/irq_kbd.c.
pub mod Masks
pub mod Gates
pub mod Keys
mod Tests
use snowkernel.Base.{
  ℕ, zero, suc, ◌+◌, ◌-◌, ◌*◌, ◌/◌, ◌%◌, ◌^◌, Bool, true, false, ◌||◌, not, ◌==◌, ltb, leb,
  if◌then◌else◌, Option, none, some, List, [], ◌∷◌, ◌++◌, update,
}
use Prim.Native.Nat.{bit_or, bit_and}
use snowkernel.Base.Int.{ℤ, pos, negsuc}
use snowkernel.Keymap.{Keymap, keymap_process_scancode}
use snowkernel.Tty.{Ttys, kbd_drain_to_tty}

-- The controllers, which the code reaches through ports: what a write does to them, and what a read
-- gives. A read of a mask changes nothing.
pub record Ports (C : Type 0) : Type 0 where
  pub outb : C → ℕ → ℕ → C
  pub inb : C → ℕ → ℕ

module _ {C : Type 0} (io : Ports C) where
  -- The two masks are kept over the start of both controllers.
  unfoldable pub pic_remap : C → ℕ → ℕ → C
  pic_remap c offset1 offset2 =
      let a1 = io.inb c 0x21 in
      let a2 = io.inb c 0xA1 in
      let c = io.outb (io.outb c 0x20 0x11) 0xA0 0x11 in
      let c = io.outb (io.outb c 0x21 (offset1 % 256)) 0xA1 (offset2 % 256) in
      let c = io.outb (io.outb c 0x21 4) 0xA1 2 in
      let c = io.outb (io.outb c 0x21 1) 0xA1 1 in io.outb (io.outb c 0x21 a1) 0xA1 a2

  unfoldable pub pic_get_masks : C → ℕ
  pic_get_masks c = bit_or (io.inb c 0xA1 * 256 % 2 ^ 16) (io.inb c 0x21)

  unfoldable pub pic_set_masks : C → ℕ → C
  pic_set_masks c m = io.outb (io.outb c 0x21 (m % 256)) 0xA1 (m / 256 % 256)

  -- `m |= (1u << irq_line)` and `m &= ~(1u << irq_line)`, for a line below 32.
  unfoldable pub pic_set_mask : C → ℕ → C
  unfolding pic_get_masks pic_set_masks
  pic_set_mask c irq_line = pic_set_masks c (bit_or (pic_get_masks c) (2 ^ irq_line) % 2 ^ 16)

  unfoldable pub pic_clear_mask : C → ℕ → C
  unfolding pic_get_masks pic_set_masks
  pic_clear_mask c irq_line =
      pic_set_masks c (bit_and (pic_get_masks c) (2 ^ 32 - 1 - 2 ^ irq_line) % 2 ^ 16)

  unfoldable pub pic_eoi : C → ℕ → C
  pic_eoi c irq = let c' = if leb 8 irq then io.outb c 0xA0 0x20 else c in io.outb c' 0x20 0x20

  -- The loop over `pic_set_mask`, with `n` lines left from `i` on.
  unfoldable pub mask_lines : ℕ → ℕ → C → C
  mask_lines zero i c = c
  mask_lines (suc n) i c = mask_lines n (suc i) (pic_set_mask c i)

  -- What `irq_init` does with the controllers.
  unfoldable pub irq_init_masks : C → C
  irq_init_masks c =
      let c = mask_lines 16 0 (pic_remap c 0x20 0x28) in
      pic_clear_mask (pic_clear_mask (pic_clear_mask c 0) 1) 12

-- An entry of the table, in its 64-bit layout.
pub record Gate : Type 0 where
  pub offset_low : ℕ
  pub selector : ℕ
  pub ist : ℕ
  pub type_attr : ℕ
  pub offset_mid : ℕ
  pub offset_high : ℕ
  pub reserved : ℕ

abbrev pub Idt : Type 0
Idt = ℕ → Gate

-- A handler is the address of its code.
unfoldable pub set_entry64 : Idt → ℤ → ℕ → ℕ → Idt
set_entry64 idt (negsuc n) addr type_attr = idt
set_entry64 idt (pos vec) addr type_attr =
    if leb 256 vec
    then idt
    else update idt vec (record {
      offset_low = addr % 2 ^ 16;
      selector = 8;
      ist = 0;
      type_attr = type_attr % 256;
      offset_mid = addr / 2 ^ 16 % 2 ^ 16;
      offset_high = addr / 2 ^ 32 % 2 ^ 32;
      reserved = 0;
    })

unfoldable pub idt_set_gate : Idt → ℤ → ℕ → ℕ → Idt
unfolding set_entry64
idt_set_gate idt vec handler type_attr = set_entry64 idt vec handler type_attr

-- The addresses of the routines that the two files name.
pub record Routines : Type 0 where
  pub default_isr : ℕ
  pub int80_entry64 : ℕ
  pub invalid_opcode_isr : ℕ
  pub page_fault_isr : ℕ
  pub irq_stub_ptrs : ℕ → ℕ

-- A loop over `idt_set_gate` that installs `handler` at the vectors from `base`, with `n` left from
-- the number `i` on.
unfoldable pub set_gates : (ℕ → ℕ) → ℕ → ℕ → ℕ → Idt → Idt
unfolding idt_set_gate
set_gates handler base zero i idt = idt
set_gates handler base (suc n) i idt =
    set_gates handler base n (suc i) (idt_set_gate idt (pos (base + i)) (handler i) 0x8E)

unfoldable pub idt_init : Routines → Idt → Idt
idt_init r idt =
    let idt = set_gates (λ i. r.default_isr) 0 256 0 idt in
    let idt = idt_set_gate idt (pos 0x80) r.int80_entry64 0xEE in
    let idt = idt_set_gate idt (pos 6) r.invalid_opcode_isr 0x8E in
    idt_set_gate idt (pos 14) r.page_fault_isr 0x8E

-- What `irq_init` does with the table.
unfoldable pub irq_init_gates : Routines → Idt → Idt
irq_init_gates r idt = set_gates r.irq_stub_ptrs 0x20 16 0 idt

-- The handlers, which change a state `S`, and the lines that a message has warned of, in order.
pub record Irqs (S : Type 0) : Type 0 where
  pub irq_handlers : ℕ → Option (S → S)
  pub warned : ℕ → Bool
  pub messages : List ℕ

unfoldable pub irq_install_handler : {S : Type 0} → Irqs S → ℤ → Option (S → S) → Irqs S
irq_install_handler q (negsuc n) h = q
irq_install_handler q (pos irq) h =
    if ltb irq 16 then record q { irq_handlers = update q.irq_handlers irq h } else q

unfoldable pub warn : {S : Type 0} → Irqs S → ℕ → Irqs S
warn q irq =
    if q.warned irq
    then q
    else record q { warned = update q.warned irq true; messages = q.messages ++ irq ∷ [] }

-- `ports` is how the state's controllers are reached. The result is `none` for a line from 16 on,
-- where `warned` is read past its end.
unfoldable pub irq_common_dispatch : {S : Type 0} → Ports S → Irqs S → S → ℕ → Option (Irqs S × S)
unfolding pic_eoi warn
irq_common_dispatch io q s irq = if leb 16 irq then none else elim (q.irq_handlers irq) [
  | none ↦ some (warn q irq, pic_eoi io s irq)
  | some h ↦ some (q, pic_eoi io (h s) irq)
]

-- `timer_irq` on the 64-bit `ticks`.
unfoldable pub timer_irq : ℕ → ℕ
timer_irq ticks = (ticks + 1) % 2 ^ 64

-- The loop of `kbd_irq`, on what successive reads of the ports 0x64 and 0x60 give: a read of the
-- second is made only where the first has its lowest bit set.
unfoldable pub read_scancodes : List (ℕ × ℕ) → Keymap → Option Keymap
read_scancodes [] k = none
read_scancodes ((status, sc) ∷ rest) k =
    let more = read_scancodes rest (keymap_process_scancode k (sc % 256)) in
    if status % 2 == 1 then more else some k

-- The result is `none` where the reads end before a status without that bit, or `fuel` rounds do not
-- empty the keyboard's ring.
unfoldable pub kbd_irq : ℕ → List (ℕ × ℕ) → Keymap → Ttys → Option (Keymap × Ttys)
unfolding read_scancodes
kbd_irq fuel reads k s = elim (read_scancodes reads k) [
  | none ↦ none
  | some k' ↦ kbd_drain_to_tty fuel k' s
]
