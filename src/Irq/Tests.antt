-- ===== src/Irq/Tests.antt =====
-- Tests of the interrupts: a pair of controllers, a table, and a keyboard that has two scancodes.
use snowkernel.Base.{
  ℕ, ◌-◌, ◌%◌, ◌^◌, true, false, ◌==◌, if◌then◌else◌, none, some, List, [], ◌∷◌, ◌≡◌, refl, arith,
}
use snowkernel.Keymap.{Keymap, us}
use snowkernel.Keymap.Process.{IsSound}
use snowkernel.Tty.{Tty, Ttys}
use snowkernel.Tty.Ring.{IsRing}
use snowkernel.Tty.Drain.{Drained}
use snowkernel.Irq.{
  Ports, irq_init_masks, Idt, Routines, idt_init, irq_init_gates, Irqs, irq_common_dispatch, warn,
  kbd_irq,
}
use snowkernel.Irq.Masks.{IsPic, irq_init-masks}
use snowkernel.Irq.Gates.{LeadsTo, IsPlaced, handler_of, type_of, irq_init-LeadsTo}
use snowkernel.Irq.Keys.{scancodes, process_all, has_end, kbd_irq-Drained}

-- Two controllers: their masks, and how many words of their start are to come.
record Chips : Type 0 where
  first : ℕ
  second : ℕ
  first_left : ℕ
  second_left : ℕ

unfoldable write : Chips → ℕ → ℕ → Chips
write c port v =
    if port == 0x20
    then (if v == 0x11 then record c { first_left = 3 } else c)
    else if port == 0xA0
    then (if v == 0x11 then record c { second_left = 3 } else c)
    else if port == 0x21
    then (if c.first_left == 0
        then record c { first = v }
        else record c { first_left = c.first_left - 1 })
    else if port == 0xA1
    then (if c.second_left == 0
        then record c { second = v }
        else record c { second_left = c.second_left - 1 })
    else c

unfoldable read : Chips → ℕ → ℕ
read c port = if port == 0x21 then c.first % 256 else if port == 0xA1 then c.second % 256 else 0

abbrev chips : Ports Chips
chips = record { outb = write; inb = read }

abbrev Ready : Chips → Type 0
Ready c = (c.first_left ≡ 0) × (c.second_left ≡ 0)

chips-IsPic : IsPic chips Ready
unfolding write read
chips-IsPic = record {
  byte = λ c port. ground arith;
  starts = λ c a b. (refl, refl);
  first = λ c v r. ground (arith, r);
  second = λ c v r. ground (arith, r);
  reads_first = λ c v r h. ground (arith, r, h);
  reads_second = λ c v r h. ground (arith, r, h);
  first_alone = λ c v r. ground (arith, r);
  second_alone = λ c v r. ground (arith, r);
}

abbrev chips_before : Chips
chips_before = record { first = 0xB8; second = 0x8E; first_left = 0; second_left = 0 }

irq_init-masks_example :
    (read (irq_init_masks chips chips_before) 0x21 ≡ 255 - 2 ^ 0 - 2 ^ 1)
    × (read (irq_init_masks chips chips_before) 0xA1 ≡ 255 - 2 ^ 4)
irq_init-masks_example = irq_init-masks chips Ready chips-IsPic chips_before

-- The handler of line 12 runs before the two acknowledgements, and a second message is not printed.
abbrev idle : Irqs Chips
idle = record { irq_handlers = λ _. none; warned = λ _. false; messages = [] }

dispatch_twice :
    (let out = irq_common_dispatch chips idle chips_before 12 in
      elim out [
        | none ↦ []
        | some (q, c) ↦ elim (irq_common_dispatch chips q c 12) [
          | none ↦ []
          | some (q', c') ↦ q'.messages
        ]
      ])
    ≡ 12 ∷ []
unfolding irq_common_dispatch warn
dispatch_twice = refl

abbrev routines : Routines
routines = record {
  default_isr = 0x101000;
  int80_entry64 = 0x102000;
  invalid_opcode_isr = 0x103000;
  page_fault_isr = 0x104000;
  irq_stub_ptrs = λ _. 0xFFFF800000105010;
}

routines-IsPlaced : IsPlaced routines
routines-IsPlaced = record {
  default = omega arith;
  int80 = omega arith;
  opcode = omega arith;
  fault = omega arith;
  stubs = λ i. omega arith;
}

abbrev no_gates : Idt
no_gates _ = record {
  offset_low = 0;
  selector = 0;
  ist = 0;
  type_attr = 0;
  offset_mid = 0;
  offset_high = 0;
  reserved = 0;
}

irq_init-LeadsTo_example :
    LeadsTo
      (handler_of routines 44)
      (type_of 44)
      (irq_init_gates routines (idt_init routines no_gates) 44)
irq_init-LeadsTo_example = irq_init-LeadsTo routines routines-IsPlaced no_gates 44 (omega arith)

abbrev tty : Tty
tty = record { index = 0; inbuf = λ _. b'x'; in_head = 1; in_tail = 1023; foreground = true }

abbrev ttys : Ttys
ttys = record { ttys = λ _. tty; active_tty = 2 }

tty-IsRing : IsRing tty
tty-IsRing = record { head_in = omega arith; tail_in = omega arith }

abbrev keys : Keymap
keys = record {
  char_buf = λ _. b'k';
  char_head = 0;
  char_tail = 0;
  modifiers = 0;
  extended_prefix = false;
  active_layout = us;
  initialized = true;
}

keys-IsSound : IsSound keys
keys-IsSound = record {
  ring = record { head_in = omega arith; tail_in = omega arith };
  flags = omega arith;
  typed = tt;
}

-- The key `a` goes down and up.
abbrev reads : List (ℕ × ℕ)
reads = (1, 0x1e) ∷ (0x15, 0x9e) ∷ (0x14, 0) ∷ []

kbd_irq-Drained_example :
    let k' = process_all (scancodes reads) keys in
    IsSound k' × Drained k' ttys (kbd_irq 128 reads keys ttys)
kbd_irq-Drained_example =
    kbd_irq-Drained reads keys ttys (unfold has_end in refl) keys-IsSound tty-IsRing
