-- ===== src/Irq/Gates.antt =====
-- The descriptor table that `idt_init` and `irq_init` leave.
use snowkernel.Base.{
  ℕ, zero, suc, ◌+◌, ◌-◌, ◌*◌, ◌^◌, ◌≤◌, ◌<◌, ◌==◌, ltb, leb, ◌&&◌, if◌then◌else◌, false, ◌≡◌, ◌≢◌,
  refl, sym, subst, ◌∙◌, arith, Bool-cases, inl, inr, ◌⊎◌, ==→eq,
}
use snowkernel.Base.Int.{pos}
use snowkernel.Irq.{
  Gate, Idt, Routines, set_entry64, idt_set_gate, set_gates, idt_init, irq_init_gates,
}

-- The address that the processor puts together from an entry.
unfoldable pub address_of : Gate → ℕ
address_of g = g.offset_low + g.offset_mid * 2 ^ 16 + g.offset_high * 2 ^ 32

-- An entry that leads to a handler through the kernel's code segment, on the stack in use, with the
-- given type and privilege.
pub record LeadsTo (handler type_attr : ℕ) (g : Gate) : Type 0 where
  pub address : address_of g ≡ handler
  pub kind : g.type_attr ≡ type_attr
  pub segment : g.selector ≡ 8
  pub stack : g.ist ≡ 0

gate_self :
    (idt : Idt) (vec handler type_attr : ℕ)
    → vec < 256
    → handler < 2 ^ 64
    → type_attr < 256
    → LeadsTo handler type_attr (idt_set_gate idt (pos vec) handler type_attr vec)
unfolding idt_set_gate set_entry64 address_of
gate_self idt vec handler type_attr h b t = record {
  address = ground (arith, h, b);
  kind = ground (arith, h, t);
  segment = ground (arith, h);
  stack = ground (arith, h);
}

gate_other :
    (idt : Idt) (vec other handler type_attr : ℕ)
    → other ≢ vec
    → idt_set_gate idt (pos vec) handler type_attr other ≡ idt other
unfolding idt_set_gate set_entry64
gate_other idt vec other handler type_attr ne = ground (arith, ne)

-- One gate more: the vector leads to the new handler where it is the one, and else where it led to.
gate_step :
    (idt : Idt) (vec other handler type_attr old kind : ℕ)
    → vec < 256
    → handler < 2 ^ 64
    → type_attr < 256
    → LeadsTo old kind (idt other)
    → LeadsTo
        (if other == vec then handler else old)
        (if other == vec then type_attr else kind)
        (idt_set_gate idt (pos vec) handler type_attr other)
gate_step idt vec other handler type_attr old kind h b t was = elim (Bool-cases (other == vec)) [
  | inl e ↦ rw (e, ==→eq other vec e) (gate_self idt vec handler type_attr h b t)
  | inr e ↦ rw (e, gate_other idt vec other handler type_attr (λ same. ground (arith, same, e))) was
]

set_gates-outside :
    (handler : ℕ → ℕ) (base n i vec : ℕ) (idt : Idt)
    → (vec < base + i) ⊎ (base + i + n ≤ vec)
    → set_gates handler base n i idt vec ≡ idt vec
unfolding set_gates
set_gates-outside handler base zero i vec idt out = refl
set_gates-outside handler base (suc n) i vec idt out =
    set_gates-outside handler base n (suc i) vec _
      (elim out [ inl h ↦ inl (omega (arith, h)) | inr h ↦ inr (omega (arith, h)) ])
    ∙ gate_other idt (base + i) vec (handler i) 0x8E
        (λ e. elim out [ inl h ↦ omega (arith, h, e) | inr h ↦ omega (arith, h, e) ])

set_gates-inside :
    (handler : ℕ → ℕ) (base n i k : ℕ) (idt : Idt)
    → ((x : ℕ) → handler x < 2 ^ 64)
    → base + i + n ≤ 256
    → i ≤ k
    → k < i + n
    → LeadsTo (handler k) 0x8E (set_gates handler base n i idt (base + k))
unfolding set_gates
set_gates-inside handler base zero i k idt b h low high = absurd (omega (arith, low, high))
set_gates-inside handler base (suc n) i k idt b h low high = elim (Bool-cases (k == i)) [
  | inl same ↦
      let e = ==→eq k i same in
      rw (e, set_gates-outside handler base n (suc i) (base + i) _ (inl (omega arith)))
        (gate_self idt (base + i) (handler i) 0x8E (omega (arith, h)) (b i) (omega arith))
  | inr later ↦
      set_gates-inside handler base n (suc i) k _ b (omega (arith, h)) (ground (arith, later, low))
        (omega (arith, high))
]

-- The routines' addresses have 64 bits.
pub record IsPlaced (r : Routines) : Type 0 where
  pub default : r.default_isr < 2 ^ 64
  pub int80 : r.int80_entry64 < 2 ^ 64
  pub opcode : r.invalid_opcode_isr < 2 ^ 64
  pub fault : r.page_fault_isr < 2 ^ 64
  pub stubs : (i : ℕ) → r.irq_stub_ptrs i < 2 ^ 64

-- The handler of a vector that is no interrupt line's.
unfoldable trap_of : Routines → ℕ → ℕ
trap_of r vec =
    if vec == 14
    then r.page_fault_isr
    else if vec == 6
    then r.invalid_opcode_isr
    else if vec == 0x80
    then r.int80_entry64
    else r.default_isr

-- The handler that a vector is meant to have, and its type: the system call's gate may be used from
-- the user's ring.
unfoldable pub handler_of : Routines → ℕ → ℕ
unfolding trap_of
handler_of r vec =
    if leb 0x20 vec && ltb vec 0x30 then r.irq_stub_ptrs (vec - 0x20) else trap_of r vec

unfoldable pub type_of : ℕ → ℕ
type_of vec = if vec == 0x80 then 0xEE else 0x8E

module _ (r : Routines) (v : IsPlaced r) (idt : Idt) (vec : ℕ) (h : vec < 256) where
  -- Outside the lines' vectors.
  idt_init_lem :
      (leb 0x20 vec && ltb vec 0x30) ≡ false
      → LeadsTo (handler_of r vec) (type_of vec) (idt_init r idt vec)
  unfolding idt_init handler_of type_of trap_of
  idt_init_lem out =
      let t0 = set_gates (λ i. r.default_isr) 0 256 0 idt in
      let t1 = idt_set_gate t0 (pos 0x80) r.int80_entry64 0xEE in
      let t2 = idt_set_gate t1 (pos 6) r.invalid_opcode_isr 0x8E in
      let zeroth : LeadsTo r.default_isr 0x8E (t0 vec) =
        subst (λ x. LeadsTo r.default_isr 0x8E (t0 x)) (omega arith)
          (set_gates-inside (λ i. r.default_isr) 0 256 0 vec idt (λ i. v.default) (omega arith)
            (omega arith) (omega (arith, h))) in
      let first =
        gate_step t0 0x80 vec r.int80_entry64 0xEE _ _ (omega arith) v.int80 (omega arith) zeroth in
      let second =
        gate_step t1 6 vec r.invalid_opcode_isr 0x8E _ _ (omega arith) v.opcode (omega arith)
          first in
      let third =
        gate_step t2 14 vec r.page_fault_isr 0x8E _ _ (omega arith) v.fault (omega arith) second in
      let kind : (if vec == 14
            then 0x8E
            else if vec == 6
            then 0x8E
            else if vec == 0x80
            then 0xEE
            else 0x8E)
          ≡ type_of vec =
        ground arith in
      rw out (subst (λ x. LeadsTo (trap_of r vec) x (idt_init r idt vec)) kind third)

  outside : (leb 0x20 vec && ltb vec 0x30) ≡ false → (vec < 0x20 + 0) ⊎ (0x20 + 0 + 16 ≤ vec)
  outside out = elim (Bool-cases (ltb vec 0x20)) [
    | inl e ↦ inl (ground (arith, e))
    | inr e ↦ inr (ground (arith, e, out))
  ]

  -- Where the routines' addresses have 64 bits, after `idt_init` and then `irq_init` every vector
  -- leads through the kernel's code segment to its own handler: 32 to 47 to the stubs of the lines, 6
  -- and 14 to those of the two faults, 0x80 to the system call, the only one with the type that the
  -- user's ring may use, and every other to the default.
  pub irq_init-LeadsTo :
      LeadsTo (handler_of r vec) (type_of vec) (irq_init_gates r (idt_init r idt) vec)
  unfolding irq_init_gates handler_of type_of
  irq_init-LeadsTo = elim (Bool-cases (leb 0x20 vec && ltb vec 0x30)) [
    | inl line ↦
        let k = vec - 0x20 in
        let whole : vec ≡ 0x20 + k = ground (arith, line) in
        let inside =
          set_gates-inside r.irq_stub_ptrs 0x20 16 0 k (idt_init r idt) v.stubs (omega arith)
            (omega arith) (ground (arith, line)) in
        let other : (vec == 0x80) ≡ false = ground (arith, line) in
        rw (line, other)
          (subst
            (λ x.
              LeadsTo (r.irq_stub_ptrs k) 0x8E
                (set_gates r.irq_stub_ptrs 0x20 16 0 (idt_init r idt) x))
            (sym whole) inside)
    | inr out ↦
        rw (set_gates-outside r.irq_stub_ptrs 0x20 16 0 vec (idt_init r idt) (outside out))
          (idt_init_lem out)
  ]
