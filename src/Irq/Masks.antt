-- ===== src/Irq/Masks.antt =====
-- The masks that `irq_init` leaves, on controllers that keep the masks written to them.
use snowkernel.Base.{
  ℕ, zero, suc, ◌+◌, ◌-◌, ◌*◌, ◌/◌, ◌%◌, ◌^◌, ◌≤◌, ◌<◌, ◌≡◌, refl, sym, ap, ◌∙◌, arith,
}
use Prim.Native.Nat.{bit_or, bit_and}
use native.Mathlib.Nat.{pow-suc, mul_assoc, pow-le-pow_right}
use snowkernel.Base.Bits.{bit_or_low, bit_or-zero, bit_or_add}
use snowkernel.Irq.{
  Ports, pic_remap, pic_get_masks, pic_set_masks, pic_set_mask, pic_clear_mask, mask_lines,
  irq_init_masks,
}

below_2_16 : (i : ℕ) → i < 16 → 2 ^ i < 2 ^ 16
below_2_16 i h =
    let le : 2 ^ i ≤ 2 ^ 15 =
      pow-le-pow_right {n = 2} (omega arith) {i = i} {j = 15} (omega (arith, h)) in
    omega (arith, le)

-- `|` of two numbers of `k` binary digits has at most `k`.
bit_or-bound : (k x y : ℕ) → x < 2 ^ k → y < 2 ^ k → bit_or x y < 2 ^ k
bit_or-bound zero x y hx hy = ground (arith, bit_or-zero 0)
bit_or-bound (suc k) x y hx hy = ground (
  arith,
  pow-suc 2 k,
  bit_or_low x y,
  bit_or-bound k (x / 2) (y / 2) (omega (arith, pow-suc 2 k)) (omega (arith, pow-suc 2 k)),
)

-- Where the lowest `j` binary digits are ones, `|` of the next makes it the lowest `suc j`: the
-- number's successor is a multiple of the power of two.
bit_or-next : (j m q : ℕ) → m + 1 ≡ q * 2 ^ j → (r : ℕ) × (bit_or m (2 ^ j) + 1 ≡ r * 2 ^ suc j)
bit_or-next zero m q h = (m / 2 + 1, ground (arith, bit_or_low m 1, bit_or-zero (m / 2)))
bit_or-next (suc j) m q h =
    let twice = pow-suc 2 j in
    let doubled : q * 2 ^ suc j ≡ q * 2 ^ j * 2 =
      ap (λ (t : ℕ). q * t) twice ∙ sym (mul_assoc q (2 ^ j) 2) in
    let (r, ih) = bit_or-next j (m / 2) q (omega (arith, h, doubled)) in
    let doubled' : r * 2 ^ suc (suc j) ≡ r * 2 ^ suc j * 2 =
      ap (λ (t : ℕ). r * t) (pow-suc 2 (suc j)) ∙ sym (mul_assoc r (2 ^ suc j) 2) in
    let half : bit_or (m / 2) (2 ^ suc j / 2) ≡ bit_or (m / 2) (2 ^ j) =
      ap (λ (t : ℕ). bit_or (m / 2) t) (omega (arith, twice)) in
    (r, grind (arith, h, doubled, ih, doubled', bit_or_low m (2 ^ suc j), half, twice))

-- What the code relies on of the two controllers, in a state that is past their start: the data
-- ports give back the masks that were written to them, each its own. The start is two command words,
-- the vectors, the wiring and the mode.
pub record IsPic {C : Type 0} (io : Ports C) (Ready : C → Type 0) : Type 0 where
  pub byte : (c : C) (port : ℕ) → io.inb c port < 256
  pub starts :
      (c : C) (offset1 offset2 : ℕ)
      → let c = io.outb (io.outb c 0x20 0x11) 0xA0 0x11 in
        let c = io.outb (io.outb c 0x21 offset1) 0xA1 offset2 in
        let c = io.outb (io.outb c 0x21 4) 0xA1 2 in Ready (io.outb (io.outb c 0x21 1) 0xA1 1)
  pub first : (c : C) (v : ℕ) → Ready c → Ready (io.outb c 0x21 v)
  pub second : (c : C) (v : ℕ) → Ready c → Ready (io.outb c 0xA1 v)
  pub reads_first : (c : C) (v : ℕ) → Ready c → v < 256 → io.inb (io.outb c 0x21 v) 0x21 ≡ v
  pub reads_second : (c : C) (v : ℕ) → Ready c → v < 256 → io.inb (io.outb c 0xA1 v) 0xA1 ≡ v
  pub first_alone : (c : C) (v : ℕ) → Ready c → io.inb (io.outb c 0x21 v) 0xA1 ≡ io.inb c 0xA1
  pub second_alone : (c : C) (v : ℕ) → Ready c → io.inb (io.outb c 0xA1 v) 0x21 ≡ io.inb c 0x21

module _ {C : Type 0} (io : Ports C) (Ready : C → Type 0) (v : IsPic io Ready) where
  -- The masks are the two bytes side by side.
  masks_lem : (c : C) → pic_get_masks io c ≡ io.inb c 0xA1 * 256 + io.inb c 0x21
  unfolding pic_get_masks
  masks_lem c =
      let low = v.byte c 0x21 in
      let high = v.byte c 0xA1 in
      let same : io.inb c 0xA1 * 256 % 2 ^ 16 ≡ io.inb c 0xA1 * 2 ^ 8 = omega (arith, high) in
      ap (λ (x : ℕ). bit_or x (io.inb c 0x21)) same ∙ bit_or_add 8 (io.inb c 0xA1) _ low

  masks_bound : (c : C) → pic_get_masks io c < 2 ^ 16
  masks_bound c = omega (arith, masks_lem c, v.byte c 0x21, v.byte c 0xA1)

  -- Writing the masks and reading them back.
  pic_set_masks-Ready : (c : C) (m : ℕ) → Ready c → Ready (pic_set_masks io c m)
  unfolding pic_set_masks
  pic_set_masks-Ready c m r = v.second _ _ (v.first _ _ r)

  get-set :
      (c : C) (m : ℕ)
      → Ready c
      → m < 2 ^ 16
      → (io.inb (pic_set_masks io c m) 0x21 ≡ m % 256)
        × (io.inb (pic_set_masks io c m) 0xA1 ≡ m / 256)
  unfolding pic_set_masks
  get-set c m r h =
      let r1 = v.first c (m % 256) r in
      (
        v.second_alone _ _ r1 ∙ v.reads_first c (m % 256) r (omega arith),
        v.reads_second _ (m / 256 % 256) r1 (omega arith) ∙ omega (arith, h),
      )

  get_masks-set :
      (c : C) (m : ℕ) → Ready c → m < 2 ^ 16 → pic_get_masks io (pic_set_masks io c m) ≡ m
  get_masks-set c m r h =
      let (low, high) = get-set c m r h in
      omega (arith, masks_lem (pic_set_masks io c m), low, high)

  -- After the lines below `i` were masked and `n` more are, their bits are ones.
  mask_lines-Ready : (n i : ℕ) (c : C) → Ready c → Ready (mask_lines io n i c)
  unfolding mask_lines pic_set_mask
  mask_lines-Ready zero i c r = r
  mask_lines-Ready (suc n) i c r =
      mask_lines-Ready n (suc i) (pic_set_mask io c i) (pic_set_masks-Ready c _ r)

  mask_lines_lem :
      (n i j q : ℕ) (c : C)
      → Ready c
      → i + n ≡ j
      → j ≤ 16
      → pic_get_masks io c + 1 ≡ q * 2 ^ i
      → (q' : ℕ) × (pic_get_masks io (mask_lines io n i c) + 1 ≡ q' * 2 ^ j)
  unfolding mask_lines
  mask_lines_lem zero i j q c r t h e = (q, e ∙ ap (λ (x : ℕ). q * 2 ^ x) (omega (arith, t)))
  mask_lines_lem (suc n) i j q c r t h e =
      let m = pic_get_masks io c in
      let (q1, e1) = bit_or-next i m q e in
      let bound : bit_or m (2 ^ i) < 2 ^ 16 =
        bit_or-bound 16 m (2 ^ i) (masks_bound c) (below_2_16 i (omega (arith, t, h))) in
      let same : bit_or m (2 ^ i) % 2 ^ 16 ≡ bit_or m (2 ^ i) = omega (arith, bound) in
      let got : pic_get_masks io (pic_set_mask io c i) + 1 ≡ q1 * 2 ^ suc i =
        unfold pic_set_mask in
        ap (λ (x : ℕ). pic_get_masks io (pic_set_masks io c x) + 1) same
        ∙ ap (λ (x : ℕ). x + 1) (get_masks-set c _ r bound)
        ∙ e1 in
      mask_lines_lem n (suc i) j q1 (pic_set_mask io c i)
        (unfold pic_set_mask in pic_set_masks-Ready c _ r) (omega (arith, t)) h got

  clear-reads :
      (c : C) (m line : ℕ)
      → Ready c
      → pic_get_masks io c ≡ m
      → pic_get_masks io (pic_clear_mask io c line) ≡ bit_and m (2 ^ 32 - 1 - 2 ^ line) % 2 ^ 16
  unfolding pic_clear_mask
  clear-reads c m line r e =
      get_masks-set c _ r (omega arith)
      ∙ ap (λ (x : ℕ). bit_and x (2 ^ 32 - 1 - 2 ^ line) % 2 ^ 16) e

  clear-Ready : (c : C) (line : ℕ) → Ready c → Ready (pic_clear_mask io c line)
  unfolding pic_clear_mask
  clear-Ready c line r = pic_set_masks-Ready c _ r

  pic_remap-Ready : (c : C) (offset1 offset2 : ℕ) → Ready (pic_remap io c offset1 offset2)
  unfolding pic_remap
  pic_remap-Ready c offset1 offset2 =
      v.second _ _ (v.first _ _ (v.starts c (offset1 % 256) (offset2 % 256)))

  -- On controllers that give back the masks written to them after their start, whatever masks they
  -- had, after `irq_init` the lines 0 and 1 of the first and line 12 of the second are open and all
  -- others are closed: the line 2 of the first too, through which the second reports.
  pub irq_init-masks :
      (c : C)
      → (io.inb (irq_init_masks io c) 0x21 ≡ 255 - 2 ^ 0 - 2 ^ 1)
        × (io.inb (irq_init_masks io c) 0xA1 ≡ 255 - 2 ^ (12 - 8))
  unfolding irq_init_masks
  irq_init-masks c =
      let r0 = pic_remap-Ready c 0x20 0x28 in
      let c0 = pic_remap io c 0x20 0x28 in
      let r1 = mask_lines-Ready 16 0 c0 r0 in
      let c1 = mask_lines io 16 0 c0 in
      let (q, e) =
        mask_lines_lem 16 0 16 (pic_get_masks io c0 + 1) c0 r0 refl (omega arith) (omega arith) in
      let full : pic_get_masks io c1 ≡ 65535 = omega (arith, e, masks_bound c1) in
      let e2 = clear-reads c1 65535 0 r1 full in
      let r2 = clear-Ready c1 0 r1 in
      let e3 = clear-reads (pic_clear_mask io c1 0) _ 1 r2 e2 in
      let r3 = clear-Ready _ 1 r2 in
      let e4 = clear-reads _ _ 12 r3 e3 in
      let c4 = irq_init_masks io c in
      let parts = masks_lem c4 in
      (omega (arith, e4, parts, v.byte c4 0x21), omega (arith, e4, parts, v.byte c4 0x21))
