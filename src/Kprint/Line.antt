-- ===== src/Kprint/Line.antt =====
-- What the text screen shows: a text that fits on the rest of a row, and a cleared screen.
use snowkernel.Base.{
  ℕ, zero, suc, ◌+◌, ◌-◌, ◌*◌, ◌%◌, ◌≤◌, ◌<◌, Bool, ◌==◌, if◌then◌else◌, List, [], ◌∷◌, update,
  fill_from-inside, update_ne, update_self, length, get_or, All, ◌≡◌, refl, sym, ap, subst, ◌∙◌,
  arith, ne→==, lt→ltb, ◌⊎◌, inl, inr,
}
use snowkernel.Str.{Str}
use snowkernel.Kprint.Console.{
  Console, vga_width, vga_height, make_cell, newline, update_hw_cursor, put_cell, vga_putc, kputs,
  kclear, backspace, put_blanks,
}
use snowkernel.Kprint.Bounds.{InScreen}

-- No terminator and none of the characters that the screen acts on.
unfoldable pub IsPlain : ℕ → Type 0
IsPlain c = 13 < c

skip {ℓ} : {A : Type ℓ} (c d : ℕ) (x y : A) → d < c → (if c == d then x else y) ≡ y
skip c d x y h = ap (λ (b : Bool). if b then x else y) (ne→== c d (omega (arith, h)))

vga_putc-plain : (s : Console) (c : ℕ) → IsPlain c → vga_putc s c ≡ put_cell s c
unfolding vga_putc IsPlain
vga_putc-plain s c h =
    let tab = if c == 9 then update_hw_cursor (put_blanks (4 - s.cx % 4) s) else put_cell s c in
    let back = if c == 8 then backspace s else tab in
    let cr = if c == 13 then record s { cx = 0 } else back in
    skip c 10 (update_hw_cursor (newline s)) cr (omega (arith, h))
    ∙ skip c 13 (record s { cx = 0 }) back h
    ∙ skip c 8 (backspace s) tab (omega (arith, h))
    ∙ skip c 9 (update_hw_cursor (put_blanks (4 - s.cx % 4) s)) (put_cell s c) (omega (arith, h))

-- The cell at the cursor's place.
abbrev place : Console → ℕ
place s = s.cy * vga_width + s.cx

-- A plain text has been put on the cells from the cursor on, no other cell has changed, and the
-- cursor stands behind it.
unfoldable pub Shows : Console → List ℕ → Console → Type 0
Shows s cs after =
    ((k : ℕ) → k < length cs → after.vga (place s + k) ≡ make_cell s (get_or cs k 0))
    × ((i : ℕ) → (i < place s) ⊎ (place s + length cs ≤ i) → after.vga i ≡ s.vga i)
    × ((after.cx ≡ s.cx + length cs) × (after.cy ≡ s.cy))
    × (after.color ≡ s.color)

abbrev stored : Console → ℕ → Console
stored s c = record s { vga = update s.vga (place s) (make_cell s c); cx = s.cx + 1 }

put_cell-stored :
    (s : Console) (c : ℕ) → s.cx + 1 < vga_width → put_cell s c ≡ update_hw_cursor (stored s c)
unfolding put_cell
put_cell-stored s c h =
    ap (λ (b : Bool). update_hw_cursor (if b then stored s c else newline (stored s c)))
      (lt→ltb (s.cx + 1) vga_width h)

-- A text shown behind the first character shows the whole.
stored-Shows :
    (s after : Console) (c : ℕ) (cs : List ℕ)
    → Shows (update_hw_cursor (stored s c)) cs after
    → Shows s (c ∷ cs) after
unfolding Shows update_hw_cursor
stored-Shows s after c cs h = (
  λ k.
      elim k
        as (λ k.
          k < suc (length cs) → after.vga (place s + k) ≡ make_cell s (get_or (c ∷ cs) k 0)) [
            | zero ↦ λ low.
                ap after.vga (omega arith)
                ∙ h.1 (place s) (inl (omega arith))
                ∙ update_self s.vga (place s) (make_cell s c)
            | suc k ↦ λ low. ap after.vga (omega arith) ∙ h.0 k (omega (arith, low))
          ],
  λ i out.
      h.1 i (elim out [ inl l ↦ inl (omega (arith, l)) | inr r ↦ inr (omega (arith, r)) ])
      ∙ update_ne s.vga (place s) i (make_cell s c)
          (elim out [ inl l ↦ omega (arith, l) | inr r ↦ omega (arith, r) ]),
  (omega (arith, h.2.0), h.2.1),
  h.3,
)

-- A text without control characters that leaves at least one place free of the rest of the cursor's
-- row is shown there, each character in the current colour, without any other change of the screen,
-- and the cursor stands behind it.
pub kputs-Shows :
    (s : Console) (cs : Str)
    → All IsPlain cs
    → s.cx + length cs < vga_width
    → Shows s cs (kputs s cs)
unfolding kputs Shows IsPlain
kputs-Shows s [] plain fits =
    (λ k low. absurd (omega (arith, low)), λ i out. refl, (omega arith, refl), refl)
kputs-Shows s (c ∷ cs) plain fits =
    let next = update_hw_cursor (stored s c) in
    let steps =
      skip c 0 s (kputs (vga_putc s c) cs) (omega (arith, plain.0))
      ∙ ap (λ t. kputs t cs)
          (vga_putc-plain s c plain.0 ∙ put_cell-stored s c (omega (arith, fits))) in
    subst (λ after. Shows s (c ∷ cs) after) (sym steps)
      (stored-Shows s (kputs next cs) c cs (kputs-Shows next cs plain.1 (omega (arith, fits))))

-- A cleared screen is blank in the current colour, with the cursor in its corner.
pub kclear-blank :
    (s : Console)
    → ((i : ℕ) → i < vga_width * vga_height → (kclear s).vga i ≡ make_cell s b' ')
      × InScreen (kclear s)
unfolding kclear InScreen
kclear-blank s = (
  λ i h. fill_from-inside s.vga (make_cell s b' ') 2000 0 i (omega arith) (omega (arith, h)),
  (omega arith, omega arith),
)
