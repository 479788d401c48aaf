-- ===== src/Kprint/Bounds.antt =====
-- Bounds of the text screen: where the cursor is, and which cells may change.
use snowkernel.Base.{
  ℕ, zero, suc, ◌+◌, ◌-◌, ◌*◌, ◌%◌, ◌≤◌, ◌<◌, ◌==◌, ltb, if◌then◌else◌, [], ◌∷◌, update, update_ne,
  ◌≡◌, refl, ◌∙◌, arith, if_elim, ltb→lt,
}
use snowkernel.Str.{Str}
use snowkernel.Kprint.Console.{
  Console, vga_width, vga_height, make_cell, scroll_rows, scroll, newline, update_hw_cursor,
  put_cell, put_blanks, backspace, vga_putc, kputs,
}
use snowkernel.Kprint.Screen.{scroll_rows-beyond, scroll_rows-cursor}

-- The cursor is on the screen.
unfoldable pub InScreen : Console → Type 0
InScreen s = (s.cx < vga_width) × (s.cy < vga_height)

-- A step that leaves the cursor on the screen, and the memory past the screen's cells as it was.
unfoldable pub Stays : Console → Console → Type 0
unfolding InScreen
Stays s after = InScreen after × ((i : ℕ) → vga_height * vga_width ≤ i → after.vga i ≡ s.vga i)

Stays-trans : (a b c : Console) → Stays a b → Stays b c → Stays a c
unfolding Stays
Stays-trans a b c f g = (g.0, λ i h. g.1 i h ∙ f.1 i h)

scroll-Stays : (s : Console) → s.cx < vga_width → Stays s (scroll s)
unfolding scroll Stays InScreen
scroll-Stays s h =
    if_elim (Stays s) (ltb s.cy vga_height) s (scroll_rows s)
      (λ low. ((h, ltb→lt s.cy vga_height low), λ i beyond. refl))
      (λ high.
        let c = scroll_rows-cursor s in
        ((omega (arith, c.0, h), omega (arith, c.1)), scroll_rows-beyond s))

newline-Stays : (s : Console) → Stays s (newline s)
unfolding newline Stays
newline-Stays s = scroll-Stays (record s { cx = 0; cy = s.cy + 1 }) (omega arith)

cursor-Stays : (s t : Console) → Stays s t → Stays s (update_hw_cursor t)
unfolding Stays InScreen update_hw_cursor
cursor-Stays s t h = h

put_cell-Stays : (s : Console) (c : ℕ) → InScreen s → Stays s (put_cell s c)
unfolding put_cell InScreen Stays
put_cell-Stays s c h =
    let at = s.cy * vga_width + s.cx in
    let stored = record s { vga = update s.vga at (make_cell s c); cx = s.cx + 1 } in
    let same : (i : ℕ) → vga_height * vga_width ≤ i → stored.vga i ≡ s.vga i =
      λ i beyond. update_ne s.vga at i (make_cell s c) (omega (arith, beyond, h.0, h.1)) in
    cursor-Stays s (if ltb stored.cx vga_width then stored else newline stored) (
      if_elim (Stays s) (ltb stored.cx vga_width) stored (newline stored)
        (λ low. ((ltb→lt stored.cx vga_width low, h.1), same))
        (λ high. let n = newline-Stays stored in (n.0, λ i beyond. n.1 i beyond ∙ same i beyond)))

put_blanks-Stays : (n : ℕ) (s : Console) → InScreen s → Stays s (put_blanks n s)
unfolding put_blanks Stays
put_blanks-Stays zero s h = (h, λ i beyond. refl)
put_blanks-Stays (suc n) s h =
    let one = put_cell-Stays s b' ' h in
    Stays-trans s (put_cell s b' ') (put_blanks n (put_cell s b' ')) one
      (put_blanks-Stays n (put_cell s b' ') one.0)

backspace-Stays : (s : Console) → InScreen s → Stays s (backspace s)
unfolding backspace Stays InScreen
backspace-Stays s h =
    let at = s.cy * vga_width + (s.cx - 1) in
    let back = record s { vga = update s.vga at (make_cell s b' '); cx = s.cx - 1 } in
    cursor-Stays s (if ltb 0 s.cx then back else s) (
      if_elim (Stays s) (ltb 0 s.cx) back s
        (λ some_left. (
          (omega (arith, h.0), h.1),
          λ i beyond. update_ne s.vga at i (make_cell s b' ') (omega (arith, beyond, h.0, h.1)),
        ))
        (λ none_left. (h, λ i beyond. refl)))

pub vga_putc-Stays : (s : Console) (c : ℕ) → InScreen s → Stays s (vga_putc s c)
unfolding vga_putc Stays InScreen
vga_putc-Stays s c h =
    let cr = record s { cx = 0 } in
    let tab = update_hw_cursor (put_blanks (4 - s.cx % 4) s) in
    let after_tab = if c == 9 then tab else put_cell s c in
    let after_back = if c == 8 then backspace s else after_tab in
    if_elim (Stays s) (c == 10) (update_hw_cursor (newline s)) (if c == 13 then cr else after_back)
      (λ _. cursor-Stays s (newline s) (newline-Stays s))
      (λ _.
        if_elim (Stays s) (c == 13) cr after_back (λ _. ((omega arith, h.1), λ i beyond. refl))
          (λ _.
            if_elim (Stays s) (c == 8) (backspace s) after_tab (λ _. backspace-Stays s h)
              (λ _.
                if_elim (Stays s) (c == 9) tab (put_cell s c)
                  (λ _.
                    cursor-Stays s (put_blanks (4 - s.cx % 4) s)
                      (put_blanks-Stays (4 - s.cx % 4) s h))
                  (λ _. put_cell-Stays s c h))))

-- Whatever text is put out from a cursor on the screen, control characters included, the cursor is
-- on the screen after it, and no memory past the screen's 2000 cells has changed.
pub kputs-Stays : (s : Console) (text : Str) → InScreen s → Stays s (kputs s text)
unfolding kputs Stays
kputs-Stays s [] h = (h, λ i beyond. refl)
kputs-Stays s (c ∷ cs) h =
    let one = vga_putc-Stays s c h in
    if_elim (Stays s) (c == 0) s (kputs (vga_putc s c) cs) (λ _. (h, λ i beyond. refl))
      (λ _.
        Stays-trans s (vga_putc s c) (kputs (vga_putc s c) cs) one
          (kputs-Stays (vga_putc s c) cs one.0))
