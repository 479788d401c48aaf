-- ===== src/Kprint/Screen.antt =====
-- Where the text screen writes: the cursor stays on the screen, and only its cells change.
use snowkernel.Base.{
  ℕ, zero, suc, ◌+◌, ◌-◌, ◌*◌, ◌≤◌, ◌<◌, Bool, ltb, if◌then◌else◌, update, fill_from-outside,
  fill_from-inside, update_self, update_ne, ◌≡◌, refl, ap, ◌∙◌, arith, Bool-cases, inl, inr, ltb→lt,
  le→ltb, ◌⊎◌,
}
use snowkernel.Kprint.Console.{
  Console, vga_width, vga_height, make_cell, copy_up, scroll_rows, scroll, newline,
}

copy_up-outside : (vga : ℕ → ℕ) (n i j : ℕ) → (j < i) ⊎ (i + n ≤ j) → copy_up vga n i j ≡ vga j
unfolding copy_up
copy_up-outside vga zero i j out = refl
copy_up-outside vga (suc n) i j (inl h) =
    copy_up-outside (update vga i (vga (i + vga_width))) n (i + 1) j (inl (omega (arith, h)))
    ∙ update_ne vga i j (vga (i + vga_width)) (omega (arith, h))
copy_up-outside vga (suc n) i j (inr h) =
    copy_up-outside (update vga i (vga (i + vga_width))) n (i + 1) j (inr (omega (arith, h)))
    ∙ update_ne vga i j (vga (i + vga_width)) (omega (arith, h))

-- The copy reads each cell before it is overwritten.
copy_up-inside :
    (vga : ℕ → ℕ) (n i j : ℕ) → i ≤ j → j < i + n → copy_up vga n i j ≡ vga (j + vga_width)
unfolding copy_up
copy_up-inside vga zero i j low high = absurd (omega (arith, low, high))
copy_up-inside vga (suc n) i j low high = elim (Bool-cases (ltb i j)) [
  | inl later ↦
      let h = ltb→lt i j later in
      copy_up-inside (update vga i (vga (i + vga_width))) n (i + 1) j (omega (arith, h))
        (omega (arith, high))
      ∙ update_ne vga i (j + vga_width) (vga (i + vga_width)) (omega (arith, h))
  | inr now ↦
      let same : j ≡ i = ground (arith, now, low) in
      copy_up-outside (update vga i (vga (i + vga_width))) n (i + 1) j (inl (omega (arith, same)))
      ∙ rw same (update_self vga i (vga (i + vga_width)))
]

-- Past the early return of `scroll`, each row shows what the row below it showed, and the last row is
-- blank.
scroll_rows-above :
    (s : Console) (row col : ℕ)
    → row < vga_height - 1
    → col < vga_width
    → (scroll_rows s).vga (row * vga_width + col) ≡ s.vga ((row + 1) * vga_width + col)
unfolding scroll_rows
scroll_rows-above s row col hr hc =
    fill_from-outside (copy_up s.vga 1920 0) (make_cell s b' ') 80 1920 (row * 80 + col)
      (inl (omega (arith, hr, hc)))
    ∙ copy_up-inside s.vga 1920 0 (row * 80 + col) (omega arith) (omega (arith, hr, hc))
    ∙ ap s.vga (omega arith)

scroll_rows-last :
    (s : Console) (col : ℕ)
    → col < vga_width
    → (scroll_rows s).vga ((vga_height - 1) * vga_width + col) ≡ make_cell s b' '
unfolding scroll_rows
scroll_rows-last s col hc =
    fill_from-inside (copy_up s.vga 1920 0) (make_cell s b' ') 80 1920 (1920 + col) (omega arith)
      (omega (arith, hc))

pub scroll_rows-beyond :
    (s : Console) (i : ℕ) → vga_height * vga_width ≤ i → (scroll_rows s).vga i ≡ s.vga i
unfolding scroll_rows
scroll_rows-beyond s i h =
    fill_from-outside (copy_up s.vga 1920 0) (make_cell s b' ') 80 1920 i (inr (omega (arith, h)))
    ∙ copy_up-outside s.vga 1920 0 i (inr (omega (arith, h)))

pub scroll_rows-cursor :
    (s : Console) → ((scroll_rows s).cx ≡ s.cx) × ((scroll_rows s).cy ≡ vga_height - 1)
unfolding scroll_rows
scroll_rows-cursor s = (refl, refl)

-- A new line in the last row scrolls.
newline-last :
    (s : Console)
    → s.cy ≡ vga_height - 1
    → newline s ≡ scroll_rows (record s { cx = 0; cy = s.cy + 1 })
unfolding newline scroll
newline-last s last =
    let below = record s { cx = 0; cy = s.cy + 1 } in
    ap (λ (b : Bool). if b then below else scroll_rows below)
      (le→ltb (s.cy + 1) vga_height (omega (arith, last)))

-- The screen after a new line in the last row: each row above the last shows what the row below it
-- showed, the last row is blank in the current colour, and the cursor is at its start.
pub newline-scrolls :
    (s : Console) (row col : ℕ)
    → s.cy ≡ vga_height - 1
    → row < vga_height - 1
    → col < vga_width
    → ((newline s).vga (row * vga_width + col) ≡ s.vga ((row + 1) * vga_width + col))
      × ((newline s).vga ((vga_height - 1) * vga_width + col) ≡ make_cell s b' ')
      × ((newline s).cx ≡ 0)
      × ((newline s).cy ≡ vga_height - 1)
newline-scrolls s row col last hr hc =
    let below = record s { cx = 0; cy = s.cy + 1 } in
    let cursor = scroll_rows-cursor below in
    rw (newline-last s last)
      (scroll_rows-above below row col hr hc, scroll_rows-last below col hc, cursor.0, cursor.1)
