-- ===== src/Ui/Cells.antt =====
-- The terminal window's grid stays in its buffer.
use snowkernel.Base.{
  ℕ, zero, suc, ◌+◌, ◌-◌, ◌*◌, ◌%◌, ◌≤◌, ◌<◌, ◌==◌, leb, if◌then◌else◌, if_elim, update, update_ne,
  fill_from, fill_from-outside, ◌≡◌, refl, ◌∙◌, inr, arith,
}
use snowkernel.Ui.Grid.{
  Grid, term_rows, term_cols, rows_up, term_newline, term_store, term_blanks, term_putc,
}

-- The place where the next character goes, which may be one past the end of a row.
pub record IsGrid (g : Grid) : Type 0 where
  pub column : g.term_cx ≤ term_cols
  pub row : g.term_cy < term_rows

-- The grid after some characters: the place is in it, and no byte past the buffer has changed.
pub record Stays (g g' : Grid) : Type 0 where
  pub place : IsGrid g'
  pub beyond : (i : ℕ) → term_rows * term_cols ≤ i → g'.cells i ≡ g.cells i

Stays-trans : (a b c : Grid) → Stays a b → Stays b c → Stays a c
Stays-trans a b c f g = record { place = g.place; beyond = λ i h. g.beyond i h ∙ f.beyond i h }

rows_up-outside : (cells : ℕ → ℕ) (n i j : ℕ) → i + n ≤ j → rows_up cells n i j ≡ cells j
unfolding rows_up
rows_up-outside cells zero i j h = refl
rows_up-outside cells (suc n) i j h =
    rows_up-outside (update cells i (cells (i + term_cols))) n (i + 1) j (omega (arith, h))
    ∙ update_ne cells i j (cells (i + term_cols)) (omega (arith, h))

term_newline-Stays : (g : Grid) → IsGrid g → Stays g (term_newline g)
unfolding term_newline
term_newline-Stays g v =
    let up = rows_up g.cells ((term_rows - 1) * term_cols) 0 in
    let scrolled : Grid = record {
      cells = fill_from up 0 term_cols ((term_rows - 1) * term_cols);
      term_cx = 0;
      term_cy = term_rows - 1;
    } in
    if_elim (Stays g) (leb term_rows (g.term_cy + 1)) scrolled
      (record g { term_cx = 0; term_cy = g.term_cy + 1 })
      (λ _. record {
        place = record { column = omega arith; row = omega arith };
        beyond = λ i h.
            fill_from-outside up 0 term_cols ((term_rows - 1) * term_cols) i
              (inr (omega (arith, h)))
            ∙ rows_up-outside g.cells ((term_rows - 1) * term_cols) 0 i (omega (arith, h));
      })
      (λ e. record {
        place = record { column = omega arith; row = ground (arith, e) };
        beyond = λ i h. refl;
      })

term_newline-start : (g : Grid) → (term_newline g).term_cx ≡ 0
unfolding term_newline
term_newline-start g = ground arith

-- The grid with room for a character at its place.
HasRoom : Grid → Grid → Type 0
HasRoom g g' = Stays g g' × (g'.term_cx < term_cols)

wrapped-HasRoom :
    (g : Grid) → IsGrid g → HasRoom g (if leb term_cols g.term_cx then term_newline g else g)
unfolding HasRoom
wrapped-HasRoom g v =
    if_elim (HasRoom g) (leb term_cols g.term_cx) (term_newline g) g
      (λ _. (term_newline-Stays g v, omega (arith, term_newline-start g)))
      (λ e. (record { place = v; beyond = λ i h. refl }, ground (arith, e)))

term_store-Stays : (g : Grid) (c : ℕ) → IsGrid g → Stays g (term_store g c)
unfolding term_store HasRoom
term_store-Stays g c v =
    let g' = if leb term_cols g.term_cx then term_newline g else g in
    let (kept, room) = wrapped-HasRoom g v in
    let place = kept.place in
    record {
      place = record { column = omega (arith, room); row = place.row };
      beyond = λ i h.
          update_ne g'.cells (g'.term_cy * term_cols + g'.term_cx) i c
            (omega (arith, room, place.row, h))
          ∙ kept.beyond i h;
    }

term_blanks-Stays : (n : ℕ) (g : Grid) → IsGrid g → Stays g (term_blanks n g)
unfolding term_blanks
term_blanks-Stays zero g v = record { place = v; beyond = λ i h. refl }
term_blanks-Stays (suc n) g v =
    let one = term_store-Stays g b' ' v in
    Stays-trans g (term_store g b' ') (term_blanks n (term_store g b' ')) one
      (term_blanks-Stays n (term_store g b' ') one.place)

-- Whatever character the terminal window is given, the place of the next one is in the grid or at the
-- end of a row of it, and no byte past the buffer has changed.
pub term_putc-Stays : (g : Grid) (c : ℕ) → IsGrid g → Stays g (term_putc g c)
unfolding term_putc
term_putc-Stays g c v =
    let blanks = term_blanks (4 - g.term_cx % 4) g in
    let other = if c == 9 then blanks else term_store g c in
    if_elim (Stays g) (c == 10) (term_newline g)
      (if c == 13 then record g { term_cx = 0 } else other) (λ _. term_newline-Stays g v)
      (λ _.
        if_elim (Stays g) (c == 13) (record g { term_cx = 0 }) other
          (λ _. record {
            place = record { column = omega arith; row = v.row };
            beyond = λ i h. refl;
          })
          (λ _.
            if_elim (Stays g) (c == 9) blanks (term_store g c)
              (λ _. term_blanks-Stays (4 - g.term_cx % 4) g v) (λ _. term_store-Stays g c v)))
