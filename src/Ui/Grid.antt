-- ===== src/Ui/Grid.antt =====
-- The character grid of the desktop's terminal window in src/kernel/ui.c.
use snowkernel.Base.{ℕ, zero, suc, ◌+◌, ◌-◌, ◌*◌, ◌%◌, ◌==◌, leb, if◌then◌else◌, update, fill_from}
use snowkernel.Base.Int.{pos}
use snowkernel.Video.{Screen, video_draw_char}

abbrev pub term_cols : ℕ
term_cols = 78

abbrev pub term_rows : ℕ
term_rows = 23

-- `term_buf`, by the index of a cell in the whole of it, `term_cx` and `term_cy`.
pub record Grid : Type 0 where
  pub cells : ℕ → ℕ
  pub term_cx : ℕ
  pub term_cy : ℕ

unfoldable pub term_clear : Grid → Grid
term_clear g = record {
  cells = fill_from g.cells 0 (term_rows * term_cols) 0;
  term_cx = 0;
  term_cy = 0;
}

-- The loops that move the rows up, `n` cells from the one at `i` on, in their order.
unfoldable pub rows_up : (ℕ → ℕ) → ℕ → ℕ → (ℕ → ℕ)
rows_up cells zero i = cells
rows_up cells (suc n) i = rows_up (update cells i (cells (i + term_cols))) n (i + 1)

-- `term_putc('\n')`.
unfoldable pub term_newline : Grid → Grid
unfolding rows_up
term_newline g =
    if leb term_rows (g.term_cy + 1)
    then record {
      cells =
          fill_from (rows_up g.cells ((term_rows - 1) * term_cols) 0) 0 term_cols
            ((term_rows - 1) * term_cols);
      term_cx = 0;
      term_cy = term_rows - 1;
    }
    else record g { term_cx = 0; term_cy = g.term_cy + 1 }

-- The end of `term_putc`, for a character that none of its tests takes.
unfoldable pub term_store : Grid → ℕ → Grid
unfolding term_newline
term_store g c =
    let g' = if leb term_cols g.term_cx then term_newline g else g in
    record g' {
      cells = update g'.cells (g'.term_cy * term_cols + g'.term_cx) c;
      term_cx = g'.term_cx + 1;
    }

-- `while (spaces--) term_putc(' ')`: a blank is one of those characters.
unfoldable pub term_blanks : ℕ → Grid → Grid
unfolding term_store
term_blanks zero g = g
term_blanks (suc n) g = term_blanks n (term_store g b' ')

unfoldable pub term_putc : Grid → ℕ → Grid
unfolding term_newline term_store term_blanks
term_putc g c =
    if c == 10
    then term_newline g
    else if c == 13
    then record g { term_cx = 0 }
    else if c == 9
    then term_blanks (4 - g.term_cx % 4) g
    else term_store g c

-- The inner loop of `term_draw`, `n` cells of the row `r` from the column `c` on; the window's inside
-- starts at 84 and 140.
unfoldable pub draw_cells : Grid → ℕ → Screen → ℕ → ℕ → Screen
unfolding video_draw_char
draw_cells g r s zero c = s
draw_cells g r s (suc n) c =
    let cell = g.cells (r * term_cols + c) in
    let ch = if cell == 0 then b' ' else cell in
    draw_cells g r (video_draw_char s (pos (84 + c * 8)) (pos (140 + r * 16)) ch 0xE0E0E0 0) n
      (c + 1)

unfoldable pub draw_grid_rows : Grid → Screen → ℕ → ℕ → Screen
unfolding draw_cells
draw_grid_rows g s zero r = s
draw_grid_rows g s (suc n) r = draw_grid_rows g (draw_cells g r s term_cols 0) n (r + 1)

unfoldable pub term_draw : Grid → Screen → Screen
unfolding draw_grid_rows
term_draw g s = draw_grid_rows g s term_rows 0
