-- ===== src/Kprint/Console.antt =====
-- The text screen of src/kernel/kprint.c: the cells at 0xB8000, the cursor and the colour.
use snowkernel.Base.{
  ℕ, zero, suc, ◌+◌, ◌-◌, ◌*◌, ◌/◌, ◌%◌, ◌^◌, ◌==◌, ltb, if◌then◌else◌, List, [], ◌∷◌, ◌++◌, update,
  fill_from,
}
use snowkernel.Str.{Str}

abbrev pub vga_width : ℕ
vga_width = 80

abbrev pub vga_height : ℕ
vga_height = 25

-- The file's statics, the cells by their index, and the bytes that went to ports, in order.
pub record Console : Type 0 where
  pub vga : ℕ → ℕ
  pub cx : ℕ
  pub cy : ℕ
  pub color : ℕ
  pub ports : List (ℕ × ℕ)

abbrev pub make_cell : Console → ℕ → ℕ
make_cell s ch = s.color * 256 + ch

-- `kmemcpy` of cells to the place one row up, `n` of them from index `i` on, in its order.
unfoldable pub copy_up : (ℕ → ℕ) → ℕ → ℕ → (ℕ → ℕ)
copy_up vga zero i = vga
copy_up vga (suc n) i = copy_up (update vga i (vga (i + vga_width))) n (i + 1)

-- `scroll` past its early return.
unfoldable pub scroll_rows : Console → Console
unfolding copy_up
scroll_rows s = record s {
  vga =
      fill_from (copy_up s.vga ((vga_height - 1) * vga_width) 0) (make_cell s b' ') vga_width
        ((vga_height - 1) * vga_width);
  cy = vga_height - 1;
}

unfoldable pub scroll : Console → Console
unfolding scroll_rows
scroll s = if ltb s.cy vga_height then s else scroll_rows s

unfoldable pub newline : Console → Console
unfolding scroll
newline s = scroll (record s { cx = 0; cy = s.cy + 1 })

unfoldable pub update_hw_cursor : Console → Console
update_hw_cursor s =
    let pos = (s.cy * vga_width + s.cx) % 2 ^ 16 in
    record s {
      ports =
          s.ports ++ (0x3D4, 0x0F) ∷ (0x3D5, pos % 256) ∷ (0x3D4, 0x0E) ∷ (0x3D5, pos / 256) ∷ [];
    }

unfoldable pub kset_color : Console → ℕ → ℕ → Console
kset_color s fg bg = record s { color = bg * 16 % 256 + fg % 16 }

-- The last part of `vga_putc`, for a character that none of its tests takes.
unfoldable pub put_cell : Console → ℕ → Console
unfolding newline update_hw_cursor
put_cell s c =
    let stored = record s {
      vga = update s.vga (s.cy * vga_width + s.cx) (make_cell s c);
      cx = s.cx + 1;
    } in
    update_hw_cursor (if ltb stored.cx vga_width then stored else newline stored)

-- `while (n--) vga_putc(' ')`: a blank is one of those characters.
unfoldable pub put_blanks : ℕ → Console → Console
unfolding put_cell
put_blanks zero s = s
put_blanks (suc n) s = put_blanks n (put_cell s b' ')

-- The branch of `vga_putc` for `\b`.
unfoldable pub backspace : Console → Console
unfolding update_hw_cursor
backspace s = update_hw_cursor (
    if ltb 0 s.cx
    then record s {
      vga = update s.vga (s.cy * vga_width + (s.cx - 1)) (make_cell s b' ');
      cx = s.cx - 1;
    }
    else s)

unfoldable pub vga_putc : Console → ℕ → Console
unfolding newline update_hw_cursor put_cell put_blanks backspace
vga_putc s c =
    if c == 10
    then update_hw_cursor (newline s)
    else if c == 13
    then record s { cx = 0 }
    else if c == 8
    then backspace s
    else if c == 9
    then update_hw_cursor (put_blanks (4 - s.cx % 4) s)
    else put_cell s c

-- `kputs` while no sink is set.
unfoldable pub kputs : Console → Str → Console
unfolding vga_putc
kputs s [] = s
kputs s (c ∷ cs) = let rest = kputs (vga_putc s c) cs in if c == 0 then s else rest

unfoldable pub kclear : Console → Console
kclear s = record s {
  vga = fill_from s.vga (make_cell s b' ') (vga_width * vga_height) 0;
  cx = 0;
  cy = 0;
}
