-- ===== src/Keymap/Letters.antt =====
-- The character of a key against the two tables of its layout.
use mathlib.Core.Bool.{xor}
use snowkernel.Base.{
  ℕ, ◌≤◌, ◌<◌, Bool, true, false, ◌&&◌, ◌||◌, not, ◌==◌, leb, if◌then◌else◌, ◌≡◌, refl, arith,
  get_or,
}
use snowkernel.Base.Table.{all_below, all_below_sound}
use snowkernel.Keymap.{
  KeymapId, us, dvorak, fi, kmod_shift, kmod_caps, layout_of, ascii_of, is_alpha,
}
use snowkernel.Keymap.Layouts.{Layout}
use snowkernel.Keymap.Modifiers.{held}

-- The key's entry of the table that the modifiers select: Shift for every key, and for a letter
-- Caps Lock the other way round.
pub table_char : Layout → ℕ → ℕ → ℕ
unfolding is_alpha
table_char lay mods sc =
    let base = get_or lay.normal sc 0 in
    let shifted = get_or lay.shift sc 0 in
    let up =
      if is_alpha base
      then xor (held kmod_shift mods) (held kmod_caps mods)
      else held kmod_shift mods in
    if base == 0 then 0 else if up then (if shifted == 0 then base else shifted) else base

-- The Finnish keys Ä, Ö and Å.
unfoldable pub is_umlaut_key : KeymapId → ℕ → Bool
is_umlaut_key fi sc = leb 39 sc && leb sc 41
is_umlaut_key _ sc = false

agrees : KeymapId → ℕ → ℕ → Bool
unfolding is_umlaut_key ascii_of table_char layout_of
agrees id mods sc =
    is_umlaut_key id sc || (ascii_of (layout_of id) mods sc == table_char (layout_of id) mods sc)

agrees_table : (id : KeymapId) → all_below 16 (λ mods. all_below 128 (agrees id mods)) ≡ true
unfolding all_below agrees xor
agrees_table us = refl
agrees_table dvorak = refl
agrees_table fi = refl

-- Outside the three Finnish letter keys the character is the table's entry.
pub ascii_of-table_char :
    (id : KeymapId) (mods sc : ℕ)
    → mods < 16
    → sc < 128
    → is_umlaut_key id sc ≡ false
    → ascii_of (layout_of id) mods sc ≡ table_char (layout_of id) mods sc
ascii_of-table_char id mods sc h k ne =
    let t =
      all_below_sound 128 (agrees id mods) sc
        (all_below_sound 16 (λ mods. all_below 128 (agrees id mods)) mods (agrees_table id) h) k in
    unfold agrees in ground (arith, ne, t)

-- What the three keys give in upper case: 32 less than the lower case's code.
misses : ℕ → ℕ → Bool
unfolding is_umlaut_key ascii_of table_char layout_of
misses mods sc =
    not (is_umlaut_key fi sc && xor (held kmod_shift mods) (held kmod_caps mods))
    || (leb b'a' (ascii_of (layout_of fi) mods sc)
        && leb (ascii_of (layout_of fi) mods sc) b'z'
        && leb 128 (table_char (layout_of fi) mods sc))

misses_table : all_below 16 (λ mods. all_below 128 (misses mods)) ≡ true
unfolding all_below misses xor
misses_table = refl

-- In upper case each of the three Finnish letter keys types a plain lower-case letter, where the
-- layout's Shift table has the letter's own CP437 code.
pub finnish_upper :
    (mods sc : ℕ)
    → mods < 16
    → is_umlaut_key fi sc ≡ true
    → xor (held kmod_shift mods) (held kmod_caps mods) ≡ true
    → (b'a' ≤ ascii_of (layout_of fi) mods sc)
      × (ascii_of (layout_of fi) mods sc ≤ b'z')
      × (128 ≤ table_char (layout_of fi) mods sc)
finnish_upper mods sc h key up =
    let k : sc < 128 = unfold is_umlaut_key in ground (arith, key) in
    let t =
      all_below_sound 128 (misses mods) sc
        (all_below_sound 16 (λ mods. all_below 128 (misses mods)) mods misses_table h) k in
    unfold misses in ground (arith, key, up, t)
