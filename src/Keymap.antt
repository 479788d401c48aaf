-- ===== src/Keymap.antt =====
-- The keyboard of src/drivers/keymap.c: scancodes become characters in a ring of 128 slots.
pub mod Layouts
pub mod Buffer
pub mod Modifiers
pub mod Letters
pub mod Process
mod Tests
use Prim.Native.Nat.{bit_and, bit_or, bit_xor}
use snowkernel.Base.{
  ℕ, zero, suc, ◌+◌, ◌-◌, ◌/◌, ◌%◌, Bool, true, false, ◌&&◌, ◌||◌, not, Option, none, some, ◌==◌,
  ltb, leb, if◌then◌else◌, update, get_or, List, [], ◌∷◌,
}
use mathlib.Core.Bool.{xor}
use snowkernel.Base.Ring.{next}
use snowkernel.Keymap.Layouts.{Layout, layout_us, layout_dvorak, layout_fi}

-- `keymap_id_t`.
pub data KeymapId : Type 0 where
  us dvorak fi : KeymapId

abbrev pub kbd_char_buf : ℕ
kbd_char_buf = 128

abbrev pub kmod_shift : ℕ
kmod_shift = 1

abbrev pub kmod_ctrl : ℕ
kmod_ctrl = 2

abbrev pub kmod_alt : ℕ
kmod_alt = 4

abbrev pub kmod_caps : ℕ
kmod_caps = 8

-- The file's static variables. `char_head` is the next write, `char_tail` the next read.
pub record Keymap : Type 0 where
  pub char_buf : ℕ → ℕ
  pub char_head : ℕ
  pub char_tail : ℕ
  pub modifiers : ℕ
  pub extended_prefix : Bool
  pub active_layout : KeymapId
  pub initialized : Bool

pub buf_is_full : Keymap → Bool
buf_is_full k = next kbd_char_buf k.char_head == k.char_tail

pub buf_is_empty : Keymap → Bool
buf_is_empty k = k.char_head == k.char_tail

-- A full buffer loses its oldest character.
pub buf_push : Keymap → ℕ → Keymap
buf_push k c =
    let nh = next kbd_char_buf k.char_head in
    record k {
      char_tail = if nh == k.char_tail then next kbd_char_buf k.char_tail else k.char_tail;
      char_buf = update k.char_buf k.char_head c;
      char_head = nh;
    }

-- `none` is the -1.
pub buf_pop : Keymap → Option ℕ × Keymap
unfolding buf_is_empty
buf_pop k =
    if buf_is_empty k
    then (none, k)
    else (some (k.char_buf k.char_tail), record k { char_tail = next kbd_char_buf k.char_tail })

pub keymap_init : Keymap → Keymap
keymap_init k = if k.initialized then k else record k {
  initialized = true;
  active_layout = us;
  modifiers = 0;
  extended_prefix = false;
  char_head = 0;
  char_tail = 0;
}

-- An `id` out of range is the US layout.
unfoldable pub keymap_set_layout : Keymap → ℕ → Keymap
keymap_set_layout k id = record k {
  active_layout = if id == 1 then dvorak else if id == 2 then fi else us;
}

unfoldable pub keymap_get_layout : Keymap → ℕ
keymap_get_layout k = elim (k.active_layout) [ us ↦ 0 | dvorak ↦ 1 | fi ↦ 2 ]

pub keymap_get_modifiers : Keymap → ℕ
keymap_get_modifiers k = k.modifiers

-- `modifiers |= m`, `modifiers &= ~m` and `modifiers ^= m` on a `uint8_t`.
pub set_bits : ℕ → ℕ → ℕ
set_bits m v = bit_or v m

pub clear_bits : ℕ → ℕ → ℕ
clear_bits m v = bit_and v (255 - m)

pub update_modifier : ℕ → Bool → ℕ → ℕ
unfolding set_bits clear_bits
update_modifier sc released v =
    if sc == 0x2a || sc == 0x36
    then (if released then clear_bits kmod_shift v else set_bits kmod_shift v)
    else if sc == 0x1d
    then (if released then clear_bits kmod_ctrl v else set_bits kmod_ctrl v)
    else if sc == 0x38
    then (if released then clear_bits kmod_alt v else set_bits kmod_alt v)
    else if sc == 0x3a
    then (if released then v else bit_xor v kmod_caps)
    else v

pub layout_of : KeymapId → Layout
layout_of us = layout_us
layout_of dvorak = layout_dvorak
layout_of fi = layout_fi

-- The CP437 codes of the Finnish letters.
pub is_cp437_umlaut : ℕ → Bool
is_cp437_umlaut u = u == 0x84 || u == 0x94 || u == 0x86 || u == 0x8e || u == 0x99 || u == 0x8f

-- `char` is signed, so a byte from 128 on is below 'a' and below 'A', and fails both ranges here too.
pub is_alpha : ℕ → Bool
unfolding is_cp437_umlaut
is_alpha b = (leb b'a' b && leb b b'z') || (leb b'A' b && leb b b'Z') || is_cp437_umlaut b

-- The letter typed for the table's byte `b`: a `char` subtraction wraps at 256.
pub letter : Bool → ℕ → ℕ
letter upper b =
    let base = if leb b'A' b && leb b b'Z' then b - b'A' + b'a' else b in
    if upper then (base + 256 - b'a' + b'A') % 256 else base

-- What the last test of `produce_ascii` lets through.
pub is_accepted : ℕ → Bool
unfolding is_cp437_umlaut
is_accepted u = (leb 32 u && leb u 126) || is_cp437_umlaut u

-- `out` of `produce_ascii`; 0 is no character.
pub ascii_of : Layout → ℕ → ℕ → ℕ
unfolding is_alpha letter
ascii_of lay mods sc =
    let base = get_or lay.normal sc 0 in
    let shifted = get_or lay.shift sc 0 in
    if base == 0
    then 0
    else if is_alpha base
    then letter (xor (not (bit_and mods kmod_shift == 0)) (not (bit_and mods kmod_caps == 0))) base
    else if bit_and mods kmod_shift == 0
    then base
    else if shifted == 0
    then base
    else shifted

pub produce_ascii : Keymap → ℕ → Keymap
unfolding ascii_of is_accepted layout_of buf_push
produce_ascii k sc =
    let out = ascii_of (layout_of k.active_layout) k.modifiers sc in
    if out == 0 then k else if is_accepted out then buf_push k out else k

-- The keys that stand for a control character.
pub key_press : Keymap → ℕ → Keymap
unfolding produce_ascii buf_push
key_press k sc =
    if sc == 0x0e
    then buf_push k 8
    else if sc == 0x0f
    then buf_push k 9
    else if sc == 0x1c
    then buf_push k 10
    else if sc == 0x39
    then buf_push k 32
    else if ltb sc 128
    then produce_ascii k sc
    else k

-- `sc & 0x7f` is the remainder by 128, and `sc & 0x80` tests the top bit of the byte.
pub keymap_process_scancode : Keymap → ℕ → Keymap
unfolding keymap_init update_modifier key_press
keymap_process_scancode k0 sc =
    let k = keymap_init k0 in
    let released = leb 128 sc in
    let code = sc % 128 in
    let k' = record k { modifiers = update_modifier code released k.modifiers } in
    if sc == 0xe0
    then record k { extended_prefix = true }
    else if k.extended_prefix
    then record k { extended_prefix = false }
    else if released
    then k'
    else key_press k' code

pub keymap_get_char : Keymap → Option ℕ × Keymap
unfolding buf_pop
keymap_get_char k = buf_pop k
