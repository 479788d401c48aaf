-- ===== src/Keymap/Modifiers.antt =====
-- The modifier byte: each flag follows its own keys, and nothing else does.
use Prim.Native.Nat.{bit_and}
use snowkernel.Base.{
  ℕ, ◌<◌, Bool, true, false, ◌&&◌, ◌||◌, not, ◌==◌, ltb, if◌then◌else◌, ◌≡◌, refl, arith, ltb→lt,
}
use snowkernel.Base.Table.{all_below, all_below_sound}
use snowkernel.Keymap.{kmod_shift, kmod_ctrl, kmod_alt, kmod_caps, update_modifier}

-- Flag `m` of the modifier byte `v`, as the code tests it.
abbrev pub held : ℕ → ℕ → Bool
held m v = not (bit_and v m == 0)

-- The four flags and nothing else: the byte is made of them.
abbrev pub Flags : Bool → Bool → Bool → Bool → ℕ → Type 0
Flags s c a l v =
    (v < 16)
    × (held kmod_shift v ≡ s)
    × (held kmod_ctrl v ≡ c)
    × (held kmod_alt v ≡ a)
    × (held kmod_caps v ≡ l)

same : Bool → Bool → Bool
same true b = b
same false b = not b

same→eq : (a b : Bool) → same a b ≡ true → a ≡ b
unfolding same
same→eq a b h = ground arith

-- What the scancode `sc`, pressed or released, makes of each flag.
abbrev pub after_shift : ℕ → Bool → Bool → Bool
after_shift sc released b = if sc == 0x2a || sc == 0x36 then not released else b

abbrev pub after_ctrl : ℕ → Bool → Bool → Bool
after_ctrl sc released b = if sc == 0x1d then not released else b

abbrev pub after_alt : ℕ → Bool → Bool → Bool
after_alt sc released b = if sc == 0x38 then not released else b

abbrev pub after_caps : ℕ → Bool → Bool → Bool
after_caps sc released b = if sc == 0x3a && not released then not b else b

tracks : Bool → ℕ → ℕ → Bool
unfolding same
tracks released sc v =
    let w = update_modifier sc released v in
    ltb w 16
    && same (held kmod_shift w) (after_shift sc released (held kmod_shift v))
    && same (held kmod_ctrl w) (after_ctrl sc released (held kmod_ctrl v))
    && same (held kmod_alt w) (after_alt sc released (held kmod_alt v))
    && same (held kmod_caps w) (after_caps sc released (held kmod_caps v))

tracks_table :
    (all_below 128 (λ sc. all_below 16 (tracks true sc)) ≡ true)
    × (all_below 128 (λ sc. all_below 16 (tracks false sc)) ≡ true)
unfolding all_below tracks update_modifier
tracks_table = (refl, refl)

tracks_all : (released : Bool) (sc v : ℕ) → sc < 128 → v < 16 → tracks released sc v ≡ true
tracks_all true sc v h k =
    all_below_sound 16 (tracks true sc) v
      (all_below_sound 128 (λ sc. all_below 16 (tracks true sc)) sc tracks_table.0 h) k
tracks_all false sc v h k =
    all_below_sound 16 (tracks false sc) v
      (all_below_sound 128 (λ sc. all_below 16 (tracks false sc)) sc tracks_table.1 h) k

and_parts : (a b : Bool) → (a && b) ≡ true → (a ≡ true) × (b ≡ true)
and_parts a b h = ground arith

-- After a key event each flag is what the key makes of it: Shift, Ctrl and Alt follow the last
-- event of their own keys, Caps Lock toggles on its press, and no other key changes a flag.
pub update_modifier_lem :
    (sc : ℕ) (released : Bool) (v : ℕ)
    → sc < 128
    → v < 16
    → Flags
        (after_shift sc released (held kmod_shift v))
        (after_ctrl sc released (held kmod_ctrl v))
        (after_alt sc released (held kmod_alt v))
        (after_caps sc released (held kmod_caps v))
        (update_modifier sc released v)
update_modifier_lem sc released v h k =
    let w = update_modifier sc released v in
    let t = tracks_all released sc v h k in
    unfold tracks in
    let (t1, p5) = and_parts _ _ t in
    let (t2, p4) = and_parts _ _ t1 in
    let (t3, p3) = and_parts _ _ t2 in
    let (p1, p2) = and_parts _ _ t3 in
    (ltb→lt w 16 p1, same→eq _ _ p2, same→eq _ _ p3, same→eq _ _ p4, same→eq _ _ p5)
