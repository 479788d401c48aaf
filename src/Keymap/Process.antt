-- ===== src/Keymap/Process.antt =====
-- What a scancode does to the keyboard's whole state.
use snowkernel.Base.{
  ℕ, ◌%◌, ◌≤◌, ◌<◌, Bool, true, false, ◌||◌, ◌==◌, leb, ltb, ◌≡◌, refl, arith, ◌⊎◌, inl, inr,
  Bool-cases, if_elim, List, [], ◌∷◌, ◌++◌, All, drop, length,
}
use snowkernel.Keymap.{
  Keymap, is_accepted, buf_push, produce_ascii, key_press, keymap_init, keymap_process_scancode,
  update_modifier, ascii_of, layout_of,
}
use snowkernel.Keymap.Buffer.{IsRing, waiting, queue_push, buf_push-IsRing, waiting-buf_push}
use snowkernel.Keymap.Modifiers.{update_modifier_lem}

-- Backspace, Tab, Enter, printable ASCII and the CP437 letters.
unfoldable pub typable : ℕ → Bool
unfolding is_accepted
typable c = c == 8 || c == 9 || c == 10 || is_accepted c

-- The ring's indices are in range, the modifier byte holds the four flags only, and every
-- character that waits is one that the keyboard may type.
pub record IsSound (k : Keymap) : Type 0 where
  pub ring : IsRing k
  pub flags : k.modifiers < 16
  pub typed : All (λ c. typable c ≡ true) (waiting k)

All-queue_push :
    (q : List ℕ) (c : ℕ)
    → typable c ≡ true
    → All (λ x. typable x ≡ true) q
    → All (λ x. typable x ≡ true) (queue_push q c)
unfolding queue_push
All-queue_push q c t h = elim (Bool-cases (length q == 127)) [
  | inl e ↦ rw e (All-tail (q ++ c ∷ []) (All-snoc q h))
  | inr e ↦ rw e (All-snoc q h)
]
  where
    All-snoc :
        (q : List ℕ) → All (λ x. typable x ≡ true) q → All (λ x. typable x ≡ true) (q ++ c ∷ [])
    All-snoc [] h = (t, tt)
    All-snoc (x ∷ q) h = (h.0, All-snoc q h.1)

    All-tail : (q : List ℕ) → All (λ x. typable x ≡ true) q → All (λ x. typable x ≡ true) (drop 1 q)
    All-tail [] h = h
    All-tail (x ∷ q) h = h.1

buf_push-IsSound : (k : Keymap) (c : ℕ) → typable c ≡ true → IsSound k → IsSound (buf_push k c)
buf_push-IsSound k c t v = record {
  ring = buf_push-IsRing c v.ring;
  flags = unfold buf_push in v.flags;
  typed = rw (waiting-buf_push k c v.ring) (All-queue_push (waiting k) c t v.typed);
}

produce_ascii-IsSound : (k : Keymap) (sc : ℕ) → IsSound k → IsSound (produce_ascii k sc)
unfolding produce_ascii typable
produce_ascii-IsSound k sc v =
    let out = ascii_of (layout_of k.active_layout) k.modifiers sc in
    if_elim IsSound (out == 0) _ _ (λ _. v)
      λ _.
        if_elim IsSound (is_accepted out) _ _ (λ a. buf_push-IsSound k out (ground (arith, a)) v)
          λ _. v

key_press-IsSound : (k : Keymap) (sc : ℕ) → IsSound k → IsSound (key_press k sc)
unfolding key_press typable
key_press-IsSound k sc v =
    if_elim IsSound (sc == 0x0e) _ _ (λ _. buf_push-IsSound k 8 refl v)
      λ _.
        if_elim IsSound (sc == 0x0f) _ _ (λ _. buf_push-IsSound k 9 refl v)
          λ _.
            if_elim IsSound (sc == 0x1c) _ _ (λ _. buf_push-IsSound k 10 refl v)
              λ _.
                if_elim IsSound (sc == 0x39) _ _ (λ _. buf_push-IsSound k 32 refl v)
                  λ _. if_elim IsSound (ltb sc 128) _ _ (λ _. produce_ascii-IsSound k sc v) λ _. v

-- Before the first scancode nothing is assumed of the state.
abbrev pub IsReady : Keymap → Type 0
IsReady k = (k.initialized ≡ true) → IsSound k

keymap_init-IsSound : (k : Keymap) → IsReady k → IsSound (keymap_init k)
unfolding keymap_init
keymap_init-IsSound k h =
    if_elim IsSound k.initialized _ _ h
      λ _. record { ring = omega arith; flags = omega arith; typed = tt }

-- Whatever scancode comes, after any state that is not initialised or is sound, the state is
-- sound: indices and flags stay in range, and only characters that may be typed wait.
pub keymap_process_scancode-IsSound :
    (k : Keymap) (sc : ℕ) → sc < 256 → IsReady k → IsSound (keymap_process_scancode k sc)
unfolding keymap_process_scancode
keymap_process_scancode-IsSound k0 sc b h =
    let v = keymap_init-IsSound k0 h in
    let k = keymap_init k0 in
    let flags = (update_modifier_lem (sc % 128) (leb 128 sc) k.modifiers (omega arith) v.flags).0 in
    let k' : Keymap = record k {
      modifiers = update_modifier (sc % 128) (leb 128 sc) k.modifiers;
    } in
    let v' : IsSound k' = record {
      ring = record { head_in = v.ring.head_in; tail_in = v.ring.tail_in };
      flags = flags;
      typed = v.typed;
    } in
    if_elim IsSound (sc == 0xe0) _ _ (λ _. with_prefix k true v)
      λ _.
        if_elim IsSound k.extended_prefix _ _ (λ _. with_prefix k false v)
          λ _. if_elim IsSound (leb 128 sc) _ _ (λ _. v') λ _. key_press-IsSound k' (sc % 128) v'
  where
    with_prefix : (k : Keymap) (b : Bool) → IsSound k → IsSound (record k { extended_prefix = b })
    with_prefix k b v = record {
      ring = record { head_in = v.ring.head_in; tail_in = v.ring.tail_in };
      flags = v.flags;
      typed = v.typed;
    }

-- A key that is released types nothing, nor does one behind the 0xE0 prefix; the prefix lasts for
-- one scancode.
pub silent_scancodes :
    (k : Keymap) (sc : ℕ)
    → k.initialized ≡ true
    → (128 ≤ sc) ⊎ (k.extended_prefix ≡ true)
    → let k' = keymap_process_scancode k sc in
      (waiting k' ≡ waiting k) × (k'.extended_prefix ≡ (sc == 0xe0))
unfolding keymap_process_scancode keymap_init
silent_scancodes k sc i h = ground arith
