-- ===== src/Keymap/Buffer.antt =====
-- The character ring of keymap.c as a queue of at most 127 characters that drops its oldest.
use snowkernel.Base.{
  ℕ, suc, ◌<◌, true, false, Option, none, some, ◌==◌, if◌then◌else◌, update, List, [], ◌∷◌, ◌++◌,
  length, drop, ◌≡◌, refl, sym, ap, arith, Bool-cases, inl, inr, ==→eq,
}
use snowkernel.Base.Ring.{next, gap, window, window_push, length-window}
use snowkernel.Keymap.{Keymap, kbd_char_buf, buf_push, buf_pop, keymap_get_char}

pub record IsRing (k : Keymap) : Type 0 where
  pub head_in : k.char_head < kbd_char_buf
  pub tail_in : k.char_tail < kbd_char_buf

-- The characters that wait, oldest first.
abbrev pub waiting : Keymap → List ℕ
waiting k = window k.char_buf kbd_char_buf k.char_tail (gap kbd_char_buf k.char_tail k.char_head)

-- A queue of at most 127 characters: a push onto a full one drops the oldest.
unfoldable pub queue_push : List ℕ → ℕ → List ℕ
queue_push q c = if length q == 127 then drop 1 (q ++ c ∷ []) else q ++ c ∷ []

unfoldable pub queue_pop : List ℕ → Option ℕ × List ℕ
queue_pop [] = (none, [])
queue_pop (c ∷ q) = (some c, q)

pub length-waiting : (k : Keymap) → length (waiting k) ≡ gap kbd_char_buf k.char_tail k.char_head
length-waiting k = length-window k.char_buf kbd_char_buf k.char_tail _

pub buf_push-IsRing : {k : Keymap} (c : ℕ) → IsRing k → IsRing (buf_push k c)
unfolding buf_push
buf_push-IsRing c v = ground arith

pub buf_pop-IsRing : {k : Keymap} → IsRing k → IsRing (buf_pop k).1
unfolding buf_pop
buf_pop-IsRing v = ground arith

module _ (k : Keymap) (c : ℕ) (v : IsRing k) where
  open k use {char_buf, char_head, char_tail}

  n : ℕ
  n = gap kbd_char_buf char_tail char_head

  written :
      window (update char_buf char_head c) kbd_char_buf char_tail (suc n) ≡ waiting k ++ c ∷ []
  unfolding n
  written = window_push kbd_char_buf char_buf c n char_tail char_head v.tail_in v.head_in refl

  gap_when_full :
      next kbd_char_buf char_head ≡ char_tail
      → (gap kbd_char_buf (next kbd_char_buf char_tail) (next kbd_char_buf char_head) ≡ n)
        × (n ≡ 127)
  unfolding n
  gap_when_full e = ground (arith, v)

  gap_otherwise :
      (next kbd_char_buf char_head == char_tail) ≡ false
      → (gap kbd_char_buf char_tail (next kbd_char_buf char_head) ≡ suc n) × ((n == 127) ≡ false)
  unfolding n
  gap_otherwise e = ground (arith, v)

  -- What a push leaves behind the oldest character.
  written_rest :
      (m : ℕ)
      → m ≡ n
      → window (update char_buf char_head c) kbd_char_buf (next kbd_char_buf char_tail) m
        ≡ drop 1 (window char_buf kbd_char_buf char_tail m ++ c ∷ [])
  unfolding n
  written_rest m e =
      ap {B = List ℕ} (λ q. drop 1 q)
        (window_push kbd_char_buf char_buf c m char_tail char_head v.tail_in v.head_in e)

  -- A push appends the character to those that wait; where 127 wait, the oldest is dropped.
  pub waiting-buf_push : waiting (buf_push k c) ≡ queue_push (waiting k) c
  unfolding buf_push queue_push n
  waiting-buf_push = elim (Bool-cases (next kbd_char_buf char_head == char_tail)) [
    | inl full ↦
        let (g, m) = gap_when_full (==→eq _ _ full) in
        rw (full, g, length-waiting k, m) (written_rest 127 (sym m))
    | inr room ↦ let (g, m) = gap_otherwise room in rw (room, g, length-waiting k, m) written
  ]

gap_when_empty :
    (k : Keymap)
    → (k.char_head == k.char_tail) ≡ true
    → gap kbd_char_buf k.char_tail k.char_head ≡ 0
gap_when_empty k e = ground arith

gap_after_pop :
    (k : Keymap)
    → IsRing k
    → (k.char_head == k.char_tail) ≡ false
    → gap kbd_char_buf k.char_tail k.char_head
      ≡ suc (gap kbd_char_buf (next kbd_char_buf k.char_tail) k.char_head)
gap_after_pop k v e = ground (arith, v)

-- A pop takes the oldest character that waits, and none exactly from an empty ring.
pub waiting-buf_pop :
    (k : Keymap)
    → IsRing k
    → ◌≡◌ {A = Option ℕ × List ℕ} ((buf_pop k).0, waiting (buf_pop k).1) (queue_pop (waiting k))
unfolding buf_pop queue_pop
waiting-buf_pop k v = elim (Bool-cases (k.char_head == k.char_tail)) [
  | inl e ↦ rw (e, gap_when_empty k e)
  | inr e ↦ rw (e, gap_after_pop k v e)
]

-- What `keymap_get_char` finds: nothing waits, or it takes the oldest character.
pub data Popped (k : Keymap) : Option ℕ × Keymap → Type 0 where
  nothing :
      {out : Option ℕ × Keymap} → out.0 ≡ none → waiting k ≡ [] → waiting out.1 ≡ [] → Popped k out
  oldest :
      {out : Option ℕ × Keymap} (c : ℕ)
      → out.0 ≡ some c
      → waiting k ≡ c ∷ waiting out.1
      → Popped k out

pub keymap_get_char-Popped : (k : Keymap) → IsRing k → Popped k (keymap_get_char k)
unfolding keymap_get_char buf_pop
keymap_get_char-Popped k v = elim (Bool-cases (k.char_head == k.char_tail)) [
  | inl e ↦ rw e (nothing refl (rw (gap_when_empty k e)) (rw (gap_when_empty k e)))
  | inr e ↦ rw e (oldest (k.char_buf k.char_tail) refl (rw (gap_after_pop k v e)))
]

pub keymap_get_char-IsRing : {k : Keymap} → IsRing k → IsRing (keymap_get_char k).1
unfolding keymap_get_char
keymap_get_char-IsRing v = buf_pop-IsRing v
