-- ===== src/Irq/Keys.antt =====
-- The keyboard's interrupt: from the device through the keyboard's ring into the terminal.
use snowkernel.Base.{
  ℕ, ◌%◌, some, ◌==◌, if◌then◌else◌, List, [], ◌∷◌, ◌≡◌, refl, arith, Bool-cases, inl, inr, Bool,
  true, false,
}
use snowkernel.Keymap.{Keymap, keymap_process_scancode}
use snowkernel.Keymap.Buffer
use snowkernel.Keymap.Process.{IsSound, keymap_process_scancode-IsSound}
use snowkernel.Tty.{Ttys}
use snowkernel.Tty.Ring.{IsRing}
use snowkernel.Tty.Drain.{Drained, active, kbd_drain_to_tty-Drained}
use snowkernel.Irq.{read_scancodes, kbd_irq}

-- The scancodes that the device has: those before the first status without its lowest bit.
unfoldable pub scancodes : List (ℕ × ℕ) → List ℕ
scancodes [] = []
scancodes ((status, sc) ∷ rest) =
    let more = scancodes rest in if status % 2 == 1 then (sc % 256) ∷ more else []

-- The keyboard's state after scancodes, in order.
unfoldable pub process_all : List ℕ → Keymap → Keymap
process_all [] k = k
process_all (sc ∷ scs) k = process_all scs (keymap_process_scancode k sc)

-- Some status has its lowest bit clear.
unfoldable pub has_end : List (ℕ × ℕ) → Bool
has_end [] = false
has_end ((status, sc) ∷ rest) = let more = has_end rest in if status % 2 == 1 then more else true

process_all-IsSound :
    (reads : List (ℕ × ℕ)) (k : Keymap) → IsSound k → IsSound (process_all (scancodes reads) k)
unfolding process_all scancodes
process_all-IsSound [] k v = v
process_all-IsSound ((status, sc) ∷ rest) k v = elim (Bool-cases (status % 2 == 1)) [
  | inl e ↦ rw e (
      process_all-IsSound rest (keymap_process_scancode k (sc % 256))
        (keymap_process_scancode-IsSound k (sc % 256) (omega arith) (λ _. v)))
  | inr e ↦ rw e v
]

read_scancodes_lem :
    (reads : List (ℕ × ℕ)) (k : Keymap)
    → has_end reads ≡ true
    → read_scancodes reads k ≡ some (process_all (scancodes reads) k)
unfolding read_scancodes process_all scancodes has_end
read_scancodes_lem [] k h = absurd (ground (arith, h))
read_scancodes_lem ((status, sc) ∷ rest) k h = elim (Bool-cases (status % 2 == 1)) [
  | inl e ↦ rw e (read_scancodes_lem rest (keymap_process_scancode k (sc % 256)) (rw e at h))
  | inr e ↦ rw e refl
]

-- The interrupt ends with 128 rounds for the ring, where the device at some read has no more: from a
-- sound keyboard, with the active terminal's ring in range, the keyboard is sound after every scancode
-- that the device has, in order, then its ring is emptied, and its characters stand behind those of
-- the active terminal, up to 1023, the other terminals being unchanged.
pub kbd_irq-Drained :
    (reads : List (ℕ × ℕ)) (k : Keymap) (s : Ttys)
    → has_end reads ≡ true
    → IsSound k
    → IsRing (active s)
    → let k' = process_all (scancodes reads) k in IsSound k' × Drained k' s (kbd_irq 128 reads k s)
unfolding kbd_irq
kbd_irq-Drained reads k s h v w =
    let v' = process_all-IsSound reads k v in
    let k' = process_all (scancodes reads) k in
    (
      v',
      rw (read_scancodes_lem reads k h, kbd_irq)
          (kbd_drain_to_tty-Drained 128 k' s v'.ring w
            (let n = Buffer.length-waiting k' in ground (arith, n, v'.ring))),
    )
