-- ===== src/Tty/Drain.antt =====
-- The keyboard's characters on their way into the active terminal.
use snowkernel.Base.{
  ℕ, zero, suc, ◌<◌, Option, none, some, ◌==◌, update_self, update_ne, List, [], ◌∷◌, ◌++◌, length,
  take, ◌≡◌, ◌≢◌, refl, sym, ap, ◌∙◌, arith, Bool-cases, inl, inr, ==→eq, append_assoc, append-nil,
  take_of_le, take-append,
}
use snowkernel.Keymap.{Keymap, keymap_get_char}
use snowkernel.Keymap.Buffer
use snowkernel.Keymap.Buffer.{
  Popped, nothing, oldest, keymap_get_char-Popped, keymap_get_char-IsRing,
}
use snowkernel.Tty.{Tty, Ttys, putc, tty_kbd_putc, kbd_drain_to_tty}
use snowkernel.Tty.Ring.{IsRing, waiting, queue_putc, waiting-putc, putc-IsRing, length-waiting-le}

abbrev pub active : Ttys → Tty
active s = s.ttys s.active_tty

-- The keyboard's ring has been emptied into the active terminal: what did not fit is lost, and the
-- other terminals are untouched.
pub record Drained (k : Keymap) (s : Ttys) (out : Option (Keymap × Ttys)) : Type 0 where
  pub k' : Keymap
  pub s' : Ttys
  pub ends : out ≡ some (k', s')
  pub emptied : Buffer.waiting k' ≡ []
  pub moved : waiting (active s') ≡ take 1023 (waiting (active s) ++ Buffer.waiting k)
  pub same_tty : s'.active_tty ≡ s.active_tty
  pub others : (i : ℕ) → i ≢ s.active_tty → s'.ttys i ≡ s.ttys i

queue_putc-append :
    (q : List ℕ) (c : ℕ) (cs : List ℕ) → take 1023 (queue_putc q c ++ cs) ≡ take 1023 (q ++ c ∷ cs)
unfolding queue_putc
queue_putc-append q c cs = elim (Bool-cases (length q == 1023)) [
  | inl e ↦
      let n : length q ≡ 1023 = ==→eq _ _ e in
      rw (e, take-append 1023 q cs n, take-append 1023 q (c ∷ cs) n)
  | inr e ↦ rw (e, append_assoc)
]

module _ (s : Ttys) (c : ℕ) (v : IsRing (active s)) where
  active-putc : active (tty_kbd_putc s c) ≡ putc (active s) c
  unfolding tty_kbd_putc
  active-putc = update_self s.ttys s.active_tty (putc (active s) c)

  kbd_putc-IsRing : IsRing (active (tty_kbd_putc s c))
  kbd_putc-IsRing = rw active-putc (putc-IsRing c v)

  kbd_putc-others : (i : ℕ) → i ≢ s.active_tty → (tty_kbd_putc s c).ttys i ≡ s.ttys i
  unfolding tty_kbd_putc
  kbd_putc-others i ne = update_ne s.ttys s.active_tty i (putc (active s) c) ne

  kbd_putc-active : (tty_kbd_putc s c).active_tty ≡ s.active_tty
  unfolding tty_kbd_putc
  kbd_putc-active = refl

  kbd_putc-moved :
      (cs : List ℕ)
      → take 1023 (waiting (active (tty_kbd_putc s c)) ++ cs)
        ≡ take 1023 (waiting (active s) ++ c ∷ cs)
  kbd_putc-moved cs =
      ap (λ (t : Tty). take 1023 (waiting t ++ cs)) active-putc
      ∙ ap (λ (q : List ℕ). take 1023 (q ++ cs)) (waiting-putc (active s) c v)
      ∙ queue_putc-append (waiting (active s)) c cs

module _ (fuel : ℕ) (k : Keymap) (s : Ttys) where
  drain-nothing :
      (keymap_get_char k).0 ≡ none
      → kbd_drain_to_tty (suc fuel) k s ≡ some ((keymap_get_char k).1, s)
  unfolding kbd_drain_to_tty
  drain-nothing e = rw (e, kbd_drain_to_tty)

  drain-oldest :
      (c : ℕ)
      → (keymap_get_char k).0 ≡ some c
      → kbd_drain_to_tty (suc fuel) k s
        ≡ kbd_drain_to_tty fuel (keymap_get_char k).1 (tty_kbd_putc s c)
  unfolding kbd_drain_to_tty
  drain-oldest c e = rw (e, kbd_drain_to_tty)

  drain-Drained :
      IsRing (active s)
      → ((c : ℕ)
          → length (Buffer.waiting k) ≡ suc (length (Buffer.waiting (keymap_get_char k).1))
          → Drained
              (keymap_get_char k).1
              (tty_kbd_putc s c)
              (kbd_drain_to_tty fuel (keymap_get_char k).1 (tty_kbd_putc s c)))
      → Popped k (keymap_get_char k)
      → Drained k s (kbd_drain_to_tty (suc fuel) k s)
  drain-Drained w ih (nothing e q q') = record {
    k' = (keymap_get_char k).1;
    s' = s;
    ends = drain-nothing e;
    emptied = q';
    moved =
        rw (q, append-nil)
          (sym (take_of_le 1023 (waiting (active s)) (length-waiting-le (active s) w)));
    same_tty = refl;
    others = λ i ne. refl;
  }
  drain-Drained w ih (oldest c e q) =
      let r = ih c (ap (λ (l : List ℕ). length l) q) in
      record {
        k' = r.k';
        s' = r.s';
        ends = drain-oldest c e ∙ r.ends;
        emptied = r.emptied;
        moved =
            r.moved
            ∙ kbd_putc-moved s c w (Buffer.waiting (keymap_get_char k).1)
            ∙ ap (λ (l : List ℕ). take 1023 (waiting (active s) ++ l)) (sym q);
        same_tty = r.same_tty ∙ kbd_putc-active s c w;
        others = λ i ne. r.others i (rw (kbd_putc-active s c w) ne) ∙ kbd_putc-others s c w i ne;
      }

-- `kbd_drain_to_tty` ends within one round more than there are characters, has emptied the
-- keyboard's ring, and has appended its characters in order to the active terminal's, up to 1023;
-- the active terminal stays active and the other terminals are unchanged.
pub kbd_drain_to_tty-Drained :
    (fuel : ℕ) (k : Keymap) (s : Ttys)
    → Buffer.IsRing k
    → IsRing (active s)
    → length (Buffer.waiting k) < fuel
    → Drained k s (kbd_drain_to_tty fuel k s)
kbd_drain_to_tty-Drained zero k s v w h = absurd (omega arith)
kbd_drain_to_tty-Drained (suc fuel) k s v w h =
    drain-Drained fuel k s w
      (λ c e.
        kbd_drain_to_tty-Drained fuel (keymap_get_char k).1 (tty_kbd_putc s c)
          (keymap_get_char-IsRing v) (kbd_putc-IsRing s c w) (omega arith))
      (keymap_get_char-Popped k v)
