-- ===== src/Ui/Clock.antt =====
-- When the desktop shows the time, and when it ends.
use snowkernel.Base.{
  ℕ, ◌+◌, ◌-◌, ◌%◌, ◌^◌, ◌≤◌, ◌<◌, Bool, true, false, ◌&&◌, ◌||◌, not, ◌==◌, leb, if◌then◌else◌,
  if_elim, List, [], ◌∷◌, ◌++◌, none, some, All, ◌≡◌, refl, sym, subst, ◌∙◌, arith,
}
use snowkernel.Base.Int.{pos}
use snowkernel.Video.{video_fillrect, video_draw_text}
use snowkernel.Input.{Poll}
use snowkernel.Ui.Texts.{exit_fb, exit_plain, launching}
use snowkernel.Ui.{
  says, clock_text, power_shutdown, Ui, Inputs, minus, update_clock, show_time, toggle_menu,
  Outcome, goes_on, exits, reboots, runs_shell, menu_key, on_key, on_click, draw_arrow, clicked,
  ui_round, ui_loop,
}

-- The time was shown less than 100 ticks ago, and always a whole number of times 100 ticks after the
-- first tick.
pub record IsShownAt (ticks : ℕ) (u : Ui) : Type 0 where
  pub past : u.last_tick ≤ ticks
  pub recent : ticks < u.last_tick + 100
  pub phase : u.last_tick % 100 ≡ 0

minus_of_le : (a b : ℕ) → a < 2 ^ 64 → b ≤ a → minus a b ≡ a - b
minus_of_le a b small le = omega (arith, small, le)

due-IsShownAt :
    (u shown : Ui) (ticks : ℕ)
    → ticks < 2 ^ 64
    → u.last_tick ≤ ticks
    → u.last_tick % 100 ≡ 0
    → IsShownAt ticks (
        if leb 100 (minus ticks u.last_tick)
        then record shown { last_tick = minus ticks (minus ticks u.last_tick % 100) }
        else u)
due-IsShownAt u shown ticks small le phase =
    let gone = minus_of_le ticks u.last_tick small le in
    let last = minus ticks (minus ticks u.last_tick % 100) in
    let low : last ≡ ticks - (ticks - u.last_tick) % 100 =
      rw gone (minus_of_le ticks ((ticks - u.last_tick) % 100) small (omega (arith, le))) in
    if_elim (IsShownAt ticks) (leb 100 (minus ticks u.last_tick))
      (record shown { last_tick = last }) u
      (λ _. record {
        past = omega (arith, low);
        recent = omega (arith, low);
        phase = omega (arith, low, phase, le);
      })
      (λ e.
        let near : ticks - u.last_tick < 100 = ground (arith, gone, e) in
        record { past = le; recent = omega (arith, near); phase = phase })

-- Where the ticks are 64-bit numbers that have not gone back, the time is at most 99 ticks old after a
-- round's work on it, and it is shown at multiples of 100 ticks.
pub show_time-IsShownAt :
    (u : Ui) (ticks : ℕ)
    → ticks < 2 ^ 64
    → u.last_tick ≤ ticks
    → u.last_tick % 100 ≡ 0
    → IsShownAt ticks (show_time u ticks)
unfolding show_time
show_time-IsShownAt u ticks small le phase =
    let bar = video_fillrect u.screen (pos 300) (pos 0) (pos 120) (pos 24) 0x303860 in
    due-IsShownAt u
      (if u.screen.available
        then record u {
          screen = video_draw_text bar (pos 300) (pos 4) (clock_text ticks) 0xFFFFFF 0x303860;
        }
        else record u { console = update_clock u.console ticks })
      ticks small le phase

-- A round in which nothing leaves the desktop.
unfoldable pub stays_key : ℕ → Bool
stays_key c = not (c == b'q' || c == b't' || c == b'2')

unfoldable pub QuietKey : Poll → Type 0
QuietKey none = Unit
QuietKey (some c) = stays_key c ≡ true

both : (b : Bool) → b ≡ true → b ≡ false → ⊥
both b h k = cc

and_not : (a b : Bool) → (a && b) ≡ true → b ≡ false → ⊥
and_not a b h k = ground arith

-- The loop has not ended.
pub GoesOn : Outcome → Type 0
GoesOn (goes_on u) = Unit
GoesOn (exits u) = ⊥
GoesOn (reboots u) = ⊥
GoesOn (runs_shell u) = ⊥

-- `ui_run` has returned.
pub Exits : Outcome → Type 0
Exits (goes_on u) = ⊥
Exits (exits u) = Unit
Exits (reboots u) = ⊥
Exits (runs_shell u) = ⊥

stays_key_lem :
    (c : ℕ)
    → stays_key c ≡ true
    → ((c == b'q') ≡ false) × ((c == b't') ≡ false) × ((c == b'2') ≡ false)
unfolding stays_key
stays_key_lem c h = (ground arith, ground arith, ground arith)

menu_key-GoesOn : (u : Ui) (c : ℕ) → stays_key c ≡ true → GoesOn (menu_key u c)
unfolding menu_key GoesOn
menu_key-GoesOn u c h =
    let others = stays_key_lem c h in
    let u' =
      if u.menu_open && c == b'1' then record u { console = power_shutdown u.console } else u in
    if_elim GoesOn (u.menu_open && c == b'2') (reboots u)
      (if c == b't' then runs_shell (says u' launching) else goes_on u')
      (λ e. and_not u.menu_open (c == b'2') e others.2)
      (λ _.
        if_elim GoesOn (c == b't') (runs_shell (says u' launching)) (goes_on u')
          (λ e. both (c == b't') e others.1) (λ _. tt))

on_key-GoesOn : (u : Ui) (c : ℕ) → stays_key c ≡ true → GoesOn (on_key u c)
unfolding on_key GoesOn
on_key-GoesOn u c h =
    let others = stays_key_lem c h in
    let u' = if c == b'm' && u.screen.available then toggle_menu u else u in
    if_elim GoesOn (c == b'q') (exits (says u (if u.screen.available then exit_fb else exit_plain)))
      (menu_key u' c) (λ e. both (c == b'q') e others.0) (λ _. menu_key-GoesOn u' c h)

clicked-GoesOn : (o : Outcome) (i : Inputs) → GoesOn o → GoesOn (clicked o i)
unfolding clicked GoesOn
clicked-GoesOn (goes_on u) i h = tt
clicked-GoesOn (exits u) i h = h
clicked-GoesOn (reboots u) i h = h
clicked-GoesOn (runs_shell u) i h = h

-- What a round makes of its key, at a key that is a variable.
module _ (u : Ui) (i : Inputs) where
  by_key : Poll → Outcome
  by_key k = elim k [ none ↦ goes_on (on_click u i) | some c ↦ clicked (on_key u c) i ]

  by_key-GoesOn : (k : Poll) → QuietKey k → GoesOn (by_key k)
  unfolding by_key QuietKey GoesOn
  by_key-GoesOn none h = tt
  by_key-GoesOn (some c) h = clicked-GoesOn (on_key u c) i (on_key-GoesOn u c h)

  by_key-Exits : Exits (by_key (some b'q'))
  unfolding by_key on_key clicked Exits
  by_key-Exits = tt

round-GoesOn : (u : Ui) (i : Inputs) → QuietKey i.key → GoesOn (ui_round u i)
unfolding ui_round by_key
round-GoesOn u i h = by_key-GoesOn (show_time (draw_arrow u i) i.ticks) i i.key h

round-Exits : (u : Ui) (i : Inputs) → i.key ≡ some b'q' → Exits (ui_round u i)
unfolding ui_round by_key
round-Exits u i e =
    let u' = show_time (draw_arrow u i) i.ticks in
    subst (λ (k : Poll). Exits (by_key u' i k)) (sym e) (by_key-Exits u' i)

-- The loop after a round that ended so.
abbrev next : List Inputs → Outcome → Outcome
next is o = elim o [
  | goes_on u' ↦ ui_loop u' is
  | exits u' ↦ exits u'
  | reboots u' ↦ reboots u'
  | runs_shell u' ↦ runs_shell u'
]

next-Exits : (is : List Inputs) (o : Outcome) → Exits o → Exits (next is o)
unfolding Exits
next-Exits is (exits u) h = h
next-Exits is (goes_on u) h = absurd h
next-Exits is (reboots u) h = absurd h
next-Exits is (runs_shell u) h = absurd h

next-ends : (is : List Inputs) (o : Outcome) → Exits o → next is o ≡ o
unfolding Exits
next-ends is (exits u) h = refl
next-ends is (goes_on u) h = absurd h
next-ends is (reboots u) h = absurd h
next-ends is (runs_shell u) h = absurd h

next-GoesOn :
    (is : List Inputs) (o : Outcome)
    → GoesOn o
    → ((u : Ui) → GoesOn (ui_loop u is))
    → GoesOn (next is o)
unfolding GoesOn
next-GoesOn is (goes_on u) h rest = rest u
next-GoesOn is (exits u) h rest = absurd h
next-GoesOn is (reboots u) h rest = absurd h
next-GoesOn is (runs_shell u) h rest = absurd h

next-both :
    (is js : List Inputs) (o : Outcome)
    → GoesOn o
    → ((u : Ui) → Exits (ui_loop u is) × (ui_loop u js ≡ ui_loop u is))
    → Exits (next is o) × (next js o ≡ next is o)
unfolding GoesOn
next-both is js (goes_on u) h rest = rest u
next-both is js (exits u) h rest = absurd h
next-both is js (reboots u) h rest = absurd h
next-both is js (runs_shell u) h rest = absurd h

-- After quiet rounds the loop is still going on.
quiet-GoesOn :
    (before : List Inputs) (u : Ui) → All (λ i. QuietKey i.key) before → GoesOn (ui_loop u before)
unfolding ui_loop GoesOn
quiet-GoesOn [] u quiet = tt
quiet-GoesOn (i ∷ before) u quiet =
    next-GoesOn before (ui_round u i) (round-GoesOn u i quiet.0)
      (λ u'. quiet-GoesOn before u' quiet.1)

quit-ends :
    (before after : List Inputs) (quit : Inputs) (u : Ui)
    → All (λ i. QuietKey i.key) before
    → quit.key ≡ some b'q'
    → Exits (ui_loop u (before ++ quit ∷ []))
      × (ui_loop u (before ++ quit ∷ after) ≡ ui_loop u (before ++ quit ∷ []))
unfolding ui_loop
quit-ends [] after quit u quiet e =
    let ended = round-Exits u quit e in
    (
      next-Exits [] (ui_round u quit) ended,
      next-ends after (ui_round u quit) ended ∙ sym (next-ends [] (ui_round u quit) ended),
    )
quit-ends (i ∷ before) after quit u quiet e =
    next-both (before ++ quit ∷ []) (before ++ quit ∷ after) (ui_round u i)
      (round-GoesOn u i quiet.0) (λ u'. quit-ends before after quit u' quiet.1 e)

-- Where no round of `before` brings q, t or 2, and the round `quit` brings q, then, whatever else the
-- rounds bring and whatever state the loop starts from: after the rounds of `before` the desktop's loop
-- is still going on, it has returned after the round `quit`, and what it returns with does not depend
-- on what would come after that round.
pub ui_loop-Exits :
    (before after : List Inputs) (quit : Inputs) (u : Ui)
    → All (λ i. QuietKey i.key) before
    → quit.key ≡ some b'q'
    → GoesOn (ui_loop u before)
      × Exits (ui_loop u (before ++ quit ∷ []))
      × (ui_loop u (before ++ quit ∷ after) ≡ ui_loop u (before ++ quit ∷ []))
ui_loop-Exits before after quit u quiet e =
    let (ended, same) = quit-ends before after quit u quiet e in
    (quiet-GoesOn before u quiet, ended, same)
