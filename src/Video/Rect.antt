-- ===== src/Video/Rect.antt =====
-- What `video_fillrect` fills.
use snowkernel.Base.{
  ℕ, zero, suc, ◌+◌, ◌*◌, ◌≤◌, ◌<◌, Bool, true, false, ◌&&◌, not, ltb, leb, if◌then◌else◌,
  fill_from, fill_from-inside, fill_from-outside, ◌≡◌, ◌==◌, ==→eq, ltb→lt, refl, ap, ◌∙◌, arith,
  Bool-cases, inl, inr, ◌⊎◌,
}
use snowkernel.Base.Int.{ℤ, pos, negsuc, lt_ℤ}
use snowkernel.Video.{Screen, word_at, clip, rounds, fill_rows, video_fillrect}
use snowkernel.Video.Fill.{small_screen}
use snowkernel.Video.Clip.{covers, is_side, clip-covers, clip-inside}
use snowkernel.Video.Bounds.{IsMode, word_at_lem, row_end}

-- The word of the pixel at `x` in the row `y`.
abbrev pub pixel : Screen → ℕ → ℕ → ℕ
pixel s x y = s.fb (y * s.width + x)

row_next : (w y z k : ℕ) → y < z → k ≤ w → y * w + k ≤ z * w
row_next w y z k h hk = grind arith

-- The state after one row of the rectangle.
abbrev one_row : Screen → ℕ → ℕ → ℕ → ℕ → Screen
one_row s x y w rgb = record s { fb = fill_from s.fb rgb w (word_at s x y) }

module _ (s : Screen) (x w rgb px : ℕ) (v : IsMode s) (fits : x + w ≤ s.width)
    (hx : px < s.width) where
  one_row-inside :
      (y : ℕ) → y < s.height → x ≤ px → px < x + w → pixel (one_row s x y w rgb) px y ≡ rgb
  one_row-inside y hy low high =
      let at = word_at_lem s x y v hy in
      fill_from-inside s.fb rgb w (word_at s x y) (y * s.width + px) (omega (arith, at, low))
        (omega (arith, at, high))

  one_row_other :
      (y py : ℕ)
      → y < s.height
      → (py < y) ⊎ (y < py)
      → pixel (one_row s x y w rgb) px py ≡ pixel s px py
  one_row_other y py hy out =
      let at = word_at_lem s x y v hy in
      fill_from-outside s.fb rgb w (word_at s x y) (py * s.width + px) (elim out [
        | inl l ↦ inl (let e = row_end s.width y px py hx l in omega (arith, at, e))
        | inr r ↦ inr (let e = row_next s.width y py (x + w) r fits in omega (arith, at, e))
      ])

  one_row_beside :
      (y : ℕ)
      → y < s.height
      → (py : ℕ) → (px < x) ⊎ (x + w ≤ px)
      → pixel (one_row s x y w rgb) px py ≡ pixel s px py
  one_row_beside y hy py out =
      let at = word_at_lem s x y v hy in
      elim (Bool-cases (py == y)) [
        | inl e ↦
            let same : py * s.width ≡ y * s.width = ap (λ (r : ℕ). r * s.width) (==→eq py y e) in
            fill_from-outside s.fb rgb w (word_at s x y) (py * s.width + px) (elim out [
              | inl l ↦ inl (omega (arith, at, same, l))
              | inr r ↦ inr (omega (arith, at, same, r))
            ])
        | inr e ↦ one_row_other y py hy (sides e)
      ]
    where
      sides : (py == y) ≡ false → (py < y) ⊎ (y < py)
      sides e = elim (Bool-cases (ltb py y)) [
        | inl l ↦ inl (ltb→lt py y l)
        | inr r ↦ inr (ground (arith, e, r))
      ]

row-IsMode : (s : Screen) (x y w rgb : ℕ) → IsMode s → IsMode (one_row s x y w rgb)
row-IsMode s x y w rgb v = record { rows = v.rows; small = v.small }

module _ (x w rgb px : ℕ) where
  pub fill_rows-outside :
      (s : Screen) (y h py : ℕ)
      → IsMode s
      → x + w ≤ s.width
      → px < s.width
      → y + h ≤ s.height
      → ((py < y) ⊎ (y + h ≤ py)) ⊎ ((px < x) ⊎ (x + w ≤ px))
      → pixel (fill_rows s x y w h rgb) px py ≡ pixel s px py
  unfolding fill_rows
  fill_rows-outside s y zero py v fits hx tall out = refl
  fill_rows-outside s y (suc h) py v fits hx tall out =
      let s' = one_row s x y w rgb in
      let hy : y < s.height = omega (arith, tall) in
      fill_rows-outside s' (y + 1) h py (row-IsMode s x y w rgb v) fits hx (omega (arith, tall))
        (elim out [
          | inl rows ↦
              inl (elim rows [ inl l ↦ inl (omega (arith, l)) | inr r ↦ inr (omega (arith, r)) ])
          | inr cols ↦ inr cols
        ])
      ∙ elim out [
        | inl rows ↦
            one_row_other s x w rgb px v fits hx y py hy
              (elim rows [ inl l ↦ inl l | inr r ↦ inr (omega (arith, r)) ])
        | inr cols ↦ one_row_beside s x w rgb px v fits hx y hy py cols
      ]

  pub fill_rows-inside :
      (s : Screen) (y h py : ℕ)
      → IsMode s
      → x + w ≤ s.width
      → px < s.width
      → y + h ≤ s.height
      → y ≤ py
      → py < y + h
      → x ≤ px
      → px < x + w
      → pixel (fill_rows s x y w h rgb) px py ≡ rgb
  unfolding fill_rows
  fill_rows-inside s y zero py v fits hx tall low high left right =
      absurd (omega (arith, low, high))
  fill_rows-inside s y (suc h) py v fits hx tall low high left right =
      elim (Bool-cases (ltb y py)) [
        | inl later ↦
            fill_rows-inside (one_row s x y w rgb) (y + 1) h py (row-IsMode s x y w rgb v) fits hx
              (omega (arith, tall)) (ground (arith, later)) (omega (arith, high)) left right
        | inr now ↦
            let same : py ≡ y = ground (arith, now, low) in
            let hy : y < s.height = omega (arith, tall) in
            fill_rows-outside (one_row s x y w rgb) (y + 1) h py (row-IsMode s x y w rgb v) fits hx
              (omega (arith, tall)) (inl (inl (omega (arith, same))))
            ∙ rw same (one_row-inside s x w rgb px v fits hx y hy left right)
      ]

-- Whether the place is one of `n` from `a` on.
abbrev within : ℕ → ℕ → ℕ → Bool
within a n p = leb a p && ltb p (a + n)

within_none : (a p : ℕ) (l : ℤ) → lt_ℤ (pos 0) l ≡ false → within a (rounds l) p ≡ false
within_none a p (pos n) h = ground arith
within_none a p (negsuc n) h = ground arith

within→ : (a n p : ℕ) → within a n p ≡ true → (a ≤ p) × (p < a + n)
within→ a n p h = (ground (arith, h), ground (arith, h))

without→ : (a n p : ℕ) → within a n p ≡ false → (p < a) ⊎ (a + n ≤ p)
without→ a n p h = elim (Bool-cases (ltb p a)) [
  | inl l ↦ inl (ltb→lt p a l)
  | inr r ↦ inr (ground (arith, h, r))
]

fill_rows-within :
    (s : Screen) (x y w h rgb px py : ℕ)
    → IsMode s
    → px < s.width
    → x + w ≤ s.width
    → y + h ≤ s.height
    → pixel (fill_rows s x y w h rgb) px py
      ≡ (if within x w px && within y h py then rgb else pixel s px py)
fill_rows-within s x y w h rgb px py v hx fits tall = elim (Bool-cases (within x w px)) [
  | inr e ↦ rw e (fill_rows-outside x w rgb px s y h py v fits hx tall (inr (without→ x w px e)))
  | inl e ↦ elim (Bool-cases (within y h py)) [
    | inr f ↦
        rw (e, f) (fill_rows-outside x w rgb px s y h py v fits hx tall (inl (without→ y h py f)))
    | inl f ↦
        let cols = within→ x w px e in
        let rows = within→ y h py f in
        rw (e, f) (fill_rows-inside x w rgb px s y h py v fits hx tall rows.0 rows.1 cols.0 cols.1)
  ]
]

and-false : (b : Bool) → (b && false) ≡ false
and-false true = refl
and-false false = refl

-- The part of `video_fillrect` past the clipping.
fill_cut-within :
    (s : Screen) (a : ℕ) (l : ℤ) (b : ℕ) (m : ℤ) (rgb px py : ℕ)
    → IsMode s
    → px < s.width
    → (lt_ℤ (pos 0) l ≡ true → a + rounds l ≤ s.width)
    → (lt_ℤ (pos 0) m ≡ true → b + rounds m ≤ s.height)
    → pixel
        (if lt_ℤ (pos 0) l
          then (if lt_ℤ (pos 0) m then fill_rows s a b (rounds l) (rounds m) rgb else s)
          else s)
        px
        py
      ≡ (if within a (rounds l) px && within b (rounds m) py then rgb else pixel s px py)
fill_cut-within s a l b m rgb px py v hx fits tall = elim (Bool-cases (lt_ℤ (pos 0) l)) [
  | inr e ↦ rw (e, within_none a px l e) refl
  | inl e ↦ elim (Bool-cases (lt_ℤ (pos 0) m)) [
    | inr f ↦ rw (e, f, within_none b py m f, and-false (within a (rounds l) px)) refl
    | inl f ↦
        rw (e, f) (fill_rows-within s a b (rounds l) (rounds m) rgb px py v hx (fits e) (tall f))
  ]
]

-- In a mode with 32 bits for a pixel and a framebuffer, after `video_fillrect` of a rectangle whose
-- starts, lengths and ends are each an `int`, a pixel of the screen has the colour where the rectangle,
-- as it was asked for and however much of it is off the screen, covers it in both directions, and is
-- what it was elsewhere.
pub video_fillrect-pixel :
    (s : Screen) (x y w h : ℤ) (rgb px py : ℕ)
    → IsMode s
    → s.available ≡ true
    → is_side x w ≡ true
    → is_side y h ≡ true
    → px < s.width
    → py < s.height
    → pixel (video_fillrect s x y w h rgb) px py
      ≡ (if covers x w px && covers y h py then rgb else pixel s px py)
unfolding video_fillrect
video_fillrect-pixel s x y w h rgb px py v on across down hx hy =
    let (less, low) = small_screen s v (omega (arith, hx)) (omega (arith, hy)) in
    let cut =
      if lt_ℤ (pos 0) (clip s.width x w).1
      then (if lt_ℤ (pos 0) (clip s.height y h).1
          then fill_rows s (clip s.width x w).0 (clip s.height y h).0 (rounds (clip s.width x w).1)
              (rounds (clip s.height y h).1) rgb
          else s)
      else s in
    ap (λ (b : Bool). pixel (if not b then s else cut) px py) on
    ∙ rw (clip-covers s.width x w px less across hx, clip-covers s.height y h py low down hy)
        (fill_cut-within s (clip s.width x w).0 (clip s.width x w).1 (clip s.height y h).0
          (clip s.height y h).1 rgb px py v hx (clip-inside s.width x w less across)
          (clip-inside s.height y h low down))
