-- ===== src/Video/Font.antt =====
-- The table `font8x16` of src/kernel/video.c from the blank on.
use snowkernel.Base.{ℕ, List, [], ◌∷◌, replicate}

-- The bytes of one character, the top row first; those that the table leaves out are zero.
abbrev pub Glyph : Type 0
Glyph = List ℕ

abbrev pub no_glyph : Glyph
no_glyph = replicate 16 0

-- `' '` to `'?'`.
abbrev pub font_marks : List Glyph
font_marks =
    no_glyph
    ∷ (24 ∷ 60 ∷ 60 ∷ 24 ∷ 24 ∷ 24 ∷ 24 ∷ 24 ∷ 24 ∷ 0 ∷ 24 ∷ 24 ∷ 0 ∷ 0 ∷ 0 ∷ 0 ∷ [])
    ∷ (54 ∷ 54 ∷ 54 ∷ 36 ∷ 0 ∷ 0 ∷ 0 ∷ 0 ∷ 0 ∷ 0 ∷ 0 ∷ 0 ∷ 0 ∷ 0 ∷ 0 ∷ 0 ∷ [])
    ∷ (54 ∷ 54 ∷ 127 ∷ 54 ∷ 54 ∷ 54 ∷ 127 ∷ 54 ∷ 54 ∷ 0 ∷ 0 ∷ 0 ∷ 0 ∷ 0 ∷ 0 ∷ 0 ∷ [])
    ∷ (24 ∷ 62 ∷ 99 ∷ 3 ∷ 30 ∷ 48 ∷ 96 ∷ 99 ∷ 62 ∷ 24 ∷ 24 ∷ 0 ∷ 0 ∷ 0 ∷ 0 ∷ 0 ∷ [])
    ∷ (0 ∷ 99 ∷ 102 ∷ 12 ∷ 24 ∷ 48 ∷ 96 ∷ 102 ∷ 99 ∷ 0 ∷ 0 ∷ 0 ∷ 0 ∷ 0 ∷ 0 ∷ 0 ∷ [])
    ∷ (28 ∷ 54 ∷ 54 ∷ 28 ∷ 56 ∷ 107 ∷ 102 ∷ 102 ∷ 59 ∷ 0 ∷ 0 ∷ 0 ∷ 0 ∷ 0 ∷ 0 ∷ 0 ∷ [])
    ∷ no_glyph
    ∷ (24 ∷ 12 ∷ 6 ∷ 6 ∷ 3 ∷ 3 ∷ 3 ∷ 3 ∷ 6 ∷ 6 ∷ 12 ∷ 24 ∷ 0 ∷ 0 ∷ 0 ∷ 0 ∷ [])
    ∷ (6 ∷ 12 ∷ 24 ∷ 24 ∷ 48 ∷ 48 ∷ 48 ∷ 48 ∷ 24 ∷ 24 ∷ 12 ∷ 6 ∷ 0 ∷ 0 ∷ 0 ∷ 0 ∷ [])
    ∷ (0 ∷ 24 ∷ 126 ∷ 60 ∷ 126 ∷ 24 ∷ 0 ∷ 0 ∷ 0 ∷ 0 ∷ 0 ∷ 0 ∷ 0 ∷ 0 ∷ 0 ∷ 0 ∷ [])
    ∷ (0 ∷ 24 ∷ 24 ∷ 24 ∷ 126 ∷ 24 ∷ 24 ∷ 24 ∷ 0 ∷ 0 ∷ 0 ∷ 0 ∷ 0 ∷ 0 ∷ 0 ∷ 0 ∷ [])
    ∷ (0 ∷ 0 ∷ 0 ∷ 0 ∷ 0 ∷ 0 ∷ 0 ∷ 24 ∷ 24 ∷ 24 ∷ 48 ∷ 0 ∷ 0 ∷ 0 ∷ 0 ∷ 0 ∷ [])
    ∷ (0 ∷ 0 ∷ 0 ∷ 0 ∷ 126 ∷ 0 ∷ 0 ∷ 0 ∷ 0 ∷ 0 ∷ 0 ∷ 0 ∷ 0 ∷ 0 ∷ 0 ∷ 0 ∷ [])
    ∷ (0 ∷ 0 ∷ 0 ∷ 0 ∷ 0 ∷ 0 ∷ 0 ∷ 24 ∷ 24 ∷ 0 ∷ 0 ∷ 0 ∷ 0 ∷ 0 ∷ 0 ∷ 0 ∷ [])
    ∷ (0 ∷ 96 ∷ 96 ∷ 48 ∷ 24 ∷ 12 ∷ 6 ∷ 6 ∷ 3 ∷ 0 ∷ 0 ∷ 0 ∷ 0 ∷ 0 ∷ 0 ∷ 0 ∷ [])
    ∷ (60 ∷ 102 ∷ 99 ∷ 99 ∷ 115 ∷ 123 ∷ 111 ∷ 103 ∷ 99 ∷ 99 ∷ 102 ∷ 60 ∷ 0 ∷ 0 ∷ 0 ∷ 0 ∷ [])
    ∷ (24 ∷ 28 ∷ 30 ∷ 24 ∷ 24 ∷ 24 ∷ 24 ∷ 24 ∷ 24 ∷ 24 ∷ 24 ∷ 126 ∷ 0 ∷ 0 ∷ 0 ∷ 0 ∷ [])
    ∷ (60 ∷ 102 ∷ 99 ∷ 96 ∷ 96 ∷ 48 ∷ 24 ∷ 12 ∷ 6 ∷ 3 ∷ 99 ∷ 127 ∷ 0 ∷ 0 ∷ 0 ∷ 0 ∷ [])
    ∷ (60 ∷ 102 ∷ 99 ∷ 96 ∷ 96 ∷ 56 ∷ 56 ∷ 96 ∷ 96 ∷ 99 ∷ 102 ∷ 60 ∷ 0 ∷ 0 ∷ 0 ∷ 0 ∷ [])
    ∷ (48 ∷ 56 ∷ 60 ∷ 54 ∷ 51 ∷ 51 ∷ 127 ∷ 48 ∷ 48 ∷ 48 ∷ 48 ∷ 120 ∷ 0 ∷ 0 ∷ 0 ∷ 0 ∷ [])
    ∷ (127 ∷ 3 ∷ 3 ∷ 31 ∷ 63 ∷ 112 ∷ 96 ∷ 96 ∷ 96 ∷ 99 ∷ 102 ∷ 60 ∷ 0 ∷ 0 ∷ 0 ∷ 0 ∷ [])
    ∷ (60 ∷ 102 ∷ 99 ∷ 3 ∷ 31 ∷ 63 ∷ 115 ∷ 99 ∷ 99 ∷ 99 ∷ 102 ∷ 60 ∷ 0 ∷ 0 ∷ 0 ∷ 0 ∷ [])
    ∷ (127 ∷ 99 ∷ 99 ∷ 48 ∷ 48 ∷ 24 ∷ 24 ∷ 12 ∷ 12 ∷ 6 ∷ 6 ∷ 6 ∷ 0 ∷ 0 ∷ 0 ∷ 0 ∷ [])
    ∷ (60 ∷ 102 ∷ 99 ∷ 99 ∷ 102 ∷ 60 ∷ 102 ∷ 99 ∷ 99 ∷ 99 ∷ 102 ∷ 60 ∷ 0 ∷ 0 ∷ 0 ∷ 0 ∷ [])
    ∷ (60 ∷ 102 ∷ 99 ∷ 99 ∷ 99 ∷ 231 ∷ 254 ∷ 124 ∷ 96 ∷ 96 ∷ 102 ∷ 60 ∷ 0 ∷ 0 ∷ 0 ∷ 0 ∷ [])
    ∷ (0 ∷ 0 ∷ 24 ∷ 24 ∷ 0 ∷ 0 ∷ 0 ∷ 0 ∷ 24 ∷ 24 ∷ 0 ∷ 0 ∷ 0 ∷ 0 ∷ 0 ∷ 0 ∷ [])
    ∷ (0 ∷ 0 ∷ 24 ∷ 24 ∷ 0 ∷ 0 ∷ 0 ∷ 24 ∷ 24 ∷ 24 ∷ 48 ∷ 0 ∷ 0 ∷ 0 ∷ 0 ∷ 0 ∷ [])
    ∷ (48 ∷ 24 ∷ 12 ∷ 6 ∷ 3 ∷ 6 ∷ 12 ∷ 24 ∷ 48 ∷ 0 ∷ 0 ∷ 0 ∷ 0 ∷ 0 ∷ 0 ∷ 0 ∷ [])
    ∷ (0 ∷ 0 ∷ 126 ∷ 0 ∷ 0 ∷ 126 ∷ 0 ∷ 0 ∷ 0 ∷ 0 ∷ 0 ∷ 0 ∷ 0 ∷ 0 ∷ 0 ∷ 0 ∷ [])
    ∷ (6 ∷ 12 ∷ 24 ∷ 48 ∷ 96 ∷ 48 ∷ 24 ∷ 12 ∷ 6 ∷ 0 ∷ 0 ∷ 0 ∷ 0 ∷ 0 ∷ 0 ∷ 0 ∷ [])
    ∷ (60 ∷ 102 ∷ 99 ∷ 96 ∷ 48 ∷ 24 ∷ 24 ∷ 24 ∷ 0 ∷ 24 ∷ 24 ∷ 0 ∷ 0 ∷ 0 ∷ 0 ∷ 0 ∷ [])
    ∷ []

-- `'@'` to `'_'`.
abbrev pub font_capitals : List Glyph
font_capitals =
    (60 ∷ 102 ∷ 99 ∷ 123 ∷ 123 ∷ 123 ∷ 123 ∷ 123 ∷ 3 ∷ 99 ∷ 102 ∷ 60 ∷ 0 ∷ 0 ∷ 0 ∷ 0 ∷ [])
    ∷ (24 ∷ 60 ∷ 102 ∷ 102 ∷ 102 ∷ 126 ∷ 102 ∷ 102 ∷ 102 ∷ 102 ∷ 102 ∷ 231 ∷ 0 ∷ 0 ∷ 0 ∷ 0 ∷ [])
    ∷ (63 ∷ 99 ∷ 99 ∷ 99 ∷ 99 ∷ 63 ∷ 99 ∷ 99 ∷ 99 ∷ 99 ∷ 99 ∷ 63 ∷ 0 ∷ 0 ∷ 0 ∷ 0 ∷ [])
    ∷ (60 ∷ 102 ∷ 99 ∷ 3 ∷ 3 ∷ 3 ∷ 3 ∷ 3 ∷ 99 ∷ 99 ∷ 102 ∷ 60 ∷ 0 ∷ 0 ∷ 0 ∷ 0 ∷ [])
    ∷ (31 ∷ 51 ∷ 99 ∷ 99 ∷ 99 ∷ 99 ∷ 99 ∷ 99 ∷ 99 ∷ 99 ∷ 51 ∷ 31 ∷ 0 ∷ 0 ∷ 0 ∷ 0 ∷ [])
    ∷ (127 ∷ 99 ∷ 3 ∷ 3 ∷ 19 ∷ 31 ∷ 19 ∷ 3 ∷ 3 ∷ 3 ∷ 99 ∷ 127 ∷ 0 ∷ 0 ∷ 0 ∷ 0 ∷ [])
    ∷ (127 ∷ 99 ∷ 3 ∷ 3 ∷ 19 ∷ 31 ∷ 19 ∷ 3 ∷ 3 ∷ 3 ∷ 3 ∷ 7 ∷ 0 ∷ 0 ∷ 0 ∷ 0 ∷ [])
    ∷ (60 ∷ 102 ∷ 99 ∷ 3 ∷ 3 ∷ 3 ∷ 115 ∷ 115 ∷ 99 ∷ 99 ∷ 102 ∷ 60 ∷ 0 ∷ 0 ∷ 0 ∷ 0 ∷ [])
    ∷ (231 ∷ 102 ∷ 102 ∷ 102 ∷ 102 ∷ 126 ∷ 102 ∷ 102 ∷ 102 ∷ 102 ∷ 102 ∷ 231 ∷ 0 ∷ 0 ∷ 0 ∷ 0 ∷ [])
    ∷ (126 ∷ 24 ∷ 24 ∷ 24 ∷ 24 ∷ 24 ∷ 24 ∷ 24 ∷ 24 ∷ 24 ∷ 24 ∷ 126 ∷ 0 ∷ 0 ∷ 0 ∷ 0 ∷ [])
    ∷ (120 ∷ 48 ∷ 48 ∷ 48 ∷ 48 ∷ 48 ∷ 48 ∷ 48 ∷ 51 ∷ 51 ∷ 54 ∷ 28 ∷ 0 ∷ 0 ∷ 0 ∷ 0 ∷ [])
    ∷ (231 ∷ 102 ∷ 102 ∷ 54 ∷ 31 ∷ 15 ∷ 31 ∷ 54 ∷ 102 ∷ 102 ∷ 102 ∷ 231 ∷ 0 ∷ 0 ∷ 0 ∷ 0 ∷ [])
    ∷ (7 ∷ 3 ∷ 3 ∷ 3 ∷ 3 ∷ 3 ∷ 3 ∷ 3 ∷ 3 ∷ 99 ∷ 99 ∷ 127 ∷ 0 ∷ 0 ∷ 0 ∷ 0 ∷ [])
    ∷ (99 ∷ 119 ∷ 127 ∷ 127 ∷ 107 ∷ 107 ∷ 99 ∷ 99 ∷ 99 ∷ 99 ∷ 99 ∷ 231 ∷ 0 ∷ 0 ∷ 0 ∷ 0 ∷ [])
    ∷ (99 ∷ 103 ∷ 103 ∷ 111 ∷ 111 ∷ 123 ∷ 123 ∷ 115 ∷ 115 ∷ 99 ∷ 99 ∷ 99 ∷ 0 ∷ 0 ∷ 0 ∷ 0 ∷ [])
    ∷ (60 ∷ 102 ∷ 99 ∷ 99 ∷ 99 ∷ 99 ∷ 99 ∷ 99 ∷ 99 ∷ 99 ∷ 102 ∷ 60 ∷ 0 ∷ 0 ∷ 0 ∷ 0 ∷ [])
    ∷ (63 ∷ 99 ∷ 99 ∷ 99 ∷ 99 ∷ 63 ∷ 3 ∷ 3 ∷ 3 ∷ 3 ∷ 3 ∷ 7 ∷ 0 ∷ 0 ∷ 0 ∷ 0 ∷ [])
    ∷ (60 ∷ 102 ∷ 99 ∷ 99 ∷ 99 ∷ 99 ∷ 99 ∷ 107 ∷ 123 ∷ 123 ∷ 54 ∷ 108 ∷ 48 ∷ 0 ∷ 0 ∷ 0 ∷ [])
    ∷ (63 ∷ 99 ∷ 99 ∷ 99 ∷ 99 ∷ 63 ∷ 31 ∷ 54 ∷ 102 ∷ 102 ∷ 102 ∷ 231 ∷ 0 ∷ 0 ∷ 0 ∷ 0 ∷ [])
    ∷ (60 ∷ 102 ∷ 99 ∷ 3 ∷ 15 ∷ 30 ∷ 56 ∷ 112 ∷ 96 ∷ 99 ∷ 102 ∷ 60 ∷ 0 ∷ 0 ∷ 0 ∷ 0 ∷ [])
    ∷ (126 ∷ 90 ∷ 24 ∷ 24 ∷ 24 ∷ 24 ∷ 24 ∷ 24 ∷ 24 ∷ 24 ∷ 24 ∷ 60 ∷ 0 ∷ 0 ∷ 0 ∷ 0 ∷ [])
    ∷ (231 ∷ 102 ∷ 102 ∷ 102 ∷ 102 ∷ 102 ∷ 102 ∷ 102 ∷ 102 ∷ 102 ∷ 102 ∷ 60 ∷ 0 ∷ 0 ∷ 0 ∷ 0 ∷ [])
    ∷ (231 ∷ 102 ∷ 102 ∷ 102 ∷ 102 ∷ 102 ∷ 60 ∷ 60 ∷ 24 ∷ 24 ∷ 24 ∷ 24 ∷ 0 ∷ 0 ∷ 0 ∷ 0 ∷ [])
    ∷ (231 ∷ 102 ∷ 102 ∷ 102 ∷ 102 ∷ 107 ∷ 107 ∷ 127 ∷ 127 ∷ 119 ∷ 99 ∷ 99 ∷ 0 ∷ 0 ∷ 0 ∷ 0 ∷ [])
    ∷ (231 ∷ 102 ∷ 102 ∷ 60 ∷ 24 ∷ 24 ∷ 60 ∷ 60 ∷ 102 ∷ 102 ∷ 102 ∷ 231 ∷ 0 ∷ 0 ∷ 0 ∷ 0 ∷ [])
    ∷ (231 ∷ 102 ∷ 102 ∷ 102 ∷ 60 ∷ 60 ∷ 24 ∷ 24 ∷ 24 ∷ 24 ∷ 24 ∷ 60 ∷ 0 ∷ 0 ∷ 0 ∷ 0 ∷ [])
    ∷ (127 ∷ 99 ∷ 97 ∷ 48 ∷ 24 ∷ 24 ∷ 12 ∷ 6 ∷ 6 ∷ 67 ∷ 99 ∷ 127 ∷ 0 ∷ 0 ∷ 0 ∷ 0 ∷ [])
    ∷ no_glyph
    ∷ (96 ∷ 96 ∷ 48 ∷ 48 ∷ 24 ∷ 24 ∷ 12 ∷ 12 ∷ 6 ∷ 0 ∷ 0 ∷ 0 ∷ 0 ∷ 0 ∷ 0 ∷ 0 ∷ [])
    ∷ no_glyph
    ∷ no_glyph
    ∷ no_glyph
    ∷ []

-- From the back quote to 127.
abbrev pub font_small : List Glyph
font_small =
    no_glyph
    ∷ (0 ∷ 0 ∷ 0 ∷ 60 ∷ 102 ∷ 96 ∷ 124 ∷ 102 ∷ 102 ∷ 102 ∷ 102 ∷ 123 ∷ 0 ∷ 0 ∷ 0 ∷ 0 ∷ [])
    ∷ (7 ∷ 3 ∷ 3 ∷ 59 ∷ 111 ∷ 103 ∷ 99 ∷ 99 ∷ 99 ∷ 99 ∷ 103 ∷ 63 ∷ 0 ∷ 0 ∷ 0 ∷ 0 ∷ [])
    ∷ (0 ∷ 0 ∷ 0 ∷ 60 ∷ 102 ∷ 99 ∷ 3 ∷ 3 ∷ 3 ∷ 99 ∷ 102 ∷ 60 ∷ 0 ∷ 0 ∷ 0 ∷ 0 ∷ [])
    ∷ (56 ∷ 48 ∷ 48 ∷ 60 ∷ 118 ∷ 102 ∷ 102 ∷ 102 ∷ 102 ∷ 102 ∷ 118 ∷ 60 ∷ 0 ∷ 0 ∷ 0 ∷ 0 ∷ [])
    ∷ (0 ∷ 0 ∷ 0 ∷ 60 ∷ 102 ∷ 99 ∷ 127 ∷ 3 ∷ 3 ∷ 99 ∷ 102 ∷ 60 ∷ 0 ∷ 0 ∷ 0 ∷ 0 ∷ [])
    ∷ (56 ∷ 108 ∷ 100 ∷ 4 ∷ 4 ∷ 62 ∷ 12 ∷ 12 ∷ 12 ∷ 12 ∷ 12 ∷ 30 ∷ 0 ∷ 0 ∷ 0 ∷ 0 ∷ [])
    ∷ (0 ∷ 0 ∷ 0 ∷ 60 ∷ 102 ∷ 102 ∷ 102 ∷ 60 ∷ 48 ∷ 62 ∷ 99 ∷ 62 ∷ 0 ∷ 0 ∷ 0 ∷ 0 ∷ [])
    ∷ (7 ∷ 3 ∷ 3 ∷ 59 ∷ 111 ∷ 103 ∷ 99 ∷ 99 ∷ 99 ∷ 99 ∷ 99 ∷ 231 ∷ 0 ∷ 0 ∷ 0 ∷ 0 ∷ [])
    ∷ (24 ∷ 24 ∷ 0 ∷ 28 ∷ 24 ∷ 24 ∷ 24 ∷ 24 ∷ 24 ∷ 24 ∷ 24 ∷ 60 ∷ 0 ∷ 0 ∷ 0 ∷ 0 ∷ [])
    ∷ (48 ∷ 48 ∷ 0 ∷ 56 ∷ 48 ∷ 48 ∷ 48 ∷ 48 ∷ 48 ∷ 51 ∷ 51 ∷ 30 ∷ 0 ∷ 0 ∷ 0 ∷ 0 ∷ [])
    ∷ (7 ∷ 3 ∷ 3 ∷ 99 ∷ 51 ∷ 27 ∷ 15 ∷ 31 ∷ 51 ∷ 51 ∷ 99 ∷ 231 ∷ 0 ∷ 0 ∷ 0 ∷ 0 ∷ [])
    ∷ (28 ∷ 24 ∷ 24 ∷ 24 ∷ 24 ∷ 24 ∷ 24 ∷ 24 ∷ 24 ∷ 24 ∷ 24 ∷ 60 ∷ 0 ∷ 0 ∷ 0 ∷ 0 ∷ [])
    ∷ (0 ∷ 0 ∷ 0 ∷ 55 ∷ 127 ∷ 107 ∷ 107 ∷ 107 ∷ 99 ∷ 99 ∷ 99 ∷ 247 ∷ 0 ∷ 0 ∷ 0 ∷ 0 ∷ [])
    ∷ (0 ∷ 0 ∷ 0 ∷ 59 ∷ 111 ∷ 103 ∷ 99 ∷ 99 ∷ 99 ∷ 99 ∷ 99 ∷ 231 ∷ 0 ∷ 0 ∷ 0 ∷ 0 ∷ [])
    ∷ (0 ∷ 0 ∷ 0 ∷ 60 ∷ 102 ∷ 99 ∷ 99 ∷ 99 ∷ 99 ∷ 99 ∷ 102 ∷ 60 ∷ 0 ∷ 0 ∷ 0 ∷ 0 ∷ [])
    ∷ (0 ∷ 0 ∷ 0 ∷ 63 ∷ 103 ∷ 99 ∷ 99 ∷ 99 ∷ 99 ∷ 99 ∷ 63 ∷ 3 ∷ 3 ∷ 7 ∷ 0 ∷ 0 ∷ [])
    ∷ (0 ∷ 0 ∷ 0 ∷ 60 ∷ 118 ∷ 102 ∷ 102 ∷ 102 ∷ 102 ∷ 102 ∷ 124 ∷ 112 ∷ 96 ∷ 224 ∷ 0 ∷ 0 ∷ [])
    ∷ (0 ∷ 0 ∷ 0 ∷ 59 ∷ 111 ∷ 103 ∷ 99 ∷ 3 ∷ 3 ∷ 3 ∷ 3 ∷ 7 ∷ 0 ∷ 0 ∷ 0 ∷ 0 ∷ [])
    ∷ (0 ∷ 0 ∷ 0 ∷ 60 ∷ 102 ∷ 99 ∷ 7 ∷ 62 ∷ 112 ∷ 96 ∷ 99 ∷ 62 ∷ 0 ∷ 0 ∷ 0 ∷ 0 ∷ [])
    ∷ (8 ∷ 12 ∷ 12 ∷ 62 ∷ 12 ∷ 12 ∷ 12 ∷ 12 ∷ 12 ∷ 108 ∷ 108 ∷ 56 ∷ 0 ∷ 0 ∷ 0 ∷ 0 ∷ [])
    ∷ (0 ∷ 0 ∷ 0 ∷ 99 ∷ 99 ∷ 99 ∷ 99 ∷ 99 ∷ 99 ∷ 99 ∷ 115 ∷ 110 ∷ 0 ∷ 0 ∷ 0 ∷ 0 ∷ [])
    ∷ (0 ∷ 0 ∷ 0 ∷ 231 ∷ 102 ∷ 102 ∷ 102 ∷ 60 ∷ 60 ∷ 24 ∷ 24 ∷ 24 ∷ 0 ∷ 0 ∷ 0 ∷ 0 ∷ [])
    ∷ (0 ∷ 0 ∷ 0 ∷ 231 ∷ 102 ∷ 102 ∷ 107 ∷ 107 ∷ 127 ∷ 127 ∷ 119 ∷ 99 ∷ 0 ∷ 0 ∷ 0 ∷ 0 ∷ [])
    ∷ (0 ∷ 0 ∷ 0 ∷ 231 ∷ 102 ∷ 60 ∷ 60 ∷ 24 ∷ 60 ∷ 60 ∷ 102 ∷ 231 ∷ 0 ∷ 0 ∷ 0 ∷ 0 ∷ [])
    ∷ (0 ∷ 0 ∷ 0 ∷ 231 ∷ 102 ∷ 102 ∷ 102 ∷ 60 ∷ 60 ∷ 24 ∷ 24 ∷ 24 ∷ 48 ∷ 112 ∷ 0 ∷ 0 ∷ [])
    ∷ (0 ∷ 0 ∷ 0 ∷ 127 ∷ 99 ∷ 49 ∷ 24 ∷ 12 ∷ 6 ∷ 67 ∷ 99 ∷ 127 ∷ 0 ∷ 0 ∷ 0 ∷ 0 ∷ [])
    ∷ no_glyph
    ∷ no_glyph
    ∷ no_glyph
    ∷ no_glyph
    ∷ no_glyph
    ∷ []
