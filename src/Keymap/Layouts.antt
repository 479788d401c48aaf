-- ===== src/Keymap/Layouts.antt =====
-- The layout tables of src/drivers/keymap.c: the byte for each set-1 scancode, the entries from 58
-- on being 0 in all of them.
use snowkernel.Base.{ℕ, List, [], ◌∷◌}

-- `layout_t`: 128 entries each, of which the list gives the first 58.
pub record Layout : Type 0 where
  pub normal : List ℕ
  pub shift : List ℕ

abbrev pub layout_us : Layout
layout_us = record {
  normal =
      0 ∷ 27 ∷ 49 ∷ 50 ∷ 51 ∷ 52 ∷ 53 ∷ 54 ∷ 55 ∷ 56 ∷ 57 ∷ 48 ∷ 45 ∷ 61 ∷ 8 ∷ 9 ∷ 113 ∷ 119 ∷ 101
      ∷ 114 ∷ 116 ∷ 121 ∷ 117 ∷ 105 ∷ 111 ∷ 112 ∷ 91 ∷ 93 ∷ 0 ∷ 0 ∷ 97 ∷ 115 ∷ 100 ∷ 102 ∷ 103 ∷ 104
      ∷ 106 ∷ 107 ∷ 108 ∷ 59 ∷ 39 ∷ 96 ∷ 0 ∷ 92 ∷ 122 ∷ 120 ∷ 99 ∷ 118 ∷ 98 ∷ 110 ∷ 109 ∷ 44 ∷ 46
      ∷ 47 ∷ 0 ∷ 42 ∷ 0 ∷ 32 ∷ [];
  shift =
      0 ∷ 27 ∷ 33 ∷ 64 ∷ 35 ∷ 36 ∷ 37 ∷ 94 ∷ 38 ∷ 42 ∷ 40 ∷ 41 ∷ 95 ∷ 43 ∷ 8 ∷ 9 ∷ 81 ∷ 87 ∷ 69 ∷ 82
      ∷ 84 ∷ 89 ∷ 85 ∷ 73 ∷ 79 ∷ 80 ∷ 123 ∷ 125 ∷ 0 ∷ 0 ∷ 65 ∷ 83 ∷ 68 ∷ 70 ∷ 71 ∷ 72 ∷ 74 ∷ 75 ∷ 76
      ∷ 58 ∷ 34 ∷ 126 ∷ 0 ∷ 124 ∷ 90 ∷ 88 ∷ 67 ∷ 86 ∷ 66 ∷ 78 ∷ 77 ∷ 60 ∷ 62 ∷ 63 ∷ 0 ∷ 42 ∷ 0 ∷ 32
      ∷ [];
}

abbrev pub layout_dvorak : Layout
layout_dvorak = record {
  normal =
      0 ∷ 27 ∷ 49 ∷ 50 ∷ 51 ∷ 52 ∷ 53 ∷ 54 ∷ 55 ∷ 56 ∷ 57 ∷ 48 ∷ 91 ∷ 93 ∷ 8 ∷ 9 ∷ 39 ∷ 44 ∷ 46
      ∷ 112 ∷ 121 ∷ 102 ∷ 103 ∷ 99 ∷ 114 ∷ 108 ∷ 47 ∷ 61 ∷ 0 ∷ 0 ∷ 97 ∷ 111 ∷ 101 ∷ 117 ∷ 105 ∷ 100
      ∷ 104 ∷ 116 ∷ 110 ∷ 115 ∷ 45 ∷ 96 ∷ 0 ∷ 92 ∷ 59 ∷ 113 ∷ 106 ∷ 107 ∷ 120 ∷ 98 ∷ 109 ∷ 119 ∷ 118
      ∷ 122 ∷ 0 ∷ 42 ∷ 0 ∷ 32 ∷ [];
  shift =
      0 ∷ 27 ∷ 33 ∷ 64 ∷ 35 ∷ 36 ∷ 37 ∷ 94 ∷ 38 ∷ 42 ∷ 40 ∷ 41 ∷ 123 ∷ 125 ∷ 8 ∷ 9 ∷ 34 ∷ 60 ∷ 62
      ∷ 80 ∷ 89 ∷ 70 ∷ 71 ∷ 67 ∷ 82 ∷ 76 ∷ 63 ∷ 43 ∷ 0 ∷ 0 ∷ 65 ∷ 79 ∷ 69 ∷ 85 ∷ 73 ∷ 68 ∷ 72 ∷ 84
      ∷ 78 ∷ 83 ∷ 95 ∷ 126 ∷ 0 ∷ 124 ∷ 58 ∷ 81 ∷ 74 ∷ 75 ∷ 88 ∷ 66 ∷ 77 ∷ 87 ∷ 86 ∷ 90 ∷ 0 ∷ 42 ∷ 0
      ∷ 32 ∷ [];
}

abbrev pub layout_fi : Layout
layout_fi = record {
  normal =
      0 ∷ 27 ∷ 49 ∷ 50 ∷ 51 ∷ 52 ∷ 53 ∷ 54 ∷ 55 ∷ 56 ∷ 57 ∷ 48 ∷ 45 ∷ 61 ∷ 8 ∷ 9 ∷ 113 ∷ 119 ∷ 101
      ∷ 114 ∷ 116 ∷ 121 ∷ 117 ∷ 105 ∷ 111 ∷ 112 ∷ 91 ∷ 93 ∷ 0 ∷ 0 ∷ 97 ∷ 115 ∷ 100 ∷ 102 ∷ 103 ∷ 104
      ∷ 106 ∷ 107 ∷ 108 ∷ 132 ∷ 148 ∷ 134 ∷ 0 ∷ 92 ∷ 122 ∷ 120 ∷ 99 ∷ 118 ∷ 98 ∷ 110 ∷ 109 ∷ 44 ∷ 46
      ∷ 47 ∷ 0 ∷ 42 ∷ 0 ∷ 32 ∷ [];
  shift =
      0 ∷ 27 ∷ 33 ∷ 34 ∷ 35 ∷ 36 ∷ 37 ∷ 38 ∷ 47 ∷ 40 ∷ 41 ∷ 61 ∷ 63 ∷ 96 ∷ 8 ∷ 9 ∷ 81 ∷ 87 ∷ 69 ∷ 82
      ∷ 84 ∷ 89 ∷ 85 ∷ 73 ∷ 79 ∷ 80 ∷ 123 ∷ 125 ∷ 0 ∷ 0 ∷ 65 ∷ 83 ∷ 68 ∷ 70 ∷ 71 ∷ 72 ∷ 74 ∷ 75 ∷ 76
      ∷ 142 ∷ 153 ∷ 143 ∷ 0 ∷ 124 ∷ 90 ∷ 88 ∷ 67 ∷ 86 ∷ 66 ∷ 78 ∷ 77 ∷ 59 ∷ 59 ∷ 58 ∷ 0 ∷ 42 ∷ 0
      ∷ 32 ∷ [];
}
