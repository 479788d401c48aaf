-- ===== src/Input/Tests.antt =====
-- Lines that are read.
use snowkernel.Base.{Option, none, some, List, [], ◌∷◌, ◌++◌, ◌≡◌, refl, arith}
use snowkernel.Str.{Str}
use snowkernel.Input.{Reading, Source, from_serial, from_kbd, read_line_mux}
use snowkernel.Input.Shown.{HasRead, ends_mux, read_line_mux-HasRead}

abbrev typed : List Source
typed =
    from_serial (some b'l')
    ∷ from_kbd (some b't')
    ∷ from_serial none
    ∷ from_kbd (some 8)
    ∷ from_serial (some b's')
    ∷ []

read_line_mux-HasRead_example :
    HasRead 256
      (from_kbd (some b'p') ∷ [])
      (read_line_mux 256 (typed ++ from_serial (some 13) ∷ from_kbd (some b'p') ∷ []))
unfolding ends_mux
read_line_mux-HasRead_example =
    read_line_mux-HasRead 256 typed (from_kbd (some b'p') ∷ []) (from_serial (some 13))
      (omega arith) (refl, (refl, (refl, (refl, (refl, tt))))) refl

text_of : Option (Reading Source) → Str
text_of none = []
text_of (some r) = r.text

reads_ls : text_of (read_line_mux 256 (typed ++ from_serial (some 13) ∷ [])) ≡ b'l' ∷ b's' ∷ []
unfolding read_line_mux text_of
reads_ls = refl
