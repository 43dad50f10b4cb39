-- ===== src/Text/Lines.antt =====
-- `str.splitlines`, and the byte order mark that the parsers drop.
use wbauth.Prelude.{ℕ, Bool, false, ◌&&◌, ◌||◌, List, [], ◌∷◌, leb, ◌==◌, if◌then◌else◌, drop_while}
use wbauth.Text.{Text}

-- the code points that end a line
abbrev pub is_break : ℕ → Bool
is_break c =
    (leb 10 c && leb c 13) || (leb 28 c && leb c 30) || c == 0x85 || c == 0x2028 || c == 0x2029

abbrev pub cons_line : ℕ → List Text → List Text
cons_line c [] = (c ∷ []) ∷ []
cons_line c (t ∷ ts) = (c ∷ t) ∷ ts

-- The flag says that a carriage return stands before: a line feed behind it ends no other line.
unfoldable pub lines_from : (after_return : Bool) → Text → List Text
lines_from after_return [] = []
lines_from after_return (c ∷ s) =
    let rest = lines_from (c == 13) s in
    if after_return && c == 10 then rest else if is_break c then [] ∷ rest else cons_line c rest

unfoldable pub split_lines : Text → List Text
unfolding lines_from
split_lines s = lines_from false s

-- `text.lstrip("\ufeff")`
abbrev pub without_mark : Text → Text
without_mark s = drop_while (λ c. c == 0xfeff) s
