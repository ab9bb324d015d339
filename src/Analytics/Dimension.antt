-- ===== src/Analytics/Dimension.antt =====
-- analytics.go: `cleanDimension`, which cuts a value at 64 bytes and backs off to the end of a rune.
pub mod Runes
pub mod Cut
use go_ai.Prelude.{
  ℕ, zero, suc, Bool, true, false, not, ◌&&◌, ◌||◌, List, [], ◌∷◌, length, ltb, leb, nat_eq,
  if◌then◌else◌,
}
use go_ai.Text.{Text}
use go_ai.Text.Space.{trim_space}

abbrev pub dimension_max_len : ℕ
dimension_max_len = 64

abbrev pub take : ℕ → Text → Text
take zero s = []
take (suc n) [] = []
take (suc n) (c ∷ s) = c ∷ take n s

-- A text, last byte first, in front of another.
unfoldable pub reverse_onto : Text → Text → Text
reverse_onto [] t = t
reverse_onto (c ∷ s) t = reverse_onto s (c ∷ t)

-- A continuation byte of UTF-8; `utf8.RuneStart` is its negation.
abbrev pub is_cont : ℕ → Bool
is_cont c = leb 0x80 c && ltb c 0xc0

-- The sequences of two, three and four bytes that `utf8.DecodeRune` takes for one rune.
abbrev pub is_rune_two : ℕ → ℕ → Bool
is_rune_two a b = (leb 0xc2 a && leb a 0xdf) && is_cont b

abbrev second_of_three : ℕ → ℕ → Bool
second_of_three a b =
    if nat_eq a 0xe0
    then leb 0xa0 b && ltb b 0xc0
    else if nat_eq a 0xed
    then leb 0x80 b && ltb b 0xa0
    else is_cont b

abbrev pub is_rune_three : ℕ → ℕ → ℕ → Bool
is_rune_three a b c = (leb 0xe0 a && leb a 0xef) && second_of_three a b && is_cont c

abbrev second_of_four : ℕ → ℕ → Bool
second_of_four a b =
    if nat_eq a 0xf0
    then leb 0x90 b && ltb b 0xc0
    else if nat_eq a 0xf4
    then leb 0x80 b && ltb b 0x90
    else is_cont b

abbrev pub is_rune_four : ℕ → ℕ → ℕ → ℕ → Bool
is_rune_four a b c d = (leb 0xf0 a && leb a 0xf4) && second_of_four a b && is_cont c && is_cont d

-- Whether `utf8.DecodeLastRuneInString` finds a rune, on the bytes last first: an ASCII byte, or the
-- bytes from the nearest start of a rune on, of which it looks at four.
unfoldable pub ends_in_rune : Text → Bool
ends_in_rune [] = false
ends_in_rune (d ∷ []) = ltb d 0x80
ends_in_rune (d ∷ c ∷ []) = if ltb d 0x80 then true else not (is_cont c) && is_rune_two c d
ends_in_rune (d ∷ c ∷ b ∷ []) =
    if ltb d 0x80
    then true
    else if not (is_cont c)
    then is_rune_two c d
    else not (is_cont b) && is_rune_three b c d
ends_in_rune (d ∷ c ∷ b ∷ a ∷ s) =
    if ltb d 0x80
    then true
    else if not (is_cont c)
    then is_rune_two c d
    else if not (is_cont b)
    then is_rune_three b c d
    else not (is_cont a) && is_rune_four a b c d

-- The loop, on the bytes last first.
unfoldable pub drop_partial : Text → Text
unfolding ends_in_rune
drop_partial [] = []
drop_partial (c ∷ s) = let rest = drop_partial s in if ends_in_rune (c ∷ s) then c ∷ s else rest

unfoldable pub cut_at : ℕ → Text → Text
unfolding reverse_onto drop_partial
cut_at n v = reverse_onto (drop_partial (reverse_onto (take n v) [])) []

unfoldable pub clean_dimension : Text → Text
unfolding cut_at trim_space
clean_dimension value =
    let v = trim_space value in
    if leb (length v) dimension_max_len then v else cut_at dimension_max_len v
