-- ===== src/Text/Space.antt =====
-- `strings.TrimSpace`, `strings.Fields` and `strings.TrimRight(s, "/")` on bytes. A white space
-- character of Unicode is one byte, two or three in UTF-8.
use go_ai.Prelude.{ℕ, Bool, ◌||◌, ◌&&◌, List, [], ◌∷◌, ◌++◌, nat_eq, leb, if◌then◌else◌}
use mathlib.Core.List.{reverse}
use go_ai.Text.{Text}

-- Tab, line feed, vertical tab, form feed, carriage return and space.
unfoldable pub is_space_byte : ℕ → Bool
is_space_byte c = (leb 9 c && leb c 13) || nat_eq c 32

-- U+0085 and U+00A0.
unfoldable pub is_space_pair : ℕ → ℕ → Bool
is_space_pair a b = nat_eq a 0xc2 && (nat_eq b 0x85 || nat_eq b 0xa0)

-- U+1680, U+2000 to U+200A, U+2028, U+2029, U+202F, U+205F and U+3000.
unfoldable pub is_space_triple : ℕ → ℕ → ℕ → Bool
is_space_triple a b c =
    (nat_eq a 0xe1 && nat_eq b 0x9a && nat_eq c 0x80)
    || (nat_eq a 0xe2
        && nat_eq b 0x80
        && ((leb 0x80 c && leb c 0x8a) || nat_eq c 0xa8 || nat_eq c 0xa9 || nat_eq c 0xaf))
    || (nat_eq a 0xe2 && nat_eq b 0x81 && nat_eq c 0x9f)
    || (nat_eq a 0xe3 && nat_eq b 0x80 && nat_eq c 0x80)

-- Drops the leading white space; `pair` and `triple` say which longer sequences count.
unfoldable pub trim_with : (ℕ → ℕ → Bool) → (ℕ → ℕ → ℕ → Bool) → Text → Text
unfolding is_space_byte
trim_with pair triple [] = []
trim_with pair triple (a ∷ []) = if is_space_byte a then [] else a ∷ []
trim_with pair triple (a ∷ b ∷ []) =
    let one = trim_with pair triple (b ∷ []) in
    if is_space_byte a then one else if pair a b then [] else a ∷ b ∷ []
trim_with pair triple (a ∷ b ∷ c ∷ s) =
    let one = trim_with pair triple (b ∷ c ∷ s) in
    let two = trim_with pair triple (c ∷ s) in
    let three = trim_with pair triple s in
    if is_space_byte a
    then one
    else if pair a b
    then two
    else if triple a b c
    then three
    else a ∷ b ∷ c ∷ s

unfoldable pub trim_left_space : Text → Text
unfolding trim_with is_space_pair is_space_triple
trim_left_space s = trim_with is_space_pair is_space_triple s

-- The same from the end: the bytes of a character come last first.
unfoldable pub trim_right_space : Text → Text
unfolding trim_with is_space_pair is_space_triple
trim_right_space s =
    reverse (trim_with (λ b a. is_space_pair a b) (λ c b a. is_space_triple a b c) (reverse s))

unfoldable pub trim_space : Text → Text
unfolding trim_left_space trim_right_space
trim_space s = trim_right_space (trim_left_space s)

-- The fields of a text: a white space character ends the one that `cur` holds, if any.
abbrev close_field : Text → List Text → List Text
close_field [] fs = fs
close_field (c ∷ cur) fs = (c ∷ cur) ∷ fs

unfoldable pub fields_from : Text → Text → List Text
unfolding is_space_byte is_space_pair is_space_triple
fields_from cur [] = close_field cur []
fields_from cur (a ∷ []) =
    if is_space_byte a then close_field cur [] else close_field (cur ++ a ∷ []) []
fields_from cur (a ∷ b ∷ []) =
    let one = fields_from [] (b ∷ []) in
    let more = fields_from (cur ++ a ∷ []) (b ∷ []) in
    if is_space_byte a
    then close_field cur one
    else if is_space_pair a b
    then close_field cur []
    else more
fields_from cur (a ∷ b ∷ c ∷ s) =
    let one = fields_from [] (b ∷ c ∷ s) in
    let two = fields_from [] (c ∷ s) in
    let three = fields_from [] s in
    let more = fields_from (cur ++ a ∷ []) (b ∷ c ∷ s) in
    if is_space_byte a
    then close_field cur one
    else if is_space_pair a b
    then close_field cur two
    else if is_space_triple a b c
    then close_field cur three
    else more

-- `strings.Fields`.
unfoldable pub fields : Text → List Text
unfolding fields_from
fields s = fields_from [] s

drop_slashes : Text → Text
drop_slashes [] = []
drop_slashes (c ∷ s) = let rest = drop_slashes s in if nat_eq c b'/' then rest else c ∷ s

-- `strings.TrimRight(s, "/")`.
unfoldable pub trim_right_slash : Text → Text
unfolding drop_slashes
trim_right_slash s = reverse (drop_slashes (reverse s))
