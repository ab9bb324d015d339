-- ===== src/Analytics/Dimension/Runes.antt =====
-- analytics.go: `utf8.DecodeLastRuneInString` on a text of whole runes that was cut.
use go_ai.Prelude.{ℕ, zero, suc, ◌+◌, ◌≤◌, ◌≡◌, refl, true, false, [], ◌∷◌, length, arith, ltb, leb}
use go_ai.Text.{Text}
use go_ai.Analytics.Dimension.{
  take, reverse_onto, is_cont, is_rune_two, is_rune_three, is_rune_four, ends_in_rune, drop_partial,
}

-- A text of whole runes, the first one first.
pub data Utf8 : Text → Type 0 where
  done : Utf8 []
  one : {a : ℕ} {s : Text} → ltb a 0x80 ≡ true → Utf8 s → Utf8 (a ∷ s)
  two : {a b : ℕ} {s : Text} → is_rune_two a b ≡ true → Utf8 s → Utf8 (a ∷ b ∷ s)
  three : {a b c : ℕ} {s : Text} → is_rune_three a b c ≡ true → Utf8 s → Utf8 (a ∷ b ∷ c ∷ s)
  four : {a b c d : ℕ} {s : Text} → is_rune_four a b c d ≡ true → Utf8 s → Utf8 (a ∷ b ∷ c ∷ d ∷ s)

-- The same, last byte first.
pub data Utf8Back : Text → Type 0 where
  start : Utf8Back []
  one_back : {a : ℕ} {s : Text} → ltb a 0x80 ≡ true → Utf8Back s → Utf8Back (a ∷ s)
  two_back : {a b : ℕ} {s : Text} → is_rune_two a b ≡ true → Utf8Back s → Utf8Back (b ∷ a ∷ s)
  three_back :
      {a b c : ℕ} {s : Text} → is_rune_three a b c ≡ true → Utf8Back s → Utf8Back (c ∷ b ∷ a ∷ s)
  four_back :
      {a b c d : ℕ} {s : Text}
      → is_rune_four a b c d ≡ true
      → Utf8Back s
      → Utf8Back (d ∷ c ∷ b ∷ a ∷ s)

pub reverse_onto-Utf8 : {s t : Text} → Utf8Back s → Utf8 t → Utf8 (reverse_onto s t)
unfolding reverse_onto
reverse_onto-Utf8 start u = u
reverse_onto-Utf8 (one_back h b) u = reverse_onto-Utf8 b (one h u)
reverse_onto-Utf8 (two_back h b) u = reverse_onto-Utf8 b (two h u)
reverse_onto-Utf8 (three_back h b) u = reverse_onto-Utf8 b (three h u)
reverse_onto-Utf8 (four_back h b) u = reverse_onto-Utf8 b (four h u)

ends_one : (a : ℕ) (s : Text) → ltb a 0x80 ≡ true → ends_in_rune (a ∷ s) ≡ true
unfolding ends_in_rune
ends_one a [] h = h
ends_one a (b ∷ []) h = rw h
ends_one a (b ∷ c ∷ []) h = rw h
ends_one a (b ∷ c ∷ d ∷ s) h = rw h

ends_two : (a b : ℕ) (s : Text) → is_rune_two a b ≡ true → ends_in_rune (b ∷ a ∷ s) ≡ true
unfolding ends_in_rune
ends_two a b [] h = ground arith
ends_two a b (c ∷ []) h = ground arith
ends_two a b (c ∷ d ∷ s) h = ground arith

ends_three :
    (a b c : ℕ) (s : Text) → is_rune_three a b c ≡ true → ends_in_rune (c ∷ b ∷ a ∷ s) ≡ true
unfolding ends_in_rune
ends_three a b c [] h = ground arith
ends_three a b c (d ∷ s) h = ground arith

ends_four :
    (a b c d : ℕ) (s : Text) → is_rune_four a b c d ≡ true → ends_in_rune (d ∷ c ∷ b ∷ a ∷ s) ≡ true
unfolding ends_in_rune
ends_four a b c d s h = ground arith

kept : (c : ℕ) (s : Text) → ends_in_rune (c ∷ s) ≡ true → drop_partial (c ∷ s) ≡ c ∷ s
unfolding drop_partial
kept c s h = rw h

dropped : (c : ℕ) (s : Text) → ends_in_rune (c ∷ s) ≡ false → drop_partial (c ∷ s) ≡ drop_partial s
unfolding drop_partial
dropped c s h = rw h

-- Whole runes stay.
drop_partial_whole : {s : Text} → Utf8Back s → drop_partial s ≡ s
drop_partial_whole start = unfold drop_partial in refl
drop_partial_whole (one_back {a} {s} h b) = kept a s (ends_one a s h)
drop_partial_whole (two_back {a} {b} {s} h u) = kept b (a ∷ s) (ends_two a b s h)
drop_partial_whole (three_back {a} {b} {c} {s} h u) = kept c (b ∷ a ∷ s) (ends_three a b c s h)
drop_partial_whole (four_back {a} {b} {c} {d} {s} h u) =
    kept d (c ∷ b ∷ a ∷ s) (ends_four a b c d s h)

-- The start of a longer rune is no rune, nor is it with one or two of its next bytes.
lead_alone : (a : ℕ) (s : Text) → leb 0xc0 a ≡ true → ends_in_rune (a ∷ s) ≡ false
unfolding ends_in_rune
lead_alone a [] h = ground arith
lead_alone a (b ∷ []) h = ground arith
lead_alone a (b ∷ c ∷ []) h = ground arith
lead_alone a (b ∷ c ∷ d ∷ s) h = ground arith

lead_and_one :
    (a b : ℕ) (s : Text) → leb 0xe0 a ≡ true → is_cont b ≡ true → ends_in_rune (b ∷ a ∷ s) ≡ false
unfolding ends_in_rune
lead_and_one a b [] h k = ground arith
lead_and_one a b (c ∷ []) h k = ground arith
lead_and_one a b (c ∷ d ∷ s) h k = ground arith

lead_and_two :
    (a b c : ℕ) (s : Text)
    → leb 0xf0 a ≡ true
    → is_cont b ≡ true
    → is_cont c ≡ true
    → ends_in_rune (c ∷ b ∷ a ∷ s) ≡ false
unfolding ends_in_rune
lead_and_two a b c [] h k l = ground arith
lead_and_two a b c (d ∷ s) h k l = ground arith

-- What is left of the bytes `s`, last first: whole runes, and at most three bytes less.
abbrev pub IsCut : Text → Text → Type 0
IsCut s r = Utf8Back r × (length s ≤ length r + 3)

IsCut-whole : {s : Text} → Utf8Back s → IsCut s (drop_partial s)
IsCut-whole {s} b = rw (drop_partial_whole b) (b, omega arith)

IsCut-lead :
    (a : ℕ) {s : Text} → leb 0xc0 a ≡ true → Utf8Back s → IsCut (a ∷ s) (drop_partial (a ∷ s))
IsCut-lead a {s} h b = rw (dropped a s (lead_alone a s h), drop_partial_whole b) (b, omega arith)

IsCut-one :
    (a b : ℕ) {s : Text}
    → leb 0xe0 a ≡ true
    → is_cont b ≡ true
    → Utf8Back s
    → IsCut (b ∷ a ∷ s) (drop_partial (b ∷ a ∷ s))
IsCut-one a b {s} h k u =
    let lead : leb 0xc0 a ≡ true = ground arith in
    rw
      (
        dropped b (a ∷ s) (lead_and_one a b s h k),
        dropped a s (lead_alone a s lead),
        drop_partial_whole u,
      )
      (u, omega arith)

IsCut-two :
    (a b c : ℕ) {s : Text}
    → leb 0xf0 a ≡ true
    → is_cont b ≡ true
    → is_cont c ≡ true
    → Utf8Back s
    → IsCut (c ∷ b ∷ a ∷ s) (drop_partial (c ∷ b ∷ a ∷ s))
IsCut-two a b c {s} h k l u =
    let lead : leb 0xc0 a ≡ true = ground arith in
    let high : leb 0xe0 a ≡ true = ground arith in
    rw
      (
        dropped c (b ∷ a ∷ s) (lead_and_two a b c s h k l),
        dropped b (a ∷ s) (lead_and_one a b s high k),
        dropped a s (lead_alone a s lead),
        drop_partial_whole u,
      )
      (u, omega arith)

pub take-IsCut :
    {v : Text} (n : ℕ) {s : Text}
    → Utf8 v
    → Utf8Back s
    → IsCut (reverse_onto (take n v) s) (drop_partial (reverse_onto (take n v) s))
unfolding reverse_onto
take-IsCut zero u b = IsCut-whole b
take-IsCut (suc n) done b = IsCut-whole b
take-IsCut (suc n) (one h u) b = take-IsCut n u (one_back h b)
take-IsCut (suc zero) (two {a} h u) w = IsCut-lead a (ground arith) w
take-IsCut (suc (suc n)) (two h u) w = take-IsCut n u (two_back h w)
take-IsCut (suc zero) (three {a} h u) w = IsCut-lead a (ground arith) w
take-IsCut (suc (suc zero)) (three {a} {b} h u) w = IsCut-one a b (ground arith) (ground arith) w
take-IsCut (suc (suc (suc n))) (three h u) w = take-IsCut n u (three_back h w)
take-IsCut (suc zero) (four {a} h u) w = IsCut-lead a (ground arith) w
take-IsCut (suc (suc zero)) (four {a} {b} h u) w = IsCut-one a b (ground arith) (ground arith) w
take-IsCut (suc (suc (suc zero))) (four {a} {b} {c} h u) w =
    IsCut-two a b c (ground arith) (ground arith) (ground arith) w
take-IsCut (suc (suc (suc (suc n)))) (four h u) w = take-IsCut n u (four_back h w)
