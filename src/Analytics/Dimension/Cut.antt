-- ===== src/Analytics/Dimension/Cut.antt =====
-- analytics.go: the cut keeps whole runes.
use go_ai.Prelude.{
  ◌<◌, ◌⊎◌, ℕ, zero, suc, ◌+◌, ◌≤◌, ◌≡◌, refl, sym, ap, ◌∙◌, inl, inr, [], ◌∷◌, ◌++◌, length,
  length-append, arith, leb, Bool-cases, le_of_leb, lt_of_leb,
}
use mathlib.Core.List.{append-nil, append_assoc}
use go_ai.Text.{Text}
use go_ai.Text.Space.{trim_space}
use go_ai.Analytics.Dimension.{
  dimension_max_len, take, reverse_onto, ends_in_rune, drop_partial, cut_at, clean_dimension,
}
use go_ai.Analytics.Dimension.Runes.{Utf8, done, start, take-IsCut, reverse_onto-Utf8}

reverse_onto-append : (p s t : Text) → reverse_onto (p ++ s) t ≡ reverse_onto s (reverse_onto p t)
unfolding reverse_onto
reverse_onto-append [] s t = refl
reverse_onto-append (c ∷ p) s t = reverse_onto-append p s (c ∷ t)

reverse_onto-eq : (s t : Text) → reverse_onto s t ≡ reverse_onto s [] ++ t
unfolding reverse_onto
reverse_onto-eq [] t = refl
reverse_onto-eq (c ∷ s) t =
    reverse_onto-eq s (c ∷ t)
    ∙ sym (append_assoc (reverse_onto s []) (c ∷ []) t)
    ∙ ap (λ x. x ++ t) (sym (reverse_onto-eq s (c ∷ [])))

reverse_onto_twice : (s t u : Text) → reverse_onto (reverse_onto s t) u ≡ reverse_onto t (s ++ u)
unfolding reverse_onto
reverse_onto_twice [] t u = refl
reverse_onto_twice (c ∷ s) t u = reverse_onto_twice s (c ∷ t) u

length-reverse_onto : (s t : Text) → length (reverse_onto s t) ≡ length s + length t
unfolding reverse_onto
length-reverse_onto [] t = omega arith
length-reverse_onto (c ∷ s) t = omega (arith, length-reverse_onto s (c ∷ t))

drop_partial_suffix : (r : Text) → (p : Text) × (r ≡ p ++ drop_partial r)
unfolding drop_partial
drop_partial_suffix [] = ([], refl)
drop_partial_suffix (c ∷ r) = elim (Bool-cases (ends_in_rune (c ∷ r))) [
  | inl whole ↦ ([], rw whole)
  | inr partial ↦ let (p, e) = drop_partial_suffix r in (c ∷ p, rw partial (ap (λ t. c ∷ t) e))
]

take_prefix : (n : ℕ) (v : Text) → (t : Text) × (take n v ++ t ≡ v)
take_prefix zero v = (v, refl)
take_prefix (suc n) [] = ([], refl)
take_prefix (suc n) (c ∷ v) = let (t, e) = take_prefix n v in (t, ap (λ u. c ∷ u) e)

length-take-le : (n : ℕ) (v : Text) → length (take n v) ≤ n
length-take-le zero v = omega arith
length-take-le (suc n) [] = omega arith
length-take-le (suc n) (c ∷ v) = omega (arith, length-take-le n v)

length-take : (n : ℕ) (v : Text) → n ≤ length v → length (take n v) ≡ n
length-take zero v h = refl
length-take (suc n) [] h = omega arith
length-take (suc n) (c ∷ v) h = omega (arith, length-take n v)

cut_at-take : (n : ℕ) (v : Text) → (t : Text) × (take n v ≡ cut_at n v ++ t)
unfolding cut_at
cut_at-take n v =
    let back = reverse_onto (take n v) [] in
    let (p, e) = drop_partial_suffix back in
    (
      reverse_onto p [],
      sym (append-nil (take n v))
          ∙ sym (reverse_onto_twice (take n v) [] [])
          ∙ ap (λ x. reverse_onto x []) e
          ∙ reverse_onto-append p (drop_partial back) []
          ∙ reverse_onto-eq (drop_partial back) (reverse_onto p []),
    )

cut_at-Utf8 :
    (n : ℕ) (v : Text) → Utf8 v → n ≤ length v → Utf8 (cut_at n v) × (n ≤ length (cut_at n v) + 3)
unfolding cut_at
cut_at-Utf8 n v u h =
    let back = reverse_onto (take n v) [] in
    let (whole, lost) = take-IsCut n u start in
    (
      reverse_onto-Utf8 whole done,
      omega (
        arith,
        lost,
        length-reverse_onto (take n v) [],
        length-take n v h,
        length-reverse_onto (drop_partial back) [],
      ),
    )

cut_at-le : (n : ℕ) (v : Text) → length (cut_at n v) ≤ n
cut_at-le n v =
    let (t, e) = cut_at-take n v in
    omega (arith, length-take-le n v, ap length e, length-append (cut_at n v) t)

cut_at_prefix : (n : ℕ) (v : Text) → (t : Text) × (v ≡ cut_at n v ++ t)
cut_at_prefix n v =
    let (t, e) = cut_at-take n v in
    let (u, k) = take_prefix n v in
    (t ++ u, sym k ∙ ap (λ x. x ++ u) e ∙ append_assoc (cut_at n v) t u)

-- Where the trimmed value is UTF-8, the cleaned value is a prefix of it, of at most 64 bytes, and is UTF-8;
-- and it is the whole of it, or the trimmed value has more than 64 bytes and the cleaned one at least
-- 61.
pub clean_dimension_cut :
    (value : Text)
    → Utf8 (trim_space value)
    → let v = trim_space value in
      let c = clean_dimension value in
      ((t : Text) × (v ≡ c ++ t))
      × (length c ≤ dimension_max_len)
      × Utf8 c
      × ((c ≡ v) ⊎ ((dimension_max_len < length v) × (dimension_max_len ≤ length c + 3)))
unfolding clean_dimension
clean_dimension_cut value u =
    elim (Bool-cases (leb (length (trim_space value)) dimension_max_len)) [
      | inl short ↦
          let small = le_of_leb (length (trim_space value)) dimension_max_len short in
          rw short (([], sym (append-nil (trim_space value))), small, u, inl refl)
      | inr long ↦
          let above = lt_of_leb (length (trim_space value)) dimension_max_len long in
          let large : dimension_max_len ≤ length (trim_space value) = omega arith in
          let (whole, most) = cut_at-Utf8 dimension_max_len (trim_space value) u large in
          rw long (
            cut_at_prefix dimension_max_len (trim_space value),
            cut_at-le dimension_max_len (trim_space value),
            whole,
            inr (omega (arith, above), most),
          )
    ]
