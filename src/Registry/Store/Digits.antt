-- ===== src/Registry/Store/Digits.antt =====
-- registry/store.go: `strconv.Itoa` gives different numbers different texts.
use Prim.Native.Nat.{◌/◌, ◌%◌, ◌*◌}
use go_ai.Prelude.{
  ℕ, zero, suc, ◌+◌, ◌-◌, ◌<◌, ◌≡◌, ◌≢◌, refl, sym, ap, ◌∙◌, [], ◌∷◌, ◌++◌, arith, ltb, Bool-cases,
  false, inl, inr,
}
use go_ai.Text.{Text}
use go_ai.Agent.Graph.{is_empty}
use go_ai.Registry.Store.{digits_from, itoa, etag_string}

-- The number that a text of digits stands for, behind the number `n`.
abbrev value_from : ℕ → Text → ℕ
value_from n [] = n
value_from n (c ∷ s) = value_from (n * 10 + (c - 48)) s

value_from-append :
    (n c : ℕ) (s : Text) → value_from n (s ++ c ∷ []) ≡ value_from n s * 10 + (c - 48)
value_from-append n c [] = refl
value_from-append n c (d ∷ s) = value_from-append (n * 10 + (d - 48)) c s

value_from-digits : (fuel v : ℕ) → v < fuel → value_from 0 (digits_from fuel v) ≡ v
unfolding digits_from
value_from-digits zero v h = omega (arith, h)
value_from-digits (suc fuel) v h = elim (Bool-cases (ltb v 10)) [
  | inl small ↦ rw small (omega arith)
  | inr large ↦
      let smaller : v / 10 < fuel = ground arith in
      rw large (
        value_from-append 0 (b'0' + v % 10) (digits_from fuel (v / 10))
        ∙ ap (λ n. n * 10 + ((b'0' + v % 10) - 48)) (value_from-digits fuel (v / 10) smaller)
        ∙ omega arith)
]

itoa-injective : (v u : ℕ) → itoa v ≡ itoa u → v ≡ u
unfolding itoa
itoa-injective v u h =
    sym (value_from-digits (suc v) v (omega arith))
    ∙ ap (value_from 0) h
    ∙ value_from-digits (suc u) u (omega arith)

-- A write changes the etag of a value that has one.
pub etag_string-ne-suc : (v : ℕ) → etag_string v ≢ [] → etag_string v ≢ etag_string (v + 1)
unfolding etag_string
etag_string-ne-suc zero here = absurd (here refl)
etag_string-ne-suc (suc v) here = λ h.
    let next : suc v + 1 ≡ suc (suc v) = omega arith in
    omega (arith, itoa-injective (suc v) (suc (suc v)) (h ∙ ap etag_string next))

-- Different versions have different etags, from the first on.
pub etag_string-injective : (v u : ℕ) → etag_string (suc v) ≡ etag_string (suc u) → v ≡ u
unfolding etag_string
etag_string-injective v u h = let same = itoa-injective (suc v) (suc u) h in omega arith

append_one-nonempty : (s : Text) (c : ℕ) → is_empty (s ++ c ∷ []) ≡ false
append_one-nonempty [] c = refl
append_one-nonempty (d ∷ s) c = refl

digits-nonempty : (fuel v : ℕ) → is_empty (digits_from (suc fuel) v) ≡ false
unfolding digits_from
digits-nonempty fuel v = elim (Bool-cases (ltb v 10)) [
  | inl small ↦ rw small refl
  | inr large ↦ rw large (append_one-nonempty (digits_from fuel (v / 10)) (b'0' + v % 10))
]

pub etag_string-nonempty : (v : ℕ) → is_empty (etag_string (suc v)) ≡ false
unfolding etag_string itoa
etag_string-nonempty v = digits-nonempty (suc v) (suc v)
