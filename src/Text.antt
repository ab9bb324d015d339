-- ===== src/Text.antt =====
-- Go's `string`: a sequence of bytes. A constant of the source is written as `codes` of a literal,
-- whose code points are its bytes, since every such constant is ASCII.
pub mod Sort
pub mod Space
use Prim.Native.Char.{code}
use Prim.Native.String.{String}
use go_ai.Prelude.{
  ap, ◌||◌, ℕ, ◌≡◌, refl, sym, ◌∙◌, ◌≢◌, ◌⊎◌, inl, inr, Bool-cases, false≢true, ◌↔◌, Bool, true,
  false, ◌&&◌, List, [], ◌∷◌, ◌++◌, arith, nat_eq, if◌then◌else◌, Elem,
}

abbrev pub Text : Type 0
Text = List ℕ

abbrev pub codes : String → Text
codes String.[] = []
codes (String.◌∷◌ c s) = code c ∷ codes s

infix 50 ◌==◌
unfoldable pub ◌==◌ : Text → Text → Bool
[] == [] = true
[] == (b ∷ t) = false
(a ∷ s) == [] = false
(a ∷ s) == (b ∷ t) = nat_eq a b && s == t

to_eq : (s t : Text) → (s == t) ≡ true → s ≡ t
unfolding ◌==◌
to_eq [] [] h = refl
to_eq [] (b ∷ t) h = cc
to_eq (a ∷ s) [] h = cc
to_eq (a ∷ s) (b ∷ t) h = ground (arith, to_eq s t)

pub eq_refl : (s : Text) → (s == s) ≡ true
unfolding ◌==◌
eq_refl [] = refl
eq_refl (a ∷ s) = ground (arith, eq_refl s)

pub eq_iff : (s t : Text) → ((s == t) ≡ true) ↔ (s ≡ t)
eq_iff s t = (to_eq s t, λ e. rw e (eq_refl t))

pub eq_false : (s t : Text) → s ≢ t → (s == t) ≡ false
eq_false s t h = ground (arith, eq_iff s t)

pub eq-cases : (s t : Text) → (s ≡ t) ⊎ (s ≢ t)
eq-cases s t = elim (Bool-cases (s == t)) [
  | inl e ↦ inl (to_eq s t e)
  | inr n ↦ inr (λ e. false≢true (sym n ∙ (eq_iff s t).1 e))
]

-- `strings.HasPrefix`.
unfoldable pub has_prefix : Text → Text → Bool
has_prefix s [] = true
has_prefix [] (p ∷ ps) = false
has_prefix (a ∷ s) (p ∷ ps) = nat_eq a p && has_prefix s ps

pub has_prefix-append : (p s : Text) → has_prefix (p ++ s) p ≡ true
unfolding has_prefix
has_prefix-append [] s = refl
has_prefix-append (a ∷ p) s = ground (arith, has_prefix-append p s)

-- Whether a text stands in a list, or is a key of a Go set.
unfoldable pub contains : Text → List Text → Bool
contains t [] = false
contains t (s ∷ ss) = if s == t then true else contains t ss

pub contains_iff : (t : Text) (ss : List Text) → (contains t ss ≡ true) ↔ Elem t ss
unfolding contains
contains_iff t [] = ground arith
contains_iff t (s ∷ ss) = ground (arith, eq_iff s t, contains_iff t ss)

-- `strings.Contains(s, sub)`.
unfoldable pub includes : Text → Text → Bool
unfolding has_prefix
includes [] sub = has_prefix [] sub
includes (c ∷ s) sub = has_prefix (c ∷ s) sub || includes s sub

pub has_prefix-split : (s p : Text) → has_prefix s p ≡ true → (rest : Text) × (s ≡ p ++ rest)
unfolding has_prefix
has_prefix-split s [] h = (s, refl)
has_prefix-split [] (b ∷ p) h = cc h
has_prefix-split (a ∷ s) (b ∷ p) h =
    let (rest, same) = has_prefix-split s p (ground arith) in
    let equal : a ≡ b = ground arith in (rest, ap (λ t. a ∷ t) same ∙ ap (λ x. x ∷ p ++ rest) equal)

-- The second text stands in the first one.
abbrev pub IsPart : Text → Text → Type 0
IsPart s sub = (before : Text) × (after : Text) × (s ≡ before ++ sub ++ after)

pub includes-IsPart : (s sub : Text) → includes s sub ≡ true → IsPart s sub
unfolding includes
includes-IsPart [] sub h = let (after, same) = has_prefix-split [] sub h in ([], after, same)
includes-IsPart (c ∷ s) sub h = elim (Bool-cases (has_prefix (c ∷ s) sub)) [
  | inl here ↦ let (after, same) = has_prefix-split (c ∷ s) sub here in ([], after, same)
  | inr other ↦
      let (before, after, same) = includes-IsPart s sub (ground arith) in
      (c ∷ before, after, ap (λ t. c ∷ t) same)
]

includes-prefix : (s sub : Text) → has_prefix s sub ≡ true → includes s sub ≡ true
unfolding includes
includes-prefix [] sub h = h
includes-prefix (c ∷ s) sub h = rw h refl

includes-append : (before sub after : Text) → includes (before ++ sub ++ after) sub ≡ true
unfolding includes
includes-append [] sub after = includes-prefix (sub ++ after) sub (has_prefix-append sub after)
includes-append (c ∷ before) sub after = rw (includes-append before sub after) (ground arith)

pub includes-of_IsPart : (s sub : Text) → IsPart s sub → includes s sub ≡ true
includes-of_IsPart s sub (before, after, same) = rw same (includes-append before sub after)

-- `strings.HasSuffix(s, suffix)`.
unfoldable pub has_suffix : Text → Text → Bool
unfolding ◌==◌
has_suffix [] suffix = [] == suffix
has_suffix (c ∷ s) suffix = (c ∷ s) == suffix || has_suffix s suffix
