-- ===== src/Text/Sort.antt =====
-- `sort.Strings` and `slices.Sort` on strings: ordinal order, byte by byte. The library functions
-- promise a sorted permutation, which for a total order is one list; here it is computed by
-- insertion.
use mathlib.Core.Path.{ap₂}
use mathlib.Core.Logic.{∥∥₁_elim}
use mathlib.Core.List.{Permᴰ, Perm}
use go_ai.Prelude.{
  ◌≡◌, refl, ◌∙◌, ◌⊎◌, inl, inr, Bool, true, false, ◌&&◌, ◌||◌, List, [], ◌∷◌, arith, ltb, nat_eq,
  if◌then◌else◌, Bool-cases, Elem, All,
}
use go_ai.Text.{Text}

-- `s <= t` on strings.
unfoldable pub text_leb : Text → Text → Bool
text_leb [] t = true
text_leb (a ∷ s) [] = false
text_leb (a ∷ s) (b ∷ t) = ltb a b || (nat_eq a b && text_leb s t)

pub text_leb_total : (s t : Text) → text_leb s t ≡ false → text_leb t s ≡ true
unfolding text_leb
text_leb_total [] t h = cc
text_leb_total (a ∷ s) [] h = refl
text_leb_total (a ∷ s) (b ∷ t) h = ground (arith, text_leb_total s t)

pub text_leb_antisymm : (s t : Text) → text_leb s t ≡ true → text_leb t s ≡ true → s ≡ t
unfolding text_leb
text_leb_antisymm [] [] h k = refl
text_leb_antisymm [] (b ∷ t) h k = cc
text_leb_antisymm (a ∷ s) [] h k = cc
text_leb_antisymm (a ∷ s) (b ∷ t) h k = ground (arith, text_leb_antisymm s t)

pub text_leb_trans :
    (r s t : Text) → text_leb r s ≡ true → text_leb s t ≡ true → text_leb r t ≡ true
unfolding text_leb
text_leb_trans [] s t h k = refl
text_leb_trans (a ∷ r) [] t h k = cc
text_leb_trans (a ∷ r) (b ∷ s) [] h k = cc
text_leb_trans (a ∷ r) (b ∷ s) (c ∷ t) h k = ground (arith, text_leb_trans r s t)

unfoldable pub insert_sorted : Text → List Text → List Text
insert_sorted a [] = a ∷ []
insert_sorted a (x ∷ xs) = if text_leb a x then a ∷ x ∷ xs else x ∷ insert_sorted a xs

unfoldable pub sort : List Text → List Text
unfolding insert_sorted
sort [] = []
sort (x ∷ xs) = insert_sorted x (sort xs)

-- The head is at most every later member, all the way down.
abbrev pub IsSorted : List Text → Type 0
IsSorted [] = Unit
IsSorted (x ∷ xs) = All (λ y. text_leb x y ≡ true) xs × IsSorted xs

All-insert_sorted :
    (P : Text → Type 0) (a : Text) (xs : List Text) → P a → All P xs → All P (insert_sorted a xs)
unfolding insert_sorted
All-insert_sorted P a [] h k = (h, tt)
All-insert_sorted P a (x ∷ xs) h k = elim (Bool-cases (text_leb a x)) [
  | inl low ↦ rw low (h, k)
  | inr high ↦ rw high (k.0, All-insert_sorted P a xs h k.1)
]

All-leb_trans :
    (a x : Text) (xs : List Text)
    → text_leb a x ≡ true
    → All (λ y. text_leb x y ≡ true) xs
    → All (λ y. text_leb a y ≡ true) xs
All-leb_trans a x [] h k = tt
All-leb_trans a x (y ∷ ys) h k = (text_leb_trans a x y h k.0, All-leb_trans a x ys h k.1)

insert_sorted-IsSorted : (a : Text) (xs : List Text) → IsSorted xs → IsSorted (insert_sorted a xs)
unfolding insert_sorted
insert_sorted-IsSorted a [] h = (tt, tt)
insert_sorted-IsSorted a (x ∷ xs) h = elim (Bool-cases (text_leb a x)) [
  | inl low ↦ rw low ((low, All-leb_trans a x xs low h.0), h)
  | inr high ↦ rw high (
    All-insert_sorted (λ y. text_leb x y ≡ true) a xs (text_leb_total a x high) h.0,
    insert_sorted-IsSorted a xs h.1,
  )
]

pub sort-IsSorted : (xs : List Text) → IsSorted (sort xs)
unfolding sort
sort-IsSorted [] = tt
sort-IsSorted (x ∷ xs) = insert_sorted-IsSorted x (sort xs) (sort-IsSorted xs)

Elem-insert_sorted :
    (a b : Text) (xs : List Text) → (b ≡ a) ⊎ Elem a xs → Elem a (insert_sorted b xs)
unfolding insert_sorted
Elem-insert_sorted a b [] h = h
Elem-insert_sorted a b (x ∷ xs) h = elim (Bool-cases (text_leb b x)) [
  | inl low ↦ rw low h
  | inr high ↦ rw high (ground (arith, Elem-insert_sorted a b xs))
]

pub Elem-of_insert_sorted :
    (a b : Text) (xs : List Text) → Elem a (insert_sorted b xs) → (b ≡ a) ⊎ Elem a xs
unfolding insert_sorted
Elem-of_insert_sorted a b [] h = h
Elem-of_insert_sorted a b (x ∷ xs) h = elim (Bool-cases (text_leb b x)) [
  | inl low ↦ rw low at h
  | inr high ↦
      let m : Elem a (x ∷ insert_sorted b xs) = rw high at h in
      ground (arith, Elem-of_insert_sorted a b xs)
]

pub Elem-sort : (a : Text) (xs : List Text) → Elem a xs → Elem a (sort xs)
unfolding sort
Elem-sort a [] h = h
Elem-sort a (x ∷ xs) (inl e) = Elem-insert_sorted a x (sort xs) (inl e)
Elem-sort a (x ∷ xs) (inr m) = Elem-insert_sorted a x (sort xs) (inr (Elem-sort a xs m))

pub Elem-of_sort : (a : Text) (xs : List Text) → Elem a (sort xs) → Elem a xs
unfolding sort
Elem-of_sort a [] h = h
Elem-of_sort a (x ∷ xs) h = elim (Elem-of_insert_sorted a x (sort xs) h) [
  | inl e ↦ inl e
  | inr m ↦ inr (Elem-of_sort a xs m)
]

insert_sorted_comm :
    (a b : Text) (xs : List Text)
    → insert_sorted a (insert_sorted b xs) ≡ insert_sorted b (insert_sorted a xs)
unfolding insert_sorted
insert_sorted_comm a b [] =
    ground (arith, text_leb_total a b, text_leb_total b a, text_leb_antisymm a b)
insert_sorted_comm a b (x ∷ xs) = ground (
  arith,
  insert_sorted_comm a b xs,
  text_leb_total a b,
  text_leb_total b a,
  text_leb_antisymm a b,
  text_leb_trans a b x,
  text_leb_trans b a x,
  text_leb_total a x,
  text_leb_total b x,
  text_leb_trans a x b,
  text_leb_trans b x a,
)

pub sort-eq_of_permᴰ : {xs ys : List Text} → Permᴰ xs ys → sort xs ≡ sort ys
unfolding sort
sort-eq_of_permᴰ Permᴰ.nil = refl
sort-eq_of_permᴰ (Permᴰ.cons e p) = ap₂ insert_sorted e (sort-eq_of_permᴰ p)
sort-eq_of_permᴰ (Permᴰ.swap {a} {b} {l} e f) =
    insert_sorted_comm a b (sort l) ∙ ap₂ (λ x y. insert_sorted x (insert_sorted y (sort l))) f e
sort-eq_of_permᴰ (Permᴰ.trans p q) = sort-eq_of_permᴰ p ∙ sort-eq_of_permᴰ q

Texts-set : IsSet (List Text)
Texts-set = hlevel

-- The order in which the members arrive does not show in the result.
pub sort-eq_of_perm : {xs ys : List Text} → Perm xs ys → sort xs ≡ sort ys
sort-eq_of_perm p = ∥∥₁_elim p (Texts-set _ _) sort-eq_of_permᴰ
