-- ===== src/Identity/Claims/Scopes.antt =====
-- What the scope functions compute.
use go_ai.Prelude.{
  IsDistinct, ◌≡◌, refl, ◌↔◌, ◌⊎◌, inl, inr, true, false, List, [], ◌∷◌, arith, Elem, All,
  Bool-cases, if◌then◌else◌, sym,
}
use go_ai.Text.{Text, contains, contains_iff, eq_iff}
use go_ai.Text.Sort.{
  sort, IsSorted, sort-IsSorted, Elem-sort, Elem-of_sort, text_leb, insert_sorted,
  Elem-of_insert_sorted,
}
use go_ai.Dict.{lookup}
use go_ai.Agent.Graph.{is_empty}
use go_ai.Identity.Config.{Claims}
use go_ai.Identity.Claims.{
  scopes_of, unique_from, sorted_unique, extract_from, extract_scopes, scope_claims, missing_scopes,
}

Elem-of_old :
    (a x : Text) (seen xs : List Text)
    → contains x seen ≡ true
    → Elem a (unique_from seen xs) ↔ (Elem a xs × (contains a seen ≡ false))
    → Elem a (unique_from seen xs) ↔ (((x ≡ a) ⊎ Elem a xs) × (contains a seen ≡ false))
Elem-of_old a x seen xs old ih = ground arith

Elem-of_new :
    (a x : Text) (seen xs : List Text)
    → contains x seen ≡ false
    → Elem a (unique_from (x ∷ seen) xs) ↔ (Elem a xs × (contains a (x ∷ seen) ≡ false))
    → ((x ≡ a) ⊎ Elem a (unique_from (x ∷ seen) xs))
      ↔ (((x ≡ a) ⊎ Elem a xs) × (contains a seen ≡ false))
unfolding contains
Elem-of_new a x seen xs new ih = ground (arith, eq_iff x a)

Elem-unique_from :
    (a : Text) (seen xs : List Text)
    → (Elem a (unique_from seen xs)) ↔ (Elem a xs × (contains a seen ≡ false))
unfolding unique_from contains
Elem-unique_from a seen [] = ground arith
Elem-unique_from a seen (x ∷ xs) = elim (Bool-cases (contains x seen)) [
  | inl old ↦ rw old (Elem-of_old a x seen xs old (Elem-unique_from a seen xs))
  | inr new ↦ rw new (Elem-of_new a x seen xs new (Elem-unique_from a (x ∷ seen) xs))
]

unique_from-IsDistinct : (seen xs : List Text) → IsDistinct (unique_from seen xs)
unfolding unique_from
unique_from-IsDistinct seen [] = tt
unique_from-IsDistinct seen (x ∷ xs) = elim (Bool-cases (contains x seen)) [
  | inl old ↦ rw old (unique_from-IsDistinct seen xs)
  | inr new ↦ rw new (
    (λ m. ground (arith, Elem-unique_from x (x ∷ seen) xs, contains_iff x (x ∷ seen))),
    unique_from-IsDistinct (x ∷ seen) xs,
  )
]

insert_sorted-IsDistinct :
    (a : Text) (xs : List Text) → ¬ Elem a xs → IsDistinct xs → IsDistinct (insert_sorted a xs)
unfolding insert_sorted
insert_sorted-IsDistinct a [] h d = (h, d)
insert_sorted-IsDistinct a (x ∷ xs) h d = elim (Bool-cases (text_leb a x)) [
  | inl low ↦ rw low (h, d)
  | inr high ↦ rw high (
    λ m. elim (Elem-of_insert_sorted x a xs m) [ inl e ↦ h (inl (sym e)) | inr k ↦ d.0 k ],
    insert_sorted-IsDistinct a xs (λ m. h (inr m)) d.1,
  )
]

sort-IsDistinct : (xs : List Text) → IsDistinct xs → IsDistinct (sort xs)
unfolding sort
sort-IsDistinct [] d = tt
sort-IsDistinct (x ∷ xs) d =
    insert_sorted-IsDistinct x (sort xs) (λ m. d.0 (Elem-of_sort x xs m)) (sort-IsDistinct xs d.1)

-- A request is let through exactly when every required scope is granted.
pub missing_scopes_iff :
    (required granted : List Text)
    → (missing_scopes required granted ≡ false) ↔ All (λ scope. Elem scope granted) required
unfolding missing_scopes
missing_scopes_iff [] granted = ground arith
missing_scopes_iff (scope ∷ required) granted =
    ground (arith, contains_iff scope granted, missing_scopes_iff required granted)

-- The scopes under the first claim name that has any, as the token lists them.
unfoldable pub raw_scopes : List Text → Claims → List Text
raw_scopes [] claims = []
raw_scopes (name ∷ names) claims =
    let rest = raw_scopes names claims in
    if is_empty (scopes_of (lookup name claims)) then rest else scopes_of (lookup name claims)

extract_from-eq :
    (names : List Text) (claims : Claims)
    → extract_from names claims ≡ sorted_unique (raw_scopes names claims)
unfolding extract_from raw_scopes
extract_from-eq [] claims = refl
extract_from-eq (name ∷ names) claims =
    elim (Bool-cases (is_empty (scopes_of (lookup name claims)))) [
      | inl none_here ↦ rw none_here (extract_from-eq names claims)
      | inr some_here ↦ rw some_here
    ]

sorted_unique-Elem : (a : Text) (xs : List Text) → Elem a (sorted_unique xs) ↔ Elem a xs
unfolding sorted_unique
sorted_unique-Elem a xs = (
  λ m. ((Elem-unique_from a [] xs).0 (Elem-of_sort a (unique_from [] xs) m)).0,
  λ m. Elem-sort a (unique_from [] xs) ((Elem-unique_from a [] xs).1 (m, unfold contains in refl)),
)

-- The scopes of a verified caller are those that the first claim with any scope lists, each once and
-- in ordinal order.
pub extract_scopes-IsSorted :
    (claims : Claims)
    → IsSorted (extract_scopes claims)
      × IsDistinct (extract_scopes claims)
      × ((a : Text) → Elem a (extract_scopes claims) ↔ Elem a (raw_scopes scope_claims claims))
unfolding extract_scopes
extract_scopes-IsSorted claims =
    let raw = raw_scopes scope_claims claims in
    rw (extract_from-eq scope_claims claims) (
      (unfold sorted_unique in sort-IsSorted (unique_from [] raw)),
      (unfold sorted_unique in
          sort-IsDistinct (unique_from [] raw) (unique_from-IsDistinct [] raw)),
      λ a. sorted_unique-Elem a raw,
    )
