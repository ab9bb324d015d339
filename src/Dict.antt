-- ===== src/Dict.antt =====
-- Go's `map[string]V` as an association list. A read finds the first entry of a key; a write
-- replaces it, or adds an entry at the end. A `range` loop visits the entries in the list's order,
-- which stands for the unspecified order that Go picks.
use go_ai.Prelude.{
  ◌≡◌, refl, ap, Bool, true, false, Option, none, some, List, [], ◌∷◌, ◌++◌, map, arith,
  if◌then◌else◌, Bool-cases, inl, inr, subst,
}
use go_ai.Text.{Text, ◌==◌, eq_iff}

abbrev pub Dict {ℓ} : Type ℓ → Type ℓ
Dict V = List (Text × V)

module _ {ℓ} {V : Type ℓ} where
  unfoldable pub lookup : Text → Dict V → Option V
  lookup key [] = none
  lookup key ((name, val) ∷ rest) = if name == key then some val else lookup key rest

  unfoldable pub insert : Text → V → Dict V → Dict V
  insert key new [] = (key, new) ∷ []
  insert key new ((name, old) ∷ rest) =
      let later = insert key new rest in
      if name == key then (key, new) ∷ rest else (name, old) ∷ later

  -- `delete(m, k)`.
  unfoldable pub remove : Text → Dict V → Dict V
  remove key [] = []
  remove key ((name, old) ∷ rest) =
      let later = remove key rest in if name == key then later else (name, old) ∷ later

  -- `_, ok := m[k]`.
  abbrev pub has : Text → Dict V → Bool
  has key d = elim (lookup key d) [ none ↦ false | some found ↦ true ]

  abbrev pub keys : Dict V → List Text
  keys d = map (λ e. e.0) d

  pub lookup-insert :
      (key other : Text) (new : V) (d : Dict V)
      → lookup other (insert key new d) ≡ (if key == other then some new else lookup other d)
  unfolding insert lookup
  lookup-insert key other new [] = refl
  lookup-insert key other new ((name, old) ∷ rest) = ground (
    arith,
    lookup-insert key other new rest,
    eq_iff name other,
    eq_iff key other,
    eq_iff name key,
  )

  pub lookup-remove :
      (key other : Text) (d : Dict V)
      → lookup other (remove key d) ≡ (if key == other then none else lookup other d)
  unfolding remove lookup
  lookup-remove key other [] = ground arith
  lookup-remove key other ((name, old) ∷ rest) =
      ground
        (arith, lookup-remove key other rest, eq_iff name other, eq_iff key other, eq_iff name key)

  -- The keys of a Go map are distinct.
  abbrev pub Absent : Text → Dict V → Type 0
  Absent k [] = Unit
  Absent k ((j, v) ∷ m) = ((j == k) ≡ false) × Absent k m

  abbrev pub IsMap : Dict V → Type 0
  IsMap [] = Unit
  IsMap ((k, v) ∷ m) = Absent k m × IsMap m

  pub lookup_of_Absent : (k : Text) (m : Dict V) → Absent k m → lookup k m ≡ none
  unfolding lookup
  lookup_of_Absent k [] h = refl
  lookup_of_Absent k ((j, v) ∷ m) h = rw (h.0) (lookup_of_Absent k m h.1)

  Absent-insert :
      (k j : Text) (v : V) (m : Dict V) → (k == j) ≡ false → Absent j m → Absent j (insert k v m)
  unfolding insert
  Absent-insert k j v [] e h = (e, tt)
  Absent-insert k j v ((i, w) ∷ m) e h = elim (Bool-cases (i == k)) [
    | inl same ↦ rw same (e, h.1)
    | inr other ↦ rw other (h.0, Absent-insert k j v m e h.1)
  ]

  pub insert-IsMap : (k : Text) (v : V) (m : Dict V) → IsMap m → IsMap (insert k v m)
  unfolding insert
  insert-IsMap k v [] h = (tt, tt)
  insert-IsMap k v ((i, w) ∷ m) h = elim (Bool-cases (i == k)) [
    | inl same ↦ rw same (subst (λ x. Absent x m) ((eq_iff i k).0 same) h.0, h.1)
    | inr other ↦
        rw other (
          Absent-insert k i v m (ground (arith, eq_iff k i, eq_iff i k)) h.0,
          insert-IsMap k v m h.1,
        )
  ]

  -- A new key goes to the end.
  pub keys-insert :
      (key : Text) (new : V) (d : Dict V)
      → has key d ≡ false
      → keys (insert key new d) ≡ keys d ++ key ∷ []
  unfolding insert lookup
  keys-insert key new [] absent = refl
  keys-insert key new ((name, old) ∷ rest) absent = elim (Bool-cases (name == key)) [
    | inl same ↦ cc (rw (same, has, lookup) at absent)
    | inr other ↦
        rw other
          (ap (λ ks. name ∷ ks) (keys-insert key new rest (rw (other, has, lookup) at absent)))
  ]
