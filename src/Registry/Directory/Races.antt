-- ===== src/Registry/Directory/Races.antt =====
-- registry/registry.go over registry/store.go: two processes that update one team's index.
use go_ai.Prelude.{
  ℕ, ◌≡◌, ◌⊎◌, inr, refl, sym, ap, ◌∙◌, true, false, none, some, List, [], ◌∷◌, ◌++◌, ok, inl,
}
use go_ai.Text.{Text, contains}
use go_ai.Agent.Graph.{is_empty}
use go_ai.Registry.Store.{Memory, StateStore, memory_store, memory_get, etag_string, version_at}
use go_ai.Registry.Store.Writes.{written, memory_set-ok, memory_set-conflict}
use go_ai.Registry.Directory.{
  Codec, index_key, add_name, index_names, load_index, finished, retry, attempt_update, write_index,
  list_names,
}
use go_ai.Registry.Directory.OnMemory.{
  indexed-etag, write_index-conflict, attempt_update-written, load_index-eq, write_index-written,
  indexed-written, list_names-eq,
}

add_name-new :
    (n : Text) (list : List Text)
    → contains n list ≡ false
    → add_name n list ≡ (list ++ n ∷ [], true)
unfolding add_name
add_name-new n list h = rw h

same_etag :
    (etag : Text) (v : ℕ)
    → is_empty etag ≡ false
    → (etag ≡ []) ⊎ (etag ≡ etag_string v)
    → etag ≡ etag_string v
same_etag etag v full (inl e) = cc (full, ap is_empty e)
same_etag etag v full (inr e) = e

module _ (codec : Codec) (name : Text) where
  abbrev store : StateStore Memory
  store = memory_store name

  -- Two first registrations of a team race: each reads the missing index, with the empty etag, before
  -- either writes. Both writes then succeed, and the list is left with the name of the later one alone.
  pub first_writers-lose :
      (team a b first second : Text) (m : Memory)
      → memory_get (index_key team) m ≡ none
      → codec.encode_index (a ∷ []) ≡ ok first
      → codec.encode_index (b ∷ []) ≡ ok second
      → is_empty second ≡ false
      → codec.decode_index second ≡ ok (some (b ∷ []))
      → ((load_index store codec team m).0 ≡ ok ([], []))
        × (m₁ : Memory) × (m₂ : Memory) × (write_index store codec team [] (add_name a []) m
            ≡ finished none m₁)
        × (write_index store codec team [] (add_name b []) m₁ ≡ finished none m₂)
        × ((list_names store codec team m₂).0 ≡ ok (b ∷ []))
  unfolding add_name
  first_writers-lose team a b first second m missing by_a by_b full decoded =
      let k = index_key team in
      let m₁ = written k first m in
      let m₂ = written k second m₁ in
      (
        ap (λ x. x.0) (load_index-eq codec name team m)
            ∙ unfold index_names in ap (index_names store codec) missing,
        m₁,
        m₂,
        write_index-written codec name team [] first (a ∷ [], true) m refl by_a
            (memory_set-ok k first [] m (inl refl)),
        write_index-written codec name team [] second (b ∷ [], true) m₁ refl by_b
            (memory_set-ok k second [] m₁ (inl refl)),
        list_names-eq codec name team m₂ (b ∷ []) _
            (indexed-written codec name team second m₁ (b ∷ []) full decoded),
      )

  -- Two later registrations race: both read one list, with an etag, before either writes. The later
  -- write is refused, and the next attempt of its writer leaves a list with both names.
  pub late_writer-retries :
      (team a b etag first lost second : Text) (list : List Text) (m : Memory)
      → (load_index store codec team m).0 ≡ ok (list, etag)
      → is_empty etag ≡ false
      → contains a list ≡ false
      → contains b list ≡ false
      → contains b (list ++ a ∷ []) ≡ false
      → codec.encode_index (list ++ a ∷ []) ≡ ok first
      → is_empty first ≡ false
      → codec.decode_index first ≡ ok (some (list ++ a ∷ []))
      → codec.encode_index (list ++ b ∷ []) ≡ ok lost
      → codec.encode_index (list ++ a ∷ [] ++ b ∷ []) ≡ ok second
      → is_empty second ≡ false
      → codec.decode_index second ≡ ok (some (list ++ a ∷ [] ++ b ∷ []))
      → (m₁ : Memory) × (m₂ : Memory) × (write_index store codec team etag (add_name a list) m
          ≡ finished none m₁)
        × (write_index store codec team etag (add_name b list) m₁ ≡ retry m₁)
        × (attempt_update store codec team (add_name b) m₁ ≡ finished none m₂)
        × ((list_names store codec team m₂).0 ≡ ok (list ++ a ∷ [] ++ b ∷ []))
  late_writer-retries team a b etag first lost second list m read full_etag new_a new_b new_b' by_a
        full_a dec_a by_b by_both full_both dec_both =
      let k = index_key team in
      let h = sym (ap (λ x. x.0) (load_index-eq codec name team m)) ∙ read in
      let same =
        same_etag etag (version_at k m.versions) full_etag
          (indexed-etag codec name team m list etag h) in
      let m₁ = written k first m in
      let m₂ = written k second m₁ in
      let read₁ = indexed-written codec name team first m (list ++ a ∷ []) full_a dec_a in
      (
        m₁,
        m₂,
        rw (add_name-new a list new_a) (
            write_index-written codec name team etag first (list ++ a ∷ [], true) m refl by_a
              (memory_set-ok k first etag m (inr same))),
        rw (add_name-new b list new_b) (
            write_index-conflict codec name team etag lost (list ++ b ∷ [], true) m₁ refl by_b
              (memory_set-conflict k first lost etag m full_etag same)),
        attempt_update-written codec name team (add_name b) m₁ (list ++ a ∷ []) _ second read₁
            (rw (add_name-new b (list ++ a ∷ []) new_b'))
            (rw (add_name-new b (list ++ a ∷ []) new_b') by_both),
        list_names-eq codec name team m₂ (list ++ a ∷ [] ++ b ∷ []) _ (
            indexed-written codec name team second m₁ (list ++ a ∷ [] ++ b ∷ []) full_both
              dec_both),
      )
