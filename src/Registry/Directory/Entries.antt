-- ===== src/Registry/Directory/Entries.antt =====
-- registry/registry.go over registry/store.go: what the directory's readers find after a write.
use go_ai.Prelude.{
  ◌+◌, ◌≡◌, refl, ◌∙◌, sym, ap, ◌≢◌, ◌⊎◌, inl, inr, Elem, Bool-cases, false, none, some, List, [],
  ◌∷◌, ◌++◌, ok, arith,
}
use go_ai.Text.{Text, codes, ◌==◌, contains, contains_iff, eq_false, eq_refl}
use go_ai.Agent.Graph.{is_empty}
use go_ai.Registry.Records.{AgentRecord}
use go_ai.Registry.Store.{
  Memory, StateStore, memory_store, memory_get, memory_delete, etag_string, version_at,
}
use go_ai.Registry.Store.Writes.{written, memory_get-written, memory_get-delete}
use go_ai.Registry.Directory.{
  Codec, effective_team, agent_key, add_name, remove_name, backfill, load_index, register,
  deregister, list_names, decode_found, get_record,
}
use go_ai.Registry.Directory.OnMemory.{
  indexed, agent_key-ne-index_key, list_names-after, memory_get-after, get_record-eq,
  indexed-written_other, indexed-deleted_other,
}
use go_ai.Registry.Directory.Outcomes.{register-eq, deregister-eq}

effective_team_idem : (team : Text) → effective_team (effective_team team) ≡ effective_team team
unfolding effective_team
effective_team_idem [] = refl
effective_team_idem (c ∷ team) = refl

agent_key-effective : (team n : Text) → agent_key (effective_team team) n ≡ agent_key team n
unfolding agent_key
agent_key-effective team n = rw (effective_team_idem team)

-- The list once the name is in it: as it was, or with the name at its end where it was not there.
abbrev pub IsWith : Text → List Text → List Text → Type 0
IsWith n list list' = (Elem n list × (list' ≡ list)) ⊎ (¬ Elem n list × (list' ≡ list ++ n ∷ []))

-- The list without the first entry of the name: as it was where there is none.
abbrev pub IsWithout : Text → List Text → List Text → Type 0
IsWithout n list list' =
    ((before after : List Text) × (list ≡ before ++ n ∷ after)
      × ¬ Elem n before
      × (list' ≡ before ++ after))
    ⊎ (¬ Elem n list × (list' ≡ list))

add_name-eq :
    (n : Text) (list list' : List Text) → IsWith n list list' → (add_name n list).0 ≡ list'
unfolding add_name
add_name-eq n list list' (inl (there, same)) =
    rw ((contains_iff n list).1 there, add_name) (sym same)
add_name-eq n list list' (inr (absent, longer)) = elim (Bool-cases (contains n list)) [
  | inl there ↦ absurd (absent ((contains_iff n list).0 there))
  | inr new ↦ rw (new, add_name) (sym longer)
]

remove_name-absent : (n : Text) (list : List Text) → ¬ Elem n list → (remove_name n list).0 ≡ list
unfolding remove_name
remove_name-absent n [] absent = refl
remove_name-absent n (x ∷ list) absent =
    let other : (x == n) ≡ false = eq_false x n (λ e. absent (inl e)) in
    rw (other, remove_name)
      (ap (λ l. x ∷ l) (remove_name-absent n list (λ later. absent (inr later))))

remove_name-present :
    (n : Text) (before after : List Text)
    → ¬ Elem n before
    → (remove_name n (before ++ n ∷ after)).0 ≡ before ++ after
unfolding remove_name
remove_name-present n [] after absent = rw (eq_refl n, remove_name) refl
remove_name-present n (x ∷ before) after absent =
    let other : (x == n) ≡ false = eq_false x n (λ e. absent (inl e)) in
    rw (other, remove_name)
      (ap (λ l. x ∷ l) (remove_name-present n before after (λ later. absent (inr later))))

remove_name-eq :
    (n : Text) (list list' : List Text) → IsWithout n list list' → (remove_name n list).0 ≡ list'
remove_name-eq n list list' (inl (before, after, split, absent, same)) =
    rw (split, same) (remove_name-present n before after absent)
remove_name-eq n list list' (inr (absent, same)) = remove_name-absent n list absent ∙ sym same

add_name-kept :
    (n : Text) (list : List Text) → (add_name n list).1 ≡ false → (add_name n list).0 ≡ list
unfolding add_name
add_name-kept n list h = ground arith

remove_name-kept :
    (n : Text) (list : List Text) → (remove_name n list).1 ≡ false → (remove_name n list).0 ≡ list
unfolding remove_name
remove_name-kept n [] h = refl
remove_name-kept n (x ∷ list) h = ground (arith, remove_name-kept n list)

module _ (codec : Codec) (name : Text) where
  abbrev store : StateStore Memory
  store = memory_store name

  load_index-indexed :
      (team : Text) (m : Memory) (list : List Text) (etag : Text)
      → (load_index store codec team m).0 ≡ ok (list, etag)
      → indexed codec name team m ≡ ok (list, etag)
  unfolding load_index memory_store
  load_index-indexed team m list etag h = h

  get_record-found :
      (team n stored etag : Text) (m : Memory) (r : AgentRecord)
      → memory_get (agent_key team n) m ≡ some (record { value = stored; etag = etag })
      → codec.decode_record stored ≡ ok r
      → (get_record store codec team n m).0 ≡ ok (some r)
  unfolding decode_found
  get_record-found team n stored etag m r found decoded =
      get_record-eq codec name team n m
      ∙ rw (agent_key-effective team n, found, decode_found, decoded)

  get_record-missing :
      (team n : Text) (m : Memory)
      → memory_get (agent_key (effective_team team) n) m ≡ none
      → (get_record store codec team n m).0 ≡ ok none
  unfolding decode_found
  get_record-missing team n m missing =
      get_record-eq codec name team n m ∙ rw (missing, decode_found)

  registered :
      (r : AgentRecord) (m : Memory) (list : List Text) (etag stored blob : Text)
      → let ref = backfill store.name r in
        let r' = record r { registry = some ref } in
        is_empty r.name ≡ false
        → r.name ≢ codes "_index"
        → (load_index store codec ref.name m).0 ≡ ok (list, etag)
        → codec.encode_record r' ≡ ok stored
        → codec.decode_record stored ≡ ok r'
        → codec.encode_index (add_name r.name list).0 ≡ ok blob
        → is_empty blob ≡ false
        → codec.decode_index blob ≡ ok (some (add_name r.name list).0)
        → let out = register store codec r m in
          (out.0 ≡ none)
          × (out.2 ≡ r')
          × ((list_names store codec ref.name out.1).0 ≡ ok (add_name r.name list).0)
          × ((get_record store codec ref.name r.name out.1).0 ≡ ok (some r'))
  registered r m list etag stored blob named other read encoded decoded encoded_list full
        decoded_list =
      let ref = backfill store.name r in
      let k = agent_key ref.name r.name in
      let h = load_index-indexed ref.name m list etag read in
      let apart = agent_key-ne-index_key ref.name r.name other in
      rw (register-eq codec name r m list etag stored blob named other h encoded encoded_list) (
        refl,
        refl,
        list_names-after codec name ref.name blob (add_name r.name) (written k stored m) list etag
            (indexed-written_other codec name ref.name k stored m apart ∙ h) full decoded_list
            (add_name-kept r.name list),
        get_record-found ref.name r.name stored (etag_string (version_at k m.versions + 1)) _ _
            (memory_get-after codec name ref.name k blob (add_name r.name list).1
                (written k stored m) apart
              ∙ memory_get-written k k stored m
              ∙ rw (eq_refl k))
            decoded,
      )

  -- Registering an agent on a store whose index can be read succeeds: the team's list is then as it
  -- was if it had the name, and otherwise has the name added at its end, and a reader finds the record
  -- with its team and store filled in. The name is not empty and not the index's own, `_index`, and
  -- the two documents that are written, the record and the new list, decode as what was encoded.
  pub register-found :
      (r : AgentRecord) (m : Memory) (list list' : List Text) (etag stored blob : Text)
      → let ref = backfill store.name r in
        let r' = record r { registry = some ref } in
        is_empty r.name ≡ false
        → r.name ≢ codes "_index"
        → (load_index store codec ref.name m).0 ≡ ok (list, etag)
        → IsWith r.name list list'
        → codec.encode_record r' ≡ ok stored
        → codec.decode_record stored ≡ ok r'
        → codec.encode_index list' ≡ ok blob
        → is_empty blob ≡ false
        → codec.decode_index blob ≡ ok (some list')
        → let out = register store codec r m in
          (out.0 ≡ none)
          × (out.2 ≡ r')
          × ((list_names store codec ref.name out.1).0 ≡ ok list')
          × ((get_record store codec ref.name r.name out.1).0 ≡ ok (some r'))
  register-found r m list list' etag stored blob named other read joined encoded decoded
        encoded_list full decoded_list =
      let e = add_name-eq r.name list list' joined in
      let (done, filled, listed, found) =
        registered r m list etag stored blob named other read encoded decoded
          (ap codec.encode_index e ∙ encoded_list) full
          (decoded_list ∙ ap (λ l. ok (some l)) (sym e)) in
      (done, filled, listed ∙ ap ok e, found)

  deregistered :
      (team n : Text) (m : Memory) (list : List Text) (etag blob : Text)
      → n ≢ codes "_index"
      → (load_index store codec (effective_team team) m).0 ≡ ok (list, etag)
      → codec.encode_index (remove_name n list).0 ≡ ok blob
      → is_empty blob ≡ false
      → codec.decode_index blob ≡ ok (some (remove_name n list).0)
      → let out = deregister store codec team n m in
        (out.0 ≡ none)
        × ((list_names store codec (effective_team team) out.1).0 ≡ ok (remove_name n list).0)
        × ((get_record store codec team n out.1).0 ≡ ok none)
  deregistered team n m list etag blob other read encoded full decoded =
      let team' = effective_team team in
      let k = agent_key team' n in
      let h = load_index-indexed team' m list etag read in
      let apart = agent_key-ne-index_key team' n other in
      rw (deregister-eq codec name team n m list etag blob other h encoded) (
        refl,
        list_names-after codec name team' blob (remove_name n) (memory_delete k m) list etag
            (indexed-deleted_other codec name team' k m apart ∙ h) full decoded
            (remove_name-kept n list),
        get_record-missing team n _ (
            memory_get-after codec name team' k blob (remove_name n list).1 (memory_delete k m)
              apart
            ∙ memory_get-delete k k m
            ∙ rw (eq_refl k)),
      )

  -- Deregistering an agent from a store whose index can be read succeeds: the team's list is then
  -- without the first entry of the name, or as it was if it had none, and a reader finds no record.
  -- The name is not the index's own, `_index`, and the new list decodes as what was encoded.
  pub deregister-gone :
      (team n : Text) (m : Memory) (list list' : List Text) (etag blob : Text)
      → n ≢ codes "_index"
      → (load_index store codec (effective_team team) m).0 ≡ ok (list, etag)
      → IsWithout n list list'
      → codec.encode_index list' ≡ ok blob
      → is_empty blob ≡ false
      → codec.decode_index blob ≡ ok (some list')
      → let out = deregister store codec team n m in
        (out.0 ≡ none)
        × ((list_names store codec (effective_team team) out.1).0 ≡ ok list')
        × ((get_record store codec team n out.1).0 ≡ ok none)
  deregister-gone team n m list list' etag blob other read left encoded full decoded =
      let e = remove_name-eq n list list' left in
      let (done, listed, gone) =
        deregistered team n m list etag blob other read (ap codec.encode_index e ∙ encoded) full
          (decoded ∙ ap (λ l. ok (some l)) (sym e)) in
      (done, listed ∙ ap ok e, gone)
