-- ===== src/Registry/Directory/OnMemory.antt =====
-- registry/registry.go over the in-process store of registry/store.go.
use go_ai.Prelude.{
  ℕ, suc, ◌+◌, ◌≡◌, refl, sym, ap, ◌∙◌, ◌≢◌, ◌⊎◌, inl, inr, Bool, true, false, none, some, List, [],
  ◌∷◌, ◌++◌, Result, ok, arith, Bool-cases,
}
use mathlib.Core.List.{append_assoc}
use go_ai.Text.{Text, codes, ◌==◌, eq_iff, eq_refl, eq_false}
use go_ai.Agent.Graph.{is_empty}
use go_ai.Registry.Store.{
  etag_conflict, Memory, StateStore, version_at, etag_string, memory_get, memory_set, memory_delete,
  memory_store,
}
use go_ai.Registry.Store.Writes.{written, memory_get-written, memory_get-delete, memory_set-ok}
use go_ai.Registry.Directory.{
  RegistryError, Codec, key_prefix, effective_team, agent_key, index_key, index_names, load_index,
  finished, retry, write_index, attempt_update, update_loop, update_index, list_names, decode_found,
  get_record,
}

append_cancel : (a b c : Text) → a ++ b ≡ a ++ c → b ≡ c
append_cancel [] b c h = h
append_cancel (x ∷ a) b c h = append_cancel a b c (ground arith)

agent_key-injective :
    (team name : Text) → agent_key team name ≡ index_key team → name ≡ codes "_index"
unfolding agent_key index_key
agent_key-injective team name e =
    let lead = key_prefix ++ effective_team team in
    append_cancel (lead ++ codes ":") name (codes "_index")
      (e ∙ sym (append_assoc lead (codes ":") (codes "_index")))

pub agent_key-ne-index_key :
    (team name : Text) → name ≢ codes "_index" → (agent_key team name == index_key team) ≡ false
agent_key-ne-index_key team name other = eq_false _ _ (λ e. other (agent_key-injective team name e))

module _ (codec : Codec) (name : Text) where
  abbrev store : StateStore Memory
  store = memory_store name

  -- The names that the directory reads, and the etag that it would write them back with.
  abbrev pub indexed : Text → Memory → Result RegistryError (List Text × Text)
  indexed team m = index_names store codec (memory_get (index_key team) m)

  pub load_index-eq :
      (team : Text) (m : Memory) → load_index store codec team m ≡ (indexed team m, m)
  unfolding load_index memory_store
  load_index-eq team m = refl

  pub indexed-etag :
      (team : Text) (m : Memory) (list : List Text) (etag : Text)
      → indexed team m ≡ ok (list, etag)
      → (etag ≡ []) ⊎ (etag ≡ etag_string (version_at (index_key team) m.versions))
  unfolding memory_get index_names
  indexed-etag team m list etag h = ground arith

  pub write_index-kept :
      (team etag : Text) (next : List Text × Bool) (m : Memory)
      → next.1 ≡ false
      → write_index store codec team etag next m ≡ finished none m
  unfolding write_index
  write_index-kept team etag (list, true) m h = cc h
  write_index-kept team etag (list, false) m h = refl

  pub write_index-written :
      (team etag blob : Text) (next : List Text × Bool) (m : Memory)
      → next.1 ≡ true
      → codec.encode_index next.0 ≡ ok blob
      → memory_set (index_key team) blob etag m ≡ (none, written (index_key team) blob m)
      → write_index store codec team etag next m ≡ finished none (written (index_key team) blob m)
  unfolding write_index memory_store
  write_index-written team etag blob (list, true) m h encoded saved =
      rw (encoded, write_index, saved)
  write_index-written team etag blob (list, false) m h encoded saved = cc h

  attempt_update-kept :
      (team : Text) (mutate : List Text → List Text × Bool) (m : Memory) (list : List Text)
      (etag : Text)
      → indexed team m ≡ ok (list, etag)
      → (mutate list).1 ≡ false
      → attempt_update store codec team mutate m ≡ finished none m
  unfolding attempt_update
  attempt_update-kept team mutate m list etag h kept =
      simp (load_index-eq team m, h, attempt_update)
        (write_index-kept team etag (mutate list) m kept)

  pub write_index-conflict :
      (team etag blob : Text) (next : List Text × Bool) (m : Memory)
      → next.1 ≡ true
      → codec.encode_index next.0 ≡ ok blob
      → memory_set (index_key team) blob etag m ≡ (some etag_conflict, m)
      → write_index store codec team etag next m ≡ retry m
  unfolding write_index memory_store
  write_index-conflict team etag blob (list, true) m h encoded refused =
      rw (encoded, write_index, refused)
  write_index-conflict team etag blob (list, false) m h encoded refused = cc h

  pub attempt_update-written :
      (team : Text) (mutate : List Text → List Text × Bool) (m : Memory) (list : List Text)
      (etag blob : Text)
      → indexed team m ≡ ok (list, etag)
      → (mutate list).1 ≡ true
      → codec.encode_index (mutate list).0 ≡ ok blob
      → attempt_update store codec team mutate m ≡ finished none (written (index_key team) blob m)
  unfolding attempt_update
  attempt_update-written team mutate m list etag blob h changed encoded =
      simp (load_index-eq team m, h, attempt_update)
        (write_index-written team etag blob (mutate list) m changed encoded
          (memory_set-ok (index_key team) blob etag m (indexed-etag team m list etag h)))

  -- The store after `updateIndex` on a readable index.
  abbrev pub indexed_after : Text → Text → Bool → Memory → Memory
  indexed_after team blob true m = written (index_key team) blob m
  indexed_after team blob false m = m

  attempt_update-eq :
      (team : Text) (mutate : List Text → List Text × Bool) (m : Memory) (list : List Text)
      (etag blob : Text)
      → indexed team m ≡ ok (list, etag)
      → codec.encode_index (mutate list).0 ≡ ok blob
      → attempt_update store codec team mutate m
        ≡ finished none (indexed_after team blob (mutate list).1 m)
  attempt_update-eq team mutate m list etag blob h encoded = elim (Bool-cases (mutate list).1) [
    | inl changed ↦
        rw changed (attempt_update-written team mutate m list etag blob h changed encoded)
    | inr kept ↦ rw kept (attempt_update-kept team mutate m list etag h kept)
  ]

  update_loop_finished :
      (left : ℕ) (team : Text) (mutate : List Text → List Text × Bool) (m n : Memory)
      → attempt_update store codec team mutate m ≡ finished none n
      → update_loop store codec (suc left) team mutate m ≡ (none, n)
  unfolding update_loop
  update_loop_finished left team mutate m n h = simp (h, update_loop)

  pub update_index-eq :
      (team : Text) (mutate : List Text → List Text × Bool) (m : Memory) (list : List Text)
      (etag blob : Text)
      → indexed team m ≡ ok (list, etag)
      → codec.encode_index (mutate list).0 ≡ ok blob
      → update_index store codec team mutate m ≡ (none, indexed_after team blob (mutate list).1 m)
  unfolding update_index
  update_index-eq team mutate m list etag blob h encoded =
      update_loop_finished 9 team mutate m (indexed_after team blob (mutate list).1 m)
        (attempt_update-eq team mutate m list etag blob h encoded)

  pub list_names-eq :
      (team : Text) (m : Memory) (list : List Text) (etag : Text)
      → indexed team m ≡ ok (list, etag)
      → (list_names store codec team m).0 ≡ ok list
  unfolding list_names
  list_names-eq team m list etag h = simp (load_index-eq team m, h, list_names)

  pub indexed-written :
      (team blob : Text) (m : Memory) (list : List Text)
      → is_empty blob ≡ false
      → codec.decode_index blob ≡ ok (some list)
      → indexed team (written (index_key team) blob m)
        ≡ ok (list, etag_string (version_at (index_key team) m.versions + 1))
  unfolding index_names
  indexed-written team blob m list full decoded =
      let read : memory_get (index_key team) (written (index_key team) blob m)
          ≡ some (record {
            value = blob;
            etag = etag_string (version_at (index_key team) m.versions + 1);
          }) =
        memory_get-written (index_key team) (index_key team) blob m
        ∙ rw (eq_refl (index_key team)) in
      ap (index_names store codec) read ∙ simp (full, decoded)

  -- The index reads back as the list that was written, or kept.
  pub list_names-after :
      (team blob : Text) (mutate : List Text → List Text × Bool) (m : Memory) (list : List Text)
      (etag : Text)
      → indexed team m ≡ ok (list, etag)
      → is_empty blob ≡ false
      → codec.decode_index blob ≡ ok (some (mutate list).0)
      → ((mutate list).1 ≡ false → (mutate list).0 ≡ list)
      → (list_names store codec team (indexed_after team blob (mutate list).1 m)).0
        ≡ ok (mutate list).0
  list_names-after team blob mutate m list etag h full decoded kept =
      elim (Bool-cases (mutate list).1) [
        | inl changed ↦ rw changed (
            list_names-eq team (written (index_key team) blob m) (mutate list).0 _
              (indexed-written team blob m (mutate list).0 full decoded))
        | inr same ↦ rw (same, kept same) (list_names-eq team m list etag h)
      ]

  -- No write to the index touches another key.
  pub memory_get-after :
      (team k blob : Text) (changed : Bool) (m : Memory)
      → (k == index_key team) ≡ false
      → memory_get k (indexed_after team blob changed m) ≡ memory_get k m
  memory_get-after team k blob false m other = refl
  memory_get-after team k blob true m other =
      let apart : (index_key team == k) ≡ false =
        ground (arith, eq_iff k (index_key team), eq_iff (index_key team) k) in
      memory_get-written (index_key team) k blob m ∙ rw apart

  pub indexed-written_other :
      (team k v : Text) (m : Memory)
      → (k == index_key team) ≡ false
      → indexed team (written k v m) ≡ indexed team m
  indexed-written_other team k v m other =
      ap (index_names store codec) (memory_get-written k (index_key team) v m ∙ rw other)

  pub indexed-deleted_other :
      (team k : Text) (m : Memory)
      → (k == index_key team) ≡ false
      → indexed team (memory_delete k m) ≡ indexed team m
  indexed-deleted_other team k m other =
      ap (index_names store codec) (memory_get-delete k (index_key team) m ∙ rw other)

  pub get_record-eq :
      (team n : Text) (m : Memory)
      → (get_record store codec team n m).0
        ≡ decode_found store codec (memory_get (agent_key (effective_team team) n) m)
  unfolding get_record memory_store decode_found
  get_record-eq team n m = refl
