-- ===== src/Registry/Directory/Outcomes.antt =====
-- registry/registry.go over registry/store.go: what `Register` and `Deregister` leave behind.
use go_ai.Prelude.{◌≡◌, refl, ◌∙◌, ◌≢◌, inl, false, none, some, List, [], ok}
use go_ai.Text.{Text, codes}
use go_ai.Dict.{Dict}
use go_ai.Agent.Graph.{is_empty}
use go_ai.Registry.Records.{AgentRecord}
use go_ai.Registry.Store.{Memory, StateStore, memory_delete, memory_store}
use go_ai.Registry.Store.Writes.{written, memory_set-ok}
use go_ai.Registry.Directory.{
  Codec, effective_team, agent_key, partition_meta, add_name, remove_name, backfill, register,
  deregister,
}
use go_ai.Registry.Directory.OnMemory.{
  agent_key-ne-index_key, indexed, indexed_after, indexed-written_other, indexed-deleted_other,
  update_index-eq,
}

module _ (codec : Codec) (name : Text) where
  abbrev store : StateStore Memory
  store = memory_store name

  store-set :
      (k v : Text) (meta : Dict Text) (m : Memory) → store.set k v [] meta m ≡ (none, written k v m)
  unfolding memory_store
  store-set k v meta m = memory_set-ok k v [] m (inl refl)

  store-delete :
      (k : Text) (meta : Dict Text) (m : Memory) → store.delete k meta m ≡ (none, memory_delete k m)
  unfolding memory_store
  store-delete k meta m = refl

  pub register-eq :
      (r : AgentRecord) (m : Memory) (list : List Text) (etag stored blob : Text)
      → let ref = backfill store.name r in
        let r' = record r { registry = some ref } in
        is_empty r.name ≡ false
        → r.name ≢ codes "_index"
        → indexed codec name ref.name m ≡ ok (list, etag)
        → codec.encode_record r' ≡ ok stored
        → codec.encode_index (add_name r.name list).0 ≡ ok blob
        → register store codec r m ≡ (
          none,
          indexed_after codec name ref.name blob
              (add_name r.name list).1
              (written (agent_key ref.name r.name) stored m),
          r',
        )
  unfolding register
  register-eq r m list etag stored blob named other h encoded encoded_list =
      let ref = backfill store.name r in
      let k = agent_key ref.name r.name in
      let m' = written k stored m in
      let apart = agent_key-ne-index_key ref.name r.name other in
      simp (
        named,
        encoded,
        store-set k stored (partition_meta ref.name) m,
        update_index-eq codec name ref.name (add_name r.name) m' list etag blob
            (indexed-written_other codec name ref.name k stored m apart ∙ h) encoded_list,
        register,
      )

  pub deregister-eq :
      (team n : Text) (m : Memory) (list : List Text) (etag blob : Text)
      → n ≢ codes "_index"
      → indexed codec name (effective_team team) m ≡ ok (list, etag)
      → codec.encode_index (remove_name n list).0 ≡ ok blob
      → deregister store codec team n m ≡ (
        none,
        indexed_after codec name
            (effective_team team)
            blob
            (remove_name n list).1
            (memory_delete (agent_key (effective_team team) n) m),
      )
  unfolding deregister
  deregister-eq team n m list etag blob other h encoded_list =
      let team' = effective_team team in
      let k = agent_key team' n in
      let apart = agent_key-ne-index_key team' n other in
      simp (
        store-delete k (partition_meta team') m,
        update_index-eq codec name team' (remove_name n) (memory_delete k m) list etag blob
            (indexed-deleted_other codec name team' k m apart ∙ h) encoded_list,
        deregister,
      )
