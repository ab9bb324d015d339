-- ===== src/Registry/Directory/Keeps.antt =====
-- registry/registry.go: what the operations of a store keep, a registration keeps.
use go_ai.Prelude.{
  ℕ, zero, suc, Bool, true, false, none, some, List, [], Bool-cases, Option-cases, Result-cases,
  inl, inr, Option,
}
use go_ai.Text.{Text}
use go_ai.Dict.{Dict}
use go_ai.Agent.Graph.{is_empty}
use go_ai.Registry.Records.{AgentRecord}
use go_ai.Registry.Store.{StoreError, etag_conflict, failure, StateStore}
use go_ai.Registry.Directory.{
  Codec, RegistryError, agent_key, index_key, partition_meta, add_name, backfill, load_index,
  write_index, attempt_update, update_loop, update_index, register, Attempt, finished, retry,
  after_set, max_etag_attempts,
}

module _ {S : Type 0} (store : StateStore S) (codec : Codec) (P : S → Type 0)
    (by_get : (k : Text) (meta : Dict Text) (s : S) → P s → P (store.get k meta s).1)
    (by_set : (k v etag : Text) (meta : Dict Text) (s : S)
      → P s
      → P (store.set k v etag meta s).1) where
  -- The state that an attempt leaves.
  abbrev left_by : Attempt store codec → S
  left_by (finished e s) = s
  left_by (retry s) = s

  set_kept :
      (answer : Option StoreError) (s : S) → P s → P (left_by (after_set store codec (answer, s)))
  set_kept none s h = h
  set_kept (some etag_conflict) s h = h
  set_kept (some (failure e)) s h = h

  write_index-kept :
      (team etag : Text) (list : List Text) (change : Bool) (s : S)
      → P s
      → P (left_by (write_index store codec team etag (list, change) s))
  unfolding write_index
  write_index-kept team etag list false s h = h
  write_index-kept team etag list true s h = elim (Result-cases (codec.encode_index list)) [
    | inr (e, failed) ↦ rw (failed, write_index) h
    | inl (blob, encoded) ↦
        rw (encoded, write_index)
          (set_kept (store.set (index_key team) blob etag (partition_meta team) s).0
            (store.set (index_key team) blob etag (partition_meta team) s).1
            (by_set (index_key team) blob etag (partition_meta team) s h))
  ]

  load_index-kept : (team : Text) (s : S) → P s → P (load_index store codec team s).1
  unfolding load_index
  load_index-kept team s h =
      let kept = by_get (index_key team) (partition_meta team) s h in
      elim (Result-cases (store.get (index_key team) (partition_meta team) s).0) [
        | inr (e, failed) ↦ rw (failed, load_index) kept
        | inl (item, found) ↦ rw (found, load_index) kept
      ]

  attempt_update-kept :
      (team : Text) (mutate : List Text → List Text × Bool) (s : S)
      → P s
      → P (left_by (attempt_update store codec team mutate s))
  unfolding attempt_update
  attempt_update-kept team mutate s h =
      let s' = (load_index store codec team s).1 in
      let kept = load_index-kept team s h in
      elim (Result-cases (load_index store codec team s).0) [
        | inr (e, failed) ↦ rw (failed, attempt_update) kept
        | inl ((list, etag), read) ↦
            rw (read, attempt_update)
              (write_index-kept team etag (mutate list).0 (mutate list).1 s' kept)
      ]

  loop_continued :
      (left : ℕ) (team : Text) (mutate : List Text → List Text × Bool) (a : Attempt store codec)
      → P (left_by a)
      → ((s : S) → P s → P (update_loop store codec left team mutate s).1)
      → P
          (elim a as (λ b. Option RegistryError × S) [
            | finished e s' ↦ (e, s')
            | retry s' ↦ update_loop store codec left team mutate s'
          ]).1
  loop_continued left team mutate (finished e s') h later = h
  loop_continued left team mutate (retry s') h later = later s' h

  update_loop-kept :
      (left : ℕ) (team : Text) (mutate : List Text → List Text × Bool) (s : S)
      → P s
      → P (update_loop store codec left team mutate s).1
  unfolding update_loop
  update_loop-kept zero team mutate s h = h
  update_loop-kept (suc left) team mutate s h =
      loop_continued left team mutate (attempt_update store codec team mutate s)
        (attempt_update-kept team mutate s h) (λ s' k. update_loop-kept left team mutate s' k)

  pub register-kept : (r : AgentRecord) (s : S) → P s → P (register store codec r s).1
  unfolding register update_index
  register-kept r s h = elim (Bool-cases (is_empty r.name)) [
    | inl unnamed ↦ rw (unnamed, register) h
    | inr named ↦
        let ref = backfill store.name r in
        let r' : AgentRecord = record r { registry = some ref } in
        elim (Result-cases (codec.encode_record r')) [
          | inr (e, failed) ↦ rw (named, failed, register) h
          | inl (blob, encoded) ↦
              let key = agent_key ref.name r.name in
              let meta = partition_meta ref.name in
              let kept = by_set key blob [] meta s h in
              elim (Option-cases (store.set key blob [] meta s).0) [
                | inr (e, failed) ↦ rw (named, encoded, failed, register) kept
                | inl saved ↦
                    rw (named, encoded, saved, register)
                      (update_loop-kept max_etag_attempts ref.name (add_name r.name)
                        (store.set key blob [] meta s).1 kept)
              ]
        ]
  ]
