-- ===== src/Registry/Directory.antt =====
-- registry/registry.go: the directory over any state store. The JSON codecs are an argument.
pub mod OnMemory
pub mod Outcomes
pub mod Entries
pub mod Races
pub mod Keeps
pub mod Writers
use go_ai.Prelude.{
  ℕ, zero, suc, Bool, true, false, not, Option, none, some, List, [], ◌∷◌, ◌++◌, Result, ok, err,
  map_err, if◌then◌else◌,
}
use go_ai.Text.{Text, codes, contains, ◌==◌}
use go_ai.Dict.{Dict}
use go_ai.Agent.Graph.{is_empty}
use go_ai.Registry.Records.{AgentRecord, RegistryRef, default_team}
use go_ai.Registry.Store.{StoreError, etag_conflict, failure, Item, StateStore}

abbrev pub key_prefix : Text
key_prefix = codes "agents:"

abbrev pub max_etag_attempts : ℕ
max_etag_attempts = 10

pub data RegistryError : Type 0 where
  name_required : RegistryError
  marshal_record : Text → RegistryError
  save_record : StoreError → RegistryError
  delete_record : StoreError → RegistryError
  load_record : StoreError → RegistryError
  unmarshal_record : Text → RegistryError
  read_index : StoreError → RegistryError
  unmarshal_index : Text → RegistryError
  marshal_index : Text → RegistryError
  save_index : StoreError → RegistryError
  retries_exhausted : ℕ → RegistryError

unfoldable pub effective_team : Text → Text
effective_team team = if is_empty team then default_team else team

unfoldable pub agent_key : Text → Text → Text
unfolding effective_team
agent_key team name = key_prefix ++ effective_team team ++ codes ":" ++ name

unfoldable pub index_key : Text → Text
unfolding effective_team
index_key team = key_prefix ++ effective_team team ++ codes ":_index"

unfoldable pub partition_meta : Text → Dict Text
unfolding effective_team
partition_meta team =
    (codes "partitionKey", key_prefix ++ effective_team team)
    ∷ (codes "contentType", codes "application/json")
    ∷ []

-- `json.Marshal` and `json.Unmarshal` at the two documents. Of the index document the code keeps
-- the field "agents": none where it is missing or null.
pub record Codec : Type 0 where
  pub encode_record : AgentRecord → Result Text Text
  pub decode_record : Text → Result Text AgentRecord
  pub encode_index : List Text → Result Text Text
  pub decode_index : Text → Result Text (Option (List Text))

-- The closure that `Register` hands to `updateIndex`: the new list, and whether to write it.
unfoldable pub add_name : Text → List Text → List Text × Bool
unfolding contains
add_name name list = if contains name list then (list, false) else (list ++ name ∷ [], true)

-- The closure of `Deregister`: the first occurrence goes.
unfoldable pub remove_name : Text → List Text → List Text × Bool
remove_name name [] = ([], false)
remove_name name (n ∷ list) =
    let rest = remove_name name list in if n == name then (list, true) else (n ∷ rest.0, rest.1)

-- The team and the resource name that `Register` fills in.
unfoldable pub backfill : Text → AgentRecord → RegistryRef
unfolding effective_team
backfill store_name r =
    let old : RegistryRef = elim r.registry [
      | none ↦ record { name = []; resource_name = [] }
      | some ref ↦ ref
    ] in
    record {
      name = effective_team old.name;
      resource_name = if is_empty old.resource_name then store_name else old.resource_name;
    }

module _ {S : Type 0} (store : StateStore S) (codec : Codec) where
  -- The list in an index blob; an absent or empty one is the empty list.
  unfoldable pub index_names : Option Item → Result RegistryError (List Text × Text)
  index_names none = ok ([], [])
  index_names (some item) =
      if is_empty item.value then ok ([], item.etag) else (elim (codec.decode_index item.value) [
        | err e ↦ err (unmarshal_index e)
        | ok none ↦ ok ([], item.etag)
        | ok (some list) ↦ ok (list, item.etag)
      ])

  unfoldable pub load_index : Text → S → Result RegistryError (List Text × Text) × S
  unfolding index_names index_key partition_meta
  load_index team s =
      let (answer, s') = store.get (index_key team) (partition_meta team) s in
      elim answer [ err e ↦ (err (read_index e), s') | ok found ↦ (index_names found, s') ]

  -- What one attempt of `updateIndex` comes to.
  pub data Attempt : Type 0 where
    finished : Option RegistryError → S → Attempt
    retry : S → Attempt

  abbrev pub after_set : Option StoreError × S → Attempt
  after_set (none, s) = finished none s
  after_set (some etag_conflict, s) = retry s
  after_set (some (failure e), s) = finished (some (save_index (failure e))) s

  unfoldable pub write_index : Text → Text → List Text × Bool → S → Attempt
  unfolding index_key partition_meta
  write_index team etag (list, false) s = finished none s
  write_index team etag (list, true) s = elim (codec.encode_index list) [
    | err e ↦ finished (some (marshal_index e)) s
    | ok blob ↦ after_set (store.set (index_key team) blob etag (partition_meta team) s)
  ]

  unfoldable pub attempt_update : Text → (List Text → List Text × Bool) → S → Attempt
  unfolding load_index write_index
  attempt_update team mutate s =
      let (answer, s') = load_index team s in
      elim answer [
        | err e ↦ finished (some e) s'
        | ok (list, etag) ↦ write_index team etag (mutate list) s'
      ]

  -- The loop, with the attempts that are left.
  unfoldable pub update_loop :
      ℕ → Text → (List Text → List Text × Bool) → S → Option RegistryError × S
  unfolding attempt_update
  update_loop zero team mutate s = (some (retries_exhausted max_etag_attempts), s)
  update_loop (suc left) team mutate s = elim (attempt_update team mutate s) [
    | finished e s' ↦ (e, s')
    | retry s' ↦ update_loop left team mutate s'
  ]

  unfoldable pub update_index : Text → (List Text → List Text × Bool) → S → Option RegistryError × S
  unfolding update_loop
  update_index team mutate s = update_loop max_etag_attempts team mutate s

  -- `Register`: the record comes back with its team and resource name filled in.
  unfoldable pub register : AgentRecord → S → Option RegistryError × S × AgentRecord
  unfolding backfill agent_key partition_meta update_index add_name
  register r s =
      if is_empty r.name
      then (some name_required, s, r)
      else (let ref = backfill store.name r in
          let r' = record r { registry = some ref } in
          elim (codec.encode_record r') [
            | err e ↦ (some (marshal_record e), s, r')
            | ok blob ↦
                let (saved, s₁) =
                  store.set (agent_key ref.name r.name) blob [] (partition_meta ref.name) s in
                elim saved [
                  | some e ↦ (some (save_record e), s₁, r')
                  | none ↦ let (e, s₂) = update_index ref.name (add_name r.name) s₁ in (e, s₂, r')
                ]
          ])

  unfoldable pub deregister : Text → Text → S → Option RegistryError × S
  unfolding agent_key partition_meta update_index remove_name
  deregister team name s =
      let team' = effective_team team in
      let (deleted, s₁) = store.delete (agent_key team' name) (partition_meta team') s in
      elim deleted [
        | some e ↦ (some (delete_record e), s₁)
        | none ↦ update_index team' (remove_name name) s₁
      ]

  unfoldable pub list_names : Text → S → Result RegistryError (List Text) × S
  unfolding load_index
  list_names team s =
      let (answer, s') = load_index team s in
      elim answer [ err e ↦ (err e, s') | ok (list, etag) ↦ (ok list, s') ]

  unfoldable pub decode_found : Option Item → Result RegistryError (Option AgentRecord)
  decode_found none = ok none
  decode_found (some item) = elim (codec.decode_record item.value) [
    | err e ↦ err (unmarshal_record e)
    | ok r ↦ ok (some r)
  ]

  -- `Get`; none where the record is not found.
  unfoldable pub get_record : Text → Text → S → Result RegistryError (Option AgentRecord) × S
  unfolding agent_key partition_meta decode_found
  get_record team name s =
      let team' = effective_team team in
      let (answer, s') = store.get (agent_key team' name) (partition_meta team') s in
      elim answer [ err e ↦ (err (load_record e), s') | ok found ↦ (decode_found found, s') ]
