-- ===== src/Registry/DaprStore/Refines.antt =====
-- registry/daprstore.go against the contract of registry/store.go.
use go_ai.Prelude.{◌≡◌, ◌≢◌, ◌⊎◌, Option, none, some, [], ok, err}
use go_ai.Text.{Text, codes, IsPart}
use go_ai.Dict.{Dict}
use go_ai.Registry.Store.{StoreError, etag_conflict, failure, Item, StateStore}
use go_ai.Registry.DaprStore.{DaprClient}

-- What a component holds: the item of each key, with an etag of the component's choice.
abbrev pub Contents : Type 0
Contents = Text → Option Item

abbrev pub IsKept : Contents → Contents → Type 0
IsKept h h' = (j : Text) → h' j ≡ h j

-- The key has the value, under some etag, and every other key is as it was.
abbrev pub IsWritten : Text → Text → Contents → Contents → Type 0
IsWritten k v h h' =
    (etag : Text) × (h' k ≡ some (record { value = v; etag = etag }))
    × ((j : Text) → j ≢ k → h' j ≡ h j)

abbrev pub IsErased : Text → Contents → Contents → Type 0
IsErased k h h' = (h' k ≡ none) × ((j : Text) → j ≢ k → h' j ≡ h j)

-- The key is there, with that etag.
abbrev pub IsCurrent : Text → Text → Contents → Type 0
IsCurrent k etag h = (item : Item) × (h k ≡ some item) × (item.etag ≡ etag)

-- What `Get` finds of an item: nothing where its value is empty.
pub data IsFound : Option Item → Option Item → Type 0 where
  missing : IsFound none none
  empty : {item : Item} → item.value ≡ [] → IsFound (some item) none
  found : {item : Item} → item.value ≢ [] → IsFound (some item) (some item)

-- The outcome of `Set`: a write without an etag, or with the current one; a conflict where the etag is
-- not the current one; or another failure. Only a write changes anything.
pub data IsWriteOutcome (k v etag : Text) (h h' : Contents) : Option StoreError → Type 0 where
  written :
      (etag ≡ []) ⊎ IsCurrent k etag h → IsWritten k v h h' → IsWriteOutcome k v etag h h' none
  conflicted :
      etag ≢ []
      → ¬ IsCurrent k etag h
      → IsKept h h'
      → IsWriteOutcome k v etag h h' (some etag_conflict)
  failed : (e : Text) → IsKept h h' → IsWriteOutcome k v etag h h' (some (failure e))

-- The contract of a state store whose state holds `holds`.
pub record IsStateStore {S : Type 0} (store : StateStore S) (holds : S → Contents) : Type 0 where
  pub gets :
      (k : Text) (meta : Dict Text) (s : S)
      → let out = store.get k meta s in
        IsKept (holds s) (holds out.1)
        × (((item : Option Item) × (out.0 ≡ ok item) × IsFound (holds s k) item)
            ⊎ ((e : Text) × (out.0 ≡ err (failure e))))
  pub sets :
      (k v etag : Text) (meta : Dict Text) (s : S)
      → let out = store.set k v etag meta s in IsWriteOutcome k v etag (holds s) (holds out.1) out.0
  pub deletes :
      (k : Text) (meta : Dict Text) (s : S)
      → let out = store.delete k meta s in
        ((out.0 ≡ none) × IsErased k (holds s) (holds out.1))
        ⊎ ((e : Text) × (out.0 ≡ some (failure e)) × IsKept (holds s) (holds out.1))

-- The text of a refused etag, in lower case, speaks of an etag or of an aborted call; that of another
-- failure of neither.
abbrev pub SpeaksOfConflict : (Text → Text) → Text → Type 0
SpeaksOfConflict to_lower e =
    IsPart (to_lower e) (codes "etag") ⊎ IsPart (to_lower e) (codes "aborted")

-- A sidecar that keeps one component as Dapr documents it. A save without an etag overwrites; one with
-- an etag writes only where the etag is the current one, and is refused where it is not. Any call can
-- fail for another reason, and then changes nothing.
pub record KeepsState {C : Type 0} (to_lower : Text → Text) (client : DaprClient C) (name : Text)
    (holds : C → Contents) : Type 0 where
  pub reads :
      (k : Text) (meta : Dict Text) (c : C)
      → let out = client.get_state name k meta c in
        IsKept (holds c) (holds out.1) × ((out.0 ≡ ok (holds c k)) ⊎ ((e : Text) × (out.0 ≡ err e)))
  pub overwrites :
      (k v : Text) (meta : Dict Text) (c : C)
      → let out = client.save_state name k v meta c in
        ((out.0 ≡ none) × IsWritten k v (holds c) (holds out.1))
        ⊎ ((e : Text) × (out.0 ≡ some e)
            × ¬ SpeaksOfConflict to_lower e
            × IsKept (holds c) (holds out.1))
  pub compares :
      (k v etag : Text) (meta : Dict Text) (c : C)
      → let out = client.save_state_with_etag name k v etag meta c in
        ((out.0 ≡ none) × IsCurrent k etag (holds c) × IsWritten k v (holds c) (holds out.1))
        ⊎ ((e : Text) × (out.0 ≡ some e)
            × SpeaksOfConflict to_lower e
            × ¬ IsCurrent k etag (holds c)
            × IsKept (holds c) (holds out.1))
        ⊎ ((e : Text) × (out.0 ≡ some e)
            × ¬ SpeaksOfConflict to_lower e
            × IsKept (holds c) (holds out.1))
  pub deletes :
      (k : Text) (meta : Dict Text) (c : C)
      → let out = client.delete_state name k meta c in
        ((out.0 ≡ none) × IsErased k (holds c) (holds out.1))
        ⊎ ((e : Text) × (out.0 ≡ some e) × IsKept (holds c) (holds out.1))
