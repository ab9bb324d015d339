-- ===== src/Registry/DaprStore.antt =====
-- registry/daprstore.go: the state store over a Dapr client, which is a parameter.
pub mod Refines
mod Tests
use go_ai.Prelude.{
  Bool, true, false, ◌||◌, Option, none, some, [], ◌∷◌, Result, ok, err, if◌then◌else◌,
}
use go_ai.Text.{Text, codes, includes}
use go_ai.Dict.{Dict}
use go_ai.Agent.Graph.{is_empty}
use go_ai.Registry.Store.{StoreError, etag_conflict, failure, Item, StateStore}

-- The four calls of the client, on a state `C`; an error is its text. A missing key is answered by
-- none or by an item with an empty value.
pub record DaprClient (C : Type 0) : Type 0 where
  pub get_state : Text → Text → Dict Text → C → Result Text (Option Item) × C
  pub save_state : Text → Text → Text → Dict Text → C → Option Text × C
  pub save_state_with_etag : Text → Text → Text → Text → Dict Text → C → Option Text × C
  pub delete_state : Text → Text → Dict Text → C → Option Text × C

-- `strings.ToLower` is an argument.
unfoldable pub is_etag_conflict : (Text → Text) → Text → Bool
unfolding includes
is_etag_conflict to_lower e =
    includes (to_lower e) (codes "etag") || includes (to_lower e) (codes "aborted")

unfoldable pub stored_item : Option Item → Option Item
stored_item none = none
stored_item (some item) = if is_empty item.value then none else some item

unfoldable pub store_error : (Text → Text) → Option Text → Option StoreError
unfolding is_etag_conflict
store_error to_lower none = none
store_error to_lower (some e) =
    if is_etag_conflict to_lower e then some etag_conflict else some (failure e)

module _ {C : Type 0} (to_lower : Text → Text) (client : DaprClient C) (name : Text) where
  unfoldable pub dapr_get : Text → Dict Text → C → Result StoreError (Option Item) × C
  unfolding stored_item
  dapr_get key meta c =
      let (answer, c') = client.get_state name key meta c in
      elim answer [ err e ↦ (err (failure e), c') | ok item ↦ (ok (stored_item item), c') ]

  unfoldable pub dapr_set : Text → Text → Text → Dict Text → C → Option StoreError × C
  unfolding store_error
  dapr_set key value etag meta c =
      let (answer, c') =
        if is_empty etag
        then client.save_state name key value meta c
        else client.save_state_with_etag name key value etag meta c in
      (store_error to_lower answer, c')

  abbrev plain_failure : Option Text → Option StoreError
  plain_failure none = none
  plain_failure (some e) = some (failure e)

  unfoldable pub dapr_delete : Text → Dict Text → C → Option StoreError × C
  dapr_delete key meta c =
      let (answer, c') = client.delete_state name key meta c in (plain_failure answer, c')

  -- `NewDaprStore` seen through the interface.
  unfoldable pub dapr_store : StateStore C
  unfolding dapr_get dapr_set dapr_delete
  dapr_store = record { name = name; get = dapr_get; set = dapr_set; delete = dapr_delete }
