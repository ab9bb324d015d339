-- ===== src/Agent/State.antt =====
-- agent/state.go: the working memory of a run, and how a node's updates are merged into it.
pub mod Merge
use go_ai.Prelude.{◌≡◌, Bool, Option, none, some, List, [], ◌∷◌, Result, ok, err, if◌then◌else◌}
use go_ai.Text.{Text}
use go_ai.Dict.{Dict, lookup, insert}
use go_ai.Value.{Value, null, array, nil, cons, Items, append}

-- A nil map and an empty one are one value here: each use of a State (index, range, Clone) treats
-- them alike.
abbrev pub State : Type 0
State = Dict Value

-- `s[k]` of a `map[string]any`: nil where the key is missing.
unfoldable pub channel : Text → State → Value
unfolding lookup
channel k s = elim (lookup k s) [ none ↦ null | some v ↦ v ]

-- The argument of `ToState`, by the cases of its type switch; `J` stands for the values that only
-- the JSON encoder looks into.
pub data Input (J : Type 0) : Type 0 where
  untyped_nil : Input J
  state : State → Input J
  other : J → Input J

pub data StateError : Type 0 where
  encode_state decode_state : Text → StateError

-- `json.Marshal` of a value, and `json.Unmarshal` into a State, are the two arguments.
module _ {J : Type 0} (marshal : J → Result Text Text) (unmarshal : Text → Result Text State) where
  unfoldable pub to_state : Input J → Result StateError State
  to_state untyped_nil = ok []
  to_state (state s) = ok s
  to_state (other v) = elim (marshal v) [
    | err e ↦ err (encode_state e)
    | ok b ↦ elim (unmarshal b) [ err e ↦ err (decode_state e) | ok m ↦ ok m ]
  ]

-- `State.Into`: the same two steps the other way, into a caller's value of type `J`.
module _ {J : Type 0} (marshal : State → Result Text Text) (unmarshal : Text → Result Text J) where
  unfoldable pub into : State → Result StateError J
  into s = elim (marshal s) [
    | err e ↦ err (encode_state e)
    | ok b ↦ elim (unmarshal b) [ err e ↦ err (decode_state e) | ok v ↦ ok v ]
  ]

-- existing → update → combined.
abbrev pub Reducer : Type 0
Reducer = Value → Value → Value

-- The `out` of `AppendReducer` after its first half.
unfoldable pub existing_items : Value → Items
existing_items null = nil
existing_items (array s) = s
existing_items v = cons v nil

-- What the second half appends.
unfoldable pub update_items : Value → Items
update_items (array s) = s
update_items null = nil
update_items v = cons v nil

unfoldable pub append_reducer : Reducer
unfolding existing_items update_items
append_reducer existing update = array (append (existing_items existing) (update_items update))

unfoldable pub clone : State → State
clone [] = []
clone ((k, v) ∷ s) = (k, v) ∷ clone s

-- What the loop body of `merge` writes for the update `v`, where `dst[k]` is `old`.
unfoldable pub written : Dict Reducer → Text → Value → Value → Value
written reducers k old v = elim (lookup k reducers) [ some r ↦ r old v | none ↦ v ]

-- The state that `merge` leaves, and the channels that it reports.
unfoldable pub merge : State → State → Dict Reducer → State × List Text
unfolding written
merge dst [] reducers = (dst, [])
merge dst ((k, v) ∷ updates) reducers =
    let rest = merge (insert k (written reducers k (channel k dst) v) dst) updates reducers in
    (rest.0, k ∷ rest.1)
