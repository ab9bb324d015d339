-- ===== src/Registry/Store.antt =====
-- registry/store.go: the contract of a state store, and the in-process `MemoryStore`.
pub mod Writes
pub mod Digits
use Prim.Native.Nat.{◌/◌, ◌%◌}
use go_ai.Prelude.{
  ℕ, zero, suc, ◌+◌, Bool, true, false, not, ◌&&◌, Option, none, some, List, [], ◌∷◌, ◌++◌, Result,
  ok, err, ltb, if◌then◌else◌,
}
use go_ai.Text.{Text, codes, ◌==◌}
use go_ai.Dict.{Dict, lookup, insert, remove}
use go_ai.Agent.Graph.{is_empty}

-- `ErrETagConflict`, or any other failure with its text.
pub data StoreError : Type 0 where
  etag_conflict : StoreError
  failure : Text → StoreError

-- What `Get` returns for a key that is found.
pub record Item : Type 0 where
  pub value : Text
  pub etag : Text

-- The interface `StateStore`, over a state `S` that each call may change: other processes write to
-- the store too. Values are bytes; the map of texts that the operations take is the metadata. A
-- write answers with its error, if any.
pub record StateStore (S : Type 0) : Type 0 where
  pub name : Text
  pub get : Text → Dict Text → S → Result StoreError (Option Item) × S
  pub set : Text → Text → Text → Dict Text → S → Option StoreError × S
  pub delete : Text → Dict Text → S → Option StoreError × S

-- `strconv.Itoa` of a number that is not negative, with fuel for its digits.
unfoldable pub digits_from : ℕ → ℕ → Text
digits_from zero v = []
digits_from (suc f) v =
    let high = digits_from f (v / 10) in
    if ltb v 10 then (b'0' + v) ∷ [] else high ++ (b'0' + v % 10) ∷ []

unfoldable pub itoa : ℕ → Text
unfolding digits_from
itoa v = digits_from (suc v) v

unfoldable pub etag_string : ℕ → Text
unfolding itoa
etag_string zero = []
etag_string (suc v) = itoa (suc v)

-- The fields `data` and `etag`; `name` is the store's.
pub record Memory : Type 0 where
  pub values : Dict Text
  pub versions : Dict ℕ

abbrev pub version_at : Text → Dict ℕ → ℕ
version_at k m = elim (lookup k m) [ none ↦ 0 | some v ↦ v ]

unfoldable pub memory_get : Text → Memory → Option Item
memory_get key m = elim (lookup key m.values) [
  | none ↦ none
  | some v ↦ some (record { value = v; etag = etag_string (version_at key m.versions) })
]

unfoldable pub memory_set : Text → Text → Text → Memory → Option StoreError × Memory
memory_set key value etag m =
    if not (is_empty etag) && not (etag_string (version_at key m.versions) == etag)
    then (some etag_conflict, m)
    else (
      none,
      record {
        values = insert key value m.values;
        versions = insert key (version_at key m.versions + 1) m.versions;
      },
    )

unfoldable pub memory_delete : Text → Memory → Memory
memory_delete key m = record { values = remove key m.values; versions = remove key m.versions }

unfoldable pub store_name : Text → Text
store_name name = if is_empty name then codes "memory" else name

abbrev pub empty_memory : Memory
empty_memory = record { values = []; versions = [] }

-- `NewMemoryStore` seen through the interface.
unfoldable pub memory_store : Text → StateStore Memory
unfolding memory_get memory_set memory_delete store_name
memory_store name = record {
  name = store_name name;
  get = λ key meta m. (ok (memory_get key m), m);
  set = λ key value etag meta m. memory_set key value etag m;
  delete = λ key meta m. (none, memory_delete key m);
}
