-- ===== src/Registry/DaprStore/Tests.antt =====
-- The Dapr store over a sidecar whose component is a function from keys to items.
use go_ai.Prelude.{◌≡◌, Option, none, some, ok, if◌then◌else◌, ◌⊎◌}
use go_ai.Text.{Text, codes, ◌==◌}
use go_ai.Dict.{Dict}
use go_ai.Registry.Store.{Item}
use go_ai.Registry.DaprStore.{DaprClient}
use go_ai.Registry.DaprStore.Refines.{Contents, IsWritten, IsCurrent, IsKept, SpeaksOfConflict}

abbrev as_it_is : Text → Text
as_it_is t = t

-- Every write has the etag "1".
abbrev write : Text → Text → Contents → Contents
write k v h j = if k == j then some (record { value = v; etag = codes "1" }) else h j

abbrev erase : Text → Contents → Contents
erase k h j = if k == j then none else h j

abbrev mismatch : Text
mismatch = codes "etag mismatch"

abbrev compare : Text → Text → Text → Option Item → Contents → Option Text × Contents
compare k v etag none h = (some mismatch, h)
compare k v etag (some item) h =
    if item.etag == etag then (none, write k v h) else (some mismatch, h)

abbrev sidecar : DaprClient Contents
sidecar = record {
  get_state = λ n k meta h. (ok (h k), h);
  save_state = λ n k v meta h. (none, write k v h);
  save_state_with_etag = λ n k v etag meta h. compare k v etag (h k) h;
  delete_state = λ n k meta h. (none, erase k h);
}

abbrev same : Contents → Contents
same h = h

-- What the sidecar may answer to a save with an etag.
abbrev IsCompared : Text → Text → Text → Contents → Option Text × Contents → Type 0
IsCompared k v etag h out =
    ((out.0 ≡ none) × IsCurrent k etag h × IsWritten k v h out.1)
    ⊎ ((e : Text) × (out.0 ≡ some e)
        × SpeaksOfConflict as_it_is e
        × ¬ IsCurrent k etag h
        × IsKept h out.1)
    ⊎ ((e : Text) × (out.0 ≡ some e) × ¬ SpeaksOfConflict as_it_is e × IsKept h out.1)
