-- ===== src/Registry/Store/Writes.antt =====
-- registry/store.go: what a write to the in-process store leaves for the reads.
use go_ai.Prelude.{
  ◌+◌, ◌≡◌, ◌≢◌, sym, ap, ◌∙◌, false, ◌⊎◌, inl, inr, none, some, [], arith, if◌then◌else◌,
}
use go_ai.Text.{Text, ◌==◌, eq_iff, eq_refl, eq_false}
use go_ai.Dict.{insert, lookup-insert, lookup-remove}
use go_ai.Agent.Graph.{is_empty}
use go_ai.Registry.Store.Digits.{etag_string-ne-suc}
use go_ai.Registry.Store.{
  etag_conflict, Memory, version_at, etag_string, memory_get, memory_set, memory_delete,
}

-- The store after a write.
abbrev pub written : Text → Text → Memory → Memory
written k v m = record {
  values = insert k v m.values;
  versions = insert k (version_at k m.versions + 1) m.versions;
}

pub memory_get-written :
    (k j v : Text) (m : Memory)
    → memory_get j (written k v m) ≡ (
        if k == j
        then some (record { value = v; etag = etag_string (version_at k m.versions + 1) })
        else memory_get j m)
unfolding memory_get
memory_get-written k j v m = ground (
  arith,
  eq_iff k j,
  lookup-insert k j v m.values,
  lookup-insert k j (version_at k m.versions + 1) m.versions,
)

pub memory_get-delete :
    (k j : Text) (m : Memory)
    → memory_get j (memory_delete k m) ≡ (if k == j then none else memory_get j m)
unfolding memory_get memory_delete
memory_get-delete k j m =
    ground (arith, eq_iff k j, lookup-remove k j m.values, lookup-remove k j m.versions)

-- An unconditional write, and one with the etag of the value that is there, succeeds.
pub memory_set-ok :
    (k v etag : Text) (m : Memory)
    → (etag ≡ []) ⊎ (etag ≡ etag_string (version_at k m.versions))
    → memory_set k v etag m ≡ (none, written k v m)
unfolding memory_set
memory_set-ok k v etag m (inl e) = rw e
memory_set-ok k v etag m (inr e) = ground (arith, eq_refl etag)

pub version_at-written :
    (k v : Text) (m : Memory) → version_at k (written k v m).versions ≡ version_at k m.versions + 1
version_at-written k v m =
    ground (arith, lookup-insert k k (version_at k m.versions + 1) m.versions, eq_refl k)

-- A write with the etag from before another write of the key is refused.
pub memory_set-conflict :
    (k v w etag : Text) (m : Memory)
    → is_empty etag ≡ false
    → etag ≡ etag_string (version_at k m.versions)
    → memory_set k w etag (written k v m) ≡ (some etag_conflict, written k v m)
unfolding memory_set
memory_set-conflict k v w etag m full same =
    let here : etag_string (version_at k m.versions) ≢ [] =
      λ e. cc (full, ap is_empty (same ∙ e)) in
    let other : etag_string (version_at k m.versions + 1) ≢ etag =
      λ e. etag_string-ne-suc (version_at k m.versions) here (sym same ∙ sym e) in
    rw (
      full,
      version_at-written k v m,
      eq_false (etag_string (version_at k m.versions + 1)) etag other,
    )
