-- ===== src/Agent/State/Merge.antt =====
-- What `merge` leaves in each channel.
use go_ai.Prelude.{
  ◌≡◌, refl, ap, Option, none, some, [], ◌∷◌, arith, if◌then◌else◌, Option-cases, inl, inr,
}
use go_ai.Text.{Text, ◌==◌, eq_iff}
use go_ai.Dict.{Dict, lookup, insert, keys, lookup-insert, IsMap, lookup_of_Absent}
use go_ai.Value.{Value}
use go_ai.Agent.State.{State, Reducer, channel, clone, merge, written}

pub clone-eq : (s : State) → clone s ≡ s
unfolding clone
clone-eq [] = refl
clone-eq ((k, v) ∷ s) = rw (clone-eq s)

pub channel-insert :
    (k j : Text) (v : Value) (s : State)
    → channel j (insert k v s) ≡ (if k == j then v else channel j s)
unfolding channel
channel-insert k j v s = ground (arith, lookup-insert k j v s)

-- A reducer of the old value and the update, where there is one.
abbrev pub reduced : Option Reducer → Value → Value → Value
reduced none old v = v
reduced (some r) old v = r old v

-- What a channel holds after a merge: `old` where the updates do not name it.
abbrev pub merged : Dict Reducer → Text → Value → Option Value → Value
merged reducers k old none = old
merged reducers k old (some v) = reduced (lookup k reducers) old v

written-reduced :
    (reducers : Dict Reducer) (k : Text) (old v : Value)
    → written reducers k old v ≡ reduced (lookup k reducers) old v
unfolding written
written-reduced reducers k old v = elim (Option-cases (lookup k reducers)) [
  | inl missing ↦ rw (missing, written) refl
  | inr (r, found) ↦ rw (found, written) refl
]

-- Each channel that the updates name holds what its reducer makes of the old value and the update,
-- or the update itself where it has no reducer; every other channel is as it was.
pub channel-merge :
    (reducers : Dict Reducer) (k : Text) (updates dst : State)
    → IsMap updates
    → channel k (merge dst updates reducers).0
      ≡ merged reducers k (channel k dst) (lookup k updates)
unfolding merge lookup
channel-merge reducers k [] dst h = refl
channel-merge reducers k ((j, v) ∷ updates) dst h =
    let dst' = insert j (written reducers j (channel j dst) v) dst in
    ground (
      arith,
      eq_iff j k,
      channel-merge reducers k updates dst',
      lookup_of_Absent j updates h.0,
      written-reduced reducers j (channel j dst) v,
      channel-insert j k (written reducers j (channel j dst) v) dst,
    )

-- The report names the channels that were written, in the order of the writes.
pub merge-keys :
    (reducers : Dict Reducer) (updates dst : State) → (merge dst updates reducers).1 ≡ keys updates
unfolding merge
merge-keys reducers [] dst = refl
merge-keys reducers ((k, v) ∷ updates) dst =
    ap (λ ks. k ∷ ks)
      (merge-keys reducers updates (insert k (written reducers k (channel k dst) v) dst))
