-- ===== src/Registry/Directory/Writers/Invariant.antt =====
-- registry/registry.go: what holds at every moment of concurrent registrations.
use go_ai.Prelude.{
  ℕ, suc, ◌+◌, ◌≤◌, ◌≡◌, ◌≢◌, refl, sym, ap, ◌∙◌, ◌⊎◌, inl, inr, true, false, false≢true, none,
  some, List, [], ◌∷◌, ◌++◌, ok, arith, Bool-cases, Elem,
}
use go_ai.Text.{Text, contains, contains_iff, ◌==◌, eq_iff}
use go_ai.Agent.Graph.{is_empty}
use go_ai.Registry.Store.{
  Memory, StateStore, version_at, etag_string, etag_conflict, memory_set, memory_store,
}
use go_ai.Registry.Store.Writes.{written, memory_set-ok, version_at-written}
use go_ai.Registry.Store.Digits.{etag_string-injective, etag_string-nonempty}
use go_ai.Registry.Directory.{
  Codec, index_key, add_name, write_index, finished, retry, max_etag_attempts,
}
use go_ai.Registry.Directory.OnMemory.{
  indexed, write_index-kept, write_index-written, write_index-conflict, indexed-written,
}
use go_ai.Registry.Directory.Writers.{Phase, reading, writing, done, failed, Writer}

-- What the JSON of an index is good for: it is not empty, and reads back.
pub record IsIndexCodec (codec : Codec) : Type 0 where
  pub round_trip :
      (ns : List Text)
      → (blob : Text) × (codec.encode_index ns ≡ ok blob)
        × (is_empty blob ≡ false)
        × (codec.decode_index blob ≡ ok (some ns))

-- The writers that are done.
abbrev pub is_done : Phase → ℕ
is_done done = 1
is_done (reading left) = 0
is_done (writing left list etag) = 0
is_done failed = 0

abbrev pub count_done : List Writer → ℕ
count_done [] = 0
count_done (w ∷ ws) = is_done w.phase + count_done ws

-- `later` has all the names of `earlier`.
abbrev pub HasAll : List Text → List Text → Type 0
HasAll later earlier = (n : Text) → Elem n earlier → Elem n later

-- What holds of a writer while the index is `list`, at version `v` (counted from 1 on), and `d` writers
-- are done: a conflict that it met is behind one of these.
abbrev pub IsSteady : (list : List Text) (v d : ℕ) → Text → Phase → Type 0
IsSteady list v d n (reading left) = max_etag_attempts ≤ left + d
IsSteady list v d n (writing left seen etag) =
    (u : ℕ) × (etag ≡ etag_string (suc u))
    × (u ≤ v)
    × (u ≡ v → seen ≡ list)
    × HasAll list seen
    × (max_etag_attempts + v ≤ left + 1 + d + u)
IsSteady list v d n done = Elem n list
IsSteady list v d n failed = max_etag_attempts ≤ d

-- The index has become `list'` at version `v'` by a step that makes `d` writers done.
abbrev pub IsGrown : (list list' : List Text) (v v' d : ℕ) → Type 0
IsGrown list list' v v' d =
    HasAll list' list × (((v' ≡ v) × (list' ≡ list)) ⊎ ((v' ≡ suc v) × (d ≡ 1)))

pub IsSteady-grown :
    (list list' : List Text) (v v' d e : ℕ) (n : Text) (ph : Phase)
    → IsGrown list list' v v' e
    → IsSteady list v d n ph
    → IsSteady list' v' (d + e) n ph
IsSteady-grown list list' v v' d e n (reading left) g h = omega arith
IsSteady-grown list list' v v' d e n (writing left seen etag) (more, inl (same_v, same))
      (u, tagged, le, now, has, within) =
    (
      u,
      tagged,
      omega arith,
      (λ k. now (k ∙ same_v) ∙ sym same),
      (λ x m. more x (has x m)),
      omega arith,
    )
IsSteady-grown list list' v v' d e n (writing left seen etag) (more, inr (next, one))
      (u, tagged, le, now, has, within) =
    (u, tagged, omega arith, (λ k. absurd (omega arith)), (λ x m. more x (has x m)), omega arith)
IsSteady-grown list list' v v' d e n done (more, g) h = more n h
IsSteady-grown list list' v v' d e n failed g h = omega arith

module _ (codec : Codec) (store_name team : Text) (law : IsIndexCodec codec) where
  abbrev store : StateStore Memory
  store = memory_store store_name

  memory_set_refused :
      (k blob : Text) (u v : ℕ) (m : Memory)
      → version_at k m.versions ≡ suc v
      → (etag_string (suc v) == etag_string (suc u)) ≡ false
      → memory_set k blob (etag_string (suc u)) m ≡ (some etag_conflict, m)
  unfolding memory_set
  memory_set_refused k blob u v m version other = rw (etag_string-nonempty u, version, other) refl

  -- The index as a reader finds it.
  abbrev pub IsIndex : Memory → List Text → ℕ → Type 0
  IsIndex m list v =
      (indexed codec store_name team m ≡ ok (list, etag_string (suc v)))
      × (version_at (index_key team) m.versions ≡ suc v)

  -- What a write does: it conflicts exactly where the index has changed since it was read.
  pub write_effect :
      (n : Text) (seen list : List Text) (u v : ℕ) (m : Memory)
      → IsIndex m list v
      → (u ≡ v → seen ≡ list)
      → HasAll list seen
      → ((write_index store codec team (etag_string (suc u)) (add_name n seen) m ≡ finished none m)
          × Elem n list)
        ⊎ (((write_index store codec team (etag_string (suc u)) (add_name n seen) m ≡ retry m)
              × (u ≢ v))
            ⊎ ((m' : Memory) × (write_index store codec team
                    (etag_string (suc u))
                    (add_name n seen)
                    m
                  ≡ finished none m')
                × IsIndex m' (list ++ n ∷ []) (suc v)))
  unfolding add_name
  write_effect n seen list u v m (index, version) now has = elim (Bool-cases (contains n seen)) [
    | inl old ↦ inl (
      rw old (write_index-kept codec store_name team (etag_string (suc u)) (seen, false) m refl),
      has n ((contains_iff n seen).0 old),
    )
    | inr new ↦
        let key = index_key team in
        let (blob, encoded, full, decoded) = law.round_trip (seen ++ n ∷ []) in
        elim (Bool-cases (etag_string (suc v) == etag_string (suc u))) [
          | inr other ↦ inr (
              inl (
                rw new (
                    write_index-conflict codec store_name team (etag_string (suc u)) blob
                      (seen ++ n ∷ [], true) m refl encoded
                      (memory_set_refused key blob u v m version other)),
                λ same. false≢true (
                    sym other
                    ∙ (eq_iff (etag_string (suc v)) (etag_string (suc u))).1
                        (ap (λ x. etag_string (suc x)) (sym same))),
              ))
          | inl same ↦
              let at_v : u ≡ v =
                etag_string-injective u v
                  (sym ((eq_iff (etag_string (suc v)) (etag_string (suc u))).0 same)) in
              let m' = written key blob m in
              let next : version_at key m.versions + 1 ≡ suc (suc v) = omega (arith, version) in
              inr (
                inr (
                  m',
                  rw new (
                      write_index-written codec store_name team (etag_string (suc u)) blob
                        (seen ++ n ∷ [], true) m refl encoded
                        (memory_set-ok key blob (etag_string (suc u)) m (
                          inr
                            (ap (λ x. etag_string (suc x)) at_v ∙ ap etag_string (sym version))))),
                  (
                    indexed-written codec store_name team blob m (seen ++ n ∷ []) full decoded
                        ∙ ap (λ l. ok (l ++ n ∷ [], etag_string (version_at key m.versions + 1)))
                            (now at_v)
                        ∙ ap (λ x. ok (list ++ n ∷ [], etag_string x)) next,
                    version_at-written key blob m ∙ next,
                  ),
                ))
        ]
  ]
