-- ===== src/Registry/Directory/Writers/Moves.antt =====
-- registry/registry.go: what a step of one writer does to the index.
use go_ai.Prelude.{
  ℕ, suc, ◌+◌, ◌≡◌, refl, sym, ap, ◌∙◌, subst, inl, inr, Option, none, List, [], ◌∷◌, ◌++◌, Result,
  ok, arith, Elem, Elem-append_left, Elem-append_right,
}
use go_ai.Text.{Text}
use go_ai.Registry.Store.{Memory, StateStore, etag_string, memory_store}
use go_ai.Registry.Directory.{
  Codec, RegistryError, add_name, load_index, write_index, Attempt, finished,
}
use go_ai.Registry.Directory.OnMemory.{load_index-eq}
use go_ai.Registry.Directory.Writers.{
  Phase, reading, writing, done, Move, reads, read_fails, writes, write_fails, conflicts, gives_up,
}
use go_ai.Registry.Directory.Writers.Invariant.{
  IsIndexCodec, is_done, HasAll, IsSteady, IsGrown, IsIndex, write_effect,
}

module _ (codec : Codec) (store_name team : Text) (law : IsIndexCodec codec) where
  abbrev store : StateStore Memory
  store = memory_store store_name

  Attempt_same :
      {e e' : Option RegistryError} {m m' : Memory}
      → ◌≡◌ {A = Attempt store codec} (finished e m) (finished e' m')
      → (e ≡ e') × (m ≡ m')
  Attempt_same h = (ground arith, ground arith)

  pub IsIndex-read :
      (m : Memory) (list : List Text) (v : ℕ)
      → IsIndex codec store_name team law m list v
      → load_index store codec team m ≡ (ok (list, etag_string (suc v)), m)
  IsIndex-read m list v index = load_index-eq codec store_name team m ∙ ap (λ r. (r, m)) index.0

  -- What a step of one writer comes to, seen from the index: its new state, and `e` for whether it made
  -- the writer done.
  abbrev pub IsKept : Text → Phase → Phase → Memory → List Text → ℕ → ℕ → Type 0
  IsKept n ph ph' m' list v d =
      (list' : List Text) × (v' : ℕ) × (e : ℕ) × (is_done ph' ≡ is_done ph + e)
      × IsIndex codec store_name team law m' list' v'
      × IsGrown list list' v v' e
      × IsSteady list' v' (d + e) n ph'

  still : (list : List Text) (v e : ℕ) → IsGrown list list v v e
  still list v e = ((λ x k. k), inl (refl, refl))

  read-IsKept :
      (n : Text) (left : ℕ) (seen : List Text) (etag : Text) (m m' : Memory) (list : List Text)
      (v d : ℕ)
      → ◌≡◌ {A = Result RegistryError (List Text × Text) × Memory}
          (ok (list, etag_string (suc v)), m)
          (ok (seen, etag), m')
      → IsIndex codec store_name team law m list v
      → IsSteady list v d n (reading (suc left))
      → IsKept n (reading (suc left)) (writing left seen etag) m' list v d
  read-IsKept n left seen etag m m' list v d h index steady =
      let k : ◌≡◌ {A = Result RegistryError (List Text × Text)} (ok (list, etag_string (suc v)))
          (ok (seen, etag)) =
        ap (λ r. r.0) h in
      let same : list ≡ seen = cc in
      let tagged : etag_string (suc v) ≡ etag = cc in
      (
        list,
        v,
        0,
        refl,
        subst (λ x. IsIndex codec store_name team law x list v) (ap (λ r. r.1) h) index,
        still list v 0,
        (
          v,
          sym tagged,
          omega arith,
          (λ k. sym same),
          (λ x k. subst (Elem x) (sym same) k),
          omega arith,
        ),
      )

  write-IsKept :
      (n : Text) (left : ℕ) (seen list : List Text) (u v d : ℕ) (etag : Text) (m m' : Memory)
      → write_index store codec team (etag_string (suc u)) (add_name n seen) m ≡ finished none m'
      → IsIndex codec store_name team law m list v
      → (u ≡ v → seen ≡ list)
      → HasAll list seen
      → IsKept n (writing left seen etag) done m' list v d
  write-IsKept n left seen list u v d etag m m' h index now has =
      elim (write_effect codec store_name team law n seen list u v m index now has) [
        | inl (kept, found) ↦ (
          list,
          v,
          1,
          refl,
          subst (λ x. IsIndex codec store_name team law x list v) (Attempt_same (sym kept ∙ h)).1
              index,
          still list v 1,
          found,
        )
        | inr (inl (refused, changed)) ↦ absurd (let k = sym refused ∙ h in cc)
        | inr (inr (m'', wrote, index')) ↦ (
          list ++ n ∷ [],
          suc v,
          1,
          refl,
          subst (λ x. IsIndex codec store_name team law x (list ++ n ∷ []) (suc v))
              (Attempt_same (sym wrote ∙ h)).1 index',
          ((λ x k. Elem-append_left x list (n ∷ []) k), inr (refl, refl)),
          Elem-append_right n list (n ∷ []) (inl refl),
        )
      ]

  pub Move-IsKept :
      (n : Text) (ph ph' : Phase) (m m' : Memory) (list : List Text) (v d : ℕ)
      → Move codec store_name team n ph m ph' m'
      → IsIndex codec store_name team law m list v
      → IsSteady list v d n ph
      → IsKept n ph ph' m' list v d
  Move-IsKept n ph ph' m m' list v d (reads {left} {list = seen} {etag} h) index steady =
      read-IsKept n left seen etag m m' list v d (sym (IsIndex-read m list v index) ∙ h) index
        steady
  Move-IsKept n ph ph' m m' list v d (read_fails h) index steady =
      absurd (let k = ap (λ r. r.0) (sym (IsIndex-read m list v index) ∙ h) in cc)
  Move-IsKept n ph ph' m m' list v d (writes {left} {list = seen} {etag} h) index
        (u, tagged, le, now, has, within) =
      write-IsKept n left seen list u v d etag m m'
        (ap (λ t. write_index store codec team t (add_name n seen) m) (sym tagged) ∙ h) index now
        has
  Move-IsKept n ph ph' m m' list v d (write_fails {list = seen} h) index
        (u, tagged, le, now, has, within) =
      let h' = ap (λ t. write_index store codec team t (add_name n seen) m) (sym tagged) ∙ h in
      elim (write_effect codec store_name team law n seen list u v m index now has) [
        | inl (kept, found) ↦ absurd (let k = (Attempt_same (sym kept ∙ h')).0 in cc)
        | inr (inl (refused, changed)) ↦ absurd (let k = sym refused ∙ h' in cc)
        | inr (inr (m'', wrote, index')) ↦ absurd (let k = (Attempt_same (sym wrote ∙ h')).0 in cc)
      ]
  Move-IsKept n ph ph' m m' list v d (conflicts {list = seen} h) index
        (u, tagged, le, now, has, within) =
      let h' = ap (λ t. write_index store codec team t (add_name n seen) m) (sym tagged) ∙ h in
      elim (write_effect codec store_name team law n seen list u v m index now has) [
        | inl (kept, found) ↦ absurd (let k = sym kept ∙ h' in cc)
        | inr (inl (refused, changed)) ↦
            let same : m ≡ m' = (let k = sym refused ∙ h' in cc) in
            (
              list,
              v,
              0,
              refl,
              subst (λ x. IsIndex codec store_name team law x list v) same index,
              still list v 0,
              omega arith,
            )
        | inr (inr (m'', wrote, index')) ↦ absurd (let k = sym wrote ∙ h' in cc)
      ]
  Move-IsKept n ph ph' m m' list v d gives_up index steady =
      (list, v, 0, refl, index, still list v 0, omega arith)
