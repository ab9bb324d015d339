-- ===== src/Registry/Directory/Writers/Progress.antt =====
-- registry/registry.go: concurrent registrations come to an end, and none is given up too early.
use go_ai.Prelude.{
  length, ltb, ℕ, zero, suc, ◌+◌, ◌≤◌, ◌≡◌, refl, ap, ◌∙◌, subst, ◌⊎◌, inl, inr, List, [], ◌∷◌, ok,
  arith, Bool-cases, Elem,
}
use go_ai.Text.{Text}
use go_ai.Registry.Store.{Memory, StateStore, etag_string, memory_store}
use go_ai.Registry.Directory.{Codec, add_name, write_index, max_etag_attempts}
use go_ai.Registry.Directory.Writers.{
  Phase, reading, writing, done, failed, Writer, Move, reads, read_fails, writes, write_fails,
  conflicts, gives_up, Step, this_one, later_one, Runs, at_rest, after,
}
use go_ai.Registry.Directory.Writers.Invariant.{
  IsIndexCodec, count_done, HasAll, IsSteady, IsIndex, write_effect,
}
use go_ai.Registry.Directory.Writers.{starting}
use go_ai.Registry.Directory.{list_names}
use go_ai.Registry.Directory.Writers.Moves.{IsIndex-read}
use go_ai.Registry.Directory.Writers.Coherent.{
  AllSteady, IsCoherent-Runs, starting-IsCoherent, registrations_indexed, IsListed, AllListed,
}
use go_ai.Registry.Directory.Writers.Counts.{
  steps_left, all_steps_left, names_of, step_bound, starting-steps, starting-names, starting-length,
  count_done-le, AllDone, NoneFailed, all_counted, AllDone-unfailed,
}

module _ (codec : Codec) (store_name team : Text) (law : IsIndexCodec codec) where
  abbrev store : StateStore Memory
  store = memory_store store_name

  Move-counts :
      (n : Text) (ph ph' : Phase) (m m' : Memory)
      → Move codec store_name team n ph m ph' m'
      → steps_left ph' + 1 ≤ steps_left ph
  Move-counts n ph ph' m m' (reads h) = omega arith
  Move-counts n ph ph' m m' (read_fails h) = omega arith
  Move-counts n ph ph' m m' (writes h) = omega arith
  Move-counts n ph ph' m m' (write_fails h) = omega arith
  Move-counts n ph ph' m m' (conflicts h) = omega arith
  Move-counts n ph ph' m m' gives_up = omega arith

  Step-counts :
      {ws ws' : List Writer} {m m' : Memory}
      → Step codec store_name team ws m ws' m'
      → (all_steps_left ws' + 1 ≤ all_steps_left ws)
        × (names_of ws' ≡ names_of ws)
        × (length ws' ≡ length ws)
  Step-counts {m} {m'} (this_one {n} {ph} {ph'} move) =
      let less = Move-counts n ph ph' m m' move in (omega arith, refl, refl)
  Step-counts (later_one {w} step) =
      let (less, named, long) = Step-counts step in
      (omega arith, ap (λ ns. w.name ∷ ns) named, ap suc long)

  Runs-count :
      {steps : ℕ} {ws ws' : List Writer} {m m' : Memory}
      → Runs codec store_name team steps ws m ws' m'
      → (steps + all_steps_left ws' ≤ all_steps_left ws)
        × (names_of ws' ≡ names_of ws)
        × (length ws' ≡ length ws)
  Runs-count at_rest = (omega arith, refl, refl)
  Runs-count (after step more) =
      let (less, named, long) = Step-counts step in
      let (less', named', long') = Runs-count more in (omega arith, named' ∙ named, long' ∙ long)

  -- A writer that is not at its end has a step.
  Move-enabled :
      (n : Text) (ph : Phase) (m : Memory) (list : List Text) (v d : ℕ)
      → IsIndex codec store_name team law m list v
      → IsSteady list v d n ph
      → (ph ≡ done)
        ⊎ ((ph ≡ failed)
            ⊎ ((ph' : Phase) × (m' : Memory) × Move codec store_name team n ph m ph' m'))
  Move-enabled n (reading zero) m list v d index steady = inr (inr (failed, m, gives_up))
  Move-enabled n (reading (suc left)) m list v d index steady = inr (
      inr (
        writing left list (etag_string (suc v)),
        m,
        reads (IsIndex-read codec store_name team law m list v index),
      ))
  Move-enabled n (writing left seen etag) m list v d index (u, tagged, le, now, has, within) =
      let same = ap (λ t. write_index store codec team t (add_name n seen) m) tagged in
      elim (write_effect codec store_name team law n seen list u v m index now has) [
        | inl (kept, found) ↦ inr (inr (done, m, writes (same ∙ kept)))
        | inr (inl (refused, changed)) ↦ inr (inr (reading left, m, conflicts (same ∙ refused)))
        | inr (inr (m', wrote, index')) ↦ inr (inr (done, m', writes (same ∙ wrote)))
      ]
  Move-enabled n done m list v d index steady = inl refl
  Move-enabled n failed m list v d index steady = inr (inl refl)

  Step-enabled :
      (ws : List Writer) (m : Memory) (list : List Text) (v d : ℕ)
      → IsIndex codec store_name team law m list v
      → AllSteady codec store_name team law list v d ws
      → NoneFailed ws
      → AllDone ws ⊎ ((ws' : List Writer) × (m' : Memory) × Step codec store_name team ws m ws' m')
  Step-enabled [] m list v d index steady fine = inl tt
  Step-enabled (w ∷ ws) m list v d index steady fine =
      elim (Move-enabled w.name w.phase m list v d index steady.0) [
        | inr (inl broken) ↦ absurd (fine.0 broken)
        | inr (inr (ph', m', move)) ↦
            inr ((record { name = w.name; phase = ph' }) ∷ ws, m', this_one move)
        | inl over ↦ elim (Step-enabled ws m list v d index steady.1 fine.1) [
          | inl rest ↦ inl (over, rest)
          | inr (ws', m', step) ↦ inr (w ∷ ws', m', later_one step)
        ]
      ]

  few_unfailed :
      (list : List Text) (v d : ℕ) (ws : List Writer)
      → d + 1 ≤ max_etag_attempts
      → AllSteady codec store_name team law list v d ws
      → NoneFailed ws
  few_unfailed list v d [] few h = tt
  few_unfailed list v d (w ∷ ws) few h = (
    (λ e. let k = subst (IsSteady list v d w.name) e h.0 in omega arith),
    few_unfailed list v d ws few h.1,
  )

  All-indexed :
      (list : List Text) (ws : List Writer)
      → AllDone ws
      → AllListed list ws
      → HasAll list (names_of ws)
  All-indexed list [] over h n m = absurd m
  All-indexed list (w ∷ ws) over h n (inl e) =
      subst (λ x. Elem x list) e (subst (IsListed list w.name) over.0 h.0)
  All-indexed list (w ∷ ws) over h n (inr m) = All-indexed list ws over.1 h.1 n m

  -- At most ten registrations update an index that exists, their steps in any order. None of them ever
  -- runs out of attempts; they take at most 21 steps each; and at every moment either a next step is
  -- possible, or all of them are done and all their names are in the index.
  pub registrations_finish :
      (base names : List Text) (v steps : ℕ) (m m' : Memory) (ws : List Writer)
      → IsIndex codec store_name team law m base v
      → length names ≤ max_etag_attempts
      → Runs codec store_name team steps (starting names) m ws m'
      → (steps ≤ step_bound names)
        × NoneFailed ws
        × (((ws' : List Writer) × (m'' : Memory) × Step codec store_name team ws m' ws' m'')
            ⊎ (AllDone ws
                × (list : List Text) × ((list_names store codec team m').0 ≡ ok list)
                × HasAll list names))
  registrations_finish base names v steps m m' ws index few runs =
      let (counted, named, long) = Runs-count runs in
      let (list, v', index', more, steady) =
        IsCoherent-Runs codec store_name team law base runs
          (starting-IsCoherent codec store_name team law base names v m index) in
      let within = starting-length names in
      let most = count_done-le ws in
      let fine : NoneFailed ws = elim (Bool-cases (ltb (count_done ws) max_etag_attempts)) [
        | inl low ↦ few_unfailed list v' (count_done ws) ws (ground arith) steady
        | inr high ↦ AllDone-unfailed ws (all_counted ws (ground arith))
      ] in
      (
        (let bound = starting-steps names in omega arith),
        fine,
        elim (Step-enabled ws m' list v' (count_done ws) index' steady fine) [
          | inr next ↦ inl next
          | inl over ↦
              let (list', read, has, each) =
                registrations_indexed codec store_name team law base names v steps m m' ws index
                  runs in
              inr (
                over,
                list',
                read,
                subst (HasAll list') (named ∙ starting-names names)
                    (All-indexed list' ws over each),
              )
        ],
      )
