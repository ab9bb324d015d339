-- ===== src/Registry/Directory/Writers/Coherent.antt =====
-- registry/registry.go: what holds of all the writers of an index at every moment.
use go_ai.Prelude.{ℕ, suc, ◌+◌, ◌≡◌, sym, subst, List, [], ◌∷◌, ok, arith, Elem, All}
use go_ai.Text.{Text}
use go_ai.Registry.Store.{Memory, StateStore, etag_string, memory_store}
use go_ai.Registry.Directory.{Codec}
use go_ai.Registry.Directory.Writers.{
  done, Writer, Step, this_one, later_one, Runs, at_rest, after, Phase, reading, writing, failed,
}
use go_ai.Registry.Directory.Writers.Invariant.{
  IsIndexCodec, count_done, HasAll, IsSteady, IsGrown, IsSteady-grown, IsIndex,
}
use go_ai.Registry.Directory.Writers.Moves.{Move-IsKept}
use go_ai.Registry.Directory.Writers.{starting}
use go_ai.Registry.Directory.{list_names}
use go_ai.Registry.Directory.OnMemory.{list_names-eq}

-- A writer that is done has its name in the list.
abbrev pub IsListed : List Text → Text → Phase → Type 0
IsListed list n done = Elem n list
IsListed list n (reading left) = Unit
IsListed list n (writing left seen etag) = Unit
IsListed list n failed = Unit

abbrev pub AllListed : List Text → List Writer → Type 0
AllListed list ws = All (λ (w : Writer). IsListed list w.name w.phase) ws

module _ (codec : Codec) (store_name team : Text) (law : IsIndexCodec codec) where
  abbrev store : StateStore Memory
  store = memory_store store_name

  -- What holds of all the writers and the index.
  abbrev pub IsCoherent : List Text → List Writer → Memory → Type 0
  IsCoherent base ws m =
      (list : List Text) × (v : ℕ) × IsIndex codec store_name team law m list v
      × HasAll list base
      × All (λ (w : Writer). IsSteady list v (count_done ws) w.name w.phase) ws

  abbrev pub AllSteady : List Text → (v d : ℕ) → List Writer → Type 0
  AllSteady list v d ws = All (λ (w : Writer). IsSteady list v d w.name w.phase) ws

  AllSteady-grown :
      (list list' : List Text) (v v' d e : ℕ) (ws : List Writer)
      → IsGrown list list' v v' e
      → AllSteady list v d ws
      → AllSteady list' v' (d + e) ws
  AllSteady-grown list list' v v' d e [] g h = tt
  AllSteady-grown list list' v v' d e (w ∷ ws) g h = (
    IsSteady-grown list list' v v' d e w.name w.phase g h.0,
    AllSteady-grown list list' v v' d e ws g h.1,
  )

  Step-kept :
      {ws ws' : List Writer} {m m' : Memory} (list : List Text) (v d : ℕ)
      → Step codec store_name team ws m ws' m'
      → IsIndex codec store_name team law m list v
      → AllSteady list v d ws
      → (list' : List Text) × (v' : ℕ) × (e : ℕ) × (count_done ws' ≡ count_done ws + e)
        × IsIndex codec store_name team law m' list' v'
        × IsGrown list list' v v' e
        × AllSteady list' v' (d + e) ws'
  Step-kept {m} {m'} list v d (this_one {n} {ph} {ph'} {ws} move) index (steady, rest) =
      let (list', v', e, counted, index', grown, steady') =
        Move-IsKept codec store_name team law n ph ph' m m' list v d move index steady in
      (
        list',
        v',
        e,
        omega arith,
        index',
        grown,
        (steady', AllSteady-grown list list' v v' d e ws grown rest),
      )
  Step-kept list v d (later_one {w} step) index (steady, rest) =
      let (list', v', e, counted, index', grown, rest') = Step-kept list v d step index rest in
      (
        list',
        v',
        e,
        omega arith,
        index',
        grown,
        (IsSteady-grown list list' v v' d e w.name w.phase grown steady, rest'),
      )

  IsCoherent-Step :
      {ws ws' : List Writer} {m m' : Memory} (base : List Text)
      → Step codec store_name team ws m ws' m'
      → IsCoherent base ws m
      → IsCoherent base ws' m'
  IsCoherent-Step {ws} {ws'} base step (list, v, index, more, steady) =
      let (list', v', e, counted, index', grown, steady') =
        Step-kept list v (count_done ws) step index steady in
      (
        list',
        v',
        index',
        (λ x k. grown.0 x (more x k)),
        subst (λ d. AllSteady list' v' d ws') (sym counted) steady',
      )

  pub IsCoherent-Runs :
      {steps : ℕ} {ws ws' : List Writer} {m m' : Memory} (base : List Text)
      → Runs codec store_name team steps ws m ws' m'
      → IsCoherent base ws m
      → IsCoherent base ws' m'
  IsCoherent-Runs base at_rest h = h
  IsCoherent-Runs base (after step more) h = IsCoherent-Runs base more (IsCoherent-Step base step h)

  starting-steady :
      (list : List Text) (v d : ℕ) (names : List Text) → AllSteady list v d (starting names)
  starting-steady list v d [] = tt
  starting-steady list v d (n ∷ names) = (omega arith, starting-steady list v d names)

  pub starting-IsCoherent :
      (base names : List Text) (v : ℕ) (m : Memory)
      → IsIndex codec store_name team law m base v
      → IsCoherent base (starting names) m
  starting-IsCoherent base names v m index =
      (base, v, index, (λ x k. k), starting-steady base v (count_done (starting names)) names)

  IsSteady-IsListed :
      (list : List Text) (v d : ℕ) (n : Text) (ph : Phase)
      → IsSteady list v d n ph
      → IsListed list n ph
  IsSteady-IsListed list v d n (reading left) h = tt
  IsSteady-IsListed list v d n (writing left seen etag) h = tt
  IsSteady-IsListed list v d n done h = h
  IsSteady-IsListed list v d n failed h = tt

  AllSteady-listed :
      (list : List Text) (v d : ℕ) (ws : List Writer) → AllSteady list v d ws → AllListed list ws
  AllSteady-listed list v d [] h = tt
  AllSteady-listed list v d (w ∷ ws) h =
      (IsSteady-IsListed list v d w.name w.phase h.0, AllSteady-listed list v d ws h.1)

  -- Any number of registrations update an index that exists, their steps in any order. At every moment
  -- the index can be read, and has every name that it had and the name of every registration that is
  -- done.
  pub registrations_indexed :
      (base names : List Text) (v steps : ℕ) (m m' : Memory) (ws : List Writer)
      → IsIndex codec store_name team law m base v
      → Runs codec store_name team steps (starting names) m ws m'
      → (list : List Text) × ((list_names store codec team m').0 ≡ ok list)
        × HasAll list base
        × AllListed list ws
  registrations_indexed base names v steps m m' ws index runs =
      let (list, v', index', more, steady) =
        IsCoherent-Runs base runs (starting-IsCoherent base names v m index) in
      (
        list,
        list_names-eq codec store_name team m' list (etag_string (suc v')) index'.0,
        more,
        AllSteady-listed list v' (count_done ws) ws steady,
      )
