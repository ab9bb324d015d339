-- ===== src/Registry/Directory/Writers.antt =====
-- registry/registry.go: any number of registrations that update one team's index at once. Each call
-- of the in-process store is one step; between two steps of a writer the others may do any number.
pub mod Invariant
pub mod Moves
pub mod Coherent
pub mod Counts
pub mod Progress
mod Tests
use go_ai.Prelude.{ℕ, zero, suc, ◌≡◌, none, some, List, [], ◌∷◌, map, ok, err}
use go_ai.Text.{Text}
use go_ai.Registry.Store.{Memory, StateStore, memory_store}
use go_ai.Registry.Directory.{
  Codec, RegistryError, add_name, load_index, write_index, finished, retry, max_etag_attempts,
}

-- Where a writer stands in the loop of `updateIndex`: at its head, with the attempts that are left, or
-- between the read and the write of an attempt.
pub data Phase : Type 0 where
  reading : ℕ → Phase
  writing : ℕ → List Text → Text → Phase
  done : Phase
  failed : Phase

-- A registration, of which the record is written.
pub record Writer : Type 0 where
  pub name : Text
  pub phase : Phase

module _ (codec : Codec) (store_name team : Text) where
  abbrev store : StateStore Memory
  store = memory_store store_name

  -- One step of a writer.
  pub data Move (n : Text) : Phase → Memory → Phase → Memory → Type 0 where
    reads :
        {left : ℕ} {m m' : Memory} {list : List Text} {etag : Text}
        → load_index store codec team m ≡ (ok (list, etag), m')
        → Move n (reading (suc left)) m (writing left list etag) m'
    read_fails :
        {left : ℕ} {m m' : Memory} {e : RegistryError}
        → load_index store codec team m ≡ (err e, m')
        → Move n (reading (suc left)) m failed m'
    writes :
        {left : ℕ} {m m' : Memory} {list : List Text} {etag : Text}
        → write_index store codec team etag (add_name n list) m ≡ finished none m'
        → Move n (writing left list etag) m done m'
    write_fails :
        {left : ℕ} {m m' : Memory} {list : List Text} {etag : Text} {e : RegistryError}
        → write_index store codec team etag (add_name n list) m ≡ finished (some e) m'
        → Move n (writing left list etag) m failed m'
    conflicts :
        {left : ℕ} {m m' : Memory} {list : List Text} {etag : Text}
        → write_index store codec team etag (add_name n list) m ≡ retry m'
        → Move n (writing left list etag) m (reading left) m'
    gives_up : {m : Memory} → Move n (reading zero) m failed m

  -- One of the writers moves.
  pub data Step : List Writer → Memory → List Writer → Memory → Type 0 where
    this_one :
        {n : Text} {ph ph' : Phase} {ws : List Writer} {m m' : Memory}
        → Move n ph m ph' m'
        → Step
            ((record { name = n; phase = ph }) ∷ ws)
            m
            ((record { name = n; phase = ph' }) ∷ ws)
            m'
    later_one :
        {w : Writer} {ws ws' : List Writer} {m m' : Memory}
        → Step ws m ws' m'
        → Step (w ∷ ws) m (w ∷ ws') m'

  -- A run of so many steps.
  pub data Runs : ℕ → List Writer → Memory → List Writer → Memory → Type 0 where
    at_rest : {ws : List Writer} {m : Memory} → Runs 0 ws m ws m
    after :
        {steps : ℕ} {ws ws' ws'' : List Writer} {m m' m'' : Memory}
        → Step ws m ws' m'
        → Runs steps ws' m' ws'' m''
        → Runs (suc steps) ws m ws'' m''

-- The writers of these names, at the start of their loops.
abbrev pub starting : List Text → List Writer
starting names = map (λ n. record { name = n; phase = reading max_etag_attempts }) names
