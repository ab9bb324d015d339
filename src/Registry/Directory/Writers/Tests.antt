-- ===== src/Registry/Directory/Writers/Tests.antt =====
-- Two registrations that race, and the theorems on concurrent registrations there.
use go_ai.Prelude.{
  ℕ, zero, suc, ◌≤◌, ◌≡◌, refl, ap, ◌∙◌, ◌⊎◌, false, some, List, [], ◌∷◌, length, ok, err, arith,
}
use go_ai.Text.{Text, codes, ◌==◌, contains}
use go_ai.Dict.{lookup, insert}
use go_ai.Agent.Graph.{is_empty}
use go_ai.Registry.Store.{
  Memory, digits_from, itoa, etag_string, memory_get, memory_set, memory_store, store_name,
}
use go_ai.Registry.Directory.{
  Codec, effective_team, index_key, partition_meta, add_name, index_names, load_index, write_index,
  list_names, max_etag_attempts,
}
use go_ai.Registry.Directory.Writers.{
  reading, done, Writer, Step, Runs, reads, writes, conflicts, this_one, later_one, at_rest, after,
  starting,
}
use go_ai.Registry.Directory.Writers.Invariant.{IsIndexCodec, HasAll, IsIndex}
use go_ai.Registry.Directory.Writers.Coherent.{AllListed, registrations_indexed}
use go_ai.Registry.Directory.Writers.Counts.{step_bound, AllDone, NoneFailed}
use go_ai.Registry.Directory.Writers.Progress.{registrations_finish}

-- Every definition that the runs below compute with.
racing : Unit {0}
unfolding lookup insert ◌==◌ contains digits_from itoa etag_string memory_get memory_set
    memory_store store_name effective_team index_key partition_meta add_name index_names load_index
    write_index list_names
racing = tt

-- Each byte of a name behind a 1, each name closed by a 2, and the list by a 0.
abbrev marked_name : Text → Text → Text
marked_name [] rest = 2 ∷ rest
marked_name (c ∷ n) rest = 1 ∷ c ∷ marked_name n rest

abbrev marked : List Text → Text
marked [] = 0 ∷ []
marked (n ∷ ns) = marked_name n (marked ns)

abbrev pushed : ℕ → List Text → List Text
pushed c [] = []
pushed c (n ∷ ns) = (c ∷ n) ∷ ns

abbrev unmarked : Text → List Text
unmarked [] = []
unmarked (zero ∷ s) = []
unmarked (suc zero ∷ []) = []
unmarked (suc zero ∷ c ∷ s) = pushed c (unmarked s)
unmarked (suc (suc k) ∷ s) = [] ∷ unmarked s

unmarked_name : (n rest : Text) → unmarked (marked_name n rest) ≡ n ∷ unmarked rest
unmarked_name [] rest = refl
unmarked_name (c ∷ n) rest = ap (pushed c) (unmarked_name n rest)

unmarked-marked : (ns : List Text) → unmarked (marked ns) ≡ ns
unmarked-marked [] = refl
unmarked-marked (n ∷ ns) = unmarked_name n (marked ns) ∙ ap (λ l. n ∷ l) (unmarked-marked ns)

name-nonempty : (n rest : Text) → is_empty (marked_name n rest) ≡ false
name-nonempty [] rest = refl
name-nonempty (c ∷ n) rest = refl

marked-nonempty : (ns : List Text) → is_empty (marked ns) ≡ false
marked-nonempty [] = refl
marked-nonempty (n ∷ ns) = name-nonempty n (marked ns)

abbrev marking : Codec
marking = record {
  encode_record = λ r. ok r.name;
  decode_record = λ s. err s;
  encode_index = λ ns. ok (marked ns);
  decode_index = λ s. ok (some (unmarked s));
}

marking_law : IsIndexCodec marking
marking_law = record {
  round_trip =
      λ ns. (marked ns, refl, marked-nonempty ns, ap (λ l. ok (some l)) (unmarked-marked ns));
}

abbrev index_of : List Text → ℕ → Memory
unfolding racing
index_of ns version = record {
  values = (index_key (codes "t"), marked ns) ∷ [];
  versions = (index_key (codes "t"), version) ∷ [];
}

abbrev base : List Text
base = codes "c" ∷ []

abbrev after_a : List Text
after_a = codes "c" ∷ codes "a" ∷ []

abbrev racers : List Text
racers = codes "a" ∷ codes "b" ∷ []

abbrev a_done_b_refused : List Writer
a_done_b_refused =
    (record { name = codes "a"; phase = done })
    ∷ (record { name = codes "b"; phase = reading 9 })
    ∷ []

-- Both read, the first writes, the second is refused.
race :
    Runs marking []
      (codes "t")
      4
      (starting racers)
      (index_of base 1)
      a_done_b_refused
      (index_of after_a 2)
unfolding racing
race = after (this_one (reads {list = base} {etag = codes "1"} refl)) (
    after (later_one (this_one (reads {list = base} {etag = codes "1"} refl)))
      (after (this_one (writes refl)) (after (later_one (this_one (conflicts refl))) at_rest)))

base-IsIndex : IsIndex marking [] (codes "t") marking_law (index_of base 1) base 0
unfolding racing
base-IsIndex = (refl, refl)

registrations_indexed_example :
    (list : List Text) × ((list_names (memory_store []) marking (codes "t") (index_of after_a 2)).0
      ≡ ok list)
    × HasAll list base
    × AllListed list a_done_b_refused
registrations_indexed_example =
    registrations_indexed marking [] (codes "t") marking_law base racers 0 4 (index_of base 1)
      (index_of after_a 2) a_done_b_refused base-IsIndex race

few_racers : length racers ≤ max_etag_attempts
few_racers = omega arith

registrations_finish_example :
    (4 ≤ step_bound racers)
    × NoneFailed a_done_b_refused
    × (((ws' : List Writer) × (m'' : Memory) × Step marking []
            (codes "t")
            a_done_b_refused
            (index_of after_a 2)
            ws'
            m'')
        ⊎ (AllDone a_done_b_refused
            × (list : List Text) × ((list_names
                  (memory_store [])
                  marking
                  (codes "t")
                  (index_of after_a 2)).0
                ≡ ok list)
            × HasAll list racers))
registrations_finish_example =
    registrations_finish marking [] (codes "t") marking_law base racers 0 4 (index_of base 1)
      (index_of after_a 2) a_done_b_refused base-IsIndex few_racers race
