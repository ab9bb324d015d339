-- ===== src/Registry/Tests.antt =====
-- The directory on the in-process store, and its theorems there.
use go_ai.Prelude.{
  ◌≡◌, refl, ◌≢◌, false≢true, ◌∙◌, inl, inr, Elem, false, none, some, List, [], ◌∷◌, ◌++◌, ok,
  nat_eq, if◌then◌else◌,
}
use go_ai.Prelude.Int.{pos}
use go_ai.Text.{Text, codes, ◌==◌, contains, contains_iff}
use go_ai.Dict.{lookup, insert, remove}
use go_ai.Registry.Records.{AgentRecord}
use go_ai.Registry.Store.{
  Memory, itoa, etag_string, memory_get, memory_set, memory_delete, store_name, empty_memory,
  memory_store,
}
use go_ai.Registry.Directory.{
  Codec, effective_team, agent_key, index_key, partition_meta, add_name, remove_name, backfill,
  index_names, load_index, finished, retry, write_index, attempt_update, update_loop, update_index,
  register, deregister, list_names, decode_found, get_record,
}
use go_ai.Registry.Directory.Entries.{register-found, deregister-gone}
use go_ai.Registry.Directory.Races.{first_writers-lose, late_writer-retries}

-- Every definition that the runs below compute with.
directory : Unit {0}
unfolding lookup insert remove ◌==◌ contains itoa etag_string memory_get memory_set memory_delete
    store_name memory_store effective_team agent_key index_key partition_meta add_name remove_name
    backfill index_names load_index write_index attempt_update update_loop update_index register
    deregister list_names decode_found get_record
directory = tt

-- Each name is closed by a line feed, and the document by another.
abbrev join_lines : List Text → Text
join_lines [] = 10 ∷ []
join_lines (n ∷ names) = n ++ (10 ∷ join_lines names)

abbrev split_lines : Text → Text → List Text
split_lines [] cur = []
split_lines (c ∷ s) cur =
    let line = split_lines s [] in
    let more = split_lines s (cur ++ c ∷ []) in
    if nat_eq c 10 then (elim s [ [] ↦ [] | d ∷ t ↦ cur ∷ line ]) else more

abbrev planner : AgentRecord
planner = record {
  version = codes "edge";
  agent = record {
    app_id = codes "app";
    kind = codes "durable";
    orchestrator = false;
    framework = codes "eino";
    role = [];
    goal = [];
    max_iterations = pos 0;
    metadata = [];
  };
  name = codes "a";
  registered_at = [];
  registry = none;
  tools = [];
}

-- The record as `Register` writes it.
abbrev saved_planner : AgentRecord
saved_planner = record planner {
  registry = some (record { name = codes "default"; resource_name = codes "memory" });
}

-- Every record is written by its name, and only the planner is ever read back.
abbrev lines : Codec
lines = record {
  encode_record = λ r. ok r.name;
  decode_record = λ b. ok saved_planner;
  encode_index = λ names. ok (join_lines names);
  decode_index = λ b. ok (some (split_lines b []));
}

abbrev with_b : Memory
with_b = record {
  values = (codes "agents:default:_index", join_lines (codes "b" ∷ [])) ∷ [];
  versions = (codes "agents:default:_index", 3) ∷ [];
}

abbrev registered_memory : Memory
unfolding directory
registered_memory = (register (memory_store []) lines planner with_b).1

directory_tests :
    ((list_names (memory_store []) lines [] registered_memory).0 ≡ ok (codes "b" ∷ codes "a" ∷ []))
    × ((get_record (memory_store []) lines [] (codes "a") registered_memory).0
        ≡ ok (some saved_planner))
    × ((deregister (memory_store []) lines [] (codes "b") registered_memory).0 ≡ none)
    × (agent_key [] (codes "_index") ≡ index_key [])
    × (agent_key (codes "a:b") (codes "c") ≡ agent_key (codes "a") (codes "b:c"))
unfolding directory
directory_tests = (refl, refl, refl, refl, refl)

index_of_b :
    (load_index (memory_store []) lines (codes "default") with_b).0 ≡ ok (codes "b" ∷ [], codes "3")
unfolding directory
index_of_b = refl

a_apart : codes "a" ≢ codes "_index"
a_apart h = cc h

b_apart : codes "b" ≢ codes "_index"
b_apart h = cc h

index_has_no_a : false ≡ contains (codes "a") (codes "b" ∷ [])
unfolding directory
index_has_no_a = refl

a_absent : ¬ Elem (codes "a") (codes "b" ∷ [])
a_absent h = false≢true (index_has_no_a ∙ (contains_iff (codes "a") (codes "b" ∷ [])).1 h)

register-found_example :
    let out = register (memory_store []) lines planner with_b in
    (out.0 ≡ none)
    × (out.2 ≡ saved_planner)
    × ((list_names (memory_store []) lines (codes "default") out.1).0
        ≡ ok (codes "b" ∷ codes "a" ∷ []))
    × ((get_record (memory_store []) lines (codes "default") (codes "a") out.1).0
        ≡ ok (some saved_planner))
unfolding directory
register-found_example =
    register-found lines [] planner with_b (codes "b" ∷ []) (codes "b" ∷ codes "a" ∷ []) (codes "3")
      (codes "a") (join_lines (codes "b" ∷ codes "a" ∷ [])) refl a_apart index_of_b
      (inr (a_absent, refl)) refl refl refl refl refl

deregister-gone_example :
    let out = deregister (memory_store []) lines [] (codes "b") with_b in
    (out.0 ≡ none)
    × ((list_names (memory_store []) lines (effective_team []) out.1).0 ≡ ok [])
    × ((get_record (memory_store []) lines [] (codes "b") out.1).0 ≡ ok none)
unfolding directory
deregister-gone_example =
    deregister-gone lines [] [] (codes "b") with_b (codes "b" ∷ []) [] (codes "3") (join_lines [])
      b_apart index_of_b (inl ([], [], refl, (λ e. e), refl)) refl refl refl

first_writers-lose_example :
    ((load_index (memory_store []) lines [] empty_memory).0 ≡ ok ([], []))
    × (m₁ : Memory) × (m₂ : Memory) × (write_index
          (memory_store [])
          lines
          []
          []
          (add_name (codes "a") [])
          empty_memory
        ≡ finished none m₁)
    × (write_index (memory_store []) lines [] [] (add_name (codes "b") []) m₁ ≡ finished none m₂)
    × ((list_names (memory_store []) lines [] m₂).0 ≡ ok (codes "b" ∷ []))
unfolding directory
first_writers-lose_example =
    first_writers-lose lines [] [] (codes "a") (codes "b") (join_lines (codes "a" ∷ []))
      (join_lines (codes "b" ∷ [])) empty_memory refl refl refl refl refl

late_writer-retries_example :
    (m₁ : Memory) × (m₂ : Memory) × (write_index
        (memory_store [])
        lines
        []
        (codes "3")
        (add_name (codes "a") (codes "b" ∷ []))
        with_b
      ≡ finished none m₁)
    × (write_index (memory_store []) lines [] (codes "3") (add_name (codes "c") (codes "b" ∷ [])) m₁
        ≡ retry m₁)
    × (attempt_update (memory_store []) lines [] (add_name (codes "c")) m₁ ≡ finished none m₂)
    × ((list_names (memory_store []) lines [] m₂).0
        ≡ ok (codes "b" ∷ [] ++ codes "a" ∷ [] ++ codes "c" ∷ []))
unfolding directory
late_writer-retries_example =
    late_writer-retries lines [] [] (codes "a") (codes "c") (codes "3")
      (join_lines (codes "b" ∷ codes "a" ∷ [])) (join_lines (codes "b" ∷ codes "c" ∷ []))
      (join_lines (codes "b" ∷ codes "a" ∷ codes "c" ∷ [])) (codes "b" ∷ []) with_b refl refl refl
      refl refl refl refl refl refl refl refl refl
