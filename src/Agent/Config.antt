-- ===== src/Agent/Config.antt =====
-- agent/config.go: the serializable description of a compiled graph.
pub mod Order
use go_ai.Prelude.{Bool, true, false, ◌||◌, Option, none, some, List, [], ◌∷◌, ◌++◌, if◌then◌else◌}
use go_ai.Text.{Text, ◌==◌}
use go_ai.Text.Sort.{sort}
use go_ai.Dict.{Dict, lookup, insert}
use go_ai.Agent.Graph.{Conditional, end_node, is_empty}

pub record NodeConfig : Type 0 where
  pub name : Text

pub record EdgeConfig : Type 0 where
  pub source : Text
  pub target : Text
  pub conditional : Bool
  pub targets : List Text

pub record GraphConfig : Type 0 where
  pub name : Text
  pub nodes : List NodeConfig
  pub edges : List EdgeConfig
  pub entry : Text
  pub finish_points : List Text

-- `m[k]` on a `map[string]string` and on a `map[string]bool`.
abbrev pub text_at : Text → Dict Text → Text
text_at k m = elim (lookup k m) [ none ↦ [] | some v ↦ v ]

abbrev pub flag_at : Text → Dict Bool → Bool
flag_at k m = elim (lookup k m) [ none ↦ false | some b ↦ b ]

-- `for _, dst := range c.mapping`, in the order of the entries: the targets, and whether one of
-- them is the end, added to what `finish[n]` was.
unfoldable pub mapping_targets : Dict Text → Bool → List Text × Bool
mapping_targets [] finish = ([], finish)
mapping_targets ((key, dst) ∷ mapping) finish =
    let rest = mapping_targets mapping (finish || dst == end_node) in (dst ∷ rest.0, rest.1)

-- The body of the first loop for the node `n`: the edge that it adds, if any, and `finish[n]`.
unfoldable pub describe_node : Dict Text → Dict Conditional → Text → Bool → Option EdgeConfig × Bool
unfolding mapping_targets
describe_node edges conds n finish =
    if is_empty (text_at n edges)
    then (elim (lookup n conds) [
      | none ↦ (none, true)
      | some c ↦
          let found = mapping_targets c.mapping finish in
          (
            some (record { source = n; target = []; conditional = true; targets = sort found.0 }),
            found.1,
          )
    ])
    else (
      some (record { source = n; target = text_at n edges; conditional = false; targets = [] }),
      text_at n edges == end_node,
    )

abbrev pub push_edge : List EdgeConfig → Option EdgeConfig → List EdgeConfig
push_edge es none = es
push_edge es (some e) = es ++ e ∷ []

-- The first loop of `describe`; `finish` is the map of that name.
unfoldable pub describe_nodes :
    Dict Text → Dict Conditional → List Text → GraphConfig → Dict Bool → GraphConfig × Dict Bool
unfolding describe_node
describe_nodes edges conds [] cfg finish = (cfg, finish)
describe_nodes edges conds (n ∷ order) cfg finish =
    let step = describe_node edges conds n (flag_at n finish) in
    describe_nodes edges conds order
      (record cfg {
        nodes = cfg.nodes ++ record { name = n } ∷ [];
        edges = push_edge cfg.edges step.0;
      })
      (insert n step.1 finish)

-- The second loop.
unfoldable pub finish_points : Dict Bool → List Text → List Text
finish_points finish [] = []
finish_points finish (n ∷ order) =
    let rest = finish_points finish order in if flag_at n finish then n ∷ rest else rest

-- `describe`, on the fields that it reads.
unfoldable pub describe : Text → List Text → Dict Text → Dict Conditional → Text → GraphConfig
unfolding describe_nodes finish_points
describe name order edges conds entry =
    let empty : GraphConfig = record {
      name = name;
      nodes = [];
      edges = [];
      entry = entry;
      finish_points = [];
    } in
    let (cfg, finish) = describe_nodes edges conds order empty [] in
    record cfg { finish_points = finish_points finish order }
