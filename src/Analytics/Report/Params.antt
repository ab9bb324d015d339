-- ===== src/Analytics/Report/Params.antt =====
-- analytics.go: the parameters of an event.
use go_ai.Prelude.{
  ◌≡◌, refl, ap, ◌∙◌, not, Option, none, some, [], ◌∷◌, arith, Bool-cases, inl, inr, if◌then◌else◌,
}
use go_ai.Text.{Text, ◌==◌, eq_iff}
use go_ai.Dict.{Dict, lookup, insert, lookup-insert, IsMap, insert-IsMap, lookup_of_Absent}
use go_ai.Agent.Graph.{is_empty}
use go_ai.Analytics.Dimension.{clean_dimension}
use go_ai.Analytics.Host.{Process}
use go_ai.Analytics.Report.{default_params, with_dimensions, values_from, usage_values}

-- The value of a parameter: the caller's, or the default one.
abbrev pub chosen : Option Text → Option Text → Option Text
chosen none default = default
chosen (some v) default = some v

-- A parameter is cleaned, and left out where nothing remains.
abbrev pub cleaned : Option Text → Option Text
cleaned none = none
cleaned (some v) = if not (is_empty (clean_dimension v)) then some (clean_dimension v) else none

lookup-with_dimensions :
    (k : Text) (dimensions params : Dict Text)
    → IsMap dimensions
    → lookup k (with_dimensions params dimensions) ≡ chosen (lookup k dimensions) (lookup k params)
unfolding with_dimensions lookup
lookup-with_dimensions k [] params h = refl
lookup-with_dimensions k ((j, v) ∷ dimensions) params h = ground (
  arith,
  eq_iff j k,
  lookup-with_dimensions k dimensions (insert j v params),
  lookup-insert j k v params,
  lookup_of_Absent j dimensions h.0,
)

with_dimensions-IsMap :
    (dimensions params : Dict Text) → IsMap params → IsMap (with_dimensions params dimensions)
unfolding with_dimensions
with_dimensions-IsMap [] params h = h
with_dimensions-IsMap ((j, v) ∷ dimensions) params h =
    with_dimensions-IsMap dimensions (insert j v params) (insert-IsMap j v params h)

abbrev filled : Option Text → Option Text → Option Text
filled none old = old
filled (some v) old = if not (is_empty (clean_dimension v)) then some (clean_dimension v) else old

lookup-values_from :
    (k : Text) (params values : Dict Text)
    → IsMap params
    → lookup k (values_from values params) ≡ filled (lookup k params) (lookup k values)
unfolding values_from lookup
lookup-values_from k [] values h = refl
lookup-values_from k ((j, v) ∷ params) values h =
    elim (Bool-cases (not (is_empty (clean_dimension v)))) [
      | inl full ↦ rw full (
          ground (
            arith,
            eq_iff j k,
            lookup-values_from k params (insert j (clean_dimension v) values) h.1,
            lookup-insert j k (clean_dimension v) values,
            lookup_of_Absent j params h.0,
          ))
      | inr nothing ↦ rw nothing (
          ground (
            arith,
            eq_iff j k,
            lookup-values_from k params values h.1,
            lookup_of_Absent j params h.0,
          ))
    ]

filled-none : (given : Option Text) → filled given none ≡ cleaned given
filled-none none = refl
filled-none (some v) = refl

default_params-IsMap : (p : Process) (pkg version : Text) → IsMap (default_params p pkg version)
unfolding default_params ◌==◌
default_params-IsMap p pkg version = (
  (refl, (refl, (refl, (refl, (refl, (refl, tt)))))),
  (
    (refl, (refl, (refl, (refl, (refl, tt))))),
    (
      (refl, (refl, (refl, (refl, tt)))),
      ((refl, (refl, (refl, tt))), ((refl, (refl, tt)), ((refl, tt), (tt, tt)))),
    ),
  ),
)

-- Each parameter of an event's query is the caller's dimension of that name, or the default one where
-- the caller names none, cleaned, and is left out where the cleaned value is empty.
pub lookup-usage_values :
    (p : Process) (pkg version : Text) (dimensions : Dict Text) (k : Text)
    → IsMap dimensions
    → lookup k (usage_values p pkg version dimensions)
      ≡ cleaned (chosen (lookup k dimensions) (lookup k (default_params p pkg version)))
unfolding usage_values lookup
lookup-usage_values p pkg version dimensions k h =
    let defaults = default_params p pkg version in
    lookup-values_from k (with_dimensions defaults dimensions) []
      (with_dimensions-IsMap dimensions defaults (default_params-IsMap p pkg version))
    ∙ filled-none (lookup k (with_dimensions defaults dimensions))
    ∙ ap cleaned (lookup-with_dimensions k dimensions defaults h)
