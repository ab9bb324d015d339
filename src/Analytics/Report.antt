-- ===== src/Analytics/Report.antt =====
-- analytics.go: the event and its parameters, and `reportUsage`, which starts one sender for each
-- package of the process. `url.Values.Encode` and the network are parameters.
pub mod Once
pub mod Params
use go_ai.Prelude.{
  Bool, true, false, not, Option, none, some, List, [], ◌∷◌, ◌++◌, Result, ok, err, if◌then◌else◌,
}
use go_ai.Text.{Text, codes}
use go_ai.Dict.{Dict, insert, lookup}
use go_ai.Agent.Graph.{is_empty}
use go_ai.Agent.Config.{flag_at}
use go_ai.Analytics.Dimension.{clean_dimension}
use go_ai.Analytics.Host.{
  Process, running_in_ci, detect_target, module_version, usage_reporting_disabled,
}

unfoldable pub ci_dimension : Bool → Text
ci_dimension ci = if ci then codes "true" else codes "false"

-- The map `params` before the caller's dimensions.
unfoldable pub default_params : Process → Text → Text → Dict Text
unfolding ci_dimension running_in_ci detect_target
default_params p pkg version =
    (codes "package", pkg)
    ∷ (codes "version", version)
    ∷ (codes "os", p.os)
    ∷ (codes "arch", p.arch)
    ∷ (codes "go_version", p.go_version)
    ∷ (codes "target", detect_target p)
    ∷ (codes "ci", ci_dimension (running_in_ci p))
    ∷ []

-- `for k, v := range dimensions { params[k] = v }`.
unfoldable pub with_dimensions : Dict Text → Dict Text → Dict Text
with_dimensions params [] = params
with_dimensions params ((k, v) ∷ dimensions) = with_dimensions (insert k v params) dimensions

-- The loop that fills `values`; each key has one value.
unfoldable pub values_from : Dict Text → Dict Text → Dict Text
unfolding clean_dimension
values_from values [] = values
values_from values ((k, v) ∷ params) =
    let cleaned = clean_dimension v in
    values_from (if not (is_empty cleaned) then insert k cleaned values else values) params

unfoldable pub usage_values : Process → Text → Text → Dict Text → Dict Text
unfolding values_from with_dimensions default_params
usage_values p pkg version dimensions =
    values_from [] (with_dimensions (default_params p pkg version) dimensions)

-- An event that a background sender was started for.
pub record UsageEvent : Type 0 where
  pub pkg : Text
  pub dimensions : Dict Text

pub record UsageRequest : Type 0 where
  pub url : Text
  pub user_agent : Text

module _ (encode : Dict Text → Text) (endpoint : Text) where
  unfoldable pub build_usage_url : Process → Text → Text → Dict Text → Text
  unfolding usage_values
  build_usage_url p pkg version dimensions =
      endpoint ++ (codes "?" ++ encode (usage_values p pkg version dimensions))

  -- The request that `sendUsageEvent` makes, none where `http.NewRequest` refuses the URL, and the
  -- call of the client, whose outcome is dropped.
  unfoldable pub send_usage_event :
      {W : Type 0}
      → (valid_url : Text → Bool) → (request : UsageRequest → W → W) → Process
      → UsageEvent
      → W
      → W
  unfolding build_usage_url module_version
  send_usage_event valid_url request p e w =
      let version = module_version p in
      let url = build_usage_url p e.pkg version e.dimensions in
      if valid_url url
      then request (record { url = url; user_agent = e.pkg ++ (codes "/" ++ version) }) w
      else w

-- `reportUsage`: the map of reported packages after it, and the event that it starts a sender for.
unfoldable pub report_usage :
    Text → Process → Text → Dict Text → Dict Bool → Dict Bool × Option UsageEvent
unfolding usage_reporting_disabled
report_usage endpoint p pkg dimensions reported = if is_empty endpoint then (reported, none) else (
  insert pkg true reported,
  if flag_at pkg reported
      then none
      else if usage_reporting_disabled p
      then none
      else some (record { pkg = pkg; dimensions = dimensions }),
)

-- A call of `reportUsage`, in the process as it is then.
pub record UsageCall : Type 0 where
  pub process : Process
  pub pkg : Text
  pub dimensions : Dict Text

abbrev pub with_started : Option UsageEvent → List UsageEvent → List UsageEvent
with_started none es = es
with_started (some e) es = e ∷ es

-- The events of the calls of a process, in the order in which the calls take the lock.
unfoldable pub reports : Text → List UsageCall → Dict Bool → List UsageEvent
unfolding report_usage
reports endpoint [] reported = []
reports endpoint (c ∷ calls) reported =
    let (reported', started) = report_usage endpoint c.process c.pkg c.dimensions reported in
    with_started started (reports endpoint calls reported')
