-- ===== src/Analytics/Host.antt =====
-- analytics.go and the version lookup of runner.go: what is read of the process and its build.
use go_ai.Prelude.{Bool, false, not, ◌||◌, Option, none, some, List, [], ◌∷◌, ◌++◌, if◌then◌else◌}
use go_ai.Text.{Text, codes, ◌==◌, contains, includes, has_suffix}
use go_ai.Text.Space.{trim_space}
use go_ai.Dict.{Dict, lookup}
use go_ai.Agent.Graph.{is_empty}

-- `debug.ReadBuildInfo`: the dependencies are pairs of a module path and a version.
pub record BuildInfo : Type 0 where
  pub main_version : Text
  pub dependencies : List (Text × Text)

-- The process as the code asks for it. `hostname` is `url.Parse` with `Hostname`, none on an error;
-- `build_info` is none where there is none.
pub record Process : Type 0 where
  pub getenv : Text → Text
  pub to_lower : Text → Text
  pub hostname : Text → Option Text
  pub build_info : Option BuildInfo
  pub os : Text
  pub arch : Text
  pub go_version : Text

abbrev pub go_ai_module_path : Text
go_ai_module_path = codes "github.com/diagridio/go-ai"

abbrev pub opt_out_env_vars : List Text
opt_out_env_vars =
    codes "DO_NOT_TRACK" ∷ codes "SCARF_NO_ANALYTICS" ∷ codes "DIAGRID_NO_ANALYTICS" ∷ []

abbrev pub truthy_values : List Text
truthy_values = codes "1" ∷ codes "true" ∷ codes "yes" ∷ codes "on" ∷ []

abbrev pub ci_truthy_env_vars : List Text
ci_truthy_env_vars =
    codes "CI"
    ∷ codes "GITHUB_ACTIONS"
    ∷ codes "GITLAB_CI"
    ∷ codes "CIRCLECI"
    ∷ codes "TRAVIS"
    ∷ codes "TF_BUILD"
    ∷ []

abbrev pub ci_presence_env_vars : List Text
ci_presence_env_vars = codes "BUILDKITE" ∷ codes "JENKINS_URL" ∷ []

abbrev pub dapr_endpoint_env_vars : List Text
dapr_endpoint_env_vars = codes "DAPR_GRPC_ENDPOINT" ∷ codes "DAPR_HTTP_ENDPOINT" ∷ []

abbrev pub catalyst_host_suffix : Text
catalyst_host_suffix = codes "diagrid.io"

unfoldable pub clean_module_version : Text → Text
clean_module_version v = if is_empty v || v == codes "(devel)" then codes "unknown" else v

-- The loop over `info.Deps`: the version of the first dependency with the path.
unfoldable pub dependency_version : Text → List (Text × Text) → Option Text
dependency_version path [] = none
dependency_version path ((p, version) ∷ deps) =
    if p == path then some version else dependency_version path deps

unfoldable pub is_catalyst_host : Text → Bool
unfolding has_suffix
is_catalyst_host host =
    host == catalyst_host_suffix || has_suffix host (codes "." ++ catalyst_host_suffix)

-- `frameworkModulePaths`.
abbrev pub framework_module_paths : Dict Text
framework_module_paths =
    (codes "langchaingo", codes "github.com/tmc/langchaingo")
    ∷ (codes "eino", codes "github.com/cloudwego/eino")
    ∷ []

module _ (p : Process) where
  unfoldable pub is_truthy : Text → Bool
  unfolding contains trim_space
  is_truthy value = contains (p.to_lower (trim_space value)) truthy_values

  -- `for _, name := range names { if isTruthy(os.Getenv(name)) { return true } }`.
  unfoldable pub any_truthy : List Text → Bool
  unfolding is_truthy
  any_truthy [] = false
  any_truthy (name ∷ names) = is_truthy (p.getenv name) || any_truthy names

  unfoldable pub any_present : List Text → Bool
  unfolding trim_space
  any_present [] = false
  any_present (name ∷ names) = not (is_empty (trim_space (p.getenv name))) || any_present names

  unfoldable pub usage_reporting_disabled : Bool
  unfolding any_truthy
  usage_reporting_disabled = any_truthy opt_out_env_vars

  unfoldable pub running_in_ci : Bool
  unfolding any_truthy any_present
  running_in_ci = any_truthy ci_truthy_env_vars || any_present ci_presence_env_vars

  unfoldable pub endpoint_hostname : Text → Option Text
  unfolding includes
  endpoint_hostname raw =
      p.hostname (if not (includes raw (codes "://")) then codes "https://" ++ raw else raw)

  abbrev names_catalyst : Option Text → Bool
  unfolding is_catalyst_host
  names_catalyst none = false
  names_catalyst (some host) = is_catalyst_host host

  -- The loop of `detectTarget`: whether one of the endpoints is Catalyst's.
  unfoldable pub any_catalyst : List Text → Bool
  unfolding trim_space endpoint_hostname names_catalyst
  any_catalyst [] = false
  any_catalyst (name ∷ names) =
      let raw = trim_space (p.getenv name) in
      (if is_empty raw then false else names_catalyst (endpoint_hostname raw)) || any_catalyst names

  unfoldable pub detect_target : Text
  unfolding any_catalyst trim_space
  detect_target =
      if any_catalyst dapr_endpoint_env_vars
      then codes "catalyst"
      else if not (is_empty (trim_space (p.getenv (codes "DAPR_API_TOKEN"))))
      then codes "catalyst"
      else codes "dapr"

  unfoldable pub module_version : Text
  unfolding dependency_version clean_module_version
  module_version = elim p.build_info [
    | none ↦ codes "unknown"
    | some info ↦ elim (dependency_version go_ai_module_path info.dependencies) [
      | some v ↦ clean_module_version v
      | none ↦ clean_module_version info.main_version
    ]
  ]

  abbrev or_empty : Option Text → Text
  or_empty none = []
  or_empty (some v) = v

  -- `frameworkVersion`.
  unfoldable pub framework_version : Text → Text
  unfolding dependency_version trim_space lookup
  framework_version framework =
      elim (lookup (p.to_lower (trim_space framework)) framework_module_paths) [
        | none ↦ []
        | some path ↦ elim p.build_info [
          | none ↦ []
          | some info ↦ or_empty (dependency_version path info.dependencies)
        ]
      ]
