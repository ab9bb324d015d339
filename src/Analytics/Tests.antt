-- ===== src/Analytics/Tests.antt =====
-- Runs of the usage reporting, and its theorems at concrete processes.
use go_ai.Prelude.{
  Bool, ltb, ◌&&◌, ◌<◌, ◌⊎◌, arith, ◌≡◌, refl, ◌≤◌, ◌+◌, true, Option, none, some, List, [], ◌∷◌,
  ◌++◌, length, All, IsDistinct,
}
use go_ai.Text.{Text, codes, ◌==◌, contains, includes, has_suffix}
use go_ai.Text.Space.{trim_space}
use go_ai.Dict.{Dict, lookup, insert}
use go_ai.Analytics.Dimension.{
  dimension_max_len, reverse_onto, ends_in_rune, drop_partial, cut_at, clean_dimension,
}
use go_ai.Analytics.Dimension.Runes.{Utf8, done, one, two}
use go_ai.Analytics.Dimension.Cut.{clean_dimension_cut}
use go_ai.Analytics.Host.{
  Process, clean_module_version, dependency_version, is_catalyst_host, is_truthy, any_truthy,
  any_present, usage_reporting_disabled, running_in_ci, endpoint_hostname, any_catalyst,
  detect_target, module_version, framework_version,
}
use go_ai.Analytics.Report.{
  ci_dimension, default_params, with_dimensions, values_from, usage_values, UsageCall, report_usage,
  reports,
}
use go_ai.Analytics.Report.Once.{packages, IsAsked, reports-IsDistinct}
use go_ai.Analytics.Report.Params.{chosen, cleaned, lookup-usage_values}

-- Every definition that the runs below compute with.
reporting : Unit {0}
unfolding lookup insert ◌==◌ contains includes has_suffix trim_space reverse_onto ends_in_rune
    drop_partial cut_at clean_dimension clean_module_version dependency_version is_catalyst_host
    is_truthy any_truthy any_present usage_reporting_disabled running_in_ci endpoint_hostname
    any_catalyst detect_target module_version framework_version ci_dimension default_params
    with_dimensions values_from usage_values report_usage reports
reporting = tt

-- The environment of a process on Catalyst; its build carries one framework.
abbrev catalyst_env : Dict Text
catalyst_env =
    (codes "DAPR_GRPC_ENDPOINT", codes "https://p.api.diagrid.io") ∷ (codes "CI", codes "1") ∷ []

abbrev value_of : Dict Text → Text → Text
unfolding reporting
value_of env name = elim (lookup name env) [ none ↦ [] | some v ↦ v ]

-- The host of an endpoint `https://<host>`.
abbrev after_scheme : Text → Option Text
after_scheme (a ∷ b ∷ c ∷ d ∷ e ∷ f ∷ g ∷ h ∷ host) = some (h ∷ host)
after_scheme s = none

abbrev process_of : Dict Text → Process
unfolding reporting
process_of env = record {
  getenv = value_of env;
  to_lower = λ s. s;
  hostname = after_scheme;
  build_info = some (record {
    main_version = codes "(devel)";
    dependencies = (codes "github.com/cloudwego/eino", codes "v0.7.9") ∷ [];
  });
  os = codes "linux";
  arch = codes "arm64";
  go_version = codes "go1.26";
}

on_catalyst : detect_target (process_of catalyst_env) ≡ codes "catalyst"
unfolding reporting
on_catalyst = refl

on_dapr : detect_target (process_of []) ≡ codes "dapr"
unfolding reporting
on_dapr = refl

in_ci : running_in_ci (process_of catalyst_env) ≡ true
unfolding reporting
in_ci = refl

eino_version : framework_version (process_of []) (codes "eino") ≡ codes "v0.7.9"
unfolding reporting
eino_version = refl

main_module : module_version (process_of []) ≡ codes "unknown"
unfolding reporting
main_module = refl

-- Sixty-three letters and a rune of two bytes.
abbrev long_name : Text
long_name =
    codes "abcdefghijklmnopqrstuvwxyzabcdefghijklmnopqrstuvwxyzabcdefghijk" ++ 0xc3 ∷ 0xa9 ∷ []

abbrev letters : Text
letters = codes "abcdefghijklmnopqrstuvwxyzabcdefghijklmnopqrstuvwxyzabcdefghijk"

abbrev all_ascii : Text → Bool
all_ascii [] = true
all_ascii (a ∷ s) = ltb a 0x80 && all_ascii s

ascii-Utf8 : (s : Text) {t : Text} → all_ascii s ≡ true → Utf8 t → Utf8 (s ++ t)
ascii-Utf8 [] h u = u
ascii-Utf8 (a ∷ s) h u = one (ground arith) (ascii-Utf8 s (ground arith) u)

long_name-Utf8 : Utf8 (trim_space long_name)
unfolding reporting
long_name-Utf8 = ascii-Utf8 letters {t = 0xc3 ∷ 0xa9 ∷ []} refl (two refl done)

clean_dimension_cut_example :
    let v = trim_space long_name in
    let c = clean_dimension long_name in
    ((t : Text) × (v ≡ c ++ t))
    × (length c ≤ dimension_max_len)
    × Utf8 c
    × ((c ≡ v) ⊎ ((dimension_max_len < length v) × (dimension_max_len ≤ length c + 3)))
clean_dimension_cut_example = clean_dimension_cut long_name long_name-Utf8

rune_dropped : length (clean_dimension long_name) ≡ 63
unfolding reporting
rune_dropped = refl

abbrev agent_call : UsageCall
unfolding reporting
agent_call = record {
  process = process_of catalyst_env;
  pkg = codes "go-ai";
  dimensions = (codes "kind", codes "agent") ∷ [];
}

abbrev opted_out_call : UsageCall
unfolding reporting
opted_out_call = record {
  process = process_of ((codes "DO_NOT_TRACK", codes "yes") ∷ []);
  pkg = codes "go-ai-mcp";
  dimensions = [];
}

abbrev three_calls : List UsageCall
unfolding reporting
three_calls = agent_call ∷ opted_out_call ∷ agent_call ∷ []

one_event : packages (reports (codes "https://scarf") three_calls []) ≡ codes "go-ai" ∷ []
unfolding reporting
one_event = refl

reports-IsDistinct_example :
    IsDistinct (packages (reports (codes "https://scarf") three_calls []))
    × All
        (IsAsked (codes "https://scarf") three_calls)
        (reports (codes "https://scarf") three_calls [])
reports-IsDistinct_example = reports-IsDistinct (codes "https://scarf") three_calls

lookup-usage_values_example :
    lookup (codes "kind") (
      usage_values
        (process_of [])
        (codes "go-ai")
        (codes "v1")
        ((codes "kind", codes "agent") ∷ []))
    ≡ cleaned (
        chosen
          (lookup (codes "kind") ((codes "kind", codes "agent") ∷ []))
          (lookup (codes "kind") (default_params (process_of []) (codes "go-ai") (codes "v1"))))
lookup-usage_values_example =
    lookup-usage_values (process_of []) (codes "go-ai") (codes "v1")
      ((codes "kind", codes "agent") ∷ []) (codes "kind") (tt, tt)
