-- ===== src/Analytics/Report/Once.antt =====
-- analytics.go: who is reported, and how often.
use go_ai.Prelude.{
  subst, ◌≡◌, refl, sym, ◌⊎◌, inl, inr, ◌≢◌, Bool, true, false, none, some, List, [], ◌∷◌, map,
  arith, Bool-cases, Elem, All, IsDistinct,
}
use go_ai.Text.{Text, eq_iff}
use go_ai.Dict.{Dict, insert, lookup-insert}
use go_ai.Agent.Graph.{is_empty}
use go_ai.Agent.Config.{flag_at}
use go_ai.Analytics.Host.{usage_reporting_disabled}
use go_ai.Analytics.Report.{UsageEvent, UsageCall, report_usage, reports}

abbrev pub packages : List UsageEvent → List Text
packages es = map (λ (e : UsageEvent). e.pkg) es

-- The event is that of one of the calls, made where reporting was on.
abbrev pub IsAsked : Text → List UsageCall → UsageEvent → Type 0
IsAsked endpoint calls e =
    (c : UsageCall) × Elem c calls
    × (c.pkg ≡ e.pkg)
    × (c.dimensions ≡ e.dimensions)
    × (usage_reporting_disabled c.process ≡ false)
    × (is_empty endpoint ≡ false)

-- The package was not reported before.
abbrev IsFresh : Dict Bool → UsageEvent → Type 0
IsFresh reported e = flag_at e.pkg reported ≡ false

flag_at-insert :
    (k j : Text) (reported : Dict Bool)
    → flag_at j (insert k true reported) ≡ false
    → (k ≢ j) × (flag_at j reported ≡ false)
flag_at-insert k j reported h = (
  (λ e. ground (arith, eq_iff k j, lookup-insert k j true reported)),
  ground (arith, eq_iff k j, lookup-insert k j true reported),
)

-- One call: it starts no event and leaves the map as it was or with one package more, or it starts
-- its own event.
report_usage_cases :
    (endpoint : Text) (c : UsageCall) (reported : Dict Bool)
    → let out = report_usage endpoint c.process c.pkg c.dimensions reported in
      ((out.0 ≡ reported) × (out.1 ≡ none))
      ⊎ ((out.0 ≡ insert c.pkg true reported) × (out.1 ≡ none))
      ⊎ ((out.0 ≡ insert c.pkg true reported)
          × (out.1 ≡ some (record { pkg = c.pkg; dimensions = c.dimensions }))
          × (flag_at c.pkg reported ≡ false)
          × (usage_reporting_disabled c.process ≡ false)
          × (is_empty endpoint ≡ false))
unfolding report_usage
report_usage_cases endpoint c reported = elim (Bool-cases (is_empty endpoint)) [
  | inl off ↦ inl (rw off, rw off)
  | inr on ↦ elim (Bool-cases (flag_at c.pkg reported)) [
    | inl old ↦ inr (inl (rw on, rw (on, old)))
    | inr new ↦ elim (Bool-cases (usage_reporting_disabled c.process)) [
      | inl opted_out ↦ inr (inl (rw on, simp (on, new, opted_out)))
      | inr enabled ↦ inr (inr (rw on, simp (on, new, enabled), new, enabled, on))
    ]
  ]
]

-- What holds of the events behind a call holds of them before it.
All-earlier :
    (endpoint : Text) (c : UsageCall) (calls : List UsageCall) (es : List UsageEvent)
    → All (IsAsked endpoint calls) es
    → All (IsAsked endpoint (c ∷ calls)) es
All-earlier endpoint c calls [] h = tt
All-earlier endpoint c calls (e ∷ es) h =
    let (d, m, pkg, dims, on, endpoint_set) = h.0 in
    ((d, inr m, pkg, dims, on, endpoint_set), All-earlier endpoint c calls es h.1)

All-fresher :
    (k : Text) (reported : Dict Bool) (es : List UsageEvent)
    → All (IsFresh (insert k true reported)) es
    → All (IsFresh reported) es × (¬ Elem k (packages es))
All-fresher k reported [] h = (tt, λ m. m)
All-fresher k reported (e ∷ es) h =
    let (other, fresh) = flag_at-insert k e.pkg reported h.0 in
    let (more, absent) = All-fresher k reported es h.1 in
    ((fresh, more), λ m. elim m [ inl same ↦ other (sym same) | inr later ↦ absent later ])

abbrev IsOnce : Text → List UsageCall → Dict Bool → List UsageEvent → Type 0
IsOnce endpoint calls reported es =
    IsDistinct (packages es) × All (IsFresh reported) es × All (IsAsked endpoint calls) es

reports-IsOnce :
    (endpoint : Text) (calls : List UsageCall) (reported : Dict Bool)
    → IsOnce endpoint calls reported (reports endpoint calls reported)
unfolding reports
reports-IsOnce endpoint [] reported = (tt, tt, tt)
reports-IsOnce endpoint (c ∷ calls) reported =
    let out = report_usage endpoint c.process c.pkg c.dimensions reported in
    let (distinct, fresh, asked) = reports-IsOnce endpoint calls out.0 in
    let es = reports endpoint calls out.0 in
    elim (report_usage_cases endpoint c reported) [
      | inl (same, silent) ↦ rw silent (
        distinct,
        subst (λ r. All (IsFresh r) es) same fresh,
        All-earlier endpoint c calls es asked,
      )
      | inr (inl (added, silent)) ↦
          let (old, absent) =
            All-fresher c.pkg reported es (subst (λ r. All (IsFresh r) es) added fresh) in
          rw silent (distinct, old, All-earlier endpoint c calls es asked)
      | inr (inr (added, started, new, enabled, on)) ↦
          let (old, absent) =
            All-fresher c.pkg reported es (subst (λ r. All (IsFresh r) es) added fresh) in
          rw started (
            (absent, distinct),
            (new, old),
            ((c, inl refl, refl, refl, enabled, on), All-earlier endpoint c calls es asked),
          )
    ]

-- Whatever the order of the calls, a process starts at most one event for a package; each event is
-- that of a call which was made while no opt-out variable was set; and there is none while the
-- endpoint is blank.
pub reports-IsDistinct :
    (endpoint : Text) (calls : List UsageCall)
    → IsDistinct (packages (reports endpoint calls []))
      × All (IsAsked endpoint calls) (reports endpoint calls [])
reports-IsDistinct endpoint calls =
    let (distinct, fresh, asked) = reports-IsOnce endpoint calls [] in (distinct, asked)
