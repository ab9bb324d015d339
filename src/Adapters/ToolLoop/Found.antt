-- ===== src/Adapters/ToolLoop/Found.antt =====
-- adapters/langchaingo/tools.go: the tool that the map of names finds is the last one of its name.
use go_ai.Prelude.{
  ◌≢◌, false≢true, All-append, ◌≡◌, refl, sym, ap, ◌∙◌, subst, inl, inr, some, List, [], ◌∷◌, ◌++◌,
  map, arith, Bool-cases,
}
use mathlib.Core.List.{append-nil, append_assoc}
use go_ai.Text.{Text, ◌==◌, eq_iff}
use go_ai.Dict.{Dict, lookup, insert, lookup-insert}
use go_ai.Mcp.{Tool}
use go_ai.Adapters.ToolLoop.{by_name}
use go_ai.Adapters.ToolLoop.Recorded.{Log, recorded_tool, IsLast}

-- Each tool of the map is, recorded, the last one of its name in the list.
abbrev pub Finds : {W : Type 0} → List (Tool W) → Dict (Tool (W × Log)) → Type 0
Finds {W} ts found =
    (n : Text) (t : Tool (W × Log))
    → lookup n found ≡ some t
    → (u : Tool W) × IsLast ts n u × (t ≡ recorded_tool u)

IsLast-later :
    {W : Type 0} (ts : List (Tool W)) (n : Text) (u v : Tool W)
    → v.name ≢ n
    → IsLast ts n u
    → IsLast (ts ++ v ∷ []) n u
IsLast-later ts n u v other (before, after, split, named, later) = (
  before,
  after ++ v ∷ [],
  ap (λ l. l ++ v ∷ []) split ∙ append_assoc before (u ∷ after) (v ∷ []),
  named,
  All-append (λ t. t.name ≢ n) after (v ∷ []) later (other, tt),
)

pub by_name-Finds :
    {W : Type 0} (ts seen : List (Tool W)) (found : Dict (Tool (W × Log)))
    → Finds seen found
    → Finds (seen ++ ts) (by_name found (map recorded_tool ts))
unfolding by_name
by_name-Finds {W} [] seen found h =
    subst (λ (l : List (Tool W)). Finds l found) (sym (append-nil seen)) h
by_name-Finds {W} (t ∷ ts) seen found h =
    let found' = insert t.name (recorded_tool t) found in
    let step : Finds (seen ++ t ∷ []) found' = λ n v there.
      let e = lookup-insert t.name n (recorded_tool t) found in
      elim (Bool-cases (t.name == n)) [
        | inl this ↦
            let same : recorded_tool t ≡ v = ground (arith, e) in
            (t, (seen, [], refl, (eq_iff t.name n).0 this, tt), sym same)
        | inr other ↦
            let (u, last, same) = h n v (ground (arith, e)) in
            let apart : t.name ≢ n = λ q. false≢true (sym other ∙ (eq_iff t.name n).1 q) in
            (u, IsLast-later seen n u t apart last, same)
      ] in
    subst (λ l. Finds l (by_name found' (map recorded_tool ts))) (append_assoc seen (t ∷ []) ts)
      (by_name-Finds ts (seen ++ t ∷ []) found' step)

pub no_tool-Finds : (W : Type 0) → Finds {W = W} [] []
unfolding lookup
no_tool-Finds W n t h = cc
