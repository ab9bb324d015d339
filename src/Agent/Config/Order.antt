-- ===== src/Agent/Config/Order.antt =====
-- agent/config.go: the description does not depend on the order in which a map is visited.
use go_ai.Prelude.{◌≡◌, refl, ap, ◌∙◌, Bool, ◌||◌, some, [], ◌∷◌, arith}
use mathlib.Core.List.{Permᴰ}
use go_ai.Text.{Text, ◌==◌}
use go_ai.Text.Sort.{sort-eq_of_permᴰ}
use go_ai.Dict.{Dict, lookup}
use go_ai.Agent.Graph.{Conditional, end_node}
use go_ai.Agent.Config.{mapping_targets, describe_node}

targets-flag : (m : Dict Text) (f₁ f₂ : Bool) → (mapping_targets m f₁).0 ≡ (mapping_targets m f₂).0
unfolding mapping_targets
targets-flag [] f₁ f₂ = refl
targets-flag ((key, dst) ∷ m) f₁ f₂ = ap (λ t. dst ∷ t) (targets-flag m _ _)

targets_of_perm :
    {m₁ m₂ : Dict Text} (f₁ f₂ : Bool)
    → Permᴰ m₁ m₂
    → Permᴰ (mapping_targets m₁ f₁).0 (mapping_targets m₂ f₂).0
unfolding mapping_targets
targets_of_perm f₁ f₂ Permᴰ.nil = Permᴰ.nil
targets_of_perm f₁ f₂ (Permᴰ.cons e p) = Permᴰ.cons (ap (λ x. x.1) e) (targets_of_perm _ _ p)
targets_of_perm f₁ f₂ (Permᴰ.swap {a} {b} {a'} {b'} {l} e g) =
    rw
      (targets-flag l ((f₁ || a.1 == end_node) || b.1 == end_node)
        ((f₂ || a'.1 == end_node) || b'.1 == end_node))
      (Permᴰ.swap (ap (λ x. x.1) e) (ap (λ x. x.1) g))
targets_of_perm f₁ f₂ (Permᴰ.trans p q) =
    Permᴰ.trans (targets_of_perm f₁ f₂ p) (targets_of_perm f₂ f₂ q)

or_swap : (f a b : Bool) → ((f || a) || b) ≡ ((f || b) || a)
or_swap f a b = ground arith

flag_of_perm :
    {m₁ m₂ : Dict Text} (f : Bool)
    → Permᴰ m₁ m₂
    → (mapping_targets m₁ f).1 ≡ (mapping_targets m₂ f).1
unfolding mapping_targets
flag_of_perm f Permᴰ.nil = refl
flag_of_perm f (Permᴰ.cons {a} {b} {l₁} {l₂} e p) =
    flag_of_perm (f || a.1 == end_node) p
    ∙ ap (λ (x : Text × Text). (mapping_targets l₂ (f || x.1 == end_node)).1) e
flag_of_perm f (Permᴰ.swap {a} {b} {a'} {b'} {l} e g) =
    ap (λ x. (mapping_targets l x).1) (or_swap f (a.1 == end_node) (b.1 == end_node))
    ∙ ap (λ (x : Text × Text). (mapping_targets l ((f || x.1 == end_node) || a.1 == end_node)).1) g
    ∙ ap (λ (x : Text × Text). (mapping_targets l ((f || a'.1 == end_node) || x.1 == end_node)).1) e
flag_of_perm f (Permᴰ.trans p q) = flag_of_perm f p ∙ flag_of_perm f q

-- Two graphs whose conditional edges at a node have the same mapping, visited in different orders,
-- get the same edge in the description, and the node is a finish point of both or of neither.
pub describe_node-order :
    (edges : Dict Text) (conds₁ conds₂ : Dict Conditional) (n : Text) (finish : Bool)
    (c₁ c₂ : Conditional)
    → lookup n conds₁ ≡ some c₁
    → lookup n conds₂ ≡ some c₂
    → Permᴰ c₁.mapping c₂.mapping
    → describe_node edges conds₁ n finish ≡ describe_node edges conds₂ n finish
unfolding describe_node
describe_node-order edges conds₁ conds₂ n finish c₁ c₂ found₁ found₂ p =
    rw (found₁, found₂, sort-eq_of_permᴰ (targets_of_perm finish finish p), flag_of_perm finish p)
