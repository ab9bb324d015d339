-- ===== src/Value.antt =====
-- Go's `any`, as far as the code looks into it: the types that its type switches and assertions
-- name have a constructor each. A value of any other dynamic type is `opaque`, with a number that
-- tells such values apart.
use go_ai.Prelude.{ℕ, Bool, List, [], ◌∷◌}
use go_ai.Text.{Text}

mutual
  pub data Value : Type 0 where
    null : Value
    boolean : Bool → Value
    text : Text → Value
    texts : List Text → Value
    array : Items → Value
    object : Fields → Value
    opaque : ℕ → Value

  -- The elements of a `[]any`.
  pub data Items : Type 0 where
    nil : Items
    cons : Value → Items → Items

  -- The entries of a `map[string]any`.
  pub data Fields : Type 0 where
    end : Fields
    field : Text → Value → Fields → Fields

abbrev pub append : Items → Items → Items
append nil ys = ys
append (cons x xs) ys = cons x (append xs ys)

abbrev pub items : Items → List Value
items nil = []
items (cons x xs) = x ∷ items xs
