-- ===== src/Registry/Directory/Writers/Counts.antt =====
-- registry/registry.go: how many writers are done, and how many steps are left.
use go_ai.Prelude.{
  length, map, ℕ, suc, ◌+◌, ◌≤◌, ◌≡◌, ◌≢◌, refl, sym, ap, ◌∙◌, List, [], ◌∷◌, arith, All,
}
use go_ai.Text.{Text}
use go_ai.Registry.Directory.Writers.{Phase, reading, writing, done, failed, Writer}
use go_ai.Registry.Directory.Writers.Invariant.{is_done, count_done}
use go_ai.Registry.Directory.Writers.{starting}

-- The steps that a writer can still take, and those of all.
abbrev pub steps_left : Phase → ℕ
steps_left (reading left) = left + left + 1
steps_left (writing left list etag) = left + left + 2
steps_left done = 0
steps_left failed = 0

abbrev pub all_steps_left : List Writer → ℕ
all_steps_left [] = 0
all_steps_left (w ∷ ws) = steps_left w.phase + all_steps_left ws

abbrev pub names_of : List Writer → List Text
names_of ws = map (λ (w : Writer). w.name) ws

-- 21 for each of the names.
abbrev pub step_bound : List Text → ℕ
step_bound [] = 0
step_bound (n ∷ names) = 21 + step_bound names

pub starting-steps : (names : List Text) → all_steps_left (starting names) ≡ step_bound names
starting-steps [] = refl
starting-steps (n ∷ names) = let rest = starting-steps names in omega arith

pub starting-names : (names : List Text) → names_of (starting names) ≡ names
starting-names [] = refl
starting-names (n ∷ names) = ap (λ ns. n ∷ ns) (starting-names names)

pub starting-length : (names : List Text) → length (starting names) ≡ length names
starting-length [] = refl
starting-length (n ∷ names) = ap suc (starting-length names)

pub is_done-le : (ph : Phase) → is_done ph ≤ 1
is_done-le (reading left) = omega arith
is_done-le (writing left list etag) = omega arith
is_done-le done = omega arith
is_done-le failed = omega arith

pub count_done-le : (ws : List Writer) → count_done ws ≤ length ws
count_done-le [] = omega arith
count_done-le (w ∷ ws) = omega (arith, is_done-le w.phase, count_done-le ws)

pub is_done-done : (ph : Phase) → is_done ph ≡ 1 → ph ≡ done
is_done-done (reading left) h = absurd (omega (arith, h))
is_done-done (writing left list etag) h = absurd (omega (arith, h))
is_done-done done h = refl
is_done-done failed h = absurd (omega (arith, h))

abbrev pub AllDone : List Writer → Type 0
AllDone ws = All (λ (w : Writer). w.phase ≡ done) ws

abbrev pub NoneFailed : List Writer → Type 0
NoneFailed ws = All (λ (w : Writer). w.phase ≢ failed) ws

pub all_counted : (ws : List Writer) → count_done ws ≡ length ws → AllDone ws
all_counted [] h = tt
all_counted (w ∷ ws) h =
    let one = is_done-le w.phase in
    let rest = count_done-le ws in
    (is_done-done w.phase (omega arith), all_counted ws (omega arith))

pub AllDone-unfailed : (ws : List Writer) → AllDone ws → NoneFailed ws
AllDone-unfailed [] h = tt
AllDone-unfailed (w ∷ ws) h = ((λ e. let k = sym h.0 ∙ e in cc), AllDone-unfailed ws h.1)
