-- ===== src/Identity/Middleware/Answers.antt =====
-- identity/middleware.go: the answers to requests that the gate rejects.
use go_ai.Prelude.{
  ℕ, ◌≡◌, refl, ◌≢◌, ◌⊎◌, inl, inr, Bool, true, false, Option, none, some, arith, Bool-cases,
  Option-cases, false≢true, sym, ◌∙◌, subst,
}
use go_ai.Text.{Text, codes, eq-cases, eq_refl, eq_false}
use go_ai.Identity.Code
use go_ai.Identity.Errors.{
  Fault, not_ready, not_configured, verifier_closed, plain, token, bare_token, wrap, wrap_two,
  verifier_panicked, is_not_ready, as_token_error, first_of_two, status_for_code,
}
use go_ai.Identity.Middleware.{Outcome, answered, abandoned, write_error, reject_verify_error}

-- The second error is the first one, or is wrapped in it somewhere.
pub data Wraps : Fault → Fault → Type 0 where
  itself : {e : Fault} → Wraps e e
  in_token : {code : Text} {e f : Fault} → Wraps e f → Wraps (token code e) f
  in_wrap : {e f : Fault} → Wraps e f → Wraps (wrap e) f
  in_first : {e g f : Fault} → Wraps e f → Wraps (wrap_two e g) f
  in_second : {e g f : Fault} → Wraps g f → Wraps (wrap_two e g) f

-- No token error is wrapped.
abbrev pub IsTokenless : Fault → Type 0
IsTokenless (token code e) = ⊥
IsTokenless (bare_token code) = ⊥
IsTokenless (wrap e) = IsTokenless e
IsTokenless (wrap_two e f) = IsTokenless e × IsTokenless f
IsTokenless _ = Unit

-- The first token error of the walk, outside in and left to right, has the code.
pub data IsFirstCode : Fault → Text → Type 0 where
  at_token : {code : Text} {e : Fault} → IsFirstCode (token code e) code
  at_bare : {code : Text} → IsFirstCode (bare_token code) code
  at_wrapped : {e : Fault} {code : Text} → IsFirstCode e code → IsFirstCode (wrap e) code
  at_first : {e f : Fault} {code : Text} → IsFirstCode e code → IsFirstCode (wrap_two e f) code
  at_second :
      {e f : Fault} {code : Text}
      → IsTokenless e
      → IsFirstCode f code
      → IsFirstCode (wrap_two e f) code

-- A JSON answer, not to be stored, that carries the code.
abbrev pub problem : ℕ → Text → Outcome
problem status code = answered (record {
  status = status;
  content_type = codes "application/json";
  cache_control = codes "no-store";
  error = code;
})

-- The answer to a failed verification, by what the error wraps.
pub data IsRejection (gone : Bool) (e : Fault) : Outcome → Type 0 where
  unavailable :
      Wraps e not_ready → IsRejection gone e (problem 503 (codes "oauth.verifier_unavailable"))
  lacking_scope :
      ¬ Wraps e not_ready
      → IsFirstCode e (codes "oauth.missing_scope")
      → IsRejection gone e (problem 403 (codes "oauth.missing_scope"))
  bad_token :
      (code : Text)
      → ¬ Wraps e not_ready
      → IsFirstCode e code
      → code ≢ codes "oauth.missing_scope"
      → IsRejection gone e (problem 401 code)
  unforeseen :
      ¬ Wraps e not_ready
      → IsTokenless e
      → gone ≡ false
      → IsRejection gone e (problem 503 (codes "oauth.verifier_unavailable"))
  unheard : ¬ Wraps e not_ready → IsTokenless e → gone ≡ true → IsRejection gone e abandoned

Wraps-not_ready : (e : Fault) → is_not_ready e ≡ true → Wraps e not_ready
unfolding is_not_ready
Wraps-not_ready not_ready h = itself
Wraps-not_ready not_configured h = cc h
Wraps-not_ready verifier_closed h = cc h
Wraps-not_ready verifier_panicked h = cc h
Wraps-not_ready (plain t) h = cc h
Wraps-not_ready (bare_token c) h = cc h
Wraps-not_ready (token c e) h = in_token (Wraps-not_ready e h)
Wraps-not_ready (wrap e) h = in_wrap (Wraps-not_ready e h)
Wraps-not_ready (wrap_two e f) h = elim (Bool-cases (is_not_ready e)) [
  | inl first ↦ in_first (Wraps-not_ready e first)
  | inr other ↦ in_second (Wraps-not_ready f (ground arith))
]

is_not_ready-Wraps : {e : Fault} → Wraps e not_ready → is_not_ready e ≡ true
unfolding is_not_ready
is_not_ready-Wraps itself = refl
is_not_ready-Wraps (in_token w) = is_not_ready-Wraps w
is_not_ready-Wraps (in_wrap w) = is_not_ready-Wraps w
is_not_ready-Wraps (in_first {e} {g} w) = rw (is_not_ready-Wraps w) refl
is_not_ready-Wraps (in_second {e} {g} w) = let second = is_not_ready-Wraps w in ground arith

some_of_first :
    (o p : Option Text) (c : Text)
    → first_of_two o p ≡ some c
    → (o ≡ some c) ⊎ ((o ≡ none) × (p ≡ some c))
some_of_first none p c h = inr (refl, h)
some_of_first (some d) p c h = inl h

none_of_first : (o p : Option Text) → first_of_two o p ≡ none → (o ≡ none) × (p ≡ none)
none_of_first none p h = (refl, h)
none_of_first (some d) p h = cc h

as_token_error-IsTokenless : (e : Fault) → as_token_error e ≡ none → IsTokenless e
unfolding as_token_error
as_token_error-IsTokenless not_ready h = tt
as_token_error-IsTokenless not_configured h = tt
as_token_error-IsTokenless verifier_closed h = tt
as_token_error-IsTokenless verifier_panicked h = tt
as_token_error-IsTokenless (plain t) h = tt
as_token_error-IsTokenless (token d e) h = cc h
as_token_error-IsTokenless (bare_token d) h = cc h
as_token_error-IsTokenless (wrap e) h = as_token_error-IsTokenless e h
as_token_error-IsTokenless (wrap_two e f) h =
    let (first, second) = none_of_first (as_token_error e) (as_token_error f) h in
    (as_token_error-IsTokenless e first, as_token_error-IsTokenless f second)

as_token_error-IsFirstCode :
    (e : Fault) (code : Text) → as_token_error e ≡ some code → IsFirstCode e code
unfolding as_token_error
as_token_error-IsFirstCode not_ready code h = cc h
as_token_error-IsFirstCode not_configured code h = cc h
as_token_error-IsFirstCode verifier_closed code h = cc h
as_token_error-IsFirstCode verifier_panicked code h = cc h
as_token_error-IsFirstCode (plain t) code h = cc h
as_token_error-IsFirstCode (token d e) code h =
    let same : d ≡ code = cc in subst (IsFirstCode (token d e)) same at_token
as_token_error-IsFirstCode (bare_token d) code h =
    let same : d ≡ code = cc in subst (IsFirstCode (bare_token d)) same at_bare
as_token_error-IsFirstCode (wrap e) code h = at_wrapped (as_token_error-IsFirstCode e code h)
as_token_error-IsFirstCode (wrap_two e f) code h =
    elim (some_of_first (as_token_error e) (as_token_error f) code h) [
      | inl first ↦ at_first (as_token_error-IsFirstCode e code first)
      | inr (missing, second) ↦
          at_second (as_token_error-IsTokenless e missing)
            (as_token_error-IsFirstCode f code second)
    ]

coded-IsRejection :
    (gone : Bool) (e : Fault) (code : Text)
    → ¬ Wraps e not_ready
    → IsFirstCode e code
    → IsRejection gone e (write_error (status_for_code code) code)
unfolding status_for_code write_error
coded-IsRejection gone e code other first = elim (eq-cases code Code.missing_scope) [
  | inl lacking ↦
      rw (lacking, eq_refl Code.missing_scope)
        (lacking_scope other (subst (IsFirstCode e) lacking first))
  | inr bad ↦ rw (eq_false code Code.missing_scope bad) (bad_token code other first bad)
]

-- A failed verification is answered 503 where the error wraps "not ready"; otherwise with the code of
-- the first token error on its walk, 403 for a missing scope and 401 for every other code; and where
-- it wraps no token error, 503 again, or not at all where the caller is gone.
pub reject_verify_error-IsRejection :
    (gone : Bool) (e : Fault) → IsRejection gone e (reject_verify_error gone e)
unfolding reject_verify_error write_error
reject_verify_error-IsRejection gone e = elim (Bool-cases (is_not_ready e)) [
  | inl ready ↦ rw ready (unavailable (Wraps-not_ready e ready))
  | inr awake ↦
      let other : ¬ Wraps e not_ready = λ w. false≢true (sym awake ∙ is_not_ready-Wraps w) in
      elim (Option-cases (as_token_error e)) [
        | inr (c, found) ↦
            rw (awake, found)
              (coded-IsRejection gone e c other (as_token_error-IsFirstCode e c found))
        | inl missing ↦
            let tokenless = as_token_error-IsTokenless e missing in
            elim (Bool-cases gone) [
              | inl left ↦ rw (awake, missing, left) (unheard other tokenless refl)
              | inr waits ↦ rw (awake, missing, waits) (unforeseen other tokenless refl)
            ]
      ]
]
