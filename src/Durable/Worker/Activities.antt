-- ===== src/Durable/Worker/Activities.antt =====
-- durable/dapr.go: the activities that a worker offers.
use go_ai.Prelude.{
  ◌≡◌, refl, sym, ap, ◌∙◌, subst, ◌⊎◌, ◌↔◌, inl, inr, Bool, true, false, ◌||◌, List, [], ◌∷◌, ◌++◌,
  ok, arith, Bool-cases, false≢true, Elem, IsDistinct, if◌then◌else◌, Elem-append_left,
  Elem-append_right, Elem-of_append,
}
use go_ai.Text.{Text, ◌==◌, eq_iff}
use go_ai.Dict.{Dict, lookup, insert, lookup-insert}
use go_ai.Agent.Graph.{is_empty}
use go_ai.Agent.Config.{flag_at}
use go_ai.Durable.Worker.{WorkflowRegistry, register_nodes}

-- What the SDK documents of its registry: `activities` are the names that it holds, and a name that
-- is not among them is accepted.
pub record IsActivityRegistry {R : Type 0} (reg : WorkflowRegistry R) (activities : R → List Text)
    : Type 0 where
  pub accepts :
      (n : Text) (r : R)
      → ¬ Elem n (activities r)
      → (r' : R) × (reg.add_activity n r ≡ ok r') × (activities r' ≡ activities r ++ n ∷ [])

flag_at-insert :
    (k j : Text) (seen : Dict Bool)
    → flag_at j (insert k true seen) ≡ (if k == j then true else flag_at j seen)
flag_at-insert k j seen =
    rw (lookup-insert k j true seen, flag_at)
      (elim (Bool-cases (k == j)) [ inl this ↦ rw this refl | inr other ↦ rw other refl ])

module _ {R : Type 0} (reg : WorkflowRegistry R) (activities : R → List Text)
    (law : IsActivityRegistry reg activities) where
  -- `seen` and the registry agree.
  abbrev IsSeen : Dict Bool → R → Type 0
  IsSeen seen r = (n : Text) → Elem n (activities r) ↔ (flag_at n seen ≡ true)

  abbrev IsOffered : List Text → R → R → Type 0
  IsOffered names r r' =
      IsDistinct (activities r')
      × ((n : Text)
          → Elem n (activities r')
            ↔ (Elem n (activities r) ⊎ (Elem n names × (is_empty n ≡ false))))

  IsDistinct-append_one :
      (xs : List Text) (x : Text) → IsDistinct xs → ¬ Elem x xs → IsDistinct (xs ++ x ∷ [])
  IsDistinct-append_one [] x d h = ((λ m. m), tt)
  IsDistinct-append_one (y ∷ xs) x d h = (
    (λ m. elim (Elem-of_append y xs (x ∷ []) m) [
      | inl a ↦ d.0 a
      | inr (inl e) ↦ h (inl (sym e))
      | inr (inr f) ↦ f
    ]),
    IsDistinct-append_one xs x d.1 (λ m. h (inr m)),
  )

  IsSeen-added :
      (name : Text) (seen : Dict Bool) (r r' : R)
      → activities r' ≡ activities r ++ name ∷ []
      → IsSeen seen r
      → IsSeen (insert name true seen) r'
  IsSeen-added name seen r r' e h n =
      rw (flag_at-insert name n seen, e)
        (elim (Bool-cases (name == n)) [
          | inl this ↦ rw this (
            (λ m. refl),
            λ k. Elem-append_right n (activities r) (name ∷ []) (inl ((eq_iff name n).0 this)),
          )
          | inr other ↦ rw other (
            (λ m. elim (Elem-of_append n (activities r) (name ∷ []) m) [
              | inl old ↦ (h n).0 old
              | inr (inl same) ↦ absurd (false≢true (sym other ∙ (eq_iff name n).1 same))
              | inr (inr never) ↦ absurd never
            ]),
            λ k. Elem-append_left n (activities r) (name ∷ []) ((h n).1 k),
          )
        ])

  IsOffered-skipped :
      (name : Text) (names : List Text) (seen : Dict Bool) (r r' : R)
      → (is_empty name || flag_at name seen) ≡ true
      → IsSeen seen r
      → IsOffered names r r'
      → IsOffered (name ∷ names) r r'
  IsOffered-skipped name names seen r r' skip h (distinct, offered) = (
    distinct,
    λ n. (
      (λ m. elim ((offered n).0 m) [ inl a ↦ inl a | inr (a, k) ↦ inr (inr a, k) ]),
      λ m. elim m [
        | inl a ↦ (offered n).1 (inl a)
        | inr (inl same, k) ↦
            let full : is_empty name ≡ false = ap is_empty same ∙ k in
            let was : flag_at name seen ≡ true = ground arith in
            (offered n).1 (inl ((h n).1 (ap (λ x. flag_at x seen) (sym same) ∙ was)))
        | inr (inr a, k) ↦ (offered n).1 (inr (a, k))
      ],
    ),
  )

  IsOffered-added :
      (name : Text) (names : List Text) (seen : Dict Bool) (r r₁ r' : R)
      → (is_empty name || flag_at name seen) ≡ false
      → activities r₁ ≡ activities r ++ name ∷ []
      → IsOffered names r₁ r'
      → IsOffered (name ∷ names) r r'
  IsOffered-added name names seen r r₁ r' fresh e (distinct, offered) =
      let added = activities r ++ name ∷ [] in
      (
        distinct,
        λ n. (
          (λ m. elim ((offered n).0 m) [
            | inr (a, k) ↦ inr (inr a, k)
            | inl a ↦ elim (Elem-of_append n (activities r) (name ∷ []) (subst (Elem n) e a)) [
              | inl old ↦ inl old
              | inr (inl same) ↦
                  let full : is_empty name ≡ false = ground arith in
                  inr (inl same, ap is_empty (sym same) ∙ full)
              | inr (inr never) ↦ absurd never
            ]
          ]),
          λ m. elim m [
            | inl a ↦
                (offered n).1
                  (inl (subst (Elem n) (sym e) (Elem-append_left n (activities r) (name ∷ []) a)))
            | inr (inl same, k) ↦ (offered n).1 (
                inl (
                  subst (Elem n) (sym e)
                    (Elem-append_right n (activities r) (name ∷ []) (inl same))))
            | inr (inr a, k) ↦ (offered n).1 (inr (a, k))
          ],
        ),
      )

  register_nodes-IsOffered :
      (names : List Text) (seen : Dict Bool) (r : R)
      → IsDistinct (activities r)
      → IsSeen seen r
      → (r' : R) × (register_nodes reg seen names r ≡ ok r') × IsOffered names r r'
  unfolding register_nodes
  register_nodes-IsOffered [] seen r d h =
      (r, refl, (d, λ n. ((λ m. inl m), λ m. elim m [ inl a ↦ a | inr b ↦ absurd b.0 ])))
  register_nodes-IsOffered (name ∷ names) seen r d h =
      elim (Bool-cases (is_empty name || flag_at name seen)) [
        | inl skip ↦
            let (r', same, offered) = register_nodes-IsOffered names seen r d h in
            (
              r',
              simp (skip, same, register_nodes),
              IsOffered-skipped name names seen r r' skip h offered,
            )
        | inr fresh ↦
            let absent : ¬ Elem name (activities r) = λ m. (let k = (h name).0 m in ground arith) in
            let (r₁, added, e) = law.accepts name r absent in
            let (r', same, offered) =
              register_nodes-IsOffered names (insert name true seen) r₁
                (subst IsDistinct (sym e) (IsDistinct-append_one (activities r) name d absent))
                (IsSeen-added name seen r r₁ e h) in
            (
              r',
              simp (fresh, added, same, register_nodes),
              IsOffered-added name names seen r r₁ r' fresh e offered,
            )
      ]

  -- On a registry without activities the nodes are registered without an error, and the worker then
  -- offers one activity for each node name that is not empty, once, and no other.
  pub register_nodes_offers :
      (names : List Text) (r : R)
      → activities r ≡ []
      → (r' : R) × (register_nodes reg [] names r ≡ ok r')
        × IsDistinct (activities r')
        × ((n : Text) → Elem n (activities r') ↔ (Elem n names × (is_empty n ≡ false)))
  unfolding lookup
  register_nodes_offers names r none_yet =
      let (r', same, (distinct, offered)) =
        register_nodes-IsOffered names [] r (subst IsDistinct (sym none_yet) tt)
          (λ n. ((λ m. absurd (subst (Elem n) none_yet m)), λ k. absurd (false≢true k))) in
      (
        r',
        same,
        distinct,
        λ n. (
          (λ m. elim ((offered n).0 m) [ inl a ↦ absurd (subst (Elem n) none_yet a) | inr b ↦ b ]),
          λ b. (offered n).1 (inr b),
        ),
      )
