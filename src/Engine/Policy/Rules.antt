-- ===== src/Engine/Policy/Rules.antt =====
-- `LoadPolicy` as a whole: the rules of the Casbin model are those of the rows.
use mathlib.Core.Path.{subst}
use mathlib.Core.List.Memᴰ
use platform_orchestrator_ia.Prelude.{
  String, ◌≡◌, ◌↔◌, ◌⊎◌, inl, inr, refl, UuidText, some, List, [], ◌∷◌, Memᴰ, arith, Option-cases,
}
use platform_orchestrator_ia.Model.Authorization.{
  AuthorizationPolicy, AuthorizationResourceRelation,
}
use platform_orchestrator_ia.Engine.Casbin.{Casbin, IsCasbin}
use platform_orchestrator_ia.Engine.Policy.{
  Loaded, grouping_rule, policy_rule, relation_rule, load_binding, load_permission, load_policies,
  load_relations, load_policy,
}
use platform_orchestrator_ia.Engine.Policy.Loading.{
  Clean, FromRow, IsLoaded, load_binding-IsLoaded, load_permission-IsLoaded,
}

-- The rows that the loop has seen, the last one first.
onto : List AuthorizationPolicy → List AuthorizationPolicy → List AuthorizationPolicy
onto [] seen = seen
onto (p ∷ rows) seen = onto rows (p ∷ seen)

onto_cases :
    {p : AuthorizationPolicy} (rows seen : List AuthorizationPolicy)
    → Memᴰ p (onto rows seen)
    → Memᴰ p rows ⊎ Memᴰ p seen
unfolding onto
onto_cases [] seen m = inr m
onto_cases (q ∷ rows) seen m = elim (onto_cases rows (q ∷ seen) m) [
  | inl n ↦ inl (Memᴰ.tail n)
  | inr n ↦ elim (Memᴰ.cases_cons n) [ inl e ↦ inl (Memᴰ.head e) | inr n' ↦ inr n' ]
]

onto_seen :
    {p : AuthorizationPolicy} (rows seen : List AuthorizationPolicy)
    → Memᴰ p seen
    → Memᴰ p (onto rows seen)
unfolding onto
onto_seen [] seen m = m
onto_seen (q ∷ rows) seen m = onto_seen rows (q ∷ seen) (Memᴰ.tail m)

onto_rows :
    {p : AuthorizationPolicy} (rows seen : List AuthorizationPolicy)
    → Memᴰ p rows
    → Memᴰ p (onto rows seen)
unfolding onto
onto_rows [] seen m = elim m [ ]
onto_rows (q ∷ rows) seen m = elim (Memᴰ.cases_cons m) [
  | inl e ↦ onto_seen rows (q ∷ seen) (Memᴰ.head e)
  | inr n ↦ onto_rows rows (q ∷ seen) n
]

-- The rules that a list of policy rows and a list of relations stand for.
abbrev pub Rule :
    UuidText → List AuthorizationPolicy → List AuthorizationResourceRelation → List String → Type 0
Rule U policies relations x =
    FromRow (grouping_rule U) policies x
    ⊎ FromRow (policy_rule U) policies x
    ⊎ ((r : AuthorizationResourceRelation) × Memᴰ r relations × (x ≡ relation_rule r))

module _ (C : Casbin) (U : UuidText) (L : IsCasbin C) where
  load_policies-IsLoaded :
      (rows : List AuthorizationPolicy) {seen : List AuthorizationPolicy} {s s' : Loaded C}
      → Clean rows
      → Clean seen
      → IsLoaded C U seen seen s
      → load_policies C U rows s ≡ some s'
      → IsLoaded C U (onto rows seen) (onto rows seen) s'
  unfolding onto load_policies
  load_policies-IsLoaded [] {seen} {s} {s'} _ _ h e =
      let e' : s ≡ s' = ground arith in subst (IsLoaded C U seen seen) e' h
  load_policies-IsLoaded (q ∷ rows) {seen} {s} {s'} (clean, cleans) clean_seen h e =
      elim (Option-cases (load_binding C U q s)) [
        | inl failed ↦ absurd (ground arith)
        | inr (s₁, e₁) ↦ elim (Option-cases (load_permission C U q s₁)) [
          | inl failed ↦ absurd (ground arith)
          | inr (s₂, e₂) ↦
              load_policies-IsLoaded rows cleans (clean, clean_seen)
                (load_permission-IsLoaded C U L q (clean, clean_seen)
                  (load_binding-IsLoaded C U L q h e₁) e₂)
                (ground arith)
        ]
      ]

  load_relations-rules :
      (relations : List AuthorizationResourceRelation) (m m' : C.Model)
      → load_relations C relations m ≡ some m'
      → (x : List String)
      → Memᴰ x (C.rules m') ↔ (
          ((r : AuthorizationResourceRelation) × Memᴰ r relations × (x ≡ relation_rule r))
          ⊎ Memᴰ x (C.rules m))
  unfolding load_relations
  load_relations-rules [] m m' e x =
      let e' : m ≡ m' = ground arith in
      (λ k. inr (rw (← e') at k), elim [ inl (r, k, _) ↦ elim k [ ] | inr k ↦ rw e' at k ])
  load_relations-rules (r ∷ relations) m m' e x =
      elim (Option-cases (C.load_policy_array (relation_rule r) m)) [
        | inl failed ↦ absurd (ground arith)
        | inr (m₁, e₁) ↦
            let first = L.rules-load (relation_rule r) m m₁ x e₁ in
            let rest = load_relations-rules relations m₁ m' (ground arith) x in
            (
              λ k. elim (rest.0 k) [
                | inl (r', k', same) ↦ inl (r', Memᴰ.tail k', same)
                | inr k' ↦ elim (first.0 k') [
                  | inl same ↦ inl (r, Memᴰ.head refl, same)
                  | inr k'' ↦ inr k''
                ]
              ],
              elim [
                | inl (r', k, same) ↦ elim (Memᴰ.cases_cons k) [
                  | inl head ↦ rest.1 (inr (first.1 (inl (rw head at same))))
                  | inr k' ↦ rest.1 (inl (r', k', same))
                ]
                | inr k ↦ rest.1 (inr (first.1 (inr k)))
              ],
            )
      ]

  nothing-IsLoaded : IsLoaded C U [] [] (record { model = C.empty; bindings = []; policies = [] })
  nothing-IsLoaded = record {
    sound = λ x m. absurd (none_there x m);
    groups = λ p m. elim m [ ];
    permits = λ p m. elim m [ ];
    bindings = λ k m. elim m [ ];
    policies = λ k m. elim m [ ];
  }
    where
      none_there : (x : List String) → Memᴰ x (C.rules C.empty) → ⊥
      none_there x m = let m' : Memᴰ x [] = rw L.rules-empty at m in elim m' [ ]

  -- A successful `LoadPolicy` leaves exactly the rules of the rows in the Casbin model, whatever the
  -- rows repeat, where no permission holds the "$" of the loader's keys.
  pub load_policy-Rule :
      (policies : List AuthorizationPolicy) (relations : List AuthorizationResourceRelation)
      (m : C.Model)
      → Clean policies
      → load_policy C U policies relations ≡ some m
      → (x : List String) → Memᴰ x (C.rules m) ↔ Rule U policies relations x
  unfolding load_policy
  load_policy-Rule policies relations m clean e x =
      elim (Option-cases
        (load_policies C U policies (record { model = C.empty; bindings = []; policies = [] }))) [
          | inl failed ↦ absurd (ground arith)
          | inr (s, e₁) ↦
              let h = load_policies-IsLoaded policies clean tt nothing-IsLoaded e₁ in
              let rules = load_relations-rules relations s.model m (ground arith) x in
              (
                λ k. elim (rules.0 k) [
                  | inl related ↦ inr (inr related)
                  | inr k' ↦ elim (h.sound x k') [
                    | inl (p, there, same) ↦ inl (p, seen there, same)
                    | inr (p, there, same) ↦ inr (inl (p, seen there, same))
                  ]
                ],
                elim [
                  | inl (p, there, same) ↦
                      rules.1 (inr (rw same (h.groups p (onto_rows policies [] there))))
                  | inr (inl (p, there, same)) ↦
                      rules.1 (inr (rw same (h.permits p (onto_rows policies [] there))))
                  | inr (inr related) ↦ rules.1 (inl related)
                ],
              )
        ]
    where
      seen : {p : AuthorizationPolicy} → Memᴰ p (onto policies []) → Memᴰ p policies
      seen k = elim (onto_cases policies [] k) [ inl k' ↦ k' | inr k' ↦ elim k' [ ] ]
