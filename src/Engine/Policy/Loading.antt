-- ===== src/Engine/Policy/Loading.antt =====
-- What `LoadPolicy` leaves in the Casbin model: one rule for each row, and no other.
use mathlib.Core.Path.{subst}
use mathlib.Core.List.Memᴰ
use platform_orchestrator_ia.Prelude.{
  String, ◌=~◌, ◌≡◌, ◌↔◌, ◌⊎◌, inl, inr, refl, UuidText, some, List, ◌∷◌, Memᴰ, Lacks, All, arith,
  eq_iff, any_sound, Bool-cases, Option-cases, true,
}
use platform_orchestrator_ia.Model.Authorization.{AuthorizationPolicy}
use platform_orchestrator_ia.Engine.Casbin.{Casbin, IsCasbin}
use platform_orchestrator_ia.Engine.Policy.{
  Loaded, contains, membership_key, policy_key, grouping_rule, policy_rule, load_binding,
  load_permission,
}
use platform_orchestrator_ia.Engine.Policy.Keys.{grouping_rule_of_key, policy_rule_of_key}

-- No permission of the rows holds the "$" that the keys are joined with.
abbrev pub Clean : List AuthorizationPolicy → Type 0
Clean = All (λ p. Lacks b'$' p.permission)

Clean-mem :
    {p : AuthorizationPolicy} {ps : List AuthorizationPolicy}
    → Clean ps
    → Memᴰ p ps
    → Lacks b'$' p.permission
Clean-mem c (Memᴰ.head e) = rw e c.0
Clean-mem c (Memᴰ.tail m) = Clean-mem c.1 m

-- The rule stands for one of the rows, by the given reading of a row.
abbrev pub FromRow :
    (AuthorizationPolicy → List String) → List AuthorizationPolicy → List String → Type 0
FromRow rule rows x = (p : AuthorizationPolicy) × Memᴰ p rows × (x ≡ rule p)

contains_sound : (key : String) (keys : List String) → contains key keys ≡ true → Memᴰ key keys
contains_sound key keys h =
    let (k, m, e) = any_sound (λ k. k =~ key) keys h in
    subst (λ x. Memᴰ x keys) ((eq_iff k key).0 e) m

module _ (C : Casbin) (U : UuidText) where
  -- The state after the bindings of the rows `gs` and the permissions of the rows `ps`.
  pub record IsLoaded (gs ps : List AuthorizationPolicy) (s : Loaded C) : Type 0 where
    pub sound :
        (x : List String)
        → Memᴰ x (C.rules s.model)
        → FromRow (grouping_rule U) gs x ⊎ FromRow (policy_rule U) ps x
    pub groups : (p : AuthorizationPolicy) → Memᴰ p gs → Memᴰ (grouping_rule U p) (C.rules s.model)
    pub permits : (p : AuthorizationPolicy) → Memᴰ p ps → Memᴰ (policy_rule U p) (C.rules s.model)
    pub bindings :
        (k : String)
        → Memᴰ k s.bindings
        → (p : AuthorizationPolicy) × Memᴰ p gs × (k ≡ membership_key U p)
    pub policies :
        (k : String)
        → Memᴰ k s.policies
        → (p : AuthorizationPolicy) × Memᴰ p ps × (k ≡ policy_key U p)

  later :
      (rule : AuthorizationPolicy → List String) (q : AuthorizationPolicy)
      (rows : List AuthorizationPolicy) (x : List String)
      → FromRow rule rows x
      → FromRow rule (q ∷ rows) x
  later rule q rows x (p, m, e) = (p, Memᴰ.tail m, e)

  -- The row's rule is there already.
  binding_known :
      (q : AuthorizationPolicy) {gs ps : List AuthorizationPolicy} {s : Loaded C}
      → IsLoaded gs ps s
      → Memᴰ (grouping_rule U q) (C.rules s.model)
      → IsLoaded (q ∷ gs) ps s
  binding_known q {gs} {ps} {s} h known = record {
    sound = λ x m. elim (h.sound x m) [
      | inl f ↦ inl (later (grouping_rule U) q gs x f)
      | inr f ↦ inr f
    ];
    groups = λ p m. elim (Memᴰ.cases_cons m) [ inl e ↦ rw e known | inr n ↦ h.groups p n ];
    permits = h.permits;
    bindings = λ k m. let (p, n, e) = h.bindings k m in (p, Memᴰ.tail n, e);
    policies = h.policies;
  }

  permission_known :
      (q : AuthorizationPolicy) {gs ps : List AuthorizationPolicy} {s : Loaded C}
      → IsLoaded gs ps s
      → Memᴰ (policy_rule U q) (C.rules s.model)
      → IsLoaded gs (q ∷ ps) s
  permission_known q {gs} {ps} {s} h known = record {
    sound =
        λ x m. elim (h.sound x m) [ inl f ↦ inl f | inr f ↦ inr (later (policy_rule U) q ps x f) ];
    groups = h.groups;
    permits = λ p m. elim (Memᴰ.cases_cons m) [ inl e ↦ rw e known | inr n ↦ h.permits p n ];
    bindings = h.bindings;
    policies = λ k m. let (p, n, e) = h.policies k m in (p, Memᴰ.tail n, e);
  }

  -- The model after one more rule.
  Extends : List String → C.Model → C.Model → Type 0
  Extends rule m m' = (x : List String) → Memᴰ x (C.rules m') ↔ ((x ≡ rule) ⊎ Memᴰ x (C.rules m))

  binding_added :
      (q : AuthorizationPolicy) {gs ps : List AuthorizationPolicy} {s : Loaded C} {m' : C.Model}
      → IsLoaded gs ps s
      → Extends (grouping_rule U q) s.model m'
      → IsLoaded (q ∷ gs) ps (record s { model = m'; bindings = membership_key U q ∷ s.bindings })
  unfolding Extends
  binding_added q {gs} {ps} h ext = record {
    sound = λ x m. elim ((ext x).0 m) [
      | inl e ↦ inl (q, Memᴰ.head refl, e)
      | inr n ↦ elim (h.sound x n) [
        | inl f ↦ inl (later (grouping_rule U) q gs x f)
        | inr f ↦ inr f
      ]
    ];
    groups = λ p m. elim (Memᴰ.cases_cons m) [
      | inl e ↦ (ext _).1 (inl (rw e refl))
      | inr n ↦ (ext _).1 (inr (h.groups p n))
    ];
    permits = λ p m. (ext _).1 (inr (h.permits p m));
    bindings = λ k m. elim (Memᴰ.cases_cons m) [
      | inl e ↦ (q, Memᴰ.head refl, e)
      | inr n ↦ let (p, n', e) = h.bindings k n in (p, Memᴰ.tail n', e)
    ];
    policies = h.policies;
  }

  permission_added :
      (q : AuthorizationPolicy) {gs ps : List AuthorizationPolicy} {s : Loaded C} {m' : C.Model}
      → IsLoaded gs ps s
      → Extends (policy_rule U q) s.model m'
      → IsLoaded gs (q ∷ ps) (record s { model = m'; policies = policy_key U q ∷ s.policies })
  unfolding Extends
  permission_added q {gs} {ps} h ext = record {
    sound = λ x m. elim ((ext x).0 m) [
      | inl e ↦ inr (q, Memᴰ.head refl, e)
      | inr n ↦ elim (h.sound x n) [ inl f ↦ inl f | inr f ↦ inr (later (policy_rule U) q ps x f) ]
    ];
    groups = λ p m. (ext _).1 (inr (h.groups p m));
    permits = λ p m. elim (Memᴰ.cases_cons m) [
      | inl e ↦ (ext _).1 (inl (rw e refl))
      | inr n ↦ (ext _).1 (inr (h.permits p n))
    ];
    bindings = h.bindings;
    policies = λ k m. elim (Memᴰ.cases_cons m) [
      | inl e ↦ (q, Memᴰ.head refl, e)
      | inr n ↦ let (p, n', e) = h.policies k n in (p, Memᴰ.tail n', e)
    ];
  }

  module _ (L : IsCasbin C) where
    pub load_binding-IsLoaded :
        (q : AuthorizationPolicy) {gs ps : List AuthorizationPolicy} {s s' : Loaded C}
        → IsLoaded gs ps s
        → load_binding C U q s ≡ some s'
        → IsLoaded (q ∷ gs) ps s'
    unfolding load_binding Extends
    load_binding-IsLoaded q {gs} {ps} {s} {s'} h e =
        elim (Bool-cases (contains (membership_key U q) s.bindings)) [
          | inl known ↦
              let (p, m, same) = h.bindings _ (contains_sound _ _ known) in
              let e' : s ≡ s' = ground arith in
              subst (IsLoaded (q ∷ gs) ps) e'
                (binding_known q h (rw (grouping_rule_of_key U q p same) (h.groups p m)))
          | inr fresh ↦ elim (Option-cases (C.load_policy_array (grouping_rule U q) s.model)) [
            | inl failed ↦ absurd (ground arith)
            | inr (m', done) ↦
                let e' : record s { model = m'; bindings = membership_key U q ∷ s.bindings } ≡ s' =
                  ground arith in
                subst (IsLoaded (q ∷ gs) ps) e'
                  (binding_added q h (λ x. L.rules-load _ s.model m' x done))
          ]
        ]

    pub load_permission-IsLoaded :
        (q : AuthorizationPolicy) {gs ps : List AuthorizationPolicy} {s s' : Loaded C}
        → Clean (q ∷ ps)
        → IsLoaded gs ps s
        → load_permission C U q s ≡ some s'
        → IsLoaded gs (q ∷ ps) s'
    unfolding load_permission Extends
    load_permission-IsLoaded q {gs} {ps} {s} {s'} clean h e =
        elim (Bool-cases (contains (policy_key U q) s.policies)) [
          | inl known ↦
              let (p, m, same) = h.policies _ (contains_sound _ _ known) in
              let e' : s ≡ s' = ground arith in
              subst (IsLoaded gs (q ∷ ps)) e' (
                permission_known q h (
                  rw (policy_rule_of_key U q p clean.0 (Clean-mem clean.1 m) same) (h.permits p m)))
          | inr fresh ↦ elim (Option-cases (C.load_policy_array (policy_rule U q) s.model)) [
            | inl failed ↦ absurd (ground arith)
            | inr (m', done) ↦
                let e' : record s { model = m'; policies = policy_key U q ∷ s.policies } ≡ s' =
                  ground arith in
                subst (IsLoaded gs (q ∷ ps)) e'
                  (permission_added q h (λ x. L.rules-load _ s.model m' x done))
          ]
        ]
