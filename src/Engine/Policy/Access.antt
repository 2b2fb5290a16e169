-- ===== src/Engine/Policy/Access.antt =====
-- What a decision of Casbin over the loaded model means in terms of the rows.
use text.Mathlib.TextLemmas.{cons-append}
use mathlib.Core.Path.{subst}
use platform_orchestrator_ia.Prelude.{
  ℕ, suc, String, ◌<>◌, ◌≡◌, ◌↔◌, inl, inr, refl, sym, ◌∙◌, UuidText, Uuid, some, true, List, [],
  ◌∷◌, Memᴰ, Lacks, differ, to_string_injective,
}
use platform_orchestrator_ia.Model.Authorization.{
  AuthorizationPolicy, AuthorizationResourceRelation,
}
use platform_orchestrator_ia.Engine.Match.{match_texts}
use platform_orchestrator_ia.Engine.Casbin.{
  Casbin, IsCasbin, Linked, here, link, Allows, max_hierarchy_level,
}
use platform_orchestrator_ia.Engine.Policy.{
  binding_of, role_binding_key, grouping_rule, load_policy,
}
use platform_orchestrator_ia.Engine.Policy.Keys.{role_binding_key_injective}
use platform_orchestrator_ia.Engine.Policy.Loading.{Clean}
use platform_orchestrator_ia.Engine.Policy.Rules.{Rule, load_policy-Rule}

-- The second resource is the first, or an ancestor of it at most so many relations away.
pub data Reaches (relations : List AuthorizationResourceRelation)
    : ℕ → String → String → Type 0 where
  self : {n : ℕ} {a b : String} → a ≡ b → Reaches relations n a b
  up :
      {n : ℕ} {a b : String} (r : AuthorizationResourceRelation)
      → Memᴰ r relations
      → a ≡ r.resource
      → Reaches relations n r.parent_resource b
      → Reaches relations (suc n) a b

-- The subject holds a role on the resource or on an ancestor, and a permission of that role, held on
-- the same resource, satisfies the request.
pub record Access (policies : List AuthorizationPolicy)
    (relations : List AuthorizationResourceRelation) (subject : Uuid) (resource permission : String)
    : Type 0 where
  pub held : AuthorizationPolicy
  pub granted : AuthorizationPolicy
  pub held_listed : Memᴰ held policies
  pub granted_listed : Memᴰ granted policies
  pub own : held.subject_id ≡ subject
  pub same_role : held.role_id ≡ granted.role_id
  pub same_resource : held.resource ≡ granted.resource
  pub reached : Reaches relations max_hierarchy_level resource granted.resource
  pub satisfied : match_texts permission granted.permission ≡ true

module _ (U : UuidText) where
  -- A role binding's text is not the text of an identifier.
  binding_not_uuid :
      (u role : Uuid) (resource : String) → ¬ (U.to_string u ≡ role_binding_key U role resource)
  binding_not_uuid u role resource e =
      let lacks : Lacks b':' ("role:" <> (U.to_string role <> ("@" <> resource))) =
        subst (Lacks b':') e (U.no_colon u) in
      let lacks' : Lacks b':' (
          String.◌∷◌ "r" (
            String.◌∷◌ "o" (
              String.◌∷◌ "l" (
                String.◌∷◌ "e"
                  (String.◌∷◌ ":" (String.[] <> (U.to_string role <> ("@" <> resource)))))))) =
        rw (cons-append, cons-append, cons-append, cons-append, cons-append) at lacks in
      lacks'.1.1.1.1.0 refl

  module _ (policies : List AuthorizationPolicy)
      (relations : List AuthorizationResourceRelation) where
    grouping_of_Rule :
        (a b : String)
        → Rule U policies relations ("g" ∷ a ∷ b ∷ [])
        → (p : AuthorizationPolicy) × Memᴰ p policies
          × (a ≡ U.to_string p.subject_id)
          × (b ≡ binding_of U p)
    grouping_of_Rule a b (inl (p, m, e)) = (p, m, cc, cc)
    grouping_of_Rule a b (inr (inl (p, m, e))) = absurd (differ "g" "p" refl (cc))
    grouping_of_Rule a b (inr (inr (r, m, e))) = absurd (differ "g" "g2" refl (cc))

    policy_of_Rule :
        (a b c : String)
        → Rule U policies relations ("p" ∷ a ∷ b ∷ c ∷ [])
        → (p : AuthorizationPolicy) × Memᴰ p policies
          × (a ≡ binding_of U p)
          × (b ≡ p.resource)
          × (c ≡ p.permission)
    policy_of_Rule a b c (inl (p, m, e)) = absurd (differ "p" "g" refl (cc))
    policy_of_Rule a b c (inr (inl (p, m, e))) = (p, m, cc, cc, cc)
    policy_of_Rule a b c (inr (inr (r, m, e))) = absurd (differ "p" "g2" refl (cc))

    relation_of_Rule :
        (a b : String)
        → Rule U policies relations ("g2" ∷ a ∷ b ∷ [])
        → (r : AuthorizationResourceRelation) × Memᴰ r relations
          × (a ≡ r.resource)
          × (b ≡ r.parent_resource)
    relation_of_Rule a b (inl (p, m, e)) = absurd (differ "g2" "g" refl (cc))
    relation_of_Rule a b (inr (inl (p, m, e))) = absurd (differ "g2" "p" refl (cc))
    relation_of_Rule a b (inr (inr (r, m, e))) = (r, m, cc, cc)

    module _ (rules : List (List String))
        (exactly : (x : List String) → Memᴰ x rules ↔ Rule U policies relations x) where
      Linked-Reaches : {n : ℕ} {a b : String} → Linked rules "g2" n a b → Reaches relations n a b
      Linked-Reaches (here e) = self e
      Linked-Reaches (link {a = a} c m l) =
          let (r, there, e, e') = relation_of_Rule a c ((exactly _).0 m) in
          up r there e (rw e' at (Linked-Reaches l))

      Reaches-Linked : {n : ℕ} {a b : String} → Reaches relations n a b → Linked rules "g2" n a b
      Reaches-Linked (self e) = here e
      Reaches-Linked (up r m e l) =
          link r.parent_resource ((exactly _).1 (inr (inr (r, m, rw e refl)))) (Reaches-Linked l)

      -- No role link leaves a binding.
      chain_stops :
          {n : ℕ} {a b : String} (p q : AuthorizationPolicy)
          → Linked rules "g" n a b
          → a ≡ binding_of U p
          → b ≡ binding_of U q
          → (p.role_id ≡ q.role_id) × (p.resource ≡ q.resource)
      chain_stops p q (here e) ea eb =
          role_binding_key_injective U p.role_id q.role_id p.resource q.resource (sym ea ∙ (e ∙ eb))
      chain_stops p q (link {a = a} c m l) ea eb =
          let (p', _, e, _) = grouping_of_Rule a c ((exactly _).0 m) in
          absurd (binding_not_uuid p'.subject_id p.role_id p.resource (sym e ∙ ea))

      -- So a chain from a subject to a binding is one link.
      binding_of-Linked :
          {n : ℕ} {a b : String} (subject : Uuid) (q : AuthorizationPolicy)
          → Linked rules "g" n a b
          → a ≡ U.to_string subject
          → b ≡ binding_of U q
          → (p : AuthorizationPolicy) × Memᴰ p policies
            × (p.subject_id ≡ subject)
            × (p.role_id ≡ q.role_id)
            × (p.resource ≡ q.resource)
      binding_of-Linked subject q (here e) ea eb =
          absurd (binding_not_uuid subject q.role_id q.resource (sym ea ∙ (e ∙ eb)))
      binding_of-Linked subject q (link {a = a} c m l) ea eb =
          let (p, there, e, e') = grouping_of_Rule a c ((exactly _).0 m) in
          let (role, resource) = chain_stops p q l e' eb in
          (p, there, to_string_injective U p.subject_id subject (sym e ∙ ea), role, resource)

      Allows-Access :
          (subject : Uuid) (resource permission : String)
          → Allows rules (U.to_string subject) resource permission
          → Access policies relations subject resource permission
      Allows-Access subject resource permission h =
          let (q, there, binding, at, which) =
            policy_of_Rule h.role h.resource h.permission ((exactly _).0 h.loaded) in
          let (p, there', own, role, same) = binding_of-Linked subject q h.grouped refl binding in
          record {
            held = p;
            granted = q;
            held_listed = there';
            granted_listed = there;
            own = own;
            same_role = role;
            same_resource = same;
            reached = elim h.reached [
              | inl e ↦ self (e ∙ at)
              | inr l ↦ rw at at (Linked-Reaches l)
            ];
            satisfied = rw which at h.matched;
          }

      Access-Allows :
          (subject : Uuid) (resource permission : String)
          → Access policies relations subject resource permission
          → Allows rules (U.to_string subject) resource permission
      Access-Allows subject resource permission h = record {
        role = binding_of U h.granted;
        resource = h.granted.resource;
        permission = h.granted.permission;
        loaded = (exactly _).1 (inr (inl (h.granted, h.granted_listed, refl)));
        grouped =
            link (binding_of U h.granted)
              ((exactly _).1 (inl (h.held, h.held_listed, grouping subject h))) (here refl);
        reached = inr (Reaches-Linked h.reached);
        matched = h.satisfied;
      }
        where
          grouping :
              (subject : Uuid) (h : Access policies relations subject resource permission)
              → ◌≡◌ {A = List String}
                  ("g" ∷ U.to_string subject ∷ binding_of U h.granted ∷ [])
                  (grouping_rule U h.held)
          grouping subject h = rw (h.own, h.same_role, h.same_resource) refl

  -- After a successful load of rows whose permissions hold no "$", a Casbin that behaves as documented
  -- allows a request exactly when the subject holds a role on the resource or on an ancestor whose
  -- permissions there satisfy the request.
  pub enforce-Access :
      (C : Casbin)
      → IsCasbin C
      → (policies : List AuthorizationPolicy) (relations : List AuthorizationResourceRelation)
        (m : C.Model)
      → Clean policies
      → load_policy C U policies relations ≡ some m
      → (subject : Uuid) (resource permission : String)
      → (C.enforce m (U.to_string subject) resource permission ≡ some true)
        ↔ Access policies relations subject resource permission
  enforce-Access C L policies relations m clean loaded subject resource permission =
      let exactly = load_policy-Rule C U L policies relations m clean loaded in
      let (to, from) = L.enforce_iff m (U.to_string subject) resource permission in
      (
        λ e.
            Allows-Access policies relations (C.rules m) exactly subject resource permission (to e),
        λ h.
            from
              (Access-Allows policies relations (C.rules m) exactly subject resource permission h),
      )
