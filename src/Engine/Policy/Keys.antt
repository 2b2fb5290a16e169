-- ===== src/Engine/Policy/Keys.antt =====
-- The texts under which `LoadPolicy` remembers what it has loaded stand for one rule each.
use text.Mathlib.TextLemmas.{
  nil-append, cons-append, head-eq_of_cons-eq, tail-eq_of_cons-eq, append_cancel_left,
}
use mathlib.Core.Path.{subst, ap₂}
use platform_orchestrator_ia.Prelude.{
  Char, code, String, ◌<>◌, ◌≡◌, refl, sym, ap, ◌∙◌, UuidText, Uuid, [], ◌∷◌, Lacks, cut-append,
  some, Option, cut, to_string_injective,
}
use platform_orchestrator_ia.Model.Authorization.{AuthorizationPolicy}
use platform_orchestrator_ia.Engine.Policy.{
  role_binding_key, binding_of, membership_key, policy_key, grouping_rule, policy_rule,
}

-- A text that lacks the separator is determined by the whole, and so is the rest.
pub prefix_unique :
    (sep : Char) (a b s t : String)
    → Lacks (code sep) a
    → Lacks (code sep) b
    → a <> String.◌∷◌ sep s ≡ b <> String.◌∷◌ sep t
    → (a ≡ b) × (s ≡ t)
prefix_unique sep a b s t la lb e =
    let both : ◌≡◌ {A = Option (String × String)} (some (a, s)) (some (b, t)) =
      sym (cut-append sep a s la) ∙ (ap (cut (code sep)) e ∙ cut-append sep b t lb) in
    (cc, cc)

abbrev pub dollars : String → String
dollars s = String.◌∷◌ "$" (String.◌∷◌ "$" s)

not_Lacks : (a p : String) → ¬ Lacks b'$' (a <> dollars p)
not_Lacks String.[] p h = (rw nil-append at h).0 refl
not_Lacks (String.◌∷◌ c a) p h = not_Lacks a p (rw cons-append at h).1

no_overlap :
    (d : Char) (b p q : String) → Lacks b'$' p → dollars p ≡ String.◌∷◌ d b <> dollars q → ⊥
no_overlap d String.[] p q lp e =
    let e' : dollars p ≡ String.◌∷◌ d (dollars q) = e ∙ (rw (cons-append, nil-append) refl) in
    (subst (Lacks b'$') (tail-eq_of_cons-eq (tail-eq_of_cons-eq e')) lp).0 refl
no_overlap d (String.◌∷◌ c b) p q lp e =
    let e' : dollars p ≡ String.◌∷◌ d (String.◌∷◌ c (b <> dollars q)) =
      e ∙ (cons-append d _ _ ∙ ap (String.◌∷◌ d) (cons-append c b _)) in
    not_Lacks b q (subst (Lacks b'$') (tail-eq_of_cons-eq (tail-eq_of_cons-eq e')) lp)

-- The last "$$" is found again where what follows it holds no "$".
pub suffix_unique :
    (a b p q : String)
    → Lacks b'$' p
    → Lacks b'$' q
    → a <> dollars p ≡ b <> dollars q
    → (a ≡ b) × (p ≡ q)
suffix_unique String.[] String.[] p q lp lq e =
    let e' : dollars p ≡ dollars q = rw (nil-append, nil-append) at e in
    (refl, tail-eq_of_cons-eq (tail-eq_of_cons-eq e'))
suffix_unique String.[] (String.◌∷◌ d b) p q lp lq e =
    absurd (no_overlap d b p q lp (sym (nil-append _) ∙ e))
suffix_unique (String.◌∷◌ c a) String.[] p q lp lq e =
    absurd (no_overlap c a q p lq (sym (nil-append _) ∙ sym e))
suffix_unique (String.◌∷◌ c a) (String.◌∷◌ d b) p q lp lq e =
    let e' : String.◌∷◌ c (a <> dollars p) ≡ String.◌∷◌ d (b <> dollars q) =
      sym (cons-append c a _) ∙ (e ∙ cons-append d b _) in
    let (same, rest) = suffix_unique a b p q lp lq (tail-eq_of_cons-eq e') in
    (ap₂ String.◌∷◌ (head-eq_of_cons-eq e') same, rest)

pub dollars_lem : (s : String) → "$$" <> s ≡ dollars s
dollars_lem s = rw (cons-append, cons-append, nil-append)

at_lem : (s : String) → "@" <> s ≡ String.◌∷◌ "@" s
at_lem s = rw (cons-append, nil-append)

module _ (U : UuidText) where
  pub role_binding_key_injective :
      (role role' : Uuid) (resource resource' : String)
      → role_binding_key U role resource ≡ role_binding_key U role' resource'
      → (role ≡ role') × (resource ≡ resource')
  role_binding_key_injective role role' resource resource' e =
      let e' = append_cancel_left "role:" _ _ e in
      let (same, rest) =
        prefix_unique "@" (U.to_string role) (U.to_string role') resource resource' (U.no_at role)
          (U.no_at role') (rw (at_lem resource, at_lem resource') at e') in
      (to_string_injective U role role' same, rest)

  pub grouping_rule_of_key :
      (p q : AuthorizationPolicy)
      → membership_key U p ≡ membership_key U q
      → grouping_rule U p ≡ grouping_rule U q
  grouping_rule_of_key p q e =
      let (same, rest) =
        prefix_unique "$" (U.to_string p.subject_id) (U.to_string q.subject_id)
          (String.◌∷◌ "$" (binding_of U p)) (String.◌∷◌ "$" (binding_of U q))
          (U.no_dollar p.subject_id) (U.no_dollar q.subject_id)
          (rw (dollars_lem (binding_of U p), dollars_lem (binding_of U q)) at e) in
      ap₂ (λ a b. "g" ∷ a ∷ b ∷ []) same (tail-eq_of_cons-eq rest)

  pub policy_rule_of_key :
      (p q : AuthorizationPolicy)
      → Lacks b'$' p.permission
      → Lacks b'$' q.permission
      → policy_key U p ≡ policy_key U q
      → policy_rule U p ≡ policy_rule U q
  policy_rule_of_key p q lp lq e =
      let (binding, permission) =
        suffix_unique (binding_of U p) (binding_of U q) p.permission q.permission lp lq
          (rw (dollars_lem p.permission, dollars_lem q.permission) at e) in
      let (_, resource) =
        role_binding_key_injective p.role_id q.role_id p.resource q.resource binding in
      cc
