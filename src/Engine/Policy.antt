-- ===== src/Engine/Policy.antt =====
-- The policy loader: `storeAdapter.LoadPolicy` and `roleBindingKey` of
-- internal/authorization/authorization.go.
pub mod Keys
pub mod Loading
pub mod Rules
pub mod Access
use mathlib.Core.Option
use platform_orchestrator_ia.Prelude.{
  String, ◌=~◌, ◌<>◌, UuidText, Uuid, Bool, Option, none, some, List, [], ◌∷◌, any, if◌then◌else◌,
}
use platform_orchestrator_ia.Model.Authorization.{
  AuthorizationPolicy, AuthorizationResourceRelation,
}
use platform_orchestrator_ia.Engine.Casbin.{Casbin}

infixl 5 ◌>>=◌
abbrev ◌>>=◌ {ℓ κ} : {A : Type ℓ} {B : Type κ} → Option A → (A → Option B) → Option B
none >>= f = none
some a >>= f = f a

abbrev contains : String → List String → Bool
contains key = any (λ k. k =~ key)

module _ (U : UuidText) where
  -- `roleBindingKey`.
  abbrev pub role_binding_key : Uuid → String → String
  role_binding_key role_id resource = "role:" <> (U.to_string role_id <> ("@" <> resource))

  abbrev pub binding_of : AuthorizationPolicy → String
  binding_of p = role_binding_key p.role_id p.resource

  abbrev pub membership_key : AuthorizationPolicy → String
  membership_key p = U.to_string p.subject_id <> ("$$" <> binding_of p)

  abbrev pub policy_key : AuthorizationPolicy → String
  policy_key p = binding_of p <> ("$$" <> p.permission)

  -- The rules that a row stands for.
  abbrev pub grouping_rule : AuthorizationPolicy → List String
  grouping_rule p = "g" ∷ U.to_string p.subject_id ∷ binding_of p ∷ []

  abbrev pub policy_rule : AuthorizationPolicy → List String
  policy_rule p = "p" ∷ binding_of p ∷ p.resource ∷ p.permission ∷ []

abbrev pub relation_rule : AuthorizationResourceRelation → List String
relation_rule r = "g2" ∷ r.resource ∷ r.parent_resource ∷ []

-- The variables of the loop: the Casbin model, `loadedBindings` and `loadedPolicies`.
pub record Loaded (C : Casbin) : Type 0 where
  pub model : C.Model
  pub bindings : List String
  pub policies : List String

module _ (C : Casbin) (U : UuidText) where
  -- The first half of a round: the role binding of the row's subject.
  pub load_binding : AuthorizationPolicy → Loaded C → Option (Loaded C)
  load_binding p s = if contains (membership_key U p) s.bindings then some s else do
    m ← C.load_policy_array (grouping_rule U p) s.model
    some (record s { model = m; bindings = membership_key U p ∷ s.bindings })

  -- The second half: the permission of the row's binding.
  pub load_permission : AuthorizationPolicy → Loaded C → Option (Loaded C)
  load_permission p s = if contains (policy_key U p) s.policies then some s else do
    m ← C.load_policy_array (policy_rule U p) s.model
    some (record s { model = m; policies = policy_key U p ∷ s.policies })

  pub load_policies : List AuthorizationPolicy → Loaded C → Option (Loaded C)
  load_policies [] s = some s
  load_policies (p ∷ ps) s = do
    s' ← load_binding p s
    s'' ← load_permission p s'
    load_policies ps s''

pub load_relations : (C : Casbin) → List AuthorizationResourceRelation → C.Model → Option C.Model
load_relations C [] m = some m
load_relations C (r ∷ rs) m = do
  m' ← C.load_policy_array (relation_rule r) m
  load_relations C rs m'

-- `LoadPolicy`, on what the store's two queries return. Casbin hands it an empty model.
unfoldable pub load_policy :
    (C : Casbin)
    → UuidText
    → List AuthorizationPolicy
    → List AuthorizationResourceRelation
    → Option C.Model
unfolding load_binding load_permission load_policies load_relations
load_policy C U policies relations = do
  s ← load_policies C U policies (record { model = C.empty; bindings = []; policies = [] })
  load_relations C relations s.model
