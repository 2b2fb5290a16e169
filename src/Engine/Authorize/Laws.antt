-- ===== src/Engine/Authorize/Laws.antt =====
-- What `Authorize` answers, in terms of the tables.
use platform_orchestrator_ia.Prelude.{
  String, ◌≡◌, ◌↔◌, refl, sym, ◌∙◌, Uuid, true, List, [], ◌∷◌, Memᴰ,
}
use platform_orchestrator_ia.Prelude.Result.{ok}
use platform_orchestrator_ia.Model.{Role, Db}
use platform_orchestrator_ia.Model.Authorization.{
  AuthorizationPolicy, is_known_permission, list_authorization_policies,
  list_authorization_resource_relations,
}
use platform_orchestrator_ia.Model.Authorization.Policies.{Holds, list_authorization_policies_iff}
use platform_orchestrator_ia.Engine.Match.{match_texts, is_custom_permission}
use platform_orchestrator_ia.Engine.Resource.{normalize_resource}
use platform_orchestrator_ia.Engine.Casbin.{max_hierarchy_level}
use platform_orchestrator_ia.Engine.Policy.Access.{Access, Reaches}
use platform_orchestrator_ia.Engine.Authorize.{Check, Answer}

-- No two roles share an identifier.
abbrev pub UniqueRoles : Db → Type 0
UniqueRoles db = (r r' : Role) → Memᴰ r db.roles → Memᴰ r' db.roles → r.id ≡ r'.id → r ≡ r'

-- The subject holds a role, on the resource or on an ancestor of it, one of whose permissions
-- satisfies the request.
pub record Granted (db : Db) (subject : Uuid) (resource permission : String) : Type 0 where
  pub role : Role
  pub scope : String
  pub granted : String
  pub listed : Memᴰ role db.roles
  pub held : Holds db subject scope role
  pub permitted : Memᴰ granted role.permissions
  pub reached :
      Reaches (list_authorization_resource_relations db) max_hierarchy_level resource scope
  pub satisfied : match_texts permission granted ≡ true

pub Access-Granted :
    (db : Db) (subject : Uuid) (resource permission : String)
    → UniqueRoles db
    → Access
        (list_authorization_policies db)
        (list_authorization_resource_relations db)
        subject
        resource
        permission
    → Granted db subject resource permission
Access-Granted db subject resource permission unique a =
    let (r, there, held, _, id) = (list_authorization_policies_iff db a.held).0 a.held_listed in
    let (r', there', _, permitted, id') =
      (list_authorization_policies_iff db a.granted).0 a.granted_listed in
    let same : r ≡ r' = unique r r' there there' (sym id ∙ (a.same_role ∙ id')) in
    record {
      role = r;
      scope = a.granted.resource;
      granted = a.granted.permission;
      listed = there;
      held = rw (a.own, a.same_resource) at held;
      permitted = rw (← same) at permitted;
      reached = a.reached;
      satisfied = a.satisfied;
    }

pub Granted-Access :
    (db : Db) (subject : Uuid) (resource permission : String)
    → Granted db subject resource permission
    → Access
        (list_authorization_policies db)
        (list_authorization_resource_relations db)
        subject
        resource
        permission
Granted-Access db subject resource permission g =
    let row : AuthorizationPolicy = record {
      subject_id = subject;
      resource = g.scope;
      permission = g.granted;
      role_id = g.role.id;
    } in
    let listed =
      (list_authorization_policies_iff db row).1 (g.role, g.listed, g.held, g.permitted, refl) in
    record {
      held = row;
      granted = row;
      held_listed = listed;
      granted_listed = listed;
      own = refl;
      same_role = refl;
      same_resource = refl;
      reached = g.reached;
      satisfied = g.satisfied;
    }

-- What an answer to a check must be: it names the check, and allows it exactly when the normalised
-- resource is granted and, for a custom permission, the permission is known there.
abbrev pub IsRight : Db → Uuid → Check → Answer → Type 0
IsRight db subject check a =
    (a.check ≡ check)
    × ((resource : String) × (normalize_resource check.resource ≡ ok resource)
        × ((a.allowed ≡ true) ↔ (
            (is_custom_permission check.permission ≡ true
              → is_known_permission db
                  (record { resource = resource; permission = check.permission })
                ≡ true)
            × Granted db subject resource check.permission)))

-- One right answer for each check, in the checks' order.
abbrev pub AllRight : Db → Uuid → List Check → List Answer → Type 0
AllRight db subject [] [] = Unit
AllRight db subject (check ∷ checks) (a ∷ answers) =
    IsRight db subject check a × AllRight db subject checks answers
AllRight db subject _ _ = ⊥
