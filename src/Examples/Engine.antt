-- ===== src/Examples/Engine.antt =====
-- The properties of the authorizer at the tables of Examples/Tables.
use mathlib.Core.List.Memᴰ
use platform_orchestrator_ia.Prelude.{
  String, ◌≡◌, ◌≢◌, ◌↔◌, inl, inr, refl, sym, ◌∙◌, true, false, some, List, [], ◌∷◌, Memᴰ, Bool,
  arith, differ, cut,
}
use platform_orchestrator_ia.Authz.{find_permission}
use platform_orchestrator_ia.Authz.Permissions.{provisioning_read}
use platform_orchestrator_ia.Prelude.Result.{ok, err}
use platform_orchestrator_ia.Model.{Role}
use platform_orchestrator_ia.Model.Authorization.{
  is_known_permission, list_authorization_policies, list_authorization_resource_relations,
  list_known_authorization_permissions,
}
use platform_orchestrator_ia.Model.Authorization.Policies.{Holds, list_authorization_policies_iff}
use platform_orchestrator_ia.Engine.Match.{
  read_all, write_all, manage_all, match_texts, unalias, is_custom_permission,
}
use platform_orchestrator_ia.Engine.Match.Rules.{Satisfies, match_texts-Satisfies}
use platform_orchestrator_ia.Engine.Match.Laws.{
  OnlyExact, provisioning-OnlyExact, custom-OnlyExact, wildcards_ordered,
}
use platform_orchestrator_ia.Engine.Resource.{
  ResourceError, normalize_resource, normalize_idempotent,
}
use platform_orchestrator_ia.Engine.Policy.Loading.{Clean}
use platform_orchestrator_ia.Engine.Policy.Rules.{Rule, load_policy-Rule}
use platform_orchestrator_ia.Engine.Policy.Access.{Access, enforce-Access}
use platform_orchestrator_ia.Engine.Cache.{bounded_get, bounded_set}
use platform_orchestrator_ia.Engine.Authorize.{
  Check, Answer, bad_resource, is_known, known_custom_permissions, authorize,
}
use platform_orchestrator_ia.Engine.Authorize.Known.{
  Agrees, known_custom_permissions_right, list_known-ListsKnown,
}
use platform_orchestrator_ia.Engine.Authorize.Laws.{AllRight, UniqueRoles}
use platform_orchestrator_ia.Engine.Authorize.Answers.{Setting, authorize_right}
use platform_orchestrator_ia.Engine.Authorize.Outcome.{authorize_answers, authorize_refuses}
use platform_orchestrator_ia.Examples.Packages.{
  uuids, ccache, ccache-IsCcache, casbin, casbin-IsCasbin,
}
use platform_orchestrator_ia.Examples.Tables.{
  operator, tables, policies_lem, checks, rules, loaded, list_known,
}

unique : UniqueRoles tables
unique r r' m m' e = only r m ∙ sym (only r' m')
  where
    only : (r : Role) → Memᴰ r tables.roles → r ≡ operator
    only r m = elim (Memᴰ.cases_cons m) [ inl e ↦ e | inr n ↦ elim n [ ] ]

clean : Clean (list_authorization_policies tables)
clean = rw policies_lem (omega arith, (omega arith, tt))

pub setting : Setting ccache casbin uuids tables rules list_known
setting = record {
  casbin = casbin-IsCasbin;
  ccache = ccache-IsCcache;
  loaded = loaded;
  clean = clean;
  lists = list_known-ListsKnown tables;
  unique = unique;
}

pub nothing_cached : Agrees (is_known_permission tables) ccache []
unfolding bounded_get
nothing_cached check value plain e = cc

abbrev answers : List Answer
answers =
    record {
      check = record { resource = "project:shop"; permission = "deploy" };
      allowed = true;
      invalid = false;
    }
    ∷ record {
      check = record { resource = "org:acme"; permission = "write" };
      allowed = false;
      invalid = false;
    }
    ∷ record {
      check = record { resource = "project:shop"; permission = "destroy" };
      allowed = false;
      invalid = true;
    }
    ∷ []

abbrev cached : List (String × Bool)
cached =
    ("permission$$project:shop$$destroy", false) ∷ ("permission$$project:shop$$deploy", true) ∷ []

authorize_run : authorize ccache casbin uuids list_known rules [] 2 checks ≡ (ok answers, cached)
unfolding authorize match_texts is_custom_permission bounded_get bounded_set is_known_permission
    normalize_resource cut find_permission list_known_authorization_permissions
authorize_run = refl

shop : normalize_resource "project:shop" ≡ ok "project:shop"
unfolding normalize_resource cut
shop = refl

acme : normalize_resource "org:acme" ≡ ok "organization:acme"
unfolding normalize_resource cut
acme = refl

app : normalize_resource "app:shop" ≡ err (ResourceError.unsupported "app")
unfolding normalize_resource cut
app = refl

authorize_right_example :
    AllRight tables 2 checks answers × Agrees (is_known_permission tables) ccache cached
authorize_right_example =
    authorize_right ccache casbin uuids tables rules list_known setting [] cached 2 checks answers
      nothing_cached (omega arith, (omega arith, (omega arith, tt))) authorize_run

authorize_answers_example :
    (answers : List Answer) × (c' : List (String × Bool)) × (authorize ccache casbin uuids
        list_known rules [] 2 checks
      ≡ (ok answers, c'))
authorize_answers_example =
    authorize_answers ccache casbin uuids rules 2 list_known [] checks (λ asked e. cc)
      (λ sub obj act e. cc)
      (("project:shop", shop), (("organization:acme", acme), (("project:shop", shop), tt)))

authorize_refuses_example :
    authorize ccache casbin uuids list_known rules [] 2 (
      record { resource = "org:acme"; permission = "read" }
      ∷ record { resource = "app:shop"; permission = "read" }
      ∷ [])
    ≡ (err (bad_resource (ResourceError.unsupported "app")), [])
authorize_refuses_example =
    authorize_refuses ccache casbin uuids rules 2 list_known []
      (record { resource = "org:acme"; permission = "read" } ∷ [])
      (record { resource = "app:shop"; permission = "read" }) [] (ResourceError.unsupported "app")
      (("organization:acme", acme), tt) app

enforce-Access_example :
    (casbin.enforce rules (uuids.to_string 2) "project:shop" "deploy" ≡ some true)
    ↔ Access
        (list_authorization_policies tables)
        (list_authorization_resource_relations tables)
        2
        "project:shop"
        "deploy"
enforce-Access_example =
    enforce-Access uuids casbin casbin-IsCasbin (list_authorization_policies tables)
      (list_authorization_resource_relations tables) rules clean loaded 2 "project:shop" "deploy"

load_policy-Rule_example :
    Memᴰ ("g2" ∷ "project:shop" ∷ "organization:acme" ∷ []) rules
    ↔ Rule uuids
        (list_authorization_policies tables)
        (list_authorization_resource_relations tables)
        ("g2" ∷ "project:shop" ∷ "organization:acme" ∷ [])
load_policy-Rule_example =
    load_policy-Rule casbin uuids casbin-IsCasbin (list_authorization_policies tables)
      (list_authorization_resource_relations tables) rules clean loaded
      ("g2" ∷ "project:shop" ∷ "organization:acme" ∷ [])

list_authorization_policies_iff_example :
    Memᴰ
      (record {
        subject_id = 2;
        resource = "organization:acme";
        permission = "deploy";
        role_id = 1;
      })
      (list_authorization_policies tables)
    ↔ ((r : Role) × Memᴰ r tables.roles
        × Holds tables 2 "organization:acme" r
        × Memᴰ "deploy" r.permissions
        × (1 ≡ r.id))
list_authorization_policies_iff_example =
    list_authorization_policies_iff tables (record {
      subject_id = 2;
      resource = "organization:acme";
      permission = "deploy";
      role_id = 1;
    })

asked :
    known_custom_permissions ccache list_known [] checks
    ≡ some (
        (
          (record { resource = "project:shop"; permission = "destroy" }, false)
              ∷ (record { resource = "project:shop"; permission = "deploy" }, true)
              ∷ [],
          cached,
        ))
unfolding known_custom_permissions is_custom_permission bounded_get bounded_set is_known_permission
    find_permission list_known_authorization_permissions
asked = refl

known_custom_permissions_right_example :
    Agrees (is_known_permission tables) ccache cached
    × ((check : Check)
        → Memᴰ check checks
        → is_custom_permission check.permission ≡ true
        → is_known
            ((record { resource = "project:shop"; permission = "destroy" }, false)
              ∷ (record { resource = "project:shop"; permission = "deploy" }, true)
              ∷ [])
            check
          ≡ is_known_permission tables check)
known_custom_permissions_right_example =
    known_custom_permissions_right (is_known_permission tables) ccache ccache-IsCcache list_known []
      cached checks _ (list_known-ListsKnown tables) nothing_cached
      (omega arith, (omega arith, (omega arith, tt))) asked

match_texts-Satisfies_example :
    (match_texts "member" read_all ≡ true) ↔ Satisfies (unalias "member") read_all
match_texts-Satisfies_example = match_texts-Satisfies "member" read_all

provisioning-OnlyExact_example :
    (match_texts provisioning_read read_all ≡ true) ↔ OnlyExact provisioning_read read_all
provisioning-OnlyExact_example = provisioning-OnlyExact provisioning_read read_all (inl refl)

deploy_custom : is_custom_permission "deploy" ≡ true
unfolding is_custom_permission find_permission
deploy_custom = refl

custom-OnlyExact_example : (match_texts "deploy" write_all ≡ true) ↔ OnlyExact "deploy" write_all
custom-OnlyExact_example =
    custom-OnlyExact "deploy" write_all deploy_custom (differ "deploy" "member" refl)

wildcards_ordered_example :
    ("read" ≢ read_all → match_texts "read" read_all ≡ true → match_texts "read" write_all ≡ true)
    × (match_texts "read" manage_all ≡ true)
wildcards_ordered_example = wildcards_ordered "read"

normalize_idempotent_example : normalize_resource "organization:acme" ≡ ok "organization:acme"
normalize_idempotent_example = normalize_idempotent "org:acme" "organization:acme" acme
