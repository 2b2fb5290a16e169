-- ===== src/Model/PluginWorkload.antt =====
-- internal/model/plugin_workload.go over the tables: the reads of the bindings, the deletion of one,
-- which takes its tokens with it, and the tokens.
pub mod Tokens
use platform_orchestrator_ia.Prelude.{
  ℕ, String, ◌=~◌, ◌==◌, ◌+◌, ltb, leb, Uuid, Bool, false, not, ◌&&◌, ◌||◌, Option, none, some,
  List, [], ◌∷◌, ◌++◌, length, map, any, select, first, concat_map, if◌then◌else◌,
}
use platform_orchestrator_ia.Prelude.Result.{Result, ok, err}
use platform_orchestrator_ia.Model.{
  Time, Bytes, WorkloadBinding, WorkloadToken, ServiceUserToken, ServiceUserRole, Db,
}
use platform_orchestrator_ia.Model.Authorization.{service_user_active}
use platform_orchestrator_ia.Model.Store.{DbError, Done, done}

-- `PluginWorkloadBinding`: a row, and what the join says of its service user.
pub record PluginWorkloadBinding : Type 0 where
  pub row : WorkloadBinding
  pub service_user_scope : String
  pub service_user_active : Bool
  pub service_user_holds_roles : Bool

-- `PluginWorkloadToken`.
pub record PluginWorkloadToken : Type 0 where
  pub sha256_hash : Bytes
  pub binding_id : Uuid
  pub service_user_id : Uuid
  pub issued_at : Time
  pub expires_at : Time

abbrev pub is_org : String → Option String → Bool
is_org org_id none = false
is_org org_id (some other) = org_id =~ other

-- `serviceUserHoldsRoles`.
abbrev pub service_user_holds_roles : Db → ServiceUserToken → Bool
service_user_holds_roles db sut =
    any (λ (r : ServiceUserRole). r.service_user_id == sut.id && is_org r.org_id sut.org_id)
      db.service_user_roles

-- `selectPluginWorkloadBindings`.
pub select_plugin_workload_bindings : Time → Db → List PluginWorkloadBinding
select_plugin_workload_bindings now db =
    concat_map
      (λ (b : WorkloadBinding).
        map
          (λ (sut : ServiceUserToken). record {
            row = b;
            service_user_scope = sut.scope;
            service_user_active = service_user_active now sut.current_token_expires_at;
            service_user_holds_roles = service_user_holds_roles db sut;
          })
          (select (λ (sut : ServiceUserToken). sut.id == b.service_user_id) db.service_user_tokens))
      db.plugin_workload_bindings

-- `pluginWorkloadBindingResult`.
abbrev pub plugin_workload_binding_result :
    Option PluginWorkloadBinding → Result DbError PluginWorkloadBinding
plugin_workload_binding_result none = err DbError.not_found
plugin_workload_binding_result (some binding) = ok binding

-- `GetPluginWorkloadBinding`.
unfoldable pub get_plugin_workload_binding : Time → Uuid → Db → Result DbError PluginWorkloadBinding
unfolding select_plugin_workload_bindings
get_plugin_workload_binding now id db =
    plugin_workload_binding_result (
      first (λ (b : PluginWorkloadBinding). b.row.id == id)
        (select_plugin_workload_bindings now db))

-- `GetPluginWorkloadBindingForServiceAccount`.
unfoldable pub get_plugin_workload_binding_for_service_account :
    Time → String → String → String → Db → Result DbError PluginWorkloadBinding
unfolding select_plugin_workload_bindings
get_plugin_workload_binding_for_service_account now issuer namespace service_account db =
    plugin_workload_binding_result (
      first
        (λ (b : PluginWorkloadBinding).
          b.row.issuer =~ issuer
          && b.row.namespace =~ namespace
          && b.row.service_account =~ service_account)
        (select_plugin_workload_bindings now db))

-- `GetPluginWorkloadBindingForServiceUser`.
unfoldable pub get_plugin_workload_binding_for_service_user :
    Time → Uuid → Db → Result DbError PluginWorkloadBinding
unfolding select_plugin_workload_bindings
get_plugin_workload_binding_for_service_user now service_user db = plugin_workload_binding_result (
    first (λ (b : PluginWorkloadBinding). b.row.service_user_id == service_user)
      (select_plugin_workload_bindings now db))

-- `DeletePluginWorkloadBinding`, with `ON DELETE CASCADE` of the tokens.
unfoldable pub delete_plugin_workload_binding : Uuid → Db → Result DbError (Done × Db)
delete_plugin_workload_binding id db =
    if any (λ (b : WorkloadBinding). b.id == id) db.plugin_workload_bindings
    then ok (
      done,
      record db {
        plugin_workload_bindings =
            select (λ (b : WorkloadBinding). not (b.id == id)) db.plugin_workload_bindings;
        plugin_workload_tokens =
            select (λ (t : WorkloadToken). not (t.binding_id == id)) db.plugin_workload_tokens;
      },
    )
    else err DbError.not_found

-- The token's constraint on its times: fifteen minutes at most.
abbrev pub token_lifetime_allowed : WorkloadToken → Bool
token_lifetime_allowed t =
    ltb t.issued_at t.expires_at && leb t.expires_at (t.issued_at + 900_000_000_000)

-- `CreatePluginWorkloadToken`.
unfoldable pub create_plugin_workload_token : WorkloadToken → Db → Result DbError (Done × Db)
create_plugin_workload_token t db =
    if not (token_lifetime_allowed t)
      || any (λ (u : WorkloadToken). u.sha256_hash =~ t.sha256_hash) db.plugin_workload_tokens
    then err DbError.failed
    else if any (λ (b : WorkloadBinding). b.id == t.binding_id) db.plugin_workload_bindings
    then ok (done, record db { plugin_workload_tokens = db.plugin_workload_tokens ++ (t ∷ []) })
    else err DbError.not_found

-- The rows that `GetPluginWorkloadTokenByHash` selects for one token.
pub usable_plugin_workload_token : Time → Db → WorkloadToken → List PluginWorkloadToken
usable_plugin_workload_token now db t =
    concat_map
      (λ (b : WorkloadBinding).
        map
          (λ (sut : ServiceUserToken). record {
            sha256_hash = t.sha256_hash;
            binding_id = t.binding_id;
            service_user_id = b.service_user_id;
            issued_at = t.issued_at;
            expires_at = t.expires_at;
          })
          (select
            (λ (sut : ServiceUserToken).
              sut.id == b.service_user_id
              && service_user_active now sut.current_token_expires_at
              && not (service_user_holds_roles db sut))
            db.service_user_tokens))
      (select (λ (b : WorkloadBinding). b.id == t.binding_id) db.plugin_workload_bindings)

-- `GetPluginWorkloadTokenByHash`.
unfoldable pub get_plugin_workload_token_by_hash :
    Time → Bytes → Db → Result DbError PluginWorkloadToken
unfolding usable_plugin_workload_token
get_plugin_workload_token_by_hash now hash db =
    elim (concat_map (usable_plugin_workload_token now db) (
      select (λ (t : WorkloadToken). t.sha256_hash =~ hash && ltb now t.expires_at)
        db.plugin_workload_tokens)) [ [] ↦ err DbError.not_found | token ∷ tokens ↦ ok token ]

-- `DeleteExpiredPluginWorkloadTokens`, with the number of rows.
unfoldable pub delete_expired_plugin_workload_tokens : Time → Db → Result DbError (ℕ × Db)
delete_expired_plugin_workload_tokens now db = ok (
  length (select (λ (t : WorkloadToken). leb t.expires_at now) db.plugin_workload_tokens),
  record db {
    plugin_workload_tokens =
        select (λ (t : WorkloadToken). not (leb t.expires_at now)) db.plugin_workload_tokens;
  },
)
