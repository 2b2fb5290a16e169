-- ===== src/Model/PluginWorkload/Tokens.antt =====
-- What a plugin workload token of internal/model/plugin_workload.go that is found rests on.
use platform_orchestrator_ia.Prelude.{
  ◌≡◌, ◌<◌, ==_iff, ◌=~◌, sym, ap, ◌∙◌, Uuid, Bool, true, false, ◌&&◌, List, [], ◌∷◌, Memᴰ, select,
  mem-select, mem-concat_map, mem-map, concat_map, ltb, arith,
}
use platform_orchestrator_ia.Prelude.Result.{ok, err}
use platform_orchestrator_ia.Model.{
  Time, Bytes, WorkloadBinding, WorkloadToken, ServiceUserToken, Db,
}
use platform_orchestrator_ia.Model.Authorization.{service_user_active}
use platform_orchestrator_ia.Model.Store.{DbError}
use platform_orchestrator_ia.Model.PluginWorkload.{
  PluginWorkloadToken, get_plugin_workload_token_by_hash, usable_plugin_workload_token,
  service_user_holds_roles,
}

-- The rows behind a token: itself, unexpired; its binding; and the bound service user, which is active
-- and holds no role.
pub record Backed (now : Time) (db : Db) (hash : Bytes) (user : Uuid) : Type 0 where
  pub token : WorkloadToken
  pub binding : WorkloadBinding
  pub principal : ServiceUserToken
  pub token_listed : Memᴰ token db.plugin_workload_tokens
  pub binding_listed : Memᴰ binding db.plugin_workload_bindings
  pub principal_listed : Memᴰ principal db.service_user_tokens
  pub hashed : (token.sha256_hash =~ hash) ≡ true
  pub unexpired : now < token.expires_at
  pub bound : binding.id ≡ token.binding_id
  pub named : binding.service_user_id ≡ user
  pub same_principal : principal.id ≡ user
  pub active : service_user_active now principal.current_token_expires_at ≡ true
  pub roleless : service_user_holds_roles db principal ≡ false

both : (a b : Bool) → (a && b) ≡ true → (a ≡ true) × (b ≡ true)
both a b h = ground arith

found_in_rows :
    (now : Time) (db : Db) (hash : Bytes) (t : PluginWorkloadToken)
    → Memᴰ t (
        concat_map (usable_plugin_workload_token now db) (
          select
            (λ (w : WorkloadToken). w.sha256_hash =~ hash && ltb now w.expires_at)
            db.plugin_workload_tokens))
    → Backed now db hash t.service_user_id
unfolding usable_plugin_workload_token
found_in_rows now db hash t m =
    let (row, row_in, made) = mem-concat_map _ _ m in
    let (row_listed, row_fits) = mem-select _ db.plugin_workload_tokens row_in in
    let (hashed, early) = both _ _ row_fits in
    let (b, b_in, made') = mem-concat_map _ _ made in
    let (b_listed, b_fits) = mem-select _ db.plugin_workload_bindings b_in in
    let (sut, sut_in, equal) = mem-map _ _ made' in
    let (sut_listed, sut_fits) = mem-select _ db.service_user_tokens sut_in in
    let (rest, without) = both _ _ sut_fits in
    let (own, alive) = both _ _ rest in
    let user : t.service_user_id ≡ b.service_user_id =
      ap (λ (w : PluginWorkloadToken). w.service_user_id) equal in
    record {
      token = row;
      binding = b;
      principal = sut;
      token_listed = row_listed;
      binding_listed = b_listed;
      principal_listed = sut_listed;
      hashed = hashed;
      unexpired = ground arith;
      bound = (==_iff _ _).0 b_fits;
      named = sym user;
      same_principal = (==_iff _ _).0 own ∙ sym user;
      active = alive;
      roleless = ground arith;
    }

head_listed :
    (tokens : List PluginWorkloadToken) (t : PluginWorkloadToken)
    → (elim tokens [ [] ↦ err DbError.not_found | x ∷ xs ↦ ok x ]) ≡ ok t
    → Memᴰ t tokens
head_listed [] t h = cc
head_listed (x ∷ xs) t h = Memᴰ.head (ground arith)

pub found_token_Backed :
    (now : Time) (db : Db) (hash : Bytes) (t : PluginWorkloadToken)
    → get_plugin_workload_token_by_hash now hash db ≡ ok t
    → Backed now db hash t.service_user_id
unfolding get_plugin_workload_token_by_hash
found_token_Backed now db hash t h = found_in_rows now db hash t (head_listed _ t h)
