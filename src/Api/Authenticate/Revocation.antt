-- ===== src/Api/Authenticate/Revocation.antt =====
-- What is deleted from the tables of internal/model/session_tokens.go and plugin_workload.go lets
-- nobody in any more: internal/api/authenticate.go asks the database each time.
use mathlib.Core.Path.{subst}
use platform_orchestrator_ia.Prelude.{
  ℕ, String, ◌≡◌, ◌≢◌, ◌==◌, inl, inr, ap, sym, ◌∙◌, Uuid, true, false, not, Option, some, Memᴰ,
  select, first, first_sound, mem-select, arith, Option-cases,
}
use platform_orchestrator_ia.Prelude.Result.{ok}
use platform_orchestrator_ia.Model.{Time, Bytes, SessionToken, Db}
use platform_orchestrator_ia.Model.Store.{Done}
use platform_orchestrator_ia.Model.SessionTokens.{
  has_hash, get_session_token_by_hash, delete_session_token_by_hash,
  delete_session_tokens_by_user_id,
}
use platform_orchestrator_ia.Model.PluginWorkload.{
  PluginWorkloadToken, get_plugin_workload_token_by_hash,
}
use platform_orchestrator_ia.Api.Authenticate.Tokens.{Codec, session, classify_token}
use platform_orchestrator_ia.Api.Authenticate.Cache.{TokenCache, IsTokenCache, TokenReads}
use platform_orchestrator_ia.Api.Authenticate.{
  admitted, Params, Settings, token_of, internal_authenticate,
}
use platform_orchestrator_ia.Api.Authenticate.Laws.{Credential, by_session, admitted-Credential}

-- Reads that fail, or return what the tables hold.
pub record IsReads (R : TokenReads) (now : Time) (db : Db) : Type 0 where
  pub sessions :
      (hash : Bytes) (st : SessionToken)
      → R.session_token hash ≡ ok st
      → get_session_token_by_hash hash db ≡ ok st
  pub workloads :
      (hash : Bytes) (t : PluginWorkloadToken)
      → R.plugin_workload_token hash ≡ ok t
      → get_plugin_workload_token_by_hash now hash db ≡ ok t

-- A session that is found is a row with that hash, but for the provider.
pub found_session_row :
    (hash : Bytes) (db : Db) (st : SessionToken)
    → get_session_token_by_hash hash db ≡ ok st
    → (t : SessionToken) × Memᴰ t db.session_tokens
      × (has_hash hash t ≡ true)
      × (t.user_id ≡ st.user_id)
unfolding get_session_token_by_hash
found_session_row hash db st h = elim (Option-cases (first (has_hash hash) db.session_tokens)) [
  | inl gone ↦ absurd (ground arith)
  | inr (t, there) ↦
      let (row, hashed) = first_sound (has_hash hash) db.session_tokens there in
      let same : record t { provider = "" } ≡ st = ground arith in
      (t, row, hashed, ap (λ (s : SessionToken). s.user_id) same)
]

deleted_by_hash :
    (hash : Bytes) (db db' : Db) (d : Done) (st : SessionToken)
    → delete_session_token_by_hash hash db ≡ ok (d, db')
    → Memᴰ st db'.session_tokens
    → has_hash hash st ≡ false
unfolding delete_session_token_by_hash
deleted_by_hash hash db db' d st e there =
    let rows : select (λ (t : SessionToken). not (has_hash hash t)) db.session_tokens
        ≡ db'.session_tokens =
      ground arith in
    let (before, kept) = mem-select _ db.session_tokens (subst (Memᴰ st) (sym rows) there) in
    ground arith

deleted_by_user :
    (user : Uuid) (db db' : Db) (n : ℕ) (st : SessionToken)
    → delete_session_tokens_by_user_id user db ≡ ok (n, db')
    → Memᴰ st db'.session_tokens
    → st.user_id ≢ user
unfolding delete_session_tokens_by_user_id
deleted_by_user user db db' n st e there =
    let rows : select (λ (t : SessionToken). not (t.user_id == user)) db.session_tokens
        ≡ db'.session_tokens =
      ground arith in
    let (before, kept) = mem-select _ db.session_tokens (subst (Memᴰ st) (sym rows) there) in
    ground arith

module _ (K : TokenCache) (C : Codec) (settings : Settings) (R : TokenReads) (now : Time)
    (c c' : K.Cache) (law : IsTokenCache K) where
  -- As soon as a session token is deleted, as `LogoutSession` and `RevokeUserSessionToken` do, it lets
  -- nobody in, whatever the cache holds; and as soon as the session tokens of a user are deleted, no
  -- session token lets that user in.
  pub revoked_session_rejected :
      (db after_logout after_removal : Db) (d : Done) (n : ℕ) (user removed : Uuid)
      (h : Option String) (params : Params) (token : String)
      → token_of params ≡ some token
      → (classify_token C token).0 ≡ session
      → delete_session_token_by_hash (classify_token C token).1 db ≡ ok (d, after_logout)
      → delete_session_tokens_by_user_id removed db ≡ ok (n, after_removal)
      → internal_authenticate C settings K R now c params ≡ (admitted user h, c')
      → (¬ (IsReads R now after_logout)) × (IsReads R now after_removal → user ≢ removed)
  revoked_session_rejected db after_logout after_removal d n user removed h params token sent kind
        logout removal e =
      let (token', sent', credential, text) =
        admitted-Credential K C settings R now c params c' user h law e in
      let same : token' ≡ token = cc in
      let own =
        subst
          (λ t. Credential K C settings R now c (classify_token C t).1 user (classify_token C t).0)
          same credential in
      go (subst (Credential K C settings R now c (classify_token C token).1 user) kind own)
    where
      go :
          Credential K C settings R now c (classify_token C token).1 user session
          → (¬ (IsReads R now after_logout)) × (IsReads R now after_removal → user ≢ removed)
      go (by_session st there own early) = (
        λ reads.
            let (t, row, hashed, same) = found_session_row _ _ st (reads.sessions _ st there) in
            let gone = deleted_by_hash _ db after_logout d t logout row in cc,
        λ reads equal.
            let (t, row, hashed, same) = found_session_row _ _ st (reads.sessions _ st there) in
            deleted_by_user removed db after_removal n t removal row (same ∙ (own ∙ equal)),
      )
