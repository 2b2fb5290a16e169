-- ===== src/Api/Authenticate/Laws.antt =====
-- Who internal/api/authenticate.go lets in, whatever its cache holds.
use mathlib.Core.Path.{subst}
use platform_orchestrator_ia.Prelude.{
  String, ◌≡◌, ◌≤◌, ◌⊎◌, inl, inr, refl, sym, ◌∙◌, ap, Uuid, true, false, Option, none, some, ltb,
  arith, Bool-cases, Option-cases,
}
use platform_orchestrator_ia.Prelude.Result.{Result, ok, err}
use platform_orchestrator_ia.Model.{Time, Bytes, SessionToken}
use platform_orchestrator_ia.Model.Store.{DbError}
use platform_orchestrator_ia.Model.PluginWorkload.{PluginWorkloadToken}
use platform_orchestrator_ia.Api.Authenticate.Tokens.{
  Codec, TokenKind, session, service_user, plugin_workload, classify_token,
}
use platform_orchestrator_ia.Api.Authenticate.Cache.{
  WrappedToken, TokenCache, IsTokenCache, live, TokenReads, wrap_session, wrap_workload,
  lookup_uncached, load_service_user, cache_key, get_token_by_hash,
}
use platform_orchestrator_ia.Api.Authenticate.Cache.Laws.{
  found_wrapped, lookup_uncached_now, fetched_service_user,
}
use platform_orchestrator_ia.Api.Authenticate.{
  Response, admitted, rejected, Params, Settings, token_of, refuses_static_token, answer,
  internal_authenticate,
}

module _ (K : TokenCache) (C : Codec) (settings : Settings) (R : TokenReads) (now : Time)
    (c : K.Cache) where
  -- What lets a user in: a session or a workload token that the database has now, or a service user's
  -- token that the database has or the cache had from it.
  pub data Credential (hash : Bytes) (user : Uuid) : TokenKind → Type 0 where
    by_session :
        (st : SessionToken)
        → R.session_token hash ≡ ok st
        → st.user_id ≡ user
        → now ≤ st.expires_at
        → Credential hash user session
    by_workload :
        (t : PluginWorkloadToken)
        → R.plugin_workload_token hash ≡ ok t
        → t.service_user_id ≡ user
        → now ≤ t.expires_at
        → Credential hash user plugin_workload
    by_service_user :
        (w : WrappedToken)
        → (live K c (cache_key K C service_user hash) ≡ some w) ⊎ (load_service_user R hash ≡ ok w)
        → w.user_id ≡ user
        → now ≤ w.expires_at
        → (w.workload_bound ≡ true
            → (w.holds_roles ≡ false) × (settings.plugin_workload_static_tokens ≡ true))
        → Credential hash user service_user

  answer_admitted :
      (kind : TokenKind) (hash : Bytes) (found : Result DbError (Option WrappedToken)) (user : Uuid)
      (h : Option String)
      → answer C settings now kind hash found ≡ admitted user h
      → (w : WrappedToken) × (found ≡ ok (some w))
        × (w.user_id ≡ user)
        × (now ≤ w.expires_at)
        × (refuses_static_token settings kind w ≡ false)
        × (h ≡ some (C.encode hash))
  unfolding answer
  answer_admitted kind hash (err e) user h q = cc
  answer_admitted kind hash (ok none) user h q = cc
  answer_admitted kind hash (ok (some w)) user h q = elim (Bool-cases (ltb w.expires_at now)) [
    | inl late ↦ absurd (ground arith)
    | inr live ↦ elim (Bool-cases (refuses_static_token settings kind w)) [
      | inl refused ↦ absurd (ground arith)
      | inr allowed ↦ (w, refl, ground arith, ground arith, allowed, ground arith)
    ]
  ]

  -- A token that is not refused: a bound service user has no roles, and static tokens are allowed.
  static_allowed :
      (w : WrappedToken)
      → refuses_static_token settings service_user w ≡ false
      → w.workload_bound ≡ true
      → (w.holds_roles ≡ false) × (settings.plugin_workload_static_tokens ≡ true)
  static_allowed w fine bound = (ground arith, ground arith)

  found_session :
      (hash : Bytes) (w : WrappedToken)
      → lookup_uncached R session hash ≡ ok (some w)
      → (st : SessionToken) × (R.session_token hash ≡ ok st) × (wrap_session st ≡ w)
  unfolding lookup_uncached
  found_session hash w h = found_wrapped wrap_session (R.session_token hash) w h

  found_workload :
      (hash : Bytes) (w : WrappedToken)
      → lookup_uncached R plugin_workload hash ≡ ok (some w)
      → (t : PluginWorkloadToken) × (R.plugin_workload_token hash ≡ ok t) × (wrap_workload t ≡ w)
  unfolding lookup_uncached
  found_workload hash w h = found_wrapped wrap_workload (R.plugin_workload_token hash) w h

  answered-Credential :
      (kind : TokenKind) (hash : Bytes) (user : Uuid) (h : Option String)
      → IsTokenCache K
      → answer C settings now kind hash (get_token_by_hash K C R now c kind hash).0
        ≡ admitted user h
      → Credential hash user kind × (h ≡ some (C.encode hash))
  answered-Credential session hash user h law e =
      let (w, got, own, early, allowed, text) = answer_admitted session hash _ user h e in
      let now_there = lookup_uncached_now K C R now c session hash w (λ k. cc) got in
      let (st, there, wrapped) = found_session hash w now_there in
      (
        by_session st there (ap (λ v. v.user_id) wrapped ∙ own)
            (subst (λ v. now ≤ v.expires_at) (sym wrapped) early),
        text,
      )
  answered-Credential plugin_workload hash user h law e =
      let (w, got, own, early, allowed, text) = answer_admitted plugin_workload hash _ user h e in
      let now_there = lookup_uncached_now K C R now c plugin_workload hash w (λ k. cc) got in
      let (t, there, wrapped) = found_workload hash w now_there in
      (
        by_workload t there (ap (λ v. v.user_id) wrapped ∙ own)
            (subst (λ v. now ≤ v.expires_at) (sym wrapped) early),
        text,
      )
  answered-Credential service_user hash user h law e =
      let (w, got, own, early, allowed, text) = answer_admitted service_user hash _ user h e in
      (
        by_service_user w (fetched_service_user K C R now c hash w law got) own early
            (static_allowed w allowed),
        text,
      )

  -- A request that `InternalAuthenticate` admits carries a token, in the cookie or else in the header,
  -- whose kind and hash have a credential of that user, and the hash is what is passed on: a session or
  -- a plugin workload token must be in the database at that moment and not expired, whatever the cache
  -- holds; the token of a service user may also come from a live item of the cache, and then
  -- the service user is not bound to a workload, or holds no roles while static tokens are allowed.
  pub admitted-Credential :
      (params : Params) (c' : K.Cache) (user : Uuid) (h : Option String)
      → IsTokenCache K
      → internal_authenticate C settings K R now c params ≡ (admitted user h, c')
      → (token : String) × (token_of params ≡ some token)
        × Credential (classify_token C token).1 user (classify_token C token).0
        × (h ≡ some (C.encode (classify_token C token).1))
  unfolding internal_authenticate
  admitted-Credential params c' user h law e = elim (Option-cases (token_of params)) [
    | inl none_sent ↦ absurd (refused (rw (internal_authenticate, none_sent) at e))
    | inr (token, sent) ↦
        let answered = ap (λ p. p.0) (rw (internal_authenticate, sent) at e) in
        let (credential, text) =
          answered-Credential (classify_token C token).0 (classify_token C token).1 user h law
            answered in
        (token, sent, credential, text)
  ]
    where
      refused :
          ◌≡◌ {A = Response × K.Cache} (rejected "Cookie, Bearer", c) (admitted user h, c') → ⊥
      refused k = cc
