-- ===== src/Api/Authenticate/Cache/Laws.antt =====
-- What `GetTokenByHash` of internal/api/authenticate.go returns, by the kind of the token.
use platform_orchestrator_ia.Prelude.{
  String, ◌≡◌, ◌≢◌, ◌==◌, ◌⊎◌, inl, inr, refl, sym, ◌∙◌, false, Option, none, some, arith,
  Bool-cases, Option-cases,
}
use platform_orchestrator_ia.Prelude.Result.{Result, ok, err}
use platform_orchestrator_ia.Model.{Time, Bytes}
use platform_orchestrator_ia.Model.Store.{DbError}
use platform_orchestrator_ia.Api.Authenticate.Tokens.{
  Codec, TokenKind, session, service_user, plugin_workload,
}
use platform_orchestrator_ia.Api.Authenticate.Cache.{
  WrappedToken, TokenCache, IsTokenCache, live, TokenReads, authentication_token_cache_ttl,
  found_or_none, lookup_uncached, load_service_user, cache_key, remember, answer_fetched, is_absent,
  get_token_by_hash,
}

pub found_wrapped :
    {A : Type 0} (wrap : A → WrappedToken) (r : Result DbError A) (w : WrappedToken)
    → found_or_none wrap r ≡ ok (some w)
    → (a : A) × (r ≡ ok a) × (wrap a ≡ w)
found_wrapped wrap (ok a) w h = (a, refl, ground arith)
found_wrapped wrap (err DbError.not_found) w h = cc
found_wrapped wrap (err DbError.conflict) w h = cc
found_wrapped wrap (err DbError.failed) w h = cc

module _ (K : TokenCache) (C : Codec) (R : TokenReads) (now : Time) (c : K.Cache) where
  pub remember-answer :
      (key : String) (r : Result DbError (Option WrappedToken)) → (remember K C c key now r).0 ≡ r
  unfolding remember
  remember-answer key (ok none) = refl
  remember-answer key (ok (some w)) = refl
  remember-answer key (err e) = refl

  -- A session or a workload token that is returned is what the database has now.
  pub lookup_uncached_now :
      (kind : TokenKind) (hash : Bytes) (w : WrappedToken)
      → kind ≢ service_user
      → (get_token_by_hash K C R now c kind hash).0 ≡ ok (some w)
      → lookup_uncached R kind hash ≡ ok (some w)
  unfolding get_token_by_hash
  lookup_uncached_now service_user hash w other h = absurd (other refl)
  lookup_uncached_now session hash w other h =
      elim (Bool-cases (is_absent K C c (cache_key K C session hash))) [
        | inl absent ↦ absurd (ground arith)
        | inr fine ↦ sym (remember-answer _ _) ∙ rw fine at h
      ]
  lookup_uncached_now plugin_workload hash w other h =
      elim (Bool-cases (is_absent K C c (cache_key K C plugin_workload hash))) [
        | inl absent ↦ absurd (ground arith)
        | inr fine ↦ sym (remember-answer _ _) ∙ rw fine at h
      ]

  -- So is one that the database has, unless a live item says that there is none.
  pub lookup_uncached_returned :
      (kind : TokenKind) (hash : Bytes)
      → kind ≢ service_user
      → is_absent K C c (cache_key K C kind hash) ≡ false
      → (get_token_by_hash K C R now c kind hash).0 ≡ lookup_uncached R kind hash
  unfolding get_token_by_hash
  lookup_uncached_returned service_user hash other h = absurd (other refl)
  lookup_uncached_returned session hash other h = rw h (remember-answer _ _)
  lookup_uncached_returned plugin_workload hash other h = rw h (remember-answer _ _)

  answer_fetched-some :
      (key : String) (r : Result DbError WrappedToken) (c' : K.Cache) (w : WrappedToken)
      → (answer_fetched K C key (r, c')).0 ≡ ok (some w)
      → r ≡ ok w
  unfolding answer_fetched
  answer_fetched-some key (err e) c' w h = cc
  answer_fetched-some key (ok v) c' w h = elim (Bool-cases (v.user_id == 0)) [
    | inl nobody ↦ absurd (missing (rw nobody at h))
    | inr somebody ↦ same (rw somebody at h)
  ]
    where
      missing : ◌≡◌ {A = Result DbError (Option WrappedToken)} (ok none) (ok (some w)) → ⊥
      missing k = cc

      same :
          ◌≡◌ {A = Result DbError (Option WrappedToken)} (ok (some v)) (ok (some w))
          → ◌≡◌ {A = Result DbError WrappedToken} (ok v) (ok w)
      same k = cc

  -- A service user's token that is returned is a live item's, or what the database has now.
  pub fetched_service_user :
      (hash : Bytes) (w : WrappedToken)
      → IsTokenCache K
      → (get_token_by_hash K C R now c service_user hash).0 ≡ ok (some w)
      → (live K c (cache_key K C service_user hash) ≡ some w) ⊎ (load_service_user R hash ≡ ok w)
  unfolding get_token_by_hash
  fetched_service_user hash w law h =
      let key = cache_key K C service_user hash in
      let made = load_service_user R hash in
      let (r, c') = K.fetch c key authentication_token_cache_ttl made in
      let fetched =
        answer_fetched-some key (K.fetch c key authentication_token_cache_ttl made).0 _ w h in
      let behaves = law c key authentication_token_cache_ttl made in
      elim (Option-cases (live K c key)) [
        | inl gone ↦ inr (sym (rw gone at behaves) ∙ fetched)
        | inr (found, there) ↦
            let same : ◌≡◌ {A = Result DbError WrappedToken} (ok found) (ok w) =
              sym (rw there at behaves) ∙ fetched in
            inl (there ∙ injected found same)
      ]
    where
      injected :
          (found : WrappedToken)
          → ◌≡◌ {A = Result DbError WrappedToken} (ok found) (ok w)
          → ◌≡◌ {A = Option WrappedToken} (some found) (some w)
      injected found e = cc
