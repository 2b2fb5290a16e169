-- ===== src/Api/Authenticate/Cache.antt =====
-- `GetTokenByHashCache` of internal/api/authenticate.go, over github.com/karlseguin/ccache.
pub mod Laws
use platform_orchestrator_ia.Prelude.{
  ℕ, String, ◌<>◌, ◌≡◌, ◌==◌, ◌⊎◌, Uuid, Bool, true, false, not, ◌&&◌, Option, none, some, List, [],
  ◌∷◌, ltb, if◌then◌else◌,
}
use platform_orchestrator_ia.Prelude.Result.{Result, ok, err, ◌>>=◌}
use platform_orchestrator_ia.Model.{Time, Bytes, SessionToken, Db}
use platform_orchestrator_ia.Model.Store.{DbError, not_found, conflict, failed}
use platform_orchestrator_ia.Model.SessionTokens.{get_session_token_by_hash}
use platform_orchestrator_ia.Model.PluginWorkload.{
  PluginWorkloadBinding, PluginWorkloadToken, get_plugin_workload_token_by_hash,
  get_plugin_workload_binding_for_service_user,
}
use platform_orchestrator_ia.Model.ServiceUsers.{ServiceUser, get_service_user_token_by_hash}
use platform_orchestrator_ia.Api.Authenticate.Tokens.{
  Codec, TokenKind, session, service_user, plugin_workload, kind_text, is_service_user,
}

-- `WrappedToken`. The entry of a token that does not exist has the nil user.
pub record WrappedToken : Type 0 where
  pub user_id : Uuid
  pub expires_at : Time
  pub workload_bound : Bool
  pub holds_roles : Bool

abbrev pub nil_token : WrappedToken
nil_token = record { user_id = 0; expires_at = 0; workload_bound = false; holds_roles = false }

-- An item of the cache: its value, and whether it has expired.
pub record CachedToken : Type 0 where
  pub value : WrappedToken
  pub expired : Bool

-- The package's cache of tokens. `fetch` is given what the function that it would call returns.
pub record TokenCache : Type 1 where
  pub Cache : Type 0
  pub get : Cache → String → Option CachedToken
  pub set : Cache → String → WrappedToken → Time → Cache
  pub extend : Cache → String → Time → Cache
  pub fetch :
      Cache → String → Time → Result DbError WrappedToken → Result DbError WrappedToken × Cache

-- What the item of a key stands for: `none` where there is none or it has expired.
abbrev pub live : (K : TokenCache) → K.Cache → String → Option WrappedToken
live K c key = elim (K.get c key) [
  | none ↦ none
  | some item ↦ if item.expired then none else some item.value
]

-- The documented behaviour of `Fetch`: a live item, or what the function returns.
abbrev pub IsTokenCache : TokenCache → Type 0
IsTokenCache K =
    (c : K.Cache) (key : String) (ttl : Time) (made : Result DbError WrappedToken)
    → elim (live K c key) [
      | some found ↦ (K.fetch c key ttl made).0 ≡ ok found
      | none ↦ (K.fetch c key ttl made).0 ≡ made
    ]

-- Sixty seconds.
abbrev pub authentication_token_cache_ttl : Time
authentication_token_cache_ttl = 60_000_000_000

-- What the cache asks of `model.Databaser`.
pub record TokenReads : Type 0 where
  pub session_token : Bytes → Result DbError SessionToken
  pub plugin_workload_token : Bytes → Result DbError PluginWorkloadToken
  pub service_user_token : Bytes → Result DbError ServiceUser
  pub workload_binding : Uuid → Result DbError PluginWorkloadBinding

-- The reads of the tables, none of which fails.
abbrev pub databaser : Time → Db → TokenReads
databaser now db = record {
  session_token = λ hash. get_session_token_by_hash hash db;
  plugin_workload_token = λ hash. get_plugin_workload_token_by_hash now hash db;
  service_user_token = λ hash. get_service_user_token_by_hash hash db;
  workload_binding = λ id. get_plugin_workload_binding_for_service_user now id db;
}

-- `IsErrNotFound` turns an error into no token.
abbrev pub found_or_none {ℓ} :
    {A : Type ℓ} → (A → WrappedToken) → Result DbError A → Result DbError (Option WrappedToken)
found_or_none wrap (ok token) = ok (some (wrap token))
found_or_none wrap (err not_found) = ok none
found_or_none wrap (err conflict) = err conflict
found_or_none wrap (err failed) = err failed

abbrev pub wrap_session : SessionToken → WrappedToken
wrap_session st = record nil_token { user_id = st.user_id; expires_at = st.expires_at }

abbrev pub wrap_workload : PluginWorkloadToken → WrappedToken
wrap_workload t = record nil_token { user_id = t.service_user_id; expires_at = t.expires_at }

-- `lookupUncached`, for the kinds that it is called with.
unfoldable pub lookup_uncached :
    TokenReads → TokenKind → Bytes → Result DbError (Option WrappedToken)
lookup_uncached R plugin_workload hash = found_or_none wrap_workload (R.plugin_workload_token hash)
lookup_uncached R kind hash = found_or_none wrap_session (R.session_token hash)

-- Whether `GetPluginWorkloadBindingForServiceUser` finds a row; other errors are passed on.
abbrev pub is_bound : Result DbError PluginWorkloadBinding → Result DbError Bool
is_bound (ok binding) = ok true
is_bound (err not_found) = ok false
is_bound (err conflict) = err conflict
is_bound (err failed) = err failed

abbrev pub is_nonempty {ℓ} : {A : Type ℓ} → List A → Bool
is_nonempty [] = false
is_nonempty (x ∷ xs) = true

abbrev pub wrap_service_user : ServiceUser → Bool → WrappedToken
wrap_service_user sut bound = record {
  user_id = sut.id;
  expires_at = sut.current_token_expires_at;
  workload_bound = bound;
  holds_roles = is_nonempty sut.service_user_roles;
}

-- The function that `GetTokenByHash` gives to `Fetch`.
unfoldable pub load_service_user : TokenReads → Bytes → Result DbError WrappedToken
load_service_user R hash = elim (R.service_user_token hash) [
  | err not_found ↦ ok nil_token
  | err conflict ↦ err conflict
  | err failed ↦ err failed
  | ok sut ↦ elim (is_bound (R.workload_binding sut.id)) [
    | ok bound ↦ ok (wrap_service_user sut bound)
    | err e ↦ err e
  ]
]

module _ (K : TokenCache) (C : Codec) where
  -- The key of a kind and a hash.
  abbrev pub cache_key : TokenKind → Bytes → String
  cache_key kind hash = kind_text kind <> (":" <> C.hex_encode hash)

  -- The cache after an uncached lookup: no token, and an expired one, are remembered as such.
  unfoldable pub remember :
      K.Cache
      → String
      → Time
      → Result DbError (Option WrappedToken)
      → Result DbError (Option WrappedToken) × K.Cache
  remember c key now (err e) = (err e, c)
  remember c key now (ok none) = (ok none, K.set c key nil_token authentication_token_cache_ttl)
  remember c key now (ok (some wrapped)) = (
    ok (some wrapped),
    if ltb wrapped.expires_at now then K.set c key nil_token authentication_token_cache_ttl else c,
  )

  -- What is returned for an item of a service user: the nil user is no token, for longer.
  unfoldable pub answer_fetched :
      String
      → Result DbError WrappedToken × K.Cache
      → Result DbError (Option WrappedToken) × K.Cache
  answer_fetched key (err e, c) = (err e, c)
  answer_fetched key (ok v, c) =
      if v.user_id == 0
      then (ok none, K.extend c key authentication_token_cache_ttl)
      else (ok (some v), c)

  -- A live item that says that there is no token.
  abbrev pub is_absent : K.Cache → String → Bool
  is_absent c key = elim (live K c key) [ none ↦ false | some w ↦ w.user_id == 0 ]

  -- `GetTokenByHash`: the token, and the cache after it.
  unfoldable pub get_token_by_hash :
      TokenReads
      → Time
      → K.Cache
      → TokenKind
      → Bytes
      → Result DbError (Option WrappedToken) × K.Cache
  unfolding remember answer_fetched lookup_uncached load_service_user
  get_token_by_hash R now c kind hash =
      let key = cache_key kind hash in
      if is_service_user kind
      then answer_fetched key
          (K.fetch c key authentication_token_cache_ttl (load_service_user R hash))
      else if is_absent c key
      then (ok none, K.extend c key authentication_token_cache_ttl)
      else remember c key now (lookup_uncached R kind hash)
