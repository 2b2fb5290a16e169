-- ===== src/Api/Authenticate/Issued.antt =====
-- The tokens that the service issues, and what internal/api/authenticate.go makes of them.
use text.Mathlib.TextLemmas.{cons-append}
use platform_orchestrator_ia.Prelude.{
  String, ◌<>◌, ◌≡◌, ◌≤◌, ◌↔◌, inl, inr, refl, ap, sym, ◌∙◌, false, none, some, cut_prefix,
  cut_prefix-append, octet_length, arith, Option-cases,
}
use platform_orchestrator_ia.Prelude.Result.{ok}
use platform_orchestrator_ia.Model.{Time, Bytes, SessionToken, Db}
use platform_orchestrator_ia.Model.SessionTokens.{create_session_token}
use platform_orchestrator_ia.Model.SessionTokens.Laws.{create-get}
use platform_orchestrator_ia.Api.Authenticate.Tokens.{
  Codec, session, service_user, plugin_workload, classify_token, hash_token, encode_session_token,
  encode_service_user_token, new_workload_token, service_user_token_prefix, token_prefix,
}
use platform_orchestrator_ia.Api.Authenticate.Cache.{
  TokenCache, TokenReads, databaser, is_absent, cache_key, wrap_session, get_token_by_hash,
}
use platform_orchestrator_ia.Api.Authenticate.{
  admitted, Params, Settings, token_of, answer, internal_authenticate,
}

not_service_user : (s : String) → cut_prefix service_user_token_prefix (token_prefix <> s) ≡ none
unfolding cut_prefix
not_service_user s = rw cons-append refl

module _ (C : Codec) where
  service_user_recognised :
      (raw : Bytes)
      → classify_token C (encode_service_user_token C raw) ≡ (service_user, C.sha256 raw)
  unfolding classify_token
  service_user_recognised raw =
      rw
        (
          classify_token,
          cut_prefix-append service_user_token_prefix (C.encode raw),
          C.decode-encode raw,
        )
        refl

  hash_token_new :
      (raw : Bytes)
      → octet_length raw ≡ 33
      → hash_token C (new_workload_token C raw) ≡ some (C.sha256 raw)
  unfolding hash_token
  hash_token_new raw size =
      rw (hash_token, cut_prefix-append token_prefix (C.encode raw), C.decode-encode raw, size) refl

  workload_recognised :
      (raw : Bytes)
      → octet_length raw ≡ 33
      → classify_token C (new_workload_token C raw) ≡ (plugin_workload, C.sha256 raw)
  unfolding classify_token
  workload_recognised raw size =
      rw
        (
          classify_token,
          not_service_user (C.encode raw),
          cut_prefix-append token_prefix (C.encode raw),
          hash_token_new raw size,
        )
        refl

  session_recognised :
      (raw : Bytes)
      → cut_prefix service_user_token_prefix (encode_session_token C raw) ≡ none
      → cut_prefix token_prefix (encode_session_token C raw) ≡ none
      → classify_token C (encode_session_token C raw) ≡ (session, C.sha256 raw)
  unfolding classify_token
  session_recognised raw su pwt = rw (classify_token, su, pwt, C.decode-encode raw) refl

  taken_for_service_user :
      (token encoded : String)
      → cut_prefix service_user_token_prefix token ≡ some encoded
      → (classify_token C token).0 ≡ service_user
  unfolding classify_token
  taken_for_service_user token encoded e = rw (classify_token, e) refl

  taken_for_workload :
      (token encoded : String)
      → cut_prefix service_user_token_prefix token ≡ none
      → cut_prefix token_prefix token ≡ some encoded
      → (classify_token C token).0 ≡ plugin_workload
  unfolding classify_token
  taken_for_workload token encoded su pwt = rw (classify_token, su, pwt) refl

  -- Every token that is issued to a service user is taken for that, with the hash that is stored, and
  -- so is every plugin workload token of 33 bytes. The session token of some bytes is taken for one
  -- exactly where its text happens to begin neither with "SU-" nor with "PWT-".
  pub issued_token_recognised :
      (raw : Bytes)
      → octet_length raw ≡ 33
      → (classify_token C (encode_service_user_token C raw) ≡ (service_user, C.sha256 raw))
        × (classify_token C (new_workload_token C raw) ≡ (plugin_workload, C.sha256 raw))
        × ((classify_token C (encode_session_token C raw) ≡ (session, C.sha256 raw)) ↔ (
            (cut_prefix service_user_token_prefix (encode_session_token C raw) ≡ none)
            × (cut_prefix token_prefix (encode_session_token C raw) ≡ none)))
  issued_token_recognised raw size = (
    service_user_recognised raw,
    workload_recognised raw size,
    (λ own. plain own, λ free. session_recognised raw free.0 free.1),
  )
    where
      plain :
          classify_token C (encode_session_token C raw) ≡ (session, C.sha256 raw)
          → (cut_prefix service_user_token_prefix (encode_session_token C raw) ≡ none)
            × (cut_prefix token_prefix (encode_session_token C raw) ≡ none)
      plain own =
          let kind = ap (λ p. p.0) own in
          elim (Option-cases (cut_prefix service_user_token_prefix (encode_session_token C raw))) [
            | inr (encoded, found) ↦ let other = taken_for_service_user _ encoded found in cc
            | inl su ↦ elim (Option-cases (cut_prefix token_prefix (encode_session_token C raw))) [
              | inr (encoded, found) ↦ let other = taken_for_workload _ encoded su found in cc
              | inl pwt ↦ (su, pwt)
            ]
          ]

-- The steps of the look-up of a session token.
module _ (K : TokenCache) (C : Codec) (settings : Settings) (R : TokenReads) (now : Time)
    (c : K.Cache) where
  looked_up :
      (hash : Bytes) (st : SessionToken)
      → R.session_token hash ≡ ok st
      → now ≤ st.expires_at
      → is_absent K C c (cache_key K C session hash) ≡ false
      → get_token_by_hash K C R now c session hash ≡ (ok (some (wrap_session st)), c)
  unfolding get_token_by_hash
  looked_up hash st there early fresh = rw (fresh, there) (ground arith)

  answered :
      (hash : Bytes) (st : SessionToken)
      → now ≤ st.expires_at
      → answer C settings now session hash (ok (some (wrap_session st)))
        ≡ admitted st.user_id (some (C.encode hash))
  unfolding answer
  answered hash st early = ground arith

  valid_session_admitted :
      (params : Params) (token : String) (hash : Bytes) (st : SessionToken)
      → token_of params ≡ some token
      → classify_token C token ≡ (session, hash)
      → R.session_token hash ≡ ok st
      → now ≤ st.expires_at
      → is_absent K C c (cache_key K C session hash) ≡ false
      → internal_authenticate C settings K R now c params
        ≡ (admitted st.user_id (some (C.encode hash)), c)
  unfolding internal_authenticate
  valid_session_admitted params token hash st sent kind there early fresh =
      rw
        (
          internal_authenticate,
          sent,
          kind,
          looked_up hash st there early fresh,
          answered hash st early,
        )
        refl

-- The requests that carry a token in the cookie, and in the header.
abbrev pub by_cookie : String → Params
by_cookie token = record { session_token = some token; authorization = none }

abbrev pub by_header : String → Params
by_header token = record { session_token = none; authorization = some ("Bearer " <> token) }

-- The request is admitted as the session's user with the session's hash, and leaves the cache as it is.
abbrev pub Admits :
    (K : TokenCache) → Codec → Settings → Time → K.Cache → Db → SessionToken → Params → Type 0
Admits K C settings now c db st params =
    internal_authenticate C settings K (databaser now db) now c params
    ≡ (admitted st.user_id (some (C.encode st.sha256_hash)), c)

-- A session that `CreateSessionToken` has added with the hash of some bytes lets its user in until it
-- expires: a request with the text of those bytes in the cookie, or after "Bearer " in the header, is
-- admitted as that user with that hash, and leaves the cache as it is. The text begins neither with
-- "SU-" nor with "PWT-", nothing changes the tables in between, and no live item of the cache says that
-- there is no such token.
pub created_session_admitted :
    (K : TokenCache) (C : Codec) (settings : Settings) (now : Time) (c : K.Cache)
    (st st' : SessionToken) (raw : Bytes) (db db' : Db)
    → create_session_token st db ≡ ok (st', db')
    → st.sha256_hash ≡ C.sha256 raw
    → now ≤ st.expires_at
    → cut_prefix service_user_token_prefix (encode_session_token C raw) ≡ none
    → cut_prefix token_prefix (encode_session_token C raw) ≡ none
    → is_absent K C c (cache_key K C session st.sha256_hash) ≡ false
    → Admits K C settings now c db' st (by_cookie (encode_session_token C raw))
      × Admits K C settings now c db' st (by_header (encode_session_token C raw))
created_session_admitted K C settings now c st st' raw db db' e hashed early su pwt fresh =
    let found = create-get st st' db db' e in
    let kind : classify_token C (encode_session_token C raw) ≡ (session, st.sha256_hash) =
      session_recognised C raw su pwt ∙ ap (λ h. (session, h)) (sym hashed) in
    let admit = λ (params : Params) (sent : token_of params ≡ some (encode_session_token C raw)).
      valid_session_admitted K C settings (databaser now db') now c params
        (encode_session_token C raw) st.sha256_hash (record st { provider = "" }) sent kind found
        early fresh in
    (
      admit (by_cookie (encode_session_token C raw)) refl,
      admit (by_header (encode_session_token C raw))
          (cut_prefix-append "Bearer " (encode_session_token C raw)),
    )
