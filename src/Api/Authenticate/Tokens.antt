-- ===== src/Api/Authenticate/Tokens.antt =====
-- `classifyToken` of internal/api/authenticate.go, with the encoders of internal/api/session_tokens.go,
-- internal/api/service_users.go and internal/workloadidentity/token.go.
use platform_orchestrator_ia.Prelude.{
  ℕ, String, ◌<>◌, ◌≡◌, Bool, true, false, Option, none, some, cut_prefix, octet_length, ◌==◌, ◌&&◌,
  if◌then◌else◌,
}
use platform_orchestrator_ia.Model.{Bytes}

-- crypto/sha256, encoding/base64 with the alphabet for URLs, and encoding/hex. `decode` returns what
-- `DecodeString` does: the bytes that it could read, and whether it could read all.
pub record Codec : Type 0 where
  pub sha256 : Bytes → Bytes
  pub encode : Bytes → String
  pub decode : String → Bytes × Bool
  pub hex_encode : Bytes → String
  pub decode-encode : (raw : Bytes) → decode (encode raw) ≡ (raw, true)

-- base64 without padding, with the same alphabet.
pub record RawCodec : Type 0 where
  pub encode : Bytes → String
  pub decode : String → Bytes × Bool

-- `tokenKind`.
pub data TokenKind : Type 0 where
  session : TokenKind
  service_user : TokenKind
  plugin_workload : TokenKind

abbrev pub kind_text : TokenKind → String
kind_text session = "session"
kind_text service_user = "service-user"
kind_text plugin_workload = "plugin-workload"

abbrev pub is_service_user : TokenKind → Bool
is_service_user service_user = true
is_service_user _ = false

abbrev pub service_user_token_prefix : String
service_user_token_prefix = "SU-"

-- `workloadidentity.TokenPrefix` and `tokenEntropyBytes`.
abbrev pub token_prefix : String
token_prefix = "PWT-"

abbrev pub token_entropy_bytes : ℕ
token_entropy_bytes = 33

-- Thirty-two zero bytes.
abbrev pub zero_hash : Bytes
zero_hash = "\0\0\0\0\0\0\0\0\0\0\0\0\0\0\0\0\0\0\0\0\0\0\0\0\0\0\0\0\0\0\0\0"

module _ (C : Codec) where
  -- `EncodeSessionToken`.
  abbrev pub encode_session_token : Bytes → String
  encode_session_token raw = C.encode raw

  -- `EncodeServiceUserToken`.
  abbrev pub encode_service_user_token : Bytes → String
  encode_service_user_token raw = service_user_token_prefix <> C.encode raw

  -- The text of `workloadidentity.NewToken`.
  abbrev pub new_workload_token : Bytes → String
  new_workload_token raw = token_prefix <> C.encode raw

  -- `workloadidentity.HashToken`.
  unfoldable pub hash_token : String → Option Bytes
  hash_token token = elim (cut_prefix token_prefix token) [
    | none ↦ none
    | some encoded ↦
        let (raw, complete) = C.decode encoded in
        if complete && octet_length raw == token_entropy_bytes then some (C.sha256 raw) else none
  ]

  -- `classifyToken`: the kind, and the hash to look for.
  unfoldable pub classify_token : String → TokenKind × Bytes
  unfolding hash_token
  classify_token token = elim (cut_prefix service_user_token_prefix token) [
    | some encoded ↦ (service_user, C.sha256 (C.decode encoded).0)
    | none ↦ elim (cut_prefix token_prefix token) [
      | some encoded ↦
          (plugin_workload, elim (hash_token token) [ some hash ↦ hash | none ↦ zero_hash ])
      | none ↦ (session, C.sha256 (C.decode token).0)
    ]
  ]
