-- ===== src/Api/Authenticate/Unauthenticated.antt =====
-- The paths that internal/api/authenticate.go lets through without a token, and the super user's.
use platform_orchestrator_ia.Prelude.{
  String, ◌<>◌, ◌≡◌, ◌≢◌, ◌=~◌, ◌⊎◌, inl, inr, Uuid, Option, cut_prefix, cut_prefix_sound, arith,
  eq_iff, Option-cases, Bool-cases,
}
use platform_orchestrator_ia.Shared.UserId.{internal_system_uuid}
use platform_orchestrator_ia.Api.Authenticate.Tokens.{Codec}
use platform_orchestrator_ia.Api.Authenticate.{
  admitted, rejected, Settings, authenticate_super_user,
}

-- The documents that describe a SCIM service.
abbrev pub IsDiscovery : String → Type 0
IsDiscovery resource =
    (resource ≡ "ServiceProviderConfig") ⊎ ((resource ≡ "Schemas") ⊎ (resource ≡ "ResourceTypes"))

-- `authenticateSuperUser` lets in the system user and nobody else, and only for a token whose hash is
-- the configured one, which is not empty.
pub super_user_admitted :
    (C : Codec) (settings : Settings) (header : String) (user : Uuid) (h : Option String)
    → authenticate_super_user C settings header ≡ admitted user h
    → (user ≡ internal_system_uuid)
      × (settings.super_user_token_hash ≢ "")
      × ((token : String) × (header ≡ "Bearer " <> token)
          × (C.sha256 token ≡ settings.super_user_token_hash))
unfolding authenticate_super_user
super_user_admitted C settings header user h e = elim (Option-cases (cut_prefix "Bearer " header)) [
  | inl bare ↦ absurd (refused _ (rw (authenticate_super_user, bare) at e))
  | inr (token, found) ↦
      let e' = rw (authenticate_super_user, found) at e in
      elim (Bool-cases (settings.super_user_token_hash =~ "")) [
        | inl empty ↦ absurd (refused _ (rw empty at e'))
        | inr set ↦ elim (Bool-cases (C.sha256 token =~ settings.super_user_token_hash)) [
          | inr other ↦ absurd (refused _ (rw (set, other) at e'))
          | inl equal ↦ (
            from_system _ (rw (set, equal) at e'),
            ground (arith, eq_iff settings.super_user_token_hash ""),
            (token, cut_prefix_sound "Bearer " header token found, (eq_iff _ _).0 equal),
          )
        ]
      ]
]
  where
    refused : (challenge : String) → rejected challenge ≡ admitted user h → ⊥
    refused challenge k = cc

    from_system :
        (text : Option String)
        → admitted internal_system_uuid text ≡ admitted user h
        → user ≡ internal_system_uuid
    from_system text k = cc
