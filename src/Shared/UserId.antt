-- ===== src/Shared/UserId.antt =====
-- shared/userid/userid.go: the variant bits of an identifier. `NewV7` of google/uuid is a parameter.
use platform_orchestrator_ia.Prelude.{
  ℕ, ◌+◌, ◌*◌, ◌/◌, ◌%◌, ◌<◌, String, ◌≡◌, ◌==◌, Uuid, Bool, true, false, not, ◌&&◌, arith,
  if◌then◌else◌,
}

abbrev pub human_user_variant : ℕ
human_user_variant = 1

abbrev pub service_user_variant : ℕ
service_user_variant = 2

-- Sixteen bytes 0xff.
abbrev pub internal_system_uuid : Uuid
internal_system_uuid = 340282366920938463463374607431768211455

-- The weight of byte 6: nine bytes follow it.
abbrev pub byte_6_weight : ℕ
byte_6_weight = 4722366482869645213696

-- `id[6]`.
abbrev pub byte_6 : Uuid → ℕ
byte_6 id = (id / byte_6_weight) % 256

-- `inner[6] = (inner[6] & 0b11110000) | variant`, for a variant below 16.
unfoldable pub with_variant : ℕ → Uuid → Uuid
with_variant variant inner =
    ((inner / byte_6_weight) / 16 * 16 + variant) * byte_6_weight + inner % byte_6_weight

-- `NewHumanUserId`, of what `NewV7` returns.
unfoldable pub new_human_user_id : Uuid → Uuid
unfolding with_variant
new_human_user_id inner = with_variant human_user_variant inner

-- `NewServiceUserTokenId`, of what `NewV7` returns.
unfoldable pub new_service_user_token_id : Uuid → Uuid
unfolding with_variant
new_service_user_token_id inner = with_variant service_user_variant inner

-- `IsHumanUser`: `id[6] & 0b0001` is the lowest bit.
unfoldable pub is_human_user : Uuid → Bool
is_human_user id = not (id == internal_system_uuid) && ((byte_6 id % 2) == human_user_variant)

-- `IsServiceUser`: `id[6] & 0b0010` is the second bit.
unfoldable pub is_service_user : Uuid → Bool
is_service_user id =
    not (id == internal_system_uuid) && ((byte_6 id / 2 % 2 * 2) == service_user_variant)

-- `GenerateDisplayNameForUserId`.
unfoldable pub generate_display_name_for_user_id : Uuid → String
unfolding is_human_user is_service_user
generate_display_name_for_user_id id =
    if is_human_user id
    then "User"
    else if is_service_user id
    then "Service User"
    else if id == internal_system_uuid
    then "System"
    else "Unknown User"

with_variant-byte_6 :
    (variant inner : ℕ)
    → variant < 16
    → byte_6 (with_variant variant inner) ≡ byte_6 inner / 16 * 16 + variant
unfolding with_variant
with_variant-byte_6 variant inner small = omega arith

human_byte :
    (id q : ℕ)
    → byte_6 id ≡ q * 16 + human_user_variant
    → (is_human_user id ≡ true) × (is_service_user id ≡ false)
unfolding is_human_user is_service_user
human_byte id q e = (ground arith, ground arith)

service_byte :
    (id q : ℕ)
    → byte_6 id ≡ q * 16 + service_user_variant
    → (is_human_user id ≡ false) × (is_service_user id ≡ true)
unfolding is_human_user is_service_user
service_byte id q e = (ground arith, ground arith)

-- A new person's identifier is a person's and no service user's, a new service user's the other way
-- round, and both keep the version, the upper half of byte 6.
pub new_ids_disjoint :
    (inner : Uuid)
    → (is_human_user (new_human_user_id inner) ≡ true)
      × (is_service_user (new_human_user_id inner) ≡ false)
      × (is_human_user (new_service_user_token_id inner) ≡ false)
      × (is_service_user (new_service_user_token_id inner) ≡ true)
      × (byte_6 (new_human_user_id inner) / 16 ≡ byte_6 inner / 16)
      × (byte_6 (new_service_user_token_id inner) / 16 ≡ byte_6 inner / 16)
unfolding new_human_user_id new_service_user_token_id
new_ids_disjoint inner =
    let human = with_variant-byte_6 human_user_variant inner (omega arith) in
    let service = with_variant-byte_6 service_user_variant inner (omega arith) in
    let (person, no_service) = human_byte (new_human_user_id inner) _ human in
    let (no_person, service_user) = service_byte (new_service_user_token_id inner) _ service in
    (person, no_service, no_person, service_user, rw human (omega arith), rw service (omega arith))
