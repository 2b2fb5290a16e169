-- ===== src/Model/DeviceLogins.antt =====
-- internal/model/device_login_requests.go over the tables: an identifier is given once.
pub mod Laws
use platform_orchestrator_ia.Prelude.{
  ℕ, String, ◌=~◌, ◌==◌, Uuid, Bool, true, false, not, Option, none, some, List, [], ◌∷◌, ◌++◌,
  length, map, any, select, first, if◌then◌else◌,
}
use platform_orchestrator_ia.Prelude.Result.{Result, ok, err}
use platform_orchestrator_ia.Model.{Bytes, DeviceLoginRequest, Db}
use platform_orchestrator_ia.Model.Store.{DbError, Done, done}

abbrev pub device_login_rejected : String
device_login_rejected = "rejected"

abbrev pub device_login_accepted : String
device_login_accepted = "accepted"

abbrev pub has_id : Uuid → DeviceLoginRequest → Bool
has_id id r = r.id == id

-- `CreateDeviceLoginRequest`, which writes no decision.
unfoldable pub create_device_login_request :
    DeviceLoginRequest → Db → Result DbError (DeviceLoginRequest × Db)
create_device_login_request r db =
    if any (has_id r.id) db.device_login_requests
    then err DbError.failed
    else ok (
      r,
      record db {
        device_login_requests =
            db.device_login_requests ++ (record r { decision = none; decided_by = none } ∷ []);
      },
    )

-- `GetDeviceLoginRequest`.
unfoldable pub get_device_login_request : Uuid → Db → Result DbError DeviceLoginRequest
get_device_login_request id db = elim (first (has_id id) db.device_login_requests) [
  | none ↦ err DbError.not_found
  | some r ↦ ok r
]

-- `GetDeviceLoginRequestByCodeHash`.
unfoldable pub get_device_login_request_by_code_hash :
    Bytes → Db → Result DbError DeviceLoginRequest
get_device_login_request_by_code_hash hash db =
    elim (first (λ (r : DeviceLoginRequest). r.verification_code_hash =~ hash)
      db.device_login_requests) [ none ↦ err DbError.not_found | some r ↦ ok r ]

-- `UpdateDeviceLoginRequest`, which writes the decision.
unfoldable pub update_device_login_request :
    DeviceLoginRequest → Db → Result DbError (DeviceLoginRequest × Db)
update_device_login_request request db =
    if any (has_id request.id) db.device_login_requests
    then ok (
      request,
      record db {
        device_login_requests =
            map
              (λ (r : DeviceLoginRequest).
                if has_id request.id r
                then record r { decision = request.decision; decided_by = request.decided_by }
                else r)
              db.device_login_requests;
      },
    )
    else err DbError.not_found

abbrev pub decided_by : Uuid → DeviceLoginRequest → Bool
decided_by user r = elim r.decided_by [ none ↦ false | some u ↦ u == user ]

-- `DeleteDeviceLoginRequestsDecidedBy`, with the number of rows.
unfoldable pub delete_device_login_requests_decided_by : Uuid → Db → Result DbError (ℕ × Db)
delete_device_login_requests_decided_by user db = ok (
  length (select (decided_by user) db.device_login_requests),
  record db {
    device_login_requests =
        select (λ (r : DeviceLoginRequest). not (decided_by user r)) db.device_login_requests;
  },
)

-- `DeleteDeviceLoginRequest`.
unfoldable pub delete_device_login_request : Uuid → Db → Result DbError (Done × Db)
delete_device_login_request id db =
    if any (has_id id) db.device_login_requests
    then ok (
      done,
      record db {
        device_login_requests =
            select (λ (r : DeviceLoginRequest). not (has_id id r)) db.device_login_requests;
      },
    )
    else err DbError.not_found
