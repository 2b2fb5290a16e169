-- ===== src/Model/DeviceLogins/Laws.antt =====
-- What the changes of internal/model/device_login_requests.go, and of users.go beside them, keep.
use platform_orchestrator_ia.Prelude.{
  ◌≡◌, inl, inr, refl, Uuid, not, some, List, [], ◌∷◌, map, if◌then◌else◌, any, select, first,
  first_sound, first-select-not, arith, Bool-cases, Option-cases,
}
use platform_orchestrator_ia.Prelude.Result.{ok, err}
use platform_orchestrator_ia.Model.{DeviceLoginRequest, User, Db}
use platform_orchestrator_ia.Model.Store.{DbError, Done}
use platform_orchestrator_ia.Model.Users.{get_user, update_user, is_user}
use platform_orchestrator_ia.Model.DeviceLogins.{
  has_id, get_device_login_request, update_device_login_request, delete_device_login_request,
}

pub update_user_keeps :
    (u u' : User) (db db' : Db)
    → update_user u db ≡ ok (u', db')
    → (db'.session_tokens ≡ db.session_tokens)
      × (db'.device_login_requests ≡ db.device_login_requests)
unfolding update_user
update_user_keeps u u' db db' e = elim (Bool-cases (any (is_user u.id) db.users)) [
  | inr missing ↦ absurd (ground arith)
  | inl there ↦ (ground arith, ground arith)
]

-- A deleted request is found no more, and no session goes with it.
pub delete-get :
    (id : Uuid) (db db' : Db) (d : Done)
    → delete_device_login_request id db ≡ ok (d, db')
    → (get_device_login_request id db' ≡ err DbError.not_found)
      × (db'.session_tokens ≡ db.session_tokens)
unfolding delete_device_login_request get_device_login_request
delete-get id db db' d e = elim (Bool-cases (any (has_id id) db.device_login_requests)) [
  | inr missing ↦ absurd (ground arith)
  | inl there ↦
      let rows : select (λ (r : DeviceLoginRequest). not (has_id id r)) db.device_login_requests
          ≡ db'.device_login_requests =
        ground arith in
      (
        rw (← rows, get_device_login_request, first-select-not (has_id id) db.device_login_requests)
            refl,
        ground arith,
      )
]

pub get_user-id : (id : Uuid) (db : Db) (u : User) → get_user id db ≡ ok u → u.id ≡ id
unfolding get_user
get_user-id id db u e = elim (Option-cases (first (is_user id) db.users)) [
  | inl gone ↦ absurd (ground arith)
  | inr (v, found) ↦
      let same : v ≡ u = ground arith in
      let (there, own) = first_sound (is_user id) db.users (rw same at found) in ground arith
]

abbrev decide_row : DeviceLoginRequest → DeviceLoginRequest → DeviceLoginRequest
decide_row request r =
    if has_id request.id r
    then record r { decision = request.decision; decided_by = request.decided_by }
    else r

first-decide_row :
    (request r : DeviceLoginRequest) (xs : List DeviceLoginRequest)
    → first (has_id request.id) xs ≡ some r
    → first (has_id request.id) (map (decide_row request) xs)
      ≡ some (record r { decision = request.decision; decided_by = request.decided_by })
first-decide_row request r [] e = cc
first-decide_row request r (x ∷ xs) e = elim (Bool-cases (has_id request.id x)) [
  | inl here ↦ ground arith
  | inr other ↦ let rest = first-decide_row request r xs (rw other at e) in ground arith
]

-- A request that is updated is found with the decision, and as it was otherwise.
pub update-get :
    (request request' r : DeviceLoginRequest) (db db' : Db)
    → update_device_login_request request db ≡ ok (request', db')
    → get_device_login_request request.id db ≡ ok r
    → get_device_login_request request.id db'
      ≡ ok (record r { decision = request.decision; decided_by = request.decided_by })
unfolding update_device_login_request get_device_login_request
update-get request request' r db db' e found =
    elim (Bool-cases (any (has_id request.id) db.device_login_requests)) [
      | inr missing ↦ absurd (ground arith)
      | inl there ↦
          let rows : map (decide_row request) db.device_login_requests ≡ db'.device_login_requests =
            ground arith in
          elim (Option-cases (first (has_id request.id) db.device_login_requests)) [
            | inl gone ↦ absurd (ground arith)
            | inr (q, first_found) ↦
                let same : q ≡ r = ground arith in
                rw
                  (
                    ← rows,
                    get_device_login_request,
                    first-decide_row request r db.device_login_requests (rw same at first_found),
                  )
                  refl
          ]
    ]

pub get-id :
    (id : Uuid) (db : Db) (r : DeviceLoginRequest)
    → get_device_login_request id db ≡ ok r
    → r.id ≡ id
unfolding get_device_login_request
get-id id db r e = elim (Option-cases (first (has_id id) db.device_login_requests)) [
  | inl gone ↦ absurd (ground arith)
  | inr (q, found) ↦
      let same : q ≡ r = ground arith in
      let (there, own) = first_sound (has_id id) db.device_login_requests (rw same at found) in
      ground arith
]
