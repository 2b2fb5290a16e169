-- ===== src/Api/DeviceLogins/Deciding.antt =====
-- The decision on a device login request, internal/api/device_login_requests.go.
use mathlib.Core.Path.{subst}
use platform_orchestrator_ia.Prelude.{
  ◌≡◌, inl, inr, refl, sym, String, Uuid, true, Option, none, some, Bool-cases,
}
use platform_orchestrator_ia.Prelude.Result.{Result, ok}
use platform_orchestrator_ia.Shared.UserId.{is_human_user}
use platform_orchestrator_ia.Model.{DeviceLoginRequest, Db}
use platform_orchestrator_ia.Model.Store.{Session, Failure, query}
use platform_orchestrator_ia.Model.Store.Logic.{
  After, Triple, Triple->>=, Triple-fail, Triple-call, Triple-query, Triple-transaction,
}
use platform_orchestrator_ia.Model.DeviceLogins.{
  get_device_login_request, update_device_login_request,
}
use platform_orchestrator_ia.Model.DeviceLogins.Laws.{get-id, update-get}
use platform_orchestrator_ia.Api.Authenticate.Tokens.{Codec, RawCodec}
use platform_orchestrator_ia.Api.Roles.{Environment, missing_or_internal}
use platform_orchestrator_ia.Api.DeviceLogins.{
  write_decision, decide_once, decide_as, decide_device_login_request,
}

module _ (C : Codec) (W : RawCodec) (E : Environment) (id : Uuid) (decision : String)
    (before : Db) where
  -- The tables before, and where nothing is decided.
  abbrev Same : Db → Type 0
  Same db = db ≡ before

  abbrev Unchanged : Failure → Db → Type 0
  Unchanged e db = db ≡ before

  -- The request was not decided, and now has the decision of a person.
  abbrev pub Decided : DeviceLoginRequest → Db → Type 0
  Decided request db =
      (user : Uuid) × (r : DeviceLoginRequest) × (E.user ≡ some user)
      × (is_human_user user ≡ true)
      × (get_device_login_request id before ≡ ok r)
      × (r.decision ≡ none)
      × (get_device_login_request id db
          ≡ ok (record r { decision = some decision; decided_by = some user }))

  written :
      (user : Uuid) (r : DeviceLoginRequest) (earlier : Option String)
      → E.user ≡ some user
      → is_human_user user ≡ true
      → r.decision ≡ earlier
      → Triple
          (λ db. (get_device_login_request id db ≡ ok r) × Same db)
          (write_decision C W E user decision r earlier)
          Decided
          Unchanged
  written user r (some earlier) known human made =
      Triple-fail (λ db. (get_device_login_request id db ≡ ok r) × Same db) Unchanged
        Failure.bad_request Decided (λ db h. h.1)
  written user r none known human made =
      let request = record r { decision = some decision; decided_by = some user } in
      Triple-call (λ db. (get_device_login_request id db ≡ ok r) × Same db) Unchanged
        (update_device_login_request request) missing_or_internal Decided (λ db e h. h.1)
        (λ db db' request' h e.
          let own = get-id id db r h.0 in
          (user, r, known, human, rw h.1 at h.0, made, named db db' request' own (h.0) e))
    where
      named :
          (db db' : Db) (request' : DeviceLoginRequest)
          → r.id ≡ id
          → get_device_login_request id db ≡ ok r
          → update_device_login_request
              (record r { decision = some decision; decided_by = some user })
              db
            ≡ ok (request', db')
          → get_device_login_request id db'
            ≡ ok (record r { decision = some decision; decided_by = some user })
      named db db' request' own found e =
          subst
            (λ i.
              get_device_login_request i db'
              ≡ ok (record r { decision = some decision; decided_by = some user }))
            own
            (update-get (record r { decision = some decision; decided_by = some user }) request' r
              db db' e (subst (λ i. get_device_login_request i db ≡ ok r) (sym own) found))

  decide_as-outcome :
      (user : Option Uuid)
      → E.user ≡ user
      → Triple Same (decide_as C W E user id decision) Decided Unchanged
  decide_as-outcome none known = Triple-fail Same Unchanged Failure.unauthorized Decided (λ db h. h)
  decide_as-outcome (some user) known = elim (Bool-cases (is_human_user user)) [
    | inr machine ↦ rw machine (Triple-fail Same Unchanged Failure.bad_request Decided (λ db h. h))
    | inl human ↦ rw human (
        Triple-transaction Same Unchanged (decide_once C W E user id decision) Decided Unchanged
          (λ db e h. h)
          (Triple->>= Same Unchanged (query (get_device_login_request id) missing_or_internal)
            (λ r. write_decision C W E user decision r r.decision)
            (λ r db. (get_device_login_request id db ≡ ok r) × Same db) Decided
            (Triple-query Same Unchanged (get_device_login_request id) missing_or_internal
              (λ db e h. h))
            (λ r. written user r r.decision known human refl)))
  ]

module _ (C : Codec) (W : RawCodec) (E : Environment) (id : Uuid) (decision : String) where
  -- What a decision on a device login request comes to: where it is taken, by a person, on a request
  -- that had none, the request has it afterwards and is otherwise as it was; every other outcome leaves
  -- the tables as they were. So the first decision stands.
  abbrev pub DecisionOutcome : Session → Result Failure DeviceLoginRequest × Session → Type 0
  DecisionOutcome s =
      After (Decided C W E id decision s.tables) (Unchanged C W E id decision s.tables)

  -- A decision on a device login request is taken once: it succeeds only for a person and a request that
  -- is there without a decision, which then has it and is otherwise as it was; every error leaves the
  -- tables as they were.
  pub decision_stands :
      (s : Session) → DecisionOutcome s (decide_device_login_request C W E id decision s)
  unfolding decide_device_login_request
  decision_stands s = decide_as-outcome C W E id decision s.tables E.user refl s refl
