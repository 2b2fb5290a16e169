-- ===== src/Api/Roles/System.antt =====
-- The role handlers of internal/api/roles.go leave the built-in roles alone.
use mathlib.Core.List.Memᴰ
use mathlib.Core.Path.{subst}
use platform_orchestrator_ia.Prelude.{
  String, ◌≡◌, inl, inr, refl, sym, ◌∙◌, ap, eq_iff, ==_iff, Uuid, true, false, not, ◌&&◌, any,
  select, Option, List, ◌∷◌, [], ◌++◌, map, Memᴰ, first, first_sound, mem-map_intro,
  mem-select_intro, arith, Bool-cases, Option-cases,
}
use platform_orchestrator_ia.Prelude.Result.{Result, ok, err}
use platform_orchestrator_ia.Authz.Permissions.{role_write}
use platform_orchestrator_ia.Model.{Role, Db}
use platform_orchestrator_ia.Model.Store.{Failure, Session, Handler, Done, require, query, ◌>>=◌}
use platform_orchestrator_ia.Model.Store.Logic.{
  After, Triple, Triple->>=, Triple-require, Triple-call, Triple-query,
}
use platform_orchestrator_ia.Model.Roles
use platform_orchestrator_ia.Model.Roles.{is_role, is_assigned, name_taken, rewrite}
use platform_orchestrator_ia.Api.Roles.Validate.{RoleWriteBody, validate_role_write}
use platform_orchestrator_ia.Api.Roles.{
  Environment, created, or_bad_request, always_internal, missing_or_internal,
  conflicting_or_internal, list_plugin_capability_ids, guard, validate_for_org, finish, create_role,
  update_role, delete_role, edited,
}

-- The primary key of the table: no two rows share an identifier and an organization.
abbrev pub IsKeyed : Db → Type 0
IsKeyed db =
    (a b : Role) → Memᴰ a db.roles → Memᴰ b db.roles → a.id ≡ b.id → a.org_id ≡ b.org_id → a ≡ b

-- A built-in role stands in the table.
abbrev HasSystemRole : Role → Db → Type 0
HasSystemRole r db = IsKeyed db × (r.is_system ≡ true) × Memᴰ r db.roles

abbrev Has : Role → Db → Type 0
Has r db = Memᴰ r db.roles

-- A role that is read and is not built in has another key than a built-in one.
other_key :
    (db : Db) (r existing : Role) (org_id : String) (id : Uuid)
    → HasSystemRole r db
    → Roles.get_role org_id id db ≡ ok existing
    → not existing.is_system ≡ true
    → (is_role org_id id r ≡ false) × (existing.id ≡ id) × (existing.org_id ≡ org_id)
unfolding Roles.get_role
other_key db r existing org_id id (keyed, system, there) e mutable =
    elim (Option-cases (first (is_role org_id id) db.roles)) [
      | inl gone ↦ absurd (ground arith)
      | inr (x, found) ↦
          let (m, same) = first_sound (is_role org_id id) db.roles found in
          let id' : x.id ≡ id = ground (arith, ==_iff x.id id) in
          let org' : x.org_id ≡ org_id = ground (arith, eq_iff x.org_id org_id) in
          let existing_id : x.id ≡ existing.id = ground arith in
          let existing_org : x.org_id ≡ existing.org_id = ground arith in
          let existing_system : x.is_system ≡ existing.is_system = ground arith in
          (
            elim (Bool-cases (is_role org_id id r)) [
              | inr other ↦ other
              | inl clash ↦
                  let id'' : r.id ≡ id = ground (arith, ==_iff r.id id) in
                  let org'' : r.org_id ≡ org_id = ground (arith, eq_iff r.org_id org_id) in
                  let one : r ≡ x = keyed r x there m (id'' ∙ sym id') (org'' ∙ sym org') in
                  let both : r.is_system ≡ x.is_system = ap (λ q. q.is_system) one in
                  absurd (ground arith)
            ],
            sym existing_id ∙ id',
            sym existing_org ∙ org',
          )
    ]

update_keeps :
    (db db' : Db) (r a new : Role)
    → is_role new.org_id new.id r ≡ false
    → Memᴰ r db.roles
    → Roles.update_role new db ≡ ok (a, db')
    → Memᴰ r db'.roles
unfolding Roles.update_role
update_keeps db db' r a new other there e =
    elim (Option-cases (first (is_role new.org_id new.id) db.roles)) [
      | inl gone ↦ absurd (ground arith)
      | inr (x, found) ↦
          elim (Bool-cases
            (any (λ q. not (is_role new.org_id new.id q) && name_taken new q) db.roles)) [
              | inl taken ↦ absurd (ground arith)
              | inr free ↦
                  let rows : map (rewrite new) db.roles ≡ db'.roles = ground arith in
                  let same : rewrite new r ≡ r = rw other refl in
                  subst (Memᴰ r) rows (
                    subst (λ q. Memᴰ q (map (rewrite new) db.roles)) same
                      (mem-map_intro (rewrite new) there))
            ]
    ]

delete_keeps :
    (db db' : Db) (r : Role) (org_id : String) (id : Uuid) (a : Done)
    → is_role org_id id r ≡ false
    → Memᴰ r db.roles
    → Roles.delete_role org_id id db ≡ ok (a, db')
    → Memᴰ r db'.roles
unfolding Roles.delete_role
delete_keeps db db' r org_id id a other there e =
    elim (Bool-cases (any (is_role org_id id) db.roles)) [
      | inr gone ↦ absurd (ground arith)
      | inl found ↦ elim (Bool-cases (is_assigned org_id id db)) [
        | inl assigned ↦ absurd (ground arith)
        | inr free ↦
            let rows : select (λ q. not (is_role org_id id q)) db.roles ≡ db'.roles =
              ground arith in
            subst (Memᴰ r) rows
              (mem-select_intro (λ q. not (is_role org_id id q)) there (rw other refl))
      ]
    ]

create_keeps :
    (db db' : Db) (r a new : Role)
    → Memᴰ r db.roles
    → Roles.create_role new db ≡ ok (a, db')
    → Memᴰ r db'.roles
unfolding Roles.create_role
create_keeps db db' r a new there e = elim (Bool-cases (any (is_role new.org_id new.id) db.roles)) [
  | inl clash ↦ absurd (ground arith)
  | inr fresh ↦ elim (Bool-cases (any (name_taken new) db.roles)) [
    | inl taken ↦ absurd (ground arith)
    | inr free ↦
        let rows : db.roles ++ (new ∷ []) ≡ db'.roles = ground arith in
        subst (Memᴰ r) rows (Memᴰ.append_left (new ∷ []) there)
  ]
]

module _ (E : Environment) (r : Role) where
  abbrev Kept : Failure → Db → Type 0
  Kept e db = Has r db

  guard_keeps :
      (org_id permission : String)
      → Triple (HasSystemRole r) (guard E org_id permission) (λ _ db. HasSystemRole r db) Kept
  guard_keeps org_id permission s h = elim (Option-cases E.user) [
    | inl anonymous ↦ rw anonymous h.2
    | inr (user, known) ↦ elim (Option-cases (E.check_org_authorization user org_id permission)) [
      | inl broken ↦ rw (known, broken) h.2
      | inr (allowed, e) ↦ elim (Bool-cases allowed) [
        | inl yes' ↦ rw (known, e, yes') h
        | inr refused ↦ rw (known, e, refused) h.2
      ]
    ]
  ]

  -- The part after the call of the store.
  reload_keeps : {A : Type 0} (a : A) → Triple (Has r) (finish E a) (λ _ db. Has r db) Kept
  reload_keeps a s h = elim (Bool-cases E.reloads) [ inl e ↦ rw e h | inr e ↦ rw e h ]

  validate_keeps :
      (P : Db → Type 0)
      → ((db : Db) → P db → Has r db)
      → (org_id : String) (body : Option RoleWriteBody)
      → Triple P (validate_for_org E org_id body) (λ _ db. P db) Kept
  validate_keeps P has org_id body =
      Triple->>= P Kept (query (list_plugin_capability_ids org_id) always_internal) _
        (λ permissions db. (list_plugin_capability_ids org_id db ≡ ok permissions) × P db)
        (λ _ db. P db)
        (Triple-query P Kept (list_plugin_capability_ids org_id) always_internal
          (λ db e p. has db p))
        checked
    where
      checked :
          (permissions : List String)
          → Triple
              (λ db. (list_plugin_capability_ids org_id db ≡ ok permissions) × P db)
              (or_bad_request (validate_role_write body permissions))
              (λ _ db. P db)
              Kept
      checked permissions s p = elim (Option-cases (validate_role_write body permissions)) [
        | inl bad ↦ rw bad (has s.tables p.1)
        | inr (valid, e) ↦ rw e p.1
      ]

  create_role_keeps :
      (org_id : String) (body : Option RoleWriteBody)
      → Triple (HasSystemRole r) (create_role E org_id body) (λ _ db. Has r db) Kept
  unfolding create_role
  create_role_keeps org_id body =
      Triple->>= (HasSystemRole r) Kept _ _ (λ _ db. HasSystemRole r db) (λ _ db. Has r db)
        (guard_keeps org_id role_write)
        (λ user.
          Triple->>= (HasSystemRole r) Kept _ _ (λ _ db. HasSystemRole r db) (λ _ db. Has r db)
            (validate_keeps (HasSystemRole r) (λ db h. h.2) org_id body)
            (λ valid.
              Triple->>= (HasSystemRole r) Kept _ _ (λ _ db. Has r db) (λ _ db. Has r db)
                (Triple-call (HasSystemRole r) Kept
                  (Roles.create_role (created E user org_id valid)) conflicting_or_internal
                  (λ _ db. Has r db) (λ db e h. h.2)
                  (λ db db' a h e. create_keeps db db' r a (created E user org_id valid) h.2 e))
                reload_keeps))

  -- A role that was read, and is not built in.
  abbrev Mutable : String → Uuid → Role → Db → Type 0
  Mutable org_id id existing db =
      (not existing.is_system ≡ true)
      × ((Roles.get_role org_id id db ≡ ok existing) × HasSystemRole r db)

  -- The guard, the role that is read, and the test that it may be changed.
  Mutable-keeps :
      {A : Type 0} (org_id : String) (id : Uuid) (rest : Role → Handler A)
      → ((existing : Role)
          → Triple (Mutable org_id id existing) (rest existing) (λ _ db. Has r db) Kept)
      → Triple
          (HasSystemRole r)
          (guard E org_id role_write >>= (λ user.
            query (Roles.get_role org_id id) missing_or_internal >>= (λ existing.
              require (not existing.is_system) Failure.conflicting >>= (λ mutable. rest existing))))
          (λ _ db. Has r db)
          Kept
  Mutable-keeps org_id id rest keeps =
      Triple->>= (HasSystemRole r) Kept _ _ (λ _ db. HasSystemRole r db) (λ _ db. Has r db)
        (guard_keeps org_id role_write)
        (λ user.
          Triple->>= (HasSystemRole r) Kept _ _
            (λ existing db. (Roles.get_role org_id id db ≡ ok existing) × HasSystemRole r db)
            (λ _ db. Has r db)
            (Triple-query (HasSystemRole r) Kept (Roles.get_role org_id id) missing_or_internal
              (λ db e h. h.2))
            (λ existing.
              Triple->>= (λ db. (Roles.get_role org_id id db ≡ ok existing) × HasSystemRole r db)
                Kept _ _ (λ _ db. Mutable org_id id existing db) (λ _ db. Has r db)
                (Triple-require
                  (λ db. (Roles.get_role org_id id db ≡ ok existing) × HasSystemRole r db) Kept
                  (not existing.is_system) Failure.conflicting (λ db h. h.1.2))
                (λ mutable. keeps existing)))

  update_role_keeps :
      (org_id : String) (id : Uuid) (body : Option RoleWriteBody)
      → Triple (HasSystemRole r) (update_role E org_id id body) (λ _ db. Has r db) Kept
  unfolding update_role
  update_role_keeps org_id id body = Mutable-keeps org_id id _ (λ existing.
      Triple->>= (Mutable org_id id existing) Kept _ _ (λ _ db. Mutable org_id id existing db)
        (λ _ db. Has r db)
        (validate_keeps (Mutable org_id id existing) (λ db h. h.1.1.2) org_id body)
        (λ valid.
          Triple->>= (Mutable org_id id existing) Kept _ _ (λ _ db. Has r db) (λ _ db. Has r db)
            (Triple-call (Mutable org_id id existing) Kept
              (Roles.update_role (edited E existing valid)) conflicting_or_internal
              (λ _ db. Has r db) (λ db e h. h.1.1.2)
              (λ db db' a h e.
                let (other, same_id, same_org) =
                  other_key db r existing org_id id h.1.1 h.1.0 h.0 in
                update_keeps db db' r a (edited E existing valid) (rw (same_id, same_org) other)
                  h.1.1.2 e))
            reload_keeps))

  delete_role_keeps :
      (org_id : String) (id : Uuid)
      → Triple (HasSystemRole r) (delete_role E org_id id) (λ _ db. Has r db) Kept
  unfolding delete_role
  delete_role_keeps org_id id = Mutable-keeps org_id id _ (λ existing.
      Triple->>= (Mutable org_id id existing) Kept _ _ (λ _ db. Has r db) (λ _ db. Has r db)
        (Triple-call (Mutable org_id id existing) Kept (Roles.delete_role org_id id)
          conflicting_or_internal (λ _ db. Has r db) (λ db e h. h.1.1.2)
          (λ db db' a h e.
            let (other, _, _) = other_key db r existing org_id id h.1.1 h.1.0 h.0 in
            delete_keeps db db' r org_id id a other h.1.1.2 e))
        reload_keeps)

either_way :
    {A : Type 0} (r : Role) (x : Result Failure A × Session)
    → After (λ _ db. Has r db) (λ _ db. Has r db) x
    → Memᴰ r x.1.tables.roles
either_way r (ok a, s) h = h
either_way r (err e, s) h = h

-- Whoever asks, whatever the request says and whichever call of the store fails, a built-in role
-- stands in the table as it was after `CreateRole`, `UpdateRole` and `DeleteRole`, where the table's
-- primary key holds.
pub system_roles_kept :
    (E : Environment) (r : Role) (s : Session) (org_id : String) (id : Uuid)
    (body : Option RoleWriteBody)
    → IsKeyed s.tables
    → r.is_system ≡ true
    → Memᴰ r s.tables.roles
    → Memᴰ r (create_role E org_id body s).1.tables.roles
      × Memᴰ r (update_role E org_id id body s).1.tables.roles
      × Memᴰ r (delete_role E org_id id s).1.tables.roles
system_roles_kept E r s org_id id body keyed system there =
    let before : HasSystemRole r s.tables = (keyed, system, there) in
    (
      either_way r (create_role E org_id body s) (create_role_keeps E r org_id body s before),
      either_way r (update_role E org_id id body s) (update_role_keeps E r org_id id body s before),
      either_way r (delete_role E org_id id s) (delete_role_keeps E r org_id id s before),
    )
