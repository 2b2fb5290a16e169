-- ===== src/Model/SessionTokens/Laws.antt =====
-- What the changes of the table of session tokens, internal/model/session_tokens.go, add and keep.
use mathlib.Core.List.Memᴰ
use mathlib.Core.Path.{subst}
use platform_orchestrator_ia.Prelude.{
  ◌≡◌, ◌≢◌, ◌↔◌, ◌==◌, eq_iff, sym, inl, inr, refl, Bool, not, ◌&&◌, [], ◌∷◌, ◌++◌, Memᴰ, any,
  first-append, select, mem-select, mem-select_intro, ltb, arith, Bool-cases,
}
use platform_orchestrator_ia.Prelude.Result.{ok}
use platform_orchestrator_ia.Model.{Bytes, SessionToken, User, Db}
use platform_orchestrator_ia.Model.Store.{Done}
use platform_orchestrator_ia.Model.SessionTokens.{
  has_hash, create_session_token, get_session_token_by_hash, delete_session_token_by_hash,
}

abbrev pub created_allowed : SessionToken → Db → Bool
created_allowed t db =
    ltb t.created_at t.expires_at
    && not (any (has_hash t.sha256_hash) db.session_tokens)
    && any (λ (u : User). u.id == t.user_id) db.users

pub create-mem :
    (t t' : SessionToken) (db db' : Db)
    → create_session_token t db ≡ ok (t', db')
    → (t' ≡ t) × Memᴰ t db'.session_tokens × (db'.device_login_requests ≡ db.device_login_requests)
unfolding create_session_token
create-mem t t' db db' e = elim (Bool-cases (created_allowed t db)) [
  | inr refused ↦ absurd (ground arith)
  | inl allowed ↦
      let same : t ≡ t' = ground arith in
      let rows : db.session_tokens ++ (t ∷ []) ≡ db'.session_tokens = ground arith in
      (
        sym same,
        subst (Memᴰ t) rows (Memᴰ.append_right db.session_tokens (Memᴰ.head refl)),
        ground arith,
      )
]

-- A created session is found under its hash, but for the provider.
pub create-get :
    (t t' : SessionToken) (db db' : Db)
    → create_session_token t db ≡ ok (t', db')
    → get_session_token_by_hash t.sha256_hash db' ≡ ok (record t { provider = "" })
unfolding create_session_token get_session_token_by_hash
create-get t t' db db' e = elim (Bool-cases (created_allowed t db)) [
  | inr refused ↦ absurd (ground arith)
  | inl allowed ↦
      let rows : db.session_tokens ++ (t ∷ []) ≡ db'.session_tokens = ground arith in
      rw
        (
          ← rows,
          get_session_token_by_hash,
          first-append (has_hash t.sha256_hash) db.session_tokens t (ground arith)
              ((eq_iff t.sha256_hash t.sha256_hash).1 refl),
        )
        refl
]

-- `DeleteSessionTokenByHash` removes exactly the tokens with the hash.
pub delete_session_token_by_hash_iff :
    (hash : Bytes) (db db' : Db) (d : Done) (t : SessionToken)
    → delete_session_token_by_hash hash db ≡ ok (d, db')
    → Memᴰ t db'.session_tokens ↔ (Memᴰ t db.session_tokens × (t.sha256_hash ≢ hash))
unfolding delete_session_token_by_hash
delete_session_token_by_hash_iff hash db db' d t e =
    let rows : select (λ (t : SessionToken). not (has_hash hash t)) db.session_tokens
        ≡ db'.session_tokens =
      ground arith in
    (
      λ there.
          let (before, kept) = mem-select _ db.session_tokens (subst (Memᴰ t) (sym rows) there) in
          (before, λ same. ground (arith, eq_iff t.sha256_hash hash)),
      λ h. subst (Memᴰ t) rows (mem-select_intro _ h.0 (ground (arith, eq_iff t.sha256_hash hash))),
    )
