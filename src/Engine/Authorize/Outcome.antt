-- ===== src/Engine/Authorize/Outcome.antt =====
-- When `Authorize` of internal/authorization/authorization.go answers, and when it refuses.
use platform_orchestrator_ia.Prelude.{
  String, ◌≡◌, ◌≢◌, inl, inr, refl, true, false, UuidText, Uuid, not, ◌&&◌, Option, none, some,
  List, [], ◌∷◌, ◌++◌, map, All, Bool-cases, Option-cases,
}
use platform_orchestrator_ia.Prelude.Result.{ok, err}
use platform_orchestrator_ia.Engine.Match.{is_custom_permission}
use platform_orchestrator_ia.Engine.Resource.{ResourceError, normalize_resource}
use platform_orchestrator_ia.Engine.Casbin.{Casbin}
use platform_orchestrator_ia.Engine.Cache.{Ccache}
use platform_orchestrator_ia.Engine.Authorize.{
  Check, Answer, bad_resource, Knowledge, is_known, Prepared, prepare, prepare_all, load_misses,
  read_cache, store_misses, known_custom_permissions, decide, decide_all, authorize,
  authorize_prepared,
}

-- The resource of the check has a normal form.
abbrev pub IsNormalizable : Check → Type 0
IsNormalizable check = (resource : String) × (normalize_resource check.resource ≡ ok resource)

prepare_all_total :
    (checks : List Check)
    → All IsNormalizable checks
    → (ps : List Prepared) × (prepare_all checks ≡ ok ps)
unfolding prepare_all prepare
prepare_all_total [] h = ([], refl)
prepare_all_total (check ∷ checks) ((resource, e), h) =
    let (ps, e') = prepare_all_total checks h in
    (
      record {
        original = check;
        normalized = record { resource = resource; permission = check.permission };
      }
          ∷ ps,
      rw (prepare, e, e') refl,
    )

prepare_all_fails :
    (before : List Check) (check : Check) (after : List Check) (e : ResourceError)
    → All IsNormalizable before
    → normalize_resource check.resource ≡ err e
    → prepare_all (before ++ (check ∷ after)) ≡ err (bad_resource e)
unfolding prepare_all prepare
prepare_all_fails [] check after e h bad = rw (prepare, bad) refl
prepare_all_fails (first ∷ before) check after e ((resource, e'), h) bad =
    rw (prepare, e', prepare_all_fails before check after e h bad) refl

load_misses_total :
    (K : Ccache) (list_known : List Check → Option (List Check)) (c : K.Cache) (known : Knowledge)
    (misses : List Check)
    → ((asked : List Check) → list_known asked ≢ none)
    → (r : Knowledge × K.Cache) × (load_misses K list_known c known misses ≡ some r)
unfolding load_misses
load_misses_total K list_known c known [] answers = (_, refl)
load_misses_total K list_known c known (miss ∷ misses) answers =
    elim (Option-cases (list_known (miss ∷ misses))) [
      | inl failed ↦ absurd (answers _ failed)
      | inr (loaded, e) ↦ (store_misses K loaded (miss ∷ misses) c known, rw (load_misses, e) refl)
    ]

module _ (K : Ccache) (C : Casbin) (U : UuidText) (m : C.Model) (subject : Uuid) where
  decide_total :
      (known : Knowledge) (p : Prepared)
      → ((sub obj act : String) → C.enforce m sub obj act ≢ none)
      → (a : Answer) × (decide K C U m subject known p ≡ ok a)
  unfolding decide
  decide_total known p decides =
      elim (Option-cases
        (C.enforce m (U.to_string subject) p.normalized.resource p.normalized.permission)) [
          | inl failed ↦ absurd (decides _ _ _ failed)
          | inr (allowed, e) ↦
              elim (Bool-cases (
                is_custom_permission p.normalized.permission
                && not (is_known known p.normalized))) [
                  | inl e' ↦
                      (record { check = p.original; allowed = false; invalid = true }, rw e' refl)
                  | inr e' ↦ (
                    record { check = p.original; allowed = allowed; invalid = false },
                    rw (e', e) refl,
                  )
                ]
        ]

  decide_all_total :
      (known : Knowledge) (ps : List Prepared)
      → ((sub obj act : String) → C.enforce m sub obj act ≢ none)
      → (answers : List Answer) × (decide_all K C U m subject known ps ≡ ok answers)
  unfolding decide_all
  decide_all_total known [] decides = ([], refl)
  decide_all_total known (p ∷ ps) decides =
      let (a, e) = decide_total known p decides in
      let (answers, e') = decide_all_total known ps decides in (a ∷ answers, rw (e, e') refl)

  -- `Authorize` answers every request whose resources all have a normal form, as long as neither the
  -- store nor Casbin fails.
  pub authorize_answers :
      (list_known : List Check → Option (List Check)) (c : K.Cache) (checks : List Check)
      → ((asked : List Check) → list_known asked ≢ none)
      → ((sub obj act : String) → C.enforce m sub obj act ≢ none)
      → All IsNormalizable checks
      → (answers : List Answer) × (c' : K.Cache) × (authorize K C U list_known m c subject checks
          ≡ (ok answers, c'))
  unfolding authorize authorize_prepared known_custom_permissions
  authorize_answers list_known c [] stored decides h = ([], c, refl)
  authorize_answers list_known c (check ∷ checks) stored decides h =
      let (ps, prepared) = prepare_all_total (check ∷ checks) h in
      let ((known, c'), asked) =
        load_misses_total K list_known c (read_cache K c (map (λ p. p.normalized) ps)).0
          (read_cache K c (map (λ p. p.normalized) ps)).1 stored in
      let (answers, decided) = decide_all_total known ps decides in
      (answers, c', rw (authorize, prepared, authorize_prepared, asked, decided) refl)

  -- One resource without a normal form refuses the whole request, with the error of the first such
  -- resource, and leaves the cache as it was.
  pub authorize_refuses :
      (list_known : List Check → Option (List Check)) (c : K.Cache) (before : List Check)
      (check : Check) (after : List Check) (e : ResourceError)
      → All IsNormalizable before
      → normalize_resource check.resource ≡ err e
      → authorize K C U list_known m c subject (before ++ (check ∷ after))
        ≡ (err (bad_resource e), c)
  unfolding authorize
  authorize_refuses list_known c [] check after e h bad =
      rw (authorize, prepare_all_fails [] check after e h bad) refl
  authorize_refuses list_known c (first ∷ before) check after e h bad =
      rw (authorize, prepare_all_fails (first ∷ before) check after e h bad) refl
