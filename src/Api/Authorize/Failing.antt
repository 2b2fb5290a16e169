-- ===== src/Api/Authorize/Failing.antt =====
-- Which checks `InternalAuthorizeInner` of internal/api/authorize.go reports as failed.
use mathlib.Core.List.Memᴰ
use platform_orchestrator_ia.Prelude.{
  ◌≡◌, ◌↔◌, inl, inr, refl, sym, ◌∙◌, ap, Uuid, Bool, true, false, some, List, [], ◌∷◌, ◌++◌, map,
  Memᴰ, All, All-mem, arith, Bool-cases, Option-cases, ==_iff, ◌==◌,
}
use platform_orchestrator_ia.Prelude.Result.{Result-cases}
use platform_orchestrator_ia.Model.{Db}
use platform_orchestrator_ia.Shared.UserId.{internal_system_uuid}
use platform_orchestrator_ia.Engine.Authorize.{Check}
use platform_orchestrator_ia.Engine.Authorize.Known.{IsPlain}
use platform_orchestrator_ia.Api.Server.{Server, IsAuthorizer}
use platform_orchestrator_ia.Api.Authorize.{
  conclude, refused, normalize_permission, is_empty, sort_checks, ask, authorize_active,
  internal_authorize_inner,
}
use platform_orchestrator_ia.Api.Authorize.Sorting.{
  Splits, IsElsewhere, Permitted, Active, refused-Splits, sort_checks-Sorted,
}

module _ (S : Server) (db : Db) (subject : Uuid) where
  module _ (Good : S.authorizer.State → Type 0) (L : IsAuthorizer S.authorizer db Good) where
    ask-Splits :
        (s s' : S.authorizer.State) (valid failed : List Check)
        → Good s
        → All IsElsewhere valid
        → All IsPlain (map normalize_permission valid)
        → ask S s subject valid ≡ (some failed, s')
        → Splits (Permitted S db subject) valid failed × Good s'
    unfolding ask
    ask-Splits s s' [] failed good elsewhere plain e =
        let none_failed : [] ≡ failed = cc in
        let same : s ≡ s' = cc in
        (
          rw (← none_failed) (record { complete = λ c m. elim m [ ]; sound = λ c m. elim m [ ] }),
          rw same at good,
        )
    ask-Splits s s' (v ∷ valid) failed good elsewhere plain e =
        let call = S.authorizer.authorize s subject (map normalize_permission (v ∷ valid)) in
        let same : call.1 ≡ s' = ap (λ r. r.1) e in
        elim (Result-cases call.0) [
          | inr (broken, e') ↦ absurd (ground arith)
          | inl (answers, e') ↦
              let reported : refused answers (v ∷ valid) ≡ failed = ground arith in
              let (right, good') =
                L s s' subject (map normalize_permission (v ∷ valid)) answers good plain
                  (λ i. (e' i, same i)) in
              (
                rw (← reported) (refused-Splits S db subject (v ∷ valid) answers elsewhere right),
                good',
              )
        ]

    authorize_active-Splits :
        (s s' : S.authorizer.State) (checks failed : List Check)
        → Good s
        → All (λ c. IsPlain (normalize_permission c)) checks
        → authorize_active S s subject checks ≡ (some failed, s')
        → Splits (Permitted S db subject) checks failed × Good s'
    unfolding authorize_active
    authorize_active-Splits s s' checks failed good plain e =
        elim (Option-cases (sort_checks S subject checks)) [
          | inl broken ↦ absurd (ground arith)
          | inr ((early, valid), sorted) ↦
              let (elsewhere, complete, sound, from) =
                sort_checks-Sorted S db subject checks early valid sorted in
              elim (Option-cases (ask S s subject valid).0) [
                | inl broken ↦ absurd (ground arith)
                | inr (late, asked) ↦
                    let joined : early ++ late ≡ failed = ground arith in
                    let same : (ask S s subject valid).1 ≡ s' = ground arith in
                    let (rest, good') =
                      ask-Splits s s' valid late good elsewhere
                        (All-map valid
                          (λ c m. All-mem (λ x. IsPlain (normalize_permission x)) (from c m) plain))
                        (λ i. (asked i, same i)) in
                    (
                      rw (← joined) (record {
                        complete = λ c m. elim (complete c m) [
                          | inl n ↦ inl (Memᴰ.append_left late n)
                          | inr (inl n) ↦ elim (rest.complete c n) [
                            | inl n' ↦ inl (Memᴰ.append_right early n')
                            | inr p ↦ inr p
                          ]
                          | inr (inr p) ↦ inr p
                        ];
                        sound = λ c m. elim (Memᴰ.append_cases early m) [
                          | inl n ↦ sound c n
                          | inr n ↦ let (there, denied) = rest.sound c n in (from c there, denied)
                        ];
                      }),
                      good',
                    )
              ]
        ]
      where
        All-map :
            (valid : List Check)
            → ((c : Check) → Memᴰ c valid → IsPlain (normalize_permission c))
            → All IsPlain (map normalize_permission valid)
        All-map [] h = tt
        All-map (v ∷ valid) h = (h v (Memᴰ.head refl), All-map valid (λ c m. h c (Memᴰ.tail m)))

    is_empty_iff : (failed : List Check) → (is_empty failed ≡ true) ↔ (failed ≡ [])
    is_empty_iff [] = (λ e. refl, λ e. refl)
    is_empty_iff (c ∷ failed) = (λ e. cc, λ e. cc)

    -- What the check of an active subject comes to.
    active-Splits :
        (s s' : S.authorizer.State) (checks failed : List Check) (passed : Bool)
        → Good s
        → All (λ c. IsPlain (normalize_permission c)) checks
        → Active S db subject
        → conclude (authorize_active S s subject checks) ≡ (some (passed, failed), s')
        → Splits (λ c. Active S db subject × Permitted S db subject c) checks failed
          × ((passed ≡ true) ↔ (Active S db subject × (failed ≡ [])))
          × Good s'
    active-Splits s s' checks failed passed good plain active e =
        elim (Option-cases (authorize_active S s subject checks).0) [
          | inl broken ↦ absurd (ground arith)
          | inr (reported, e') ↦
              let same : reported ≡ failed = ground arith in
              let empty : is_empty reported ≡ passed = ground arith in
              let same' : (authorize_active S s subject checks).1 ≡ s' = ground arith in
              let (splits, good') =
                authorize_active-Splits s s' checks reported good plain (λ i. (e' i, same' i)) in
              (
                rw (← same) (record {
                  complete =
                      λ c m. elim (splits.complete c m) [ inl n ↦ inl n | inr p ↦ inr (active, p) ];
                  sound = λ c m. let (there, denied) = splits.sound c m in (there, λ p. denied p.1);
                }),
                (
                  λ h. (active, sym same ∙ (is_empty_iff reported).0 (empty ∙ h)),
                  λ h. sym empty ∙ (is_empty_iff reported).1 (same ∙ h.1),
                ),
                good',
              )
        ]

    -- `InternalAuthorizeInner`, where it answers: each check of the request is reported or may be used
    -- by an active subject, and whatever is reported is a check of the request that the subject may not
    -- use. The request passes exactly when the subject is active and nothing is reported. The
    -- permissions hold no "$", and the authorizer is in a good state and stays in one.
    pub internal_authorize_inner-Splits :
        (s s' : S.authorizer.State) (checks failed : List Check) (passed : Bool)
        → Good s
        → All (λ c. IsPlain (normalize_permission c)) checks
        → internal_authorize_inner S s subject checks ≡ (some (passed, failed), s')
        → Splits (λ c. Active S db subject × Permitted S db subject c) checks failed
          × ((passed ≡ true) ↔ (Active S db subject × (failed ≡ [])))
          × Good s'
    unfolding internal_authorize_inner
    internal_authorize_inner-Splits s s' checks failed passed good plain e =
        elim (Bool-cases (subject == internal_system_uuid)) [
          | inl system ↦
              active-Splits s s' checks failed passed good plain
                (λ other. absurd (other ((==_iff _ _).0 system))) (rw system at e)
          | inr other ↦ elim (Option-cases (S.is_authorization_subject_active subject)) [
            | inl broken ↦ absurd (ground arith)
            | inr (active, e') ↦ elim (Bool-cases active) [
              | inl yes' ↦
                  active-Splits s s' checks failed passed good plain (λ _. e' ∙ ap some yes')
                    (rw (other, e', yes') at e)
              | inr inactive ↦
                  let reported : checks ≡ failed = ground arith in
                  let refused : false ≡ passed = ground arith in
                  let same : s ≡ s' = ground arith in
                  let not_active : ¬ Active S db subject = λ a.
                    let h =
                      a (λ system. absurd (ground (arith, ==_iff subject internal_system_uuid))) in
                    cc in
                  (
                    rw (← reported) (record {
                      complete = λ c m. inl m;
                      sound = λ c m. (m, λ p. not_active p.0);
                    }),
                    (λ h. cc, λ h. absurd (not_active h.0)),
                    rw same at good,
                  )
            ]
          ]
        ]
