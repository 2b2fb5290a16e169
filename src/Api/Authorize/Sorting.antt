-- ===== src/Api/Authorize/Sorting.antt =====
-- What the loops of `InternalAuthorizeInner` of internal/api/authorize.go do with the checks.
use mathlib.Core.List.Memᴰ
use mathlib.Core.Path.{subst}
use platform_orchestrator_ia.Prelude.{
  String, ◌=~◌, ◌≡◌, ◌≢◌, ◌⊎◌, inl, inr, sym, ◌∙◌, ap, eq_iff, Uuid, true, false, some, List, [],
  ◌∷◌, map, Memᴰ, All, arith, Bool-cases, Option-cases,
}
use platform_orchestrator_ia.Prelude.Result.{ok, Result-cases}
use platform_orchestrator_ia.Model.{Db}
use platform_orchestrator_ia.Model.Authorization.{is_known_permission}
use platform_orchestrator_ia.Authz.Permissions.{platform_resource}
use platform_orchestrator_ia.Shared.UserId.{internal_system_uuid}
use platform_orchestrator_ia.Engine.Match.{is_custom_permission}
use platform_orchestrator_ia.Engine.Resource.{parse_resource, normalize_resource}
use platform_orchestrator_ia.Engine.Authorize.{Check, Answer}
use platform_orchestrator_ia.Engine.Authorize.Laws.{Granted, AllRight}
use platform_orchestrator_ia.Api.Server.{Server}
use platform_orchestrator_ia.Api.Authorize.{
  refused, normalize_permission, has_resource, holds_platform_permission, sort_checks,
}

-- Each of the checks is reported or has the property, and only checks without it are reported.
pub record Splits (P : Check → Type 0) (checks failed : List Check) : Type 0 where
  pub complete : (c : Check) → Memᴰ c checks → Memᴰ c failed ⊎ P c
  pub sound : (c : Check) → Memᴰ c failed → Memᴰ c checks × (¬ P c)

abbrev pub IsElsewhere : Check → Type 0
IsElsewhere c = c.resource ≢ platform_resource

module _ (S : Server) (db : Db) (subject : Uuid) where
  -- The subject may use the permission: on the platform it holds it; elsewhere the resource has a
  -- normal form, a custom permission is known there, and a role grants it.
  abbrev pub Permitted : Check → Type 0
  Permitted c =
      (c.resource ≡ platform_resource
        → holds_platform_permission S subject c.permission ≡ some true)
      × (IsElsewhere c
          → (resource : String) × (normalize_resource c.resource ≡ ok resource)
            × (is_custom_permission (normalize_permission c).permission ≡ true
                → is_known_permission db (record {
                  resource = resource;
                  permission = (normalize_permission c).permission;
                })
                  ≡ true)
            × Granted db subject resource (normalize_permission c).permission)

  -- The system user, or a subject that the store finds active.
  abbrev pub Active : Type 0
  Active = subject ≢ internal_system_uuid → S.is_authorization_subject_active subject ≡ some true

  no_resource : (c : Check) → IsElsewhere c → has_resource c ≡ false → ¬ Permitted c
  unfolding normalize_resource
  no_resource c elsewhere e p =
      let (resource, normal, _, _) = p.1 elsewhere in
      elim (Result-cases (parse_resource c.resource)) [
        | inl (found, e') ↦ absurd (ground arith)
        | inr (failed, e') ↦ absurd (ground arith)
      ]

  pub refused-Splits :
      (valid : List Check) (answers : List Answer)
      → All IsElsewhere valid
      → AllRight db subject (map normalize_permission valid) answers
      → Splits Permitted valid (refused answers valid)
  unfolding refused
  refused-Splits [] [] elsewhere right = record {
    complete = λ c m. elim m [ ];
    sound = λ c m. elim m [ ];
  }
  refused-Splits [] (a ∷ answers) elsewhere right = absurd right
  refused-Splits (v ∷ valid) [] elsewhere right = absurd right
  refused-Splits (v ∷ valid) (a ∷ answers) (here, elsewhere)
        ((_, (resource, normal, allowed)), right) =
      let rest = refused-Splits valid answers elsewhere right in
      elim (Bool-cases a.allowed) [
        | inl e ↦
            let (known, granted) = allowed.0 e in
            let fine : Permitted v =
              (λ there. absurd (here there), λ _. (resource, normal, known, granted)) in
            record {
              complete = λ c m. elim (Memᴰ.cases_cons m) [
                | inl same ↦ inr (subst Permitted (sym same) fine)
                | inr m' ↦ rw e (rest.complete c m')
              ];
              sound = λ c m.
                  let (there, not_permitted) = rest.sound c (rw e at m) in
                  (Memᴰ.tail there, not_permitted);
            }
        | inr e ↦
            let denied : ¬ Permitted v = λ p.
              let (resource', normal', known, granted) = p.1 here in
              let same : resource' ≡ resource = ground arith in
              let answer = allowed.1 (rw same at known, rw same at granted) in ground arith in
            record {
              complete = λ c m. elim (Memᴰ.cases_cons m) [
                | inl same ↦ rw e (inl (Memᴰ.head same))
                | inr m' ↦
                    rw e (elim (rest.complete c m') [ inl n ↦ inl (Memᴰ.tail n) | inr p ↦ inr p ])
              ];
              sound = λ c m. elim (Memᴰ.cases_cons (rw e at m)) [
                | inl same ↦ (Memᴰ.head same, subst (λ x. ¬ Permitted x) (sym same) denied)
                | inr m' ↦
                    let (there, not_permitted) = rest.sound c m' in (Memᴰ.tail there, not_permitted)
              ];
            }
      ]

  -- What the loop over the checks leaves: the failed ones, those for `Authorize`, and the rest held.
  abbrev pub Sorted : List Check → List Check → List Check → Type 0
  Sorted checks failed valid =
      All IsElsewhere valid
      × ((c : Check) → Memᴰ c checks → Memᴰ c failed ⊎ Memᴰ c valid ⊎ Permitted c)
      × ((c : Check) → Memᴰ c failed → Memᴰ c checks × (¬ Permitted c))
      × ((c : Check) → Memᴰ c valid → Memᴰ c checks)

  fails :
      (check : Check) (checks failed valid : List Check)
      → Sorted checks failed valid
      → ¬ Permitted check
      → Sorted (check ∷ checks) (check ∷ failed) valid
  fails check checks failed valid (elsewhere, complete, sound, from) denied = (
    elsewhere,
    λ c m. elim (Memᴰ.cases_cons m) [
      | inl same ↦ inl (Memᴰ.head same)
      | inr m' ↦ elim (complete c m') [ inl n ↦ inl (Memᴰ.tail n) | inr rest ↦ inr rest ]
    ],
    λ c m. elim (Memᴰ.cases_cons m) [
      | inl same ↦ (Memᴰ.head same, subst (λ x. ¬ Permitted x) (sym same) denied)
      | inr m' ↦ let (there, no_right) = sound c m' in (Memᴰ.tail there, no_right)
    ],
    λ c m. Memᴰ.tail (from c m),
  )

  passes :
      (check : Check) (checks failed valid : List Check)
      → Sorted checks failed valid
      → Permitted check
      → Sorted (check ∷ checks) failed valid
  passes check checks failed valid (elsewhere, complete, sound, from) fine = (
    elsewhere,
    λ c m. elim (Memᴰ.cases_cons m) [
      | inl same ↦ inr (inr (subst Permitted (sym same) fine))
      | inr m' ↦ complete c m'
    ],
    λ c m. let (there, denied) = sound c m in (Memᴰ.tail there, denied),
    λ c m. Memᴰ.tail (from c m),
  )

  waits :
      (check : Check) (checks failed valid : List Check)
      → Sorted checks failed valid
      → IsElsewhere check
      → Sorted (check ∷ checks) failed (check ∷ valid)
  waits check checks failed valid (elsewhere, complete, sound, from) here = (
    (here, elsewhere),
    λ c m. elim (Memᴰ.cases_cons m) [
      | inl same ↦ inr (inl (Memᴰ.head same))
      | inr m' ↦ elim (complete c m') [
        | inl n ↦ inl n
        | inr (inl n) ↦ inr (inl (Memᴰ.tail n))
        | inr (inr p) ↦ inr (inr p)
      ]
    ],
    λ c m. let (there, denied) = sound c m in (Memᴰ.tail there, denied),
    λ c m. elim (Memᴰ.cases_cons m) [ inl same ↦ Memᴰ.head same | inr m' ↦ Memᴰ.tail (from c m') ],
  )

  pub sort_checks-Sorted :
      (checks failed valid : List Check)
      → sort_checks S subject checks ≡ some (failed, valid)
      → Sorted checks failed valid
  unfolding sort_checks
  sort_checks-Sorted [] failed valid e =
      let none_failed : [] ≡ failed = cc in
      let none_valid : [] ≡ valid = cc in
      rw (← none_failed, ← none_valid) (tt, λ c m. elim m [ ], λ c m. elim m [ ], λ c m. elim m [ ])
  sort_checks-Sorted (check ∷ checks) failed valid e =
      elim (Option-cases (sort_checks S subject checks)) [
        | inl failed' ↦ elim (Bool-cases (check.resource =~ platform_resource)) [
          | inr fine ↦ absurd (ground arith)
          | inl platform ↦
              elim (Option-cases (holds_platform_permission S subject check.permission)) [
                | inl broken ↦ absurd (ground arith)
                | inr fine ↦ absurd (ground arith)
              ]
        ]
        | inr ((f, v), e') ↦
            let rest = sort_checks-Sorted checks f v e' in
            elim (Bool-cases (check.resource =~ platform_resource)) [
              | inl platform ↦
                  let there : check.resource ≡ platform_resource = (eq_iff _ _).0 platform in
                  elim (Option-cases (holds_platform_permission S subject check.permission)) [
                    | inl broken ↦ absurd (ground arith)
                    | inr (held, e'') ↦ elim (Bool-cases held) [
                      | inl granted ↦
                          let fs : f ≡ failed = ground arith in
                          let vs : v ≡ valid = ground arith in
                          rw (← fs, ← vs)
                            (passes check checks f v rest
                              (λ _. e'' ∙ ap some granted, λ away. absurd (away there)))
                      | inr refusal ↦
                          let fs : check ∷ f ≡ failed = ground arith in
                          let vs : v ≡ valid = ground arith in
                          rw (← fs, ← vs)
                            (fails check checks f v rest (λ p. let holds = p.0 there in cc))
                    ]
                  ]
              | inr away ↦
                  let here : IsElsewhere check =
                    ground (arith, eq_iff check.resource platform_resource) in
                  elim (Bool-cases (has_resource check)) [
                    | inl normal ↦
                        let fs : f ≡ failed = ground arith in
                        let vs : check ∷ v ≡ valid = ground arith in
                        rw (← fs, ← vs) (waits check checks f v rest here)
                    | inr bad ↦
                        let fs : check ∷ f ≡ failed = ground arith in
                        let vs : v ≡ valid = ground arith in
                        rw (← fs, ← vs) (fails check checks f v rest (no_resource check here bad))
                  ]
            ]
      ]
