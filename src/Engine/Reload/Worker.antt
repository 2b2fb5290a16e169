-- ===== src/Engine/Reload/Worker.antt =====
-- No requested reload of internal/authorization/authorization.go is lost, and none waits for ever.
use platform_orchestrator_ia.Prelude.{
  ℕ, ◌+◌, ◌≤◌, ◌<◌, ◌≡◌, ◌⊎◌, ◌≢◌, inl, inr, refl, Bool, true, false, ◌||◌, some, List, any, select,
  length, arith, Bool-cases, none,
}
use platform_orchestrator_ia.Engine.Reload.{
  Phase, selecting, debouncing, draining, reloading, checking, stopped, CasbinAuthorizer, Event,
  reload_policy, schedule_reload_policy, handle_invalidation, close, process_invalidations, step,
  is_deferred, is_advance, reload_local, publish, Run, stay, next, received, debounced, drained,
  reloaded, returned, continued,
}
use platform_orchestrator_ia.Engine.Reload.Runs.{Reloads, Run-Reloads, Run-keeps, Run-ends}

-- The process has received a deferred reload that it has not begun.
abbrev pub is_committed : Phase → Bool
is_committed debouncing = true
is_committed draining = true
is_committed reloading = true
is_committed _ = false

-- How many more steps the process may take before the deferred reload, those for the ticker and for
-- invalidations not counted.
abbrev pub patience : Phase → ℕ
patience checking = 4
patience selecting = 3
patience debouncing = 2
patience draining = 1
patience reloading = 0
patience stopped = 0

module _ {Policy : Type 0} where
  -- A deferred reload is requested and has not begun.
  abbrev pub is_pending : CasbinAuthorizer Policy → Bool
  is_pending a = a.deferred_reloads || is_committed a.phase

  step-is_pending :
      (event : Event Policy) (a b : CasbinAuthorizer Policy)
      → step event a ≡ some b
      → is_deferred event ≡ false
      → is_pending a ≡ true
      → is_pending b ≡ true
  unfolding step process_invalidations reload_policy reload_local publish schedule_reload_policy
      handle_invalidation close
  step-is_pending event a b e quiet h = ground arith

  step-patience :
      (event : Event Policy) (a b : CasbinAuthorizer Policy)
      → step event a ≡ some b
      → is_deferred event ≡ false
      → is_advance event ≡ true
      → patience b.phase < patience a.phase
  unfolding step process_invalidations
  step-patience event a b e quiet own = ground arith

  step-is_committed :
      (event : Event Policy) (a b : CasbinAuthorizer Policy)
      → step event a ≡ some b
      → is_deferred event ≡ false
      → is_committed a.phase ≡ true
      → is_committed b.phase ≡ true
  unfolding step process_invalidations reload_policy reload_local publish schedule_reload_policy
      handle_invalidation close
  step-is_committed event a b e quiet h = ground arith

  step-phase :
      (event : Event Policy) (a b : CasbinAuthorizer Policy)
      → step event a ≡ some b
      → is_deferred event ≡ false
      → is_advance event ≡ false
      → b.phase ≡ a.phase
  unfolding step process_invalidations reload_policy reload_local publish schedule_reload_policy
      handle_invalidation close
  step-phase event a b e quiet own = ground arith

  -- After `ScheduleReloadPolicy`, whatever happens, the request is forgotten only by a run that makes
  -- its reload: as soon as the slot is empty and the process is back at its `select`, the goroutine has
  -- called `ReloadPolicy` for a deferred reload, later than the call. The policy in force right after
  -- that call is what it read, or the one before where its load failed, which is not tried again.
  pub scheduled_reload_kept :
      (a b : CasbinAuthorizer Policy) (events : List (Event Policy))
      → Run (schedule_reload_policy a) events b
      → b.deferred_reloads ≡ false
      → b.phase ≡ selecting
      → Reloads (schedule_reload_policy a) events b
  unfolding schedule_reload_policy
  scheduled_reload_kept a b events run empty back =
      Run-Reloads run
        (Run-ends is_deferred is_pending step-is_pending run refl (rw (empty, back) refl))

  -- A deferred reload that the process has received is made even where `Close` comes meanwhile: the
  -- process does not return before it has called `ReloadPolicy` for it. The policy in force right after
  -- that call is what it read, or the one before where its load failed.
  pub received_reload_made :
      (a b : CasbinAuthorizer Policy) (events : List (Event Policy))
      → Run a events b
      → is_committed a.phase ≡ true
      → b.phase ≡ stopped
      → Reloads a events b
  received_reload_made a b events run h halted =
      Run-Reloads run
        (Run-ends is_deferred (λ s. is_committed s.phase) step-is_committed run h (rw halted refl))

  Run-patience :
      {a b : CasbinAuthorizer Policy} {events : List (Event Policy)}
      → Run a events b
      → any is_deferred events ≡ false
      → length (select is_advance events) + patience b.phase ≤ patience a.phase
  Run-patience stay quiet = omega arith
  Run-patience {a} (next {b = m} event e run) quiet =
      let now : is_deferred event ≡ false = ground arith in
      let rest = Run-patience run (rw now at quiet) in
      elim (Bool-cases (is_advance event)) [
        | inl own ↦
            let less = step-patience event a m e now own in rw own (omega (arith, rest, less))
        | inr other ↦ let same = step-phase event a m e now other in rw other (rw same at rest)
      ]

  -- A step that the process can take, other than a reload of the ticker or of an invalidation.
  abbrev pub Next : CasbinAuthorizer Policy → Type 0
  Next a =
      (event : Event Policy) × (b : CasbinAuthorizer Policy) × (is_advance event ≡ true)
      × (step event a ≡ some b)

  running-Next :
      (phase : Phase) (a : CasbinAuthorizer Policy)
      → a.phase ≡ phase
      → a.phase ≢ stopped
      → is_pending a ≡ true
      → Next a
  unfolding step process_invalidations
  running-Next selecting a e running h =
      (received, record a { deferred_reloads = false; phase = debouncing }, refl, ground arith)
  running-Next debouncing a e running h =
      (debounced, record a { phase = draining }, refl, ground arith)
  running-Next draining a e running h =
      (drained, record a { deferred_reloads = false; phase = reloading }, refl, ground arith)
  running-Next reloading a e running h = (
    reloaded none false,
    record (reload_policy none false a).1 { phase = checking },
    refl,
    rw e refl,
  )
  running-Next checking a e running h = elim (Bool-cases a.stop_invalidations) [
    | inl stop ↦ (returned, record a { phase = stopped }, refl, ground arith)
    | inr go ↦ (continued, record a { phase = selecting }, refl, ground arith)
  ]
  running-Next stopped a e running h = absurd (running e)

  -- A request of `ScheduleReloadPolicy` is not left waiting by the process: while its reload has not been
  -- made and the process has not returned, the process can take a step that is no reload of the ticker
  -- or of an invalidation, and of such steps it has taken at most four, whatever else came in between.
  -- Where the reload has been made, the policy in force right after it is what it read, or the one
  -- before where its load failed.
  pub scheduled_reload_happens :
      (a b : CasbinAuthorizer Policy) (events : List (Event Policy))
      → Run (schedule_reload_policy a) events b
      → b.phase ≢ stopped
      → Reloads (schedule_reload_policy a) events b
        ⊎ (Next b × (length (select is_advance events) ≤ 4))
  unfolding schedule_reload_policy
  scheduled_reload_happens a b events run running = elim (Bool-cases (any is_deferred events)) [
    | inl made ↦ inl (Run-Reloads run made)
    | inr quiet ↦
        let waits = Run-keeps is_deferred is_pending step-is_pending run quiet refl in
        let few = Run-patience run quiet in
        inr (running-Next b.phase b refl running waits, ground arith)
  ]
