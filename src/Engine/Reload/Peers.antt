-- ===== src/Engine/Reload/Peers.antt =====
-- Policy invalidation between the instances of the service: what one publishes, the others answer
-- with a reload, and nobody answers it with a message. internal/authorization/authorization.go.
use platform_orchestrator_ia.Prelude.{
  ℕ, ◌+◌, ◌≤◌, ◌≡◌, ◌≢◌, String, Bool, true, false, Option, some, List, ◌∷◌, select, length, arith,
  if◌then◌else◌, eq_iff,
}
use platform_orchestrator_ia.Engine.Reload.{
  CasbinAuthorizer, Event, called, scheduled, new, reload_local, publish, reload_policy,
  schedule_reload_policy, handle_invalidation, close, process_invalidations, step, is_refresh, Run,
  stay, next,
}
use platform_orchestrator_ia.Engine.Reload.Runs.{Refreshes, Run-Refreshes, Run-ends}
use platform_orchestrator_ia.Engine.Reload.Worker.{is_committed}

module _ {Policy : Type 0} where
  step-invalidation_requests :
      (event : Event Policy) (a b : CasbinAuthorizer Policy)
      → step event a ≡ some b
      → is_refresh event ≡ false
      → a.invalidation_requests ≡ true
      → b.invalidation_requests ≡ true
  unfolding step process_invalidations reload_policy reload_local publish schedule_reload_policy
      handle_invalidation close
  step-invalidation_requests event a b e quiet h = ground arith

  handled_own :
      (a b : CasbinAuthorizer Policy) (loaded : Option Policy) (accepted : Bool)
      → reload_policy loaded accepted a ≡ (true, b)
      → handle_invalidation a.instance_id b ≡ b
  unfolding reload_policy reload_local publish handle_invalidation
  handled_own a b loaded accepted e = ground (arith, eq_iff a.instance_id a.instance_id)

  -- A `ReloadPolicy` that returns no error on a process with a bus publishes its own identifier. It
  -- ignores that message itself, and any other process that handles it has answered it with a reload
  -- once its slot for invalidations is empty again. The policy in force there right after that reload is
  -- what it read, or the one before where its load failed, which is not tried again.
  pub invalidation_reaches_peers :
      (a b peer later : CasbinAuthorizer Policy) (loaded : Option Policy) (accepted : Bool)
      (events : List (Event Policy))
      → a.has_bus ≡ true
      → reload_policy loaded accepted a ≡ (true, b)
      → peer.instance_id ≢ a.instance_id
      → Run (handle_invalidation a.instance_id peer) events later
      → later.invalidation_requests ≡ false
      → (b.published ≡ a.instance_id ∷ a.published)
        × (handle_invalidation a.instance_id b ≡ b)
        × Refreshes (handle_invalidation a.instance_id peer) events later
  unfolding reload_policy reload_local publish handle_invalidation
  invalidation_reaches_peers a b peer later loaded accepted events bus e other run empty = (
    ground arith,
    handled_own a b loaded accepted e,
    Run-Refreshes run (
        Run-ends is_refresh (λ s. s.invalidation_requests) step-invalidation_requests run
          (ground (arith, eq_iff a.instance_id peer.instance_id)) empty),
  )

  -- The events that ask for a policy to be loaded and announced.
  abbrev pub is_request : Event Policy → Bool
  is_request scheduled = true
  is_request (called _ _) = true
  is_request _ = false

  -- The deferred reloads that may still be announced.
  abbrev pub outstanding : CasbinAuthorizer Policy → ℕ
  outstanding a = (if a.deferred_reloads then 1 else 0) + (if is_committed a.phase then 1 else 0)

  step-published :
      (event : Event Policy) (a b : CasbinAuthorizer Policy)
      → step event a ≡ some b
      → length b.published + outstanding b
        ≤ length a.published + outstanding a + (if is_request event then 1 else 0)
  unfolding step process_invalidations reload_policy reload_local publish schedule_reload_policy
      handle_invalidation close
  step-published event a b e = ground arith

  Run-published :
      {a b : CasbinAuthorizer Policy} {events : List (Event Policy)}
      → Run a events b
      → length b.published + outstanding b
        ≤ length a.published + outstanding a + length (select is_request events)
  Run-published stay = omega arith
  Run-published {a} (next {b = m} event e run) =
      ground (arith, Run-published run, step-published event a m e)

  -- The messages that a process has published since `New` are at most the calls of `ReloadPolicy` and
  -- `ScheduleReloadPolicy` that it had: a burst of calls is not multiplied, and the periodic reload
  -- and the invalidations of other processes publish nothing.
  pub published_bound :
      (policy : Policy) (has_bus : Bool) (id : String) (a : CasbinAuthorizer Policy)
      (events : List (Event Policy))
      → Run (new policy has_bus id) events a
      → length a.published ≤ length (select is_request events)
  unfolding new
  published_bound policy has_bus id a events run = omega (arith, Run-published run)
