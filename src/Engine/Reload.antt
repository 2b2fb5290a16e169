-- ===== src/Engine/Reload.antt =====
-- Policy reloading and invalidation of internal/authorization/authorization.go: the calls, and
-- `processInvalidations` as a process that takes one step at a time.
pub mod Runs
pub mod Worker
pub mod Peers
pub mod Lock
use platform_orchestrator_ia.Prelude.{
  String, ◌≡◌, ◌=~◌, Bool, true, false, Option, none, some, List, [], ◌∷◌, if◌then◌else◌,
}

-- Where `processInvalidations` stands: at the outer `select`, in the three parts of the case that
-- receives a deferred reload, at the last `select` of that case, or returned.
pub data Phase : Type 0 where
  selecting : Phase
  debouncing : Phase
  draining : Phase
  reloading : Phase
  checking : Phase
  stopped : Phase

-- `CasbinAuthorizer`: the enforcer's policy, the two channels of one slot, the channel that `Close`
-- closes, and what the process published.
pub record CasbinAuthorizer (Policy : Type 0) : Type 0 where
  pub policy : Policy
  pub has_bus : Bool
  pub instance_id : String
  pub invalidation_requests : Bool
  pub deferred_reloads : Bool
  pub stop_invalidations : Bool
  pub phase : Phase
  pub published : List String

module _ {Policy : Type 0} where
  -- `New`, which loads the policy that the enforcer starts with.
  unfoldable pub new : Policy → Bool → String → CasbinAuthorizer Policy
  new loaded has_bus instance_id = record {
    policy = loaded;
    has_bus = has_bus;
    instance_id = instance_id;
    invalidation_requests = false;
    deferred_reloads = false;
    stop_invalidations = false;
    phase = selecting;
    published = [];
  }

  -- `reloadPolicy`: a failed load leaves the policy as it was.
  unfoldable pub reload_local :
      Option Policy → CasbinAuthorizer Policy → Bool × CasbinAuthorizer Policy
  reload_local none a = (false, a)
  reload_local (some policy) a = (true, record a { policy = policy })

  -- `Publish`, where the bus accepts the message or not.
  unfoldable pub publish : Bool → CasbinAuthorizer Policy → Bool × CasbinAuthorizer Policy
  publish accepted a =
      if accepted then (true, record a { published = a.instance_id ∷ a.published }) else (false, a)

  -- `ReloadPolicy`: whether it returned without an error, and the authorizer after it.
  unfoldable pub reload_policy :
      Option Policy → Bool → CasbinAuthorizer Policy → Bool × CasbinAuthorizer Policy
  unfolding reload_local publish
  reload_policy loaded accepted a =
      let (done, b) = reload_local loaded a in
      if done then (if b.has_bus then publish accepted b else (true, b)) else (false, b)

  -- `ScheduleReloadPolicy`: the send, which is dropped where the slot is taken.
  unfoldable pub schedule_reload_policy : CasbinAuthorizer Policy → CasbinAuthorizer Policy
  schedule_reload_policy a = record a { deferred_reloads = true }

  -- `handleInvalidation`.
  unfoldable pub handle_invalidation : String → CasbinAuthorizer Policy → CasbinAuthorizer Policy
  handle_invalidation origin a =
      if origin =~ a.instance_id then a else record a { invalidation_requests = true }

  -- `close(a.stopInvalidations)` of `Close`.
  unfoldable pub close : CasbinAuthorizer Policy → CasbinAuthorizer Policy
  close a = record a { stop_invalidations = true }

-- What happens, by whom it may: the first four to the process, the others in its own goroutine.
-- A load carries the policy that it read, `none` where it failed.
pub data Event (Policy : Type 0) : Type 0 where
  scheduled : Event Policy
  invalidated : (origin : String) → Event Policy
  called : (loaded : Option Policy) (accepted : Bool) → Event Policy
  closed : Event Policy
  ticked : (loaded : Option Policy) → Event Policy
  refreshed : (loaded : Option Policy) → Event Policy
  received : Event Policy
  debounced : Event Policy
  interrupted : Event Policy
  drained : Event Policy
  reloaded : (loaded : Option Policy) (accepted : Bool) → Event Policy
  continued : Event Policy
  returned : Event Policy

module _ {Policy : Type 0} where
  -- A round of `processInvalidations`, one case of a `select` or one call at a time. The outer
  -- `select` takes any case that is ready. `none`: the event cannot happen here.
  unfoldable pub process_invalidations :
      Phase → Event Policy → CasbinAuthorizer Policy → Option (CasbinAuthorizer Policy)
  unfolding reload_local reload_policy
  process_invalidations selecting (ticked loaded) a = some (reload_local loaded a).1
  process_invalidations selecting (refreshed loaded) a =
      if a.invalidation_requests
      then some (reload_local loaded (record a { invalidation_requests = false })).1
      else none
  process_invalidations selecting received a =
      if a.deferred_reloads
      then some (record a { deferred_reloads = false; phase = debouncing })
      else none
  process_invalidations selecting returned a =
      if a.stop_invalidations then some (record a { phase = stopped }) else none
  process_invalidations debouncing debounced a = some (record a { phase = draining })
  process_invalidations debouncing interrupted a =
      if a.stop_invalidations then some (record a { phase = draining }) else none
  process_invalidations draining drained a =
      some (record a { deferred_reloads = false; phase = reloading })
  process_invalidations reloading (reloaded loaded accepted) a =
      some (record (reload_policy loaded accepted a).1 { phase = checking })
  process_invalidations checking continued a =
      if a.stop_invalidations then none else some (record a { phase = selecting })
  process_invalidations checking returned a =
      if a.stop_invalidations then some (record a { phase = stopped }) else none
  process_invalidations _ _ a = none

  -- One event of the whole process.
  unfoldable pub step : Event Policy → CasbinAuthorizer Policy → Option (CasbinAuthorizer Policy)
  unfolding process_invalidations reload_policy schedule_reload_policy handle_invalidation close
  step scheduled a = some (schedule_reload_policy a)
  step (invalidated origin) a = some (handle_invalidation origin a)
  step (called loaded accepted) a = some (reload_policy loaded accepted a).1
  step closed a = some (close a)
  step event a = process_invalidations a.phase event a

  -- The deferred reload: `ReloadPolicy` in the process's own goroutine.
  abbrev pub is_deferred : Event Policy → Bool
  is_deferred (reloaded _ _) = true
  is_deferred _ = false

  -- The reload that answers an invalidation.
  abbrev pub is_refresh : Event Policy → Bool
  is_refresh (refreshed _) = true
  is_refresh _ = false

  -- The events of the process's own goroutine, but for the reloads of the ticker and of invalidations.
  abbrev pub is_advance : Event Policy → Bool
  is_advance received = true
  is_advance debounced = true
  is_advance interrupted = true
  is_advance drained = true
  is_advance (reloaded _ _) = true
  is_advance continued = true
  is_advance returned = true
  is_advance _ = false

-- The events of a run, in order, from one state of the process to another.
pub data Run {Policy : Type 0}
    : CasbinAuthorizer Policy → List (Event Policy) → CasbinAuthorizer Policy → Type 0 where
  stay : {a : CasbinAuthorizer Policy} → Run a [] a
  next :
      {a b c : CasbinAuthorizer Policy} {events : List (Event Policy)} (event : Event Policy)
      → step event a ≡ some b
      → Run b events c
      → Run a (event ∷ events) c
