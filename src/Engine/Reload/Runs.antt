-- ===== src/Engine/Reload/Runs.antt =====
-- What a run of the process of internal/authorization/authorization.go keeps, and the events it takes.
use platform_orchestrator_ia.Prelude.{
  ◌≡◌, inl, inr, refl, ap, Bool, true, false, Option, none, some, List, [], ◌∷◌, ◌++◌, any, arith,
  Bool-cases,
}
use platform_orchestrator_ia.Engine.Reload.{
  CasbinAuthorizer, Event, reloaded, refreshed, reload_local, publish, reload_policy,
  process_invalidations, step, is_deferred, is_refresh, Run, stay, next,
}

module _ {Policy : Type 0} where
  -- A run that takes an event, and the states before and after that event.
  pub record Takes (event : Event Policy) (a : CasbinAuthorizer Policy)
      (events : List (Event Policy)) (b : CasbinAuthorizer Policy) : Type 0 where
    pub before : List (Event Policy)
    pub after : List (Event Policy)
    pub from : CasbinAuthorizer Policy
    pub to : CasbinAuthorizer Policy
    pub split : events ≡ before ++ (event ∷ after)
    pub until : Run a before from
    pub made : step event from ≡ some to
    pub since : Run to after b

  -- The policy in force after a load: what was read, or as before where the load failed.
  abbrev pub policy_after : Option Policy → Policy → Policy
  policy_after none policy = policy
  policy_after (some loaded) policy = loaded

  -- A run in which the goroutine makes the deferred reload, with what it did to the policy.
  abbrev pub Reloads :
      CasbinAuthorizer Policy → List (Event Policy) → CasbinAuthorizer Policy → Type 0
  Reloads a events b =
      (loaded : Option Policy) × (accepted : Bool) × (t : Takes (reloaded loaded accepted) a events
        b)
      × (t.to.policy ≡ policy_after loaded t.from.policy)

  -- A run in which the goroutine answers an invalidation with a reload.
  abbrev pub Refreshes :
      CasbinAuthorizer Policy → List (Event Policy) → CasbinAuthorizer Policy → Type 0
  Refreshes a events b =
      (loaded : Option Policy) × (t : Takes (refreshed loaded) a events b) × (t.to.policy
        ≡ policy_after loaded t.from.policy)

  -- A run that has such an event takes it.
  Run-Takes :
      (is_wanted : Event Policy → Bool) {a b : CasbinAuthorizer Policy}
      {events : List (Event Policy)}
      → Run a events b
      → any is_wanted events ≡ true
      → (event : Event Policy) × (is_wanted event ≡ true) × Takes event a events b
  Run-Takes is_wanted stay there = cc
  Run-Takes is_wanted {a} (next {b = m} {events = rest} event e run) there =
      elim (Bool-cases (is_wanted event)) [
        | inl now ↦ (
          event,
          now,
          record {
            before = [];
            after = rest;
            from = a;
            to = m;
            split = refl;
            until = stay;
            made = e;
            since = run;
          },
        )
        | inr other ↦
            let (wanted, is, t) = Run-Takes is_wanted run (rw other at there) in
            (
              wanted,
              is,
              record {
                before = event ∷ t.before;
                after = t.after;
                from = t.from;
                to = t.to;
                split = ap (λ events. event ∷ events) t.split;
                until = next event e t.until;
                made = t.made;
                since = t.since;
              },
            )
      ]

  reloaded_policy :
      (loaded : Option Policy) (accepted : Bool) (a b : CasbinAuthorizer Policy)
      → step (reloaded loaded accepted) a ≡ some b
      → b.policy ≡ policy_after loaded a.policy
  unfolding step process_invalidations reload_policy reload_local publish
  reloaded_policy loaded accepted a b e = ground arith

  refreshed_policy :
      (loaded : Option Policy) (a b : CasbinAuthorizer Policy)
      → step (refreshed loaded) a ≡ some b
      → b.policy ≡ policy_after loaded a.policy
  unfolding step process_invalidations reload_local
  refreshed_policy loaded a b e = ground arith

  as_reload :
      {a b : CasbinAuthorizer Policy} {events : List (Event Policy)} (event : Event Policy)
      → is_deferred event ≡ true
      → Takes event a events b
      → Reloads a events b
  as_reload (reloaded loaded accepted) is t =
      (loaded, accepted, t, reloaded_policy loaded accepted t.from t.to t.made)
  as_reload _ is t = cc

  as_refresh :
      {a b : CasbinAuthorizer Policy} {events : List (Event Policy)} (event : Event Policy)
      → is_refresh event ≡ true
      → Takes event a events b
      → Refreshes a events b
  as_refresh (refreshed loaded) is t = (loaded, t, refreshed_policy loaded t.from t.to t.made)
  as_refresh _ is t = cc

  pub Run-Reloads :
      {a b : CasbinAuthorizer Policy} {events : List (Event Policy)}
      → Run a events b
      → any is_deferred events ≡ true
      → Reloads a events b
  Run-Reloads run there =
      let (event, is, t) = Run-Takes is_deferred run there in as_reload event is t

  pub Run-Refreshes :
      {a b : CasbinAuthorizer Policy} {events : List (Event Policy)}
      → Run a events b
      → any is_refresh events ≡ true
      → Refreshes a events b
  Run-Refreshes run there =
      let (event, is, t) = Run-Takes is_refresh run there in as_refresh event is t

  module _ (is_wanted : Event Policy → Bool) (test : CasbinAuthorizer Policy → Bool)
      (keeps : (event : Event Policy) (a b : CasbinAuthorizer Policy)
        → step event a ≡ some b
        → is_wanted event ≡ false
        → test a ≡ true
        → test b ≡ true) where
    -- What every other step keeps is kept by a run without such an event.
    pub Run-keeps :
        {a b : CasbinAuthorizer Policy} {events : List (Event Policy)}
        → Run a events b
        → any is_wanted events ≡ false
        → test a ≡ true
        → test b ≡ true
    Run-keeps stay quiet h = h
    Run-keeps {a} (next {b = m} event e run) quiet h =
        let now : is_wanted event ≡ false = ground arith in
        Run-keeps run (rw now at quiet) (keeps event a m e now h)

    pub Run-ends :
        {a b : CasbinAuthorizer Policy} {events : List (Event Policy)}
        → Run a events b
        → test a ≡ true
        → test b ≡ false
        → any is_wanted events ≡ true
    Run-ends {events} run h gone = elim (Bool-cases (any is_wanted events)) [
      | inl there ↦ there
      | inr quiet ↦ let kept = Run-keeps run quiet h in cc
    ]
