-- ===== src/Examples/Reload.antt =====
-- The theorems of Engine/Reload at concrete runs.
use platform_orchestrator_ia.Prelude.{
  ℕ, ◌≤◌, ◌≡◌, ◌⊎◌, refl, true, some, List, [], ◌∷◌, differ, select, length,
}
use platform_orchestrator_ia.Engine.Reload.{
  CasbinAuthorizer, Event, selecting, stopped, scheduled, invalidated, called, closed, ticked,
  refreshed, received, debounced, interrupted, drained, reloaded, continued, returned, new,
  reload_local, publish, reload_policy, schedule_reload_policy, handle_invalidation, close,
  process_invalidations, step, is_advance, Run, stay, next,
}
use platform_orchestrator_ia.Engine.Reload.Runs.{Reloads, Refreshes}
use platform_orchestrator_ia.Engine.Reload.Worker.{
  Next, scheduled_reload_kept, received_reload_made, scheduled_reload_happens,
}
use platform_orchestrator_ia.Engine.Reload.Peers.{
  is_request, invalidation_reaches_peers, published_bound,
}
use platform_orchestrator_ia.Engine.Reload.Lock.{
  Loading, Call, idle, waiting, loading, answered, Step, commit, ask, acquire, install, Reach,
  start, later, Steps, finish, more, reload_policy_fresh, reload_policy_exclusive,
}
use platform_orchestrator_ia.Engine.Reload.Lock as Lock

-- A process that started with policy 1.
abbrev fresh : CasbinAuthorizer ℕ
unfolding new
fresh = new 1 true "a"

-- A request is received, debounced while a second one comes, and answered with policy 2.
abbrev burst : List (Event ℕ)
burst = received ∷ scheduled ∷ debounced ∷ drained ∷ reloaded (some 2) true ∷ continued ∷ []

abbrev after_burst : CasbinAuthorizer ℕ
unfolding new
after_burst = record fresh { policy = 2; published = "a" ∷ [] }

burst-Run : Run (schedule_reload_policy fresh) burst after_burst
unfolding new reload_local publish reload_policy schedule_reload_policy handle_invalidation close
    process_invalidations step
burst-Run = next received refl (
    next scheduled refl (
      next debounced refl
        (next drained refl (next (reloaded (some 2) true) refl (next continued refl stay)))))

scheduled_reload_kept_example : Reloads (schedule_reload_policy fresh) burst after_burst
unfolding after_burst
scheduled_reload_kept_example = scheduled_reload_kept fresh after_burst burst burst-Run refl refl

-- The process takes the first three steps, and waits.
abbrev waiting_state : CasbinAuthorizer ℕ
unfolding new
waiting_state = record fresh { phase = platform_orchestrator_ia.Engine.Reload.reloading }

waiting-Run : Run (schedule_reload_policy fresh) (received ∷ debounced ∷ drained ∷ []) waiting_state
unfolding new reload_local publish reload_policy schedule_reload_policy handle_invalidation close
    process_invalidations step
waiting-Run = next received refl (next debounced refl (next drained refl stay))

scheduled_reload_happens_example :
    Reloads (schedule_reload_policy fresh) (received ∷ debounced ∷ drained ∷ []) waiting_state
    ⊎ (Next waiting_state
        × (length (select (is_advance {Policy = ℕ}) (received ∷ debounced ∷ drained ∷ [])) ≤ 4))
unfolding new
scheduled_reload_happens_example =
    scheduled_reload_happens fresh waiting_state _ waiting-Run (λ e. cc)

-- `Close` comes during the debouncing.
abbrev last_words : List (Event ℕ)
last_words = closed ∷ interrupted ∷ drained ∷ reloaded (some 2) true ∷ returned ∷ []

abbrev debouncing_state : CasbinAuthorizer ℕ
unfolding new
debouncing_state = record fresh { phase = platform_orchestrator_ia.Engine.Reload.debouncing }

abbrev stopped_state : CasbinAuthorizer ℕ
unfolding new
stopped_state = record fresh {
  policy = 2;
  published = "a" ∷ [];
  phase = stopped;
  stop_invalidations = true;
}

last-Run : Run debouncing_state last_words stopped_state
unfolding new reload_local publish reload_policy schedule_reload_policy handle_invalidation close
    process_invalidations step
last-Run = next closed refl (
    next interrupted refl
      (next drained refl (next (reloaded (some 2) true) refl (next returned refl stay))))

received_reload_made_example : Reloads debouncing_state last_words stopped_state
unfolding debouncing_state stopped_state
received_reload_made_example =
    received_reload_made debouncing_state stopped_state last_words last-Run refl refl

-- Instance "a" reloads, and instance "b" hears of it.
abbrev peer : CasbinAuthorizer ℕ
unfolding new
peer = new 1 true "b"

abbrev announced : CasbinAuthorizer ℕ
unfolding new
announced = record fresh { policy = 2; published = "a" ∷ [] }

abbrev refreshed_peer : CasbinAuthorizer ℕ
unfolding new
refreshed_peer = record peer { policy = 2 }

announcing : reload_policy (some 2) true fresh ≡ (true, announced)
unfolding new reload_policy reload_local publish
announcing = refl

peer-Run : Run (handle_invalidation "a" peer) (refreshed (some 2) ∷ []) refreshed_peer
unfolding new reload_local publish reload_policy schedule_reload_policy handle_invalidation close
    process_invalidations step
peer-Run = next (refreshed (some 2)) refl stay

invalidation_reaches_peers_example :
    (announced.published ≡ "a" ∷ fresh.published)
    × (handle_invalidation "a" announced ≡ announced)
    × Refreshes (handle_invalidation "a" peer) (refreshed (some 2) ∷ []) refreshed_peer
unfolding new
invalidation_reaches_peers_example =
    invalidation_reaches_peers fresh announced peer refreshed_peer (some 2) true
      (refreshed (some 2) ∷ []) refl announcing (differ "b" "a" refl) peer-Run refl

abbrev whole_burst : List (Event ℕ)
whole_burst = scheduled ∷ burst

whole-Run : Run (new 1 true "a") whole_burst after_burst
unfolding step new
whole-Run = next scheduled refl burst-Run

published_bound_example : length after_burst.published ≤ length (select is_request whole_burst)
published_bound_example = published_bound 1 true "a" after_burst whole_burst whole-Run

-- Goroutine 1 asks, the database changes, goroutine 2 asks and both load, one after the other.
abbrev both_asked : Loading
both_asked = record (Lock.init 0) {
  committed = 1;
  calls = Lock.put (Lock.put (λ _. idle) 1 (waiting 0)) 2 (waiting 1);
}

both_reached : Reach 0 both_asked
both_reached = later (later (later start (ask 1 refl)) commit) (ask 2 refl)

abbrev second_loading : Loading
second_loading = record both_asked {
  policy_mutex = some 2;
  calls = Lock.put both_asked.calls 2 (loading 1 1);
}

second_reached : Reach 0 second_loading
second_reached = later both_reached (acquire 2 refl refl)

abbrev second_done : Loading
second_done = record both_asked {
  enforced = 1;
  calls = Lock.put second_loading.calls 2 (answered 1 true);
}

reload_policy_exclusive_example :
    (◌≡◌ {A = ℕ} 2 2)
    × (second_loading.policy_mutex ≡ some 2)
    × (second_loading.enforced ≤ 1)
    × (1 ≤ second_loading.committed)
reload_policy_exclusive_example =
    reload_policy_exclusive 0 second_loading 2 2 1 1 1 1 second_reached refl refl

abbrev first_done : Loading
first_done = record second_done {
  calls = Lock.put (Lock.put second_done.calls 1 (loading 0 1)) 1 (answered 0 true);
}

reload_policy_fresh_example : 1 ≤ first_done.enforced
reload_policy_fresh_example =
    reload_policy_fresh 0 second_done first_done 2 1 (later second_reached (install 2 refl)) refl
      (more (acquire 1 refl refl) (more (install 1 refl) finish))
