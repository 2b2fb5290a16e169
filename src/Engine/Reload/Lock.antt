-- ===== src/Engine/Reload/Lock.antt =====
-- `reloadPolicy` of internal/authorization/authorization.go in any number of goroutines at once, over
-- a database that changes meanwhile: what the mutex is for.
use mathlib.Core.Path.{subst}
use native.Mathlib.Decide.{ℕ_discrete}
use platform_orchestrator_ia.Prelude.{
  ℕ, suc, ◌≤◌, ◌≡◌, ◌≢◌, refl, sym, Bool, true, false, Option, some, none, arith, ◌==◌, ==_refl,
  if◌then◌else◌,
}

-- One goroutine's call: the changes that were committed when it began, and those that were committed
-- when it came to read, having locked the mutex.
pub data Call : Type 0 where
  idle : Call
  waiting : (asked : ℕ) → Call
  loading : (asked read : ℕ) → Call
  answered : (asked : ℕ) (done : Bool) → Call

-- The changes committed to the database, those that the enforcer's policy takes account of,
-- `policyMutex`, and the goroutines.
pub record Loading : Type 0 where
  pub committed : ℕ
  pub enforced : ℕ
  pub policy_mutex : Option ℕ
  pub calls : ℕ → Call

abbrev pub put : (ℕ → Call) → ℕ → Call → ℕ → Call
put calls t call u = if t == u then call else calls u

-- The goroutine has no call under way.
abbrev pub is_free : Call → Bool
is_free idle = true
is_free (answered _ _) = true
is_free _ = false

pub data Step : Loading → Loading → Type 0 where
  -- Anybody commits a change.
  commit : {s : Loading} → Step s (record s { committed = suc s.committed })
  -- A call begins.
  ask :
      {s : Loading} (t : ℕ)
      → is_free (s.calls t) ≡ true
      → Step s (record s { calls = put s.calls t (waiting s.committed) })
  -- `policyMutex.Lock()`, and the first query of `LoadPolicy`.
  acquire :
      {s : Loading} {asked : ℕ} (t : ℕ)
      → s.calls t ≡ waiting asked
      → s.policy_mutex ≡ none
      → Step s
          (record s { policy_mutex = some t; calls = put s.calls t (loading asked s.committed) })
  -- `LoadPolicy` installs what it read, and the mutex is unlocked.
  install :
      {s : Loading} {asked read : ℕ} (t : ℕ)
      → s.calls t ≡ loading asked read
      → Step s (record s {
        enforced = read;
        policy_mutex = none;
        calls = put s.calls t (answered asked true);
      })
  -- `LoadPolicy` fails, and the mutex is unlocked.
  fail :
      {s : Loading} {asked read : ℕ} (t : ℕ)
      → s.calls t ≡ loading asked read
      → Step s (record s { policy_mutex = none; calls = put s.calls t (answered asked false) })

-- `New` has loaded the policy, and no call has begun.
abbrev pub init : ℕ → Loading
init n = record { committed = n; enforced = n; policy_mutex = none; calls = λ _. idle }

pub data Reach (n : ℕ) : Loading → Type 0 where
  start : Reach n (init n)
  later : {s t : Loading} → Reach n s → Step s t → Reach n t

-- Steps one after the other.
pub data Steps : Loading → Loading → Type 0 where
  finish : {s : Loading} → Steps s s
  more : {s t u : Loading} → Step s t → Steps t u → Steps s u

-- What the state of a goroutine says of the whole.
abbrev pub Fits : ℕ → ℕ → Option ℕ → ℕ → Call → Type 0
Fits committed enforced mutex t idle = Unit
Fits committed enforced mutex t (waiting asked) = asked ≤ committed
Fits committed enforced mutex t (loading asked read) =
    (mutex ≡ some t) × (asked ≤ read) × (enforced ≤ read) × (read ≤ committed)
Fits committed enforced mutex t (answered asked true) = asked ≤ enforced
Fits committed enforced mutex t (answered asked false) = Unit

pub record Inv (s : Loading) : Type 0 where
  pub known : s.enforced ≤ s.committed
  pub fits : (t : ℕ) → Fits s.committed s.enforced s.policy_mutex t (s.calls t)

module _ (s : Loading) (inv : Inv s) (t : ℕ) where
  waiting_fits : {asked : ℕ} → s.calls t ≡ waiting asked → asked ≤ s.committed
  waiting_fits is = let h = inv.fits t in rw is at h

  loading_fits :
      {asked read : ℕ}
      → s.calls t ≡ loading asked read
      → (s.policy_mutex ≡ some t) × (asked ≤ read) × (s.enforced ≤ read) × (read ≤ s.committed)
  loading_fits is = let h = inv.fits t in rw is at h

  answered_fits : {asked : ℕ} → s.calls t ≡ answered asked true → asked ≤ s.enforced
  answered_fits is = let h = inv.fits t in rw is at h

put-Fits :
    (P : ℕ → Call → Type 0) (calls : ℕ → Call) (t : ℕ) (call : Call)
    → P t call
    → ((u : ℕ) → u ≢ t → P u (calls u))
    → (u : ℕ) → P u (put calls t call u)
put-Fits P calls t call here others u = elim (ℕ_discrete t u) [
  | yes same ↦ subst (λ v. P v (put calls t call v)) same (rw (==_refl t) here)
  | no other ↦ rw (unequal t u other) (others u (λ e. other (sym e)))
]
  where
    unequal : (a b : ℕ) → a ≢ b → (a == b) ≡ false
    unequal a b h = ground arith

Fits-commit : (c e u : ℕ) (m : Option ℕ) (call : Call) → Fits c e m u call → Fits (suc c) e m u call
Fits-commit c e u m call h = ground arith

Fits-acquire : (c e t u : ℕ) (call : Call) → Fits c e none u call → Fits c e (some t) u call
Fits-acquire c e t u call h = ground arith

Fits-install :
    (c e r t u : ℕ) (call : Call) → e ≤ r → u ≢ t → Fits c e (some t) u call → Fits c r none u call
Fits-install c e r t u call newer other h = ground arith

Fits-fail : (c e t u : ℕ) (call : Call) → u ≢ t → Fits c e (some t) u call → Fits c e none u call
Fits-fail c e t u call other h = ground arith

-- Every step keeps the invariant, the policy in force among it: it never goes back in time.
Step-Inv : {s t : Loading} → Step s t → Inv s → Inv t × (s.enforced ≤ t.enforced)
Step-Inv {s} commit inv = (
  record {
    known = ground (arith, inv.known);
    fits = λ u. Fits-commit s.committed s.enforced u s.policy_mutex (s.calls u) (inv.fits u);
  },
  omega arith,
)
Step-Inv {s} (ask t free) inv = (
  record {
    known = inv.known;
    fits =
        put-Fits (Fits s.committed s.enforced s.policy_mutex) s.calls t _ (omega arith)
          (λ u _. inv.fits u);
  },
  omega arith,
)
Step-Inv {s} (acquire {asked} t is unlocked) inv = (
  record {
    known = inv.known;
    fits =
        put-Fits (Fits s.committed s.enforced (some t)) s.calls t (loading asked s.committed)
          (refl, waiting_fits s inv t is, inv.known, omega arith)
          (λ u _.
            Fits-acquire _ _ t u (s.calls u)
              (subst (λ m. Fits s.committed s.enforced m u (s.calls u)) unlocked (inv.fits u)));
  },
  omega arith,
)
Step-Inv {s} (install {asked} {read} t is) inv =
    let (mine, early, newer, past) = loading_fits s inv t is in
    (
      record {
        known = past;
        fits =
            put-Fits (Fits s.committed read none) s.calls t (answered asked true) early (λ u other.
              Fits-install _ s.enforced read t u (s.calls u) newer other
                (subst (λ m. Fits s.committed s.enforced m u (s.calls u)) mine (inv.fits u)));
      },
      newer,
    )
Step-Inv {s} (fail {asked} {read} t is) inv =
    let (mine, early, newer, past) = loading_fits s inv t is in
    (
      record {
        known = inv.known;
        fits =
            put-Fits (Fits s.committed s.enforced none) s.calls t (answered asked false) tt
              (λ u other.
                Fits-fail _ s.enforced t u (s.calls u) other
                  (subst (λ m. Fits s.committed s.enforced m u (s.calls u)) mine (inv.fits u)));
      },
      omega arith,
    )

init-Inv : (n : ℕ) → Inv (init n)
init-Inv n = record { known = omega arith; fits = λ t. tt }

Reach-Inv : {n : ℕ} {s : Loading} → Reach n s → Inv s
Reach-Inv {n} start = init-Inv n
Reach-Inv (later reach step) = (Step-Inv step (Reach-Inv reach)).0

Steps-enforced : {s t : Loading} → Steps s t → Inv s → s.enforced ≤ t.enforced
Steps-enforced finish inv = omega arith
Steps-enforced (more step steps) inv =
    let (inv', now) = Step-Inv step inv in omega (arith, now, Steps-enforced steps inv')

-- In every reachable state, a goroutine between the locking and the unlocking holds the mutex, so no
-- two load at once; what such a goroutine read is no older than the policy in force, and takes account
-- of no more than is committed.
pub reload_policy_exclusive :
    (n : ℕ) (s : Loading) (t u asked read asked' read' : ℕ)
    → Reach n s
    → s.calls t ≡ loading asked read
    → s.calls u ≡ loading asked' read'
    → (t ≡ u) × (s.policy_mutex ≡ some t) × (s.enforced ≤ read) × (read ≤ s.committed)
reload_policy_exclusive n s t u asked read asked' read' reach here there =
    let inv = Reach-Inv reach in
    let (mine, early, newer, past) = loading_fits s inv t here in
    let (its, _, _, _) = loading_fits s inv u there in (cc, mine, newer, past)

-- A call of `reloadPolicy` that began when so many changes were committed, and returned no error, has
-- left a policy in force that takes account of all of them, and no later load of another goroutine
-- that began before puts an older one in its place.
pub reload_policy_fresh :
    (n : ℕ) (s after : Loading) (t asked : ℕ)
    → Reach n s
    → s.calls t ≡ answered asked true
    → Steps s after
    → asked ≤ after.enforced
reload_policy_fresh n s after t asked reach done steps =
    let inv = Reach-Inv reach in
    let now : asked ≤ s.enforced = answered_fits s inv t done in
    omega (arith, now, Steps-enforced steps inv)
