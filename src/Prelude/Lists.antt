-- ===== src/Prelude/Lists.antt =====
-- List operations over the native numbers and over Boolean tests, with their laws.
use Prim.Native.Nat.{ℕ, suc, ◌≤◌}
use mathlib.Core.Path.{◌≡◌, refl, sym, subst}
use mathlib.Core.Logic.{inl, inr}
use mathlib.Core.Bool.{Bool, true, false, not, ◌&&◌, ◌||◌}
use mathlib.Core.Option.{Option, none, some}
use mathlib.Core.List.Memᴰ
use mathlib.Core.List.{List, [], ◌∷◌, ◌++◌, map, Memᴰ}
use native.Mathlib.Omega.{arith}
use platform_orchestrator_ia.Prelude.Tests.{if◌then◌else◌, Bool-cases, Option-cases}

module _ {ℓ} {A : Type ℓ} where
  abbrev pub length : List A → ℕ
  length [] = 0
  length (x ∷ xs) = suc (length xs)

  abbrev pub any : (A → Bool) → List A → Bool
  any p [] = false
  any p (x ∷ xs) = p x || any p xs

  abbrev pub all : (A → Bool) → List A → Bool
  all p [] = true
  all p (x ∷ xs) = p x && all p xs

  -- The elements that pass the test, in order: a `WHERE` clause.
  abbrev pub select : (A → Bool) → List A → List A
  select p [] = []
  select p (x ∷ xs) = let rest = select p xs in if p x then x ∷ rest else rest

  -- The first element that passes the test.
  abbrev pub first : (A → Bool) → List A → Option A
  first p [] = none
  first p (x ∷ xs) = let rest = first p xs in if p x then some x else rest

  abbrev pub All {κ} : (A → Type κ) → List A → Type κ
  All P [] = Unit
  All P (x ∷ xs) = P x × All P xs

  -- The rows that each row is joined with, in order: a `JOIN`.
  abbrev pub concat_map {κ} : {B : Type κ} → (A → List B) → List A → List B
  concat_map f [] = []
  concat_map f (x ∷ xs) = f x ++ concat_map f xs

  pub any_sound :
      (p : A → Bool) (xs : List A) → any p xs ≡ true → (x : A) × Memᴰ x xs × (p x ≡ true)
  any_sound p [] h = cc
  any_sound p (x ∷ xs) h = elim (Bool-cases (p x)) [
    | inl e ↦ (x, Memᴰ.head refl, e)
    | inr e ↦ let (y, m, q) = any_sound p xs (rw e at h) in (y, Memᴰ.tail m, q)
  ]

  pub any_complete : (p : A → Bool) {x : A} {xs : List A} → Memᴰ x xs → p x ≡ true → any p xs ≡ true
  any_complete p (Memᴰ.head e) h = rw (← e) (rw h)
  any_complete p (Memᴰ.tail {x = y} m) h = ground (arith, any_complete p m h)

  pub mem-select :
      (p : A → Bool) {x : A} (xs : List A) → Memᴰ x (select p xs) → Memᴰ x xs × (p x ≡ true)
  mem-select p [] m = elim m [ ]
  mem-select p {x} (y ∷ ys) m = elim (Bool-cases (p y)) [
    | inl e ↦ elim (Memᴰ.cases_cons (rw e at m)) [
      | inl same ↦ (Memᴰ.head same, rw same e)
      | inr n ↦ let (n', q) = mem-select p ys n in (Memᴰ.tail n', q)
    ]
    | inr e ↦ let (n, q) = mem-select p ys (rw e at m) in (Memᴰ.tail n, q)
  ]

  pub mem-select_intro :
      (p : A → Bool) {x : A} {xs : List A} → Memᴰ x xs → p x ≡ true → Memᴰ x (select p xs)
  mem-select_intro p {x} (Memᴰ.head {x = y} same) h =
      let e : p y ≡ true = rw (← same) h in rw e (Memᴰ.head same)
  mem-select_intro p (Memᴰ.tail {x = y} m) h =
      let n = mem-select_intro p m h in
      elim (Bool-cases (p y)) [ inl e ↦ rw e (Memᴰ.tail n) | inr e ↦ rw e n ]

  pub first_sound :
      (p : A → Bool) (xs : List A) {x : A} → first p xs ≡ some x → Memᴰ x xs × (p x ≡ true)
  first_sound p [] e = cc
  first_sound p (y ∷ ys) {x} e = elim (Bool-cases (p y)) [
    | inl found ↦
        let same : y ≡ x = some_injective (rw found at e) in
        (Memᴰ.head (sym same), rw same at found)
    | inr other ↦ let (m, q) = first_sound p ys (rw other at e) in (Memᴰ.tail m, q)
  ]
    where
      some_injective : {a b : A} → some a ≡ some b → a ≡ b
      some_injective h = cc

  -- Nothing that passes the test is left where all that passes it was taken out.
  pub first-append :
      (p : A → Bool) (xs : List A) (x : A)
      → any p xs ≡ false
      → p x ≡ true
      → first p (xs ++ (x ∷ [])) ≡ some x
  first-append p [] x missing found = rw found refl
  first-append p (y ∷ ys) x missing found =
      let rest = first-append p ys x (ground arith) found in ground arith

  pub first-select-not : (p : A → Bool) (xs : List A) → first p (select (λ x. not (p x)) xs) ≡ none
  first-select-not p xs = elim (Option-cases (first p (select (λ x. not (p x)) xs))) [
    | inl gone ↦ gone
    | inr (x, found) ↦
        let (there, passes) = first_sound p (select (λ x. not (p x)) xs) found in
        let (before, fails) = mem-select (λ x. not (p x)) xs there in absurd (ground arith)
  ]

  pub length-select : (p : A → Bool) (xs : List A) → length (select p xs) ≤ length xs
  length-select p [] = omega arith
  length-select p (x ∷ xs) = ground (arith, length-select p xs)

  pub All-mem {κ} : (P : A → Type κ) {x : A} {xs : List A} → Memᴰ x xs → All P xs → P x
  All-mem P (Memᴰ.head e) (p, ps) = subst P (sym e) p
  All-mem P (Memᴰ.tail m) (p, ps) = All-mem P m ps

module _ {ℓ κ} {A : Type ℓ} {B : Type κ} (f : A → List B) where
  pub mem-concat_map :
      {y : B} (xs : List A) → Memᴰ y (concat_map f xs) → (x : A) × Memᴰ x xs × Memᴰ y (f x)
  mem-concat_map [] m = elim m [ ]
  mem-concat_map (x ∷ xs) m = elim (Memᴰ.append_cases (f x) m) [
    | inl n ↦ (x, Memᴰ.head refl, n)
    | inr n ↦ let (y, there, n') = mem-concat_map xs n in (y, Memᴰ.tail there, n')
  ]

  pub mem-concat_map_intro :
      {x : A} {y : B} {xs : List A} → Memᴰ x xs → Memᴰ y (f x) → Memᴰ y (concat_map f xs)
  mem-concat_map_intro (Memᴰ.head e) n = Memᴰ.append_left _ (rw e at n)
  mem-concat_map_intro (Memᴰ.tail {x = y} m) n = Memᴰ.append_right (f y) (mem-concat_map_intro m n)

module _ {ℓ κ} {A : Type ℓ} {B : Type κ} (f : A → B) where
  pub mem-map : {y : B} (xs : List A) → Memᴰ y (map f xs) → (x : A) × Memᴰ x xs × (y ≡ f x)
  mem-map [] m = elim m [ ]
  mem-map (x ∷ xs) m = elim (Memᴰ.cases_cons m) [
    | inl e ↦ (x, Memᴰ.head refl, e)
    | inr n ↦ let (y, there, e) = mem-map xs n in (y, Memᴰ.tail there, e)
  ]

  pub mem-map_intro : {x : A} {xs : List A} → Memᴰ x xs → Memᴰ (f x) (map f xs)
  mem-map_intro m = Memᴰ.map f m
