-- ===== src/Prelude/Text.antt =====
-- What the program uses of Go's `strings` package, over the native texts: one-character separators.
use Prim.Native.Nat.{ℕ, suc}
use Prim.Native.Char.{Char, code}
use Prim.Native.String.{String, ◌++◌}
use mathlib.Core.Path.{◌≡◌, refl}
use mathlib.Core.Logic.{◌≢◌, inl, inr}
use mathlib.Core.Bool.{false}
use mathlib.Core.Option
use mathlib.Core.Option.{Option, none, some}
use mathlib.Core.List.{List, [], ◌∷◌}
use native.Mathlib.Omega.{arith}
use text.Mathlib.Text.{◌==◌ as ◌=~◌}
use text.Mathlib.TextEquality.{Char-path, eq_iff}
use text.Mathlib.TextLemmas.{nil-append, cons-append}
use platform_orchestrator_ia.Prelude.Tests.{
  ◌==◌, ==_iff, ==_refl, Bool-cases, Option-cases, if◌then◌else◌,
}
use platform_orchestrator_ia.Prelude.Lists.{All}

-- `strings.Cut(s, sep)`; `none` where the separator is not found.
unfoldable pub cut : ℕ → String → Option (String × String)
cut sep String.[] = none
cut sep (String.◌∷◌ c s) =
    if code c == sep
    then some (String.[], s)
    else Option.map (λ p. (String.◌∷◌ c p.0, p.1)) (cut sep s)

-- Puts a character before the first part.
abbrev pub push_head : Char → List String → List String
push_head c [] = String.◌∷◌ c String.[] ∷ []
push_head c (p ∷ ps) = String.◌∷◌ c p ∷ ps

-- `strings.Split(s, sep)`.
unfoldable pub split : ℕ → String → List String
split sep String.[] = String.[] ∷ []
split sep (String.◌∷◌ c s) =
    if code c == sep then String.[] ∷ split sep s else push_head c (split sep s)

-- `strings.Join(parts, sep)`.
unfoldable pub join : Char → List String → String
join sep [] = String.[]
join sep (p ∷ []) = p
join sep (p ∷ q ∷ ps) = p ++ String.◌∷◌ sep (join sep (q ∷ ps))

-- The text holds no character of that code.
abbrev pub Lacks : ℕ → String → Type 0
Lacks sep String.[] = Unit
Lacks sep (String.◌∷◌ c s) = (code c ≢ sep) × Lacks sep s

pub split_of_Lacks : (sep : ℕ) (s : String) → Lacks sep s → split sep s ≡ s ∷ []
unfolding split
split_of_Lacks sep String.[] h = refl
split_of_Lacks sep (String.◌∷◌ c s) (p, h) = rw (split_of_Lacks sep s h) (ground arith)

pub split-append :
    (sep : Char) (s t : String)
    → Lacks (code sep) s
    → split (code sep) (s ++ String.◌∷◌ sep t) ≡ s ∷ split (code sep) t
unfolding split
split-append sep String.[] t h = rw nil-append (ground arith)
split-append sep (String.◌∷◌ c s) t (p, h) = rw (cons-append, split-append sep s t h) (ground arith)

-- Joining parts that lack the separator and splitting again gives the parts back.
pub split-join :
    (sep : Char) (p : String) (ps : List String)
    → All (Lacks (code sep)) (p ∷ ps)
    → split (code sep) (join sep (p ∷ ps)) ≡ p ∷ ps
unfolding join
split-join sep p [] (h, _) = split_of_Lacks (code sep) p h
split-join sep p (q ∷ ps) (h, hs) = rw (split-append sep p _ h, split-join sep q ps hs)

-- The parts of a text that `cut` takes apart.
abbrev pub IsCut : Char → String → String → String → Type 0
IsCut sep s a b = (s ≡ a ++ String.◌∷◌ sep b) × Lacks (code sep) a

IsCut-cons :
    (sep c : Char) (s a b : String)
    → code c ≢ code sep
    → IsCut sep s a b
    → IsCut sep (String.◌∷◌ c s) (String.◌∷◌ c a) b
IsCut-cons sep c s a b p (e, h) = (rw (e, cons-append), (p, h))

IsCut-pair :
    (sep : Char) (s a b a' b' : String)
    → IsCut sep s a b
    → ◌≡◌ {A = Option (String × String)} (some (a, b)) (some (a', b'))
    → IsCut sep s a' b'
IsCut-pair sep s a b a' b' h e = let pa : a ≡ a' = cc in let pb : b ≡ b' = cc in rw (← pa, ← pb) h

-- What `cut` finds, put together again, is the text, and the first part lacks the separator.
pub cut_sound : (sep : Char) (s a b : String) → cut (code sep) s ≡ some (a, b) → IsCut sep s a b
unfolding cut
cut_sound sep String.[] a b h = cc
cut_sound sep (String.◌∷◌ c s) a b h = elim (Bool-cases (code c == code sep)) [
  | inl e ↦
      let same : c ≡ sep = Char-path c sep ((==_iff _ _).0 e) in
      IsCut-pair sep (String.◌∷◌ c s) String.[] s a b (rw (same, nil-append), tt) (rw e at h)
  | inr e ↦ elim (Option-cases (cut (code sep) s)) [
    | inl gone ↦ absurd (none_some (rw (e, gone) at h))
    | inr ((a', b'), found) ↦
        IsCut-pair sep (String.◌∷◌ c s) (String.◌∷◌ c a') b' a b
          (IsCut-cons sep c s a' b' (ground arith) (cut_sound sep s a' b' found))
          (rw (e, found) at h)
  ]
]
  where
    none_some : ◌≡◌ {A = Option (String × String)} none (some (a, b)) → ⊥
    none_some k = cc

pub cut-append :
    (sep : Char) (a b : String)
    → Lacks (code sep) a
    → cut (code sep) (a ++ String.◌∷◌ sep b) ≡ some (a, b)
unfolding cut
cut-append sep String.[] b h = rw nil-append (ground arith)
cut-append sep (String.◌∷◌ c s) b (p, h) = rw (cons-append, cut-append sep s b h) (ground arith)

-- Two texts that the comparison tells apart are different.
pub differ : (s t : String) → (s =~ t) ≡ false → s ≢ t
differ s t h = ground (arith, eq_iff s t)

-- `strings.CutPrefix(s, prefix)`; `none` where the text does not begin so.
unfoldable pub cut_prefix : String → String → Option String
cut_prefix String.[] s = some s
cut_prefix (String.◌∷◌ c p) String.[] = none
cut_prefix (String.◌∷◌ c p) (String.◌∷◌ d s) =
    let rest = cut_prefix p s in if code c == code d then rest else none

pub cut_prefix-append : (p s : String) → cut_prefix p (p ++ s) ≡ some s
unfolding cut_prefix
cut_prefix-append String.[] s = rw nil-append refl
cut_prefix-append (String.◌∷◌ c p) s =
    rw (cons-append, cut_prefix-append p s) (ground (arith, ==_refl (code c)))

pub cut_prefix_sound : (p s rest : String) → cut_prefix p s ≡ some rest → s ≡ p ++ rest
unfolding cut_prefix
cut_prefix_sound String.[] s rest h = rw nil-append (ground arith)
cut_prefix_sound (String.◌∷◌ c p) String.[] rest h = cc
cut_prefix_sound (String.◌∷◌ c p) (String.◌∷◌ d s) rest h = elim (Bool-cases (code c == code d)) [
  | inl e ↦
      let same : c ≡ d = Char-path c d ((==_iff _ _).0 e) in
      rw (cons-append, cut_prefix_sound p s rest (rw e at h), same) refl
  | inr e ↦ absurd (missing (rw e at h))
]
  where
    missing : ◌≡◌ {A = Option String} none (some rest) → ⊥
    missing k = cc

-- `len` of a slice of bytes, one character each.
unfoldable pub octet_length : String → ℕ
octet_length String.[] = 0
octet_length (String.◌∷◌ c s) = suc (octet_length s)
