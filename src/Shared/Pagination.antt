-- ===== src/Shared/Pagination.antt =====
-- internal/pagination/page_token.go.
use text.Mathlib.TextLemmas.{nil-append, cons-append}
use text.Mathlib.TextEquality.{Char-path}
use platform_orchestrator_ia.Prelude.{
  ℕ, zero, suc, String, ◌=~◌, ◌≡◌, ◌≢◌, inl, inr, refl, sym, ◌∙◌, ap, Char, code, ◌==◌, ==_iff,
  ==_refl, Option, none, some, List, [], ◌∷◌, length, All, Lacks, split, join, push_head,
  split-join, eq_iff, arith, Bool-cases, if◌then◌else◌,
}

-- `make([]string, n)`.
abbrev pub blanks : ℕ → List String
blanks zero = []
blanks (suc n) = "" ∷ blanks n

-- `Generate`, for a codec of so many parts; `none` is the panic.
unfoldable pub generate : ℕ → List String → Option String
generate parts_number parts = if length parts == parts_number then some (join "," parts) else none

-- `Parse`; `none` is the error.
unfoldable pub parse : ℕ → String → Option (List String)
parse parts_number token =
    if token =~ ""
    then some (blanks parts_number)
    else let parts = split b',' token in if length parts == parts_number then some parts else none

push_head-not_empty : (c : Char) (ps : List String) → push_head c ps ≢ []
push_head-not_empty c [] e = cc
push_head-not_empty c (p ∷ ps) e = cc

split-not_empty : (sep : ℕ) (s : String) → split sep s ≢ []
unfolding split
split-not_empty sep String.[] e = cc
split-not_empty sep (String.◌∷◌ c s) e = elim (Bool-cases (code c == sep)) [
  | inl h ↦ let e' : String.[] ∷ split sep s ≡ [] = rw h at e in cc
  | inr h ↦ push_head-not_empty c (split sep s) (rw h at e)
]

join-push_head :
    (c : Char) (ps : List String) → ps ≢ [] → join "," (push_head c ps) ≡ String.◌∷◌ c (join "," ps)
unfolding join
join-push_head c [] h = absurd (h refl)
join-push_head c (p ∷ []) h = refl
join-push_head c (p ∷ q ∷ ps) h = cons-append c p _

join-empty_first :
    (ps : List String) → ps ≢ [] → join "," (String.[] ∷ ps) ≡ String.◌∷◌ "," (join "," ps)
unfolding join
join-empty_first [] h = absurd (h refl)
join-empty_first (p ∷ ps) h = nil-append _

join-split : (s : String) → join "," (split b',' s) ≡ s
unfolding split join
join-split String.[] = refl
join-split (String.◌∷◌ c s) = elim (Bool-cases (code c == b',')) [
  | inl e ↦
      let same : c ≡ "," = Char-path c "," ((==_iff _ _).0 e) in
      rw (e, join-empty_first _ (split-not_empty b',' s), join-split s, same) refl
  | inr e ↦ rw (e, join-push_head c _ (split-not_empty b',' s), join-split s) refl
]

length-blanks : (n : ℕ) → length (blanks n) ≡ n
length-blanks zero = refl
length-blanks (suc n) = ap suc (length-blanks n)

parse-join :
    (n : ℕ) (parts : List String)
    → length parts ≡ n
    → All (Lacks b',') parts
    → parse n (join "," parts) ≡ some parts
unfolding parse join split
parse-join n [] size lacks = rw (← size) refl
parse-join n (p ∷ ps) size lacks =
    let same = split-join "," p ps lacks in
    elim (Bool-cases (join "," (p ∷ ps) =~ "")) [
      | inr e ↦ rw (e, same, size, ==_refl n) refl
      | inl e ↦
          let empty : join "," (p ∷ ps) ≡ "" = (eq_iff _ _).0 e in
          let parts : "" ∷ [] ≡ p ∷ ps = rw empty at same in
          let one : n ≡ 1 = sym size ∙ sym (ap length parts) in rw (e, one, ← parts) refl
    ]

parse_sound :
    (n : ℕ) (token : String) (parts : List String)
    → parse n token ≡ some parts
    → (length parts ≡ n) × (token ≢ "" → generate n parts ≡ some token)
unfolding parse generate
parse_sound n token parts e = elim (Bool-cases (token =~ "")) [
  | inl empty ↦
      let same : blanks n ≡ parts = ground arith in
      (rw (← same) (length-blanks n), λ h. absurd (h ((eq_iff token "").0 empty)))
  | inr full ↦ elim (Bool-cases (length (split b',' token) == n)) [
    | inr wrong ↦ absurd (ground arith)
    | inl size ↦
        let same : split b',' token ≡ parts = ground arith in
        (rw (← same) ((==_iff _ _).0 size), λ h. rw (← same) (rw (size, join-split token) refl))
  ]
]

-- A page token of as many parts as the codec has, none of which holds a comma, reads back as its
-- parts. Whatever `Parse` accepts has that many parts, and is what `Generate` makes of them unless it
-- is the empty token.
pub generate-parse :
    (n : ℕ)
    → ((parts : List String)
        → length parts ≡ n
        → All (Lacks b',') parts
        → (token : String) × (generate n parts ≡ some token) × (parse n token ≡ some parts))
      × ((token : String) (parts : List String)
          → parse n token ≡ some parts
          → (length parts ≡ n) × (token ≢ "" → generate n parts ≡ some token))
unfolding generate
generate-parse n = (
  λ parts size lacks. (join "," parts, rw (size, ==_refl n) refl, parse-join n parts size lacks),
  parse_sound n,
)
