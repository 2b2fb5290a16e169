-- ===== src/Engine/Resource.antt =====
-- The resource names of permission checks: `ParseResource` and `NormalizeResource` of
-- internal/authorization/authorization.go.
use platform_orchestrator_ia.Prelude.{
  String, ◌=~◌, ◌<>◌, ◌≡◌, ◌≢◌, ◌⊎◌, inl, inr, refl, Bool, true, false, ◌||◌, none, some, arith,
  eq_iff, cut, cut-append, Lacks, if◌then◌else◌, Bool-cases, Option-cases,
}
use text.Mathlib.TextLemmas.{nil-append, cons-append, append_assoc}
use platform_orchestrator_ia.Prelude.Result.{Result, ok, err, ◌>>=◌, Result-cases}

pub data ResourceError : Type 0 where
  invalid : String → ResourceError
  unsupported : String → ResourceError

-- The types that the `switch` of `ParseResource` accepts.
abbrev pub is_resource_type : String → Bool
is_resource_type t = t =~ "organization" || t =~ "project" || t =~ "env"

abbrev pub full_type : String → String
full_type t = if t =~ "org" then "organization" else t

parse_parts : String → String → String → Result ResourceError (String × String)
parse_parts resource t id =
    if id =~ ""
    then err (invalid resource)
    else if is_resource_type (full_type t)
    then ok (full_type t, id)
    else err (unsupported (full_type t))

-- `ParseResource`: the type and the identifier.
unfoldable pub parse_resource : String → Result ResourceError (String × String)
unfolding parse_parts
parse_resource resource = elim (cut b':' resource) [
  | none ↦ err (invalid resource)
  | some (t, id) ↦ parse_parts resource t id
]

-- `NormalizeResource`.
unfoldable pub normalize_resource : String → Result ResourceError String
unfolding parse_resource
normalize_resource resource = do p ← parse_resource resource; ok (p.0 <> (":" <> p.1))

resource_type_cases :
    (t : String) → is_resource_type t ≡ true → (t ≡ "organization") ⊎ (t ≡ "project") ⊎ (t ≡ "env")
resource_type_cases t h =
    ground (arith, eq_iff t "organization", eq_iff t "project", eq_iff t "env")

-- What an accepted type looks like: it holds no colon and is not the short spelling.
abbrev IsFullType : String → Type 0
IsFullType t = Lacks b':' t × (is_resource_type t ≡ true) × (full_type t ≡ t)

resource_type-IsFullType : (t : String) → is_resource_type t ≡ true → IsFullType t
resource_type-IsFullType t h = elim (resource_type_cases t h) [
  | inl e ↦ rw e (omega arith, refl, refl)
  | inr rest ↦ elim rest [
    | inl e ↦ rw e (omega arith, refl, refl)
    | inr e ↦ rw e (omega arith, refl, refl)
  ]
]

-- The accepted parts of a resource: a full type, and an identifier that is not empty.
abbrev pub IsParsed : String × String → Type 0
IsParsed p = IsFullType p.0 × ((p.1 =~ "") ≡ false)

parse_parts_sound :
    (resource t id : String) (p : String × String) → parse_parts resource t id ≡ ok p → IsParsed p
unfolding parse_parts
parse_parts_sound resource t id p h = elim (Bool-cases (id =~ "")) [
  | inl e ↦ absurd (ground arith)
  | inr e ↦ elim (Bool-cases (is_resource_type (full_type t))) [
    | inl f ↦
        let same : p ≡ (full_type t, id) = ground arith in
        rw same (resource_type-IsFullType (full_type t) f, e)
    | inr f ↦ absurd (ground arith)
  ]
]

pub parse_resource_sound :
    (resource : String) (p : String × String) → parse_resource resource ≡ ok p → IsParsed p
unfolding parse_resource
parse_resource_sound resource p h = elim (Option-cases (cut b':' resource)) [
  | inl e ↦ absurd (ground arith)
  | inr ((t, id), e) ↦ parse_parts_sound resource t id p (ground arith)
]

cut_joined : (t id : String) → Lacks b':' t → cut b':' (t <> (":" <> id)) ≡ some (t, id)
cut_joined t id lacks = rw (cons-append, nil-append) (cut-append _ t id lacks)

parse_resource_joined :
    (t id : String)
    → Lacks b':' t
    → parse_resource (t <> (":" <> id)) ≡ parse_parts (t <> (":" <> id)) t id
unfolding parse_resource
parse_resource_joined t id lacks = rw (cut_joined t id lacks, parse_resource) refl

parse_resource_of_IsParsed :
    (t id : String) → IsParsed (t, id) → parse_resource (t <> (":" <> id)) ≡ ok (t, id)
unfolding parse_parts
parse_resource_of_IsParsed t id ((lacks, known, full), e) =
    rw (parse_resource_joined t id lacks) (ground arith)

-- A normalised name is its own normal form.
pub normalize_idempotent :
    (resource normal : String)
    → normalize_resource resource ≡ ok normal
    → normalize_resource normal ≡ ok normal
unfolding normalize_resource
normalize_idempotent resource normal h = elim (Result-cases (parse_resource resource)) [
  | inl ((t, id), e) ↦
      let same : normal ≡ t <> (":" <> id) = ground arith in
      rw same (
        rw
          (
            parse_resource_of_IsParsed t id (parse_resource_sound resource (t, id) e),
            normalize_resource,
          )
          refl)
  | inr (e, failed) ↦ absurd (ground arith)
]

-- "org:" is another spelling of "organization:".
normalize_org :
    (id : String)
    → id ≢ ""
    → normalize_resource ("org:" <> id) ≡ normalize_resource ("organization:" <> id)
unfolding normalize_resource parse_parts
normalize_org id h =
    let short : "org:" <> id ≡ "org" <> (":" <> id) = append_assoc "org" ":" id in
    let long : "organization:" <> id ≡ "organization" <> (":" <> id) =
      append_assoc "organization" ":" id in
    rw (short, long)
      (ground (
        arith,
        eq_iff id "",
        parse_resource_joined "org" id (omega arith),
        parse_resource_joined "organization" id (omega arith),
      ))

-- A name made of a full type and an identifier is in normal form.
pub normalize_typed :
    (t id : String)
    → is_resource_type t ≡ true
    → id ≢ ""
    → normalize_resource ((t <> ":") <> id) ≡ ok ((t <> ":") <> id)
unfolding normalize_resource
normalize_typed t id known some_id =
    let parsed : IsParsed (t, id) =
      (resource_type-IsFullType t known, ground (arith, eq_iff id "")) in
    rw (append_assoc t ":" id)
      (rw (normalize_resource, parse_resource_of_IsParsed t id parsed) refl)
