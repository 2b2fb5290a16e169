-- ===== src/Examples/Packages.antt =====
-- The packages that the program uses, at concrete functions that behave as documented.
use mathlib.Core.List.Memᴰ
use platform_orchestrator_ia.Prelude.{
  ℕ, zero, suc, String, ◌=~◌, ◌≡◌, ◌≢◌, inl, inr, refl, sym, ap, UuidText, Bool, true, false, ◌&&◌,
  ◌||◌, Option, none, some, List, [], ◌∷◌, Memᴰ, Lacks, any, any_sound, any_complete, arith, eq_iff,
  eq_refl, Bool-cases, Option-cases, if◌then◌else◌,
}
use platform_orchestrator_ia.Engine.Match.{match_texts}
use platform_orchestrator_ia.Engine.Casbin.{
  Casbin, IsCasbin, Linked, here, link, Allows, max_hierarchy_level,
}
use platform_orchestrator_ia.Engine.Cache.{Ccache, Item, IsCcache, bounded_get, bounded_set}

-- An identifier as that many letters.
abbrev pub letters : ℕ → String
letters zero = String.[]
letters (suc n) = String.◌∷◌ "a" (letters n)

abbrev pub count : String → ℕ
count String.[] = 0
count (String.◌∷◌ c s) = suc (count s)

pub count-letters : (n : ℕ) → count (letters n) ≡ n
count-letters zero = refl
count-letters (suc n) = ap suc (count-letters n)

pub Lacks-letters : (sep : ℕ) → 97 ≢ sep → (n : ℕ) → Lacks sep (letters n)
Lacks-letters sep other zero = tt
Lacks-letters sep other (suc n) = (other, Lacks-letters sep other n)

abbrev pub uuids : UuidText
uuids = record {
  to_string = letters;
  parse = λ s. some (count s);
  parse-to_string = λ u. ap some (count-letters u);
  no_at = Lacks-letters b'@' (omega arith);
  no_colon = Lacks-letters b':' (omega arith);
  no_dollar = Lacks-letters b'$' (omega arith);
}

-- A cache that keeps everything.
abbrev pub lookup : List (String × Bool) → String → Option Item
lookup [] key = none
lookup ((k, value) ∷ c) key =
    let rest = lookup c key in
    if k =~ key then some (record { value = value; expired = false }) else rest

abbrev pub ccache : Ccache
ccache = record {
  Cache = List (String × Bool);
  get = lookup;
  set = λ c key value ttl. (key, value) ∷ c;
}

pub ccache-IsCcache : IsCcache ccache
unfolding bounded_get bounded_set
ccache-IsCcache c key value extra other found e = elim (Bool-cases (key =~ other)) [
  | inl same ↦ inl (ground (arith, eq_iff key other), ground arith)
  | inr same ↦ inr (ground arith)
]

-- The rules link the names: `Linked`, decided.
abbrev pub to_parent : List String → String → String → Option String
to_parent (s ∷ a ∷ c ∷ []) section name = if s =~ section && a =~ name then some c else none
to_parent _ section name = none

pub to_parent_sound :
    (rule : List String) (section name c : String)
    → to_parent rule section name ≡ some c
    → rule ≡ section ∷ name ∷ c ∷ []
to_parent_sound [] section name c e = cc
to_parent_sound (s ∷ []) section name c e = cc
to_parent_sound (s ∷ a ∷ []) section name c e = cc
to_parent_sound (s ∷ a ∷ d ∷ []) section name c e =
    let one : s ≡ section = ground (arith, eq_iff s section) in
    let two : a ≡ name = ground (arith, eq_iff a name) in
    let three : d ≡ c = ground arith in rw (one, two, three) refl
to_parent_sound (s ∷ a ∷ d ∷ x ∷ xs) section name c e = cc

module _ (rules : List (List String)) (section : String) where
  abbrev pub linked : ℕ → String → String → Bool
  linked zero a b = a =~ b
  linked (suc n) a b =
      (a =~ b)
      || any (λ rule. elim (to_parent rule section a) [ none ↦ false | some c ↦ linked n c b ])
          rules

  pub linked_sound : (n : ℕ) (a b : String) → linked n a b ≡ true → Linked rules section n a b
  linked_sound zero a b h = here (ground (arith, eq_iff a b))
  linked_sound (suc n) a b h = elim (Bool-cases (a =~ b)) [
    | inl e ↦ here (ground (arith, eq_iff a b))
    | inr e ↦
        let (rule, m, h') = any_sound _ rules (rw e at h) in
        elim (Option-cases (to_parent rule section a)) [
          | inl e' ↦ absurd (ground arith)
          | inr (c, e') ↦
              link c (rw (to_parent_sound rule section a c e') at m)
                (linked_sound n c b (rw e' at h'))
        ]
  ]

  pub linked_complete : {n : ℕ} {a b : String} → Linked rules section n a b → linked n a b ≡ true
  linked_complete (here {n = zero} {a = a} e) = rw (← e) (eq_refl a)
  linked_complete (here {n = suc n} {a = a} e) = rw (← e, eq_refl a) refl
  linked_complete (link {n = n} {a = a} {b = b} c m l) =
      let step : to_parent (section ∷ a ∷ c ∷ []) section a ≡ some c =
        rw (eq_refl section, eq_refl a) refl in
      let found =
        any_complete
          (λ rule. elim (to_parent rule section a) [ none ↦ false | some c ↦ linked n c b ]) m
          (rw step (linked_complete l)) in
      rw found (elim (Bool-cases (a =~ b)) [ inl e ↦ rw e refl | inr e ↦ rw e refl ])

-- The matcher on one loaded rule.
abbrev pub permits : List (List String) → String → String → String → List String → Bool
permits rules sub obj act (s ∷ role ∷ resource ∷ permission ∷ []) =
    (s =~ "p")
    && linked rules "g" max_hierarchy_level sub role
    && ((obj =~ resource) || linked rules "g2" max_hierarchy_level obj resource)
    && match_texts act permission
permits rules sub obj act _ = false

pub permits_sound :
    (rules : List (List String)) (sub obj act : String) (rule : List String)
    → Memᴰ rule rules
    → permits rules sub obj act rule ≡ true
    → Allows rules sub obj act
permits_sound rules sub obj act [] m h = cc
permits_sound rules sub obj act (s ∷ []) m h = cc
permits_sound rules sub obj act (s ∷ role ∷ []) m h = cc
permits_sound rules sub obj act (s ∷ role ∷ resource ∷ []) m h = cc
permits_sound rules sub obj act (s ∷ role ∷ resource ∷ permission ∷ []) m h =
    let kind : s ≡ "p" = ground (arith, eq_iff s "p") in
    record {
      role = role;
      resource = resource;
      permission = permission;
      loaded = rw kind at m;
      grouped = linked_sound rules "g" max_hierarchy_level sub role (ground arith);
      reached = elim (Bool-cases (obj =~ resource)) [
        | inl e ↦ inl (ground (arith, eq_iff obj resource))
        | inr e ↦ inr (linked_sound rules "g2" max_hierarchy_level obj resource (ground arith))
      ];
      matched = ground arith;
    }
permits_sound rules sub obj act (s ∷ role ∷ resource ∷ permission ∷ x ∷ xs) m h = cc

pub permits_complete :
    (rules : List (List String)) (sub obj act : String)
    → Allows rules sub obj act
    → any (permits rules sub obj act) rules ≡ true
permits_complete rules sub obj act a =
    any_complete (permits rules sub obj act) a.loaded (elim a.reached [
      | inl e ↦ rw (linked_complete rules "g" a.grouped, a.matched, e, eq_refl a.resource) refl
      | inr l ↦
          let far = linked_complete rules "g2" l in
          rw (linked_complete rules "g" a.grouped, a.matched, far)
            (elim (Bool-cases (obj =~ a.resource)) [ inl e ↦ rw e refl | inr e ↦ rw e refl ])
    ])

-- A model is the list of its rules, and no call fails.
abbrev pub casbin : Casbin
casbin = record {
  Model = List (List String);
  empty = [];
  load_policy_array = λ rule m. some (rule ∷ m);
  enforce = λ m sub obj act. some (any (permits m sub obj act) m);
  rules = λ m. m;
}

pub casbin-IsCasbin : IsCasbin casbin
casbin-IsCasbin = record {
  rules-empty = refl;
  rules-load = λ rule m m' x e. rw (sym (some_injective e)) (
    λ k. elim (Memᴰ.cases_cons k) [ inl same ↦ inl same | inr k' ↦ inr k' ],
    elim [ inl same ↦ Memᴰ.head same | inr k ↦ Memᴰ.tail k ],
  );
  enforce_iff = λ m sub obj act. (
    λ e.
        let (rule, there, h) = any_sound (permits m sub obj act) m (some_injective e) in
        permits_sound m sub obj act rule there h,
    λ a. ap some (permits_complete m sub obj act a),
  );
}
  where
    some_injective : {A : Type 0} {x y : A} → some x ≡ some y → x ≡ y
    some_injective e = cc
