-- ===== src/Engine/Casbin.antt =====
-- What internal/authorization uses of github.com/casbin/casbin: a model to load rules into, and the
-- decision under the matcher of `casbinModel`,
--   g(r.sub, p.sub) && (r.obj == p.obj || g2(r.obj, p.obj)) && permissionMatch(r.act, p.act).
use platform_orchestrator_ia.Prelude.{
  ℕ, suc, String, ◌≡◌, ◌↔◌, ◌⊎◌, Bool, true, Option, some, List, [], ◌∷◌, Memᴰ,
}
use platform_orchestrator_ia.Engine.Match.{match_texts}

-- The default role manager follows at most ten links.
abbrev pub max_hierarchy_level : ℕ
max_hierarchy_level = 10

-- The rules link the first name to the second in at most that many steps.
pub data Linked (rules : List (List String)) (section : String) : ℕ → String → String → Type 0 where
  here : {n : ℕ} {a b : String} → a ≡ b → Linked rules section n a b
  link :
      {n : ℕ} {a b : String} (c : String)
      → Memᴰ (section ∷ a ∷ c ∷ []) rules
      → Linked rules section n c b
      → Linked rules section (suc n) a b

-- The matcher holds for one of the loaded `p` rules.
pub record Allows (rules : List (List String)) (sub obj act : String) : Type 0 where
  pub role : String
  pub resource : String
  pub permission : String
  pub loaded : Memᴰ ("p" ∷ role ∷ resource ∷ permission ∷ []) rules
  pub grouped : Linked rules "g" max_hierarchy_level sub role
  pub reached : (obj ≡ resource) ⊎ Linked rules "g2" max_hierarchy_level obj resource
  pub matched : match_texts act permission ≡ true

-- `rules` is what a model holds; the program has no access to it. `none` is an error result.
pub record Casbin : Type 1 where
  pub Model : Type 0
  pub empty : Model
  pub load_policy_array : List String → Model → Option Model
  pub enforce : Model → String → String → String → Option Bool
  pub rules : Model → List (List String)

-- The documented behaviour that the program relies on.
pub record IsCasbin (C : Casbin) : Type 0 where
  pub rules-empty : C.rules C.empty ≡ []
  pub rules-load :
      (rule : List String) (m m' : C.Model) (x : List String)
      → C.load_policy_array rule m ≡ some m'
      → Memᴰ x (C.rules m') ↔ ((x ≡ rule) ⊎ Memᴰ x (C.rules m))
  pub enforce_iff :
      (m : C.Model) (sub obj act : String)
      → (C.enforce m sub obj act ≡ some true) ↔ Allows (C.rules m) sub obj act
