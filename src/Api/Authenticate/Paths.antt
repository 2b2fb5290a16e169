-- ===== src/Api/Authenticate/Paths.antt =====
-- `skipAuthenticationRegex` of internal/api/authenticate.go: the paths that need no authentication,
-- taken apart at their slashes. `[^/]+` is a part that is not empty.
use platform_orchestrator_ia.Prelude.{
  String, ◌=~◌, Bool, true, false, not, ◌&&◌, List, [], ◌∷◌, split, any,
}

-- A segment of a pattern: a word, or `[^/]+`.
pub data Segment : Type 0 where
  word : String → Segment
  anything : Segment

abbrev pub segment_matches : Segment → String → Bool
segment_matches (word w) part = part =~ w
segment_matches anything part = not (part =~ "")

unfoldable pub matches : List Segment → List String → Bool
matches [] [] = true
matches [] (part ∷ parts) = false
matches (s ∷ ss) [] = false
matches (s ∷ ss) (part ∷ parts) = let rest = matches ss parts in segment_matches s part && rest

-- The alternatives, each after the slash that every path begins with.
abbrev pub skip_authentication : List (List Segment)
skip_authentication =
    (word "auth" ∷ word "register" ∷ [])
    ∷ (word "auth" ∷ word "login" ∷ [])
    ∷ (word "auth" ∷ word "device" ∷ [])
    ∷ (word "auth" ∷ word "sso" ∷ word "login" ∷ [])
    ∷ (word "auth" ∷ word "sso" ∷ word "callback" ∷ [])
    ∷ (word "devicelogins" ∷ anything ∷ word "actions" ∷ word "poll" ∷ [])
    ∷ (word "orgs" ∷ anything ∷ word "deployments" ∷ anything ∷ word "results" ∷ [])
    ∷ (word "orgs" ∷ anything ∷ word "deployments" ∷ anything ∷ word "bundle" ∷ [])
    ∷ (word "scim" ∷ word "v2" ∷ word "orgs" ∷ anything ∷ word "ServiceProviderConfig" ∷ [])
    ∷ (word "scim" ∷ word "v2" ∷ word "orgs" ∷ anything ∷ word "Schemas" ∷ [])
    ∷ (word "scim" ∷ word "v2" ∷ word "orgs" ∷ anything ∷ word "Schemas" ∷ anything ∷ [])
    ∷ (word "scim" ∷ word "v2" ∷ word "orgs" ∷ anything ∷ word "ResourceTypes" ∷ [])
    ∷ (word "scim" ∷ word "v2" ∷ word "orgs" ∷ anything ∷ word "ResourceTypes" ∷ anything ∷ [])
    ∷ (word "auth" ∷ word "plugin-workload-token" ∷ [])
    ∷ []

-- Whether the parts of a path are those of an alternative.
unfoldable pub skips_parts : List String → Bool
unfolding matches
skips_parts parts = any (λ p. matches p parts) skip_authentication

-- `skipAuthenticationRegex.MatchString("/" + path)`.
unfoldable pub skips_authentication : String → Bool
unfolding skips_parts
skips_authentication path = skips_parts (split b'/' path)
