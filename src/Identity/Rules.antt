-- ===== src/Identity/Rules.antt =====
-- The permissions of internal/identity/identity.go: rules, their patterns, and `Authorize`.
use minicloud_platform.Prelude.{
  Bool, true, false, not, ◌&&◌, ◌||◌, Option, none, some, List, [], ◌∷◌, if◌then◌else◌, Bytes,
  codes, same, starts_with,
}
use minicloud_platform.Prelude.Split.{split_at}

-- `strings.HasSuffix(s, suffix)`
unfoldable pub ends_with : Bytes → Bytes → Bool
ends_with [] suffix = same [] suffix
ends_with (c ∷ s) suffix = same (c ∷ s) suffix || ends_with s suffix

-- `pattern[:len(pattern)-1]`
abbrev pub init : Bytes → Bytes
init [] = []
init (c ∷ []) = []
init (c ∷ d ∷ s) = c ∷ init (d ∷ s)

unfoldable pub match_part : Bytes → Bytes → Bool
unfolding ends_with
match_part [] value = true
match_part (c ∷ pattern) value =
    if same (c ∷ pattern) (codes "*")
    then true
    else if ends_with (c ∷ pattern) (codes "*")
    then starts_with value (init (c ∷ pattern))
    else if starts_with (c ∷ pattern) (codes "*")
    then ends_with value pattern
    else same (c ∷ pattern) value

-- the two parts of a rule, and what they match
abbrev pub match_parts : Option (Bytes × Bytes) → Bytes → Bytes → Bool
match_parts none verb resource = false
match_parts (some (v, r)) verb resource = match_part v verb && match_part r resource

unfoldable pub match_rule : Bytes → Bytes → Bytes → Bool
unfolding split_at match_part
match_rule rule verb resource = match_parts (split_at b':' rule) verb resource

unfoldable pub has_permission : List Bytes → Bytes → Bytes → Bool
unfolding match_rule
has_permission [] verb resource = false
has_permission (r ∷ rules) verb resource =
    match_rule r verb resource || has_permission rules verb resource

-- what the checks read of a user of internal/state
pub record User : Type 0 where
  pub id : Bytes
  pub admin : Bool

-- `builtinRoles["viewer"]`
abbrev pub viewer : List Bytes
viewer = codes "get:*" ∷ codes "list:*" ∷ []

abbrev pub rules_for : User → List Bytes
rules_for u = if u.admin then codes "*:*" ∷ [] else viewer

-- the errors of the package
pub data AuthError : Type 0 where
  invalid_credentials unauthorized token_expired token_malformed : AuthError

-- nothing is the nil error
unfoldable pub authorize : Option User → Bytes → Bytes → Option AuthError
unfolding has_permission
authorize none verb resource = some unauthorized
authorize (some u) verb resource =
    if not (has_permission (rules_for u) verb resource) then some unauthorized else none
