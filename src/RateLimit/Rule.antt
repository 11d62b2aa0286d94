-- ===== src/RateLimit/Rule.antt =====
-- One rate-limit rule and its windows, internal/core/domain/rate_limits.go: the record types and
-- the methods that the resolution and the middleware ask. The time stamps and the serial numbers
-- of the rows are left out: nothing here reads them. An identifier is the text of its UUID.
use go_rest_api_service_temp.Base.{
  String, Bool, true, false, not, ◌&&◌, ◌||◌, Option, none, some, List, [], ◌∷◌, if◌then◌else◌,
  ◌=ₛ◌, contains,
}
use go_rest_api_service_temp.Base.Int.{ℤ, pos, leb_ℤ}
use go_rest_api_service_temp.RateLimit.Windows.{RateLimitWindow}

-- The string types RateLimitScope, RateLimitAudience, RateLimitTargetKind and RateLimitStrategy
-- are texts, as in the source: a row may hold any text.
pub record RateLimit : Type 0 where
  pub id : String
  pub system : Option Bool
  pub enabled : Option Bool
  pub name : String
  pub description : String
  pub target : String
  pub target_kind : String
  pub scope : String
  pub audience : String
  pub strategy : String
  pub methods : List String
  pub windows : List RateLimitWindow

-- RateLimitWindow.EffectiveBurst
pub effective_burst : RateLimitWindow → ℤ
effective_burst w = if leb_ℤ w.burst (pos 0) then w.requests else w.burst

-- RateLimit.AnyMethod
unfoldable pub any_method : RateLimit → Bool
any_method rule = elim rule.methods [
  | [] ↦ false
  | m ∷ rest ↦ elim rest [ [] ↦ m =ₛ "*" | _ ∷ _ ↦ false ]
]

-- RateLimit.MatchesMethod
unfoldable pub matches_method : RateLimit → String → Bool
matches_method rule method =
    if any_method rule
    then true
    else if contains rule.methods method
    then true
    else method =ₛ "HEAD" && contains rule.methods "GET"

-- RateLimit.MatchesAudience
unfoldable pub matches_audience : RateLimit → Bool → Bool
matches_audience rule authenticated =
    if rule.audience =ₛ "any"
    then true
    else if rule.audience =ₛ "auth"
    then authenticated
    else if rule.audience =ₛ "guest"
    then not authenticated
    else false

-- The dereference of a pointer to bool behind a nil test.
unfoldable pub is_enabled : RateLimit → Bool
is_enabled rule = elim rule.enabled [ none ↦ true | some b ↦ b ]

unfoldable pub is_system : RateLimit → Bool
is_system rule = elim rule.system [ none ↦ false | some b ↦ b ]

-- IsValidRateLimitStrategy: whether the error is nil.
unfoldable pub is_valid_strategy : String → Bool
unfolding contains
is_valid_strategy s = if s =ₛ "" then false else contains ("token_bucket" ∷ "leaky_bucket" ∷ []) s

-- RateLimitScope.DecidedPreAuth
unfoldable pub decided_pre_auth : String → Bool
decided_pre_auth scope = scope =ₛ "ip" || scope =ₛ "global"

-- Why a rule cannot be enforced.
pub data Problem : Type 0 where
  no_window bad_strategy : Problem

-- RateLimit.EnforceabilityProblem; `none` is the empty text.
unfoldable pub enforceability_problem : RateLimit → Option Problem
unfolding is_valid_strategy
enforceability_problem rule = elim rule.windows [
  | [] ↦ some no_window
  | _ ∷ _ ↦ if is_valid_strategy rule.strategy then none else some bad_strategy
]
