-- ===== src/RateLimit/Validate.antt =====
-- The validation of a rule that is created or updated, internal/core/domain/rate_limits.go:
-- validateRateLimitCommon and what it calls. An error is kept as its field and its code; of an error
-- in a window, its index. The errors that ValidateString finds in the name and the description, and
-- ValidateUUID in the identifier, are an argument; so is the match of the target's regular
-- expression.
pub mod Accepted
pub mod Budgets
use go_rest_api_service_temp.Base.{
  ℕ, suc, ◌+◌, String, Bool, true, false, not, ◌&&◌, ◌||◌, Option, none, some, List, [], ◌∷◌, ◌++◌,
  if◌then◌else◌, ltb, ◌==◌, ◌=ₛ◌, length, contains, any, has_suffix, flatten,
}
use go_rest_api_service_temp.Base.Int.{ℤ, pos, ltb_ℤ}
use go_rest_api_service_temp.RateLimit.Windows.{RateLimitWindow}
use go_rest_api_service_temp.RateLimit.Rule.{RateLimit, is_valid_strategy}

-- ValidationError
pub record ValidationError : Type 0 where
  pub field : String
  pub index : Option ℕ
  pub code : String

abbrev pub at_field : String → String → ValidationError
at_field field code = record { field = field; index = none; code = code }

-- The alternatives of ValidActionsRegex
abbrev pub valid_actions : List String
valid_actions = "GET" ∷ "POST" ∷ "PUT" ∷ "DELETE" ∷ "PATCH" ∷ "OPTIONS" ∷ "HEAD" ∷ "*" ∷ []

-- validateRateLimitMethods, the loop
unfoldable pub methods_loop : (seen : List String) → List String → List ValidationError
methods_loop seen [] = []
methods_loop seen (m ∷ methods) =
    let dup = methods_loop seen methods in
    let rest = methods_loop (m ∷ seen) methods in
    if contains seen m
    then at_field "methods" "DUPLICATE" ∷ dup
    else if not (contains valid_actions m)
    then at_field "methods" "INVALID_FORMAT" ∷ rest
    else rest

unfoldable pub validate_rate_limit_methods : List String → List ValidationError
validate_rate_limit_methods methods =
    if length methods == 0
    then at_field "methods" "REQUIRED" ∷ []
    else if contains methods "*" && ltb 1 (length methods)
    then at_field "methods" "INVALID_COMBINATION" ∷ []
    else methods_loop [] methods

abbrev pub eq_ℤ : ℤ → ℤ → Bool
eq_ℤ a b = not (ltb_ℤ a b) && not (ltb_ℤ b a)

abbrev pub rate_limit_min_period : ℤ
rate_limit_min_period = pos 1000000000

abbrev pub rate_limit_max_period : ℤ
rate_limit_max_period = pos 86400000000000

abbrev pub when : Bool → ValidationError → List ValidationError
when true e = e ∷ []
when false e = []

-- validateRateLimitWindows, the body of the loop
unfoldable pub window_errors : (seen : List ℤ) → ℕ → RateLimitWindow → List ValidationError
window_errors seen i w =
    let at : String → ValidationError =
      λ code. record { field = "windows"; index = some i; code = code } in
    when (any (λ p. eq_ℤ p w.period) seen) (at "DUPLICATE")
    ++ when (ltb_ℤ w.requests (pos 1)) (at "OUT_OF_RANGE")
    ++ when (ltb_ℤ w.period rate_limit_min_period || ltb_ℤ rate_limit_max_period w.period)
        (at "OUT_OF_RANGE")
    ++ when (ltb_ℤ w.burst (pos 0)) (at "OUT_OF_RANGE")

unfoldable pub windows_loop : (seen : List ℤ) → ℕ → List RateLimitWindow → List ValidationError
windows_loop seen i [] = []
windows_loop seen i (w ∷ windows) =
    window_errors seen i w ++ windows_loop (w.period ∷ seen) (suc i) windows

unfoldable pub validate_rate_limit_windows : List RateLimitWindow → List ValidationError
validate_rate_limit_windows windows =
    if length windows == 0
    then at_field "windows" "REQUIRED" ∷ []
    else if ltb 5 (length windows)
    then at_field "windows" "TOO_MANY" ∷ []
    else windows_loop [] 0 windows

module _ (matches_target : String → Bool) where
  -- validateRateLimitCommon, check by check
  unfoldable pub checks : (found : List ValidationError) → RateLimit → List (List ValidationError)
  checks found rule =
      found
      ∷ when (not (contains ("endpoint" ∷ "prefix" ∷ "global" ∷ []) rule.target_kind))
          (at_field "target_kind" "INVALID_VALUE")
      ∷ when (rule.target =ₛ "" || not (matches_target rule.target))
          (at_field "target" "INVALID_FORMAT")
      ∷ when
          (rule.target_kind =ₛ "global" && not (rule.target =ₛ "*")
            || not (rule.target_kind =ₛ "global") && rule.target =ₛ "*")
          (at_field "target" "INVALID_VALUE")
      ∷ when (rule.target_kind =ₛ "prefix" && not (has_suffix rule.target "/"))
          (at_field "target" "INVALID_FORMAT")
      ∷ validate_rate_limit_methods rule.methods
      ∷ when (not (contains ("ip" ∷ "user" ∷ "token" ∷ "project" ∷ "global" ∷ []) rule.scope))
          (at_field "scope" "INVALID_VALUE")
      ∷ when (not (contains ("any" ∷ "guest" ∷ "auth" ∷ []) rule.audience))
          (at_field "audience" "INVALID_VALUE")
      ∷ when (rule.audience =ₛ "guest" && (rule.scope =ₛ "user" || rule.scope =ₛ "token"))
          (at_field "scope" "INVALID_COMBINATION")
      ∷ when (not (is_valid_strategy rule.strategy)) (at_field "strategy" "INVALID_VALUE")
      ∷ validate_rate_limit_windows rule.windows
      ∷ []

  unfoldable pub validate_rate_limit_common :
      (found : List ValidationError) → RateLimit → List ValidationError
  validate_rate_limit_common found rule = flatten (checks found rule)

  -- Validate of CreateRateLimitInput and of UpdateRateLimitInput: whether the error is nil.
  unfoldable pub validate : (found : List ValidationError) → RateLimit → Bool
  validate found rule = length (validate_rate_limit_common found rule) == 0
