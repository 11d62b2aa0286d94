-- ===== src/Tests/Validation.antt =====
-- The validation of a rule.
use go_rest_api_service_temp.Base.{◌≡◌, refl, true, [], ◌∷◌, contains, has_suffix}
use go_rest_api_service_temp.RateLimit.Rule.{is_valid_strategy}
use go_rest_api_service_temp.RateLimit.Validate.{
  validate_rate_limit_methods, methods_loop, validate_rate_limit_windows, windows_loop,
  window_errors, validate_rate_limit_common, checks, validate, at_field,
}
use go_rest_api_service_temp.RateLimit.Validate.Budgets.{IsAccepted, validate-IsAccepted}
use go_rest_api_service_temp.Tests.Data.{models}

program : Unit {0}
unfolding validate validate_rate_limit_common checks validate_rate_limit_methods methods_loop
    validate_rate_limit_windows windows_loop window_errors contains has_suffix is_valid_strategy
program = tt

twice :
    validate_rate_limit_methods ("GET" ∷ "GET" ∷ "get" ∷ [])
    ≡ at_field "methods" "DUPLICATE" ∷ at_field "methods" "INVALID_FORMAT" ∷ []
unfolding program
twice = refl

models_pass : validate (λ target. true) [] models ≡ true
unfolding program
models_pass = refl

validate-IsAccepted_example : IsAccepted (λ target. true) [] models models_pass
validate-IsAccepted_example = validate-IsAccepted (λ target. true) [] models models_pass
