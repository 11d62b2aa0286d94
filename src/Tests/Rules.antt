-- ===== src/Tests/Rules.antt =====
-- Windows, resolution and the mirror on two rules.
use Prim.Native.Nat.{Ordering}
use mathlib.Core.List.Permᴰ
use go_rest_api_service_temp.Base.{◌≡◌, ◌≢◌, ◌↔◌, refl, true, false, [], ◌∷◌, In, here, contains}
use go_rest_api_service_temp.Base.Sort.{sort_func}
use go_rest_api_service_temp.RateLimit.Windows.{by_period}
use go_rest_api_service_temp.RateLimit.Rule.{
  matches_method, matches_audience, any_method, is_enabled,
}
use go_rest_api_service_temp.RateLimit.Resolve.{
  RateLimitMatch, candidate, rate_limit_tier, rate_limit_beats, resolve_rate_limits, rounds, round,
  get, put,
}
use go_rest_api_service_temp.RateLimit.Resolve.Answer.{IsWinner, resolve-IsWinner, resolve_answers}
use go_rest_api_service_temp.RateLimit.Resolve.Candidate.{Applies, ListedWith, candidate_iff}
use go_rest_api_service_temp.RateLimit.Mirror.{
  new_rate_limit_rules, enforceable_rate_limits, notice, run, resolve,
}
use go_rest_api_service_temp.RateLimit.Mirror.Serving.{resolve-run}
use go_rest_api_service_temp.Tests.Data.{
  minute, second, models, flood, rules, get_models, models_match, flood_match, in_order,
}

-- The resolution, computed
program : Unit {0}
unfolding sort_func resolve_rate_limits rounds round candidate get put rate_limit_beats
    rate_limit_tier matches_method matches_audience any_method is_enabled contains
program = tt

resolved : resolve_rate_limits in_order rules get_models ≡ models_match ∷ []
unfolding program
resolved = refl

resolve-IsWinner_example : IsWinner get_models rules models_match
unfolding program
resolve-IsWinner_example =
    resolve-IsWinner in_order (λ best. Permᴰ.refl best) rules get_models models_match (here refl)

resolve_answers_example :
    (m : RateLimitMatch) × In m (resolve_rate_limits in_order rules get_models)
    × (m.rule.scope ≡ "ip")
    × (rate_limit_beats 1 flood m ≡ false)
unfolding program
resolve_answers_example =
    resolve_answers in_order (λ best. Permᴰ.refl best) rules get_models flood flood_match
      (here refl) refl

candidate_iff_example :
    ListedWith get_models models models_match.specificity
    ↔ Applies get_models models models_match.specificity
candidate_iff_example = candidate_iff get_models models models_match.specificity

apart : by_period minute second ≢ Ordering.eq
apart e = cc

resolve-run_example :
    (resolve in_order (run new_rate_limit_rules (notice rules ∷ [])) get_models
      ≡ (resolve_rate_limits in_order (enforceable_rate_limits rules) get_models, true))
    × ((run new_rate_limit_rules (notice rules ∷ [])).loaded ≡ true)
resolve-run_example = resolve-run in_order (notice rules ∷ []) get_models
