-- ===== src/RateLimit/Stage/Once.antt =====
-- appliesInThisStage of internal/adapter/driving/http/middleware/ratelimit.go: in which stage a rule is
-- charged.
use go_rest_api_service_temp.Base.{
  ◌≡◌, inl, inr, ap, Bool, true, false, not, ◌&&◌, arith, if◌then◌else◌, ◌=ₛ◌, eq_iff, Bool-cases,
}
use go_rest_api_service_temp.RateLimit.Rule.{RateLimit, matches_audience, decided_pre_auth}
use go_rest_api_service_temp.RateLimit.Stage.{Stage, pre_auth, post_auth, applies_in_this_stage}

-- Whether a rule can be charged in a stage: the caller has an identity in the second only.
abbrev pub charged_in : Stage → RateLimit → Bool
charged_in pre_auth rule = matches_audience rule false && applies_in_this_stage pre_auth rule
charged_in post_auth rule = matches_audience rule true && applies_in_this_stage post_auth rule

abbrev pub stages_of : RateLimit → Bool × Bool
stages_of rule = (charged_in pre_auth rule, charged_in post_auth rule)

-- A rule for authenticated callers is charged after authentication only; a rule for any caller in
-- exactly one stage, the first if its scope is the address or global; a rule for guests in the
-- first stage if its scope is one of those two, and else in neither; any other rule in neither.
pub stages-by_audience :
    (rule : RateLimit)
    → stages_of rule ≡ (
        let early = decided_pre_auth rule.scope in
        if rule.audience =ₛ "auth"
        then (false, true)
        else if rule.audience =ₛ "any"
        then (early, not early)
        else if rule.audience =ₛ "guest"
        then (early, false)
        else (false, false))
unfolding applies_in_this_stage matches_audience
stages-by_audience rule = elim (Bool-cases (rule.audience =ₛ "auth")) [
  | inl auth ↦
      let other : (rule.audience =ₛ "any") ≡ false =
        ap (λ t. t =ₛ "any") ((eq_iff rule.audience "auth").0 auth) in
      ground arith
  | inr other ↦ elim (Bool-cases (rule.audience =ₛ "any")) [
    | inl anyone ↦ ground arith
    | inr guest ↦ ground arith
  ]
]
