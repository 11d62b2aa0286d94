-- ===== src/RateLimit/Resolve.antt =====
-- internal/core/domain/rate_limits_resolution.go: which rules apply to a request. The map of the
-- best matches is an association list; the order in which Go walks it is a parameter.
pub mod Best
pub mod Answer
pub mod Ladder
pub mod Candidate
use Prim.Native.Nat.{compare, Ordering}
use go_rest_api_service_temp.Base.{
  ℕ, String, Bool, true, false, not, Option, none, some, List, [], ◌∷◌, map, if◌then◌else◌, ltb,
  ◌==◌, ◌=ₛ◌, ◌+ₛ◌, has_prefix, str_compare, then_ordering,
}
use go_rest_api_service_temp.Base.Sort.{sort_func}
use go_rest_api_service_temp.RateLimit.Rule.{
  RateLimit, any_method, matches_method, matches_audience, is_enabled,
}

pub record RateLimitRequest : Type 0 where
  pub method : String
  pub pattern : String
  pub authenticated : Bool

pub record RateLimitMatch : Type 0 where
  pub rule : RateLimit
  pub why : String
  pub specificity : ℕ

-- rateLimitTier; `none` is the answer with a false last result.
unfoldable pub rate_limit_tier : RateLimit → String → Option (ℕ × String)
rate_limit_tier rule pattern =
    let named = not (any_method rule) in
    if rule.target_kind =ₛ "endpoint"
    then if not (rule.target =ₛ pattern)
      then none
      else if named
      then some (6, "exact endpoint and a named verb — the most specific match there is")
      else some
          (5, "exact endpoint, any verb — one budget shared across every method on this route")
    else if rule.target_kind =ₛ "prefix"
    then if not (has_prefix pattern rule.target)
      then none
      else if named
      then some (4, "prefix " +ₛ rule.target +ₛ " and a named verb — no endpoint rule matched")
      else some (3, "prefix " +ₛ rule.target +ₛ ", any verb")
    else if rule.target_kind =ₛ "global"
    then if named
      then some (2, "global, named verb — no endpoint or prefix rule matched")
      else some (1, "global — no more specific rule matched in this scope")
    else none

-- rateLimitBeats
unfoldable pub rate_limit_beats : ℕ → RateLimit → RateLimitMatch → Bool
rate_limit_beats tier candidate current =
    if not (tier == current.specificity)
    then ltb current.specificity tier
    else elim (str_compare candidate.name current.rule.name) [ Ordering.lt ↦ true | _ ↦ false ]

-- The top of the loop's body: what the rule would be recorded as, or `none` where it continues.
unfoldable pub candidate : RateLimitRequest → RateLimit → Option RateLimitMatch
candidate req rule =
    if not (is_enabled rule)
    then none
    else if not (matches_audience rule req.authenticated)
    then none
    else if not (matches_method rule req.method)
    then none
    else elim (rate_limit_tier rule req.pattern) [
      | none ↦ none
      | some (tier, why) ↦ some (record { rule = rule; why = why; specificity = tier })
    ]

abbrev pub BestMap : Type 0
BestMap = List (String × RateLimitMatch)

unfoldable pub get : BestMap → String → Option RateLimitMatch
get [] scope = none
get ((s, m) ∷ best) scope = if s =ₛ scope then some m else get best scope

unfoldable pub put : BestMap → String → RateLimitMatch → BestMap
put [] scope m = (scope, m) ∷ []
put ((s, old) ∷ best) scope m = if s =ₛ scope then (s, m) ∷ best else (s, old) ∷ put best scope m

-- One round of the loop over the rules.
unfoldable pub round : RateLimitRequest → BestMap → RateLimit → BestMap
round req best rule = elim (candidate req rule) [
  | none ↦ best
  | some m ↦ elim (get best rule.scope) [
    | none ↦ put best rule.scope m
    | some current ↦
        if not (rate_limit_beats m.specificity rule current) then best else put best rule.scope m
  ]
]

unfoldable pub rounds : RateLimitRequest → BestMap → List RateLimit → BestMap
rounds req best [] = best
rounds req best (rule ∷ rules) = rounds req (round req best rule) rules

-- The comparison of the final sort: the most specific first, then by scope, then by name.
abbrev pub by_specificity : RateLimitMatch → RateLimitMatch → Ordering
by_specificity a b =
    then_ordering (compare b.specificity a.specificity)
      (then_ordering (str_compare a.rule.scope b.rule.scope) (str_compare a.rule.name b.rule.name))

-- ResolveRateLimits. `walk` is the order in which the map is ranged over.
unfoldable pub resolve_rate_limits :
    (walk : BestMap → BestMap) → List RateLimit → RateLimitRequest → List RateLimitMatch
resolve_rate_limits walk rules req =
    sort_func by_specificity (map (λ e. e.1) (walk (rounds req [] rules)))
