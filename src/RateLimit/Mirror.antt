-- ===== src/RateLimit/Mirror.antt =====
-- RateLimitRules of internal/core/usecase/rate_limits_mirror.go: the in-memory copy of the rules.
-- Each call is one step: its atomic stores are not interleaved with another call's. The answer of
-- the repository is an argument, `none` for an error; so is the time, in nanoseconds since 1970.
-- Logs and metrics are left out, but for the count of failed reloads.
pub mod Serving
use go_rest_api_service_temp.Base.{
  ℕ, ◌+◌, ◌-◌, Bool, true, false, not, Option, none, some, List, [], ◌∷◌, if◌then◌else◌, length,
  ◌==◌, is_some,
}
use go_rest_api_service_temp.RateLimit.Rule.{RateLimit, is_enabled, enforceability_problem}
use go_rest_api_service_temp.RateLimit.Resolve.{
  RateLimitRequest, RateLimitMatch, BestMap, resolve_rate_limits,
}

pub record RateLimitRules : Type 0 where
  pub rules : Option (List RateLimit)
  pub last_reload : ℕ
  pub reload_failures : ℕ
  pub loaded : Bool

-- NewRateLimitRules: the state of a mirror that is accepted.
unfoldable pub new_rate_limit_rules : RateLimitRules
new_rate_limit_rules = record { rules = none; last_reload = 0; reload_failures = 0; loaded = false }

-- EnforceableRateLimits
unfoldable pub enforceable_rate_limits : List RateLimit → List RateLimit
enforceable_rate_limits [] = []
enforceable_rate_limits (rule ∷ rules) =
    let kept = enforceable_rate_limits rules in
    if not (is_enabled rule)
    then kept
    else if is_some (enforceability_problem rule)
    then kept
    else rule ∷ kept

-- Resolve
unfoldable pub resolve :
    (walk : BestMap → BestMap) → RateLimitRules → RateLimitRequest → List RateLimitMatch × Bool
resolve walk ref req = elim ref.rules [
  | none ↦ ([], false)
  | some rules ↦ (resolve_rate_limits walk rules req, true)
]

-- Reload: the new state, and whether it succeeded.
unfoldable pub reload : RateLimitRules → Option (List RateLimit) → (now : ℕ) → RateLimitRules × Bool
reload ref answer now = elim answer [
  | none ↦ (record ref { reload_failures = ref.reload_failures + 1 }, false)
  | some rules ↦ (
    record ref { rules = some (enforceable_rate_limits rules); last_reload = now; loaded = true },
    true,
  )
]

-- Apply
unfoldable pub apply : RateLimitRules → List RateLimit → RateLimitRules
apply ref rules = record ref { rules = some (enforceable_rate_limits rules); loaded = true }

-- Size
unfoldable pub size : RateLimitRules → ℕ
size ref = elim ref.rules [ none ↦ 0 | some rules ↦ length rules ]

-- Staleness; `none` is the sentinel staleForever.
unfoldable pub staleness : RateLimitRules → (now : ℕ) → Option ℕ
staleness ref now = if ref.last_reload == 0 then none else some (now - ref.last_reload)

-- What a running mirror meets: a tick, with the repository's answer to it, or a change notice that
-- carries the rules.
pub data Event : Type 0 where
  tick : Option (List RateLimit) → ℕ → Event
  notice : List RateLimit → Event

unfoldable pub handle : RateLimitRules → Event → RateLimitRules
handle ref (tick answer now) = (reload ref answer now).0
handle ref (notice rules) = apply ref rules

-- Run, until its context is done: the first reload is the first event.
unfoldable pub run : RateLimitRules → List Event → RateLimitRules
run ref [] = ref
run ref (event ∷ events) = run (handle ref event) events
