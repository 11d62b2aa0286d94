-- ===== src/RateLimit/Stage.antt =====
-- The middleware of internal/adapter/driving/http/middleware/ratelimit.go: which buckets a request
-- is charged against, and the handler. The client's address, which ClientIP answers, the mux and
-- the printing of durations and numbers are arguments. Of a request there is what is read here: of
-- its claims, the entries `sub` and `jti` where they are texts. Logs are left out.
pub mod Once
pub mod Keys
pub mod Scopes
pub mod Due
pub mod Patterns
pub mod Requests
use go_rest_api_service_temp.Base.{
  ℕ, String, Bool, true, false, not, ◌&&◌, ◌||◌, Option, none, some, List, [], ◌∷◌, ◌++◌, map,
  if◌then◌else◌, ◌==◌, ◌=ₛ◌, ◌+ₛ◌, is_some, get_or,
}
use Prim.Native.Char.{Char, code}
use go_rest_api_service_temp.Base.Int.{ℤ}
use go_rest_api_service_temp.RateLimit.Windows.{RateLimitWindow, sorted_windows}
use go_rest_api_service_temp.RateLimit.Rule.{RateLimit, decided_pre_auth}
use go_rest_api_service_temp.RateLimit.Resolve.{RateLimitRequest, RateLimitMatch, BestMap}
use go_rest_api_service_temp.RateLimit.Mirror.{RateLimitRules, resolve}
use go_rest_api_service_temp.RateLimit.Charge.{Budget, Bucket, Response, RateLimitConfig, charge}

pub data Stage : Type 0 where
  pre_auth post_auth : Stage

pub record Claims : Type 0 where
  pub sub : Option String
  pub jti : Option String

pub record HttpRequest : Type 0 where
  pub method : String
  pub path : String
  pub pattern : String
  pub project_id : String
  pub claims : Option Claims

-- The printing of time.Duration.String and strconv.Itoa.
pub record Printing : Type 0 where
  pub duration : ℤ → String
  pub itoa : ℤ → String

-- appliesInThisStage
unfoldable pub applies_in_this_stage : Stage → RateLimit → Bool
applies_in_this_stage stage rule =
    if rule.audience =ₛ "auth"
    then elim stage [ pre_auth ↦ false | post_auth ↦ true ]
    else elim stage [
      | pre_auth ↦ decided_pre_auth rule.scope
      | post_auth ↦ not (decided_pre_auth rule.scope)
    ]

-- scopeKey: `claims["sub"].(string)` and the test that it is not empty.
unfoldable pub claimed : String → Option String → Option String
claimed label none = none
claimed label (some value) = if value =ₛ "" then none else some (label +ₛ value)

unfoldable pub scope_key : String → HttpRequest → (ip : String) → Option String
scope_key scope r ip =
    let claims = get_or (record { sub = none; jti = none }) r.claims in
    if scope =ₛ "ip"
    then if ip =ₛ "" then none else some ("ip:" +ₛ ip)
    else if scope =ₛ "global"
    then some "global"
    else if scope =ₛ "user"
    then claimed "user:" claims.sub
    else if scope =ₛ "token"
    then claimed "token:" claims.jti
    else if scope =ₛ "project"
    then if r.project_id =ₛ "" then none else some ("project:" +ₛ r.project_id)
    else none

module _ (fmt : Printing) where
  -- windowKey
  unfoldable pub window_key : RateLimitWindow → String
  window_key w = fmt.duration w.period +ₛ ":" +ₛ fmt.itoa w.requests +ₛ ":" +ₛ fmt.itoa w.burst

  unfoldable pub bucket_of : RateLimit → String → RateLimitWindow → Bucket
  bucket_of rule scope_value w = record {
    key = rule.id +ₛ ":" +ₛ window_key w +ₛ ":" +ₛ scope_value;
    rule = rule.name;
    scope = rule.scope;
    strategy = rule.strategy;
    budget = record {
      requests = w.requests;
      period = w.period;
      burst = w.burst;
      strategy = rule.strategy;
    };
  }

  -- budgetsFor, the loop: the buckets of each match, shortest window first.
  unfoldable pub budgets_of :
      Stage → List RateLimitMatch → HttpRequest → (ip : String) → List Bucket
  budgets_of stage [] r ip = []
  budgets_of stage (m ∷ matches) r ip =
      let rest = budgets_of stage matches r ip in
      if not (applies_in_this_stage stage m.rule)
      then rest
      else elim (scope_key m.rule.scope r ip) [
        | none ↦ rest
        | some scope_value ↦
            map (bucket_of m.rule scope_value) (sorted_windows m.rule.windows) ++ rest
      ]

  unfoldable pub budgets_for :
      Stage → List RateLimitMatch → (known : Bool) → HttpRequest → (ip : String) → List Bucket
  budgets_for stage matches known r ip = if not known then [] else budgets_of stage matches r ip

-- strings.LastIndex and the cut after it; `none` where the separator is not there.
unfoldable pub after_last : ℕ → String → Option String
after_last sep String.[] = none
after_last sep (String.◌∷◌ c s) = elim (after_last sep s) [
  | some t ↦ some t
  | none ↦ if code c == sep then some s else none
]

-- strings.Index and the cut before it, which at index 0 is the whole text.
unfoldable pub from_first : ℕ → String → Option String
from_first sep String.[] = none
from_first sep (String.◌∷◌ c s) =
    let rest = from_first sep s in if code c == sep then some (String.◌∷◌ c s) else rest

-- strings.TrimSuffix, for a suffix that is not empty
unfoldable pub trim_suffix : String → String → String
trim_suffix suffix String.[] = ""
trim_suffix suffix (String.◌∷◌ c s) =
    let rest = trim_suffix suffix s in if String.◌∷◌ c s =ₛ suffix then "" else String.◌∷◌ c rest

-- normalisePattern
unfoldable pub normalise_pattern : String → String
normalise_pattern p =
    if p =ₛ ""
    then ""
    else let p' = get_or p (after_last b' ' p) in
      let p'' = get_or p' (from_first b'/' p') in trim_suffix "{$}" p''

-- RateLimitConfig.pattern. `router` is the look-up of the inner mux, which answers its pattern.
unfoldable pub pattern_of : Stage → Option (HttpRequest → String) → HttpRequest → String
pattern_of post_auth router r = normalise_pattern r.pattern
pattern_of pre_auth none r = ""
pattern_of pre_auth (some handler) r = normalise_pattern (handler r)

-- What the handler asks the mirror.
unfoldable pub asked : Stage → Option (HttpRequest → String) → HttpRequest → RateLimitRequest
asked stage router r =
    let pattern = pattern_of stage router r in
    record {
      method = r.method;
      pattern = if pattern =ₛ "" then r.path else pattern;
      authenticated = is_some r.claims;
    }

module _ {W : Type 0} (fmt : Printing) (walk : BestMap → BestMap) (conf : RateLimitConfig W) where
  -- RateLimit: the state, the response, and whether the next handler is called.
  unfoldable pub rate_limit :
      Stage
      → Option (HttpRequest → String)
      → RateLimitRules
      → HttpRequest
      → (ip : String) → W
      → Response
      → W × Response × Bool
  rate_limit stage router rules r ip w res =
      let (matches, known) = resolve walk rules (asked stage router r) in
      elim (budgets_for fmt stage matches known r ip) [
        | [] ↦ (w, res, true)
        | b ∷ buckets ↦ charge conf w res (b ∷ buckets)
      ]
