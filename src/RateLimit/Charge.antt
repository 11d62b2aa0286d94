-- ===== src/RateLimit/Charge.antt =====
-- charge and spend of internal/adapter/driving/http/middleware/ratelimit.go: one request charged
-- against the buckets of its rules. The two limiters stand behind the port of
-- internal/core/port/driven/ratelimit/ratelimit.go: each is a function on the state `W` of the
-- world, which answers a decision, or `none` for an error. Logs and metrics are left out. The header
-- values are kept as the numbers that they print.
pub mod Verdict
use go_rest_api_service_temp.Base.{
  ℕ, ◌+◌, ◌-◌, ◌/◌, String, Bool, true, false, not, Option, none, some, List, [], ◌∷◌,
  if◌then◌else◌, ltb,
}
use go_rest_api_service_temp.Base.Int.{ℤ, pos, negsuc, pos_part, leb_ℤ, ltb_ℤ}

pub record Budget : Type 0 where
  pub requests : ℤ
  pub period : ℤ
  pub burst : ℤ
  pub strategy : String

pub record Decision : Type 0 where
  pub allowed : Bool
  pub remaining : ℤ
  pub retry_after : ℤ

pub record Bucket : Type 0 where
  pub key : String
  pub rule : String
  pub scope : String
  pub strategy : String
  pub budget : Budget

pub data FailMode : Type 0 where
  fail_local fail_closed : FailMode

-- Limiter: `Allow` with a cost of 1.
abbrev pub Limiter : Type 0 → Type 0
Limiter W = W → String → Budget → W × Option Decision

-- The fields of RateLimitConfig that the charge reads.
pub record RateLimitConfig (W : Type 0) : Type 0 where
  pub local : Option (Limiter W)
  pub shared : Option (Limiter W)
  pub fail_mode : FailMode

-- What was refused: the code of the JSON message under status 429.
pub data Refusal : Type 0 where
  rate_limit_code rate_limit_store_fault_code : Refusal

-- The response as far as it is written here: RateLimit-Limit, RateLimit-Remaining,
-- RateLimit-Reset, Retry-After, and the message.
pub record Response : Type 0 where
  pub limit : Option ℤ
  pub remaining : Option ℤ
  pub reset : Option ℤ
  pub retry_after : Option ℤ
  pub refusal : Option Refusal

-- secondsCeil. The sum is one of 64-bit numbers with a sign, and division rounds towards zero.
unfoldable pub seconds_ceil : ℤ → ℤ
seconds_ceil d =
    if leb_ℤ d (pos 0)
    then pos 0
    else let sum = pos_part d + 999999999 in
      if ltb sum 9223372036854775808
      then pos (sum / 1000000000)
      else negsuc ((18446744073709551616 - sum) / 1000000000 - 1)

-- max of the language
abbrev pub max_ℤ : ℤ → ℤ → ℤ
max_ℤ a b = if ltb_ℤ a b then b else a

abbrev pub store_fault_retry_after : ℤ
store_fault_retry_after = pos 5000000000

-- writeRateLimitHeaders
unfoldable pub write_rate_limit_headers : Response → Bucket → Decision → Response
write_rate_limit_headers w b d =
    let limit = if leb_ℤ b.budget.burst (pos 0) then b.budget.requests else b.budget.burst in
    record w {
      limit = some limit;
      remaining = if leb_ℤ (pos 0) d.remaining then some d.remaining else w.remaining;
      reset = if ltb_ℤ (pos 0) d.retry_after then some (seconds_ceil d.retry_after) else w.reset;
    }

-- What spend answers: a decision, a rule that no limiter can be built from, or an error of the
-- shared counter.
pub data Spent : Type 0 where
  decided : Decision → Spent
  rule_fault store_fault : Spent

module _ {W : Type 0} (conf : RateLimitConfig W) where
  -- The shared counter's answer; without one, the decision of the local limiter.
  unfoldable pub spend_shared : W → Bucket → Decision → W × Spent
  spend_shared w b local = elim conf.shared [
    | none ↦ (w, decided local)
    | some allow ↦
        let (w', answer) = allow w b.key b.budget in
        (w', elim answer [ none ↦ store_fault | some d ↦ decided d ])
  ]

  unfoldable pub spend : W → Bucket → W × Spent
  spend w b = elim conf.local [
    | none ↦ spend_shared w b (record { allowed = true; remaining = negsuc 0; retry_after = pos 0 })
    | some allow ↦
        let (w', answer) = allow w b.key b.budget in
        elim answer [
          | none ↦ (w', rule_fault)
          | some d ↦ if not d.allowed then (w', decided d) else spend_shared w' b d
        ]
  ]

  -- The body of the loop, after spend: the response, and whether the loop goes on.
  unfoldable pub answer_to : Response → Bucket → Spent → Response × Bool
  answer_to res b rule_fault = (res, true)
  answer_to res b store_fault = elim conf.fail_mode [
    | fail_local ↦ (res, true)
    | fail_closed ↦ (
      record res {
        retry_after = some (seconds_ceil store_fault_retry_after);
        refusal = some rate_limit_store_fault_code;
      },
      false,
    )
  ]
  answer_to res b (decided d) =
      let res' = write_rate_limit_headers res b d in
      if not d.allowed
      then (
        record res' {
          retry_after = some (max_ℤ (seconds_ceil d.retry_after) (pos 1));
          refusal = some rate_limit_code;
        },
        false,
      )
      else (res', true)

  unfoldable pub charge : W → Response → List Bucket → W × Response × Bool
  charge w res [] = (w, res, true)
  charge w res (b ∷ buckets) =
      let (w', spent) = spend w b in
      let (res', goes_on) = answer_to res b spent in
      let rest = charge w' res' buckets in if goes_on then rest else (w', res', false)
