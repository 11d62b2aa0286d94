-- ===== src/Tests/Charges.antt =====
-- Charges against a counter that lets one request through.
use go_rest_api_service_temp.Base.{
  ℕ, suc, ◌≡◌, ◌↔◌, ◌⊎◌, List, refl, String, true, false, Option, none, some, [], ◌∷◌, ltb,
  if◌then◌else◌,
}
use go_rest_api_service_temp.Base.Int.{pos}
use go_rest_api_service_temp.RateLimit.Windows.{RateLimitWindow}
use go_rest_api_service_temp.RateLimit.Mirror.{RateLimitRules}
use go_rest_api_service_temp.RateLimit.Charge.{
  Bucket, Limiter, RateLimitConfig, fail_closed, rate_limit_code, charge, spend, answer_to,
  spend_shared, seconds_ceil, write_rate_limit_headers,
}
use go_rest_api_service_temp.RateLimit.Charge.Verdict.{
  AllPass, IsRefusal, charge_iff, charge-IsRefusal,
}
use go_rest_api_service_temp.RateLimit.Stage.{
  pre_auth, HttpRequest, Printing, budgets_of, rate_limit, trim_suffix,
}
use go_rest_api_service_temp.RateLimit.Stage.Keys.{IsPrinting}
use go_rest_api_service_temp.RateLimit.Stage.Due.{Charged, budgets_of-Charged}
use go_rest_api_service_temp.RateLimit.Rule.{RateLimit}
use go_rest_api_service_temp.RateLimit.Resolve.{RateLimitRequest, resolve_rate_limits}
use go_rest_api_service_temp.RateLimit.Stage.Requests.{AsksFor, rate_limit_iff}
use go_rest_api_service_temp.Tests.Strokes.{stroke_int, stroke_int_inj, stroke_int_free}
use go_rest_api_service_temp.Tests.Data.{rules, models_match, in_order, blank}

-- The state is how many requests were charged.
abbrev once : Limiter ℕ
once w key budget = (
  suc w,
  some (record {
    allowed = ltb w 1;
    remaining = pos 0;
    retry_after = if ltb w 1 then pos 0 else pos 1500000000;
  }),
)

abbrev broken : Limiter ℕ
broken w key budget = (w, none)

abbrev conf : RateLimitConfig ℕ
conf = record { local = none; shared = some once; fail_mode = fail_closed }

abbrev bucket : String → Bucket
bucket key = record {
  key = key;
  rule = "models";
  scope = "ip";
  strategy = "token_bucket";
  budget = record {
    requests = pos 1;
    period = pos 1000000000;
    burst = pos 0;
    strategy = "token_bucket";
  };
}

program : Unit {0}
unfolding charge spend answer_to spend_shared seconds_ceil write_rate_limit_headers
program = tt

-- The second bucket refuses: it is told to wait for two seconds.
refused : charge conf 0 blank (bucket "a" ∷ bucket "b" ∷ []) ≡ (
  2,
  record {
    limit = some (pos 1);
    remaining = some (pos 0);
    reset = some (pos 2);
    retry_after = some (pos 2);
    refusal = some rate_limit_code;
  },
  false,
)
unfolding program
refused = refl

charge_iff_example :
    ((charge conf 0 blank (bucket "a" ∷ bucket "b" ∷ [])).2 ≡ true)
    ↔ AllPass conf 0 (bucket "a" ∷ bucket "b" ∷ [])
charge_iff_example = charge_iff conf 0 blank (bucket "a" ∷ bucket "b" ∷ [])

charge-IsRefusal_example :
    IsRefusal conf 0
      (bucket "a" ∷ bucket "b" ∷ [])
      (charge conf 0 blank (bucket "a" ∷ bucket "b" ∷ [])).0
      (charge conf 0 blank (bucket "a" ∷ bucket "b" ∷ [])).1
unfolding program
charge-IsRefusal_example = charge-IsRefusal conf 0 blank (bucket "a" ∷ bucket "b" ∷ []) refl

abbrev guarded : Option (Limiter ℕ) → RateLimitConfig ℕ
guarded shared = record { local = some once; shared = shared; fail_mode = fail_closed }

abbrev stroke_printing : Printing
stroke_printing = record { duration = stroke_int; itoa = stroke_int }

stroke_printing-IsPrinting : IsPrinting stroke_printing
stroke_printing-IsPrinting = record {
  duration_inj = stroke_int_inj;
  itoa_inj = stroke_int_inj;
  duration_free = stroke_int_free 58 refl;
  itoa_free = stroke_int_free 58 refl;
}

abbrev short : RateLimitWindow
short = record { period = pos 3; requests = pos 2; burst = pos 0 }

abbrev address : String
address = "ip:10.0.0.1"

-- A fixed printing, for what does not depend on it.
abbrev plain : Printing
plain = record { duration = λ d. "1s"; itoa = λ n. "2" }

abbrev request : HttpRequest
request = record {
  method = "GET";
  path = "/models";
  pattern = "GET /models";
  project_id = "";
  claims = none;
}

budgets_of-Charged_example :
    Charged plain pre_auth request "10.0.0.1"
      (models_match ∷ [])
      (budgets_of plain pre_auth (models_match ∷ []) request "10.0.0.1")
budgets_of-Charged_example =
    budgets_of-Charged plain pre_auth (models_match ∷ []) request "10.0.0.1"

exact_mark : trim_suffix "{$}" "/models/{$}" ≡ "/models/"
unfolding trim_suffix
exact_mark = refl

abbrev mirror : RateLimitRules
mirror = record { rules = some rules; last_reload = 5; reload_failures = 0; loaded = true }

abbrev mux : HttpRequest → String
mux r = "GET /models"

rate_limit_iff_example :
    ((mirror.rules ≡ none)
      × (rate_limit plain in_order conf pre_auth (some mux) mirror request "10.0.0.1" 0 blank
          ≡ (0, blank, true)))
    ⊎ ((served : List RateLimit) × (mirror.rules ≡ some served)
        × (req : RateLimitRequest) × AsksFor pre_auth (some mux) request req
        × (buckets : List Bucket) × Charged plain pre_auth request "10.0.0.1"
            (resolve_rate_limits in_order served req)
            buckets
        × (((rate_limit plain in_order conf pre_auth (some mux) mirror request "10.0.0.1" 0 blank).2
              ≡ true)
            ↔ AllPass conf 0 buckets))
rate_limit_iff_example =
    rate_limit_iff plain in_order conf pre_auth (some mux) mirror request "10.0.0.1" 0 blank
