-- ===== src/Tests/Data.antt =====
-- The rules and the requests that the tests run on.
use go_rest_api_service_temp.Base.{true, false, none, some, List, [], ◌∷◌}
use go_rest_api_service_temp.Base.Int.{pos}
use go_rest_api_service_temp.RateLimit.Windows.{RateLimitWindow}
use go_rest_api_service_temp.RateLimit.Rule.{RateLimit}
use go_rest_api_service_temp.RateLimit.Resolve.{RateLimitRequest, RateLimitMatch, BestMap}
use go_rest_api_service_temp.RateLimit.Charge.{Response}

abbrev pub minute : RateLimitWindow
minute = record { period = pos 60000000000; requests = pos 10; burst = pos 0 }

abbrev pub second : RateLimitWindow
second = record { period = pos 1000000000; requests = pos 2; burst = pos 4 }

abbrev pub models : RateLimit
models = record {
  id = "11";
  system = none;
  enabled = some true;
  name = "models";
  description = "";
  target = "/models";
  target_kind = "endpoint";
  scope = "ip";
  audience = "any";
  strategy = "token_bucket";
  methods = "GET" ∷ [];
  windows = minute ∷ second ∷ [];
}

abbrev pub flood : RateLimit
flood = record {
  id = "22";
  system = some true;
  enabled = none;
  name = "flood";
  description = "";
  target = "*";
  target_kind = "global";
  scope = "ip";
  audience = "any";
  strategy = "leaky_bucket";
  methods = "*" ∷ [];
  windows = minute ∷ [];
}

abbrev pub rules : List RateLimit
rules = flood ∷ models ∷ []

abbrev pub get_models : RateLimitRequest
get_models = record { method = "GET"; pattern = "/models"; authenticated = false }

abbrev pub models_match : RateLimitMatch
models_match = record {
  rule = models;
  why = "exact endpoint and a named verb — the most specific match there is";
  specificity = 6;
}

abbrev pub flood_match : RateLimitMatch
flood_match = record {
  rule = flood;
  why = "global — no more specific rule matched in this scope";
  specificity = 1;
}

abbrev pub in_order : BestMap → BestMap
in_order best = best

abbrev pub blank : Response
blank = record { limit = none; remaining = none; reset = none; retry_after = none; refusal = none }
