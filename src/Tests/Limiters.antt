-- ===== src/Tests/Limiters.antt =====
-- The circuit breaker and the shared counter.
use go_rest_api_service_temp.Base.{
  ℕ, suc, ◌≡◌, refl, String, true, false, none, some, [], ◌∷◌, arith,
}
use go_rest_api_service_temp.Base.Int.{pos}
use go_rest_api_service_temp.RateLimit.Breaker.{Breaker, failed, admit, record_outcome, settle}
use go_rest_api_service_temp.RateLimit.Breaker.Circuit.{
  System, Reach, arrive, finish, next, here, IsSound, Reach-IsSound, arrived, finished,
}
use go_rest_api_service_temp.RateLimit.Charge.{Budget}
use go_rest_api_service_temp.RateLimit.Shared.{Server, period_ms, window_key, capacity}
use go_rest_api_service_temp.RateLimit.Shared.Count.{IsCounter, allows, allows-capacity}

abbrev closed : Breaker
closed = record {
  threshold = 2;
  cooldown = 30;
  open_until = none;
  consecutive_failures = 0;
  probing = false;
}

abbrev opened : Breaker
opened = record {
  threshold = 2;
  cooldown = 30;
  open_until = some 35;
  consecutive_failures = 2;
  probing = false;
}

abbrev idle : System
idle = record { breaker = closed; in_flight = 0; changed_to = false }

idle-IsSound : IsSound idle
idle-IsSound = record {
  positive = omega arith;
  counted = refl;
  probes = refl;
  out = refl;
  recorded = refl;
}

program : Unit {0}
unfolding arrived finished admit record_outcome settle
program = tt

abbrev waited : System
waited = finished (arrived (finished (arrived idle 1) 2 failed) 4) 5 failed

failures : Reach idle waited
unfolding program
failures =
    next
      (next (next (next here (arrive idle 1)) (finish (arrived idle 1) 2 failed (omega arith)))
        (arrive (finished (arrived idle 1) 2 failed) 4))
      (finish (arrived (finished (arrived idle 1) 2 failed) 4) 5 failed (omega arith))

tripped : waited.breaker ≡ opened
unfolding program
tripped = refl

Reach-IsSound_example : IsSound waited
Reach-IsSound_example = Reach-IsSound idle-IsSound failures

abbrev budget : Budget
budget = record {
  requests = pos 2;
  period = pos 1000000000;
  burst = pos 0;
  strategy = "token_bucket";
}

abbrev one_key : ℕ → String
one_key n = "7"

rolls_in : (window_key one_key "k" budget 2500000000).1 ≡ 500000000
unfolding window_key period_ms
rolls_in = refl

-- A server with one counter for all keys.
abbrev server : Server ℕ
server = record { incr = λ s key. (suc s, some (suc s)); pexpire = λ s key p. (s, true) }

server-IsCounter : IsCounter server
server-IsCounter = record {
  count = λ s key. s;
  answers = λ s key. ground arith;
  counts = λ s key. omega arith;
  keeps = λ s key p. refl;
}

allows-capacity_example : allows one_key server 0 "k" budget (1 ∷ 2 ∷ 3 ∷ []) ≡ 2
unfolding window_key capacity server-IsCounter
allows-capacity_example =
    allows-capacity one_key server server-IsCounter "k" budget (omega arith) (omega arith) 0
      "ratelimit:k:7" (1 ∷ 2 ∷ 3 ∷ []) (refl, (refl, (refl, tt)))
