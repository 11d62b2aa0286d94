-- ===== src/RateLimit/Shared/Window.antt =====
-- windowKey of internal/adapter/driven/ratelimitvalkey/adapter.go: when the window rolls.
use native.Mathlib.Nat.{div-lt_iff_lt-mul, le-div_iff_mul-le, lt-div-mul-add, div-mul-le_self}
use go_rest_api_service_temp.Base.{ℕ, ◌+◌, ◌-◌, ◌*◌, ◌/◌, ◌<◌, ◌≤◌, ◌≡◌, ◌↔◌, ap, String, arith}
use go_rest_api_service_temp.RateLimit.Charge.{Budget}
use go_rest_api_service_temp.RateLimit.Shared.{period_ms, window_key}

-- The window of an instant, by its number: instants share a counter when they share it.
abbrev pub window_of : Budget → ℕ → ℕ
window_of budget now = now / 1000000 / period_ms budget

period_ms-pos : (budget : Budget) → 0 < period_ms budget
unfolding period_ms
period_ms-pos budget = ground arith

-- What is left of a window of `p` at `a`, for a later `b`.
rolls :
    (p a b : ℕ)
    → 0 < p
    → a ≤ b
    → ((b / p ≡ a / p) ↔ (b < a + ((a / p + 1) * p - a)))
      × (0 < (a / p + 1) * p - a)
      × ((a / p + 1) * p - a ≤ p)
rolls p a b h k =
    let below = lt-div-mul-add {a = a} h in
    let under = div-mul-le_self a p in ((to, from), omega (arith, below), omega (arith, under))
  where
    to : b / p ≡ a / p → b < a + ((a / p + 1) * p - a)
    to e =
        let bound = lt-div-mul-add {a = b} h in
        let e' : b / p * p ≡ a / p * p = ap (λ n. n * p) e in
        omega (arith, bound, e', lt-div-mul-add {a = a} h)

    from : b < a + ((a / p + 1) * p - a) → b / p ≡ a / p
    from l =
        let upper =
          (div-lt_iff_lt-mul {k = p} {x = b} {y = a / p + 1} h).1
            (omega (arith, l, lt-div-mul-add {a = a} h, div-mul-le_self a p)) in
        let lower =
          (le-div_iff_mul-le {k = p} {x = a / p} {y = b} h).1
            (omega (arith, k, div-mul-le_self a p)) in
        omega (arith, upper, lower)

-- The wait that the counter reports is positive and at most the period, and is the time to the end
-- of the window, counted from the millisecond that the instant lies in: a later instant is still in
-- the window exactly when it comes before that.
pub window_key-rolls :
    (format_int : ℕ → String) (key : String) (budget : Budget) (now later : ℕ)
    → now ≤ later
    → ((window_of budget later ≡ window_of budget now)
        ↔ (later < now / 1000000 * 1000000 + (window_key format_int key budget now).1))
      × (0 < (window_key format_int key budget now).1)
      × ((window_key format_int key budget now).1 ≤ period_ms budget * 1000000)
unfolding window_key
window_key-rolls format_int key budget now later h =
    let (same, positive, short) =
      rolls (period_ms budget) (now / 1000000) (later / 1000000) (period_ms-pos budget)
        (omega (arith, h)) in
    (
      (λ e. omega (arith, same.0 e), λ l. same.1 (omega (arith, l))),
      omega (arith, positive),
      omega (arith, short),
    )
