-- ===== src/RateLimit/Shared.antt =====
-- internal/adapter/driven/ratelimitvalkey/adapter.go: the counter that the replicas share. The
-- server is an argument: a state, and what INCR and PEXPIRE do with it (`none` and `false` for an
-- error). Time is in nanoseconds since 1970; the timeout of a round trip is left to the server's
-- answers, and so are the error's texts.
pub mod Window
pub mod Count
use go_rest_api_service_temp.Base.{
  ℕ, ◌+◌, ◌-◌, ◌*◌, ◌/◌, String, Bool, true, false, not, ◌||◌, Option, none, some, if◌then◌else◌,
  ltb, ◌==◌, ◌+ₛ◌,
}
use go_rest_api_service_temp.Base.Int.{ℤ, pos, negsuc, pos_part, leb_ℤ, ltb_ℤ}
use go_rest_api_service_temp.RateLimit.Charge.{Budget, Decision}

pub record Server (S : Type 0) : Type 0 where
  pub incr : S → String → S × Option ℕ
  pub pexpire : S → String → ℤ → S × Bool

-- capacity
unfoldable pub capacity : Budget → ℤ
capacity budget = if ltb_ℤ budget.requests budget.burst then budget.burst else budget.requests

-- The count as a number with a sign, and the difference of a capacity and a count below it.
abbrev pub minus : ℤ → ℕ → ℤ
minus (pos n) m = if ltb n m then negsuc (m - n - 1) else pos (n - m)
minus (negsuc n) m = negsuc (n + m)

-- decide
unfoldable pub decide : ℕ → Budget → (resets_in : ℕ) → Decision
decide count budget resets_in =
    let limit = capacity budget in
    if ltb_ℤ limit (pos count)
    then record { allowed = false; remaining = pos 0; retry_after = pos resets_in }
    else record { allowed = true; remaining = minus limit count; retry_after = pos 0 }

-- Milliseconds of a period, at least one
unfoldable pub period_ms : Budget → ℕ
period_ms budget =
    let period = pos_part budget.period / 1000000 in if period == 0 then 1 else period

module _ (format_int : ℕ → String) where
  -- windowKey: the key of the counter, and the nanoseconds until the window rolls.
  unfoldable pub window_key : String → Budget → (now : ℕ) → String × ℕ
  window_key key budget now =
      let period = period_ms budget in
      let ms = now / 1000000 in
      let index = ms / period in
      let resets_in = ((index + 1) * period - ms) * 1000000 in
      ("ratelimit:" +ₛ key +ₛ ":" +ₛ format_int index, resets_in)

  -- Allow, with the cost unused; `none` for an error.
  unfoldable pub allow :
      {S : Type 0} → Server S → (now : ℕ) → S → String → Budget → S × Option Decision
  allow server now s key budget =
      if leb_ℤ budget.period (pos 0) || leb_ℤ budget.requests (pos 0)
      then (s, none)
      else let (counter, resets_in) = window_key key budget now in
        let (s', answer) = server.incr s counter in
        elim answer [
          | none ↦ (s', none)
          | some count ↦
              if count == 1
              then (
                (server.pexpire s' counter budget.period).0,
                some (decide count budget resets_in),
              )
              else (s', some (decide count budget resets_in))
        ]
