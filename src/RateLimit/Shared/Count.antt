-- ===== src/RateLimit/Shared/Count.antt =====
-- Allow of internal/adapter/driven/ratelimitvalkey/adapter.go over the calls of one window.
use go_rest_api_service_temp.Base.{
  ℕ, suc, ◌+◌, ◌-◌, ◌<◌, ◌≡◌, String, none, some, if◌then◌else◌, leb, ◌==◌, arith, List, [], ◌∷◌,
  length, All, Bool-cases, inl, inr,
}
use go_rest_api_service_temp.Base.Int.{ℤ, pos, pos_part, ◌<ℤ◌}
use go_rest_api_service_temp.RateLimit.Charge.{Budget, Decision}
use go_rest_api_service_temp.RateLimit.Shared.{Server, capacity, decide, window_key, allow}

-- INCR of a server that answers: it counts up by one, from what it held. No key expires while the
-- calls last, so that PEXPIRE leaves the counts as they are.
pub record IsCounter {S : Type 0} (server : Server S) : Type 0 where
  pub count : S → String → ℕ
  pub answers : (s : S) (key : String) → (server.incr s key).1 ≡ some (count s key + 1)
  pub counts : (s : S) (key : String) → count (server.incr s key).0 key ≡ count s key + 1
  pub keeps : (s : S) (key : String) (p : ℤ) → count (server.pexpire s key p).0 key ≡ count s key

-- Calls at the given times, for one key and budget, and how many of them are allowed.
unfoldable pub allows :
    {S : Type 0} (format_int : ℕ → String) → Server S → S → String → Budget → List ℕ → ℕ
allows format_int server s key budget [] = 0
allows format_int server s key budget (now ∷ times) =
    let (s', answer) = allow format_int server now s key budget in
    let rest = allows format_int server s' key budget times in
    elim answer [ none ↦ rest | some d ↦ if d.allowed then suc rest else rest ]

module _ {S : Type 0} (format_int : ℕ → String) (server : Server S) (counter : IsCounter server)
    (key : String) (budget : Budget) (period_pos : pos 0 <ℤ budget.period)
    (requests_pos : pos 0 <ℤ budget.requests) where
  capacity-pos : (n : ℕ) × (capacity budget ≡ pos n) × (0 < n)
  unfolding capacity
  capacity-pos = (pos_part (capacity budget), ground arith, ground arith)

  allow-counts :
      (now : ℕ) (s : S) (k : String)
      → (window_key format_int key budget now).0 ≡ k
      → ((d : Decision) × ((allow format_int server now s key budget).1 ≡ some d)
          × (d.allowed ≡ leb (counter.count s k + 1) (pos_part (capacity budget))))
        × (counter.count (allow format_int server now s key budget).0 k ≡ counter.count s k + 1)
  unfolding allow decide
  allow-counts now s k e =
      let (n, cap, positive) = capacity-pos in
      let server_answers = counter.answers s k in
      let counted = counter.counts s k in
      let kept = counter.keeps (server.incr s k).0 k budget.period in
      elim (Bool-cases (counter.count s k == 0)) [
        | inl first ↦ (
          (
            decide (counter.count s k + 1) budget (window_key format_int key budget now).1,
            ground arith,
            ground arith,
          ),
          ground arith,
        )
        | inr later ↦ (
          (
            decide (counter.count s k + 1) budget (window_key format_int key budget now).1,
            ground arith,
            ground arith,
          ),
          ground arith,
        )
      ]

  -- With a period and requests that are positive, and a server that always answers, calls that share
  -- one counter are allowed until its count reaches the capacity of the budget, and none is after
  -- that.
  pub allows-capacity :
      (s : S) (k : String) (times : List ℕ)
      → All (λ now. (window_key format_int key budget now).0 ≡ k) times
      → allows format_int server s key budget times ≡ (
          if leb (counter.count s k + length times) (pos_part (capacity budget))
          then length times
          else pos_part (capacity budget) - counter.count s k)
  unfolding allows
  allows-capacity s k [] h = ground arith
  allows-capacity s k (now ∷ times) h =
      let ((d, answer, verdict), counted) = allow-counts now s k h.0 in
      let rest = allows-capacity (allow format_int server now s key budget).0 k times h.1 in
      ground arith
