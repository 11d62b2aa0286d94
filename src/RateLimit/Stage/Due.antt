-- ===== src/RateLimit/Stage/Due.antt =====
-- The buckets of a request against a description of them that does not compute.
use mathlib.Core.List.{Permᴰ}
use go_rest_api_service_temp.Base.{
  String, ◌≡◌, inl, inr, refl, List, [], ◌∷◌, ◌++◌, map, arith, ◌+ₛ◌, Bool-cases, Option-cases,
}
use go_rest_api_service_temp.RateLimit.Windows.{
  RateLimitWindow, sorted_windows, ShortestFirst, sorted_windows-ShortestFirst,
}
use go_rest_api_service_temp.RateLimit.Rule.{RateLimit}
use go_rest_api_service_temp.RateLimit.Resolve.{RateLimitMatch}
use go_rest_api_service_temp.RateLimit.Charge.{Bucket}
use go_rest_api_service_temp.RateLimit.Stage.{
  Stage, HttpRequest, Printing, applies_in_this_stage, scope_key, window_key, bucket_of, budgets_of,
}
use go_rest_api_service_temp.RateLimit.Stage.Scopes.{
  ChargedIn, Carries, ChargedIn_iff, scope_key→Carries, Carries→scope_key,
}

-- The bucket of a window: its key tells apart rules, windows and what a request carries.
pub record IsBucket (fmt : Printing) (rule : RateLimit) (value : String) (w : RateLimitWindow)
    (b : Bucket) : Type 0 where
  pub key :
      b.key
      ≡ rule.id
        +ₛ ":"
        +ₛ (fmt.duration w.period +ₛ ":" +ₛ fmt.itoa w.requests +ₛ ":" +ₛ fmt.itoa w.burst)
        +ₛ ":"
        +ₛ value
  pub rule_name : b.rule ≡ rule.name
  pub scope : b.scope ≡ rule.scope
  pub strategy : b.strategy ≡ rule.strategy
  pub requests : b.budget.requests ≡ w.requests
  pub period : b.budget.period ≡ w.period
  pub burst : b.budget.burst ≡ w.burst
  pub limiter : b.budget.strategy ≡ rule.strategy

-- One bucket for each window, in the order of the windows
pub data Each (fmt : Printing) (rule : RateLimit) (value : String)
    : List RateLimitWindow → List Bucket → Type 0 where
  no_more : Each fmt rule value [] []
  one_more :
      {w : RateLimitWindow} {ws : List RateLimitWindow} {b : Bucket} {bs : List Bucket}
      → IsBucket fmt rule value w b
      → Each fmt rule value ws bs
      → Each fmt rule value (w ∷ ws) (b ∷ bs)

-- The buckets of a list of matches, in their order: a match whose rule is charged in the stage, and
-- whose scope the request carries, gives one bucket for each of its windows, the shortest first;
-- another match gives none.
pub data Charged (fmt : Printing) (stage : Stage) (r : HttpRequest) (ip : String)
    : List RateLimitMatch → List Bucket → Type 0 where
  nothing : Charged fmt stage r ip [] []
  other_stage :
      {m : RateLimitMatch} {ms : List RateLimitMatch} {bs : List Bucket}
      → ¬ ChargedIn stage m.rule
      → Charged fmt stage r ip ms bs
      → Charged fmt stage r ip (m ∷ ms) bs
  not_carried :
      {m : RateLimitMatch} {ms : List RateLimitMatch} {bs : List Bucket}
      → ((value : String) → ¬ Carries r ip m.rule.scope value)
      → Charged fmt stage r ip ms bs
      → Charged fmt stage r ip (m ∷ ms) bs
  charged :
      {m : RateLimitMatch} {ms : List RateLimitMatch} {own bs : List Bucket} (value : String)
      (ws : List RateLimitWindow)
      → ChargedIn stage m.rule
      → Carries r ip m.rule.scope value
      → Permᴰ ws m.rule.windows
      → ShortestFirst ws
      → Each fmt m.rule value ws own
      → Charged fmt stage r ip ms bs
      → Charged fmt stage r ip (m ∷ ms) (own ++ bs)

bucket_of-IsBucket :
    (fmt : Printing) (rule : RateLimit) (value : String) (w : RateLimitWindow)
    → IsBucket fmt rule value w (bucket_of fmt rule value w)
unfolding bucket_of window_key
bucket_of-IsBucket fmt rule value w = record {
  key = refl;
  rule_name = refl;
  scope = refl;
  strategy = refl;
  requests = refl;
  period = refl;
  burst = refl;
  limiter = refl;
}

map-Each :
    (fmt : Printing) (rule : RateLimit) (value : String) (ws : List RateLimitWindow)
    → Each fmt rule value ws (map (bucket_of fmt rule value) ws)
map-Each fmt rule value [] = no_more
map-Each fmt rule value (w ∷ ws) =
    one_more (bucket_of-IsBucket fmt rule value w) (map-Each fmt rule value ws)

-- The buckets that budgetsFor makes of the matches are those that the request is charged against in
-- the stage, once each and in the order of the matches, those of a rule with the shortest window
-- first.
pub budgets_of-Charged :
    (fmt : Printing) (stage : Stage) (ms : List RateLimitMatch) (r : HttpRequest) (ip : String)
    → Charged fmt stage r ip ms (budgets_of fmt stage ms r ip)
unfolding budgets_of
budgets_of-Charged fmt stage [] r ip = nothing
budgets_of-Charged fmt stage (m ∷ ms) r ip =
    let rest = budgets_of-Charged fmt stage ms r ip in
    elim (Bool-cases (applies_in_this_stage stage m.rule)) [
      | inr other ↦
          rw other (other_stage (λ c. ground (arith, other, (ChargedIn_iff stage m.rule).1 c)) rest)
      | inl now ↦ elim (Option-cases (scope_key m.rule.scope r ip)) [
        | inl missing ↦
            rw (now, missing)
              (not_carried (λ v c. ground (arith, missing, Carries→scope_key r ip m.rule.scope v c))
                rest)
        | inr (value, carried) ↦
            let (shortest, same) = sorted_windows-ShortestFirst m.rule.windows in
            rw (now, carried)
              (charged value (sorted_windows m.rule.windows) ((ChargedIn_iff stage m.rule).0 now)
                (scope_key→Carries r ip m.rule.scope value carried) same shortest
                (map-Each fmt m.rule value (sorted_windows m.rule.windows)) rest)
      ]
    ]
