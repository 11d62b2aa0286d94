-- ===== src/RateLimit/Mirror/Serving.antt =====
-- What the mirror of internal/core/usecase/rate_limits_mirror.go serves, from its construction on.
use go_rest_api_service_temp.Base.{
  ℕ, suc, ◌+◌, ◌≡◌, refl, sym, subst, ap, ◌∙◌, ◌≢◌, ◌↔◌, ◌⊎◌, inl, inr, Bool, true, false, Option,
  none, some, List, [], ◌∷◌, arith, if◌then◌else◌, is_some, Bool-cases, Option-cases, In, In-cons,
  here, there,
}
use go_rest_api_service_temp.RateLimit.Rule.{
  RateLimit, is_enabled, is_valid_strategy, enforceability_problem, no_window, bad_strategy,
}
use go_rest_api_service_temp.RateLimit.Windows.{RateLimitWindow}
use go_rest_api_service_temp.RateLimit.Resolve.{
  BestMap, RateLimitRequest, RateLimitMatch, resolve_rate_limits,
}
use go_rest_api_service_temp.RateLimit.Mirror.{
  RateLimitRules, new_rate_limit_rules, enforceable_rate_limits, reload, apply, Event, tick, notice,
  handle, run, resolve,
}

-- What a limiter can be built from: a rule that is not disabled, has a window and names a known
-- strategy.
pub record IsEnforceable (rule : RateLimit) : Type 0 where
  pub enabled : rule.enabled ≢ some false
  pub has_window : rule.windows ≢ []
  pub known_strategy : is_valid_strategy rule.strategy ≡ true

kept_iff :
    (rule : RateLimit)
    → ((is_enabled rule ≡ true) × (enforceability_problem rule ≡ none)) ↔ IsEnforceable rule
unfolding is_enabled enforceability_problem
kept_iff rule = (
  λ h. record {
    enabled = ground (arith, h.0);
    has_window = ground (arith, h.1);
    known_strategy = ground (arith, h.1);
  },
  λ e. (ground (arith, e.enabled), problem_free rule.windows e.has_window e.known_strategy),
)
  where
    problem_free :
        (ws : List RateLimitWindow)
        → ws ≢ []
        → is_valid_strategy rule.strategy ≡ true
        → (elim ws [
          | [] ↦ some no_window
          | _ ∷ _ ↦ if is_valid_strategy rule.strategy then none else some bad_strategy
        ])
          ≡ none
    problem_free [] h k = absurd (h refl)
    problem_free (w ∷ ws) h k = rw k

IsEnforceable-cases :
    (rule : RateLimit) (rules : List RateLimit)
    → (IsEnforceable rule
        × (enforceable_rate_limits (rule ∷ rules) ≡ rule ∷ enforceable_rate_limits rules))
      ⊎ ((¬ IsEnforceable rule)
          × (enforceable_rate_limits (rule ∷ rules) ≡ enforceable_rate_limits rules))
unfolding enforceable_rate_limits
IsEnforceable-cases rule rules = elim (Bool-cases (is_enabled rule)) [
  | inr disabled ↦ inr (λ e. absurd (ground (arith, (kept_iff rule).1 e)), ground arith)
  | inl enabled ↦ elim (Option-cases (enforceability_problem rule)) [
    | inl fine ↦ inl ((kept_iff rule).0 (enabled, fine), ground arith)
    | inr (problem, found) ↦ inr (λ e. absurd (ground (arith, (kept_iff rule).1 e)), ground arith)
  ]
]

-- The filter keeps exactly the enforceable rules of the list.
pub IsEnforceable-iff :
    (rules : List RateLimit) (rule : RateLimit)
    → In rule (enforceable_rate_limits rules) ↔ (In rule rules × IsEnforceable rule)
unfolding enforceable_rate_limits
IsEnforceable-iff rules rule = (to rules, λ (i, e). from i e)
  where
    to :
        (rs : List RateLimit)
        → In rule (enforceable_rate_limits rs)
        → In rule rs × IsEnforceable rule
    to [] i = elim i [ ]
    to (r ∷ rs) i = elim (IsEnforceable-cases r rs) [
      | inr (_, dropped) ↦ let (j, e) = to rs (subst (In rule) dropped i) in (there j, e)
      | inl (fine, kept) ↦ elim (In-cons (subst (In rule) kept i)) [
        | inl same ↦ (here same, subst IsEnforceable (sym same) fine)
        | inr j ↦ let (k, e) = to rs j in (there k, e)
      ]
    ]

    from :
        {rs : List RateLimit}
        → In rule rs
        → IsEnforceable rule
        → In rule (enforceable_rate_limits rs)
    from (here {y} {ys} same) e = elim (IsEnforceable-cases y ys) [
      | inl (_, kept) ↦ subst (In rule) (sym kept) (here same)
      | inr (never, _) ↦ absurd (never (subst IsEnforceable same e))
    ]
    from (there {y} {ys} i) e = elim (IsEnforceable-cases y ys) [
      | inl (_, kept) ↦ subst (In rule) (sym kept) (there (from i e))
      | inr (_, dropped) ↦ subst (In rule) (sym dropped) (from i e)
    ]

-- The last set of rules that the events brought, if any, and how many ticks found an error.
abbrev pub last_given : Option (List RateLimit) → List Event → Option (List RateLimit)
last_given old [] = old
last_given old (tick none now ∷ events) = last_given old events
last_given old (tick (some rules) now ∷ events) =
    last_given (some (enforceable_rate_limits rules)) events
last_given old (notice rules ∷ events) = last_given (some (enforceable_rate_limits rules)) events

abbrev pub failed_ticks : List Event → ℕ
failed_ticks [] = 0
failed_ticks (tick none now ∷ events) = suc (failed_ticks events)
failed_ticks (tick (some rules) now ∷ events) = failed_ticks events
failed_ticks (notice rules ∷ events) = failed_ticks events

-- Through any sequence of ticks and notices the mirror serves the enforceable rules of the last
-- set that it was given, whatever failed since, and counts exactly the failed reloads.
pub run-last_given :
    (ref : RateLimitRules) (events : List Event)
    → ((run ref events).rules ≡ last_given ref.rules events)
      × ((run ref events).reload_failures ≡ ref.reload_failures + failed_ticks events)
unfolding run handle reload apply
run-last_given ref [] = (refl, omega arith)
run-last_given ref (tick none now ∷ events) =
    let (served, failed) = run-last_given (handle ref (tick none now)) events in
    (served, omega arith)
run-last_given ref (tick (some rules) now ∷ events) =
    run-last_given (handle ref (tick (some rules) now)) events
run-last_given ref (notice rules ∷ events) = run-last_given (handle ref (notice rules)) events

-- A request is answered from a rule set exactly when the mirror has been loaded.
pub record IsMirror (ref : RateLimitRules) : Type 0 where
  pub loaded_iff : ref.loaded ≡ is_some ref.rules

handle-IsMirror :
    (ref : RateLimitRules) (event : Event) → IsMirror ref → IsMirror (handle ref event)
unfolding handle reload apply
handle-IsMirror ref (tick none now) h = ground arith
handle-IsMirror ref (tick (some rules) now) h = ground arith
handle-IsMirror ref (notice rules) h = ground arith

run-IsMirror :
    (ref : RateLimitRules) (events : List Event) → IsMirror ref → IsMirror (run ref events)
unfolding run
run-IsMirror ref [] h = h
run-IsMirror ref (event ∷ events) h =
    run-IsMirror (handle ref event) events (handle-IsMirror ref event h)

-- What is answered to a request from a rule set, or before there is one.
abbrev pub answer_from :
    (walk : BestMap → BestMap)
    → Option (List RateLimit)
    → RateLimitRequest
    → List RateLimitMatch × Bool
answer_from walk none req = ([], false)
answer_from walk (some rules) req = (resolve_rate_limits walk rules req, true)

-- From its construction on, a mirror answers a request from the enforceable rules of the last set
-- that it was given, reports the rule set as unknown until there is one, and is loaded from then.
pub resolve-run :
    (walk : BestMap → BestMap) (events : List Event) (req : RateLimitRequest)
    → (resolve walk (run new_rate_limit_rules events) req
        ≡ answer_from walk (last_given none events) req)
      × ((run new_rate_limit_rules events).loaded ≡ is_some (last_given none events))
unfolding resolve new_rate_limit_rules
resolve-run walk events req =
    let h = run-IsMirror new_rate_limit_rules events (record { loaded_iff = refl }) in
    let (served, _) = run-last_given new_rate_limit_rules events in
    (
      answered (run new_rate_limit_rules events) ∙ ap (λ o. answer_from walk o req) served,
      h.loaded_iff ∙ ap is_some served,
    )
  where
    answered : (ref : RateLimitRules) → resolve walk ref req ≡ answer_from walk ref.rules req
    answered ref = ground arith
