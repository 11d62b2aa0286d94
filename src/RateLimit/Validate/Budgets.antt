-- ===== src/RateLimit/Validate/Budgets.antt =====
-- What the validation of a rule accepts of its windows, and what an accepted rule promises to the
-- mirror and to the middleware.
use Prim.Native.Nat.{Ordering}
use go_rest_api_service_temp.Base.{
  ℕ, suc, ◌<◌, ◌≤◌, ◌≡◌, ◌≢◌, ◌↔◌, inl, inr, refl, ap, ◌∙◌, String, Bool, true, false, not, ◌&&◌,
  ◌||◌, none, List, [], ◌∷◌, ◌==◌, ◌=ₛ◌, length, contains, any, arith, eq_iff, All, joined_empty,
  flatten_empty, =ₛ_comm, Bool-cases,
}
use go_rest_api_service_temp.Base.Int.{ℤ, pos, ◌≤ℤ◌}
use go_rest_api_service_temp.Base.Sort.{Distinct}
use go_rest_api_service_temp.RateLimit.Windows.{RateLimitWindow, by_period}
use go_rest_api_service_temp.RateLimit.Rule.{
  RateLimit, is_valid_strategy, enforceability_problem, decided_pre_auth,
}
use go_rest_api_service_temp.RateLimit.Stage.{pre_auth, post_auth}
use go_rest_api_service_temp.RateLimit.Stage.Once.{charged_in, stages_of, stages-by_audience}
use go_rest_api_service_temp.RateLimit.Validate.{
  ValidationError, eq_ℤ, rate_limit_min_period, rate_limit_max_period, window_errors, windows_loop,
  validate_rate_limit_windows, validate_rate_limit_methods, validate_rate_limit_common, checks,
  validate,
}
use go_rest_api_service_temp.RateLimit.Validate.Accepted.{AreMethods, validate_methods_iff}

-- The bounds of one window.
abbrev pub InBounds : RateLimitWindow → Type 0
InBounds w =
    (pos 1 ≤ℤ w.requests)
    × (rate_limit_min_period ≤ℤ w.period)
    × (w.period ≤ℤ rate_limit_max_period)
    × (pos 0 ≤ℤ w.burst)

abbrev seen_in : List ℤ → RateLimitWindow → Bool
seen_in seen w = any (λ p. eq_ℤ p w.period) seen

window_errors_iff :
    (seen : List ℤ) (i : ℕ) (w : RateLimitWindow)
    → (window_errors seen i w ≡ []) ↔ ((seen_in seen w ≡ false) × InBounds w)
unfolding window_errors
window_errors_iff seen i w = ground arith

unseen :
    (w : RateLimitWindow) (seen : List ℤ) (ws : List RateLimitWindow)
    → All (λ v. seen_in (w.period ∷ seen) v ≡ false) ws
    → All (λ v. seen_in seen v ≡ false) ws × All (λ v. by_period w v ≢ Ordering.eq) ws
unseen w seen [] h = (tt, tt)
unseen w seen (v ∷ ws) h =
    let (rest, apart) = unseen w seen ws h.1 in
    ((ground (arith, h.0), rest), (ground (arith, h.0), apart))

seen_now :
    (w : RateLimitWindow) (seen : List ℤ) (ws : List RateLimitWindow)
    → All (λ v. seen_in seen v ≡ false) ws
    → All (λ v. by_period w v ≢ Ordering.eq) ws
    → All (λ v. seen_in (w.period ∷ seen) v ≡ false) ws
seen_now w seen [] h k = tt
seen_now w seen (v ∷ ws) h k = (ground (arith, h.0, k.0), seen_now w seen ws h.1 k.1)

windows_loop→ :
    (seen : List ℤ) (i : ℕ) (ws : List RateLimitWindow)
    → windows_loop seen i ws ≡ []
    → All (λ v. seen_in seen v ≡ false) ws × All InBounds ws × Distinct by_period ws
unfolding windows_loop
windows_loop→ seen i [] h = (tt, tt, tt)
windows_loop→ seen i (w ∷ ws) h =
    let (this, later) = joined_empty (window_errors seen i w) _ h in
    let (new, bounds) = (window_errors_iff seen i w).0 this in
    let (rest, within, distinct) = windows_loop→ (w.period ∷ seen) (suc i) ws later in
    let (older, apart) = unseen w seen ws rest in
    ((new, older), (bounds, within), (apart, distinct))

windows_loop← :
    (seen : List ℤ) (i : ℕ) (ws : List RateLimitWindow)
    → All (λ v. seen_in seen v ≡ false) ws
    → All InBounds ws
    → Distinct by_period ws
    → windows_loop seen i ws ≡ []
unfolding windows_loop
windows_loop← seen i [] h b d = refl
windows_loop← seen i (w ∷ ws) h b d =
    let this = (window_errors_iff seen i w).1 (h.0, b.0) in
    let later = windows_loop← (w.period ∷ seen) (suc i) ws (seen_now w seen ws h.1 d.0) b.1 d.1 in
    rw (this, later) refl

-- The windows that a rule may have: one to five, of different periods, each within its bounds.
pub record AreWindows (ws : List RateLimitWindow) : Type 0 where
  pub some_window : 0 < length ws
  pub few : length ws ≤ 5
  pub in_bounds : All InBounds ws
  pub distinct : Distinct by_period ws

none_seen : (ws : List RateLimitWindow) → All (λ v. seen_in [] v ≡ false) ws
none_seen [] = tt
none_seen (w ∷ ws) = (refl, none_seen ws)

-- The validation finds no error in the windows exactly when there are one to five of them, of
-- different periods, each with at least one request, a period from a second to a day, and a burst
-- that is not negative.
pub validate_windows_iff :
    (ws : List RateLimitWindow) → (validate_rate_limit_windows ws ≡ []) ↔ AreWindows ws
unfolding validate_rate_limit_windows
validate_windows_iff ws = (
  λ h.
      let (_, within, distinct) = windows_loop→ [] 0 ws (ground arith) in
      record {
        some_window = ground arith;
        few = ground arith;
        in_bounds = within;
        distinct = distinct;
      },
  λ a.
      let fine = windows_loop← [] 0 ws (none_seen ws) a.in_bounds a.distinct in
      ground (arith, fine, a.some_window, a.few),
)

empty_of : (xs : List ValidationError) → (length xs == 0) ≡ true → xs ≡ []
empty_of [] h = refl
empty_of (x ∷ xs) h = absurd (ground arith)

module _ (matches_target : String → Bool) (found : List ValidationError) (rule : RateLimit)
    (accepted : validate matches_target found rule ≡ true) where
  -- What an accepted rule promises.
  pub record IsAccepted : Type 0 where
    pub verbs : AreMethods rule.methods
    pub windows : AreWindows rule.windows
    pub enforceable : enforceability_problem rule ≡ none
    pub stage :
        (charged_in pre_auth rule || charged_in post_auth rule)
        ≡ not (rule.audience =ₛ "guest" && rule.scope =ₛ "project")

  parts :
      (validate_rate_limit_methods rule.methods ≡ [])
      × (validate_rate_limit_windows rule.windows ≡ [])
      × (is_valid_strategy rule.strategy ≡ true)
      × (contains ("ip" ∷ "user" ∷ "token" ∷ "project" ∷ "global" ∷ []) rule.scope ≡ true)
      × (contains ("any" ∷ "guest" ∷ "auth" ∷ []) rule.audience ≡ true)
      × ((rule.audience =ₛ "guest" && (rule.scope =ₛ "user" || rule.scope =ₛ "token")) ≡ false)
  unfolding validate validate_rate_limit_common checks
  parts =
      let h = flatten_empty (checks matches_target found rule) (empty_of _ accepted) in
      let r = h.1.1.1.1.1 in
      (
        r.0,
        r.1.1.1.1.1.0,
        ground (arith, r.1.1.1.1.0),
        ground (arith, r.1.0),
        ground (arith, r.1.1.0),
        ground (arith, r.1.1.1.0),
      )

  is_guest :
      (rule.audience =ₛ "auth") ≡ false
      → (rule.audience =ₛ "any") ≡ false
      → (rule.audience =ₛ "guest") ≡ true
  unfolding contains
  is_guest auth anyone =
      let (_, _, _, _, audience, _) = parts in
      ground (
        arith,
        audience,
        =ₛ_comm "any" rule.audience,
        =ₛ_comm "guest" rule.audience,
        =ₛ_comm "auth" rule.audience,
      )

  -- A guest's rule that is accepted has the scope of an address, global or of a project.
  early_or_project :
      (rule.audience =ₛ "guest") ≡ true
      → decided_pre_auth rule.scope ≡ not (rule.scope =ₛ "project")
  unfolding contains decided_pre_auth
  early_or_project guest =
      let (_, _, _, scope, _, combination) = parts in
      elim (Bool-cases (rule.scope =ₛ "project")) [
        | inr elsewhere ↦ ground (
          arith,
          guest,
          scope,
          combination,
          =ₛ_comm "ip" rule.scope,
          =ₛ_comm "user" rule.scope,
          =ₛ_comm "token" rule.scope,
          =ₛ_comm "project" rule.scope,
          =ₛ_comm "global" rule.scope,
        )
        | inl project ↦
            let same = (eq_iff rule.scope "project").0 project in
            let ip : (rule.scope =ₛ "ip") ≡ false = ap (λ t. t =ₛ "ip") same in
            let global : (rule.scope =ₛ "global") ≡ false = ap (λ t. t =ₛ "global") same in
            ground arith
      ]

  in_stage :
      (charged_in pre_auth rule || charged_in post_auth rule)
      ≡ not (rule.audience =ₛ "guest" && rule.scope =ₛ "project")
  in_stage = elim (Bool-cases (rule.audience =ₛ "auth")) [
    | inl auth ↦
        let guest : (rule.audience =ₛ "guest") ≡ false =
          ap (λ t. t =ₛ "guest") ((eq_iff rule.audience "auth").0 auth) in
        let charged : stages_of rule ≡ (false, true) = rw auth at (stages-by_audience rule) in
        ap (λ p. p.0 || p.1) charged ∙ rw guest refl
    | inr other ↦ elim (Bool-cases (rule.audience =ₛ "any")) [
      | inl anyone ↦
          let guest : (rule.audience =ₛ "guest") ≡ false =
            ap (λ t. t =ₛ "guest") ((eq_iff rule.audience "any").0 anyone) in
          let charged : stages_of rule
              ≡ (decided_pre_auth rule.scope, not (decided_pre_auth rule.scope)) =
            rw (other, anyone) at (stages-by_audience rule) in
          ap (λ p. p.0 || p.1) charged ∙ ground (arith, guest)
      | inr none_of_them ↦
          let guest = is_guest other none_of_them in
          let charged : stages_of rule ≡ (decided_pre_auth rule.scope, false) =
            rw (other, none_of_them, guest) at (stages-by_audience rule) in
          let early = early_or_project guest in
          ap (λ p. p.0 || p.1) charged ∙ ground (arith, guest, early)
    ]
  ]

  -- An accepted rule has verbs and windows that it may have, is one that a limiter can be built
  -- from, and is charged in one of the two stages, unless it is for guests and has the scope of a
  -- project.
  pub validate-IsAccepted : IsAccepted
  unfolding enforceability_problem
  validate-IsAccepted =
      let (methods, windows, strategy, scope, audience, combination) = parts in
      let budget = (validate_windows_iff rule.windows).0 windows in
      record {
        verbs = (validate_methods_iff rule.methods).0 methods;
        windows = budget;
        enforceable = ground (arith, budget.some_window);
        stage = in_stage;
      }
