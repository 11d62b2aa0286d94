-- ===== src/RateLimit/Stage/Requests.antt =====
-- The handler as a whole, from the rules of the mirror to the response.
use go_rest_api_service_temp.Base.{
  String, ◌≡◌, ◌≢◌, ◌↔◌, ◌⊎◌, refl, true, false, Option, none, some, List, [], ◌∷◌, Option-cases,
  Bool-cases, inl, inr, ◌=ₛ◌, eq_iff, arith,
}
use go_rest_api_service_temp.RateLimit.Rule.{RateLimit}
use go_rest_api_service_temp.RateLimit.Resolve.{BestMap, RateLimitRequest, resolve_rate_limits}
use go_rest_api_service_temp.RateLimit.Mirror.{RateLimitRules, resolve}
use go_rest_api_service_temp.RateLimit.Charge.{Bucket, Response, RateLimitConfig, charge}
use go_rest_api_service_temp.RateLimit.Charge.Verdict.{AllPass, charge_iff}
use go_rest_api_service_temp.RateLimit.Stage.{
  Stage, pre_auth, post_auth, Claims, HttpRequest, Printing, normalise_pattern, pattern_of,
  budgets_for, budgets_of, asked, rate_limit,
}
use go_rest_api_service_temp.RateLimit.Stage.Due.{Charged, budgets_of-Charged}

-- The pattern that the mux has for a request: after authentication the one it was routed by, before
-- it the answer of the look-up, if there is one.
pub data RoutedBy (stage : Stage) (router : Option (HttpRequest → String)) (r : HttpRequest)
    (registered : String) : Type 0 where
  routed : stage ≡ post_auth → registered ≡ r.pattern → RoutedBy stage router r registered
  looked_up :
      (handler : HttpRequest → String)
      → stage ≡ pre_auth
      → router ≡ some handler
      → registered ≡ handler r
      → RoutedBy stage router r registered
  unrouted : stage ≡ pre_auth → router ≡ none → registered ≡ "" → RoutedBy stage router r registered

-- The question that the mirror is asked about a request: its verb, whether it has verified claims,
-- and the path of its pattern, or its own path if it has none.
pub record AsksFor (stage : Stage) (router : Option (HttpRequest → String)) (r : HttpRequest)
    (req : RateLimitRequest) : Type 0 where
  pub method : req.method ≡ r.method
  pub caller :
      ((r.claims ≡ none) × (req.authenticated ≡ false))
      ⊎ ((claims : Claims) × (r.claims ≡ some claims) × (req.authenticated ≡ true))
  pub registered : String
  pub route : RoutedBy stage router r registered
  pub pattern :
      ((normalise_pattern registered ≢ "") × (req.pattern ≡ normalise_pattern registered))
      ⊎ ((normalise_pattern registered ≡ "") × (req.pattern ≡ r.path))

registered_by :
    (stage : Stage) (router : Option (HttpRequest → String)) (r : HttpRequest)
    → (p : String) × RoutedBy stage router r p × (pattern_of stage router r ≡ normalise_pattern p)
unfolding pattern_of normalise_pattern
registered_by post_auth router r = (r.pattern, routed refl refl, refl)
registered_by pre_auth none r = ("", unrouted refl refl refl, refl)
registered_by pre_auth (some handler) r = (handler r, looked_up handler refl refl refl, refl)

asked-AsksFor :
    (stage : Stage) (router : Option (HttpRequest → String)) (r : HttpRequest)
    → AsksFor stage router r (asked stage router r)
unfolding asked
asked-AsksFor stage router r =
    let (p, route, same) = registered_by stage router r in
    record {
      method = refl;
      caller = elim (Option-cases r.claims) [
        | inl absent ↦ inl (absent, rw absent refl)
        | inr (claims, there) ↦ inr (claims, there, rw there refl)
      ];
      registered = p;
      route = route;
      pattern = elim (Bool-cases (normalise_pattern p =ₛ "")) [
        | inl blank ↦ inr ((eq_iff _ _).0 blank, rw (same, blank) refl)
        | inr filled ↦ inl (
          λ e. ground (arith, filled, (eq_iff (normalise_pattern p) "").1 e),
          rw (same, filled) refl,
        )
      ];
    }

module _ {W : Type 0} (fmt : Printing) (walk : BestMap → BestMap) (conf : RateLimitConfig W)
    (stage : Stage) (router : Option (HttpRequest → String)) (rules : RateLimitRules)
    (r : HttpRequest) (ip : String) where
  rate_limit-unserved :
      (w : W) (res : Response)
      → rules.rules ≡ none
      → rate_limit fmt walk conf stage router rules r ip w res ≡ (w, res, true)
  unfolding rate_limit budgets_for resolve
  rate_limit-unserved w res missing = rw missing refl

  rate_limit-served :
      (served : List RateLimit) (w : W) (res : Response)
      → rules.rules ≡ some served
      → rate_limit fmt walk conf stage router rules r ip w res
        ≡ charge conf w res
            (budgets_of fmt stage (resolve_rate_limits walk served (asked stage router r)) r ip)
  unfolding rate_limit budgets_for resolve charge
  rate_limit-served served w res found =
      rw found (
        chosen (budgets_of fmt stage (resolve_rate_limits walk served (asked stage router r)) r ip))
    where
      chosen :
          (bs : List Bucket)
          → (elim bs [ [] ↦ (w, res, true) | b ∷ buckets ↦ charge conf w res (b ∷ buckets) ])
            ≡ charge conf w res bs
      chosen [] = refl
      chosen (b ∷ bs) = refl

  -- Without a rule set every request goes on, with nothing charged. With one, the rules are asked
  -- about the request's verb, its route and whether it has verified claims, and the next handler is
  -- called exactly when every bucket that the matches make for it in this stage, charged in order,
  -- lets the request go on.
  pub rate_limit_iff :
      (w : W) (res : Response)
      → ((rules.rules ≡ none)
          × (rate_limit fmt walk conf stage router rules r ip w res ≡ (w, res, true)))
        ⊎ ((served : List RateLimit) × (rules.rules ≡ some served)
            × (req : RateLimitRequest) × AsksFor stage router r req
            × (buckets : List Bucket) × Charged fmt stage r ip
                (resolve_rate_limits walk served req)
                buckets
            × (((rate_limit fmt walk conf stage router rules r ip w res).2 ≡ true)
                ↔ AllPass conf w buckets))
  rate_limit_iff w res = elim (Option-cases rules.rules) [
    | inl missing ↦ inl (missing, rate_limit-unserved w res missing)
    | inr (served, found) ↦
        let req = asked stage router r in
        let matches = resolve_rate_limits walk served req in
        let buckets = budgets_of fmt stage matches r ip in
        inr (
          served,
          found,
          req,
          asked-AsksFor stage router r,
          buckets,
          budgets_of-Charged fmt stage matches r ip,
          rw (rate_limit-served served w res found) (charge_iff conf w res buckets),
        )
  ]
