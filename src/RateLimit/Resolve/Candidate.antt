-- ===== src/RateLimit/Resolve/Candidate.antt =====
-- Which requests a rule is a candidate for, and with which rank: candidate against a description of
-- the caller, the verb and the route that does not compute.
use go_rest_api_service_temp.Base.{
  ℕ, String, ◌≡◌, ap, ◌+◌, ◌*◌, ◌≢◌, ◌↔◌, inl, inr, Bool, true, false, some, [], ◌∷◌, arith, ◌=ₛ◌,
  eq_iff, Bool-cases,
}
use go_rest_api_service_temp.RateLimit.Rule.{
  RateLimit, any_method, matches_method, matches_audience, is_enabled,
}
use go_rest_api_service_temp.RateLimit.Resolve.{RateLimitRequest, rate_limit_tier, candidate}
use go_rest_api_service_temp.RateLimit.Resolve.Ladder.{
  CoversVerb, any_method_iff, matches_method_iff, Targets, tier_of, rate_limit_tier_iff,
}

-- Who a rule is for
pub data ForAudience (rule : RateLimit) (authenticated : Bool) : Type 0 where
  everyone : rule.audience ≡ "any" → ForAudience rule authenticated
  callers : rule.audience ≡ "auth" → authenticated ≡ true → ForAudience rule authenticated
  guests : rule.audience ≡ "guest" → authenticated ≡ false → ForAudience rule authenticated

matches_audience_iff :
    (rule : RateLimit) (authenticated : Bool)
    → (matches_audience rule authenticated ≡ true) ↔ ForAudience rule authenticated
unfolding matches_audience
matches_audience_iff rule authenticated = (to, from)
  where
    to : matches_audience rule authenticated ≡ true → ForAudience rule authenticated
    to h = elim (Bool-cases (rule.audience =ₛ "any")) [
      | inl all ↦ everyone ((eq_iff _ _).0 all)
      | inr not_all ↦ elim (Bool-cases (rule.audience =ₛ "auth")) [
        | inl auth ↦ callers ((eq_iff _ _).0 auth) (ground (arith, h, not_all, auth))
        | inr not_auth ↦
            guests ((eq_iff _ _).0 (ground (arith, h, not_all, not_auth)))
              (ground (arith, h, not_all, not_auth))
      ]
    ]

    from : ForAudience rule authenticated → matches_audience rule authenticated ≡ true
    from (everyone e) = ground (arith, (eq_iff rule.audience "any").1 e)
    from (callers e known) =
        let a : (rule.audience =ₛ "any") ≡ false = ap (λ t. t =ₛ "any") e in
        ground (arith, a, (eq_iff rule.audience "auth").1 e, known)
    from (guests e unknown) =
        let a : (rule.audience =ₛ "any") ≡ false = ap (λ t. t =ₛ "any") e in
        let b : (rule.audience =ₛ "auth") ≡ false = ap (λ t. t =ₛ "auth") e in
        ground (arith, a, b, (eq_iff rule.audience "guest").1 e, unknown)

-- The rank of a rule that names its route with exactness `k`: a step for it is two, and a rule that
-- is written for named verbs is one above a rule for the wildcard alone.
pub data Ranks (rule : RateLimit) (k n : ℕ) : Type 0 where
  any_verb : rule.methods ≡ "*" ∷ [] → n ≡ 2 * k + 1 → Ranks rule k n
  named_verbs : rule.methods ≢ "*" ∷ [] → n ≡ 2 * k + 2 → Ranks rule k n

tier_of_iff : (rule : RateLimit) (k n : ℕ) → (n ≡ tier_of k rule) ↔ Ranks rule k n
tier_of_iff rule k n = (to, from)
  where
    to : n ≡ tier_of k rule → Ranks rule k n
    to h = elim (Bool-cases (any_method rule)) [
      | inl any ↦ any_verb ((any_method_iff rule).0 any) (ground (arith, h, any))
      | inr named ↦
          named_verbs (λ e. ground (arith, named, (any_method_iff rule).1 e))
            (ground (arith, h, named))
    ]

    from : Ranks rule k n → n ≡ tier_of k rule
    from (any_verb e h) = ground (arith, (any_method_iff rule).1 e, h)
    from (named_verbs e h) = elim (Bool-cases (any_method rule)) [
      | inl any ↦ absurd (e ((any_method_iff rule).0 any))
      | inr named ↦ ground (arith, h, named)
    ]

-- What makes a rule a candidate for a request, and the rank it has
pub record Applies (req : RateLimitRequest) (rule : RateLimit) (n : ℕ) : Type 0 where
  pub enabled : rule.enabled ≢ some false
  pub audience : ForAudience rule req.authenticated
  pub verb : CoversVerb rule.methods req.method
  pub exactness : ℕ
  pub target : Targets rule req.pattern exactness
  pub rank : Ranks rule exactness n

-- The candidate that a rule makes, with its rank and some text
abbrev pub ListedWith : RateLimitRequest → RateLimit → ℕ → Type 0
ListedWith req rule n =
    (why : String) × (candidate req rule
      ≡ some (record { rule = rule; why = why; specificity = n }))

candidate→parts :
    (req : RateLimitRequest) (rule : RateLimit) (n : ℕ) (why : String)
    → candidate req rule ≡ some (record { rule = rule; why = why; specificity = n })
    → (is_enabled rule ≡ true)
      × (matches_audience rule req.authenticated ≡ true)
      × (matches_method rule req.method ≡ true)
      × (rate_limit_tier rule req.pattern ≡ some (n, why))
unfolding candidate
candidate→parts req rule n why e = (ground arith, ground arith, ground arith, ground arith)

-- A rule is a candidate for a request with a rank exactly when it is not disabled, it is for the
-- caller's audience, it is written for the verb and it targets the route, as the route itself, a
-- prefix of it or every route; the rank orders first by that exactness and then named verbs above
-- the wildcard.
pub candidate_iff :
    (req : RateLimitRequest) (rule : RateLimit) (n : ℕ) → ListedWith req rule n ↔ Applies req rule n
unfolding candidate is_enabled
candidate_iff req rule n = (
  λ (why, e).
      let (on, heard, covered, found) = candidate→parts req rule n why e in
      let (k, target, rank) = (rate_limit_tier_iff rule req.pattern n).0 (why, found) in
      record {
        enabled = ground (arith, on);
        audience = (matches_audience_iff rule req.authenticated).0 heard;
        verb = (matches_method_iff rule req.method).0 covered;
        exactness = k;
        target = target;
        rank = (tier_of_iff rule k n).0 rank;
      },
  λ a.
      let (why, found) =
        (rate_limit_tier_iff rule req.pattern n).1
          (a.exactness, a.target, (tier_of_iff rule a.exactness n).1 a.rank) in
      (
        why,
        ground (
          arith,
          (matches_method_iff rule req.method).1 a.verb,
          (matches_audience_iff rule req.authenticated).1 a.audience,
          a.enabled,
          found,
        ),
      ),
)
