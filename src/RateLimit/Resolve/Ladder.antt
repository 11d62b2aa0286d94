-- ===== src/RateLimit/Resolve/Ladder.antt =====
-- Which verbs and routes a rule covers, and at which tier: matches_method and rate_limit_tier against
-- descriptions of them that do not compute.
use text.Mathlib.TextEquality.{starts_with_iff}
use go_rest_api_service_temp.Base.{
  ℕ, String, ◌≡◌, refl, sym, ◌∙◌, ap, ◌+◌, ◌*◌, ◌≢◌, ◌↔◌, ◌⊎◌, inl, inr, Bool, true, false, none,
  some, List, [], ◌∷◌, arith, if◌then◌else◌, ◌=ₛ◌, ◌+ₛ◌, eq_iff, has_prefix, contains, contains_iff,
  Bool-cases, Option-cases, In,
}
use go_rest_api_service_temp.RateLimit.Rule.{RateLimit, any_method, matches_method}
use go_rest_api_service_temp.RateLimit.Resolve.{rate_limit_tier}

abbrev is_any : List String → Bool
is_any [] = false
is_any (m ∷ []) = m =ₛ "*"
is_any (m ∷ n ∷ ms) = false

-- The verbs that a rule is written for: the wildcard alone, the verb itself, or GET for HEAD.
abbrev pub CoversVerb : List String → String → Type 0
CoversVerb methods method =
    (methods ≡ "*" ∷ []) ⊎ (In method methods ⊎ ((method ≡ "HEAD") × In "GET" methods))

any_method→eq : (methods : List String) → is_any methods ≡ true → methods ≡ "*" ∷ []
any_method→eq [] h = cc
any_method→eq (m ∷ []) h = ap (λ x. x ∷ []) ((eq_iff m "*").0 h)
any_method→eq (m ∷ n ∷ ms) h = cc

pub any_method_iff : (rule : RateLimit) → (any_method rule ≡ true) ↔ (rule.methods ≡ "*" ∷ [])
unfolding any_method
any_method_iff rule = (any_method→eq rule.methods, λ e. rw e)

-- A rule covers a verb exactly when it is written for it: by the wildcard alone, by name, or by
-- GET for a HEAD request.
pub matches_method_iff :
    (rule : RateLimit) (method : String)
    → (matches_method rule method ≡ true) ↔ CoversVerb rule.methods method
unfolding matches_method
matches_method_iff rule method = (to, from)
  where
    to : matches_method rule method ≡ true → CoversVerb rule.methods method
    to h = elim (Bool-cases (any_method rule)) [
      | inl any ↦ inl ((any_method_iff rule).0 any)
      | inr named ↦ elim (Bool-cases (contains rule.methods method)) [
        | inl listed ↦ inr (inl ((contains_iff _ _).0 listed))
        | inr absent ↦ inr (
            inr ((eq_iff _ _).0 (ground arith), (contains_iff rule.methods "GET").0 (ground arith)))
      ]
    ]

    from : CoversVerb rule.methods method → matches_method rule method ≡ true
    from (inl e) = rw ((any_method_iff rule).1 e)
    from (inr (inl i)) = ground (arith, (contains_iff rule.methods method).1 i)
    from (inr (inr (e, i))) =
        ground (arith, eq_iff method "HEAD", (contains_iff rule.methods "GET").1 i)

-- How a rule names what it is about: `k` is 2 for one route, 1 for a prefix of routes and 0 for
-- all of them.
pub data Targets (rule : RateLimit) (pattern : String) (k : ℕ) : Type 0 where
  endpoint : k ≡ 2 → rule.target_kind ≡ "endpoint" → rule.target ≡ pattern → Targets rule pattern k
  prefix :
      (rest : String)
      → k ≡ 1
      → rule.target_kind ≡ "prefix"
      → rule.target +ₛ rest ≡ pattern
      → Targets rule pattern k
  global : k ≡ 0 → rule.target_kind ≡ "global" → Targets rule pattern k

-- The tier of a target, a named verb one step above the wildcard.
abbrev pub tier_of : ℕ → RateLimit → ℕ
tier_of k rule = 2 * k + (if any_method rule then 1 else 2)

tier→Targets :
    (rule : RateLimit) (pattern : String) (n : ℕ) (why : String)
    → rate_limit_tier rule pattern ≡ some (n, why)
    → (k : ℕ) × Targets rule pattern k × (n ≡ tier_of k rule)
unfolding rate_limit_tier
tier→Targets rule pattern n why e = elim (Bool-cases (rule.target_kind =ₛ "endpoint")) [
  | inl is_endpoint ↦ elim (Bool-cases (rule.target =ₛ pattern)) [
    | inl same ↦ (2, endpoint refl ((eq_iff _ _).0 is_endpoint) ((eq_iff _ _).0 same), ground arith)
    | inr other ↦ absurd (ground arith)
  ]
  | inr not_endpoint ↦ elim (Bool-cases (rule.target_kind =ₛ "prefix")) [
    | inl is_prefix ↦ elim (Bool-cases (has_prefix pattern rule.target)) [
      | inl begins ↦
          let (rest, same) = (starts_with_iff pattern rule.target).0 begins in
          (1, prefix rest refl ((eq_iff _ _).0 is_prefix) same, ground arith)
      | inr other ↦ absurd (ground arith)
    ]
    | inr not_prefix ↦ elim (Bool-cases (rule.target_kind =ₛ "global")) [
      | inl is_global ↦ (0, global refl ((eq_iff _ _).0 is_global), ground arith)
      | inr other ↦ absurd (ground arith)
    ]
  ]
]

abbrev rank_of_kind : String → ℕ
rank_of_kind kind = if kind =ₛ "endpoint" then 2 else if kind =ₛ "prefix" then 1 else 0

Targets-unique :
    (rule : RateLimit) (pattern : String) (k j : ℕ)
    → Targets rule pattern k
    → Targets rule pattern j
    → k ≡ j
Targets-unique rule pattern k j t u = rank t ∙ sym (rank u)
  where
    rank : {n : ℕ} → Targets rule pattern n → n ≡ rank_of_kind rule.target_kind
    rank (endpoint e kind _) = e ∙ ap rank_of_kind (sym kind)
    rank (prefix _ e kind _) = e ∙ ap rank_of_kind (sym kind)
    rank (global e kind) = e ∙ ap rank_of_kind (sym kind)

tier-ne-none :
    (rule : RateLimit) (pattern : String) (k : ℕ)
    → Targets rule pattern k
    → rate_limit_tier rule pattern ≢ none
unfolding rate_limit_tier
tier-ne-none rule pattern k (endpoint e kind same) =
    ground (arith, eq_iff rule.target_kind "endpoint", eq_iff rule.target pattern)
tier-ne-none rule pattern k (prefix rest e kind same) =
    let a : (rule.target_kind =ₛ "endpoint") ≡ false = ap (λ t. t =ₛ "endpoint") kind in
    let b : (rule.target_kind =ₛ "prefix") ≡ true = ap (λ t. t =ₛ "prefix") kind in
    ground (arith, (starts_with_iff pattern rule.target).1 (rest, same))
tier-ne-none rule pattern k (global e kind) =
    let a : (rule.target_kind =ₛ "endpoint") ≡ false = ap (λ t. t =ₛ "endpoint") kind in
    let b : (rule.target_kind =ₛ "prefix") ≡ false = ap (λ t. t =ₛ "prefix") kind in
    let c : (rule.target_kind =ₛ "global") ≡ true = ap (λ t. t =ₛ "global") kind in ground arith

Targets→tier :
    (rule : RateLimit) (pattern : String) (k : ℕ)
    → Targets rule pattern k
    → (why : String) × (rate_limit_tier rule pattern ≡ some (tier_of k rule, why))
Targets→tier rule pattern k t = elim (Option-cases (rate_limit_tier rule pattern)) [
  | inl missing ↦ absurd (tier-ne-none rule pattern k t missing)
  | inr ((n, why), found) ↦
      let (j, t', tier) = tier→Targets rule pattern n why found in
      let same = Targets-unique rule pattern k j t t' in
      (why, found ∙ ap (λ m. some (m, why)) (tier ∙ ap (λ i. tier_of i rule) (sym same)))
]

-- A rule gets a tier exactly when it targets the request's route pattern, and the tier is twice
-- the exactness of the target, plus one for the wildcard verb and plus two for named verbs: an
-- exact route is above a prefix, a prefix above a global rule, and named verbs above the wildcard.
pub rate_limit_tier_iff :
    (rule : RateLimit) (pattern : String) (n : ℕ)
    → ((why : String) × (rate_limit_tier rule pattern ≡ some (n, why)))
      ↔ ((k : ℕ) × Targets rule pattern k × (n ≡ tier_of k rule))
rate_limit_tier_iff rule pattern n = (
  λ (why, e). tier→Targets rule pattern n why e,
  λ (k, t, e).
      let (why, found) = Targets→tier rule pattern k t in
      (why, found ∙ ap (λ m. some (m, why)) (sym e)),
)
