-- ===== src/RateLimit/Resolve/Answer.antt =====
-- What ResolveRateLimits of internal/core/domain/rate_limits_resolution.go answers: which matches,
-- and in which order.
use Prim.Native.Nat.{Ordering}
use mathlib.Core.List.{Permᴰ}
use mathlib.Core.List.Permᴰ
use go_rest_api_service_temp.Base.{
  String, ◌≡◌, refl, sym, subst, ◌∙◌, ap, ◌≢◌, ◌⊎◌, inl, inr, ◌≤◌, false, none, some, List, [], ◌∷◌,
  map, arith, ◌=ₛ◌, eq_iff, eq_refl, Bool-cases, Option-cases, All, All-In, All-of-In, In, here,
  there, In-permᴰ, In-map, In-map_inv, str_compare, str_compare-eq,
}
use go_rest_api_service_temp.Base.Sort.{
  IsOrder, IsSorted, Distinct, Distinct-permᴰ, compare-IsOrder, str_compare-IsOrder,
  then_ordering-IsOrder, on-IsOrder, flip-IsOrder, sort_func-perm, sort_func-IsSorted,
  sort_func_unique,
}
use go_rest_api_service_temp.RateLimit.Rule.{RateLimit}
use go_rest_api_service_temp.RateLimit.Resolve.{
  RateLimitRequest, RateLimitMatch, BestMap, get, put, candidate, rate_limit_beats, round, rounds,
  by_specificity, resolve_rate_limits,
}
use go_rest_api_service_temp.RateLimit.Resolve.Best.{
  picks, get-rounds, outranks, applies_in, picks-NotBeating, picks-In, picks-eq-none,
  candidate-rule,
}

-- The map has one entry for each key.
abbrev OneEach : BestMap → Type 0
OneEach [] = Unit
OneEach ((s, m) ∷ best) = (get best s ≡ none) × OneEach best

get-put-none :
    (best : BestMap) (s t : String) (m : RateLimitMatch)
    → s =ₛ t ≡ false
    → get best t ≡ none
    → get (put best s m) t ≡ none
unfolding get put
get-put-none [] s t m d e = rw d
get-put-none ((r, old) ∷ best) s t m d e =
    ground (arith, eq_iff r s, eq_iff r t, eq_iff s t, get-put-none best s t m)

put-OneEach :
    (best : BestMap) (s : String) (m : RateLimitMatch) → OneEach best → OneEach (put best s m)
unfolding put get
put-OneEach [] s m h = (refl, tt)
put-OneEach ((r, old) ∷ best) s m h = elim (Bool-cases (r =ₛ s)) [
  | inl same ↦ rw same (h.0, h.1)
  | inr other ↦ rw other (
    get-put-none best s r m (ground (arith, eq_iff r s, eq_iff s r)) h.0,
    put-OneEach best s m h.1,
  )
]

round_cases :
    (req : RateLimitRequest) (best : BestMap) (rule : RateLimit)
    → (round req best rule ≡ best)
      ⊎ ((m : RateLimitMatch) × (round req best rule ≡ put best rule.scope m))
unfolding round
round_cases req best rule = elim (Option-cases (candidate req rule)) [
  | inl passed ↦ inl (ground arith)
  | inr (m, applies) ↦ elim (Option-cases (get best rule.scope)) [
    | inl unseen ↦ inr (m, ground arith)
    | inr (c, seen) ↦ elim (Bool-cases (rate_limit_beats m.specificity rule c)) [
      | inl won ↦ inr (m, ground arith)
      | inr lost ↦ inl (ground arith)
    ]
  ]
]

round-OneEach :
    (req : RateLimitRequest) (best : BestMap) (rule : RateLimit)
    → OneEach best
    → OneEach (round req best rule)
round-OneEach req best rule h = elim (round_cases req best rule) [
  | inl same ↦ subst OneEach (sym same) h
  | inr (m, e) ↦ subst OneEach (sym e) (put-OneEach best rule.scope m h)
]

rounds-OneEach :
    (req : RateLimitRequest) (best : BestMap) (rules : List RateLimit)
    → OneEach best
    → OneEach (rounds req best rules)
unfolding rounds
rounds-OneEach req best [] h = h
rounds-OneEach req best (rule ∷ rules) h =
    rounds-OneEach req (round req best rule) rules (round-OneEach req best rule h)

get_of_In :
    (best : BestMap) (s : String) (m : RateLimitMatch)
    → OneEach best
    → In (s, m) best
    → get best s ≡ some m
unfolding get
get_of_In [] s m h i = elim i [ ]
get_of_In ((r, old) ∷ best) s m h (here e) =
    let same : s ≡ r = ap (λ (p : String × RateLimitMatch). p.0) e in
    let found : m ≡ old = ap (λ (p : String × RateLimitMatch). p.1) e in
    rw same (ground (arith, eq_refl r))
get_of_In ((r, old) ∷ best) s m h (there i) =
    let ih = get_of_In best s m h.1 i in
    elim (Bool-cases (r =ₛ s)) [
      | inl same ↦
          let gone : get best s ≡ none = subst (λ t. get best t ≡ none) ((eq_iff _ _).0 same) h.0 in
          cc
      | inr other ↦ rw other ih
    ]

In-of_get :
    (best : BestMap) (s : String) (m : RateLimitMatch) → get best s ≡ some m → In (s, m) best
unfolding get
In-of_get [] s m e = cc
In-of_get ((r, old) ∷ best) s m e = elim (Bool-cases (r =ₛ s)) [
  | inl same ↦
      let found : old ≡ m = ground arith in here (λ i. (sym ((eq_iff _ _).0 same) i, sym found i))
  | inr other ↦ there (In-of_get best s m (rw other at e))
]

-- What the match of a scope is: a rule of that scope that applies, beaten by no other.
pub record IsWinner (req : RateLimitRequest) (rules : List RateLimit) (m : RateLimitMatch)
    : Type 0 where
  pub listed : In m.rule rules
  pub applies : candidate req m.rule ≡ some m
  pub unbeaten : All (λ r. outranks req m.rule.scope m r ≡ false) rules

get-IsWinner :
    (req : RateLimitRequest) (rules : List RateLimit) (scope : String) (m : RateLimitMatch)
    → get (rounds req [] rules) scope ≡ some m
    → IsWinner req rules m × (m.rule.scope ≡ scope)
unfolding get
get-IsWinner req rules scope m e =
    let e' : picks req scope none rules ≡ some m = sym (get-rounds req [] rules scope) ∙ e in
    elim (picks-In req scope none rules m e') [
      | inl no_one ↦ absurd (ground arith)
      | inr (r, i, s, c) ↦
          let same : m.rule ≡ r = candidate-rule req r m c in
          let scoped : m.rule.scope ≡ scope = ap (λ (x : RateLimit). x.scope) same ∙ s in
          (
            record {
              listed = subst (λ x. In x rules) (sym same) i;
              applies = ap (candidate req) same ∙ c;
              unbeaten =
                  subst (λ t. All (λ r. outranks req t m r ≡ false) rules) (sym scoped)
                    (picks-NotBeating req scope none rules m e').1;
            },
            scoped,
          )
    ]

-- The most specific match first.
abbrev pub Descending : List RateLimitMatch → Type 0
Descending [] = Unit
Descending (m ∷ ms) = All (λ n. n.specificity ≤ m.specificity) ms × Descending ms

below :
    (m : RateLimitMatch) (ms : List RateLimitMatch)
    → All (λ n. by_specificity m n ≢ Ordering.gt) ms
    → All (λ n. n.specificity ≤ m.specificity) ms
below m [] h = tt
below m (n ∷ ms) h = (ground (arith, h.0), below m ms h.1)

by_specificity-IsOrder : IsOrder by_specificity
by_specificity-IsOrder =
    then_ordering-IsOrder (on-IsOrder (λ m. m.specificity) (flip-IsOrder compare-IsOrder)) (
      then_ordering-IsOrder (on-IsOrder (λ m. m.rule.scope) str_compare-IsOrder)
        (on-IsOrder (λ m. m.rule.name) str_compare-IsOrder))

abbrev pub by_scope : RateLimitMatch → RateLimitMatch → Ordering
by_scope a b = str_compare a.rule.scope b.rule.scope

-- The entries of the map carry matches of different scopes.
map-Distinct :
    (best : BestMap)
    → OneEach best
    → ((s : String) (m : RateLimitMatch) → In (s, m) best → m.rule.scope ≡ s)
    → Distinct by_scope (map (λ e. e.1) best)
map-Distinct [] h keyed = tt
map-Distinct ((s, m) ∷ best) h keyed = (
  All-of-In (λ n. by_scope m n ≢ Ordering.eq) _ apart,
  map-Distinct best h.1 (λ t n i. keyed t n (there i)),
)
  where
    apart : (n : RateLimitMatch) → In n (map (λ e. e.1) best) → by_scope m n ≢ Ordering.eq
    apart n i same =
        let ((t, w), listed, e) = In-map_inv (λ (e : String × RateLimitMatch). e.1) best n i in
        let found : get best t ≡ some w = get_of_In best t w h.1 listed in
        let scope_n : n.rule.scope ≡ t =
          ap (λ (x : RateLimitMatch). x.rule.scope) e ∙ keyed t w (there listed) in
        let scope_m : m.rule.scope ≡ s = keyed s m (here refl) in
        let t-s : t ≡ s =
          sym scope_n ∙ sym (str_compare-eq m.rule.scope n.rule.scope same) ∙ scope_m in
        let gone : get best t ≡ none = subst (λ u. get best u ≡ none) (sym t-s) h.0 in cc

Distinct-by_specificity :
    (ms : List RateLimitMatch) → Distinct by_scope ms → Distinct by_specificity ms
Distinct-by_specificity [] h = tt
Distinct-by_specificity (m ∷ ms) h = (weaken ms h.0, Distinct-by_specificity ms h.1)
  where
    weaken :
        (ns : List RateLimitMatch)
        → All (λ n. by_scope m n ≢ Ordering.eq) ns
        → All (λ n. by_specificity m n ≢ Ordering.eq) ns
    weaken [] k = tt
    weaken (n ∷ ns) k = (ground (arith, k.0), weaken ns k.1)

IsSorted-Descending : (ms : List RateLimitMatch) → IsSorted by_specificity ms → Descending ms
IsSorted-Descending [] h = tt
IsSorted-Descending (m ∷ ms) h = (below m ms h.0, IsSorted-Descending ms h.1)

module _ (rules : List RateLimit) (req : RateLimitRequest) where
  rounds-keyed :
      (s : String) (m : RateLimitMatch)
      → In (s, m) (rounds req [] rules)
      → IsWinner req rules m × (m.rule.scope ≡ s)
  rounds-keyed s m i =
      get-IsWinner req rules s m (get_of_In _ s m (rounds-OneEach req [] rules tt) i)

  rounds-Distinct : Distinct by_scope (map (λ e. e.1) (rounds req [] rules))
  rounds-Distinct =
      map-Distinct _ (rounds-OneEach req [] rules tt) (λ s m i. (rounds-keyed s m i).1)

module _ (walk : BestMap → BestMap) (walks : (best : BestMap) → Permᴰ (walk best) best)
    (rules : List RateLimit) (req : RateLimitRequest) where
  resolved-perm : Permᴰ (resolve_rate_limits walk rules req) (map (λ e. e.1) (rounds req [] rules))
  unfolding resolve_rate_limits
  resolved-perm = Permᴰ.trans (sort_func-perm by_specificity _) (Permᴰ.map (λ e. e.1) (walks _))

  -- However the map is walked, every match in the answer is the winner of its scope: a listed rule
  -- that is a candidate for the request, and that no other candidate of the scope beats.
  pub resolve-IsWinner :
      (m : RateLimitMatch) → In m (resolve_rate_limits walk rules req) → IsWinner req rules m
  resolve-IsWinner m i =
      let ((s, w), listed, e) =
        In-map_inv (λ (e : String × RateLimitMatch). e.1) _ m (In-permᴰ resolved-perm i) in
      subst (IsWinner req rules) (sym e) (rounds-keyed rules req s w listed).0

  -- Every candidate is answered for: the answer holds a match of its scope that it does not beat.
  pub resolve_answers :
      (rule : RateLimit) (c : RateLimitMatch)
      → In rule rules
      → candidate req rule ≡ some c
      → (m : RateLimitMatch) × In m (resolve_rate_limits walk rules req)
        × (m.rule.scope ≡ rule.scope)
        × (rate_limit_beats c.specificity rule m ≡ false)
  unfolding get
  resolve_answers rule c i applies =
      let same = get-rounds req [] rules rule.scope in
      elim (Option-cases (get (rounds req [] rules) rule.scope)) [
        | inl missing ↦
            let silent : applies_in req rule.scope rule ≡ false =
              All-In _ (picks-eq-none req rule.scope none rules (sym same ∙ missing)).1 i in
            absurd (ground (arith, eq_refl rule.scope))
        | inr (m, found) ↦
            let lost : outranks req rule.scope m rule ≡ false =
              All-In _ (picks-NotBeating req rule.scope none rules m (sym same ∙ found)).1 i in
            (
              m,
              In-permᴰ (Permᴰ.symm resolved-perm)
                  (In-map (λ (e : String × RateLimitMatch). e.1) (In-of_get _ rule.scope m found)),
              (get-IsWinner req rules rule.scope m found).1,
              ground (arith, eq_refl rule.scope),
            )
      ]

  -- The answer has at most one match of each scope, and the most specific comes first.
  pub resolve-Descending :
      Distinct by_scope (resolve_rate_limits walk rules req)
      × Descending (resolve_rate_limits walk rules req)
  unfolding resolve_rate_limits
  resolve-Descending = (
    Distinct-permᴰ (on-IsOrder (λ m. m.rule.scope) str_compare-IsOrder) (Permᴰ.symm resolved-perm)
        (rounds-Distinct rules req),
    IsSorted-Descending _ (sort_func-IsSorted by_specificity-IsOrder _),
  )

  -- The order in which the map is walked does not show in the answer.
  pub resolve_any_walk :
      resolve_rate_limits walk rules req ≡ resolve_rate_limits (λ best. best) rules req
  unfolding resolve_rate_limits
  resolve_any_walk = sym (
      sort_func_unique by_specificity-IsOrder (Permᴰ.symm (Permᴰ.map (λ e. e.1) (walks _)))
        (Distinct-by_specificity _ (rounds-Distinct rules req)))
