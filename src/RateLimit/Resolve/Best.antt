-- ===== src/RateLimit/Resolve/Best.antt =====
-- Lemmas on the loop of ResolveRateLimits of internal/core/domain/rate_limits_resolution.go: what it
-- leaves in the map for a scope, read as one pass over the rules.
use Prim.Native.Nat.{compare, Ordering}
use go_rest_api_service_temp.Base.{
  String, ◌≡◌, refl, sym, subst, ◌∙◌, ap, ◌≢◌, ◌↔◌, ◌⊎◌, inl, inr, Bool, true, false, Option, none,
  some, List, [], ◌∷◌, arith, if◌then◌else◌, ◌=ₛ◌, eq_iff, Bool-cases, Option-cases, is_some, All,
  In, here, there, str_compare, then_ordering,
}
use go_rest_api_service_temp.Base.Sort.{
  flip, Ordering-cases, IsOrder, lt_irrefl, compare-IsOrder, str_compare-IsOrder,
  then_ordering-IsOrder, on-IsOrder, flip-IsOrder,
}
use go_rest_api_service_temp.RateLimit.Rule.{RateLimit}
use go_rest_api_service_temp.RateLimit.Resolve.{
  RateLimitRequest, RateLimitMatch, BestMap, get, put, candidate, rate_limit_beats, round, rounds,
}

get-put :
    (best : BestMap) (s t : String) (m : RateLimitMatch)
    → get (put best s m) t ≡ (if s =ₛ t then some m else get best t)
unfolding get put
get-put [] s t m = refl
get-put ((r, old) ∷ best) s t m =
    ground (arith, eq_iff r s, eq_iff s t, eq_iff r t, get-put best s t m)

-- What one scope sees of a round.
abbrev pub pick :
    RateLimitRequest → String → Option RateLimitMatch → RateLimit → Option RateLimitMatch
pick req scope cur rule =
    if rule.scope =ₛ scope
    then elim (candidate req rule) [
      | none ↦ cur
      | some m ↦ elim cur [
        | none ↦ some m
        | some c ↦ if rate_limit_beats m.specificity rule c then some m else some c
      ]
    ]
    else cur

abbrev pub picks :
    RateLimitRequest → String → Option RateLimitMatch → List RateLimit → Option RateLimitMatch
picks req scope cur [] = cur
picks req scope cur (rule ∷ rules) = picks req scope (pick req scope cur rule) rules

get-round :
    (req : RateLimitRequest) (best : BestMap) (rule : RateLimit) (scope : String)
    → get (round req best rule) scope ≡ pick req scope (get best scope) rule
unfolding round
get-round req best rule scope = elim (Option-cases (candidate req rule)) [
  | inl passed ↦ ground arith
  | inr (m, applies) ↦ elim (Bool-cases (rule.scope =ₛ scope)) [
    | inl same ↦
        let e : get best rule.scope ≡ get best scope = ap (get best) ((eq_iff _ _).0 same) in
        ground (arith, get-put best rule.scope scope m)
    | inr other ↦ ground (arith, get-put best rule.scope scope m)
  ]
]

pub get-rounds :
    (req : RateLimitRequest) (best : BestMap) (rules : List RateLimit) (scope : String)
    → get (rounds req best rules) scope ≡ picks req scope (get best scope) rules
unfolding rounds
get-rounds req best [] scope = refl
get-rounds req best (rule ∷ rules) scope =
    get-rounds req (round req best rule) rules scope
    ∙ ap (λ c. picks req scope c rules) (get-round req best rule scope)

-- The order behind rateLimitBeats: a higher tier first, then the lesser name.
abbrev pub by_rank : RateLimitMatch → RateLimitMatch → Ordering
by_rank a b =
    then_ordering (compare b.specificity a.specificity) (str_compare a.rule.name b.rule.name)

pub by_rank-IsOrder : IsOrder by_rank
by_rank-IsOrder =
    then_ordering-IsOrder (on-IsOrder (λ m. m.specificity) (flip-IsOrder compare-IsOrder))
      (on-IsOrder (λ m. m.rule.name) str_compare-IsOrder)

pub beats_iff :
    (m : RateLimitMatch) (current : RateLimitMatch)
    → (rate_limit_beats m.specificity m.rule current ≡ true) ↔ (by_rank m current ≡ Ordering.lt)
unfolding rate_limit_beats
beats_iff m current = ground arith

pub candidate-rule :
    (req : RateLimitRequest) (rule : RateLimit) (m : RateLimitMatch)
    → candidate req rule ≡ some m
    → m.rule ≡ rule
unfolding candidate
candidate-rule req rule m e = ground arith

-- Whether a rule of the scope would be recorded in place of `m`.
abbrev pub outranks : RateLimitRequest → String → RateLimitMatch → RateLimit → Bool
outranks req scope m rule =
    if rule.scope =ₛ scope
    then elim (candidate req rule) [ none ↦ false | some c ↦ rate_limit_beats c.specificity rule m ]
    else false

abbrev pub NotBeating : Option RateLimitMatch → RateLimitMatch → Type 0
NotBeating none m = Unit
NotBeating (some c) m = by_rank c m ≢ Ordering.lt

not-lt_trans :
    (a b c : RateLimitMatch)
    → by_rank a b ≢ Ordering.lt
    → by_rank b c ≢ Ordering.lt
    → by_rank a c ≢ Ordering.lt
not-lt_trans a b c h k e =
    let o = by_rank-IsOrder in
    elim (Ordering-cases (by_rank a b)) [
      | inl l ↦ h l
      | inr (inl q) ↦ k (sym (o.eq_cong a b c q) ∙ e)
      | inr (inr g) ↦ k (o.lt_trans b a c (o.cmp-flip a b ∙ ap flip g) e)
    ]

not-beats :
    (req : RateLimitRequest) (rule : RateLimit) (x m : RateLimitMatch)
    → candidate req rule ≡ some x
    → by_rank x m ≢ Ordering.lt
    → rate_limit_beats x.specificity rule m ≡ false
not-beats req rule x m applies h =
    rw (← candidate-rule req rule x applies) (ground (arith, beats_iff x m))

does_beat :
    (req : RateLimitRequest) (rule : RateLimit) (x m : RateLimitMatch)
    → candidate req rule ≡ some x
    → rate_limit_beats x.specificity rule m ≡ true
    → by_rank x m ≡ Ordering.lt
does_beat req rule x m applies h = (beats_iff x m).0 (
    subst (λ r. rate_limit_beats x.specificity r m ≡ true) (sym (candidate-rule req rule x applies))
      h)

does-not_beat :
    (req : RateLimitRequest) (rule : RateLimit) (x m : RateLimitMatch)
    → candidate req rule ≡ some x
    → rate_limit_beats x.specificity rule m ≡ false
    → by_rank x m ≢ Ordering.lt
does-not_beat req rule x m applies h e =
    let won : rate_limit_beats x.specificity rule m ≡ true =
      subst (λ r. rate_limit_beats x.specificity r m ≡ true) (candidate-rule req rule x applies)
        ((beats_iff x m).1 e) in
    cc

module _ (req : RateLimitRequest) (scope : String) (rule : RateLimit) (m : RateLimitMatch) where
  kept :
      (cur : Option RateLimitMatch) (x : RateLimitMatch)
      → rule.scope =ₛ scope ≡ true
      → candidate req rule ≡ some x
      → NotBeating (pick req scope cur rule) m
      → NotBeating cur m × (outranks req scope m rule ≡ false)
  kept none x same applies h =
      let h' : by_rank x m ≢ Ordering.lt = rw (same, applies) at h in
      (tt, rw (same, applies) (not-beats req rule x m applies h'))
  kept (some c) x same applies h = elim (Bool-cases (rate_limit_beats x.specificity rule c)) [
    | inl won ↦
        let h' : by_rank x m ≢ Ordering.lt = rw (same, applies, won) at h in
        (
          λ l. h' (by_rank-IsOrder.lt_trans x c m (does_beat req rule x c applies won) l),
          rw (same, applies) (not-beats req rule x m applies h'),
        )
    | inr lost ↦
        let h' : by_rank c m ≢ Ordering.lt = rw (same, applies, lost) at h in
        (
          h',
          rw (same, applies)
              (not-beats req rule x m applies
                (not-lt_trans x c m (does-not_beat req rule x c applies lost) h')),
        )
  ]

  -- What the match recorded after a round does not lose to beats neither the match before it nor
  -- the rule of the round.
  pick-NotBeating :
      (cur : Option RateLimitMatch)
      → NotBeating (pick req scope cur rule) m
      → NotBeating cur m × (outranks req scope m rule ≡ false)
  pick-NotBeating cur h = elim (Bool-cases (rule.scope =ₛ scope)) [
    | inl same ↦ elim (Option-cases (candidate req rule)) [
      | inl passed ↦ (rw (same, passed) at h, rw (same, passed))
      | inr (x, applies) ↦ kept cur x same applies h
    ]
    | inr other ↦ (rw other at h, rw other)
  ]

pub picks-NotBeating :
    (req : RateLimitRequest) (scope : String) (cur : Option RateLimitMatch) (rules : List RateLimit)
    (m : RateLimitMatch)
    → picks req scope cur rules ≡ some m
    → NotBeating cur m × All (λ r. outranks req scope m r ≡ false) rules
picks-NotBeating req scope cur [] m e = rw e (lt_irrefl by_rank-IsOrder m, tt)
picks-NotBeating req scope cur (rule ∷ rules) m e =
    let (h, rest) = picks-NotBeating req scope (pick req scope cur rule) rules m e in
    let (old, this) = pick-NotBeating req scope rule m cur h in (old, (this, rest))

pick-from :
    (req : RateLimitRequest) (scope : String) (cur : Option RateLimitMatch) (rule : RateLimit)
    (m : RateLimitMatch)
    → rule.scope =ₛ scope ≡ true
    → pick req scope cur rule ≡ some m
    → (cur ≡ some m) ⊎ (candidate req rule ≡ some m)
pick-from req scope none rule m same e = ground arith
pick-from req scope (some c) rule m same e = elim (Option-cases (candidate req rule)) [
  | inl passed ↦ inl (rw (same, passed) at e)
  | inr (x, applies) ↦ elim (Bool-cases (rate_limit_beats x.specificity rule c)) [
    | inl won ↦ inr (applies ∙ rw (same, applies, won) at e)
    | inr lost ↦ inl (rw (same, applies, lost) at e)
  ]
]

-- A rule of the scope that applies to the request.
abbrev pub applies_in : RateLimitRequest → String → RateLimit → Bool
applies_in req scope rule = if rule.scope =ₛ scope then is_some (candidate req rule) else false

pick-eq-none :
    (req : RateLimitRequest) (scope : String) (cur : Option RateLimitMatch) (rule : RateLimit)
    → pick req scope cur rule ≡ none
    → (cur ≡ none) × (applies_in req scope rule ≡ false)
pick-eq-none req scope none rule e = (refl, ground arith)
pick-eq-none req scope (some c) rule e = absurd (ground arith)

-- Where the match that is left came from.
pub picks-In :
    (req : RateLimitRequest) (scope : String) (cur : Option RateLimitMatch) (rules : List RateLimit)
    (m : RateLimitMatch)
    → picks req scope cur rules ≡ some m
    → (cur ≡ some m)
      ⊎ ((r : RateLimit) × In r rules × (r.scope ≡ scope) × (candidate req r ≡ some m))
picks-In req scope cur [] m e = inl e
picks-In req scope cur (rule ∷ rules) m e =
    elim (picks-In req scope (pick req scope cur rule) rules m e) [
      | inr (r, i, s, c) ↦ inr (r, there i, s, c)
      | inl now ↦ elim (Bool-cases (rule.scope =ₛ scope)) [
        | inr other ↦ inl (rw other at now)
        | inl same ↦ elim (pick-from req scope cur rule m same now) [
          | inl old ↦ inl old
          | inr applies ↦ inr (rule, here refl, (eq_iff _ _).0 same, applies)
        ]
      ]
    ]

pub picks-eq-none :
    (req : RateLimitRequest) (scope : String) (cur : Option RateLimitMatch) (rules : List RateLimit)
    → picks req scope cur rules ≡ none
    → (cur ≡ none) × All (λ r. applies_in req scope r ≡ false) rules
picks-eq-none req scope cur [] e = (e, tt)
picks-eq-none req scope cur (rule ∷ rules) e =
    let (now, rest) = picks-eq-none req scope (pick req scope cur rule) rules e in
    let (old, this) = pick-eq-none req scope cur rule now in (old, (this, rest))
