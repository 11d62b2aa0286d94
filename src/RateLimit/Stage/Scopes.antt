-- ===== src/RateLimit/Stage/Scopes.antt =====
-- In which stage a rule is charged, and what a request carries for a scope: appliesInThisStage and
-- scopeKey against descriptions of them that do not compute.
use go_rest_api_service_temp.Base.{
  String, ◌≡◌, ◌≢◌, ◌↔◌, ◌⊎◌, inl, inr, refl, true, false, Option, none, some, arith, ◌=ₛ◌, ◌+ₛ◌,
  eq_iff, get_or, Bool-cases,
}
use go_rest_api_service_temp.RateLimit.Rule.{RateLimit, decided_pre_auth}
use go_rest_api_service_temp.RateLimit.Stage.{
  Stage, pre_auth, post_auth, Claims, HttpRequest, applies_in_this_stage, claimed, scope_key,
}

-- A rule for callers that are signed in is charged once the caller is known; another one before, if
-- its scope needs no caller, and else after.
pub data ChargedIn (stage : Stage) (rule : RateLimit) : Type 0 where
  signed_in : rule.audience ≡ "auth" → stage ≡ post_auth → ChargedIn stage rule
  before :
      rule.audience ≢ "auth"
      → (rule.scope ≡ "ip") ⊎ (rule.scope ≡ "global")
      → stage ≡ pre_auth
      → ChargedIn stage rule
  after :
      rule.audience ≢ "auth"
      → rule.scope ≢ "ip"
      → rule.scope ≢ "global"
      → stage ≡ post_auth
      → ChargedIn stage rule

-- What tells callers of a scope apart, where the request has it
pub data Carries (r : HttpRequest) (ip scope value : String) : Type 0 where
  by_ip : scope ≡ "ip" → ip ≢ "" → value ≡ "ip:" +ₛ ip → Carries r ip scope value
  by_all : scope ≡ "global" → value ≡ "global" → Carries r ip scope value
  by_user :
      (claims : Claims) (sub : String)
      → scope ≡ "user"
      → r.claims ≡ some claims
      → claims.sub ≡ some sub
      → sub ≢ ""
      → value ≡ "user:" +ₛ sub
      → Carries r ip scope value
  by_token :
      (claims : Claims) (jti : String)
      → scope ≡ "token"
      → r.claims ≡ some claims
      → claims.jti ≡ some jti
      → jti ≢ ""
      → value ≡ "token:" +ₛ jti
      → Carries r ip scope value
  by_project :
      scope ≡ "project"
      → r.project_id ≢ ""
      → value ≡ "project:" +ₛ r.project_id
      → Carries r ip scope value

differs : (s t : String) → (s =ₛ t) ≡ false → s ≢ t
differs s t other e = ground (arith, other, (eq_iff s t).1 e)

unequal_text : (s t : String) → s ≢ t → (s =ₛ t) ≡ false
unequal_text s t other = elim (Bool-cases (s =ₛ t)) [
  | inl same ↦ absurd (other ((eq_iff s t).0 same))
  | inr apart ↦ apart
]

pub ChargedIn_iff :
    (stage : Stage) (rule : RateLimit)
    → (applies_in_this_stage stage rule ≡ true) ↔ ChargedIn stage rule
unfolding applies_in_this_stage decided_pre_auth
ChargedIn_iff stage rule = (to stage, from stage)
  where
    to : (stage : Stage) → applies_in_this_stage stage rule ≡ true → ChargedIn stage rule
    to pre_auth h = elim (Bool-cases (rule.audience =ₛ "auth")) [
      | inl auth ↦ absurd (ground (arith, h, auth))
      | inr other ↦ elim (Bool-cases (rule.scope =ₛ "ip")) [
        | inl ip ↦ before (differs _ _ other) (inl ((eq_iff _ _).0 ip)) refl
        | inr not_ip ↦
            before (differs _ _ other) (inr ((eq_iff _ _).0 (ground (arith, h, other, not_ip))))
              refl
      ]
    ]
    to post_auth h = elim (Bool-cases (rule.audience =ₛ "auth")) [
      | inl auth ↦ signed_in ((eq_iff _ _).0 auth) refl
      | inr other ↦
          after (differs _ _ other) (differs _ _ (ground (arith, h, other)))
            (differs _ _ (ground (arith, h, other))) refl
    ]

    from : (stage : Stage) → ChargedIn stage rule → applies_in_this_stage stage rule ≡ true
    from stage (signed_in e late) = rw (late, (eq_iff rule.audience "auth").1 e) refl
    from stage (before other (inl ip) early) =
        rw (early, unequal_text _ _ other, (eq_iff rule.scope "ip").1 ip) refl
    from stage (before other (inr all) early) =
        let a = unequal_text rule.audience "auth" other in
        rw early (ground (arith, a, (eq_iff rule.scope "global").1 all))
    from stage (after other not_ip not_all late) =
        rw
          (
            late,
            unequal_text rule.audience "auth" other,
            unequal_text rule.scope "ip" not_ip,
            unequal_text rule.scope "global" not_all,
          )
          refl

claimed_lem :
    (label : String) (o : Option String) (value : String)
    → claimed label o ≡ some value
    → (s : String) × (o ≡ some s) × (s ≢ "") × (value ≡ label +ₛ s)
unfolding claimed
claimed_lem label none value h = absurd (ground (arith, h))
claimed_lem label (some s) value h = elim (Bool-cases (s =ₛ "")) [
  | inl blank ↦ absurd (ground (arith, h, blank))
  | inr filled ↦ (s, refl, differs s "" filled, ground (arith, h, filled))
]

claims_of :
    (field : Claims → Option String) (o : Option Claims) (s : String)
    → field (record { sub = none; jti = none }) ≡ none
    → field (get_or (record { sub = none; jti = none }) o) ≡ some s
    → (claims : Claims) × (o ≡ some claims) × (field claims ≡ some s)
claims_of field none s blank h = absurd (ground (arith, blank, h))
claims_of field (some claims) s blank h = (claims, refl, h)

pub scope_key→Carries :
    (r : HttpRequest) (ip scope value : String)
    → scope_key scope r ip ≡ some value
    → Carries r ip scope value
unfolding scope_key
scope_key→Carries r ip scope value h = elim (Bool-cases (scope =ₛ "ip")) [
  | inl is_ip ↦
      by_ip ((eq_iff _ _).0 is_ip) (differs _ _ (ground (arith, h, is_ip)))
        (ground (arith, h, is_ip))
  | inr not_ip ↦ elim (Bool-cases (scope =ₛ "global")) [
    | inl is_all ↦ by_all ((eq_iff _ _).0 is_all) (ground (arith, h, not_ip, is_all))
    | inr not_all ↦ elim (Bool-cases (scope =ₛ "user")) [
      | inl is_user ↦
          let (sub, read, filled, same) =
            claimed_lem "user:" (get_or (record { sub = none; jti = none }) r.claims).sub value
              (ground (arith, h, not_ip, not_all, is_user)) in
          let (claims, there, found) = claims_of (λ c. c.sub) r.claims sub refl read in
          by_user claims sub ((eq_iff _ _).0 is_user) there found filled same
      | inr not_user ↦ elim (Bool-cases (scope =ₛ "token")) [
        | inl is_token ↦
            let (jti, read, filled, same) =
              claimed_lem "token:" (get_or (record { sub = none; jti = none }) r.claims).jti value
                (ground (arith, h, not_ip, not_all, not_user, is_token)) in
            let (claims, there, found) = claims_of (λ c. c.jti) r.claims jti refl read in
            by_token claims jti ((eq_iff _ _).0 is_token) there found filled same
        | inr not_token ↦
            by_project ((eq_iff _ _).0 (ground (arith, h, not_ip, not_all, not_user, not_token)))
              (differs _ _ (ground (arith, h, not_ip, not_all, not_user, not_token)))
              (ground (arith, h, not_ip, not_all, not_user, not_token))
      ]
    ]
  ]
]

pub Carries→scope_key :
    (r : HttpRequest) (ip scope value : String)
    → Carries r ip scope value
    → scope_key scope r ip ≡ some value
unfolding scope_key claimed
Carries→scope_key r ip scope value (by_ip e filled v) = rw (e, unequal_text ip "" filled, v) refl
Carries→scope_key r ip scope value (by_all e v) = rw (e, v) refl
Carries→scope_key r ip scope value (by_user claims sub e there found filled v) =
    rw (e, there, found, unequal_text sub "" filled, v) refl
Carries→scope_key r ip scope value (by_token claims jti e there found filled v) =
    rw (e, there, found, unequal_text jti "" filled, v) refl
Carries→scope_key r ip scope value (by_project e filled v) =
    rw (e, unequal_text r.project_id "" filled, v) refl
