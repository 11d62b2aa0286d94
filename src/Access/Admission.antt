-- ===== src/Access/Admission.antt =====
-- Which requests reach a handler through the middlewares of
-- internal/adapter/driving/http/middleware/middlewares.go and project_membership.go.
use go_rest_api_service_temp.Base.{
  ◌≡◌, ◌⊎◌, inl, inr, refl, String, Bool, true, false, not, ◌||◌, Option, none, some, arith,
  if◌then◌else◌, ◌=ₛ◌, Bool-cases, Option-cases, is_some,
}
use go_rest_api_service_temp.Revoked.{RevokedAccessTokens, is_revoked}
use go_rest_api_service_temp.Session.{Claim, absent, other, text, number, token_type_access}
use go_rest_api_service_temp.Session.Refresh.{account_active}
use go_rest_api_service_temp.Access.{
  ClaimMap, claim_of, HttpRequest, served, Handler, chain, allowed, known, Membership, admin,
  member, Services, bearer_token, verified_claims, revocation, check_token, check_access_token,
  subject, subject_text, check_authz, require_active_account, require_project_membership,
  with_rate_limit, access_chain,
}

abbrev pub is_insider : Membership → Bool
is_insider admin = true
is_insider member = true
is_insider _ = false

module _ (services : Services) (next : Handler) (r x : HttpRequest) where
  -- What lets a request through to the next handler
  authz-passed :
      check_authz services next r ≡ served x
      → (sub : String) × (subject services r ≡ some sub)
        × (services.is_authorized sub (if r.method =ₛ "HEAD" then "GET" else r.method) r.path
            ≡ allowed)
        × (next r ≡ served x)
  unfolding check_authz
  authz-passed h = elim (Option-cases (subject services r)) [
    | inl e ↦ absurd (ground (arith, e, h))
    | inr (sub, e) ↦ (sub, e, ground (arith, e, h), ground (arith, e, h))
  ]

  account-passed :
      require_active_account services next r ≡ served x
      → (user : String) × (subject services r ≡ some user)
        × (services.standing user ≡ known account_active)
        × (next r ≡ served x)
  unfolding require_active_account
  account-passed h = elim (Option-cases (subject services r)) [
    | inl e ↦ absurd (ground (arith, e, h))
    | inr (sub, e) ↦ (sub, e, ground (arith, e, h), ground (arith, e, h))
  ]

  membership-passed :
      require_project_membership services next r ≡ served x
      → ((r.project_id =ₛ "" || not (is_some (services.parse_uuid r.project_id))) ≡ true)
        ⊎ ((project : String) × (user : String) × (services.parse_uuid r.project_id ≡ some project)
            × (services.parse_uuid (subject_text r) ≡ some user)
            × (is_insider (services.membership project user) ≡ true))
  unfolding require_project_membership
  membership-passed h = elim (Bool-cases (r.project_id =ₛ "")) [
    | inl e ↦ inl (ground (arith, e))
    | inr n ↦ elim (Option-cases (services.parse_uuid r.project_id)) [
      | inl e ↦ inl (ground (arith, e))
      | inr (project, e) ↦ elim (Option-cases (services.parse_uuid (subject_text r))) [
        | inl e' ↦ absurd (ground (arith, n, e, e', h))
        | inr (user, e') ↦ inr (project, user, e, e', ground (arith, n, e, e', h))
      ]
    ]
  ]

  membership-next : require_project_membership services next r ≡ served x → next r ≡ served x
  unfolding require_project_membership
  membership-next h = ground (arith, h)

  -- What lets a request through checkToken
  token-passed :
      (type : String) (valid : String → Bool) (revoked : Option RevokedAccessTokens)
      → check_token services type valid revoked next r ≡ served x
      → (token : String) × (claims : ClaimMap) × (token_type : String) × (bearer_token services
            r.authorization
          ≡ some token)
        × (verified_claims services type token ≡ some claims)
        × (claim_of claims "token_type" ≡ text token_type)
        × (valid token_type ≡ true)
        × (revocation services revoked token_type claims ≡ none)
        × (next (record r { claims = some claims; token = token }) ≡ served x)
  unfolding check_token
  token-passed type valid revoked h = elim (Option-cases (bearer_token services r.authorization)) [
    | inl e ↦ absurd (ground (arith, e, h))
    | inr (token, e) ↦ elim (Option-cases (verified_claims services type token)) [
      | inl e' ↦ absurd (ground (arith, e, e', h))
      | inr (claims, e') ↦ of_type token claims e e' (claim_of claims "token_type") refl h
    ]
  ]
    where
      of_type :
          (token : String) (claims : ClaimMap)
          → bearer_token services r.authorization ≡ some token
          → verified_claims services type token ≡ some claims
          → (c : Claim) → claim_of claims "token_type" ≡ c
          → check_token services type valid revoked next r ≡ served x
          → (token : String) × (claims : ClaimMap) × (token_type : String) × (bearer_token services
                r.authorization
              ≡ some token)
            × (verified_claims services type token ≡ some claims)
            × (claim_of claims "token_type" ≡ text token_type)
            × (valid token_type ≡ true)
            × (revocation services revoked token_type claims ≡ none)
            × (next (record r { claims = some claims; token = token }) ≡ served x)
      of_type token claims e e' (text t) c h' = (
        token,
        claims,
        t,
        e,
        e',
        c,
        ground (arith, e, e', c, h'),
        ground (arith, e, e', c, h'),
        ground (arith, e, e', c, h'),
      )
      of_type token claims e e' absent c h' = absurd (ground (arith, e, e', c, h'))
      of_type token claims e e' other c h' = absurd (ground (arith, e, e', c, h'))
      of_type token claims e e' (number n) c h' = absurd (ground (arith, e, e', c, h'))

revocation-none :
    (services : Services) (mirror : RevokedAccessTokens) (claims : ClaimMap)
    → revocation services (some mirror) token_type_access claims ≡ none
    → (jti : String) × (id : String) × (claim_of claims "jti" ≡ text jti)
      × (services.parse_uuid jti ≡ some id)
      × (is_revoked mirror id ≡ false)
unfolding revocation
revocation-none services mirror claims h = of_claim (claim_of claims "jti") refl h
  where
    of_claim :
        (c : Claim)
        → claim_of claims "jti" ≡ c
        → revocation services (some mirror) token_type_access claims ≡ none
        → (jti : String) × (id : String) × (claim_of claims "jti" ≡ text jti)
          × (services.parse_uuid jti ≡ some id)
          × (is_revoked mirror id ≡ false)
    of_claim (text jti) c h' = elim (Option-cases (services.parse_uuid jti)) [
      | inl e ↦ absurd (ground (arith, c, e, h'))
      | inr (id, e) ↦ (jti, id, c, e, ground (arith, c, e, h'))
    ]
    of_claim absent c h' = absurd (ground (arith, c, h'))
    of_claim other c h' = absurd (ground (arith, c, h'))
    of_claim (number n) c h' = absurd (ground (arith, c, h'))

-- What a request that reaches a handler behind an access token has shown
pub record IsAdmitted (services : Services) (revoked : Option RevokedAccessTokens) (r : HttpRequest)
    : Type 0 where
  pub token : String
  pub claims : ClaimMap
  pub token_type : String
  pub user : String
  pub is_bearer : bearer_token services r.authorization ≡ some token
  pub is_verified : verified_claims services "accessToken" token ≡ some claims
  pub is_typed : claim_of claims "token_type" ≡ text token_type
  pub is_access : (token_type =ₛ token_type_access || token_type =ₛ "personal_access") ≡ true
  pub is_unrevoked : revocation services revoked token_type claims ≡ none
  pub is_user : subject services (record r { claims = some claims; token = token }) ≡ some user
  pub is_active : services.standing user ≡ known account_active
  pub is_authorized :
      services.is_authorized user (if r.method =ₛ "HEAD" then "GET" else r.method) r.path ≡ allowed
  pub is_inside :
      ((r.project_id =ₛ "" || not (is_some (services.parse_uuid r.project_id))) ≡ true)
      ⊎ ((project : String) × (member' : String) × (services.parse_uuid r.project_id ≡ some project)
          × (services.parse_uuid (subject_text (record r { claims = some claims; token = token }))
              ≡ some member')
          × (is_insider (services.membership project member') ≡ true))

-- The four middlewares of the access chain before any handler
admitted :
    (services : Services) (revoked : Option RevokedAccessTokens) (next : Handler)
    (r x : HttpRequest)
    → check_access_token services revoked
        (require_active_account services
          (check_authz services (require_project_membership services next)))
        r
      ≡ served x
    → IsAdmitted services revoked r
unfolding check_access_token
admitted services revoked next r x h =
    let inside = require_project_membership services next in
    let authorized = check_authz services inside in
    let active = require_active_account services authorized in
    let (token, claims, token_type, is_bearer, is_verified, is_typed, is_access, is_unrevoked, h₁) =
      token-passed services active r x "accessToken"
        (λ t. t =ₛ token_type_access || t =ₛ "personal_access") revoked h in
    let r' : HttpRequest = record r { claims = some claims; token = token } in
    let (user, is_user, is_active, h₂) = account-passed services authorized r' x h₁ in
    let (sub, is_sub, is_authorized, h₃) = authz-passed services inside r' x h₂ in
    let same : sub ≡ user = cc in
    record {
      token = token;
      claims = claims;
      token_type = token_type;
      user = user;
      is_bearer = is_bearer;
      is_verified = is_verified;
      is_typed = is_typed;
      is_access = is_access;
      is_unrevoked = is_unrevoked;
      is_user = is_user;
      is_active = is_active;
      is_authorized = rw same at is_authorized;
      is_inside = membership-passed services next r' x h₃;
    }

-- A request reaches a handler behind the access chain, with or without the rate limit of the second
-- stage, only if its bearer token verifies, is an access or a personal token and is not refused as
-- revoked, its subject is an active account that the policy allows the method on the path (GET for
-- HEAD), and, where the route names a project by an identifier that can be read, the account is a
-- member of it or an administrator.
pub access_chain-IsAdmitted :
    (services : Services) (revoked : Option RevokedAccessTokens)
    (limit : Option (Handler → Handler)) (r x : HttpRequest)
    → access_chain services revoked limit served r ≡ served x
    → IsAdmitted services revoked r
unfolding access_chain with_rate_limit chain
access_chain-IsAdmitted services revoked none r x h = admitted services revoked served r x h
access_chain-IsAdmitted services revoked (some limit) r x h =
    admitted services revoked (limit served) r x h

-- With the mirror of revoked tokens, a request with an access token that reaches a handler carries
-- the identifier of a token that the mirror does not refuse.
pub access_chain-is_revoked :
    (services : Services) (mirror : RevokedAccessTokens) (limit : Option (Handler → Handler))
    (r x : HttpRequest) (token : String) (claims : ClaimMap)
    → access_chain services (some mirror) limit served r ≡ served x
    → bearer_token services r.authorization ≡ some token
    → verified_claims services "accessToken" token ≡ some claims
    → claim_of claims "token_type" ≡ text token_type_access
    → (jti : String) × (id : String) × (claim_of claims "jti" ≡ text jti)
      × (services.parse_uuid jti ≡ some id)
      × (is_revoked mirror id ≡ false)
access_chain-is_revoked services mirror limit r x token claims h bearer verified typed =
    let a = access_chain-IsAdmitted services (some mirror) limit r x h in
    let same_token : a.token ≡ token = ground (arith, a.is_bearer, bearer) in
    let same_claims : a.claims ≡ claims = ground (arith, a.is_verified, verified, same_token) in
    let same_type : a.token_type ≡ token_type_access =
      ground (arith, a.is_typed, typed, same_claims) in
    revocation-none services mirror claims (ground (arith, a.is_unrevoked, same_type, same_claims))

inside-served :
    (services : Services) (r : HttpRequest)
    → ((r.project_id =ₛ "" || not (is_some (services.parse_uuid r.project_id))) ≡ true)
      ⊎ ((project : String) × (member' : String) × (services.parse_uuid r.project_id ≡ some project)
          × (services.parse_uuid (subject_text r) ≡ some member')
          × (is_insider (services.membership project member') ≡ true))
    → require_project_membership services served r ≡ served r
unfolding require_project_membership
inside-served services r (inl h) = ground (arith, h)
inside-served services r (inr (project, user, p, u, m)) = ground (arith, p, u, m)

-- Without a rate limit, every request that shows all of that reaches the handler, with the verified
-- claims and the token put on it.
pub access_chain-served :
    (services : Services) (revoked : Option RevokedAccessTokens) (r : HttpRequest)
    (a : IsAdmitted services revoked r)
    → access_chain services revoked none served r
      ≡ served (record r { claims = some a.claims; token = a.token })
unfolding access_chain with_rate_limit chain check_access_token check_token check_authz
    require_active_account subject
access_chain-served services revoked r a =
    let r' : HttpRequest = record r { claims = some a.claims; token = a.token } in
    let inside = inside-served services r' a.is_inside in
    ground (
      arith, a.is_bearer, a.is_verified, a.is_typed, a.is_access, a.is_unrevoked, a.is_user,
      a.is_active, a.is_authorized, inside,
    )
