-- ===== src/Access.antt =====
-- The middlewares that let a request through to a handler:
-- internal/adapter/driving/http/middleware/middlewares.go (checkToken and its four uses, CheckAuthz,
-- RequireActiveAccount, Chain) and project_membership.go, and the chains of internal/app/server.go.
-- The validators of tokens, uuid.Parse, the use cases and two functions of the package strings are
-- arguments. A response is its status and its code; messages, logs and spans are left out.
pub mod Admission
use go_rest_api_service_temp.Base.{
  ℕ, String, Bool, true, false, not, ◌&&◌, ◌||◌, Option, none, some, List, [], ◌∷◌, ◌++◌,
  if◌then◌else◌, ◌=ₛ◌, ◌==◌,
}
use Prim.Native.Char.{code}
use Prim.Native.String as Chars
use go_rest_api_service_temp.Revoked.{RevokedAccessTokens, is_revoked}
use go_rest_api_service_temp.Session.{
  claim_string, Claim, absent, other, text, number, token_type_access, token_type_refresh,
}
use go_rest_api_service_temp.Session.Refresh.{AccountStanding, account_active}

-- The claims of a verified token, as the entries of a map.
abbrev pub ClaimMap : Type 0
ClaimMap = List (String × Claim)

unfoldable pub claim_of : ClaimMap → String → Claim
claim_of [] name = absent
claim_of ((k, v) ∷ claims) name = let rest = claim_of claims name in if k =ₛ name then v else rest

-- What is read of an http.Request, its context included
pub record HttpRequest : Type 0 where
  pub authorization : String
  pub method : String
  pub path : String
  pub project_id : String
  pub claims : Option ClaimMap
  pub token : String

-- A refusal, nothing where the caller has gone, or the request that a handler was given
pub data Reply : Type 0 where
  refused : (status : ℕ) → (code : String) → Reply
  unanswered : Reply
  served : HttpRequest → Reply

abbrev pub Handler : Type 0
Handler = HttpRequest → Reply

abbrev pub Middleware : Type 0
Middleware = Handler → Handler

-- Chain
unfoldable pub chain : List Middleware → Middleware
chain [] h = h
chain (mw ∷ mws) h = mw (chain mws h)

abbrev pub unauthorized : Reply
unauthorized = refused 401 ""

abbrev pub code_token_revoked : String
code_token_revoked = "token_revoked"

-- What IsAuthorized, Membership and Standing answer
pub data Authorization : Type 0 where
  allowed denied : Authorization
  authz_fault : (caller_gone : Bool) → Authorization

pub data Standing : Type 0 where
  known : AccountStanding → Standing
  standing_fault : (caller_gone : Bool) → Standing

pub data Membership : Type 0 where
  admin member outsider : Membership
  membership_fault : (status : ℕ) → (code : String) → Membership
  membership_caller_gone : Membership

pub record Services : Type 0 where
  pub validators : Option (List (String × (String → Option ClaimMap)))
  pub parse_uuid : String → Option String
  pub equal_fold : String → String → Bool
  pub trim_space : String → String
  pub standing : (user_id : String) → Standing
  pub is_authorized : (user_id action path : String) → Authorization
  pub membership : (project_id user_id : String) → Membership

-- strings.Cut at a space
unfoldable pub cut_space : String → Option (String × String)
cut_space Chars.[] = none
cut_space (Chars.◌∷◌ c s) =
    let rest = cut_space s in
    if code c == 32
    then some ("", s)
    else elim rest [ none ↦ none | some (before, after) ↦ some (Chars.◌∷◌ c before, after) ]

-- The subject's text, empty where there is none
unfoldable pub subject_text : HttpRequest → String
subject_text r = elim r.claims [ none ↦ "" | some claims ↦ claim_string (claim_of claims "sub") ]

module _ (services : Services) where
  -- The token of checkToken, in its header
  unfoldable pub bearer_token : (header : String) → Option String
  bearer_token header = if header =ₛ "" then none else elim (cut_space header) [
    | none ↦ none
    | some (scheme, credentials) ↦
        if not (services.equal_fold scheme "Bearer")
        then none
        else let token = services.trim_space credentials in if token =ₛ "" then none else some token
  ]

  unfoldable pub validator_of :
      List (String × (String → Option ClaimMap)) → String → Option (String → Option ClaimMap)
  validator_of [] type = none
  validator_of ((k, v) ∷ validators) type =
      let rest = validator_of validators type in if k =ₛ type then some v else rest

  -- The claims of checkToken, verified and not empty
  unfoldable pub verified_claims : (validator_type token : String) → Option ClaimMap
  verified_claims validator_type token = elim services.validators [
    | none ↦ none
    | some validators ↦ elim (validator_of validators validator_type) [
      | none ↦ none
      | some validate ↦ elim (validate token) [
        | none ↦ none
        | some [] ↦ none
        | some (c ∷ claims) ↦ some (c ∷ claims)
      ]
    ]
  ]

  -- The revocation check of checkToken: the code of its 401, or none where it lets the token through
  unfoldable pub revocation :
      Option RevokedAccessTokens → (token_type : String) → ClaimMap → Option String
  revocation none token_type claims = none
  revocation (some mirror) token_type claims =
      if not (token_type =ₛ token_type_access) then none else elim (claim_of claims "jti") [
        | text jti ↦ elim (services.parse_uuid jti) [
          | none ↦ some ""
          | some id ↦ if is_revoked mirror id then some code_token_revoked else none
        ]
        | _ ↦ some ""
      ]

  -- checkToken
  unfoldable pub check_token :
      (validator_type : String)
      → (validate_type : String → Bool) → Option RevokedAccessTokens
      → Middleware
  check_token validator_type validate_type revoked next r = elim (bearer_token r.authorization) [
    | none ↦ unauthorized
    | some token ↦ elim (verified_claims validator_type token) [
      | none ↦ unauthorized
      | some claims ↦ elim (claim_of claims "token_type") [
        | text token_type ↦
            if not (validate_type token_type)
            then unauthorized
            else elim (revocation revoked token_type claims) [
              | some code' ↦ refused 401 code'
              | none ↦ next (record r { claims = some claims; token = token })
            ]
        | _ ↦ unauthorized
      ]
    ]
  ]

  -- CheckAccessToken, CheckRefreshToken, CheckVerificationToken, CheckPasswordResetToken
  unfoldable pub check_access_token : Option RevokedAccessTokens → Middleware
  check_access_token revoked =
      check_token "accessToken" (λ t. t =ₛ token_type_access || t =ₛ "personal_access") revoked

  unfoldable pub check_refresh_token : Middleware
  check_refresh_token = check_token "refreshToken" (λ t. t =ₛ token_type_refresh) none

  unfoldable pub check_verification_token : Middleware
  check_verification_token = check_token "verificationToken" (λ t. t =ₛ "email_verification") none

  unfoldable pub check_password_reset_token : Middleware
  check_password_reset_token = check_token "passwordResetToken" (λ t. t =ₛ "password_reset") none

  -- The subject of the claims on a request, as an account's identifier
  unfoldable pub subject : HttpRequest → Option String
  subject r = elim r.claims [
    | none ↦ none
    | some claims ↦ elim (claim_of claims "sub") [ text sub ↦ services.parse_uuid sub | _ ↦ none ]
  ]

  -- CheckAuthz
  unfoldable pub check_authz : Middleware
  check_authz next r = elim (subject r) [
    | none ↦ unauthorized
    | some sub ↦
        let action = if r.method =ₛ "HEAD" then "GET" else r.method in
        elim (services.is_authorized sub action r.path) [
          | authz_fault true ↦ unanswered
          | authz_fault false ↦ refused 500 ""
          | denied ↦ refused 403 ""
          | allowed ↦ next r
        ]
  ]

  -- RequireActiveAccount
  unfoldable pub require_active_account : Middleware
  require_active_account next r = elim (subject r) [
    | none ↦ unauthorized
    | some user_id ↦ elim (services.standing user_id) [
      | standing_fault true ↦ unanswered
      | standing_fault false ↦ refused 500 ""
      | known account_active ↦ next r
      | known _ ↦ refused 401 code_token_revoked
    ]
  ]

  -- RequireProjectMembership; a request without claims, or a subject of another type, has the empty
  -- text for its subject.
  unfoldable pub require_project_membership : Middleware
  require_project_membership next r =
      if r.project_id =ₛ "" then next r else elim (services.parse_uuid r.project_id) [
        | none ↦ next r
        | some project ↦ elim (services.parse_uuid (subject_text r)) [
          | none ↦ unauthorized
          | some user ↦ elim (services.membership project user) [
            | membership_fault status code ↦ refused status code
            | membership_caller_gone ↦ unanswered
            | outsider ↦ refused 404 ""
            | admin ↦ next r
            | member ↦ next r
          ]
        ]
      ]

  -- The chains of the routes behind an access token, of /auth/logout and of /me, with the rate limit
  -- of the second stage where there is one
  unfoldable pub with_rate_limit : List Middleware → Option Middleware → List Middleware
  with_rate_limit mws none = mws
  with_rate_limit mws (some limit) = mws ++ (limit ∷ [])

  unfoldable pub access_chain : Option RevokedAccessTokens → Option Middleware → Middleware
  access_chain revoked limit = chain (
      with_rate_limit
        (check_access_token revoked
          ∷ require_active_account
          ∷ check_authz
          ∷ require_project_membership
          ∷ [])
        limit)

  unfoldable pub me_chain : Option RevokedAccessTokens → Option Middleware → Middleware
  me_chain revoked limit = chain (
      with_rate_limit (check_access_token revoked ∷ require_active_account ∷ check_authz ∷ [])
        limit)

  unfoldable pub logout_chain : Option Middleware → Middleware
  logout_chain limit = chain (with_rate_limit (check_access_token none ∷ check_authz ∷ []) limit)
