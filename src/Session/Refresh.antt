-- ===== src/Session/Refresh.antt =====
-- AuthnService.RefreshAccessToken of internal/core/usecase/authn.go, with what it calls there. The
-- signer, the users' service, uuid and the clock are parts of the service that are arguments; so is
-- the validation of the token's text. A map of claims is a record of the five that are read.
use go_rest_api_service_temp.Base.{
  ℕ, ◌-◌, ◌*◌, String, Bool, false, not, Option, none, some, if◌then◌else◌, ltb, leb, ◌=ₛ◌,
}
use go_rest_api_service_temp.Base.Int.{ℤ, pos, negsuc}
use go_rest_api_service_temp.Revoked.{nil_uuid}
use go_rest_api_service_temp.Session.{
  AuthnError, invalid_refresh_token, user_not_found, fault, panicked, Result, ok, error,
  TokenRevocation, is_rotated, token_type_access, token_type_refresh, Claim, Claims, absent, other,
  text, number, Action, pure, fail, lift, ◌>>=◌, ◌>>◌, RevokedTokens,
}

-- JWTClaims
pub record JwtClaims : Type 0 where
  pub email : String
  pub subject : String
  pub issuer : String
  pub token_type : String
  pub token_duration : ℤ
  pub token_id : String

-- AccountStanding
pub data AccountStanding : Type 0 where
  account_unknown account_active account_disabled account_missing : AccountStanding

-- The fields of User that are read
pub record User : Type 0 where
  pub id : String
  pub email : String
  pub disabled : Option Bool

pub record RefreshAccessTokenOutput : Type 0 where
  pub access_token : String
  pub refresh_token : String

-- AuthnService, on the state S of the store of revoked tokens
pub record AuthnService (S : Type 0) : Type 0 where
  pub verify : String → Result Claims
  pub sign : JwtClaims → Result String
  pub parse_uuid : String → Option String
  pub validate : String → Result Unit
  pub get_by_id : String → Result User
  pub standing : String → Result AccountStanding
  pub revoked_tokens : Option (RevokedTokens S)
  pub refresh_rotation_enabled : Bool
  pub refresh_rotation_grace : ℕ
  pub issuer : String
  pub access_token_duration : ℕ
  pub refresh_token_duration : ℕ
  pub now : ℕ
  pub new_v7 : String

-- time.Until
unfoldable pub until : (t now : ℕ) → ℤ
until t now = if ltb t now then negsuc (now - t - 1) else pos (t - now)

abbrev pub revoked_error : AuthnError
revoked_error = invalid_refresh_token "this token has been revoked"

-- claimExpiry
unfoldable pub claim_expiry : Claims → Option ℕ
claim_expiry claims = elim claims.exp [ number n ↦ some (n * 1000000000) | _ ↦ none ]

-- A read of a pointer to a Boolean that may be nil
unfoldable pub is_disabled : User → Bool
is_disabled user = elim user.disabled [ none ↦ false | some d ↦ d ]

-- The jti claim, checked
unfoldable pub jti_of : (String → Option String) → Claims → Result String
jti_of parse_uuid claims = elim claims.jti [
  | absent ↦ error (invalid_refresh_token "jti claim is missing")
  | other ↦ error panicked
  | number n ↦ error panicked
  | text s ↦
      if s =ₛ ""
      then error (invalid_refresh_token "jti claim is missing")
      else elim (parse_uuid s) [
        | none ↦ error (invalid_refresh_token "jti claim is not a uuid")
        | some id ↦ ok id
      ]
]

-- The sub claim, checked
unfoldable pub sub_of : (String → Option String) → Claims → Result String
sub_of parse_uuid claims = elim claims.sub [
  | text s ↦ elim (parse_uuid s) [ none ↦ error (fault "uuid.Parse") | some id ↦ ok id ]
  | _ ↦ error panicked
]

-- The checks of the email and token_type claims
unfoldable pub check_type : (email token_type : Claim) → Result Unit
check_type (text e) (text tt') =
    if tt' =ₛ token_type_refresh
    then ok tt
    else error (invalid_refresh_token "token_type is not a refresh token")
check_type (text e) _ = error (invalid_refresh_token "token_type claim is missing")
check_type _ _ = error (invalid_refresh_token "email claim is missing")

module _ {S : Type 0} (ref : AuthnService S) where
  -- resolveSpentRefreshToken
  unfoldable pub resolve_spent_refresh_token : RevokedTokens S → TokenRevocation → Action S String
  resolve_spent_refresh_token store spent =
      if not (is_rotated spent)
      then fail revoked_error
      else if leb (ref.now - spent.revoked_at) ref.refresh_rotation_grace
      then (do
        successor ← store.lookup spent.replaced_by
        elim successor [ none ↦ pure spent.replaced_by | some _ ↦ fail revoked_error ])
      else (do _ ← store.revoke_chain spent.jti spent.user_id spent.expires_at; fail revoked_error)

  -- The denylist of RefreshAccessToken: the identifier to issue again, or the nil one.
  unfoldable pub check_denylist : (token_id : String) → Action S String
  check_denylist token_id = elim ref.revoked_tokens [
    | none ↦ pure nil_uuid
    | some store ↦ do
      spent ← store.lookup token_id
      elim spent [ none ↦ pure nil_uuid | some r ↦ resolve_spent_refresh_token store r ]
  ]

  -- The account of RefreshAccessToken
  unfoldable pub active_user : (user_id : String) → Result User
  active_user user_id = elim (ref.get_by_id user_id) [
    | error user_not_found ↦
        error (invalid_refresh_token "the account this token was issued for no longer exists")
    | error e ↦ error e
    | ok user ↦
        if is_disabled user
        then error (invalid_refresh_token "the account this token was issued for is disabled")
        else elim (ref.standing user_id) [
          | error e ↦ error e
          | ok account_missing ↦
              error (invalid_refresh_token "the account this token was issued for no longer exists")
          | ok account_active ↦ ok user
          | ok _ ↦ error (invalid_refresh_token "the account this token was issued for is disabled")
        ]
  ]

  -- The claims of the refresh token that a user is given
  abbrev pub refresh_claims : User → (expires_at : ℕ) → (jti : String) → JwtClaims
  refresh_claims user expires_at jti = record {
    email = user.email;
    subject = user.id;
    issuer = ref.issuer;
    token_type = token_type_refresh;
    token_duration = until expires_at ref.now;
    token_id = jti;
  }

  -- rotateRefreshToken
  unfoldable pub rotate_refresh_token :
      User → Claims → (presented spent_jti reissue_jti : String) → Action S String
  rotate_refresh_token user claims presented spent_jti reissue_jti = elim ref.revoked_tokens [
    | none ↦ pure presented
    | some store ↦
        if not ref.refresh_rotation_enabled then pure presented else elim (claim_expiry claims) [
          | none ↦ fail (invalid_refresh_token "exp claim is missing")
          | some expires_at ↦
              let fresh = reissue_jti =ₛ nil_uuid in
              let new_jti = if fresh then ref.new_v7 else reissue_jti in
              do
                signed ← lift (ref.sign (refresh_claims user expires_at new_jti))
                if fresh then store.rotate spent_jti new_jti user.id expires_at else pure tt
                pure signed
        ]
  ]

  -- The claims of the access token that a user is given
  abbrev pub access_claims : User → JwtClaims
  access_claims user = record {
    email = user.email;
    subject = user.id;
    issuer = ref.issuer;
    token_type = token_type_access;
    token_duration = pos ref.access_token_duration;
    token_id = nil_uuid;
  }

  -- RefreshAccessToken, from the signing of the access token on
  unfoldable pub issue :
      User → Claims → (token token_id reissue_jti : String) → Action S RefreshAccessTokenOutput
  issue user claims token token_id reissue_jti = do
    access ← lift (ref.sign (access_claims user))
    refresh ← rotate_refresh_token user claims token token_id reissue_jti
    pure (record { access_token = access; refresh_token = refresh })

  -- RefreshAccessToken, from the reading of the subject on
  unfoldable pub renew :
      Claims → (token token_id reissue_jti : String) → Action S RefreshAccessTokenOutput
  renew claims token token_id reissue_jti = do
    user_id ← lift (sub_of ref.parse_uuid claims)
    lift (check_type claims.email claims.token_type)
    user ← lift (active_user user_id)
    issue user claims token token_id reissue_jti

  -- RefreshAccessToken
  unfoldable pub refresh_access_token : (input : Option String) → Action S RefreshAccessTokenOutput
  refresh_access_token none = fail (invalid_refresh_token "input is nil")
  refresh_access_token (some token) = do
    lift (ref.validate token)
    claims ← lift (ref.verify token)
    token_id ← lift (jti_of ref.parse_uuid claims)
    reissue_jti ← check_denylist token_id
    renew claims token token_id reissue_jti
