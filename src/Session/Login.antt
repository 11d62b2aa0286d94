-- ===== src/Session/Login.antt =====
-- AuthnService.LoginUser, LoginUserByID and issueSession of internal/core/usecase/authn.go, with the
-- throttle of internal/core/port/driven/throttle/throttle.go as a record of operations on its state.
-- The users' service, the signer, bcrypt and the hash of a key are arguments.
use go_rest_api_service_temp.Base.{
  ℕ, String, Bool, true, false, ◌&&◌, Option, none, some, if◌then◌else◌, ◌+ₛ◌,
}
use go_rest_api_service_temp.Base.Int.{pos}
use go_rest_api_service_temp.Revoked.{nil_uuid}
use go_rest_api_service_temp.Session.{
  invalid_input, invalid_credentials, user_not_found, too_many_login_attempts, fault, Result, ok,
  error, token_type_access, token_type_refresh, Action, fail, lift, ◌>>=◌, ◌>>◌,
}
use go_rest_api_service_temp.Session.Refresh.{JwtClaims, AccountStanding, account_active}

-- Throttle: an attempt, refused with the time to wait, and the return of the budget
pub record Throttle (T : Type 0) : Type 0 where
  pub attempt : T → (key : String) → T × Option ℕ
  pub succeed : T → (key : String) → T

-- The fields of User that a login reads
pub record LoginUser : Type 0 where
  pub id : String
  pub email : String
  pub disabled : Option Bool
  pub local_account : Option Bool
  pub password_hash : String

-- LoginUserInput; the method is "password" or an identity provider's.
pub record LoginUserInput : Type 0 where
  pub email : String
  pub password : String
  pub is_password : Bool

-- What SelectAuthz answers under the key "permissions"
pub data Permissions (R : Type 0) : Type 0 where
  no_permissions not_a_map : Permissions R
  resources : R → Permissions R

pub record LoginUserOutput (R : Type 0) : Type 0 where
  pub user_id : String
  pub access_token : String
  pub refresh_token : String
  pub granted : R

pub record LoginService (T R : Type 0) : Type 0 where
  pub validate : LoginUserInput → Result Unit
  pub normalize : String → String
  pub hash_key : String → String
  pub login_throttle : Option (Throttle T)
  pub get_by_email_for_auth : String → Result LoginUser
  pub get_by_id : String → Result LoginUser
  pub standing : String → Result AccountStanding
  pub compare_passwords : (hash password : String) → Bool
  pub sign : JwtClaims → Result String
  pub issuer : String
  pub access_token_duration : ℕ
  pub refresh_token_duration : ℕ
  pub select_authz : String → Result (Permissions R)
  pub no_resources : R

module _ {T R : Type 0} (ref : LoginService T R) where
  -- throttleKey
  unfoldable pub throttle_key : (purpose email : String) → String
  throttle_key purpose email = ref.hash_key (purpose +ₛ ":" +ₛ ref.normalize email)

  -- A session's token
  abbrev pub token_of : LoginUser → (token_type : String) → (duration : ℕ) → JwtClaims
  token_of user token_type duration = record {
    email = user.email;
    subject = user.id;
    issuer = ref.issuer;
    token_type = token_type;
    token_duration = pos duration;
    token_id = nil_uuid;
  }

  -- issueSession
  unfoldable pub issue_session : LoginUser → Result (LoginUserOutput R)
  issue_session user = elim (ref.sign (token_of user token_type_access ref.access_token_duration)) [
    | error e ↦ error e
    | ok access ↦ elim (ref.sign (token_of user token_type_refresh ref.refresh_token_duration)) [
      | error e ↦ error e
      | ok refresh ↦ elim (ref.select_authz user.id) [
        | error e ↦ error e
        | ok not_a_map ↦ error (fault "failed to cast permissions to map")
        | ok no_permissions ↦ ok (record {
          user_id = user.id;
          access_token = access;
          refresh_token = refresh;
          granted = ref.no_resources;
        })
        | ok (resources granted) ↦ ok (record {
          user_id = user.id;
          access_token = access;
          refresh_token = refresh;
          granted = granted;
        })
      ]
    ]
  ]

  -- The cases of LoginUser once an account was found: whether it may sign in
  unfoldable pub is_proven : LoginUserInput → LoginUser → Bool
  is_proven input user = elim user.disabled [
    | some true ↦ false
    | _ ↦ elim user.local_account [
      | none ↦ false
      | some local_account ↦
          if input.is_password
          then local_account && ref.compare_passwords user.password_hash input.password
          else true
    ]
  ]

  -- The part of LoginUser between the two calls of the throttle
  unfoldable pub authenticated : LoginUserInput → Result LoginUser
  authenticated input = elim (ref.get_by_email_for_auth input.email) [
    | error user_not_found ↦ error invalid_credentials
    | error e ↦ error e
    | ok user ↦ if is_proven input user then ok user else error invalid_credentials
  ]

  abbrev pub attempted : (key : String) → Action T Unit
  attempted key s = elim ref.login_throttle [
    | none ↦ (ok tt, s)
    | some t ↦
        let (s', refused) = t.attempt s key in
        elim refused [
          | none ↦ (ok tt, s')
          | some retry_after ↦ (error (too_many_login_attempts retry_after), s')
        ]
  ]

  abbrev pub restored : (key : String) → Action T Unit
  restored key s = elim ref.login_throttle [ none ↦ (ok tt, s) | some t ↦ (ok tt, t.succeed s key) ]

  -- LoginUser
  unfoldable pub login_user : Option LoginUserInput → Action T (LoginUserOutput R)
  login_user none = fail (invalid_input "input is nil")
  login_user (some input) = do
    lift (ref.validate input)
    attempted (throttle_key "login" input.email)
    user ← lift (authenticated input)
    restored (throttle_key "login" input.email)
    lift (issue_session user)

  -- LoginUserByID
  unfoldable pub login_user_by_id :
      (user_id : String) → (is_password : Bool) → Result (LoginUserOutput R)
  login_user_by_id user_id is_password =
      if is_password
      then error (invalid_input "LoginUserByID does not verify passwords")
      else elim (ref.get_by_id user_id) [
        | error e ↦ error e
        | ok user ↦ elim (ref.standing user_id) [
          | error e ↦ error e
          | ok account_active ↦ elim user.disabled [
            | some true ↦ error invalid_credentials
            | _ ↦ issue_session user
          ]
          | ok _ ↦ error invalid_credentials
        ]
      ]
