-- ===== src/Recovery.antt =====
-- The mails of internal/core/usecase/authn.go: RecoverPassword, RecoverPasswordOf, ReVerifyUser and
-- RegisterUser. The users' service, the throttle, the signer and the notifier are arguments; the
-- state holds theirs and the mails that were handed over, the last one first. What goes to the span
-- and to the log only, the reason of a silent answer, is left out.
pub mod Silence
pub mod Registration
pub mod Links
pub mod Once
use go_rest_api_service_temp.Base.{
  ℕ, String, Bool, true, false, not, ◌&&◌, ◌||◌, Option, none, some, List, [], ◌∷◌, if◌then◌else◌,
  ◌=ₛ◌, ◌+ₛ◌, ltb,
}
use go_rest_api_service_temp.Base.Int.{pos}
use go_rest_api_service_temp.Revoked.{nil_uuid}
use go_rest_api_service_temp.Accounts.{User, is_set}
use go_rest_api_service_temp.Session.{
  AuthnError, invalid_input, invalid_email, user_not_found, user_already_exists,
  too_many_recovery_requests, fault, Result, ok, error, Action, pure, fail, lift, ◌>>=◌, ◌>>◌,
  fail_if,
}
use go_rest_api_service_temp.Session.Refresh.{JwtClaims}
use go_rest_api_service_temp.Session.Login.{Throttle}

-- notifier.Recipient and the three mails, two of them with a token
pub record Recipient : Type 0 where
  pub name : String
  pub email : String

pub data Mail : Type 0 where
  account_verification : Recipient → (token : String) → Mail
  password_reset : Recipient → (token : String) → Mail
  account_exists : Recipient → Mail

-- RegisterUserInput; an identity is of an account that registers through a provider.
pub record RegisterUserInput : Type 0 where
  pub id : String
  pub first_name : String
  pub last_name : String
  pub email : String
  pub password : String
  pub disabled : Option Bool
  pub by_password : Bool
  pub identity : Option String

-- CreateUserInput, as far as RegisterUser fills it
pub record CreateUserInput : Type 0 where
  pub id : String
  pub first_name : String
  pub last_name : String
  pub email : String
  pub password : String
  pub disabled : Option Bool
  pub local_account : Bool
  pub verified : Bool
  pub identity : Option (String × String)

pub record Desk (U T : Type 0) : Type 0 where
  pub users : U
  pub throttle : T
  pub outbox : List Mail

pub record MailService (U T : Type 0) : Type 0 where
  pub validate_recovery : String → Result String
  pub validate_registration : RegisterUserInput → Result RegisterUserInput
  pub ensure_uuid_v7 : String → Result String
  pub byte_length : String → ℕ
  pub is_address : String → Bool
  pub login_throttle : Option (Throttle T)
  pub throttle_key : (purpose email : String) → String
  pub get_by_email : U → String → Result (Option User)
  pub stored_account : U → (id : String) → Result User
  pub create : U → CreateUserInput → Result Unit × U
  pub sign : JwtClaims → Result String
  pub deliver : Mail → Result Unit
  pub has_notifier : Bool
  pub issuer : String
  pub verification_duration : ℕ
  pub reset_duration : ℕ

module _ {U T : Type 0} (ref : MailService U T) where
  -- A mail that is handed over, if the notifier takes it
  unfoldable pub handed : Mail → Action (Desk U T) Unit
  handed mail s = elim (ref.deliver mail) [
    | ok _ ↦ (ok tt, record s { outbox = mail ∷ s.outbox })
    | error e ↦ (error e, s)
  ]

  abbrev pub recipient_of : User → Recipient
  recipient_of user = record { name = user.first_name +ₛ " " +ₛ user.last_name; email = user.email }

  abbrev pub mail_claims : (id email token_type : String) → (duration : ℕ) → JwtClaims
  mail_claims id email token_type duration = record {
    email = email;
    subject = id;
    issuer = ref.issuer;
    token_type = token_type;
    token_duration = pos duration;
    token_id = nil_uuid;
  }

  -- sendVerificationEmail
  unfoldable pub send_verification_email : User → Action (Desk U T) Unit
  send_verification_email user = do
    token ←
        lift
          (ref.sign (mail_claims user.id user.email "email_verification" ref.verification_duration))
    handed (account_verification (recipient_of user) token)

  -- The last part of recoverAccount
  unfoldable pub send_password_reset : User → Action (Desk U T) Unit
  send_password_reset user = do
    token ← lift (ref.sign (mail_claims user.id user.email "password_reset" ref.reset_duration))
    handed (password_reset (recipient_of user) token)

  -- A flag that is there and false
  abbrev pub is_unset : Option Bool → Bool
  is_unset none = false
  is_unset (some b) = not b

  -- recoverAccount; silentRecovery is a success with no mail.
  unfoldable pub recover_account : User → Action (Desk U T) Unit
  recover_account user =
      if not (is_set user.local_account)
      then pure tt
      else if is_unset user.verified
      then send_verification_email user
      else if is_set user.disabled
      then pure tt
      else send_password_reset user

  -- The budget of an address
  unfoldable pub recovery_attempted : (email : String) → Action (Desk U T) Unit
  recovery_attempted email s = elim ref.login_throttle [
    | none ↦ (ok tt, s)
    | some t ↦
        let (throttle, refused) = t.attempt s.throttle (ref.throttle_key "recovery" email) in
        let s' = record s { throttle = throttle } in
        elim refused [
          | none ↦ (ok tt, s')
          | some retry_after ↦ (error (too_many_recovery_requests retry_after), s')
        ]
  ]

  -- RecoverPassword, from the account that is looked up on
  unfoldable pub recover_found : Result (Option User) → Action (Desk U T) Unit
  recover_found (ok (some user)) = recover_account user
  recover_found (ok none) = pure tt
  recover_found (error user_not_found) = pure tt
  recover_found (error e) = fail e

  unfoldable pub recover_password : Option String → Action (Desk U T) Unit
  recover_password none = fail (invalid_input "input is nil")
  recover_password (some email) = do
    address ← lift (ref.validate_recovery email)
    recovery_attempted address
    λ s. recover_found (ref.get_by_email s.users address) s

  -- RecoverPasswordOf
  unfoldable pub recover_password_of : (user_id : String) → Action (Desk U T) Unit
  recover_password_of user_id s = elim (ref.stored_account s.users user_id) [
    | error e ↦ (error e, s)
    | ok user ↦
        (lift (ref.validate_recovery user.email)
            >> (recovery_attempted user.email >> recover_account user))
          s
  ]

  -- ReVerifyUser, from the account that is looked up on
  unfoldable pub reverify_found : Result (Option User) → Action (Desk U T) Unit
  reverify_found (error e) = fail e
  reverify_found (ok none) = pure tt
  reverify_found (ok (some user)) =
      if is_set user.verified || not (is_set user.local_account)
      then pure tt
      else send_verification_email user

  unfoldable pub reverify_user : (email : String) → Action (Desk U T) Unit
  reverify_user email = do
    fail_if (email =ₛ "") invalid_email
    fail_if (ltb (ref.byte_length email) 6 || ltb 254 (ref.byte_length email)) invalid_email
    fail_if (not (ref.is_address email)) invalid_email
    λ s. reverify_found (ref.get_by_email s.users email) s

  -- RegisterUser: the account that is created
  abbrev pub created_as : RegisterUserInput → CreateUserInput
  created_as input = record {
    id = input.id;
    first_name = input.first_name;
    last_name = input.last_name;
    email = input.email;
    password = input.password;
    disabled = input.disabled;
    local_account = input.by_password;
    verified = not input.by_password;
    identity = elim input.identity [ none ↦ none | some subject ↦ some (input.id, subject) ];
  }

  abbrev pub recipient_of_input : RegisterUserInput → Recipient
  recipient_of_input input = record {
    name = input.first_name +ₛ " " +ₛ input.last_name;
    email = input.email;
  }

  -- registrationTaken: a mail that fails is logged.
  unfoldable pub registration_taken : RegisterUserInput → Action (Desk U T) Unit
  registration_taken input s =
      if ref.has_notifier
      then (ok tt, (handed (account_exists (recipient_of_input input)) s).1)
      else (ok tt, s)

  -- RegisterUser, after a create that failed
  unfoldable pub registration_refused : RegisterUserInput → AuthnError → Action (Desk U T) Unit
  registration_refused input (user_already_exists id email) s =
      if not (email =ₛ "") && input.by_password
      then elim (ref.stored_account s.users input.id) [
        | ok _ ↦ (error (user_already_exists input.id ""), s)
        | error _ ↦ registration_taken input s
      ]
      else (error (user_already_exists id email), s)
  registration_refused input e s = (error e, s)

  -- RegisterUser, after a create that succeeded
  unfoldable pub registration_created : RegisterUserInput → Action (Desk U T) Unit
  registration_created input =
      if input.by_password
      then (do
        token ← lift (
            ref.sign
              (mail_claims input.id input.email "email_verification" ref.verification_duration))
        handed (account_verification (recipient_of_input input) token))
      else pure tt

  -- RegisterUser, from the create on
  unfoldable pub registered : RegisterUserInput → Action (Desk U T) Unit
  registered input s =
      let (done, users) = ref.create s.users (created_as input) in
      let s' = record s { users = users } in
      elim done [ ok _ ↦ registration_created input s' | error e ↦ registration_refused input e s' ]

  unfoldable pub register_user : Option RegisterUserInput → Action (Desk U T) Unit
  register_user none = fail (invalid_input "input is nil")
  register_user (some input) = do
    id ← lift (ref.ensure_uuid_v7 input.id)
    valid ← lift (ref.validate_registration (record input { id = id }))
    registered valid
