-- ===== src/Recovery/Links.antt =====
-- VerifyUser and ResetPassword of internal/core/usecase/authn.go: what a mailed link does, once. The
-- users' service, the input's validation and the hash of a password are arguments; the state holds
-- the store of the revoked tokens and the users' own.
use go_rest_api_service_temp.Base.{
  ℕ, ◌*◌, ◌/◌, String, Bool, true, false, not, ◌||◌, Option, none, some, if◌then◌else◌, ltb, ◌=ₛ◌,
}
use go_rest_api_service_temp.Session.{
  invalid_jwt, user_not_found, user_already_verified, invalid_password, not_the_accounts_address,
  panicked, fault, Claims, Claim, text, number, Result, ok, error, Action, pure, fail, lift, ◌>>=◌,
  ◌>>◌, fail_if,
}
use go_rest_api_service_temp.Session.Refresh.{AuthnService}
use go_rest_api_service_temp.Session.Logout.{consume_single_use_token, spend_single_use_token}

pub record ResetPasswordInput : Type 0 where
  pub user_id : String
  pub email : String
  pub password : String
  pub token_id : String
  pub token_expires_at : ℕ

-- The account that VerifyUser reads
pub record LinkedUser : Type 0 where
  pub id : String
  pub email : String
  pub is_verified : Bool

pub record Store (S U : Type 0) : Type 0 where
  pub tokens : S
  pub users : U

pub record LinkService (S U : Type 0) : Type 0 where
  pub authn : AuthnService S
  pub validate_reset : ResetPasswordInput → Result Unit
  pub byte_length : String → ℕ
  pub hash_and_salt : String → Result String
  pub get_by_id : U → (id : String) → Result (Option LinkedUser)
  pub verify_account : (id address : String) → U → Result Unit × U
  pub reset : (id address password_hash : String) → U → Result Unit × U

-- What a verification link says: the account, the address and the second at which it expires.
pub record Link : Type 0 where
  pub user_id : String
  pub email : String
  pub expires : ℕ

module _ {S U : Type 0} where
  -- A call of the store of the tokens, and one of the users' service
  abbrev pub on_tokens : Action S Unit → Action (Store S U) Unit
  on_tokens act s = let (r, tokens) = act s.tokens in (r, record s { tokens = tokens })

  abbrev pub on_users : (U → Result Unit × U) → Action (Store S U) Unit
  on_users act s = let (r, users) = act s.users in (r, record s { users = users })

module _ {S U : Type 0} (ref : LinkService S U) where
  -- The claims of VerifyUser, checked in the order of the source
  unfoldable pub expiry_of : (user_id email : String) → Claim → Result Link
  expiry_of user_id email (number exp) =
      if ltb exp (ref.authn.now / 1000000000)
      then error (invalid_jwt "token expired" true)
      else ok (record { user_id = user_id; email = email; expires = exp })
  expiry_of user_id email _ = error (invalid_jwt "exp claim is missing" false)

  unfoldable pub address_of_link : (user_id : String) → (email exp : Claim) → Result Link
  address_of_link user_id (text email) exp = expiry_of user_id email exp
  address_of_link user_id _ exp = error (invalid_jwt "email claim is missing" false)

  unfoldable pub subject_of_link : (sub email exp : Claim) → Result Link
  subject_of_link (text sub) email exp = elim (ref.authn.parse_uuid sub) [
    | none ↦ error (fault "uuid.Parse")
    | some user_id ↦ address_of_link user_id email exp
  ]
  subject_of_link _ email exp = error panicked

  unfoldable pub link_of : Claims → Result Link
  link_of claims = elim claims.token_type [
    | text token_type ↦
        if not (token_type =ₛ "email_verification")
        then error (invalid_jwt "token_type claim is invalid" false)
        else subject_of_link claims.sub claims.email claims.exp
    | _ ↦ error (invalid_jwt "token_type claim is missing" false)
  ]

  -- VerifyUser, what the users' service answers
  unfoldable pub verification_answer : Result Unit → Result Unit
  verification_answer (error user_not_found) = ok tt
  verification_answer (error not_the_accounts_address) =
      error (invalid_jwt "email claim is invalid" false)
  verification_answer r = r

  unfoldable pub verified_account : (id address : String) → U → Result Unit × U
  verified_account id address users =
      let (r, users') = ref.verify_account id address users in (verification_answer r, users')

  -- VerifyUser, from the account that is looked up on
  unfoldable pub verify_found : Link → Result (Option LinkedUser) → Action (Store S U) Unit
  verify_found link (error user_not_found) = pure tt
  verify_found link (error e) = fail e
  verify_found link (ok none) = fail user_not_found
  verify_found link (ok (some user)) =
      if not (link.email =ₛ user.email)
      then fail (invalid_jwt "email claim is invalid" false)
      else if user.is_verified
      then fail user_already_verified
      else on_users (verified_account user.id link.email)

  unfoldable pub verify_spent : Link → Action (Store S U) Unit
  verify_spent link s = verify_found link (ref.get_by_id s.users link.user_id) s

  -- VerifyUser, with what the claims say
  unfoldable pub verify_link : Claims → Link → Action (Store S U) Unit
  verify_link claims link = do
    on_tokens (
        spend_single_use_token ref.authn claims link.user_id "email_verification"
          (link.expires * 1000000000))
    verify_spent link

  -- VerifyUser, with the claims of the token
  unfoldable pub verify_claims : Claims → Action (Store S U) Unit
  verify_claims claims = do link ← lift (link_of claims); verify_link claims link

  unfoldable pub verify_user : (token : String) → Action (Store S U) Unit
  verify_user token = do
    fail_if (token =ₛ "") (invalid_jwt "JWT token is empty" false)
    claims ← lift (ref.authn.verify token)
    verify_claims claims

  -- ResetPassword, what the users' service answers
  unfoldable pub reset_answer : Result Unit → Result Unit
  reset_answer (error user_not_found) =
      error (invalid_jwt "the link is not valid for the account" false)
  reset_answer r = r

  unfoldable pub reset_account : (id address password_hash : String) → U → Result Unit × U
  reset_account id address password_hash users =
      let (r, users') = ref.reset id address password_hash users in (reset_answer r, users')

  -- ResetPassword, once the token is spent
  unfoldable pub reset_spent : ResetPasswordInput → Action (Store S U) Unit
  reset_spent input = do
    fail_if (ltb (ref.byte_length input.password) 8 || ltb 72 (ref.byte_length input.password))
        invalid_password
    hash ← lift (ref.hash_and_salt input.password)
    on_users (reset_account input.user_id input.email hash)

  -- ResetPassword, from the token on
  unfoldable pub reset_by_token : ResetPasswordInput → Action (Store S U) Unit
  reset_by_token input = do
    on_tokens (
        consume_single_use_token ref.authn input.token_id input.user_id "password_reset"
          input.token_expires_at)
    reset_spent input

  unfoldable pub reset_password : ResetPasswordInput → Action (Store S U) Unit
  reset_password input = do
    lift (ref.validate_reset input)
    fail_if (input.email =ₛ "") (invalid_jwt "email claim is missing" false)
    reset_by_token input
