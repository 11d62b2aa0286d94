-- ===== src/Session.antt =====
-- Tokens and sessions: what internal/core/usecase/authn.go and internal/core/domain/authn.go share
-- with the denylist of internal/adapter/driven/repositorypg/revoked_tokens.go: the claims of a
-- token, a record of the denylist, the errors, and the port RevokedTokens as a record of
-- operations. A call is a function of the state of the store, which stays written after an error.
-- Spans, metrics and logs are left out. An identifier is the text of its UUID; a time is a number
-- of nanoseconds since 1970.
pub mod Denylist
pub mod Chain
pub mod Denial
pub mod Refresh
pub mod Renewal
pub mod Replay
pub mod Logout
pub mod Ending
pub mod SingleUse
pub mod Login
pub mod Throttles
pub mod Secrecy
use go_rest_api_service_temp.Base.{
  ℕ, ◌≡◌, ◌⊎◌, inl, inr, refl, arith, String, Bool, true, false, not, ◌||◌, Option, none, some,
  List, [], ◌∷◌, if◌then◌else◌, ◌=ₛ◌, contains,
}
use go_rest_api_service_temp.Revoked.{nil_uuid}

-- The types of the errors, with the messages that tell them apart
pub data AuthnError : Type 0 where
  invalid_input invalid_refresh_token invalid_authn_service : String → AuthnError
  invalid_jwt : String → (expired : Bool) → AuthnError
  user_not_found invalid_credentials : AuthnError
  too_many_login_attempts too_many_recovery_requests : (retry_after : ℕ) → AuthnError
  user_already_exists : (id email : String) → AuthnError
  user_already_verified invalid_password invalid_email not_the_accounts_address : AuthnError
  fault : String → AuthnError
  panicked : AuthnError

pub data Result (A : Type 0) : Type 0 where
  ok : A → Result A
  error : AuthnError → Result A

pub Result-cases :
    {A : Type 0} (r : Result A) → ((a : A) × (r ≡ ok a)) ⊎ ((e : AuthnError) × (r ≡ error e))
Result-cases (ok a) = inl (a, refl)
Result-cases (error e) = inr (e, refl)

-- TokenRevocation
pub record TokenRevocation : Type 0 where
  pub jti : String
  pub user_id : String
  pub expires_at : ℕ
  pub revoked_at : ℕ
  pub replaced_by : String

-- Rotated
unfoldable pub is_rotated : TokenRevocation → Bool
is_rotated record' = not (record'.replaced_by =ₛ nil_uuid)

-- The token types
abbrev pub token_type_access : String
token_type_access = "access"

abbrev pub token_type_refresh : String
token_type_refresh = "refresh"

abbrev token_types : List String
token_types =
    "access" ∷ "refresh" ∷ "email_verification" ∷ "password_reset" ∷ "personal_access" ∷ "Bearer"
    ∷ "idp_signin" ∷ "idp_register" ∷ "idp_link" ∷ []

-- TokenType.IsValid
unfoldable pub is_valid_token_type : String → Bool
is_valid_token_type tt' = contains token_types tt'

-- A claim of a verified token, as its JSON value.
pub data Claim : Type 0 where
  absent other : Claim
  text : String → Claim
  number : ℕ → Claim

pub record Claims : Type 0 where
  pub jti : Claim
  pub sub : Claim
  pub email : Claim
  pub token_type : Claim
  pub exp : Claim

-- claimString, and a type assertion whose second result is not read.
unfoldable pub claim_string : Claim → String
claim_string absent = ""
claim_string other = ""
claim_string (text s) = s
claim_string (number n) = ""

-- A call: its result and the state after it.
abbrev pub Action : Type 0 → Type 0 → Type 0
Action S A = S → Result A × S

module _ {S A : Type 0} where
  abbrev pub pure : A → Action S A
  pure a s = (ok a, s)

  abbrev pub fail : AuthnError → Action S A
  fail e s = (error e, s)

  abbrev pub lift : Result A → Action S A
  lift r s = (r, s)

infixl 5 ◌>>=◌ ◌>>◌
abbrev pub ◌>>=◌ : {S A B : Type 0} → Action S A → (A → Action S B) → Action S B
◌>>=◌ m f s = let (r, s') = m s in elim r [ ok a ↦ f a s' | error e ↦ (error e, s') ]

abbrev pub ◌>>◌ : {S A B : Type 0} → Action S A → Action S B → Action S B
m >> k = m >>= λ _. k

-- An early return of an error under a condition.
abbrev pub fail_if : {S : Type 0} → Bool → AuthnError → Action S Unit
fail_if c e s = (if c then error e else ok tt, s)

-- What a call that succeeds has been through
pub bind-ok :
    {S A B : Type 0} (m : Action S A) (f : A → Action S B) (s : S) (b : B) (s' : S)
    → (m >>= f) s ≡ (ok b, s')
    → (a : A) × (s₁ : S) × (m s ≡ (ok a, s₁)) × (f a s₁ ≡ (ok b, s'))
bind-ok {S} {A} {B} m f s b s' h = after (m s) refl h
  where
    after :
        (r : Result A × S)
        → m s ≡ r
        → (elim r.0 [ ok a ↦ f a r.1 | error e ↦ (error e, r.1) ]) ≡ (ok b, s')
        → (a : A) × (s₁ : S) × (m s ≡ (ok a, s₁)) × (f a s₁ ≡ (ok b, s'))
    after (ok a, s₁) e h = (a, s₁, e, h)
    after (error x, s₁) e h = absurd (cc)

-- The same where the first part does not touch the state
pub lift-ok :
    {S A B : Type 0} (r : Result A) (f : A → Action S B) (s : S) (b : B) (s' : S)
    → (lift r >>= f) s ≡ (ok b, s')
    → (a : A) × (r ≡ ok a) × (f a s ≡ (ok b, s'))
lift-ok (ok a) f s b s' h = (a, refl, h)
lift-ok (error x) f s b s' h = absurd (cc)

pub bind-error :
    {S A B : Type 0} (m : Action S A) (f : A → Action S B) (s : S) (x : AuthnError) (s' : S)
    → m s ≡ (error x, s')
    → (m >>= f) s ≡ (error x, s')
bind-error m f s x s' h = ground (arith, h)

-- The port RevokedTokens, on the state S of the store.
pub record RevokedTokens (S : Type 0) : Type 0 where
  pub revoke : (jti user_id token_type : String) → (expires_at : ℕ) → Action S Unit
  pub rotate : (old_jti new_jti user_id : String) → (expires_at : ℕ) → Action S Unit
  pub consume : (jti user_id token_type : String) → (expires_at : ℕ) → Action S Bool
  pub lookup : (jti : String) → Action S (Option TokenRevocation)
  pub revoke_chain : (jti user_id : String) → (expires_at : ℕ) → Action S String
