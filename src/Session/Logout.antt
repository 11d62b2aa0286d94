-- ===== src/Session/Logout.antt =====
-- AuthnService.LogoutUser of internal/core/usecase/authn.go and its revokeRefreshToken, and the
-- single-use tokens of consumeSingleUseToken. The state is that of the store and the replica's
-- mirror of revoked access tokens, where there is one. The entries of the cache that a logout drops
-- are left out: their failure is only logged.
use go_rest_api_service_temp.Base.{
  ℕ, ◌+◌, String, true, false, not, Option, none, some, if◌then◌else◌, ◌=ₛ◌, get_or,
}
use go_rest_api_service_temp.Revoked.{RevokedAccessTokens, nil_uuid, add}
use go_rest_api_service_temp.Session.{
  AuthnError, invalid_refresh_token, invalid_jwt, invalid_input, invalid_authn_service, Result, ok,
  error, token_type_access, token_type_refresh, Claims, claim_string, Action, pure, fail, fail_if,
  lift, ◌>>=◌, ◌>>◌, RevokedTokens,
}
use go_rest_api_service_temp.Session.Refresh.{AuthnService, claim_expiry}

-- LogoutUserInput
pub record LogoutUserInput : Type 0 where
  pub user_id : String
  pub refresh_token : String
  pub access_token_jti : String
  pub access_token_expires_at : ℕ

abbrev pub cannot_verify : AuthnError
cannot_verify =
    invalid_refresh_token
      "the token supplied to logout could not be verified, so the session was not ended"

module _ {S : Type 0} (ref : AuthnService S) where
  -- revokeRefreshToken, with the claims of the token
  unfoldable pub revoke_claims : RevokedTokens S → (user_id : String) → Claims → Action S Unit
  revoke_claims store user_id claims = do
    fail_if (not (claim_string claims.token_type =ₛ token_type_refresh))
        (invalid_refresh_token "the token supplied to logout is not a refresh token")
    fail_if (not (claim_string claims.sub =ₛ user_id))
        (invalid_refresh_token "the token supplied to logout belongs to a different account")
    elim (ref.parse_uuid (claim_string claims.jti)) [
      | none ↦ fail (invalid_refresh_token "jti claim is not a uuid")
      | some jti ↦
          let expires_at = get_or (ref.now + ref.refresh_token_duration) (claim_expiry claims) in
          do
            store.revoke jti user_id token_type_refresh expires_at
            _ ← store.revoke_chain jti user_id expires_at
            pure tt
    ]

  -- revokeRefreshToken
  unfoldable pub revoke_refresh_token :
      RevokedTokens S → (user_id refresh_token : String) → Action S Unit
  revoke_refresh_token store user_id refresh_token = elim (ref.verify refresh_token) [
    | ok claims ↦ revoke_claims store user_id claims
    | error (invalid_jwt _ true) ↦ pure tt
    | error _ ↦ fail cannot_verify
  ]

  -- A call of the store beside the mirror
  abbrev pub on_store : {A : Type 0} → Action S A → Action (S × Option RevokedAccessTokens) A
  on_store m s = let (r, s') = m s.0 in (r, (s', s.1))

  -- Add, where the service has a mirror
  abbrev pub mirrored :
      (jti : String) → (expires_at : ℕ) → Action (S × Option RevokedAccessTokens) Unit
  mirrored jti expires_at s =
      (ok tt, (s.0, elim s.1 [ none ↦ none | some mirror ↦ some (add mirror jti expires_at) ]))

  -- LogoutUser on a store
  unfoldable pub end_session :
      RevokedTokens S → LogoutUserInput → Action (S × Option RevokedAccessTokens) Unit
  end_session store input = do
    if input.refresh_token =ₛ ""
        then pure tt
        else on_store (revoke_refresh_token store input.user_id input.refresh_token)
    if input.access_token_jti =ₛ nil_uuid then pure tt else (do
      on_store (
          store.revoke input.access_token_jti input.user_id token_type_access
            input.access_token_expires_at)
      mirrored input.access_token_jti input.access_token_expires_at)

  -- LogoutUser; the validation of the input is an argument.
  unfoldable pub logout_user :
      (validate : LogoutUserInput → Result Unit)
      → Option LogoutUserInput
      → Action (S × Option RevokedAccessTokens) Unit
  logout_user validate none = fail (invalid_input "input is nil")
  logout_user validate (some input) = do
    lift (validate input)
    elim ref.revoked_tokens [ none ↦ pure tt | some store ↦ end_session store input ]

  -- consumeSingleUseToken
  unfoldable pub consume_single_use_token :
      (jti user_id token_type : String) → (expires_at : ℕ) → Action S Unit
  consume_single_use_token jti user_id token_type expires_at = elim ref.revoked_tokens [
    | none ↦ fail (invalid_authn_service "single-use tokens need a revoked-token store")
    | some store ↦ do
      fail_if (jti =ₛ nil_uuid) (invalid_jwt "jti claim is missing" false)
      first_use ← store.consume jti user_id token_type expires_at
      fail_if (not first_use) (invalid_jwt "token already used" false)
  ]

  -- spendSingleUseToken
  unfoldable pub spend_single_use_token :
      Claims → (user_id token_type : String) → (expires_at : ℕ) → Action S Unit
  spend_single_use_token claims user_id token_type expires_at =
      elim (ref.parse_uuid (claim_string claims.jti)) [
        | none ↦ fail (invalid_jwt "jti claim is missing" false)
        | some jti ↦ consume_single_use_token jti user_id token_type expires_at
      ]
