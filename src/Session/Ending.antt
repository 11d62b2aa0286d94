-- ===== src/Session/Ending.antt =====
-- What a logout of internal/core/usecase/authn.go leaves in the repository of
-- internal/adapter/driven/repositorypg/revoked_tokens.go and in the replica's mirror.
use go_rest_api_service_temp.Base.{
  ℕ, ◌+◌, ◌≡◌, refl, sym, subst, inl, inr, String, Bool, true, false, Option, none, some, List, [],
  contains, arith, ◌=ₛ◌, eq_iff, get_or, Bool-cases,
}
use go_rest_api_service_temp.Revoked.{RevokedAccessTokens, nil_uuid, add, is_revoked, run_revoked}
use go_rest_api_service_temp.Revoked.Refusal.{add-is_revoked}
use go_rest_api_service_temp.Session.{
  Result, ok, token_type_access, token_type_refresh, is_valid_token_type, Claims, claim_string,
}
use go_rest_api_service_temp.Session.Denylist.{
  Row, Table, insert_row, inserted, revoke, revoke_chain, revoked_tokens,
}
use go_rest_api_service_temp.Session.Chain.{Chain, start, has_row, Chain-alone}
use go_rest_api_service_temp.Session.Denial.{
  insert_row-has, insert_row-new, insert_row-held, revoke_chain-ok, revoke_chain-has_row,
  revoke_chain-down,
}
use go_rest_api_service_temp.Session.Refresh.{AuthnService, claim_expiry}
use go_rest_api_service_temp.Session.Logout.{
  LogoutUserInput, revoke_claims, revoke_refresh_token, end_session, logout_user,
}

-- Whether a replica with a mirror refuses a token
abbrev pub any_revoked : Option RevokedAccessTokens → String → Bool
any_revoked none jti = false
any_revoked (some mirror) jti = is_revoked mirror jti

revoked_row : Table → (jti user_id token_type : String) → (expires_at : ℕ) → Row
revoked_row s jti user_id token_type expires_at = record {
  jti = jti;
  users_id = user_id;
  token_type = token_type;
  expires_at = expires_at;
  revoked_at = s.now;
  replaced_by = none;
}

revoke_sent :
    (s : Table) (jti user_id token_type : String) (expires_at : ℕ)
    → (jti =ₛ nil_uuid) ≡ false
    → is_valid_token_type token_type ≡ true
    → s.down ≡ none
    → revoke jti user_id token_type expires_at s ≡ (
      ok tt,
      record s { rows = (insert_row s.rows (revoked_row s jti user_id token_type expires_at)).0 },
    )
unfolding revoke inserted revoked_row
revoke_sent s jti user_id token_type expires_at filled valid up = ground (arith, filled, valid, up)

-- A row that is written outright for the first token of a chain leaves the chain or has ended it.
inserted-Chain :
    (rows : List Row) (row : Row) (x : String)
    → Chain rows row.jti x
    → Chain (insert_row rows row).0 row.jti x
inserted-Chain rows row x c = elim (Bool-cases (has_row rows row.jti)) [
  | inl has ↦ subst (λ r. Chain r row.jti x) (sym (insert_row-held rows row has)) c
  | inr new ↦ subst (λ y. Chain (insert_row rows row).0 row.jti y) (Chain-alone new c) start
]

-- When the row of a token expires, and the table after each part of its revocation
expires_at : AuthnService Table → Claims → ℕ
expires_at ref claims = get_or (ref.now + ref.refresh_token_duration) (claim_expiry claims)

after_revoke : AuthnService Table → Claims → (user_id jti : String) → Table → Table
after_revoke ref claims user_id jti s = record s {
  rows =
      (insert_row s.rows (revoked_row s jti user_id token_type_refresh (expires_at ref claims))).0;
}

after_chain : AuthnService Table → Claims → (user_id jti : String) → Table → Table
after_chain ref claims user_id jti s =
    (revoke_chain jti user_id (expires_at ref claims) (after_revoke ref claims user_id jti s)).1

module _ (ref : AuthnService Table) (claims : Claims) (user_id jti : String)
    (is_refresh : claim_string claims.token_type ≡ token_type_refresh)
    (is_own : claim_string claims.sub ≡ user_id)
    (parsed : ref.parse_uuid (claim_string claims.jti) ≡ some jti)
    (filled : (jti =ₛ nil_uuid) ≡ false) (s : Table) (up : s.down ≡ none) where
  claims_revoked :
      revoke_claims ref revoked_tokens user_id claims s
      ≡ (ok tt, after_chain ref claims user_id jti s)
  unfolding revoke_claims revoked_tokens expires_at after_revoke after_chain is_valid_token_type
      contains
  claims_revoked =
      let sent =
        revoke_sent s jti user_id token_type_refresh (expires_at ref claims) filled refl up in
      let (t, done) =
        revoke_chain-ok (after_revoke ref claims user_id jti s) jti user_id (expires_at ref claims)
          filled up in
      ground (
        arith,
        parsed,
        sent,
        done,
        (eq_iff (claim_string claims.sub) user_id).1 is_own,
        (eq_iff (claim_string claims.token_type) token_type_refresh).1 is_refresh,
      )

  after_chain-has_row :
      (x : String)
      → Chain s.rows jti x
      → has_row (after_chain ref claims user_id jti s).rows x ≡ true
  unfolding after_chain after_revoke revoked_row
  after_chain-has_row x c =
      let row = revoked_row s jti user_id token_type_refresh (expires_at ref claims) in
      revoke_chain-has_row (after_revoke ref claims user_id jti s) jti user_id
        (expires_at ref claims) x filled up (insert_row-new s.rows row)
        (inserted-Chain s.rows row x c)

  after_chain-down : (after_chain ref claims user_id jti s).down ≡ none
  unfolding after_chain after_revoke
  after_chain-down =
      revoke_chain-down (after_revoke ref claims user_id jti s) jti user_id (expires_at ref claims)
        filled up

-- The two parts of a logout, once the first has succeeded
ended :
    (ref : AuthnService Table) (validate : LogoutUserInput → Result Unit) (input : LogoutUserInput)
    (s s₁ : Table) (mirror : RevokedAccessTokens)
    → validate input ≡ ok tt
    → ref.revoked_tokens ≡ some revoked_tokens
    → (input.refresh_token =ₛ "") ≡ false
    → revoke_refresh_token ref revoked_tokens input.user_id input.refresh_token s ≡ (ok tt, s₁)
    → (input.access_token_jti =ₛ nil_uuid) ≡ false
    → s₁.down ≡ none
    → logout_user ref validate (some input) (s, some mirror) ≡ (
      ok tt,
      (
        record s₁ {
          rows =
              (insert_row s₁.rows (
                revoked_row s₁ input.access_token_jti input.user_id token_type_access
                  input.access_token_expires_at)).0;
        },
        some (add mirror input.access_token_jti input.access_token_expires_at),
      ),
    )
unfolding logout_user end_session revoked_tokens is_valid_token_type contains
ended ref validate input s s₁ mirror valid stored given first access up =
    let second =
      revoke_sent s₁ input.access_token_jti input.user_id token_type_access
        input.access_token_expires_at access refl up in
    ground (arith, valid, stored, given, first, access, second)

-- A logout of a caller's own refresh token succeeds, where the database answers, and leaves a row of
-- the denylist for each token of the session; the replica then refuses the access token that the
-- request was authorised with.
pub logout-has_row :
    (ref : AuthnService Table) (validate : LogoutUserInput → Result Unit) (input : LogoutUserInput)
    (claims : Claims) (jti x : String) (s : Table) (mirror : RevokedAccessTokens)
    → validate input ≡ ok tt
    → ref.revoked_tokens ≡ some revoked_tokens
    → s.down ≡ none
    → (input.refresh_token =ₛ "") ≡ false
    → ref.verify input.refresh_token ≡ ok claims
    → claim_string claims.token_type ≡ token_type_refresh
    → claim_string claims.sub ≡ input.user_id
    → ref.parse_uuid (claim_string claims.jti) ≡ some jti
    → (jti =ₛ nil_uuid) ≡ false
    → (input.access_token_jti =ₛ nil_uuid) ≡ false
    → Chain s.rows jti x
    → let after = logout_user ref validate (some input) (s, some mirror) in
      (after.0 ≡ ok tt)
      × (has_row after.1.0.rows x ≡ true)
      × (any_revoked after.1.1 input.access_token_jti ≡ true)
unfolding revoke_refresh_token run_revoked
logout-has_row ref validate input claims jti x s mirror valid stored up given verified is_refresh
      is_own parsed filled access c =
    let s₁ = after_chain ref claims input.user_id jti s in
    let one = claims_revoked ref claims input.user_id jti is_refresh is_own parsed filled s up in
    let first : revoke_refresh_token ref revoked_tokens input.user_id input.refresh_token s
        ≡ (ok tt, s₁) =
      ground (arith, verified, one) in
    let up₁ = after_chain-down ref claims input.user_id jti is_refresh is_own parsed filled s up in
    let held =
      after_chain-has_row ref claims input.user_id jti is_refresh is_own parsed filled s up x c in
    let row =
      revoked_row s₁ input.access_token_jti input.user_id token_type_access
        input.access_token_expires_at in
    rw (ended ref validate input s s₁ mirror valid stored given first access up₁) (
      refl,
      insert_row-has s₁.rows row x held,
      add-is_revoked mirror input.access_token_jti input.access_token_expires_at [] access refl,
    )
