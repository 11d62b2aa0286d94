-- ===== src/Session/Replay.antt =====
-- A refresh token that is presented again, with RefreshAccessToken of internal/core/usecase/authn.go
-- on the repository of internal/adapter/driven/repositorypg/revoked_tokens.go.
use go_rest_api_service_temp.Base.{
  ◌-◌, ◌≡◌, refl, sym, ap, subst, ◌∙◌, String, true, false, none, some, arith, leb, ltb, ◌=ₛ◌,
  get_or, is_some,
}
use go_rest_api_service_temp.Revoked.{nil_uuid}
use go_rest_api_service_temp.Session.{
  ok, error, TokenRevocation, is_rotated, Claims, ◌>>=◌, RevokedTokens, bind-error,
}
use go_rest_api_service_temp.Session.Denylist.{
  Row, Table, row_of, record_of, unexpired, lookup, revoke_chain, revoked_tokens,
}
use go_rest_api_service_temp.Session.Chain.{Chain, has_row, row_of-found}
use go_rest_api_service_temp.Session.Renewal.{refresh-IsRenewed}
use go_rest_api_service_temp.Session.Denial.{revoke_chain-ok, revoke_chain-has_row}
use go_rest_api_service_temp.Session.Refresh.{
  User, RefreshAccessTokenOutput, AuthnService, claim_expiry, refresh_claims, rotate_refresh_token,
  revoked_error, jti_of, resolve_spent_refresh_token, check_denylist, renew, refresh_access_token,
}

lookup_sent :
    (s : Table) (jti : String)
    → (jti =ₛ nil_uuid) ≡ false
    → s.down ≡ none
    → lookup jti s ≡ (ok (unexpired s.rows s.now jti), s)
unfolding lookup
lookup_sent s jti filled up = ground (arith, filled, up)

module _ {S : Type 0} (ref : AuthnService S) (token : String) (claims : Claims) (jti : String)
    (validated : ref.validate token ≡ ok tt) (verified : ref.verify token ≡ ok claims)
    (identified : jti_of ref.parse_uuid claims ≡ ok jti) where
  refreshed :
      (s : S)
      → refresh_access_token ref (some token) s
        ≡ (check_denylist ref jti >>= renew ref claims token jti) s
  unfolding refresh_access_token
  refreshed s = rw (validated, verified, identified) refl

-- What the denylist says of a token with a record
recorded :
    {S : Type 0} (ref : AuthnService S) (store : RevokedTokens S) (jti : String) (s : S)
    (spent : TokenRevocation) (s₁ : S)
    → ref.revoked_tokens ≡ some store
    → store.lookup jti s ≡ (ok (some spent), s₁)
    → check_denylist ref jti s ≡ resolve_spent_refresh_token ref store spent s₁
unfolding check_denylist
recorded ref store jti s spent s₁ stored found = ground (arith, stored, found)

-- What the denylist says of a token with a row of a rotation
resolved :
    (ref : AuthnService Table) (s : Table) (jti : String) (row : Row)
    → ref.revoked_tokens ≡ some revoked_tokens
    → (jti =ₛ nil_uuid) ≡ false
    → s.down ≡ none
    → row_of s.rows jti ≡ some row
    → ltb s.now row.expires_at ≡ true
    → check_denylist ref jti s ≡ resolve_spent_refresh_token ref revoked_tokens (record_of row) s
unfolding revoked_tokens unexpired
resolved ref s jti row stored filled up found live =
    let answer = lookup_sent s jti filled up ∙ rw (unexpired, found, live) refl in
    recorded ref revoked_tokens jti s (record_of row) s stored answer

rotate-reissued :
    {S : Type 0} (ref : AuthnService S) (store : RevokedTokens S) (user : User) (claims : Claims)
    (token spent next : String) (s : S) (signed : String) (s' : S)
    → ref.revoked_tokens ≡ some store
    → ref.refresh_rotation_enabled ≡ true
    → (next =ₛ nil_uuid) ≡ false
    → rotate_refresh_token ref user claims token spent next s ≡ (ok signed, s')
    → (s' ≡ s)
      × (ref.sign (refresh_claims ref user (get_or 0 (claim_expiry claims)) next) ≡ ok signed)
unfolding rotate_refresh_token
rotate-reissued ref store user claims token spent next s signed s' stored enabled filled h =
    ground (arith, stored, enabled, filled, h)

-- The end of a session whose token is presented again
replayed :
    (ref : AuthnService Table) (s : Table) (row : Row) (next : String)
    → (row.jti =ₛ nil_uuid) ≡ false
    → s.down ≡ none
    → row.replaced_by ≡ some next
    → (next =ₛ nil_uuid) ≡ false
    → leb (ref.now - row.revoked_at) ref.refresh_rotation_grace ≡ false
    → resolve_spent_refresh_token ref revoked_tokens (record_of row) s
      ≡ (error revoked_error, (revoke_chain row.jti row.users_id row.expires_at s).1)
unfolding resolve_spent_refresh_token revoked_tokens is_rotated
replayed ref s row next filled up rotated named late =
    let (t, done) = revoke_chain-ok s row.jti row.users_id row.expires_at filled up in
    ground (arith, rotated, named, late, done)

-- A refresh token that was rotated and is presented after the grace period is refused, and each
-- token of its session, from itself to the last one issued, is left with a row of the denylist.
-- The token's row has not expired, and the database answers.
pub replay-has_row :
    (ref : AuthnService Table) (token : String) (claims : Claims) (jti : String) (s : Table)
    (row : Row) (next x : String)
    → ref.validate token ≡ ok tt
    → ref.verify token ≡ ok claims
    → jti_of ref.parse_uuid claims ≡ ok jti
    → ref.revoked_tokens ≡ some revoked_tokens
    → (jti =ₛ nil_uuid) ≡ false
    → s.down ≡ none
    → row_of s.rows jti ≡ some row
    → ltb s.now row.expires_at ≡ true
    → row.replaced_by ≡ some next
    → (next =ₛ nil_uuid) ≡ false
    → leb (ref.now - row.revoked_at) ref.refresh_rotation_grace ≡ false
    → Chain s.rows jti x
    → ((refresh_access_token ref (some token) s).0 ≡ error revoked_error)
      × (has_row (refresh_access_token ref (some token) s).1.rows x ≡ true)
replay-has_row ref token claims jti s row next x valid verified jti' stored filled up found live
      rotated named late c =
    let (_, key) = row_of-found s.rows jti row found in
    let filled' : (row.jti =ₛ nil_uuid) ≡ false = rw key filled in
    let e = refreshed ref token claims jti valid verified jti' s in
    let e' =
      resolved ref s jti row stored filled up found live
      ∙ replayed ref s row next filled' up rotated named late in
    let ends =
      e ∙ bind-error (check_denylist ref jti) (renew ref claims token jti) s revoked_error _ e' in
    rw ends (
      refl,
      revoke_chain-has_row s row.jti row.users_id row.expires_at x filled' up
          (ap is_some (ap (row_of s.rows) key ∙ found)) (subst (λ y. Chain s.rows y x) (sym key) c),
    )

-- The denylist lets a retry through.
retried-allowed :
    (ref : AuthnService Table) (s : Table) (row : Row) (next : String)
    → s.down ≡ none
    → row.replaced_by ≡ some next
    → (next =ₛ nil_uuid) ≡ false
    → has_row s.rows next ≡ false
    → leb (ref.now - row.revoked_at) ref.refresh_rotation_grace ≡ true
    → resolve_spent_refresh_token ref revoked_tokens (record_of row) s ≡ (ok next, s)
unfolding resolve_spent_refresh_token revoked_tokens is_rotated unexpired
retried-allowed ref s row next up rotated named unspent within =
    let answer = lookup_sent s next named up in
    ground (arith, rotated, named, within, answer, unspent)

-- A refresh token that was rotated and is presented within the grace period, while its successor is
-- still unspent, is answered without a change of the table, and the refresh token that it is
-- answered with is signed with the successor's identifier. The token's row has not expired, and the
-- database answers.
pub retry-reissues :
    (ref : AuthnService Table) (token : String) (claims : Claims) (jti : String) (s : Table)
    (row : Row) (next : String) (out : RefreshAccessTokenOutput) (s' : Table)
    → ref.verify token ≡ ok claims
    → jti_of ref.parse_uuid claims ≡ ok jti
    → ref.revoked_tokens ≡ some revoked_tokens
    → ref.refresh_rotation_enabled ≡ true
    → (jti =ₛ nil_uuid) ≡ false
    → s.down ≡ none
    → row_of s.rows jti ≡ some row
    → ltb s.now row.expires_at ≡ true
    → row.replaced_by ≡ some next
    → (next =ₛ nil_uuid) ≡ false
    → has_row s.rows next ≡ false
    → leb (ref.now - row.revoked_at) ref.refresh_rotation_grace ≡ true
    → refresh_access_token ref (some token) s ≡ (ok out, s')
    → (s' ≡ s)
      × ((user_id : String) × (user : User) × (ref.get_by_id user_id ≡ ok user)
          × (ref.sign (refresh_claims ref user (get_or 0 (claim_expiry claims)) next)
              ≡ ok out.refresh_token))
retry-reissues ref token claims jti s row next out s' verified jti' stored enabled filled up found
      live rotated named unspent within h =
    let r = refresh-IsRenewed ref token s out s' h in
    let same_claims : claims ≡ r.claims = cc in
    let same_jti : jti ≡ r.token_id = ground (arith, jti', r.is_identified, same_claims) in
    let allowed =
      resolved ref s jti row stored filled up found live
      ∙ retried-allowed ref s row next up rotated named unspent within in
    let allowed' = ap (λ j. check_denylist ref j s) (sym same_jti) ∙ allowed in
    let is_next : next ≡ r.reissue_jti = cc in
    let is_state : s ≡ r.store_state = cc in
    let (kept, signed) =
      rotate-reissued ref revoked_tokens r.user r.claims token r.token_id r.reissue_jti
        r.store_state out.refresh_token s' stored enabled (rw (← is_next) named) r.is_rotated_to in
    (kept ∙ sym is_state, (r.user_id, r.user, r.is_user, rw (same_claims, is_next) signed))
