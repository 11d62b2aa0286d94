-- ===== src/Session/Renewal.antt =====
-- When RefreshAccessToken of internal/core/usecase/authn.go answers with new tokens.
use go_rest_api_service_temp.Base.{
  ◌-◌, ◌≡◌, ap, subst, ◌∙◌, inl, inr, String, true, false, Option, none, some, arith, leb, eq_iff,
  Option-cases,
}
use go_rest_api_service_temp.Revoked.{nil_uuid}
use go_rest_api_service_temp.Session.{
  ok, TokenRevocation, is_rotated, token_type_refresh, Claim, Claims, absent, other, text, number,
  Action, pure, lift, ◌>>=◌, ◌>>◌, RevokedTokens, bind-ok, lift-ok,
}
use go_rest_api_service_temp.Session.Refresh.{
  account_active, User, RefreshAccessTokenOutput, AuthnService, is_disabled, jti_of, sub_of,
  check_type, resolve_spent_refresh_token, check_denylist, active_user, rotate_refresh_token,
  access_claims, issue, renew, refresh_access_token,
}

check_type-ok :
    (email token_type : Claim)
    → check_type email token_type ≡ ok tt
    → token_type ≡ text token_type_refresh
unfolding check_type
check_type-ok (text e) (text t) h = ap text ((eq_iff t token_type_refresh).0 (ground (arith, h)))
check_type-ok (text e) absent h = cc
check_type-ok (text e) other h = cc
check_type-ok (text e) (number n) h = cc
check_type-ok absent t h = cc
check_type-ok other t h = cc
check_type-ok (number n) t h = cc

active_user-ok :
    {S : Type 0} (ref : AuthnService S) (user_id : String) (user : User)
    → active_user ref user_id ≡ ok user
    → (ref.get_by_id user_id ≡ ok user)
      × (is_disabled user ≡ false)
      × (ref.standing user_id ≡ ok account_active)
unfolding active_user
active_user-ok ref user_id user h = ground (arith, h)

-- What the denylist may say of a token that is renewed: there is no denylist, there is no record, or
-- the record is of a rotation within the grace period whose successor has no record.
pub data IsLive {S : Type 0} (ref : AuthnService S) (token_id : String) (s : S)
    : String → S → Type 0 where
  unchecked : ref.revoked_tokens ≡ none → IsLive ref token_id s nil_uuid s
  unspent :
      {s' : S} (store : RevokedTokens S)
      → ref.revoked_tokens ≡ some store
      → store.lookup token_id s ≡ (ok none, s')
      → IsLive ref token_id s nil_uuid s'
  retried :
      {s' : S} (store : RevokedTokens S) (spent : TokenRevocation) (s₁ : S)
      → ref.revoked_tokens ≡ some store
      → store.lookup token_id s ≡ (ok (some spent), s₁)
      → is_rotated spent ≡ true
      → leb (ref.now - spent.revoked_at) ref.refresh_rotation_grace ≡ true
      → store.lookup spent.replaced_by s₁ ≡ (ok none, s')
      → IsLive ref token_id s spent.replaced_by s'

module _ {S : Type 0} (ref : AuthnService S) where
  resolve-ok :
      (store : RevokedTokens S) (spent : TokenRevocation) (s : S) (jti : String) (s' : S)
      → resolve_spent_refresh_token ref store spent s ≡ (ok jti, s')
      → (is_rotated spent ≡ true)
        × (leb (ref.now - spent.revoked_at) ref.refresh_rotation_grace ≡ true)
        × (store.lookup spent.replaced_by s ≡ (ok none, s'))
        × (spent.replaced_by ≡ jti)
  unfolding resolve_spent_refresh_token
  resolve-ok store spent s jti s' h = ground (arith, h)

  check_denylist-IsLive :
      (token_id : String) (s : S) (jti : String) (s' : S)
      → check_denylist ref token_id s ≡ (ok jti, s')
      → IsLive ref token_id s jti s'
  unfolding check_denylist resolve_spent_refresh_token
  check_denylist-IsLive token_id s jti s' h = elim (Option-cases ref.revoked_tokens) [
    | inl e ↦
        let same : (nil_uuid, s) ≡ (jti, s') = ground (arith, e, h) in
        subst (λ (p : String × S). IsLive ref token_id s p.0 p.1) same (unchecked e)
    | inr (store, e) ↦
        let (spent, s₁, found, rest) =
          bind-ok (store.lookup token_id) (after store) s jti s' (rw e at h) in
        of_record store e spent s₁ found rest
  ]
    where
      after : RevokedTokens S → Option TokenRevocation → Action S String
      after store spent = elim spent [
        | none ↦ pure nil_uuid
        | some r ↦ resolve_spent_refresh_token ref store r
      ]

      of_record :
          (store : RevokedTokens S)
          → ref.revoked_tokens ≡ some store
          → (spent : Option TokenRevocation) (s₁ : S) → store.lookup token_id s ≡ (ok spent, s₁)
          → after store spent s₁ ≡ (ok jti, s')
          → IsLive ref token_id s jti s'
      of_record store e none s₁ found rest =
          subst (λ (p : String × S). IsLive ref token_id s p.0 p.1) (cc) (unspent store e found)
      of_record store e (some r) s₁ found rest =
          let (rotated, within, live, same) = resolve-ok store r s₁ jti s' rest in
          subst (λ j. IsLive ref token_id s j s') same
            (retried store r s₁ e found rotated within live)

  -- What a renewal rests on
  pub record IsRenewed (token : String) (s : S) (out : RefreshAccessTokenOutput) (s' : S)
      : Type 0 where
    pub claims : Claims
    pub token_id : String
    pub user_id : String
    pub reissue_jti : String
    pub user : User
    pub store_state : S
    pub is_verified : ref.verify token ≡ ok claims
    pub is_refresh : claims.token_type ≡ text token_type_refresh
    pub is_identified : jti_of ref.parse_uuid claims ≡ ok token_id
    pub is_allowed : check_denylist ref token_id s ≡ (ok reissue_jti, store_state)
    pub is_live : IsLive ref token_id s reissue_jti store_state
    pub is_subject : sub_of ref.parse_uuid claims ≡ ok user_id
    pub is_user : ref.get_by_id user_id ≡ ok user
    pub is_enabled : is_disabled user ≡ false
    pub is_active : ref.standing user_id ≡ ok account_active
    pub is_signed : ref.sign (access_claims ref user) ≡ ok out.access_token
    pub is_rotated_to :
        rotate_refresh_token ref user claims token token_id reissue_jti store_state
        ≡ (ok out.refresh_token, s')

  issue-ok :
      (user : User) (claims : Claims) (token token_id reissue_jti : String) (s : S)
      (out : RefreshAccessTokenOutput) (s' : S)
      → issue ref user claims token token_id reissue_jti s ≡ (ok out, s')
      → (ref.sign (access_claims ref user) ≡ ok out.access_token)
        × (rotate_refresh_token ref user claims token token_id reissue_jti s
            ≡ (ok out.refresh_token, s'))
  unfolding issue
  issue-ok user claims token token_id reissue_jti s out s' h =
      let rotated = rotate_refresh_token ref user claims token token_id reissue_jti in
      let (access, signed, h₁) =
        lift-ok (ref.sign (access_claims ref user)) (λ access. rotated >>= give access) s out s'
          h in
      let (refresh, s₁, e, h₂) = bind-ok rotated (give access) s out s' h₁ in
      let given : RefreshAccessTokenOutput = record {
        access_token = access;
        refresh_token = refresh;
      } in
      let same : (given, s₁) ≡ (out, s') = cc in
      (
        signed ∙ ap (λ (p : RefreshAccessTokenOutput × S). ok p.0.access_token) same,
        e ∙ ap (λ (p : RefreshAccessTokenOutput × S). (ok p.0.refresh_token, p.1)) same,
      )
    where
      give : String → String → Action S RefreshAccessTokenOutput
      give access refresh = pure (record { access_token = access; refresh_token = refresh })

  -- RefreshAccessToken answers with tokens only if the token verifies and is a refresh token, its
  -- identifier is live or is a retry within the grace period, and its subject is an account that is
  -- not disabled in the cached copy and active in the repository; the access token is signed for
  -- that account's record, not the claims.
  pub refresh-IsRenewed :
      (token : String) (s : S) (out : RefreshAccessTokenOutput) (s' : S)
      → refresh_access_token ref (some token) s ≡ (ok out, s')
      → IsRenewed token s out s'
  unfolding refresh_access_token renew issue
  refresh-IsRenewed token s out s' h =
      let (_, _, h₁) =
        lift-ok (ref.validate token) (λ _. lift (ref.verify token) >>= after_verify) s out s' h in
      let (claims, is_verified, h₂) = lift-ok (ref.verify token) after_verify s out s' h₁ in
      let (token_id, is_identified, h₃) =
        lift-ok (jti_of ref.parse_uuid claims) (after_jti claims) s out s' h₂ in
      let (reissue_jti, s₁, denied, h₄) =
        bind-ok (check_denylist ref token_id) (renew ref claims token token_id) s out s' h₃ in
      let (user_id, is_subject, h₅) =
        lift-ok (sub_of ref.parse_uuid claims) (after_sub claims token_id reissue_jti) s₁ out s'
          h₄ in
      let (_, typed, h₆) =
        lift-ok (check_type claims.email claims.token_type)
          (λ _. lift (active_user ref user_id) >>= after_user claims token_id reissue_jti) s₁ out s'
          h₅ in
      let (user, active, h₇) =
        lift-ok (active_user ref user_id) (after_user claims token_id reissue_jti) s₁ out s' h₆ in
      let (is_signed, is_rotated_to) =
        issue-ok user claims token token_id reissue_jti s₁ out s' h₇ in
      let (is_user, is_enabled, is_active) = active_user-ok ref user_id user active in
      record {
        claims = claims;
        token_id = token_id;
        user_id = user_id;
        reissue_jti = reissue_jti;
        user = user;
        store_state = s₁;
        is_verified = is_verified;
        is_refresh = check_type-ok claims.email claims.token_type typed;
        is_identified = is_identified;
        is_allowed = denied;
        is_live = check_denylist-IsLive token_id s reissue_jti s₁ denied;
        is_subject = is_subject;
        is_user = is_user;
        is_enabled = is_enabled;
        is_active = is_active;
        is_signed = is_signed;
        is_rotated_to = is_rotated_to;
      }
    where
      after_jti : Claims → String → Action S RefreshAccessTokenOutput
      after_jti claims token_id = check_denylist ref token_id >>= renew ref claims token token_id

      after_verify : Claims → Action S RefreshAccessTokenOutput
      after_verify claims = lift (jti_of ref.parse_uuid claims) >>= after_jti claims

      after_user :
          Claims → (token_id reissue_jti : String) → User → Action S RefreshAccessTokenOutput
      after_user claims token_id reissue_jti user = issue ref user claims token token_id reissue_jti

      after_sub :
          Claims → (token_id reissue_jti user_id : String) → Action S RefreshAccessTokenOutput
      after_sub claims token_id reissue_jti user_id =
          lift (check_type claims.email claims.token_type)
          >> (lift (active_user ref user_id) >>= after_user claims token_id reissue_jti)
