-- ===== src/Recovery/Once.antt =====
-- The links of internal/core/usecase/authn.go on the repository of the revoked tokens: one that was
-- accepted is not accepted again.
use go_rest_api_service_temp.Base.{
  ℕ, ◌*◌, ◌≡◌, ◌≢◌, refl, sym, ap, ◌∙◌, String, Bool, true, false, some, List, arith, ltb, any, inl,
  inr, ◌=ₛ◌, Option-cases,
}
use go_rest_api_service_temp.Session.{
  AuthnError, fail_if, Claims, Result, ok, Action, ◌>>◌, bind-ok, lift-ok, Result-cases,
  claim_string, invalid_jwt,
}
use go_rest_api_service_temp.Session.Denylist.{Table, revoked_tokens}
use go_rest_api_service_temp.Session.Logout.{consume_single_use_token, spend_single_use_token}
use go_rest_api_service_temp.Session.SingleUse.{Op, perform_all, reaches, spent_once}
use go_rest_api_service_temp.Recovery.Links.{
  ResetPasswordInput, Store, LinkService, Link, on_tokens, on_users, reset_spent, reset_by_token,
  verify_link, reset_password, link_of, verify_spent, verify_found, verify_claims,
}

module _ {U : Type 0} (ref : LinkService Table U) where
  -- A call of the users' service leaves the tokens alone.
  on_users-tokens :
      (act : U → Result Unit × U) (s : Store Table U) → (on_users act s).1.tokens ≡ s.tokens
  on_users-tokens act s = refl

  reset_spent-tokens :
      (input : ResetPasswordInput) (s : Store Table U)
      → (reset_spent ref input s).1.tokens ≡ s.tokens
  unfolding reset_spent
  reset_spent-tokens input s = elim (Result-cases (ref.hash_and_salt input.password)) [
    | inl (hash, made) ↦ ground (arith, made)
    | inr (e, broken) ↦ ground (arith, broken)
  ]

  verify_spent-tokens :
      (link : Link) (s : Store Table U) → (verify_spent ref link s).1.tokens ≡ s.tokens
  unfolding verify_spent verify_found
  verify_spent-tokens link s = ground arith

  -- A call on the tokens that succeeds, followed by one that leaves them alone
  on_tokens-through :
      (act : Action Table Unit) (next : Action (Store Table U) Unit) (s s' : Store Table U)
      → ((s : Store Table U) → (next s).1.tokens ≡ s.tokens)
      → (on_tokens act >> next) s ≡ (ok tt, s')
      → act s.tokens ≡ (ok tt, s'.tokens)
  on_tokens-through act next s s' kept h =
      let (_, s₁, done, rest) = bind-ok (on_tokens act) (λ _. next) s tt s' h in
      let tokens : s'.tokens ≡ (act s.tokens).1 =
        ap (λ r. r.1.tokens) (sym rest) ∙ kept s₁ ∙ ap (λ r. r.1.tokens) (sym done) in
      λ i. (ap (λ r. r.0) done i, sym tokens i)

  -- An early return that was not taken
  not_failed :
      (b : Bool) (e : AuthnError) (next : Action (Store Table U) Unit) (s s' : Store Table U)
      → (fail_if b e >> next) s ≡ (ok tt, s')
      → next s ≡ (ok tt, s')
  not_failed true e next s s' h = absurd (ground (arith, h))
  not_failed false e next s s' h = h

  -- A reset that is accepted has spent its token.
  reset-spends :
      (input : ResetPasswordInput) (s s' : Store Table U)
      → reset_password ref input s ≡ (ok tt, s')
      → consume_single_use_token ref.authn input.token_id input.user_id "password_reset"
          input.token_expires_at s.tokens
        ≡ (ok tt, s'.tokens)
  unfolding reset_password reset_by_token
  reset-spends input s s' h =
      let named =
        lift-ok (ref.validate_reset input)
          (λ _.
            fail_if (input.email =ₛ "") (invalid_jwt "email claim is missing" false)
            >> reset_by_token ref input)
          s tt s' h in
      let spends : reset_by_token ref input s ≡ (ok tt, s') =
        not_failed (input.email =ₛ "") (invalid_jwt "email claim is missing" false)
          (reset_by_token ref input) s s' (named.2) in
      on_tokens-through
        (consume_single_use_token ref.authn input.token_id input.user_id "password_reset"
          input.token_expires_at)
        (reset_spent ref input) s s' (reset_spent-tokens input) spends

  -- So has a verification, the token of its claims.
  verification-spends :
      (claims : Claims) (s s' : Store Table U)
      → verify_claims ref claims s ≡ (ok tt, s')
      → (link : Link) × (link_of ref claims ≡ ok link)
        × (spend_single_use_token ref.authn claims link.user_id "email_verification"
              (link.expires * 1000000000)
              s.tokens
            ≡ (ok tt, s'.tokens))
  unfolding verify_claims verify_link
  verification-spends claims s s' h =
      let (link, read, rest) = lift-ok (link_of ref claims) (verify_link ref claims) s tt s' h in
      (
        link,
        read,
        on_tokens-through
            (spend_single_use_token ref.authn claims link.user_id "email_verification"
              (link.expires * 1000000000))
            (verify_spent ref link) s s' (verify_spent-tokens link) rest,
      )

  spent_jti :
      (claims : Claims) (user_id token_type : String) (expires_at : ℕ) (s s' : Table)
      → spend_single_use_token ref.authn claims user_id token_type expires_at s ≡ (ok tt, s')
      → (jti : String) × (ref.authn.parse_uuid (claim_string claims.jti) ≡ some jti)
        × (consume_single_use_token ref.authn jti user_id token_type expires_at s ≡ (ok tt, s'))
  unfolding spend_single_use_token
  spent_jti claims user_id token_type expires_at s s' h =
      elim (Option-cases (ref.authn.parse_uuid (claim_string claims.jti))) [
        | inl missing ↦ absurd (ground (arith, h, missing))
        | inr (jti, found) ↦ (jti, found, ground (arith, h, found))
      ]

  module _ (stored : ref.authn.revoked_tokens ≡ some revoked_tokens) where
    -- A reset link that was accepted is not accepted again, whatever password comes with it, whatever
    -- calls reach the repository of the revoked tokens and the users in between, as long as the
    -- database's clock has not reached the time at which the link expires.
    pub reset_password-once :
        (input again : ResetPasswordInput) (s s' later : Store Table U) (ops : List Op)
        → reset_password ref input s ≡ (ok tt, s')
        → ltb s.tokens.now input.token_expires_at ≡ true
        → any (reaches input.token_expires_at) ops ≡ false
        → later.tokens ≡ perform_all s'.tokens ops
        → again.token_id ≡ input.token_id
        → (reset_password ref again later).0 ≢ ok tt
    reset_password-once input again s s' later ops h live before tokens same accepted =
        let last = (reset_password ref again later).1 in
        let spent : reset_password ref again later ≡ (ok tt, last) = λ i. (accepted i, last) in
        let used = reset-spends again later last spent in
        spent_once ref.authn s.tokens s'.tokens input.token_id input.user_id "password_reset"
          input.token_expires_at ops again.user_id "password_reset" again.token_expires_at stored
          (reset-spends input s s' h) live before
          (ap (λ r. r.0)
              (λ i.
                consume_single_use_token ref.authn (sym same i) again.user_id "password_reset"
                  again.token_expires_at (sym tokens i))
            ∙ ap (λ r. r.0) used)

    -- The same of a verification link.
    pub verify_claims-once :
        (claims : Claims) (s s' later : Store Table U) (ops : List Op) (link : Link)
        → verify_claims ref claims s ≡ (ok tt, s')
        → link_of ref claims ≡ ok link
        → ltb s.tokens.now (link.expires * 1000000000) ≡ true
        → any (reaches (link.expires * 1000000000)) ops ≡ false
        → later.tokens ≡ perform_all s'.tokens ops
        → (verify_claims ref claims later).0 ≢ ok tt
    verify_claims-once claims s s' later ops link h read live before tokens accepted =
        let last = (verify_claims ref claims later).1 in
        let spent : verify_claims ref claims later ≡ (ok tt, last) = λ i. (accepted i, last) in
        let (link', read', first) = verification-spends claims s s' h in
        let (link'', read'', second) = verification-spends claims later last spent in
        let same : link' ≡ link = ground (arith, read, read') in
        let (jti, found, used) =
          spent_jti claims link'.user_id "email_verification" (link'.expires * 1000000000) s.tokens
            s'.tokens first in
        let (jti', found', reused) =
          spent_jti claims link''.user_id "email_verification" (link''.expires * 1000000000)
            later.tokens last.tokens second in
        let same_jti : jti' ≡ jti = ground (arith, found, found') in
        spent_once ref.authn s.tokens s'.tokens jti link'.user_id "email_verification"
          (link'.expires * 1000000000) ops link''.user_id "email_verification"
          (link''.expires * 1000000000) stored used
          (ap (λ (l : Link). ltb s.tokens.now (l.expires * 1000000000)) same ∙ live)
          (ap (λ (l : Link). any (reaches (l.expires * 1000000000)) ops) same ∙ before)
          (ap (λ r. r.0)
              (λ i.
                consume_single_use_token ref.authn (sym same_jti i) link''.user_id
                  "email_verification" (link''.expires * 1000000000) (sym tokens i))
            ∙ ap (λ r. r.0) reused)
