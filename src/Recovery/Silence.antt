-- ===== src/Recovery/Silence.antt =====
-- RecoverPassword of internal/core/usecase/authn.go: that its answer says nothing about the accounts,
-- and which mail goes out.
use go_rest_api_service_temp.Base.{
  ◌≡◌, ◌⊎◌, refl, sym, ap, ◌∙◌, String, true, false, Option, none, some, ◌∷◌, arith, Bool-cases,
  Option-cases, inl, inr,
}
use go_rest_api_service_temp.Accounts.{User, is_set}
use go_rest_api_service_temp.Session.{
  user_not_found, Result, ok, error, Action, lift-ok, Result-cases, invalid_input,
  too_many_recovery_requests,
}
use go_rest_api_service_temp.Session.Refresh.{JwtClaims}
use go_rest_api_service_temp.Recovery.{
  Mail, account_verification, password_reset, Desk, MailService, handed, recipient_of, mail_claims,
  send_verification_email, send_password_reset, is_unset, recover_account, recovery_attempted,
  recover_found, recover_password,
}

-- The services work: the signer signs, the notifier takes the mail, and a look-up answers the account
-- or that there is none.
pub record IsWorking {U T : Type 0} (ref : MailService U T) : Type 0 where
  pub signs : (claims : JwtClaims) → (token : String) × (ref.sign claims ≡ ok token)
  pub delivers : (mail : Mail) → ref.deliver mail ≡ ok tt
  pub finds :
      (users : U) (email : String)
      → (ref.get_by_email users email ≡ error user_not_found)
        ⊎ ((found : Option User) × (ref.get_by_email users email ≡ ok found))

module _ {U T : Type 0} (ref : MailService U T) where
  -- Of one action: it succeeds, and it does not touch the throttle.
  abbrev IsQuiet : Action (Desk U T) Unit → Type 0
  IsQuiet act = (s : Desk U T) → ((act s).0 ≡ ok tt) × ((act s).1.throttle ≡ s.throttle)

  module _ (works : IsWorking ref) where
    verification-IsQuiet : (user : User) → IsQuiet (send_verification_email ref user)
    unfolding send_verification_email handed
    verification-IsQuiet user s =
        let (token, signed) =
          works.signs
            (mail_claims ref user.id user.email "email_verification" ref.verification_duration) in
        let taken = works.delivers (account_verification (recipient_of ref user) token) in
        (ground (arith, signed, taken), ground (arith, signed, taken))

    reset-IsQuiet : (user : User) → IsQuiet (send_password_reset ref user)
    unfolding send_password_reset handed
    reset-IsQuiet user s =
        let (token, signed) =
          works.signs (mail_claims ref user.id user.email "password_reset" ref.reset_duration) in
        let taken = works.delivers (password_reset (recipient_of ref user) token) in
        (ground (arith, signed, taken), ground (arith, signed, taken))

    account-IsQuiet : (user : User) → IsQuiet (recover_account ref user)
    unfolding recover_account
    account-IsQuiet user s =
        let (a, b) = verification-IsQuiet user s in
        let (c, d) = reset-IsQuiet user s in (ground (arith, a, c), ground (arith, b, d))

    found-IsQuiet :
        (users : U) (email : String) → IsQuiet (recover_found ref (ref.get_by_email users email))
    unfolding recover_found
    found-IsQuiet users email s = elim (works.finds users email) [
      | inl missing ↦ (ground (arith, missing), ground (arith, missing))
      | inr (none, found) ↦ (ground (arith, found), ground (arith, found))
      | inr (some user, found) ↦
          let (a, b) = account-IsQuiet user s in
          (ground (arith, found, a), ground (arith, found, b))
    ]

    -- The answer and the budgets after it, made of the address and the budgets.
    unfoldable pub answer : Option String → T → Result Unit × T
    answer none t = (error (invalid_input "input is nil"), t)
    answer (some email) t = elim (ref.validate_recovery email) [
      | error e ↦ (error e, t)
      | ok address ↦ elim ref.login_throttle [
        | none ↦ (ok tt, t)
        | some throttle ↦
            let (t', refused) = throttle.attempt t (ref.throttle_key "recovery" address) in
            elim refused [
              | none ↦ (ok tt, t')
              | some retry_after ↦ (error (too_many_recovery_requests retry_after), t')
            ]
      ]
    ]

    attempted-answer :
        (email address : String) (s : Desk U T)
        → ref.validate_recovery email ≡ ok address
        → ((recover_password ref (some email) s).0 ≡ (answer (some email) s.throttle).0)
          × ((recover_password ref (some email) s).1.throttle ≡ (answer (some email) s.throttle).1)
    unfolding recover_password recovery_attempted answer
    attempted-answer email address s valid = elim (Option-cases ref.login_throttle) [
      | inl free ↦
          let (a, b) = found-IsQuiet s.users address s in
          (ground (arith, valid, free, a), ground (arith, valid, free, b))
      | inr (throttle, bound) ↦
          let tried = throttle.attempt s.throttle (ref.throttle_key "recovery" address) in
          let (a, b) = found-IsQuiet s.users address (record s { throttle = tried.0 }) in
          elim (Option-cases (tried.1)) [
            | inl let_through ↦ (
              ground (arith, valid, bound, let_through, a),
              ground (arith, valid, bound, let_through, b),
            )
            | inr (retry_after, refused) ↦
                (ground (arith, valid, bound, refused), ground (arith, valid, bound, refused))
          ]
    ]

    recover_password-answer :
        (email : Option String) (s : Desk U T)
        → ((recover_password ref email s).0 ≡ (answer email s.throttle).0)
          × ((recover_password ref email s).1.throttle ≡ (answer email s.throttle).1)
    unfolding recover_password answer
    recover_password-answer none s = (refl, refl)
    recover_password-answer (some email) s = elim (Result-cases (ref.validate_recovery email)) [
      | inl (address, valid) ↦ attempted-answer email address s valid
      | inr (e, refused) ↦ (ground (arith, refused), ground (arith, refused))
    ]

    -- While the signer, the notifier and the look-up work, the answer to a password recovery and what
    -- it spends of the budget depend on the address and on the budgets alone: two states that differ
    -- in their accounts and in the mails sent answer the same.
    pub recover_password-silent :
        (email : Option String) (s s' : Desk U T)
        → s.throttle ≡ s'.throttle
        → ((recover_password ref email s).0 ≡ (recover_password ref email s').0)
          × ((recover_password ref email s).1.throttle ≡ (recover_password ref email s').1.throttle)
    recover_password-silent email s s' same =
        let (a, b) = recover_password-answer email s in
        let (a', b') = recover_password-answer email s' in
        (
          a ∙ ap (λ t. (answer email t).0) same ∙ sym a',
          b ∙ ap (λ t. (answer email t).1) same ∙ sym b',
        )

  -- One mail of a recovery: a verification for a local account that has not proven its address, a
  -- reset for a local account that is not disabled; the token is signed for the account's address.
  pub data IsMailFor (user : User) : Mail → Type 0 where
    to_verify :
        (token : String)
        → ref.sign
            (mail_claims ref user.id user.email "email_verification" ref.verification_duration)
          ≡ ok token
        → is_set user.local_account ≡ true
        → is_unset ref user.verified ≡ true
        → IsMailFor user (account_verification (recipient_of ref user) token)
    to_reset :
        (token : String)
        → ref.sign (mail_claims ref user.id user.email "password_reset" ref.reset_duration)
          ≡ ok token
        → is_set user.local_account ≡ true
        → is_unset ref user.verified ≡ false
        → is_set user.disabled ≡ false
        → IsMailFor user (password_reset (recipient_of ref user) token)

  sent-handed :
      (mail : Mail) (s s' : Desk U T)
      → handed ref mail s ≡ (ok tt, s')
      → s'.outbox ≡ mail ∷ s.outbox
  unfolding handed
  sent-handed mail s s' h = ground (arith, h)

  -- A recovery of an account that is accepted sends nothing, or the one mail that the account is due.
  pub recover_account-mails :
      (user : User) (s s' : Desk U T)
      → recover_account ref user s ≡ (ok tt, s')
      → (s'.outbox ≡ s.outbox)
        ⊎ ((mail : Mail) × IsMailFor user mail × (s'.outbox ≡ mail ∷ s.outbox))
  unfolding recover_account send_verification_email send_password_reset
  recover_account-mails user s s' h = elim (Bool-cases (is_set user.local_account)) [
    | inr federated ↦ inl (ground (arith, h, federated))
    | inl local ↦ elim (Bool-cases (is_unset ref user.verified)) [
      | inl unproven ↦
          let sent : send_verification_email ref user s ≡ (ok tt, s') =
            ground (arith, h, local, unproven) in
          let (token, signed, given) =
            lift-ok
              (ref.sign
                (mail_claims ref user.id user.email "email_verification" ref.verification_duration))
              (λ t. handed ref (account_verification (recipient_of ref user) t)) s tt s' sent in
          inr (
            account_verification (recipient_of ref user) token,
            to_verify token signed local unproven,
            sent-handed _ s s' given,
          )
      | inr proven ↦ elim (Bool-cases (is_set user.disabled)) [
        | inl disabled ↦ inl (ground (arith, h, local, proven, disabled))
        | inr enabled ↦
            let sent : send_password_reset ref user s ≡ (ok tt, s') =
              ground (arith, h, local, proven, enabled) in
            let (token, signed, given) =
              lift-ok
                (ref.sign (mail_claims ref user.id user.email "password_reset" ref.reset_duration))
                (λ t. handed ref (password_reset (recipient_of ref user) t)) s tt s' sent in
            inr (
              password_reset (recipient_of ref user) token,
              to_reset token signed local proven enabled,
              sent-handed _ s s' given,
            )
      ]
    ]
  ]
