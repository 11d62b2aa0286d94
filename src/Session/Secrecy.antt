-- ===== src/Session/Secrecy.antt =====
-- What LoginUser of internal/core/usecase/authn.go answers, and what it does to the throttle.
use go_rest_api_service_temp.Base.{
  ◌≡◌, ◌≢◌, ◌⊎◌, refl, sym, ap, ◌∙◌, inl, inr, Bool, true, false, not, none, some, arith,
  Bool-cases, Option-cases,
}
use go_rest_api_service_temp.Session.{
  invalid_input, invalid_refresh_token, invalid_authn_service, invalid_jwt, fault, panicked,
  too_many_login_attempts, too_many_recovery_requests, user_already_exists, user_already_verified,
  invalid_password, invalid_email, not_the_accounts_address, invalid_credentials, user_not_found,
  token_type_access, token_type_refresh, Result, Result-cases, ok, error, Action, lift, ◌>>=◌, ◌>>◌,
  bind-ok, lift-ok,
}
use go_rest_api_service_temp.Session.Login.{
  Throttle, LoginUser, LoginUserInput, LoginUserOutput, LoginService, no_permissions, not_a_map,
  resources, throttle_key, issue_session, is_proven, token_of, authenticated, attempted, restored,
  login_user,
}

-- The account is not there, or it may not sign in with what was given; a failure to read it is
-- neither.
abbrev pub is_rejected : Result LoginUser → (LoginUser → Bool) → Bool
is_rejected (ok user) proven = not (proven user)
is_rejected (error user_not_found) proven = true
is_rejected (error _) proven = false

module _ {T R : Type 0} (ref : LoginService T R) (input : LoginUserInput) where
  rejected :
      (r : Result LoginUser)
      → ref.get_by_email_for_auth input.email ≡ r
      → is_rejected r (is_proven ref input) ≡ true
      → authenticated ref input ≡ error invalid_credentials
  unfolding authenticated
  rejected (ok user) e h = ground (arith, e, h)
  rejected (error user_not_found) e h = rw (authenticated, e) refl
  rejected (error (invalid_input m)) e h = absurd (cc)
  rejected (error (invalid_refresh_token m)) e h = absurd (cc)
  rejected (error (invalid_authn_service m)) e h = absurd (cc)
  rejected (error (invalid_jwt m x)) e h = absurd (cc)
  rejected (error invalid_credentials) e h = absurd (cc)
  rejected (error (too_many_login_attempts n)) e h = absurd (cc)
  rejected (error (fault m)) e h = absurd (cc)
  rejected (error panicked) e h = absurd (cc)
  rejected (error (too_many_recovery_requests n)) e h = absurd (cc)
  rejected (error (user_already_exists i m)) e h = absurd (cc)
  rejected (error user_already_verified) e h = absurd (cc)
  rejected (error invalid_password) e h = absurd (cc)
  rejected (error invalid_email) e h = absurd (cc)
  rejected (error not_the_accounts_address) e h = absurd (cc)

  -- A login that fails because there is no such account, it is disabled, it signs in through an
  -- identity provider or the password is another one is answered with the one error, and the attempt
  -- stays spent: the throttle is left as the attempt left it. The input is valid and the throttle let
  -- the attempt through.
  pub login_user-rejected :
      (t : Throttle T) (s s' : T)
      → ref.validate input ≡ ok tt
      → ref.login_throttle ≡ some t
      → t.attempt s (throttle_key ref "login" input.email) ≡ (s', none)
      → is_rejected (ref.get_by_email_for_auth input.email) (is_proven ref input) ≡ true
      → login_user ref (some input) s ≡ (error invalid_credentials, s')
  unfolding login_user
  login_user-rejected t s s' valid throttled spent failed =
      let none' = rejected (ref.get_by_email_for_auth input.email) refl failed in
      ground (arith, valid, throttled, spent, none')

  of_answer :
      (r : Result LoginUser) (user : LoginUser)
      → ref.get_by_email_for_auth input.email ≡ r
      → authenticated ref input ≡ ok user
      → (r ≡ ok user) × (is_proven ref input user ≡ true)
  unfolding authenticated
  of_answer (ok found) user e h = elim (Bool-cases (is_proven ref input found)) [
    | inl proven ↦
        let same : found ≡ user = ground (arith, e, h, proven) in
        (ap ok same, ap (is_proven ref input) (sym same) ∙ proven)
    | inr not_proven ↦ absurd (ground (arith, e, h, not_proven))
  ]
  of_answer (error user_not_found) user e h = absurd (ground (arith, e, h))
  of_answer (error (invalid_input m)) user e h = absurd (ground (arith, e, h))
  of_answer (error (invalid_refresh_token m)) user e h = absurd (ground (arith, e, h))
  of_answer (error (invalid_authn_service m)) user e h = absurd (ground (arith, e, h))
  of_answer (error (invalid_jwt m x)) user e h = absurd (ground (arith, e, h))
  of_answer (error invalid_credentials) user e h = absurd (ground (arith, e, h))
  of_answer (error (too_many_login_attempts n)) user e h = absurd (ground (arith, e, h))
  of_answer (error (fault m)) user e h = absurd (ground (arith, e, h))
  of_answer (error panicked) user e h = absurd (ground (arith, e, h))
  of_answer (error (too_many_recovery_requests n)) user e h = absurd (ground (arith, e, h))
  of_answer (error (user_already_exists i m)) user e h = absurd (ground (arith, e, h))
  of_answer (error user_already_verified) user e h = absurd (ground (arith, e, h))
  of_answer (error invalid_password) user e h = absurd (ground (arith, e, h))
  of_answer (error invalid_email) user e h = absurd (ground (arith, e, h))
  of_answer (error not_the_accounts_address) user e h = absurd (ground (arith, e, h))

  -- Who may sign in: an account that is not disabled and whose kind is known and, where a password is
  -- what is shown, a local one whose stored hash the password matches
  abbrev pub MaySignIn : LoginUser → Type 0
  MaySignIn user =
      (user.disabled ≢ some true)
      × ((local_account : Bool) × (user.local_account ≡ some local_account)
          × ((input.is_password ≡ false)
              ⊎ ((local_account ≡ true)
                  × (ref.compare_passwords user.password_hash input.password ≡ true))))

  issued :
      (user : LoginUser) (out : LoginUserOutput R)
      → issue_session ref user ≡ ok out
      → (out.user_id ≡ user.id)
        × (ref.sign (token_of ref user token_type_access ref.access_token_duration)
            ≡ ok out.access_token)
        × (ref.sign (token_of ref user token_type_refresh ref.refresh_token_duration)
            ≡ ok out.refresh_token)
  unfolding issue_session
  issued user out h =
      elim (Result-cases
        (ref.sign (token_of ref user token_type_access ref.access_token_duration))) [
          | inr (e, failed) ↦ absurd (ground (arith, h, failed))
          | inl (access, signed) ↦
              elim (Result-cases
                (ref.sign (token_of ref user token_type_refresh ref.refresh_token_duration))) [
                  | inr (e, failed) ↦ absurd (ground (arith, h, signed, failed))
                  | inl (refresh, renewed) ↦ elim (Result-cases (ref.select_authz user.id)) [
                    | inr (e, failed) ↦ absurd (ground (arith, h, signed, renewed, failed))
                    | inl (not_a_map, read) ↦ absurd (ground (arith, h, signed, renewed, read))
                    | inl (no_permissions, read) ↦ (
                      ground (arith, h, signed, renewed, read),
                      ground (arith, h, signed, renewed, read),
                      ground (arith, h, signed, renewed, read),
                    )
                    | inl (resources granted, read) ↦ (
                      ground (arith, h, signed, renewed, read),
                      ground (arith, h, signed, renewed, read),
                      ground (arith, h, signed, renewed, read),
                    )
                  ]
                ]
        ]

  is_proven-MaySignIn : (user : LoginUser) → is_proven ref input user ≡ true → MaySignIn user
  unfolding is_proven
  is_proven-MaySignIn user h = (
    λ disabled. ground (arith, h, disabled),
    elim (Option-cases user.local_account) [
      | inl unknown ↦ absurd (ground (arith, h, unknown))
      | inr (local_account, known) ↦ (
        local_account,
        known,
        elim (Bool-cases input.is_password) [
          | inr other ↦ inl other
          | inl password ↦
              inr (ground (arith, h, known, password), ground (arith, h, known, password))
        ],
      )
    ],
  )

  -- With a throttle, a login is answered with a session only if the attempt was let through, and only
  -- for the account of the address, which is there and not
  -- disabled, and only if a login without a password was asked for, the account's kind being known,
  -- or the account is a local one whose stored hash the password matches; the session is that
  -- account's, and the account's whole budget of attempts has been given back.
  pub login_user-MaySignIn :
      (t : Throttle T) (s s' : T) (out : LoginUserOutput R)
      → ref.login_throttle ≡ some t
      → login_user ref (some input) s ≡ (ok out, s')
      → ((t.attempt s (throttle_key ref "login" input.email)).1 ≡ none)
        × (s'
            ≡ t.succeed
                (t.attempt s (throttle_key ref "login" input.email)).0
                (throttle_key ref "login" input.email))
        × ((user : LoginUser) × (ref.get_by_email_for_auth input.email ≡ ok user)
            × MaySignIn user
            × (out.user_id ≡ user.id)
            × (ref.sign (token_of ref user token_type_access ref.access_token_duration)
                ≡ ok out.access_token)
            × (ref.sign (token_of ref user token_type_refresh ref.refresh_token_duration)
                ≡ ok out.refresh_token))
  unfolding login_user
  login_user-MaySignIn t s s' out throttled h =
      let key = throttle_key ref "login" input.email in
      let (_, _, h₁) =
        lift-ok (ref.validate input) (λ _. attempted ref key >>= guarded) s out s' h in
      let (_, s₁, e₁, h₂) = bind-ok (attempted ref key) guarded s out s' h₁ in
      let (user, e₂, h₃) = lift-ok (authenticated ref input) after s₁ out s' h₂ in
      let (_, s₂, e₃, h₄) =
        bind-ok (restored ref key) (λ _. lift (issue_session ref user)) s₁ out s' h₃ in
      let (found, proven) = of_answer (ref.get_by_email_for_auth input.email) user refl e₂ in
      let (named, access, refresh) = issued user out (ground (arith, h₄)) in
      (
        ground (arith, throttled, e₁),
        ground (arith, throttled, e₁, e₃, h₄),
        (user, found, is_proven-MaySignIn user proven, named, access, refresh),
      )
    where
      after : LoginUser → Action T (LoginUserOutput R)
      after user =
          restored ref (throttle_key ref "login" input.email) >> lift (issue_session ref user)

      guarded : Unit {0} → Action T (LoginUserOutput R)
      guarded _ = lift (authenticated ref input) >>= after
