-- ===== src/Accounts/SignIn.antt =====
-- Who may change the flag of an account and the sign-in of an account with the flag, in UpdateByID of
-- internal/core/usecase/users.go.
use go_rest_api_service_temp.Base.{
  ◌≡◌, ◌⊎◌, sym, ap, subst, ◌∙◌, String, Bool, true, false, not, none, some, if◌then◌else◌, arith,
  Bool-cases, Option-cases, inl, inr,
}
use go_rest_api_service_temp.Accounts.{
  User, UpdateUserInput, ok, error, bind-ok, Result-cases, UsersRepository, has_admin_flag,
  UserError,
}
use go_rest_api_service_temp.Accounts.Guard.{
  administrator_disabled, administrator_enabled, administrator_federated, administrator_made_local,
  is_administrator_account, guard_administrator,
}
use go_rest_api_service_temp.Accounts.Update.{
  UsersService, lock_may_change, flag_may_change, disabled_may_change, lock_is_guarded,
  local_may_change, sign_in_may_change, administrator_sign_in_may_change, judged,
}
use go_rest_api_service_temp.Accounts.Address.{IsFor, IsAsked, guard-IsAsked}

-- What is left of the sign-in in an update
abbrev pub HasNoSignIn : UpdateUserInput → Type 0
HasNoSignIn input =
    (input.disabled ≡ none) × (input.disabled_by_admin ≡ none) × (input.local_account ≡ none)

-- What is left of an update when the caller is not an administrator account.
abbrev pub IsHarmless : User → UpdateUserInput → Type 0
IsHarmless stored ready =
    (ready.admin ≡ none) × (has_admin_flag (some stored) ≡ true → HasNoSignIn ready)

pub lock_kept :
    (input : UpdateUserInput) (stored : User)
    → IsFor (lock_may_change input stored).0 input
      × ((lock_may_change input stored).0.email ≡ input.email)
      × ((lock_may_change input stored).0.admin ≡ input.admin)
unfolding lock_may_change
lock_kept input stored = ground arith

module _ {S : Type 0} (service : UsersService) (repository : UsersRepository S) (s : S) where
  module _ (stored : User) (input : UpdateUserInput)
      (unasked : ¬ IsAsked service repository s input.caller_id) where
    -- The question who asks is answered no, or with an error.
    asked-cases :
        (is_administrator_account repository s input.caller_id ≡ ok false)
        ⊎ ((e : UserError) × (is_administrator_account repository s input.caller_id ≡ error e))
    asked-cases = elim (Result-cases (is_administrator_account repository s input.caller_id)) [
      | inl (true, answered) ↦ absurd (unasked answered)
      | inl (false, answered) ↦ inl answered
      | inr broken ↦ inr broken
    ]

    flag-unasked :
        (ready : UpdateUserInput)
        → flag_may_change service repository s input stored ≡ ok ready
        → ready ≡ record input { admin = none }
    unfolding flag_may_change
    flag-unasked ready h = elim (Option-cases input.admin) [
      | inl absent ↦
          let bare : input ≡ record input { admin = none } =
            λ i. record input { admin = absent i } in
          ground (arith, h, absent, bare)
      | inr (b, there) ↦ elim asked-cases [
        | inl told_no ↦ ground (arith, h, there, told_no)
        | inr (x, broken) ↦ ground (arith, h, there, broken)
      ]
    ]

    module _ (flag : has_admin_flag (some stored) ≡ true) where
      guard-refuses :
          (action : String) (locks : Bool)
          → (e : UserError) × (guard_administrator repository s
                (some stored)
                input.caller_id
                action
                locks
              ≡ error e)
      guard-refuses action locks =
          elim (Result-cases
            (guard_administrator repository s (some stored) input.caller_id action locks)) [
              | inr refused ↦ refused
              | inl (tt, passed) ↦ absurd (
                  unasked (
                    guard-IsAsked service repository s stored input.caller_id action locks flag
                      passed))
            ]

      disabled-unasked :
          (ready : UpdateUserInput)
          → disabled_may_change service repository s input stored ≡ ok ready
          → ready ≡ record input { disabled = none }
      unfolding disabled_may_change
      disabled-unasked ready h = elim (Option-cases input.disabled) [
        | inl absent ↦
            let bare : input ≡ record input { disabled = none } =
              λ i. record input { disabled = absent i } in
            ground (arith, h, absent, bare)
        | inr (b, there) ↦
            let (x, refused) =
              guard-refuses (if b then administrator_disabled else administrator_enabled) b in
            ground (arith, h, there, refused)
      ]

      lock-unasked :
          (ready : UpdateUserInput)
          → lock_is_guarded service repository s input stored ≡ ok ready
          → ready ≡ record input { disabled_by_admin = none }
      unfolding lock_is_guarded
      lock-unasked ready h = elim (Option-cases input.disabled_by_admin) [
        | inl absent ↦
            let bare : input ≡ record input { disabled_by_admin = none } =
              λ i. record input { disabled_by_admin = absent i } in
            ground (arith, h, absent, bare)
        | inr (b, there) ↦
            let (x, refused) =
              guard-refuses (if b then administrator_disabled else administrator_enabled) b in
            ground (arith, h, there, refused)
      ]

      local-unasked :
          (ready : UpdateUserInput)
          → local_may_change service repository s input stored ≡ ok ready
          → ready ≡ record input { local_account = none }
      unfolding local_may_change
      local-unasked ready h = elim (Option-cases input.local_account) [
        | inl absent ↦
            let bare : input ≡ record input { local_account = none } =
              λ i. record input { local_account = absent i } in
            ground (arith, h, absent, bare)
        | inr (b, there) ↦
            let (x, refused) =
              guard-refuses (if b then administrator_made_local else administrator_federated)
                (not b) in
            ground (arith, h, there, refused)
      ]

  sign_in-unasked :
      (stored : User) (input ready : UpdateUserInput)
      → ¬ IsAsked service repository s input.caller_id
      → has_admin_flag (some stored) ≡ true
      → sign_in_may_change service repository s input stored ≡ ok ready
      → ready ≡ record input { disabled = none; disabled_by_admin = none; local_account = none }
  unfolding sign_in_may_change
  sign_in-unasked stored input ready unasked flag h =
      let (a, first, rest) =
        bind-ok (disabled_may_change service repository s input stored) _ ready h in
      let (b, second, third) =
        bind-ok (lock_is_guarded service repository s a stored) _ ready rest in
      let a' = disabled-unasked stored input unasked flag a first in
      let b' : b ≡ record input { disabled = none; disabled_by_admin = none } =
        lock-unasked stored (record input { disabled = none }) unasked flag b
          (ap (λ x. lock_is_guarded service repository s x stored) (sym a') ∙ second) in
      local-unasked stored (record input { disabled = none; disabled_by_admin = none }) unasked flag
        ready (ap (λ x. local_may_change service repository s x stored) (sym b') ∙ third)

  pub judged-IsHarmless :
      (stored : User) (input ready : UpdateUserInput)
      → ¬ IsAsked service repository s input.caller_id
      → judged service repository s input stored ≡ ok ready
      → IsFor ready input × (ready.email ≡ input.email) × IsHarmless stored ready
  unfolding judged administrator_sign_in_may_change
  judged-IsHarmless stored input ready unasked h =
      let start = (lock_may_change input stored).0 in
      let (same, email, flagged_same) = lock_kept input stored in
      let (a, first, rest) =
        bind-ok (flag_may_change service repository s start stored) _ ready h in
      let (b, second, third) =
        bind-ok (administrator_sign_in_may_change service repository s a stored) _ ready rest in
      let unasked' : ¬ IsAsked service repository s start.caller_id =
        λ told. unasked (subst (λ c. IsAsked service repository s c) same.1 told) in
      let a' = flag-unasked stored start unasked' a first in
      let b' : administrator_sign_in_may_change service repository s (record start { admin = none })
            stored
          ≡ ok b =
        ap (λ x. administrator_sign_in_may_change service repository s x stored) (sym a')
        ∙ second in
      let last : b ≡ ready = ground (arith, third) in
      elim (Bool-cases (has_admin_flag (some stored))) [
        | inl flag ↦
            let passed : sign_in_may_change service repository s (record start { admin = none })
                  stored
                ≡ ok b =
              ground (arith, b', flag) in
            let r =
              sym last
              ∙ sign_in-unasked stored (record start { admin = none }) b unasked' flag passed in
            (
              (ap (λ x. x.id) r ∙ same.0, ap (λ x. x.caller_id) r ∙ same.1),
              ap (λ x. x.email) r ∙ email,
              (
                ap (λ x. x.admin) r,
                λ _. (
                  ap (λ x. x.disabled) r,
                  ap (λ x. x.disabled_by_admin) r,
                  ap (λ x. x.local_account) r,
                ),
              ),
            )
        | inr plain ↦
            let made : record start { admin = none } ≡ b = ground (arith, b', plain) in
            let r = sym last ∙ sym made in
            (
              (ap (λ x. x.id) r ∙ same.0, ap (λ x. x.caller_id) r ∙ same.1),
              ap (λ x. x.email) r ∙ email,
              (ap (λ x. x.admin) r, λ flag. ground (arith, flag, plain)),
            )
      ]
