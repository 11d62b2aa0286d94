-- ===== src/Accounts/Ids.antt =====
-- The checks of UpdateByID of internal/core/usecase/users.go keep the account that is updated.
use go_rest_api_service_temp.Base.{◌≡◌, sym, ap, ◌∙◌, some, arith, Bool-cases, inl, inr}
use go_rest_api_service_temp.Accounts.{
  User, UpdateUserInput, ok, bind-ok, UsersRepository, has_admin_flag,
}
use go_rest_api_service_temp.Accounts.Update.{
  UsersService, lock_may_change, flag_may_change, disabled_may_change, lock_is_guarded,
  local_may_change, sign_in_may_change, administrator_sign_in_may_change, judged,
}
use go_rest_api_service_temp.Accounts.SignIn.{lock_kept}

module _ {S : Type 0} (service : UsersService) (repository : UsersRepository S) (s : S)
    (stored : User) where
  flag-id :
      (input ready : UpdateUserInput)
      → flag_may_change service repository s input stored ≡ ok ready
      → ready.id ≡ input.id
  unfolding flag_may_change
  flag-id input ready h = ground (arith, h)

  disabled-id :
      (input ready : UpdateUserInput)
      → disabled_may_change service repository s input stored ≡ ok ready
      → ready.id ≡ input.id
  unfolding disabled_may_change
  disabled-id input ready h = ground (arith, h)

  lock-id :
      (input ready : UpdateUserInput)
      → lock_is_guarded service repository s input stored ≡ ok ready
      → ready.id ≡ input.id
  unfolding lock_is_guarded
  lock-id input ready h = ground (arith, h)

  local-id :
      (input ready : UpdateUserInput)
      → local_may_change service repository s input stored ≡ ok ready
      → ready.id ≡ input.id
  unfolding local_may_change
  local-id input ready h = ground (arith, h)

  sign_in-id :
      (input ready : UpdateUserInput)
      → administrator_sign_in_may_change service repository s input stored ≡ ok ready
      → ready.id ≡ input.id
  unfolding administrator_sign_in_may_change sign_in_may_change
  sign_in-id input ready h = elim (Bool-cases (has_admin_flag (some stored))) [
    | inr plain ↦ ground (arith, h, plain)
    | inl flag ↦
        let steps : sign_in_may_change service repository s input stored ≡ ok ready =
          ground (arith, h, flag) in
        let (a, first, rest) =
          bind-ok (disabled_may_change service repository s input stored) _ ready steps in
        let (b, second, third) =
          bind-ok (lock_is_guarded service repository s a stored) _ ready rest in
        local-id b ready third ∙ lock-id a b second ∙ disabled-id input a first
  ]

  pub judged-id :
      (input ready : UpdateUserInput)
      → judged service repository s input stored ≡ ok ready
      → ready.id ≡ input.id
  unfolding judged
  judged-id input ready h =
      let start = (lock_may_change input stored).0 in
      let (a, first, rest) =
        bind-ok (flag_may_change service repository s start stored) _ ready h in
      let (b, second, last) =
        bind-ok (administrator_sign_in_may_change service repository s a stored) _ ready rest in
      let end : b ≡ ready = ground (arith, last) in
      ap (λ x. x.id) (sym end)
      ∙ sign_in-id a b second
      ∙ flag-id start a first
      ∙ (lock_kept input stored).0.0
