-- ===== src/Accounts/Kept.antt =====
-- UpdateByID and DeleteByID of internal/core/usecase/users.go on an account that can sign in and has
-- the flag, where the guard refuses what takes a sign-in away: what is left of the update.
use go_rest_api_service_temp.Base.{
  ◌≡◌, ◌⊎◌, refl, sym, ap, subst, ◌∙◌, String, Bool, true, false, ◌||◌, none, some, is_some, arith,
  Bool-cases, Option-cases, inl, inr,
}
use go_rest_api_service_temp.Accounts.{
  User, UpdateUserInput, UserError, ok, error, ◌>>=◌, bind-ok, Result-cases, UsersRepository,
  is_set, has_admin_flag, is_disabled_account,
}
use go_rest_api_service_temp.Accounts.Guard.{
  administrator_disabled, administrator_enabled, administrator_federated, administrator_made_local,
  administrator_demoted, is_administrator_account, guard_administrator,
}
use go_rest_api_service_temp.Accounts.Update.{
  UsersService, same_bool, touches_sign_in, lock_may_change, flag_may_change, disabled_may_change,
  lock_is_guarded, local_may_change, sign_in_may_change, administrator_sign_in_may_change, judged,
  sign_in_part, address_part, prepared,
}
use go_rest_api_service_temp.Accounts.Ids.{judged-id}
use go_rest_api_service_temp.Accounts.Protection.{absent_of, password-kept}

-- What an update may still carry: no change of the flag or of disabled, no lock, and no end of a
-- local account.
abbrev pub IsOpen : UpdateUserInput → Type 0
IsOpen ready =
    (ready.admin ≡ none)
    × (ready.disabled ≡ none)
    × ((ready.disabled_by_admin ≡ none) ⊎ (ready.disabled_by_admin ≡ some false))
    × ((ready.local_account ≡ none) ⊎ (ready.local_account ≡ some true))

module _ {S : Type 0} (service : UsersService) (repository : UsersRepository S) (s : S)
    (stored : User) where
  -- The guard refuses what takes the sign-in away, whoever asks.
  abbrev pub IsGuarded : Type 0
  IsGuarded =
      (caller_id action : String)
      → (e : UserError) × (guard_administrator repository s (some stored) caller_id action true
          ≡ error e)

  module _ (guarded : IsGuarded) (flag : has_admin_flag (some stored) ≡ true)
      (enabled : is_disabled_account (some stored) ≡ false) where
    flag-open :
        (input ready : UpdateUserInput)
        → flag_may_change service repository s input stored ≡ ok ready
        → ready ≡ record input { admin = none }
    unfolding flag_may_change
    flag-open input ready h = elim (Option-cases input.admin) [
      | inl absent ↦
          let bare : input ≡ record input { admin = none } =
            λ i. record input { admin = absent i } in
          ground (arith, h, absent, bare)
      | inr (true, there) ↦ ground (arith, h, there, flag)
      | inr (false, there) ↦
          let (e, refused) = guarded input.caller_id administrator_demoted in
          elim (Result-cases (is_administrator_account repository s input.caller_id)) [
            | inl (b, answered) ↦ ground (arith, h, there, flag, answered, refused)
            | inr (x, broken) ↦ ground (arith, h, there, flag, broken)
          ]
    ]

    disabled-open :
        (input ready : UpdateUserInput)
        → disabled_may_change service repository s input stored ≡ ok ready
        → ready ≡ record input { disabled = none }
    unfolding disabled_may_change
    disabled-open input ready h = elim (Option-cases input.disabled) [
      | inl absent ↦
          let bare : input ≡ record input { disabled = none } =
            λ i. record input { disabled = absent i } in
          ground (arith, h, absent, bare)
      | inr (false, there) ↦ ground (arith, h, there, enabled)
      | inr (true, there) ↦
          let (e, refused) = guarded input.caller_id administrator_disabled in
          ground (arith, h, there, enabled, refused)
    ]

    lock-open :
        (input ready : UpdateUserInput)
        → lock_is_guarded service repository s input stored ≡ ok ready
        → (ready ≡ input)
          × ((ready.disabled_by_admin ≡ none) ⊎ (ready.disabled_by_admin ≡ some false))
    unfolding lock_is_guarded
    lock-open input ready h = elim (Option-cases input.disabled_by_admin) [
      | inl absent ↦
          let same : ready ≡ input = ground (arith, h, absent) in
          (same, inl (ap (λ x. x.disabled_by_admin) same ∙ absent))
      | inr (true, there) ↦
          let (e, refused) = guarded input.caller_id administrator_disabled in
          absurd (ground (arith, h, there, refused))
      | inr (false, there) ↦
          elim (Result-cases (
            guard_administrator repository s (some stored) input.caller_id administrator_enabled
              false)) [
                | inr (x, broken) ↦ absurd (ground (arith, h, there, broken))
                | inl (tt, passed) ↦
                    let same : ready ≡ input = ground (arith, h, there, passed) in
                    (same, inr (ap (λ x. x.disabled_by_admin) same ∙ there))
              ]
    ]

    local-open :
        (input ready : UpdateUserInput)
        → local_may_change service repository s input stored ≡ ok ready
        → (ready ≡ record input { local_account = ready.local_account })
          × ((ready.local_account ≡ none) ⊎ (ready.local_account ≡ some true))
    unfolding local_may_change
    local-open input ready h = elim (Option-cases input.local_account) [
      | inl absent ↦
          let same : ready ≡ input = ground (arith, h, absent) in
          (unchanged same, inl (ap (λ x. x.local_account) same ∙ absent))
      | inr (b, there) ↦ elim (Bool-cases (same_bool b (is_set stored.local_account))) [
        | inl stays ↦
            let dropped : ready ≡ record input { local_account = none } =
              ground (arith, h, there, stays) in
            (
              subst (λ r. r ≡ record input { local_account = r.local_account }) (sym dropped) refl,
              inl (ap (λ x. x.local_account) dropped),
            )
        | inr changes ↦ made b there changes
      ]
    ]
      where
        unchanged : ready ≡ input → ready ≡ record input { local_account = ready.local_account }
        unchanged same =
            subst (λ r. r ≡ record input { local_account = r.local_account }) (sym same) refl

        made :
            (b : Bool)
            → input.local_account ≡ some b
            → same_bool b (is_set stored.local_account) ≡ false
            → (ready ≡ record input { local_account = ready.local_account })
              × ((ready.local_account ≡ none) ⊎ (ready.local_account ≡ some true))
        made false there changes =
            let (e, refused) = guarded input.caller_id administrator_federated in
            absurd (ground (arith, h, there, changes, refused))
        made true there changes =
            elim (Result-cases (
              guard_administrator repository s (some stored) input.caller_id
                administrator_made_local false)) [
                  | inr (x, broken) ↦ absurd (ground (arith, h, there, changes, broken))
                  | inl (tt, passed) ↦
                      let same : ready ≡ input = ground (arith, h, there, changes, passed) in
                      (unchanged same, inr (ap (λ x. x.local_account) same ∙ there))
                ]

    judged-IsOpen :
        (input ready : UpdateUserInput)
        → judged service repository s input stored ≡ ok ready
        → IsOpen ready
    unfolding judged administrator_sign_in_may_change sign_in_may_change
    judged-IsOpen input ready h =
        let start = (lock_may_change input stored).0 in
        let (a, first, rest) =
          bind-ok (flag_may_change service repository s start stored) _ ready h in
        let (z, signed, last) =
          bind-ok (administrator_sign_in_may_change service repository s a stored) _ ready rest in
        let end : z ≡ ready = ground (arith, last) in
        let steps : sign_in_may_change service repository s a stored ≡ ok z =
          ground (arith, signed, flag) in
        let (b, second, more) =
          bind-ok (disabled_may_change service repository s a stored) _ z steps in
        let (c, third, fourth) = bind-ok (lock_is_guarded service repository s b stored) _ z more in
        let (lock_same, lock) = lock-open b c third in
        let (local_same, local) = local-open c z fourth in
        let whole : z
            ≡ record start { admin = none; disabled = none; local_account = z.local_account } =
          local_same
          ∙ ap (λ (x : UpdateUserInput). record x { local_account = z.local_account })
              (lock_same
                ∙ disabled-open a b second
                ∙ ap (λ (x : UpdateUserInput). record x { disabled = none })
                    (flag-open start a first)) in
        let locked : z.disabled_by_admin ≡ c.disabled_by_admin =
          ap (λ x. x.disabled_by_admin) local_same in
        subst IsOpen end
          (ap (λ x. x.admin) whole, ap (λ x. x.disabled) whole, rw locked lock, local)

    -- What passes every check of an update of this account leaves its sign-in open.
    pub prepared-IsOpen :
        (input ready : UpdateUserInput)
        → ((x : User) → repository.select_by_id s ready.id ≡ ok x → x ≡ stored)
        → prepared service repository s input ≡ ok ready
        → IsOpen ready
    unfolding prepared sign_in_part touches_sign_in
    prepared-IsOpen input ready read h =
        let (a, valid, rest) = bind-ok (service.validate input) _ ready h in
        let (b, addressed, rest') = bind-ok (address_part service repository s a) _ ready rest in
        let (c, signed, last) = bind-ok (sign_in_part service repository s b) _ ready rest' in
        let (hash, made) = password-kept service repository s c ready last in
        let open_c : IsOpen c = elim (Bool-cases (is_some b.admin || touches_sign_in b)) [
          | inl touched ↦
              let through : (repository.select_by_id s b.id >>= judged service repository s b)
                  ≡ ok c =
                ground (arith, signed, touched) in
              let (x, found_x, passed) = bind-ok (repository.select_by_id s b.id) _ c through in
              let same_id : ready.id ≡ b.id =
                ap (λ u. u.id) made ∙ judged-id service repository s x b c passed in
              let same : x ≡ stored =
                read x (ap (λ y. repository.select_by_id s y) same_id ∙ found_x) in
              judged-IsOpen b c (ap (λ u. judged service repository s b u) (sym same) ∙ passed)
          | inr untouched ↦
              let same : b ≡ c = ground (arith, signed, untouched) in
              subst IsOpen same (
                absent_of b.admin (ground (arith, untouched)),
                absent_of b.disabled (ground (arith, untouched)),
                inl (absent_of b.disabled_by_admin (ground (arith, untouched))),
                inl (absent_of b.local_account (ground (arith, untouched))),
              )
        ] in
        subst IsOpen (sym made) open_c
