-- ===== src/Accounts/Protection.antt =====
-- What UsersService.UpdateByID and DeleteByID of internal/core/usecase/users.go leave alone when the
-- caller is not an administrator account, on the table of the users.
use mathlib.Core.Option as Option
use go_rest_api_service_temp.Base.{
  ◌≡◌, refl, sym, ap, subst, ◌∙◌, String, true, false, ◌||◌, Option, none, some, if◌then◌else◌,
  is_some, ◌=ₛ◌, eq_iff, arith, Bool-cases, Option-cases, inl, inr,
}
use go_rest_api_service_temp.Accounts.{
  User, UpdateUserInput, ok, ◌>>=◌, bind-ok, Result-cases, UsersRepository, has_admin_flag,
}
use go_rest_api_service_temp.Accounts.Table.{
  UserRow, Database, row_by_id, change_row, user_of, select_by_id, disabled_after, locked_after,
  written, users_repository, row_by_id-change_row,
}
use go_rest_api_service_temp.Accounts.Written.{update-cases, delete-cases, delete-guarded, read_as}
use go_rest_api_service_temp.Accounts.Guard.{administrator_deleted}
use go_rest_api_service_temp.Accounts.Update.{
  UsersService, touches_sign_in, judged, sign_in_part, address_part, password_part, prepared,
  update_by_id, delete_by_id,
}
use go_rest_api_service_temp.Accounts.Address.{IsFor, IsAsked, guard-IsAsked, address-email}
use go_rest_api_service_temp.Accounts.SignIn.{IsHarmless, judged-IsHarmless}

-- The validation changes texts only: it keeps the account and the caller.
abbrev pub KeepsIds : UsersService → Type 0
KeepsIds service =
    (input valid : UpdateUserInput) → service.validate input ≡ ok valid → IsFor valid input

pub absent_of : {A : Type 0} (o : Option A) → is_some o ≡ false → o ≡ none
absent_of none h = refl
absent_of (some a) h = cc

module _ {S : Type 0} (service : UsersService) (repository : UsersRepository S) (s : S) where
  sign_in_part-IsHarmless :
      (stored : User) (input ready : UpdateUserInput)
      → ¬ IsAsked service repository s input.caller_id
      → ((x : User) → repository.select_by_id s ready.id ≡ ok x → x ≡ stored)
      → sign_in_part service repository s input ≡ ok ready
      → IsFor ready input × (ready.email ≡ input.email) × IsHarmless stored ready
  unfolding sign_in_part touches_sign_in
  sign_in_part-IsHarmless stored input ready unasked read h =
      elim (Bool-cases (is_some input.admin || touches_sign_in input)) [
        | inl touched ↦
            let through : (repository.select_by_id s input.id >>= judged service repository s input)
                ≡ ok ready =
              ground (arith, h, touched) in
            let (x, found_x, passed) =
              bind-ok (repository.select_by_id s input.id) _ ready through in
            let (ids, email, harmless) =
              judged-IsHarmless service repository s x input ready unasked passed in
            let same : x ≡ stored =
              read x (ap (λ y. repository.select_by_id s y) ids.0 ∙ found_x) in
            (ids, email, subst (λ u. IsHarmless u ready) same harmless)
        | inr untouched ↦
            let same : input ≡ ready = ground (arith, h, untouched) in
            let admin : ready.admin ≡ none =
              ap (λ x. x.admin) (sym same) ∙ absent_of input.admin (ground (arith, untouched)) in
            let disabled : ready.disabled ≡ none =
              ap (λ x. x.disabled) (sym same)
              ∙ absent_of input.disabled (ground (arith, untouched)) in
            let lock : ready.disabled_by_admin ≡ none =
              ap (λ x. x.disabled_by_admin) (sym same)
              ∙ absent_of input.disabled_by_admin (ground (arith, untouched)) in
            let local : ready.local_account ≡ none =
              ap (λ x. x.local_account) (sym same)
              ∙ absent_of input.local_account (ground (arith, untouched)) in
            (
              (ap (λ x. x.id) (sym same), ap (λ x. x.caller_id) (sym same)),
              ap (λ x. x.email) (sym same),
              (admin, λ _. (disabled, lock, local)),
            )
      ]

  pub password-kept :
      (input ready : UpdateUserInput)
      → password_part service repository s input ≡ ok ready
      → (hash : Option String) × (ready ≡ record input { password_hash = hash })
  unfolding password_part
  password-kept input ready h = elim (Option-cases input.password) [
    | inl absent ↦ (input.password_hash, ground (arith, h, absent))
    | inr (password, there) ↦ elim (Result-cases (service.hash_and_salt password)) [
      | inl (hash, made) ↦ (some hash, ground (arith, h, there, made))
      | inr (e, broken) ↦ absurd (ground (arith, h, there, broken))
    ]
  ]

  -- prepared
  pub prepared-IsHarmless :
      KeepsIds service
      → (stored : User) (input ready : UpdateUserInput)
      → ¬ IsAsked service repository s input.caller_id
      → ((x : User) → repository.select_by_id s ready.id ≡ ok x → x ≡ stored)
      → prepared service repository s input ≡ ok ready
      → IsFor ready input × (ready.email ≡ none) × IsHarmless stored ready
  unfolding prepared
  prepared-IsHarmless keeps stored input ready unasked read h =
      let (a, valid, rest) = bind-ok (service.validate input) _ ready h in
      let (b, addressed, rest') = bind-ok (address_part service repository s a) _ ready rest in
      let (c, signed, last) = bind-ok (sign_in_part service repository s b) _ ready rest' in
      let ids = keeps input a valid in
      let unasked_a : ¬ IsAsked service repository s a.caller_id =
        λ told. unasked (subst (λ x. IsAsked service repository s x) ids.1 told) in
      let (ids', email) =
        address-email service repository s a.caller_id unasked_a a b refl addressed in
      let unasked_b : ¬ IsAsked service repository s b.caller_id =
        λ told. unasked_a (subst (λ x. IsAsked service repository s x) ids'.1 told) in
      let (hash, made) = password-kept c ready last in
      let read_c = λ (x : User) (e : repository.select_by_id s c.id ≡ ok x).
        read x (ap (λ y. repository.select_by_id s y.id) made ∙ e) in
      let (ids'', email', harmless) = sign_in_part-IsHarmless stored b c unasked_b read_c signed in
      (
        (
          ap (λ x. x.id) made ∙ ids''.0 ∙ ids'.0 ∙ ids.0,
          ap (λ x. x.caller_id) made ∙ ids''.1 ∙ ids'.1 ∙ ids.1,
        ),
        ap (λ x. x.email) made ∙ email' ∙ email,
        (
          ap (λ x. x.admin) made ∙ harmless.0,
          λ flag.
              let (x, y, z) = harmless.1 flag in
              (
                ap (λ x. x.disabled) made ∙ x,
                ap (λ x. x.disabled_by_admin) made ∙ y,
                ap (λ x. x.local_account) made ∙ z,
              ),
        ),
      )

-- What an account keeps: its address and its flag, and if it has the flag what its sign-in hangs on.
abbrev pub IsRespected : UserRow → UserRow → Type 0
IsRespected row row' =
    (row'.email ≡ row.email)
    × (row'.admin ≡ row.admin)
    × (row.admin ≡ true
        → (row'.disabled ≡ row.disabled)
          × (row'.disabled_by_admin ≡ row.disabled_by_admin)
          × (row'.local_account ≡ row.local_account))

written-IsRespected :
    (row : UserRow) (ready : UpdateUserInput)
    → ready.email ≡ none
    → IsHarmless (user_of row) ready
    → IsRespected row (written ready row)
unfolding written disabled_after locked_after has_admin_flag
written-IsRespected row ready email harmless = (
  rw email refl,
  rw (harmless.0) refl,
  λ flag. let (x, y, z) = harmless.1 flag in (rw (x, y) refl, rw (x, y) refl, rw z refl),
)

-- An update by a caller that is not an account with the flag, or is disabled, or cannot be read, or
-- is not named, leaves every account its address and its flag, and every account with the flag its
-- sign-in: whether it is disabled, locked or local. This holds whatever the update carries and
-- whatever statement the server refuses.
pub update_by_id-IsRespected :
    (service : UsersService) (db : Database) (input : UpdateUserInput)
    → KeepsIds service
    → ¬ IsAsked service users_repository db input.caller_id
    → (id : String) (row : UserRow) → row_by_id id db.rows ≡ some row
    → (row' : UserRow) × (row_by_id id (update_by_id service users_repository db input).1.rows
        ≡ some row')
      × IsRespected row row'
unfolding written
update_by_id-IsRespected service db input keeps unasked id row here =
    elim (update-cases service db input) [
      | inl same ↦
          (row, ap (λ d. row_by_id id d.rows) same ∙ here, (refl, refl, λ _. (refl, refl, refl)))
      | inr (ready, passed, changed) ↦ elim (Bool-cases (ready.id =ₛ id)) [
        | inr other ↦ (
          row,
          ap (λ d. row_by_id id d.rows) changed ∙ rw (after ready, other) here,
          (refl, refl, λ _. (refl, refl, refl)),
        )
        | inl same ↦
            let named : ready.id ≡ id = (eq_iff ready.id id).0 same in
            let (ids, email, harmless) =
              prepared-IsHarmless service users_repository db keeps (user_of row) input ready
                unasked
                (λ x h. read_as db id row here x (ap (λ y. select_by_id db y) (sym named) ∙ h))
                passed in
            (
              written ready row,
              ap (λ d. row_by_id id d.rows) changed ∙ rw (after ready, same, here) refl,
              written-IsRespected row ready email harmless,
            )
      ]
    ]
  where
    after :
        (ready : UpdateUserInput)
        → row_by_id id (change_row ready.id (written ready) db.rows) ≡ (
            if ready.id =ₛ id
            then Option.map (written ready) (row_by_id id db.rows)
            else row_by_id id db.rows)
    after ready = row_by_id-change_row id ready.id (written ready) db.rows (λ _. refl)

-- A deletion of an account with the flag by such a caller deletes nothing.
pub delete_by_id-kept :
    (service : UsersService) (db : Database) (id caller_id : String) (row : UserRow)
    → ¬ IsAsked service users_repository db caller_id
    → row_by_id id db.rows ≡ some row
    → row.admin ≡ true
    → (delete_by_id service users_repository db id caller_id).1 ≡ db
unfolding has_admin_flag
delete_by_id-kept service db id caller_id row unasked here flag =
    elim (delete-cases service db id caller_id) [
      | inl same ↦ same
      | inr (passed, changed) ↦ absurd (
          unasked (
            guard-IsAsked service users_repository db (user_of row) caller_id administrator_deleted
              true flag (delete-guarded service db id caller_id row here passed)))
    ]
