-- ===== src/Accounts/Update.antt =====
-- UsersService.UpdateByID and DeleteByID of internal/core/usecase/users.go, with the checks of who may
-- change an address, the flag and a sign-in. The input's validation, the spelling of an address
-- (ValidateEmail), the length of a password and its hash are arguments; what a check takes out of the
-- input is the input that it answers. A nil input is left out.
use go_rest_api_service_temp.Base.{
  ℕ, String, Bool, true, false, not, ◌&&◌, ◌||◌, Option, none, some, if◌then◌else◌, ltb, ◌=ₛ◌,
  is_some,
}
use go_rest_api_service_temp.Revoked.{nil_uuid}
use go_rest_api_service_temp.Accounts.{
  User, UpdateUserInput, invalid_input, invalid_user_password, administrator_only,
  change_without_caller, Result, ok, error, ◌>>=◌, ◌>>◌, fail_if, UsersRepository, is_set,
  has_admin_flag, is_disabled_account,
}
use go_rest_api_service_temp.Accounts.Guard.{
  administrator_disabled, administrator_enabled, administrator_federated, administrator_made_local,
  administrator_deleted, administrator_demoted, found, is_administrator_account,
  guard_administrator,
}

pub record UsersService : Type 0 where
  pub validate : UpdateUserInput → Result UpdateUserInput
  pub spelled : String → Option String
  pub byte_length : String → ℕ
  pub hash_and_salt : String → Result String
  pub release_slot : Result Unit

-- Equality of Boolean values
abbrev pub same_bool : Bool → Bool → Bool
same_bool true b = b
same_bool false b = not b

-- touchesSignIn
unfoldable pub touches_sign_in : UpdateUserInput → Bool
touches_sign_in input =
    is_some input.disabled || is_some input.disabled_by_admin || is_some input.local_account

-- lockMayChange: the input without what is no change, and whether it pulls in two directions
unfoldable pub lock_may_change : UpdateUserInput → User → UpdateUserInput × Bool
lock_may_change input stored = elim input.disabled_by_admin [
  | none ↦ (input, false)
  | some lock ↦
      let kept =
        if same_bool lock (is_set stored.disabled_by_admin)
        then record input { disabled_by_admin = none }
        else input in
      elim input.disabled [
        | none ↦ (kept, false)
        | some disabled ↦
            if same_bool disabled (is_disabled_account (some stored))
            then (record kept { disabled = none }, false)
            else (kept, not (same_bool disabled lock))
      ]
]

-- sameAddress
unfoldable pub same_address : UsersService → (stored sent : String) → Bool
same_address service stored sent =
    stored =ₛ sent
    || elim (service.spelled stored) [ none ↦ false | some spelled ↦ spelled =ₛ sent ]

module _ {S : Type 0} (service : UsersService) (repository : UsersRepository S) (s : S) where
  -- callerIsAdministrator
  unfoldable pub caller_is_administrator : (caller_id : String) → Result Bool
  caller_is_administrator caller_id = do
    caller ← found repository s caller_id
    ok (has_admin_flag caller && not (is_disabled_account caller))

  -- Whether the caller may write the stored address in the service's spelling
  unfoldable pub respells : (caller_id : String) → Result Bool
  respells caller_id = if caller_id =ₛ nil_uuid then ok false else caller_is_administrator caller_id

  -- addressMayChange, of the stored address in another spelling
  unfoldable pub respelled : UpdateUserInput → Result UpdateUserInput
  respelled input = do
    asked ← respells input.caller_id
    ok (if asked then input else record input { email = none })

  -- addressMayChange, of another address
  unfoldable pub readdressed : UpdateUserInput → Result UpdateUserInput
  readdressed input = do
    fail_if (input.caller_id =ₛ nil_uuid) change_without_caller
    asked ← caller_is_administrator input.caller_id
    if asked then ok input else error (administrator_only "email")

  -- addressMayChange, of the address that is sent
  unfoldable pub address_may_change : UpdateUserInput → String → Result UpdateUserInput
  address_may_change input sent = do
    stored ← repository.select_by_id s input.id
    if stored.email =ₛ sent
        then ok (record input { email = none })
        else if same_address service stored.email sent
        then respelled input
        else readdressed input

  -- flagMayChange
  unfoldable pub flag_may_change : UpdateUserInput → User → Result UpdateUserInput
  flag_may_change input stored = elim input.admin [
    | none ↦ ok input
    | some admin ↦
        if same_bool admin (has_admin_flag (some stored))
        then ok (record input { admin = none })
        else do
          asked ← is_administrator_account repository s input.caller_id
          fail_if (not asked) (administrator_only "admin")
          if admin then ok input else do
            guard_administrator repository s (some stored) input.caller_id administrator_demoted
                true
            ok input
  ]

  -- The switch on disabled
  unfoldable pub disabled_may_change : UpdateUserInput → User → Result UpdateUserInput
  disabled_may_change input stored = elim input.disabled [
    | none ↦ ok input
    | some disabled ↦
        if same_bool disabled (is_disabled_account (some stored))
        then ok (record input { disabled = none })
        else do
          guard_administrator repository s (some stored) input.caller_id
              (if disabled then administrator_disabled else administrator_enabled) disabled
          ok input
  ]

  -- The guard of the lock
  unfoldable pub lock_is_guarded : UpdateUserInput → User → Result UpdateUserInput
  lock_is_guarded input stored = elim input.disabled_by_admin [
    | none ↦ ok input
    | some lock ↦ do
      guard_administrator repository s (some stored) input.caller_id
          (if lock then administrator_disabled else administrator_enabled) lock
      ok input
  ]

  -- The switch on local_account
  unfoldable pub local_may_change : UpdateUserInput → User → Result UpdateUserInput
  local_may_change input stored = elim input.local_account [
    | none ↦ ok input
    | some local ↦
        if same_bool local (is_set stored.local_account)
        then ok (record input { local_account = none })
        else do
          guard_administrator repository s (some stored) input.caller_id
              (if local then administrator_made_local else administrator_federated) (not local)
          ok input
  ]

  -- administratorSignInMayChange, on an account with the flag
  unfoldable pub sign_in_may_change : UpdateUserInput → User → Result UpdateUserInput
  sign_in_may_change input stored = do
    a ← disabled_may_change input stored
    b ← lock_is_guarded a stored
    local_may_change b stored

  unfoldable pub administrator_sign_in_may_change : UpdateUserInput → User → Result UpdateUserInput
  administrator_sign_in_may_change input stored =
      if not (has_admin_flag (some stored)) then ok input else sign_in_may_change input stored

  -- UpdateByID, the part that an address goes through
  unfoldable pub address_part : UpdateUserInput → Result UpdateUserInput
  address_part input = elim input.email [
    | none ↦ ok input
    | some sent ↦ address_may_change input sent
  ]

  -- UpdateByID, what is judged against the stored account
  unfoldable pub judged : UpdateUserInput → User → Result UpdateUserInput
  judged input stored = do
    flagged ← flag_may_change (lock_may_change input stored).0 stored
    changed ← administrator_sign_in_may_change flagged stored
    fail_if (lock_may_change input stored).1 (invalid_input "disabled_by_admin")
    ok changed

  -- UpdateByID, the part that the flag and the sign-in go through
  unfoldable pub sign_in_part : UpdateUserInput → Result UpdateUserInput
  sign_in_part input =
      if is_some input.admin || touches_sign_in input
      then (repository.select_by_id s input.id >>= judged input)
      else ok input

  -- UpdateByID, the part that a password goes through
  unfoldable pub password_part : UpdateUserInput → Result UpdateUserInput
  password_part input = elim input.password [
    | none ↦ ok input
    | some password ↦ do
      fail_if (ltb (service.byte_length password) 8 || ltb 72 (service.byte_length password))
          invalid_user_password
      hash ← service.hash_and_salt password
      ok (record input { password_hash = some hash })
  ]

  -- UpdateByID, up to the statement that writes
  unfoldable pub prepared : UpdateUserInput → Result UpdateUserInput
  prepared input = do
    valid ← service.validate input
    addressed ← address_part valid
    signed ← sign_in_part addressed
    password_part signed

  unfoldable pub update_by_id : UpdateUserInput → Result Unit × S
  update_by_id input = elim (prepared input) [
    | ok ready ↦ repository.update_by_id ready s
    | error e ↦ (error e, s)
  ]

  -- DeleteByID, up to the statement that writes
  unfoldable pub delete_checked : (id caller_id : String) → Result Unit
  delete_checked id caller_id = do
    fail_if (id =ₛ nil_uuid) (invalid_input "id")
    stored ← found repository s id
    guard_administrator repository s stored caller_id administrator_deleted true

  -- DeleteByID: the deletion, and the slot that is given back after it
  unfoldable pub delete_by_id : (id caller_id : String) → Result Unit × S
  delete_by_id id caller_id = elim (delete_checked id caller_id) [
    | error e ↦ (error e, s)
    | ok _ ↦ let (done, s') = repository.delete_by_id id s in (done >> service.release_slot, s')
  ]
