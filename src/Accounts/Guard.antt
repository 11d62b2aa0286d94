-- ===== src/Accounts/Guard.antt =====
-- The guard of internal/core/usecase/administrator_account.go, and the two that
-- internal/core/usecase/roles.go puts before a role is taken from accounts.
use go_rest_api_service_temp.Base.{
  String, Bool, not, ◌&&◌, Option, none, some, List, [], ◌∷◌, if◌then◌else◌, leb, ◌=ₛ◌,
}
use go_rest_api_service_temp.Revoked.{nil_uuid}
use go_rest_api_service_temp.Accounts.{
  User, user_not_found, administrator_protected, change_without_caller, Result, ok, error, ◌>>=◌,
  ◌>>◌, fail_if, UsersRepository, has_admin_flag, is_disabled_account,
}

-- What is done to an account, and the two rules, in the words of the refusal
abbrev pub administrator_disabled : String
administrator_disabled = "disabled"

abbrev pub administrator_enabled : String
administrator_enabled = "enabled"

abbrev pub administrator_federated : String
administrator_federated = "made a federated account"

abbrev pub administrator_made_local : String
administrator_made_local = "made a local account"

abbrev pub administrator_deleted : String
administrator_deleted = "deleted"

abbrev pub administrator_stripped : String
administrator_stripped = "stripped of a role"

abbrev pub administrator_demoted : String
administrator_demoted = "stripped of the admin flag"

abbrev pub the_administrator_account : String
the_administrator_account = "the administrator account"

abbrev pub the_last_administrator_account : String
the_last_administrator_account = "the last enabled administrator account"

module _ {S : Type 0} (repository : UsersRepository S) (s : S) where
  -- The account of an id, or none if there is no such account; any other error stays one.
  unfoldable pub found : (id : String) → Result (Option User)
  found id = elim (repository.select_by_id s id) [
    | ok account ↦ ok (some account)
    | error user_not_found ↦ ok none
    | error e ↦ error e
  ]

  -- isAdministratorAccount
  unfoldable pub is_administrator_account : (id : String) → Result Bool
  is_administrator_account id =
      if id =ₛ nil_uuid
      then error change_without_caller
      else do caller ← found id; ok (has_admin_flag caller && not (is_disabled_account caller))

  -- guardAdministrator, from the question whether the account may sign in on
  unfoldable pub guard_last : (target_id action : String) → Result Unit
  guard_last target_id action = do
    signs_in ← repository.is_enabled_administrator s target_id
    if not signs_in then ok tt else do
      enabled ← repository.count_enabled_administrators s
      fail_if (leb enabled 1) (administrator_protected action the_last_administrator_account)

  -- guardAdministrator, on an account with the flag
  unfoldable pub guard_flagged : (target_id caller_id action : String) (locks : Bool) → Result Unit
  guard_flagged target_id caller_id action locks = do
    asked ← is_administrator_account caller_id
    fail_if (not asked) (administrator_protected action the_administrator_account)
    if not locks then ok tt else guard_last target_id action

  unfoldable pub guard_administrator :
      (target : Option User) (caller_id action : String) (locks : Bool) → Result Unit
  guard_administrator none caller_id action locks = ok tt
  guard_administrator (some account) caller_id action locks =
      if not (has_admin_flag (some account))
      then ok tt
      else guard_flagged account.id caller_id action locks

  -- strippedOnlyByAnAdministrator
  unfoldable pub stripped_only_by_an_administrator :
      (administrators : List String) (caller_id : String) → Result Unit
  stripped_only_by_an_administrator [] caller_id = ok tt
  stripped_only_by_an_administrator (_ ∷ _) caller_id = do
    asked ← is_administrator_account caller_id
    fail_if (not asked) (administrator_protected administrator_stripped the_administrator_account)

  -- administratorsAreNotStripped
  unfoldable pub administrators_are_not_stripped :
      (user_ids : List String) (caller_id : String) → Result Unit
  administrators_are_not_stripped user_ids caller_id = do
    administrators ← repository.select_administrators_among s user_ids
    stripped_only_by_an_administrator administrators caller_id

  -- administratorsKeepTheRole
  unfoldable pub administrators_keep_the_role : (role_id caller_id : String) → Result Unit
  administrators_keep_the_role role_id caller_id = do
    administrators ← repository.select_administrators_holding s role_id
    stripped_only_by_an_administrator administrators caller_id
