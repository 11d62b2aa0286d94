-- ===== src/Tests/Standing.antt =====
-- Two administrator accounts and a plain one, updated, deleted and stripped of roles.
use go_rest_api_service_temp.Base.{
  ◌≡◌, refl, String, Bool, true, false, not, ◌&&◌, none, some, List, [], ◌∷◌, arith, contains, In,
}
use go_rest_api_service_temp.Accounts.{UpdateUserInput, ok, has_admin_flag, is_disabled_account}
use go_rest_api_service_temp.Accounts.Guard.{
  found, is_administrator_account, guard_last, guard_flagged, guard_administrator,
  stripped_only_by_an_administrator, administrators_are_not_stripped, administrators_keep_the_role,
}
use go_rest_api_service_temp.Accounts.Table.{
  UserRow, Database, sent, row_by_id, change_row, drop_row, select_by_id, enabled_administrator,
  count_enabled_administrators, is_enabled_administrator, select_administrators_among,
  select_administrators_holding, disabled_after, locked_after, written, executed, update_row,
  delete_row, waiting, proven, verify, users_repository,
}
use go_rest_api_service_temp.Accounts.Update.{
  UsersService, lock_may_change, touches_sign_in, same_address, caller_is_administrator, respells,
  respelled, readdressed, address_may_change, flag_may_change, disabled_may_change, lock_is_guarded,
  local_may_change, sign_in_may_change, administrator_sign_in_may_change, address_part, judged,
  sign_in_part, password_part, prepared, update_by_id, delete_checked, delete_by_id,
}
use go_rest_api_service_temp.Accounts.Address.{IsAsked}
use go_rest_api_service_temp.Accounts.Protection.{KeepsIds, IsRespected, update_by_id-IsRespected}
use go_rest_api_service_temp.Accounts.Manned.{
  UserRequest, updating, deleting, verifying, serve_request, serve_requests, IsManned,
  serve_requests-IsManned,
}
use go_rest_api_service_temp.Accounts.Roles.{IsCaller, stripped-unflagged}

abbrev users_service : UsersService
users_service = record {
  validate = ok;
  spelled = some;
  byte_length = λ s. 8;
  hash_and_salt = ok;
  release_slot = ok tt;
}

abbrev account : (id : String) (admin : Bool) → UserRow
account id admin = record {
  id = id;
  first_name = "A";
  last_name = "B";
  email = id;
  password_hash = "h";
  disabled = false;
  disabled_by_admin = false;
  verified = true;
  admin = admin;
  local_account = true;
  linked = false;
  role_ids = "r" ∷ [];
}

abbrev users : Database
users = record {
  rows = account "a" true ∷ account "b" true ∷ account "c" false ∷ [];
  system_role = λ id. false;
  is_uuid_v7 = λ id. true;
  refuses = λ statement. none;
}

abbrev update_of : (id caller_id : String) → UpdateUserInput
update_of id caller_id = record {
  id = id;
  caller_id = caller_id;
  first_name = none;
  last_name = none;
  email = some "d";
  password = none;
  password_hash = none;
  disabled = some true;
  disabled_by_admin = none;
  local_account = none;
  admin = none;
}

program : Unit {0}
unfolding has_admin_flag is_disabled_account found is_administrator_account guard_last guard_flagged
    guard_administrator sent row_by_id change_row drop_row select_by_id enabled_administrator
    count_enabled_administrators is_enabled_administrator disabled_after locked_after written
    executed update_row delete_row waiting proven verify lock_may_change touches_sign_in
    same_address caller_is_administrator respells respelled readdressed address_may_change
    flag_may_change disabled_may_change lock_is_guarded local_may_change sign_in_may_change
    administrator_sign_in_may_change address_part judged sign_in_part password_part prepared
    update_by_id delete_checked delete_by_id serve_request serve_requests
    stripped_only_by_an_administrator administrators_are_not_stripped administrators_keep_the_role
    select_administrators_among select_administrators_holding
program = tt

-- The second administrator is disabled by the first, who then may not be deleted.
abbrev requests : List UserRequest
requests = updating (update_of "b" "a") ∷ deleting "a" "a" ∷ verifying "c" "c" ∷ []

requests_run :
    (serve_requests users_service requests users).rows
    ≡ account "a" true
      ∷ record (account "b" true) { email = "d"; disabled = true; disabled_by_admin = true }
      ∷ account "c" false
      ∷ []
unfolding program
requests_run = refl

users-IsManned : IsManned users
unfolding program
users-IsManned = record { consistent = (λ h. h, (λ h. h, (λ h. h, tt))); manned = omega arith }

serve_requests-IsManned_example : IsManned (serve_requests users_service requests users)
serve_requests-IsManned_example =
    serve_requests-IsManned users_service requests users users-IsManned

nobody : ¬ IsAsked users_service users_repository users "c"
unfolding program
nobody h = absurd (ground (arith, h))

users_service-KeepsIds : KeepsIds users_service
users_service-KeepsIds input valid h = (ground (arith, h), ground (arith, h))

update_by_id-IsRespected_example :
    (row' : UserRow) × (row_by_id "b"
        (update_by_id users_service users_repository users (update_of "b" "c")).1.rows
      ≡ some row')
    × IsRespected (account "b" true) row'
unfolding program
update_by_id-IsRespected_example =
    update_by_id-IsRespected users_service users (update_of "b" "c") users_service-KeepsIds nobody
      "b" (account "b" true) refl

nobody_of_roles : ¬ IsCaller users "c"
unfolding program
nobody_of_roles h = absurd (ground (arith, h))

stripped-unflagged_example :
    (administrators_are_not_stripped users_repository users ("c" ∷ []) "c" ≡ ok tt
      → (row : UserRow) → In row users.rows
      → contains ("c" ∷ []) row.id && row.admin ≡ false)
    × (administrators_keep_the_role users_repository users "r" "c" ≡ ok tt
        → (row : UserRow) → In row users.rows
        → contains row.role_ids "r" && row.admin && not (users.system_role "r") ≡ false)
stripped-unflagged_example = stripped-unflagged users "c" nobody_of_roles ("c" ∷ []) "r"

-- The plain account may take a role from itself, and the role may not be deleted by it.
plain_account_strips_itself :
    administrators_are_not_stripped users_repository users ("c" ∷ []) "c" ≡ ok tt
unfolding program contains
plain_account_strips_itself = refl
