-- ===== src/Tests/Accounts.antt =====
-- Logins, the lifetimes of tokens and the counters of resources.
use go_rest_api_service_temp.Base.{
  ℕ, ◌+◌, ◌*◌, ◌-◌, ◌≤◌, ◌≡◌, refl, arith, String, true, Option, none, some, [], ◌∷◌, ◌=ₛ◌, ltb,
  if◌then◌else◌,
}
use go_rest_api_service_temp.Base.Int.{pos}
use go_rest_api_service_temp.Session.{
  token_type_access, token_type_refresh, Result, ok, error, invalid_credentials, user_not_found,
}
use go_rest_api_service_temp.Session.Refresh.{account_active}
use go_rest_api_service_temp.Session.Login.{
  Throttle, LoginUser, LoginUserInput, LoginUserOutput, LoginService, no_permissions, throttle_key,
  issue_session, token_of, is_proven, authenticated, login_user,
}
use go_rest_api_service_temp.Session.Secrecy.{MaySignIn, login_user-rejected, login_user-MaySignIn}
use go_rest_api_service_temp.Lifetimes.{
  TokenLifetimes, UpdateTokenLifetimesInput, default_token_lifetimes, validate_token_lifetimes,
  validate_lifetimes, validate_input, new_token_lifetimes, reload_lifetimes, current, update, tick,
  put, handle_lifetimes, run_lifetimes, minute, hour,
}
use go_rest_api_service_temp.Lifetimes.Bounds.{IsBounded, run_lifetimes-IsBounded}
use go_rest_api_service_temp.Usage.{
  Counter, usage_of, guarded_increment, is_verified, signed, reserve_usage, reserve_all,
}
use go_rest_api_service_temp.Usage.Limit.{reserve_all-granted}

-- A throttle that counts the attempts left for one key
abbrev three : Throttle ℕ
three = record {
  attempt = λ n key. if ltb 0 n then (n - 1, none) else (n, some 60);
  succeed = λ n key. 3;
}

abbrev accounts : String → Result LoginUser
accounts email =
    if email =ₛ "a@x"
    then ok (record {
      id = "u";
      email = "a@x";
      disabled = none;
      local_account = some true;
      password_hash = "secret";
    })
    else error user_not_found

abbrev login_service : LoginService ℕ ℕ
login_service = record {
  validate = λ _. ok tt;
  normalize = λ s. s;
  hash_key = λ s. s;
  login_throttle = some three;
  get_by_email_for_auth = accounts;
  get_by_id = accounts;
  standing = λ _. ok account_active;
  compare_passwords = λ hash password. hash =ₛ password;
  sign = λ c. ok c.token_type;
  issuer = "i";
  access_token_duration = 1;
  refresh_token_duration = 2;
  select_authz = λ _. ok no_permissions;
  no_resources = 0;
}

abbrev stranger : LoginUserInput
stranger = record { email = "b@x"; password = "secret"; is_password = true }

abbrev owner : LoginUserInput
owner = record { email = "a@x"; password = "secret"; is_password = true }

abbrev session : LoginUserOutput ℕ
session = record { user_id = "u"; access_token = "access"; refresh_token = "refresh"; granted = 0 }

login_user-rejected_example :
    login_user login_service (some stranger) 3 ≡ (error invalid_credentials, 2)
unfolding is_proven
login_user-rejected_example =
    login_user-rejected login_service stranger three 3 2 refl refl refl refl

signs_in : login_user login_service (some owner) 2 ≡ (ok session, 3)
unfolding login_user authenticated is_proven issue_session
signs_in = refl

login_user-MaySignIn_example :
    ((three.attempt 2 (throttle_key login_service "login" "a@x")).1 ≡ none)
    × (3
        ≡ three.succeed
            (three.attempt 2 (throttle_key login_service "login" "a@x")).0
            (throttle_key login_service "login" "a@x"))
    × ((user : LoginUser) × (accounts "a@x" ≡ ok user)
        × MaySignIn login_service owner user
        × (session.user_id ≡ user.id)
        × (login_service.sign
              (token_of login_service user token_type_access login_service.access_token_duration)
            ≡ ok session.access_token)
        × (login_service.sign
              (token_of login_service user token_type_refresh login_service.refresh_token_duration)
            ≡ ok session.refresh_token))
login_user-MaySignIn_example =
    login_user-MaySignIn login_service owner three 2 3 session refl signs_in

abbrev longer : TokenLifetimes
longer = record default_token_lifetimes { access_token_duration = pos (10 * minute) }

abbrev too_long : TokenLifetimes
too_long = record default_token_lifetimes { access_token_duration = pos (49 * hour) }

abbrev new_lifetimes : UpdateTokenLifetimesInput
new_lifetimes = record {
  access_token_duration = pos (10 * minute);
  refresh_token_duration = pos (24 * hour);
  updated_by = "u";
}

after_events :
    current (
      run_lifetimes new_token_lifetimes (
        tick (some default_token_lifetimes) 5
        ∷ put (some new_lifetimes) (some longer) (some longer) 6
        ∷ tick (some too_long) 7
        ∷ tick none 8
        ∷ []))
    ≡ some longer
unfolding current run_lifetimes new_token_lifetimes handle_lifetimes update reload_lifetimes
    validate_input validate_lifetimes validate_token_lifetimes
after_events = refl

run_lifetimes-IsBounded_example : IsBounded longer
run_lifetimes-IsBounded_example =
    run_lifetimes-IsBounded
      (tick (some default_token_lifetimes) 5
        ∷ put (some new_lifetimes) (some longer) (some longer) 6
        ∷ tick (some too_long) 7
        ∷ tick none 8
        ∷ [])
      longer after_events

abbrev sign : ℕ → Option String
sign n = some "s"

abbrev one_used : Counter
one_used = record { usage = 1; signature = "s" }

-- Three requests for a first unit at once, where the limit is two
race :
    reserve_all none sign (pos 2) none (true ∷ true ∷ true ∷ [])
    ≡ (2, some (record { usage = 2; signature = "s" }))
unfolding reserve_all reserve_usage guarded_increment is_verified signed
race = refl

reserve_all-granted_example :
    (usage_of (some (record { usage = 2; signature = "s" })) ≡ 0 + 2) × (2 ≤ 2) × (0 + 2 ≤ 2)
unfolding reserve_all reserve_usage guarded_increment is_verified signed
reserve_all-granted_example =
    reserve_all-granted none sign 2 none (true ∷ true ∷ true ∷ []) (omega arith)
