-- ===== src/Tests/Sessions.antt =====
-- Sessions: the denylist, refreshes, logouts and single-use tokens.
use go_rest_api_service_temp.Base.{
  ℕ, ◌≡◌, ◌≢◌, refl, String, true, false, none, some, [], ◌∷◌, contains,
}
use go_rest_api_service_temp.Revoked.{new_revoked_access_tokens, nil_uuid}
use go_rest_api_service_temp.Session.{
  ok, error, Claims, text, number, claim_string, is_rotated, is_valid_token_type,
}
use go_rest_api_service_temp.Session.Denylist.{
  Row, Table, row_of, insert_row, inserted, rotate, consume, lookup, unexpired, walk, out_of_fuel,
  revoke_chain, revoked_tokens,
}
use go_rest_api_service_temp.Session.Chain.{Chain, start, step, by, has_row, walk_ends}
use go_rest_api_service_temp.Session.Denial.{rotate-orphan}
use go_rest_api_service_temp.Session.Refresh.{
  account_active, AuthnService, until, claim_expiry, is_disabled, jti_of, sub_of, check_type,
  resolve_spent_refresh_token, check_denylist, active_user, revoked_error, rotate_refresh_token,
  issue, renew, refresh_access_token,
}
use go_rest_api_service_temp.Session.Renewal.{IsRenewed, refresh-IsRenewed}
use go_rest_api_service_temp.Session.Replay.{replay-has_row}
use go_rest_api_service_temp.Session.Logout.{LogoutUserInput, logout_user, consume_single_use_token}
use go_rest_api_service_temp.Session.Ending.{logout-has_row, any_revoked}

abbrev spent_row : (jti next : String) → (revoked_at : ℕ) → Row
spent_row jti next revoked_at = record {
  jti = jti;
  users_id = "u";
  token_type = "refresh";
  expires_at = 9000000000;
  revoked_at = revoked_at;
  replaced_by = some next;
}

-- The session a → b → c, where c was not used yet.
abbrev table : Table
table = record { rows = spent_row "b" "c" 200 ∷ spent_row "a" "b" 100 ∷ []; now = 210; down = none }

abbrev empty_table : Table
empty_table = record { rows = []; now = 5; down = none }

abbrev claims_of : String → Claims
claims_of token = record {
  jti = text token;
  sub = text "u";
  email = text "u@x";
  token_type = text "refresh";
  exp = number 9;
}

abbrev service : (grace : ℕ) → AuthnService Table
service grace = record {
  verify = λ token. ok (claims_of token);
  sign = λ c. ok c.token_id;
  parse_uuid = some;
  validate = λ _. ok tt;
  get_by_id = λ id. ok (record { id = id; email = "u@x"; disabled = none });
  standing = λ _. ok account_active;
  revoked_tokens = some revoked_tokens;
  refresh_rotation_enabled = true;
  refresh_rotation_grace = grace;
  issuer = "i";
  access_token_duration = 3;
  refresh_token_duration = 4;
  now = 210;
  new_v7 = "d";
}

walk_ends_example : walk 3 table.rows [] "a" ≢ out_of_fuel
walk_ends_example = walk_ends table.rows "a"

rotate-orphan_example :
    let raced = (rotate "a" "f" "u" 50 (rotate "a" "e" "u" 50 empty_table).1).1 in
    ((rotate "a" "f" "u" 50 (rotate "a" "e" "u" 50 empty_table).1)
      ≡ (ok tt, (rotate "a" "e" "u" 50 empty_table).1))
    × (has_row (revoke_chain "a" "u" 50 raced).1.rows "e" ≡ true)
    × (has_row (revoke_chain "a" "u" 50 raced).1.rows "f" ≡ false)
unfolding row_of
rotate-orphan_example =
    rotate-orphan empty_table "a" "e" "f" "u" 50 refl refl refl refl refl refl refl refl refl refl

abbrev a_to_c : Chain table.rows "a" "c"
unfolding row_of
a_to_c =
    step (by (spent_row "a" "b" 100) refl refl) (step (by (spent_row "b" "c" 200) refl refl) start)

replay-has_row_example :
    ((refresh_access_token (service 60) (some "a") table).0 ≡ error revoked_error)
    × (has_row (refresh_access_token (service 60) (some "a") table).1.rows "c" ≡ true)
unfolding row_of jti_of
replay-has_row_example =
    replay-has_row (service 60) "a" (claims_of "a") "a" table (spent_row "a" "b" 100) "b" "c" refl
      refl refl refl refl refl refl refl refl refl refl a_to_c

-- The client that never received c asks again with b.
retry :
    refresh_access_token (service 60) (some "b") table
    ≡ (ok (record { access_token = nil_uuid; refresh_token = "c" }), table)
unfolding refresh_access_token jti_of check_denylist revoked_tokens lookup unexpired row_of
    resolve_spent_refresh_token is_rotated renew sub_of check_type active_user is_disabled issue
    rotate_refresh_token claim_expiry until
retry = refl

-- A token that was not spent is rotated.
abbrev after_refresh : Table
after_refresh = record table {
  rows =
      record {
        jti = "c";
        users_id = "u";
        token_type = "refresh";
        expires_at = 9000000000;
        revoked_at = 210;
        replaced_by = some "d";
      }
      ∷ table.rows;
}

refreshed :
    refresh_access_token (service 60) (some "c") table
    ≡ (ok (record { access_token = nil_uuid; refresh_token = "d" }), after_refresh)
unfolding refresh_access_token jti_of check_denylist revoked_tokens lookup unexpired row_of
    resolve_spent_refresh_token is_rotated renew sub_of check_type active_user is_disabled issue
    rotate_refresh_token claim_expiry until rotate inserted insert_row
refreshed = refl

refresh-IsRenewed_example :
    IsRenewed
      (service 60)
      "c"
      table
      (record { access_token = nil_uuid; refresh_token = "d" })
      after_refresh
refresh-IsRenewed_example =
    refresh-IsRenewed (service 60) "c" table
      (record { access_token = nil_uuid; refresh_token = "d" }) after_refresh refreshed

abbrev leave : LogoutUserInput
leave = record {
  user_id = "u";
  refresh_token = "a";
  access_token_jti = "x";
  access_token_expires_at = 300;
}

logout-has_row_example :
    let after =
      logout_user (service 60) (λ _. ok tt) (some leave) (table, some new_revoked_access_tokens) in
    (after.0 ≡ ok tt) × (has_row after.1.0.rows "c" ≡ true) × (any_revoked after.1.1 "x" ≡ true)
unfolding claim_string
logout-has_row_example =
    logout-has_row (service 60) (λ _. ok tt) leave (claims_of "a") "a" "c" table
      new_revoked_access_tokens refl refl refl refl refl refl refl refl refl refl a_to_c

abbrev used : Table
used = record empty_table {
  rows =
      record {
        jti = "v";
        users_id = "u";
        token_type = "email_verification";
        expires_at = 50;
        revoked_at = 5;
        replaced_by = none;
      }
      ∷ [];
}

first :
    consume_single_use_token (service 60) "v" "u" "email_verification" 50 empty_table
    ≡ (ok tt, used)
unfolding consume_single_use_token revoked_tokens consume is_valid_token_type contains inserted
    insert_row row_of
first = refl
