-- ===== src/Tests/Mails.antt =====
-- Recoveries, registrations and links, with users that are a list of addresses.
use go_rest_api_service_temp.Base.{
  ℕ, ◌-◌, ◌≡◌, ◌≢◌, ◌⊎◌, inl, inr, refl, String, Bool, true, false, Option, none, some, List, [],
  ◌∷◌, ltb, if◌then◌else◌, contains,
}
use go_rest_api_service_temp.Accounts.{User}
use go_rest_api_service_temp.Session.{
  ok, error, user_not_found, user_already_exists, is_valid_token_type,
}
use go_rest_api_service_temp.Session.Denylist.{
  Table, revoked_tokens, row_of, insert_row, inserted, consume,
}
use go_rest_api_service_temp.Session.Refresh.{AuthnService, account_active}
use go_rest_api_service_temp.Session.Logout.{consume_single_use_token}
use go_rest_api_service_temp.Session.SingleUse.{at_time, sweeping, perform_all}
use go_rest_api_service_temp.Recovery.{
  mail_claims, account_verification, password_reset, account_exists, Desk, MailService,
  RegisterUserInput, recipient_of, recipient_of_input, recover_password, registered,
}
use go_rest_api_service_temp.Recovery.Silence.{IsWorking, recover_password-silent}
use go_rest_api_service_temp.Recovery.Registration.{registered-alike}
use go_rest_api_service_temp.Recovery.Links.{
  ResetPasswordInput, Store, LinkService, reset_by_token, reset_spent, reset_account, reset_answer,
  reset_password,
}
use go_rest_api_service_temp.Recovery.Once.{reset_password-once}

abbrev local_user : (email : String) → User
local_user email = record {
  id = email;
  first_name = "A";
  last_name = "B";
  email = email;
  password_hash = "h";
  disabled = some false;
  disabled_by_admin = some false;
  verified = some true;
  admin = some false;
  local_account = some true;
}

abbrev mails : MailService (List String) ℕ
mails = record {
  validate_recovery = ok;
  validate_registration = ok;
  ensure_uuid_v7 = ok;
  byte_length = λ s. 8;
  is_address = λ s. true;
  login_throttle = some (record {
    attempt = λ n key. if ltb 0 n then (n - 1, none) else (n, some 60);
    succeed = λ n key. 3;
  });
  throttle_key = λ purpose email. email;
  get_by_email = λ users email.
      if contains users email then ok (some (local_user email)) else error user_not_found;
  stored_account = λ users id. error user_not_found;
  create = λ users input.
      if contains users input.email
      then (error (user_already_exists "" input.email), users)
      else (ok tt, input.email ∷ users);
  sign = λ claims. ok claims.subject;
  deliver = λ mail. ok tt;
  has_notifier = true;
  issuer = "i";
  verification_duration = 5;
  reset_duration = 6;
}

mails-IsWorking : IsWorking mails
mails-IsWorking = record {
  signs = λ claims. (claims.subject, refl);
  delivers = λ mail. refl;
  finds = λ users email. finds_or_not (contains users email) (local_user email);
}
  where
    finds_or_not :
        (b : Bool) (user : User)
        → ((if b then ok (some user) else error user_not_found) ≡ error user_not_found)
          ⊎ ((found : Option User) × ((if b then ok (some user) else error user_not_found)
                ≡ ok found))
    finds_or_not true user = inr (some user, refl)
    finds_or_not false user = inl refl

abbrev desk : List String → Desk (List String) ℕ
desk users = record { users = users; throttle = 2; outbox = [] }

recover_password-silent_example :
    ((recover_password mails (some "a@x") (desk ("a@x" ∷ []))).0
      ≡ (recover_password mails (some "a@x") (desk [])).0)
    × ((recover_password mails (some "a@x") (desk ("a@x" ∷ []))).1.throttle
        ≡ (recover_password mails (some "a@x") (desk [])).1.throttle)
recover_password-silent_example =
    recover_password-silent mails mails-IsWorking (some "a@x") (desk ("a@x" ∷ [])) (desk []) refl

abbrev mailed : Desk (List String) ℕ
mailed = record (desk []) {
  outbox = password_reset (recipient_of mails (local_user "a@x")) "a@x" ∷ [];
}

abbrev form : RegisterUserInput
form = record {
  id = "n";
  first_name = "A";
  last_name = "B";
  email = "a@x";
  password = "p";
  disabled = none;
  by_password = true;
  identity = none;
}

registered-alike_example :
    ((registered mails form (desk [])).0 ≡ (registered mails form (desk ("a@x" ∷ []))).0)
    × ((registered mails form (desk [])).0 ≡ ok tt)
    × ((token : String) × (mails.sign
            (mail_claims mails "n" "a@x" "email_verification" mails.verification_duration)
          ≡ ok token)
        × ((registered mails form (desk [])).1.outbox
            ≡ account_verification (recipient_of_input mails form) token ∷ []))
    × ((registered mails form (desk ("a@x" ∷ []))).1.outbox
        ≡ account_exists (recipient_of_input mails form) ∷ [])
unfolding contains
registered-alike_example =
    registered-alike mails mails-IsWorking form refl (desk []) (desk ("a@x" ∷ [])) refl refl
      ("", "a@x", refl, refl, (user_not_found, refl))

abbrev no_tokens : Table
no_tokens = record { rows = []; now = 5; down = none }

abbrev tokens_service : AuthnService Table
tokens_service = record {
  verify = λ token. error user_not_found;
  sign = λ c. ok c.token_id;
  parse_uuid = some;
  validate = λ _. ok tt;
  get_by_id = λ id. error user_not_found;
  standing = λ _. ok account_active;
  revoked_tokens = some revoked_tokens;
  refresh_rotation_enabled = true;
  refresh_rotation_grace = 0;
  issuer = "i";
  access_token_duration = 3;
  refresh_token_duration = 4;
  now = 5;
  new_v7 = "d";
}

-- The users are the hash of the one password.
abbrev links : LinkService Table String
links = record {
  authn = tokens_service;
  validate_reset = λ input. ok tt;
  byte_length = λ s. 8;
  hash_and_salt = ok;
  get_by_id = λ users id. ok none;
  verify_account = λ id address users. (ok tt, users);
  reset = λ id address password_hash users. (ok tt, password_hash);
}

abbrev reset_link : (password : String) → ResetPasswordInput
reset_link password = record {
  user_id = "u";
  email = "a@x";
  password = password;
  token_id = "v";
  token_expires_at = 50;
}

abbrev before_reset : Store Table String
before_reset = record { tokens = no_tokens; users = "old" }

abbrev after_reset : Store Table String
after_reset = record {
  tokens = record no_tokens {
    rows =
        record {
          jti = "v";
          users_id = "u";
          token_type = "password_reset";
          expires_at = 50;
          revoked_at = 5;
          replaced_by = none;
        }
        ∷ [];
  };
  users = "new";
}

reset_runs : reset_password links (reset_link "new") before_reset ≡ (ok tt, after_reset)
unfolding reset_password reset_by_token reset_spent reset_account reset_answer
    consume_single_use_token revoked_tokens consume is_valid_token_type contains inserted insert_row
    row_of
reset_runs = refl

abbrev later_store : Store Table String
later_store = record {
  tokens = perform_all after_reset.tokens (at_time 49 none ∷ sweeping ∷ []);
  users = "new";
}

reset_password-once_example : (reset_password links (reset_link "other") later_store).0 ≢ ok tt
reset_password-once_example =
    reset_password-once links refl (reset_link "new") (reset_link "other") before_reset after_reset
      later_store (at_time 49 none ∷ sweeping ∷ []) reset_runs refl refl refl refl
