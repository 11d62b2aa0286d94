-- ===== src/Tests/Guards.antt =====
-- The grant guard and the middlewares of the access chain.
use go_rest_api_service_temp.Base.{
  ◌≡◌, refl, inr, arith, if◌then◌else◌, String, true, false, Option, none, some, [], ◌∷◌, ◌=ₛ◌,
  here, contains,
}
use go_rest_api_service_temp.Revoked.{is_revoked, new_revoked_access_tokens}
use go_rest_api_service_temp.Session.{text, claim_string}
use go_rest_api_service_temp.Session.Refresh.{account_active}
use go_rest_api_service_temp.Grants.{
  Grant, Result, ok, error, Fields, no_fields, field, object, array, item, no_items, field_of,
  texts_of, actions_of, grants_of, covers, first_not_held, check_grants, Page, collect,
  collect_roles, check_roles, Json,
}
use go_rest_api_service_temp.Grants as Grants
use go_rest_api_service_temp.Grants.Pages.{Pages, last_page, more, check_roles-covers}
use go_rest_api_service_temp.Access.{
  ClaimMap, claim_of, HttpRequest, served, chain, allowed, denied, known, member, Services,
  cut_space, bearer_token, validator_of, verified_claims, revocation, check_token,
  check_access_token, subject, subject_text, check_authz, require_active_account,
  require_project_membership, with_rate_limit, access_chain, refused,
}
use go_rest_api_service_temp.Access.Admission.{
  IsAdmitted, access_chain-IsAdmitted, access_chain-is_revoked, access_chain-served,
}

abbrev permissions : Fields
permissions =
    field "permissions"
      (object (
        field "users"
          (object (
            field "u"
              (object (
                field "/projects/*"
                  (array (item (Grants.text "GET") (item (Grants.text "PUT") no_items))) no_fields))
              no_fields))
          no_fields))
      no_fields

abbrev authz : String → Result (Option Fields)
authz user = ok (some permissions)

abbrev get_projects : Grant
get_projects = record { action = "GET"; resource = "/projects/*" }

abbrev put_projects : Grant
put_projects = record { action = "PUT"; resource = "/projects/*" }

lets_through : check_grants authz "u" (get_projects ∷ put_projects ∷ []) ≡ ok tt
unfolding check_grants first_not_held covers grants_of field_of actions_of texts_of
lets_through = refl

-- Two pages of one role
abbrev pages : (role_id token : String) → Result Page
pages role_id token =
    if token =ₛ ""
    then ok (record { items = get_projects ∷ []; next_token = "2" })
    else ok (record { items = put_projects ∷ []; next_token = "" })

abbrev two_pages : Pages (pages "r") "" 2 (get_projects ∷ put_projects ∷ [])
two_pages =
    more (record { items = get_projects ∷ []; next_token = "2" }) refl refl
      (last_page (record { items = put_projects ∷ []; next_token = "" }) refl refl)

role_passes : check_roles 5 authz pages "u" ("r" ∷ []) ≡ some (ok tt)
unfolding check_roles collect_roles collect check_grants first_not_held covers grants_of field_of
    actions_of texts_of
role_passes = refl

check_roles-covers_example : covers (grants_of (some permissions) "u") put_projects ≡ true
check_roles-covers_example =
    check_roles-covers 5 authz pages "u" ("r" ∷ []) (some permissions) "r" 2
      (get_projects ∷ put_projects ∷ []) put_projects role_passes refl (here refl) two_pages
      (omega arith) refl

abbrev good_claims : ClaimMap
good_claims = ("token_type", text "access") ∷ ("sub", text "u") ∷ ("jti", text "j") ∷ []

abbrev services : Services
services = record {
  validators =
      some (("accessToken", λ token. if token =ₛ "t" then some good_claims else none) ∷ []);
  parse_uuid = some;
  equal_fold = λ a b. a =ₛ b;
  trim_space = λ s. s;
  standing = λ _. known account_active;
  is_authorized = λ user action path. if action =ₛ "GET" then allowed else denied;
  membership = λ project user. member;
}

abbrev first_request : HttpRequest
first_request = record {
  authorization = "Bearer t";
  method = "HEAD";
  path = "/projects/p";
  project_id = "p";
  claims = none;
  token = "";
}

reaches :
    access_chain services (some new_revoked_access_tokens) none served first_request
    ≡ served (record first_request { claims = some good_claims; token = "t" })
unfolding access_chain with_rate_limit chain check_access_token check_token bearer_token cut_space
    verified_claims validator_of revocation claim_of is_revoked contains require_active_account
    subject check_authz require_project_membership subject_text claim_string
    new_revoked_access_tokens
reaches = refl

-- A method that the policy does not allow
turned_away :
    access_chain services none none served (record first_request { method = "PUT" })
    ≡ refused 403 ""
unfolding access_chain with_rate_limit chain check_access_token check_token bearer_token cut_space
    verified_claims validator_of revocation claim_of require_active_account subject check_authz
turned_away = refl

access_chain-IsAdmitted_example : IsAdmitted services (some new_revoked_access_tokens) first_request
access_chain-IsAdmitted_example =
    access_chain-IsAdmitted services (some new_revoked_access_tokens) none first_request
      (record first_request { claims = some good_claims; token = "t" }) reaches

access_chain-is_revoked_example :
    (jti : String) × (id : String) × (claim_of good_claims "jti" ≡ text jti)
    × (services.parse_uuid jti ≡ some id)
    × (is_revoked new_revoked_access_tokens id ≡ false)
unfolding bearer_token cut_space verified_claims validator_of claim_of
access_chain-is_revoked_example =
    access_chain-is_revoked services new_revoked_access_tokens none first_request
      (record first_request { claims = some good_claims; token = "t" }) "t" good_claims reaches refl
      refl refl

abbrev asked-IsAdmitted : IsAdmitted services none first_request
unfolding bearer_token cut_space verified_claims validator_of revocation claim_of subject
    subject_text claim_string
asked-IsAdmitted = record {
  token = "t";
  claims = good_claims;
  token_type = "access";
  user = "u";
  is_bearer = refl;
  is_verified = refl;
  is_typed = refl;
  is_access = refl;
  is_unrevoked = refl;
  is_user = refl;
  is_active = refl;
  is_authorized = refl;
  is_inside = inr ("p", "u", refl, refl, refl);
}

access_chain-served_example :
    access_chain services none none served first_request
    ≡ served (record first_request { claims = some good_claims; token = "t" })
unfolding bearer_token cut_space verified_claims validator_of revocation claim_of subject
    subject_text claim_string
access_chain-served_example = access_chain-served services none first_request asked-IsAdmitted
