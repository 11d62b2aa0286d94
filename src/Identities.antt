-- ===== src/Identities.antt =====
-- The ways in of an account: UnlinkIdentity of internal/core/usecase/authn_idp.go, Unlink and
-- SelectByUserID of internal/adapter/driven/repositorypg/users_identities.go, and DeleteByID of
-- idps.go beside it. The three tables are lists of rows, users with their primary key; a transaction
-- that locks the account's row is one step. The database answers; inputs are valid.
pub mod WayIn
pub mod Deletion
use go_rest_api_service_temp.Base.{
  String, Bool, true, false, not, ◌&&◌, ◌||◌, Option, none, some, List, [], ◌∷◌, if◌then◌else◌,
  ◌=ₛ◌, any, keep,
}

-- A row of users, as far as it is read here; a database created earlier may hold a NULL.
pub record Account : Type 0 where
  pub id : String
  pub local_account : Option Bool

-- A row of users_identities
pub record Identity : Type 0 where
  pub users_id : String
  pub idps_id : String

-- A row of idps
pub record Provider : Type 0 where
  pub id : String
  pub enabled : Bool

pub record Directory : Type 0 where
  pub accounts : List Account
  pub identities : List Identity
  pub providers : List Provider

pub data IdentityError : Type 0 where
  only_way_in identity_not_found account_not_found : IdentityError
  idp_not_found idp_in_use : IdentityError

-- local_account IS TRUE
unfoldable pub is_local : Account → Bool
is_local a = elim a.local_account [ none ↦ false | some local ↦ local ]

-- The row of users of a key
unfoldable pub account_of : List Account → String → Option Account
account_of [] id = none
account_of (a ∷ rest) id = let found = account_of rest id in if a.id =ₛ id then some a else found

unfoldable pub provider_enabled : List Provider → String → Bool
provider_enabled providers id = any (λ p. (p.id =ₛ id) && p.enabled) providers

-- An identity of the account at another provider
unfoldable pub is_other : (user idp : String) → Identity → Bool
is_other user idp i = (i.users_id =ₛ user) && not (i.idps_id =ₛ idp)

-- Whether the account is there and keeps a way in: the condition of queryUnlinkIdentity
unfoldable pub keeps_way_in : Directory → (user idp : String) → Bool
keeps_way_in d user idp = elim (account_of d.accounts user) [
  | none ↦ false
  | some a ↦
      is_local a
      || any (λ i. is_other user idp i && provider_enabled d.providers i.idps_id) d.identities
]

unfoldable pub is_linked : (user idp : String) → Identity → Bool
is_linked user idp i = (i.users_id =ₛ user) && (i.idps_id =ₛ idp)

-- Unlink
unfoldable pub unlink : (user idp : String) → Directory → Directory × Option IdentityError
unlink user idp d =
    if not (any (is_linked user idp) d.identities)
    then (d, some identity_not_found)
    else if not (keeps_way_in d user idp)
    then (d, some only_way_in)
    else (record d { identities = keep (λ i. not (is_linked user idp i)) d.identities }, none)

-- SelectByUserID, whose join drops no row, with the column of the provider that is read here
unfoldable pub select_by_user_id : Directory → (user : String) → List (Identity × Bool)
select_by_user_id d user = attach (keep (λ i. i.users_id =ₛ user) d.identities)
  where
    attach : List Identity → List (Identity × Bool)
    attach [] = []
    attach (i ∷ rest) = (i, provider_enabled d.providers i.idps_id) ∷ attach rest

-- keepsAWayIn
unfoldable pub keeps_a_way_in : List (Identity × Bool) → (unlinked : String) → Bool
keeps_a_way_in [] unlinked = false
keeps_a_way_in ((i, enabled) ∷ rest) unlinked =
    not (i.idps_id =ₛ unlinked) && enabled || keeps_a_way_in rest unlinked

-- UnlinkIdentity: the account and the identities are read before the unlink, each from the tables as
-- they were then.
unfoldable pub unlink_identity :
    (at_user at_items : Directory)
    → (user idp : String) → Directory
    → Directory × Option IdentityError
unlink_identity at_user at_items user idp d = elim (account_of at_user.accounts user) [
  | none ↦ (d, some account_not_found)
  | some a ↦
      if is_local a || keeps_a_way_in (select_by_user_id at_items user) idp
      then unlink user idp d
      else (d, some only_way_in)
]

-- Whether the account of an identity has no other way in: the condition of queryDeleteIDP
unfoldable pub is_only_way : Directory → (idp : String) → Identity → Bool
is_only_way d idp i = elim (account_of d.accounts i.users_id) [
  | none ↦ false
  | some a ↦
      (i.idps_id =ₛ idp) && not (is_local a) && not (any (is_other i.users_id idp) d.identities)
]

-- DeleteByID of the providers, with the cascade to the identities
unfoldable pub delete_idp : (idp : String) → Directory → Directory × Option IdentityError
delete_idp idp d =
    if not (any (λ p. p.id =ₛ idp) d.providers)
    then (d, some idp_not_found)
    else if any (is_only_way d idp) d.identities
    then (d, some idp_in_use)
    else (
      record d {
        identities = keep (λ i. not (i.idps_id =ₛ idp)) d.identities;
        providers = keep (λ p. not (p.id =ₛ idp)) d.providers;
      },
      none,
    )
