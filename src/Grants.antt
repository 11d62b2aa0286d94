-- ===== src/Grants.antt =====
-- GrantGuard of internal/core/usecase/grant_guard.go: whether a caller may hand out what a policy or
-- a role grants. The two readers are arguments. The permissions are a value decoded from JSON: an
-- object, an array, a list of texts or another value; a map has one entry for each key.
pub mod Escalation
pub mod Pages
use go_rest_api_service_temp.Base.{
  ℕ, zero, suc, String, Bool, true, false, not, ◌&&◌, ◌||◌, Option, none, some, List, [], ◌∷◌, ◌++◌,
  if◌then◌else◌, ◌=ₛ◌, any,
}
use go_rest_api_service_temp.Revoked.{nil_uuid}

-- Grant
pub record Grant : Type 0 where
  pub action : String
  pub resource : String

-- The errors of the guard, and those of a reader
pub data GuardError : Type 0 where
  invalid_user_id : GuardError
  grant_not_held : Grant → GuardError
  reader_fault : String → GuardError

pub data Result (A : Type 0) : Type 0 where
  ok : A → Result A
  error : GuardError → Result A

mutual
  pub data Json : Type 0 where
    object : Fields → Json
    array : Items → Json
    strings : List String → Json
    text : String → Json
    other : Json

  pub data Fields : Type 0 where
    no_fields : Fields
    field : String → Json → Fields → Fields

  pub data Items : Type 0 where
    no_items : Items
    item : Json → Items → Items

-- A read of a map, and of a value as a map; what is absent or of another type is empty.
unfoldable pub field_of : Fields → String → Json
field_of no_fields key = other
field_of (field k v fields) key = let rest = field_of fields key in if k =ₛ key then v else rest

abbrev pub fields_of : Json → Fields
fields_of (object fields) = fields
fields_of _ = no_fields

-- The texts of an array
unfoldable pub texts_of : Items → List String
texts_of no_items = []
texts_of (item (text s) items) = s ∷ texts_of items
texts_of (item _ items) = texts_of items

-- The actions of one pattern
unfoldable pub actions_of : Json → List String
actions_of (array items) = texts_of items
actions_of (strings actions) = actions
actions_of _ = []

-- grantsOf, as the fields of the user
unfoldable pub grants_of : Option Fields → (user_id : String) → Fields
grants_of none user_id = no_fields
grants_of (some permissions) user_id = fields_of (
    field_of (fields_of (field_of (fields_of (field_of permissions "permissions")) "users"))
      user_id)

-- covers
unfoldable pub covers : Fields → Grant → Bool
covers mine g =
    any
      (λ (pattern : String).
        any (λ (a : String). a =ₛ "*" || a =ₛ g.action) (actions_of (field_of mine pattern)))
      ("*" ∷ g.resource ∷ [])

-- The loop of CheckGrants
unfoldable pub first_not_held : Fields → List Grant → Option Grant
first_not_held mine [] = none
first_not_held mine (g ∷ grants) =
    let rest = first_not_held mine grants in if covers mine g then rest else some g

module _ (select_authz : (user_id : String) → Result (Option Fields)) where
  -- CheckGrants
  unfoldable pub check_grants : (caller_id : String) → List Grant → Result Unit
  check_grants caller_id grants =
      if caller_id =ₛ nil_uuid then error invalid_user_id else elim (select_authz caller_id) [
        | error e ↦ error e
        | ok held ↦ elim (first_not_held (grants_of held caller_id) grants) [
          | none ↦ ok tt
          | some g ↦ error (grant_not_held g)
        ]
      ]

  -- CheckPolicies, with the reading of the policies
  unfoldable pub policies_grants : (String → Result Grant) → List String → Result (List Grant)
  policies_grants select_by_id [] = ok []
  policies_grants select_by_id (id ∷ ids) =
      let rest = policies_grants select_by_id ids in
      elim (select_by_id id) [
        | error e ↦ error e
        | ok g ↦ elim rest [ error e ↦ error e | ok grants ↦ ok (g ∷ grants) ]
      ]

  unfoldable pub check_policies :
      (String → Result Grant) → (caller_id : String) → (policy_ids : List String) → Result Unit
  check_policies select_by_id caller_id policy_ids =
      elim (policies_grants select_by_id policy_ids) [
        | error e ↦ error e
        | ok grants ↦ check_grants caller_id grants
      ]

-- A page of the policies of a role: the grants of its policies, and the next token.
pub record Page : Type 0 where
  pub items : List Grant
  pub next_token : String

-- What the pages of roles end with
pub data Collected : Type 0 where
  collected : List Grant → Collected
  failed : GuardError → Collected
  out_of_fuel : Collected

abbrev pub prepend : List Grant → Collected → Collected
prepend items (collected grants) = collected (items ++ grants)
prepend items (failed e) = failed e
prepend items out_of_fuel = out_of_fuel

abbrev pub is_empty : List Grant → Bool
is_empty [] = true
is_empty (_ ∷ _) = false

-- The inner loop of CheckRoles, one call for each page, where `select` reads a page of the role at a
-- token.
unfoldable pub collect :
    ℕ → (select : (token : String) → Result Page) → (token : String) → Collected
collect zero select token = out_of_fuel
collect (suc fuel) select token = elim (select token) [
  | error e ↦ failed e
  | ok page ↦ elim (page.next_token =ₛ "" || is_empty page.items) [
    | true ↦ collected page.items
    | false ↦ prepend page.items (collect fuel select page.next_token)
  ]
]

-- The outer loop of CheckRoles
unfoldable pub collect_roles :
    ℕ → (select : (role_id token : String) → Result Page) → List String → Collected
collect_roles fuel select [] = collected []
collect_roles fuel select (role_id ∷ role_ids) = elim (collect fuel (select role_id) "") [
  | collected grants ↦ prepend grants (collect_roles fuel select role_ids)
  | failed e ↦ failed e
  | out_of_fuel ↦ out_of_fuel
]

-- CheckRoles; `none` where the fuel of a role's pages did not reach the last one.
unfoldable pub check_roles :
    ℕ
    → (select_authz : (user_id : String) → Result (Option Fields))
    → (select : (role_id token : String) → Result Page) → (caller_id : String)
    → (role_ids : List String) → Option (Result Unit)
check_roles fuel select_authz select caller_id role_ids =
    elim (collect_roles fuel select role_ids) [
      | collected grants ↦ some (check_grants select_authz caller_id grants)
      | failed e ↦ some (error e)
      | out_of_fuel ↦ none
    ]
