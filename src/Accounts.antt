-- ===== src/Accounts.antt =====
-- Accounts: the account of internal/core/domain/users.go, an update of it, the errors, and the users'
-- repository as a record of operations on the state S of the store. Spans, metrics, logs and the
-- cache, whose failures are only logged, are left out. An identifier is the text of its UUID.
pub mod Guard
pub mod Update
pub mod Table
pub mod Written
pub mod Counted
pub mod Ids
pub mod Kept
pub mod Lasting
pub mod Address
pub mod SignIn
pub mod Protection
pub mod Manned
pub mod Roles
use go_rest_api_service_temp.Base.{
  ℕ, ◌≡◌, refl, ◌⊎◌, inl, inr, String, Bool, true, false, ◌&&◌, Option, none, some, List,
}

-- User, without its times and its serial number
pub record User : Type 0 where
  pub id : String
  pub first_name : String
  pub last_name : String
  pub email : String
  pub password_hash : String
  pub disabled : Option Bool
  pub disabled_by_admin : Option Bool
  pub verified : Option Bool
  pub admin : Option Bool
  pub local_account : Option Bool

-- UpdateUserInput
pub record UpdateUserInput : Type 0 where
  pub id : String
  pub caller_id : String
  pub first_name : Option String
  pub last_name : Option String
  pub email : Option String
  pub password : Option String
  pub password_hash : Option String
  pub disabled : Option Bool
  pub disabled_by_admin : Option Bool
  pub local_account : Option Bool
  pub admin : Option Bool

-- The errors; a change to an administrator account that names no caller is no domain error.
pub data UserError : Type 0 where
  invalid_input : (field : String) → UserError
  invalid_user_password : UserError
  user_not_found : UserError
  administrator_only : (field : String) → UserError
  administrator_protected : (action message : String) → UserError
  change_without_caller : UserError
  fault : String → UserError

pub data Result (A : Type 0) : Type 0 where
  ok : A → Result A
  error : UserError → Result A

infixl 5 ◌>>=◌ ◌>>◌
abbrev pub ◌>>=◌ : {A B : Type 0} → Result A → (A → Result B) → Result B
m >>= f = elim m [ ok a ↦ f a | error e ↦ error e ]

abbrev pub ◌>>◌ : {A B : Type 0} → Result A → Result B → Result B
m >> k = m >>= λ _. k

-- An early return of an error under a condition.
abbrev pub fail_if : Bool → UserError → Result Unit
fail_if true e = error e
fail_if false e = ok tt

pub bind-ok :
    {A B : Type 0} (m : Result A) (f : A → Result B) (b : B)
    → (m >>= f) ≡ ok b
    → (a : A) × (m ≡ ok a) × (f a ≡ ok b)
bind-ok (ok a) f b h = (a, refl, h)
bind-ok (error e) f b h = absurd (cc)

pub Result-cases :
    {A : Type 0} (r : Result A) → ((a : A) × (r ≡ ok a)) ⊎ ((e : UserError) × (r ≡ error e))
Result-cases (ok a) = inl (a, refl)
Result-cases (error e) = inr (e, refl)

-- What the use case reads and writes: the reads change nothing, and a write answers the state.
pub record UsersRepository (S : Type 0) : Type 0 where
  pub select_by_id : S → (id : String) → Result User
  pub count_enabled_administrators : S → Result ℕ
  pub is_enabled_administrator : S → (id : String) → Result Bool
  pub select_administrators_among : S → List String → Result (List String)
  pub select_administrators_holding : S → (role_id : String) → Result (List String)
  pub update_by_id : UpdateUserInput → S → Result Unit × S
  pub delete_by_id : (id : String) → S → Result Unit × S

-- A flag that is there and true
abbrev pub is_set : Option Bool → Bool
is_set none = false
is_set (some b) = b

-- hasAdminFlag, of an account or of none
unfoldable pub has_admin_flag : Option User → Bool
has_admin_flag none = false
has_admin_flag (some account) = is_set account.admin

-- isDisabled
unfoldable pub is_disabled_account : Option User → Bool
is_disabled_account none = false
is_disabled_account (some account) = is_set account.disabled
