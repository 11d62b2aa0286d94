-- ===== src/Accounts/Table.antt =====
-- The statements of internal/adapter/driven/repositorypg/users.go on the table of users, read off
-- their SQL. The id is the primary key, so a statement for an id is for the first row that has it.
-- Whether an account has an identity at an enabled provider is a column of its own here. What the
-- server refuses a statement with (a fault, a trigger, a constraint) is an argument, and so are the
-- checks of the input that UpdateByID makes once more. A refused statement writes nothing, and all
-- that handlePgError makes of it is one fault with its text.
use mathlib.Core.Option as Option
use go_rest_api_service_temp.Base.{
  ℕ, ◌≡◌, ◌⊎◌, inl, inr, Option-cases, arith, eq_iff, String, Bool, true, false, not, ◌&&◌, ◌||◌,
  Option, none, some, List, [], ◌∷◌, if◌then◌else◌, ◌=ₛ◌, get_or, length, keep, contains, map,
}
use go_rest_api_service_temp.Revoked.{nil_uuid}
use go_rest_api_service_temp.Accounts.{
  User, UpdateUserInput, invalid_input, user_not_found, fault, Result, ok, error, UsersRepository,
}

pub record UserRow : Type 0 where
  pub id : String
  pub first_name : String
  pub last_name : String
  pub email : String
  pub password_hash : String
  pub disabled : Bool
  pub disabled_by_admin : Bool
  pub verified : Bool
  pub admin : Bool
  pub local_account : Bool
  pub linked : Bool
  pub role_ids : List String

pub data Statement : Type 0 where
  selects counts asks : Statement
  updates : UpdateUserInput → Statement
  deletes : (id : String) → Statement
  verifies : (id address : String) → Statement

pub record Database : Type 0 where
  pub rows : List UserRow
  pub system_role : String → Bool
  pub is_uuid_v7 : String → Bool
  pub refuses : Statement → Option String

-- A statement that the server may refuse
unfoldable pub sent : {A : Type 0} → Database → Statement → A → Result A
sent db statement a = elim (db.refuses statement) [ none ↦ ok a | some e ↦ error (fault e) ]

unfoldable pub row_by_id : (id : String) → List UserRow → Option UserRow
row_by_id id [] = none
row_by_id id (row ∷ rows) = let rest = row_by_id id rows in if row.id =ₛ id then some row else rest

-- The row of an id, changed
unfoldable pub change_row : (id : String) → (UserRow → UserRow) → List UserRow → List UserRow
change_row id f [] = []
change_row id f (row ∷ rows) =
    let rest = change_row id f rows in if row.id =ₛ id then f row ∷ rows else row ∷ rest

unfoldable pub drop_row : (id : String) → List UserRow → List UserRow
drop_row id [] = []
drop_row id (row ∷ rows) = let rest = drop_row id rows in if row.id =ₛ id then rows else row ∷ rest

-- The columns that SelectByID reads
abbrev pub user_of : UserRow → User
user_of row = record {
  id = row.id;
  first_name = row.first_name;
  last_name = row.last_name;
  email = row.email;
  password_hash = row.password_hash;
  disabled = some row.disabled;
  disabled_by_admin = some row.disabled_by_admin;
  verified = some row.verified;
  admin = some row.admin;
  local_account = some row.local_account;
}

unfoldable pub select_by_id : Database → (id : String) → Result User
select_by_id db id =
    if not (db.is_uuid_v7 id) then error (invalid_input "id") else elim (db.refuses selects) [
      | some e ↦ error (fault e)
      | none ↦ elim (row_by_id id db.rows) [
        | none ↦ error user_not_found
        | some row ↦ ok (user_of row)
      ]
    ]

-- enabledAdministrator, with no provider left out
unfoldable pub enabled_administrator : UserRow → Bool
enabled_administrator row = row.admin && not row.disabled && (row.local_account || row.linked)

unfoldable pub count_enabled_administrators : Database → Result ℕ
count_enabled_administrators db = sent db counts (length (keep enabled_administrator db.rows))

-- The row is there and one of those
abbrev pub is_enabled_row : Option UserRow → Bool
is_enabled_row none = false
is_enabled_row (some row) = enabled_administrator row

unfoldable pub is_enabled_administrator : Database → (id : String) → Result Bool
is_enabled_administrator db id =
    if id =ₛ nil_uuid
    then error (invalid_input "id")
    else sent db asks (is_enabled_row (row_by_id id db.rows))

abbrev pub id_of : UserRow → String
id_of row = row.id

unfoldable pub select_administrators_among : Database → List String → Result (List String)
select_administrators_among db ids =
    sent db asks (map id_of (keep (λ row. contains ids row.id && row.admin) db.rows))

unfoldable pub select_administrators_holding : Database → (role_id : String) → Result (List String)
select_administrators_holding db role_id = sent db asks (
    map id_of (
      keep (λ row. contains row.role_ids role_id && row.admin && not (db.system_role role_id))
        db.rows))

-- COALESCE(NULLIF($n, column), column), of a text that is left out when it is empty
abbrev pub text_or : Option String → String → String
text_or none column = column
text_or (some sent') column = if sent' =ₛ "" then column else sent'

-- The two columns of the lock, judged against the row as it was
unfoldable pub disabled_after : (lock disabled : Option Bool) → UserRow → Bool
disabled_after (some true) disabled row = true
disabled_after (some false) disabled row =
    if row.disabled_by_admin
    then get_or (not row.verified) disabled
    else get_or row.disabled disabled
disabled_after none disabled row = get_or row.disabled disabled

unfoldable pub locked_after : (lock disabled : Option Bool) → UserRow → Bool
locked_after (some lock) disabled row = lock
locked_after none none row = row.disabled_by_admin
locked_after none (some true) row = if row.disabled then row.disabled_by_admin else true
locked_after none (some false) row = if row.disabled then false else row.disabled_by_admin

unfoldable pub written : UpdateUserInput → UserRow → UserRow
written input row = record row {
  first_name = text_or input.first_name row.first_name;
  last_name = text_or input.last_name row.last_name;
  email = text_or input.email row.email;
  password_hash = text_or input.password_hash row.password_hash;
  disabled = disabled_after input.disabled_by_admin input.disabled row;
  disabled_by_admin = locked_after input.disabled_by_admin input.disabled row;
  local_account = get_or row.local_account input.local_account;
  admin = get_or row.admin input.admin;
}

-- A statement that writes one row or none, and the count of rows that it answers
unfoldable pub executed :
    Database → Statement → Option UserRow → List UserRow → Result Unit × Database
executed db statement row rows = elim (db.refuses statement) [
  | some e ↦ (error (fault e), db)
  | none ↦ elim row [
    | none ↦ (error user_not_found, db)
    | some _ ↦ (ok tt, record db { rows = rows })
  ]
]

unfoldable pub update_row : UpdateUserInput → Database → Result Unit × Database
update_row input db =
    executed db (updates input) (row_by_id input.id db.rows)
      (change_row input.id (written input) db.rows)

unfoldable pub delete_row : (id : String) → Database → Result Unit × Database
delete_row id db = executed db (deletes id) (row_by_id id db.rows) (drop_row id db.rows)

-- Verify: the row, if it waits for the proof of this address
unfoldable pub waiting : (address : String) → Option UserRow → Option UserRow
waiting address none = none
waiting address (some row) = if row.email =ₛ address && not row.verified then some row else none

unfoldable pub proven : UserRow → UserRow
proven row = record row {
  verified = true;
  disabled = if row.disabled_by_admin || row.admin then row.disabled else false;
}

unfoldable pub verify : (id address : String) → Database → Result Unit × Database
verify id address db =
    if id =ₛ nil_uuid
    then (error (invalid_input "id"), db)
    else executed db (verifies id address) (waiting address (row_by_id id db.rows))
        (change_row id proven db.rows)

abbrev pub users_repository : UsersRepository Database
users_repository = record {
  select_by_id = select_by_id;
  count_enabled_administrators = count_enabled_administrators;
  is_enabled_administrator = is_enabled_administrator;
  select_administrators_among = select_administrators_among;
  select_administrators_holding = select_administrators_holding;
  update_by_id = update_row;
  delete_by_id = delete_row;
}

pub row_by_id-id :
    (id : String) (rows : List UserRow) (row : UserRow) → row_by_id id rows ≡ some row → row.id ≡ id
unfolding row_by_id
row_by_id-id id [] row h = absurd (cc)
row_by_id-id id (first ∷ rows) row h =
    ground (arith, h, eq_iff first.id id, row_by_id-id id rows row)

-- What a read finds after a change that keeps the id
pub row_by_id-change_row :
    (id changed : String) (f : UserRow → UserRow) (rows : List UserRow)
    → ((row : UserRow) → (f row).id ≡ row.id)
    → row_by_id id (change_row changed f rows)
      ≡ (if changed =ₛ id then Option.map f (row_by_id id rows) else row_by_id id rows)
unfolding row_by_id change_row
row_by_id-change_row id changed f [] keeps = ground arith
row_by_id-change_row id changed f (row ∷ rows) keeps = ground (
  arith,
  keeps row,
  row_by_id-change_row id changed f rows keeps,
  eq_iff row.id changed,
  eq_iff row.id id,
  eq_iff changed id,
  eq_iff (f row).id id,
)

-- A statement that writes leaves the table as it was or writes it.
pub executed-cases :
    (db : Database) (statement : Statement) (row : Option UserRow) (rows : List UserRow)
    → ((executed db statement row rows).1 ≡ db)
      ⊎ ((executed db statement row rows).1 ≡ record db { rows = rows })
unfolding executed
executed-cases db statement none rows = elim (Option-cases (db.refuses statement)) [
  | inl allowed ↦ inl (ground (arith, allowed))
  | inr (e, refused) ↦ inl (ground (arith, refused))
]
executed-cases db statement (some row) rows = elim (Option-cases (db.refuses statement)) [
  | inl allowed ↦ inr (ground (arith, allowed))
  | inr (e, refused) ↦ inl (ground (arith, refused))
]
