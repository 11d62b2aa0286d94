-- ===== src/Accounts/Lasting.antt =====
-- The last administrator account of internal/core/usecase/users.go: what the statements of
-- internal/adapter/driven/repositorypg/users.go do to one row, and what the guard has counted.
use go_rest_api_service_temp.Base.{
  ℕ, ◌≤◌, ◌≡◌, refl, String, Bool, true, false, Option, none, some, leb, arith, Bool-cases, inl,
  inr,
}
use go_rest_api_service_temp.Accounts.{
  UpdateUserInput, ok, ◌>>=◌, fail_if, administrator_protected, bind-ok, has_admin_flag,
  is_disabled_account,
}
use go_rest_api_service_temp.Accounts.Guard.{
  is_administrator_account, guard_last, guard_flagged, guard_administrator,
  the_last_administrator_account,
}
use go_rest_api_service_temp.Accounts.Table.{
  UserRow, Database, row_by_id, user_of, enabled_administrator, count_enabled_administrators,
  is_enabled_administrator, sent, disabled_after, locked_after, written, proven, users_repository,
  row_by_id-id,
}
use go_rest_api_service_temp.Accounts.Counted.{enabled_in}
use go_rest_api_service_temp.Accounts.Kept.{IsOpen}

-- A locked account is disabled, which is a constraint of the table too.
abbrev pub IsConsistent : UserRow → Type 0
IsConsistent row = row.disabled_by_admin ≡ true → row.disabled ≡ true

locked-disabled :
    (lock disabled : Option Bool) (row : UserRow)
    → IsConsistent row
    → locked_after lock disabled row ≡ true
    → disabled_after lock disabled row ≡ true
unfolding disabled_after locked_after
locked-disabled (some true) disabled row h e = refl
locked-disabled (some false) disabled row h e = cc
locked-disabled none none row h e = h e
locked-disabled none (some true) row h e = refl
locked-disabled none (some false) row h e = elim (Bool-cases row.disabled_by_admin) [
  | inl on ↦ ground (arith, e, h on)
  | inr off ↦ ground (arith, e, off)
]

pub written-IsConsistent :
    (input : UpdateUserInput) (row : UserRow) → IsConsistent row → IsConsistent (written input row)
unfolding written
written-IsConsistent input row h = locked-disabled input.disabled_by_admin input.disabled row h

pub proven-IsConsistent : (row : UserRow) → IsConsistent row → IsConsistent (proven row)
unfolding proven
proven-IsConsistent row h = λ e. ground (arith, h e, e)

pub written-enabled :
    (ready : UpdateUserInput) (row : UserRow)
    → IsConsistent row
    → enabled_administrator row ≡ true
    → IsOpen ready
    → enabled_administrator (written ready row) ≡ true
unfolding written disabled_after locked_after enabled_administrator
written-enabled ready row h on (admin, disabled, inl lock, local) =
    ground (arith, on, admin, disabled, lock, local)
written-enabled ready row h on (admin, disabled, inr lock, local) =
    elim (Bool-cases row.disabled_by_admin) [
      | inl locked ↦ absurd (ground (arith, on, h locked))
      | inr unlocked ↦ ground (arith, on, admin, disabled, lock, local, unlocked)
    ]

pub proven-enabled :
    (row : UserRow) → enabled_administrator row ≡ true → enabled_administrator (proven row) ≡ true
unfolding proven enabled_administrator
proven-enabled row on = ground (arith, on)

leb-false : (n : ℕ) → leb n 1 ≡ false → 2 ≤ n
leb-false n h = ground (arith, h)

last-counts :
    (db : Database) (id : String) (row : UserRow)
    → row_by_id id db.rows ≡ some row
    → enabled_administrator row ≡ true
    → (action : String) → guard_last users_repository db id action ≡ ok tt
    → 2 ≤ enabled_in db.rows
unfolding guard_last is_enabled_administrator count_enabled_administrators sent
last-counts db id row here on action h =
    let (signs_in, answered, rest) = bind-ok (is_enabled_administrator db id) _ tt h in
    let yes_in : signs_in ≡ true = ground (arith, answered, here, on) in
    let through : (count_enabled_administrators db >>= λ n.
    fail_if (leb n 1) (administrator_protected action the_last_administrator_account))
        ≡ ok tt =
      ground (arith, rest, yes_in) in
    let (n, counted, enough) = bind-ok (count_enabled_administrators db) _ tt through in
    let all_of : n ≡ enabled_in db.rows = ground (arith, counted) in
    omega (arith, all_of, leb-false n (ground (arith, enough)))

-- The guard counts: an account that can sign in loses that only if there are two.
pub guard-counts :
    (db : Database) (id : String) (row : UserRow)
    → row_by_id id db.rows ≡ some row
    → enabled_administrator row ≡ true
    → (caller_id action : String)
    → guard_administrator users_repository db (some (user_of row)) caller_id action true ≡ ok tt
    → 2 ≤ enabled_in db.rows
unfolding guard_administrator guard_flagged enabled_administrator has_admin_flag
guard-counts db id row here on caller_id action h =
    let named : row.id ≡ id = row_by_id-id id db.rows row here in
    let flagged : guard_flagged users_repository db row.id caller_id action true ≡ ok tt =
      ground (arith, h, on) in
    let (asked, told, rest) =
      bind-ok (is_administrator_account users_repository db caller_id) _ tt flagged in
    let last : guard_last users_repository db id action ≡ ok tt = ground (arith, rest, named) in
    last-counts db id row here on action last

-- The account that SelectByID reads of a row that is one of those
pub enabled-user_of :
    (row : UserRow)
    → enabled_administrator row ≡ true
    → (has_admin_flag (some (user_of row)) ≡ true)
      × (is_disabled_account (some (user_of row)) ≡ false)
unfolding enabled_administrator has_admin_flag is_disabled_account
enabled-user_of row on = (ground (arith, on), ground (arith, on))
