-- ===== src/Accounts/Written.antt =====
-- What UpdateByID and DeleteByID of internal/core/usecase/users.go leave in the table of the users:
-- the table as it was, or the one row changed or deleted, and then every check has passed.
use go_rest_api_service_temp.Base.{
  ◌≡◌, sym, ap, ◌∙◌, Bool-cases, ◌⊎◌, inl, inr, String, true, some, arith, ◌=ₛ◌,
}
use go_rest_api_service_temp.Accounts.{
  User, UpdateUserInput, ok, Result-cases, bind-ok, fail_if, invalid_input,
}
use go_rest_api_service_temp.Revoked.{nil_uuid}
use go_rest_api_service_temp.Accounts.Guard.{found, guard_administrator, administrator_deleted}
use go_rest_api_service_temp.Accounts.Table.{
  UserRow, Database, row_by_id, change_row, drop_row, user_of, select_by_id, updates, deletes,
  written, update_row, delete_row, users_repository, executed-cases, verify, verifies, waiting,
  proven,
}
use go_rest_api_service_temp.Accounts.Update.{
  UsersService, prepared, update_by_id, delete_checked, delete_by_id,
}

module _ (service : UsersService) (db : Database) where
  pub update-cases :
      (input : UpdateUserInput)
      → ((update_by_id service users_repository db input).1 ≡ db)
        ⊎ ((ready : UpdateUserInput) × (prepared service users_repository db input ≡ ok ready)
            × ((update_by_id service users_repository db input).1
                ≡ record db { rows = change_row ready.id (written ready) db.rows }))
  unfolding update_by_id update_row
  update-cases input = elim (Result-cases (prepared service users_repository db input)) [
    | inr (e, refused) ↦ inl (ground (arith, refused))
    | inl (ready, passed) ↦
        elim (executed-cases db (updates ready) (row_by_id ready.id db.rows)
          (change_row ready.id (written ready) db.rows)) [
            | inl same ↦ inl (ground (arith, passed, same))
            | inr changed ↦ inr (ready, passed, ground (arith, passed, changed))
          ]
  ]

  pub delete-cases :
      (id caller_id : String)
      → ((delete_by_id service users_repository db id caller_id).1 ≡ db)
        ⊎ ((delete_checked service users_repository db id caller_id ≡ ok tt)
            × ((delete_by_id service users_repository db id caller_id).1
                ≡ record db { rows = drop_row id db.rows }))
  unfolding delete_by_id delete_row
  delete-cases id caller_id =
      elim (Result-cases (delete_checked service users_repository db id caller_id)) [
        | inr (e, refused) ↦ inl (ground (arith, refused))
        | inl (tt, passed) ↦
            elim (executed-cases db (deletes id) (row_by_id id db.rows) (drop_row id db.rows)) [
              | inl same ↦ inl (ground (arith, passed, same))
              | inr changed ↦ inr (passed, ground (arith, passed, changed))
            ]
      ]

-- The account that is found, if it is read, is the one of the row.
pub read_as :
    (db : Database) (id : String) (row : UserRow)
    → row_by_id id db.rows ≡ some row
    → (x : User) → select_by_id db id ≡ ok x
    → x ≡ user_of row
unfolding select_by_id
read_as db id row here x h = ground (arith, here, h)

pub verify-cases :
    (id address : String) (db : Database)
    → ((verify id address db).1 ≡ db)
      ⊎ ((verify id address db).1 ≡ record db { rows = change_row id proven db.rows })
unfolding verify
verify-cases id address db = elim (Bool-cases (id =ₛ nil_uuid)) [
  | inl missing ↦ inl (ground (arith, missing))
  | inr named ↦
      elim (executed-cases db (verifies id address) (waiting address (row_by_id id db.rows))
        (change_row id proven db.rows)) [
          | inl same ↦ inl (ground (arith, named, same))
          | inr changed ↦ inr (ground (arith, named, changed))
        ]
]

-- A deletion of an account that is there has passed its guard.
pub delete-guarded :
    (service : UsersService) (db : Database) (id caller_id : String) (row : UserRow)
    → row_by_id id db.rows ≡ some row
    → delete_checked service users_repository db id caller_id ≡ ok tt
    → guard_administrator users_repository db
        (some (user_of row))
        caller_id
        administrator_deleted
        true
      ≡ ok tt
unfolding delete_checked found select_by_id
delete-guarded service db id caller_id row here h =
    let (_, named, rest) = bind-ok (fail_if (id =ₛ nil_uuid) (invalid_input "id")) _ tt h in
    let (stored, read, guarded) = bind-ok (found users_repository db id) _ tt rest in
    let same : stored ≡ some (user_of row) = ground (arith, read, here) in
    ap (λ o. guard_administrator users_repository db o caller_id administrator_deleted true)
      (sym same)
    ∙ guarded
