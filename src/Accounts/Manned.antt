-- ===== src/Accounts/Manned.antt =====
-- The last administrator account of internal/core/usecase/users.go: what any sequence of updates,
-- deletions and verifications leaves of the accounts with the flag that can sign in.
use go_rest_api_service_temp.Base.{
  ◌≤◌, ◌≡◌, sym, ap, subst, ◌⊎◌, String, true, some, List, [], ◌∷◌, leb, one_if, All, arith,
  Bool-cases, Option-cases, inl, inr,
}
use go_rest_api_service_temp.Accounts.{UpdateUserInput, ok, Result-cases}
use go_rest_api_service_temp.Accounts.Guard.{guard_administrator, administrator_deleted}
use go_rest_api_service_temp.Accounts.Table.{
  UserRow, Database, row_by_id, change_row, drop_row, user_of, enabled_administrator, written,
  proven, verify, users_repository,
}
use go_rest_api_service_temp.Accounts.Counted.{
  enabled_in, enabled_in-change_row, change_row-absent, enabled_in-drop_row, drop_row-absent,
  All-row_by_id, All-change_row, All-drop_row,
}
use go_rest_api_service_temp.Accounts.Update.{
  UsersService, prepared, update_by_id, delete_checked, delete_by_id,
}
use go_rest_api_service_temp.Accounts.Written.{
  update-cases, delete-cases, verify-cases, delete-guarded, read_as,
}
use go_rest_api_service_temp.Accounts.Lasting.{
  IsConsistent, written-IsConsistent, proven-IsConsistent, written-enabled, proven-enabled,
  guard-counts, enabled-user_of,
}
use go_rest_api_service_temp.Accounts.Kept.{IsGuarded, prepared-IsOpen}

-- A request that writes the table of the users
pub data UserRequest : Type 0 where
  updating : UpdateUserInput → UserRequest
  deleting : (id caller_id : String) → UserRequest
  verifying : (id address : String) → UserRequest

unfoldable pub serve_request : UsersService → UserRequest → Database → Database
serve_request service (updating input) db = (update_by_id service users_repository db input).1
serve_request service (deleting id caller_id) db =
    (delete_by_id service users_repository db id caller_id).1
serve_request service (verifying id address) db = (verify id address db).1

unfoldable pub serve_requests : UsersService → List UserRequest → Database → Database
serve_requests service [] db = db
serve_requests service (x ∷ steps) db = serve_requests service steps (serve_request service x db)

-- Every row is consistent, and an account with the flag can sign in.
pub record IsManned (db : Database) : Type 0 where
  pub consistent : All IsConsistent db.rows
  pub manned : 1 ≤ enabled_in db.rows

module _ (service : UsersService) (db : Database) (before : IsManned db) where
  -- Of a row that is changed it is enough that it can still sign in if it could, or that there are
  -- two.
  change-IsManned :
      (id : String) (f : UserRow → UserRow)
      → ((row : UserRow) → IsConsistent row → IsConsistent (f row))
      → ((row : UserRow)
          → row_by_id id db.rows ≡ some row
          → enabled_administrator row ≡ true
          → (enabled_administrator (f row) ≡ true) ⊎ (2 ≤ enabled_in db.rows))
      → IsManned (record db { rows = change_row id f db.rows })
  change-IsManned id f kept open' = record {
    consistent = All-change_row IsConsistent id f db.rows kept before.consistent;
    manned = elim (Option-cases (row_by_id id db.rows)) [
      | inl absent ↦ rw (change_row-absent id f db.rows absent) (before.manned)
      | inr (row, here) ↦
          let count = enabled_in-change_row id f db.rows row here in
          elim (Bool-cases (enabled_administrator row)) [
            | inr off ↦ omega (arith, count, ap one_if off, before.manned)
            | inl on ↦ elim (open' row here on) [
              | inl on' ↦ omega (arith, count, ap one_if on, ap one_if on', before.manned)
              | inr two ↦ omega (arith, count, ap one_if on, two)
            ]
          ]
    ];
  }

  guarded-unless-two :
      (row : UserRow) (id : String)
      → row_by_id id db.rows ≡ some row
      → enabled_administrator row ≡ true
      → IsGuarded service users_repository db (user_of row) ⊎ (2 ≤ enabled_in db.rows)
  guarded-unless-two row id here on = elim (Bool-cases (leb 2 (enabled_in db.rows))) [
    | inl two ↦ inr (ground (arith, two))
    | inr one ↦ inl (λ caller_id action.
        elim (Result-cases
          (guard_administrator users_repository db (some (user_of row)) caller_id action true)) [
            | inr refused ↦ refused
            | inl (tt, passed) ↦
                let two = guard-counts db id row here on caller_id action passed in
                absurd (ground (arith, one, two))
          ])
  ]

  update-IsManned :
      (input : UpdateUserInput) → IsManned (update_by_id service users_repository db input).1
  update-IsManned input = elim (update-cases service db input) [
    | inl same ↦ subst IsManned (sym same) before
    | inr (ready, passed, changed) ↦
        subst IsManned (sym changed) (
          change-IsManned ready.id (written ready) (written-IsConsistent ready)
            (stays ready passed))
  ]
    where
      stays :
          (ready : UpdateUserInput)
          → prepared service users_repository db input ≡ ok ready
          → (row : UserRow) → row_by_id ready.id db.rows ≡ some row
          → enabled_administrator row ≡ true
          → (enabled_administrator (written ready row) ≡ true) ⊎ (2 ≤ enabled_in db.rows)
      stays ready passed row here on = elim (guarded-unless-two row ready.id here on) [
        | inr two ↦ inr two
        | inl guarded ↦
            let (flag, enabled) = enabled-user_of row on in
            let open' =
              prepared-IsOpen service users_repository db (user_of row) guarded flag enabled input
                ready (λ x h. read_as db ready.id row here x h) passed in
            inl (
              written-enabled ready row
                (All-row_by_id IsConsistent ready.id db.rows row before.consistent here) on open')
      ]

  delete-IsManned :
      (id caller_id : String) → IsManned (delete_by_id service users_repository db id caller_id).1
  delete-IsManned id caller_id = elim (delete-cases service db id caller_id) [
    | inl same ↦ subst IsManned (sym same) before
    | inr (passed, changed) ↦ subst IsManned (sym changed) (record {
      consistent = All-drop_row IsConsistent id db.rows before.consistent;
      manned = elim (Option-cases (row_by_id id db.rows)) [
        | inl absent ↦ rw (drop_row-absent id db.rows absent) (before.manned)
        | inr (row, here) ↦ left passed row here
      ];
    })
  ]
    where
      left :
          delete_checked service users_repository db id caller_id ≡ ok tt
          → (row : UserRow) → row_by_id id db.rows ≡ some row
          → 1 ≤ enabled_in (drop_row id db.rows)
      left passed row here =
          let count = enabled_in-drop_row id db.rows row here in
          elim (Bool-cases (enabled_administrator row)) [
            | inr off ↦ omega (arith, count, ap one_if off, before.manned)
            | inl on ↦
                let guarded = delete-guarded service db id caller_id row here passed in
                let two = guard-counts db id row here on caller_id administrator_deleted guarded in
                omega (arith, count, ap one_if on, two)
          ]

  verify-IsManned : (id address : String) → IsManned (verify id address db).1
  verify-IsManned id address = elim (verify-cases id address db) [
    | inl same ↦ subst IsManned (sym same) before
    | inr changed ↦
        subst IsManned (sym changed) (
          change-IsManned id proven proven-IsConsistent
            (λ row here on. inl (proven-enabled row on)))
  ]

serve_request-IsManned :
    (service : UsersService) (x : UserRequest) (db : Database)
    → IsManned db
    → IsManned (serve_request service x db)
unfolding serve_request
serve_request-IsManned service (updating input) db before = update-IsManned service db before input
serve_request-IsManned service (deleting id caller_id) db before =
    delete-IsManned service db before id caller_id
serve_request-IsManned service (verifying id address) db before =
    verify-IsManned service db before id address

-- Whatever updates, deletions and verifications are asked for, by whomever and in whatever order, and
-- whatever statements the server refuses, an account with the flag that can sign in is left if there
-- was one, and a locked account stays a disabled one. No two requests interleave here, and what is
-- linked at a provider stays as it is.
pub serve_requests-IsManned :
    (service : UsersService) (steps : List UserRequest) (db : Database)
    → IsManned db
    → IsManned (serve_requests service steps db)
unfolding serve_requests
serve_requests-IsManned service [] db before = before
serve_requests-IsManned service (x ∷ steps) db before =
    serve_requests-IsManned service steps (serve_request service x db)
      (serve_request-IsManned service x db before)
