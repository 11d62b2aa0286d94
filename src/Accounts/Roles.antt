-- ===== src/Accounts/Roles.antt =====
-- Roles that are taken from accounts, internal/core/usecase/roles.go: what UnlinkUsers and DeleteByID
-- have checked before they write.
use go_rest_api_service_temp.Base.{
  ◌≡◌, refl, ap, ◌∙◌, String, Bool, true, false, not, ◌&&◌, List, [], ◌∷◌, map, keep, In, here,
  there, contains, arith, Bool-cases, inl, inr,
}
use go_rest_api_service_temp.Accounts.{ok, bind-ok}
use go_rest_api_service_temp.Accounts.Guard.{
  is_administrator_account, stripped_only_by_an_administrator, administrators_are_not_stripped,
  administrators_keep_the_role,
}
use go_rest_api_service_temp.Accounts.Table.{
  UserRow, Database, sent, id_of, select_administrators_among, select_administrators_holding,
  users_repository,
}

-- The caller is an account with the flag that is not disabled.
abbrev pub IsCaller : Database → (caller_id : String) → Type 0
IsCaller db caller_id = is_administrator_account users_repository db caller_id ≡ ok true

stripped-none :
    (db : Database) (caller_id : String) (administrators : List String)
    → ¬ IsCaller db caller_id
    → stripped_only_by_an_administrator users_repository db administrators caller_id ≡ ok tt
    → administrators ≡ []
unfolding stripped_only_by_an_administrator
stripped-none db caller_id [] unasked h = refl
stripped-none db caller_id (x ∷ xs) unasked h =
    let (asked, told, rest) =
      bind-ok (is_administrator_account users_repository db caller_id) _ tt h in
    let told' : IsCaller db caller_id = told ∙ ap ok (ground (arith, rest)) in
    absurd (unasked told')

kept_none :
    (p : UserRow → Bool) (rows : List UserRow)
    → map id_of (keep p rows) ≡ []
    → (row : UserRow) → In row rows
    → p row ≡ false
kept_none p [] h row i = elim i [ ]
kept_none p (first ∷ rows) h row (here e) = elim (Bool-cases (p first)) [
  | inl on ↦ absurd (ground (arith, h, on))
  | inr off ↦ ap p e ∙ off
]
kept_none p (first ∷ rows) h row (there i) = elim (Bool-cases (p first)) [
  | inl on ↦ absurd (ground (arith, h, on))
  | inr off ↦ kept_none p rows (ground (arith, h, off)) row i
]

module _ (db : Database) (caller_id : String) (unasked : ¬ IsCaller db caller_id) where
  -- A caller that is not an administrator account passes the check of UnlinkUsers only if none of
  -- the accounts has the flag, and the check of a role's deletion only if no account with the flag
  -- holds the role, or if it is a system role.
  pub stripped-unflagged :
      (user_ids : List String) (role_id : String)
      → (administrators_are_not_stripped users_repository db user_ids caller_id ≡ ok tt
          → (row : UserRow) → In row db.rows
          → contains user_ids row.id && row.admin ≡ false)
        × (administrators_keep_the_role users_repository db role_id caller_id ≡ ok tt
            → (row : UserRow) → In row db.rows
            → contains row.role_ids role_id && row.admin && not (db.system_role role_id) ≡ false)
  unfolding administrators_are_not_stripped administrators_keep_the_role select_administrators_among
      select_administrators_holding sent
  stripped-unflagged user_ids role_id = (
    λ h row i.
        let (administrators, read, rest) =
          bind-ok (select_administrators_among db user_ids) _ tt h in
        let bare = stripped-none db caller_id administrators unasked rest in
        kept_none (λ r. contains user_ids r.id && r.admin) db.rows (ground (arith, read, bare)) row
          i,
    λ h row i.
        let (administrators, read, rest) =
          bind-ok (select_administrators_holding db role_id) _ tt h in
        let bare = stripped-none db caller_id administrators unasked rest in
        kept_none (λ r. contains r.role_ids role_id && r.admin && not (db.system_role role_id))
          db.rows (ground (arith, read, bare)) row i,
  )
