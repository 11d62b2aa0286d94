-- ===== src/Session/Denylist.antt =====
-- RevokedTokensRepository of internal/adapter/driven/repositorypg/revoked_tokens.go: each operation
-- as its checks and the statement it sends. The table revoked_tokens is a list of rows, newest
-- first, and `now` is the clock of the database; a call of the driver that fails changes nothing
-- and answers `fault`. The primary key is jti. A column that is NULL is `none`.
use go_rest_api_service_temp.Base.{
  ℕ, zero, suc, String, Bool, true, false, not, ◌||◌, ◌&&◌, Option, none, some, List, [], ◌∷◌, map,
  if◌then◌else◌, ltb, ◌=ₛ◌, ◌-◌, contains, keep, length, get_or,
}
use go_rest_api_service_temp.Revoked.{nil_uuid}
use go_rest_api_service_temp.Session.{
  AuthnError, invalid_input, TokenRevocation, token_type_refresh, is_valid_token_type, ok, error,
  Action, pure, fail_if, ◌>>=◌, ◌>>◌, RevokedTokens,
}

-- A row of revoked_tokens
pub record Row : Type 0 where
  pub jti : String
  pub users_id : String
  pub token_type : String
  pub expires_at : ℕ
  pub revoked_at : ℕ
  pub replaced_by : Option String

pub record Table : Type 0 where
  pub rows : List Row
  pub now : ℕ
  pub down : Option AuthnError

-- The row of a key
unfoldable pub row_of : List Row → String → Option Row
row_of [] jti = none
row_of (row ∷ rows) jti = let rest = row_of rows jti in if row.jti =ₛ jti then some row else rest

-- INSERT ... ON CONFLICT (jti) DO NOTHING: the rows, and whether one was inserted.
unfoldable pub insert_row : List Row → Row → List Row × Bool
insert_row rows row = elim (row_of rows row.jti) [
  | none ↦ (row ∷ rows, true)
  | some _ ↦ (rows, false)
]

-- A call of the driver
abbrev sent : Action Table Unit
sent s = elim s.down [ none ↦ (ok tt, s) | some e ↦ (error e, s) ]

-- The insertion that Revoke, Rotate and Consume share
unfoldable pub inserted :
    (jti user_id token_type : String)
    → (expires_at : ℕ) → (replaced_by : Option String) → Action Table Bool
inserted jti user_id token_type expires_at replaced_by s =
    let (rows, first) = insert_row s.rows (record {
      jti = jti;
      users_id = user_id;
      token_type = token_type;
      expires_at = expires_at;
      revoked_at = s.now;
      replaced_by = replaced_by;
    }) in
    (ok first, record s { rows = rows })

-- Revoke
unfoldable pub revoke : (jti user_id token_type : String) → (expires_at : ℕ) → Action Table Unit
revoke jti user_id token_type expires_at = do
  fail_if (jti =ₛ nil_uuid) (invalid_input "jti is empty")
  fail_if (not (is_valid_token_type token_type)) (invalid_input "token type is invalid")
  sent
  _ ← inserted jti user_id token_type expires_at none
  pure tt

-- Rotate
unfoldable pub rotate : (old_jti new_jti user_id : String) → (expires_at : ℕ) → Action Table Unit
rotate old_jti new_jti user_id expires_at = do
  fail_if (old_jti =ₛ nil_uuid || new_jti =ₛ nil_uuid) (invalid_input "jti is empty")
  sent
  _ ← inserted old_jti user_id token_type_refresh expires_at (some new_jti)
  pure tt

-- Consume
unfoldable pub consume : (jti user_id token_type : String) → (expires_at : ℕ) → Action Table Bool
consume jti user_id token_type expires_at = do
  fail_if (jti =ₛ nil_uuid) (invalid_input "jti is empty")
  fail_if (not (is_valid_token_type token_type)) (invalid_input "token type is invalid")
  sent
  inserted jti user_id token_type expires_at none

-- The record of Get for a row
abbrev pub record_of : Row → TokenRevocation
record_of row = record {
  jti = row.jti;
  user_id = row.users_id;
  expires_at = row.expires_at;
  revoked_at = row.revoked_at;
  replaced_by = get_or nil_uuid row.replaced_by;
}

-- The SELECT of Get
unfoldable pub unexpired : List Row → (now : ℕ) → String → Option TokenRevocation
unexpired rows now jti = elim (row_of rows jti) [
  | none ↦ none
  | some row ↦ if ltb now row.expires_at then some (record_of row) else none
]

-- Get
unfoldable pub lookup : String → Action Table (Option TokenRevocation)
lookup jti = do
  fail_if (jti =ₛ nil_uuid) (invalid_input "jti is empty")
  sent
  λ s. (ok (unexpired s.rows s.now jti), s)

-- What the walk of RevokeChain ends with: a successor without a row, a row without a successor, or
-- a row that the walk has met.
pub data Walk : Type 0 where
  tip : String → Walk
  ended cycle out_of_fuel : Walk

-- The rows of `chain`, one for each call. The keys met are the path of the CYCLE clause, which stops
-- the walk at the first that repeats.
unfoldable pub walk : ℕ → List Row → (path : List String) → String → Walk
walk zero rows path jti = out_of_fuel
walk (suc fuel) rows path jti = if contains path jti then cycle else elim (row_of rows jti) [
  | none ↦ ended
  | some row ↦ elim row.replaced_by [
    | none ↦ ended
    | some next ↦ elim (row_of rows next) [
      | none ↦ tip next
      | some _ ↦ walk fuel rows (jti ∷ path) next
    ]
  ]
]

-- The table `tip` of the statement, of one row or none
unfoldable pub tip_of : List Row → String → Option String
tip_of rows jti = elim (walk (suc (length rows)) rows [] jti) [ tip t ↦ some t | _ ↦ none ]

-- RevokeChain; the result is the tip, or the nil identifier where nothing was inserted.
unfoldable pub revoke_chain : (jti user_id : String) → (expires_at : ℕ) → Action Table String
revoke_chain jti user_id expires_at = do
  fail_if (jti =ₛ nil_uuid) (invalid_input "jti is empty")
  sent
  λ s. elim (tip_of s.rows jti) [
    | none ↦ (ok nil_uuid, s)
    | some t ↦
        (do
          first ← inserted t user_id token_type_refresh expires_at none
          pure (if first then t else nil_uuid))
          s
  ]

-- DeleteExpired, with the number of rows removed
unfoldable pub delete_expired : Action Table ℕ
delete_expired = do
  sent
  λ s.
      let live = keep (λ (row : Row). ltb s.now row.expires_at) s.rows in
      (ok (length s.rows - length live), record s { rows = live })

-- SelectUnexpiredJTIs
unfoldable pub select_unexpired_jtis : (token_type : String) → Action Table (List String)
select_unexpired_jtis token_type = do
  fail_if (not (is_valid_token_type token_type)) (invalid_input "token type is invalid")
  sent
  λ s. (
    ok (
        map (λ (row : Row). row.jti)
          (keep (λ (row : Row). row.token_type =ₛ token_type && ltb s.now row.expires_at) s.rows)),
    s,
  )

-- The repository as the port
unfoldable pub revoked_tokens : RevokedTokens Table
revoked_tokens = record {
  revoke = revoke;
  rotate = rotate;
  consume = consume;
  lookup = lookup;
  revoke_chain = revoke_chain;
}
