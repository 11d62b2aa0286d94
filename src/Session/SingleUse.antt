-- ===== src/Session/SingleUse.antt =====
-- The single-use tokens of internal/core/usecase/authn.go (consumeSingleUseToken) on the repository of
-- internal/adapter/driven/repositorypg/revoked_tokens.go, with the calls that come between two uses.
use go_rest_api_service_temp.Base.{
  ℕ, ◌≡◌, ◌≢◌, refl, ap, ◌∙◌, inl, inr, String, Bool, true, false, Option, none, some, List, [],
  ◌∷◌, arith, ltb, leb, ◌=ₛ◌, eq_iff, eq_refl, any, keep, Bool-cases, Option-cases,
}
use go_rest_api_service_temp.Session.{AuthnError, ok, token_type_refresh}
use go_rest_api_service_temp.Session.Denylist.{
  Row, Table, row_of, insert_row, inserted, revoke, rotate, consume, revoke_chain, tip_of,
  delete_expired, revoked_tokens,
}
use go_rest_api_service_temp.Session.Refresh.{AuthnService}
use go_rest_api_service_temp.Session.Logout.{consume_single_use_token}

-- What the table meets: the calls of the repository, and the clock and the state of the connection.
pub data Op : Type 0 where
  revoking consuming : (jti user_id token_type : String) → (expires_at : ℕ) → Op
  rotating : (old_jti new_jti user_id : String) → (expires_at : ℕ) → Op
  ending : (jti user_id : String) → (expires_at : ℕ) → Op
  sweeping : Op
  at_time : (now : ℕ) → (down : Option AuthnError) → Op

pub perform : Table → Op → Table
perform s (revoking jti user_id token_type expires_at) =
    (revoke jti user_id token_type expires_at s).1
perform s (consuming jti user_id token_type expires_at) =
    (consume jti user_id token_type expires_at s).1
perform s (rotating old_jti new_jti user_id expires_at) =
    (rotate old_jti new_jti user_id expires_at s).1
perform s (ending jti user_id expires_at) = (revoke_chain jti user_id expires_at s).1
perform s sweeping = (delete_expired s).1
perform s (at_time now down) = record s { now = now; down = down }

unfoldable pub perform_all : Table → List Op → Table
perform_all s [] = s
perform_all s (op ∷ ops) = perform_all (perform s op) ops

-- A clock that has reached the given time
abbrev pub reaches : ℕ → Op → Bool
reaches expires_at (at_time now down) = leb expires_at now
reaches expires_at _ = false

insert_row-found :
    (rows : List Row) (row : Row) (jti : String) (r : Row)
    → row_of rows jti ≡ some r
    → row_of (insert_row rows row).0 jti ≡ some r
unfolding insert_row row_of
insert_row-found rows row jti r h = elim (Bool-cases (row.jti =ₛ jti)) [
  | inl same ↦
      let e = (eq_iff row.jti jti).0 same in
      let h' : row_of rows row.jti ≡ some r = ap (row_of rows) e ∙ h in ground (arith, h, h')
  | inr other ↦ ground (arith, other, h)
]

keep-found :
    (p : Row → Bool) (rows : List Row) (jti : String) (r : Row)
    → row_of rows jti ≡ some r
    → p r ≡ true
    → row_of (keep p rows) jti ≡ some r
unfolding row_of
keep-found p [] jti r h kept = cc
keep-found p (x ∷ rows) jti r h kept = elim (Bool-cases (x.jti =ₛ jti)) [
  | inl same ↦ let e : x ≡ r = cc in let kept' = ap p e ∙ kept in ground (arith, same, h, kept')
  | inr other ↦ ground (arith, other, keep-found p rows jti r (rw other at h) kept)
]

inserted-found :
    (s : Table) (k user_id token_type : String) (expires_at : ℕ) (next : Option String)
    (jti : String) (row : Row)
    → row_of s.rows jti ≡ some row
    → (row_of (inserted k user_id token_type expires_at next s).1.rows jti ≡ some row)
      × ((inserted k user_id token_type expires_at next s).1.now ≡ s.now)
unfolding inserted
inserted-found s k user_id token_type expires_at next jti row found =
    (insert_row-found s.rows _ jti row found, refl)

-- A token's row of the table, with a time before which it does not expire
IsSpent : Table → String → ℕ → Type 0
IsSpent s jti expires_at =
    (row : Row) × (row_of s.rows jti ≡ some row)
    × (row.expires_at ≡ expires_at)
    × (ltb s.now expires_at ≡ true)

perform-IsSpent :
    (s : Table) (jti : String) (expires_at : ℕ) (op : Op)
    → reaches expires_at op ≡ false
    → IsSpent s jti expires_at
    → IsSpent (perform s op) jti expires_at
unfolding IsSpent perform revoke consume rotate revoke_chain delete_expired
perform-IsSpent s jti e (revoking k user_id token_type e') before (row, found, expires, live) =
    let found' = inserted-found s k user_id token_type e' none jti row found in
    (row, ground (arith, found, found'), expires, ground (arith, live, found'))
perform-IsSpent s jti e (consuming k user_id token_type e') before (row, found, expires, live) =
    let found' = inserted-found s k user_id token_type e' none jti row found in
    (row, ground (arith, found, found'), expires, ground (arith, live, found'))
perform-IsSpent s jti e (rotating k n user_id e') before (row, found, expires, live) =
    let found' = inserted-found s k user_id token_type_refresh e' (some n) jti row found in
    (row, ground (arith, found, found'), expires, ground (arith, live, found'))
perform-IsSpent s jti e (ending k user_id e') before (row, found, expires, live) =
    elim (Option-cases (tip_of s.rows k)) [
      | inl n ↦ (row, ground (arith, found, n), expires, ground (arith, live, n))
      | inr (t, n) ↦
          let found' = inserted-found s t user_id token_type_refresh e' none jti row found in
          (row, ground (arith, found, found', n), expires, ground (arith, live, found', n))
    ]
perform-IsSpent s jti e sweeping before (row, found, expires, live) =
    let found' =
      keep-found (λ (row : Row). ltb s.now row.expires_at) s.rows jti row found (rw expires live) in
    (row, ground (arith, found, found'), expires, ground (arith, live, found'))
perform-IsSpent s jti e (at_time now down) before (row, found, expires, live) =
    (row, found, expires, ground (arith, before))

perform_all-IsSpent :
    (s : Table) (jti : String) (expires_at : ℕ) (ops : List Op)
    → any (reaches expires_at) ops ≡ false
    → IsSpent s jti expires_at
    → IsSpent (perform_all s ops) jti expires_at
unfolding perform_all
perform_all-IsSpent s jti e [] before h = h
perform_all-IsSpent s jti e (op ∷ ops) before h =
    perform_all-IsSpent (perform s op) jti e ops (ground (arith, before))
      (perform-IsSpent s jti e op (ground (arith, before)) h)

module _ (ref : AuthnService Table) (stored : ref.revoked_tokens ≡ some revoked_tokens) where
  first_use :
      (s s' : Table) (jti user_id token_type : String) (expires_at : ℕ)
      → consume_single_use_token ref jti user_id token_type expires_at s ≡ (ok tt, s')
      → ltb s.now expires_at ≡ true
      → IsSpent s' jti expires_at
  unfolding consume_single_use_token IsSpent consume revoked_tokens inserted insert_row row_of
  first_use s s' jti user_id token_type expires_at h live =
      let row : Row = record {
        jti = jti;
        users_id = user_id;
        token_type = token_type;
        expires_at = expires_at;
        revoked_at = s.now;
        replaced_by = none;
      } in
      (row, ground (arith, stored, h, eq_refl jti), refl, ground (arith, stored, h, live))

  later_use :
      (s : Table) (jti user_id token_type : String) (expires_at e : ℕ)
      → IsSpent s jti e
      → (consume_single_use_token ref jti user_id token_type expires_at s).0 ≢ ok tt
  unfolding consume_single_use_token IsSpent consume revoked_tokens inserted insert_row
  later_use s jti user_id token_type expires_at e (row, found, expires, live) h =
      ground (arith, stored, found, h)

-- A single-use token is accepted once: after it was, no later presentation is, whatever calls reach
-- the repository between the two, the sweep of expired rows included, as long as the database's
-- clock has not reached the time at which the token expires.
pub spent_once :
    (ref : AuthnService Table) (s s' : Table) (jti user_id token_type : String) (expires_at : ℕ)
    (ops : List Op) (user_id' token_type' : String) (expires_at' : ℕ)
    → ref.revoked_tokens ≡ some revoked_tokens
    → consume_single_use_token ref jti user_id token_type expires_at s ≡ (ok tt, s')
    → ltb s.now expires_at ≡ true
    → any (reaches expires_at) ops ≡ false
    → (consume_single_use_token ref jti user_id' token_type' expires_at' (perform_all s' ops)).0
      ≢ ok tt
spent_once ref s s' jti user_id token_type expires_at ops user_id' token_type' expires_at' stored h
      live before =
    later_use ref stored (perform_all s' ops) jti user_id' token_type' expires_at' expires_at (
      perform_all-IsSpent s' jti expires_at ops before
        (first_use ref stored s s' jti user_id token_type expires_at h live))
