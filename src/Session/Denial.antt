-- ===== src/Session/Denial.antt =====
-- What the statements of internal/adapter/driven/repositorypg/revoked_tokens.go do to the chain of
-- a session: RevokeChain, and two calls of Rotate that race.
use go_rest_api_service_temp.Base.{
  ℕ, ◌≡◌, refl, sym, ap, subst, ◌∙◌, String, true, false, if◌then◌else◌, none, some, List, ◌∷◌,
  arith, inl, inr, ◌=ₛ◌, eq_refl, contains, Option-cases,
}
use go_rest_api_service_temp.Revoked.{nil_uuid}
use go_rest_api_service_temp.Session.{ok, token_type_refresh}
use go_rest_api_service_temp.Session.Denylist.{
  Row, Table, row_of, insert_row, inserted, rotate, walk, tip_of, revoke_chain,
}
use go_rest_api_service_temp.Session.Chain.{Chain, has_row, tip_of-Chain}

pub insert_row-has :
    (rows : List Row) (row : Row) (x : String)
    → has_row rows x ≡ true
    → has_row (insert_row rows row).0 x ≡ true
unfolding insert_row row_of
insert_row-has rows row x h = ground (arith, h)

pub insert_row-new : (rows : List Row) (row : Row) → has_row (insert_row rows row).0 row.jti ≡ true
unfolding insert_row row_of
insert_row-new rows row = ground (arith, eq_refl row.jti)

tip_row : Table → (t user_id : String) → (expires_at : ℕ) → Row
tip_row s t user_id expires_at = record {
  jti = t;
  users_id = user_id;
  token_type = token_type_refresh;
  expires_at = expires_at;
  revoked_at = s.now;
  replaced_by = none;
}

revoke_chain_sent :
    (s : Table) (jti user_id : String) (expires_at : ℕ)
    → (jti =ₛ nil_uuid) ≡ false
    → s.down ≡ none
    → revoke_chain jti user_id expires_at s ≡ (elim (tip_of s.rows jti) [
      | none ↦ (ok nil_uuid, s)
      | some t ↦
          let (rows, first) = insert_row s.rows (tip_row s t user_id expires_at) in
          (ok (if first then t else nil_uuid), record s { rows = rows })
    ])
unfolding revoke_chain inserted tip_row
revoke_chain_sent s jti user_id expires_at filled up = ground (arith, filled, up)

-- Where the database answers, RevokeChain does not fail.
pub revoke_chain-ok :
    (s : Table) (jti user_id : String) (expires_at : ℕ)
    → (jti =ₛ nil_uuid) ≡ false
    → s.down ≡ none
    → (t : String) × ((revoke_chain jti user_id expires_at s).0 ≡ ok t)
revoke_chain-ok s jti user_id expires_at filled up =
    rw (revoke_chain_sent s jti user_id expires_at filled up)
      (elim (Option-cases (tip_of s.rows jti)) [
        | inl e ↦ (nil_uuid, rw e refl)
        | inr (t, e) ↦ (
          if (insert_row s.rows (tip_row s t user_id expires_at)).1 then t else nil_uuid,
          rw e refl,
        )
      ])

pub revoke_chain-down :
    (s : Table) (jti user_id : String) (expires_at : ℕ)
    → (jti =ₛ nil_uuid) ≡ false
    → s.down ≡ none
    → (revoke_chain jti user_id expires_at s).1.down ≡ none
revoke_chain-down s jti user_id expires_at filled up =
    rw (revoke_chain_sent s jti user_id expires_at filled up)
      (elim (Option-cases (tip_of s.rows jti)) [ inl e ↦ rw e up | inr (t, e) ↦ rw e up ])

-- Where the database answers, RevokeChain of a token with a row leaves a row for each token of the
-- token's chain, so that none of them is live.
pub revoke_chain-has_row :
    (s : Table) (jti user_id : String) (expires_at : ℕ) (x : String)
    → (jti =ₛ nil_uuid) ≡ false
    → s.down ≡ none
    → has_row s.rows jti ≡ true
    → Chain s.rows jti x
    → has_row (revoke_chain jti user_id expires_at s).1.rows x ≡ true
unfolding tip_row
revoke_chain-has_row s jti user_id expires_at x filled up has c =
    rw (revoke_chain_sent s jti user_id expires_at filled up)
      (elim (Option-cases (tip_of s.rows jti)) [
        | inl e ↦ rw e (elim (tip_of-Chain s.rows jti x has c) [ inl h ↦ h | inr e' ↦ absurd (cc) ])
        | inr (t, e) ↦ rw e (elim (tip_of-Chain s.rows jti x has c) [
          | inl h ↦ insert_row-has s.rows (tip_row s t user_id expires_at) x h
          | inr e' ↦
              let same : t ≡ x = cc in
              subst (λ y. has_row (insert_row s.rows (tip_row s t user_id expires_at)).0 y ≡ true)
                same (insert_row-new s.rows (tip_row s t user_id expires_at))
        ])
      ])

rotated_row : Table → (old_jti new_jti user_id : String) → (expires_at : ℕ) → Row
rotated_row s old_jti new_jti user_id expires_at = record {
  jti = old_jti;
  users_id = user_id;
  token_type = token_type_refresh;
  expires_at = expires_at;
  revoked_at = s.now;
  replaced_by = some new_jti;
}

rotate_sent :
    (s : Table) (old_jti new_jti user_id : String) (expires_at : ℕ)
    → (old_jti =ₛ nil_uuid) ≡ false
    → (new_jti =ₛ nil_uuid) ≡ false
    → s.down ≡ none
    → rotate old_jti new_jti user_id expires_at s ≡ (
      ok tt,
      record s { rows = (insert_row s.rows (rotated_row s old_jti new_jti user_id expires_at)).0 },
    )
unfolding rotate inserted rotated_row
rotate_sent s old_jti new_jti user_id expires_at fo fn up = ground (arith, fo, fn, up)

-- The tip right after a rotation
rotated-tip :
    (s : Table) (jti first user_id : String) (expires_at : ℕ)
    → has_row s.rows first ≡ false
    → (jti =ₛ first) ≡ false
    → tip_of (rotated_row s jti first user_id expires_at ∷ s.rows) jti ≡ some first
unfolding tip_of walk row_of rotated_row contains
rotated-tip s jti first user_id expires_at nf jf = ground (arith, eq_refl jti, nf, jf)

pub insert_row-fresh :
    (rows : List Row) (row : Row)
    → has_row rows row.jti ≡ false
    → (insert_row rows row).0 ≡ row ∷ rows
unfolding insert_row
insert_row-fresh rows row h = ground (arith, h)

pub insert_row-held :
    (rows : List Row) (row : Row) → has_row rows row.jti ≡ true → (insert_row rows row).0 ≡ rows
unfolding insert_row
insert_row-held rows row h = ground (arith, h)

-- What the first rotation of a token leaves
rotated-first :
    (s : Table) (jti first user_id : String) (expires_at : ℕ)
    → (jti =ₛ nil_uuid) ≡ false
    → (first =ₛ nil_uuid) ≡ false
    → s.down ≡ none
    → has_row s.rows jti ≡ false
    → (rotate jti first user_id expires_at s).1
      ≡ record s { rows = rotated_row s jti first user_id expires_at ∷ s.rows }
unfolding rotated_row
rotated-first s jti first user_id expires_at fj ff up nj =
    ap (λ r. r.1) (rotate_sent s jti first user_id expires_at fj ff up)
    ∙ ap (λ rows. record s { rows = rows })
        (insert_row-fresh s.rows (rotated_row s jti first user_id expires_at) nj)

-- What the second of two rotations of one token leaves
raced :
    (s : Table) (jti first second user_id : String) (expires_at : ℕ)
    → (jti =ₛ nil_uuid) ≡ false
    → (first =ₛ nil_uuid) ≡ false
    → (second =ₛ nil_uuid) ≡ false
    → s.down ≡ none
    → has_row s.rows jti ≡ false
    → rotate jti second user_id expires_at (rotate jti first user_id expires_at s).1
      ≡ (ok tt, record s { rows = rotated_row s jti first user_id expires_at ∷ s.rows })
unfolding rotated_row row_of
raced s jti first second user_id expires_at fj ff fs up nj =
    let s' : Table = record s { rows = rotated_row s jti first user_id expires_at ∷ s.rows } in
    ap (rotate jti second user_id expires_at)
      (rotated-first s jti first user_id expires_at fj ff up nj)
    ∙ rotate_sent s' jti second user_id expires_at fj fs up
    ∙ ap (λ rows. (ok tt, record s { rows = rows }))
        (insert_row-held s'.rows (rotated_row s' jti second user_id expires_at)
          (ground (arith, eq_refl jti)))

-- Two refreshes that raced on one token, each with its own new identifier: the second Rotate answers
-- that all went well and leaves the table as the first left it, and RevokeChain of the spent token
-- then leaves a row for the first new token and none for the second.
pub rotate-orphan :
    (s : Table) (jti first second user_id : String) (expires_at : ℕ)
    → (jti =ₛ nil_uuid) ≡ false
    → (first =ₛ nil_uuid) ≡ false
    → (second =ₛ nil_uuid) ≡ false
    → s.down ≡ none
    → has_row s.rows jti ≡ false
    → has_row s.rows first ≡ false
    → has_row s.rows second ≡ false
    → (jti =ₛ second) ≡ false
    → (first =ₛ second) ≡ false
    → (jti =ₛ first) ≡ false
    → let raced =
        (rotate jti second user_id expires_at (rotate jti first user_id expires_at s).1).1 in
      ((rotate jti second user_id expires_at (rotate jti first user_id expires_at s).1)
        ≡ (ok tt, (rotate jti first user_id expires_at s).1))
      × (has_row (revoke_chain jti user_id expires_at raced).1.rows first ≡ true)
      × (has_row (revoke_chain jti user_id expires_at raced).1.rows second ≡ false)
unfolding rotated_row row_of insert_row tip_row
rotate-orphan s jti first second user_id expires_at fj ff fs up nj nf ns js fs' jf =
    let s' : Table = record s { rows = rotated_row s jti first user_id expires_at ∷ s.rows } in
    let e = raced s jti first second user_id expires_at fj ff fs up nj in
    let f = rotated-first s jti first user_id expires_at fj ff up nj in
    (
      e ∙ ap (λ (t : Table). (ok tt, t)) (sym f),
      rw
          (
            e,
            revoke_chain_sent s' jti user_id expires_at fj up,
            rotated-tip s jti first user_id expires_at nf jf,
          )
          (ground (arith, nf, jf, eq_refl first)),
      rw
          (
            e,
            revoke_chain_sent s' jti user_id expires_at fj up,
            rotated-tip s jti first user_id expires_at nf jf,
          )
          (ground (arith, ns, nf, js, fs', jf)),
    )
