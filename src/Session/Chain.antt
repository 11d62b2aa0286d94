-- ===== src/Session/Chain.antt =====
-- The chain of rotations in the denylist of internal/adapter/driven/repositorypg/revoked_tokens.go:
-- the tokens that a refresh token was replaced by, one after the other.
use go_rest_api_service_temp.Base.{
  ℕ, zero, suc, ◌<◌, ◌≡◌, ◌≢◌, ◌⊎◌, refl, sym, ap, subst, ◌∙◌, String, Bool, true, false, not,
  Option, none, some, List, [], ◌∷◌, arith, inl, inr, ◌=ₛ◌, eq_iff, eq_refl, length, contains,
  contains_iff, keep, keep_fewer, keep_le, In, here, there, In-cons, Bool-cases, Option-cases,
  is_some,
}
use go_rest_api_service_temp.Session.Denylist.{
  Row, row_of, Walk, tip, ended, cycle, out_of_fuel, walk, tip_of,
}

-- One token replaced by another, and the reflexive and the irreflexive closures of that.
pub data Replaced (rows : List Row) (a b : String) : Type 0 where
  by : (row : Row) → row_of rows a ≡ some row → row.replaced_by ≡ some b → Replaced rows a b

pub data Chain (rows : List Row) : String → String → Type 0 where
  start : {a : String} → Chain rows a a
  step : {a b x : String} → Replaced rows a b → Chain rows b x → Chain rows a x

abbrev pub has_row : List Row → String → Bool
has_row rows jti = is_some (row_of rows jti)

pub row_of-found :
    (rows : List Row) (jti : String) (row : Row)
    → row_of rows jti ≡ some row
    → In row rows × (row.jti ≡ jti)
unfolding row_of
row_of-found [] jti row h = cc
row_of-found (r ∷ rows) jti row h = elim (Bool-cases (r.jti =ₛ jti)) [
  | inl same ↦
      let e : r ≡ row = cc in
      (here (sym e), ap (λ (s : Row). s.jti) (sym e) ∙ (eq_iff r.jti jti).0 same)
  | inr other ↦ let (i, e) = row_of-found rows jti row (rw other at h) in (there i, e)
]

-- The rows that the walk has not met
fresh : List Row → List String → ℕ
fresh rows path = length (keep (λ (row : Row). not (contains path row.jti)) rows)

fresh-cons :
    (rows : List Row) (path : List String) (jti : String) (row : Row)
    → row_of rows jti ≡ some row
    → contains path jti ≡ false
    → fresh rows (jti ∷ path) < fresh rows path
unfolding fresh contains
fresh-cons rows path jti row found new =
    let (i, e) = row_of-found rows jti row found in
    keep_fewer (λ (r : Row). not (contains path r.jti))
      (λ (r : Row). not (contains (jti ∷ path) r.jti)) (λ r h. ground arith) i
      (rw e (ground (arith, new))) (rw e (ground (arith, eq_refl jti)))

-- The ways in which a call of the walk with fuel goes on
data Gone (fuel : ℕ) (rows : List Row) (path : List String) (jti : String) : Type 0 where
  met : contains path jti ≡ true → walk (suc fuel) rows path jti ≡ cycle → Gone fuel rows path jti
  last :
      ((b : String) → Replaced rows jti b → ⊥)
      → walk (suc fuel) rows path jti ≡ ended
      → Gone fuel rows path jti
  live :
      (b : String)
      → Replaced rows jti b
      → row_of rows b ≡ none
      → walk (suc fuel) rows path jti ≡ tip b
      → Gone fuel rows path jti
  on :
      (b : String)
      → Replaced rows jti b
      → has_row rows b ≡ true
      → fresh rows (jti ∷ path) < fresh rows path
      → walk (suc fuel) rows path jti ≡ walk fuel rows (jti ∷ path) b
      → Gone fuel rows path jti

gone : (fuel : ℕ) (rows : List Row) (path : List String) (jti : String) → Gone fuel rows path jti
unfolding walk
gone fuel rows path jti = elim (Bool-cases (contains path jti)) [
  | inl old ↦ met old (rw old refl)
  | inr new ↦ elim (Option-cases (row_of rows jti)) [
    | inl e ↦ last (λ b r. elim r [ by row e' n ↦ cc ]) (rw (new, e) refl)
    | inr (row, e) ↦ elim (Option-cases row.replaced_by) [
      | inl n ↦ last (λ b r. elim r [ by row' e' n' ↦ cc ]) (rw (new, e, n) refl)
      | inr (next, n) ↦ elim (Option-cases (row_of rows next)) [
        | inl l ↦ live next (by row e n) l (rw (new, e, n, l) refl)
        | inr (row', l) ↦
            on next (by row e n) (ap is_some l) (fresh-cons rows path jti row e new)
              (rw (new, e, n, l) refl)
      ]
    ]
  ]
]

walk-zero :
    (rows : List Row) (path : List String) (jti : String) → walk zero rows path jti ≡ out_of_fuel
unfolding walk
walk-zero rows path jti = refl

walk-out_of_fuel :
    (fuel : ℕ) (rows : List Row) (path : List String) (jti : String)
    → fresh rows path < fuel
    → walk fuel rows path jti ≢ out_of_fuel
walk-out_of_fuel zero rows path jti enough = omega (arith, enough)
walk-out_of_fuel (suc fuel) rows path jti enough = elim (gone fuel rows path jti) [
  | met _ e ↦ λ h. cc
  | last _ e ↦ λ h. cc
  | live b _ _ e ↦ λ h. cc
  | on b r _ less e ↦
      λ h. walk-out_of_fuel fuel rows (jti ∷ path) b (omega (arith, less, enough)) (sym e ∙ h)
]

-- What the statement of RevokeChain walks ends, whatever the table.
pub walk_ends :
    (rows : List Row) (jti : String) → walk (suc (length rows)) rows [] jti ≢ out_of_fuel
unfolding fresh
walk_ends rows jti =
    walk-out_of_fuel (suc (length rows)) rows [] jti
      (omega (arith, keep_le (λ (row : Row). not (contains [] row.jti)) rows))

Replaced-unique : {rows : List Row} {a b c : String} → Replaced rows a b → Replaced rows a c → b ≡ c
Replaced-unique (by r e n) (by r' e' n') = cc

Replaced-has_row : {rows : List Row} {a b : String} → Replaced rows a b → has_row rows a ≡ true
Replaced-has_row (by r e n) = ap is_some e

Chain-append : {rows : List Row} {a b c : String} → Chain rows a b → Chain rows b c → Chain rows a c
Chain-append start d = d
Chain-append (step r c) d = step r (Chain-append c d)

-- A token without a row is alone on its chain.
pub Chain-alone : {rows : List Row} {a x : String} → has_row rows a ≡ false → Chain rows a x → a ≡ x
Chain-alone new start = refl
Chain-alone new (step (by r e n) c) = absurd (cc)

-- On a cycle every token has a row.
cyclic :
    {rows : List Row} {a b x : String}
    → Replaced rows a b
    → Chain rows b a
    → Chain rows b x
    → has_row rows x ≡ true
cyclic r start start = Replaced-has_row r
cyclic r (step r' back) start = Replaced-has_row r'
cyclic {rows} {a} {b} r start (step r' c) =
    cyclic r' (subst (λ y. Chain rows y b) (Replaced-unique r r') start) c
cyclic {rows} {a} {b} r (step r'' back) (step r' c) =
    let back' = Chain-append back (step r start) in
    cyclic r' (subst (λ y. Chain rows y b) (Replaced-unique r'' r') back') c

-- The tokens of the path lead to where the walk stands.
Met : List Row → List String → String → Type 0
Met rows path jti = (p : String) → In p path → (b : String) × Replaced rows p b × Chain rows b jti

Met-on :
    {rows : List Row} (path : List String) {a b : String}
    → Replaced rows a b
    → Met rows path a
    → Met rows (a ∷ path) b
unfolding Met
Met-on {rows} path {a} {b} r before p i = elim (In-cons i) [
  | inl e ↦ subst (λ y. (c : String) × Replaced rows y c × Chain rows c b) (sym e) (b, r, start)
  | inr j ↦ let (c, r', back) = before p j in (c, r', Chain-append back (step r start))
]

-- Past a successor without a row the chain does not go on.
last_one :
    {rows : List Row} {a b x : String}
    → Replaced rows a b
    → row_of rows b ≡ none
    → Chain rows a x
    → (x ≡ a) ⊎ (x ≡ b)
last_one r no_row start = inl refl
last_one r no_row (step r' start) = inr (Replaced-unique r' r)
last_one {rows} r no_row (step r' (step (by row e n) c)) =
    let e' = ap (row_of rows) (Replaced-unique r r') in absurd (cc)

walk-Chain :
    (fuel : ℕ) (rows : List Row) (path : List String) (jti x : String)
    → walk fuel rows path jti ≢ out_of_fuel
    → has_row rows jti ≡ true
    → Met rows path jti
    → Chain rows jti x
    → (has_row rows x ≡ true) ⊎ (walk fuel rows path jti ≡ tip x)
unfolding Met
walk-Chain zero rows path jti x ends has before c = absurd (ends (walk-zero rows path jti))
walk-Chain (suc fuel) rows path jti x ends has before start = inl has
walk-Chain (suc fuel) rows path jti x ends has before (step r c) = elim (gone fuel rows path jti) [
  | met old e ↦
      let (b, r', back) = before jti ((contains_iff path jti).0 old) in
      inl (cyclic r' back (subst (λ y. Chain rows y x) (Replaced-unique r r') c))
  | last none' e ↦ absurd (none' _ r)
  | live b r' no_row e ↦ elim (last_one r' no_row (step r c)) [
    | inl here' ↦ inl (rw here' has)
    | inr there' ↦ inr (rw there' e)
  ]
  | on b r' has' less e ↦
      let rest =
        walk-Chain fuel rows (jti ∷ path) b x (λ h. ends (e ∙ h)) has' (Met-on path r' before)
          (subst (λ y. Chain rows y x) (Replaced-unique r r') c) in
      elim rest [ inl h ↦ inl h | inr h ↦ inr (e ∙ h) ]
]

walk-tip :
    (fuel : ℕ) (rows : List Row) (path : List String) (jti t : String)
    → walk fuel rows path jti ≡ tip t
    → Chain rows jti t × (row_of rows t ≡ none)
walk-tip zero rows path jti t h = absurd (cc (walk-zero rows path jti, h))
walk-tip (suc fuel) rows path jti t h = elim (gone fuel rows path jti) [
  | met old e ↦ cc
  | last none' e ↦ cc
  | live b r no_row e ↦
      let same : b ≡ t = cc in
      (step r (subst (λ y. Chain rows b y) same start), ap (row_of rows) (sym same) ∙ no_row)
  | on b r _ less e ↦ let (c, n) = walk-tip fuel rows (jti ∷ path) b t (sym e ∙ h) in (step r c, n)
]

-- The tip of the statement, and the tokens before it
pub tip_of-Chain :
    (rows : List Row) (jti x : String)
    → has_row rows jti ≡ true
    → Chain rows jti x
    → (has_row rows x ≡ true) ⊎ (tip_of rows jti ≡ some x)
unfolding tip_of Met
tip_of-Chain rows jti x has c =
    elim (walk-Chain (suc (length rows)) rows [] jti x (walk_ends rows jti) has (λ p i. elim i [ ])
      c) [ inl h ↦ inl h | inr e ↦ inr (rw (tip_of, e) refl) ]

pub tip_of-live :
    (rows : List Row) (jti t : String)
    → tip_of rows jti ≡ some t
    → Chain rows jti t × (row_of rows t ≡ none)
unfolding tip_of
tip_of-live rows jti t h =
    walk-tip (suc (length rows)) rows [] jti t (is_tip (walk (suc (length rows)) rows [] jti) h)
  where
    is_tip :
        (w : Walk)
        → (elim w as (λ _. Option String) [ tip u ↦ some u | _ ↦ none ]) ≡ some t
        → w ≡ tip t
    is_tip (tip u) e = cc
    is_tip ended e = cc
    is_tip cycle e = cc
    is_tip out_of_fuel e = cc
