-- ===== src/Accounts/Counted.antt =====
-- The rows of users and how many of them are enabled administrators, when one row is changed or
-- deleted.
use go_rest_api_service_temp.Base.{
  ℕ, ◌+◌, ◌≡◌, refl, subst, String, none, some, List, [], ◌∷◌, ◌=ₛ◌, length, keep, one_if, All,
  arith, Bool-cases, inl, inr,
}
use go_rest_api_service_temp.Accounts.Table.{
  UserRow, row_by_id, change_row, drop_row, enabled_administrator,
}

-- How many of the rows are enabled administrators
abbrev pub enabled_in : List UserRow → ℕ
enabled_in rows = length (keep enabled_administrator rows)

enabled_in-cons :
    (row : UserRow) (rows : List UserRow)
    → enabled_in (row ∷ rows) ≡ one_if (enabled_administrator row) + enabled_in rows
enabled_in-cons row rows = ground arith

pub enabled_in-change_row :
    (id : String) (f : UserRow → UserRow) (rows : List UserRow) (row : UserRow)
    → row_by_id id rows ≡ some row
    → enabled_in (change_row id f rows) + one_if (enabled_administrator row)
      ≡ enabled_in rows + one_if (enabled_administrator (f row))
unfolding row_by_id change_row
enabled_in-change_row id f [] row h = absurd (cc)
enabled_in-change_row id f (first ∷ rows) row h = elim (Bool-cases (first.id =ₛ id)) [
  | inl here ↦
      let same : first ≡ row = ground (arith, h, here) in
      rw here (
        subst
          (λ r.
            enabled_in (f first ∷ rows) + one_if (enabled_administrator r)
            ≡ enabled_in (first ∷ rows) + one_if (enabled_administrator (f r)))
          same (omega (arith, enabled_in-cons (f first) rows, enabled_in-cons first rows)))
  | inr later ↦
      let rest = enabled_in-change_row id f rows row (ground (arith, h, later)) in
      rw later (
        omega
          (arith, rest, enabled_in-cons first (change_row id f rows), enabled_in-cons first rows))
]

pub change_row-absent :
    (id : String) (f : UserRow → UserRow) (rows : List UserRow)
    → row_by_id id rows ≡ none
    → change_row id f rows ≡ rows
unfolding row_by_id change_row
change_row-absent id f [] h = refl
change_row-absent id f (first ∷ rows) h = ground (arith, h, change_row-absent id f rows)

pub enabled_in-drop_row :
    (id : String) (rows : List UserRow) (row : UserRow)
    → row_by_id id rows ≡ some row
    → enabled_in (drop_row id rows) + one_if (enabled_administrator row) ≡ enabled_in rows
unfolding row_by_id drop_row
enabled_in-drop_row id [] row h = absurd (cc)
enabled_in-drop_row id (first ∷ rows) row h = elim (Bool-cases (first.id =ₛ id)) [
  | inl here ↦
      let same : first ≡ row = ground (arith, h, here) in
      rw here (
        subst (λ r. enabled_in rows + one_if (enabled_administrator r) ≡ enabled_in (first ∷ rows))
          same (omega (arith, enabled_in-cons first rows)))
  | inr later ↦
      let rest = enabled_in-drop_row id rows row (ground (arith, h, later)) in
      rw later
        (omega (arith, rest, enabled_in-cons first (drop_row id rows), enabled_in-cons first rows))
]

pub drop_row-absent :
    (id : String) (rows : List UserRow) → row_by_id id rows ≡ none → drop_row id rows ≡ rows
unfolding row_by_id drop_row
drop_row-absent id [] h = refl
drop_row-absent id (first ∷ rows) h = ground (arith, h, drop_row-absent id rows)

module _ (P : UserRow → Type 0) where
  pub All-row_by_id :
      (id : String) (rows : List UserRow) (row : UserRow)
      → All P rows
      → row_by_id id rows ≡ some row
      → P row
  unfolding row_by_id
  All-row_by_id id [] row all h = absurd (cc)
  All-row_by_id id (first ∷ rows) row all h = elim (Bool-cases (first.id =ₛ id)) [
    | inl here ↦ let same : first ≡ row = ground (arith, h, here) in subst P same all.0
    | inr later ↦ All-row_by_id id rows row all.1 (ground (arith, h, later))
  ]

  pub All-change_row :
      (id : String) (f : UserRow → UserRow) (rows : List UserRow)
      → ((row : UserRow) → P row → P (f row))
      → All P rows
      → All P (change_row id f rows)
  unfolding change_row
  All-change_row id f [] kept all = tt
  All-change_row id f (first ∷ rows) kept all = elim (Bool-cases (first.id =ₛ id)) [
    | inl here ↦ rw here (kept first all.0, all.1)
    | inr later ↦ rw later (all.0, All-change_row id f rows kept all.1)
  ]

  pub All-drop_row : (id : String) (rows : List UserRow) → All P rows → All P (drop_row id rows)
  unfolding drop_row
  All-drop_row id [] all = tt
  All-drop_row id (first ∷ rows) all = elim (Bool-cases (first.id =ₛ id)) [
    | inl here ↦ rw here (all.1)
    | inr later ↦ rw later (all.0, All-drop_row id rows all.1)
  ]
