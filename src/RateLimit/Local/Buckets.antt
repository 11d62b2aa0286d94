-- ===== src/RateLimit/Local/Buckets.antt =====
-- The map of the buckets: reading, writing and sweeping it.
use go_rest_api_service_temp.Base.{
  ◌≡◌, ◌≢◌, refl, subst, String, Bool, false, not, none, some, [], ◌∷◌, if◌then◌else◌, arith, inl,
  inr, keep, ◌=ₛ◌, Bool-cases, eq_iff, eq_refl,
}
use go_rest_api_service_temp.RateLimit.Local.{Entry, Entries, entry_of, set_entry}

pub unequal : (k k' : String) → k ≢ k' → (k =ₛ k') ≡ false
unequal k k' other = elim (Bool-cases (k =ₛ k')) [
  | inl same ↦ absurd (other ((eq_iff k k').0 same))
  | inr differs ↦ differs
]

module _ {L : Type 0} where
  -- No key twice
  abbrev pub IsDistinct : Entries L → Type 0
  IsDistinct [] = Unit
  IsDistinct ((k, e) ∷ rest) = (entry_of rest k ≡ none) × IsDistinct rest

  entry_of-keep-none :
      (p : String × Entry L → Bool) (xs : Entries L) (k : String)
      → entry_of xs k ≡ none
      → entry_of (keep p xs) k ≡ none
  unfolding entry_of
  entry_of-keep-none p [] k h = refl
  entry_of-keep-none p ((k', e) ∷ rest) k h =
      let ih = entry_of-keep-none p rest k in
      elim (Bool-cases (k' =ₛ k)) [
        | inl same ↦ ground (arith, h, same)
        | inr other ↦
            let absent : entry_of rest k ≡ none = ground (arith, h, other) in
            elim (Bool-cases (p (k', e))) [
              | inl kept ↦ rw (kept, other) (ih absent)
              | inr dropped ↦ rw dropped (ih absent)
            ]
      ]

  pub keep-IsDistinct :
      (p : String × Entry L → Bool) (xs : Entries L) → IsDistinct xs → IsDistinct (keep p xs)
  keep-IsDistinct p [] d = tt
  keep-IsDistinct p ((k, e) ∷ rest) d = elim (Bool-cases (p (k, e))) [
    | inl kept ↦ rw kept (entry_of-keep-none p rest k d.0, keep-IsDistinct p rest d.1)
    | inr dropped ↦ rw dropped (keep-IsDistinct p rest d.1)
  ]

  entry_of-without :
      (xs : Entries L) (k : String) → entry_of (keep (λ p. not (p.0 =ₛ k)) xs) k ≡ none
  unfolding entry_of
  entry_of-without [] k = refl
  entry_of-without ((k', e) ∷ rest) k =
      let ih = entry_of-without rest k in
      elim (Bool-cases (k' =ₛ k)) [ inl same ↦ rw same ih | inr other ↦ rw (other, other) ih ]

  pub set_entry-IsDistinct :
      (xs : Entries L) (k : String) (e : Entry L) → IsDistinct xs → IsDistinct (set_entry xs k e)
  unfolding set_entry
  set_entry-IsDistinct xs k e d =
      (entry_of-without xs k, keep-IsDistinct (λ p. not (p.0 =ₛ k)) xs d)

  pub entry_of-set_same :
      (xs : Entries L) (k : String) (e : Entry L) → entry_of (set_entry xs k e) k ≡ some e
  unfolding entry_of set_entry
  entry_of-set_same xs k e = rw (eq_refl k) refl

  entry_of-keep_other :
      (xs : Entries L) (k k' : String)
      → k ≢ k'
      → entry_of (keep (λ p. not (p.0 =ₛ k)) xs) k' ≡ entry_of xs k'
  unfolding entry_of
  entry_of-keep_other [] k k' other = refl
  entry_of-keep_other ((j, e) ∷ rest) k k' other =
      let ih = entry_of-keep_other rest k k' other in
      elim (Bool-cases (j =ₛ k)) [
        | inl same ↦
            let named : j ≡ k = (eq_iff j k).0 same in
            rw same (rw named (rw (unequal k k' other) ih))
        | inr differs ↦ rw (differs, ih) refl
      ]

  pub entry_of-set_other :
      (xs : Entries L) (k k' : String) (e : Entry L)
      → k ≢ k'
      → entry_of (set_entry xs k e) k' ≡ entry_of xs k'
  unfolding entry_of set_entry
  entry_of-set_other xs k k' e other = rw (unequal k k' other) (entry_of-keep_other xs k k' other)

  module _ (q : Entry L → Bool) where
    pub entry_of-keep :
        (xs : Entries L) (k : String)
        → IsDistinct xs
        → entry_of (keep (λ p. q p.1) xs) k
          ≡ elim (entry_of xs k) [ none ↦ none | some e ↦ if q e then some e else none ]
    unfolding entry_of
    entry_of-keep [] k d = refl
    entry_of-keep ((k', e) ∷ rest) k d =
        let ih = entry_of-keep rest k d.1 in
        elim (Bool-cases (k' =ₛ k)) [
          | inl same ↦
              let absent =
                subst (λ j. entry_of (keep (λ p. q p.1) rest) j ≡ none) ((eq_iff k' k).0 same)
                  (entry_of-keep-none (λ p. q p.1) rest k' d.0) in
              elim (Bool-cases (q e)) [
                | inl kept ↦ rw (kept, same, kept) refl
                | inr dropped ↦ rw (dropped, same, dropped) absent
              ]
          | inr other ↦ elim (Bool-cases (q e)) [
            | inl kept ↦ rw (kept, other) ih
            | inr dropped ↦ rw (dropped, other) ih
          ]
        ]
