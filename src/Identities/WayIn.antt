-- ===== src/Identities/WayIn.antt =====
-- Unlinking an identity and deleting a provider: what an account keeps to sign in with.
use go_rest_api_service_temp.Base.{
  ◌≡◌, ◌⊎◌, refl, ap, sym, subst, ◌∙◌, String, Bool, true, false, not, ◌&&◌, ◌||◌, Option, none,
  some, List, [], ◌∷◌, arith, ◌=ₛ◌, eq_iff, Bool-cases, Option-cases, inl, inr, any, keep,
}
use go_rest_api_service_temp.Identities.{
  Account, Identity, Directory, IdentityError, account_not_found, only_way_in, is_local, account_of,
  provider_enabled, is_other, keeps_way_in, is_linked, unlink, keeps_a_way_in, select_by_user_id,
  unlink_identity,
}

module _ {A : Type 0} (p q : A → Bool) where
  pub any_mono :
      (xs : List A) → ((x : A) → p x ≡ true → q x ≡ true) → any p xs ≡ true → any q xs ≡ true
  any_mono [] less h = h
  any_mono (x ∷ xs) less h = elim (Bool-cases (p x)) [
    | inl here ↦ rw (less x here) refl
    | inr elsewhere ↦
        let rest = any_mono xs less (ground (arith, h, elsewhere)) in ground (arith, rest)
  ]

  pub any-neither :
      (xs : List A) → any p xs ≡ false → any q xs ≡ false → ¬ (any (λ x. p x || q x) xs ≡ true)
  any-neither [] h k both = ground (arith, both)
  any-neither (x ∷ xs) h k both =
      any-neither xs (ground (arith, h)) (ground (arith, k)) (ground (arith, h, k, both))

  -- What stays of those that p holds of
  pub any-keep : (xs : List A) → any (λ x. p x && q x) xs ≡ true → any p (keep q xs) ≡ true
  any-keep [] h = h
  any-keep (x ∷ xs) h = elim (Bool-cases (q x)) [
    | inr dropped ↦ rw dropped (any-keep xs (ground (arith, h, dropped)))
    | inl kept ↦ elim (Bool-cases (p x)) [
      | inl here ↦ rw (kept, here) refl
      | inr elsewhere ↦ rw (kept, elsewhere) (any-keep xs (ground (arith, h, elsewhere)))
    ]
  ]

-- An account that is there and is a local one, or has an identity that r holds of
abbrev pub signs_in : (Identity → Bool) → Directory → (id : String) → Bool
signs_in r d id = elim (account_of d.accounts id) [
  | none ↦ false
  | some a ↦ is_local a || any (λ i. (i.users_id =ₛ id) && r i) d.identities
]

-- An account that can sign in: by a password, or through a provider that is enabled
unfoldable pub has_way_in : Directory → (id : String) → Bool
has_way_in d id = signs_in (λ i. provider_enabled d.providers i.idps_id) d id

own-kept :
    (r : Identity → Bool) (id idp : String) (ids : List Identity)
    → any (λ i. is_other id idp i && r i) ids ≡ true
    → any (λ i. (i.users_id =ₛ id) && r i) (keep (λ i. not (is_linked id idp i)) ids) ≡ true
unfolding is_other is_linked
own-kept r id idp ids h =
    any-keep (λ i. (i.users_id =ₛ id) && r i) (λ i. not (is_linked id idp i)) ids
      (any_mono (λ i. is_other id idp i && r i)
        (λ i. ((i.users_id =ₛ id) && r i) && not (is_linked id idp i)) ids
        (λ i p. ground (arith, p)) h)

others-kept :
    (r : Identity → Bool) (user id idp : String) (ids : List Identity)
    → (id =ₛ user) ≡ false
    → any (λ i. (i.users_id =ₛ id) && r i) ids ≡ true
    → any (λ i. (i.users_id =ₛ id) && r i) (keep (λ i. not (is_linked user idp i)) ids) ≡ true
unfolding is_linked
others-kept r user id idp ids apart h =
    any-keep (λ i. (i.users_id =ₛ id) && r i) (λ i. not (is_linked user idp i)) ids
      (any_mono (λ i. (i.users_id =ₛ id) && r i)
        (λ i. ((i.users_id =ₛ id) && r i) && not (is_linked user idp i)) ids
        (λ i p.
          let named = (eq_iff i.users_id id).0 (ground (arith, p)) in
          let unlinked : (i.users_id =ₛ user) ≡ false = ap (λ u. u =ₛ user) named ∙ apart in
          ground (arith, p, unlinked))
        h)

-- The way in of an account after an unlink that went ahead
pub unlinked-signs_in :
    (r : Identity → Bool) (user idp id : String) (ids : List Identity) (o : Option Account)
    → (elim o [ none ↦ false | some a ↦ is_local a || any (λ i. (i.users_id =ₛ id) && r i) ids ])
      ≡ true
    → ((id =ₛ user) ≡ true
        → (elim o [ none ↦ false | some a ↦ is_local a || any (λ i. is_other id idp i && r i) ids ])
          ≡ true)
    → (elim o [
      | none ↦ false
      | some a ↦
          is_local a
          || any (λ i. (i.users_id =ₛ id) && r i) (keep (λ i. not (is_linked user idp i)) ids)
    ])
      ≡ true
unlinked-signs_in r user idp id ids none h own = h
unlinked-signs_in r user idp id ids (some a) h own = elim (Bool-cases (is_local a)) [
  | inl local ↦ rw local refl
  | inr remote ↦ elim (Bool-cases (id =ₛ user)) [
    | inl same ↦
        let other = own same in
        rw remote (
          subst
            (λ u.
              any (λ i. (i.users_id =ₛ id) && r i) (keep (λ i. not (is_linked u idp i)) ids) ≡ true)
            ((eq_iff id user).0 same) (own-kept r id idp ids (ground (arith, other, remote))))
    | inr apart ↦ rw remote (others-kept r user id idp ids apart (ground (arith, h, remote)))
  ]
]

unlink-has_way_in :
    (user idp : String) (d : Directory) (id : String)
    → has_way_in d id ≡ true
    → has_way_in (unlink user idp d).0 id ≡ true
unfolding has_way_in unlink keeps_way_in
unlink-has_way_in user idp d id h = elim (Bool-cases (any (is_linked user idp) d.identities)) [
  | inr unlinked ↦ rw unlinked h
  | inl linked ↦ elim (Bool-cases (keeps_way_in d user idp)) [
    | inr stranded ↦ rw (linked, stranded) h
    | inl keeps ↦
        rw (linked, keeps)
          (unlinked-signs_in (λ i. provider_enabled d.providers i.idps_id) user idp id d.identities
            (account_of d.accounts id) h
            (λ same.
              subst (λ u. keeps_way_in d u idp ≡ true) (sym ((eq_iff id user).0 same)) keeps))
  ]
]

keeps-signs_in :
    (r : Identity → Bool) (user idp : String) (ids : List Identity) (o : Option Account)
    → (elim o [ none ↦ false | some a ↦ is_local a || any (λ i. is_other user idp i && r i) ids ])
      ≡ true
    → (elim o [ none ↦ false | some a ↦ is_local a || any (λ i. (i.users_id =ₛ user) && r i) ids ])
      ≡ true
unfolding is_other
keeps-signs_in r user idp ids none h = h
keeps-signs_in r user idp ids (some a) h = elim (Bool-cases (is_local a)) [
  | inl local ↦ rw local refl
  | inr remote ↦ rw remote (
      any_mono (λ i. is_other user idp i && r i) (λ i. (i.users_id =ₛ user) && r i) ids
        (λ i p. ground (arith, p)) (ground (arith, h, remote)))
]

unlinked-keeps :
    (user idp : String) (d : Directory)
    → (unlink user idp d).1 ≡ none
    → keeps_way_in d user idp ≡ true
unfolding unlink
unlinked-keeps user idp d h = elim (Bool-cases (keeps_way_in d user idp)) [
  | inl keeps ↦ keeps
  | inr stranded ↦ absurd (ground (arith, h, stranded))
]

unlinked-has_way_in :
    (user idp : String) (d : Directory)
    → (unlink user idp d).1 ≡ none
    → has_way_in (unlink user idp d).0 user ≡ true
unfolding has_way_in keeps_way_in
unlinked-has_way_in user idp d h = unlink-has_way_in user idp d user (
    keeps-signs_in (λ i. provider_enabled d.providers i.idps_id) user idp d.identities
      (account_of d.accounts user) (unlinked-keeps user idp d h))

pub unlink_identity-cases :
    (at_user at_items : Directory) (user idp : String) (d : Directory)
    → (unlink_identity at_user at_items user idp d ≡ unlink user idp d)
      ⊎ ((e : IdentityError) × (unlink_identity at_user at_items user idp d ≡ (d, some e)))
unfolding unlink_identity
unlink_identity-cases at_user at_items user idp d =
    elim (Option-cases (account_of at_user.accounts user)) [
      | inl missing ↦ inr (account_not_found, rw (unlink_identity, missing) refl)
      | inr (a, found) ↦
          elim (Bool-cases (is_local a || keeps_a_way_in (select_by_user_id at_items user) idp)) [
            | inl allowed ↦ inl (rw (unlink_identity, found, allowed) refl)
            | inr refused ↦ inr (only_way_in, rw (unlink_identity, found, refused) refl)
          ]
    ]

-- Whatever the two reads of UnlinkIdentity saw, an account that can sign in, by a password or
-- through a provider that is enabled, still can after it.
pub unlink_identity-has_way_in :
    (at_user at_items d : Directory) (user idp id : String)
    → has_way_in d id ≡ true
    → has_way_in (unlink_identity at_user at_items user idp d).0 id ≡ true
unlink_identity-has_way_in at_user at_items d user idp id h =
    elim (unlink_identity-cases at_user at_items user idp d) [
      | inl asked ↦
          subst (λ r. has_way_in r.0 id ≡ true) (sym asked) (unlink-has_way_in user idp d id h)
      | inr (e, refused) ↦ subst (λ r. has_way_in r.0 id ≡ true) (sym refused) h
    ]

-- An account whose identity was unlinked can still sign in.
pub unlink_identity-unlinked :
    (at_user at_items d : Directory) (user idp : String)
    → (unlink_identity at_user at_items user idp d).1 ≡ none
    → has_way_in (unlink_identity at_user at_items user idp d).0 user ≡ true
unlink_identity-unlinked at_user at_items d user idp h =
    elim (unlink_identity-cases at_user at_items user idp d) [
      | inl asked ↦
          subst (λ r. has_way_in r.0 user ≡ true) (sym asked)
            (unlinked-has_way_in user idp d (ap (λ r. r.1) (sym asked) ∙ h))
      | inr (e, refused) ↦
          let failed : some e ≡ none = ap (λ r. r.1) (sym refused) ∙ h in
          absurd (ground (arith, failed))
    ]
