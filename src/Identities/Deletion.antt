-- ===== src/Identities/Deletion.antt =====
-- Unlinks and deletions of providers together: what an account is left with.
use go_rest_api_service_temp.Base.{
  ◌≡◌, refl, sym, subst, String, Bool, true, false, not, ◌&&◌, ◌||◌, Option, none, some, List, [],
  ◌∷◌, arith, ◌=ₛ◌, eq_iff, eq_refl, Bool-cases, inl, inr, any, keep,
}
use go_rest_api_service_temp.Identities.{
  Account, Identity, Provider, Directory, is_local, account_of, provider_enabled, is_other,
  keeps_way_in, is_linked, unlink, unlink_identity, is_only_way, delete_idp,
}
use go_rest_api_service_temp.Identities.WayIn.{
  any_mono, any-neither, any-keep, signs_in, unlinked-signs_in, unlink_identity-cases,
}

-- An account that has a way in by the rule of the deletion: a password, or an identity at a provider
-- that is there
unfoldable pub has_identity : Directory → (id : String) → Bool
has_identity d id = signs_in (λ i. true) d id

-- What happens to the tables: an unlink, on reads that may be old, the deletion of a provider, its
-- switch, and an identity that is linked.
pub data Change : Type 0 where
  unlink_asked : (at_user at_items : Directory) (user idp : String) → Change
  idp_deleted : (idp : String) → Change
  idps_switched : List Provider → Change
  identity_linked : Identity → Change

unfoldable pub apply_change : Change → Directory → Directory
apply_change (unlink_asked at_user at_items user idp) d =
    (unlink_identity at_user at_items user idp d).0
apply_change (idp_deleted idp) d = (delete_idp idp d).0
apply_change (idps_switched providers) d = record d { providers = providers }
apply_change (identity_linked i) d = record d { identities = i ∷ d.identities }

abbrev pub apply_changes : List Change → Directory → Directory
apply_changes [] d = d
apply_changes (c ∷ cs) d = apply_changes cs (apply_change c d)

-- has_identity, with the row of users at hand
abbrev counted_in : List Identity → (id : String) → Option Account → Bool
counted_in ids id none = false
counted_in ids id (some a) = is_local a || any (λ i. (i.users_id =ₛ id) && true) ids

other-weaker :
    (r : Identity → Bool) (id idp : String) (ids : List Identity) (o : Option Account)
    → (elim o [ none ↦ false | some a ↦ is_local a || any (λ i. is_other id idp i && r i) ids ])
      ≡ true
    → (elim o [ none ↦ false | some a ↦ is_local a || any (λ i. is_other id idp i && true) ids ])
      ≡ true
other-weaker r id idp ids none h = h
other-weaker r id idp ids (some a) h = elim (Bool-cases (is_local a)) [
  | inl local ↦ rw local refl
  | inr remote ↦ rw remote (
      any_mono (λ i. is_other id idp i && r i) (λ i. is_other id idp i && true) ids
        (λ i p. ground (arith, p)) (ground (arith, h, remote)))
]

unlink-has_identity :
    (user idp : String) (d : Directory) (id : String)
    → has_identity d id ≡ true
    → has_identity (unlink user idp d).0 id ≡ true
unfolding has_identity unlink keeps_way_in
unlink-has_identity user idp d id h = elim (Bool-cases (any (is_linked user idp) d.identities)) [
  | inr unlinked ↦ rw unlinked h
  | inl linked ↦ elim (Bool-cases (keeps_way_in d user idp)) [
    | inr stranded ↦ rw (linked, stranded) h
    | inl keeps ↦
        rw (linked, keeps)
          (unlinked-signs_in (λ i. true) user idp id d.identities (account_of d.accounts id) h
            (λ same.
              other-weaker (λ i. provider_enabled d.providers i.idps_id) id idp d.identities
                (account_of d.accounts id)
                (subst (λ u. keeps_way_in d u idp ≡ true) (sym ((eq_iff id user).0 same)) keeps)))
  ]
]

-- Of an account that is no local one and has no identity elsewhere, each identity is its only way.
only-alone :
    (idp : String) (d : Directory) (a : Account) (i : Identity)
    → account_of d.accounts i.users_id ≡ some a
    → is_local a ≡ false
    → any (is_other i.users_id idp) d.identities ≡ false
    → (is_only_way d idp i || is_other i.users_id idp i) ≡ true
unfolding is_only_way is_other
only-alone idp d a i found remote alone = elim (Bool-cases (i.idps_id =ₛ idp)) [
  | inl same ↦ rw (is_only_way, found, same, remote, alone) refl
  | inr apart ↦ rw (is_other, apart, eq_refl i.users_id) (ground arith)
]

deleted-signs_in :
    (idp : String) (d : Directory) (id : String) (a : Account)
    → account_of d.accounts id ≡ some a
    → any (is_only_way d idp) d.identities ≡ false
    → (is_local a || any (λ i. (i.users_id =ₛ id) && true) d.identities) ≡ true
    → (is_local a
        || any (λ i. (i.users_id =ₛ id) && true) (keep (λ i. not (i.idps_id =ₛ idp)) d.identities))
      ≡ true
unfolding is_other
deleted-signs_in idp d id a found unused h = elim (Bool-cases (is_local a)) [
  | inl local ↦ rw local refl
  | inr remote ↦ elim (Bool-cases (any (is_other id idp) d.identities)) [
    | inl elsewhere ↦ rw remote (
        any-keep (λ i. (i.users_id =ₛ id) && true) (λ i. not (i.idps_id =ₛ idp)) d.identities
          (any_mono (is_other id idp) (λ i. ((i.users_id =ₛ id) && true) && not (i.idps_id =ₛ idp))
            d.identities (λ i p. ground (arith, p)) elsewhere))
    | inr alone ↦
        let each =
          any_mono (λ i. (i.users_id =ₛ id) && true) (λ i. is_only_way d idp i || is_other id idp i)
            d.identities
            (λ i p. elim (Bool-cases (i.users_id =ₛ id)) [
              | inr differs ↦ absurd (ground (arith, p, differs))
              | inl same ↦
                  let named = (eq_iff i.users_id id).0 same in
                  subst (λ u. (is_only_way d idp i || is_other u idp i) ≡ true) named
                    (only-alone idp d a i
                      (subst (λ u. account_of d.accounts u ≡ some a) (sym named) found) remote
                      (subst (λ u. any (is_other u idp) d.identities ≡ false) (sym named) alone))
            ])
            (ground (arith, h, remote)) in
        absurd (any-neither (is_only_way d idp) (is_other id idp) d.identities unused alone each)
  ]
]

deleted-counted_in :
    (idp : String) (d : Directory) (id : String) (o : Option Account)
    → account_of d.accounts id ≡ o
    → any (is_only_way d idp) d.identities ≡ false
    → counted_in d.identities id o ≡ true
    → counted_in (keep (λ i. not (i.idps_id =ₛ idp)) d.identities) id o ≡ true
deleted-counted_in idp d id none found unused h = h
deleted-counted_in idp d id (some a) found unused h = deleted-signs_in idp d id a found unused h

deleted-has_identity :
    (idp : String) (d : Directory) (id : String)
    → has_identity d id ≡ true
    → has_identity (delete_idp idp d).0 id ≡ true
unfolding has_identity delete_idp is_only_way
deleted-has_identity idp d id h = elim (Bool-cases (any (λ p. p.id =ₛ idp) d.providers)) [
  | inr missing ↦ rw missing h
  | inl there ↦ elim (Bool-cases (any (is_only_way d idp) d.identities)) [
    | inl in_use ↦ rw (there, in_use) h
    | inr unused ↦
        rw (there, unused) (deleted-counted_in idp d id (account_of d.accounts id) refl unused h)
  ]
]

linked-counted_in :
    (i : Identity) (ids : List Identity) (id : String) (o : Option Account)
    → counted_in ids id o ≡ true
    → counted_in (i ∷ ids) id o ≡ true
linked-counted_in i ids id none h = h
linked-counted_in i ids id (some a) h = ground (arith, h)

apply_change-has_identity :
    (c : Change) (d : Directory) (id : String)
    → has_identity d id ≡ true
    → has_identity (apply_change c d) id ≡ true
unfolding apply_change has_identity
apply_change-has_identity (unlink_asked at_user at_items user idp) d id h =
    elim (unlink_identity-cases at_user at_items user idp d) [
      | inl asked ↦
          subst (λ r. has_identity r.0 id ≡ true) (sym asked) (unlink-has_identity user idp d id h)
      | inr (e, refused) ↦ subst (λ r. has_identity r.0 id ≡ true) (sym refused) h
    ]
apply_change-has_identity (idp_deleted idp) d id h = deleted-has_identity idp d id h
apply_change-has_identity (idps_switched providers) d id h = h
apply_change-has_identity (identity_linked i) d id h =
    linked-counted_in i d.identities id (account_of d.accounts id) h

-- However identities are unlinked, on whatever reads, and linked, and providers switched and
-- deleted, an account that is there and is a local one or has an identity stays so.
pub apply_changes-has_identity :
    (cs : List Change) (d : Directory) (id : String)
    → has_identity d id ≡ true
    → has_identity (apply_changes cs d) id ≡ true
apply_changes-has_identity [] d id h = h
apply_changes-has_identity (c ∷ cs) d id h =
    apply_changes-has_identity cs (apply_change c d) id (apply_change-has_identity c d id h)
