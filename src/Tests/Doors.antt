-- ===== src/Tests/Doors.antt =====
-- An account with an identity at each of two providers, which loses one and keeps the other.
use go_rest_api_service_temp.Base.{◌≡◌, refl, true, false, some, List, [], ◌∷◌}
use go_rest_api_service_temp.Identities.{
  Directory, only_way_in, idp_in_use, is_local, account_of, provider_enabled, is_other,
  keeps_way_in, is_linked, unlink, select_by_user_id, keeps_a_way_in, unlink_identity, is_only_way,
  delete_idp,
}
use go_rest_api_service_temp.Identities.WayIn.{
  has_way_in, unlink_identity-has_way_in, unlink_identity-unlinked,
}
use go_rest_api_service_temp.Identities.Deletion.{
  has_identity, Change, unlink_asked, idp_deleted, apply_change, apply_changes,
  apply_changes-has_identity,
}

-- One account without a password, and two providers
abbrev doors : Directory
doors = record {
  accounts = record { id = "u"; local_account = some false } ∷ [];
  identities =
      record { users_id = "u"; idps_id = "p" } ∷ record { users_id = "u"; idps_id = "q" } ∷ [];
  providers = record { id = "p"; enabled = true } ∷ record { id = "q"; enabled = true } ∷ [];
}

program : Unit {0}
unfolding is_local account_of provider_enabled is_other keeps_way_in is_linked unlink
    select_by_user_id keeps_a_way_in unlink_identity is_only_way delete_idp has_way_in has_identity
    apply_change
program = tt

-- The second unlink, whose reads were made before the first, is refused by the statement.
refused_late :
    (unlink_identity doors doors "u" "q" (unlink_identity doors doors "u" "p" doors).0).1
    ≡ some only_way_in
unfolding program
refused_late = refl

in_use : (delete_idp "q" (unlink_identity doors doors "u" "p" doors).0).1 ≡ some idp_in_use
unfolding program
in_use = refl

-- By the rule of the deletion an identity at a provider that is disabled counts as a way in.
shut_out :
    has_way_in
      (delete_idp "p" (record doors {
        providers = record { id = "p"; enabled = true } ∷ record { id = "q"; enabled = false } ∷ [];
      })).0
      "u"
    ≡ false
unfolding program
shut_out = refl

unlink_identity-unlinked_example :
    has_way_in (unlink_identity doors doors "u" "p" doors).0 "u" ≡ true
unfolding program
unlink_identity-unlinked_example = unlink_identity-unlinked doors doors doors "u" "p" refl

-- Unlinking both at once, on reads made before either, leaves one of them.
unlink_identity-has_way_in_example :
    has_way_in
      (unlink_identity doors doors "u" "q" (unlink_identity doors doors "u" "p" doors).0).0
      "u"
    ≡ true
unfolding program
unlink_identity-has_way_in_example =
    unlink_identity-has_way_in doors doors (unlink_identity doors doors "u" "p" doors).0 "u" "q" "u"
      refl

abbrev both : List Change
both = unlink_asked doors doors "u" "p" ∷ unlink_asked doors doors "u" "q" ∷ idp_deleted "q" ∷ []

apply_changes-has_identity_example : has_identity (apply_changes both doors) "u" ≡ true
unfolding program
apply_changes-has_identity_example = apply_changes-has_identity both doors "u" refl
