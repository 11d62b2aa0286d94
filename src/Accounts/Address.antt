-- ===== src/Accounts/Address.antt =====
-- Who may change an address in UpdateByID of internal/core/usecase/users.go.
use go_rest_api_service_temp.Base.{
  ◌≡◌, ◌≢◌, refl, sym, ap, ◌∙◌, String, Bool, true, false, none, some, ◌=ₛ◌, arith, Bool-cases,
  Option-cases, inl, inr,
}
use go_rest_api_service_temp.Revoked.{nil_uuid}
use go_rest_api_service_temp.Accounts.{
  User, UpdateUserInput, ok, bind-ok, Result-cases, UsersRepository, has_admin_flag,
}
use go_rest_api_service_temp.Accounts.Guard.{
  is_administrator_account, guard_flagged, guard_administrator,
}
use go_rest_api_service_temp.Accounts.Update.{
  UsersService, same_address, caller_is_administrator, respells, respelled, readdressed,
  address_may_change, address_part,
}

-- The same account and the same caller
abbrev pub IsFor : UpdateUserInput → UpdateUserInput → Type 0
IsFor a b = (a.id ≡ b.id) × (a.caller_id ≡ b.caller_id)

module _ {S : Type 0} (service : UsersService) (repository : UsersRepository S) (s : S) where
  -- The caller is an account with the flag that is not disabled.
  abbrev pub IsAsked : (caller_id : String) → Type 0
  IsAsked caller_id = is_administrator_account repository s caller_id ≡ ok true

  pub guard-IsAsked :
      (stored : User) (caller_id action : String) (locks : Bool)
      → has_admin_flag (some stored) ≡ true
      → guard_administrator repository s (some stored) caller_id action locks ≡ ok tt
      → IsAsked caller_id
  unfolding guard_administrator guard_flagged
  guard-IsAsked stored caller_id action locks flag h = ground (arith, flag, h)

  caller-IsAsked :
      (caller_id : String)
      → (caller_id =ₛ nil_uuid) ≡ false
      → caller_is_administrator service repository s caller_id ≡ ok true
      → IsAsked caller_id
  unfolding caller_is_administrator is_administrator_account
  caller-IsAsked caller_id named h = ground (arith, named, h)

  module _ (caller_id : String) (unasked : ¬ IsAsked caller_id) where
    caller-unasked :
        (b : Bool)
        → (caller_id =ₛ nil_uuid) ≡ false
        → caller_is_administrator service repository s caller_id ≡ ok b
        → b ≡ false
    caller-unasked true named h = absurd (unasked (caller-IsAsked caller_id named h))
    caller-unasked false named h = refl

    respells-unasked : (b : Bool) → respells service repository s caller_id ≡ ok b → b ≡ false
    unfolding respells
    respells-unasked b h = elim (Bool-cases (caller_id =ₛ nil_uuid)) [
      | inl missing ↦ ground (arith, h, missing)
      | inr named ↦ ground (arith, h, named, caller-unasked b named)
    ]

    respelled-kept :
        (input ready : UpdateUserInput)
        → input.caller_id ≡ caller_id
        → respelled service repository s input ≡ ok ready
        → ready ≡ record input { email = none }
    unfolding respelled
    respelled-kept input ready e h =
        let (b, answered, made) =
          bind-ok (respells service repository s input.caller_id) _ ready h in
        let plain : b ≡ false =
          respells-unasked b (ap (λ c. respells service repository s c) (sym e) ∙ answered) in
        ground (arith, made, plain)

    readdressed-refuses :
        (input ready : UpdateUserInput)
        → input.caller_id ≡ caller_id
        → readdressed service repository s input ≢ ok ready
    unfolding readdressed
    readdressed-refuses input ready e h = elim (Bool-cases (input.caller_id =ₛ nil_uuid)) [
      | inl missing ↦ ground (arith, h, missing)
      | inr named ↦
          let named' : (caller_id =ₛ nil_uuid) ≡ false = ap (λ c. c =ₛ nil_uuid) (sym e) ∙ named in
          elim (Result-cases (caller_is_administrator service repository s input.caller_id)) [
            | inr (x, broken) ↦ ground (arith, h, named, broken)
            | inl (b, answered) ↦
                let plain : b ≡ false =
                  caller-unasked b named'
                    (ap (λ c. caller_is_administrator service repository s c) (sym e) ∙ answered) in
                ground (arith, h, named, answered, plain)
          ]
    ]

    pub address-email :
        (input ready : UpdateUserInput)
        → input.caller_id ≡ caller_id
        → address_part service repository s input ≡ ok ready
        → IsFor ready input × (ready.email ≡ none)
    unfolding address_part address_may_change
    address-email input ready e h = elim (Option-cases input.email) [
      | inl absent ↦ ground (arith, h, absent)
      | inr (address, there) ↦ elim (Result-cases (repository.select_by_id s input.id)) [
        | inr (x, broken) ↦ absurd (ground (arith, h, there, broken))
        | inl (stored, read) ↦ elim (Bool-cases (stored.email =ₛ address)) [
          | inl same ↦ ground (arith, h, there, read, same)
          | inr other ↦ elim (Bool-cases (same_address service stored.email address)) [
            | inl spelled ↦
                ground (arith, h, there, read, other, spelled, respelled-kept input ready e)
            | inr another ↦
                absurd (
                  ground (arith, h, there, read, other, another, readdressed-refuses input ready e))
          ]
        ]
      ]
    ]
