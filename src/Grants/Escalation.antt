-- ===== src/Grants/Escalation.antt =====
-- What a caller whom GrantGuard of internal/core/usecase/grant_guard.go lets through can hand out.
use go_rest_api_service_temp.Base.{
  ◌≡◌, ◌↔◌, refl, ap, String, Bool, true, false, not, ◌&&◌, ◌||◌, Option, none, List, [], ◌∷◌,
  arith, inl, inr, ◌=ₛ◌, eq_iff, any, Bool-cases,
}
use go_rest_api_service_temp.Revoked.{nil_uuid}
use go_rest_api_service_temp.Grants.{
  Grant, Result, ok, error, Fields, field_of, actions_of, grants_of, covers, first_not_held,
  check_grants,
}

-- What a holder of the grant may do
abbrev pub allows : Grant → Grant → Bool
allows h g =
    (h.resource =ₛ "*" || h.resource =ₛ g.resource) && (h.action =ₛ "*" || h.action =ₛ g.action)

all_held :
    (mine : Fields) (grants : List Grant)
    → first_not_held mine grants ≡ none
    → any (λ h. not (covers mine h)) grants ≡ false
unfolding first_not_held
all_held mine [] h = refl
all_held mine (g ∷ grants) h = ground (arith, h, all_held mine grants)

-- The actions that match a weaker grant match a stronger one's.
weaker :
    (actions : List String) (h g : Grant)
    → (h.action =ₛ "*" || h.action =ₛ g.action) ≡ true
    → any (λ (a : String). a =ₛ "*" || a =ₛ h.action) actions ≡ true
    → any (λ (a : String). a =ₛ "*" || a =ₛ g.action) actions ≡ true
weaker [] h g e m = cc
weaker (a ∷ actions) h g e m = ground (
  arith,
  m,
  weaker actions h g e,
  eq_iff a h.action,
  eq_iff h.action "*",
  eq_iff h.action g.action,
  eq_iff a g.action,
  eq_iff a "*",
)

covers-allows :
    (mine : Fields) (h g : Grant) → covers mine h ≡ true → allows h g ≡ true → covers mine g ≡ true
unfolding covers
covers-allows mine h g c a =
    let act : (h.action =ₛ "*" || h.action =ₛ g.action) ≡ true = ground (arith, a) in
    let on_all = weaker (actions_of (field_of mine "*")) h g act in
    let on_own = weaker (actions_of (field_of mine h.resource)) h g act in
    let same = λ (r : String) (e : (h.resource =ₛ r) ≡ true).
      ap (field_of mine) ((eq_iff h.resource r).0 e) in
    elim (Bool-cases (h.resource =ₛ "*")) [
      | inl e ↦ ground (arith, c, on_all, on_own, same "*" e)
      | inr n ↦
          let e : (h.resource =ₛ g.resource) ≡ true = ground (arith, a, n) in
          ground (arith, c, on_all, on_own, same g.resource e)
    ]

any-covers :
    (mine : Fields) (grants : List Grant) (g : Grant)
    → any (λ h. not (covers mine h)) grants ≡ false
    → any (λ h. allows h g) grants ≡ true
    → covers mine g ≡ true
any-covers mine [] g held a = cc
any-covers mine (h ∷ grants) g held a =
    ground (arith, held, a, any-covers mine grants g, covers-allows mine h g)

-- A caller whom CheckGrants lets through already holds whatever the given grants allow: an action on
-- a pattern that a holder of one of them may take, the caller may take too.
pub check_grants-covers :
    (select_authz : (user_id : String) → Result (Option Fields)) (caller_id : String)
    (grants : List Grant) (held : Option Fields) (g : Grant)
    → check_grants select_authz caller_id grants ≡ ok tt
    → select_authz caller_id ≡ ok held
    → any (λ h. allows h g) grants ≡ true
    → covers (grants_of held caller_id) g ≡ true
unfolding check_grants
check_grants-covers select_authz caller_id grants held g passed read a =
    let mine = grants_of held caller_id in
    let none_missing : first_not_held mine grants ≡ none = ground (arith, passed, read) in
    any-covers mine grants g (all_held mine grants none_missing) a

missing :
    (mine : Fields) (grants : List Grant)
    → any (λ h. not (covers mine h)) grants ≡ false
    → first_not_held mine grants ≡ none
unfolding first_not_held
missing mine [] h = refl
missing mine (g ∷ grants) h = ground (arith, h, missing mine grants)

-- CheckGrants lets a caller through exactly when there is one, the caller's permissions can be read,
-- and they cover each of the given grants.
pub check_grants_iff :
    (select_authz : (user_id : String) → Result (Option Fields)) (caller_id : String)
    (grants : List Grant)
    → (check_grants select_authz caller_id grants ≡ ok tt) ↔ (
        ((caller_id =ₛ nil_uuid) ≡ false)
        × ((held : Option Fields) × (select_authz caller_id ≡ ok held)
            × (any (λ h. not (covers (grants_of held caller_id) h)) grants ≡ false)))
unfolding check_grants
check_grants_iff select_authz caller_id grants = (
  λ passed. (ground (arith, passed), of_answer (select_authz caller_id) refl passed),
  λ (called, (held, read, all)).
      ground (arith, called, read, missing (grants_of held caller_id) grants all),
)
  where
    of_answer :
        (r : Result (Option Fields))
        → select_authz caller_id ≡ r
        → check_grants select_authz caller_id grants ≡ ok tt
        → (held : Option Fields) × (select_authz caller_id ≡ ok held)
          × (any (λ h. not (covers (grants_of held caller_id) h)) grants ≡ false)
    of_answer (error x) e passed = absurd (ground (arith, passed, e))
    of_answer (ok held) e passed =
        (held, e, all_held (grants_of held caller_id) grants (ground (arith, passed, e)))
