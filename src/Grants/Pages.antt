-- ===== src/Grants/Pages.antt =====
-- The pages of policies that CheckRoles of internal/core/usecase/grant_guard.go reads.
use go_rest_api_service_temp.Base.{
  ℕ, zero, suc, ◌≤◌, ◌≡◌, refl, sym, ap, ◌∙◌, String, Bool, true, false, ◌||◌, Option, some, List,
  [], ◌∷◌, ◌++◌, arith, ◌=ₛ◌, any, In, here, there,
}
use go_rest_api_service_temp.Grants.{
  Grant, Result, ok, Fields, grants_of, covers, Page, is_empty, Collected, collected, failed,
  out_of_fuel, prepend, collect, collect_roles, check_roles,
}
use go_rest_api_service_temp.Grants.Escalation.{allows, check_grants-covers}

-- The pages of a role from a token on: how many there are, and the grants on them.
pub data Pages (select : (token : String) → Result Page) : String → ℕ → List Grant → Type 0 where
  last_page :
      {token : String} (page : Page)
      → select token ≡ ok page
      → (page.next_token =ₛ "" || is_empty page.items) ≡ true
      → Pages select token 1 page.items
  more :
      {token : String} {n : ℕ} {grants : List Grant} (page : Page)
      → select token ≡ ok page
      → (page.next_token =ₛ "" || is_empty page.items) ≡ false
      → Pages select page.next_token n grants
      → Pages select token (suc n) (page.items ++ grants)

-- The loop over the pages of a role ends with the grants of all of them, on fuel for as many as
-- there are.
pub collect-Pages :
    (fuel : ℕ) (select : (token : String) → Result Page) (token : String) (n : ℕ)
    (grants : List Grant)
    → Pages select token n grants
    → n ≤ fuel
    → collect fuel select token ≡ collected grants
unfolding collect
collect-Pages zero select token n grants (last_page page read end) enough =
    absurd (omega (arith, enough))
collect-Pages zero select token n grants (more page read next rest) enough =
    absurd (omega (arith, enough))
collect-Pages (suc fuel) select token n grants (last_page page read end) enough =
    rw (collect, read, end) refl
collect-Pages (suc fuel) select token n grants (more {n = m} {grants = gs} page read next rest)
      enough =
    rw
      (
        collect,
        read,
        next,
        collect-Pages fuel select page.next_token m gs rest (omega (arith, enough)),
      )
      refl

any_append_left :
    (p : Grant → Bool) (xs ys : List Grant) → any p xs ≡ true → any p (xs ++ ys) ≡ true
any_append_left p [] ys h = cc
any_append_left p (x ∷ xs) ys h = ground (arith, h, any_append_left p xs ys)

any_append_right :
    (p : Grant → Bool) (xs ys : List Grant) → any p ys ≡ true → any p (xs ++ ys) ≡ true
any_append_right p [] ys h = h
any_append_right p (x ∷ xs) ys h = ground (arith, h, any_append_right p xs ys)

-- The two parts of what the roles are collected from
parts :
    (c d : Collected) (all : List Grant)
    → (elim c [
      | collected grants ↦ prepend grants d
      | failed e ↦ failed e
      | out_of_fuel ↦ out_of_fuel
    ])
      ≡ collected all
    → (xs : List Grant) × (ys : List Grant) × (c ≡ collected xs)
      × (d ≡ collected ys)
      × (all ≡ xs ++ ys)
parts (collected xs) (collected ys) all h = (xs, ys, refl, refl, ground (arith, h))
parts (collected xs) (failed e) all h = absurd (cc)
parts (collected xs) out_of_fuel all h = absurd (cc)
parts (failed e) d all h = absurd (cc)
parts out_of_fuel d all h = absurd (cc)

collect_roles-any :
    (fuel : ℕ) (select : (role_id token : String) → Result Page) (role_ids : List String)
    (role_id : String) (grants all : List Grant) (p : Grant → Bool)
    → collect_roles fuel select role_ids ≡ collected all
    → In role_id role_ids
    → collect fuel (select role_id) "" ≡ collected grants
    → any p grants ≡ true
    → any p all ≡ true
unfolding collect_roles
collect_roles-any fuel select [] role_id grants all p h i c a = elim i [ ]
collect_roles-any fuel select (r ∷ rs) role_id grants all p h (here e) c a =
    let (xs, ys, cx, cy, e') =
      parts (collect fuel (select r) "") (collect_roles fuel select rs) all h in
    let c' = ap (λ k. collect fuel (select k) "") (sym e) ∙ c in
    let same : grants ≡ xs = cc in rw e' (any_append_left p xs ys (rw (← same) a))
collect_roles-any fuel select (r ∷ rs) role_id grants all p h (there i) c a =
    let (xs, ys, cx, cy, e') =
      parts (collect fuel (select r) "") (collect_roles fuel select rs) all h in
    rw e' (any_append_right p xs ys (collect_roles-any fuel select rs role_id grants ys p cy i c a))

-- A caller whom CheckRoles lets through already holds whatever a policy on any page of any of the
-- roles allows. The pages of that role come to an end within the fuel.
pub check_roles-covers :
    (fuel : ℕ) (select_authz : (user_id : String) → Result (Option Fields))
    (select : (role_id token : String) → Result Page) (caller_id : String) (role_ids : List String)
    (held : Option Fields) (role_id : String) (n : ℕ) (grants : List Grant) (g : Grant)
    → check_roles fuel select_authz select caller_id role_ids ≡ some (ok tt)
    → select_authz caller_id ≡ ok held
    → In role_id role_ids
    → Pages (select role_id) "" n grants
    → n ≤ fuel
    → any (λ h. allows h g) grants ≡ true
    → covers (grants_of held caller_id) g ≡ true
unfolding check_roles
check_roles-covers fuel select_authz select caller_id role_ids held role_id n grants g passed read i
      pages enough a =
    of_roles (collect_roles fuel select role_ids) refl passed
  where
    of_roles :
        (r : Collected)
        → collect_roles fuel select role_ids ≡ r
        → check_roles fuel select_authz select caller_id role_ids ≡ some (ok tt)
        → covers (grants_of held caller_id) g ≡ true
    of_roles (collected all) e passed' =
        check_grants-covers select_authz caller_id all held g (ground (arith, e, passed')) read (
          collect_roles-any fuel select role_ids role_id grants all (λ h. allows h g) e i
            (collect-Pages fuel (select role_id) "" n grants pages enough) a)
    of_roles (failed x) e passed' = absurd (ground (arith, e, passed'))
    of_roles out_of_fuel e passed' = absurd (ground (arith, e, passed'))
