-- ===== src/Revoked/Refusal.antt =====
-- Which tokens the replica of internal/core/usecase/revoked_access_tokens.go refuses.
use go_rest_api_service_temp.Base.{
  ℕ, ◌≡◌, refl, sym, ap, ◌∙◌, String, Bool, true, false, not, ◌||◌, ◌&&◌, Option, none, some, List,
  [], ◌∷◌, arith, inl, inr, ltb, leb, ◌==◌, ◌=ₛ◌, eq_iff, eq_refl, length, contains, any, keep,
  Bool-cases,
}
use go_rest_api_service_temp.Revoked.{
  RevokedAccessTokens, nil_uuid, is_revoked, assign, add, prune_local, set_of, reload_revoked,
  Event, revoke, tick, handle_event, run_revoked,
}

-- An entry of the token that does not expire before the given time.
abbrev held : String → ℕ → List (String × ℕ) → Bool
held jti expires_at entries = any (λ (e : String × ℕ). e.0 =ₛ jti && leb expires_at e.1) entries

-- What leaves a token held: a tick before it expires, a revocation of another token, or of the same
-- one until the same time or later.
abbrev pub leaves : String → ℕ → Event → Bool
leaves jti expires_at (revoke k e) = not (k =ₛ jti) || leb expires_at e
leaves jti expires_at (tick answer loaded now) = ltb now expires_at

assign-held :
    (entries : List (String × ℕ)) (jti k : String) (expires_at e : ℕ)
    → leaves jti expires_at (revoke k e) ≡ true
    → held jti expires_at entries ≡ true
    → held jti expires_at (assign entries k e) ≡ true
unfolding assign
assign-held [] jti k expires_at e l h = cc
assign-held ((k', e') ∷ entries) jti k expires_at e l h =
    ground
      (arith, assign-held entries jti k expires_at e l, eq_iff k' k, eq_iff k' jti, eq_iff k jti)

assigned :
    (entries : List (String × ℕ)) (jti : String) (expires_at : ℕ)
    → held jti expires_at (assign entries jti expires_at) ≡ true
unfolding assign
assigned [] jti expires_at = ground (arith, eq_refl jti)
assigned ((k, e) ∷ entries) jti expires_at = ground (arith, assigned entries jti expires_at)

keep-held :
    (entries : List (String × ℕ)) (jti : String) (expires_at now : ℕ)
    → ltb now expires_at ≡ true
    → held jti expires_at entries ≡ true
    → held jti expires_at (keep (λ (e : String × ℕ). ltb now e.1) entries) ≡ true
keep-held [] jti expires_at now l h = cc
keep-held ((k, e) ∷ entries) jti expires_at now l h =
    ground (arith, keep-held entries jti expires_at now l)

handle-held :
    (ref : RevokedAccessTokens) (jti : String) (expires_at : ℕ) (event : Event)
    → leaves jti expires_at event ≡ true
    → held jti expires_at ref.local ≡ true
    → held jti expires_at (handle_event ref event).local ≡ true
unfolding handle_event add reload_revoked prune_local
handle-held ref jti expires_at (revoke k e) l h =
    ground (arith, assign-held ref.local jti k expires_at e l h)
handle-held ref jti expires_at (tick none loaded now) l h = h
handle-held ref jti expires_at (tick (some jtis) loaded now) l h =
    ground (arith, keep-held ref.local jti expires_at now l h)

run-held :
    (ref : RevokedAccessTokens) (jti : String) (expires_at : ℕ) (events : List Event)
    → any (λ e. not (leaves jti expires_at e)) events ≡ false
    → held jti expires_at ref.local ≡ true
    → held jti expires_at (run_revoked ref events).local ≡ true
unfolding run_revoked
run-held ref jti expires_at [] l h = h
run-held ref jti expires_at (event ∷ events) l h =
    run-held (handle_event ref event) jti expires_at events (ground arith)
      (handle-held ref jti expires_at event (ground arith) h)

held→revoked :
    (jti : String) (expires_at : ℕ) (entries : List (String × ℕ))
    → held jti expires_at entries ≡ true
    → any (λ (e : String × ℕ). e.0 =ₛ jti) entries ≡ true
held→revoked jti expires_at [] h = cc
held→revoked jti expires_at (e ∷ entries) h = ground (arith, held→revoked jti expires_at entries)

-- A token that a replica revokes, other than the nil identifier, is refused from then on, through
-- any ticks before it expires, failed or not and whatever the store answers, and any further
-- revocations but one of the same token until an earlier time.
pub add-is_revoked :
    (ref : RevokedAccessTokens) (jti : String) (expires_at : ℕ) (events : List Event)
    → (jti =ₛ nil_uuid) ≡ false
    → any (λ e. not (leaves jti expires_at e)) events ≡ false
    → is_revoked (run_revoked (add ref jti expires_at) events) jti ≡ true
unfolding is_revoked add
add-is_revoked ref jti expires_at events filled l =
    let start : held jti expires_at (add ref jti expires_at).local ≡ true =
      ground (arith, assigned ref.local jti expires_at) in
    let end = run-held (add ref jti expires_at) jti expires_at events l start in
    ground
      (arith, held→revoked jti expires_at (run_revoked (add ref jti expires_at) events).local end)

set_of-contains :
    (jtis : List String) (jti : String) → contains (set_of jtis) jti ≡ contains jtis jti
unfolding set_of contains
set_of-contains [] jti = refl
set_of-contains (x ∷ jtis) jti = elim (Bool-cases (contains (set_of jtis) x)) [
  | inr new ↦ ground (arith, set_of-contains jtis jti)
  | inl old ↦
      let before = set_of-contains jtis jti in
      let this = λ (e : x ≡ jti). ap (λ y. contains (set_of jtis) y) (sym e) ∙ old in
      elim (Bool-cases (x =ₛ jti)) [
        | inl same ↦ ground (arith, before, this ((eq_iff x jti).0 same))
        | inr other ↦ ground (arith, before)
      ]
]

keep-any :
    (entries : List (String × ℕ)) (jti : String) (now : ℕ)
    → any (λ (e : String × ℕ). e.0 =ₛ jti) (keep (λ (e : String × ℕ). ltb now e.1) entries)
      ≡ any (λ (e : String × ℕ). ltb now e.1 && e.0 =ₛ jti) entries
keep-any [] jti now = refl
keep-any (e ∷ entries) jti now = ground (arith, keep-any entries jti now)

keep_all :
    (entries : List (String × ℕ)) (now : ℕ)
    → (leb (length (keep (λ (e : String × ℕ). ltb now e.1) entries)) (length entries) ≡ true)
keep_all [] now = ground arith
keep_all (e ∷ entries) now = ground (arith, keep_all entries now)

keep_same :
    (entries : List (String × ℕ)) (now : ℕ)
    → (length (keep (λ (e : String × ℕ). ltb now e.1) entries) == length entries) ≡ true
    → keep (λ (e : String × ℕ). ltb now e.1) entries ≡ entries
keep_same [] now h = refl
keep_same (e ∷ entries) now h = elim (Bool-cases (ltb now e.1)) [
  | inl live ↦ rw live (ap (λ l. e ∷ l) (keep_same entries now (ground arith)))
  | inr dead ↦ absurd (ground (arith, keep_all entries now))
]

-- After a tick a token is refused exactly when the store listed it, or the replica revoked it and it
-- has not expired; after a failed one, exactly when it was refused before.
pub reload-is_revoked :
    (ref : RevokedAccessTokens) (answer : Option (List String)) (loaded now : ℕ) (jti : String)
    → is_revoked (reload_revoked ref answer loaded now).0 jti ≡ (elim answer [
      | none ↦ is_revoked ref jti
      | some jtis ↦
          contains jtis jti || any (λ (e : String × ℕ). ltb now e.1 && e.0 =ₛ jti) ref.local
    ])
unfolding reload_revoked prune_local is_revoked
reload-is_revoked ref none loaded now jti = refl
reload-is_revoked ref (some jtis) loaded now jti =
    elim (Bool-cases
      (length (keep (λ (e : String × ℕ). ltb now e.1) ref.local) == length ref.local)) [
        | inr pruned ↦ ground (arith, set_of-contains jtis jti, keep-any ref.local jti now)
        | inl same ↦
            let whole : any (λ (e : String × ℕ). e.0 =ₛ jti) ref.local
                ≡ any (λ (e : String × ℕ). ltb now e.1 && e.0 =ₛ jti) ref.local =
              ap (λ l. any (λ (e : String × ℕ). e.0 =ₛ jti) l) (sym (keep_same ref.local now same))
              ∙ keep-any ref.local jti now in
            ground (arith, set_of-contains jtis jti, whole)
      ]
