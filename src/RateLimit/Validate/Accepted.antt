-- ===== src/RateLimit/Validate/Accepted.antt =====
-- validateRateLimitMethods of internal/core/domain/rate_limits.go: which verbs it accepts.
use go_rest_api_service_temp.Base.{
  ◌<◌, ◌≤◌, ◌≡◌, ◌↔◌, ◌⊎◌, inl, inr, refl, String, true, false, List, [], ◌∷◌, length, contains,
  arith, eq_iff, All, Bool-cases,
}
use go_rest_api_service_temp.RateLimit.Validate.{
  valid_actions, methods_loop, validate_rate_limit_methods,
}

-- No text is in the list twice.
abbrev pub NoRepeat : List String → Type 0
NoRepeat [] = Unit
NoRepeat (m ∷ ms) = (contains ms m ≡ false) × NoRepeat ms

abbrev New : List String → String → Type 0
New seen m = (contains seen m ≡ false) × (contains valid_actions m ≡ true)

unseen :
    (m : String) (seen ms : List String)
    → All (New (m ∷ seen)) ms
    → All (New seen) ms × (contains ms m ≡ false)
unfolding contains
unseen m seen [] h = (tt, refl)
unseen m seen (x ∷ ms) h =
    let (rest, absent) = unseen m seen ms h.1 in
    ((ground (arith, h.0), rest), ground (arith, h.0, absent, eq_iff m x, eq_iff x m))

seen_now :
    (m : String) (seen ms : List String)
    → All (New seen) ms
    → contains ms m ≡ false
    → All (New (m ∷ seen)) ms
unfolding contains
seen_now m seen [] h k = tt
seen_now m seen (x ∷ ms) h k =
    (ground (arith, h.0, k, eq_iff m x, eq_iff x m), seen_now m seen ms h.1 (ground (arith, k)))

methods_loop→ :
    (seen ms : List String) → methods_loop seen ms ≡ [] → All (New seen) ms × NoRepeat ms
unfolding methods_loop
methods_loop→ seen [] h = (tt, tt)
methods_loop→ seen (m ∷ ms) h =
    let (new, distinct) = methods_loop→ (m ∷ seen) ms (ground arith) in
    let (older, absent) = unseen m seen ms new in ((ground arith, older), (absent, distinct))

methods_loop← :
    (seen ms : List String) → All (New seen) ms → NoRepeat ms → methods_loop seen ms ≡ []
unfolding methods_loop
methods_loop← seen [] h d = refl
methods_loop← seen (m ∷ ms) h d =
    ground (arith, h.0, methods_loop← (m ∷ seen) ms (seen_now m seen ms h.1 d.0) d.1)

-- A list of verbs that a rule may be written for: not empty, of known verbs, none twice, and the
-- wildcard only alone.
pub record AreMethods (methods : List String) : Type 0 where
  pub some_method : 0 < length methods
  pub known : All (λ m. contains valid_actions m ≡ true) methods
  pub distinct : NoRepeat methods
  pub wildcard_alone : (contains methods "*" ≡ false) ⊎ (length methods ≤ 1)

known_of : (ms : List String) → All (New []) ms → All (λ m. contains valid_actions m ≡ true) ms
known_of [] h = tt
known_of (m ∷ ms) h = (h.0.1, known_of ms h.1)

of_known : (ms : List String) → All (λ m. contains valid_actions m ≡ true) ms → All (New []) ms
unfolding contains
of_known [] h = tt
of_known (m ∷ ms) h = ((refl, h.0), of_known ms h.1)

-- The validation finds no error in the verbs exactly when they are such a list.
pub validate_methods_iff :
    (methods : List String) → (validate_rate_limit_methods methods ≡ []) ↔ AreMethods methods
unfolding validate_rate_limit_methods
validate_methods_iff methods = (to, from)
  where
    to : validate_rate_limit_methods methods ≡ [] → AreMethods methods
    to h =
        let (new, distinct) = methods_loop→ [] methods (ground arith) in
        record {
          some_method = ground arith;
          known = known_of methods new;
          distinct = distinct;
          wildcard_alone = elim (Bool-cases (contains methods "*")) [
            | inl wild ↦ inr (ground arith)
            | inr named ↦ inl named
          ];
        }

    from : AreMethods methods → validate_rate_limit_methods methods ≡ []
    from a =
        let fine = methods_loop← [] methods (of_known methods a.known) a.distinct in
        ground (arith, fine, a.some_method, a.wildcard_alone)
