-- ===== src/Lifetimes/Bounds.antt =====
-- Which lifetimes a replica issues tokens with, from internal/core/domain/token_lifetimes.go and
-- internal/core/usecase/token_lifetimes_mirror.go.
use go_rest_api_service_temp.Base.{
  ℕ, ◌*◌, ◌≡◌, ◌↔◌, ◌⊎◌, sym, true, Option, none, some, List, [], ◌∷◌, arith, Bool-cases,
  Option-cases, subst, inl, inr,
}
use go_rest_api_service_temp.Base.Int.{pos, ◌≤ℤ◌, ◌<ℤ◌}
use go_rest_api_service_temp.Lifetimes.{
  TokenLifetimes, hour, minute, validate_token_lifetimes, validate_lifetimes,
  UpdateTokenLifetimesInput, validate_input, Mirror, new_token_lifetimes, is_valid_row,
  reload_lifetimes, current, update, LifetimesEvent, tick, put, handle_lifetimes, run_lifetimes,
}

-- The bounds as orders
abbrev pub IsBounded : TokenLifetimes → Type 0
IsBounded row =
    (pos (2 * minute) ≤ℤ row.access_token_duration)
    × (row.access_token_duration ≤ℤ pos (48 * hour))
    × (pos (12 * hour) ≤ℤ row.refresh_token_duration)
    × (row.refresh_token_duration ≤ℤ pos (168 * hour))
    × (row.access_token_duration <ℤ row.refresh_token_duration)

-- The lifetimes that are let through are those within the bounds.
pub validate_lifetimes_iff :
    (row : TokenLifetimes) → (is_valid_row (validate_lifetimes row) ≡ true) ↔ IsBounded row
unfolding validate_lifetimes validate_token_lifetimes
validate_lifetimes_iff row = (λ h. ground (arith, h), λ h. ground (arith, h))

Sound : Mirror → Type 0
Sound ref = (row : TokenLifetimes) → ref.current ≡ some row → IsBounded row

reload_lifetimes-Sound :
    (ref : Mirror) (row : Option TokenLifetimes) (now : ℕ)
    → Sound ref
    → Sound (reload_lifetimes ref row now).0
unfolding reload_lifetimes Sound
reload_lifetimes-Sound ref none now h = h
reload_lifetimes-Sound ref (some row) now h =
    elim (Bool-cases (is_valid_row (validate_lifetimes row))) [
      | inl e ↦ rw e (λ row' e'.
          let same : row ≡ row' = ground (arith, e') in
          subst IsBounded same ((validate_lifetimes_iff row).0 e))
      | inr e ↦ rw e h
    ]

update-either :
    (ref : Mirror) (input : UpdateTokenLifetimesInput) (written reread : Option TokenLifetimes)
    (now : ℕ)
    → ((update ref (some input) written reread now).1 ≡ ref)
      ⊎ ((update ref (some input) written reread now).1 ≡ (reload_lifetimes ref reread now).0)
unfolding update
update-either ref input written reread now =
    elim (Bool-cases (is_valid_row (validate_input input))) [
      | inr e ↦ inl (ground (arith, e))
      | inl e ↦ elim (Option-cases written) [
        | inl e' ↦ inl (ground (arith, e, e'))
        | inr (out, e') ↦ inr (ground (arith, e, e'))
      ]
    ]

handle_lifetimes-Sound :
    (ref : Mirror) (event : LifetimesEvent) → Sound ref → Sound (handle_lifetimes ref event)
unfolding handle_lifetimes update
handle_lifetimes-Sound ref (tick row now) h = reload_lifetimes-Sound ref row now h
handle_lifetimes-Sound ref (put none written reread now) h = h
handle_lifetimes-Sound ref (put (some input) written reread now) h =
    elim (update-either ref input written reread now) [
      | inl e ↦ subst Sound (sym e) h
      | inr e ↦ subst Sound (sym e) (reload_lifetimes-Sound ref reread now h)
    ]

run-Sound :
    (ref : Mirror) (events : List LifetimesEvent) → Sound ref → Sound (run_lifetimes ref events)
unfolding run_lifetimes
run-Sound ref [] h = h
run-Sound ref (event ∷ events) h =
    run-Sound (handle_lifetimes ref event) events (handle_lifetimes-Sound ref event h)

-- Whatever the repository answers to the ticks and the updates of a replica, the lifetimes that it
-- issues tokens with are within the bounds, and the one of a refresh token is the longer one.
pub run_lifetimes-IsBounded :
    (events : List LifetimesEvent) (row : TokenLifetimes)
    → current (run_lifetimes new_token_lifetimes events) ≡ some row
    → IsBounded row
unfolding current new_token_lifetimes Sound
run_lifetimes-IsBounded events row h = run-Sound new_token_lifetimes events (λ row' e. cc) row h
