-- ===== src/Revoked.antt =====
-- RevokedAccessTokens of internal/core/usecase/revoked_access_tokens.go: the copy of the revoked
-- tokens that a replica asks on every request. Each call is one step: a writer of `local` holds its
-- mutex, and a reload is not interleaved with itself. A map is a list with one entry for each key; an
-- identifier is the text of its UUID. The answer of the repository is an argument, `none` for an
-- error; so is the time. Metrics and logs are left out.
pub mod Refusal
use go_rest_api_service_temp.Base.{
  ℕ, ◌+◌, ◌-◌, String, Bool, true, false, not, ◌||◌, Option, none, some, List, [], ◌∷◌,
  if◌then◌else◌, ltb, ◌==◌, ◌=ₛ◌, length, contains, any, keep,
}

pub record RevokedAccessTokens : Type 0 where
  pub remote : List String
  pub local : List (String × ℕ)
  pub last_reload : ℕ
  pub reload_failures : ℕ

abbrev pub nil_uuid : String
nil_uuid = "00000000-0000-0000-0000-000000000000"

-- NewRevokedAccessTokens: the state of a mirror that is accepted.
unfoldable pub new_revoked_access_tokens : RevokedAccessTokens
new_revoked_access_tokens = record { remote = []; local = []; last_reload = 0; reload_failures = 0 }

-- Contains
unfoldable pub is_revoked : RevokedAccessTokens → String → Bool
is_revoked ref jti =
    if contains ref.remote jti then true else any (λ (e : String × ℕ). e.0 =ₛ jti) ref.local

-- An assignment to an entry of a map
unfoldable pub assign : List (String × ℕ) → String → ℕ → List (String × ℕ)
assign [] jti expires_at = (jti, expires_at) ∷ []
assign ((k, e) ∷ entries) jti expires_at =
    let rest = assign entries jti expires_at in
    if k =ₛ jti then (k, expires_at) ∷ entries else (k, e) ∷ rest

-- Add
unfoldable pub add : RevokedAccessTokens → String → (expires_at : ℕ) → RevokedAccessTokens
add ref jti expires_at =
    if jti =ₛ nil_uuid then ref else record ref { local = assign ref.local jti expires_at }

-- pruneLocal
unfoldable pub prune_local : RevokedAccessTokens → (now : ℕ) → RevokedAccessTokens
prune_local ref now =
    let live = keep (λ (e : String × ℕ). ltb now e.1) ref.local in
    if length live == length ref.local then ref else record ref { local = live }

-- The set of the identifiers, built by one assignment each
unfoldable pub set_of : List String → List String
set_of [] = []
set_of (jti ∷ jtis) = let rest = set_of jtis in if contains rest jti then rest else jti ∷ rest

-- Reload: the new state, and whether it succeeded. The clock is read for the reload and then for the
-- pruning.
unfoldable pub reload_revoked :
    RevokedAccessTokens → Option (List String) → (loaded now : ℕ) → RevokedAccessTokens × Bool
reload_revoked ref answer loaded now = elim answer [
  | none ↦ (record ref { reload_failures = ref.reload_failures + 1 }, false)
  | some jtis ↦ (prune_local (record ref { remote = set_of jtis; last_reload = loaded }) now, true)
]

-- Size
unfoldable pub revoked_size : RevokedAccessTokens → ℕ
revoked_size ref = length ref.remote + length ref.local

-- Staleness; `none` is the largest duration.
unfoldable pub revoked_staleness : RevokedAccessTokens → (now : ℕ) → Option ℕ
revoked_staleness ref now = if ref.last_reload == 0 then none else some (now - ref.last_reload)

-- What a replica meets: a revocation of its own, or a tick with the repository's answer.
pub data Event : Type 0 where
  revoke : String → ℕ → Event
  tick : Option (List String) → (loaded now : ℕ) → Event

unfoldable pub handle_event : RevokedAccessTokens → Event → RevokedAccessTokens
handle_event ref (revoke jti expires_at) = add ref jti expires_at
handle_event ref (tick answer loaded now) = (reload_revoked ref answer loaded now).0

-- Run, with the revocations of the replica between its ticks
unfoldable pub run_revoked : RevokedAccessTokens → List Event → RevokedAccessTokens
run_revoked ref [] = ref
run_revoked ref (event ∷ events) = run_revoked (handle_event ref event) events
