-- ===== src/Lifetimes.antt =====
-- How long tokens live: internal/core/domain/token_lifetimes.go, the use case
-- internal/core/usecase/token_lifetimes.go and the copy that a replica issues from,
-- internal/core/usecase/token_lifetimes_mirror.go. A duration is a number of nanoseconds with a sign,
-- a time one without. What the repository answers is an argument, `none` for an error; metrics, logs
-- and the notification of the other replicas are left out.
pub mod Bounds
use go_rest_api_service_temp.Base.{
  ℕ, ◌+◌, ◌*◌, ◌-◌, String, Bool, true, false, not, ◌||◌, Option, none, some, List, [], ◌∷◌, ◌++◌,
  if◌then◌else◌, ◌==◌, ◌=ₛ◌,
}
use go_rest_api_service_temp.Base.Int.{ℤ, pos, ltb_ℤ, leb_ℤ}
use go_rest_api_service_temp.Revoked.{nil_uuid}
use go_rest_api_service_temp.RateLimit.Validate.{ValidationError, at_field, when}

abbrev pub minute : ℕ
minute = 60 * 1000000000

abbrev pub hour : ℕ
hour = 60 * minute

-- TokenLifetimes
pub record TokenLifetimes : Type 0 where
  pub access_token_duration : ℤ
  pub refresh_token_duration : ℤ
  pub updated_at : ℕ
  pub updated_by : String

abbrev pub access_token_min : ℤ
access_token_min = pos (2 * minute)

abbrev pub access_token_max : ℤ
access_token_max = pos (48 * hour)

abbrev pub refresh_token_min : ℤ
refresh_token_min = pos (12 * hour)

abbrev pub refresh_token_max : ℤ
refresh_token_max = pos (168 * hour)

-- DefaultTokenLifetimes
abbrev pub default_token_lifetimes : TokenLifetimes
default_token_lifetimes = record {
  access_token_duration = pos (5 * minute);
  refresh_token_duration = pos (24 * hour);
  updated_at = 0;
  updated_by = nil_uuid;
}

-- validateTokenLifetimes
unfoldable pub validate_token_lifetimes : (access refresh : ℤ) → List ValidationError
validate_token_lifetimes access refresh =
    when (ltb_ℤ access access_token_min || ltb_ℤ access_token_max access)
      (at_field "access_token_duration" "OUT_OF_RANGE")
    ++ when (ltb_ℤ refresh refresh_token_min || ltb_ℤ refresh_token_max refresh)
        (at_field "refresh_token_duration" "OUT_OF_RANGE")
    ++ when (leb_ℤ refresh access) (at_field "refresh_token_duration" "ORDERING")

-- TokenLifetimes.Validate
unfoldable pub validate_lifetimes : TokenLifetimes → List ValidationError
validate_lifetimes row =
    validate_token_lifetimes row.access_token_duration row.refresh_token_duration

-- UpdateTokenLifetimesInput and its Validate
pub record UpdateTokenLifetimesInput : Type 0 where
  pub access_token_duration : ℤ
  pub refresh_token_duration : ℤ
  pub updated_by : String

unfoldable pub validate_input : UpdateTokenLifetimesInput → List ValidationError
validate_input input =
    validate_token_lifetimes input.access_token_duration input.refresh_token_duration
    ++ when (input.updated_by =ₛ nil_uuid) (at_field "updated_by" "REQUIRED")

-- TokenLifetimes of the mirror
pub record Mirror : Type 0 where
  pub current : Option TokenLifetimes
  pub last_reload : ℕ
  pub reload_failures : ℕ

unfoldable pub new_token_lifetimes : Mirror
new_token_lifetimes = record { current = none; last_reload = 0; reload_failures = 0 }

abbrev pub is_valid_row : List ValidationError → Bool
is_valid_row [] = true
is_valid_row (_ ∷ _) = false

-- Reload; the result is whether it succeeded.
unfoldable pub reload_lifetimes : Mirror → (row : Option TokenLifetimes) → (now : ℕ) → Mirror × Bool
reload_lifetimes ref none now = (record ref { reload_failures = ref.reload_failures + 1 }, false)
reload_lifetimes ref (some row) now =
    if is_valid_row (validate_lifetimes row)
    then (record ref { current = some row; last_reload = now }, true)
    else (record ref { reload_failures = ref.reload_failures + 1 }, false)

-- Current; `none` where it panics.
unfoldable pub current : Mirror → Option TokenLifetimes
current ref = ref.current

-- Staleness; `none` is the largest duration.
unfoldable pub lifetimes_staleness : Mirror → (now : ℕ) → Option ℕ
lifetimes_staleness ref now = if ref.last_reload == 0 then none else some (now - ref.last_reload)

-- What Update ends with
pub data Updated : Type 0 where
  nil_input not_written : Updated
  invalid : List ValidationError → Updated
  updated : TokenLifetimes → Updated

-- Update: what the repository wrote, and what the reload after that reads
unfoldable pub update :
    Mirror
    → Option UpdateTokenLifetimesInput
    → (written reread : Option TokenLifetimes) → (now : ℕ) → Updated × Mirror
update ref none written reread now = (nil_input, ref)
update ref (some input) written reread now =
    let errors = validate_input input in
    if not (is_valid_row errors) then (invalid errors, ref) else elim written [
      | none ↦ (not_written, ref)
      | some out ↦ (updated out, (reload_lifetimes ref reread now).0)
    ]

-- What a replica meets: a tick of Run, or an update through it.
pub data LifetimesEvent : Type 0 where
  tick : (row : Option TokenLifetimes) → (now : ℕ) → LifetimesEvent
  put :
      Option UpdateTokenLifetimesInput
      → (written reread : Option TokenLifetimes) → (now : ℕ) → LifetimesEvent

unfoldable pub handle_lifetimes : Mirror → LifetimesEvent → Mirror
handle_lifetimes ref (tick row now) = (reload_lifetimes ref row now).0
handle_lifetimes ref (put input written reread now) = (update ref input written reread now).1

unfoldable pub run_lifetimes : Mirror → List LifetimesEvent → Mirror
run_lifetimes ref [] = ref
run_lifetimes ref (event ∷ events) = run_lifetimes (handle_lifetimes ref event) events
