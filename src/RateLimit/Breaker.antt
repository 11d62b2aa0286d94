-- ===== src/RateLimit/Breaker.antt =====
-- Breaker of internal/adapter/driven/ratelimitbreaker/breaker.go: a circuit breaker in front of the
-- shared limiter. The two sections under the mutex, admit and record, are one step each; the call of
-- the limiter stands between them, so the calls of several requests interleave at these steps. Time
-- is in nanoseconds, `none` is the zero time. Logs are left out; the call of OnStateChange is a
-- result of record.
pub mod Circuit
pub mod Probe
use go_rest_api_service_temp.Base.{
  ℕ, ◌+◌, Bool, true, false, not, ◌||◌, Option, none, some, List, [], ◌∷◌, if◌then◌else◌, ltb, leb,
  is_some, get_or,
}
use go_rest_api_service_temp.Base.Int.{ℤ, pos, leb_ℤ, pos_part}

-- The fields of Breaker that change, and the two bounds.
pub record Breaker : Type 0 where
  pub threshold : ℕ
  pub cooldown : ℕ
  pub open_until : Option ℕ
  pub consecutive_failures : ℕ
  pub probing : Bool

-- How a call of the limiter ended: `cancelled` is an error while the caller's context was cancelled, or
-- one that is itself a cancellation.
pub data Outcome : Type 0 where
  answered failed cancelled : Outcome

-- New: the limiter itself, or a breaker in front of it.
pub data Wrapped (L : Type 0) : Type 0 where
  absent : Wrapped L
  plain : L → Wrapped L
  behind : Breaker → L → Wrapped L

unfoldable pub new : {L : Type 0} → Option L → (threshold cooldown : ℤ) → Wrapped L
new limiter threshold cooldown = elim limiter [
  | none ↦ absent
  | some l ↦
      if leb_ℤ threshold (pos 0) || leb_ℤ cooldown (pos 0)
      then plain l
      else behind
          (record {
            threshold = pos_part threshold;
            cooldown = pos_part cooldown;
            open_until = none;
            consecutive_failures = 0;
            probing = false;
          })
          l
]

unfoldable pub admit : Breaker → (now : ℕ) → Breaker × Bool
admit ref now = elim ref.open_until [
  | none ↦ (ref, true)
  | some until ↦
      if ltb now until
      then (ref, false)
      else if ref.probing
      then (ref, false)
      else (record ref { probing = true }, true)
]

-- The part of record after the test for a cancelled caller: the counters and the circuit.
unfoldable pub settle : Breaker → (now : ℕ) → (ok : Bool) → Breaker
settle ref now true = record ref { probing = false; consecutive_failures = 0; open_until = none }
settle ref now false =
    let failures = ref.consecutive_failures + 1 in
    if leb ref.threshold failures
    then record ref {
      probing = false;
      consecutive_failures = failures;
      open_until = some (now + ref.cooldown);
    }
    else record ref { probing = false; consecutive_failures = failures }

-- Whether the state changed, and to what: the argument of onChange.
abbrev pub change : Breaker → Breaker → Option Bool
change before after = elim (is_some before.open_until) [
  | true ↦ if is_some after.open_until then none else some false
  | false ↦ if is_some after.open_until then some true else none
]

-- record
unfoldable pub record_outcome : Breaker → (now : ℕ) → Outcome → Breaker × Option Bool
record_outcome ref now cancelled = (record ref { probing = false }, none)
record_outcome ref now answered = let ref' = settle ref now true in (ref', change ref ref')
record_outcome ref now failed = let ref' = settle ref now false in (ref', change ref ref')

-- Open
unfoldable pub is_open : Breaker → (now : ℕ) → Bool
is_open ref now = elim ref.open_until [ none ↦ false | some until ↦ ltb now until ]
