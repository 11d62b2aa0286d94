-- ===== src/RateLimit/Breaker/Circuit.antt =====
-- The circuit over every interleaving of calls: Allow of breaker.go, whose call of the limiter
-- stands between admit and record.
use go_rest_api_service_temp.Base.{
  ℕ, ◌+◌, ◌-◌, ◌<◌, ◌≡◌, Bool, true, not, ◌||◌, arith, if◌then◌else◌, ltb, leb, is_some, get_or,
}
use go_rest_api_service_temp.RateLimit.Breaker.{
  Breaker, Outcome, answered, failed, cancelled, admit, settle, record_outcome,
}

-- The breaker, how many calls of the limiter are under way, and what the last change that was
-- recorded was to: OnStateChange is called with it after the mutex is released. In which order the
-- calls of OnStateChange come is not modelled.
pub record System : Type 0 where
  pub breaker : Breaker
  pub in_flight : ℕ
  pub changed_to : Bool

-- A call comes in: the first section of Allow.
unfoldable pub arrived : System → (now : ℕ) → System
arrived s now =
    let (ref, admitted) = admit s.breaker now in
    record s { breaker = ref; in_flight = if admitted then s.in_flight + 1 else s.in_flight }

-- The limiter came back to a call: the second section of Allow.
unfoldable pub finished : System → (now : ℕ) → Outcome → System
finished s now outcome =
    let (ref, changed) = record_outcome s.breaker now outcome in
    record s {
      breaker = ref;
      in_flight = s.in_flight - 1;
      changed_to = get_or s.changed_to changed;
    }

pub data Step : System → System → Type 0 where
  arrive : (s : System) (now : ℕ) → Step s (arrived s now)
  finish :
      (s : System) (now : ℕ) (outcome : Outcome) → 0 < s.in_flight → Step s (finished s now outcome)

pub data Reach (s : System) : System → Type 0 where
  here : Reach s s
  next : {t u : System} → Reach s t → Step t u → Reach s u

pub record IsSound (s : System) : Type 0 where
  pub positive : 0 < s.breaker.threshold
  -- open exactly when the failures in a row have reached the threshold
  pub counted :
      leb s.breaker.threshold s.breaker.consecutive_failures ≡ is_some s.breaker.open_until
  -- a probe is out only while the circuit is open, and then a call is under way
  pub probes : (not s.breaker.probing || is_some s.breaker.open_until) ≡ true
  pub out : (not s.breaker.probing || ltb 0 s.in_flight) ≡ true
  -- the last change that was recorded is to the state that it is in
  pub recorded : s.changed_to ≡ is_some s.breaker.open_until

arrived-IsSound : (s : System) (now : ℕ) → IsSound s → IsSound (arrived s now)
unfolding arrived admit
arrived-IsSound s now h = ground arith

finished-IsSound :
    (s : System) (now : ℕ) (outcome : Outcome) → IsSound s → IsSound (finished s now outcome)
unfolding finished record_outcome settle
finished-IsSound s now answered h = ground arith
finished-IsSound s now failed h = ground arith
finished-IsSound s now cancelled h = ground arith

Step-IsSound : {s t : System} → Step s t → IsSound s → IsSound t
Step-IsSound (arrive s now) h = arrived-IsSound s now h
Step-IsSound (finish s now outcome busy) h = finished-IsSound s now outcome h

-- From a state where this is so, and however calls interleave, the circuit is open exactly when the
-- failures in a row have reached the threshold, a probe is out only while it is open and a call is
-- under way, and the last change of state that was recorded is to the state it is in.
pub Reach-IsSound : {s t : System} → IsSound s → Reach s t → IsSound t
Reach-IsSound h here = h
Reach-IsSound h (next r step) = Step-IsSound step (Reach-IsSound h r)
