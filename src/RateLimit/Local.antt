-- ===== src/RateLimit/Local.antt =====
-- The in-process limiter of internal/adapter/driven/ratelimitmemory/adapter.go, over a library of
-- limiters that is an argument. `now` is the clock, which a call reads once. The map of the buckets
-- is a list of keys and entries; a limiter is a value that the call which uses it writes back, for
-- the source holds it by reference.
pub mod Buckets
pub mod Charged
pub mod Idle
pub mod Unspent
use go_rest_api_service_temp.Base.{
  ℕ, suc, ◌+◌, ◌/◌, String, Bool, true, false, not, ◌&&◌, ◌||◌, Option, none, some, List, [], ◌∷◌,
  if◌then◌else◌, ltb, keep, length, ◌=ₛ◌,
}
use go_rest_api_service_temp.Base.Int.{ℤ, pos, negsuc, pos_part, leb_ℤ, ltb_ℤ}
use go_rest_api_service_temp.RateLimit.Charge.{Budget, Decision, Limiter}

-- The library's Limit
pub record Limit : Type 0 where
  pub requests : ℤ
  pub period : ℤ
  pub burst : ℤ

-- A reservation: its answers, the limiter that it leaves, and the limiter once it is cancelled.
pub record Reservation (L : Type 0) : Type 0 where
  pub granted : Bool
  pub delay : ℤ
  pub taken : L
  pub cancelled : L

-- What the adapter calls of the library: a limiter may lack the method Reserve.
pub record Library (S L : Type 0) : Type 0 where
  pub parse_strategy : String → Option S
  pub new_limiter_func : S → Limit → Option (ℕ → L)
  pub is_reserver : L → Bool
  pub admit : ℕ → L → Bool × L
  pub reserve : ℕ → L → Reservation L

-- entry
pub record Entry (L : Type 0) : Type 0 where
  pub seen : ℕ
  pub limiter : L
  pub budget : Budget

abbrev pub Entries : Type 0 → Type 0
Entries L = List (String × Entry L)

-- Adapter, with the clock
pub record Adapter (L : Type 0) : Type 0 where
  pub buckets : Entries L
  pub now : ℕ

-- The equality of two numbers
unfoldable pub eq_ℤ : ℤ → ℤ → Bool
eq_ℤ a b = leb_ℤ a b && leb_ℤ b a

-- The equality of the struct Budget
unfoldable pub same_budget : Budget → Budget → Bool
same_budget a b =
    eq_ℤ a.requests b.requests
    && eq_ℤ a.period b.period
    && eq_ℤ a.burst b.burst
    && (a.strategy =ₛ b.strategy)

-- retryAfterFor
unfoldable pub retry_after_for : Budget → ℤ
retry_after_for budget =
    if leb_ℤ budget.requests (pos 0) || leb_ℤ budget.period (pos 0)
    then pos 1000000000
    else let d = pos (pos_part budget.period / pos_part budget.requests) in
      if leb_ℤ d (pos 0) then pos 1000000000 else d

-- Whether an instant is before the clock less a duration
unfoldable pub untouched_for : (now seen : ℕ) → ℤ → Bool
untouched_for now seen (pos d) = ltb (seen + d) now
untouched_for now seen (negsuc d) = ltb seen (now + suc d)

abbrev pub refused_for : ℤ → Decision
refused_for delay = record { allowed = false; remaining = pos 0; retry_after = delay }

abbrev pub go_ahead : Decision
go_ahead = record { allowed = true; remaining = negsuc 0; retry_after = pos 0 }

module _ {L : Type 0} where
  abbrev pub new_adapter : ℕ → Adapter L
  new_adapter now = record { buckets = []; now = now }

  -- The map, read at a key
  unfoldable pub entry_of : Entries L → String → Option (Entry L)
  entry_of [] key = none
  entry_of ((k, e) ∷ rest) key = let found = entry_of rest key in if k =ₛ key then some e else found

  -- The map, written at a key
  unfoldable pub set_entry : Entries L → String → Entry L → Entries L
  set_entry buckets key e = (key, e) ∷ keep (λ p. not (p.0 =ₛ key)) buckets

  unfoldable pub is_idle : (now : ℕ) → (idle : ℤ) → Entry L → Bool
  is_idle now idle e = untouched_for now e.seen idle && untouched_for now e.seen e.budget.period

  -- Sweep: the adapter, and how many buckets were removed.
  unfoldable pub sweep : (idle : ℤ) → Adapter L → Adapter L × ℕ
  sweep idle s = (
    record s { buckets = keep (λ p. not (is_idle s.now idle p.1)) s.buckets },
    length (keep (λ p. is_idle s.now idle p.1) s.buckets),
  )

  -- Size
  unfoldable pub bucket_count : Adapter L → ℕ
  bucket_count s = length s.buckets

module _ {S L : Type 0} (lib : Library S L) where
  -- The part of limiterFor that builds a limiter
  unfoldable pub built_for : Budget → Option (ℕ → L)
  built_for budget = elim (lib.parse_strategy budget.strategy) [
    | none ↦ none
    | some strategy ↦
        lib.new_limiter_func strategy
          (record { requests = budget.requests; period = budget.period; burst = budget.burst })
  ]

  -- limiterFor, where the key has no limiter of this budget
  unfoldable pub rebuilt : Adapter L → String → Budget → Adapter L × Option L
  rebuilt s key budget = elim (built_for budget) [
    | none ↦ (s, none)
    | some lim ↦ (
      record s {
        buckets =
            set_entry s.buckets key (record { seen = s.now; limiter = lim s.now; budget = budget });
      },
      some (lim s.now),
    )
  ]

  -- limiterFor
  unfoldable pub limiter_for : Adapter L → String → Budget → Adapter L × Option L
  limiter_for s key budget = elim (entry_of s.buckets key) [
    | none ↦ rebuilt s key budget
    | some e ↦
        if same_budget e.budget budget
        then (
          record s { buckets = set_entry s.buckets key (record e { seen = s.now }) },
          some e.limiter,
        )
        else rebuilt s key budget
  ]

  -- Allow, with the limiter at hand: the limiter afterwards, and the decision.
  unfoldable pub judge : (now : ℕ) → Budget → L → L × Decision
  judge now budget lim =
      if not (lib.is_reserver lim)
      then (let (granted, lim') = lib.admit now lim in
          (lim', if granted then go_ahead else refused_for (retry_after_for budget)))
      else let r = lib.reserve now lim in
        if not r.granted
        then (r.taken, refused_for (pos 0))
        else if ltb_ℤ (pos 0) r.delay
        then (r.cancelled, refused_for r.delay)
        else (r.taken, go_ahead)

  -- What a call on a limiter does to the entry that refers to it
  unfoldable pub put_limiter : Adapter L → String → L → Adapter L
  put_limiter s key lim = elim (entry_of s.buckets key) [
    | none ↦ s
    | some e ↦ record s { buckets = set_entry s.buckets key (record e { limiter = lim }) }
  ]

  -- Allow
  unfoldable pub allow_local : Limiter (Adapter L)
  allow_local s key budget =
      let (s', found) = limiter_for s key budget in
      elim found [
        | none ↦ (s', none)
        | some lim ↦
            let (lim', decision) = judge s'.now budget lim in
            (put_limiter s' key lim', some decision)
      ]
