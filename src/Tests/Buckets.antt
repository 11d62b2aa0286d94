-- ===== src/Tests/Buckets.antt =====
-- The in-process limiter over a library whose limiters count down and start again once they were
-- idle for longer than their period.
use go_rest_api_service_temp.Base.{
  ℕ, ◌-◌, ◌≤◌, ◌≡◌, refl, eq_iff, eq_refl, sym, ap, get_or, String, Bool, true, false, Option, none,
  some, [], ◌∷◌, if◌then◌else◌, arith, ltb, ◌=ₛ◌, inl, inr, Bool-cases,
}
use go_rest_api_service_temp.Base.Int.{ℤ, pos, pos_part}
use go_rest_api_service_temp.RateLimit.Charge.{Budget}
use go_rest_api_service_temp.RateLimit.Local.{
  Library, Entry, Adapter, eq_ℤ, same_budget, untouched_for, retry_after_for, new_adapter, entry_of,
  set_entry, is_idle, sweep, bucket_count, built_for, rebuilt, limiter_for, judge, put_limiter,
  allow_local,
}
use go_rest_api_service_temp.RateLimit.Local.Idle.{
  Used, built, judged, IsRefilling, waited, charged, perform, perform_all, sweep-allow_local,
}
use go_rest_api_service_temp.RateLimit.Local.Buckets.{unequal}
use go_rest_api_service_temp.Session.Throttles.{
  BucketLimiter, State, attempt, succeed, IsBucketLimiter, attempt-refused,
}
use go_rest_api_service_temp.RateLimit.Local.Unspent.{IsRestoring, allow_local-refused}

-- A count of requests left, the count it starts with, its period, and when it was last used
abbrev Countdown : Type 0
Countdown = ℕ × ℕ × ℤ × ℕ

abbrev left_at : ℕ → Countdown → ℕ
left_at now (left, whole, period, last) = if untouched_for now last period then whole else left

abbrev countdowns : Library Unit Countdown
countdowns = record {
  parse_strategy = λ s. if s =ₛ "token_bucket" then some tt else none;
  new_limiter_func = λ _ limit.
      some (λ now. (pos_part limit.requests, pos_part limit.requests, limit.period, now));
  is_reserver = λ _. true;
  admit = λ now l. (ltb 0 (left_at now l), (left_at now l - 1, l.1, l.2, now));
  reserve = λ now l. record {
    granted = true;
    delay = if ltb 0 (left_at now l) then pos 0 else pos 1000000000;
    taken = (left_at now l - 1, l.1, l.2, now);
    cancelled = l;
  };
}

abbrev two_a_second : Budget
two_a_second = record {
  requests = pos 2;
  period = pos 1000000000;
  burst = pos 0;
  strategy = "token_bucket";
}

abbrev answers : Adapter Countdown → Option Bool
answers s = elim (allow_local countdowns s "a" two_a_second).1 [
  | none ↦ none
  | some d ↦ some d.allowed
]

abbrev after : ℕ → ℕ → Adapter Countdown
after start n =
    perform_all countdowns (new_adapter start) (
      charged "a" two_a_second
      ∷ charged "a" two_a_second
      ∷ charged "b" two_a_second
      ∷ waited n
      ∷ [])

program : Unit {0}
unfolding eq_ℤ same_budget untouched_for retry_after_for entry_of set_entry is_idle sweep
    bucket_count built_for rebuilt limiter_for judge put_limiter allow_local perform
program = tt

-- Two requests pass, a third one in the same second does not.
third : answers (after 0 500000000) ≡ some false
unfolding program
third = refl

-- A second later the bucket has refilled, whether it is swept or not.
refilled : answers (after 0 1000000001) ≡ some true
unfolding program
refilled = refl

-- A sweep leaves both buckets within their period, whatever it is told.
within : (sweep (pos 0) (after 0 1000000000)).1 ≡ 0
unfolding program
within = refl

beyond : (sweep (pos 0) (after 0 1000000001)).1 ≡ 2
unfolding program
beyond = refl

-- A strategy that the library does not know is an error and makes no bucket.
unknown :
    allow_local countdowns (new_adapter 0) "a" (record two_a_second { strategy = "leaky" })
    ≡ (new_adapter 0, none)
unfolding program
unknown = refl

-- A new limiter of a budget
abbrev start_of : Budget → ℕ → Countdown
start_of budget now = (pos_part budget.requests, pos_part budget.requests, budget.period, now)

made_as :
    (budget : Budget) (make : ℕ → Countdown) (now : ℕ)
    → built_for countdowns budget ≡ some make
    → make now ≡ start_of budget now
unfolding built_for
made_as budget make now made = elim (Bool-cases (budget.strategy =ₛ "token_bucket")) [
  | inl known ↦
      let same : some (start_of budget) ≡ some make = rw⁻¹ made (rw (built_for, known) refl) in
      ap (λ o. get_or (start_of budget) o now) (sym same)
  | inr other ↦ absurd (ground (arith, made, other))
]

used_as :
    (budget : Budget) (make : ℕ → Countdown) {l : Countdown} {t : ℕ}
    → ((now : ℕ) → make now ≡ start_of budget now)
    → Used countdowns make budget l t
    → (l.1 ≡ pos_part budget.requests) × (l.2 ≡ budget.period) × (l.3 ≤ t)
unfolding judge
used_as budget make starts (built t) = rw (starts t) (refl, refl, ground arith)
used_as budget make starts (judged {l} {t} t' le used) =
    let (whole, period, last) = used_as budget make starts used in
    elim (Bool-cases (ltb 0 (left_at t' l))) [
      | inl left ↦ rw left (whole, period, ground arith)
      | inr spent ↦ rw spent (whole, period, ground arith)
    ]

earlier :
    (now seen t : ℕ) (d : ℤ)
    → seen ≤ t
    → untouched_for now t d ≡ true
    → untouched_for now seen d ≡ true
unfolding untouched_for
earlier now seen t d le idle = ground (arith, idle)

left_whole :
    (budget : Budget) (l : Countdown) (now t : ℕ)
    → (l.1 ≡ pos_part budget.requests) × (l.2 ≡ budget.period) × (l.3 ≤ t)
    → untouched_for now t budget.period ≡ true
    → left_at now l ≡ left_at now (start_of budget now)
left_whole budget l now t (whole, period, last) idle =
    elim (Bool-cases (untouched_for now now budget.period)) [
      | inl long ↦ rw (period, earlier now l.3 t budget.period last idle, long) whole
      | inr short ↦ rw (period, earlier now l.3 t budget.period last idle, short) whole
    ]

countdowns-IsRefilling : IsRefilling Unit Countdown countdowns
countdowns-IsRefilling budget make l t now made within used idle =
    let starts = λ (n : ℕ). made_as budget make n made in
    let left = left_whole budget l now t (used_as budget make starts used) idle in
    rw (starts now) (record {
      reserver = refl;
      admitting = ap (λ n. ltb 0 n) left;
      granting = refl;
      delaying = ap (λ n. if ltb 0 n then pos 0 else pos 1000000000) left;
    })

countdowns-IsRestoring : IsRestoring countdowns
countdowns-IsRestoring = record {
  ungranted = λ now l h. ground (arith, h);
  given_back = λ now l _. refl;
}

-- Both buckets are swept, and the next request of each passes as it would have.
sweep-allow_local_example :
    (allow_local countdowns (sweep (pos 0) (after 0 1000000001)).0 "a" two_a_second).1
    ≡ (allow_local countdowns (after 0 1000000001) "a" two_a_second).1
sweep-allow_local_example =
    sweep-allow_local countdowns countdowns-IsRefilling 0
      (charged "a" two_a_second
        ∷ charged "a" two_a_second
        ∷ charged "b" two_a_second
        ∷ waited 1000000001
        ∷ [])
      (pos 0) "a" two_a_second (ground arith)

abbrev spent_entry : Entry Countdown
spent_entry = record { seen = 0; limiter = (0, 2, pos 1000000000, 0); budget = two_a_second }

allow_local-refused_example :
    (entry_of (allow_local countdowns (after 0 5) "a" two_a_second).0.buckets "a"
      ≡ some (record spent_entry { seen = 5 }))
    × (entry_of (allow_local countdowns (after 0 5) "a" two_a_second).0.buckets "b"
        ≡ entry_of (after 0 5).buckets "b")
unfolding program
allow_local-refused_example =
    allow_local-refused countdowns countdowns-IsRestoring (after 0 5) "a" "b" two_a_second
      spent_entry (record { allowed = false; remaining = pos 0; retry_after = pos 1000000000 }) refl
      refl refl refl refl (λ p. ground (arith, (eq_iff "a" "b").1 p))

-- A map of attempts left, two at first
abbrev counters : BucketLimiter (String → ℕ) ℕ
counters = record {
  get_or_add = λ now b key. b key;
  write_back = λ b key left k. if key =ₛ k then left else b k;
  remove = λ b key k. if key =ₛ k then 2 else b k;
  is_reserver = λ _. true;
  admit = λ now left. (ltb 0 left, left - 1);
  reserve = λ now left. record {
    granted = true;
    delay = if ltb 0 left then pos 0 else pos 1000000000;
    taken = left - 1;
    cancelled = left;
  };
}

counters-IsBucketLimiter : IsBucketLimiter counters
counters-IsBucketLimiter = record {
  written = λ now b key left. rw (eq_refl key) refl;
  written_elsewhere = λ now b key other left apart. rw (unequal key other apart) refl;
  removed_elsewhere = λ now b key other apart. rw (unequal key other apart) refl;
  given_back = λ now left _. refl;
}

abbrev spent_state : State (String → ℕ)
spent_state =
    (attempt counters (attempt counters (record { limiter = λ _. 2; now = 0 }) "k").0 "k").0

-- The third attempt at a key is refused, and a success restores its budget.
attempts :
    ((attempt counters spent_state "k").1 ≡ pos 1000000000)
    × ((attempt counters spent_state "k").2 ≡ false)
    × ((attempt counters (succeed counters spent_state "k") "k").2 ≡ true)
unfolding attempt succeed
attempts = (refl, refl, refl)

attempt-refused_example : (attempt counters spent_state "k").0.limiter "k" ≡ spent_state.limiter "k"
unfolding attempt
attempt-refused_example =
    attempt-refused counters counters-IsBucketLimiter spent_state "k" "k" refl refl
