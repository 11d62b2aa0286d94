-- ===== src/RateLimit/Charge/Verdict.antt =====
-- charge of internal/adapter/driving/http/middleware/ratelimit.go: when a request is let through, and
-- what is written when it is not.
use go_rest_api_service_temp.Base.{
  ℕ, zero, suc, ◌+◌, ◌*◌, ◌/◌, ◌<◌, ◌≤◌, ◌≡◌, ◌↔◌, ◌⊎◌, inl, inr, refl, sym, ap, ◌∙◌, true, false,
  none, some, List, [], ◌∷◌, ◌++◌, arith, leb, Bool-cases,
}
use go_rest_api_service_temp.Base.Int.{ℤ, pos, negsuc}
use go_rest_api_service_temp.RateLimit.Charge.{
  RateLimitConfig, Limiter, Bucket, Decision, Response, rate_limit_code,
  rate_limit_store_fault_code, fail_local, fail_closed, Spent, decided, rule_fault, store_fault,
  spend, answer_to, charge, seconds_ceil, max_ℤ,
}

-- A duration is rounded up to whole seconds, where the sum stays below 2 ^ 63 nanoseconds.
pub seconds_ceil-rounds_up :
    (n : ℕ)
    → n + 999999999 < 9223372036854775808
    → (q : ℕ) × (seconds_ceil (pos n) ≡ pos q)
      × (n ≤ q * 1000000000)
      × (q * 1000000000 < n + 1000000000)
unfolding seconds_ceil
seconds_ceil-rounds_up n h = elim (Bool-cases (leb n 0)) [
  | inl nothing ↦ (0, ground arith, ground arith, ground arith)
  | inr more ↦ ((n + 999999999) / 1000000000, ground arith, ground arith, ground arith)
]

module _ {W : Type 0} (conf : RateLimitConfig W) where
  -- An answer that lets the request go on to the next bucket.
  abbrev pub Passes : Spent → Type 0
  Passes (decided d) = d.allowed ≡ true
  Passes rule_fault = Unit
  Passes store_fault = conf.fail_mode ≡ fail_local

  -- Every bucket, charged in order, lets the request go on.
  abbrev pub AllPass : W → List Bucket → Type 0
  AllPass w [] = Unit
  AllPass w (b ∷ bs) = Passes (spend conf w b).1 × AllPass (spend conf w b).0 bs

  -- The state after the buckets have been charged in order.
  abbrev pub spend_all : W → List Bucket → W
  spend_all w [] = w
  spend_all w (b ∷ bs) = spend_all (spend conf w b).0 bs

  answer_iff :
      (res : Response) (b : Bucket) (spent : Spent)
      → ((answer_to conf res b spent).1 ≡ true) ↔ Passes spent
  unfolding answer_to
  answer_iff res b (decided d) = ground arith
  answer_iff res b rule_fault = (λ _. tt, λ _. refl)
  answer_iff res b store_fault = ground arith

  charge-cases :
      (w : W) (res : Response) (b : Bucket) (bs : List Bucket)
      → (((answer_to conf res b (spend conf w b).1).1 ≡ true)
          × (charge conf w res (b ∷ bs)
              ≡ charge conf (spend conf w b).0 (answer_to conf res b (spend conf w b).1).0 bs))
        ⊎ (((answer_to conf res b (spend conf w b).1).1 ≡ false)
            × (charge conf w res (b ∷ bs)
                ≡ ((spend conf w b).0, (answer_to conf res b (spend conf w b).1).0, false)))
  unfolding charge
  charge-cases w res b bs = elim (Bool-cases (answer_to conf res b (spend conf w b).1).1) [
    | inl on ↦ inl (on, rw on)
    | inr off ↦ inr (off, rw off)
  ]

  -- The request is let through exactly when every bucket, charged in order, lets it go on: the
  -- limiters allow it, or its rule is at fault, or the store is and the fail mode is local.
  pub charge_iff :
      (w : W) (res : Response) (bs : List Bucket) → ((charge conf w res bs).2 ≡ true) ↔ AllPass w bs
  unfolding charge
  charge_iff w res [] = (λ _. tt, λ _. refl)
  charge_iff w res (b ∷ bs) =
      let (w', spent) = spend conf w b in
      let rest = charge_iff (spend conf w b).0 (answer_to conf res b (spend conf w b).1).0 bs in
      let this = answer_iff res b (spend conf w b).1 in
      elim (charge-cases w res b bs) [
        | inl (on, e) ↦ (
          λ h. (this.0 on, rest.0 (ap (λ r. r.2) (sym e) ∙ h)),
          λ h. ap (λ r. r.2) e ∙ rest.1 h.1,
        )
        | inr (off, e) ↦
            (λ h. absurd (ground (arith, e, h)), λ h. absurd (ground (arith, this.1 h.0, off)))
      ]

  -- How a refused request ended: the buckets before the one that stopped it were passed, it was
  -- the last to be charged, and the response carries a wait of at least a second and says which
  -- of the two it was.
  pub record IsRefusal (w : W) (bs : List Bucket) (end : W) (res : Response) : Type 0 where
    pub passed : List Bucket
    pub stopped : Bucket
    pub uncharged : List Bucket
    pub split : bs ≡ passed ++ stopped ∷ uncharged
    pub all_pass : AllPass w passed
    pub at_end : end ≡ (spend conf (spend_all w passed) stopped).0
    pub wait : (s : ℕ) × (res.retry_after ≡ some (pos s)) × (0 < s)
    pub reason :
        ((d : Decision) × ((spend conf (spend_all w passed) stopped).1 ≡ decided d)
          × (d.allowed ≡ false)
          × (res.refusal ≡ some rate_limit_code))
        ⊎ (((spend conf (spend_all w passed) stopped).1 ≡ store_fault)
            × (conf.fail_mode ≡ fail_closed)
            × (res.refusal ≡ some rate_limit_store_fault_code))

  at_least_one : (d : ℤ) → (s : ℕ) × (max_ℤ d (pos 1) ≡ pos s) × (0 < s)
  at_least_one (pos zero) = (1, refl, omega arith)
  at_least_one (pos (suc n)) = (suc n, ground arith, omega arith)
  at_least_one (negsuc n) = (1, ground arith, omega arith)

  stopped-wait :
      (res : Response) (b : Bucket) (spent : Spent)
      → (answer_to conf res b spent).1 ≡ false
      → (s : ℕ) × ((answer_to conf res b spent).0.retry_after ≡ some (pos s)) × (0 < s)
  unfolding answer_to seconds_ceil
  stopped-wait res b (decided d) off =
      let (s, e, h) = at_least_one (seconds_ceil d.retry_after) in (s, ground (arith, e), h)
  stopped-wait res b rule_fault off = cc
  stopped-wait res b store_fault off = (5, ground arith, omega arith)

  stopped-reason :
      (res : Response) (b : Bucket) (spent : Spent)
      → (answer_to conf res b spent).1 ≡ false
      → ((d : Decision) × (spent ≡ decided d)
          × (d.allowed ≡ false)
          × ((answer_to conf res b spent).0.refusal ≡ some rate_limit_code))
        ⊎ ((spent ≡ store_fault)
            × (conf.fail_mode ≡ fail_closed)
            × ((answer_to conf res b spent).0.refusal ≡ some rate_limit_store_fault_code))
  unfolding answer_to
  stopped-reason res b (decided d) off = inl (d, refl, ground arith, ground arith)
  stopped-reason res b rule_fault off = cc
  stopped-reason res b store_fault off = inr (refl, ground arith, ground arith)

  -- A request that is not let through was stopped at one bucket, after every bucket before it was
  -- passed and with none after it charged, and is told to wait for at least a second: for the
  -- limit that was reached, or, in the closed fail mode, for the store at fault.
  pub charge-IsRefusal :
      (w : W) (res : Response) (bs : List Bucket)
      → (charge conf w res bs).2 ≡ false
      → IsRefusal w bs (charge conf w res bs).0 (charge conf w res bs).1
  unfolding charge
  charge-IsRefusal w res [] h = cc
  charge-IsRefusal w res (b ∷ bs) h = elim (charge-cases w res b bs) [
    | inl (on, e) ↦
        let r =
          charge-IsRefusal (spend conf w b).0 (answer_to conf res b (spend conf w b).1).0 bs
            (ap (λ x. x.2) (sym e) ∙ h) in
        record {
          passed = b ∷ r.passed;
          stopped = r.stopped;
          uncharged = r.uncharged;
          split = ap (λ x. b ∷ x) r.split;
          all_pass = ((answer_iff res b (spend conf w b).1).0 on, r.all_pass);
          at_end = ap (λ x. x.0) e ∙ r.at_end;
          wait = let (s, k, l) = r.wait in (s, ap (λ x. x.1.retry_after) e ∙ k, l);
          reason = elim r.reason [
            | inl (d, k, l, m) ↦ inl (d, k, l, ap (λ x. x.1.refusal) e ∙ m)
            | inr (k, l, m) ↦ inr (k, l, ap (λ x. x.1.refusal) e ∙ m)
          ];
        }
    | inr (off, e) ↦ record {
      passed = [];
      stopped = b;
      uncharged = bs;
      split = refl;
      all_pass = tt;
      at_end = ap (λ x. x.0) e;
      wait =
          let (s, k, l) = stopped-wait res b (spend conf w b).1 off in
          (s, ap (λ x. x.1.retry_after) e ∙ k, l);
      reason = elim (stopped-reason res b (spend conf w b).1 off) [
        | inl (d, k, l, m) ↦ inl (d, k, l, ap (λ x. x.1.refusal) e ∙ m)
        | inr (k, l, m) ↦ inr (k, l, ap (λ x. x.1.refusal) e ∙ m)
      ];
    }
  ]

-- The shared counter is not charged for a bucket that the local limiter refuses, or whose rule it
-- cannot read: whatever the shared counter is, the outcome and the state after it are the same.
pub spend_local_first :
    {W : Type 0} (conf conf' : RateLimitConfig W) (allow : Limiter W) (w : W) (b : Bucket)
    → conf.local ≡ some allow
    → conf'.local ≡ some allow
    → ((allow w b.key b.budget).1 ≡ none)
      ⊎ ((d : Decision) × ((allow w b.key b.budget).1 ≡ some d) × (d.allowed ≡ false))
    → spend conf w b ≡ spend conf' w b
unfolding spend
spend_local_first conf conf' allow w b here there (inl fault) = rw (here, there, fault)
spend_local_first conf conf' allow w b here there (inr (d, answer, refused)) =
    rw (here, there, answer, refused)
