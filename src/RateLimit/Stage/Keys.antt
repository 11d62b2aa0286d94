-- ===== src/RateLimit/Stage/Keys.antt =====
-- The buckets of a request: which there are, and what their keys tell apart.
use Prim.Native.Char.{char}
use text.Mathlib.TextLemmas.{append_assoc}
use go_rest_api_service_temp.Base.{String, ◌≡◌, sym, ◌∙◌, true, ◌+ₛ◌, free_of, joined_inj}
use go_rest_api_service_temp.Base.Int.{ℤ}
use go_rest_api_service_temp.RateLimit.Windows.{RateLimitWindow}
use go_rest_api_service_temp.RateLimit.Rule.{RateLimit}
use go_rest_api_service_temp.RateLimit.Stage.{Printing, window_key, bucket_of}

-- What Go prints of a duration and of an integer: different values differently, and no colon.
pub record IsPrinting (fmt : Printing) : Type 0 where
  pub duration_inj : (d e : ℤ) → fmt.duration d ≡ fmt.duration e → d ≡ e
  pub itoa_inj : (n m : ℤ) → fmt.itoa n ≡ fmt.itoa m → n ≡ m
  pub duration_free : (d : ℤ) → free_of 58 (fmt.duration d) ≡ true
  pub itoa_free : (n : ℤ) → free_of 58 (fmt.itoa n) ≡ true

colon_inj :
    (s s' t t' : String)
    → free_of 58 s ≡ true
    → free_of 58 s' ≡ true
    → s +ₛ ":" +ₛ t ≡ s' +ₛ ":" +ₛ t'
    → (s ≡ s') × (t ≡ t')
colon_inj s s' t t' h k e = joined_inj (char 58 tt) s s' t t' h k e

flat : (a b c d : String) → (a +ₛ ":" +ₛ b +ₛ ":" +ₛ c) +ₛ d ≡ a +ₛ ":" +ₛ b +ₛ ":" +ₛ c +ₛ d
flat a b c d = simp (append_assoc)

-- Two buckets with one key are of one rule, one set of window parameters and one scope value, where
-- the identifiers of the rules hold no colon.
pub key_inj :
    (fmt : Printing) (p : IsPrinting fmt) (rule rule' : RateLimit) (v v' : String)
    (w w' : RateLimitWindow)
    → free_of 58 rule.id ≡ true
    → free_of 58 rule'.id ≡ true
    → (bucket_of fmt rule v w).key ≡ (bucket_of fmt rule' v' w').key
    → (rule.id ≡ rule'.id) × (w ≡ w') × (v ≡ v')
unfolding bucket_of window_key
key_inj fmt p rule rule' v v' w w' h h' e =
    let (ids, rest) = colon_inj rule.id rule'.id _ _ h h' e in
    let rest' = sym (flat _ _ _ _) ∙ rest ∙ flat _ _ _ _ in
    let (periods, rest2) =
      colon_inj (fmt.duration w.period) (fmt.duration w'.period) _ _ (p.duration_free _)
        (p.duration_free _) rest' in
    let (requests, rest3) =
      colon_inj (fmt.itoa w.requests) (fmt.itoa w'.requests) _ _ (p.itoa_free _) (p.itoa_free _)
        rest2 in
    let (bursts, values) =
      colon_inj (fmt.itoa w.burst) (fmt.itoa w'.burst) _ _ (p.itoa_free _) (p.itoa_free _) rest3 in
    let a = p.duration_inj _ _ periods in
    let b = p.itoa_inj _ _ requests in let c = p.itoa_inj _ _ bursts in (ids, cc, values)
