-- ===== src/RateLimit/Breaker/Probe.antt =====
-- Who is let through: calls that come in while none that was let through has come back, and
-- failures in a row.
use go_rest_api_service_temp.Base.{
  ℕ, suc, ◌+◌, ◌≡◌, refl, true, false, not, ◌&&◌, none, some, List, [], ◌∷◌, ◌++◌, arith,
  if◌then◌else◌, leb, ltb, length, any, Bool-cases, inl, inr,
}
use go_rest_api_service_temp.RateLimit.Breaker.{Breaker, admit, settle}

-- Calls at the given times, in order, and how many of them reach the limiter.
unfoldable pub admits : Breaker → List ℕ → Breaker × ℕ
admits ref [] = (ref, 0)
admits ref (now ∷ times) =
    let (ref', admitted) = admit ref now in
    let (ref'', count) = admits ref' times in (ref'', if admitted then suc count else count)

-- How many calls should reach the limiter before one comes back.
abbrev pub let_through : Breaker → List ℕ → ℕ
let_through ref times = elim ref.open_until [
  | none ↦ length times
  | some until ↦ if not ref.probing && any (λ t. leb until t) times then 1 else 0
]

-- A closed circuit lets every call through. An open one lets none through before the cooldown is
-- over and none while a probe is out, and exactly one, the probe, from the end of the cooldown on.
pub admits-let_through :
    (ref : Breaker) (times : List ℕ) → (admits ref times).1 ≡ let_through ref times
unfolding admits admit
admits-let_through ref [] = ground arith
admits-let_through ref (now ∷ times) =
    ground (
      arith,
      admits-let_through ref times,
      admits-let_through (record ref { probing = true }) times,
    )

-- Failures of the limiter at the given times.
unfoldable pub fails : Breaker → List ℕ → Breaker
fails ref [] = ref
fails ref (now ∷ times) = fails (settle ref now false) times

fails-shape :
    (ref : Breaker) (times : List ℕ)
    → ((fails ref times).threshold ≡ ref.threshold)
      × ((fails ref times).cooldown ≡ ref.cooldown)
      × ((fails ref times).consecutive_failures ≡ ref.consecutive_failures + length times)
unfolding fails settle
fails-shape ref [] = ground arith
fails-shape ref (now ∷ times) = ground (arith, fails-shape (settle ref now false) times)

fails_snoc :
    (ref : Breaker) (times : List ℕ) (last : ℕ)
    → fails ref (times ++ last ∷ []) ≡ settle (fails ref times) last false
unfolding fails
fails_snoc ref [] last = refl
fails_snoc ref (now ∷ times) last = fails_snoc (settle ref now false) times last

fails-closed :
    (ref : Breaker) (times : List ℕ)
    → ref.open_until ≡ none
    → ltb (ref.consecutive_failures + length times) ref.threshold ≡ true
    → (fails ref times).open_until ≡ none
unfolding fails settle
fails-closed ref [] h k = h
fails-closed ref (t ∷ times) h k =
    fails-closed (settle ref t false) times (ground arith) (ground arith)

-- After failures in a row, from a closed circuit, the circuit is open until the cooldown after the
-- last failure if the failures have reached the threshold by then, and closed if not.
pub fails_open :
    (ref : Breaker) (times : List ℕ) (last : ℕ)
    → ref.open_until ≡ none
    → (fails ref (times ++ last ∷ [])).open_until ≡ (
        if leb ref.threshold (ref.consecutive_failures + length times + 1)
        then some (last + ref.cooldown)
        else none)
unfolding settle
fails_open ref times last closed =
    let shape = fails-shape ref times in
    rw (fails_snoc ref times last)
      (elim (Bool-cases (leb ref.threshold (ref.consecutive_failures + length times + 1))) [
        | inl reached ↦ ground (arith, shape.0, shape.1, shape.2)
        | inr short ↦
            let before = fails-closed ref times closed (ground arith) in
            ground (arith, shape.0, shape.1, shape.2, before)
      ])
