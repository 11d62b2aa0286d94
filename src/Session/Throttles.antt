-- ===== src/Session/Throttles.antt =====
-- The throttle in memory of internal/adapter/driven/throttlememory/adapter.go, on the library's map
-- of limiters: an argument, with the state `B` of that map. `now` is the clock.
use go_rest_api_service_temp.Base.{
  ℕ, ◌≡◌, ◌≢◌, refl, subst, eq_iff, ◌=ₛ◌, String, Bool, true, false, not, ◌||◌, none, some,
  if◌then◌else◌, arith, Bool-cases, inl, inr,
}
use go_rest_api_service_temp.Base.Int.{ℤ, pos, pos_part, ltb_ℤ}
use go_rest_api_service_temp.RateLimit.Local.{Reservation}
use go_rest_api_service_temp.Session.Login.{Throttle}

-- What the adapter calls of the library: GetOrAdd answers a limiter and the map that holds it, and
-- a call on that limiter is written back to the map. A limiter may lack the method Reserve.
pub record BucketLimiter (B L : Type 0) : Type 0 where
  pub get_or_add : (now : ℕ) → B → String → L
  pub write_back : B → String → L → B
  pub remove : B → String → B
  pub is_reserver : L → Bool
  pub admit : ℕ → L → Bool × L
  pub reserve : ℕ → L → Reservation L

pub record State (B : Type 0) : Type 0 where
  pub limiter : B
  pub now : ℕ

module _ {B L : Type 0} (ref : BucketLimiter B L) where
  -- Attempt: the time to wait, and whether the attempt is allowed
  unfoldable pub attempt : State B → (key : String) → State B × ℤ × Bool
  attempt s key =
      let limiter = ref.get_or_add s.now s.limiter key in
      if not (ref.is_reserver limiter)
      then (let (allowed, left) = ref.admit s.now limiter in
          (record s { limiter = ref.write_back s.limiter key left }, pos 0, allowed))
      else let reservation = ref.reserve s.now limiter in
        if not reservation.granted || ltb_ℤ (pos 0) reservation.delay
        then (
          record s { limiter = ref.write_back s.limiter key reservation.cancelled },
          reservation.delay,
          false,
        )
        else (record s { limiter = ref.write_back s.limiter key reservation.taken }, pos 0, true)

  -- Succeed
  unfoldable pub succeed : State B → (key : String) → State B
  succeed s key = record s { limiter = ref.remove s.limiter key }

  -- The adapter as the port's Throttle
  abbrev pub in_memory : Throttle (State B)
  in_memory = record {
    attempt = λ s key.
        let (s', delay, allowed) = attempt s key in
        (s', if allowed then none else some (pos_part delay));
    succeed = succeed;
  }

-- The map of the library: what it holds after a write and after a removal, and a cancelled
-- reservation that was refused or is for later, which gives its token back.
pub record IsBucketLimiter {B L : Type 0} (ref : BucketLimiter B L) : Type 0 where
  pub written :
      (now : ℕ) (b : B) (key : String) (l : L) → ref.get_or_add now (ref.write_back b key l) key ≡ l
  pub written_elsewhere :
      (now : ℕ) (b : B) (key other : String) (l : L)
      → key ≢ other
      → ref.get_or_add now (ref.write_back b key l) other ≡ ref.get_or_add now b other
  pub removed_elsewhere :
      (now : ℕ) (b : B) (key other : String)
      → key ≢ other
      → ref.get_or_add now (ref.remove b key) other ≡ ref.get_or_add now b other
  pub given_back :
      (now : ℕ) (l : L)
      → (not (ref.reserve now l).granted || ltb_ℤ (pos 0) (ref.reserve now l).delay) ≡ true
      → (ref.reserve now l).cancelled ≡ l

module _ {B L : Type 0} (ref : BucketLimiter B L) where
  attempt-written :
      (s : State B) (key : String)
      → (l : L) × ((attempt ref s key).0.limiter ≡ ref.write_back s.limiter key l)
  unfolding attempt
  attempt-written s key =
      let limiter = ref.get_or_add s.now s.limiter key in
      let reservation = ref.reserve s.now limiter in
      let waits = not reservation.granted || ltb_ℤ (pos 0) reservation.delay in
      elim (Bool-cases (ref.is_reserver limiter)) [
        | inr counts ↦ ((ref.admit s.now limiter).1, rw counts refl)
        | inl reserves ↦ elim (Bool-cases waits) [
          | inl later ↦ (reservation.cancelled, rw (reserves, later) refl)
          | inr at_once ↦ (reservation.taken, rw (reserves, at_once) refl)
        ]
      ]

  refused-written :
      (s : State B) (key : String)
      → IsBucketLimiter ref
      → ref.is_reserver (ref.get_or_add s.now s.limiter key) ≡ true
      → (attempt ref s key).2 ≡ false
      → (attempt ref s key).0.limiter
        ≡ ref.write_back s.limiter key (ref.get_or_add s.now s.limiter key)
  unfolding attempt
  refused-written s key law reserves refused =
      let limiter = ref.get_or_add s.now s.limiter key in
      let reservation = ref.reserve s.now limiter in
      elim (Bool-cases (not reservation.granted || ltb_ℤ (pos 0) reservation.delay)) [
        | inl later ↦ rw (reserves, later, law.given_back s.now limiter later) refl
        | inr at_once ↦ absurd (ground (arith, refused, reserves, at_once))
      ]

module _ {B L : Type 0} (ref : BucketLimiter B L) (law : IsBucketLimiter ref) where
  -- A refused attempt of a key whose limiter can reserve leaves the limiter of every key as it was,
  -- its own included, where a cancelled reservation gives its token back.
  pub attempt-refused :
      (s : State B) (key other : String)
      → ref.is_reserver (ref.get_or_add s.now s.limiter key) ≡ true
      → (attempt ref s key).2 ≡ false
      → ref.get_or_add s.now (attempt ref s key).0.limiter other
        ≡ ref.get_or_add s.now s.limiter other
  attempt-refused s key other reserver refused =
      let run = refused-written ref s key law reserver refused in
      elim (Bool-cases (key =ₛ other)) [
        | inl same ↦
            let named = (eq_iff key other).0 same in
            subst
              (λ k.
                ref.get_or_add s.now (attempt ref s key).0.limiter k
                ≡ ref.get_or_add s.now s.limiter k)
              named (rw run (law.written s.now s.limiter key (ref.get_or_add s.now s.limiter key)))
        | inr differs ↦ rw run (
            law.written_elsewhere s.now s.limiter key other (ref.get_or_add s.now s.limiter key)
              (λ p. ground (arith, differs, (eq_iff key other).1 p)))
      ]

  -- An attempt and a success at one key leave the limiter of every other key as it was.
  pub throttle-apart :
      (s : State B) (key other : String)
      → key ≢ other
      → (ref.get_or_add s.now (attempt ref s key).0.limiter other
          ≡ ref.get_or_add s.now s.limiter other)
        × (ref.get_or_add s.now (succeed ref s key).limiter other
            ≡ ref.get_or_add s.now s.limiter other)
  unfolding succeed
  throttle-apart s key other apart =
      let (l, run) = attempt-written ref s key in
      (
        rw run (law.written_elsewhere s.now s.limiter key other l apart),
        law.removed_elsewhere s.now s.limiter key other apart,
      )
