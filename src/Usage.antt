-- ===== src/Usage.antt =====
-- The counters of resources: ReserveUsage, IncrementUsage, DecrementUsage and RecountUsage of
-- internal/adapter/driven/repositorypg/resources_limits.go, and CheckUsage of
-- internal/core/usecase/resources_limits.go. One scope and one type of resource: its counter is a row
-- or none. A transaction is one step, since it holds the lock of the row to its end; a reservation
-- that found no row to lock has read `none`, whatever the row is when it increments. The signer and
-- the verifier are arguments (`none` and `false` for an error), and a failure of the database leaves
-- the row as it was.
pub mod Limit
use go_rest_api_service_temp.Base.{
  ℕ, suc, ◌+◌, ◌-◌, String, Bool, true, false, not, ◌&&◌, ◌||◌, Option, none, some, List, [], ◌∷◌,
  if◌then◌else◌, ltb, leb, ◌==◌, is_some,
}
use go_rest_api_service_temp.Base.Int.{ℤ, pos, negsuc, pos_part, ltb_ℤ, leb_ℤ}

-- A row of resources_usage
pub record Counter : Type 0 where
  pub usage : ℕ
  pub signature : String

-- ResourcesLimitsUnlimited
abbrev pub is_unlimited : ℤ → Bool
is_unlimited (pos n) = false
is_unlimited (negsuc n) = n == 0

abbrev pub usage_of : Option Counter → ℕ
usage_of none = 0
usage_of (some c) = c.usage

-- What a reservation ends with
pub data Reserved : Type 0 where
  reserved : (usage : ℕ) → Reserved
  hard_limit_reached tampered failed : Reserved

abbrev pub units : Reserved → ℕ
units (reserved _) = 1
units _ = 0

-- The guarded increment of ReserveUsage: the new usage where a row is returned
unfoldable pub guarded_increment : Option Counter → (hard_limit : ℤ) → Option ℕ
guarded_increment none hard_limit =
    if is_unlimited hard_limit || leb_ℤ (pos 1) hard_limit then some 1 else none
guarded_increment (some c) hard_limit =
    if is_unlimited hard_limit || ltb_ℤ (pos c.usage) hard_limit then some (suc c.usage) else none

module _ (verify : Option (ℕ → (signature : String) → Bool)) (sign : ℕ → Option String) where
  -- Step 3 of ReserveUsage, on the row that was read and locked
  unfoldable pub is_verified : (seen : Option Counter) → Bool
  is_verified none = true
  is_verified (some c) = elim verify [ none ↦ true | some v ↦ v c.usage c.signature ]

  -- The new counter with its signature
  unfoldable pub signed : ℕ → Option Counter
  signed usage = elim (sign usage) [
    | none ↦ none
    | some signature ↦ some (record { usage = usage; signature = signature })
  ]

  -- ReserveUsage
  unfoldable pub reserve_usage :
      (hard_limit : ℤ) → (seen row : Option Counter) → Reserved × Option Counter
  reserve_usage hard_limit seen row =
      if not (is_verified seen) then (tampered, row) else elim (guarded_increment row hard_limit) [
        | none ↦ (hard_limit_reached, row)
        | some usage ↦ elim (signed usage) [
          | none ↦ (failed, row)
          | some c ↦ (reserved usage, some c)
        ]
      ]

  -- mutateUsage, on what its counter statement returned; `none` for an error
  unfoldable pub mutate_usage : (counted : Option ℕ) → Option Counter → Option ℕ × Option Counter
  mutate_usage none row = (some 0, row)
  mutate_usage (some usage) row = elim (signed usage) [
    | none ↦ (none, row)
    | some c ↦ (some usage, some c)
  ]

  -- IncrementUsage and DecrementUsage
  unfoldable pub increment_usage : Option Counter → Option ℕ × Option Counter
  increment_usage row = mutate_usage (some (suc (usage_of row))) row

  unfoldable pub decrement_usage : Option Counter → Option ℕ × Option Counter
  decrement_usage row =
      mutate_usage (if ltb 0 (usage_of row) then some (usage_of row - 1) else none) row

  -- RecountUsage, with the number of resources that it counts; whether it succeeded
  unfoldable pub recount_usage : (actual : ℕ) → Option Counter → Bool × Option Counter
  recount_usage actual row = elim (signed actual) [ none ↦ (false, row) | some c ↦ (true, some c) ]

  -- Reservations one after the other, each with whether it raced for the first row: how many
  -- succeeded, and the row after them
  unfoldable pub reserve_all :
      (hard_limit : ℤ) → Option Counter → (raced : List Bool) → ℕ × Option Counter
  reserve_all hard_limit row [] = (0, row)
  reserve_all hard_limit row (raced ∷ rest) =
      let (r, row') = reserve_usage hard_limit (if raced then none else row) row in
      let (n, row'') = reserve_all hard_limit row' rest in (units r + n, row'')

-- ResourcesLimitsStatus
pub record Status : Type 0 where
  pub can_create : Bool
  pub soft_limit_reached : Bool
  pub soft_limit : ℤ
  pub hard_limit : ℤ
  pub current_usage : ℕ
  pub tamper_detected : Bool

abbrev pub unlimited : ℤ
unlimited = negsuc 0

-- CheckUsage, of a counter that is not negative
unfoldable pub check_usage :
    (verify : ℕ → (signature : String) → Bool)
    → (soft_limit hard_limit : ℤ) → Option Counter
    → Status
check_usage verify soft_limit hard_limit row =
    let tampered' = not (is_verified (some verify) (λ _. none) row) in
    let usage = usage_of row in
    if is_unlimited hard_limit || is_unlimited soft_limit
    then record {
      can_create = not tampered';
      soft_limit_reached = false;
      soft_limit = unlimited;
      hard_limit = unlimited;
      current_usage = usage;
      tamper_detected = tampered';
    }
    else record {
      can_create = ltb_ℤ (pos usage) hard_limit && not tampered';
      soft_limit_reached = leb_ℤ soft_limit (pos usage) && ltb_ℤ (pos usage) hard_limit;
      soft_limit = soft_limit;
      hard_limit = hard_limit;
      current_usage = usage;
      tamper_detected = tampered';
    }
