-- ===== src/Usage/Limit.antt =====
-- How many reservations of internal/adapter/driven/repositorypg/resources_limits.go are granted.
use go_rest_api_service_temp.Base.{
  ℕ, suc, ◌+◌, ◌≤◌, ◌≡◌, String, Bool, true, not, Option, none, some, List, [], ◌∷◌, arith, ◌||◌,
  ◌==◌, if◌then◌else◌,
}
use go_rest_api_service_temp.Base.Int.{ℤ, pos}
use go_rest_api_service_temp.Usage.{
  Counter, usage_of, units, guarded_increment, is_verified, signed, reserve_usage, reserve_all,
  is_unlimited, check_usage,
}

module _ (verify : Option (ℕ → (signature : String) → Bool)) (sign : ℕ → Option String)
    (limit : ℕ) where
  reserve_one :
      (seen row : Option Counter)
      → (usage_of (reserve_usage verify sign (pos limit) seen row).1
          ≡ usage_of row + units (reserve_usage verify sign (pos limit) seen row).0)
        × (usage_of row ≤ limit
            → usage_of (reserve_usage verify sign (pos limit) seen row).1 ≤ limit)
  unfolding reserve_usage guarded_increment signed
  reserve_one seen none = (ground arith, λ h. ground (arith, h))
  reserve_one seen (some c) = (ground arith, λ h. ground (arith, h))

  all_counted :
      (row : Option Counter) (raced : List Bool)
      → (usage_of (reserve_all verify sign (pos limit) row raced).1
          ≡ usage_of row + (reserve_all verify sign (pos limit) row raced).0)
        × (usage_of row ≤ limit
            → usage_of (reserve_all verify sign (pos limit) row raced).1 ≤ limit)
  unfolding reserve_all
  all_counted row [] = (ground arith, λ h. h)
  all_counted row (r ∷ rest) =
      let seen = if r then none else row in
      let (one, bound) = reserve_one seen row in
      let (more, bounds) = all_counted (reserve_usage verify sign (pos limit) seen row).1 rest in
      (omega (arith, one, more), λ h. bounds (bound h))

  -- Reservations one after the other, any of which may have raced for the first row, raise the
  -- counter by one for each that is granted and never over the hard limit: from a counter within the
  -- limit, no more are granted than it has left.
  pub reserve_all-granted :
      (row : Option Counter) (raced : List Bool)
      → usage_of row ≤ limit
      → let after = reserve_all verify sign (pos limit) row raced in
        (usage_of after.1 ≡ usage_of row + after.0)
        × (usage_of after.1 ≤ limit)
        × (usage_of row + after.0 ≤ limit)
  reserve_all-granted row raced h =
      let (counted, bound) = all_counted row raced in
      (counted, bound h, omega (arith, counted, bound h))

-- CheckUsage says that there is room exactly when a reservation on the row that it read would be
-- granted, the signer working and the soft limit not being the one without a limit beside a hard
-- limit that has one.
pub check_usage-reserve_usage :
    (verify : ℕ → (signature : String) → Bool) (sign : ℕ → Option String)
    (soft_limit hard_limit : ℤ) (row : Option Counter) (signature : String)
    → sign (suc (usage_of row)) ≡ some signature
    → (not (is_unlimited soft_limit) || is_unlimited hard_limit) ≡ true
    → (check_usage verify soft_limit hard_limit row).can_create
      ≡ (units (reserve_usage (some verify) sign hard_limit row row).0 == 1)
unfolding check_usage reserve_usage is_verified guarded_increment signed
check_usage-reserve_usage verify sign soft_limit hard_limit none signature s u =
    ground (arith, s, u)
check_usage-reserve_usage verify sign soft_limit hard_limit (some c) signature s u =
    ground (arith, s, u)
