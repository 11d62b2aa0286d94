-- ===== src/RateLimit/Windows.antt =====
-- RateLimit.SortedWindows of internal/core/domain/rate_limits.go, over the list of windows. The
-- comparison is the switch on the two periods.
use Prim.Native.Nat.{Ordering}
use mathlib.Core.List.{Permᴰ}
use go_rest_api_service_temp.Base.{◌≡◌, ◌≢◌, List, [], ◌∷◌, arith, if◌then◌else◌, All}
use go_rest_api_service_temp.Base.Int.{ℤ, ltb_ℤ, ◌≤ℤ◌}
use go_rest_api_service_temp.Base.Sort.{
  IsOrder, sort_func, IsSorted, Distinct, sort_func-perm, sort_func-IsSorted, sort_func_unique,
}

-- RateLimitWindow
pub record RateLimitWindow : Type 0 where
  pub period : ℤ
  pub requests : ℤ
  pub burst : ℤ

abbrev pub by_period : RateLimitWindow → RateLimitWindow → Ordering
by_period a b =
    if ltb_ℤ a.period b.period
    then Ordering.lt
    else if ltb_ℤ b.period a.period
    then Ordering.gt
    else Ordering.eq

by_period-IsOrder : IsOrder by_period
by_period-IsOrder = record {
  cmp-flip = λ a b. ground arith;
  lt_trans = λ a b c h k. ground arith;
  eq_cong = λ a b c h. ground arith;
}

unfoldable pub sorted_windows : List RateLimitWindow → List RateLimitWindow
sorted_windows = sort_func by_period

-- Each window comes before no window of a shorter period.
abbrev pub ShortestFirst : List RateLimitWindow → Type 0
ShortestFirst [] = Unit
ShortestFirst (w ∷ ws) = All (λ v. w.period ≤ℤ v.period) ws × ShortestFirst ws

not-gt-le :
    (a : RateLimitWindow) (l : List RateLimitWindow)
    → All (λ b. by_period a b ≢ Ordering.gt) l
    → All (λ v. a.period ≤ℤ v.period) l
not-gt-le a [] h = tt
not-gt-le a (b ∷ l) h = (ground (arith, h.0), not-gt-le a l h.1)

IsSorted-ShortestFirst : (l : List RateLimitWindow) → IsSorted by_period l → ShortestFirst l
IsSorted-ShortestFirst [] h = tt
IsSorted-ShortestFirst (w ∷ ws) h = (not-gt-le w ws h.0, IsSorted-ShortestFirst ws h.1)

-- The windows of a rule are evaluated shortest period first, every window exactly as often as the
-- rule carries it.
pub sorted_windows-ShortestFirst :
    (ws : List RateLimitWindow) → ShortestFirst (sorted_windows ws) × Permᴰ (sorted_windows ws) ws
unfolding sorted_windows
sorted_windows-ShortestFirst ws = (
  IsSorted-ShortestFirst _ (sort_func-IsSorted by_period-IsOrder ws),
  sort_func-perm by_period ws,
)

-- Where no two windows have one period, the order of evaluation does not depend on the order in
-- which the rows came from the store.
pub sorted_windows_unique :
    (ws vs : List RateLimitWindow)
    → Permᴰ ws vs
    → Distinct by_period ws
    → sorted_windows ws ≡ sorted_windows vs
unfolding sorted_windows
sorted_windows_unique ws vs p d = sort_func_unique by_period-IsOrder p d
