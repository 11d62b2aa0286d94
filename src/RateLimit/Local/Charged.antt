-- ===== src/RateLimit/Local/Charged.antt =====
-- Allow of internal/adapter/driven/ratelimitmemory/adapter.go as one equation: the entry that
-- limiterFor leaves, and what is done with it.
use go_rest_api_service_temp.Base.{
  ℕ, ◌≡◌, refl, ap, ◌∙◌, String, true, Option, none, some, if◌then◌else◌, arith, inl, inr,
  Bool-cases, Option-cases, eq_iff,
}
use go_rest_api_service_temp.Base.Int.{ℤ, eq_of_parts}
use go_rest_api_service_temp.RateLimit.Charge.{Budget, Decision}
use go_rest_api_service_temp.RateLimit.Local.{
  Library, Entry, Adapter, eq_ℤ, same_budget, entry_of, set_entry, built_for, rebuilt, limiter_for,
  judge, put_limiter, allow_local,
}
use go_rest_api_service_temp.RateLimit.Local.Buckets.{entry_of-set_same}

eq_ℤ_sound : (a b : ℤ) → eq_ℤ a b ≡ true → a ≡ b
unfolding eq_ℤ
eq_ℤ_sound a b h = eq_of_parts a b (ground (arith, h))

pub same_budget_sound : (a b : Budget) → same_budget a b ≡ true → a ≡ b
unfolding same_budget
same_budget_sound a b h =
    let requests : a.requests ≡ b.requests = eq_ℤ_sound a.requests b.requests (ground (arith, h)) in
    let period : a.period ≡ b.period = eq_ℤ_sound a.period b.period (ground (arith, h)) in
    let burst : a.burst ≡ b.burst = eq_ℤ_sound a.burst b.burst (ground (arith, h)) in
    let strategy : a.strategy ≡ b.strategy = (eq_iff a.strategy b.strategy).0 (ground (arith, h)) in
    λ i. record { requests = requests i; period = period i; burst = burst i; strategy = strategy i }

module _ {S L : Type 0} (lib : Library S L) where
  -- A new entry of a budget
  abbrev pub fresh : ℕ → Budget → Option (Entry L)
  fresh now budget = elim (built_for lib budget) [
    | none ↦ none
    | some make ↦ some (record { seen = now; limiter = make now; budget = budget })
  ]

  -- The entry that limiterFor leaves, read off the one that it found
  abbrev pub ready : ℕ → Budget → Option (Entry L) → Option (Entry L)
  ready now budget none = fresh now budget
  ready now budget (some e) =
      if same_budget e.budget budget then some (record e { seen = now }) else fresh now budget

  -- What Allow does with that entry
  abbrev pub charge_entry :
      Adapter L → String → Budget → Option (Entry L) → Adapter L × Option Decision
  charge_entry s key budget none = (s, none)
  charge_entry s key budget (some e) = (
    record s {
      buckets =
          set_entry (set_entry s.buckets key e) key
            (record e { limiter = (judge lib s.now budget e.limiter).0 });
    },
    some (judge lib s.now budget e.limiter).1,
  )

  put-charged :
      (s : Adapter L) (key : String) (e : Entry L) (l : L)
      → put_limiter lib (record s { buckets = set_entry s.buckets key e }) key l ≡ record s {
        buckets = set_entry (set_entry s.buckets key e) key (record e { limiter = l });
      }
  unfolding put_limiter set_entry
  put-charged s key e l = rw (put_limiter, entry_of-set_same s.buckets key e) refl

  -- limiterFor, where it leaves an entry
  abbrev placed : Adapter L → String → Option (Entry L) → Adapter L × Option L
  placed s key none = (s, none)
  placed s key (some e) = (record s { buckets = set_entry s.buckets key e }, some e.limiter)

  rebuilt_lem :
      (s : Adapter L) (key : String) (budget : Budget)
      → rebuilt lib s key budget ≡ placed s key (fresh s.now budget)
  unfolding rebuilt
  rebuilt_lem s key budget = elim (Option-cases (built_for lib budget)) [
    | inl unbuilt ↦ rw (rebuilt, fresh, unbuilt) refl
    | inr (make, made) ↦ rw (rebuilt, fresh, made) refl
  ]

  limiter_for_lem :
      (s : Adapter L) (key : String) (budget : Budget)
      → limiter_for lib s key budget ≡ placed s key (ready s.now budget (entry_of s.buckets key))
  unfolding limiter_for
  limiter_for_lem s key budget = elim (Option-cases (entry_of s.buckets key)) [
    | inl missing ↦ rw (limiter_for, missing) (rebuilt_lem s key budget)
    | inr (e, found) ↦ elim (Bool-cases (same_budget e.budget budget)) [
      | inl same ↦ rw (limiter_for, found, same) refl
      | inr differs ↦ rw (limiter_for, found, differs) (rebuilt_lem s key budget)
    ]
  ]

  -- The part of Allow after limiterFor
  abbrev finished_with : String → Budget → Adapter L × Option L → Adapter L × Option Decision
  finished_with key budget (s, none) = (s, none)
  finished_with key budget (s, some l) =
      (put_limiter lib s key (judge lib s.now budget l).0, some (judge lib s.now budget l).1)

  finished_with-placed :
      (s : Adapter L) (key : String) (budget : Budget) (o : Option (Entry L))
      → finished_with key budget (placed s key o) ≡ charge_entry s key budget o
  finished_with-placed s key budget none = refl
  finished_with-placed s key budget (some e) =
      ap (λ (a : Adapter L). (a, some (judge lib s.now budget e.limiter).1))
        (put-charged s key e (judge lib s.now budget e.limiter).0)

  allow_local_finished :
      (s : Adapter L) (key : String) (budget : Budget)
      → allow_local lib s key budget ≡ finished_with key budget (limiter_for lib s key budget)
  unfolding allow_local
  allow_local_finished s key budget = elim (Option-cases (limiter_for lib s key budget).1) [
    | inl missing ↦ rw (allow_local, missing) refl
    | inr (l, found) ↦ rw (allow_local, found) refl
  ]

  pub allow_local_lem :
      (s : Adapter L) (key : String) (budget : Budget)
      → allow_local lib s key budget
        ≡ charge_entry s key budget (ready s.now budget (entry_of s.buckets key))
  allow_local_lem s key budget =
      allow_local_finished s key budget
      ∙ ap (finished_with key budget) (limiter_for_lem s key budget)
      ∙ finished_with-placed s key budget (ready s.now budget (entry_of s.buckets key))
