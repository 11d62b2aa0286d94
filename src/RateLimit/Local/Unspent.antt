-- ===== src/RateLimit/Local/Unspent.antt =====
-- Allow of internal/adapter/driven/ratelimitmemory/adapter.go: what a refused request costs.
use go_rest_api_service_temp.Base.{
  ℕ, ◌≡◌, ◌≢◌, refl, sym, ap, ◌∙◌, String, Bool, true, false, Option, none, some, arith, inl, inr,
  Bool-cases,
}
use go_rest_api_service_temp.Base.Int.{pos, ltb_ℤ}
use go_rest_api_service_temp.RateLimit.Charge.{Budget, Decision}
use go_rest_api_service_temp.RateLimit.Local.{
  Library, Entry, Adapter, same_budget, entry_of, set_entry, judge, allow_local,
}
use go_rest_api_service_temp.RateLimit.Local.Buckets.{entry_of-set_same, entry_of-set_other}
use go_rest_api_service_temp.RateLimit.Local.Charged.{ready, charge_entry, allow_local_lem}

-- A reservation that is not granted takes nothing; one that is for later, cancelled, gives its token
-- back.
pub record IsRestoring {S L : Type 0} (lib : Library S L) : Type 0 where
  pub ungranted :
      (now : ℕ) (l : L) → (lib.reserve now l).granted ≡ false → (lib.reserve now l).taken ≡ l
  pub given_back :
      (now : ℕ) (l : L)
      → ltb_ℤ (pos 0) (lib.reserve now l).delay ≡ true
      → (lib.reserve now l).cancelled ≡ l

module _ {S L : Type 0} (lib : Library S L) (restoring : IsRestoring lib) where
  judge-refused :
      (now : ℕ) (budget : Budget) (l : L)
      → lib.is_reserver l ≡ true
      → (judge lib now budget l).1.allowed ≡ false
      → (judge lib now budget l).0 ≡ l
  unfolding judge
  judge-refused now budget l reserver refused = elim (Bool-cases (lib.reserve now l).granted) [
    | inr ungranted ↦ rw (reserver, ungranted) (restoring.ungranted now l ungranted)
    | inl granted ↦ elim (Bool-cases (ltb_ℤ (pos 0) (lib.reserve now l).delay)) [
      | inl later ↦ rw (reserver, granted, later) (restoring.given_back now l later)
      | inr at_once ↦ ground (arith, refused, reserver, granted, at_once)
    ]
  ]

  -- Whether a decision passes
  abbrev passes : Option Decision → Bool
  passes none = true
  passes (some d) = d.allowed

  ready-found :
      (now : ℕ) (budget : Budget) (o : Option (Entry L)) (e : Entry L)
      → o ≡ some e
      → same_budget e.budget budget ≡ true
      → ready lib now budget o ≡ some (record e { seen = now })
  ready-found now budget o e found same = rw (ready, found, same) refl

  -- A refused request of a bucket that has this budget, whose limiter can reserve, leaves the
  -- limiter as it was and notes the time only, and leaves the bucket of every other key as it was,
  -- where a reservation that is not granted takes nothing and a cancelled one gives its token back.
  pub allow_local-refused :
      (s : Adapter L) (key other : String) (budget : Budget) (e : Entry L) (d : Decision)
      → entry_of s.buckets key ≡ some e
      → same_budget e.budget budget ≡ true
      → lib.is_reserver e.limiter ≡ true
      → (allow_local lib s key budget).1 ≡ some d
      → d.allowed ≡ false
      → key ≢ other
      → (entry_of (allow_local lib s key budget).0.buckets key ≡ some (record e { seen = s.now }))
        × (entry_of (allow_local lib s key budget).0.buckets other ≡ entry_of s.buckets other)
  allow_local-refused s key other budget e d found same reserver answered refused apart =
      let e₁ = record e { seen = s.now } in
      let run =
        allow_local_lem lib s key budget
        ∙ ap (charge_entry lib s key budget)
            (ready-found s.now budget (entry_of s.buckets key) e found same) in
      let decided : some (judge lib s.now budget e.limiter).1 ≡ some d =
        sym (ap (λ r. r.1) run) ∙ answered in
      let denied = ap (λ o. passes o) decided ∙ refused in
      let kept = judge-refused s.now budget e.limiter reserver denied in
      let e₂ = record e₁ { limiter = (judge lib s.now budget e.limiter).0 } in
      (
        ap (λ r. entry_of r.0.buckets key) run
            ∙ entry_of-set_same (set_entry s.buckets key e₁) key e₂
            ∙ ap (λ l. some (record e₁ { limiter = l })) kept,
        ap (λ r. entry_of r.0.buckets other) run
            ∙ entry_of-set_other (set_entry s.buckets key e₁) key other e₂ apart
            ∙ entry_of-set_other s.buckets key other e₁ apart,
      )
