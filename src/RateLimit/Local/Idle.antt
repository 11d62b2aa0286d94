-- ===== src/RateLimit/Local/Idle.antt =====
-- Sweep of internal/adapter/driven/ratelimitmemory/adapter.go: what a later Allow answers.
use go_rest_api_service_temp.Base.{
  ℕ, ◌+◌, ◌≤◌, ◌≡◌, ◌≢◌, refl, sym, ap, subst, ◌∙◌, String, Bool, true, not, ◌&&◌, Option, none,
  some, List, [], ◌∷◌, if◌then◌else◌, arith, inl, inr, Bool-cases, Option-cases, eq_iff, ◌=ₛ◌,
}
use go_rest_api_service_temp.Base.Int.{ℤ, ◌≤ℤ◌}
use go_rest_api_service_temp.RateLimit.Charge.{Budget, Decision}
use go_rest_api_service_temp.RateLimit.Local.{
  Library, Entry, Adapter, same_budget, untouched_for, new_adapter, entry_of, set_entry, is_idle,
  sweep, built_for, judge, allow_local,
}
use go_rest_api_service_temp.RateLimit.Local.Buckets.{
  IsDistinct, entry_of-keep, entry_of-set_same, entry_of-set_other, keep-IsDistinct,
  set_entry-IsDistinct,
}
use go_rest_api_service_temp.RateLimit.Local.Charged.{
  same_budget_sound, fresh, ready, charge_entry, allow_local_lem,
}

-- The limiters that Allow has used up to an instant, since one was built
pub data Used {S L : Type 0} (lib : Library S L) (make : ℕ → L) (budget : Budget)
    : L → ℕ → Type 0 where
  built : (t : ℕ) → Used lib make budget (make t) t
  judged :
      {l : L} {t : ℕ} (t' : ℕ)
      → t ≤ t'
      → Used lib make budget l t
      → Used lib make budget (judge lib t' budget l).0 t'

-- Two limiters that answer alike at an instant
pub record AnswersAlike {S L : Type 0} (lib : Library S L) (now : ℕ) (l l' : L) : Type 0 where
  pub reserver : lib.is_reserver l ≡ lib.is_reserver l'
  pub admitting : (lib.admit now l).0 ≡ (lib.admit now l').0
  pub granting : (lib.reserve now l).granted ≡ (lib.reserve now l').granted
  pub delaying : (lib.reserve now l).delay ≡ (lib.reserve now l').delay

-- A limiter whose burst is within its requests has refilled once it was idle for longer than its
-- period.
abbrev pub IsRefilling : (S L : Type 0) → Library S L → Type 0
IsRefilling S L lib =
    (budget : Budget) (make : ℕ → L) (l : L) (t now : ℕ)
    → built_for lib budget ≡ some make
    → budget.burst ≤ℤ budget.requests
    → Used lib make budget l t
    → untouched_for now t budget.period ≡ true
    → AnswersAlike lib now l (make now)

-- What happens to an adapter: time passes, a request is charged, the buckets are swept.
pub data Step : Type 0 where
  waited : ℕ → Step
  charged : String → Budget → Step
  swept : ℤ → Step

module _ {S L : Type 0} (lib : Library S L) where
  judge-alike :
      (now : ℕ) (budget : Budget) (l l' : L)
      → AnswersAlike lib now l l'
      → (judge lib now budget l).1 ≡ (judge lib now budget l').1
  unfolding judge
  judge-alike now budget l l' alike =
      ground (arith, alike.reserver, alike.admitting, alike.granting, alike.delaying)

  unfoldable pub perform : Adapter L → Step → Adapter L
  perform s (waited n) = record s { now = s.now + n }
  perform s (charged key budget) = (allow_local lib s key budget).0
  perform s (swept idle) = (sweep idle s).0

  abbrev pub perform_all : Adapter L → List Step → Adapter L
  perform_all s [] = s
  perform_all s (e ∷ steps) = perform_all (perform s e) steps

  -- An entry's limiter was last used when the entry was last seen.
  IsTracked : ℕ → Entry L → Type 0
  IsTracked now e =
      (make : ℕ → L) × (built_for lib e.budget ≡ some make)
      × Used lib make e.budget e.limiter e.seen
      × (e.seen ≤ now)

  IsTrackedIf : ℕ → Option (Entry L) → Type 0
  IsTrackedIf now none = Unit
  IsTrackedIf now (some e) = IsTracked now e

  IsSound : Adapter L → Type 0
  IsSound s = IsDistinct s.buckets × ((k : String) → IsTrackedIf s.now (entry_of s.buckets k))

  -- The entry that limiterFor leaves, once Allow has used its limiter
  IsUsed : ℕ → Budget → Option (Entry L) → Type 0
  IsUsed now budget none = Unit
  IsUsed now budget (some e) =
      IsTracked now (record e { limiter = (judge lib now budget e.limiter).0 })

  fresh-IsUsed : (now : ℕ) (budget : Budget) → IsUsed now budget (fresh lib now budget)
  unfolding IsUsed IsTracked
  fresh-IsUsed now budget = elim (Option-cases (built_for lib budget)) [
    | inl unbuilt ↦ rw (fresh, unbuilt) tt
    | inr (make, made) ↦
        rw (fresh, made) (make, made, judged now (ground arith) (built now), ground arith)
  ]

  ready-IsUsed :
      (now : ℕ) (budget : Budget) (o : Option (Entry L))
      → IsTrackedIf now o
      → IsUsed now budget (ready lib now budget o)
  unfolding IsUsed IsTracked IsTrackedIf
  ready-IsUsed now budget none tracked = fresh-IsUsed now budget
  ready-IsUsed now budget (some e) tracked = elim (Bool-cases (same_budget e.budget budget)) [
    | inl same ↦
        rw (ready, same)
          (let (make, made, used, le) = tracked in
            let named = same_budget_sound e.budget budget same in
            let used_up =
              subst (λ b. Used lib make e.budget (judge lib now b e.limiter).0 now) named
                (judged now le used) in
            (make, made, used_up, ground arith))
    | inr differs ↦ rw (ready, differs) (fresh-IsUsed now budget)
  ]

  charged-IsSound :
      (s : Adapter L) (key : String) (budget : Budget) (o : Option (Entry L))
      → IsSound s
      → IsUsed s.now budget o
      → IsSound (charge_entry lib s key budget o).0
  unfolding IsUsed IsSound IsTrackedIf
  charged-IsSound s key budget none sound used = sound
  charged-IsSound s key budget (some e) sound used =
      let e' = record e { limiter = (judge lib s.now budget e.limiter).0 } in
      (
        set_entry-IsDistinct (set_entry s.buckets key e) key e'
            (set_entry-IsDistinct s.buckets key e sound.0),
        λ k. elim (Bool-cases (key =ₛ k)) [
          | inl same ↦
              let named : key ≡ k = (eq_iff key k).0 same in
              subst
                (λ j. IsTrackedIf s.now (entry_of (set_entry (set_entry s.buckets key e) key e') j))
                named (rw (entry_of-set_same (set_entry s.buckets key e) key e') used)
          | inr differs ↦
              let apart : key ≢ k = λ p. ground (arith, differs, (eq_iff key k).1 p) in
              rw
                (
                  entry_of-set_other (set_entry s.buckets key e) key k e' apart,
                  entry_of-set_other s.buckets key k e apart,
                )
                (sound.1 k)
        ],
      )

  swept-IsTrackedIf :
      (p : Entry L → Bool) (now : ℕ) (o : Option (Entry L))
      → IsTrackedIf now o
      → IsTrackedIf now (elim o [ none ↦ none | some e ↦ if p e then some e else none ])
  unfolding IsTrackedIf
  swept-IsTrackedIf p now none tracked = tt
  swept-IsTrackedIf p now (some e) tracked = elim (Bool-cases (p e)) [
    | inl kept ↦ rw kept tracked
    | inr dropped ↦ rw dropped tt
  ]

  swept-IsSound : (idle : ℤ) (s : Adapter L) → IsSound s → IsSound (sweep idle s).0
  unfolding sweep IsSound IsTrackedIf
  swept-IsSound idle s sound =
      let live = λ (e : Entry L). not (is_idle s.now idle e) in
      (
        keep-IsDistinct (λ p. live p.1) s.buckets sound.0,
        λ k.
            rw (entry_of-keep live s.buckets k sound.0)
              (swept-IsTrackedIf live s.now (entry_of s.buckets k) (sound.1 k)),
      )

  later-IsTrackedIf :
      (now n : ℕ) (o : Option (Entry L)) → IsTrackedIf now o → IsTrackedIf (now + n) o
  unfolding IsTrackedIf IsTracked
  later-IsTrackedIf now n none tracked = tt
  later-IsTrackedIf now n (some e) (make, made, used, le) = (make, made, used, ground arith)

  perform-IsSound : (s : Adapter L) (e : Step) → IsSound s → IsSound (perform s e)
  unfolding perform IsSound
  perform-IsSound s (waited n) sound =
      (sound.0, λ k. later-IsTrackedIf s.now n (entry_of s.buckets k) (sound.1 k))
  perform-IsSound s (charged key budget) sound =
      subst (λ r. IsSound r.0) (sym (allow_local_lem lib s key budget))
        (charged-IsSound s key budget (ready lib s.now budget (entry_of s.buckets key)) sound
          (ready-IsUsed s.now budget (entry_of s.buckets key) (sound.1 key)))
  perform-IsSound s (swept idle) sound = swept-IsSound idle s sound

  perform_all-IsSound :
      (s : Adapter L) (steps : List Step) → IsSound s → IsSound (perform_all s steps)
  perform_all-IsSound s [] sound = sound
  perform_all-IsSound s (e ∷ steps) sound =
      perform_all-IsSound (perform s e) steps (perform-IsSound s e sound)

  new_adapter-IsSound : (now : ℕ) → IsSound (new_adapter now)
  unfolding IsSound IsTrackedIf entry_of
  new_adapter-IsSound now = (tt, λ k. tt)

  abbrev answer : ℕ → Budget → Option (Entry L) → Option Decision
  answer now budget none = none
  answer now budget (some e) = some (judge lib now budget e.limiter).1

  charge_entry-answer :
      (s : Adapter L) (key : String) (budget : Budget) (o : Option (Entry L))
      → (charge_entry lib s key budget o).1 ≡ answer s.now budget o
  charge_entry-answer s key budget none = refl
  charge_entry-answer s key budget (some e) = refl

  allow_local-answer :
      (s : Adapter L) (key : String) (budget : Budget)
      → (allow_local lib s key budget).1
        ≡ answer s.now budget (ready lib s.now budget (entry_of s.buckets key))
  allow_local-answer s key budget =
      ap (λ r. r.1) (allow_local_lem lib s key budget)
      ∙ charge_entry-answer s key budget (ready lib s.now budget (entry_of s.buckets key))

  module _ (refilling : IsRefilling S L lib) where
    -- The limiter of an idle bucket answers as a new one does.
    idle-answer :
        (now : ℕ) (budget : Budget) (e : Entry L)
        → budget.burst ≤ℤ budget.requests
        → IsTracked now e
        → untouched_for now e.seen e.budget.period ≡ true
        → answer now budget (fresh lib now budget)
          ≡ answer now budget (ready lib now budget (some e))
    unfolding IsTracked
    idle-answer now budget e within (make, made, used, le) idle =
        elim (Bool-cases (same_budget e.budget budget)) [
          | inr differs ↦ rw (ready, differs) refl
          | inl same ↦
              let named = same_budget_sound e.budget budget same in
              let built_alike = subst (λ b. built_for lib b ≡ some make) named made in
              let alike =
                refilling budget make e.limiter e.seen now built_alike within
                  (subst (λ b. Used lib make b e.limiter e.seen) named used)
                  (subst (λ b. untouched_for now e.seen b.period ≡ true) named idle) in
              rw (ready, same, fresh, built_alike)
                (ap (λ d. some d) (sym (judge-alike now budget e.limiter (make now) alike)))
        ]

    swept-answer :
        (idle : ℤ) (now : ℕ) (budget : Budget) (o : Option (Entry L))
        → budget.burst ≤ℤ budget.requests
        → IsTrackedIf now o
        → answer now budget (
            ready lib now budget
              (elim o [ none ↦ none | some e ↦ if not (is_idle now idle e) then some e else none ]))
          ≡ answer now budget (ready lib now budget o)
    unfolding IsTrackedIf is_idle
    swept-answer idle now budget none within tracked = refl
    swept-answer idle now budget (some e) within tracked =
        elim (Bool-cases
          (untouched_for now e.seen idle && untouched_for now e.seen e.budget.period)) [
            | inl unused ↦
                rw unused (idle-answer now budget e within tracked (ground (arith, unused)))
            | inr recent ↦ rw recent refl
          ]

    -- In every state that an adapter reaches from New by time passing, charges and sweeps, a sweep
    -- does not change what Allow then answers for a budget whose burst is at most its requests,
    -- where a limiter of such a budget has refilled once it was idle for longer than its period.
    pub sweep-allow_local :
        (start : ℕ) (steps : List Step) (idle : ℤ) (key : String) (budget : Budget)
        → budget.burst ≤ℤ budget.requests
        → (allow_local lib (sweep idle (perform_all (new_adapter start) steps)).0 key budget).1
          ≡ (allow_local lib (perform_all (new_adapter start) steps) key budget).1
    unfolding sweep IsSound
    sweep-allow_local start steps idle key budget within =
        let s = perform_all (new_adapter start) steps in
        let sound = perform_all-IsSound (new_adapter start) steps (new_adapter-IsSound start) in
        let live = λ (e : Entry L). not (is_idle s.now idle e) in
        allow_local-answer (sweep idle s).0 key budget
        ∙ ap (λ o. answer s.now budget (ready lib s.now budget o))
            (entry_of-keep live s.buckets key sound.0)
        ∙ swept-answer idle s.now budget (entry_of s.buckets key) within (sound.1 key)
        ∙ sym (allow_local-answer s key budget)
