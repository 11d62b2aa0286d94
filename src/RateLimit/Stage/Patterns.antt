-- ===== src/RateLimit/Stage/Patterns.antt =====
-- normalisePattern on the patterns that http.ServeMux registers: a method, a host and a path.
use Prim.Native.Char.{Char, char, code}
use text.Mathlib.TextLemmas.{nil-append, cons-append}
use go_rest_api_service_temp.Base.{
  ℕ, String, ◌≡◌, refl, sym, ap, ◌∙◌, true, false, none, some, arith, ◌=ₛ◌, ◌+ₛ◌, eq_iff, free_of,
  Bool-cases, inl, inr,
}
use go_rest_api_service_temp.RateLimit.Stage.{
  after_last, from_first, trim_suffix, normalise_pattern,
}

after_last-free : (sep : ℕ) (s : String) → free_of sep s ≡ true → after_last sep s ≡ none
unfolding after_last free_of
after_last-free sep String.[] h = refl
after_last-free sep (String.◌∷◌ c s) h = rw (after_last-free sep s (ground arith)) (ground arith)

after_last-joined :
    (sep : Char) (s t : String)
    → free_of (code sep) t ≡ true
    → after_last (code sep) (s +ₛ String.◌∷◌ sep "" +ₛ t) ≡ some t
unfolding after_last
after_last-joined sep String.[] t h =
    rw
      (
        nil-append (String.◌∷◌ sep "" +ₛ t),
        cons-append sep "" t,
        nil-append t,
        after_last-free (code sep) t h,
      )
      (ground arith)
after_last-joined sep (String.◌∷◌ c s) t h =
    rw (cons-append c s (String.◌∷◌ sep "" +ₛ t)) (ground (arith, after_last-joined sep s t h))

from_first-joined :
    (sep : Char) (s t : String)
    → free_of (code sep) s ≡ true
    → from_first (code sep) (s +ₛ String.◌∷◌ sep t) ≡ some (String.◌∷◌ sep t)
unfolding from_first free_of
from_first-joined sep String.[] t h = rw (nil-append (String.◌∷◌ sep t)) (ground arith)
from_first-joined sep (String.◌∷◌ c s) t h =
    rw (cons-append c s (String.◌∷◌ sep t), from_first-joined sep s t (ground arith)) (ground arith)

cut-filled : (p t : String) → after_last b' ' p ≡ some t → (p =ₛ "") ≡ false
unfolding after_last
cut-filled p t found = elim (Bool-cases (p =ₛ "")) [
  | inr other ↦ other
  | inl same ↦
      let gone : none ≡ some t = ap (λ q. after_last b' ' q) (sym ((eq_iff p "").0 same)) ∙ found in
      cc
]

-- A registered pattern, a method, a space, a host (it may be empty) and a path that starts with a
-- slash, is stripped to the path, less the mark "{$}" of an exact match at its end. The host holds
-- no slash, and neither the host nor the path a space.
pub normalise_pattern-path :
    (method host rest : String)
    → free_of b'/' host ≡ true
    → free_of b' ' (host +ₛ String.◌∷◌ (char 47 tt) rest) ≡ true
    → normalise_pattern (method +ₛ " " +ₛ host +ₛ String.◌∷◌ (char 47 tt) rest)
      ≡ trim_suffix "{$}" (String.◌∷◌ (char 47 tt) rest)
unfolding normalise_pattern
normalise_pattern-path method host rest no_slash no_space =
    let path = String.◌∷◌ (char 47 tt) rest in
    let cut = after_last-joined (char 32 tt) method (host +ₛ path) no_space in
    let begins = from_first-joined (char 47 tt) host rest no_slash in
    rw (cut-filled _ _ cut, cut, begins) refl
