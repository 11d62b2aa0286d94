-- ===== src/Base/Split.antt =====
-- Texts cut at a separator of one byte, strings.Split, and texts without the separator. A
-- separator is the code of its character.
use Prim.Native.Nat.{ℕ}
use Prim.Native.Char.{Char, code}
use Prim.Native.String.{String}
use mathlib.Core.Path.{◌≡◌, refl, sym, ap, ◌∙◌}
use mathlib.Core.Logic.{inl, inr}
use mathlib.Core.Bool.{Bool, true, not, ◌&&◌}
use mathlib.Core.List.{List, [], ◌∷◌, ◌++◌}
use native.Mathlib.Omega.{arith}
use text.Mathlib.TextLemmas.{nil-append, cons-append, append_cancel_left}
use go_rest_api_service_temp.Base.Tests.{◌==◌, if◌then◌else◌, Bool-cases}
use go_rest_api_service_temp.Base.Texts.{◌+ₛ◌}

unfoldable pub free_of : ℕ → String → Bool
free_of sep String.[] = true
free_of sep (String.◌∷◌ c s) = not (code c == sep) && free_of sep s

unfoldable push_first : Char → List String → List String
push_first c [] = String.◌∷◌ c "" ∷ []
push_first c (s ∷ parts) = String.◌∷◌ c s ∷ parts

unfoldable pub split : ℕ → String → List String
unfolding push_first
split sep String.[] = "" ∷ []
split sep (String.◌∷◌ c s) =
    let rest = split sep s in if code c == sep then "" ∷ rest else push_first c rest

pub split-free : (sep : ℕ) (s : String) → free_of sep s ≡ true → split sep s ≡ s ∷ []
unfolding split free_of push_first
split-free sep String.[] h = refl
split-free sep (String.◌∷◌ c s) h = rw (split-free sep s (ground arith)) (ground arith)

one-append : (sep : Char) (t : String) → String.◌∷◌ sep "" +ₛ t ≡ String.◌∷◌ sep t
one-append sep t = cons-append sep "" t ∙ ap (λ u. String.◌∷◌ sep u) (nil-append t)

-- A text is cut at the first separator.
pub split-joined :
    (sep : Char) (s t : String)
    → free_of (code sep) s ≡ true
    → split (code sep) (s +ₛ String.◌∷◌ sep "" +ₛ t) ≡ s ∷ split (code sep) t
unfolding split free_of push_first
split-joined sep String.[] t h =
    rw (nil-append (String.◌∷◌ sep "" +ₛ t), one-append sep t) (ground arith)
split-joined sep (String.◌∷◌ c s) t h =
    rw (cons-append c s (String.◌∷◌ sep "" +ₛ t), split-joined sep s t (ground arith))
      (ground arith)

-- The place of the first separator decides the text before it and the text after it.
pub joined_inj :
    (sep : Char) (s s' t t' : String)
    → free_of (code sep) s ≡ true
    → free_of (code sep) s' ≡ true
    → s +ₛ String.◌∷◌ sep "" +ₛ t ≡ s' +ₛ String.◌∷◌ sep "" +ₛ t'
    → (s ≡ s') × (t ≡ t')
joined_inj sep s s' t t' h k e =
    let cut : (s ∷ split (code sep) t) ≡ (s' ∷ split (code sep) t') =
      sym (split-joined sep s t h) ∙ ap (λ u. split (code sep) u) e ∙ split-joined sep s' t' k in
    let same : s ≡ s' = cc in
    (
      same,
      append_cancel_left (String.◌∷◌ sep "") t t'
          (append_cancel_left s _ _ (e ∙ ap (λ u. u +ₛ String.◌∷◌ sep "" +ₛ t') (sym same))),
    )

split-shape :
    (sep : ℕ) (s : String) → (first : String) × (rest : List String) × (split sep s ≡ first ∷ rest)
unfolding split push_first
split-shape sep String.[] = ("", [], refl)
split-shape sep (String.◌∷◌ c s) =
    let (first, rest, e) = split-shape sep s in
    elim (Bool-cases (code c == sep)) [
      | inl cut ↦ ("", split sep s, rw cut)
      | inr longer ↦ (String.◌∷◌ c first, rest, rw (longer, e))
    ]

-- The parts of two texts with a separator between them.
pub split-append :
    (sep : Char) (s t : String)
    → split (code sep) (s +ₛ String.◌∷◌ sep "" +ₛ t) ≡ split (code sep) s ++ split (code sep) t
unfolding split push_first
split-append sep String.[] t =
    rw (nil-append (String.◌∷◌ sep "" +ₛ t), one-append sep t) (ground arith)
split-append sep (String.◌∷◌ c s) t =
    let (first, rest, e) = split-shape (code sep) s in
    let later = split-append sep s t in
    let whole = cons-append c s (String.◌∷◌ sep "" +ₛ t) in
    rw whole (elim (Bool-cases (code c == code sep)) [
      | inl cut ↦ rw (split, cut, later) refl
      | inr longer ↦ rw (split, longer, later, e) refl
    ])
