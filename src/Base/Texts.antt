-- ===== src/Base/Texts.antt =====
-- Text: equality of whole texts, and the byte order of `strings.Compare`. UTF-8 keeps the order
-- of the code points, so the texts are compared by their code points.
use Prim.Native.Nat.{compare, Ordering}
use Prim.Native.Char.{code}
use Prim.Native.String
use Prim.Native.String.{String, [], ◌∷◌}
use mathlib.Core.Path.{◌≡◌, refl, sym, ap₂}
use mathlib.Core.Logic.{◌↔◌, inl, inr}
use mathlib.Core.Bool.{Bool, true, false, ◌||◌}
use mathlib.Core.List.{List}
use native.Mathlib.Omega.{arith}
use text.Mathlib.Text as NativeText
use text.Mathlib.TextEquality.{Char-path, eq_iff}
use text.Mathlib.TextPositions.{eq_refl}
use go_rest_api_service_temp.Base.Tests.{Bool-cases}
use go_rest_api_service_temp.Base.Lists.{In, here, there}

infix 50 ◌=ₛ◌
abbrev pub ◌=ₛ◌ : String → String → Bool
s =ₛ t = NativeText.◌==◌ s t

-- slices.Contains on a list of texts
unfoldable pub contains : List String → String → Bool
contains List.[] s = false
contains (List.◌∷◌ x xs) s = x =ₛ s || contains xs s

abbrev pub then_ordering : Ordering → Ordering → Ordering
then_ordering Ordering.lt o = Ordering.lt
then_ordering Ordering.eq o = o
then_ordering Ordering.gt o = Ordering.gt

-- strings.Compare
unfoldable pub str_compare : String → String → Ordering
str_compare [] [] = Ordering.eq
str_compare [] (d ∷ t) = Ordering.lt
str_compare (c ∷ s) [] = Ordering.gt
str_compare (c ∷ s) (d ∷ t) = then_ordering (compare (code c) (code d)) (str_compare s t)

pub str_compare-eq : (s t : String) → str_compare s t ≡ Ordering.eq → s ≡ t
unfolding str_compare
str_compare-eq [] [] h = refl
str_compare-eq [] (d ∷ t) h = cc
str_compare-eq (c ∷ s) [] h = cc
str_compare-eq (c ∷ s) (d ∷ t) h =
    ap₂ (λ x y. x ∷ y) (Char-path c d (ground arith)) (str_compare-eq s t (ground arith))

-- strings.HasPrefix
abbrev pub has_prefix : String → String → Bool
has_prefix s t = NativeText.starts_with s t

infixr 60 ◌+ₛ◌
abbrev pub ◌+ₛ◌ : String → String → String
s +ₛ t = String.◌++◌ s t

pub contains_iff : (xs : List String) (s : String) → (contains xs s ≡ true) ↔ In s xs
unfolding contains
contains_iff xs s = (to xs, from)
  where
    to : (ys : List String) → contains ys s ≡ true → In s ys
    to List.[] h = cc
    to (List.◌∷◌ y ys) h = elim (Bool-cases (y =ₛ s)) [
      | inl same ↦ here (sym ((eq_iff y s).0 same))
      | inr other ↦ there (to ys (rw other at h))
    ]

    from : {ys : List String} → In s ys → contains ys s ≡ true
    from (here {y} {ys} e) = rw e (ground (arith, eq_refl y))
    from (there {y} {ys} i) = ground (arith, from i)

-- strings.HasSuffix
unfoldable pub has_suffix : String → String → Bool
has_suffix [] t = t =ₛ ""
has_suffix (c ∷ s) t = c ∷ s =ₛ t || has_suffix s t

pub =ₛ_comm : (s t : String) → (s =ₛ t) ≡ (t =ₛ s)
=ₛ_comm s t = ground (arith, eq_iff s t, eq_iff t s)
