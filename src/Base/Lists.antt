-- ===== src/Base/Lists.antt =====
-- Lists measured by native numbers, and the predicates that hold of every element.
use Prim.Native.Nat.{ℕ, suc, ◌+◌, ◌≤◌, ◌<◌}
use mathlib.Core.Path.{◌≡◌, refl, sym, ap, subst, ◌∙◌}
use mathlib.Core.Logic.{◌⊎◌, inl, inr}
use mathlib.Core.Bool.{Bool, true, false, true≢false, ◌||◌}
use mathlib.Core.List.{List, [], ◌∷◌, ◌++◌, map, Permᴰ}
use native.Mathlib.Omega.{arith}
use go_rest_api_service_temp.Base.Tests.{if◌then◌else◌, Bool-cases}

module _ {ℓ} {A : Type ℓ} where
  abbrev pub length : List A → ℕ
  length [] = 0
  length (x ∷ xs) = suc (length xs)

  pub length-append : (xs ys : List A) → length (xs ++ ys) ≡ length xs + length ys
  length-append [] ys = omega arith
  length-append (x ∷ xs) ys = omega (arith, length-append xs ys)

  -- slices.ContainsFunc
  abbrev pub any : (A → Bool) → List A → Bool
  any p [] = false
  any p (x ∷ xs) = p x || any p xs

  abbrev pub flatten : List (List A) → List A
  flatten [] = []
  flatten (xs ∷ xss) = xs ++ flatten xss

  abbrev pub keep : (A → Bool) → List A → List A
  keep p [] = []
  keep p (x ∷ xs) = let rest = keep p xs in if p x then x ∷ rest else rest

module _ {ℓ κ} {A : Type ℓ} (P : A → Type κ) where
  abbrev pub All : List A → Type κ
  All [] = Unit
  All (x ∷ xs) = P x × All xs

  pub All-append : (xs ys : List A) → All xs → All ys → All (xs ++ ys)
  All-append [] ys hx hy = hy
  All-append (x ∷ xs) ys hx hy = (hx.0, All-append xs ys hx.1 hy)

pub joined_empty {ℓ} : {A : Type ℓ} (xs ys : List A) → xs ++ ys ≡ [] → (xs ≡ []) × (ys ≡ [])
joined_empty [] ys h = (refl, h)
joined_empty (x ∷ xs) ys h = cc

pub flatten_empty {ℓ} :
    {A : Type ℓ} (xss : List (List A)) → flatten xss ≡ [] → All (λ xs. xs ≡ []) xss
flatten_empty [] h = tt
flatten_empty (xs ∷ xss) h =
    let (this, rest) = joined_empty xs (flatten xss) h in (this, flatten_empty xss rest)

-- Membership, with the place kept.
pub data In {ℓ} {A : Type ℓ} (x : A) : List A → Type ℓ where
  here : {y : A} {ys : List A} → x ≡ y → In x (y ∷ ys)
  there : {y : A} {ys : List A} → In x ys → In x (y ∷ ys)

module _ {ℓ} {A : Type ℓ} where
  pub In-cons : {x y : A} {ys : List A} → In x (y ∷ ys) → (x ≡ y) ⊎ In x ys
  In-cons (here e) = inl e
  In-cons (there i) = inr i

  pub All-In {κ} : (P : A → Type κ) {x : A} {xs : List A} → All P xs → In x xs → P x
  All-In P h (here e) = subst P (sym e) h.0
  All-In P h (there i) = All-In P h.1 i

  pub All-of-In {κ} : (P : A → Type κ) (xs : List A) → ((x : A) → In x xs → P x) → All P xs
  All-of-In P [] h = tt
  All-of-In P (x ∷ xs) h = (h x (here refl), All-of-In P xs (λ y i. h y (there i)))

  pub In-append_left : {x : A} {xs : List A} (ys : List A) → In x xs → In x (xs ++ ys)
  In-append_left ys (here e) = here e
  In-append_left ys (there i) = there (In-append_left ys i)

  pub In-append_right : {x : A} (xs : List A) {ys : List A} → In x ys → In x (xs ++ ys)
  In-append_right [] i = i
  In-append_right (x ∷ xs) i = there (In-append_right xs i)

  pub In-append_inv : {x : A} (xs ys : List A) → In x (xs ++ ys) → In x xs ⊎ In x ys
  In-append_inv [] ys i = inr i
  In-append_inv (x ∷ xs) ys (here e) = inl (here e)
  In-append_inv (x ∷ xs) ys (there i) = elim (In-append_inv xs ys i) [
    | inl j ↦ inl (there j)
    | inr j ↦ inr j
  ]

  pub In-permᴰ : {x : A} {xs ys : List A} → Permᴰ xs ys → In x xs → In x ys
  In-permᴰ Permᴰ.nil i = elim i [ ]
  In-permᴰ (Permᴰ.cons e p) (here h) = here (h ∙ e)
  In-permᴰ (Permᴰ.cons e p) (there i) = there (In-permᴰ p i)
  In-permᴰ (Permᴰ.swap e f) (here h) = there (here (h ∙ e))
  In-permᴰ (Permᴰ.swap e f) (there (here h)) = here (h ∙ f)
  In-permᴰ (Permᴰ.swap e f) (there (there i)) = there (there i)
  In-permᴰ (Permᴰ.trans p q) i = In-permᴰ q (In-permᴰ p i)

module _ {ℓ κ} {A : Type ℓ} {B : Type κ} (f : A → B) where
  pub In-map : {x : A} {xs : List A} → In x xs → In (f x) (map f xs)
  In-map (here e) = here (ap f e)
  In-map (there i) = there (In-map i)

  pub In-map_inv : (xs : List A) (b : B) → In b (map f xs) → (x : A) × In x xs × (b ≡ f x)
  In-map_inv [] b i = elim i [ ]
  In-map_inv (y ∷ ys) b (here e) = (y, here refl, e)
  In-map_inv (y ∷ ys) b (there i) = let (x, j, e) = In-map_inv ys b i in (x, there j, e)

pub keep_le {ℓ} : {A : Type ℓ} (p : A → Bool) (xs : List A) → length (keep p xs) ≤ length xs
keep_le p [] = omega arith
keep_le p (x ∷ xs) = ground (arith, keep_le p xs)

-- A test that passes less keeps no more, and fewer where it refuses one that was kept.
module _ {ℓ} {A : Type ℓ} (p q : A → Bool) (less : (a : A) → q a ≡ true → p a ≡ true) where
  pub keep_less : (xs : List A) → length (keep q xs) ≤ length (keep p xs)
  keep_less [] = omega arith
  keep_less (x ∷ xs) = ground (arith, keep_less xs, less x)

  pub keep_fewer :
      {a : A} {xs : List A}
      → In a xs
      → p a ≡ true
      → q a ≡ false
      → length (keep q xs) < length (keep p xs)
  keep_fewer {a} (here {y} {ys} e) hp hq = elim (Bool-cases (q y)) [
    | inl kept ↦ absurd (true≢false (sym kept ∙ ap q (sym e) ∙ hq))
    | inr left ↦ ground (arith, keep_less ys, left, ap p (sym e) ∙ hp)
  ]
  keep_fewer (there {y} {ys} i) hp hq = ground (arith, keep_fewer i hp hq, less y)
