-- ===== src/Base/Sort.antt =====
-- `slices.SortFunc` and the comparisons that are given to it. Go promises a sorted permutation and
-- no stability; the model sorts by insertion, and `sort_func_unique` says where nothing depends on
-- that choice.
use Prim.Native.Char.{code}
use Prim.Native.String.{String}
use Prim.Native.Nat.{ℕ, compare, Ordering}
use mathlib.Core.Path.{◌≡◌, refl, subst, subst₂, ap₂, ◌∙◌}
use mathlib.Core.Logic.{◌≢◌, ◌⊎◌, inl, inr}
use mathlib.Core.List.{List, [], ◌∷◌, Permᴰ}
use mathlib.Core.List.Permᴰ
use native.Mathlib.Omega.{arith}
use go_rest_api_service_temp.Base.Lists.{All}
use go_rest_api_service_temp.Base.Texts.{then_ordering, str_compare, str_compare-eq}

abbrev pub flip : Ordering → Ordering
flip Ordering.lt = Ordering.gt
flip Ordering.eq = Ordering.eq
flip Ordering.gt = Ordering.lt

pub Ordering-cases : (o : Ordering) → (o ≡ Ordering.lt) ⊎ ((o ≡ Ordering.eq) ⊎ (o ≡ Ordering.gt))
Ordering-cases Ordering.lt = inl refl
Ordering-cases Ordering.eq = inr (inl refl)
Ordering-cases Ordering.gt = inr (inr refl)

-- What `slices.SortFunc` asks of a comparison: a strict weak ordering.
pub record IsOrder {ℓ} {A : Type ℓ} (cmp : A → A → Ordering) : Type ℓ where
  pub cmp-flip : (a b : A) → cmp b a ≡ flip (cmp a b)
  pub lt_trans : (a b c : A) → cmp a b ≡ Ordering.lt → cmp b c ≡ Ordering.lt → cmp a c ≡ Ordering.lt
  pub eq_cong : (a b c : A) → cmp a b ≡ Ordering.eq → cmp a c ≡ cmp b c

pub lt_irrefl {ℓ} :
    {A : Type ℓ} {cmp : A → A → Ordering} → IsOrder cmp → (a : A) → cmp a a ≢ Ordering.lt
lt_irrefl o a h = ground (arith, o.cmp-flip a a)

pub compare-IsOrder : IsOrder {A = ℕ} compare
compare-IsOrder = record {
  cmp-flip = λ a b. ground arith;
  lt_trans = λ a b c h k. ground arith;
  eq_cong = λ a b c h. ground arith;
}

str_compare-flip : (s t : String) → str_compare t s ≡ flip (str_compare s t)
unfolding str_compare
str_compare-flip String.[] String.[] = refl
str_compare-flip String.[] (String.◌∷◌ d t) = refl
str_compare-flip (String.◌∷◌ c s) String.[] = refl
str_compare-flip (String.◌∷◌ c s) (String.◌∷◌ d t) =
    ground (arith, str_compare-flip s t, compare-IsOrder.cmp-flip (code c) (code d))

str_compare-lt_trans :
    (s t u : String)
    → str_compare s t ≡ Ordering.lt
    → str_compare t u ≡ Ordering.lt
    → str_compare s u ≡ Ordering.lt
unfolding str_compare
str_compare-lt_trans String.[] String.[] String.[] h k = cc
str_compare-lt_trans String.[] (String.◌∷◌ d t) String.[] h k = cc
str_compare-lt_trans String.[] t (String.◌∷◌ e u) h k = refl
str_compare-lt_trans (String.◌∷◌ c s) String.[] u h k = cc
str_compare-lt_trans (String.◌∷◌ c s) (String.◌∷◌ d t) String.[] h k = cc
str_compare-lt_trans (String.◌∷◌ c s) (String.◌∷◌ d t) (String.◌∷◌ e u) h k =
    ground (arith, str_compare-lt_trans s t u)

str_compare_refl : (s : String) → str_compare s s ≡ Ordering.eq
unfolding str_compare
str_compare_refl String.[] = refl
str_compare_refl (String.◌∷◌ c s) = ground (arith, str_compare_refl s)

pub str_compare-IsOrder : IsOrder str_compare
str_compare-IsOrder = record {
  cmp-flip = str_compare-flip;
  lt_trans = str_compare-lt_trans;
  eq_cong = λ a b c h. rw (str_compare-eq a b h);
}

-- The first comparison decides, the second breaks ties.
module _ {ℓ} {A : Type ℓ} {f g : A → A → Ordering} (of : IsOrder f) (og : IsOrder g) where
  pub then_ordering-IsOrder : IsOrder (λ (a b : A). then_ordering (f a b) (g a b))
  then_ordering-IsOrder = record {
    cmp-flip = λ a b. ground (arith, of.cmp-flip a b, og.cmp-flip a b);
    lt_trans = λ a b c h k. ground (
      arith,
      of.lt_trans a b c,
      of.eq_cong a b c,
      of.eq_cong b c a,
      of.cmp-flip a b,
      of.cmp-flip b c,
      of.cmp-flip a c,
      og.lt_trans a b c,
    );
    eq_cong = λ a b c h. ground (arith, of.eq_cong a b c, og.eq_cong a b c);
  }

pub on-IsOrder {ℓ κ} :
    {A : Type ℓ} {B : Type κ} (key : A → B) {f : B → B → Ordering}
    → IsOrder f
    → IsOrder (λ (a b : A). f (key a) (key b))
on-IsOrder key o = record {
  cmp-flip = λ a b. o.cmp-flip (key a) (key b);
  lt_trans = λ a b c. o.lt_trans (key a) (key b) (key c);
  eq_cong = λ a b c. o.eq_cong (key a) (key b) (key c);
}

pub flip-IsOrder {ℓ} :
    {A : Type ℓ} {f : A → A → Ordering} → IsOrder f → IsOrder (λ (a b : A). f b a)
flip-IsOrder o = record {
  cmp-flip = λ a b. o.cmp-flip b a;
  lt_trans = λ a b c h k. o.lt_trans c b a k h;
  eq_cong =
      λ a b c h. ground (arith, o.eq_cong b a c, o.cmp-flip a c, o.cmp-flip b c, o.cmp-flip b a);
}

module _ {ℓ} {A : Type ℓ} (cmp : A → A → Ordering) where
  unfoldable pub insert : A → List A → List A
  insert x [] = x ∷ []
  insert x (y ∷ l) = elim (cmp x y) [ Ordering.gt ↦ y ∷ insert x l | _ ↦ x ∷ y ∷ l ]

  -- slices.SortFunc
  unfoldable pub sort_func : List A → List A
  unfolding insert
  sort_func [] = []
  sort_func (x ∷ l) = insert x (sort_func l)

  -- Nothing later comes before an earlier element.
  abbrev pub IsSorted : List A → Type 0
  IsSorted [] = Unit
  IsSorted (x ∷ l) = All (λ y. cmp x y ≢ Ordering.gt) l × IsSorted l

  insert-perm : (x : A) (l : List A) → Permᴰ (insert x l) (x ∷ l)
  unfolding insert
  insert-perm x [] = Permᴰ.refl _
  insert-perm x (y ∷ l) =
      elim (cmp x y)
        as (λ o. Permᴰ (elim o [ Ordering.gt ↦ y ∷ insert x l | _ ↦ x ∷ y ∷ l ]) (x ∷ y ∷ l)) [
          | Ordering.lt ↦ Permᴰ.refl _
          | Ordering.eq ↦ Permᴰ.refl _
          | Ordering.gt ↦ Permᴰ.trans (Permᴰ.cons refl (insert-perm x l)) (Permᴰ.swap refl refl)
        ]

  pub sort_func-perm : (l : List A) → Permᴰ (sort_func l) l
  unfolding sort_func
  sort_func-perm [] = Permᴰ.nil
  sort_func-perm (x ∷ l) =
      Permᴰ.trans (insert-perm x (sort_func l)) (Permᴰ.cons refl (sort_func-perm l))

  All-insert {κ} : (P : A → Type κ) (x : A) (l : List A) → P x → All P l → All P (insert x l)
  unfolding insert
  All-insert P x [] p h = (p, tt)
  All-insert P x (y ∷ l) p h = ground (arith, All-insert P x l p h.1)

module _ {ℓ} {A : Type ℓ} {cmp : A → A → Ordering} (o : IsOrder cmp) where
  -- Two elements that differ under the comparison may be inserted in either order.
  insert_comm :
      (x y : A) (l : List A)
      → cmp x y ≢ Ordering.eq
      → insert cmp x (insert cmp y l) ≡ insert cmp y (insert cmp x l)
  unfolding insert
  insert_comm x y [] h = ground (arith, o.cmp-flip x y)
  insert_comm x y (z ∷ l) h = ground (
    arith,
    insert_comm x y l h,
    o.cmp-flip x y,
    o.cmp-flip x z,
    o.cmp-flip y z,
    o.lt_trans x y z,
    o.lt_trans y x z,
    o.eq_cong x z y,
    o.eq_cong y z x,
  )

  All-le_trans :
      (x y : A) (l : List A)
      → cmp x y ≢ Ordering.gt
      → All (λ z. cmp y z ≢ Ordering.gt) l
      → All (λ z. cmp x z ≢ Ordering.gt) l
  All-le_trans x y [] h k = tt
  All-le_trans x y (z ∷ l) h k = (
    ground (
      arith,
      k.0,
      o.lt_trans x y z,
      o.eq_cong x y z,
      o.eq_cong y z x,
      o.cmp-flip x y,
      o.cmp-flip y z,
      o.cmp-flip x z,
    ),
    All-le_trans x y l h k.1,
  )

  insert-IsSorted : (x : A) (l : List A) → IsSorted cmp l → IsSorted cmp (insert cmp x l)
  unfolding insert
  insert-IsSorted x [] h = (tt, tt)
  insert-IsSorted x (y ∷ l) h = ground (
    arith,
    o.cmp-flip x y,
    insert-IsSorted x l h.1,
    All-le_trans x y l,
    All-insert cmp (λ z. cmp y z ≢ Ordering.gt) x l,
  )

  pub sort_func-IsSorted : (l : List A) → IsSorted cmp (sort_func cmp l)
  unfolding sort_func
  sort_func-IsSorted [] = tt
  sort_func-IsSorted (x ∷ l) = insert-IsSorted x (sort_func cmp l) (sort_func-IsSorted l)

-- No two elements that the comparison finds equal.
abbrev pub Distinct {ℓ} : {A : Type ℓ} → (A → A → Ordering) → List A → Type 0
Distinct cmp [] = Unit
Distinct cmp (x ∷ l) = All (λ y. cmp x y ≢ Ordering.eq) l × Distinct cmp l

pub All-permᴰ {ℓ κ} : {A : Type ℓ} (P : A → Type κ) {l m : List A} → Permᴰ l m → All P l → All P m
All-permᴰ P Permᴰ.nil h = tt
All-permᴰ P (Permᴰ.cons e p) (a, h) = (subst P e a, All-permᴰ P p h)
All-permᴰ P (Permᴰ.swap e f) h = (subst P f h.1.0, (subst P e h.0, h.1.1))
All-permᴰ P (Permᴰ.trans p q) h = All-permᴰ P q (All-permᴰ P p h)

module _ {ℓ} {A : Type ℓ} {cmp : A → A → Ordering} (o : IsOrder cmp) where
  pub Distinct-permᴰ : {l m : List A} → Permᴰ l m → Distinct cmp l → Distinct cmp m
  Distinct-permᴰ Permᴰ.nil h = tt
  Distinct-permᴰ (Permᴰ.cons {b} e p) h =
      (All-permᴰ (λ y. cmp b y ≢ Ordering.eq) p (rw e at (h.0)), Distinct-permᴰ p h.1)
  Distinct-permᴰ (Permᴰ.swap {a} {b} {l} e f) h =
      subst₂ (λ u v. Distinct cmp (u ∷ v ∷ l)) f e
        ((ground (arith, o.cmp-flip a b, h.0.0), h.1.0), (h.0.1, h.1.1))
  Distinct-permᴰ (Permᴰ.trans p q) h = Distinct-permᴰ q (Distinct-permᴰ p h)

  -- The sorted list does not depend on the order in which the elements came.
  pub sort_func_unique :
      {l m : List A} → Permᴰ l m → Distinct cmp l → sort_func cmp l ≡ sort_func cmp m
  unfolding sort_func
  sort_func_unique Permᴰ.nil h = refl
  sort_func_unique (Permᴰ.cons e p) h = ap₂ (insert cmp) e (sort_func_unique p h.1)
  sort_func_unique (Permᴰ.swap {a} {b} {l} e f) h =
      rw (← e, ← f) (insert_comm o a b (sort_func cmp l) h.0.0)
  sort_func_unique (Permᴰ.trans p q) h =
      sort_func_unique p h ∙ sort_func_unique q (Distinct-permᴰ p h)
