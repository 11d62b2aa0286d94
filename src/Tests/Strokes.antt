-- ===== src/Tests/Strokes.antt =====
-- Numbers printed as strokes, for the tests: a printing that is read back and holds no separator.
use Prim.Native.Char.{char, code}
use go_rest_api_service_temp.Base.{
  ℕ, zero, suc, ◌≡◌, refl, ap, String, true, Option, some, if◌then◌else◌, ◌==◌, arith, free_of, ltb,
}
use go_rest_api_service_temp.Base.Int.{ℤ, pos, negsuc}

-- Printing by strokes: a number is as many strokes, a negative one after a dash.
abbrev pub strokes : ℕ → String
strokes zero = ""
strokes (suc n) = String.◌∷◌ (char 49 tt) (strokes n)

abbrev pub stroke_int : ℤ → String
stroke_int (pos n) = strokes n
stroke_int (negsuc n) = String.◌∷◌ (char 45 tt) (strokes n)

abbrev first : String → ℕ
first String.[] = 0
first (String.◌∷◌ c s) = code c

strokes_inj : (n m : ℕ) → strokes n ≡ strokes m → n ≡ m
strokes_inj zero zero e = refl
strokes_inj zero (suc m) e = cc
strokes_inj (suc n) zero e = cc
strokes_inj (suc n) (suc m) e = ap (λ k. suc k) (strokes_inj n m cc)

strokes_free : (sep : ℕ) → ltb 49 sep ≡ true → (n : ℕ) → free_of sep (strokes n) ≡ true
unfolding free_of
strokes_free sep h zero = refl
strokes_free sep h (suc n) = ground (arith, strokes_free sep h n)

pub stroke_int_inj : (n m : ℤ) → stroke_int n ≡ stroke_int m → n ≡ m
stroke_int_inj (pos n) (pos m) e = ap pos (strokes_inj n m e)
stroke_int_inj (pos zero) (negsuc m) e = cc
stroke_int_inj (pos (suc n)) (negsuc m) e = absurd (omega (arith, ap first e))
stroke_int_inj (negsuc n) (pos zero) e = cc
stroke_int_inj (negsuc n) (pos (suc m)) e = absurd (omega (arith, ap first e))
stroke_int_inj (negsuc n) (negsuc m) e = ap negsuc (strokes_inj n m cc)

pub stroke_int_free : (sep : ℕ) → ltb 49 sep ≡ true → (n : ℤ) → free_of sep (stroke_int n) ≡ true
unfolding free_of
stroke_int_free sep h (pos n) = strokes_free sep h n
stroke_int_free sep h (negsuc n) = ground (arith, strokes_free sep h n)

abbrev count : String → ℕ
count String.[] = 0
count (String.◌∷◌ c s) = suc (count s)

count-strokes : (n : ℕ) → count (strokes n) ≡ n
count-strokes zero = refl
count-strokes (suc n) = ap (λ k. suc k) (count-strokes n)

abbrev pub read_strokes : String → Option ℤ
read_strokes String.[] = some (pos 0)
read_strokes (String.◌∷◌ c s) =
    if code c == 45 then some (negsuc (count s)) else some (pos (suc (count s)))

pub read-stroke_int : (n : ℤ) → read_strokes (stroke_int n) ≡ some n
read-stroke_int (pos zero) = refl
read-stroke_int (pos (suc n)) = ap (λ k. some (pos (suc k))) (count-strokes n)
read-stroke_int (negsuc n) = ap (λ k. some (negsuc k)) (count-strokes n)
