-- ===== src/Scoring/Floats.antt =====
-- float64 as internal/scoring/engine.go uses it. antt has no floating point, so the type and its
-- operations are a parameter; the laws are those of IEEE 754 that the curve relies on. Rounding is
-- monotone, and an operation whose exact result is a whole number of at most 2 ^ 53 returns it.
use osctf.Prelude.{ℕ, ◌*◌, ◌^◌, ◌≤◌, ◌<◌, ◌≡◌}
use osctf.Prelude.Int.{ℤ, pos, ◌≤ℤ◌, ◌-ℤ◌}

-- Whole numbers up to this are represented exactly.
abbrev pub exact_limit : ℕ
exact_limit = 2 ^ 53

pub record Floats : Type 1 where
  pub Float : Type 0
  pub of_int : ℤ → Float  -- float64(i)
  pub sub : Float → Float → Float
  pub mul : Float → Float → Float
  pub div : Float → Float → Float
  pub round : Float → ℤ  -- int(math.Round(x))
  pub Le : Float → Float → Type 0
  -- The conversion to `int` is defined at this value.
  pub HasInt : Float → Type 0
  pub square_mono :
      (m n : ℕ)
      → m ≤ n
      → Le (mul (of_int (pos m)) (of_int (pos m))) (mul (of_int (pos n)) (of_int (pos n)))
  pub square_nonneg : (m : ℕ) → Le (of_int (pos 0)) (mul (of_int (pos m)) (of_int (pos m)))
  pub mul_mono :
      (c : ℕ) (x y : Float)
      → 0 < c
      → Le (of_int (pos 0)) x
      → Le x y
      → Le (mul (of_int (pos c)) x) (mul (of_int (pos c)) y)
  pub mul_nonneg :
      (c : ℕ) (x : Float)
      → 0 < c
      → Le (of_int (pos 0)) x
      → Le (of_int (pos 0)) (mul (of_int (pos c)) x)
  -- Division by the square of a positive whole number.
  pub div_mono :
      (d : ℕ) (x y : Float)
      → 0 < d
      → Le (of_int (pos 0)) x
      → Le x y
      → Le
          (div x (mul (of_int (pos d)) (of_int (pos d))))
          (div y (mul (of_int (pos d)) (of_int (pos d))))
  pub sub_anti : (a : ℤ) (x y : Float) → Le x y → Le (sub (of_int a) y) (sub (of_int a) x)
  pub round_mono : (x y : Float) → HasInt x → HasInt y → Le x y → round x ≤ℤ round y
  pub round_exact : (n : ℕ) → n ≤ exact_limit → round (of_int (pos n)) ≡ pos n
  pub mul_exact :
      (a b : ℕ) → a * b ≤ exact_limit → mul (of_int (pos a)) (of_int (pos b)) ≡ of_int (pos (a * b))
  pub div_exact :
      (a b : ℕ)
      → 0 < b
      → a * b ≤ exact_limit
      → div (of_int (pos (a * b))) (of_int (pos b)) ≡ of_int (pos a)
  pub sub_exact :
      (a b : ℕ)
      → b ≤ a
      → a ≤ exact_limit
      → sub (of_int (pos a)) (of_int (pos b)) ≡ of_int (pos a -ℤ pos b)
