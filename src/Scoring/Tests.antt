-- ===== src/Scoring/Tests.antt =====
-- Runs of the scoring engines, over whole numbers in the place of float64.
use native.Mathlib.Nat.{
  mul-le-mul, mul-le-mul_left, mul-div_cancel, le-div_iff_mul-le, div-mul-le_self,
}
use osctf.Prelude.{ℕ, ◌*◌, ◌/◌, ◌≤◌, ◌<◌, ◌≡◌, refl, ap, arith, suc}
use osctf.Prelude.Int.{ℤ, pos, negsuc, ◌≤ℤ◌, ◌-ℤ◌, int_laws}
use osctf.Scoring.Floats.{Floats, exact_limit}
use osctf.Scoring.Engine.{decayed, dynamic_value}
use osctf.Scoring.Curve.{params, dynamic_value_antitone}

whole_mul : ℤ → ℤ → ℤ
whole_mul (pos a) (pos b) = pos (a * b)
whole_mul (pos a) (negsuc b) = pos 0 -ℤ pos (a * suc b)
whole_mul (negsuc a) (pos b) = pos 0 -ℤ pos (suc a * b)
whole_mul (negsuc a) (negsuc b) = pos (suc a * suc b)

whole_div : ℤ → ℤ → ℤ
whole_div (pos a) (pos b) = pos (a / b)
whole_div (pos a) (negsuc b) = pos 0 -ℤ pos (a / suc b)
whole_div (negsuc a) (pos b) = pos 0 -ℤ pos (suc a / b)
whole_div (negsuc a) (negsuc b) = pos (suc a / suc b)

mul_mono_whole :
    (c : ℕ) (x y : ℤ) → 0 < c → pos 0 ≤ℤ x → x ≤ℤ y → whole_mul (pos c) x ≤ℤ whole_mul (pos c) y
unfolding whole_mul
mul_mono_whole c (pos a) (pos b) hc h k = grind (arith, mul-le-mul_left)
mul_mono_whole c (pos a) (negsuc b) hc h k = absurd (omega arith)
mul_mono_whole c (negsuc a) y hc h k = absurd (omega arith)

mul_nonneg_whole : (c : ℕ) (x : ℤ) → 0 < c → pos 0 ≤ℤ x → pos 0 ≤ℤ whole_mul (pos c) x
unfolding whole_mul
mul_nonneg_whole c (pos a) hc h = omega arith
mul_nonneg_whole c (negsuc a) hc h = absurd (omega arith)

square_pos : (d : ℕ) → 0 < d → 0 < d * d
square_pos d h = grind arith

div-le-div : (k a b : ℕ) → 0 < k → a ≤ b → a / k ≤ b / k
div-le-div k a b hk h = (le-div_iff_mul-le hk).1 (omega (arith, div-mul-le_self a k))

div_mono_whole :
    (d : ℕ) (x y : ℤ)
    → 0 < d
    → pos 0 ≤ℤ x
    → x ≤ℤ y
    → whole_div x (whole_mul (pos d) (pos d)) ≤ℤ whole_div y (whole_mul (pos d) (pos d))
unfolding whole_mul whole_div
div_mono_whole d (pos a) (pos b) hd h k =
    omega (arith, div-le-div (d * d) a b (square_pos d hd) (omega arith))
div_mono_whole d (pos a) (negsuc b) hc h k = absurd (omega arith)
div_mono_whole d (negsuc a) y hc h k = absurd (omega arith)

square_mono_whole : (m n : ℕ) → m ≤ n → whole_mul (pos m) (pos m) ≤ℤ whole_mul (pos n) (pos n)
unfolding whole_mul
square_mono_whole m n h = omega (arith, mul-le-mul h h)

square_nonneg_whole : (m : ℕ) → pos 0 ≤ℤ whole_mul (pos m) (pos m)
unfolding whole_mul
square_nonneg_whole m = omega arith

div_exact_whole : (a b : ℕ) → 0 < b → a * b ≤ exact_limit → whole_div (pos (a * b)) (pos b) ≡ pos a
unfolding whole_div
div_exact_whole a b hb h = ap pos (mul-div_cancel a hb)

mul_exact_whole : (a b : ℕ) → a * b ≤ exact_limit → whole_mul (pos a) (pos b) ≡ pos (a * b)
unfolding whole_mul
mul_exact_whole a b h = refl

sub_anti_whole : (a x y : ℤ) → x ≤ℤ y → a -ℤ y ≤ℤ a -ℤ x
sub_anti_whole a x y h = omega int_laws

abbrev whole_floats : Floats
whole_floats = record {
  Float = ℤ;
  of_int = λ a. a;
  sub = ◌-ℤ◌;
  mul = whole_mul;
  div = whole_div;
  round = λ a. a;
  Le = ◌≤ℤ◌;
  HasInt = λ a. Unit {0};
  square_mono = square_mono_whole;
  square_nonneg = square_nonneg_whole;
  mul_mono = mul_mono_whole;
  mul_nonneg = mul_nonneg_whole;
  div_mono = div_mono_whole;
  sub_anti = sub_anti_whole;
  round_mono = λ x y hx hy h. h;
  round_exact = λ n h. refl;
  mul_exact = mul_exact_whole;
  div_exact = div_exact_whole;
  sub_exact = λ a b h k. refl;
}

halfway : dynamic_value whole_floats (params 500 100 10) (pos 5) ≡ pos 400
unfolding dynamic_value decayed ◌-ℤ◌ whole_mul whole_div
halfway = refl

dynamic_value_antitone_example :
    dynamic_value whole_floats (params 500 100 10) (pos 8)
    ≤ℤ dynamic_value whole_floats (params 500 100 10) (pos 3)
dynamic_value_antitone_example =
    dynamic_value_antitone whole_floats 500 100 10 3 8 (omega arith) (omega arith) (omega arith) tt
      tt
