-- ===== src/Scoring/Curve.antt =====
-- Laws of the dynamic curve of internal/scoring/engine.go.
use osctf.Prelude.{ℕ, ◌*◌, ◌≤◌, ◌<◌, ◌≡◌, arith, ap, ◌-◌}
use osctf.Prelude.Int.{ℤ, pos, ◌≤ℤ◌, ◌-ℤ◌, int_laws}
use osctf.Scoring.Floats.{Floats, exact_limit}
use osctf.Scoring.Engine.{ChallengeScoring, decayed, dynamic_value}

-- The dynamic value is never below the minimum, for every parameter, solve count and float
-- operation.
pub min-le-dynamic_value :
    (f : Floats) (p : ChallengeScoring) (solves : ℤ) → p.min_points ≤ℤ dynamic_value f p solves
unfolding dynamic_value
min-le-dynamic_value f p solves = ground arith

-- Parameters that the authoring checks accept, with a curve that is not flat.
abbrev pub params : ℕ → ℕ → ℕ → ChallengeScoring
params i m d = record { initial = pos i; min_points = pos m; decay = pos d }

diff_pos : (i m : ℕ) → m ≤ i → pos i -ℤ pos m ≡ pos (i - m)
diff_pos i m h = omega int_laws

square_pos : (d : ℕ) → 0 < d → 0 < d * d
square_pos d h = grind arith

module _ (f : Floats) (i m d : ℕ) where
  open f use {
    Float, Le, HasInt, of_int, mul, div, sub, round, mul_mono, div_mono, sub_anti, square_mono,
    square_nonneg, mul_nonneg, round_mono, round_exact, mul_exact, div_exact, sub_exact,
  }

  decayed_lem :
      (s : ℕ)
      → m ≤ i
      → decayed f (params i m d) (pos s)
        ≡ sub (of_int (pos i)) (
            div
              (mul (of_int (pos (i - m))) (mul (of_int (pos s)) (of_int (pos s))))
              (mul (of_int (pos d)) (of_int (pos d))))
  unfolding decayed
  decayed_lem s h =
      ap
        (λ c. sub (of_int (pos i)) (
          div (mul (of_int c) (mul (of_int (pos s)) (of_int (pos s))))
            (mul (of_int (pos d)) (of_int (pos d)))))
        (diff_pos i m h)

  decayed_antitone :
      (a b : ℕ)
      → m < i
      → 0 < d
      → a ≤ b
      → Le (decayed f (params i m d) (pos b)) (decayed f (params i m d) (pos a))
  decayed_antitone a b hm hd h =
      rw (decayed_lem a (omega arith), decayed_lem b (omega arith))
        (sub_anti (pos i) _ _ (
          div_mono d _ _ hd (mul_nonneg (i - m) _ (omega arith) (square_nonneg a))
            (mul_mono (i - m) _ _ (omega arith) (square_nonneg a) (square_mono a b h))))

  dynamic_value_pos :
      (s : ℕ) (v : ℤ)
      → 0 < d
      → round (decayed f (params i m d) (pos s)) ≡ v
      → pos m ≤ℤ v
      → dynamic_value f (params i m d) (pos s) ≡ v
  unfolding dynamic_value
  dynamic_value_pos s v hd e h = ground arith

  -- For a positive decay and a minimum below the initial value, more solves never raise the
  -- dynamic value, if the curve can be converted to int at both solve counts, under the laws of
  -- rounding of the float operations.
  pub dynamic_value_antitone :
      (a b : ℕ)
      → m < i
      → 0 < d
      → a ≤ b
      → HasInt (decayed f (params i m d) (pos a))
      → HasInt (decayed f (params i m d) (pos b))
      → dynamic_value f (params i m d) (pos b) ≤ℤ dynamic_value f (params i m d) (pos a)
  unfolding dynamic_value
  dynamic_value_antitone a b hm hd h ra rb = ground (
    arith,
    round_mono (decayed f (params i m d) (pos b)) (decayed f (params i m d) (pos a)) rb ra
        (decayed_antitone a b hm hd h),
  )

  decayed_exact :
      (s q : ℕ)
      → m ≤ i
      → 0 < d * d
      → i ≤ exact_limit
      → s * s ≤ exact_limit
      → (i - m) * (s * s) ≤ exact_limit
      → d * d ≤ exact_limit
      → (i - m) * (s * s) ≡ q * (d * d)
      → q ≤ i
      → decayed f (params i m d) (pos s) ≡ of_int (pos (i - q))
  decayed_exact s q hm hd hi hs hc hdd e hq = rw (
    decayed_lem s hm,
    mul_exact s s hs,
    mul_exact (i - m) (s * s) hc,
    e,
    mul_exact d d hdd,
    div_exact q (d * d) hd (omega arith),
    sub_exact i q hq hi,
    diff_pos i q hq,
  )

  -- For a positive decay, a minimum at most the initial value, and an initial value, squares of
  -- decay and solves and scaled square of the solves of at most 2^53, the dynamic value is
  -- exactly the initial value less q wherever the drop of the curve is a whole number q of at
  -- most initial minus minimum; this covers no solves and solves equal to the decay.
  pub dynamic_value_exact :
      (s q : ℕ)
      → m ≤ i
      → 0 < d
      → i ≤ exact_limit
      → s * s ≤ exact_limit
      → (i - m) * (s * s) ≤ exact_limit
      → d * d ≤ exact_limit
      → (i - m) * (s * s) ≡ q * (d * d)
      → q ≤ i - m
      → dynamic_value f (params i m d) (pos s) ≡ pos (i - q)
  dynamic_value_exact s q hm hd hi hs hc hdd e hq =
      dynamic_value_pos s (pos (i - q)) hd
        (rw (decayed_exact s q hm (square_pos d hd) hi hs hc hdd e (omega arith))
          (round_exact (i - q) (omega arith)))
        (omega arith)
