-- ===== src/Scoring/Engine.antt =====
-- internal/scoring/engine.go, and the mode lookup of registry.go. Go's `int` is 64 bits wide; the
-- parameters come from int32 columns, and the one conversion that can leave the range is `round`.
use Prim.Native.String.{String}
use osctf.Prelude.{Bool, ◌||◌, Option, none, some, [], ◌∷◌, if◌then◌else◌, ◌==◌, text_key}
use osctf.Prelude.Int.{ℤ, pos, ◌-ℤ◌, ltb_ℤ, leb_ℤ}
use osctf.Registry.{Registry, get, new_registry}
use osctf.Scoring.Floats.{Floats}

pub record ChallengeScoring : Type 0 where
  pub initial : ℤ
  pub min_points : ℤ
  pub decay : ℤ

abbrev mode_static : String
mode_static = "static"

abbrev mode_dynamic : String
mode_dynamic = "dynamic"

unfoldable pub is_builtin_mode : String → Bool
is_builtin_mode mode = mode == mode_static || mode == mode_dynamic

-- `ScoringEngine`, by its `Value`.
abbrev pub Engine : Type 0
Engine = ChallengeScoring → ℤ → ℤ

unfoldable pub static_value : Engine
static_value params solves = params.initial

module _ (f : Floats) where
  open f use {Float, of_int, sub, mul, div, round}

  -- `val`: the curve before it is rounded, at a solve count that is not negative.
  unfoldable pub decayed : ChallengeScoring → ℤ → Float
  decayed params solves =
      let s = of_int solves in
      let d = of_int params.decay in
      sub (of_int params.initial)
        (div (mul (of_int (params.initial -ℤ params.min_points)) (mul s s)) (mul d d))

  unfoldable pub dynamic_value : Engine
  dynamic_value params solves =
      let s = if ltb_ℤ solves (pos 0) then pos 0 else solves in
      if leb_ℤ params.decay (pos 0)
      then params.min_points
      else (let rounded = round (decayed params s) in
          if ltb_ℤ rounded params.min_points then params.min_points else rounded)

  -- `defaultRegistry` before any plugin is loaded.
  unfoldable default_registry : Registry Engine
  default_registry = new_registry ((mode_static, static_value) ∷ (mode_dynamic, dynamic_value) ∷ [])

abbrev value_by : Option Engine → Engine
value_by none = static_value
value_by (some e) = e

-- `Registry.Value`: an unknown mode falls back to static.
unfoldable pub value : Registry Engine → String → Engine
value r mode = value_by (get mode r)
