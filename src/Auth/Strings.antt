-- ===== src/Auth/Strings.antt =====
-- The string functions of Go that internal/auth uses, on texts of ASCII.
use Prim.Native.String.{String, [] as empty, ◌∷◌ as ◌then◌}
use Prim.Native.Char.{code}
use osctf.Prelude.{
  ℕ, zero, suc, ◌+◌, ◌≤◌, Bool, true, ◌&&◌, ◌||◌, [], ◌∷◌, if◌then◌else◌, ◌==◌, nat_key, leb, arith,
  length,
}
use osctf.Submissions.Store.{Text}

-- A literal.
abbrev pub points : String → Text
points empty = []
points (c then s) = code c ∷ points s

abbrev pub is_between : ℕ → ℕ → ℕ → Bool
is_between low high c = leb low c && leb c high

abbrev pub is_space : ℕ → Bool
is_space c = is_between 9 13 c || c == 32

abbrev pub lower_code : ℕ → ℕ
lower_code c = if is_between 65 90 c then c + 32 else c

-- `strings.ToLower`
abbrev pub to_lower : Text → Text
to_lower [] = []
to_lower (c ∷ t) = lower_code c ∷ to_lower t

abbrev pub trim_left : Text → Text
trim_left [] = []
trim_left (c ∷ t) = let rest = trim_left t in if is_space c then rest else c ∷ t

abbrev pub is_blank : Text → Bool
is_blank [] = true
is_blank (c ∷ t) = is_space c && is_blank t

abbrev pub trim_right : Text → Text
trim_right [] = []
trim_right (c ∷ t) = if is_blank (c ∷ t) then [] else c ∷ trim_right t

-- `strings.TrimSpace`
abbrev pub trim_space : Text → Text
trim_space t = trim_right (trim_left t)

abbrev pub take : ℕ → Text → Text
take zero t = []
take (suc n) [] = []
take (suc n) (c ∷ t) = c ∷ take n t

pub length-take : (n : ℕ) (t : Text) → length (take n t) ≤ n
length-take zero t = omega arith
length-take (suc n) [] = omega arith
length-take (suc n) (c ∷ t) = ground (arith, length-take n t)
