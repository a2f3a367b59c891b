-- ===== src/Authoring/Validation.antt =====
-- internal/challenges/validate.go: validateCreate, by the fields that it reports.
use Prim.Native.String.{String}
use osctf.Prelude.{
  ℕ, Bool, true, false, ◌&&◌, ◌||◌, not, Option, none, some, List, [], ◌∷◌, ◌++◌, if◌then◌else◌,
  ◌==◌, text_key, nat_key, ltb, leb, length,
}
use osctf.Prelude.Int.{ℤ, pos, ltb_ℤ}
use osctf.Submissions.Store.{Text, bytes_key}
use osctf.Authoring.Input.{CreateInput}

pub data Field : Type 0 where
  slug title category difficulty kind type_id flag scoring points_initial points_min decay image
        internal_port :
      Field
  mem_limit_mb cpu_millis max_attempts instancing flag_mode instance_ttl_seconds egress
        writable_paths :
      Field

-- `v.Add`, under a condition.
abbrev pub add_if : Bool → Field → List Field → List Field
add_if bad field rest = if bad then field ∷ rest else rest

abbrev pub is_word : ℕ → Bool
is_word c = (leb 97 c && leb c 122) || (leb 48 c && leb c 57)

-- `slugRe`: words of lower-case letters and digits with one hyphen between two. `fresh` says that a word
-- is to begin.
unfoldable pub is_slug_from : Bool → Text → Bool
is_slug_from fresh [] = not fresh
is_slug_from fresh (c ∷ t) =
    let word = is_slug_from false t in
    let hyphen = is_slug_from true t in if is_word c then word else c == 45 && not fresh && hyphen

abbrev pub is_category : String → Bool
is_category c =
    c == "web" || c == "pwn" || c == "crypto" || c == "rev" || c == "forensics" || c == "misc"

abbrev pub is_difficulty : String → Bool
is_difficulty d = d == "intro" || d == "easy" || d == "medium" || d == "hard" || d == "insane"

abbrev pub bad_difficulty : Option String → Bool
bad_difficulty none = false
bad_difficulty (some d) = not (is_difficulty d)

-- A value that is given is out of bounds.
abbrev pub given_below : ℤ → Option ℤ → Bool
given_below low none = false
given_below low (some v) = ltb_ℤ v low

abbrev pub given_outside : ℤ → ℤ → Option ℤ → Bool
given_outside low high none = false
given_outside low high (some v) = ltb_ℤ v low || ltb_ℤ high v

-- A value is not given, or is out of bounds.
abbrev pub missing_or_below : ℤ → Option ℤ → Bool
missing_or_below low none = true
missing_or_below low (some v) = ltb_ℤ v low

abbrev pub missing_or_outside : ℤ → ℤ → Option ℤ → Bool
missing_or_outside low high none = true
missing_or_outside low high (some v) = ltb_ℤ v low || ltb_ℤ high v

abbrev pub is_above : Option ℤ → ℤ → Bool
is_above none high = false
is_above (some v) high = ltb_ℤ high v

abbrev pub is_missing_text : Option Text → Bool
is_missing_text none = true
is_missing_text (some t) = t == []

abbrev pub is_given {ℓ} : {A : Type ℓ} → Option A → Bool
is_given none = false
is_given (some a) = true

abbrev pub is_off : Option Bool → Bool
is_off none = false
is_off (some b) = not b

-- The first part of `validateCreate`; the registries of types and modes are arguments.
unfoldable pub validate_texts : (String → Bool) → (String → Bool) → CreateInput → List Field
validate_texts is_type is_mode inp = add_if (not (is_slug_from true inp.slug)) slug (
    add_if (ltb (length inp.title) 1 || ltb 200 (length inp.title)) title (
      add_if (not (is_category inp.category)) category (
        add_if (bad_difficulty inp.difficulty) difficulty (
          add_if (not (inp.kind == "standard") && not (inp.kind == "container")) kind (
            add_if (not (is_type inp.type_id)) type_id (
              add_if (ltb (length inp.flag) 1) flag
                (add_if (not (is_mode inp.scoring)) scoring [])))))))

unfoldable pub validate_points : CreateInput → List Field
validate_points inp =
    let dynamic = inp.scoring == "dynamic" in
    add_if (ltb_ℤ inp.points_initial (pos 1)) points_initial (
      add_if (dynamic && missing_or_below (pos 1) inp.points_min) points_min (
        add_if
          (dynamic
            && not (missing_or_below (pos 1) inp.points_min)
            && is_above inp.points_min inp.points_initial)
          points_min (add_if (dynamic && missing_or_below (pos 1) inp.decay) decay [])))

-- With `validateContainerLimits`.
unfoldable pub validate_container : CreateInput → List Field
validate_container inp =
    let container = inp.kind == "container" in
    add_if (container && is_missing_text inp.image) image (
      add_if (container && missing_or_outside (pos 1) (pos 65535) inp.internal_port) internal_port (
        add_if (given_outside (pos 16) (pos 8192) inp.mem_limit_mb) mem_limit_mb (
          add_if (given_outside (pos 100) (pos 8000) inp.cpu_millis) cpu_millis
            (add_if (given_below (pos 1) inp.max_attempts) max_attempts []))))

-- `validateInstancing`
unfoldable pub validate_instancing : CreateInput → List Field
validate_instancing inp =
    let standard = not (inp.kind == "container") in
    add_if
      (not (inp.instancing == "")
        && not (inp.instancing == "shared")
        && not (inp.instancing == "per_team"))
      instancing
      (add_if
        (not (inp.flag_mode == "")
          && not (inp.flag_mode == "static")
          && not (inp.flag_mode == "per_instance"))
        flag_mode
        (add_if (given_below (pos 0) inp.instance_ttl_seconds) instance_ttl_seconds (
          add_if (standard && inp.instancing == "per_team") instancing (
            add_if (standard && inp.flag_mode == "per_instance") flag_mode (
              add_if (standard && is_given inp.instance_ttl_seconds) instance_ttl_seconds (
                add_if (standard && is_off inp.egress) egress
                  (add_if (standard && inp.has_writable) writable_paths [])))))))

-- `validateCreate`
unfoldable pub validate_create : (String → Bool) → (String → Bool) → CreateInput → List Field
validate_create is_type is_mode inp =
    validate_texts is_type is_mode inp
    ++ (validate_points inp ++ (validate_container inp ++ validate_instancing inp))
