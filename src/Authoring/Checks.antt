-- ===== src/Authoring/Checks.antt =====
-- internal/db/migrations/0001_init.sql, 0002_dynamic_instances.sql and 0007_plugin_scoring.sql: the CHECK
-- constraints of the table challenges, against what validateCreate lets through.
use Prim.Native.String.{String}
use osctf.Prelude.{
  ◌≡◌, Bool, true, false, ◌&&◌, ◌||◌, not, some, List, [], ◌∷◌, ◌++◌, ◌==◌, text_key, arith, refl,
}
use osctf.Prelude.Int.{pos, ltb_ℤ}
use osctf.Authoring.Input.{CreateInput, InsertedRow, or_default, defaulted, inserted_row, clamp_i32}
use osctf.Authoring.Validation.{
  is_category, bad_difficulty, given_below, given_outside, missing_or_below, is_given,
  validate_texts, validate_points, validate_container, validate_instancing, validate_create,
  is_above,
}

-- category, difficulty and kind
unfoldable pub check_texts : InsertedRow → Bool
check_texts r =
    is_category r.category
    && not (bad_difficulty r.difficulty)
    && (r.kind == "standard" || r.kind == "container")

-- points_initial and chk_challenges_dynamic_fields
unfoldable pub check_points : InsertedRow → Bool
check_points r =
    not (ltb_ℤ r.points_initial (pos 1))
    && (not (r.scoring == "dynamic")
        || not (missing_or_below (pos 1) r.points_min)
          && not (is_above r.points_min r.points_initial)
          && not (missing_or_below (pos 1) r.decay))

-- internal_port
unfoldable pub check_port : InsertedRow → Bool
check_port r = not (given_outside (pos 1) (pos 65535) r.internal_port)

-- max_attempts, mem_limit_mb, cpu_millis and chk_challenges_container_fields
unfoldable pub check_container : InsertedRow → Bool
check_container r =
    not (given_below (pos 1) r.max_attempts)
    && not (given_outside (pos 16) (pos 8192) (some r.mem_limit_mb))
    && not (given_outside (pos 100) (pos 8000) (some r.cpu_millis))
    && (not (r.kind == "container") || is_given r.image && is_given r.internal_port)

-- instancing, flag_mode, instance_ttl_seconds and chk_challenges_instancing_kind
unfoldable pub check_instancing : InsertedRow → Bool
check_instancing r =
    (r.instancing == "shared" || r.instancing == "per_team")
    && (r.flag_mode == "static" || r.flag_mode == "per_instance")
    && not (given_below (pos 0) r.instance_ttl_seconds)
    && (r.kind == "container"
        || r.instancing == "shared"
          && r.flag_mode == "static"
          && not (is_given r.instance_ttl_seconds)
          && r.egress
          && not r.has_writable)

unfoldable pub passes_checks : InsertedRow → Bool
passes_checks r =
    check_texts r && (check_points r && (check_port r && (check_container r && check_instancing r)))

texts_pass :
    (is_type is_mode : String → Bool)
    → (inp : CreateInput) → validate_texts is_type is_mode inp ≡ []
    → check_texts (inserted_row inp) ≡ true
unfolding validate_texts check_texts inserted_row
texts_pass is_type is_mode inp h = ground arith

points_pass :
    (inp : CreateInput) → validate_points inp ≡ [] → check_points (inserted_row inp) ≡ true
unfolding validate_points check_points inserted_row clamp_i32
points_pass inp h = ground arith

container_pass :
    (inp : CreateInput) → validate_container inp ≡ [] → check_container (inserted_row inp) ≡ true
unfolding validate_container check_container inserted_row clamp_i32
container_pass inp h = ground arith

instancing_pass :
    (inp : CreateInput)
    → (inp.instancing == "") ≡ false
    → (inp.flag_mode == "") ≡ false
    → validate_instancing inp ≡ []
    → check_instancing (inserted_row inp) ≡ true
unfolding validate_instancing check_instancing inserted_row clamp_i32
instancing_pass inp hi hf h = ground arith

or_default-filled : (s d : String) → (d == "") ≡ false → (or_default s d == "") ≡ false
or_default-filled s d h = ground arith

filled_instancing_pass :
    (inp : CreateInput)
    → validate_instancing (defaulted inp) ≡ []
    → check_instancing (inserted_row (defaulted inp)) ≡ true
unfolding defaulted
filled_instancing_pass inp h =
    instancing_pass (defaulted inp) (or_default-filled inp.instancing "shared" refl)
      (or_default-filled inp.flag_mode "static" refl) h

nil_left {ℓ} : {A : Type ℓ} → (xs ys : List A) → xs ++ ys ≡ [] → xs ≡ []
nil_left [] ys h = refl
nil_left (x ∷ xs) ys h = ground arith

nil_right {ℓ} : {A : Type ℓ} → (xs ys : List A) → xs ++ ys ≡ [] → ys ≡ []
nil_right [] ys h = h
nil_right (x ∷ xs) ys h = ground arith

and_four :
    (a b p c d : Bool)
    → a ≡ true
    → b ≡ true
    → c ≡ true
    → d ≡ true
    → (a && (b && (p && (c && d)))) ≡ p
and_four a b p c d ha hb hc hd = ground arith

-- For what validateCreate accepts after the defaults of Create, whatever types and modes are
-- registered, the CHECK constraints of the table challenges hold of the inserted row exactly if
-- its internal_port is absent or from 1 to 65535: no other constraint refuses it.
pub validate_create-passes_checks :
    (is_type is_mode : String → Bool)
    → (inp : CreateInput) → validate_create is_type is_mode (defaulted inp) ≡ []
    → passes_checks (inserted_row (defaulted inp)) ≡ check_port (inserted_row (defaulted inp))
unfolding validate_create passes_checks
validate_create-passes_checks is_type is_mode inp h =
    let d = defaulted inp in
    let after_texts = nil_right (validate_texts is_type is_mode d) _ h in
    let after_points = nil_right (validate_points d) _ after_texts in
    let r = inserted_row d in
    and_four (check_texts r) (check_points r) (check_port r) (check_container r)
      (check_instancing r)
      (texts_pass is_type is_mode d (nil_left (validate_texts is_type is_mode d) _ h))
      (points_pass d (nil_left (validate_points d) _ after_texts))
      (container_pass d (nil_left (validate_container d) _ after_points))
      (filled_instancing_pass inp (nil_right (validate_container d) _ after_points))
