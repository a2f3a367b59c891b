-- ===== src/Authoring/Tests.antt =====
-- The validation and the constraints of internal/challenges at examples.
use osctf.Prelude.{◌≡◌, refl, true, false, none, some, [], ◌∷◌, Bool}
use Prim.Native.String.{String}
use osctf.Prelude.Int.{ℤ, pos}
use osctf.Submissions.Store.{text_beq}
use osctf.Authoring.Input.{CreateInput, defaulted, inserted_row, clamp_i32}
use osctf.Authoring.Validation.{
  validate_create, validate_texts, validate_points, validate_container, validate_instancing,
  is_slug_from,
}
use osctf.Authoring.Checks.{
  passes_checks, check_texts, check_points, check_port, check_container, check_instancing,
  validate_create-passes_checks,
}

abbrev ported : ℤ → String → CreateInput
ported port kind = record {
  slug = 97 ∷ 45 ∷ 49 ∷ [];
  title = 65 ∷ [];
  category = "web";
  difficulty = some "easy";
  kind = kind;
  type_id = "";
  flag = 102 ∷ [];
  scoring = "";
  points_initial = pos 500;
  points_min = some (pos 100);
  decay = some (pos 20);
  max_attempts = none;
  image = some (105 ∷ []);
  internal_port = some port;
  mem_limit_mb = none;
  cpu_millis = some (pos 200);
  instancing = "";
  flag_mode = "";
  instance_ttl_seconds = none;
  egress = none;
  has_writable = false;
}

abbrev any : String → Bool
any s = true

-- A standard challenge with a port that the table refuses is not held back by the validation.
stray_port : validate_create any any (defaulted (ported (pos 70000) "standard")) ≡ []
unfolding validate_create validate_texts validate_points validate_container validate_instancing
    is_slug_from defaulted
stray_port = refl

stray_port_refused :
    passes_checks (inserted_row (defaulted (ported (pos 70000) "standard"))) ≡ false
unfolding passes_checks check_texts check_points check_port check_container check_instancing
    inserted_row defaulted clamp_i32
stray_port_refused = refl

accepted : validate_create any any (defaulted (ported (pos 8080) "container")) ≡ []
unfolding validate_create validate_texts validate_points validate_container validate_instancing
    is_slug_from defaulted text_beq
accepted = refl

validate_create-passes_checks_example :
    passes_checks (inserted_row (defaulted (ported (pos 8080) "container")))
    ≡ check_port (inserted_row (defaulted (ported (pos 8080) "container")))
validate_create-passes_checks_example =
    validate_create-passes_checks any any (ported (pos 8080) "container") accepted
