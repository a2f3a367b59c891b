-- ===== src/Authoring/Input.antt =====
-- internal/challenges/admin.go: the input of Create with its defaults, and the row that is inserted.
use Prim.Native.String.{String}
use osctf.Prelude.{Bool, true, Option, none, some, if◌then◌else◌, ◌==◌, text_key, ltb}
use osctf.Prelude.Int.{ℤ, pos, negsuc}
use osctf.Submissions.Store.{Text}

-- `CreateInput`, less the texts that nothing checks; the slug is the one that was given or derived.
pub record CreateInput : Type 0 where
  pub slug : Text
  pub title : Text
  pub category : String
  pub difficulty : Option String
  pub kind : String
  pub type_id : String
  pub flag : Text
  pub scoring : String
  pub points_initial : ℤ
  pub points_min : Option ℤ
  pub decay : Option ℤ
  pub max_attempts : Option ℤ
  pub image : Option Text
  pub internal_port : Option ℤ
  pub mem_limit_mb : Option ℤ
  pub cpu_millis : Option ℤ
  pub instancing : String
  pub flag_mode : String
  pub instance_ttl_seconds : Option ℤ
  pub egress : Option Bool
  pub has_writable : Bool

abbrev pub or_default : String → String → String
or_default s d = if s == "" then d else s

-- The defaults that `Create` fills in.
unfoldable pub defaulted : CreateInput → CreateInput
defaulted inp = record inp {
  kind = or_default inp.kind "standard";
  type_id = or_default inp.type_id "standard";
  scoring = or_default inp.scoring "dynamic";
  instancing = or_default inp.instancing "shared";
  flag_mode = or_default inp.flag_mode "static";
}

-- `clampI32`
unfoldable pub clamp_i32 : ℤ → ℤ
clamp_i32 (pos n) = if ltb 2147483647 n then pos 2147483647 else pos n
clamp_i32 (negsuc n) = if ltb 2147483647 n then negsuc 2147483647 else negsuc n

-- `i32p`
abbrev pub i32p : Option ℤ → Option ℤ
i32p none = none
i32p (some v) = some (clamp_i32 v)

-- The columns of the inserted row that the database checks.
pub record InsertedRow : Type 0 where
  pub category : String
  pub difficulty : Option String
  pub kind : String
  pub scoring : String
  pub points_initial : ℤ
  pub points_min : Option ℤ
  pub decay : Option ℤ
  pub max_attempts : Option ℤ
  pub image : Option Text
  pub internal_port : Option ℤ
  pub mem_limit_mb : ℤ
  pub cpu_millis : ℤ
  pub instancing : String
  pub flag_mode : String
  pub instance_ttl_seconds : Option ℤ
  pub egress : Bool
  pub has_writable : Bool

abbrev pub int_or : Option ℤ → ℤ → ℤ
int_or none d = d
int_or (some v) d = clamp_i32 v

abbrev pub bool_or : Option Bool → Bool → Bool
bool_or none d = d
bool_or (some b) d = b

-- The parameters of `CreateChallenge`.
unfoldable pub inserted_row : CreateInput → InsertedRow
inserted_row inp = record {
  category = inp.category;
  difficulty = inp.difficulty;
  kind = inp.kind;
  scoring = inp.scoring;
  points_initial = clamp_i32 inp.points_initial;
  points_min = i32p inp.points_min;
  decay = i32p inp.decay;
  max_attempts = i32p inp.max_attempts;
  image = inp.image;
  internal_port = i32p inp.internal_port;
  mem_limit_mb = int_or inp.mem_limit_mb (pos 256);
  cpu_millis = int_or inp.cpu_millis (pos 500);
  instancing = inp.instancing;
  flag_mode = inp.flag_mode;
  instance_ttl_seconds = i32p inp.instance_ttl_seconds;
  egress = bool_or inp.egress true;
  has_writable = inp.has_writable;
}
