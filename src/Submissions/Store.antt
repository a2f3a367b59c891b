-- ===== src/Submissions/Store.antt =====
-- The tables that a submission reads and writes, and the queries of internal/db/queries that it
-- runs on them. Identifiers are numbers, texts are lists of code points.
use Prim.Native.String.{String}
use osctf.Prelude.{
  ℕ, Bool, true, false, ◌&&◌, not, Option, none, some, List, [], ◌∷◌, if◌then◌else◌, ◌==◌, tally,
  nat_key, text_key, Key, ◌≡◌, ◌↔◌, refl, arith,
}
use osctf.Prelude.Int.{ℤ}

abbrev pub Text : Type 0
Text = List ℕ

unfoldable pub text_beq : Text → Text → Bool
text_beq [] [] = true
text_beq (a ∷ s) (b ∷ t) = a == b && text_beq s t
text_beq [] (b ∷ t) = false
text_beq (a ∷ s) [] = false

-- `gen.Challenge`, the columns that the submission path reads.
pub record Challenge : Type 0 where
  pub id : ℕ
  pub slug : Text
  pub visible : Bool
  pub kind_type : String
  pub updated_at : ℕ
  pub max_attempts : Option ℕ
  pub flag_mode : String
  pub flag : Text
  pub flag_case_insensitive : Bool
  pub scoring : String
  pub points_initial : ℤ
  pub points_min : Option ℤ
  pub decay : Option ℤ
  pub type_config : List (Text × Text)

-- A row of `submissions`.
pub record Submission : Type 0 where
  pub id : ℕ
  pub challenge_id : ℕ
  pub team_id : ℕ
  pub user_id : ℕ
  pub provided : Text
  pub correct : Bool
  pub scored_value : Option ℤ
  pub scored_by : Option String

-- A row of `instances`, the columns that the submission path reads.
pub record Instance : Type 0 where
  pub challenge_id : ℕ
  pub team_id : Option ℕ
  pub flag : Option Text

pub record Db : Type 0 where
  pub challenges : List Challenge
  pub submissions : List Submission
  pub instances : List Instance

module _ {ℓ} {A : Type ℓ} where
  -- The first row that passes a test: a `:one` query.
  abbrev pub first : (A → Bool) → List A → Option A
  first p [] = none
  first p (x ∷ xs) = if p x then some x else first p xs

-- `GetChallengeBySlug`
unfoldable pub challenge_by_slug : Text → Db → Option Challenge
challenge_by_slug slug db = first (λ c. text_beq c.slug slug) db.challenges

-- `GetChallengeForUpdate`
unfoldable pub challenge_by_id : ℕ → Db → Option Challenge
challenge_by_id id db = first (λ c. c.id == id) db.challenges

abbrev pub by_team : ℕ → ℕ → Submission → Bool
by_team challenge team s = s.challenge_id == challenge && s.team_id == team

abbrev pub solves : ℕ → ℕ → Submission → Bool
solves challenge team s = by_team challenge team s && s.correct

-- `CountTeamAttempts`
abbrev pub team_attempts : ℕ → ℕ → List Submission → ℕ
team_attempts challenge team = tally (by_team challenge team)

abbrev pub team_solves : ℕ → ℕ → List Submission → ℕ
team_solves challenge team = tally (solves challenge team)

abbrev is_positive : ℕ → Bool
is_positive n = not (n == 0)

-- `HasTeamSolved`
abbrev pub has_solved : ℕ → ℕ → List Submission → Bool
has_solved challenge team log = is_positive (team_solves challenge team log)

-- `CountChallengeSolves`
abbrev pub challenge_solves : ℕ → List Submission → ℕ
challenge_solves challenge = tally (λ s. s.challenge_id == challenge && s.correct)

abbrev is_team : Option ℕ → ℕ → Bool
is_team none team = false
is_team (some t) team = t == team

-- `GetTeamInstance`
unfoldable pub team_instance : ℕ → ℕ → List Instance → Option Instance
team_instance challenge team = first (λ i. i.challenge_id == challenge && is_team i.team_id team)

abbrev pub has_flag : Option Text → Text → Bool
has_flag none flag = false
has_flag (some f) flag = text_beq f flag

abbrev pub is_owned : Option ℕ → Bool
is_owned none = false
is_owned (some t) = true

-- `FindInstanceByFlag`
unfoldable pub instance_by_flag : ℕ → Text → List Instance → Option Instance
instance_by_flag challenge flag =
    first (λ i. i.challenge_id == challenge && has_flag i.flag flag && is_owned i.team_id)

-- `RecordScore`: it writes a value once, on a correct submission.
abbrev pub is_unscored : Option ℤ → Bool
is_unscored none = true
is_unscored (some v) = false

abbrev pub needs_score : ℕ → Submission → Bool
needs_score id s = s.id == id && s.correct && is_unscored s.scored_value

abbrev scored : Option ℤ → String → Submission → Submission
scored value by s = record s { scored_value = value; scored_by = some by }

unfoldable pub record_score : ℕ → Option ℤ → String → List Submission → List Submission
record_score id value by [] = []
record_score id value by (s ∷ log) =
    (if needs_score id s then scored value by s else s) ∷ record_score id value by log

pub text_beq_iff : (s t : Text) → (text_beq s t ≡ true) ↔ (s ≡ t)
unfolding text_beq
text_beq_iff [] [] = (λ h. refl, λ h. refl)
text_beq_iff (a ∷ s) (b ∷ t) = ground (arith, text_beq_iff s t)
text_beq_iff [] (b ∷ t) = (λ h. cc, λ h. cc)
text_beq_iff (a ∷ s) [] = (λ h. cc, λ h. cc)

instance abbrev pub bytes_key : Key Text
bytes_key = record { same = text_beq; same_iff = text_beq_iff }
