-- ===== src/Submissions/RepairTests.antt =====
-- Passes of the score repair at concrete inputs.
use osctf.Prelude.{
  if◌then◌else◌, ℕ, ◌≡◌, ◌==◌, nat_key, refl, true, false, none, some, [], ◌∷◌, arith, lookup,
  insert,
}
use Prim.Native.String.{String}
use osctf.Prelude.Int.{ℤ, pos}
use osctf.Scoring.Engine.{ChallengeScoring, is_builtin_mode}
use osctf.Submissions.Store.{Challenge, Submission, Db, challenge_by_id, record_score}
use osctf.Submissions.Request.{Scored}
use osctf.Submissions.Repair.{
  RepairEnv, is_unrecorded, needing_score, take, missing_count, write_record, repair_row,
  repair_rows, repair_once,
}
use osctf.Submissions.Backfill.{missing_count-repair_once}

abbrev quiz : ℕ → Challenge
quiz id = record {
  id = id;
  slug = id ∷ [];
  visible = true;
  kind_type = "standard";
  updated_at = 0;
  max_attempts = none;
  flag_mode = "static";
  flag = [];
  flag_case_insensitive = false;
  scoring = "plugin";
  points_initial = pos 100;
  points_min = none;
  decay = none;
  type_config = [];
}

abbrev solve : ℕ → ℕ → Submission
solve id challenge = record {
  id = id;
  challenge_id = challenge;
  team_id = 40;
  user_id = 70;
  provided = [];
  correct = true;
  scored_value = none;
  scored_by = none;
}

abbrev unscored : Db
unscored = record {
  challenges = quiz 1 ∷ quiz 2 ∷ [];
  submissions = solve 900 1 ∷ solve 901 2 ∷ [];
  instances = [];
}

-- The plugin values every solve at 30.
abbrev thirty : ℕ → String → ChallengeScoring → ℤ → Scored
thirty id mode params count = record { points = pos 30; by = mode; has_value = true }

-- The plugin of submission 900 is down.
abbrev one_down : ℕ → String → ChallengeScoring → ℤ → Scored
one_down id mode params count = record {
  points = if id == 900 then pos 0 else pos 30;
  by = if id == 900 then "pending" else mode;
  has_value = if id == 900 then false else true;
}

abbrev calm : (ℕ → String → ChallengeScoring → ℤ → Scored) → RepairEnv
calm score = record {
  scorer = some score;
  list_fails = false;
  count_fails = λ id. false;
  write_fails = λ id. false;
}

fills_both : (repair_once (calm thirty) 200 unscored).1 ≡ some 2
unfolding repair_once repair_rows repair_row write_record needing_score take is_builtin_mode
    challenge_by_id lookup insert record_score
fills_both = refl

-- With a batch of one, a solve whose plugin stays down keeps the next one from ever being reached.
starved :
    let first_pass = (repair_once (calm one_down) 1 unscored).0 in
    ((repair_once (calm one_down) 1 first_pass).0 ≡ first_pass) × (missing_count first_pass ≡ 1)
unfolding repair_once repair_rows repair_row write_record needing_score take is_builtin_mode
    challenge_by_id lookup insert missing_count is_unrecorded record_score
starved = (refl, refl)

missing_count-repair_once_example : missing_count (repair_once (calm one_down) 200 unscored).0 ≡ 0
unfolding needing_score is_builtin_mode challenge_by_id
missing_count-repair_once_example =
    missing_count-repair_once (calm one_down) one_down 200 unscored refl refl (λ id. refl)
      (λ id. refl) (omega arith)
