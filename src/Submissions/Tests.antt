-- ===== src/Submissions/Tests.antt =====
-- Runs of the submission path, and its theorems at concrete inputs.
use mathlib.Core.List.{Memᴰ}
use osctf.Prelude.{
  ok, err, ℕ, ◌≤◌, ◌≡◌, ◌≢◌, ◌⊎◌, inr, refl, true, false, none, some, [], ◌∷◌, arith, length,
  lookup, insert,
}
use osctf.Prelude.Int.{pos}
use osctf.Registry.{Registry, new_registry, get}
use osctf.Scoring.Engine.{Engine, static_value, value, is_builtin_mode}
use osctf.Events.{Event, phase}
use osctf.Submissions.Store.{
  Text, Challenge, Instance, Db, text_beq, challenge_by_id, challenge_by_slug, team_instance,
  instance_by_flag, team_solves, team_attempts,
}
use osctf.Submissions.Request.{
  Env, Input, count_solves, unavailable, internal, Error, already_solved,
}
use osctf.Submissions.Admission.{admit, plugin_verdict}
use osctf.Submissions.Transaction.{
  attempt, check_attempt, log_attempt, decide, compare_flag, compare_per_instance,
  create_submission, stored_flag, row_of,
}
use osctf.Submissions.Settlement.{Reply, Effect, submit, settle, score_solve}
use osctf.Submissions.Attempt.{OneSolve, attempt_void}
use osctf.Submissions.Secrets.{OneInstance, attempt_secret}
use osctf.Submissions.History.{
  Reach, here, next, requests, tries, Reach-OneSolve, none_yet, one_more, Requests-limit,
}
use osctf.Submissions.Points.{submit_accepted, submit_failed, Admitted}

abbrev ctf : Event
ctf = record { name = []; description = []; starts_at = 10; ends_at = 90; freeze_at = none }

abbrev engines : Registry Engine
engines = new_registry (("static", static_value) ∷ [])

abbrev env : Env
env = record {
  now = 50;
  event = some ctf;
  faults = λ c. false;
  checkers = none;
  scorer = none;
  engines = engines;
  new_id = some 900;
  has_bus = true;
  to_lower = λ t. t;
}

-- Flag 7 8 9, two attempts.
abbrev warmup : Challenge
warmup = record {
  id = 1;
  slug = 5 ∷ [];
  visible = true;
  kind_type = "standard";
  updated_at = 3;
  max_attempts = some 2;
  flag_mode = "static";
  flag = 7 ∷ 8 ∷ 9 ∷ [];
  flag_case_insensitive = false;
  scoring = "static";
  points_initial = pos 100;
  points_min = none;
  decay = none;
  type_config = [];
}

-- Each team has a flag of its own.
abbrev private_box : Challenge
private_box = record warmup { id = 2; slug = 6 ∷ []; flag_mode = "per_instance" }

abbrev box_of : ℕ → Text → Instance
box_of team flag = record { challenge_id = 2; team_id = some team; flag = some flag }

abbrev db : Db
db = record {
  challenges = warmup ∷ private_box ∷ [];
  submissions = [];
  instances = box_of 40 (4 ∷ []) ∷ box_of 41 (1 ∷ []) ∷ [];
}

abbrev guess : ℕ → Text → Text → Input
guess team slug flag = record {
  user_id = 70;
  team_id = team;
  slug = slug;
  flag = flag;
  is_team_banned = false;
  bypass_window = false;
}

abbrev right : Input
right = guess 40 (5 ∷ []) (7 ∷ 8 ∷ 9 ∷ [])

abbrev shared : Input
shared = guess 40 (6 ∷ []) (1 ∷ [])

-- The flag of the other team's instance is logged redacted, with its owner.
shared_redacted : attempt env private_box none shared db ≡ (
  record db { submissions = row_of 900 private_box shared false (some 41) ∷ [] },
  ok (record { correct = false; submission_id = 900; shared_with = some 41 }),
)
unfolding attempt check_attempt log_attempt decide compare_per_instance create_submission
    stored_flag challenge_by_id text_beq team_instance instance_by_flag
shared_redacted = refl

abbrev solved_db : Db
solved_db = record db { submissions = row_of 900 warmup right true none ∷ [] }

abbrev solved_reply : Reply
solved_reply = record { is_correct = true; shown_points = some (pos 100); is_pending = false }

right_solves :
    submit env right db ≡ (solved_db, ok solved_reply, Effect.challenge_solved 900 40 70 1 ∷ [])
unfolding submit admit plugin_verdict phase challenge_by_slug attempt check_attempt log_attempt
    decide compare_flag create_submission stored_flag challenge_by_id text_beq settle score_solve
    is_builtin_mode value get new_registry lookup insert static_value
right_solves = refl

second_solve_refused : (submit env right solved_db).1 ≡ err already_solved
unfolding submit admit plugin_verdict phase challenge_by_slug attempt check_attempt challenge_by_id
    text_beq
second_solve_refused = refl

db-OneSolve : OneSolve []
db-OneSolve c t = omega arith

solved-OneSolve : OneSolve solved_db.submissions
solved-OneSolve c t = ground arith

submit_accepted_example :
    (ch : Challenge) × (Admitted env right db ch)
    × (length solved_db.submissions ≡ 1)
    × (team_solves ch.id 40 db.submissions ≡ 0)
    × (team_solves ch.id 40 solved_db.submissions ≡ 1)
submit_accepted_example = submit_accepted env right db solved_db solved_reply _ right_solves

submit_failed_example :
    (solved_db ≡ solved_db)
    ⊎ (◌≡◌ {A = Error} already_solved internal × (env.faults count_solves ≡ true))
unfolding submit admit plugin_verdict phase challenge_by_slug attempt check_attempt challenge_by_id
    text_beq
submit_failed_example = submit_failed env right solved_db solved_db already_solved [] refl

-- Two requests of one team that were both admitted before either had been logged.
race : Reach db (attempt env warmup none right (attempt env warmup none right db).0).0
race =
    next (next here (requests (tries env warmup none right db)))
      (requests (tries env warmup none right (attempt env warmup none right db).0))

Reach-OneSolve_example :
    OneSolve (attempt env warmup none right (attempt env warmup none right db).0).0.submissions
Reach-OneSolve_example = Reach-OneSolve race db-OneSolve

abbrev wrong : Input
wrong = guess 40 (5 ∷ []) (7 ∷ [])

Requests-limit_example :
    (challenge_by_id 1 (attempt env warmup none wrong (attempt env warmup none wrong db).0).0
      ≡ some warmup)
    × (team_attempts 1 40
          (attempt env warmup none wrong (attempt env warmup none wrong db).0).0.submissions
        ≤ 2)
unfolding challenge_by_id
Requests-limit_example =
    Requests-limit
      (one_more (one_more none_yet (tries env warmup none wrong db))
        (tries env warmup none wrong (attempt env warmup none wrong db).0))
      1 40 2 warmup refl refl (omega arith)

abbrev stale : Challenge
stale = record warmup { updated_at = 2 }

attempt_void_example : attempt env stale (some true) right solved_db ≡ (solved_db, err unavailable)
unfolding challenge_by_id
attempt_void_example =
    attempt_void env stale true right solved_db refl refl (λ l h. inr (ground (arith, h)))

db-OneInstance : OneInstance db.instances
unfolding team_instance
db-OneInstance i t (Memᴰ.head e) h = ground arith
db-OneInstance i t (Memᴰ.tail (Memᴰ.head e)) h = ground arith
db-OneInstance i t (Memᴰ.tail (Memᴰ.tail m)) h = elim m [ ]

attempt_secret_example : (row_of 900 private_box shared false (some 41)).provided ≢ 1 ∷ []
unfolding challenge_by_id
attempt_secret_example =
    attempt_secret env private_box shared db _ _ private_box
      (row_of 900 private_box shared false (some 41)) (box_of 41 (1 ∷ [])) 41 (1 ∷ [])
      db-OneInstance refl refl shared_redacted refl (Memᴰ.tail (Memᴰ.head refl)) refl refl refl
      (λ e. cc)
