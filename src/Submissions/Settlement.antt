-- ===== src/Submissions/Settlement.antt =====
-- What follows the transaction in Submit of internal/submissions/service.go, and Submit whole.
use Prim.Native.String.{String}
use osctf.Prelude.{
  Result, err, ok, ℕ, ◌-◌, ◌%◌, ◌^◌, Bool, true, false, not, Option, none, some, List, [], ◌∷◌,
  ◌++◌, if◌then◌else◌, nat_key, text_key, ltb,
}
use osctf.Prelude.Int.{ℤ, pos, negsuc}
use osctf.Scoring.Engine.{ChallengeScoring, is_builtin_mode, value}
use osctf.Submissions.Store.{bytes_key, Challenge, Db, challenge_solves, record_score}
use osctf.Submissions.Request.{Env, Input, Scored, count_solves, internal, write_score, Error}
use osctf.Submissions.Admission.{admit}
use osctf.Submissions.Transaction.{Attempted, attempt}

-- The conversion of an `int` to `int32`.
unfoldable pub to_int32 : ℤ → ℤ
to_int32 (pos n) = let m = n % 2 ^ 32 in if ltb m (2 ^ 31) then pos m else negsuc (2 ^ 32 - 1 - m)
to_int32 (negsuc n) =
    let m = n % 2 ^ 32 in if ltb m (2 ^ 31) then negsuc m else pos (2 ^ 32 - 1 - m)

abbrev value_or_zero : Option ℤ → ℤ
value_or_zero none = pos 0
value_or_zero (some v) = v

-- `scoreParams`
abbrev pub score_params : Challenge → ChallengeScoring
score_params c = record {
  initial = c.points_initial;
  min_points = value_or_zero c.points_min;
  decay = value_or_zero c.decay;
}

abbrev ask : Option (String → ChallengeScoring → ℤ → Scored) → Challenge → ℕ → Scored
ask none ch count = record { points = pos 0; by = "pending"; has_value = false }
ask (some score) ch count = score ch.scoring (score_params ch) (pos count)

abbrev pub recorded_value : Scored → Option ℤ
recorded_value s = if s.has_value then some (to_int32 s.points) else none

-- The reply to the participant.
pub record Reply : Type 0 where
  pub is_correct : Bool
  pub shown_points : Option ℤ
  pub is_pending : Bool

-- What leaves the request besides the reply: the signal of a shared flag
-- (team, challenge, owner), and the domain event (solve, team, user, challenge).
pub data Effect : Type 0 where
  flag_shared : ℕ → ℕ → ℕ → Effect
  challenge_solved : ℕ → ℕ → ℕ → ℕ → Effect

-- `recordPluginScore`
unfoldable pub record_plugin_score : Env → ℕ → Challenge → ℕ → Db → Db × (ℤ × Bool)
record_plugin_score env id ch count db =
    let s = ask env.scorer ch count in
    (
      (if env.faults write_score
          then db
          else record db { submissions = record_score id (recorded_value s) s.by db.submissions }),
      (s.points, not s.has_value),
    )

abbrev share_effects : Challenge → Input → Option ℕ → List Effect
share_effects ch inp none = []
share_effects ch inp (some owner) = flag_shared inp.team_id ch.id owner ∷ []

abbrev solved_effects : Env → Challenge → Input → ℕ → List Effect
solved_effects env ch inp id =
    if env.has_bus then challenge_solved id inp.team_id inp.user_id ch.id ∷ [] else []

-- The points of a correct submission, after its commit.
unfoldable pub score_solve : Env → Challenge → ℕ → Db → Db × Reply
score_solve env ch id db =
    let count = challenge_solves ch.id db.submissions in
    if is_builtin_mode ch.scoring
    then (
      db,
      record {
        is_correct = true;
        shown_points = some (value env.engines ch.scoring (score_params ch) (pos count));
        is_pending = false;
      },
    )
    else (let (db', shown) = record_plugin_score env id ch count db in
        (db', record { is_correct = true; shown_points = some shown.0; is_pending = shown.1 }))

-- What Submit does after the commit.
unfoldable pub settle :
    Env → Challenge → Input → Attempted → Db → Db × Result Error Reply × List Effect
settle env ch inp a db =
    let shared = share_effects ch inp a.shared_with in
    if a.correct
    then (if env.faults count_solves
        then (db, err internal, shared)
        else (let (db', reply) = score_solve env ch a.submission_id db in
            (db', ok reply, shared ++ solved_effects env ch inp a.submission_id)))
    else (db, ok (record { is_correct = false; shown_points = none; is_pending = false }), shared)

abbrev pub settled :
    Env → Challenge → Input → Db × Result Error Attempted → Db × Result Error Reply × List Effect
settled env ch inp (db, ok a) = settle env ch inp a db
settled env ch inp (db, err e) = (db, err e, [])

abbrev pub submitted :
    Env
    → Input
    → Db
    → Result Error (Challenge × Option Bool)
    → Db × Result Error Reply × List Effect
submitted env inp db (ok (ch, verdict)) = settled env ch inp (attempt env ch verdict inp db)
submitted env inp db (err e) = (db, err e, [])

-- `Submit`, with no other request between its parts.
unfoldable pub submit : Env → Input → Db → Db × Result Error Reply × List Effect
submit env inp db = submitted env inp db (admit env inp db)
