-- ===== src/Submissions/Transaction.antt =====
-- The transaction of Submit of internal/submissions/service.go. A failed commit is taken to have
-- rolled back.
use osctf.Prelude.{
  Result, err, fail_if, ok, or_fail, ◌>>=◌, ◌>>◌, ℕ, Bool, true, false, ◌&&◌, ◌||◌, not, Option,
  none, some, List, [], ◌∷◌, ◌++◌, if◌then◌else◌, ◌==◌, nat_key, text_key, leb,
}
use osctf.Submissions.Store.{
  Text, bytes_key, Challenge, Submission, Instance, Db, challenge_by_id, has_solved, team_attempts,
  team_instance, instance_by_flag,
}
use osctf.Submissions.Request.{
  Env, Error, Input, already_solved, begin, commit, count_attempts, find_flag, get_instance,
  insert_row, internal, lock, no_attempts, solved_check, start_first, unavailable,
}

-- `compareFlag`
unfoldable pub compare_flag : (Text → Text) → Text → Text → Bool → Bool
compare_flag to_lower provided actual case_insensitive =
    if case_insensitive then to_lower provided == to_lower actual else provided == actual

abbrev flag_or_empty : Option Text → Text
flag_or_empty none = []
flag_or_empty (some f) = f

abbrev other_owner : ℕ → Option ℕ → Option ℕ
other_owner team none = none
other_owner team (some t) = if t == team then none else some t

abbrev sharing_owner : ℕ → Option Instance → Option ℕ
sharing_owner team none = none
sharing_owner team (some i) = other_owner team i.team_id

-- `comparePerInstance`: whether the flag is right, and the other team whose flag it is.
unfoldable pub compare_per_instance : Env → ℕ → Input → Db → Result Error (Bool × Option ℕ)
unfolding compare_flag
compare_per_instance env challenge inp db = do
  fail_if (env.faults get_instance) internal
  inst ← or_fail (team_instance challenge inp.team_id db.instances) start_first
  if compare_flag env.to_lower inp.flag (flag_or_empty inst.flag) false
      then ok (true, none)
      else (do
        fail_if (env.faults find_flag) internal
        ok (false, sharing_owner inp.team_id (instance_by_flag challenge inp.flag db.instances)))

abbrev pub is_per_instance : Challenge → Bool
is_per_instance c = c.flag_mode == "per_instance"

-- The `switch` on how correctness is decided.
unfoldable pub decide : Env → Challenge → Option Bool → Input → Db → Result Error (Bool × Option ℕ)
decide env locked (some verdict) inp db = ok (verdict, none)
decide env locked none inp db =
    if is_per_instance locked
    then compare_per_instance env locked.id inp db
    else ok (compare_flag env.to_lower inp.flag locked.flag locked.flag_case_insensitive, none)

abbrev is_some {ℓ} : {A : Type ℓ} → Option A → Bool
is_some none = false
is_some (some a) = true

-- "[redacted per-instance flag]", as the code points of the constant.
abbrev pub redacted_flag : Text
redacted_flag =
    91 ∷ 114 ∷ 101 ∷ 100 ∷ 97 ∷ 99 ∷ 116 ∷ 101 ∷ 100 ∷ 32 ∷ 112 ∷ 101 ∷ 114 ∷ 45 ∷ 105 ∷ 110 ∷ 115
    ∷ 116 ∷ 97 ∷ 110 ∷ 99 ∷ 101 ∷ 32 ∷ 102 ∷ 108 ∷ 97 ∷ 103 ∷ 93 ∷ []

-- What is stored as `provided`.
unfoldable pub stored_flag : Challenge → Bool → Option ℕ → Text → Text
stored_flag locked correct owner flag =
    if is_per_instance locked && (correct || is_some owner) then redacted_flag else flag

-- What a committed attempt hands on to `settle`.
pub record Attempted : Type 0 where
  pub correct : Bool
  pub submission_id : ℕ
  pub shared_with : Option ℕ

abbrev pub limit_reached : Option ℕ → ℕ → Bool
limit_reached none attempts = false
limit_reached (some max) attempts = leb max attempts

-- The plugin's verdict was given on another version of the row.
abbrev pub is_void : Challenge → Challenge → Option Bool → Bool
is_void ch locked none = false
is_void ch locked (some verdict) =
    not (locked.kind_type == ch.kind_type) || not (locked.updated_at == ch.updated_at)

abbrev missing_row : Option Bool → Error
missing_row none = internal
missing_row (some verdict) = unavailable

-- `CreateSubmission`, under the partial unique index on correct rows.
unfoldable pub create_submission : Submission → List Submission → Result Error (List Submission)
create_submission row log =
    if row.correct && has_solved row.challenge_id row.team_id log
    then err already_solved
    else ok (log ++ row ∷ [])

abbrev pub row_of : ℕ → Challenge → Input → Bool → Option ℕ → Submission
row_of id locked inp correct owner = record {
  id = id;
  challenge_id = locked.id;
  team_id = inp.team_id;
  user_id = inp.user_id;
  provided = stored_flag locked correct owner inp.flag;
  correct = correct;
  scored_value = none;
  scored_by = none;
}

-- The checks of the transaction, up to the row that it may write.
unfoldable pub check_attempt : Env → Challenge → Option Bool → Input → Db → Result Error Challenge
check_attempt env ch verdict inp db = do
  fail_if (env.faults begin || env.faults lock) internal
  locked ← or_fail (challenge_by_id ch.id db) (missing_row verdict)
  fail_if (is_void ch locked verdict) unavailable
  fail_if (env.faults solved_check) internal
  fail_if (has_solved ch.id inp.team_id db.submissions) already_solved
  fail_if (env.faults count_attempts) internal
  fail_if (limit_reached locked.max_attempts (team_attempts ch.id inp.team_id db.submissions))
      no_attempts
  ok locked

-- The rest of it: correctness, and the insertion.
unfoldable pub log_attempt :
    Env → Challenge → Option Bool → Input → Db → Result Error (List Submission × Attempted)
log_attempt env locked verdict inp db = do
  judged ← decide env locked verdict inp db
  id ← or_fail env.new_id internal
  fail_if (env.faults insert_row) internal
  log ← create_submission (row_of id locked inp judged.0 judged.1) db.submissions
  fail_if (env.faults commit) internal
  ok (log, record { correct = judged.0; submission_id = id; shared_with = judged.1 })

abbrev finish : Db → Result Error (List Submission × Attempted) → Db × Result Error Attempted
finish db (ok (log, a)) = (record db { submissions = log }, ok a)
finish db (err e) = (db, err e)

-- The transaction of Submit: it commits what it wrote, or leaves the tables as they were.
unfoldable pub attempt : Env → Challenge → Option Bool → Input → Db → Db × Result Error Attempted
attempt env ch verdict inp db =
    finish db
      (do locked ← check_attempt env ch verdict inp db; log_attempt env locked verdict inp db)
