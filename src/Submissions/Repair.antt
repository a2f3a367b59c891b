-- ===== src/Submissions/Repair.antt =====
-- internal/submissions/scorerepair.go: one pass of the worker that records missing and pending
-- scores, with the queries that it runs. The rows of the log stand in the order of created_at; no
-- other request runs within the pass.
use Prim.Native.String.{String}
use osctf.Prelude.{
  ℕ, suc, zero, Bool, true, false, ◌&&◌, ◌||◌, not, Option, none, some, List, [], ◌∷◌,
  if◌then◌else◌, ◌==◌, nat_key, text_key, tally, Dict, lookup, insert,
}
use osctf.Prelude.Int.{ℤ, pos}
use osctf.Scoring.Engine.{ChallengeScoring, is_builtin_mode}
use osctf.Submissions.Store.{
  Challenge, Submission, Db, challenge_by_id, challenge_solves, record_score, needs_score,
  is_unscored,
}
use osctf.Submissions.Request.{Scored}
use osctf.Submissions.Settlement.{score_params, recorded_value}

-- `repairBatch`
abbrev repair_batch : ℕ
repair_batch = 200

-- What a pass meets. The scorer's answer, and a failing count or write, depend on the submission
-- that it is at.
pub record RepairEnv : Type 0 where
  pub scorer : Option (ℕ → String → ChallengeScoring → ℤ → Scored)
  pub list_fails : Bool
  pub count_fails : ℕ → Bool
  pub write_fails : ℕ → Bool

abbrev pub wants_score : Submission → Option Challenge → Bool
wants_score s none = false
wants_score s (some c) = s.correct && not (is_builtin_mode c.scoring) && is_unscored s.scored_value

-- The rows of `ListSolvesNeedingScore` and `CountUnscoredPluginSolves`.
unfoldable pub is_unrecorded : Db → Submission → Bool
is_unrecorded db s = wants_score s (challenge_by_id s.challenge_id db)

abbrev pub listed_row : Submission → Option Challenge → List (ℕ × Challenge) → List (ℕ × Challenge)
listed_row s none rows = rows
listed_row s (some c) rows = if wants_score s (some c) then (s.id, c) ∷ rows else rows

unfoldable pub needing_score : Db → List Submission → List (ℕ × Challenge)
needing_score db [] = []
needing_score db (s ∷ log) =
    let rows = needing_score db log in listed_row s (challenge_by_id s.challenge_id db) rows

unfoldable pub take {ℓ} : {A : Type ℓ} → ℕ → List A → List A
take zero xs = []
take (suc n) [] = []
take (suc n) (x ∷ xs) = x ∷ take n xs

-- `CountUnscoredPluginSolves`
abbrev pub is_nameless : Option String → Bool
is_nameless none = true
is_nameless (some by) = false

abbrev pub is_pending_label : Option String → Bool
is_pending_label none = false
is_pending_label (some by) = by == "pending"

unfoldable pub missing_count : Db → ℕ
missing_count db =
    tally (λ (s : Submission). is_unrecorded db s && is_nameless s.scored_by) db.submissions

unfoldable pub pending_count : Db → ℕ
pending_count db =
    tally (λ (s : Submission). is_unrecorded db s && is_pending_label s.scored_by) db.submissions

-- What the loop keeps: the log, the cached counts of solves, and the number of values recorded.
pub record Pass : Type 0 where
  pub log : List Submission
  pub solve_counts : Dict ℕ ℕ
  pub filled : ℕ

-- The write of one record. A failed write, or one that meets no row, is left to the next pass.
unfoldable pub write_record : RepairEnv → ℕ → Scored → Pass → Pass
write_record env id s p =
    if env.write_fails id || tally (needs_score id) p.log == 0 then p else record p {
      log = record_score id (recorded_value s) s.by p.log;
      filled = if s.has_value then suc p.filled else p.filled;
    }

abbrev repair_counted :
    RepairEnv → (ℕ → String → ChallengeScoring → ℤ → Scored) → ℕ → Challenge → ℕ → Pass → Pass
repair_counted env score id c count p =
    write_record env id (score id c.scoring (score_params c) (pos count)) p

abbrev repair_uncached :
    RepairEnv
    → (ℕ → String → ChallengeScoring → ℤ → Scored)
    → ℕ
    → Challenge
    → Pass
    → Option ℕ
    → Pass
repair_uncached env score id c p (some count) = repair_counted env score id c count p
repair_uncached env score id c p none =
    if env.count_fails id
    then p
    else repair_counted env score id c (challenge_solves c.id p.log)
        (record p { solve_counts = insert c.id (challenge_solves c.id p.log) p.solve_counts })

-- The body of the loop.
unfoldable pub repair_row :
    RepairEnv → (ℕ → String → ChallengeScoring → ℤ → Scored) → ℕ × Challenge → Pass → Pass
repair_row env score (id, c) p = repair_uncached env score id c p (lookup c.id p.solve_counts)

unfoldable pub repair_rows :
    RepairEnv → (ℕ → String → ChallengeScoring → ℤ → Scored) → List (ℕ × Challenge) → Pass → Pass
repair_rows env score [] p = p
repair_rows env score (row ∷ rows) p = repair_rows env score rows (repair_row env score row p)

abbrev repaired_by :
    RepairEnv → Option (ℕ → String → ChallengeScoring → ℤ → Scored) → ℕ → Db → Db × Option ℕ
repaired_by env none batch db = (db, some 0)
repaired_by env (some score) batch db =
    if env.list_fails
    then (db, none)
    else (let p =
          repair_rows env score (take batch (needing_score db db.submissions))
            (record { log = db.submissions; solve_counts = []; filled = 0 }) in
        (record db { submissions = p.log }, some p.filled))

-- `RepairOnce`: the tables, and how many values were recorded; `none` is an error.
unfoldable pub repair_once : RepairEnv → ℕ → Db → Db × Option ℕ
repair_once env batch db = repaired_by env env.scorer batch db
