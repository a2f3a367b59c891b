-- ===== src/Submissions/History.antt =====
-- Any interleaving of submissions, score records, edits and deletions. A request in flight holds the
-- challenge and the verdict that it got before its transaction: these may be as stale as they like.
use Prim.Native.String.{String}
use osctf.Prelude.{
  ℕ, ◌≤◌, ◌≡◌, inl, inr, refl, Bool, Option, some, List, [], ◌∷◌, arith, nat_key, tally, keep,
  tally-keep-le, Bool-cases, Option-cases, ◌∙◌, lookup,
}
use osctf.Prelude.Int.{ℤ}
use osctf.Submissions.Store.{
  Challenge, Submission, Instance, Db, challenge_by_id, solves, by_team, team_attempts,
  record_score,
}
use osctf.Scoring.Engine.{ChallengeScoring}
use osctf.Submissions.Request.{Env, Input, write_score, Scored}
use osctf.Submissions.Repair.{RepairEnv, Pass, write_record, repair_row, repair_rows, repair_once}
use osctf.Submissions.Transaction.{attempt}
use osctf.Submissions.Settlement.{record_plugin_score, recorded_value}
use osctf.Submissions.Attempt.{OneSolve, attempt-OneSolve, attempt_cases, attempt-limit}

-- What a participant's request does to the tables.
pub data Request : Db → Db → Type 0 where
  tries :
      (env : Env) (ch : Challenge) (verdict : Option Bool) (inp : Input) (db : Db)
      → Request db (attempt env ch verdict inp db).0
  records :
      (env : Env) (id : ℕ) (ch : Challenge) (count : ℕ) (db : Db)
      → Request db (record_plugin_score env id ch count db).0

-- What the rest of the program does to them: it edits challenges and instances, and a deletion
-- takes the submissions of a challenge or a team with it.
pub data Step : Db → Db → Type 0 where
  requests : {db db' : Db} → Request db db' → Step db db'
  repairs : (env : RepairEnv) (batch : ℕ) (db : Db) → Step db (repair_once env batch db).0
  edits :
      (cs : List Challenge) (is : List Instance) (db : Db)
      → Step db (record db { challenges = cs; instances = is })
  deletes :
      (stays : Submission → Bool) (db : Db)
      → Step db (record db { submissions = keep stays db.submissions })

pub data Reach (db : Db) : Db → Type 0 where
  here : Reach db db
  next : {a b : Db} → Reach db a → Step a b → Reach db b

pub data Requests (db : Db) : Db → Type 0 where
  none_yet : Requests db db
  one_more : {a b : Db} → Requests db a → Request a b → Requests db b

-- A test that does not look at the score sees the same rows after a score is recorded.
tally-record_score :
    (p : Submission → Bool) (id : ℕ) (v : Option ℤ) (by : String) (log : List Submission)
    → ((s : Submission) (w : Option ℤ) (b : Option String)
        → p (record s { scored_value = w; scored_by = b }) ≡ p s)
    → tally p (record_score id v by log) ≡ tally p log
unfolding record_score
tally-record_score p id v by [] h = refl
tally-record_score p id v by (s ∷ log) h =
    ground (arith, h s v (some by), tally-record_score p id v by log h)

pub record_plugin_score-tally :
    (p : Submission → Bool) (env : Env) (id : ℕ) (ch : Challenge) (count : ℕ) (db : Db)
    → ((s : Submission) (w : Option ℤ) (b : Option String)
        → p (record s { scored_value = w; scored_by = b }) ≡ p s)
    → tally p (record_plugin_score env id ch count db).0.submissions ≡ tally p db.submissions
unfolding record_plugin_score
record_plugin_score-tally p env id ch count db h = elim (Bool-cases (env.faults write_score)) [
  | inl e ↦ rw e
  | inr e ↦ rw e (tally-record_score p id _ _ db.submissions h)
]

module _ (p : Submission → Bool)
    (h : (s : Submission) (w : Option ℤ) (b : Option String)
      → p (record s { scored_value = w; scored_by = b }) ≡ p s) where
  write_record-tally :
      (env : RepairEnv) (id : ℕ) (s : Scored) (q : Pass)
      → tally p (write_record env id s q).log ≡ tally p q.log
  unfolding write_record
  write_record-tally env id s q =
      ground (arith, tally-record_score p id (recorded_value s) s.by q.log h)

  repair_rows-tally :
      (env : RepairEnv) (score : ℕ → String → ChallengeScoring → ℤ → Scored)
      (rows : List (ℕ × Challenge)) (q : Pass)
      → tally p (repair_rows env score rows q).log ≡ tally p q.log
  unfolding repair_rows repair_row
  repair_rows-tally env score [] q = refl
  repair_rows-tally env score ((id, c) ∷ rows) q =
      let rest : tally p (repair_rows env score ((id, c) ∷ rows) q).log
          ≡ tally p (repair_row env score (id, c) q).log =
        repair_rows-tally env score rows (repair_row env score (id, c) q) in
      rest ∙ elim (Option-cases (lookup c.id q.solve_counts)) [
        | inr (n, e) ↦ rw e (write_record-tally env id _ q)
        | inl e ↦ elim (Bool-cases (env.count_fails id)) [
          | inl f ↦ rw (e, f)
          | inr f ↦ rw (e, f) (write_record-tally env id _ _)
        ]
      ]

  repair_once-tally :
      (env : RepairEnv) (batch : ℕ) (db : Db)
      → tally p (repair_once env batch db).0.submissions ≡ tally p db.submissions
  unfolding repair_once
  repair_once-tally env batch db = elim (Option-cases env.scorer) [
    | inl e ↦ rw e
    | inr (score, e) ↦ elim (Bool-cases env.list_fails) [
      | inl f ↦ rw (e, f)
      | inr f ↦ rw (e, f) (repair_rows-tally _ score _ _)
    ]
  ]

Request-OneSolve :
    {db db' : Db} → Request db db' → OneSolve db.submissions → OneSolve db'.submissions
Request-OneSolve (tries env ch verdict inp db) one = attempt-OneSolve env ch verdict inp db one
Request-OneSolve (records env id ch count db) one =
    λ c t. rw (record_plugin_score-tally (solves c t) env id ch count db (λ s w b. refl)) (one c t)

Step-OneSolve : {db db' : Db} → Step db db' → OneSolve db.submissions → OneSolve db'.submissions
Step-OneSolve (requests r) one = Request-OneSolve r one
Step-OneSolve (repairs env batch db) one =
    λ c t. rw (repair_once-tally (solves c t) (λ s w b. refl) env batch db) (one c t)
Step-OneSolve (edits cs is db) one = one
Step-OneSolve (deletes stays db) one =
    λ c t. omega (arith, one c t, tally-keep-le (solves c t) stays db.submissions)

-- However submission transactions, score records, repair passes, edits of challenges and
-- instances and deletions interleave, and however stale the challenge and verdict that a
-- transaction was started with, a log in which no team solves a challenge twice stays such a log.
pub Reach-OneSolve :
    {db db' : Db} → Reach db db' → OneSolve db.submissions → OneSolve db'.submissions
Reach-OneSolve here one = one
Reach-OneSolve (next r s) one = Step-OneSolve s (Reach-OneSolve r one)

records-limit :
    {db db' : Db}
    → Request db db'
    → (c t n : ℕ) (locked : Challenge) → challenge_by_id c db ≡ some locked
    → locked.max_attempts ≡ some n
    → team_attempts c t db.submissions ≤ n
    → (challenge_by_id c db' ≡ some locked) × (team_attempts c t db'.submissions ≤ n)
unfolding challenge_by_id record_plugin_score
records-limit (tries env ch verdict inp db) c t n locked found max below =
    (same_challenge, attempt-limit env ch verdict inp db c t n locked found max below)
  where
    same_challenge : challenge_by_id c (attempt env ch verdict inp db).0 ≡ some locked
    same_challenge = elim (attempt_cases env ch verdict inp db) [
      | inl (e, h) ↦ rw h found
      | inr (l, a, clear, d, h) ↦ rw h found
    ]
records-limit (records env id ch count db) c t n locked found max below = (
  same_challenge,
  rw (record_plugin_score-tally (by_team c t) env id ch count db (λ s w b. refl)) below,
)
  where
    same_challenge : challenge_by_id c (record_plugin_score env id ch count db).0 ≡ some locked
    same_challenge = elim (Bool-cases (env.faults write_score)) [
      | inl e ↦ rw (record_plugin_score, e) found
      | inr e ↦ rw (record_plugin_score, e) found
    ]

-- While a challenge keeps its row, no interleaving of participants' requests takes a team that is
-- within the attempt limit of that row past it.
pub Requests-limit :
    {db db' : Db}
    → Requests db db'
    → (c t n : ℕ) (locked : Challenge) → challenge_by_id c db ≡ some locked
    → locked.max_attempts ≡ some n
    → team_attempts c t db.submissions ≤ n
    → (challenge_by_id c db' ≡ some locked) × (team_attempts c t db'.submissions ≤ n)
Requests-limit none_yet c t n locked found max below = (found, below)
Requests-limit (one_more rs r) c t n locked found max below =
    let (found', below') = Requests-limit rs c t n locked found max below in
    records-limit r c t n locked found' max below'
