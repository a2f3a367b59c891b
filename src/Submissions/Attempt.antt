-- ===== src/Submissions/Attempt.antt =====
-- What one transaction of Submit does, on every branch.
use osctf.Prelude.{
  ok, err, ◌>>=◌, ℕ, ◌≤◌, ◌≡◌, ◌≢◌, ◌⊎◌, inl, inr, ap, Bool, true, false, Option, some, List, [],
  ◌∷◌, ◌++◌, arith, ◌==◌, nat_key, text_key, tally-append, Option-cases, Result-cases, bind_ok,
  beq→eq,
}
use osctf.Submissions.Store.{
  bytes_key, Challenge, Submission, Db, first, challenge_by_id, has_solved, solves, by_team,
  team_attempts, team_solves,
}
use osctf.Submissions.Request.{Env, Input, Error, unavailable, begin, lock}
use osctf.Submissions.Transaction.{
  Attempted, attempt, check_attempt, log_attempt, decide, create_submission, row_of, limit_reached,
  is_void,
}

-- What the checks of the transaction establish.
pub record Cleared (ch : Challenge) (verdict : Option Bool) (inp : Input) (db : Db)
    (locked : Challenge) : Type 0 where
  pub found : challenge_by_id ch.id db ≡ some locked
  pub current : is_void ch locked verdict ≡ false
  pub unsolved : has_solved ch.id inp.team_id db.submissions ≡ false
  pub below_limit :
      limit_reached locked.max_attempts (team_attempts ch.id inp.team_id db.submissions) ≡ false

check_attempt-ok :
    (env : Env) (ch : Challenge) (verdict : Option Bool) (inp : Input) (db : Db)
    (locked : Challenge)
    → check_attempt env ch verdict inp db ≡ ok locked
    → Cleared ch verdict inp db locked
unfolding check_attempt
check_attempt-ok env ch verdict inp db locked h = ground arith

log_attempt-ok :
    (env : Env) (locked : Challenge) (verdict : Option Bool) (inp : Input) (db : Db)
    (log : List Submission) (a : Attempted)
    → log_attempt env locked verdict inp db ≡ ok (log, a)
    → (decide env locked verdict inp db ≡ ok (a.correct, a.shared_with))
      × (log ≡ db.submissions ++ row_of a.submission_id locked inp a.correct a.shared_with ∷ [])
unfolding log_attempt create_submission
log_attempt-ok env locked verdict inp db log a h = ground arith

-- How the transaction ends: it fails and changes nothing, or it commits exactly one row.
pub attempt_cases :
    (env : Env) (ch : Challenge) (verdict : Option Bool) (inp : Input) (db : Db)
    → ((e : Error) × (attempt env ch verdict inp db ≡ (db, err e)))
      ⊎ ((locked : Challenge) × (a : Attempted) × (Cleared ch verdict inp db locked)
          × (decide env locked verdict inp db ≡ ok (a.correct, a.shared_with))
          × (attempt env ch verdict inp db ≡ (
            record db {
              submissions =
                  db.submissions ++ row_of a.submission_id locked inp a.correct a.shared_with ∷ [];
            },
            ok a,
          )))
unfolding attempt
attempt_cases env ch verdict inp db =
    elim (Result-cases
      (check_attempt env ch verdict inp db >>= λ l. log_attempt env l verdict inp db)) [
        | inl (e, h) ↦ inl (e, rw (h, attempt))
        | inr (p, h) ↦
            let (l, c, g) = bind_ok _ (check_attempt env ch verdict inp db) h in
            let (d, e) = log_attempt-ok env l verdict inp db p.0 p.1 g in
            inr (
              l,
              p.1,
              check_attempt-ok env ch verdict inp db l c,
              d,
              rw (h, attempt) (ap (λ log. (record db { submissions = log }, ok p.1)) e),
            )
      ]

first-id :
    (id : ℕ) (cs : List Challenge) (c : Challenge) → first (λ x. x.id == id) cs ≡ some c → c.id ≡ id
first-id id [] c h = cc
first-id id (x ∷ cs) c h = ground (arith, first-id id cs c)

pub challenge_by_id-id :
    (id : ℕ) (db : Db) (c : Challenge) → challenge_by_id id db ≡ some c → c.id ≡ id
unfolding challenge_by_id
challenge_by_id-id id db c h = first-id id db.challenges c h

-- No team solves a challenge twice.
abbrev pub OneSolve : List Submission → Type 0
OneSolve log = (challenge team : ℕ) → team_solves challenge team log ≤ 1

-- The transaction keeps it so, on whatever stale row and verdict it was started.
pub attempt-OneSolve :
    (env : Env) (ch : Challenge) (verdict : Option Bool) (inp : Input) (db : Db)
    → OneSolve db.submissions
    → OneSolve (attempt env ch verdict inp db).0.submissions
attempt-OneSolve env ch verdict inp db one c t = elim (attempt_cases env ch verdict inp db) [
  | inl (e, h) ↦ rw h (one c t)
  | inr (l, a, clear, d, h) ↦ rw h (
      ground (
        arith,
        one c t,
        clear.unsolved,
        challenge_by_id-id ch.id db l clear.found,
        tally-append (solves c t) db.submissions
            (row_of a.submission_id l inp a.correct a.shared_with ∷ []),
      ))
]

-- The transaction never takes a team past the challenge's limit of attempts, and adds nothing to
-- the attempts of another team or at another challenge.
pub attempt-limit :
    (env : Env) (ch : Challenge) (verdict : Option Bool) (inp : Input) (db : Db) (c t n : ℕ)
    (locked : Challenge)
    → challenge_by_id c db ≡ some locked
    → locked.max_attempts ≡ some n
    → team_attempts c t db.submissions ≤ n
    → team_attempts c t (attempt env ch verdict inp db).0.submissions ≤ n
attempt-limit env ch verdict inp db c t n locked found max below =
    elim (attempt_cases env ch verdict inp db) [
      | inl (e, h) ↦ rw h below
      | inr (l, a, clear, d, h) ↦ rw h (
          ground (
            arith,
            clear.found,
            clear.below_limit,
            challenge_by_id-id ch.id db l clear.found,
            tally-append (by_team c t) db.submissions
                (row_of a.submission_id l inp a.correct a.shared_with ∷ []),
          ))
    ]

is_void_lem :
    (ch l : Challenge) (verdict : Bool)
    → (l.kind_type ≢ ch.kind_type) ⊎ (l.updated_at ≢ ch.updated_at)
    → is_void ch l (some verdict) ≡ true
is_void_lem ch l verdict (inl ne) = ground (arith, beq→eq l.kind_type ch.kind_type)
is_void_lem ch l verdict (inr ne) = ground (arith, beq→eq l.updated_at ch.updated_at)

-- A transaction that carries a plugin's verdict, begun and locked without a database error, on a
-- challenge that is gone or whose type or update stamp differs, answers "unavailable" and leaves
-- the tables unchanged, whatever the team has solved or tried.
pub attempt_void :
    (env : Env) (ch : Challenge) (verdict : Bool) (inp : Input) (db : Db)
    → env.faults begin ≡ false
    → env.faults lock ≡ false
    → ((locked : Challenge)
        → challenge_by_id ch.id db ≡ some locked
        → (locked.kind_type ≢ ch.kind_type) ⊎ (locked.updated_at ≢ ch.updated_at))
    → attempt env ch (some verdict) inp db ≡ (db, err unavailable)
unfolding attempt check_attempt
attempt_void env ch verdict inp db fb fl changed = elim (Option-cases (challenge_by_id ch.id db)) [
  | inl e ↦ ground (arith, fb, fl, e)
  | inr (l, e) ↦ ground (arith, fb, fl, e, is_void_lem ch l verdict (changed l e))
]
