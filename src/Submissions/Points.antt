-- ===== src/Submissions/Points.antt =====
-- Submit as a whole: who gets through, what is logged, and the points in the reply.
use Prim.Native.String.{String}
use osctf.Prelude.{
  ok, err, suc, ◌≡◌, ◌⊎◌, inl, inr, refl, sym, ap, ◌∙◌, Bool, true, false, ◌&&◌, Option, some, List,
  [], ◌∷◌, ◌++◌, Result-cases, arith, if◌then◌else◌, ◌==◌, nat_key, tally, length, length-append,
  tally-append,
}
use osctf.Prelude.Int.{ℤ, pos}
use osctf.Scoring.Engine.{is_builtin_mode, value}
use osctf.Events.{Event, phase, running}
use osctf.Submissions.Store.{
  Challenge, Submission, Db, challenge_by_slug, solves, team_solves, challenge_solves,
}
use osctf.Submissions.Request.{Env, Input, Error, count_solves, internal}
use osctf.Submissions.Admission.{admit}
use osctf.Submissions.Transaction.{Attempted, row_of}
use osctf.Submissions.Settlement.{settle, submit, Reply, Effect, score_params, score_solve, settled}
use osctf.Submissions.Attempt.{attempt_cases, challenge_by_id-id}
use osctf.Submissions.History.{record_plugin_score-tally}

-- Who gets past the checks before the transaction.
pub record Admitted (env : Env) (inp : Input) (db : Db) (ch : Challenge) : Type 0 where
  pub unbanned : inp.is_team_banned ≡ false
  pub in_window :
      (inp.bypass_window ≡ true)
      ⊎ ((e : Event) × (env.event ≡ some e) × (phase env.now e ≡ running))
  pub found : challenge_by_slug inp.slug db ≡ some ch
  pub visible : (ch.visible ≡ true) ⊎ (inp.bypass_window ≡ true)

admit-ok :
    (env : Env) (inp : Input) (db : Db) (ch : Challenge) (v : Option Bool)
    → admit env inp db ≡ ok (ch, v)
    → Admitted env inp db ch
unfolding admit
admit-ok env inp db ch v h = record {
  unbanned = ground arith;
  in_window = ground arith;
  found = ground arith;
  visible = ground arith;
}

everything : Submission → Bool
everything s = true

tally-everything : (log : List Submission) → tally everything log ≡ length log
unfolding everything
tally-everything [] = refl
tally-everything (s ∷ log) = ap suc (tally-everything log)

settle-tally :
    (p : Submission → Bool) (env : Env) (ch : Challenge) (inp : Input) (a : Attempted) (db : Db)
    → ((s : Submission) (w : Option ℤ) (b : Option String)
        → p (record s { scored_value = w; scored_by = b }) ≡ p s)
    → tally p (settle env ch inp a db).0.submissions ≡ tally p db.submissions
unfolding settle score_solve
settle-tally p env ch inp a db h = ground (
  arith,
  record_plugin_score-tally p env a.submission_id ch (challenge_solves ch.id db.submissions) db h,
)

-- How a request ends: it fails and changes nothing, or its attempt is logged and it goes on to
-- `settle`.
submit_cases :
    (env : Env) (inp : Input) (db : Db)
    → ((e : Error) × (submit env inp db ≡ (db, err e, [])))
      ⊎ ((ch : Challenge) × (l : Challenge) × (a : Attempted) × (Admitted env inp db ch)
          × (l.id ≡ ch.id)
          × (team_solves ch.id inp.team_id db.submissions ≡ 0)
          × (submit env inp db
              ≡ settle env ch inp a (record db {
                submissions =
                    db.submissions ++ row_of a.submission_id l inp a.correct a.shared_with ∷ [];
              })))
unfolding submit
submit_cases env inp db = elim (Result-cases (admit env inp db)) [
  | inl (e, h) ↦ inl (e, rw (h, submit))
  | inr (p, h) ↦ elim (attempt_cases env p.0 p.1 inp db) [
    | inl (e, k) ↦ inl (e, rw (h, submit) (ap (settled env p.0 inp) k))
    | inr (l, a, clear, d, k) ↦ inr (
      p.0,
      l,
      a,
      admit-ok env inp db p.0 p.1 h,
      challenge_by_id-id p.0.id db l clear.found,
      ground (arith, clear.unsolved),
      rw (h, submit) (ap (settled env p.0 inp) k),
    )
  ]
]

settle_ok :
    (env : Env) (ch : Challenge) (inp : Input) (a : Attempted) (db db' : Db) (r : Reply)
    (fx : List Effect)
    → settle env ch inp a db ≡ (db', ok r, fx)
    → (r.is_correct ≡ a.correct)
unfolding settle score_solve
settle_ok env ch inp a db db' r fx h = ground arith

settle_err :
    (env : Env) (ch : Challenge) (inp : Input) (a : Attempted) (db db' : Db) (e : Error)
    (fx : List Effect)
    → settle env ch inp a db ≡ (db', err e, fx)
    → (e ≡ internal) × (env.faults count_solves ≡ true)
unfolding settle score_solve
settle_err env ch inp a db db' e fx h = ground arith

settle_points :
    (env : Env) (ch : Challenge) (inp : Input) (a : Attempted) (db db' : Db) (r : Reply)
    (fx : List Effect)
    → settle env ch inp a db ≡ (db', ok r, fx)
    → r.is_correct ≡ true
    → is_builtin_mode ch.scoring ≡ true
    → (r.shown_points
        ≡ some (
            value env.engines ch.scoring
              (score_params ch)
              (pos (challenge_solves ch.id db.submissions))))
      × (db' ≡ db)
unfolding settle score_solve
settle_points env ch inp a db db' r fx h c m = ground arith

-- If Submit returns a verdict then the request was admitted (team not banned, event running or
-- window bypassed, challenge found, and visible or bypassed), exactly one submission was added,
-- the team had no solve of the challenge before, and it has one afterwards exactly when the
-- verdict is correct.
pub submit_accepted :
    (env : Env) (inp : Input) (db db' : Db) (r : Reply) (fx : List Effect)
    → submit env inp db ≡ (db', ok r, fx)
    → (ch : Challenge) × (Admitted env inp db ch)
      × (length db'.submissions ≡ suc (length db.submissions))
      × (team_solves ch.id inp.team_id db.submissions ≡ 0)
      × (team_solves ch.id inp.team_id db'.submissions ≡ (if r.is_correct then 1 else 0))
unfolding everything
submit_accepted env inp db db' r fx h = elim (submit_cases env inp db) [
  | inl (e, k) ↦ absurd (cc (k, h))
  | inr (ch, l, a, adm, same, zero_before, k) ↦
      let row = row_of a.submission_id l inp a.correct a.shared_with in
      let mid : Db = record db { submissions = db.submissions ++ row ∷ [] } in
      let e : settle env ch inp a mid ≡ (db', ok r, fx) = sym k ∙ h in
      let seen = λ (p : Submission → Bool). ap (λ t. tally p t.0.submissions) (sym e) in
      (
        ch,
        adm,
        omega (
          arith,
          seen everything ∙ settle-tally everything env ch inp a mid (λ s w b. refl),
          tally-everything db'.submissions,
          tally-everything mid.submissions,
          length-append db.submissions (row ∷ []),
        ),
        zero_before,
        ground (
          arith,
          seen (solves ch.id inp.team_id)
              ∙ settle-tally (solves ch.id inp.team_id) env ch inp a mid (λ s w b. refl),
          tally-append (solves ch.id inp.team_id) db.submissions (row ∷ []),
          settle_ok env ch inp a mid db' r fx e,
        ),
      )
]

-- If Submit returns an error, the tables are unchanged, or the error is an internal one and the
-- count of solves after the commit failed.
pub submit_failed :
    (env : Env) (inp : Input) (db db' : Db) (e : Error) (fx : List Effect)
    → submit env inp db ≡ (db', err e, fx)
    → (db' ≡ db) ⊎ ((e ≡ internal) × (env.faults count_solves ≡ true))
submit_failed env inp db db' e fx h = elim (submit_cases env inp db) [
  | inl (x, k) ↦ inl (cc (k, h))
  | inr (ch, l, a, adm, same, zero_before, k) ↦ inr (settle_err env ch inp a _ db' e fx (sym k ∙ h))
]

-- For a challenge found by its slug with a built-in scoring mode, a correct verdict shows the
-- engine's value at the challenge's number of solves after the submission, which is one more than
-- before.
pub submit_points :
    (env : Env) (inp : Input) (db db' : Db) (r : Reply) (fx : List Effect) (ch : Challenge)
    → submit env inp db ≡ (db', ok r, fx)
    → r.is_correct ≡ true
    → challenge_by_slug inp.slug db ≡ some ch
    → is_builtin_mode ch.scoring ≡ true
    → (r.shown_points
        ≡ some (
            value env.engines ch.scoring
              (score_params ch)
              (pos (challenge_solves ch.id db'.submissions))))
      × (challenge_solves ch.id db'.submissions ≡ suc (challenge_solves ch.id db.submissions))
submit_points env inp db db' r fx ch h correct found mode = elim (submit_cases env inp db) [
  | inl (e, k) ↦ absurd (cc (k, h))
  | inr (c, l, a, adm, same, zero_before, k) ↦
      let same_ch : ch ≡ c = ground (arith, found, adm.found) in
      let row = row_of a.submission_id l inp a.correct a.shared_with in
      let mid : Db = record db { submissions = db.submissions ++ row ∷ [] } in
      let e : settle env c inp a mid ≡ (db', ok r, fx) = sym k ∙ h in
      let (shown, kept) = settle_points env c inp a mid db' r fx e correct (rw same_ch at mode) in
      rw (same_ch, kept)
        (
          shown,
          ground (
            arith,
            settle_ok env c inp a mid db' r fx e,
            tally-append (λ s. s.challenge_id == c.id && s.correct) db.submissions (row ∷ []),
          ),
        )
]
