-- ===== src/Submissions/Backfill.antt =====
-- What a pass of the score repair leaves: no solve without a record.
use Prim.Native.String.{String}
use mathlib.Core.List.{Memᴰ}
use mathlib.Core.List.Memᴰ
use osctf.Prelude.{
  ℕ, suc, zero, ◌≤◌, ◌≡◌, inl, inr, refl, ap, Bool, true, false, ◌&&◌, ◌||◌, not, Option, none,
  some, List, [], ◌∷◌, arith, ◌==◌, nat_key, text_key, ltb, tally, tally_mono, ◌+◌, length, All,
  All-intro, lookup, insert, Option-cases, Bool-cases, beq_refl,
}
use osctf.Prelude.Int.{ℤ, pos}
use osctf.Scoring.Engine.{ChallengeScoring}
use osctf.Submissions.Store.{
  Challenge, Submission, Db, challenge_by_id, challenge_solves, record_score, needs_score,
  is_unscored,
}
use osctf.Submissions.Request.{Scored}
use osctf.Submissions.Settlement.{recorded_value, score_params}
use osctf.Submissions.Repair.{
  RepairEnv, wants_score, is_unrecorded, needing_score, listed_row, take, is_nameless,
  is_pending_label, missing_count, pending_count, Pass, write_record, repair_row, repair_rows,
  repair_once,
}

-- A row that still lacks its record; under `strict`, also one that lacks only the value.
abbrev is_open : Bool → Db → Submission → Bool
is_open strict db s = is_unrecorded db s && (strict || is_nameless s.scored_by)

abbrev is_listed : List (ℕ × Challenge) → Submission → Bool
is_listed rows s = ltb 0 (tally (λ (r : ℕ × Challenge). r.0 == s.id) rows)

-- Every open row is listed.
abbrev Covered : Bool → Db → List (ℕ × Challenge) → List Submission → Type 0
Covered strict db rows log = All (λ s. not (is_open strict db s) || is_listed rows s) log

take-all {ℓ} : {A : Type ℓ} (n : ℕ) (xs : List A) → length xs ≤ n → take n xs ≡ xs
unfolding take
take-all zero [] h = refl
take-all zero (x ∷ xs) h = absurd (omega (arith, h))
take-all (suc n) [] h = refl
take-all (suc n) (x ∷ xs) h = ap (λ ys. x ∷ ys) (take-all n xs (omega (arith, h)))

listed_row_self :
    (s : Submission) (o : Option Challenge) (rows : List (ℕ × Challenge))
    → wants_score s o ≡ true
    → is_listed (listed_row s o rows) s ≡ true
listed_row_self s none rows h = cc
listed_row_self s (some c) rows h = ground (arith, h, beq_refl s.id)

listed_row_keeps :
    (x s : Submission) (o : Option Challenge) (rows : List (ℕ × Challenge))
    → is_listed rows s ≡ true
    → is_listed (listed_row x o rows) s ≡ true
listed_row_keeps x s none rows h = h
listed_row_keeps x s (some c) rows h = ground (arith, h)

module _ (strict : Bool) (db : Db) where
  record_score-Covered :
      (id : ℕ) (c : Challenge) (rows : List (ℕ × Challenge)) (v : Option ℤ) (by : String)
      (log : List Submission)
      → not strict || not (is_unscored v) ≡ true
      → Covered strict db ((id, c) ∷ rows) log
      → Covered strict db rows (record_score id v by log)
  unfolding record_score is_unrecorded
  record_score-Covered id c rows v by [] h k = tt
  record_score-Covered id c rows v by (s ∷ log) h (k, ks) = (
    elim (Option-cases (challenge_by_id s.challenge_id db)) [
      | inl e ↦ ground (arith, e)
      | inr (ch, e) ↦ ground (arith, e, h, k)
    ],
    record_score-Covered id c rows v by log h ks,
  )

  -- The rows that a record of `id` would meet are gone already.
  untouched-Covered :
      (id : ℕ) (c : Challenge) (rows : List (ℕ × Challenge)) (log : List Submission)
      → tally (needs_score id) log ≡ 0
      → Covered strict db ((id, c) ∷ rows) log
      → Covered strict db rows log
  unfolding is_unrecorded
  untouched-Covered id c rows [] h k = tt
  untouched-Covered id c rows (s ∷ log) h (k, ks) = (
    elim (Option-cases (challenge_by_id s.challenge_id db)) [
      | inl e ↦ ground (arith, e)
      | inr (ch, e) ↦ ground (arith, e, h, k)
    ],
    untouched-Covered id c rows log (ground (arith, h)) ks,
  )

  module _ (env : RepairEnv) (score : ℕ → String → ChallengeScoring → ℤ → Scored) where
    -- Under `strict`, every answer has a value.
    abbrev Valued : Type 0
    Valued =
        (id : ℕ) (mode : String) (params : ChallengeScoring) (count : ℤ)
        → not strict || (score id mode params count).has_value ≡ true

    write_record-Covered :
        (id : ℕ) (c : Challenge) (rows : List (ℕ × Challenge)) (s : Scored) (p : Pass)
        → env.write_fails id ≡ false
        → not strict || s.has_value ≡ true
        → Covered strict db ((id, c) ∷ rows) p.log
        → Covered strict db rows (write_record env id s p).log
    unfolding write_record
    write_record-Covered id c rows s p w h k =
        elim (Bool-cases (tally (needs_score id) p.log == 0)) [
          | inl e ↦ rw (w, e) (untouched-Covered id c rows p.log (ground (arith, e)) k)
          | inr e ↦
              rw (w, e)
                (record_score-Covered id c rows (recorded_value s) s.by p.log (ground (arith, h)) k)
        ]

    repair_row-Covered :
        (id : ℕ) (c : Challenge) (rows : List (ℕ × Challenge)) (p : Pass)
        → env.count_fails id ≡ false
        → env.write_fails id ≡ false
        → Valued
        → Covered strict db ((id, c) ∷ rows) p.log
        → Covered strict db rows (repair_row env score (id, c) p).log
    unfolding repair_row
    repair_row-Covered id c rows p f w h k = elim (Option-cases (lookup c.id p.solve_counts)) [
      | inl e ↦
          let n = challenge_solves c.id p.log in
          rw (e, f)
            (write_record-Covered id c rows (score id c.scoring (score_params c) (pos n))
              (record p { solve_counts = insert c.id n p.solve_counts }) w
              (h id c.scoring (score_params c) (pos n)) k)
      | inr (n, e) ↦ rw e (
          write_record-Covered id c rows (score id c.scoring (score_params c) (pos n)) p w
            (h id c.scoring (score_params c) (pos n)) k)
    ]

    repair_rows-Covered :
        (rows : List (ℕ × Challenge)) (p : Pass)
        → ((id : ℕ) → env.count_fails id ≡ false)
        → ((id : ℕ) → env.write_fails id ≡ false)
        → Valued
        → Covered strict db rows p.log
        → Covered strict db [] (repair_rows env score rows p).log
    unfolding repair_rows
    repair_rows-Covered [] p f w h k = k
    repair_rows-Covered ((id, c) ∷ rows) p f w h k =
        repair_rows-Covered rows (repair_row env score (id, c) p) f w h
          (repair_row-Covered id c rows p (f id) (w id) h k)

  needing_score-listed :
      (log : List Submission) (s : Submission)
      → Memᴰ s log
      → is_unrecorded db s ≡ true
      → is_listed (needing_score db log) s ≡ true
  unfolding needing_score is_unrecorded
  needing_score-listed [] s m h = absurd (Memᴰ.not-nil m)
  needing_score-listed (x ∷ log) s (Memᴰ.head e) h =
      rw (← e) (listed_row_self s (challenge_by_id s.challenge_id db) (needing_score db log) h)
  needing_score-listed (x ∷ log) s (Memᴰ.tail m) h =
      listed_row_keeps x s (challenge_by_id x.challenge_id db) (needing_score db log)
        (needing_score-listed log s m h)

  all-Covered : (log : List Submission) → Covered strict db (needing_score db log) log
  all-Covered log =
      All-intro (λ s. not (is_open strict db s) || is_listed (needing_score db log) s) log
        (λ s m. ground (arith, needing_score-listed log s m))

  none_open : (log : List Submission) → Covered strict db [] log → tally (is_open strict db) log ≡ 0
  none_open [] k = refl
  none_open (s ∷ log) (k, ks) = ground (arith, k, none_open log ks)

  repair_once-open :
      (env : RepairEnv) (score : ℕ → String → ChallengeScoring → ℤ → Scored) (batch : ℕ)
      → env.scorer ≡ some score
      → env.list_fails ≡ false
      → ((id : ℕ) → env.count_fails id ≡ false)
      → ((id : ℕ) → env.write_fails id ≡ false)
      → Valued env score
      → length (needing_score db db.submissions) ≤ batch
      → let db' = (repair_once env batch db).0 in tally (is_open strict db') db'.submissions ≡ 0
  unfolding repair_once repair_rows repair_row write_record is_unrecorded challenge_by_id
  repair_once-open env score batch e l f w v b =
      let rows = needing_score db db.submissions in
      let start : Pass = record { log = db.submissions; solve_counts = []; filled = 0 } in
      rw (e, l, take-all batch rows b)
        (none_open (repair_rows env score rows start).log
          (repair_rows-Covered env score rows start f w v (all-Covered db.submissions)))

unlisted :
    (db : Db) (log : List Submission) → tally (is_open true db) log ≡ 0 → needing_score db log ≡ []
unfolding needing_score is_unrecorded
unlisted db [] h = refl
unlisted db (s ∷ log) h = elim (Option-cases (challenge_by_id s.challenge_id db)) [
  | inl e ↦ ground (arith, e, h, unlisted db log)
  | inr (c, e) ↦ ground (arith, e, h, unlisted db log)
]

module _ (env : RepairEnv) (score : ℕ → String → ChallengeScoring → ℤ → Scored) (batch : ℕ)
    (db : Db) where
  -- With a scorer, no failing call and a batch that takes every solve that needs a score, a
  -- repair pass leaves no missing record: CountUnscoredPluginSolves then reports 0 missing,
  -- whatever the scorer answers.
  pub missing_count-repair_once :
      env.scorer ≡ some score
      → env.list_fails ≡ false
      → ((id : ℕ) → env.count_fails id ≡ false)
      → ((id : ℕ) → env.write_fails id ≡ false)
      → length (needing_score db db.submissions) ≤ batch
      → missing_count (repair_once env batch db).0 ≡ 0
  unfolding missing_count
  missing_count-repair_once e l f w b =
      repair_once-open false db env score batch e l f w (λ id m p n. refl) b

  -- With a scorer that always answers with a value, no failing call and a batch that takes every
  -- solve that needs a score, a repair pass leaves no missing and no pending record, and lists
  -- nothing the next time.
  pub pending_count-repair_once :
      env.scorer ≡ some score
      → env.list_fails ≡ false
      → ((id : ℕ) → env.count_fails id ≡ false)
      → ((id : ℕ) → env.write_fails id ≡ false)
      → ((id : ℕ) (mode : String) (params : ChallengeScoring) (count : ℤ)
          → (score id mode params count).has_value ≡ true)
      → length (needing_score db db.submissions) ≤ batch
      → let db' = (repair_once env batch db).0 in
        (missing_count db' + pending_count db' ≡ 0) × (needing_score db' db'.submissions ≡ [])
  unfolding missing_count pending_count
  pending_count-repair_once e l f w v b =
      let db' = (repair_once env batch db).0 in
      let none_left : tally (is_open true db') db'.submissions ≡ 0 =
        repair_once-open true db env score batch e l f w v b in
      (
        omega (
          arith,
          none_left,
          tally_mono (λ s. is_unrecorded db' s && is_nameless s.scored_by) (is_open true db')
              db'.submissions (λ s h. ground (arith, h)),
          tally_mono (λ s. is_unrecorded db' s && is_pending_label s.scored_by) (is_open true db')
              db'.submissions (λ s h. ground (arith, h)),
        ),
        unlisted db' db'.submissions none_left,
      )
