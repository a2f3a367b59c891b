-- ===== src/Instances/Sweeps.antt =====
-- Which rows the sweeps of internal/scheduler/scheduler.go destroy.
use mathlib.Core.List.{Memᴰ}
use osctf.Prelude.{
  ℕ, ◌≤◌, ◌≡◌, inl, inr, refl, sym, ap, ◌∙◌, Bool, true, false, ◌&&◌, not, Option, none, some, List,
  [], ◌∷◌, arith, ◌==◌, nat_key, ltb, keep, keep-ext, keep-keep, keep_all, tally, tally-keep-le,
  tally-zero, beq_refl, beq→eq, Bool-cases,
}
use osctf.Submissions.Store.{first}
use osctf.Submissions.Queries.{first_unique, first-none}
use osctf.Instances.Table.{Row, has_id, row_by_id, delete_row}
use osctf.Instances.Manager.{Env, get_row, delete_call, list_rows, destroy_instance}
use osctf.Instances.Scheduler.{is_busy, destroy_current, destroy_locked, sweep}

-- No query and no write fails.
pub record Answers (env : Env) : Type 0 where
  pub gets_row : env.faults get_row ≡ false
  pub deletes : env.faults delete_call ≡ false
  pub lists : env.faults list_rows ≡ false

-- The sweep gets at the row: its team is not busy, and the daemon does destroy the container.
abbrev pub is_free : Env → (ℕ → Bool) → Row → Bool
is_free env busy r = not (is_busy busy r.team_id) && not (env.destroy_fails r.id)

-- The row that a sweep destroys on account of one that it listed.
abbrev hit : Env → (ℕ → Bool) → (Row → Bool) → Row → Row → Bool
hit env busy eligible l r = has_id r.id l && is_free env busy l && eligible r

-- Some row that the sweep listed has the identifier and can be got at.
abbrev pub listed_free : Env → (ℕ → Bool) → List Row → Row → Bool
listed_free env busy listed r = ltb 0 (tally (λ l. has_id r.id l && is_free env busy l) listed)

id_sym : (a b : ℕ) → (a == b) ≡ (b == a)
id_sym a b =
    ground (arith, beq→eq a b, beq→eq b a, beq_refl a, Bool-cases (a == b), Bool-cases (b == a))

module _ (env : Env) (busy : ℕ → Bool) (eligible : Row → Bool) (answers : Answers env) where
  deleted_keep :
      (l : Row) (rows : List Row) (cur : Row)
      → tally (has_id l.id) rows ≤ 1
      → first (has_id l.id) rows ≡ some cur
      → is_free env busy l ≡ true
      → eligible cur ≡ true
      → keep (λ r. not (r.id == l.id)) rows ≡ keep (λ r. not (hit env busy eligible l r)) rows
  deleted_keep l rows cur u h free e = keep-ext _ _ rows (λ x m. elim (Bool-cases (x.id == l.id)) [
    | inl y ↦
        let same = first_unique (has_id l.id) rows cur x u h m y in
        let fits : eligible x ≡ true = rw same e in ground (arith, y, id_sym l.id x.id, free, fits)
    | inr n ↦ ground (arith, n, id_sym l.id x.id)
  ])

  missed_keep :
      (l : Row) (rows : List Row)
      → ((x : Row) → Memᴰ x rows → hit env busy eligible l x ≡ false)
      → rows ≡ keep (λ r. not (hit env busy eligible l r)) rows
  missed_keep l rows miss = sym (keep_all _ rows (λ x m. ap not (miss x m)))

  destroyed :
      (id : ℕ) (rows : List Row)
      → env.destroy_fails id ≡ false
      → (destroy_instance env id rows).0 ≡ delete_row id rows
  unfolding destroy_instance
  destroyed id rows stands = rw (stands, answers.deletes) refl

  -- Where the daemon fails, nothing is deleted.
  unmoved :
      (id : ℕ) (rows : List Row) (o : Option Row)
      → env.destroy_fails id ≡ true
      → destroy_current env eligible id rows o ≡ rows
  unfolding destroy_instance
  unmoved id rows none fails = refl
  unmoved id rows (some cur) fails = elim (Bool-cases (eligible cur)) [
    | inl e ↦ rw (e, fails) refl
    | inr e ↦ rw e refl
  ]

  current-keep :
      (l : Row) (rows : List Row) (o : Option Row)
      → tally (has_id l.id) rows ≤ 1
      → row_by_id l.id rows ≡ o
      → is_free env busy l ≡ true
      → destroy_current env eligible l.id rows o ≡ keep (λ r. not (hit env busy eligible l r)) rows
  unfolding row_by_id
  current-keep l rows none u h free =
      let absent = first-none (has_id l.id) rows h in
      missed_keep l rows
        (λ x m. ground (arith, tally-zero (has_id l.id) rows x absent m, id_sym l.id x.id))
  current-keep l rows (some cur) u h free = elim (Bool-cases (eligible cur)) [
    | inl e ↦
        let stands : env.destroy_fails l.id ≡ false = ground (arith, free) in
        rw e (destroyed l.id rows stands ∙ deleted_keep l rows cur u h free e)
    | inr e ↦ rw e (
        missed_keep l rows (λ x m. elim (Bool-cases (x.id == l.id)) [
          | inl y ↦
              let same = first_unique (has_id l.id) rows cur x u h m y in
              let unfit : eligible x ≡ false = rw same e in ground (arith, unfit)
          | inr n ↦ ground (arith, n, id_sym l.id x.id)
        ]))
  ]

  locked_out :
      (l : Row) (rows : List Row)
      → is_busy busy l.team_id ≡ true
      → destroy_locked env busy eligible l rows ≡ rows
  unfolding destroy_locked
  locked_out l rows b = rw b refl

  locked_in :
      (l : Row) (rows : List Row)
      → is_busy busy l.team_id ≡ false
      → destroy_locked env busy eligible l rows
        ≡ destroy_current env eligible l.id rows (row_by_id l.id rows)
  unfolding destroy_locked
  locked_in l rows b = rw (b, answers.gets_row) refl

  destroy_locked-keep :
      (l : Row) (rows : List Row)
      → tally (has_id l.id) rows ≤ 1
      → destroy_locked env busy eligible l rows ≡ keep (λ r. not (hit env busy eligible l r)) rows
  destroy_locked-keep l rows u = elim (Bool-cases (is_busy busy l.team_id)) [
    | inl b ↦ locked_out l rows b ∙ missed_keep l rows (λ x m. ground (arith, b))
    | inr b ↦ elim (Bool-cases (env.destroy_fails l.id)) [
      | inl f ↦
          locked_in l rows b
          ∙ unmoved l.id rows (row_by_id l.id rows) f
          ∙ missed_keep l rows (λ x m. ground (arith, f))
      | inr f ↦
          locked_in l rows b
          ∙ current-keep l rows (row_by_id l.id rows) u refl (ground (arith, b, f))
    ]
  ]

  -- Where the queries answer and the identifiers are unique, a sweep over rows that were listed
  -- at any time before destroys exactly the rows that are still eligible when they are read again
  -- and whose identifier a listed row has whose team is not busy and whose container the daemon
  -- destroys; so an instance that was extended after the listing stays.
  pub sweep-keep :
      (listed rows : List Row)
      → ((id : ℕ) → tally (has_id id) rows ≤ 1)
      → sweep env busy eligible listed rows
        ≡ keep (λ r. not (listed_free env busy listed r && eligible r)) rows
  unfolding sweep
  sweep-keep [] rows u = sym (keep_all _ rows (λ x m. refl))
  sweep-keep (l ∷ listed) rows u =
      let q : Row → Bool = λ r. not (hit env busy eligible l r) in
      ap (sweep env busy eligible listed) (destroy_locked-keep l rows (u l.id))
      ∙ sweep-keep listed (keep q rows)
          (λ id. omega (arith, u id, tally-keep-le (has_id id) q rows))
      ∙ keep-keep _ q rows
      ∙ keep-ext _ _ rows (λ x m. ground arith)
