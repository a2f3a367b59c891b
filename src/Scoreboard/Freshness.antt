-- ===== src/Scoreboard/Freshness.antt =====
-- How fresh the served boards of internal/scoreboard/service.go are.
use osctf.Prelude.{
  ◌≤◌, ◌≡◌, ap, ◌∙◌, List, Option-cases, Bool-cases, inl, inr, ◌⊎◌, Bool, true, false, ◌&&◌, not,
  Option, none, some, arith, length, leb,
}
use osctf.Scoreboard.Standings.{Snapshot}
use osctf.Scoreboard.Guard.{
  board-count, IsSynced, Advances, publish-IsSynced, snapshot_freeze-board, served-IsSynced,
  recompute-IsSynced,
}
use osctf.Scoreboard.Log.{
  Solve, solves_of, Sub, Sub-refl, Sub-same, length-Sub, length-solves, Sourced, SourcedAt, grown,
  sourced, Origin, publish-Origin, served-Origin, recompute-Origin, snapshot_freeze-current,
}
use osctf.Scoreboard.Cache.{
  State, Env, read_current, set_current, list_rows, count_valid, first_event, sees_freeze, board,
  publish, read_repair, live_board, served, recompute, flagged, reconcile, snapshot_freeze,
  hold_board, clear_freeze,
}

-- What happens to the state while the log holds `log` and no admin shrinks it: requests, and the
-- locked parts of recomputes and captures that began when the log held part of it.
pub data Op (log : List Solve) : State → State → Type 0 where
  publishes :
      (fails flag : Bool) (past : Env) (s : State)
      → Sub (solves_of past.rows) log
      → Op log s (publish false fails (flagged flag (board past)) s).0
  recomputes :
      (env : Env) (broadcast : Bool) (s : State)
      → solves_of env.rows ≡ log
      → Op log s (recompute env false broadcast s).0
  reads :
      (env : Env) (is_admin repair : Bool) (s : State)
      → solves_of env.rows ≡ log
      → Op log s (served env is_admin repair s).0
  reconciles : (env : Env) (s : State) → solves_of env.rows ≡ log → Op log s (reconcile env s).0
  captures : (env : Env) (s : State) → Op log s (snapshot_freeze env s).0
  holds : (env : Env) (s : State) → Op log s (hold_board env s).0
  clears : (fails : Bool) (s : State) → Op log s (clear_freeze fails s).0

logged : (log : List Solve) (env : Env) → solves_of env.rows ≡ log → length env.rows ≡ length log
logged log env e = omega (arith, length-solves env.rows, ap (λ l. length l) e)

Op-IsSynced :
    {log : List Solve} {s s' : State}
    → Op log s s'
    → IsSynced (length log) s
    → Advances (length log) s s'
unfolding reconcile clear_freeze hold_board
Op-IsSynced (publishes fails flag past s h) g =
    publish-IsSynced _ fails (flagged flag (board past)) s
      (omega (arith, board-count past, length-solves past.rows, length-Sub h)) g
Op-IsSynced {log = log} (recomputes env broadcast s h) g =
    recompute-IsSynced _ env broadcast s (logged log env h) g
Op-IsSynced {log = log} (reads env is_admin repair s h) g =
    served-IsSynced _ env is_admin repair s (logged log env h) g
Op-IsSynced {log = log} (reconciles env s h) g =
    ground (arith, recompute-IsSynced _ env true s (logged log env h) g)
Op-IsSynced (captures env s) g = ground (arith, snapshot_freeze-board env s, g)
Op-IsSynced (holds env s) g = ground (arith, g)
Op-IsSynced (clears fails s) g = ground (arith, g)

whole : (log : List Solve) (env : Env) → solves_of env.rows ≡ log → Sub (solves_of env.rows) log
whole log env e = rw e (Sub-refl log)

reconcile-Origin : (env : Env) (s : State) → Origin env s (reconcile env s).0
unfolding reconcile
reconcile-Origin env s = ground (arith, recompute-Origin env true s)

unchanged-hold_board : (env : Env) (s : State) → (hold_board env s).0.current ≡ s.current
unfolding hold_board
unchanged-hold_board env s = ground arith

unchanged-clear_freeze : (fails : Bool) (s : State) → (clear_freeze fails s).0.current ≡ s.current
unfolding clear_freeze
unchanged-clear_freeze fails s = ground arith

Op-SourcedAt :
    {log : List Solve} {s s' : State}
    → Op log s s'
    → SourcedAt log s.current
    → SourcedAt log s'.current
Op-SourcedAt {log = log} (publishes fails flag past s h) g =
    sourced log past s (publish false fails (flagged flag (board past)) s).0 h
      (publish-Origin fails flag past s) g
Op-SourcedAt {log = log} (recomputes env broadcast s h) g =
    sourced log env s (recompute env false broadcast s).0 (whole log env h)
      (recompute-Origin env broadcast s) g
Op-SourcedAt {log = log} (reads env is_admin repair s h) g =
    sourced log env s (served env is_admin repair s).0 (whole log env h)
      (served-Origin env is_admin repair s) g
Op-SourcedAt {log = log} (reconciles env s h) g =
    sourced log env s (reconcile env s).0 (whole log env h) (reconcile-Origin env s) g
Op-SourcedAt (captures env s) g = rw (snapshot_freeze-current env s) g
Op-SourcedAt (holds env s) g = rw (unchanged-hold_board env s) g
Op-SourcedAt (clears fails s) g = rw (unchanged-clear_freeze fails s) g

-- Histories of the state beside a log that only grows.
pub data History (s : State) (log : List Solve) : State → List Solve → Type 0 where
  start : History s log s log
  grows :
      {s' : State} {now later : List Solve}
      → History s log s' now
      → Sub now later
      → History s log s' later
  operates :
      {a b : State} {now : List Solve} → History s log a now → Op now a b → History s log b now

-- Along such a history the guard's count never goes down, and the cached board never falls behind
-- it.
History-IsSynced :
    {s : State} {log : List Solve} {s' : State} {log' : List Solve}
    → History s log s' log'
    → IsSynced (length log) s
    → IsSynced (length log') s' × (s.last_count ≤ s'.last_count)
History-IsSynced start g = (g, omega arith)
History-IsSynced (grows h p) g = ground (arith, History-IsSynced h g, length-Sub p)
History-IsSynced (operates h o) g =
    let (g', le) = History-IsSynced h g in
    let (g'', le') = Op-IsSynced o g' in (g'', omega (arith, le, le'))

History-SourcedAt :
    {s : State} {log : List Solve} {s' : State} {log' : List Solve}
    → History s log s' log'
    → SourcedAt log s.current
    → SourcedAt log' s'.current
History-SourcedAt start g = g
History-SourcedAt (grows {s' = s'} h p) g = grown p s'.current (History-SourcedAt h g)
History-SourcedAt (operates h o) g = Op-SourcedAt o (History-SourcedAt h g)

-- A read that is not held back by a freeze, and whose calls do not fail.
pub record Reads (env : Env) (is_admin : Bool) : Type 0 where
  pub unheld : sees_freeze env first_event && not is_admin ≡ false
  pub reads_board : env.faults read_current ≡ false
  pub writes_board : env.faults set_current ≡ false
  pub lists_rows : env.faults list_rows ≡ false
  pub counts_rows : env.faults count_valid ≡ false

-- It serves the board of its own rows, or a cached one that is not behind them.
served_cases :
    (env : Env) (is_admin : Bool) (s : State)
    → Reads env is_admin
    → ((served env is_admin true s).1 ≡ some (flagged (sees_freeze env first_event) (board env)))
      ⊎ ((snap : Snapshot) × (s.current ≡ some snap)
          × (length env.rows ≤ snap.solve_count)
          × ((served env is_admin true s).1 ≡ some (flagged (sees_freeze env first_event) snap)))
unfolding served live_board read_repair
served_cases env is_admin s r = elim (Option-cases s.current) [
  | inl n ↦
      inl (ground (arith, n, r.unheld, r.reads_board, r.writes_board, r.lists_rows, r.counts_rows))
  | inr (snap, n) ↦ elim (Bool-cases (leb (length env.rows) snap.solve_count)) [
    | inl y ↦
        inr
          (snap, n, ground (arith, y), ground (arith, n, y, r.unheld, r.reads_board, r.counts_rows))
    | inr k ↦
        inl (
          ground
            (arith, n, k, r.unheld, r.reads_board, r.writes_board, r.lists_rows, r.counts_rows))
  ]
]

Sourced-same :
    (log : List Solve) (env : Env) (snap : Snapshot)
    → solves_of env.rows ≡ log
    → length env.rows ≤ snap.solve_count
    → (c : Sourced log snap) → solves_of c.past.rows ≡ log
Sourced-same log env snap e le c =
    let n : snap.solve_count ≡ length c.past.rows =
      ap (λ (x : Snapshot). x.solve_count) c.computed ∙ board-count c.past in
    Sub-same c.part (omega (arith, le, n, logged log env e, length-solves c.past.rows))

sourced_at :
    (log : List Solve) (o : Option Snapshot) (snap : Snapshot)
    → o ≡ some snap
    → SourcedAt log o
    → Sourced log snap
sourced_at log none snap e h = absurd (cc e)
sourced_at log (some x) snap e h = let k : x ≡ snap = cc in rw (← k) h

-- After any history of reads, guarded recomputes, late publications of boards that were computed
-- from part of the log, reconciliations and captures beside a log that only grows, from a state
-- whose guard and cached board are within the log: a read that is not held back by a freeze, and
-- whose calls do not fail, serves the board that is computed from rows that hold exactly the
-- solves of the log, in its order (with the teams, the scoring of the challenges and the recorded
-- values of the request that computed it), under the flag of the read.
pub served_exact :
    {s : State} {log : List Solve} {s' : State} {log' : List Solve} (env : Env) (is_admin : Bool)
    → History s log s' log'
    → IsSynced (length log) s
    → SourcedAt log s.current
    → solves_of env.rows ≡ log'
    → Reads env is_admin
    → (past : Env) × (solves_of past.rows ≡ log')
      × ((served env is_admin true s').1
          ≡ some (flagged (sees_freeze env first_event) (board past)))
served_exact {s' = s'} {log' = log'} env is_admin h g c e r =
    elim (served_cases env is_admin s' r) [
      | inl own ↦ (env, e, own)
      | inr (snap, n, le, cached) ↦
          let from : Sourced log' snap =
            sourced_at log' s'.current snap n (History-SourcedAt h c) in
          (
            from.past,
            Sourced-same log' env snap e le from,
            cached ∙ ap (λ x. some (flagged (sees_freeze env first_event) x)) from.computed,
          )
    ]
