-- ===== src/Instances/History.antt =====
-- The quota over any history of the operations of internal/scheduler and internal/runtime/manager.go,
-- with the status reads and the marks of a reconcile pass (internal/runtime/docker.go).
use osctf.Prelude.{
  arith, if_either, ◌||◌, ℕ, ◌+◌, ◌≤◌, ◌≡◌, refl, Bool, false, ◌&&◌, not, if◌then◌else◌, Option,
  none, some, List, [], ◌∷◌, nat_key, tally,
}
use osctf.Instances.Table.{
  Stage, lost, Row, row_by_id, update_rows, team_running, has_id, is_running, is_none, runs_for,
}
use osctf.Instances.Manager.{Env, update_call, get_again}
use osctf.Instances.Shared.{
  Live, vanished, unreachable, inspect_fails, seen, status_of, refresh_health, deploy_shared,
  restart, destroy_shared, destroy_for_challenge, get_shared,
}
use osctf.Instances.Scheduler.{
  Config, start, stop, extend_instance, expire_listed, sweep, is_idle_holder, cleanup_ended,
}
use osctf.Instances.Quota.{WithinQuota, is_team, ids-update_rows, idle-update_rows}
use osctf.Instances.Operations.{
  start-WithinQuota, stop-WithinQuota, extend-WithinQuota, sweep-WithinQuota, marked-WithinQuota,
  cleanup-WithinQuota,
}
use osctf.Instances.SharedOperations.{
  deploy_shared-WithinQuota, restart-WithinQuota, destroy_shared-WithinQuota,
  destroy_for_challenge-WithinQuota, get_shared-WithinQuota,
}

-- One operation, with the outside world as it is then. A sweep may have listed its rows at any time
-- before. `refreshes` is one status read of refreshHealth, which holds no lock: of any instance, with
-- the row `read` as it was found at any time before, and among any other operations.
pub data Operation : Type 0 where
  starts stops extends : (env : Env) (team challenge : ℕ) → Operation
  expires reaps : (env : Env) (busy : ℕ → Bool) (listed : List Row) → Operation
  cleans : (env : Env) (busy : ℕ → Bool) → Operation
  deploys restarts destroys destroys_for : (env : Env) (challenge : ℕ) → Operation
  reads : (env : Env) (live : Live) (challenge : ℕ) → Operation
  refreshes : (env : Env) (live : Live) (id : ℕ) (read : Option Row) → Operation
  finds_lost : (id now : ℕ) → Operation

abbrev pub perform : Config → Operation → List Row → List Row
perform cfg (starts env team challenge) rows = (start cfg env team challenge rows).0
perform cfg (stops env team challenge) rows = (stop env team challenge rows).0
perform cfg (extends env team challenge) rows = (extend_instance cfg env team challenge rows).0
perform cfg (expires env busy listed) rows = expire_listed env busy listed rows
perform cfg (reaps env busy listed) rows = sweep env busy is_idle_holder listed rows
perform cfg (cleans env busy) rows = (cleanup_ended env busy rows).0
perform cfg (deploys env challenge) rows = (deploy_shared env challenge rows).0
perform cfg (restarts env challenge) rows = (restart env challenge rows).0
perform cfg (destroys env challenge) rows = (destroy_shared env challenge rows).0
perform cfg (destroys_for env challenge) rows = (destroy_for_challenge env challenge rows).0
perform cfg (reads env live challenge) rows = (get_shared env live challenge rows).0
perform cfg (refreshes env live id read) rows = (status_of env live id rows read).0
perform cfg (finds_lost id now) rows =
    update_rows id (λ r. record r { stage = lost; updated_at = now }) rows

-- The status read finds the container healthy, and writes so.
abbrev pub finds_running : Env → Live → Option Row → Bool
finds_running env (seen stage) (some r) =
    not (is_none r.container_id) && not (env.faults update_call) && is_running stage
finds_running env _ _ = false

abbrev pub idle_of : ℕ → ℕ → Row → Bool
idle_of id team r = has_id id r && is_team team r && not (is_running r.stage)

-- How many instances of a team that were not running (but unhealthy, stopped or lost) a status read
-- records as running again.
unfoldable pub recovered : ℕ → Operation → List Row → ℕ
recovered team (refreshes env live id read) rows =
    if finds_running env live read then tally (idle_of id team) rows else 0
recovered team _ rows = 0

-- The tables that a history of operations leads to, with the recoveries of each team along it.
pub data Reach (cfg : Config) : List Row → (ℕ → ℕ) → Type 0 where
  empty : Reach cfg [] (λ team. 0)
  next :
      {rows : List Row} {seen_up : ℕ → ℕ} (op : Operation)
      → Reach cfg rows seen_up
      → Reach cfg (perform cfg op rows) (λ team. seen_up team + recovered team op rows)

-- The status reads of a reconcile pass are steps of a history.
refresh_health-Reach :
    (cfg : Config) (env : Env) (live : ℕ → Live) (present touched : ℕ → Bool) (ids : List ℕ)
    (rows : List Row) (ups : ℕ → ℕ)
    → Reach cfg rows ups
    → (ups' : ℕ → ℕ) × Reach cfg (refresh_health env live present touched ids rows) ups'
unfolding refresh_health
refresh_health-Reach cfg env live present touched [] rows ups h = (ups, h)
refresh_health-Reach cfg env live present touched (id ∷ ids) rows ups h =
    let read = if env.faults get_again then none else row_by_id id rows in
    let (ups', h') =
      if_either (λ xs. (u : ℕ → ℕ) × Reach cfg xs u) (not (present id) || touched id) (ups, h)
        (_, next (refreshes env (live id) id read) h) in
    refresh_health-Reach cfg env live present touched ids _ ups' h'

widened :
    (quota more : ℕ → ℕ) (rows : List Row)
    → WithinQuota quota rows
    → WithinQuota (λ team. quota team + more team) rows
widened quota more rows w = record {
  unique = w.unique;
  within = λ team. omega (arith, w.within team);
}

-- A status read makes at most the instances run that it recovers.
running-set :
    (id now : ℕ) (stage : Stage) (team : ℕ) (rows : List Row)
    → tally
        (runs_for team)
        (update_rows id (λ r. record r { stage = stage; updated_at = now }) rows)
      ≤ tally (runs_for team) rows + tally (idle_of id team) rows
running-set id now stage team [] = omega arith
running-set id now stage team (r ∷ rows) = ground (arith, running-set id now stage team rows)

idle-set :
    (id now : ℕ) (stage : Stage) (team : ℕ) (rows : List Row)
    → is_running stage ≡ false
    → tally
        (runs_for team)
        (update_rows id (λ r. record r { stage = stage; updated_at = now }) rows)
      ≤ tally (runs_for team) rows
idle-set id now stage team rows h =
    idle-update_rows id _ (λ r. refl) (λ r. refl) (λ r i. ground (arith, h, i)) team rows

ids-set :
    (id now : ℕ) (stage : Stage) (j : ℕ) (rows : List Row)
    → tally (has_id j) (update_rows id (λ r. record r { stage = stage; updated_at = now }) rows)
      ≡ tally (has_id j) rows
ids-set id now stage = ids-update_rows id _ (λ r. refl)

ids-status :
    (env : Env) (live : Live) (id : ℕ) (read : Option Row) (j : ℕ) (rows : List Row)
    → tally (has_id j) (status_of env live id rows read).0 ≡ tally (has_id j) rows
ids-status env live id none j rows = refl
ids-status env vanished id (some r) j rows = ground (arith, ids-set id env.now lost j rows)
ids-status env unreachable id (some r) j rows = ground arith
ids-status env inspect_fails id (some r) j rows = ground arith
ids-status env (seen stage) id (some r) j rows = ground (arith, ids-set id env.now stage j rows)

running-status :
    (env : Env) (live : Live) (id : ℕ) (read : Option Row) (team : ℕ) (rows : List Row)
    → tally (runs_for team) (status_of env live id rows read).0
      ≤ tally (runs_for team) rows + recovered team (refreshes env live id read) rows
unfolding recovered
running-status env live id none team rows = omega arith
running-status env vanished id (some r) team rows =
    ground (arith, idle-set id env.now lost team rows refl)
running-status env unreachable id (some r) team rows = ground arith
running-status env inspect_fails id (some r) team rows = ground arith
running-status env (seen stage) id (some r) team rows =
    ground (arith, running-set id env.now stage team rows, idle-set id env.now stage team rows)

module _ (cfg : Config) (quota : ℕ → ℕ) where
  refreshes-WithinQuota :
      (env : Env) (live : Live) (id : ℕ) (read : Option Row) (rows : List Row)
      → WithinQuota quota rows
      → WithinQuota
          (λ team. quota team + recovered team (refreshes env live id read) rows)
          (status_of env live id rows read).0
  unfolding team_running
  refreshes-WithinQuota env live id read rows w = record {
    unique = λ j. omega (arith, w.unique j, ids-status env live id read j rows);
    within = λ team. omega (arith, w.within team, running-status env live id read team rows);
  }

  module _ (covers : (team : ℕ) → cfg.quota ≤ quota team) where
    perform-WithinQuota :
        (op : Operation) (rows : List Row)
        → WithinQuota quota rows
        → WithinQuota (λ team. quota team + recovered team op rows) (perform cfg op rows)
    unfolding expire_listed
    perform-WithinQuota (starts env team challenge) rows w =
        widened quota _ _ (start-WithinQuota cfg quota covers env team challenge rows w)
    perform-WithinQuota (stops env team challenge) rows w =
        widened quota _ _ (stop-WithinQuota quota env team challenge rows w)
    perform-WithinQuota (extends env team challenge) rows w =
        widened quota _ _ (extend-WithinQuota cfg quota covers env team challenge rows w)
    perform-WithinQuota (expires env busy listed) rows w =
        widened quota _ _ (sweep-WithinQuota quota env busy _ listed rows w)
    perform-WithinQuota (reaps env busy listed) rows w =
        widened quota _ _ (sweep-WithinQuota quota env busy _ listed rows w)
    perform-WithinQuota (cleans env busy) rows w =
        widened quota _ _ (cleanup-WithinQuota quota env busy rows w)
    perform-WithinQuota (deploys env challenge) rows w =
        widened quota _ _ (deploy_shared-WithinQuota quota env challenge rows w)
    perform-WithinQuota (restarts env challenge) rows w =
        widened quota _ _ (restart-WithinQuota quota env challenge rows w)
    perform-WithinQuota (destroys env challenge) rows w =
        widened quota _ _ (destroy_shared-WithinQuota quota env challenge rows w)
    perform-WithinQuota (destroys_for env challenge) rows w =
        widened quota _ _ (destroy_for_challenge-WithinQuota quota env challenge rows w)
    perform-WithinQuota (reads env live challenge) rows w =
        widened quota _ _ (get_shared-WithinQuota quota env live challenge rows w)
    perform-WithinQuota (refreshes env live id read) rows w =
        refreshes-WithinQuota env live id read rows w
    perform-WithinQuota (finds_lost id now) rows w =
        widened quota _ _ (marked-WithinQuota quota id now lost rows refl w)

reached-WithinQuota :
    (cfg : Config) (rows : List Row) (ups : ℕ → ℕ)
    → Reach cfg rows ups
    → WithinQuota (λ team. cfg.quota + ups team) rows
unfolding team_running
reached-WithinQuota cfg _ _ empty = record {
  unique = λ id. omega arith;
  within = λ team. omega arith;
}
reached-WithinQuota cfg _ _ (next {rows = rows} {seen_up = ups} op h) =
    let w =
      perform-WithinQuota cfg (λ team. cfg.quota + ups team) (λ team. omega arith) op rows
        (reached-WithinQuota cfg rows ups h) in
    record { unique = w.unique; within = λ team. omega (arith, w.within team) }

-- After any history of starts, stops, extensions, expiry and reaping passes (over any rows that
-- they listed before), cleanups, operations on shared instances, status reads of any instance by
-- a reconcile pass (each on a row as it was found at any time before) and marks of lost
-- instances, each under its own faults, clock, daemon and configuration of the challenges, the
-- running instances of a team are at most the quota plus the number of times that such a status
-- read recorded an instance of the team as running that was not running in the table; so at most
-- the quota where none did.
pub team_running-Reach :
    (cfg : Config) (rows : List Row) (ups : ℕ → ℕ)
    → Reach cfg rows ups
    → (team : ℕ) → team_running team rows ≤ cfg.quota + ups team
team_running-Reach cfg rows ups h team = (reached-WithinQuota cfg rows ups h).within team
