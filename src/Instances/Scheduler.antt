-- ===== src/Instances/Scheduler.antt =====
-- internal/scheduler/scheduler.go: the operations on a team's instances, each under the team's lock,
-- and the sweeps, which skip a team whose lock is taken. Audit lines and gauges are left out.
use osctf.Prelude.{
  ℕ, zero, suc, ◌+◌, ◌-◌, ◌*◌, ◌%◌, Bool, true, false, ◌&&◌, ◌||◌, not, Option, none, some, List,
  [], ◌∷◌, ◌++◌, if◌then◌else◌, ◌==◌, nat_key, text_key, ltb, leb, length, keep, Result, ok, err,
  ◌>>=◌, ◌>>◌, fail_if, or_fail,
}
use osctf.Events.{Event, Phase, ended, phase}
use osctf.Submissions.Store.{Text}
use osctf.Submissions.Admission
use osctf.Instances.Table.{
  Row, row_by_id, team_row, team_running, set_expiry, is_running, is_before, is_expired,
  holds_port_idly, is_stale, is_per_team,
}
use osctf.Instances.Manager.{
  ChallengeRow, get_challenge, get_event, get_row, count_running, set_expiry_call, list_rows,
  list_again, Env, Failure, not_found, not_per_team, not_in_phase, at_quota, at_max_lifetime,
  broken, deploy_for_team, destroy_instance,
}

-- `Config`
pub record Config : Type 0 where
  pub ttl : ℕ
  pub extend : ℕ
  pub max_ttl : ℕ
  pub quota : ℕ
  pub reap_after : ℕ

abbrev pub is_ended : Phase → Bool
is_ended ended = true
is_ended _ = false

-- `requireRunning`
unfoldable pub require_running : Env → Result Failure (Unit {0})
require_running env = do
  fail_if (env.faults get_event) broken
  e ← or_fail env.event not_found
  fail_if (not (Admission.is_running (phase env.now e))) not_in_phase

abbrev pub ttl_of : Config → Option ℕ → ℕ
ttl_of cfg none = cfg.ttl
ttl_of cfg (some seconds) = seconds * 1000000000

-- `ttlFor`
abbrev pub ttl_for : Config → Env → ChallengeRow → Option ℕ
ttl_for cfg env ch = if ttl_of cfg ch.ttl == 0 then none else some (env.now + ttl_of cfg ch.ttl)

abbrev pub flag_for : Env → ChallengeRow → Result Failure Text
flag_for env ch = if ch.flag_mode == "per_instance" then or_fail env.new_flag broken else ok ch.flag

-- What `Start` does before it looks at the team's instances.
unfoldable pub startable : Env → ℕ → Result Failure ChallengeRow
startable env challenge = do
  fail_if (env.faults get_challenge) broken
  ch ← or_fail (env.challenge challenge) not_found
  fail_if (not ch.visible) not_found
  fail_if (not (ch.kind_name == "container" && ch.instancing == "per_team")) not_per_team
  require_running env
  ok ch

-- The quota and the flag.
unfoldable pub admitted_flag : Config → Env → ℕ → ChallengeRow → List Row → Result Failure Text
admitted_flag cfg env team ch rows = do
  fail_if (env.faults count_running) broken
  fail_if (leb cfg.quota (team_running team rows)) at_quota
  flag_for env ch

abbrev pub created : List Row × Result Failure Row → List Row × Result Failure (Row × Bool)
created (rows, ok r) = (rows, ok (r, true))
created (rows, err e) = (rows, err e)

abbrev pub start_new :
    Config
    → Env
    → ℕ
    → ChallengeRow
    → List Row
    → Result Failure Text
    → List Row × Result Failure (Row × Bool)
start_new cfg env team ch rows (err e) = (rows, err e)
start_new cfg env team ch rows (ok flag) = created (
    deploy_for_team env
      (record {
        challenge_id = ch.id;
        team_id = team;
        flag = flag;
        expires_at = ttl_for cfg env ch;
      })
      rows)

abbrev pub start_or_return :
    Config → Env → ℕ → ChallengeRow → List Row → Option Row → List Row × Result Failure (Row × Bool)
start_or_return cfg env team ch rows none =
    start_new cfg env team ch rows (admitted_flag cfg env team ch rows)
start_or_return cfg env team ch rows (some r) =
    if is_running r.stage
    then (rows, ok (r, false))
    else start_new cfg env team ch rows (admitted_flag cfg env team ch rows)

abbrev pub started :
    Config
    → Env
    → ℕ
    → List Row
    → Result Failure ChallengeRow
    → List Row × Result Failure (Row × Bool)
started cfg env team rows (err e) = (rows, err e)
started cfg env team rows (ok ch) =
    if env.faults get_row
    then (rows, err broken)
    else start_or_return cfg env team ch rows (team_row ch.id team rows)

-- `Start`
unfoldable pub start : Config → Env → ℕ → ℕ → List Row → List Row × Result Failure (Row × Bool)
start cfg env team challenge rows = started cfg env team rows (startable env challenge)

-- `GetTeamInstance` of the manager, with `ok` made an error.
unfoldable pub find_instance : Env → ℕ → ℕ → List Row → Result Failure Row
find_instance env team challenge rows = do
  fail_if (env.faults get_row) broken
  or_fail (team_row challenge team rows) not_found

abbrev pub stopped_by : Env → List Row → Result Failure Row → List Row × Result Failure (Unit {0})
stopped_by env rows (err e) = (rows, err e)
stopped_by env rows (ok r) = destroy_instance env r.id rows

-- `Stop`
unfoldable pub stop : Env → ℕ → ℕ → List Row → List Row × Result Failure (Unit {0})
stop env team challenge rows = stopped_by env rows (find_instance env team challenge rows)

abbrev pub born_at : ℕ → Option ℕ → ℕ
born_at now none = now
born_at now (some t) = t

abbrev pub earlier_of : ℕ → ℕ → ℕ
earlier_of a b = if ltb b a then b else a

-- The expiry that `Extend` sets.
abbrev pub next_expiry : Config → ℕ → Option ℕ → ℕ → ℕ
next_expiry cfg now born at = earlier_of (at + cfg.extend) (born_at now born + cfg.max_ttl)

abbrev pub extend_from : Config → Env → Row → List Row → Option ℕ → List Row × Result Failure Row
extend_from cfg env r rows none = (rows, ok r)
extend_from cfg env r rows (some at) =
    if not (ltb at (born_at env.now r.started_at + cfg.max_ttl))
    then (rows, err at_max_lifetime)
    else if env.faults set_expiry_call
    then (rows, err broken)
    else (
      set_expiry env.now r.id (next_expiry cfg env.now r.started_at at) rows,
      ok (record r { expires_at = some (next_expiry cfg env.now r.started_at at) }),
    )

abbrev pub extended : Config → Env → List Row → Result Failure Row → List Row × Result Failure Row
extended cfg env rows (err e) = (rows, err e)
extended cfg env rows (ok r) = extend_from cfg env r rows r.expires_at

-- `Extend`
unfoldable pub extend_instance : Config → Env → ℕ → ℕ → List Row → List Row × Result Failure Row
extend_instance cfg env team challenge rows =
    extended cfg env rows (do r ← find_instance env team challenge rows; require_running env; ok r)

abbrev pub is_busy : (ℕ → Bool) → Option ℕ → Bool
is_busy busy none = false
is_busy busy (some team) = busy team

abbrev pub destroy_current : Env → (Row → Bool) → ℕ → List Row → Option Row → List Row
destroy_current env eligible id rows none = rows
destroy_current env eligible id rows (some cur) =
    if eligible cur then (destroy_instance env id rows).0 else rows

-- `destroyLocked`; `busy` says whose lock is not to be had.
unfoldable pub destroy_locked : Env → (ℕ → Bool) → (Row → Bool) → Row → List Row → List Row
destroy_locked env busy eligible listed rows =
    if is_busy busy listed.team_id || env.faults get_row
    then rows
    else destroy_current env eligible listed.id rows (row_by_id listed.id rows)

-- The loop of a sweep over the rows that it listed, which may be stale.
unfoldable pub sweep : Env → (ℕ → Bool) → (Row → Bool) → List Row → List Row → List Row
sweep env busy eligible [] rows = rows
sweep env busy eligible (r ∷ listed) rows =
    sweep env busy eligible listed (destroy_locked env busy eligible r rows)

abbrev pub is_past : ℕ → Row → Bool
is_past now r = is_before r.expires_at now

-- The loop of `ExpireOnce`, over the rows that it listed, in the order that `rotate` makes.
unfoldable pub expire_listed : Env → (ℕ → Bool) → List Row → List Row → List Row
expire_listed env busy = sweep env busy (is_past env.now)

abbrev pub take_rows : ℕ → List Row → List Row
take_rows zero rows = []
take_rows (suc n) [] = []
take_rows (suc n) (r ∷ rows) = r ∷ take_rows n rows

abbrev pub drop_rows : ℕ → List Row → List Row
drop_rows zero rows = rows
drop_rows (suc n) [] = []
drop_rows (suc n) (r ∷ rows) = drop_rows n rows

-- `rotate`
unfoldable pub rotate : ℕ → List Row → List Row
rotate offset [] = []
rotate offset (r ∷ rows) =
    let at = offset % length (r ∷ rows) in drop_rows at (r ∷ rows) ++ take_rows at (r ∷ rows)

-- `ExpireOnce`, with no other operation between its query and its loop.
unfoldable pub expire_once : Env → (ℕ → Bool) → ℕ → List Row → List Row
expire_once env busy offset rows =
    if env.faults list_rows
    then rows
    else expire_listed env busy (rotate offset (keep (is_expired env.now) rows)) rows

abbrev pub is_idle_holder : Row → Bool
is_idle_holder r = holds_port_idly r.stage

-- `ReapStaleOnce`
unfoldable pub reap_once : Config → Env → (ℕ → Bool) → List Row → List Row
reap_once cfg env busy rows =
    if cfg.reap_after == 0 || env.faults list_rows
    then rows
    else sweep env busy is_idle_holder (keep (is_stale (env.now - cfg.reap_after)) rows) rows

abbrev pub cleaned : Env → (ℕ → Bool) → List Row → List Row × Option ℕ
cleaned env busy rows =
    let after = sweep env busy (λ r. true) (keep is_per_team rows) rows in
    (after, (if env.faults list_again then none else some (length (keep is_per_team after))))

abbrev pub cleanup_in : Env → (ℕ → Bool) → List Row → Option Phase → List Row × Option ℕ
cleanup_in env busy rows none = (rows, none)
cleanup_in env busy rows (some p) =
    if not (is_ended p)
    then (rows, some 0)
    else if env.faults list_rows
    then (rows, none)
    else cleaned env busy rows

abbrev pub phase_of : Env → Option Event → Option Phase
phase_of env none = none
phase_of env (some e) = if env.faults get_event then none else some (phase env.now e)

abbrev pub phase_now : Env → Option Phase
phase_now env = phase_of env env.event

-- `CleanupEnded`, one team after the other: the rows, and how many per-team ones are left, or an
-- error. `busy` says for which teams the wait for the lock was cut short.
unfoldable pub cleanup_ended : Env → (ℕ → Bool) → List Row → List Row × Option ℕ
cleanup_ended env busy rows = cleanup_in env busy rows (phase_now env)
