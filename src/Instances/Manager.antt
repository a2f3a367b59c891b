-- ===== src/Instances/Manager.antt =====
-- internal/runtime/manager.go over the table, with the rows that internal/runtime/docker.go writes as
-- it deploys. What the daemon does is an argument; the specification of the container is left out.
use Prim.Native.String.{String}
use osctf.Prelude.{
  ℕ, zero, suc, ◌-◌, Bool, true, false, ◌&&◌, ◌||◌, not, Option, none, some, List, [],
  if◌then◌else◌, ◌==◌, nat_key, text_key, ltb, tally, Result, ok, err, ◌>>=◌, ◌>>◌, fail_if,
  or_fail,
}
use osctf.Events.{Event}
use osctf.Submissions.Store.{Text, bytes_key}
use osctf.Instances.Table.{
  Stage, pending, errored, Row, Refusal, shared_taken, team_taken, create_instance, shared_row,
  team_row, update_rows, delete_row, used_ports, is_running,
}

-- `gen.Challenge`, the columns that the life of an instance depends on.
pub record ChallengeRow : Type 0 where
  pub id : ℕ
  pub visible : Bool
  pub kind_name : String
  pub has_image : Bool
  pub has_port : Bool
  pub instancing : String
  pub flag : Text
  pub flag_mode : String
  pub ttl : Option ℕ

pub data Fault : Type 0 where
  get_challenge get_event get_row count_running list_ports create_row set_expiry_call : Fault
  list_rows list_again delete_call update_call get_again : Fault

-- What the daemon makes of a deploy: it is not there, the container does not start (or its row cannot be
-- written), or the container runs and is found in a stage.
pub data Outcome : Type 0 where
  daemon_down cannot_start : Outcome
  up : (container : ℕ) → Stage → Outcome

pub data Verdict : Type 0 where
  unknown enforced unenforced : Verdict

pub record Env : Type 0 where
  pub now : ℕ
  pub event : Option Event
  pub challenge : ℕ → Option ChallengeRow
  pub faults : Fault → Bool
  pub deploys : ℕ → Outcome
  pub destroy_fails : ℕ → Bool
  pub new_id : Option ℕ
  pub new_flag : Option Text
  pub port_start : ℕ
  pub port_end : ℕ
  pub network : Text
  pub gate_armed : Bool
  pub allow_unisolated : Bool
  pub isolation : Verdict

pub data Failure : Type 0 where
  not_found not_container no_ports isolation_refused daemon_unavailable broken : Failure
  not_per_team not_in_phase at_quota at_max_lifetime : Failure

abbrev pub is_enforced : Verdict → Bool
is_enforced enforced = true
is_enforced _ = false

-- `isolationGate`
unfoldable pub isolation_gate : Env → Result Failure (Unit {0})
isolation_gate env =
    fail_if (env.gate_armed && not (is_enforced env.isolation) && not env.allow_unisolated)
      isolation_refused

abbrev pub mem_port : ℕ → List ℕ → Bool
mem_port p ports = ltb 0 (tally (λ q. q == p) ports)

-- The row that `allocateRow` asks for, less its port.
abbrev pub draft : ℕ → ℕ → Option ℕ → Option Text → Option ℕ → Text → ℕ → Row
draft id challenge team flag expires network now = record {
  id = id;
  challenge_id = challenge;
  team_id = team;
  stage = pending;
  container_id = none;
  host_port = none;
  flag = flag;
  network = network;
  started_at = none;
  expires_at = expires;
  updated_at = now;
}

-- The row that is there already, where an owner index refuses the new one.
abbrev pub existing_row : Row → Option ℕ → List Row → Option Row
existing_row r none rows = shared_row r.challenge_id rows
existing_row r (some team) rows = team_row r.challenge_id team rows

abbrev pub inserted :
    Env
    → Row
    → List Row
    → List Row × Result Failure Row
    → Result Refusal (List Row)
    → List Row × Result Failure Row
inserted env r rows rest (ok rows') = (rows', ok r)
inserted env r rows rest (err shared_taken) = (rows, or_fail (existing_row r none rows) broken)
inserted env r rows rest (err team_taken) = (rows, or_fail (existing_row r r.team_id rows) broken)
inserted env r rows rest (err _) = rest

-- `chk_instances_host_port_range`
abbrev pub is_port_in_range : ℕ → Bool
is_port_in_range p = not (ltb p 30000) && not (ltb 32767 p)

abbrev pub place :
    Env → Row → ℕ → List Row → List Row × Result Failure Row → List Row × Result Failure Row
place env r port rows rest =
    if env.faults create_row || not (is_port_in_range port)
    then (rows, err broken)
    else inserted env (record r { host_port = some port }) rows rest
        (create_instance (record r { host_port = some port }) rows)

-- The loop of `allocateRow` over the ports that are left. `used` is what was listed before it.
unfoldable pub allocate : Env → Row → List ℕ → ℕ → ℕ → List Row → List Row × Result Failure Row
allocate env r used zero port rows = (rows, err no_ports)
allocate env r used (suc left) port rows =
    let rest = allocate env r used left (suc port) rows in
    if mem_port port used then rest else place env r port rows rest

abbrev pub with_new_id : Env → Row → List ℕ → List Row → Option ℕ → List Row × Result Failure Row
with_new_id env r used rows none = (rows, err broken)
with_new_id env r used rows (some id) =
    allocate env (record r { id = id }) used (suc env.port_end - env.port_start) env.port_start rows

-- `allocateRow`, on the ports listed by its first query.
unfoldable pub allocate_row : Env → Row → List ℕ → List Row → List Row × Result Failure Row
allocate_row env r used rows =
    if env.faults list_ports then (rows, err broken) else with_new_id env r used rows env.new_id

-- `DeployReq`, for a team.
pub record DeployReq : Type 0 where
  pub challenge_id : ℕ
  pub team_id : ℕ
  pub flag : Text
  pub expires_at : Option ℕ

abbrev pub own_flag : ChallengeRow → DeployReq → Option Text
own_flag ch req =
    if not (req.flag == []) && ch.flag_mode == "per_instance" then some req.flag else none

abbrev pub ensured :
    Env → ChallengeRow → DeployReq → List Row → Option Row → List Row × Result Failure Row
ensured env ch req rows (some r) = (rows, ok r)
ensured env ch req rows none =
    allocate_row env
      (draft 0 ch.id (some req.team_id) (own_flag ch req) req.expires_at env.network env.now)
      (used_ports rows) rows

-- `ensureTeamRow`
unfoldable pub ensure_team_row :
    Env → ChallengeRow → DeployReq → List Row → List Row × Result Failure Row
ensure_team_row env ch req rows =
    if env.faults get_row
    then (rows, err broken)
    else ensured env ch req rows (team_row ch.id req.team_id rows)

abbrev pub deployed_as : ℕ → ℕ → Stage → Row → Row
deployed_as now container stage r = record r {
  stage = stage;
  container_id = some container;
  started_at = some now;
  updated_at = now;
}

-- `DockerRuntime.Deploy`, by its writes.
abbrev pub run_deploy : ℕ → Outcome → Row → List Row → List Row × Result Failure Row
run_deploy now daemon_down r rows = (rows, err daemon_unavailable)
run_deploy now cannot_start r rows =
    (update_rows r.id (λ s. record s { stage = errored; updated_at = now }) rows, err broken)
run_deploy now (up container stage) r rows = (
  update_rows r.id (deployed_as now container stage) rows,
  ok (deployed_as now container stage r),
)

abbrev pub deploy_row : Env → List Row × Result Failure Row → List Row × Result Failure Row
deploy_row env (rows, err e) = (rows, err e)
deploy_row env (rows, ok r) =
    if is_running r.stage then (rows, ok r) else run_deploy env.now (env.deploys r.id) r rows

-- `getContainerChallenge`
unfoldable pub container_challenge : Env → ℕ → Result Failure ChallengeRow
container_challenge env id = do
  fail_if (env.faults get_challenge) broken
  ch ← or_fail (env.challenge id) not_found
  fail_if (not (ch.kind_name == "container" && ch.has_image && ch.has_port)) not_container
  ok ch

abbrev pub deployed_for :
    Env → DeployReq → List Row → Result Failure ChallengeRow → List Row × Result Failure Row
deployed_for env req rows (err e) = (rows, err e)
deployed_for env req rows (ok ch) = deploy_row env (ensure_team_row env ch req rows)

-- `DeployForTeam`
unfoldable pub deploy_for_team : Env → DeployReq → List Row → List Row × Result Failure Row
deploy_for_team env req rows =
    deployed_for env req rows (do isolation_gate env; container_challenge env req.challenge_id)

-- `DestroyInstance`
unfoldable pub destroy_instance : Env → ℕ → List Row → List Row × Result Failure (Unit {0})
destroy_instance env id rows =
    if env.destroy_fails id
    then (rows, err daemon_unavailable)
    else if env.faults delete_call
    then (rows, err broken)
    else (delete_row id rows, ok tt)
