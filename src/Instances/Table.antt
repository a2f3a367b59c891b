-- ===== src/Instances/Table.antt =====
-- The table of instances, with its unique indexes, and the queries of
-- internal/db/queries/instances.sql that the manager and the scheduler run.
use osctf.Prelude.{
  ℕ, Bool, true, false, ◌&&◌, not, Option, none, some, List, [], ◌∷◌, ◌++◌, if◌then◌else◌, ◌==◌,
  nat_key, ltb, keep, tally, Result, ok, err,
}
use osctf.Submissions.Store.{Text, bytes_key, first}

-- `State` of internal/runtime/runtime.go
pub data Stage : Type 0 where
  pending starting running unhealthy stopped errored lost : Stage

-- `gen.Instance`
pub record Row : Type 0 where
  pub id : ℕ
  pub challenge_id : ℕ
  pub team_id : Option ℕ
  pub stage : Stage
  pub container_id : Option ℕ
  pub host_port : Option ℕ
  pub flag : Option Text
  pub network : Text
  pub started_at : Option ℕ
  pub expires_at : Option ℕ
  pub updated_at : ℕ

abbrev pub same_number : Option ℕ → Option ℕ → Bool
same_number (some a) (some b) = a == b
same_number _ _ = false

abbrev pub same_text : Option Text → Option Text → Bool
same_text (some a) (some b) = a == b
same_text _ _ = false

abbrev pub is_none {ℓ} : {A : Type ℓ} → Option A → Bool
is_none none = true
is_none (some a) = false

-- What an index keeps two rows from sharing.
abbrev pub is_shared_of : ℕ → Row → Bool
is_shared_of challenge r = r.challenge_id == challenge && is_none r.team_id

abbrev pub is_team_of : ℕ → Option ℕ → Row → Bool
is_team_of challenge team r = r.challenge_id == challenge && same_number r.team_id team

abbrev pub has_port : Option ℕ → Row → Bool
has_port port r = same_number r.host_port port

pub data Refusal : Type 0 where
  id_taken port_taken shared_taken team_taken flag_taken : Refusal

abbrev pub occurs : (Row → Bool) → List Row → Bool
occurs p rows = ltb 0 (tally p rows)

abbrev pub has_id : ℕ → Row → Bool
has_id id r = r.id == id

-- `CreateInstance`, the indexes tried in the order of their making.
unfoldable pub create_instance : Row → List Row → Result Refusal (List Row)
create_instance r rows =
    if occurs (has_id r.id) rows
    then err id_taken
    else if occurs (has_port r.host_port) rows
    then err port_taken
    else if is_none r.team_id && occurs (is_shared_of r.challenge_id) rows
    then err shared_taken
    else if occurs (is_team_of r.challenge_id r.team_id) rows
    then err team_taken
    else if occurs (λ s. same_text s.flag r.flag) rows
    then err flag_taken
    else ok (rows ++ r ∷ [])

-- `GetInstanceByID`
unfoldable pub row_by_id : ℕ → List Row → Option Row
row_by_id id = first (has_id id)

-- `GetSharedInstance`
unfoldable pub shared_row : ℕ → List Row → Option Row
shared_row challenge = first (is_shared_of challenge)

-- `GetTeamInstance`
unfoldable pub team_row : ℕ → ℕ → List Row → Option Row
team_row challenge team = first (is_team_of challenge (some team))

abbrev pub update_rows : ℕ → (Row → Row) → List Row → List Row
update_rows id change [] = []
update_rows id change (r ∷ rows) = (if r.id == id then change r else r) ∷ update_rows id change rows

-- `SetInstanceExpiry`
abbrev pub set_expiry : ℕ → ℕ → ℕ → List Row → List Row
set_expiry now id at rows =
    update_rows id (λ r. record r { expires_at = some at; updated_at = now }) rows

-- `DeleteInstance`
abbrev pub delete_row : ℕ → List Row → List Row
delete_row id = keep (λ r. not (r.id == id))

abbrev pub is_running : Stage → Bool
is_running running = true
is_running _ = false

-- `CountTeamRunningInstances`
abbrev pub runs_for : ℕ → Row → Bool
runs_for team r = same_number r.team_id (some team) && is_running r.stage

unfoldable pub team_running : ℕ → List Row → ℕ
team_running team = tally (runs_for team)

-- `ListUsedPorts`
abbrev pub with_port : Option ℕ → List ℕ → List ℕ
with_port none ports = ports
with_port (some p) ports = p ∷ ports

unfoldable pub used_ports : List Row → List ℕ
used_ports [] = []
used_ports (r ∷ rows) = with_port r.host_port (used_ports rows)

abbrev pub is_before : Option ℕ → ℕ → Bool
is_before none now = false
is_before (some at) now = ltb at now

abbrev pub is_over : Stage → Bool
is_over stopped = true
is_over errored = true
is_over lost = true
is_over _ = false

-- `ListExpiredInstances`
abbrev pub is_expired : ℕ → Row → Bool
is_expired now r = is_before r.expires_at now && not (is_over r.stage)

abbrev pub holds_port_idly : Stage → Bool
holds_port_idly pending = true
holds_port_idly errored = true
holds_port_idly lost = true
holds_port_idly _ = false

-- `ListStaleInstances`
abbrev pub is_stale : ℕ → Row → Bool
is_stale cutoff r = holds_port_idly r.stage && ltb r.updated_at cutoff

abbrev pub is_per_team : Row → Bool
is_per_team r = not (is_none r.team_id)
