-- ===== src/Instances/Shared.antt =====
-- The instances that all teams share: internal/runtime/manager.go, and `Status` of
-- internal/runtime/docker.go by its writes.
use osctf.Prelude.{
  ℕ, Bool, true, false, Option, none, some, List, [], ◌∷◌, ◌||◌, not, if◌then◌else◌, nat_key,
  text_key, Result, ok, err, ◌>>◌, fail_if, or_fail,
}
use osctf.Submissions.Store.{bytes_key}
use osctf.Instances.Table.{
  Stage, lost, stopped, Row, row_by_id, shared_row, update_rows, used_ports, is_none,
}
use osctf.Instances.Manager.{
  get_row, get_again, update_call, broken, not_found, daemon_unavailable, ChallengeRow, Env,
  Failure, allocate_row, broken, container_challenge, daemon_unavailable, deploy_row,
  destroy_instance, draft, get_again, get_row, not_found, update_call,
}

abbrev pub ensured_shared :
    Env → ChallengeRow → List Row → Option Row → List Row × Result Failure Row
ensured_shared env ch rows (some r) = (rows, ok r)
ensured_shared env ch rows none =
    allocate_row env (draft 0 ch.id none none none env.network env.now) (used_ports rows) rows

-- `ensureSharedRow`
unfoldable pub ensure_shared_row : Env → ChallengeRow → List Row → List Row × Result Failure Row
ensure_shared_row env ch rows =
    if env.faults get_row
    then (rows, err broken)
    else ensured_shared env ch rows (shared_row ch.id rows)

abbrev pub deployed_shared :
    Env → List Row → Result Failure ChallengeRow → List Row × Result Failure Row
deployed_shared env rows (err e) = (rows, err e)
deployed_shared env rows (ok ch) = deploy_row env (ensure_shared_row env ch rows)

-- `Manager.Deploy`
unfoldable pub deploy_shared : Env → ℕ → List Row → List Row × Result Failure Row
deploy_shared env challenge rows = deployed_shared env rows (container_challenge env challenge)

unfoldable pub find_shared : Env → ℕ → List Row → Result Failure Row
find_shared env challenge rows = do
  fail_if (env.faults get_row) broken
  or_fail (shared_row challenge rows) not_found

abbrev pub restarted : Env → ℕ → List Row → Result Failure Row → List Row × Result Failure Row
restarted env challenge rows (err e) = (rows, err e)
restarted env challenge rows (ok r) =
    if env.destroy_fails r.id
    then (rows, err daemon_unavailable)
    else deploy_shared env challenge
        (update_rows r.id (λ s. record s { stage = stopped; updated_at = env.now }) rows)

-- `Restart`, with `DockerRuntime.Stop`.
unfoldable pub restart : Env → ℕ → List Row → List Row × Result Failure Row
restart env challenge rows = restarted env challenge rows (find_shared env challenge rows)

abbrev pub destroyed_shared :
    Env → List Row → Result Failure Row → List Row × Result Failure (Unit {0})
destroyed_shared env rows (err e) = (rows, err e)
destroyed_shared env rows (ok r) = destroy_instance env r.id rows

-- `Manager.Destroy`
unfoldable pub destroy_shared : Env → ℕ → List Row → List Row × Result Failure (Unit {0})
destroy_shared env challenge rows = destroyed_shared env rows (find_shared env challenge rows)

-- What the daemon shows of a container.
pub data Live : Type 0 where
  vanished unreachable inspect_fails : Live
  seen : Stage → Live

-- `DockerRuntime.Status`, by its writes.
abbrev pub status_at : Env → Live → ℕ → List Row → List Row × Result Failure (Unit {0})
status_at env vanished id rows = (
  (if env.faults update_call
      then rows
      else update_rows id (λ s. record s { stage = lost; updated_at = env.now }) rows),
  ok tt,
)
status_at env unreachable id rows = (rows, err daemon_unavailable)
status_at env inspect_fails id rows = (rows, err broken)
status_at env (seen stage) id rows =
    if env.faults update_call
    then (rows, err broken)
    else (update_rows id (λ s. record s { stage = stage; updated_at = env.now }) rows, ok tt)

abbrev pub status_of : Env → Live → ℕ → List Row → Option Row → List Row × Result Failure (Unit {0})
status_of env live id rows none = (rows, err broken)
status_of env live id rows (some r) =
    if is_none r.container_id then (rows, ok tt) else status_at env live id rows

abbrev pub status : Env → Live → ℕ → List Row → List Row × Result Failure (Unit {0})
status env live id rows =
    status_of env live id rows (if env.faults get_again then none else row_by_id id rows)

-- `refreshHealth`: a status read of each instance that has a container and that no action of the pass
-- changed, with no other operation in between.
unfoldable pub refresh_health :
    Env → (ℕ → Live) → (ℕ → Bool) → (ℕ → Bool) → List ℕ → List Row → List Row
refresh_health env live present touched [] rows = rows
refresh_health env live present touched (id ∷ ids) rows =
    let read = (status env (live id) id rows).0 in
    refresh_health env live present touched ids
      (if not (present id) || touched id then rows else read)

-- `refresh`: the last known state is served while the daemon is away.
abbrev pub refreshed : List Row × Result Failure (Unit {0}) → List Row × Result Failure Bool
refreshed (rows, ok done) = (rows, ok true)
refreshed (rows, err daemon_unavailable) = (rows, ok true)
refreshed (rows, err e) = (rows, err e)

abbrev pub shared_read : Env → Live → List Row → Option Row → List Row × Result Failure Bool
shared_read env live rows none = (rows, ok false)
shared_read env live rows (some r) = refreshed (status env live r.id rows)

-- `Manager.Get`, with whether there is an instance for its result.
unfoldable pub get_shared : Env → Live → ℕ → List Row → List Row × Result Failure Bool
get_shared env live challenge rows =
    if env.faults get_row
    then (rows, err broken)
    else shared_read env live rows (shared_row challenge rows)

abbrev pub destroyed_if_there :
    Env → ℕ → List Row → Option Row → List Row × Result Failure (Unit {0})
destroyed_if_there env challenge rows none = (rows, ok tt)
destroyed_if_there env challenge rows (some r) = destroy_shared env challenge rows

-- `DestroyForChallenge`
unfoldable pub destroy_for_challenge : Env → ℕ → List Row → List Row × Result Failure (Unit {0})
destroy_for_challenge env challenge rows =
    if env.faults get_row
    then (rows, err broken)
    else destroyed_if_there env challenge rows (shared_row challenge rows)
