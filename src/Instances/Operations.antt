-- ===== src/Instances/Operations.antt =====
-- Each operation of internal/scheduler/scheduler.go and internal/runtime/manager.go, and the mark that a
-- reconcile pass makes, keeps every team within the numbers of running instances
-- that are allowed, where these are at least the quota.
use osctf.Events.{Phase}
use osctf.Prelude.{
  ℕ, ◌+◌, ◌<◌, ◌≤◌, ◌≡◌, inl, inr, refl, Bool, true, false, not, Option, none, some, List, [], ◌∷◌,
  arith, if_either, nat_key, text_key, ltb, keep, Result-cases, Result, ok, err, ◌>>◌,
}
use osctf.Instances.Table.{
  Stage, Row, row_by_id, update_rows, team_running, is_running, is_per_team,
}
use osctf.Instances.Manager.{
  Env, ChallengeRow, Failure, DeployReq, deploy_for_team, deployed_for, isolation_gate,
  container_challenge, destroy_instance, delete_call, set_expiry_call, list_rows,
}
use osctf.Instances.Scheduler.{
  Config, admitted_flag, created, start_new, start_or_return, started, start, find_instance, stop,
  born_at, next_expiry, is_ended, extend_from, extended, extend_instance, destroy_locked,
  destroy_current, sweep, cleanup_in, phase_now, cleanup_ended,
}
use osctf.Instances.Quota.{WithinQuota, idle-WithinQuota, keep-WithinQuota}
use osctf.Instances.Ensured.{ensure_team_row-Ensured, deploy_row-WithinQuota}

module _ (quota : ℕ → ℕ) where
  abbrev pub Kept {ℓ} : {A : Type ℓ} → List Row × A → Type 0
  Kept res = WithinQuota quota res.0

  pub destroy-WithinQuota :
      (env : Env) (id : ℕ) (rows : List Row)
      → WithinQuota quota rows
      → WithinQuota quota (destroy_instance env id rows).0
  unfolding destroy_instance
  destroy-WithinQuota env id rows w =
      if_either Kept (env.destroy_fails id) w
        (if_either Kept (env.faults delete_call) w (keep-WithinQuota _ quota rows w))

  deploy_for_team-WithinQuota :
      (env : Env) (req : DeployReq) (rows : List Row)
      → WithinQuota quota rows
      → team_running req.team_id rows < quota req.team_id
      → WithinQuota quota (deploy_for_team env req rows).0
  unfolding deploy_for_team
  deploy_for_team-WithinQuota env req rows w room =
      allowed (do isolation_gate env; container_challenge env req.challenge_id)
    where
      allowed :
          (r : Result Failure ChallengeRow) → WithinQuota quota (deployed_for env req rows r).0
      allowed (err e) = w
      allowed (ok ch) =
          deploy_row-WithinQuota quota (some req.team_id) env rows _
            (ensure_team_row-Ensured env ch req rows) w
            (λ team e. let same : req.team_id ≡ team = cc in rw (← same) room)

  -- The guard of `Start` leaves room for one instance more.
  admitted_room :
      (cfg : Config) (env : Env) (team : ℕ) (ch : ChallengeRow) (rows : List Row) (flag : _)
      → admitted_flag cfg env team ch rows ≡ ok flag
      → team_running team rows < cfg.quota
  unfolding admitted_flag
  admitted_room cfg env team ch rows flag h = ground arith

  pub marked-WithinQuota :
      (id now : ℕ) (stage : Stage) (rows : List Row)
      → is_running stage ≡ false
      → WithinQuota quota rows
      → WithinQuota quota (update_rows id (λ r. record r { stage = stage; updated_at = now }) rows)
  marked-WithinQuota id now stage rows idle =
      idle-WithinQuota id _ (λ r. refl) (λ r. refl) (λ r i. ground (arith, idle, i)) quota rows

  pub stop-WithinQuota :
      (env : Env) (team challenge : ℕ) (rows : List Row)
      → WithinQuota quota rows
      → WithinQuota quota (stop env team challenge rows).0
  unfolding stop
  stop-WithinQuota env team challenge rows w =
      elim (Result-cases (find_instance env team challenge rows)) [
        | inl (e, h) ↦ rw h w
        | inr (r, h) ↦ rw h (destroy-WithinQuota env r.id rows w)
      ]

  destroy_locked-WithinQuota :
      (env : Env) (busy : ℕ → Bool) (eligible : Row → Bool) (r : Row) (rows : List Row)
      → WithinQuota quota rows
      → WithinQuota quota (destroy_locked env busy eligible r rows)
  unfolding destroy_locked
  destroy_locked-WithinQuota env busy eligible r rows w =
      if_either (WithinQuota quota) _ w (current (row_by_id r.id rows))
    where
      current : (o : Option Row) → WithinQuota quota (destroy_current env eligible r.id rows o)
      current none = w
      current (some cur) =
          if_either (WithinQuota quota) (eligible cur) (destroy-WithinQuota env r.id rows w) w

  pub sweep-WithinQuota :
      (env : Env) (busy : ℕ → Bool) (eligible : Row → Bool) (listed rows : List Row)
      → WithinQuota quota rows
      → WithinQuota quota (sweep env busy eligible listed rows)
  unfolding sweep
  sweep-WithinQuota env busy eligible [] rows w = w
  sweep-WithinQuota env busy eligible (r ∷ listed) rows w =
      sweep-WithinQuota env busy eligible listed _
        (destroy_locked-WithinQuota env busy eligible r rows w)

  pub cleanup-WithinQuota :
      (env : Env) (busy : ℕ → Bool) (rows : List Row)
      → WithinQuota quota rows
      → WithinQuota quota (cleanup_ended env busy rows).0
  unfolding cleanup_ended
  cleanup-WithinQuota env busy rows w = in_phase (phase_now env)
    where
      in_phase : (o : Option Phase) → WithinQuota quota (cleanup_in env busy rows o).0
      in_phase none = w
      in_phase (some p) = if_either Kept (not (is_ended p)) w (
          if_either Kept (env.faults list_rows) w
            (sweep-WithinQuota env busy (λ r. true) (keep is_per_team rows) rows w))

module _ (cfg : Config) (quota : ℕ → ℕ) (covers : (t : ℕ) → cfg.quota ≤ quota t) (env : Env)
    (team : ℕ) where
  pub extend-WithinQuota :
      (challenge : ℕ) (rows : List Row)
      → WithinQuota quota rows
      → WithinQuota quota (extend_instance cfg env team challenge rows).0
  unfolding extend_instance
  extend-WithinQuota challenge rows w = from _
    where
      longer : (r : Row) (o : Option ℕ) → WithinQuota quota (extend_from cfg env r rows o).0
      longer r none = w
      longer r (some at) =
          if_either (Kept quota) (not (ltb at (born_at env.now r.started_at + cfg.max_ttl))) w (
            if_either (Kept quota) (env.faults set_expiry_call) w (
              idle-WithinQuota r.id
                (λ q. record q {
                  expires_at = some (next_expiry cfg env.now r.started_at at);
                  updated_at = env.now;
                })
                (λ q. refl) (λ q. refl) (λ q i. i) quota rows w))

      from : (res : Result Failure Row) → WithinQuota quota (extended cfg env rows res).0
      from (err e) = w
      from (ok r) = longer r r.expires_at

  start_new-WithinQuota :
      (ch : ChallengeRow) (rows : List Row)
      → WithinQuota quota rows
      → WithinQuota quota (start_new cfg env team ch rows (admitted_flag cfg env team ch rows)).0
  start_new-WithinQuota ch rows w = elim (Result-cases (admitted_flag cfg env team ch rows)) [
    | inl (e, h) ↦ rw h w
    | inr (flag, h) ↦ rw h (
        of_result _ (
          deploy_for_team-WithinQuota quota env _ rows w
            (omega (arith, covers team, admitted_room quota cfg env team ch rows flag h))))
  ]
    where
      of_result :
          (res : List Row × Result Failure Row)
          → WithinQuota quota res.0
          → WithinQuota quota (created res).0
      of_result (rows', ok r) k = k
      of_result (rows', err e) k = k

  pub start-WithinQuota :
      (challenge : ℕ) (rows : List Row)
      → WithinQuota quota rows
      → WithinQuota quota (start cfg env team challenge rows).0
  unfolding start
  start-WithinQuota challenge rows w = from _
    where
      at_row :
          (ch : ChallengeRow) (o : Option Row)
          → WithinQuota quota (start_or_return cfg env team ch rows o).0
      at_row ch none = start_new-WithinQuota ch rows w
      at_row ch (some r) =
          if_either (Kept quota) (is_running r.stage) w (start_new-WithinQuota ch rows w)

      from :
          (res : Result Failure ChallengeRow) → WithinQuota quota (started cfg env team rows res).0
      from (err e) = w
      from (ok ch) = if_either (Kept quota) (env.faults _) w (at_row ch _)
