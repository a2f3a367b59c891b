-- ===== src/Instances/SharedOperations.antt =====
-- The operations on shared instances of internal/runtime/manager.go keep every team within
-- the number of running instances that is allowed.
use osctf.Prelude.{
  ℕ, ◌≡◌, inl, inr, refl, Option, none, some, List, arith, if_either, nat_key, text_key,
  Result-cases, Result, ok, err,
}
use osctf.Submissions.Store.{first}
use osctf.Instances.Table.{stopped, lost, Row, shared_row, is_shared_of, is_none}
use osctf.Instances.Manager.{
  Env, Failure, container_challenge, update_call, not_found, daemon_unavailable, get_row,
}
use osctf.Instances.Shared.{
  Live, status_of, shared_read, destroyed_if_there, vanished, unreachable, inspect_fails, seen,
  destroy_for_challenge, status, status_at, refreshed, get_shared, deploy_shared, restart,
  find_shared, destroy_shared,
}
use osctf.Instances.Quota.{WithinQuota}
use osctf.Instances.Ensured.{
  raised-WithinQuota, first-owns, ensure_shared_row-Ensured, deploy_row-WithinQuota,
}
use osctf.Instances.Operations.{Kept, marked-WithinQuota, destroy-WithinQuota}

module _ (quota : ℕ → ℕ) where
  pub deploy_shared-WithinQuota :
      (env : Env) (challenge : ℕ) (rows : List Row)
      → WithinQuota quota rows
      → WithinQuota quota (deploy_shared env challenge rows).0
  unfolding deploy_shared
  deploy_shared-WithinQuota env challenge rows w =
      elim (Result-cases (container_challenge env challenge)) [
        | inl (e, h) ↦ rw h w
        | inr (ch, h) ↦ rw h (
            deploy_row-WithinQuota quota none env rows _ (ensure_shared_row-Ensured env ch rows) w
              (λ team e. cc))
      ]

  pub restart-WithinQuota :
      (env : Env) (challenge : ℕ) (rows : List Row)
      → WithinQuota quota rows
      → WithinQuota quota (restart env challenge rows).0
  unfolding restart
  restart-WithinQuota env challenge rows w = elim (Result-cases (find_shared env challenge rows)) [
    | inl (e, h) ↦ rw h w
    | inr (r, h) ↦ rw h (
        if_either (Kept quota) (env.destroy_fails r.id) w (
          deploy_shared-WithinQuota env challenge _
            (marked-WithinQuota quota r.id env.now stopped rows refl w)))
  ]

  pub destroy_shared-WithinQuota :
      (env : Env) (challenge : ℕ) (rows : List Row)
      → WithinQuota quota rows
      → WithinQuota quota (destroy_shared env challenge rows).0
  unfolding destroy_shared
  destroy_shared-WithinQuota env challenge rows w =
      elim (Result-cases (find_shared env challenge rows)) [
        | inl (e, h) ↦ rw h w
        | inr (r, h) ↦ rw h (destroy-WithinQuota quota env r.id rows w)
      ]

  status_at-WithinQuota :
      (env : Env) (live : Live) (challenge : ℕ) (r : Row) (rows : List Row)
      → first (is_shared_of challenge) rows ≡ some r
      → WithinQuota quota rows
      → WithinQuota quota (status_at env live r.id rows).0
  status_at-WithinQuota env vanished challenge r rows h w =
      if_either (WithinQuota quota) (env.faults update_call) w
        (marked-WithinQuota quota r.id env.now lost rows refl w)
  status_at-WithinQuota env unreachable challenge r rows h w = w
  status_at-WithinQuota env inspect_fails challenge r rows h w = w
  status_at-WithinQuota env (seen stage) challenge r rows h w =
      if_either (Kept quota) (env.faults update_call) w (
        raised-WithinQuota quota none r.id (λ s. record s { stage = stage; updated_at = env.now })
          (λ s. refl) (λ s. refl) rows w
          (first-owns none (is_shared_of challenge) (λ q y. ground (arith, y)) rows r h)
          (λ team e. cc))

  pub get_shared-WithinQuota :
      (env : Env) (live : Live) (challenge : ℕ) (rows : List Row)
      → WithinQuota quota rows
      → WithinQuota quota (get_shared env live challenge rows).0
  unfolding get_shared shared_row
  get_shared-WithinQuota env live challenge rows w =
      if_either (Kept quota) (env.faults get_row) w
        (from (first (is_shared_of challenge) rows) refl)
    where
      served :
          (res : List Row × Result Failure (Unit {0}))
          → WithinQuota quota res.0
          → WithinQuota quota (refreshed res).0
      served (xs, ok done) k = k
      served (xs, err daemon_unavailable) k = k
      served (xs, err not_found) k = k
      served (xs, err _) k = k

      at_row :
          (r : Row) (o : Option Row)
          → first (is_shared_of challenge) rows ≡ some r
          → WithinQuota quota (status_of env live r.id rows o).0
      at_row r none h = w
      at_row r (some x) h =
          if_either (Kept quota) (is_none x.container_id) w
            (status_at-WithinQuota env live challenge r rows h w)

      from :
          (o : Option Row)
          → first (is_shared_of challenge) rows ≡ o
          → WithinQuota quota (shared_read env live rows o).0
      from none h = w
      from (some r) h = served (status env live r.id rows) (at_row r _ h)

  pub destroy_for_challenge-WithinQuota :
      (env : Env) (challenge : ℕ) (rows : List Row)
      → WithinQuota quota rows
      → WithinQuota quota (destroy_for_challenge env challenge rows).0
  unfolding destroy_for_challenge
  destroy_for_challenge-WithinQuota env challenge rows w =
      if_either (Kept quota) (env.faults get_row) w (from (shared_row challenge rows))
    where
      from : (o : Option Row) → WithinQuota quota (destroyed_if_there env challenge rows o).0
      from none = w
      from (some r) = destroy_shared-WithinQuota env challenge rows w
