-- ===== src/Instances/Restarts.antt =====
-- A start of an instance that is there but does not run, by internal/scheduler/scheduler.go and
-- `ensureTeamRow` of internal/runtime/manager.go.
use osctf.Prelude.{
  ℕ, ◌≡◌, inl, inr, refl, sym, ap, ◌∙◌, Bool, none, some, List, nat_key, text_key, arith,
  Bool-cases, Option-cases, Result-cases, ok,
}
use osctf.Instances.Table.{Row, team_row, is_running}
use osctf.Instances.Manager.{
  Env, ChallengeRow, Outcome, daemon_down, cannot_start, up, DeployReq, get_row, isolation_gate,
  container_challenge, ensure_team_row, run_deploy, deploy_row, deploy_for_team,
}
use osctf.Instances.Scheduler.{Config, start}
use osctf.Instances.Replies.{start-accepted}

run_deploy-expiry :
    (now : ℕ) (out : Outcome) (x r : Row) (rows rows' : List Row)
    → run_deploy now out x rows ≡ (rows', ok r)
    → r.expires_at ≡ x.expires_at
run_deploy-expiry now daemon_down x r rows rows' h = absurd (ground (arith, h))
run_deploy-expiry now cannot_start x r rows rows' h = absurd (ground (arith, h))
run_deploy-expiry now (up c stage) x r rows rows' h = ground (arith, h)

deploy_row-expiry :
    (env : Env) (x r : Row) (rows rows' : List Row)
    → deploy_row env (rows, ok x) ≡ (rows', ok r)
    → r.expires_at ≡ x.expires_at
deploy_row-expiry env x r rows rows' h = elim (Bool-cases (is_running x.stage)) [
  | inl y ↦ ground (arith, y, h)
  | inr n ↦ run_deploy-expiry env.now (env.deploys x.id) x r rows rows' (ground (arith, n, h))
]

container_challenge-found :
    (env : Env) (id : ℕ) (ch : ChallengeRow)
    → container_challenge env id ≡ ok ch
    → env.challenge id ≡ some ch
unfolding container_challenge
container_challenge-found env id ch h = elim (Option-cases (env.challenge id)) [
  | inl n ↦ ground (arith, n, h)
  | inr (c, n) ↦ ground (arith, n, h)
]

module _ (env : Env)
    (keyed : (id : ℕ) (ch : ChallengeRow) → env.challenge id ≡ some ch → ch.id ≡ id) where
  -- The row that is there is what a deploy works on.
  ensured-expiry :
      (ch : ChallengeRow) (req : DeployReq) (x r : Row) (rows rows' : List Row)
      → team_row ch.id req.team_id rows ≡ some x
      → deploy_row env (ensure_team_row env ch req rows) ≡ (rows', ok r)
      → r.expires_at ≡ x.expires_at
  unfolding ensure_team_row
  ensured-expiry ch req x r rows rows' t h = elim (Bool-cases (env.faults get_row)) [
    | inl f ↦ absurd (ground (arith, f, h))
    | inr f ↦
        let there : ensure_team_row env ch req rows ≡ (rows, ok x) = rw (f, t) refl in
        deploy_row-expiry env x r rows rows' (ap (deploy_row env) (sym there) ∙ h)
  ]

  deploy_for_team-expiry :
      (req : DeployReq) (x r : Row) (rows rows' : List Row)
      → team_row req.challenge_id req.team_id rows ≡ some x
      → deploy_for_team env req rows ≡ (rows', ok r)
      → r.expires_at ≡ x.expires_at
  unfolding deploy_for_team
  deploy_for_team-expiry req x r rows rows' t h = elim (Result-cases (isolation_gate env)) [
    | inl (e, g) ↦ absurd (ground (arith, g, h))
    | inr (u, g) ↦ elim (Result-cases (container_challenge env req.challenge_id)) [
      | inl (e, k) ↦ absurd (ground (arith, g, k, h))
      | inr (ch, k) ↦
          let same : ch.id ≡ req.challenge_id =
            keyed req.challenge_id ch (container_challenge-found env req.challenge_id ch k) in
          ensured-expiry ch req x r rows rows' (ap (λ i. team_row i req.team_id rows) same ∙ t)
            (ground (arith, g, k, h))
    ]
  ]

  -- Where the rows of challenges are those of their identifiers, a start that succeeds where the
  -- team has an instance of the challenge already returns the expiry that this instance had,
  -- whatever its stage and the TTL.
  pub start-expiry :
      (cfg : Config) (team challenge : ℕ) (rows rows' : List Row) (x r : Row) (fresh : Bool)
      → team_row challenge team rows ≡ some x
      → start cfg env team challenge rows ≡ (rows', ok (r, fresh))
      → r.expires_at ≡ x.expires_at
  start-expiry cfg team challenge rows rows' x r fresh t h =
      let (ch, startable, how) = start-accepted cfg env team challenge rows rows' r fresh h in
      let same = keyed challenge ch startable.there in
      let t' : team_row ch.id team rows ≡ some x = ap (λ i. team_row i team rows) same ∙ t in
      elim how [
        | inl (f, g, found, y) ↦
            ap (λ o. elim o [ none ↦ none | some s ↦ s.expires_at ]) (sym found ∙ t')
        | inr (flag, f, room, deployed) ↦ deploy_for_team-expiry _ x r rows rows' t' deployed
      ]
