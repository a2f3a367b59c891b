-- ===== src/Instances/Replies.antt =====
-- What a success of `Start` and `Extend` of internal/scheduler/scheduler.go means.
use osctf.Prelude.{
  ℕ, ◌+◌, ◌≤◌, ◌<◌, ◌≡◌, ◌⊎◌, inl, inr, refl, sym, ap, ◌∙◌, Bool, true, false, Option, none, some,
  List, arith, ◌==◌, nat_key, text_key, ltb, Bool-cases, Option-cases, Result-cases, Result, ok,
  err,
}
use osctf.Events.{Event, phase}
use osctf.Submissions.Admission
use osctf.Submissions.Store.{Text}
use osctf.Instances.Table.{Row, team_row, team_running, set_expiry, is_running}
use osctf.Instances.Manager.{Env, ChallengeRow, Failure, get_row, deploy_for_team}
use osctf.Instances.Scheduler.{
  Config, ttl_for, require_running, startable, admitted_flag, created, start_new, start_or_return,
  started, start, find_instance, born_at, next_expiry, extend_from, extend_instance,
}

-- The event runs at the time of the operation.
pub record Runs (env : Env) : Type 0 where
  pub event : Event
  pub there : env.event ≡ some event
  pub in_phase : Admission.is_running (phase env.now event) ≡ true

require_running-Runs : (env : Env) (u : Unit {0}) → require_running env ≡ ok u → Runs env
unfolding require_running
require_running-Runs env u h = elim (Option-cases env.event) [
  | inl n ↦ ground (arith, n, h)
  | inr (e, n) ↦ record { event = e; there = n; in_phase = ground (arith, n, h) }
]

-- A challenge whose instance a team may start.
pub record Startable (env : Env) (challenge : ℕ) (ch : ChallengeRow) : Type 0 where
  pub there : env.challenge challenge ≡ some ch
  pub visible : ch.visible ≡ true
  pub container : (ch.kind_name == "container") ≡ true
  pub per_team : (ch.instancing == "per_team") ≡ true
  pub runs : Runs env

startable-Startable :
    (env : Env) (challenge : ℕ) (ch : ChallengeRow)
    → startable env challenge ≡ ok ch
    → Startable env challenge ch
unfolding startable
startable-Startable env challenge ch h = elim (Option-cases (env.challenge challenge)) [
  | inl n ↦ ground (arith, n, h)
  | inr (c, n) ↦ elim (Result-cases (require_running env)) [
    | inl (e, k) ↦ ground (arith, n, k, h)
    | inr (u, k) ↦
        let same : c ≡ ch = ground (arith, n, k, h) in
        record {
          there = n ∙ ap (λ x. some x) same;
          visible = ground (arith, n, k, h);
          container = ground (arith, n, k, h);
          per_team = ground (arith, n, k, h);
          runs = require_running-Runs env u k;
        }
  ]
]

module _ (cfg : Config) (env : Env) (team : ℕ) where
  -- The two ways that a start succeeds on a challenge.
  abbrev pub StartOf : ChallengeRow → List Row → List Row → Row → Bool → Type 0
  StartOf ch rows rows' r fresh =
      ((fresh ≡ false)
        × (rows' ≡ rows)
        × (team_row ch.id team rows ≡ some r)
        × (is_running r.stage ≡ true))
      ⊎ ((flag : Text) × (fresh ≡ true)
          × (team_running team rows < cfg.quota)
          × (deploy_for_team env
                (record {
                  challenge_id = ch.id;
                  team_id = team;
                  flag = flag;
                  expires_at = ttl_for cfg env ch;
                })
                rows
              ≡ (rows', ok r)))

  room_for :
      (ch : ChallengeRow) (rows : List Row) (flag : Text)
      → admitted_flag cfg env team ch rows ≡ ok flag
      → team_running team rows < cfg.quota
  unfolding admitted_flag
  room_for ch rows flag h = ground arith

  start_new-StartOf :
      (ch : ChallengeRow) (rows rows' : List Row) (r : Row) (fresh : Bool)
      → start_new cfg env team ch rows (admitted_flag cfg env team ch rows) ≡ (rows', ok (r, fresh))
      → StartOf ch rows rows' r fresh
  start_new-StartOf ch rows rows' r fresh h =
      elim (Result-cases (admitted_flag cfg env team ch rows)) [
        | inl (e, k) ↦ absurd (ground (arith, k, h))
        | inr (flag, k) ↦
            from flag (room_for ch rows flag k) _ refl
              (ap (start_new cfg env team ch rows) (sym k) ∙ h)
      ]
    where
      from :
          (flag : Text)
          → team_running team rows < cfg.quota
          → (res : List Row × Result Failure Row)
          → deploy_for_team env
              (record {
                challenge_id = ch.id;
                team_id = team;
                flag = flag;
                expires_at = ttl_for cfg env ch;
              })
              rows
            ≡ res
          → created res ≡ (rows', ok (r, fresh))
          → StartOf ch rows rows' r fresh
      from flag room (xs, ok x) k g = inr (flag, ground (arith, g), room, ground (arith, k, g))
      from flag room (xs, err e) k g = absurd (ground (arith, g))

  -- A start that succeeds does so on a visible container challenge with instances per team, while
  -- the event runs, and either returns the running instance of the team and changes no row, or
  -- the team is below its quota and the reply and the rows are those of the deploy.
  pub start-accepted :
      (challenge : ℕ) (rows rows' : List Row) (r : Row) (fresh : Bool)
      → start cfg env team challenge rows ≡ (rows', ok (r, fresh))
      → (ch : ChallengeRow) × Startable env challenge ch × StartOf ch rows rows' r fresh
  unfolding start
  start-accepted challenge rows rows' r fresh h = from _ refl h
    where
      at_row :
          (ch : ChallengeRow) (o : Option Row)
          → team_row ch.id team rows ≡ o
          → start_or_return cfg env team ch rows o ≡ (rows', ok (r, fresh))
          → StartOf ch rows rows' r fresh
      at_row ch none k g = start_new-StartOf ch rows rows' r fresh g
      at_row ch (some x) k g = elim (Bool-cases (is_running x.stage)) [
        | inl y ↦ inl (
          ground (arith, y, g),
          ground (arith, y, g),
          ground (arith, k, y, g),
          ground (arith, y, g),
        )
        | inr n ↦ start_new-StartOf ch rows rows' r fresh (ground (arith, n, g))
      ]

      from :
          (res : Result Failure ChallengeRow)
          → startable env challenge ≡ res
          → started cfg env team rows res ≡ (rows', ok (r, fresh))
          → (ch : ChallengeRow) × Startable env challenge ch × StartOf ch rows rows' r fresh
      from (err e) k g = absurd (ground (arith, g))
      from (ok ch) k g = elim (Bool-cases (env.faults get_row)) [
        | inl f ↦ absurd (ground (arith, f, g))
        | inr f ↦
            (ch, startable-Startable env challenge ch k, at_row ch _ refl (ground (arith, f, g)))
      ]

  -- The two ways that an extension of a row succeeds.
  abbrev pub Extension : Row → List Row → List Row → Row → Type 0
  Extension r rows rows' s =
      ((r.expires_at ≡ none) × (rows' ≡ rows) × (s ≡ r))
      ⊎ ((at next : ℕ) × (r.expires_at ≡ some at)
          × (s.expires_at ≡ some next)
          × (rows' ≡ set_expiry env.now r.id next rows)
          × (at ≤ next)
          × (next ≤ at + cfg.extend)
          × (next ≤ born_at env.now r.started_at + cfg.max_ttl))

  next_expiry-bounds :
      (born : Option ℕ) (at : ℕ)
      → at < born_at env.now born + cfg.max_ttl
      → (at ≤ next_expiry cfg env.now born at)
        × (next_expiry cfg env.now born at ≤ at + cfg.extend)
        × (next_expiry cfg env.now born at ≤ born_at env.now born + cfg.max_ttl)
  next_expiry-bounds born at h = ground (arith, h)

  extend_from-Extension :
      (r : Row) (rows rows' : List Row) (s : Row) (o : Option ℕ)
      → r.expires_at ≡ o
      → extend_from cfg env r rows o ≡ (rows', ok s)
      → Extension r rows rows' s
  extend_from-Extension r rows rows' s none e h = inl (e, ground (arith, h), ground (arith, h))
  extend_from-Extension r rows rows' s (some at) e h =
      elim (Bool-cases (ltb at (born_at env.now r.started_at + cfg.max_ttl))) [
        | inl y ↦
            let below : at < born_at env.now r.started_at + cfg.max_ttl = ground (arith, y) in
            let (later, step, cap) = next_expiry-bounds r.started_at at below in
            inr (
              at,
              next_expiry cfg env.now r.started_at at,
              e,
              ground (arith, y, h),
              ground (arith, y, h),
              later,
              step,
              cap,
            )
        | inr n ↦ absurd (ground (arith, n, h))
      ]

  -- An extension that succeeds does so while the event runs, on the instance of the team; with no
  -- expiry it changes nothing, and otherwise it sets an expiry that is not earlier than the old
  -- one, at most one step later, and not past the start of the instance (or the present, where
  -- none is recorded) plus the maximal lifetime.
  pub extend_instance-accepted :
      (challenge : ℕ) (rows rows' : List Row) (s : Row)
      → extend_instance cfg env team challenge rows ≡ (rows', ok s)
      → Runs env × ((r : Row) × (team_row challenge team rows ≡ some r) × Extension r rows rows' s)
  unfolding extend_instance find_instance
  extend_instance-accepted challenge rows rows' s h = elim (Bool-cases (env.faults get_row)) [
    | inl f ↦ absurd (ground (arith, f, h))
    | inr f ↦ elim (Option-cases (team_row challenge team rows)) [
      | inl n ↦ absurd (ground (arith, f, n, h))
      | inr (r, n) ↦ elim (Result-cases (require_running env)) [
        | inl (e, k) ↦ absurd (ground (arith, f, n, k, h))
        | inr (u, k) ↦ (
          require_running-Runs env u k,
          (
            r,
            n,
            extend_from-Extension r rows rows' s r.expires_at refl (ground (arith, f, n, k, h)),
          ),
        )
      ]
    ]
  ]
