-- ===== src/Instances/Tests.antt =====
-- The life of instances at concrete inputs.
use osctf.Prelude.{
  ℕ, ◌<◌, ◌≤◌, ◌≡◌, ◌⊎◌, refl, true, false, ◌&&◌, not, none, some, List, [], ◌∷◌, ◌++◌, arith, ok,
  nat_key, keep, tally,
}
use osctf.Events.{Event, phase}
use osctf.Submissions.Store.{text_beq}
use osctf.Instances.Table.{
  running, unhealthy, lost, Row, row_by_id, team_running, team_row, has_id, has_port, occurs,
  used_ports, is_expired, is_per_team, create_instance, set_expiry,
}
use osctf.Instances.Manager.{
  ChallengeRow, Env, up, unknown, allocate_row, allocate, draft, isolation_gate,
  container_challenge, ensure_team_row, deploy_for_team, destroy_instance, existing_row,
}
use osctf.Instances.Shared.{seen}
use osctf.Instances.Scheduler.{
  Config, start, startable, require_running, admitted_flag, expire_once, expire_listed, sweep,
  destroy_locked, rotate, extend_instance, find_instance, cleanup_ended,
}
use osctf.Instances.History.{
  Operation, starts, refreshes, recovered, empty, next, team_running-Reach, perform,
}
use osctf.Instances.Allocation.{allocate_row_lowest}
use osctf.Instances.Sweeps.{Answers, is_free, listed_free, sweep-keep}
use osctf.Instances.Passes.{expire_once-keep, cleanup_ended-keep}
use osctf.Instances.Replies.{
  Runs, Startable, StartOf, Extension, start-accepted, extend_instance-accepted,
}
use osctf.Instances.Restarts.{start-expiry}

abbrev cfg : Config
cfg = record { ttl = 100; extend = 50; max_ttl = 120; quota = 1; reap_after = 30 }

abbrev sandbox : ChallengeRow
sandbox = record {
  id = 3;
  visible = true;
  kind_name = "container";
  has_image = true;
  has_port = true;
  instancing = "per_team";
  flag = 5 ∷ [];
  flag_mode = "static";
  ttl = none;
}

abbrev contest : Event
contest = record { name = []; description = []; starts_at = 10; ends_at = 1000; freeze_at = none }

abbrev at_time : ℕ → Env
at_time now = record {
  now = now;
  event = some contest;
  challenge = λ id. some (record sandbox { id = id });
  faults = λ f. false;
  deploys = λ id. up 77 running;
  destroy_fails = λ id. false;
  new_id = some now;
  new_flag = some (6 ∷ []);
  port_start = 30000;
  port_end = 30002;
  network = [];
  gate_armed = false;
  allow_unisolated = false;
  isolation = unknown;
}

-- The instance of team 7, started at 20.
abbrev mine : Row
mine = record {
  id = 20;
  challenge_id = 3;
  team_id = some 7;
  stage = running;
  container_id = some 77;
  host_port = some 30000;
  flag = none;
  network = [];
  started_at = some 20;
  expires_at = some 120;
  updated_at = 20;
}

abbrev lost_one : Row
lost_one = record mine { stage = lost }

starts_one : start cfg (at_time 20) 7 3 [] ≡ (mine ∷ [], ok (mine, true))
unfolding start startable require_running phase admitted_flag team_running team_row deploy_for_team
    isolation_gate container_challenge ensure_team_row allocate_row allocate used_ports
    create_instance text_beq
starts_one = refl

returns_it : start cfg (at_time 30) 7 3 (mine ∷ []) ≡ (mine ∷ [], ok (mine, false))
unfolding start startable require_running phase team_row
returns_it = refl

-- A lost instance that is started again past its expiry goes with the next pass.
restarted_expired :
    (expire_once (at_time 201) (λ team. false) 0 ((start cfg (at_time 200) 7 3 (lost_one ∷ [])).0))
    ≡ []
unfolding start startable require_running phase admitted_flag team_running team_row deploy_for_team
    isolation_gate container_challenge ensure_team_row expire_once expire_listed rotate sweep
    destroy_locked destroy_instance row_by_id
restarted_expired = refl

one_each : (id : ℕ) → tally (has_id id) (mine ∷ []) ≤ 1
one_each id = ground arith

answering : (now : ℕ) → Answers (at_time now)
answering now = record { gets_row = refl; deletes = refl; lists = refl }

-- An instance falls ill, another is started within the quota of one, and the first recovers.
abbrev falls_ill : Operation
falls_ill = refreshes (at_time 25) (seen unhealthy) 20 (some mine)

abbrev recovers : Operation
recovers = refreshes (at_time 35) (seen running) 20 (some mine)

abbrev flapped : List Row
flapped = perform cfg recovers (
    perform cfg (starts (at_time 30) 7 4)
      (perform cfg falls_ill (perform cfg (starts (at_time 20) 7 3) [])))

past_quota : team_running 7 flapped ≡ 2
unfolding start startable require_running phase admitted_flag team_running team_row deploy_for_team
    isolation_gate container_challenge ensure_team_row allocate_row allocate used_ports
    create_instance text_beq
past_quota = refl

team_running-Reach_example : team_running 7 flapped ≤ 2
unfolding start startable require_running phase admitted_flag team_running team_row deploy_for_team
    isolation_gate container_challenge ensure_team_row allocate_row allocate used_ports
    create_instance text_beq recovered
team_running-Reach_example =
    team_running-Reach cfg _ _
      (next recovers
        (next (starts (at_time 30) 7 4) (next falls_ill (next (starts (at_time 20) 7 3) empty))))
      7

allocate_row_lowest_example :
    let r = draft 0 3 (some 8) none none [] 40 in
    let s = record r { id = 40; host_port = some 30001 } in
    ((mine ∷ s ∷ [] ≡ mine ∷ []) × (existing_row r r.team_id (mine ∷ []) ≡ some s))
    ⊎ ((p : ℕ) × (mine ∷ s ∷ [] ≡ (mine ∷ []) ++ s ∷ [])
        × (s.host_port ≡ some p)
        × (30000 ≤ p)
        × (p ≤ 30002)
        × (occurs (has_port (some p)) (mine ∷ []) ≡ false)
        × ((q : ℕ) → 30000 ≤ q → q < p → occurs (has_port (some q)) (mine ∷ []) ≡ true))
unfolding allocate_row allocate used_ports create_instance
allocate_row_lowest_example =
    allocate_row_lowest (at_time 40) (draft 0 3 (some 8) none none [] 40) (mine ∷ []) _ _ refl

sweep-keep_example :
    sweep (at_time 130) (λ team. false) (λ r. false) (mine ∷ []) (mine ∷ [])
    ≡ keep (λ r. not (listed_free (at_time 130) (λ team. false) (mine ∷ []) r && false)) (mine ∷ [])
sweep-keep_example =
    sweep-keep (at_time 130) (λ team. false) (λ r. false) (answering 130) (mine ∷ []) (mine ∷ [])
      one_each

expire_once-keep_example :
    expire_once (at_time 130) (λ team. false) 5 (mine ∷ [])
    ≡ keep (λ r. not (is_expired 130 r && is_free (at_time 130) (λ team. false) r)) (mine ∷ [])
expire_once-keep_example =
    expire_once-keep (at_time 130) (λ team. false) (answering 130) 5 (mine ∷ []) one_each

cleanup_ended-keep_example : cleanup_ended (at_time 2000) (λ team. false) (mine ∷ []) ≡ (
  keep (λ r. not (is_per_team r && is_free (at_time 2000) (λ team. false) r)) (mine ∷ []),
  some (tally (λ r. is_per_team r && not (is_free (at_time 2000) (λ team. false) r)) (mine ∷ [])),
)
unfolding phase
cleanup_ended-keep_example =
    cleanup_ended-keep (at_time 2000) (λ team. false) (answering 2000) contest (mine ∷ []) refl refl
      refl refl one_each

start-accepted_example :
    (ch : ChallengeRow) × Startable (at_time 20) 3 ch
    × StartOf cfg (at_time 20) 7 ch [] (mine ∷ []) mine true
start-accepted_example = start-accepted cfg (at_time 20) 7 3 [] (mine ∷ []) mine true starts_one

extend_instance-accepted_example :
    Runs (at_time 90)
    × ((r : Row) × (team_row 3 7 (mine ∷ []) ≡ some r)
        × Extension cfg
            (at_time 90)
            7
            r
            (mine ∷ [])
            (set_expiry 90 20 140 (mine ∷ []))
            (record mine { expires_at = some 140 }))
unfolding extend_instance find_instance require_running phase team_row
extend_instance-accepted_example =
    extend_instance-accepted cfg (at_time 90) 7 3 (mine ∷ []) (set_expiry 90 20 140 (mine ∷ []))
      (record mine { expires_at = some 140 }) refl

start-expiry_example : lost_one.expires_at ≡ some 120
unfolding start startable require_running phase admitted_flag team_running team_row deploy_for_team
    isolation_gate container_challenge ensure_team_row
start-expiry_example =
    start-expiry (at_time 200) (λ id ch e. ground (arith, e)) cfg 7 3 (lost_one ∷ [])
      (record lost_one { stage = running; started_at = some 200; updated_at = 200 } ∷ []) lost_one
      (record lost_one { stage = running; started_at = some 200; updated_at = 200 }) true refl refl
