-- ===== src/Instances/Ensured.antt =====
-- Rows of internal/runtime/manager.go at a deploy: whose they are, and how many run after it.
use osctf.Prelude.{
  ℕ, suc, ◌-◌, ◌≤◌, ◌<◌, ◌≡◌, ◌⊎◌, inl, inr, refl, ap, Bool, true, false, ◌&&◌, Option, none, some,
  List, [], ◌∷◌, ◌++◌, arith, ◌==◌, nat_key, text_key, tally, tally-append, beq_refl, beq→eq,
  Bool-cases, Option-cases, Result, ok, err,
}
use osctf.Submissions.Store.{bytes_key, first}
use osctf.Instances.Table.{
  pending, Row, has_id, is_none, is_shared_of, is_team_of, is_running, runs_for, team_running,
  shared_row, team_row, update_rows, used_ports,
}
use osctf.Instances.Manager.{
  Env, ChallengeRow, Failure, broken, DeployReq, existing_row, allocate_row, list_ports, get_row,
  ensure_team_row, Outcome, daemon_down, cannot_start, up, run_deploy, deploy_row, deployed_as,
}
use osctf.Instances.Shared.{ensure_shared_row}
use osctf.Instances.Quota.{
  is_team, WithinQuota, ids-update_rows, running-update_rows, idle-WithinQuota, other_owner,
}
use osctf.Instances.Allocation.{Allocated, at_port, allocate-Allocated}

abbrev pub is_of : Option ℕ → Row → Bool
is_of none r = is_none r.team_id
is_of (some team) r = is_team team r

abbrev pub owns : Option ℕ → Row → List Row → ℕ
owns owner s rows = tally (λ r. has_id s.id r && is_of owner r) rows

-- What is there for an owner to be deployed: no row has come to run, and the row is the owner's.
pub record Ensured (owner : Option ℕ) (before : List Row) (res : List Row × Result Failure Row)
    : Type 0 where
  pub unique : ((id : ℕ) → tally (has_id id) before ≤ 1) → (id : ℕ) → tally (has_id id) res.0 ≤ 1
  pub same : (team : ℕ) → team_running team res.0 ≡ team_running team before
  pub owned : (s : Row) → res.1 ≡ ok s → 0 < owns owner s res.0

pub first-owns :
    (owner : Option ℕ) (p : Row → Bool)
    → ((r : Row) → p r ≡ true → is_of owner r ≡ true)
    → (rows : List Row) (s : Row) → first p rows ≡ some s
    → 0 < owns owner s rows
first-owns owner p mine [] s h = cc
first-owns owner p mine (r ∷ rows) s h = elim (Bool-cases (p r)) [
  | inl y ↦ ground (arith, y, h, mine r y, beq_refl r.id)
  | inr n ↦ ground (arith, n, h, first-owns owner p mine rows s)
]

existing-owns :
    (owner : Option ℕ) (r : Row) (rows : List Row) (s : Row)
    → existing_row r owner rows ≡ some s
    → 0 < owns owner s rows
unfolding shared_row team_row
existing-owns none r rows s h =
    first-owns none (is_shared_of r.challenge_id) (λ q y. ground (arith, y)) rows s h
existing-owns (some team) r rows s h =
    first-owns (some team) (is_team_of r.challenge_id (some team)) (λ q y. ground (arith, y)) rows s
      h

refused-Ensured :
    (owner : Option ℕ) (rows : List Row) (e : Failure) → Ensured owner rows (rows, err e)
refused-Ensured owner rows e = record { unique = λ u. u; same = λ team. refl; owned = λ s h. cc }

found-Ensured :
    (owner : Option ℕ) (rows : List Row) (s : Row)
    → 0 < owns owner s rows
    → Ensured owner rows (rows, ok s)
found-Ensured owner rows s o = record {
  unique = λ u. u;
  same = λ team. refl;
  owned = λ t h. ground (arith, h, o);
}

appended-Ensured :
    (owner : Option ℕ) (rows : List Row) (s : Row)
    → tally (has_id s.id) rows ≡ 0
    → s.stage ≡ pending
    → is_of owner s ≡ true
    → Ensured owner rows (rows ++ s ∷ [], ok s)
unfolding team_running
appended-Ensured owner rows s new p mine = record {
  unique =
      λ u id. ground (arith, new, u id, tally-append (has_id id) rows (s ∷ []), beq→eq s.id id);
  same = λ team. ground (arith, p, tally-append (runs_for team) rows (s ∷ []));
  owned = λ t h. ground (
    arith,
    h,
    mine,
    beq_refl s.id,
    tally-append (λ r. has_id s.id r && is_of owner r) rows (s ∷ []),
  );
}

Allocated-Ensured :
    (r : Row) (used : List ℕ) (low left : ℕ) (rows : List Row) (res : List Row × Result Failure Row)
    → r.stage ≡ pending
    → Allocated r used low left rows res
    → Ensured r.team_id rows res
Allocated-Ensured r used low left rows res p (inl (e, h)) = rw h (refused-Ensured r.team_id rows e)
Allocated-Ensured r used low left rows res p (inr (inl (s, h, found))) =
    rw h (found-Ensured r.team_id rows s (existing-owns r.team_id r rows s found))
Allocated-Ensured r used low left rows res p (inr (inr (q, h, placed))) = rw h (
    appended-Ensured r.team_id rows (at_port r q) placed.new_id p
      (of_itself (at_port r q) r.team_id refl))
  where
    of_itself : (x : Row) (owner : Option ℕ) → x.team_id ≡ owner → is_of owner x ≡ true
    of_itself x none e = ground (arith, e)
    of_itself x (some t) e = ground (arith, e, beq_refl t)

allocate_row-Ensured :
    (env : Env) (r : Row) (used : List ℕ) (rows : List Row)
    → r.stage ≡ pending
    → Ensured r.team_id rows (allocate_row env r used rows)
unfolding allocate_row
allocate_row-Ensured env r used rows p = elim (Bool-cases (env.faults list_ports)) [
  | inl f ↦ rw f (refused-Ensured r.team_id rows broken)
  | inr f ↦ elim (Option-cases env.new_id) [
    | inl n ↦ rw (f, n) (refused-Ensured r.team_id rows broken)
    | inr (id, n) ↦
        simp (f, n)
          (Allocated-Ensured (record r { id = id }) used env.port_start
            (suc env.port_end - env.port_start) rows _ p
            (allocate-Allocated env (record r { id = id }) used _ _ rows))
  ]
]

pub ensure_team_row-Ensured :
    (env : Env) (ch : ChallengeRow) (req : DeployReq) (rows : List Row)
    → Ensured (some req.team_id) rows (ensure_team_row env ch req rows)
unfolding ensure_team_row team_row
ensure_team_row-Ensured env ch req rows = elim (Bool-cases (env.faults get_row)) [
  | inl f ↦ rw f (refused-Ensured _ rows broken)
  | inr f ↦ elim (Option-cases (first (is_team_of ch.id (some req.team_id)) rows)) [
    | inl n ↦ rw (f, n) (allocate_row-Ensured env _ (used_ports rows) rows refl)
    | inr (s, n) ↦
        rw (f, n)
          (found-Ensured _ rows s (
            first-owns (some req.team_id) (is_team_of ch.id (some req.team_id))
              (λ q y. ground (arith, y)) rows s n))
  ]
]

pub ensure_shared_row-Ensured :
    (env : Env) (ch : ChallengeRow) (rows : List Row)
    → Ensured none rows (ensure_shared_row env ch rows)
unfolding ensure_shared_row shared_row
ensure_shared_row-Ensured env ch rows = elim (Bool-cases (env.faults get_row)) [
  | inl f ↦ rw f (refused-Ensured none rows broken)
  | inr f ↦ elim (Option-cases (first (is_shared_of ch.id) rows)) [
    | inl n ↦ rw (f, n) (allocate_row-Ensured env _ (used_ports rows) rows refl)
    | inr (s, n) ↦
        rw (f, n)
          (found-Ensured none rows s
            (first-owns none (is_shared_of ch.id) (λ q y. ground (arith, y)) rows s n))
  ]
]

-- What happens to the row of an owner, who has room, touches no other team's count.
pub raised-WithinQuota :
    (quota : ℕ → ℕ) (owner : Option ℕ) (id : ℕ) (change : Row → Row)
    → ((r : Row) → (change r).id ≡ r.id)
    → ((r : Row) → (change r).team_id ≡ r.team_id)
    → (rows : List Row) → WithinQuota quota rows
    → 0 < tally (λ r. has_id id r && is_of owner r) rows
    → ((team : ℕ) → owner ≡ some team → team_running team rows < quota team)
    → WithinQuota quota (update_rows id change rows)
unfolding team_running
raised-WithinQuota quota owner id change same_id same_team rows w o room = record {
  unique = λ j. omega (arith, w.unique j, ids-update_rows id change same_id j rows);
  within = λ team.
      let most = running-update_rows id change same_id same_team team rows in
      elim (owner_or_apart owner team) [
        | inl e ↦ omega (arith, most, room team e, w.unique id, has_id_bound team rows)
        | inr apart ↦ omega (
          arith,
          most,
          w.within team,
          other_owner id team (is_of owner) apart rows (w.unique id) o,
        )
      ];
}
  where
    has_id_bound :
        (team : ℕ) (xs : List Row)
        → tally (λ r. has_id id r && is_team team r) xs ≤ tally (has_id id) xs
    has_id_bound team [] = omega arith
    has_id_bound team (x ∷ xs) = ground (arith, has_id_bound team xs)

    owner_or_apart :
        (o : Option ℕ) (team : ℕ)
        → (o ≡ some team) ⊎ ((r : Row) → is_of o r ≡ true → is_team team r ≡ false)
    owner_or_apart none team = inr (λ r y. ground (arith, y))
    owner_or_apart (some t) team = elim (Bool-cases (t == team)) [
      | inl e ↦ inl (ap (λ x. some x) (beq→eq t team e))
      | inr n ↦ inr (λ r y. ground (arith, y, n, beq→eq t team))
    ]

run_deploy-WithinQuota :
    (quota : ℕ → ℕ) (owner : Option ℕ) (now : ℕ) (out : Outcome) (s : Row) (rows : List Row)
    → WithinQuota quota rows
    → 0 < owns owner s rows
    → ((team : ℕ) → owner ≡ some team → team_running team rows < quota team)
    → WithinQuota quota (run_deploy now out s rows).0
run_deploy-WithinQuota quota owner now daemon_down s rows w o room = w
run_deploy-WithinQuota quota owner now cannot_start s rows w o room =
    idle-WithinQuota s.id _ (λ r. refl) (λ r. refl) (λ r i. cc) quota rows w
run_deploy-WithinQuota quota owner now (up container stage) s rows w o room =
    raised-WithinQuota quota owner s.id (deployed_as now container stage) (λ r. refl) (λ r. refl)
      rows w o room

pub deploy_row-WithinQuota :
    (quota : ℕ → ℕ) (owner : Option ℕ) (env : Env) (rows : List Row)
    (res : List Row × Result Failure Row)
    → Ensured owner rows res
    → WithinQuota quota rows
    → ((team : ℕ) → owner ≡ some team → team_running team rows < quota team)
    → WithinQuota quota (deploy_row env res).0
deploy_row-WithinQuota quota owner env rows (rows', err e) en w room = record {
  unique = en.unique w.unique;
  within = λ team. omega (arith, en.same team, w.within team);
}
deploy_row-WithinQuota quota owner env rows (rows', ok s) en w room =
    let w' : WithinQuota quota rows' = record {
      unique = en.unique w.unique;
      within = λ team. omega (arith, en.same team, w.within team);
    } in
    elim (Bool-cases (is_running s.stage)) [
      | inl y ↦ rw y w'
      | inr n ↦ rw n (
          run_deploy-WithinQuota quota owner env.now (env.deploys s.id) s rows' w' (en.owned s refl)
            (λ team e. omega (arith, en.same team, room team e)))
    ]
