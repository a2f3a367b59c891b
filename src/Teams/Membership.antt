-- ===== src/Teams/Membership.antt =====
-- The transactions of internal/teams keep every user on one team, every team within the size limit,
-- every member's team in its table, and the teams' ids unique.
use osctf.Prelude.{
  ℕ, ◌≤◌, ◌≡◌, inl, inr, refl, Bool, true, ◌&&◌, ◌||◌, not, some, List, [], ◌∷◌, arith, ◌==◌,
  nat_key, ltb, keep, tally, tally-append, tally-keep-le, tally-keep, tally-ext, tally-never,
  Bool-cases, Option-cases, ok,
}
use osctf.Teams.Tables.{
  Team, Member, Tables, in_team, is_member, of_user, member_count, has_team, team_by_id,
  delete_team, update_team,
}
use osctf.Teams.WellFormed.{WellFormed}
use osctf.Teams.Service.{
  Env, create_tx, join_tx, leave_tx, repair_captains, repair_teams, repair_team, set_captain,
}
use osctf.Teams.Captains.{create_tx-ok, join_tx-ok, leave_tx-ok, without}

has_team-found :
    (team : ℕ) (ts : List Team) (t : Team) → team_by_id team ts ≡ some t → has_team team ts ≡ true
unfolding team_by_id
has_team-found team [] t h = absurd (cc h)
has_team-found team (x ∷ ts) t h = ground (arith, h, has_team-found team ts t)

pub create_tx-WellFormed :
    (env : Env) (t : Team) (max : ℕ) (db db' : Tables)
    → 1 ≤ max
    → create_tx env t db ≡ ok db'
    → WellFormed max db
    → WellFormed max db'
create_tx-WellFormed env t max db db' h1 h w =
    let m : Member = record { team_id = t.id; user_id = t.captain_id; joined_at = env.now } in
    let (e, f, n) = create_tx-ok env t db db' h in
    rw e (record {
      one_team = λ u. ground (arith, w.one_team u, n, tally-append (of_user u) db.members (m ∷ []));
      sized = λ x.
          ground (arith, w.sized x, w.placed x, f, tally-append (in_team x) db.members (m ∷ []));
      placed = λ x. ground (
        arith,
        w.placed x,
        tally-append (in_team x) db.members (m ∷ []),
        tally-append (λ (u : Team). u.id == x) db.teams (t ∷ []),
      );
      keyed = λ x.
          ground (arith, w.keyed x, f, tally-append (λ (u : Team). u.id == x) db.teams (t ∷ []));
    })

pub join_tx-WellFormed :
    (env : Env) (user team : ℕ) (db db' : Tables)
    → join_tx env user team db ≡ ok db'
    → WellFormed env.max_size db
    → WellFormed env.max_size db'
join_tx-WellFormed env user team db db' h w =
    let m : Member = record { team_id = team; user_id = user; joined_at = env.now } in
    let (locked, a, b, d, n, e) = join_tx-ok env user team db db' h in
    rw e (record {
      one_team = λ u. ground (arith, w.one_team u, n, tally-append (of_user u) db.members (m ∷ []));
      sized = λ x. ground (arith, w.sized x, d, tally-append (in_team x) db.members (m ∷ []));
      placed = λ x. ground (
        arith,
        w.placed x,
        tally-append (in_team x) db.members (m ∷ []),
        has_team-found team db.teams locked a,
      );
      keyed = w.keyed;
    })

-- A change of teams' rows that keeps their ids.
pub relabelled :
    (max : ℕ) (db : Tables) (ts : List Team)
    → ((x : ℕ) → tally (λ (u : Team). u.id == x) ts ≡ tally (λ (u : Team). u.id == x) db.teams)
    → WellFormed max db
    → WellFormed max (record db { teams = ts })
relabelled max db ts h w = record {
  one_team = w.one_team;
  sized = w.sized;
  placed = λ x. ground (arith, w.placed x, h x);
  keyed = λ x. ground (arith, w.keyed x, h x);
}

pub tally-update_team :
    (f : Team → Team) (team : ℕ) (ts : List Team) (x : ℕ)
    → ((t : Team) → (f t).id ≡ t.id)
    → tally (λ (u : Team). u.id == x) (update_team f team ts) ≡ tally (λ (u : Team). u.id == x) ts
tally-update_team f team [] x h = refl
tally-update_team f team (t ∷ ts) x h = ground (arith, h t, tally-update_team f team ts x h)

tally-repair_teams :
    (ms : List Member) (ts : List Team) (x : ℕ)
    → tally (λ (u : Team). u.id == x) (repair_teams ms ts) ≡ tally (λ (u : Team). u.id == x) ts
tally-repair_teams ms [] x = refl
tally-repair_teams ms (t ∷ ts) x = ground (arith, tally-repair_teams ms ts x, same ms t)
  where
    same : (ms : List Member) (t : Team) → (repair_team ms t).id ≡ t.id
    same ms t = ground arith

pub repair_captains-WellFormed :
    (env : Env) (max : ℕ) (db : Tables)
    → WellFormed max db
    → WellFormed max (repair_captains env db).0
unfolding repair_captains
repair_captains-WellFormed env max db w = ground (
  arith,
  w,
  relabelled max db (repair_teams db.members db.teams) (tally-repair_teams db.members db.teams) w,
)

-- Fewer members, with a team left for each of them.
shrunk :
    (max : ℕ) (db : Tables) (stays : Member → Bool) (remains : Team → Bool)
    → WellFormed max db
    → ((x : ℕ)
        → not (ltb 0 (member_count x (keep stays db.members))) || has_team x (keep remains db.teams)
          ≡ true)
    → WellFormed max (record db { members = keep stays db.members; teams = keep remains db.teams })
shrunk max db stays remains w h = record {
  one_team = λ u. ground (arith, w.one_team u, tally-keep-le (of_user u) stays db.members);
  sized = λ x. ground (arith, w.sized x, tally-keep-le (in_team x) stays db.members);
  placed = h;
  keyed = λ x. ground (arith, w.keyed x, tally-keep-le (λ (u : Team). u.id == x) remains db.teams);
}

without-WellFormed :
    (user team max : ℕ) (db : Tables) → WellFormed max db → WellFormed max (without team user db)
without-WellFormed user team max db w =
    let stays = λ (m : Member). not (is_member team user m) in
    record {
      one_team = λ u. ground (arith, w.one_team u, tally-keep-le (of_user u) stays db.members);
      sized = λ x. ground (arith, w.sized x, tally-keep-le (in_team x) stays db.members);
      placed = λ x. ground (arith, w.placed x, tally-keep-le (in_team x) stays db.members);
      keyed = w.keyed;
    }

delete_team-WellFormed :
    (team max : ℕ) (db : Tables) → WellFormed max db → WellFormed max (delete_team team db)
delete_team-WellFormed team max db w =
    let stays = λ (m : Member). not (in_team team m) in
    let remains = λ (t : Team). not (t.id == team) in
    shrunk max db stays remains w (λ x. elim (Bool-cases (x == team)) [
      | inl e ↦ ground (
        arith,
        tally-keep (in_team x) stays db.members,
        tally-never (λ m. stays m && in_team x m) db.members (λ m. ground (arith, e)),
      )
      | inr e ↦ ground (
        arith,
        w.placed x,
        tally-keep-le (in_team x) stays db.members,
        tally-keep (λ (t : Team). t.id == x) remains db.teams,
        tally-ext (λ t. remains t && t.id == x) (λ t. t.id == x) db.teams (λ t. ground (arith, e)),
      )
    ])

pub leave_tx-WellFormed :
    (env : Env) (user team max : ℕ) (db db' : Tables)
    → leave_tx env user team db ≡ ok db'
    → WellFormed max db
    → WellFormed max db'
unfolding leave_tx
leave_tx-WellFormed env user team max db db' h w = elim (Option-cases (team_by_id team db.teams)) [
  | inl e ↦ let same : db' ≡ db = ground (arith, e, h) in rw same w
  | inr (locked, e) ↦
      let left = without-WellFormed user team max db w in
      elim (leave_tx-ok env user team db db' locked e h) [
        | inl (k, inl d) ↦ rw d left
        | inl (k, inr d) ↦ rw d (delete_team-WellFormed locked.id max (without team user db) left)
        | inr (heir, others, k, d) ↦ ground (
          arith,
          d,
          left,
          relabelled max (without team user db)
              (update_team (set_captain heir.user_id) locked.id db.teams)
              (λ x. tally-update_team (set_captain heir.user_id) locked.id db.teams x (λ t. refl))
              left,
        )
      ]
]
