-- ===== src/Teams/Captains.antt =====
-- The transactions of internal/teams keep the tables well formed.
use osctf.Prelude.{
  ℕ, ◌≤◌, ◌<◌, ◌≡◌, ◌⊎◌, inl, inr, Bool, true, false, ◌&&◌, ◌||◌, not, some, List, [], ◌∷◌, ◌++◌,
  arith, if◌then◌else◌, ◌==◌, nat_key, ltb, keep, tally, All, tally-append, tally-keep-le,
  tally-keep, tally-ext, All-elim, All-intro, All-append, List-cases, Option-cases, Bool-cases,
  tally-zero, beq→eq, beq_refl, ok,
}
use mathlib.Core.List.{Memᴰ}
use mathlib.Core.List.Memᴰ
use osctf.Submissions.Store.{first}
use osctf.Teams.Tables.{
  Team, Member, Tables, in_team, is_member, of_user, member_count, has_member, has_team, team_by_id,
  list_members, insert_team, add_member, remove_member, delete_team, update_team,
}
use osctf.Teams.WellFormed.{captain_ok, has_member-heir, no_members, first-passes}
use osctf.Teams.Service.{
  Env, create_tx, join_tx, leave_tx, repair_captains, repair_teams, repair_team, set_captain,
  repair_call,
}

-- Every team that has members has its captain among them.
abbrev pub Captained : Tables → Type 0
Captained db = All (captain_ok db.members) db.teams

-- A team keeps its captain when a member joins another team, or joins it while it has members.
captain_ok-add :
    (m : Member) (ms : List Member) (t : Team)
    → captain_ok ms t ≡ true
    → (not (t.id == m.team_id) || ltb 0 (member_count m.team_id ms)) ≡ true
    → captain_ok (ms ++ m ∷ []) t ≡ true
captain_ok-add m ms t h k = ground (
  arith,
  h,
  k,
  tally-append (in_team t.id) ms (m ∷ []),
  tally-append (is_member t.id t.captain_id) ms (m ∷ []),
)

-- A team keeps its captain when another member leaves, and it is not touched when a member of
-- another team leaves.
captain_ok-remove :
    (team user : ℕ) (ms : List Member) (t : Team)
    → captain_ok ms t ≡ true
    → (not (t.id == team) || not (t.captain_id == user)) ≡ true
    → captain_ok (remove_member team user ms) t ≡ true
captain_ok-remove team user ms t h k = ground (
  arith,
  h,
  k,
  tally-keep (is_member t.id t.captain_id) (λ m. not (is_member team user m)) ms,
  tally-ext (λ m. not (is_member team user m) && is_member t.id t.captain_id m)
      (is_member t.id t.captain_id) ms (λ m. ground (arith, k)),
  tally-keep-le (in_team t.id) (λ m. not (is_member team user m)) ms,
)

pub All-update_team :
    (p q : Team → Bool) (f : Team → Team) (team : ℕ) (ts : List Team)
    → ((t : Team) → p t ≡ true → q (if t.id == team then f t else t) ≡ true)
    → All p ts
    → All q (update_team f team ts)
All-update_team p q f team [] h a = tt
All-update_team p q f team (t ∷ ts) h a = elim (Bool-cases (t.id == team)) [
  | inl e ↦ rw e (ground (arith, h t a.0, e), All-update_team p q f team ts h a.1)
  | inr e ↦ rw e (ground (arith, h t a.0, e), All-update_team p q f team ts h a.1)
]

-- Under a unique key, a row with the key is the one that the query finds.
first-keyed :
    (team : ℕ) (ts : List Team) (t locked : Team)
    → tally (λ (u : Team). u.id == team) ts ≤ 1
    → Memᴰ t ts
    → t.id ≡ team
    → first (λ (u : Team). u.id == team) ts ≡ some locked
    → t ≡ locked
first-keyed team [] t locked u m e f = absurd (Memᴰ.not-nil m)
first-keyed team (x ∷ ts) t locked u (Memᴰ.head k) e f = ground (arith, k, e, f, beq_refl team)
first-keyed team (x ∷ ts) t locked u (Memᴰ.tail m) e f = ground (
  arith,
  u,
  e,
  f,
  m,
  first-keyed team ts t locked (ground (arith, u)) m e,
  tally-zero (λ (v : Team). v.id == team) ts t,
  beq_refl team,
)

pub captain_ok-repair : (ms : List Member) (t : Team) → captain_ok ms (repair_team ms t) ≡ true
captain_ok-repair ms t = elim (Bool-cases (has_member t.id t.captain_id ms)) [
  | inl e ↦ ground (arith, e)
  | inr e ↦ elim (List-cases (list_members t.id ms)) [
    | inl k ↦ ground (arith, e, k, no_members t.id ms k)
    | inr (heir, others, k) ↦ ground (arith, e, k, has_member-heir t.id ms heir others k)
  ]
]

All-repair : (ms : List Member) (ts : List Team) → All (captain_ok ms) (repair_teams ms ts)
All-repair ms [] = tt
All-repair ms (t ∷ ts) = (captain_ok-repair ms t, All-repair ms ts)

pub create_tx-ok :
    (env : Env) (t : Team) (db db' : Tables)
    → create_tx env t db ≡ ok db'
    → (db' ≡ record db {
      teams = db.teams ++ t ∷ [];
      members =
          db.members ++ record { team_id = t.id; user_id = t.captain_id; joined_at = env.now } ∷ [];
    })
      × (has_team t.id db.teams ≡ false)
      × (tally (of_user t.captain_id) db.members ≡ 0)
unfolding create_tx insert_team add_member
create_tx-ok env t db db' h = ground (arith, h)

pub join_tx-ok :
    (env : Env) (user team : ℕ) (db db' : Tables)
    → join_tx env user team db ≡ ok db'
    → (locked : Team) × (team_by_id team db.teams ≡ some locked)
      × (locked.banned ≡ false)
      × (member_count team db.members < env.max_size)
      × (tally (of_user user) db.members ≡ 0)
      × (db' ≡ record db {
        members = db.members ++ record { team_id = team; user_id = user; joined_at = env.now } ∷ [];
      })
unfolding join_tx add_member
join_tx-ok env user team db db' h = elim (Option-cases (team_by_id team db.teams)) [
  | inl e ↦ absurd (ground (arith, h, e))
  | inr (locked, e) ↦ (
    locked,
    e,
    ground (arith, h, e),
    ground (arith, h, e),
    ground (arith, h, e),
    ground (arith, h, e),
  )
]

-- The tables with the member's row removed.
abbrev pub without : ℕ → ℕ → Tables → Tables
without team user db = record db { members = remove_member team user db.members }

pub leave_tx-ok :
    (env : Env) (user team : ℕ) (db db' : Tables) (locked : Team)
    → team_by_id team db.teams ≡ some locked
    → leave_tx env user team db ≡ ok db'
    → ((list_members team (remove_member team user db.members) ≡ [])
        × ((db' ≡ without team user db) ⊎ (db' ≡ delete_team locked.id (without team user db))))
      ⊎ ((heir : Member) × (others : List Member) × (list_members team
              (remove_member team user db.members)
            ≡ heir ∷ others)
          × (db' ≡ (
              if locked.captain_id == user
              then record (without team user db) {
                teams = update_team (set_captain heir.user_id) locked.id db.teams;
              }
              else without team user db)))
unfolding leave_tx
leave_tx-ok env user team db db' locked e h =
    elim (List-cases (list_members team (remove_member team user db.members))) [
      | inl k ↦ inl (k, ground (arith, e, k, h))
      | inr (heir, others, k) ↦ inr (heir, others, k, ground (arith, e, k, h))
    ]

All-mono :
    (p q : Team → Bool) (ts : List Team)
    → ((t : Team) → Memᴰ t ts → p t ≡ true → q t ≡ true)
    → All p ts
    → All q ts
All-mono p q ts h a = All-intro q ts (λ t m. h t m (All-elim p ts t a m))

fresh_id :
    (id : ℕ) (ts : List Team) (t : Team) → has_team id ts ≡ false → Memᴰ t ts → (t.id == id) ≡ false
fresh_id id ts t h m = tally-zero (λ (u : Team). u.id == id) ts t (ground (arith, h)) m

pub create_tx-Captained :
    (env : Env) (t : Team) (db db' : Tables)
    → create_tx env t db ≡ ok db'
    → Captained db
    → Captained db'
create_tx-Captained env t db db' h c =
    let m : Member = record { team_id = t.id; user_id = t.captain_id; joined_at = env.now } in
    let (e, f, n) = create_tx-ok env t db db' h in
    rw e (
      All-append (captain_ok (db.members ++ m ∷ [])) db.teams (t ∷ [])
        (All-mono (captain_ok db.members) (captain_ok (db.members ++ m ∷ [])) db.teams
          (λ u k a. captain_ok-add m db.members u a (ground (arith, fresh_id t.id db.teams u f k)))
          c)
        (
          ground (
            arith,
            tally-append (is_member t.id t.captain_id) db.members (m ∷ []),
            beq_refl t.id,
          ),
          tt,
        ))

pub join_tx-Captained :
    (env : Env) (user team : ℕ) (db db' : Tables)
    → join_tx env user team db ≡ ok db'
    → 0 < member_count team db.members
    → Captained db
    → Captained db'
join_tx-Captained env user team db db' h k c =
    let m : Member = record { team_id = team; user_id = user; joined_at = env.now } in
    let (locked, a, b, d, n, e) = join_tx-ok env user team db db' h in
    rw e (
      All-mono (captain_ok db.members) (captain_ok (db.members ++ m ∷ [])) db.teams
        (λ u j x. captain_ok-add m db.members u x (ground (arith, k))) c)

-- With no members left, the captaincy does not matter.
captain_ok-emptied :
    (team user : ℕ) (ms : List Member) (t : Team)
    → list_members team (remove_member team user ms) ≡ []
    → captain_ok ms t ≡ true
    → captain_ok (remove_member team user ms) t ≡ true
captain_ok-emptied team user ms t e h = elim (Bool-cases (t.id == team)) [
  | inl k ↦ ground (arith, no_members team (remove_member team user ms) e, beq→eq t.id team k)
  | inr k ↦ captain_ok-remove team user ms t h (ground (arith, k))
]

-- The members of a team that stays are the same after another team is deleted.
captain_ok-delete :
    (team : ℕ) (ms : List Member) (t : Team)
    → captain_ok ms t ≡ true
    → not (t.id == team) ≡ true
    → captain_ok (keep (λ m. not (in_team team m)) ms) t ≡ true
captain_ok-delete team ms t h k = ground (
  arith,
  h,
  k,
  tally-keep (is_member t.id t.captain_id) (λ m. not (in_team team m)) ms,
  tally-ext (λ m. not (in_team team m) && is_member t.id t.captain_id m)
      (is_member t.id t.captain_id) ms (λ m. ground (arith, k)),
  tally-keep-le (in_team t.id) (λ m. not (in_team team m)) ms,
)

All-delete :
    (team : ℕ) (ms : List Member) (ts : List Team)
    → All (captain_ok ms) ts
    → All (captain_ok (keep (λ m. not (in_team team m)) ms)) (keep (λ t. not (t.id == team)) ts)
All-delete team ms [] a = tt
All-delete team ms (t ∷ ts) a = elim (Bool-cases (t.id == team)) [
  | inl e ↦ rw e (All-delete team ms ts a.1)
  | inr e ↦ rw e (captain_ok-delete team ms t a.0 (ground (arith, e)), All-delete team ms ts a.1)
]

-- The captain of the team after a leave that leaves members.
captain_ok-heir :
    (team user : ℕ) (ms : List Member) (heir : Member) (others : List Member) (t : Team)
    → list_members team (remove_member team user ms) ≡ heir ∷ others
    → captain_ok ms t ≡ true
    → captain_ok
        (remove_member team user ms)
        (if t.id == team then set_captain heir.user_id t else t)
      ≡ true
captain_ok-heir team user ms heir others t e h = elim (Bool-cases (t.id == team)) [
  | inl k ↦ ground (
    arith,
    k,
    beq→eq t.id team k,
    has_member-heir team (remove_member team user ms) heir others e,
  )
  | inr k ↦ ground (arith, k, captain_ok-remove team user ms t h)
]

pub leave_tx-Captained :
    (env : Env) (user team : ℕ) (db db' : Tables)
    → tally (λ (t : Team). t.id == team) db.teams ≤ 1
    → leave_tx env user team db ≡ ok db'
    → Captained db
    → Captained db'
unfolding leave_tx team_by_id
leave_tx-Captained env user team db db' u h c = elim (Option-cases (team_by_id team db.teams)) [
  | inl e ↦ let same : db' ≡ db = ground (arith, e, h) in rw same c
  | inr (locked, e) ↦
      let ms = remove_member team user db.members in
      let id : locked.id ≡ team =
        beq→eq locked.id team (first-passes (λ t. t.id == team) db.teams locked e) in
      elim (leave_tx-ok env user team db db' locked e h) [
        | inl (k, r) ↦
            let emptied : All (captain_ok ms) db.teams =
              All-mono (captain_ok db.members) (captain_ok ms) db.teams
                (λ t m. captain_ok-emptied team user db.members t k) c in
            elim r [
              | inl d ↦ rw d emptied
              | inr d ↦ rw d (All-delete locked.id ms db.teams emptied)
            ]
        | inr (heir, others, k, d) ↦ elim (Bool-cases (locked.captain_id == user)) [
          | inl b ↦
              rw (d, b, id)
                (All-update_team (captain_ok db.members) (captain_ok ms) (set_captain heir.user_id)
                  team db.teams (λ t. captain_ok-heir team user db.members heir others t k) c)
          | inr b ↦
              rw (d, b)
                (All-mono (captain_ok db.members) (captain_ok ms) db.teams
                  (λ t m a. captain_ok-remove team user db.members t a (
                    ground (arith, b, beq→eq t.id team, first-keyed team db.teams t locked u m, e)))
                  c)
        ]
      ]
]

-- If its query does not fail, RepairStrandedCaptains leaves every team that has members with a
-- captain among them, on any tables.
pub repair_captains-Captained :
    (env : Env) (db : Tables)
    → env.faults repair_call ≡ false
    → Captained (repair_captains env db).0
unfolding repair_captains
repair_captains-Captained env db h = rw h (All-repair db.members db.teams)
