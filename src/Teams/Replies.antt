-- ===== src/Teams/Replies.antt =====
-- What the replies of internal/teams say of the tables.
use osctf.Prelude.{
  ℕ, ◌≤◌, ◌<◌, ◌≡◌, ◌⊎◌, inl, inr, refl, ap, true, false, not, none, some, List, [], ◌∷◌, ◌++◌,
  arith, nat_key, length, tally, tally-keep-le, Option-cases, ok, err,
}
use osctf.Submissions.Store.{Text, first}
use osctf.Teams.Tables.{
  Team, Member, Tables, Failure, broken, in_team, is_member, of_user, member_count, team_by_code,
  team_by_id, user_team, team_of, has_team, remove_member, add_member, insert_team,
}
use osctf.Teams.WellFormed.{WellFormed}
use osctf.Teams.Service.{
  Env, View, list_call, create, create_tx, join, join_tx, leave, leave_tx, load, find_by_code,
  find_own, prepare_team,
}
use osctf.Teams.Captains.{leave_tx-ok}

-- A reply of Join means that the code was a team's that is not banned and had room, that the user
-- had no team, and that exactly the user's membership was added.
pub join_accepted :
    (env : Env) (user : ℕ) (code : Text) (db db' : Tables) (v : View)
    → join env user code db ≡ (db', ok v)
    → (team_by_code code db.teams ≡ some v.row)
      × (v.row.banned ≡ false)
      × (member_count v.row.id db.members < env.max_size)
      × (tally (of_user user) db.members ≡ 0)
      × (db' ≡ record db {
        members =
            db.members ++ record { team_id = v.row.id; user_id = user; joined_at = env.now } ∷ [];
      })
unfolding join find_by_code load join_tx add_member
join_accepted env user code db db' v h = ground (arith, h)

-- A reply of Create means that the name is of 3 to 48 bytes, that the user had no team, and that
-- exactly the team with the user as captain and the user's membership were added.
pub create_accepted :
    (env : Env) (user : ℕ) (name : Text) (db db' : Tables) (v : View)
    → create env user name db ≡ (db', ok v)
    → (3 ≤ length name)
      × (length name ≤ 48)
      × (tally (of_user user) db.members ≡ 0)
      × (v.row.captain_id ≡ user)
      × (v.row.name ≡ name)
      × (db' ≡ record db {
        teams = db.teams ++ v.row ∷ [];
        members =
            db.members ++ record { team_id = v.row.id; user_id = user; joined_at = env.now } ∷ [];
      })
unfolding create prepare_team load create_tx insert_team add_member
create_accepted env user name db db' v h = ground (arith, h)

-- An error of Create means that the tables are unchanged, or that the members could not be listed
-- after the commit.
pub create_refused :
    (env : Env) (user : ℕ) (name : Text) (db db' : Tables) (e : Failure)
    → create env user name db ≡ (db', err e)
    → (db' ≡ db) ⊎ ((e ≡ broken) × (env.faults list_call ≡ true))
unfolding create load
create_refused env user name db db' e h = ground (arith, h)

-- An error of Join means that the tables are unchanged, or that the members could not be listed
-- after the commit.
pub join_refused :
    (env : Env) (user : ℕ) (code : Text) (db db' : Tables) (e : Failure)
    → join env user code db ≡ (db', err e)
    → (db' ≡ db) ⊎ ((e ≡ broken) × (env.faults list_call ≡ true))
unfolding join load
join_refused env user code db db' e h = ground (arith, h)

first-tally :
    (user : ℕ) (ms : List Member) (m : Member)
    → first (of_user user) ms ≡ some m
    → 0 < tally (of_user user) ms
first-tally user [] m e = absurd (cc e)
first-tally user (x ∷ ms) m e = ground (arith, e, first-tally user ms m)

-- The one row of a user goes when the user is removed from its team.
removed :
    (user : ℕ) (ms : List Member) (m : Member)
    → first (of_user user) ms ≡ some m
    → tally (of_user user) ms ≤ 1
    → tally (of_user user) (remove_member m.team_id user ms) ≡ 0
removed user [] m e h = absurd (cc e)
removed user (x ∷ ms) m e h = ground (
  arith,
  e,
  h,
  removed user ms m,
  tally-keep-le (of_user user) (λ y. not (is_member m.team_id user y)) ms,
)

own_row :
    (user team : ℕ) (ms : List Member)
    → user_team user ms ≡ some team
    → (m : Member) × (first (of_user user) ms ≡ some m) × (m.team_id ≡ team)
unfolding user_team
own_row user team ms h = elim (Option-cases (first (of_user user) ms)) [
  | inl e ↦ absurd (cc (ap team_of e, h))
  | inr (m, e) ↦ (m, e, ground (arith, e, h))
]

counted_in :
    (user : ℕ) (ms : List Member) (m : Member)
    → first (of_user user) ms ≡ some m
    → 0 < member_count m.team_id ms
counted_in user [] m e = absurd (cc e)
counted_in user (x ∷ ms) m e = ground (arith, e, counted_in user ms m)

not_found-has_team :
    (team : ℕ) (ts : List Team) → team_by_id team ts ≡ none → has_team team ts ≡ false
unfolding team_by_id
not_found-has_team team [] e = refl
not_found-has_team team (t ∷ ts) e = ground (arith, e, not_found-has_team team ts)

leave-parts :
    (env : Env) (user : ℕ) (db db' : Tables)
    → leave env user db ≡ (db', ok tt)
    → (team : ℕ) × (user_team user db.members ≡ some team) × (leave_tx env user team db ≡ ok db')
unfolding leave find_own
leave-parts env user db db' h = elim (Option-cases (user_team user db.members)) [
  | inl e ↦ absurd (ground (arith, e, h))
  | inr (team, e) ↦ (team, e, ground (arith, e, h))
]

-- On well-formed tables, a reply of Leave means that the user had a team, and now has none.
pub leave_accepted :
    (env : Env) (user max : ℕ) (db db' : Tables)
    → WellFormed max db
    → leave env user db ≡ (db', ok tt)
    → (tally (of_user user) db.members ≡ 1) × (tally (of_user user) db'.members ≡ 0)
leave_accepted env user max db db' w h =
    let (team, own, tx) = leave-parts env user db db' h in
    let (m, f, id) = own_row user team db.members own in
    let gone = rw id at (removed user db.members m f (w.one_team user)) in
    (
      ground (arith, f, w.one_team user, first-tally user db.members m f),
      elim (Option-cases (team_by_id team db.teams)) [
        | inl e ↦ absurd (
            ground (
              arith,
              not_found-has_team team db.teams e,
              w.placed team,
              counted_in user db.members m f,
              id,
            ))
        | inr (locked, e) ↦ ground (
          arith,
          gone,
          leave_tx-ok env user team db db' locked e tx,
          tally-keep-le (of_user user) (λ y. not (in_team locked.id y))
              (remove_member team user db.members),
        )
      ],
    )
