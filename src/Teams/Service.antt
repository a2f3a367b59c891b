-- ===== src/Teams/Service.antt =====
-- Create, Join, Leave and RepairStrandedCaptains of internal/teams/service.go.
use osctf.Prelude.{
  ℕ, Bool, false, ◌||◌, Option, none, some, List, [], ◌∷◌, if◌then◌else◌, ◌==◌, nat_key, ltb, leb,
  length, Result, ok, err, ◌>>=◌, ◌>>◌, fail_if, or_fail,
}
use osctf.Submissions.Store.{Text}
use osctf.Teams.Tables.{
  Team, Member, Tables, Failure, bad_name, no_such_code, no_team, team_banned, team_full, broken,
  member_count, has_member, team_by_id, team_by_code, user_team, list_members, submission_count,
  insert_team, add_member, remove_member, delete_team, update_team,
}

pub data Call : Type 0 where
  begin commit insert_call add_call list_call code_call lock count_call user_call remove_call : Call
  list_left_call count_subs_call delete_call captain_call repair_call update_call id_call : Call

pub record Env : Type 0 where
  pub now : ℕ
  pub faults : Call → Bool
  pub new_id : Option ℕ
  pub new_code : Option Text
  pub max_size : ℕ
  pub fold : Text → Text  -- the comparison of citext
  pub char_length : Text → ℕ  -- char_length of the database

-- `Team`, the reply.
pub record View : Type 0 where
  pub row : Team
  pub members : List Member

-- `validateName`, by bytes.
abbrev pub name_is_bad : Text → Bool
name_is_bad name = ltb (length name) 3 || ltb 48 (length name)

-- `load`
unfoldable pub load : Env → Team → Tables → Result Failure View
load env t db = do
  fail_if (env.faults list_call) broken
  ok (record { row = t; members = list_members t.id db.members })

-- What `db.WithTx` makes of a transaction that leads to other tables, or fails.
abbrev in_tx : Env → Result Failure Tables → Result Failure Tables
in_tx env r = do
  fail_if (env.faults begin) broken
  db ← r
  fail_if (env.faults commit) broken
  ok db

abbrev new_team : ℕ → ℕ → Text → Text → Team
new_team id user name code = record {
  id = id;
  name = name;
  invite_code = code;
  captain_id = user;
  banned = false;
  hidden = false;
}

-- The transaction of `Create`.
unfoldable pub create_tx : Env → Team → Tables → Result Failure Tables
create_tx env t db = in_tx env (do
  fail_if (env.faults insert_call) broken
  teams ← insert_team env.fold env.char_length t db.teams
  fail_if (env.faults add_call) broken
  members ←
      add_member (record { team_id = t.id; user_id = t.captain_id; joined_at = env.now }) db.members
  ok (record db { teams = teams; members = members }))

abbrev after_tx : Env → Team → Tables → Result Failure Tables → Tables × Result Failure View
after_tx env t db (ok db') = (db', load env t db')
after_tx env t db (err e) = (db, err e)

abbrev created : Env → Tables → Result Failure Team → Tables × Result Failure View
created env db (ok t) = after_tx env t db (create_tx env t db)
created env db (err e) = (db, err e)

-- What `Create` does before its transaction.
unfoldable pub prepare_team : Env → ℕ → Text → Result Failure Team
prepare_team env user name = do
  fail_if (name_is_bad name) bad_name
  code ← or_fail env.new_code broken
  id ← or_fail env.new_id broken
  ok (new_team id user name code)

-- `Create`
unfoldable pub create : Env → ℕ → Text → Tables → Tables × Result Failure View
create env user name db = created env db (prepare_team env user name)

-- What `Join` does before its transaction.
unfoldable pub find_by_code : Env → Text → Tables → Result Failure Team
find_by_code env code db = do
  fail_if (env.faults code_call) broken
  t ← or_fail (team_by_code code db.teams) no_such_code
  fail_if t.banned team_banned
  ok t

-- The transaction of `Join`, on the team that was found before it.
unfoldable pub join_tx : Env → ℕ → ℕ → Tables → Result Failure Tables
join_tx env user team db = in_tx env (do
  fail_if (env.faults lock) broken
  locked ← or_fail (team_by_id team db.teams) no_such_code
  fail_if locked.banned team_banned
  fail_if (env.faults count_call) broken
  fail_if (leb env.max_size (member_count team db.members)) team_full
  fail_if (env.faults add_call) broken
  members ← add_member (record { team_id = team; user_id = user; joined_at = env.now }) db.members
  ok (record db { members = members }))

abbrev joined : Env → ℕ → Tables → Result Failure Team → Tables × Result Failure View
joined env user db (ok t) = after_tx env t db (join_tx env user t.id db)
joined env user db (err e) = (db, err e)

-- `Join`, with no other request between its parts.
unfoldable pub join : Env → ℕ → Text → Tables → Tables × Result Failure View
join env user code db = joined env user db (find_by_code env code db)

-- What is left of a team that has lost its last member: nothing, or its row if it has submissions.
abbrev leave_empty : Env → ℕ → Tables → Result Failure Tables
leave_empty env team db = do
  fail_if (env.faults count_subs_call) broken
  if submission_count team db.submitted == 0
      then (do fail_if (env.faults delete_call) broken; ok (delete_team team db))
      else ok db

abbrev pub set_captain : ℕ → Team → Team
set_captain user t = record t { captain_id = user }

-- What becomes of the captaincy when members are left.
abbrev leave_others : Env → ℕ → Team → Member → Tables → Result Failure Tables
leave_others env user locked heir db =
    if locked.captain_id == user
    then (do
      fail_if (env.faults captain_call) broken
      ok (record db { teams = update_team (set_captain heir.user_id) locked.id db.teams }))
    else ok db

abbrev leave_rest : Env → ℕ → Team → Tables → List Member → Result Failure Tables
leave_rest env user locked db [] = leave_empty env locked.id db
leave_rest env user locked db (heir ∷ others) = leave_others env user locked heir db

abbrev leave_locked : Env → ℕ → ℕ → Tables → Option Team → Result Failure Tables
leave_locked env user team db none = ok db
leave_locked env user team db (some locked) =
    let left = record db { members = remove_member team user db.members } in
    (do
      fail_if (env.faults remove_call) broken
      fail_if (env.faults list_left_call) broken
      leave_rest env user locked left (list_members team left.members))

-- The transaction of `Leave`, on the team that was found before it.
unfoldable pub leave_tx : Env → ℕ → ℕ → Tables → Result Failure Tables
leave_tx env user team db =
    in_tx env (do
      fail_if (env.faults lock) broken
      leave_locked env user team db (team_by_id team db.teams))

-- What `Leave` does before its transaction.
unfoldable pub find_own : Env → ℕ → Tables → Result Failure ℕ
find_own env user db = do
  fail_if (env.faults user_call) broken
  or_fail (user_team user db.members) no_team

abbrev committed : Tables → Result Failure Tables → Tables × Result Failure (Unit {0})
committed db (ok db') = (db', ok tt)
committed db (err e) = (db, err e)

abbrev left_by : Env → ℕ → Tables → Result Failure ℕ → Tables × Result Failure (Unit {0})
left_by env user db (ok team) = committed db (leave_tx env user team db)
left_by env user db (err e) = (db, err e)

-- `Leave`, with no other request between its parts.
unfoldable pub leave : Env → ℕ → Tables → Tables × Result Failure (Unit {0})
leave env user db = left_by env user db (find_own env user db)

abbrev promote : Team → List Member → Team
promote t [] = t
promote t (heir ∷ others) = set_captain heir.user_id t

-- A team whose captain is not a member, if it has members.
abbrev pub repair_team : List Member → Team → Team
repair_team ms t = if has_member t.id t.captain_id ms then t else promote t (list_members t.id ms)

abbrev pub repair_teams : List Member → List Team → List Team
repair_teams ms [] = []
repair_teams ms (t ∷ teams) = repair_team ms t ∷ repair_teams ms teams

-- `RepairStrandedCaptains`, by its effect on the tables.
unfoldable pub repair_captains : Env → Tables → Tables × Result Failure (Unit {0})
repair_captains env db =
    if env.faults repair_call
    then (db, err broken)
    else (record db { teams = repair_teams db.members db.teams }, ok tt)
