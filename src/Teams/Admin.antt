-- ===== src/Teams/Admin.antt =====
-- The other operations of internal/teams: service.go from Rename on, admin.go, and invite.go.
use osctf.Prelude.{
  ℕ, zero, suc, ◌%◌, Bool, false, ◌&&◌, ◌||◌, not, Option, none, some, List, [], ◌∷◌, if◌then◌else◌,
  ◌==◌, nat_key, ltb, tally, Result, ok, err, ◌>>=◌, ◌>>◌, fail_if, or_fail,
}
use osctf.Submissions.Store.{Text, bytes_key}
use osctf.Teams.Tables.{
  Team, Tables, Failure, bad_name, name_taken, not_found, not_captain, broken, has_team, team_by_id,
  user_team, update_team,
}
use osctf.Teams.Service.{Env, update_call, user_call, id_call, View, name_is_bad, load}

abbrev pub set_name : Text → Team → Team
set_name name t = record t { name = name }

abbrev pub set_code : Text → Team → Team
set_code code t = record t { invite_code = code }

-- `UpdateTeamName`, under the table's check and its unique index.
unfoldable pub update_name : Env → ℕ → Text → List Team → Result Failure (List Team)
update_name env team name teams = do
  fail_if (env.faults update_call) broken
  fail_if (not (has_team team teams)) not_found
  fail_if (ltb (env.char_length name) 3 || ltb 48 (env.char_length name)) broken
  fail_if
      (ltb 0 (tally (λ (u : Team). not (u.id == team) && env.fold u.name == env.fold name) teams))
      name_taken
  ok (update_team (set_name name) team teams)

abbrev loaded : Env → ℕ → Tables → Result Failure View
loaded env team db = do t ← or_fail (team_by_id team db.teams) broken; load env t db

abbrev renamed : Env → ℕ → Tables → Result Failure (List Team) → Tables × Result Failure View
renamed env team db (err e) = (db, err e)
renamed env team db (ok teams) = let db' = record db { teams = teams } in (db', loaded env team db')

-- `Rename`
unfoldable pub rename : Env → ℕ → Text → Tables → Tables × Result Failure View
rename env team name db =
    if name_is_bad name
    then (db, err bad_name)
    else renamed env team db (update_name env team name db.teams)

-- `UpdateTeamInviteCode`, under the table's unique index.
unfoldable pub update_code : Env → ℕ → Text → List Team → Result Failure (List Team)
update_code env team code teams = do
  fail_if (env.faults update_call) broken
  fail_if (not (has_team team teams)) not_found
  fail_if (ltb 0 (tally (λ (u : Team). not (u.id == team) && u.invite_code == code) teams)) broken
  ok (update_team (set_code code) team teams)

abbrev recoded : Text → Tables → Result Failure (List Team) → Tables × Result Failure Text
recoded code db (err e) = (db, err e)
recoded code db (ok teams) = (record db { teams = teams }, ok code)

abbrev regenerate_with : Env → ℕ → Tables → Option Text → Tables × Result Failure Text
regenerate_with env team db none = (db, err broken)
regenerate_with env team db (some code) = recoded code db (update_code env team code db.teams)

-- `RegenerateInviteCode`
unfoldable pub regenerate_code : Env → ℕ → Tables → Tables × Result Failure Text
regenerate_code env team db = regenerate_with env team db env.new_code

-- `Get`
unfoldable get_team : Env → ℕ → Tables → Result Failure View
get_team env team db = do
  fail_if (env.faults id_call) broken
  t ← or_fail (team_by_id team db.teams) not_found
  load env t db

-- `RequireCaptain`
unfoldable require_captain : Env → ℕ → ℕ → Tables → Result Failure Team
require_captain env team user db = do
  fail_if (env.faults id_call) broken
  t ← or_fail (team_by_id team db.teams) not_found
  fail_if (not (t.captain_id == user)) not_captain
  ok t

abbrev is_own : ℕ → Option ℕ → Bool
is_own team none = false
is_own team (some own) = own == team

-- `IsMember`
unfoldable check_member : Env → ℕ → ℕ → Tables → Result Failure Bool
check_member env team user db = do
  fail_if (env.faults user_call) broken
  ok (is_own team (user_team user db.members))

abbrev or_keep : Option Bool → Bool → Bool
or_keep none old = old
or_keep (some new) old = new

abbrev pub set_flags : Option Bool → Option Bool → Team → Team
set_flags banned hidden t = record t {
  banned = or_keep banned t.banned;
  hidden = or_keep hidden t.hidden;
}

-- `AdminUpdate`
unfoldable pub admin_update :
    Env → ℕ → Option Bool → Option Bool → Tables → Tables × Result Failure (Unit {0})
admin_update env team banned hidden db =
    if env.faults update_call
    then (db, err broken)
    else if has_team team db.teams
    then (record db { teams = update_team (set_flags banned hidden) team db.teams }, ok tt)
    else (db, err not_found)

-- "0123456789ABCDEFGHJKMNPQRSTVWXYZ"
abbrev pub crockford : List ℕ
crockford =
    48 ∷ 49 ∷ 50 ∷ 51 ∷ 52 ∷ 53 ∷ 54 ∷ 55 ∷ 56 ∷ 57 ∷ 65 ∷ 66 ∷ 67 ∷ 68 ∷ 69 ∷ 70 ∷ 71 ∷ 72 ∷ 74
    ∷ 75 ∷ 77 ∷ 78 ∷ 80 ∷ 81 ∷ 82 ∷ 83 ∷ 84 ∷ 86 ∷ 87 ∷ 88 ∷ 89 ∷ 90 ∷ []

-- `xs[i]`; an index out of range is a panic, `none`.
abbrev pub index : List ℕ → ℕ → Option ℕ
index [] i = none
index (x ∷ xs) zero = some x
index (x ∷ xs) (suc i) = index xs i

abbrev code_with : Option ℕ → Option Text → Option Text
code_with (some c) (some code) = some (c ∷ code)
code_with _ _ = none

-- `GenerateInviteCode`, on the random bytes.
unfoldable pub invite_code_of : List ℕ → Option Text
invite_code_of [] = some []
invite_code_of (b ∷ bytes) = code_with (index crockford (b % 32)) (invite_code_of bytes)
