-- ===== src/Teams/Tables.antt =====
-- The tables of internal/teams and the queries of internal/db/queries/teams.sql. Names compare as
-- `citext`, by a folding that is the database's; members are listed by the time that they joined,
-- which is when their transaction began.
use osctf.Prelude.{
  ℕ, Bool, ◌&&◌, ◌||◌, not, Option, none, some, List, [], ◌∷◌, ◌++◌, if◌then◌else◌, ◌==◌, nat_key,
  ltb, keep, tally, Result, ok, err,
}
use osctf.Prelude.Sort.{stable_sort}
use osctf.Submissions.Store.{Text, bytes_key, first}

-- `gen.Team`
pub record Team : Type 0 where
  pub id : ℕ
  pub name : Text
  pub invite_code : Text
  pub captain_id : ℕ
  pub banned : Bool
  pub hidden : Bool

-- `gen.TeamMember`
pub record Member : Type 0 where
  pub team_id : ℕ
  pub user_id : ℕ
  pub joined_at : ℕ

-- The teams, their members, and the team of each submission.
pub record Tables : Type 0 where
  pub teams : List Team
  pub members : List Member
  pub submitted : List ℕ

pub data Failure : Type 0 where
  bad_name no_such_code no_team team_banned team_full already_on_team name_taken code_taken :
      Failure
  already_exists not_found not_captain broken : Failure

abbrev pub in_team : ℕ → Member → Bool
in_team team m = m.team_id == team

abbrev pub is_member : ℕ → ℕ → Member → Bool
is_member team user m = m.team_id == team && m.user_id == user

abbrev pub of_user : ℕ → Member → Bool
of_user user m = m.user_id == user

-- `CountTeamMembers`
abbrev pub member_count : ℕ → List Member → ℕ
member_count team = tally (in_team team)

abbrev pub has_member : ℕ → ℕ → List Member → Bool
has_member team user ms = ltb 0 (tally (is_member team user) ms)

-- `GetTeamByID`, and `LockTeam`
unfoldable pub team_by_id : ℕ → List Team → Option Team
team_by_id id = first (λ t. t.id == id)

-- `GetTeamByInviteCode`
unfoldable pub team_by_code : Text → List Team → Option Team
team_by_code code = first (λ t. t.invite_code == code)

-- `GetUserTeam`, the id of the team
abbrev pub team_of : Option Member → Option ℕ
team_of none = none
team_of (some m) = some m.team_id

unfoldable pub user_team : ℕ → List Member → Option ℕ
user_team user ms = team_of (first (of_user user) ms)

abbrev pub joined_before : Member → Member → Bool
joined_before a b = ltb a.joined_at b.joined_at

-- `ListTeamMembers`
unfoldable pub list_members : ℕ → List Member → List Member
list_members team ms = stable_sort joined_before (keep (in_team team) ms)

-- `CountTeamSubmissions`
abbrev pub submission_count : ℕ → List ℕ → ℕ
submission_count team = tally (λ t. t == team)

abbrev pub has_team : ℕ → List Team → Bool
has_team id teams = ltb 0 (tally (λ t. t.id == id) teams)

-- `CreateTeam`, under the checks and the unique indexes of the table, in the order in which a
-- violation is reported.
unfoldable pub insert_team :
    (Text → Text) → (Text → ℕ) → Team → List Team → Result Failure (List Team)
insert_team fold char_length t teams =
    if ltb (char_length t.name) 3 || ltb 48 (char_length t.name)
    then err broken
    else if has_team t.id teams
    then err already_exists
    else if ltb 0 (tally (λ u. fold u.name == fold t.name) teams)
    then err name_taken
    else if ltb 0 (tally (λ u. u.invite_code == t.invite_code) teams)
    then err code_taken
    else ok (teams ++ t ∷ [])

-- `AddTeamMember`
unfoldable pub add_member : Member → List Member → Result Failure (List Member)
add_member m ms =
    if has_member m.team_id m.user_id ms
    then err already_exists
    else if ltb 0 (tally (of_user m.user_id) ms)
    then err already_on_team
    else ok (ms ++ m ∷ [])

-- `RemoveTeamMember`
abbrev pub remove_member : ℕ → ℕ → List Member → List Member
remove_member team user = keep (λ m. not (is_member team user m))

-- `DeleteTeam`; its members' rows go with it.
abbrev pub delete_team : ℕ → Tables → Tables
delete_team team db = record db {
  teams = keep (λ t. not (t.id == team)) db.teams;
  members = keep (λ m. not (in_team team m)) db.members;
}

-- An `UPDATE … WHERE id = $1`
abbrev pub update_team : (Team → Team) → ℕ → List Team → List Team
update_team change team [] = []
update_team change team (t ∷ teams) =
    let rest = update_team change team teams in if t.id == team then change t ∷ rest else t ∷ rest
