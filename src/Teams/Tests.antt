-- ===== src/Teams/Tests.antt =====
-- Runs of the team operations, and their theorems at concrete inputs.
use osctf.Prelude.{ℕ, ◌<◌, ◌≡◌, refl, true, false, some, [], ◌∷◌, arith, length, tally, ok, err}
use osctf.Submissions.Store.{Text, text_beq}
use osctf.Teams.Tables.{
  Team, Member, Tables, bad_name, team_full, of_user, member_count, team_by_id, team_by_code,
  user_team, list_members, insert_team, add_member,
}
use osctf.Teams.Service.{
  Env, create, create_tx, join, join_tx, leave, leave_tx, prepare_team, load, find_by_code,
  find_own, repair_captains,
}
use osctf.Teams.WellFormed.{WellFormed, captain_ok}
use osctf.Teams.Captains.{Captained, repair_captains-Captained}
use osctf.Teams.History.{Reach, here, next, leaves, run_tx, Reach-WellFormed, Reach-Captained}
use osctf.Teams.Replies.{join_accepted}

abbrev name_of : Text
name_of = 82 ∷ 101 ∷ 100 ∷ []

abbrev code_of : Text
code_of = 48 ∷ 49 ∷ []

abbrev env : Env
env = record {
  now = 30;
  faults = λ c. false;
  new_id = some 40;
  new_code = some code_of;
  max_size = 2;
  fold = λ t. t;
  char_length = λ t. length t;
}

abbrev red : Team
red = record {
  id = 40;
  name = name_of;
  invite_code = code_of;
  captain_id = 70;
  banned = false;
  hidden = false;
}

abbrev member : ℕ → ℕ → Member
member user at = record { team_id = 40; user_id = user; joined_at = at }

abbrev no_tables : Tables
no_tables = record { teams = []; members = []; submitted = [] }

abbrev one : Tables
one = record no_tables { teams = red ∷ []; members = member 70 30 ∷ [] }

abbrev two : Tables
two = record one { members = member 70 30 ∷ member 71 30 ∷ [] }

red_created :
    create env 70 name_of no_tables ≡ (one, ok (record { row = red; members = member 70 30 ∷ [] }))
unfolding create prepare_team create_tx insert_team add_member load list_members
red_created = refl

short_name : create env 70 (82 ∷ []) no_tables ≡ (no_tables, err bad_name)
unfolding create prepare_team
short_name = refl

second_joined :
    join env 71 code_of one
    ≡ (two, ok (record { row = red; members = member 70 30 ∷ member 71 30 ∷ [] }))
unfolding join find_by_code join_tx team_by_code team_by_id add_member load list_members text_beq
second_joined = refl

join_accepted_example :
    (team_by_code code_of one.teams ≡ some red)
    × (red.banned ≡ false)
    × (member_count 40 one.members < 2)
    × (tally (of_user 71) one.members ≡ 0)
    × (two ≡ two)
join_accepted_example = join_accepted env 71 code_of one two _ second_joined

full : join env 72 code_of two ≡ (two, err team_full)
unfolding join find_by_code join_tx team_by_code team_by_id text_beq
full = refl

two-WellFormed : WellFormed 2 two
two-WellFormed = record {
  one_team = λ u. ground arith;
  sized = λ x. ground arith;
  placed = λ x. ground arith;
  keyed = λ x. ground arith;
}

abbrev handed_over : Tables
handed_over = record one {
  teams = record red { captain_id = 71 } ∷ [];
  members = member 71 30 ∷ [];
}

captain_left : leave env 70 two ≡ (handed_over, ok tt)
unfolding leave find_own user_team leave_tx team_by_id list_members
captain_left = refl

both_leave : Reach 2 true two (
    run_tx
      (run_tx two (leave_tx env 70 40 two))
      (leave_tx env 71 40 (run_tx two (leave_tx env 70 40 two))))
both_leave =
    next (next here (leaves env 70 40 two)) (leaves env 71 40 (run_tx two (leave_tx env 70 40 two)))

Reach-WellFormed_example : WellFormed 2 (
    run_tx
      (run_tx two (leave_tx env 70 40 two))
      (leave_tx env 71 40 (run_tx two (leave_tx env 70 40 two))))
Reach-WellFormed_example = Reach-WellFormed both_leave (omega arith) two-WellFormed

Reach-Captained_example : Captained (
    run_tx
      (run_tx two (leave_tx env 70 40 two))
      (leave_tx env 71 40 (run_tx two (leave_tx env 70 40 two))))
Reach-Captained_example = Reach-Captained both_leave (omega arith) two-WellFormed (refl, tt)

-- A team that its last member has left, kept for its submissions, and joined by its code: its
-- captain is not a member.
abbrev emptied : Tables
emptied = record one { members = []; submitted = 40 ∷ [] }

abbrev stranded_tables : Tables
stranded_tables = record emptied { members = member 71 30 ∷ [] }

stranded : (join env 71 code_of emptied).0 ≡ stranded_tables
unfolding join find_by_code join_tx team_by_code team_by_id add_member load text_beq
stranded = refl

stranded_captain : captain_ok stranded_tables.members red ≡ false
stranded_captain = refl

repair_captains-Captained_example : Captained (repair_captains env stranded_tables).0
repair_captains-Captained_example = repair_captains-Captained env stranded_tables refl
