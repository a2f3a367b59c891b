-- ===== src/Teams/WellFormed.antt =====
-- What holds of the tables of internal/teams between transactions.
use osctf.Prelude.{
  ℕ, ◌≤◌, ◌≡◌, ap, Bool, true, ◌&&◌, ◌||◌, not, some, List, [], ◌∷◌, arith, ◌==◌, nat_key, ltb,
  keep, tally, All, tally-keep, tally-ext, tally-Permᴰ, All-keep, All-Permᴰ,
}
use osctf.Prelude.Sort.{stable_sort-Permᴰ}
use osctf.Submissions.Store.{first}
use osctf.Teams.Tables.{
  Team, Member, Tables, in_team, is_member, of_user, member_count, has_member, has_team,
  list_members, joined_before,
}

-- The captain of a team that has members is one of them.
abbrev pub captain_ok : List Member → Team → Bool
captain_ok ms t = not (ltb 0 (member_count t.id ms)) || has_member t.id t.captain_id ms

pub record WellFormed (max : ℕ) (db : Tables) : Type 0 where
  pub one_team : (user : ℕ) → tally (of_user user) db.members ≤ 1
  pub sized : (team : ℕ) → member_count team db.members ≤ max
  pub placed :
      (team : ℕ) → not (ltb 0 (member_count team db.members)) || has_team team db.teams ≡ true
  pub keyed : (team : ℕ) → tally (λ (t : Team). t.id == team) db.teams ≤ 1

-- A member of a list of members is a member.
pub has_member-heir :
    (team : ℕ) (ms : List Member) (heir : Member) (others : List Member)
    → list_members team ms ≡ heir ∷ others
    → has_member team heir.user_id ms ≡ true
unfolding list_members
has_member-heir team ms heir others e =
    let p = stable_sort-Permᴰ joined_before (keep (in_team team) ms) in
    let inside = All-Permᴰ (in_team team) p (All-keep (in_team team) ms) in
    ground (
      arith,
      ap (tally (is_member team heir.user_id)) e,
      tally-Permᴰ (is_member team heir.user_id) p,
      tally-keep (is_member team heir.user_id) (in_team team) ms,
      tally-ext (λ m. in_team team m && is_member team heir.user_id m) (is_member team heir.user_id)
          ms (λ m. ground arith),
      ap (λ xs. All (in_team team) xs) e,
      inside,
    )

-- A team whose members' list is empty has no members.
pub no_members :
    (team : ℕ) (ms : List Member) → list_members team ms ≡ [] → member_count team ms ≡ 0
unfolding list_members
no_members team ms e = ground (
  arith,
  ap (tally (in_team team)) e,
  tally-Permᴰ (in_team team) (stable_sort-Permᴰ joined_before (keep (in_team team) ms)),
  tally-keep (in_team team) (in_team team) ms,
  tally-ext (λ m. in_team team m && in_team team m) (in_team team) ms (λ m. ground arith),
)

pub first-passes {ℓ} :
    {A : Type ℓ} (p : A → Bool) (xs : List A) (x : A) → first p xs ≡ some x → p x ≡ true
first-passes p [] x h = absurd (cc h)
first-passes p (y ∷ ys) x h = ground (arith, h, first-passes p ys x)
