-- ===== src/Instances/Quota.antt =====
-- How many instances each team may run, and what writes to the table of internal/runtime do to that
-- number.
use osctf.Prelude.{
  ℕ, ◌+◌, ◌≤◌, ◌<◌, ◌≡◌, refl, Bool, true, false, ◌&&◌, not, some, List, [], ◌∷◌, arith, nat_key,
  text_key, keep, tally, tally-keep-le, Bool-cases,
}
use osctf.Submissions.Store.{bytes_key}
use osctf.Instances.Table.{
  Row, same_number, has_id, is_running, runs_for, team_running, update_rows,
}

abbrev pub is_team : ℕ → Row → Bool
is_team team r = same_number r.team_id (some team)

-- The identifiers are unique, and no team has more running rows than `quota` allows it.
pub record WithinQuota (quota : ℕ → ℕ) (rows : List Row) : Type 0 where
  pub unique : (id : ℕ) → tally (has_id id) rows ≤ 1
  pub within : (team : ℕ) → team_running team rows ≤ quota team

module _ (id : ℕ) (change : Row → Row) (same_id : (r : Row) → (change r).id ≡ r.id) where
  pub ids-update_rows :
      (j : ℕ) (rows : List Row)
      → tally (has_id j) (update_rows id change rows) ≡ tally (has_id j) rows
  ids-update_rows j [] = refl
  ids-update_rows j (r ∷ rows) = ground (arith, same_id r, ids-update_rows j rows)

  module _ (same_team : (r : Row) → (change r).team_id ≡ r.team_id) where
    -- An update makes at most the updated rows of a team run.
    pub running-update_rows :
        (team : ℕ) (rows : List Row)
        → tally (runs_for team) (update_rows id change rows)
          ≤ tally (runs_for team) rows + tally (λ r. has_id id r && is_team team r) rows
    running-update_rows team [] = omega arith
    running-update_rows team (r ∷ rows) = ground (arith, same_team r, running-update_rows team rows)

    -- An update that leaves nothing running makes none run.
    pub idle-update_rows :
        ((r : Row) → is_running (change r).stage ≡ true → is_running r.stage ≡ true)
        → (team : ℕ) (rows : List Row)
        → tally (runs_for team) (update_rows id change rows) ≤ tally (runs_for team) rows
    idle-update_rows idle team [] = omega arith
    idle-update_rows idle team (r ∷ rows) =
        ground (arith, same_team r, idle r, idle-update_rows idle team rows)

    pub idle-WithinQuota :
        ((r : Row) → is_running (change r).stage ≡ true → is_running r.stage ≡ true)
        → (quota : ℕ → ℕ) (rows : List Row) → WithinQuota quota rows
        → WithinQuota quota (update_rows id change rows)
    unfolding team_running
    idle-WithinQuota idle quota rows w = record {
      unique = λ j. omega (arith, w.unique j, ids-update_rows j rows);
      within = λ team. omega (arith, w.within team, idle-update_rows idle team rows);
    }

pub keep-WithinQuota :
    (stays : Row → Bool) (quota : ℕ → ℕ) (rows : List Row)
    → WithinQuota quota rows
    → WithinQuota quota (keep stays rows)
unfolding team_running
keep-WithinQuota stays quota rows w = record {
  unique = λ j. omega (arith, w.unique j, tally-keep-le (has_id j) stays rows);
  within = λ team. omega (arith, w.within team, tally-keep-le (runs_for team) stays rows);
}

split_by :
    (p q : Row → Bool) (rows : List Row)
    → tally (λ r. p r && q r) rows + tally (λ r. p r && not (q r)) rows ≡ tally p rows
split_by p q [] = refl
split_by p q (r ∷ rows) = ground (arith, split_by p q rows)

-- The rows of an instance are all of its owner.
pub other_owner :
    (id other : ℕ) (mine : Row → Bool)
    → ((r : Row) → mine r ≡ true → is_team other r ≡ false)
    → (rows : List Row) → tally (has_id id) rows ≤ 1
    → 0 < tally (λ r. has_id id r && mine r) rows
    → tally (λ r. has_id id r && is_team other r) rows ≡ 0
other_owner id other mine apart rows u m =
    omega (arith, u, m, split_by (has_id id) mine rows, below rows)
  where
    below :
        (xs : List Row)
        → tally (λ r. has_id id r && is_team other r) xs
          ≤ tally (λ r. has_id id r && not (mine r)) xs
    below [] = omega arith
    below (x ∷ xs) = ground (arith, below xs, apart x, Bool-cases (mine x))
