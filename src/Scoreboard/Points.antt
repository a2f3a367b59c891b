-- ===== src/Scoreboard/Points.antt =====
-- What the entries of internal/scoreboard/compute.go hold, against sums over the log.
use osctf.Prelude.{
  ℕ, ◌+◌, ◌≡◌, refl, Bool, true, false, ◌||◌, not, Option, none, some, List, [], ◌∷◌, map, All,
  Pairs, ◌++◌, arith, if◌then◌else◌, nat_key, ltb, tally, Dict, lookup, insert, lookup-insert,
  beq→eq,
}
use mathlib.Core.List.{Memᴰ, Permᴰ}
use osctf.Prelude.Int.{ℤ, ◌+ℤ◌, +ℤ-zero, zero-+ℤ, +ℤ_assoc}
use osctf.Registry.{Registry}
use osctf.Scoring.Engine.{Engine, value}
use osctf.Scoreboard.Order.{unranked, standings_of-Permᴰ, standings_of-Pairs, precedes}
use osctf.Scoreboard.Ranks.{standings_of-ranks, is_unranked, ranks_from, nones}
use osctf.Scoreboard.Standings.{
  compute, is_banned, is_active, TeamRow, SolveRow, Standing, Mode, or_else, count_rows, values,
  Agg, fresh_agg, row_points, later, add_solve, aggregate, entry_from, entries, totals,
}
use osctf.Scoreboard.Values.{
  worth, of_team, sum_of, latest, Joined, JoinedFrom, JoinedFrom→Joined, row_points-worth,
}

-- The points of a row of the second loop, wherever they agree with a function.
aggregate-sum :
    (points : SolveRow → ℤ) (value : Dict ℕ ℤ) (t : ℕ) (rows : List SolveRow) (acc : Dict ℕ Agg)
    → ((r : SolveRow) → Memᴰ r rows → row_points value r ≡ points r)
    → or_else fresh_agg (lookup t (aggregate value rows acc)) ≡ (
        let a = or_else fresh_agg (lookup t acc) in
        record {
          points = a.points +ℤ sum_of points t rows;
          solves = a.solves + tally (of_team t) rows;
          last_solve = later a.last_solve (latest t rows);
        })
unfolding aggregate
aggregate-sum points value t [] acc h =
    ground (arith, +ℤ-zero (or_else fresh_agg (lookup t acc)).points)
aggregate-sum points value t (r ∷ rows) acc h = ground (
  arith,
  aggregate-sum points value t rows
      (insert r.team_id (add_solve value r (or_else fresh_agg (lookup r.team_id acc))) acc)
      (λ x m. h x (Memᴰ.tail m)),
  lookup-insert r.team_id t (add_solve value r (or_else fresh_agg (lookup r.team_id acc))) acc,
  h r (Memᴰ.head refl),
  beq→eq r.team_id t,
  +ℤ_assoc (or_else fresh_agg (lookup t acc)).points (points r) (sum_of points t rows),
)

is_found : Option Agg → Bool
is_found none = false
is_found (some a) = true

aggregate-found :
    (value : Dict ℕ ℤ) (t : ℕ) (rows : List SolveRow) (acc : Dict ℕ Agg)
    → is_found (lookup t (aggregate value rows acc))
      ≡ (is_found (lookup t acc) || ltb 0 (tally (of_team t) rows))
unfolding aggregate is_found
aggregate-found value t [] acc = ground arith
aggregate-found value t (r ∷ rows) acc = ground (
  arith,
  aggregate-found value t rows
      (insert r.team_id (add_solve value r (or_else fresh_agg (lookup r.team_id acc))) acc),
  lookup-insert r.team_id t (add_solve value r (or_else fresh_agg (lookup r.team_id acc))) acc,
)

-- A team's entry, less its rank, described by sums over the log.
unfoldable pub expected : Registry Engine → List SolveRow → TeamRow → Standing
expected engines rows t = record {
  banned = t.banned;
  last_solve_at = if ltb 0 (tally (of_team t.id) rows) then some (latest t.id rows) else none;
  name = t.name;
  points = sum_of (worth engines rows) t.id rows;
  rank = none;
  solves = tally (of_team t.id) rows;
  team_id = t.id;
}

entry-expected :
    (engines : Registry Engine) (rows : List SolveRow) (t : TeamRow)
    → Joined rows
    → entry_from t (lookup t.id (totals engines rows)) ≡ expected engines rows t
unfolding totals expected is_found lookup
entry-expected engines rows t j =
    let c = count_rows rows (record { solve_count = []; chal = [] }) in
    let value = values engines c.solve_count c.chal in
    ground (
      arith,
      aggregate-found value t.id rows [],
      aggregate-sum (worth engines rows) value t.id rows []
          (λ r m. row_points-worth engines rows r c m j refl),
      zero-+ℤ (sum_of (worth engines rows) t.id rows),
    )

entries-expected :
    (engines : Registry Engine) (rows : List SolveRow) (teams : List TeamRow)
    → Joined rows
    → map unranked (entries (totals engines rows) teams) ≡ map (expected engines rows) teams
unfolding expected
entries-expected engines rows [] j = refl
entries-expected engines rows (t ∷ teams) j =
    ground (arith, entry-expected engines rows t j, entries-expected engines rows teams j)

-- For rows that carry the scoring of a table of challenges, the standings, less their ranks, are
-- a permutation of the entries described by sums over the log: each team once, its points the sum
-- of what its solves are worth (the engine's value at the number of solves by teams that are not
-- banned, or the recorded value), its count of solves and its latest solve.
pub compute-Permᴰ :
    (engines : Registry Engine) (now : ℕ) (teams : List TeamRow) (rows : List SolveRow)
    (table : ℕ → Mode)
    → JoinedFrom table rows
    → Permᴰ
        (map unranked (compute engines now teams rows).standings)
        (map (expected engines rows) teams)
unfolding compute
compute-Permᴰ engines now teams rows table j =
    rw (← entries-expected engines rows teams (JoinedFrom→Joined table rows j))
      (standings_of-Permᴰ (entries (totals engines rows) teams))

entries-unranked :
    (by_team : Dict ℕ Agg) (teams : List TeamRow) → All is_unranked (entries by_team teams)
entries-unranked by_team [] = tt
entries-unranked by_team (t ∷ teams) = (ground arith, entries-unranked by_team teams)

tally-entries :
    (by_team : Dict ℕ Agg) (teams : List TeamRow)
    → (tally is_active (entries by_team teams) ≡ tally (λ (t : TeamRow). not t.banned) teams)
      × (tally is_banned (entries by_team teams) ≡ tally (λ (t : TeamRow). t.banned) teams)
tally-entries by_team [] = (refl, refl)
tally-entries by_team (t ∷ teams) = ground (arith, tally-entries by_team teams)

-- The standings are in order: active teams come first, by points downwards, then by the earlier
-- last solve (none is earliest), then by the bytes of the name, with the ranks 1, 2 and so on;
-- banned teams trail, by the bytes of the name and unranked. The order is stated pair by pair on
-- points, solves and names, not by the comparison that sorts.
pub compute-order :
    (engines : Registry Engine) (now : ℕ) (teams : List TeamRow) (rows : List SolveRow)
    → let s = (compute engines now teams rows).standings in
      (Pairs precedes s)
      × (map (λ e. e.rank) s
          ≡ ranks_from 1 (tally (λ (t : TeamRow). not t.banned) teams)
            ++ nones (tally (λ (t : TeamRow). t.banned) teams))
unfolding compute
compute-order engines now teams rows =
    let es = entries (totals engines rows) teams in
    (
      standings_of-Pairs es,
      rw
          (
            ← (tally-entries (totals engines rows) teams).0,
            ← (tally-entries (totals engines rows) teams).1,
          )
          (standings_of-ranks es (entries-unranked (totals engines rows) teams)),
    )
