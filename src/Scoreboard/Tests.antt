-- ===== src/Scoreboard/Tests.antt =====
-- Runs of the scoreboard, and its theorems at concrete inputs.
use Prim.Native.String.{String}
use mathlib.Core.List.{Permᴰ}
use osctf.Prelude.{
  ℕ, ◌≡◌, refl, true, false, Option, none, some, List, [], ◌∷◌, map, Pairs, arith, if◌then◌else◌,
  ◌==◌, nat_key, lookup, insert, Bool,
}
use osctf.Prelude.Int.{ℤ, pos, ◌+ℤ◌}
use osctf.Registry.{Registry, new_registry, get}
use osctf.Scoring.Engine.{Engine, static_value, value, is_builtin_mode}
use osctf.Events.{Event, frozen}
use osctf.Scoreboard.Standings.{
  TeamRow, SolveRow, Standing, Mode, mode_of, compute, totals, aggregate, values, count_rows,
  standings_of, ranked, ahead, by_name, text_ltb,
}
use osctf.Scoreboard.Order.{unranked, precedes}
use osctf.Scoreboard.Points.{expected, compute-Permᴰ, compute-order}
use osctf.Scoreboard.Cache.{
  State, Env, Call, snapshot_event, publish, served, live_board, snapshot_freeze, hold_board,
  recompute, flagged, board, sees_freeze, first_event, read_held, read_current,
}
use osctf.Scoreboard.Freshness.{History, start, grows, operates, recomputes, Reads, served_exact}
use osctf.Scoreboard.Guard.{IsSynced}
use osctf.Scoreboard.Log.{solves_of, done, both, more}
use osctf.Scoreboard.Freeze as Freeze
use osctf.Scoreboard.Freeze.{as_frozen, here, next, served_held, served_frozen, served_outage}

abbrev engines : Registry Engine
engines = new_registry (("static", static_value) ∷ [])

abbrev team : ℕ → List ℕ → Bool → TeamRow
team id name banned = record { id = id; name = name; banned = banned }

abbrev teams : List TeamRow
teams = team 40 (65 ∷ []) false ∷ team 42 (67 ∷ []) true ∷ team 41 (66 ∷ []) false ∷ []

abbrev solve : ℕ → ℕ → String → Option ℤ → SolveRow
solve team at mode recorded = record {
  team_id = team;
  challenge_id = 1;
  solved_at = at;
  team_banned = false;
  scoring = mode;
  points_initial = pos 100;
  points_min = none;
  decay = none;
  scored_value = recorded;
}

abbrev bonus : SolveRow
bonus = record (solve 41 7 "wheel" (some (pos 30))) { challenge_id = 2 }

abbrev log : List SolveRow
log = solve 40 5 "static" none ∷ solve 41 6 "static" none ∷ bonus ∷ []

abbrev table : ℕ → Mode
table c = if c == 1 then mode_of (solve 40 5 "static" none) else mode_of bonus

-- Team 41 leads with 130 points; the banned team trails.
leaders :
    (map (λ (e : Standing). e.team_id) (compute engines 9 teams log).standings ≡ 41 ∷ 40 ∷ 42 ∷ [])
    × (map (λ (e : Standing). e.points) (compute engines 9 teams log).standings
        ≡ pos 130 ∷ pos 100 ∷ pos 0 ∷ [])
unfolding compute totals aggregate values count_rows standings_of ranked ahead by_name text_ltb
    lookup insert is_builtin_mode value get new_registry static_value ◌+ℤ◌
leaders = (refl, refl)

compute-Permᴰ_example :
    Permᴰ (map unranked (compute engines 9 teams log).standings) (map (expected engines log) teams)
compute-Permᴰ_example = compute-Permᴰ engines 9 teams log table (refl, (refl, (refl, tt)))

compute-order_example :
    let s = (compute engines 9 teams log).standings in
    (Pairs precedes s) × (map (λ e. e.rank) s ≡ some 1 ∷ some 2 ∷ none ∷ [])
compute-order_example = compute-order engines 9 teams log

-- Frozen from 50 on.
abbrev ctf : Event
ctf = record { name = []; description = []; starts_at = 10; ends_at = 90; freeze_at = some 50 }

abbrev at : ℕ → List SolveRow → Env
at now rows = record {
  now = now;
  engines = engines;
  event = some ctf;
  teams = teams;
  rows = rows;
  faults = λ c. false;
}

abbrev empty : State
empty = record { current = none; held = none; last_count = 0 }

abbrev solved_one : Env
solved_one = at 20 (solve 40 5 "static" none ∷ [])

abbrev cached : State
cached = (recompute solved_one false false empty).0

empty-IsSynced : IsSynced 0 empty
empty-IsSynced = (omega arith, refl)

history : History empty [] cached (solves_of log)
unfolding recompute
history =
    grows (operates (grows start (more _ done)) (recomputes solved_one false empty refl))
      (both _ (more _ (more _ done)))

unhindered : Reads (at 30 log) false
unfolding frozen
unhindered = record {
  unheld = refl;
  reads_board = refl;
  writes_board = refl;
  lists_rows = refl;
  counts_rows = refl;
}

served_exact_example :
    (past : Env) × (solves_of past.rows ≡ solves_of log)
    × ((served (at 30 log) false true cached).1
        ≡ some (flagged (sees_freeze (at 30 log) first_event) (board past)))
served_exact_example = served_exact (at 30 log) false history empty-IsSynced tt refl unhindered

-- A board computed before a newer one that a read put into the empty cache still passes the guard.
clobbered :
    ((served (at 30 log) false true empty).0.current ≡ some (board (at 30 log)))
    × ((publish false false (board solved_one) (served (at 30 log) false true empty).0).0.current
        ≡ some (board solved_one))
unfolding served live_board publish compute frozen
clobbered = (refl, refl)

abbrev frozen_one : Env
frozen_one = at 60 (solve 40 5 "static" none ∷ [])

abbrev holding : State
holding = record empty { held = some (flagged true (board frozen_one)) }

-- The first read in the freeze holds the board.
first_frozen_read :
    served frozen_one false true empty ≡ (holding, some (flagged true (board frozen_one)))
unfolding served snapshot_freeze hold_board frozen
first_frozen_read = refl

served_frozen_example : as_frozen holding.held ≡ some (flagged true (board frozen_one))
unfolding frozen
served_frozen_example =
    served_frozen frozen_one true empty holding (flagged true (board frozen_one)) refl refl
      first_frozen_read

served_held_example :
    served (at 70 log) false true (recompute (at 65 log) false true holding).0
    ≡ ((recompute (at 65 log) false true holding).0, some (flagged true (board frozen_one)))
unfolding frozen
served_held_example =
    served_held (at 70 log) true (flagged true (board frozen_one))
      (next here (Freeze.Op.recomputes (at 65 log) false true holding)) refl refl refl

-- The event's row cannot be read the second time: the live board goes out during the freeze.
abbrev second_look_fails : Call → Bool
second_look_fails snapshot_event = true
second_look_fails _ = false

leaked :
    (served (record (at 60 log) { faults = second_look_fails }) false true empty).1
    ≡ some (flagged true (board (at 60 log)))
unfolding served snapshot_freeze live_board frozen
leaked = refl

abbrev redis_down : Call → Bool
redis_down read_held = true
redis_down read_current = true
redis_down _ = false
