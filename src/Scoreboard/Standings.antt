-- ===== src/Scoreboard/Standings.antt =====
-- internal/scoreboard/compute.go: the standings, recomputed from the teams and the valid solves.
-- Points are sums of int32 values, far within Go's 64-bit int; the zero time is 0.
use Prim.Native.String.{String}
use osctf.Prelude.{
  ℕ, suc, Bool, true, false, Option, none, some, List, [], ◌∷◌, ◌++◌, if◌then◌else◌, ◌==◌, nat_key,
  ltb, length, Dict, lookup, insert, not, keep,
}
use osctf.Prelude.Int.{ℤ, pos, ◌+ℤ◌, ltb_ℤ}
use osctf.Prelude.Sort.{stable_sort}
use osctf.Registry.{Registry}
use osctf.Scoring.Engine.{Engine, ChallengeScoring, is_builtin_mode, value}

-- `gen.ListScoreboardTeamsRow`
pub record TeamRow : Type 0 where
  pub id : ℕ
  pub name : List ℕ
  pub banned : Bool

-- `gen.ListValidSolvesRow`
pub record SolveRow : Type 0 where
  pub team_id : ℕ
  pub challenge_id : ℕ
  pub solved_at : ℕ
  pub team_banned : Bool
  pub scoring : String
  pub points_initial : ℤ
  pub points_min : Option ℤ
  pub decay : Option ℤ
  pub scored_value : Option ℤ

-- `Entry`
pub record Standing : Type 0 where
  pub banned : Bool
  pub last_solve_at : Option ℕ
  pub name : List ℕ
  pub points : ℤ
  pub rank : Option ℕ
  pub solves : ℕ
  pub team_id : ℕ

pub record Snapshot : Type 0 where
  pub frozen : Bool
  pub generated_at : ℕ
  pub standings : List Standing
  pub solve_count : ℕ

-- `chalParams`
pub record Mode : Type 0 where
  pub mode : String
  pub params : ChallengeScoring

abbrev pub or_else {ℓ} : {A : Type ℓ} → A → Option A → A
or_else a none = a
or_else a (some b) = b

abbrev pub mode_of : SolveRow → Mode
mode_of r = record {
  mode = r.scoring;
  params = record {
    initial = r.points_initial;
    min_points = or_else (pos 0) r.points_min;
    decay = or_else (pos 0) r.decay;
  };
}

-- The maps `solveCount` and `chal` that the first loop fills.
pub record Counts : Type 0 where
  pub solve_count : Dict ℕ ℕ
  pub chal : Dict ℕ Mode

abbrev pub first_mode : SolveRow → Dict ℕ Mode → Option Mode → Dict ℕ Mode
first_mode r chal none = insert r.challenge_id (mode_of r) chal
first_mode r chal (some m) = chal

abbrev pub counted : SolveRow → Dict ℕ ℕ → Dict ℕ ℕ
counted r counts =
    if r.team_banned
    then counts
    else insert r.challenge_id (suc (or_else 0 (lookup r.challenge_id counts))) counts

unfoldable pub count_rows : List SolveRow → Counts → Counts
count_rows [] c = c
count_rows (r ∷ rows) c = count_rows rows (record {
  solve_count = counted r c.solve_count;
  chal = first_mode r c.chal (lookup r.challenge_id c.chal);
})

-- The map `value`.
unfoldable pub values : Registry Engine → Dict ℕ ℕ → Dict ℕ Mode → Dict ℕ ℤ
values engines counts [] = []
values engines counts ((id, cp) ∷ chal) =
    let rest = values engines counts chal in
    if is_builtin_mode cp.mode
    then insert id (value engines cp.mode cp.params (pos (or_else 0 (lookup id counts)))) rest
    else rest

-- `agg`
pub record Agg : Type 0 where
  pub points : ℤ
  pub solves : ℕ
  pub last_solve : ℕ

abbrev pub fresh_agg : Agg
fresh_agg = record { points = pos 0; solves = 0; last_solve = 0 }

abbrev pub row_points : Dict ℕ ℤ → SolveRow → ℤ
row_points value r =
    if is_builtin_mode r.scoring
    then or_else (pos 0) (lookup r.challenge_id value)
    else or_else (pos 0) r.scored_value

abbrev pub later : ℕ → ℕ → ℕ
later a b = if ltb a b then b else a

abbrev pub add_solve : Dict ℕ ℤ → SolveRow → Agg → Agg
add_solve value r a = record {
  points = a.points +ℤ row_points value r;
  solves = suc a.solves;
  last_solve = later a.last_solve r.solved_at;
}

-- The map `byTeam`.
unfoldable pub aggregate : Dict ℕ ℤ → List SolveRow → Dict ℕ Agg → Dict ℕ Agg
aggregate value [] by_team = by_team
aggregate value (r ∷ rows) by_team =
    aggregate value rows
      (insert r.team_id (add_solve value r (or_else fresh_agg (lookup r.team_id by_team))) by_team)

abbrev pub entry_from : TeamRow → Option Agg → Standing
entry_from t none = record {
  banned = t.banned;
  last_solve_at = none;
  name = t.name;
  points = pos 0;
  rank = none;
  solves = 0;
  team_id = t.id;
}
entry_from t (some a) = record {
  banned = t.banned;
  last_solve_at = some a.last_solve;
  name = t.name;
  points = a.points;
  rank = none;
  solves = a.solves;
  team_id = t.id;
}

abbrev pub entries : Dict ℕ Agg → List TeamRow → List Standing
entries by_team [] = []
entries by_team (t ∷ teams) = entry_from t (lookup t.id by_team) ∷ entries by_team teams

-- Go's `<` on strings, by their bytes.
unfoldable pub text_ltb : List ℕ → List ℕ → Bool
text_ltb [] [] = false
text_ltb [] (b ∷ t) = true
text_ltb (a ∷ s) [] = false
text_ltb (a ∷ s) (b ∷ t) =
    let rest = text_ltb s t in if ltb a b then true else if ltb b a then false else rest

-- The `switch` on the last solves, or the names where it falls through.
abbrev earlier : Option ℕ → Option ℕ → Bool → Bool
earlier none none by_name = by_name
earlier none (some b) by_name = true
earlier (some a) none by_name = false
earlier (some a) (some b) by_name = if a == b then by_name else ltb a b

-- The function that the active teams are sorted by.
unfoldable pub ahead : Standing → Standing → Bool
ahead a b =
    if ltb_ℤ b.points a.points
    then true
    else if ltb_ℤ a.points b.points
    then false
    else earlier a.last_solve_at b.last_solve_at (text_ltb a.name b.name)

unfoldable pub by_name : Standing → Standing → Bool
by_name a b = text_ltb a.name b.name

-- `active[i].Rank = &rank`
unfoldable pub ranked : ℕ → List Standing → List Standing
ranked n [] = []
ranked n (e ∷ es) = record e { rank = some n } ∷ ranked (suc n) es

abbrev pub is_active : Standing → Bool
is_active e = not e.banned

abbrev pub is_banned : Standing → Bool
is_banned e = e.banned

unfoldable pub standings_of : List Standing → List Standing
standings_of es =
    ranked 1 (stable_sort ahead (keep is_active es)) ++ stable_sort by_name (keep is_banned es)

-- The aggregates that the rows lead to.
unfoldable pub totals : Registry Engine → List SolveRow → Dict ℕ Agg
totals engines rows =
    let c = count_rows rows (record { solve_count = []; chal = [] }) in
    aggregate (values engines c.solve_count c.chal) rows []

-- `compute`
unfoldable pub compute : Registry Engine → ℕ → List TeamRow → List SolveRow → Snapshot
compute engines now teams rows = record {
  frozen = false;
  generated_at = now;
  standings = standings_of (entries (totals engines rows) teams);
  solve_count = length rows;
}
