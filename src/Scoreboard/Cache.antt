-- ===== src/Scoreboard/Cache.antt =====
-- internal/scoreboard/service.go: the cached board with its write guard, read repair, and the board
-- that is held during a freeze. The two keys in Redis and the count under the mutex are the state;
-- a request's calls may fail, each for a reason of its own. `none` is an error.
use osctf.Prelude.{
  ℕ, Bool, true, false, ◌&&◌, not, Option, none, some, List, if◌then◌else◌, ltb, leb, length,
}
use osctf.Registry.{Registry}
use osctf.Scoring.Engine.{Engine}
use osctf.Events.{Event, frozen}
use osctf.Scoreboard.Standings.{TeamRow, SolveRow, Snapshot, compute}

pub record State : Type 0 where
  pub current : Option Snapshot  -- scoreboard:current
  pub held : Option Snapshot  -- scoreboard:frozen
  pub last_count : ℕ

pub data Call : Type 0 where
  first_event snapshot_event read_held read_held_again held_exists held_exists_again set_held : Call
  read_current set_current list_rows list_rows_to_hold count_valid : Call
  own_rows own_event own_current own_count : Call

-- What one request meets.
pub record Env : Type 0 where
  pub now : ℕ
  pub engines : Registry Engine
  pub event : Option Event
  pub teams : List TeamRow
  pub rows : List SolveRow
  pub faults : Call → Bool

abbrev frozen_at : ℕ → Option Event → Bool
frozen_at now none = false
frozen_at now (some e) = frozen now e

-- `frozen`: a failing read of the event counts as not frozen.
abbrev pub sees_freeze : Env → Call → Bool
sees_freeze env call = not (env.faults call) && frozen_at env.now env.event

abbrev pub board : Env → Snapshot
board env = compute env.engines env.now env.teams env.rows

abbrev computed : Env → Call → Option Snapshot
computed env call = if env.faults call then none else some (board env)

abbrev pub flagged : Bool → Snapshot → Snapshot
flagged b snap = record snap { frozen = b }

pub data Published : Type 0 where
  dropped written write_failed : Published

-- The locked part of `recompute`; a snapshot carries the count of rows that it was computed from.
unfoldable pub publish : Bool → Bool → Snapshot → State → State × Published
publish force fails snap s =
    if not force && ltb snap.solve_count s.last_count
    then (s, dropped)
    else if fails
    then (s, write_failed)
    else (record s { current = some snap; last_count = snap.solve_count }, written)

abbrev set_nx : Option Snapshot → Snapshot → Option Snapshot
set_nx none snap = some snap
set_nx (some held) snap = some held

abbrev is_held : Option Snapshot → Bool
is_held none = false
is_held (some snap) = true

abbrev hold : Env → State → Option Snapshot → State × Bool
hold env s none = (s, false)
hold env s (some snap) =
    if env.faults set_held
    then (s, false)
    else (record s { held = set_nx s.held (flagged true snap) }, true)

-- The locked part of `MaybeSnapshotFreeze`.
unfoldable pub hold_board : Env → State → State × Bool
hold_board env s =
    if env.faults held_exists_again
    then (s, false)
    else if is_held s.held
    then (s, true)
    else hold env s (computed env list_rows_to_hold)

-- `MaybeSnapshotFreeze`; `false` is an error.
unfoldable pub snapshot_freeze : Env → State → State × Bool
snapshot_freeze env s =
    if not (sees_freeze env snapshot_event)
    then (s, true)
    else if env.faults held_exists
    then (s, false)
    else if is_held s.held
    then (s, true)
    else hold_board env s

abbrev repaired : Env → Snapshot → State → Option Snapshot → State × Snapshot
repaired env snap s none = (s, snap)
repaired env snap s (some fresh) = ((publish false (env.faults set_current) fresh s).0, fresh)

-- `readRepair`
unfoldable pub read_repair : Env → Snapshot → State → State × Snapshot
read_repair env snap s =
    if env.faults count_valid
    then (s, snap)
    else if leb (length env.rows) snap.solve_count
    then (s, snap)
    else repaired env snap s (computed env list_rows)

abbrev pub filled : Env → State → Option Snapshot → State × Option Snapshot
filled env s none = (s, none)
filled env s (some snap) =
    if env.faults set_current then (s, none) else (record s { current = some snap }, some snap)

abbrev current_board : Env → Bool → State → Option Snapshot → State × Option Snapshot
current_board env repair s none = filled env s (computed env list_rows)
current_board env repair s (some snap) =
    if repair
    then (let (s', fresh) = read_repair env snap s in (s', some fresh))
    else (s, some snap)

abbrev with_flag : Bool → State × Option Snapshot → State × Option Snapshot
with_flag b (s, none) = (s, none)
with_flag b (s, some snap) = (s, some (flagged b snap))

-- `served` from the read of `scoreboard:current` on, with `degradeToRecompute`.
unfoldable pub live_board : Env → Bool → Bool → Bool → State → State × Option Snapshot
live_board env is_frozen is_admin repair s =
    if env.faults read_current
    then (if is_frozen && not is_admin
        then (s, none)
        else with_flag is_frozen (s, computed env list_rows))
    else with_flag is_frozen (current_board env repair s s.current)

abbrev held_or_live : Env → Bool → State → Option Snapshot → State × Option Snapshot
held_or_live env repair s none = live_board env true false repair s
held_or_live env repair s (some snap) = (s, some (flagged true snap))

abbrev captured : Env → Bool → State × Bool → State × Option Snapshot
captured env repair (s, false) = (s, none)
captured env repair (s, true) =
    if env.faults read_held_again then (s, none) else held_or_live env repair s s.held

abbrev held_board : Env → Bool → State → Option Snapshot → State × Option Snapshot
held_board env repair s none = captured env repair (snapshot_freeze env s)
held_board env repair s (some snap) = (s, some (flagged true snap))

-- `served`; `Current` is the case of `repair`.
unfoldable pub served : Env → Bool → Bool → State → State × Option Snapshot
served env is_admin repair s =
    if sees_freeze env first_event && not is_admin
    then (if env.faults read_held then (s, none) else held_board env repair s s.held)
    else live_board env (sees_freeze env first_event) is_admin repair s

-- What a recompute returns, and the board that it broadcasts.
pub record Recomputed : Type 0 where
  pub succeeded : Bool
  pub shown : Option Snapshot

abbrev quiet : Bool → Recomputed
quiet ok = record { succeeded = ok; shown = none }

abbrev broadcasted : State × Option Snapshot → State × Recomputed
broadcasted (s, none) = (s, quiet false)
broadcasted (s, some snap) = (s, record { succeeded = true; shown = some snap })

abbrev announced : Env → Bool → State × Published → State × Recomputed
announced env broadcast (s, dropped) = (s, quiet true)
announced env broadcast (s, write_failed) = (s, quiet false)
announced env broadcast (s, written) =
    if broadcast then broadcasted (served env false false s) else (s, quiet true)

abbrev recomputed : Env → Bool → Bool → State → Option Snapshot → State × Recomputed
recomputed env force broadcast s none = (s, quiet false)
recomputed env force broadcast s (some snap) =
    announced env broadcast
      (publish force (env.faults set_current) (flagged (sees_freeze env own_event) snap) s)

-- `recompute`, with no other request between its two parts; `Recompute` is the case of no force.
-- With no broadcaster wired, `broadcast` is false.
unfoldable pub recompute : Env → Bool → Bool → State → State × Recomputed
recompute env force broadcast s = recomputed env force broadcast s (computed env own_rows)

-- `RecomputeForce`: the second run meets the rows of its own time.
unfoldable pub recompute_force : Env → Env → State → State × Recomputed
recompute_force env later s =
    let (s', r) = recompute env true false s in
    if r.succeeded then recompute later false true s' else (s', r)

abbrev reconciled : Env → State → Option Snapshot → State × Recomputed
reconciled env s none = recompute env false true s
reconciled env s (some snap) =
    if env.faults own_count
    then (s, quiet false)
    else if ltb snap.solve_count (length env.rows)
    then recompute env false true s
    else (s, quiet true)

-- `ReconcileIfBehind`
unfoldable pub reconcile : Env → State → State × Recomputed
reconcile env s = if env.faults own_current then (s, quiet false) else reconciled env s s.current

-- `ClearFreeze`
unfoldable pub clear_freeze : Bool → State → State × Bool
clear_freeze fails s = if fails then (s, false) else (record s { held = none }, true)
