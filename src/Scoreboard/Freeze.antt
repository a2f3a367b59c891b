-- ===== src/Scoreboard/Freeze.antt =====
-- The board that internal/scoreboard/service.go holds during a freeze.
use osctf.Prelude.{◌≡◌, Bool, true, false, ◌&&◌, not, Option, none, some, arith, if◌then◌else◌}
use osctf.Scoreboard.Standings.{Snapshot}
use osctf.Scoreboard.Cache.{
  State, Env, Call, read_current, read_held, list_rows, first_event, own_event, snapshot_event,
  sees_freeze, board, publish, read_repair, live_board, served, recompute, recompute_force, flagged,
  reconcile, snapshot_freeze, hold_board,
}

-- Anything that requests and admins do to the state, short of clearing the freeze.
pub data Op : State → State → Type 0 where
  publishes :
      (force fails : Bool) (snap : Snapshot) (s : State) → Op s (publish force fails snap s).0
  recomputes :
      (env : Env) (force broadcast : Bool) (s : State) → Op s (recompute env force broadcast s).0
  forces : (env later : Env) (s : State) → Op s (recompute_force env later s).0
  reads : (env : Env) (is_admin repair : Bool) (s : State) → Op s (served env is_admin repair s).0
  reconciles : (env : Env) (s : State) → Op s (reconcile env s).0
  captures : (env : Env) (s : State) → Op s (snapshot_freeze env s).0
  holds : (env : Env) (s : State) → Op s (hold_board env s).0

pub data Reach (s : State) : State → Type 0 where
  here : Reach s s
  next : {a b : State} → Reach s a → Op a b → Reach s b

publish-held :
    (force fails : Bool) (snap : Snapshot) (s : State)
    → (publish force fails snap s).0.held ≡ s.held
unfolding publish
publish-held force fails snap s = ground arith

live_board-held :
    (env : Env) (f is_admin repair : Bool) (s : State)
    → (live_board env f is_admin repair s).0.held ≡ s.held
unfolding live_board read_repair
live_board-held env f is_admin repair s =
    ground (arith, publish-held false (env.faults Call.set_current) (board env) s)

hold_board-kept :
    (env : Env) (s : State) (h : Snapshot) → s.held ≡ some h → (hold_board env s).0.held ≡ some h
unfolding hold_board
hold_board-kept env s h e = ground (arith, e)

snapshot_freeze-kept :
    (env : Env) (s : State) (h : Snapshot)
    → s.held ≡ some h
    → (snapshot_freeze env s).0.held ≡ some h
unfolding snapshot_freeze
snapshot_freeze-kept env s h e = ground (arith, e, hold_board-kept env s h e)

served-kept :
    (env : Env) (is_admin repair : Bool) (s : State) (h : Snapshot)
    → s.held ≡ some h
    → (served env is_admin repair s).0.held ≡ some h
unfolding served
served-kept env is_admin repair s h e =
    ground (arith, e, live_board-held env (sees_freeze env first_event) is_admin repair s)

recompute-kept :
    (env : Env) (force broadcast : Bool) (s : State) (h : Snapshot)
    → s.held ≡ some h
    → (recompute env force broadcast s).0.held ≡ some h
unfolding recompute
recompute-kept env force broadcast s h e =
    let snap = flagged (sees_freeze env own_event) (board env) in
    let mid = (publish force (env.faults Call.set_current) snap s).0 in
    let kept = publish-held force (env.faults Call.set_current) snap s in
    ground (arith, e, kept, served-kept env false false mid h)

Op-kept : {s s' : State} (h : Snapshot) → Op s s' → s.held ≡ some h → s'.held ≡ some h
unfolding recompute_force reconcile
Op-kept h (publishes force fails snap s) e = ground (arith, e, publish-held force fails snap s)
Op-kept h (recomputes env force broadcast s) e = recompute-kept env force broadcast s h e
Op-kept h (forces env later s) e = ground (
  arith,
  recompute-kept env true false s h e,
  recompute-kept later false true (recompute env true false s).0 h,
)
Op-kept h (reads env is_admin repair s) e = served-kept env is_admin repair s h e
Op-kept h (reconciles env s) e = ground (arith, e, recompute-kept env false true s h e)
Op-kept h (captures env s) e = snapshot_freeze-kept env s h e
Op-kept h (holds env s) e = hold_board-kept env s h e

Reach-kept : {s s' : State} (h : Snapshot) → Reach s s' → s.held ≡ some h → s'.held ≡ some h
Reach-kept h here e = e
Reach-kept h (next r o) e = Op-kept h o (Reach-kept h r e)

-- Once a board is held, and until the freeze is cleared, a participant's read that sees the
-- freeze and reads the held key serves that board, whatever recomputes (forced or not), reads,
-- reconciliations and captures came between.
pub served_held :
    {s s' : State} (env : Env) (repair : Bool) (h : Snapshot)
    → Reach s s'
    → s.held ≡ some h
    → sees_freeze env first_event ≡ true
    → env.faults read_held ≡ false
    → served env false repair s' ≡ (s', some (flagged true h))
unfolding served
served_held env repair h r e f k = ground (arith, Reach-kept h r e, f, k)

-- A held board, as it is served.
abbrev pub as_frozen : Option Snapshot → Option Snapshot
as_frozen none = none
as_frozen (some snap) = some (flagged true snap)

-- A participant's read that sees the freeze at both of its looks at the event, and serves a
-- board, serves the one that is held from then on.
pub served_frozen :
    (env : Env) (repair : Bool) (s s' : State) (snap : Snapshot)
    → sees_freeze env first_event ≡ true
    → sees_freeze env snapshot_event ≡ true
    → served env false repair s ≡ (s', some snap)
    → as_frozen s'.held ≡ some snap
unfolding served snapshot_freeze hold_board
served_frozen env repair s s' snap f g e = ground (arith, f, g, e)

-- With both Redis reads failing and the database up, a participant's read that sees the freeze
-- fails, any other read serves the board of the log, and nothing is written.
pub served_outage :
    (env : Env) (is_admin repair : Bool) (s : State)
    → env.faults read_held ≡ true
    → env.faults read_current ≡ true
    → env.faults list_rows ≡ false
    → served env is_admin repair s ≡ (
      s,
      (if sees_freeze env first_event && not is_admin
          then none
          else some (flagged (sees_freeze env first_event) (board env))),
    )
unfolding served live_board
served_outage env is_admin repair s a b c = ground arith
