-- ===== src/Scoreboard/Guard.antt =====
-- The write guard and the read repair of internal/scoreboard/service.go: the cached board never falls
-- behind the count of the guard.
use osctf.Prelude.{
  ℕ, ◌≤◌, ◌≡◌, refl, Bool, true, false, ◌&&◌, not, Option, none, some, arith, length, leb,
}
use osctf.Scoreboard.Standings.{Snapshot, compute}
use osctf.Scoreboard.Cache.{
  State, Env, read_current, set_current, list_rows, count_valid, first_event, own_event,
  sees_freeze, board, publish, read_repair, live_board, served, recompute, flagged, snapshot_freeze,
  hold_board,
}

pub board-count : (env : Env) → (board env).solve_count ≡ length env.rows
unfolding compute
board-count env = refl

abbrev pub is_fresh : ℕ → Option Snapshot → Bool
is_fresh n none = false
is_fresh n (some snap) = leb n snap.solve_count

-- A read that is not held back by a freeze, and whose calls do not fail, serves a board computed
-- from at least as many rows as the log has, whatever is cached.
pub served_fresh :
    (env : Env) (is_admin : Bool) (s : State)
    → sees_freeze env first_event && not is_admin ≡ false
    → env.faults read_current ≡ false
    → env.faults set_current ≡ false
    → env.faults list_rows ≡ false
    → env.faults count_valid ≡ false
    → is_fresh (length env.rows) (served env is_admin true s).1 ≡ true
unfolding served live_board read_repair compute
served_fresh env is_admin s hf hr hs hl hc = ground arith

-- A log of `n` rows that only grows: the guard's count is at most `n`, and the cached board was
-- computed from at least that many rows, and at most `n`.
abbrev fits : ℕ → ℕ → Option Snapshot → Bool
fits lo n none = true
fits lo n (some snap) = leb lo snap.solve_count && leb snap.solve_count n

abbrev pub IsSynced : ℕ → State → Type 0
IsSynced n s = (s.last_count ≤ n) × (fits s.last_count n s.current ≡ true)

-- A state that follows another one is synced, and the guard's count has not gone down.
abbrev pub Advances : ℕ → State → State → Type 0
Advances n s s' = IsSynced n s' × (s.last_count ≤ s'.last_count)

pub publish-IsSynced :
    (n : ℕ) (fails : Bool) (snap : Snapshot) (s : State)
    → snap.solve_count ≤ n
    → IsSynced n s
    → Advances n s (publish false fails snap s).0
unfolding publish
publish-IsSynced n fails snap s h g = ground arith

live_board-IsSynced :
    (n : ℕ) (env : Env) (f is_admin repair : Bool) (s : State)
    → length env.rows ≡ n
    → IsSynced n s
    → Advances n s (live_board env f is_admin repair s).0
unfolding live_board read_repair publish compute
live_board-IsSynced n env f is_admin repair s h g = ground arith

pub snapshot_freeze-board :
    (env : Env) (s : State)
    → ((snapshot_freeze env s).0.current ≡ s.current)
      × ((snapshot_freeze env s).0.last_count ≡ s.last_count)
unfolding snapshot_freeze hold_board
snapshot_freeze-board env s = ground arith

pub served-IsSynced :
    (n : ℕ) (env : Env) (is_admin repair : Bool) (s : State)
    → length env.rows ≡ n
    → IsSynced n s
    → Advances n s (served env is_admin repair s).0
unfolding served
served-IsSynced n env is_admin repair s h g = ground (
  arith,
  live_board-IsSynced n env (sees_freeze env first_event) is_admin repair s h g,
  live_board-IsSynced n env true false repair (snapshot_freeze env s).0 h,
  snapshot_freeze-board env s,
)

pub recompute-IsSynced :
    (n : ℕ) (env : Env) (broadcast : Bool) (s : State)
    → length env.rows ≡ n
    → IsSynced n s
    → Advances n s (recompute env false broadcast s).0
unfolding recompute
recompute-IsSynced n env broadcast s h g =
    let snap = flagged (sees_freeze env own_event) (board env) in
    ground (
      arith,
      publish-IsSynced n (env.faults set_current) snap s (omega (arith, board-count env, h)) g,
      served-IsSynced n env false false (publish false (env.faults set_current) snap s).0 h,
    )
