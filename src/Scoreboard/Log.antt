-- ===== src/Scoreboard/Log.antt =====
-- What the boards of internal/scoreboard/service.go were computed from: a log of solves_of that only grows,
-- and the request that read it.
use osctf.Prelude.{
  ℕ, suc, ◌≤◌, ◌≡◌, ◌⊎◌, refl, ap, Bool, true, false, Option, none, some, List, [], ◌∷◌, arith,
  length, map, inl, inr,
}
use osctf.Scoreboard.Standings.{SolveRow, Snapshot, compute}
use osctf.Scoreboard.Cache.{
  State, Env, own_event, first_event, set_current, sees_freeze, board, publish, read_repair,
  live_board, served, recompute, flagged, snapshot_freeze, hold_board,
}

-- A team, a challenge and the time of a solve: the part of a row that no edit changes.
abbrev pub Solve : Type 0
Solve = ℕ × ℕ × ℕ

abbrev pub solves_of : List SolveRow → List Solve
solves_of = map (λ (r : SolveRow). (r.team_id, r.challenge_id, r.solved_at))

-- The log holds the solves_of of an earlier one in their order.
pub data Sub : List Solve → List Solve → Type 0 where
  done : Sub [] []
  both : {xs ys : List Solve} (x : Solve) → Sub xs ys → Sub (x ∷ xs) (x ∷ ys)
  more : {xs ys : List Solve} (y : Solve) → Sub xs ys → Sub xs (y ∷ ys)

pub Sub-refl : (xs : List Solve) → Sub xs xs
Sub-refl [] = done
Sub-refl (x ∷ xs) = both x (Sub-refl xs)

pub Sub-trans : {xs ys zs : List Solve} → Sub xs ys → Sub ys zs → Sub xs zs
Sub-trans s (more y t) = more y (Sub-trans s t)
Sub-trans done done = done
Sub-trans (both x s) (both _ t) = both x (Sub-trans s t)
Sub-trans (more y s) (both _ t) = more y (Sub-trans s t)

pub length-Sub : {xs ys : List Solve} → Sub xs ys → length xs ≤ length ys
length-Sub done = omega arith
length-Sub (both x s) = omega (arith, length-Sub s)
length-Sub (more y s) = omega (arith, length-Sub s)

-- A log that is as long as an earlier one is that one.
pub Sub-same : {xs ys : List Solve} → Sub xs ys → length ys ≤ length xs → xs ≡ ys
Sub-same done h = refl
Sub-same (both x s) h = ap (λ l. x ∷ l) (Sub-same s (omega (arith, h)))
Sub-same (more y s) h = absurd (omega (arith, h, length-Sub s))

pub length-solves : (rows : List SolveRow) → length (solves_of rows) ≡ length rows
length-solves [] = refl
length-solves (r ∷ rows) = ap (λ n. suc n) (length-solves rows)

-- A board that was computed when the log held `past.rows`, which are now part of it.
pub record Sourced (log : List Solve) (snap : Snapshot) : Type 0 where
  pub past : Env
  pub flag : Bool
  pub part : Sub (solves_of past.rows) log
  pub computed : snap ≡ flagged flag (board past)

abbrev pub SourcedAt : List Solve → Option Snapshot → Type 0
SourcedAt log none = Unit {0}
SourcedAt log (some snap) = Sourced log snap

pub grown :
    {log log' : List Solve}
    → Sub log log'
    → (o : Option Snapshot) → SourcedAt log o
    → SourcedAt log' o
grown s none h = tt
grown s (some snap) h = record {
  past = h.past;
  flag = h.flag;
  part = Sub-trans h.part s;
  computed = h.computed;
}

-- Where the cached board of a state comes from: the state before, or the board of a request, under
-- either flag.
abbrev pub Origin : Env → State → State → Type 0
Origin env s s' =
    (s'.current ≡ s.current)
    ⊎ ((s'.current ≡ some (board env))
        ⊎ ((s'.current ≡ some (flagged true (board env)))
            ⊎ (s'.current ≡ some (flagged false (board env)))))

pub publish-Origin :
    (fails b : Bool) (env : Env) (s : State)
    → Origin env s (publish false fails (flagged b (board env)) s).0
unfolding publish
publish-Origin fails b env s = ground arith

live_board-Origin :
    (env : Env) (f is_admin repair : Bool) (s : State)
    → Origin env s (live_board env f is_admin repair s).0
unfolding live_board read_repair publish
live_board-Origin env f is_admin repair s = ground arith

pub snapshot_freeze-current :
    (env : Env) (s : State) → (snapshot_freeze env s).0.current ≡ s.current
unfolding snapshot_freeze hold_board
snapshot_freeze-current env s = ground arith

pub served-Origin :
    (env : Env) (is_admin repair : Bool) (s : State) → Origin env s (served env is_admin repair s).0
unfolding served
served-Origin env is_admin repair s = ground (
  arith,
  live_board-Origin env (sees_freeze env first_event) is_admin repair s,
  live_board-Origin env true false repair (snapshot_freeze env s).0,
  snapshot_freeze-current env s,
)

pub recompute-Origin :
    (env : Env) (broadcast : Bool) (s : State) → Origin env s (recompute env false broadcast s).0
unfolding recompute
recompute-Origin env broadcast s =
    let b = sees_freeze env own_event in
    ground (
      arith,
      publish-Origin (env.faults set_current) b env s,
      served-Origin env false false
          (publish false (env.faults set_current) (flagged b (board env)) s).0,
    )

-- A request that reads part of the log leaves a board that was computed from part of the log.
pub sourced :
    (log : List Solve) (env : Env) (s s' : State)
    → Sub (solves_of env.rows) log
    → Origin env s s'
    → SourcedAt log s.current
    → SourcedAt log s'.current
unfolding compute
sourced log env s s' p (inl e) h = rw e h
sourced log env s s' p (inr (inl e)) h =
    rw e (record { past = env; flag = false; part = p; computed = refl })
sourced log env s s' p (inr (inr (inl e))) h =
    rw e (record { past = env; flag = true; part = p; computed = refl })
sourced log env s s' p (inr (inr (inr e))) h =
    rw e (record { past = env; flag = false; part = p; computed = refl })
