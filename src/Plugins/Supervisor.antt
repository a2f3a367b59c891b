-- ===== src/Plugins/Supervisor.antt =====
-- internal/plugin/supervisor.go and identity.go: the actor that drives one plugin. It is the only
-- writer of the plugin's state, so that what it does between two waits is one step. A process is
-- known by the number of its launch; the drain of calls in flight and the log are left out.
use osctf.Prelude.{
  ℕ, suc, ◌+◌, Bool, true, false, not, Option, none, some, List, [], ◌∷◌, if◌then◌else◌, ◌==◌,
  nat_key, leb, keep,
}
use osctf.Plugins.Machine.{
  State, discovered, launching, ready, unhealthy, restarting, failed, draining, stopped, to,
}

-- `superConfig`, with the defaults of `newSupervisor` filled in.
pub record Config : Type 0 where
  pub max_attempts : ℕ
  pub health_stable : ℕ

-- Where the goroutine of `run` waits.
pub data Point : Type 0 where
  starting waking parked exited : Point
  serving : ℕ → Point

-- The plugin's entry in the loader, what the actor keeps, and the processes that it has not killed.
pub record Actor : Type 0 where
  pub state : State
  pub client : Option ℕ
  pub is_registered : Bool
  pub attempts : ℕ
  pub ready_since : ℕ
  pub cur_pid : ℕ
  pub launches : ℕ
  pub illegal_moves : ℕ  -- "illegal plugin state transition" in the log
  pub processes : List ℕ
  pub point : Point

-- `transition`
unfoldable pub transition : State → Actor → Actor
transition next a =
    let (state, permitted) = to a.state next in
    record a {
      state = state;
      illegal_moves = if permitted then a.illegal_moves else suc a.illegal_moves;
    }

-- `revert`, of the loader
abbrev pub revert : Actor → Actor
revert a = record a { is_registered = false }

-- `conn.kill`
abbrev pub kill : ℕ → Actor → Actor
kill c a = record a { processes = keep (λ k. not (k == c)) a.processes }

abbrev pub withdraw : Actor → Actor
withdraw a = record a { client = none }

-- `becomeReady`
unfoldable pub become_ready : ℕ → ℕ → Actor → Actor
become_ready now c a = record (transition ready a) {
  client = some c;
  ready_since = now;
  cur_pid = c;
}

-- `swapTo`
abbrev pub swap_to : ℕ → ℕ → Actor → Actor
swap_to now c a = record a { client = some c; ready_since = now; cur_pid = c }

-- `markUnhealthy`
unfoldable pub mark_unhealthy : Actor → Actor
mark_unhealthy a = withdraw (transition unhealthy a)

abbrev pub through_restarting : State → State
through_restarting unhealthy = restarting
through_restarting s = s

-- `quarantine`
unfoldable pub quarantine : Actor → Actor
quarantine a = withdraw (transition failed (record a { state = through_restarting a.state }))

-- `teardown`
unfoldable pub teardown : ℕ → Actor → Actor
teardown c a = record (withdraw (transition stopped (kill c (transition draining (revert a))))) {
  cur_pid = 0;
}

-- The end of `run`, with its deferred `revert`.
abbrev pub leave_run : Actor → Actor
leave_run a = record (revert a) { point = exited }

-- `launchWithRetry`, up to the launch.
unfoldable pub begin_launch : Actor → Actor
begin_launch a =
    let b = transition launching a in record b { launches = suc b.launches; point = starting }

-- `backoffOrQuarantine`, up to the wait
unfoldable pub back_off : Config → Actor → Actor
back_off cfg a =
    let b = record a { attempts = suc a.attempts } in
    if leb cfg.max_attempts (suc a.attempts)
    then record (quarantine (revert b)) { point = parked }
    else record (transition restarting b) { point = waking }

-- `serve`, up to its wait; the provider is registered once.
unfoldable pub serve : ℕ → ℕ → Actor → Actor
serve now c a = record (become_ready now c a) { is_registered = true; point = serving c }

-- `quarantineIdentity`, up to the wait
unfoldable pub quarantine_identity : Actor → Actor
quarantine_identity a = record (quarantine (revert a)) { point = parked }

-- What a launch comes back with: an error, or a process, which `verifyIdentity` accepts or not.
pub data Launched : Type 0 where
  fails : Launched
  runs : (genuine : Bool) → Launched

abbrev pub spawned : Launched → Actor → Actor
spawned fails a = a
spawned (runs genuine) a = record a { processes = a.launches ∷ a.processes }

abbrev pub discard : Launched → Actor → Actor
discard fails a = a
discard (runs genuine) a = kill a.launches a

-- The rest of `launchWithRetry`, and `run` up to its next wait.
abbrev pub launched_as : Config → ℕ → Launched → Actor → Actor
launched_as cfg now fails a = back_off cfg a
launched_as cfg now (runs true) a = serve now a.launches a
launched_as cfg now (runs false) a = quarantine_identity (kill a.launches a)

unfoldable pub after_launch : Config → ℕ → Bool → Launched → Actor → Actor
after_launch cfg now ended l a =
    if ended then leave_run (discard l (spawned l a)) else launched_as cfg now l (spawned l a)

-- `afterCrash`
unfoldable pub after_crash : Config → ℕ → ℕ → Actor → Actor
after_crash cfg now c a =
    let b = mark_unhealthy (kill c a) in
    back_off cfg (record b {
      attempts = if leb (b.ready_since + cfg.health_stable) now then 0 else b.attempts;
      ready_since = 0;
      cur_pid = 0;
    })

-- The reload of `serve`: the new process is swapped in without `verifyIdentity`.
abbrev pub reloaded_as : ℕ → ℕ → Launched → Actor → Actor
reloaded_as now c fails a = a
reloaded_as now c (runs genuine) a = record (kill c (swap_to now a.launches a)) {
  point = serving a.launches;
}

unfoldable pub after_reload : ℕ → ℕ → Bool → Launched → Actor → Actor
after_reload now c ended l a =
    let b = spawned l (record a { launches = suc a.launches }) in
    if ended then leave_run (teardown c (discard l b)) else reloaded_as now c l b

-- What may end a wait.
pub data Signal : Type 0 where
  launch_returns : (ended : Bool) (now : ℕ) → Launched → Signal
  backoff_ends : (ended : Bool) → Signal
  stop_asked : Signal
  crash_seen : (now : ℕ) → Signal
  reload_asked : (ended : Bool) (now : ℕ) → Launched → Signal

abbrev pub at_start : Config → Actor → Signal → Actor
at_start cfg a (launch_returns ended now l) = after_launch cfg now ended l a
at_start cfg a _ = a

abbrev pub at_backoff : Actor → Signal → Actor
at_backoff a (backoff_ends ended) = if ended then leave_run a else begin_launch a
at_backoff a _ = a

-- `parkUntilReload`
abbrev pub at_park : Actor → Signal → Actor
at_park a stop_asked = leave_run a
at_park a (reload_asked ended now l) = begin_launch (record a { attempts = 0 })
at_park a _ = a

abbrev pub at_serve : Config → ℕ → Actor → Signal → Actor
at_serve cfg c a stop_asked = leave_run (teardown c a)
at_serve cfg c a (crash_seen now) = after_crash cfg now c a
at_serve cfg c a (reload_asked ended now l) = after_reload now c ended l a
at_serve cfg c a _ = a

abbrev pub at_point : Config → Point → Actor → Signal → Actor
at_point cfg starting a e = at_start cfg a e
at_point cfg waking a e = at_backoff a e
at_point cfg parked a e = at_park a e
at_point cfg exited a e = a
at_point cfg (serving c) a e = at_serve cfg c a e

-- From one wait of `run` to the next; a signal that the wait is not for does nothing.
unfoldable pub resume : Config → Actor → Signal → Actor
resume cfg a e = at_point cfg a.point a e

-- The entry that `track` makes, when `run` begins.
abbrev pub tracked : Actor
tracked = record {
  state = discovered;
  client = none;
  is_registered = false;
  attempts = 0;
  ready_since = 0;
  cur_pid = 0;
  launches = 0;
  illegal_moves = 0;
  processes = [];
  point = starting;
}

unfoldable pub supervise : Config → Actor → List Signal → Actor
supervise cfg a [] = a
supervise cfg a (e ∷ signals) = supervise cfg (resume cfg a e) signals

-- `run`, under whatever ends its waits.
unfoldable pub run_plugin : Config → List Signal → Actor
run_plugin cfg signals = supervise cfg (begin_launch tracked) signals
