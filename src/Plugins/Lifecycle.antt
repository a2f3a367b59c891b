-- ===== src/Plugins/Lifecycle.antt =====
-- What holds of a supervised plugin of internal/plugin, whatever ends the waits of its actor.
use osctf.Prelude.{
  ◌≤◌, ◌<◌, ◌≡◌, refl, true, false, none, some, List, [], ◌∷◌, arith, nat_key, beq_refl,
}
use osctf.Plugins.Machine.{launching, ready, restarting, failed, to}
use osctf.Plugins.Supervisor.{
  Config, Point, starting, waking, parked, exited, serving, Actor, transition, become_ready,
  mark_unhealthy, quarantine, teardown, begin_launch, back_off, serve, quarantine_identity, fails,
  runs, after_launch, after_crash, after_reload, Signal, launch_returns, backoff_ends, stop_asked,
  crash_seen, reload_asked, at_point, resume, tracked, supervise, run_plugin,
}

-- What the entry and the processes are while the actor waits at a point.
abbrev pub Fits : Config → Point → Actor → Type 0
Fits cfg starting a =
    (a.state ≡ launching) × (a.client ≡ none) × (a.processes ≡ []) × (a.attempts < cfg.max_attempts)
Fits cfg waking a =
    (a.state ≡ restarting)
    × (a.client ≡ none)
    × (a.processes ≡ [])
    × (a.attempts < cfg.max_attempts)
Fits cfg parked a =
    (a.state ≡ failed) × (a.client ≡ none) × (a.processes ≡ []) × (a.is_registered ≡ false)
Fits cfg exited a = (a.client ≡ none) × (a.processes ≡ []) × (a.is_registered ≡ false)
Fits cfg (serving c) a =
    (a.state ≡ ready)
    × (a.client ≡ some c)
    × (a.processes ≡ c ∷ [])
    × (a.is_registered ≡ true)
    × (c ≤ a.launches)
    × (a.attempts < cfg.max_attempts)

pub record Orderly (cfg : Config) (a : Actor) : Type 0 where
  pub all_legal : a.illegal_moves ≡ 0
  pub fitting : Fits cfg a.point a

module _ (cfg : Config) (some_attempt : 0 < cfg.max_attempts) where
  waits-Orderly :
      (p : Point) (a : Actor) → a.point ≡ p → a.illegal_moves ≡ 0 → Fits cfg p a → Orderly cfg a
  waits-Orderly p a q i f = record { all_legal = i; fitting = simp q f }

  at_point-Orderly :
      (p : Point) (a : Actor) (e : Signal)
      → a.point ≡ p
      → a.illegal_moves ≡ 0
      → Fits cfg p a
      → Orderly cfg (at_point cfg p a e)
  unfolding after_launch after_crash after_reload teardown begin_launch back_off serve
      quarantine_identity quarantine mark_unhealthy become_ready transition to
  at_point-Orderly starting a (launch_returns true now fails) q i f = ground arith
  at_point-Orderly starting a (launch_returns true now (runs g)) q i f = ground arith
  at_point-Orderly starting a (launch_returns false now fails) q i f = ground arith
  at_point-Orderly starting a (launch_returns false now (runs true)) q i f = ground arith
  at_point-Orderly starting a (launch_returns false now (runs false)) q i f = ground arith
  at_point-Orderly starting a e q i f = waits-Orderly starting a q i f
  at_point-Orderly waking a (backoff_ends true) q i f = ground arith
  at_point-Orderly waking a (backoff_ends false) q i f = ground arith
  at_point-Orderly waking a e q i f = waits-Orderly waking a q i f
  at_point-Orderly parked a stop_asked q i f = ground arith
  at_point-Orderly parked a (reload_asked ended now l) q i f = ground arith
  at_point-Orderly parked a e q i f = waits-Orderly parked a q i f
  at_point-Orderly exited a e q i f = waits-Orderly exited a q i f
  at_point-Orderly (serving c) a stop_asked q i f = ground (arith, beq_refl c)
  at_point-Orderly (serving c) a (crash_seen now) q i f = ground (arith, beq_refl c)
  at_point-Orderly (serving c) a (reload_asked true now fails) q i f = ground (arith, beq_refl c)
  at_point-Orderly (serving c) a (reload_asked true now (runs g)) q i f = ground (arith, beq_refl c)
  at_point-Orderly (serving c) a (reload_asked false now fails) q i f = ground (arith, q)
  at_point-Orderly (serving c) a (reload_asked false now (runs g)) q i f =
      ground (arith, beq_refl c)
  at_point-Orderly (serving c) a e q i f = waits-Orderly (serving c) a q i f

  resume-Orderly : (a : Actor) (e : Signal) → Orderly cfg a → Orderly cfg (resume cfg a e)
  unfolding resume
  resume-Orderly a e o = at_point-Orderly a.point a e refl o.all_legal o.fitting

  supervise-Orderly :
      (a : Actor) (es : List Signal) → Orderly cfg a → Orderly cfg (supervise cfg a es)
  unfolding supervise
  supervise-Orderly a [] o = o
  supervise-Orderly a (e ∷ es) o = supervise-Orderly (resume cfg a e) es (resume-Orderly a e o)

  -- Whatever ends the waits of the supervisor, where at least one attempt is allowed, it never
  -- asks for a transition that the table of the specification forbids, and at each wait the entry
  -- fits: it serves with exactly one process, published and registered, and the state ready; it
  -- waits to launch or to retry with no process and no client, and fewer attempts than the cap;
  -- it is parked in the state failed, unregistered and with no process; and once it has exited
  -- nothing is registered and no process is left.
  pub run_plugin-Orderly : (es : List Signal) → Orderly cfg (run_plugin cfg es)
  unfolding run_plugin begin_launch transition to
  run_plugin-Orderly es = supervise-Orderly (begin_launch tracked) es (ground arith)
