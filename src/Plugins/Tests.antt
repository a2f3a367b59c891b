-- ===== src/Plugins/Tests.antt =====
-- Runs of the supervisor of internal/plugin/supervisor.go, and its theorems at examples.
use osctf.Prelude.{◌*◌, ◌≤◌, ◌≡◌, refl, true, false, List, [], ◌∷◌, arith}
use osctf.Plugins.Machine.{to}
use osctf.Plugins.Supervisor.{
  Config, parked, serving, Signal, launch_returns, backoff_ends, crash_seen, reload_asked, fails,
  runs, tracked, begin_launch, run_plugin, supervise, resume, after_launch, after_reload,
  after_crash, transition, become_ready, serve, back_off, quarantine, mark_unhealthy,
}
use osctf.Plugins.Lifecycle.{Orderly, run_plugin-Orderly}
use osctf.Plugins.Quarantine.{setbacks, setbacks_end}

abbrev twice : Config
twice = record { max_attempts = 2; health_stable = 60 }

-- A launch that fails, one that serves, a reload with a wrong binary, and a crash.
abbrev eventful : List Signal
eventful =
    launch_returns false 1 fails
    ∷ backoff_ends false
    ∷ launch_returns false 5 (runs true)
    ∷ reload_asked false 9 (runs false)
    ∷ crash_seen 10
    ∷ []

-- A crash soon after a failed launch is the second setback.
parked_after : (run_plugin twice eventful).point ≡ parked
unfolding run_plugin supervise resume begin_launch after_launch after_reload after_crash transition
    become_ready serve back_off quarantine mark_unhealthy to
parked_after = refl

-- A reload puts a process in service that a launch would have refused.
unchecked_reload :
    (run_plugin twice
      (launch_returns false 1 (runs true) ∷ reload_asked false 2 (runs false) ∷ [])).point
    ≡ serving 2
unfolding run_plugin supervise resume begin_launch after_launch after_reload transition become_ready
    serve to
unchecked_reload = refl

run_plugin-Orderly_example : Orderly twice (run_plugin twice eventful)
run_plugin-Orderly_example = run_plugin-Orderly twice (omega arith) eventful

setbacks_end_example :
    let b = setbacks twice (λ n. true) (λ n. 10) (3 * 2) (begin_launch tracked) in
    (b.point ≡ parked) × (b.launches ≤ 2)
setbacks_end_example = setbacks_end twice (λ n. true) (λ n. 10) (omega arith) (λ n. omega arith)
