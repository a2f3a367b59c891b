-- ===== src/Plugins/Quarantine.antt =====
-- The crash loop of internal/plugin/supervisor.go ends: a plugin that never stays up is quarantined
-- after `max_attempts` launches.
use osctf.Prelude.{
  ℕ, suc, zero, ◌+◌, ◌-◌, ◌*◌, ◌≤◌, ◌<◌, ◌≡◌, refl, Bool, true, false, arith, if◌then◌else◌,
  nat_key,
}
use osctf.Plugins.Supervisor.{
  Config, Point, starting, waking, parked, exited, serving, Actor, transition, become_ready,
  mark_unhealthy, quarantine, begin_launch, back_off, serve, fails, runs, after_launch, after_crash,
  Signal, launch_returns, backoff_ends, crash_seen, at_point, resume, tracked,
}

-- The setback that a wait may meet: a launch that fails, or a process that dies `delay` after it was
-- ready. In quarantine nothing more happens.
abbrev pub setback_at : Point → Bool → ℕ → Actor → Signal
setback_at starting lives delay a = launch_returns false delay (if lives then runs true else fails)
setback_at (serving c) lives delay a = crash_seen (a.ready_since + delay)
setback_at _ lives delay a = backoff_ends false

-- A run of setbacks, chosen by the number of waits that are left.
unfoldable pub setbacks : Config → (ℕ → Bool) → (ℕ → ℕ) → ℕ → Actor → Actor
setbacks cfg lives delay zero a = a
setbacks cfg lives delay (suc n) a =
    setbacks cfg lives delay n (resume cfg a (setback_at a.point (lives n) (delay n) a))

-- How many setbacks are left at most.
abbrev rank_at : Config → Point → Actor → ℕ
rank_at cfg starting a = 3 * (cfg.max_attempts - a.attempts)
rank_at cfg (serving c) a = 3 * (cfg.max_attempts - a.attempts) - 1
rank_at cfg waking a = 3 * (cfg.max_attempts - a.attempts) + 1
rank_at cfg parked a = 0
rank_at cfg exited a = 0

-- Each launch but the one under way has been counted as an attempt.
abbrev Counted : Config → Point → Actor → Type 0
Counted cfg starting a = (a.launches ≡ suc a.attempts) × (a.attempts < cfg.max_attempts)
Counted cfg (serving c) a = (a.launches ≡ suc a.attempts) × (a.attempts < cfg.max_attempts)
Counted cfg waking a = (a.launches ≡ a.attempts) × (a.attempts < cfg.max_attempts)
Counted cfg parked a = a.launches ≤ cfg.max_attempts
Counted cfg exited a = ⊥

module _ (cfg : Config) where
  setback-Counted :
      (p : Point) (lives : Bool) (delay : ℕ) (a : Actor)
      → delay < cfg.health_stable
      → a.point ≡ p
      → Counted cfg p a
      → let b = at_point cfg p a (setback_at p lives delay a) in
        Counted cfg b.point b × (rank_at cfg b.point b ≤ rank_at cfg p a - 1)
  unfolding after_launch after_crash begin_launch back_off serve quarantine mark_unhealthy
      become_ready transition
  setback-Counted starting true delay a h q k = ground arith
  setback-Counted starting false delay a h q k = ground arith
  setback-Counted (serving c) lives delay a h q k = ground arith
  setback-Counted waking lives delay a h q k = ground arith
  setback-Counted parked lives delay a h q k = simp q (k, omega arith)
  setback-Counted exited lives delay a h q k = absurd k

  none_left :
      (p : Point) (a : Actor)
      → Counted cfg p a
      → rank_at cfg p a ≤ 0
      → (p ≡ parked) × (a.launches ≤ cfg.max_attempts)
  none_left starting a k r = absurd (omega arith)
  none_left (serving c) a k r = absurd (omega arith)
  none_left waking a k r = absurd (omega arith)
  none_left parked a k r = (refl, k)
  none_left exited a k r = absurd k

  setbacks-parked :
      (lives : ℕ → Bool) (delay : ℕ → ℕ)
      → ((n : ℕ) → delay n < cfg.health_stable)
      → (n : ℕ) (a : Actor) → Counted cfg a.point a
      → rank_at cfg a.point a ≤ n
      → let b = setbacks cfg lives delay n a in (b.point ≡ parked) × (b.launches ≤ cfg.max_attempts)
  unfolding setbacks resume
  setbacks-parked lives delay h zero a k r = none_left a.point a k r
  setbacks-parked lives delay h (suc n) a k r =
      let b = at_point cfg a.point a (setback_at a.point (lives n) (delay n) a) in
      let (k', r') = setback-Counted a.point (lives n) (delay n) a (h n) refl k in
      setbacks-parked lives delay h n b k' (omega (arith, r, r'))

  -- Where at least one attempt is allowed and every process dies sooner after it was ready than
  -- the stable time, 3 * max_attempts setbacks from the first launch, each a failing launch or a
  -- crash or the end of a backoff, leave the plugin parked in quarantine after max_attempts
  -- launches at most.
  pub setbacks_end :
      (lives : ℕ → Bool) (delay : ℕ → ℕ)
      → 0 < cfg.max_attempts
      → ((n : ℕ) → delay n < cfg.health_stable)
      → let b = setbacks cfg lives delay (3 * cfg.max_attempts) (begin_launch tracked) in
        (b.point ≡ parked) × (b.launches ≤ cfg.max_attempts)
  unfolding begin_launch transition
  setbacks_end lives delay m h =
      setbacks-parked lives delay h (3 * cfg.max_attempts) (begin_launch tracked) (ground arith)
        (ground arith)
