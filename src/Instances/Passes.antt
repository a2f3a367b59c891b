-- ===== src/Instances/Passes.antt =====
-- What one pass of each sweep of internal/scheduler/scheduler.go comes to, on the table that it lists.
use mathlib.Core.List.{Memᴰ}
use osctf.Prelude.{
  ℕ, zero, suc, ◌+◌, ◌-◌, ◌%◌, ◌≤◌, ◌<◌, ◌≡◌, inl, inr, refl, ap, ◌∙◌, Bool, true, false, ◌&&◌, not,
  some, List, [], ◌∷◌, arith, ◌==◌, nat_key, ltb, length, length-keep, tally-ext, keep, keep-ext,
  tally, tally-append, tally-keep, tally_absent, only_one, tally-some, beq_refl, beq→eq, Bool-cases,
}
use osctf.Instances.Table.{Row, has_id, is_expired, is_stale, is_per_team}
use osctf.Instances.Manager.{Env, list_again, get_event}
use osctf.Instances.Scheduler.{
  Config, sweep, is_past, expire_listed, take_rows, drop_rows, rotate, expire_once, is_idle_holder,
  reap_once, phase_of, phase_now, cleaned, cleanup_in, cleanup_ended,
}
use osctf.Instances.Sweeps.{Answers, is_free, sweep-keep}
use osctf.Events.{Event, ended, phase}

-- One row's identifier is listed and free exactly when the row is.
listed_itself :
    (chosen free : Row → Bool) (rows : List Row) (r : Row)
    → tally (has_id r.id) rows ≤ 1
    → Memᴰ r rows
    → ltb 0 (tally (λ l. has_id r.id l && free l) (keep chosen rows)) ≡ (chosen r && free r)
listed_itself chosen free rows r u m = elim (Bool-cases (chosen r && free r)) [
  | inl y ↦
      let counted =
        tally-some (λ l. chosen l && (has_id r.id l && free l)) rows r m
          (ground (arith, y, beq_refl r.id)) in
      ground (arith, y, counted, tally-keep (λ l. has_id r.id l && free l) chosen rows)
  | inr n ↦
      let none_else : tally (λ l. chosen l && (has_id r.id l && free l)) rows ≡ 0 =
        tally_absent _ rows (λ l k. elim (Bool-cases (has_id r.id l)) [
          | inl i ↦
              let same = only_one (has_id r.id) rows l r u k m i (beq_refl r.id) in
              let unfit : (chosen l && free l) ≡ false = rw same n in ground (arith, i, unfit)
          | inr o ↦ ground (arith, o)
        ]) in
      ground (arith, n, none_else, tally-keep (λ l. has_id r.id l && free l) chosen rows)
]

module _ (env : Env) (busy : ℕ → Bool) (answers : Answers env) where
  -- A sweep that starts from a list of the chosen rows of the table, in any order, destroys those it can get at.
  fresh_sweep :
      (eligible chosen : Row → Bool)
      → ((r : Row) → chosen r ≡ true → eligible r ≡ true)
      → (listed rows : List Row) → ((p : Row → Bool) → tally p listed ≡ tally p (keep chosen rows))
      → ((id : ℕ) → tally (has_id id) rows ≤ 1)
      → sweep env busy eligible listed rows ≡ keep (λ r. not (chosen r && is_free env busy r)) rows
  fresh_sweep eligible chosen fits listed rows same u =
      sweep-keep env busy eligible answers listed rows u
      ∙ keep-ext _ _ rows (λ r m.
        let here = listed_itself chosen (is_free env busy) rows r (u r.id) m in
        let also = same (λ l. has_id r.id l && is_free env busy l) in
        ground (arith, here, also, fits r))

take-drop :
    (p : Row → Bool) (n : ℕ) (rows : List Row)
    → tally p (drop_rows n rows) + tally p (take_rows n rows) ≡ tally p rows
take-drop p zero rows = omega arith
take-drop p (suc n) [] = refl
take-drop p (suc n) (r ∷ rows) = ground (arith, take-drop p n rows)

rotate-tally :
    (p : Row → Bool) (offset : ℕ) (rows : List Row) → tally p (rotate offset rows) ≡ tally p rows
unfolding rotate
rotate-tally p offset [] = refl
rotate-tally p offset (r ∷ rows) =
    let at = offset % length (r ∷ rows) in
    tally-append p (drop_rows at (r ∷ rows)) (take_rows at (r ∷ rows)) ∙ take-drop p at (r ∷ rows)

module _ (env : Env) (busy : ℕ → Bool) (answers : Answers env) where
  -- Where the queries answer and the identifiers are unique, one expiry pass, whatever the
  -- rotation, destroys exactly the rows that are past their expiry and neither stopped, errored
  -- nor lost, of teams that are not busy, whose container the daemon destroys: a failing or busy
  -- one stops no other.
  pub expire_once-keep :
      (offset : ℕ) (rows : List Row)
      → ((id : ℕ) → tally (has_id id) rows ≤ 1)
      → expire_once env busy offset rows
        ≡ keep (λ r. not (is_expired env.now r && is_free env busy r)) rows
  unfolding expire_once expire_listed
  expire_once-keep offset rows u = rw answers.lists (
      fresh_sweep env busy answers (is_past env.now) (is_expired env.now) (λ r e. ground (arith, e))
        _ rows (λ p. rotate-tally p offset (keep (is_expired env.now) rows)) u)

  -- A reaping pass, where it is on, the queries answer and the identifiers are unique, destroys exactly
  -- the rows that hold a port idly and are not touched since the cutoff, of teams that are not busy, and
  -- whose container the daemon destroys.
  reap_once-keep :
      (cfg : Config) (rows : List Row)
      → 0 < cfg.reap_after
      → ((id : ℕ) → tally (has_id id) rows ≤ 1)
      → reap_once cfg env busy rows
        ≡ keep (λ r. not (is_stale (env.now - cfg.reap_after) r && is_free env busy r)) rows
  unfolding reap_once
  reap_once-keep cfg rows on u =
      let set : (cfg.reap_after == 0) ≡ false = ground (arith, on, beq→eq cfg.reap_after 0) in
      rw (set, answers.lists)
        (fresh_sweep env busy answers is_idle_holder (is_stale (env.now - cfg.reap_after))
          (λ r e. ground (arith, e)) _ rows (λ p. refl) u)

  cleaned_all :
      (rows after : List Row)
      → env.faults list_again ≡ false
      → sweep env busy (λ r. true) (keep is_per_team rows) rows ≡ after
      → cleaned env busy rows ≡ (after, some (length (keep is_per_team after)))
  cleaned_all rows after g h = rw (h, g) refl

  swept_ended :
      (e : Event)
      → env.event ≡ some e
      → env.faults get_event ≡ false
      → phase env.now e ≡ ended
      → phase_now env ≡ some ended
  swept_ended e h f k = ap (phase_of env) h ∙ rw (f, k) refl

  -- Where the event has ended, the queries answer and the identifiers are unique, a cleanup
  -- removes exactly the instances of teams whose lock is had and whose container the daemon
  -- destroys, leaves every shared instance, and returns the number of team instances that are
  -- left: 0 where no team is busy and no destruction fails.
  pub cleanup_ended-keep :
      (e : Event) (rows : List Row)
      → env.event ≡ some e
      → env.faults get_event ≡ false
      → env.faults list_again ≡ false
      → phase env.now e ≡ ended
      → ((id : ℕ) → tally (has_id id) rows ≤ 1)
      → cleanup_ended env busy rows ≡ (
        keep (λ r. not (is_per_team r && is_free env busy r)) rows,
        some (tally (λ r. is_per_team r && not (is_free env busy r)) rows),
      )
  unfolding cleanup_ended
  cleanup_ended-keep e rows h f g k u =
      let stays : Row → Bool = λ r. not (is_per_team r && is_free env busy r) in
      let left : length (keep is_per_team (keep stays rows))
          ≡ tally (λ r. is_per_team r && not (is_free env busy r)) rows =
        length-keep is_per_team (keep stays rows)
        ∙ tally-keep is_per_team stays rows
        ∙ tally-ext _ _ rows (λ r. ground arith) in
      let all = cleaned_all rows (keep stays rows) g (
        fresh_sweep env busy answers (λ r. true) is_per_team (λ r y. refl) (keep is_per_team rows)
          rows (λ p. refl) u) in
      ap (cleanup_in env busy rows) (swept_ended e h f k)
      ∙ rw answers.lists (all ∙ ap (λ n. (keep stays rows, some n)) left)
