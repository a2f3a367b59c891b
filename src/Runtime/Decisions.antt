-- ===== src/Runtime/Decisions.antt =====
-- What the decisions of internal/runtime/reconcile.go rest on: each action has a reason in what was
-- observed, and vanished containers are reported.
use mathlib.Core.List.{Memᴰ}
use mathlib.Core.List.Memᴰ
use osctf.Prelude.{
  ℕ, ◌≡◌, inl, inr, refl, ap, true, false, ◌&&◌, not, List, [], ◌∷◌, arith, ◌==◌, text_key, nat_key,
  All, All-append, tally-some, lookup, beq_refl, Bool-cases, Option-cases,
}
use osctf.Submissions.Store.{bytes_key}
use osctf.Runtime.Reconcile.{
  ContainerView, InstanceRow, NetworkView, mark_lost, is_fresh_row, is_blank, by_instance,
  row_by_id, protects, protected_teams, is_found, expects_container, row_action, row_actions,
  tracked_action, container_action, container_actions, network_action, network_actions,
  reconcile_pass,
}
use osctf.Runtime.Reasons.{
  is_shown, some_row, supersedes, to_remove, justified, found-by_instance, found-protected,
  lookup-row_by_id, unfound-row_by_id,
}

module _ (cs : List ContainerView) (rs : List InstanceRow) (ns : List NetworkView) (now : ℕ) where
  row_action-justified :
      (r : InstanceRow)
      → Memᴰ r rs
      → All (justified cs rs ns now) (row_action now (by_instance cs []) r)
  unfolding row_action justified lookup
  row_action-justified r m = ground (
    arith,
    found-by_instance r.instance_id cs [],
    tally-some
        (λ x.
          x.instance_id == r.instance_id && not (is_fresh_row now x) && expects_container x.state)
        rs r m,
    beq_refl r.instance_id,
  )

  tracked_action-justified :
      (c : ContainerView)
      → Memᴰ c cs
      → is_blank c.instance_id ≡ false
      → All (justified cs rs ns now) (tracked_action now c (lookup c.instance_id (row_by_id rs [])))
  unfolding justified lookup
  tracked_action-justified c m b = elim (Option-cases (lookup c.instance_id (row_by_id rs []))) [
    | inl e ↦ rw e (
        ground (
          arith,
          b,
          ap is_found e,
          unfound-row_by_id c.instance_id rs [],
          tally-some (to_remove rs now c.container_id) cs c m,
          beq_refl c.container_id,
        ))
    | inr (r, e) ↦ elim (lookup-row_by_id c.instance_id rs [] r e) [
      | inl k ↦ absurd (cc k)
      | inr (k, j) ↦ rw e (
          ground (
            arith,
            b,
            k,
            beq_refl c.instance_id,
            tally-some (supersedes now c.instance_id c.container_id) rs r j,
            tally-some (to_remove rs now c.container_id) cs c m,
            beq_refl c.container_id,
          ))
    ]
  ]

  container_action-justified :
      (c : ContainerView)
      → Memᴰ c cs
      → All (justified cs rs ns now) (container_action now (row_by_id rs []) c)
  unfolding container_action justified
  container_action-justified c m = elim (Bool-cases (is_blank c.instance_id)) [
    | inl e ↦ rw e (
        ground (
          arith,
          e,
          tally-some
              (λ (x : ContainerView). x.container_id == c.container_id && is_blank x.instance_id) cs
              c m,
          beq_refl c.container_id,
        ))
    | inr e ↦ rw e (tracked_action-justified c m e)
  ]

  network_action-justified :
      (n : NetworkView)
      → Memᴰ n ns
      → All (justified cs rs ns now) (network_action (protected_teams now rs []) n)
  unfolding network_action justified lookup
  network_action-justified n m = ground (
    arith,
    found-protected now n.team_id rs [],
    tally-some
        (λ (x : NetworkView).
          x.network_id == n.network_id
          && x.team_network
          && x.attached == 0
          && not (is_blank x.team_id)
          && not (some_row (λ r. r.team_id == x.team_id && protects now r) rs))
        ns n m,
    tally-some
        (λ (x : NetworkView).
          x.network_id == n.network_id && x.team_network && x.attached == 0 && is_blank x.team_id)
        ns n m,
    beq_refl n.network_id,
  )

  rows-justified :
      (xs : List InstanceRow)
      → ((r : InstanceRow) → Memᴰ r xs → Memᴰ r rs)
      → All (justified cs rs ns now) (row_actions now (by_instance cs []) xs)
  unfolding row_actions
  rows-justified [] h = tt
  rows-justified (r ∷ xs) h =
      All-append (justified cs rs ns now) (row_action now (by_instance cs []) r) _
        (row_action-justified r (h r (Memᴰ.head refl)))
        (rows-justified xs (λ x m. h x (Memᴰ.tail m)))

  containers-justified :
      (xs : List ContainerView)
      → ((c : ContainerView) → Memᴰ c xs → Memᴰ c cs)
      → All (justified cs rs ns now) (container_actions now (row_by_id rs []) xs)
  unfolding container_actions
  containers-justified [] h = tt
  containers-justified (c ∷ xs) h =
      All-append (justified cs rs ns now) (container_action now (row_by_id rs []) c) _
        (container_action-justified c (h c (Memᴰ.head refl)))
        (containers-justified xs (λ x m. h x (Memᴰ.tail m)))

  networks-justified :
      (xs : List NetworkView)
      → ((n : NetworkView) → Memᴰ n xs → Memᴰ n ns)
      → All (justified cs rs ns now) (network_actions (protected_teams now rs []) xs)
  unfolding network_actions
  networks-justified [] h = tt
  networks-justified (n ∷ xs) h =
      All-append (justified cs rs ns now) (network_action (protected_teams now rs []) n) _
        (network_action-justified n (h n (Memᴰ.head refl)))
        (networks-justified xs (λ x m. h x (Memᴰ.tail m)))

  -- Every action of a reconcile pass has its reason: a row is marked lost only if its state wants
  -- a container, it is past the grace and no container of its instance is shown; a container is
  -- removed only if it has an instance and no row, or a row past the grace records another
  -- container; a network is removed only if it is an empty bridge of a team with no pending or
  -- fresh row; only containers and empty bridges with no owner are flagged.
  pub reconcile_justified : All (justified cs rs ns now) (reconcile_pass cs rs ns now).0
  unfolding reconcile_pass
  reconcile_justified =
      All-append (justified cs rs ns now) (row_actions now (by_instance cs []) rs) _
        (rows-justified rs (λ r m. m))
        (All-append (justified cs rs ns now) (container_actions now (row_by_id rs []) cs) _
          (containers-justified cs (λ c m. m)) (networks-justified ns (λ n m. m)))

  row_marked :
      (xs : List InstanceRow) (r : InstanceRow)
      → Memᴰ r xs
      → row_action now (by_instance cs []) r ≡ mark_lost r.instance_id ∷ []
      → Memᴰ (mark_lost r.instance_id) (row_actions now (by_instance cs []) xs)
  unfolding row_actions
  row_marked [] r m e = absurd (Memᴰ.not-nil m)
  row_marked (x ∷ xs) r (Memᴰ.head k) e =
      Memᴰ.append_left {s = row_action now (by_instance cs []) x} _ (rw (← k, e) (Memᴰ.head refl))
  row_marked (x ∷ xs) r (Memᴰ.tail m) e =
      Memᴰ.append_right (row_action now (by_instance cs []) x) (row_marked xs r m e)

  -- A row past the grace whose state wants a container, and whose instance shows none, is marked
  -- lost by the pass.
  pub reconcile_marks :
      (r : InstanceRow)
      → Memᴰ r rs
      → is_fresh_row now r ≡ false
      → expects_container r.state ≡ true
      → is_shown r.instance_id cs ≡ false
      → Memᴰ (mark_lost r.instance_id) (reconcile_pass cs rs ns now).0
  unfolding reconcile_pass row_action lookup
  reconcile_marks r m f x s =
      Memᴰ.append_left _
        (row_marked rs r m (ground (arith, f, x, s, found-by_instance r.instance_id cs [])))
