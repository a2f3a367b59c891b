-- ===== src/Runtime/Reasons.antt =====
-- The reasons of the actions of internal/runtime/reconcile.go, as counts over what was observed, and
-- what its maps hold.
use mathlib.Core.List.{Memᴰ}
use osctf.Prelude.{
  ℕ, ◌≡◌, ◌⊎◌, inl, inr, ap, ◌∙◌, Bool, true, ◌&&◌, ◌||◌, not, some, List, [], ◌∷◌, arith,
  if◌then◌else◌, ◌==◌, text_key, nat_key, ltb, tally, Dict, lookup, insert, lookup-insert, beq→eq,
  Bool-cases,
}
use osctf.Submissions.Store.{Text, bytes_key}
use osctf.Runtime.Reconcile.{
  ContainerView, InstanceRow, NetworkView, Action, mark_lost, remove_container, remove_network,
  flag_unadopted, flag_unadopted_network, is_fresh_row, is_blank, by_instance, row_by_id, protects,
  protected_teams, is_found, expects_container,
}

-- A container of the instance is observed.
abbrev pub is_shown : Text → List ContainerView → Bool
is_shown id cs =
    ltb 0 (tally (λ (c : ContainerView). not (is_blank c.instance_id) && c.instance_id == id) cs)

-- A row of the instance exists.
abbrev has_row : Text → List InstanceRow → Bool
has_row id rs = ltb 0 (tally (λ (r : InstanceRow). r.instance_id == id) rs)

abbrev pub some_row : (InstanceRow → Bool) → List InstanceRow → Bool
some_row p rs = ltb 0 (tally p rs)

-- A row of the instance, not fresh, that records another container than `k`.
abbrev pub supersedes : ℕ → Text → Text → InstanceRow → Bool
supersedes now id k r =
    r.instance_id == id
    && not (is_fresh_row now r)
    && not (is_blank r.container_id)
    && not (r.container_id == k)

-- Container `k`, if no row owns its instance, or a row has superseded it.
abbrev pub to_remove : List InstanceRow → ℕ → Text → ContainerView → Bool
to_remove rs now k c =
    c.container_id == k
    && not (is_blank c.instance_id)
    && (not (has_row c.instance_id rs) || some_row (supersedes now c.instance_id k) rs)

-- The reason that each action must have.
unfoldable pub justified :
    List ContainerView → List InstanceRow → List NetworkView → ℕ → Action → Bool
justified cs rs ns now (mark_lost id) =
    some_row (λ r. r.instance_id == id && not (is_fresh_row now r) && expects_container r.state) rs
    && not (is_shown id cs)
justified cs rs ns now (remove_container k) = ltb 0 (tally (to_remove rs now k) cs)
justified cs rs ns now (remove_network k) = ltb 0 (
    tally
      (λ (n : NetworkView).
        n.network_id == k
        && n.team_network
        && n.attached == 0
        && not (is_blank n.team_id)
        && not (some_row (λ r. r.team_id == n.team_id && protects now r) rs))
      ns)
justified cs rs ns now (flag_unadopted k) =
    ltb 0 (tally (λ (c : ContainerView). c.container_id == k && is_blank c.instance_id) cs)
justified cs rs ns now (flag_unadopted_network k) = ltb 0 (
    tally
      (λ (n : NetworkView).
        n.network_id == k && n.team_network && n.attached == 0 && is_blank n.team_id)
      ns)

pub found-by_instance :
    (id : Text) (cs : List ContainerView) (m : Dict Text ContainerView)
    → is_found (lookup id (by_instance cs m)) ≡ (is_found (lookup id m) || is_shown id cs)
unfolding by_instance
found-by_instance id [] m = ground arith
found-by_instance id (c ∷ cs) m = ground (
  arith,
  found-by_instance id cs (if is_blank c.instance_id then m else insert c.instance_id c m),
  lookup-insert c.instance_id id c m,
)

pub found-protected :
    (now : ℕ) (team : Text) (rs : List InstanceRow) (m : Dict Text Bool)
    → is_found (lookup team (protected_teams now rs m))
      ≡ (is_found (lookup team m) || some_row (λ r. r.team_id == team && protects now r) rs)
unfolding protected_teams
found-protected now team [] m = ground arith
found-protected now team (r ∷ rs) m = ground (
  arith,
  found-protected now team rs (if protects now r then insert r.team_id true m else m),
  lookup-insert r.team_id team true m,
)

-- The row that an instance resolves to is one of the rows, with that identifier.
pub lookup-row_by_id :
    (id : Text) (rs : List InstanceRow) (m : Dict Text InstanceRow) (r : InstanceRow)
    → lookup id (row_by_id rs m) ≡ some r
    → (lookup id m ≡ some r) ⊎ ((r.instance_id ≡ id) × Memᴰ r rs)
unfolding row_by_id
lookup-row_by_id id [] m r e = inl e
lookup-row_by_id id (x ∷ rs) m r e = elim (lookup-row_by_id id rs (insert x.instance_id x m) r e) [
  | inr (k, j) ↦ inr (k, Memᴰ.tail j)
  | inl k ↦ elim (Bool-cases (x.instance_id == id)) [
    | inl b ↦
        let same : r ≡ x = ground (arith, k, b, lookup-insert x.instance_id id x m) in
        inr
          (ap (λ (y : InstanceRow). y.instance_id) same ∙ beq→eq x.instance_id id b, Memᴰ.head same)
    | inr b ↦ inl (ground (arith, k, b, lookup-insert x.instance_id id x m))
  ]
]

pub unfound-row_by_id :
    (id : Text) (rs : List InstanceRow) (m : Dict Text InstanceRow)
    → is_found (lookup id (row_by_id rs m)) ≡ (is_found (lookup id m) || has_row id rs)
unfolding row_by_id
unfound-row_by_id id [] m = ground arith
unfound-row_by_id id (r ∷ rs) m =
    ground (
      arith,
      unfound-row_by_id id rs (insert r.instance_id r m),
      lookup-insert r.instance_id id r m,
    )
