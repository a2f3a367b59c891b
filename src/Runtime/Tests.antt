-- ===== src/Runtime/Tests.antt =====
-- A reconcile pass at concrete inputs.
use osctf.Prelude.{ℕ, ◌+◌, ◌≡◌, refl, true, [], ◌∷◌, All, lookup, insert}
use osctf.Submissions.Store.{text_beq}
use osctf.Runtime.Reconcile.{
  ContainerView, InstanceRow, NetworkView, mark_lost, remove_container, remove_network,
  reconcile_grace, reconcile_pass, row_actions, row_action, container_actions, container_action,
  network_actions, network_action, by_instance, row_by_id, protected_teams, stats_of,
}
use osctf.Runtime.Reasons.{justified}
use osctf.Runtime.Decisions.{reconcile_justified}

abbrev row : ℕ → InstanceRow
row id = record {
  instance_id = id ∷ [];
  team_id = 9 ∷ [];
  state = "running";
  container_id = 50 ∷ id ∷ [];
  updated_at = 0;
}

abbrev shown : ℕ → ℕ → ContainerView
shown instance container = record {
  instance_id = instance ∷ [];
  container_id = 50 ∷ container ∷ [];
  is_running = true;
}

abbrev bridge : NetworkView
bridge = record { network_id = 7 ∷ []; team_id = 9 ∷ []; team_network = true; attached = 0 }

-- Instance 1 has vanished, container 3 has no row, container 4 is not the one of instance 2, and the
-- team's bridge is empty.
pass :
    reconcile_pass
      (shown 3 3 ∷ shown 2 4 ∷ [])
      (row 1 ∷ row 2 ∷ [])
      (bridge ∷ [])
      (reconcile_grace + 1)
    ≡ (
      mark_lost (1 ∷ [])
          ∷ remove_container (50 ∷ 3 ∷ [])
          ∷ remove_container (50 ∷ 4 ∷ [])
          ∷ remove_network (7 ∷ [])
          ∷ [],
      record { skipped_grace = 0; future_rows = 0 },
    )
unfolding reconcile_pass row_actions row_action container_actions container_action network_actions
    network_action by_instance row_by_id protected_teams stats_of lookup insert text_beq
pass = refl

reconcile_justified_example :
    All
      (justified (shown 3 3 ∷ []) (row 1 ∷ []) (bridge ∷ []) (reconcile_grace + 1))
      (reconcile_pass (shown 3 3 ∷ []) (row 1 ∷ []) (bridge ∷ []) (reconcile_grace + 1)).0
reconcile_justified_example =
    reconcile_justified (shown 3 3 ∷ []) (row 1 ∷ []) (bridge ∷ []) (reconcile_grace + 1)
