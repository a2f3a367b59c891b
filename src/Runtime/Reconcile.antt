-- ===== src/Runtime/Reconcile.antt =====
-- internal/runtime/reconcile.go: the decision of a reconcile pass, a function of what the daemon
-- shows, what the rows say and the time. Identifiers are texts, and the empty text is no identifier;
-- instants are nanoseconds.
use Prim.Native.String.{String}
use osctf.Prelude.{
  ℕ, suc, ◌+◌, ◌*◌, Bool, true, false, ◌&&◌, ◌||◌, not, Option, none, some, List, [], ◌∷◌, ◌++◌,
  if◌then◌else◌, ◌==◌, text_key, nat_key, ltb, Dict, lookup, insert,
}
use osctf.Submissions.Store.{Text, bytes_key}

pub record ContainerView : Type 0 where
  pub container_id : Text
  pub instance_id : Text
  pub is_running : Bool

pub record InstanceRow : Type 0 where
  pub instance_id : Text
  pub team_id : Text
  pub state : String
  pub container_id : Text
  pub updated_at : ℕ

pub record NetworkView : Type 0 where
  pub network_id : Text
  pub team_id : Text
  pub team_network : Bool
  pub attached : ℕ

-- `Action`, with the identifier that its kind sets, less its reason.
pub data Action : Type 0 where
  mark_lost remove_container remove_network flag_unadopted flag_unadopted_network : Text → Action

pub record Stats : Type 0 where
  pub skipped_grace : ℕ
  pub future_rows : ℕ

-- `deployTimeout + 30*time.Second`
abbrev pub reconcile_grace : ℕ
reconcile_grace = (120 + 30) * 1000000000

-- `now.Sub(r.UpdatedAt) < reconcileGrace`; an instant ahead of `now` has a negative age.
abbrev pub is_fresh_row : ℕ → InstanceRow → Bool
is_fresh_row now r = ltb now (r.updated_at + reconcile_grace)

abbrev is_future_row : ℕ → InstanceRow → Bool
is_future_row now r = ltb now r.updated_at

abbrev pub is_blank : Text → Bool
is_blank [] = true
is_blank (c ∷ t) = false

-- `byInstance`
unfoldable pub by_instance : List ContainerView → Dict Text ContainerView → Dict Text ContainerView
by_instance [] m = m
by_instance (c ∷ cs) m =
    by_instance cs (if is_blank c.instance_id then m else insert c.instance_id c m)

-- `rowByID`
unfoldable pub row_by_id : List InstanceRow → Dict Text InstanceRow → Dict Text InstanceRow
row_by_id [] m = m
row_by_id (r ∷ rs) m = row_by_id rs (insert r.instance_id r m)

abbrev pub protects : ℕ → InstanceRow → Bool
protects now r = not (is_blank r.team_id) && (r.state == "pending" || is_fresh_row now r)

-- `protectedTeams`
unfoldable pub protected_teams : ℕ → List InstanceRow → Dict Text Bool → Dict Text Bool
protected_teams now [] m = m
protected_teams now (r ∷ rs) m =
    protected_teams now rs (if protects now r then insert r.team_id true m else m)

abbrev pub is_found {ℓ} : {A : Type ℓ} → Option A → Bool
is_found none = false
is_found (some a) = true

abbrev pub expects_container : String → Bool
expects_container state = state == "running" || state == "starting" || state == "unhealthy"

-- The decision on one row.
unfoldable pub row_action : ℕ → Dict Text ContainerView → InstanceRow → List Action
row_action now found r =
    if is_fresh_row now r
    then []
    else if is_found (lookup r.instance_id found)
    then []
    else if expects_container r.state
    then mark_lost r.instance_id ∷ []
    else []

unfoldable pub row_actions : ℕ → Dict Text ContainerView → List InstanceRow → List Action
row_actions now found [] = []
row_actions now found (r ∷ rs) = row_action now found r ++ row_actions now found rs

abbrev pub tracked_action : ℕ → ContainerView → Option InstanceRow → List Action
tracked_action now c none = remove_container c.container_id ∷ []
tracked_action now c (some r) =
    if is_fresh_row now r || is_blank r.container_id
    then []
    else if r.container_id == c.container_id
    then []
    else remove_container c.container_id ∷ []

-- The decision on one container.
unfoldable pub container_action : ℕ → Dict Text InstanceRow → ContainerView → List Action
container_action now rows c =
    if is_blank c.instance_id
    then flag_unadopted c.container_id ∷ []
    else tracked_action now c (lookup c.instance_id rows)

unfoldable pub container_actions : ℕ → Dict Text InstanceRow → List ContainerView → List Action
container_actions now rows [] = []
container_actions now rows (c ∷ cs) = container_action now rows c ++ container_actions now rows cs

-- The decision on one network.
unfoldable pub network_action : Dict Text Bool → NetworkView → List Action
network_action protected n =
    if not n.team_network || not (n.attached == 0)
    then []
    else if is_blank n.team_id
    then flag_unadopted_network n.network_id ∷ []
    else if is_found (lookup n.team_id protected)
    then []
    else remove_network n.network_id ∷ []

unfoldable pub network_actions : Dict Text Bool → List NetworkView → List Action
network_actions protected [] = []
network_actions protected (n ∷ ns) = network_action protected n ++ network_actions protected ns

unfoldable pub stats_of : ℕ → List InstanceRow → Stats → Stats
stats_of now [] s = s
stats_of now (r ∷ rs) s = stats_of now rs (record {
  skipped_grace = if is_fresh_row now r then suc s.skipped_grace else s.skipped_grace;
  future_rows = if is_future_row now r then suc s.future_rows else s.future_rows;
})

-- `Reconcile`
unfoldable pub reconcile_pass :
    List ContainerView → List InstanceRow → List NetworkView → ℕ → List Action × Stats
reconcile_pass observed rows networks now = (
  row_actions now (by_instance observed []) rows
      ++ (container_actions now (row_by_id rows []) observed
          ++ network_actions (protected_teams now rows []) networks),
  stats_of now rows (record { skipped_grace = 0; future_rows = 0 }),
)
