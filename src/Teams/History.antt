-- ===== src/Teams/History.antt =====
-- Any interleaving of the operations of internal/teams. A request in flight holds the team that it
-- found before its transaction, which may have changed or gone since.
use osctf.Prelude.{
  ℕ, ◌≤◌, ◌≡◌, inl, inr, refl, Bool, true, false, ◌&&◌, not, Option, List, ◌∷◌, arith, nat_key, ltb,
  Result, ok, err, Option-cases, Bool-cases,
}
use osctf.Submissions.Store.{Text}
use osctf.Teams.Tables.{Team, Tables, Failure, member_count, update_team}
use osctf.Teams.WellFormed.{WellFormed, captain_ok}
use osctf.Teams.Service.{Env, create_tx, join_tx, leave_tx, repair_captains, repair_call}
use osctf.Teams.Admin.{
  rename, regenerate_code, admin_update, set_name, set_code, set_flags, update_name, update_code,
}
use osctf.Teams.Captains.{
  Captained, create_tx-Captained, join_tx-Captained, leave_tx-Captained, repair_captains-Captained,
  All-update_team,
}
use osctf.Teams.Membership.{
  create_tx-WellFormed, join_tx-WellFormed, leave_tx-WellFormed, repair_captains-WellFormed,
  relabelled, tally-update_team,
}

-- The tables after a transaction that commits or rolls back.
abbrev pub run_tx : Tables → Result Failure Tables → Tables
run_tx db (ok db') = db'
run_tx db (err e) = db

-- One operation, under a size limit. If `strict`, nobody joins a team that has no members.
pub data Step (max : ℕ) (strict : Bool) : Tables → Tables → Type 0 where
  creates :
      (env : Env) (t : Team) (db : Tables) → Step max strict db (run_tx db (create_tx env t db))
  joins :
      (env : Env) (user team : ℕ) (db : Tables)
      → env.max_size ≡ max
      → strict && not (ltb 0 (member_count team db.members)) ≡ false
      → Step max strict db (run_tx db (join_tx env user team db))
  leaves :
      (env : Env) (user team : ℕ) (db : Tables)
      → Step max strict db (run_tx db (leave_tx env user team db))
  repairs : (env : Env) (db : Tables) → Step max strict db (repair_captains env db).0
  renames :
      (env : Env) (team : ℕ) (name : Text) (db : Tables)
      → Step max strict db (rename env team name db).0
  recodes :
      (env : Env) (team : ℕ) (db : Tables) → Step max strict db (regenerate_code env team db).0
  updates :
      (env : Env) (team : ℕ) (banned hidden : Option Bool) (db : Tables)
      → Step max strict db (admin_update env team banned hidden db).0
  submits :
      (team : ℕ) (db : Tables) → Step max strict db (record db { submitted = team ∷ db.submitted })

pub data Reach (max : ℕ) (strict : Bool) (db : Tables) : Tables → Type 0 where
  here : Reach max strict db db
  next : {a b : Tables} → Reach max strict db a → Step max strict a b → Reach max strict db b

-- A transaction keeps what its commits keep.
run_tx-kept :
    {P : Tables → Type 0} (db : Tables) (r : Result Failure Tables)
    → P db
    → ((db' : Tables) → r ≡ ok db' → P db')
    → P (run_tx db r)
run_tx-kept db (ok db') p h = h db' refl
run_tx-kept db (err e) p h = p

-- Changes of rows keep the tables well formed, and keep captains, if they keep ids and captains.
changed-WellFormed :
    (f : Team → Team) (team max : ℕ) (db : Tables)
    → ((t : Team) → (f t).id ≡ t.id)
    → WellFormed max db
    → WellFormed max (record db { teams = update_team f team db.teams })
changed-WellFormed f team max db h w =
    relabelled max db (update_team f team db.teams) (λ x. tally-update_team f team db.teams x h) w

changed-Captained :
    (f : Team → Team) (team : ℕ) (db : Tables)
    → ((ms : List _) (t : Team) → captain_ok ms (f t) ≡ captain_ok ms t)
    → Captained db
    → Captained (record db { teams = update_team f team db.teams })
changed-Captained f team db h c =
    All-update_team (captain_ok db.members) (captain_ok db.members) f team db.teams
      (λ t e. ground (arith, e, h db.members t)) c

Step-WellFormed :
    {max : ℕ} {strict : Bool} {db db' : Tables}
    → Step max strict db db'
    → 1 ≤ max
    → WellFormed max db
    → WellFormed max db'
unfolding rename update_name regenerate_code update_code admin_update
Step-WellFormed {max} (creates env t db) h w =
    run_tx-kept db (create_tx env t db) w (λ db' e. create_tx-WellFormed env t max db db' h e w)
Step-WellFormed {max} (joins env user team db e s) h w =
    run_tx-kept db (join_tx env user team db) w
      (λ db' k. rw e at (join_tx-WellFormed env user team db db' k (rw e w)))
Step-WellFormed {max} (leaves env user team db) h w =
    run_tx-kept db (leave_tx env user team db) w
      (λ db' k. leave_tx-WellFormed env user team max db db' k w)
Step-WellFormed {max} (repairs env db) h w = repair_captains-WellFormed env max db w
Step-WellFormed {max} (renames env team name db) h w =
    ground (arith, w, changed-WellFormed (set_name name) team max db (λ t. refl) w)
Step-WellFormed {max} (recodes env team db) h w = elim (Option-cases env.new_code) [
  | inl e ↦ rw e w
  | inr (code, e) ↦
      ground (arith, e, w, changed-WellFormed (set_code code) team max db (λ t. refl) w)
]
Step-WellFormed {max} (updates env team banned hidden db) h w =
    ground (arith, w, changed-WellFormed (set_flags banned hidden) team max db (λ t. refl) w)
Step-WellFormed {max} (submits team db) h w = record {
  one_team = w.one_team;
  sized = w.sized;
  placed = w.placed;
  keyed = w.keyed;
}

Step-Captained :
    {max : ℕ} {db db' : Tables}
    → Step max true db db'
    → WellFormed max db
    → Captained db
    → Captained db'
unfolding rename update_name regenerate_code update_code admin_update repair_captains
Step-Captained (creates env t db) w c =
    run_tx-kept db (create_tx env t db) c (λ db' e. create_tx-Captained env t db db' e c)
Step-Captained (joins env user team db e s) w c =
    run_tx-kept db (join_tx env user team db) c
      (λ db' k. join_tx-Captained env user team db db' k (ground (arith, s)) c)
Step-Captained (leaves env user team db) w c =
    run_tx-kept db (leave_tx env user team db) c
      (λ db' k. leave_tx-Captained env user team db db' (w.keyed team) k c)
Step-Captained (repairs env db) w c = elim (Bool-cases (env.faults repair_call)) [
  | inl e ↦ rw e c
  | inr e ↦ repair_captains-Captained env db e
]
Step-Captained (renames env team name db) w c =
    ground (arith, c, changed-Captained (set_name name) team db (λ ms t. refl) c)
Step-Captained (recodes env team db) w c = elim (Option-cases env.new_code) [
  | inl e ↦ rw e c
  | inr (code, e) ↦ ground (arith, e, c, changed-Captained (set_code code) team db (λ ms t. refl) c)
]
Step-Captained (updates env team banned hidden db) w c =
    ground (arith, c, changed-Captained (set_flags banned hidden) team db (λ ms t. refl) c)
Step-Captained (submits team db) w c = c

-- However creations, joins, leaves, repairs, renames, new codes, admin updates and submissions
-- interleave, each transaction on whatever team was found before it, under one size limit of at
-- least 1: every user stays on at most one team, no team exceeds the limit, every member's team
-- exists and team ids are unique.
pub Reach-WellFormed :
    {max : ℕ} {strict : Bool} {db db' : Tables}
    → Reach max strict db db'
    → 1 ≤ max
    → WellFormed max db
    → WellFormed max db'
Reach-WellFormed here h w = w
Reach-WellFormed (next r s) h w = Step-WellFormed s h (Reach-WellFormed r h w)

-- However creations, joins, leaves, repairs, renames, new codes, admin updates and submissions
-- interleave, from well-formed tables and under one size limit of at least 1, the captain of
-- every team that has members is one of them if it was so at the start, as long as nobody joins a
-- team that has no members.
pub Reach-Captained :
    {max : ℕ} {db db' : Tables}
    → Reach max true db db'
    → 1 ≤ max
    → WellFormed max db
    → Captained db
    → Captained db'
Reach-Captained here h w c = c
Reach-Captained (next r s) h w c =
    Step-Captained s (Reach-WellFormed r h w) (Reach-Captained r h w c)
