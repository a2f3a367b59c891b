-- ===== src/Instances/Allocation.antt =====
-- What `allocateRow` of internal/runtime/manager.go comes to: the lowest free port, or a row that the
-- owner has already.
use osctf.Prelude.{
  ℕ, zero, suc, ◌+◌, ◌-◌, ◌≤◌, ◌<◌, ◌≡◌, ◌⊎◌, inl, inr, refl, ◌∙◌, ap, Bool, true, false, ◌||◌, not,
  Option, none, some, List, [], ◌∷◌, ◌++◌, arith, nat_key, text_key, tally, Bool-cases,
  Option-cases, Result, ok, err, or_fail,
}
use native.Mathlib.Decide.{dec_lt}
use osctf.Submissions.Store.{bytes_key}
use osctf.Instances.Table.{
  Row, Refusal, id_taken, port_taken, shared_taken, team_taken, flag_taken, create_instance, has_id,
  has_port, occurs, used_ports,
}
use osctf.Instances.Manager.{
  Env, Failure, no_ports, broken, create_row, mem_port, inserted, allocate, allocate_row,
  list_ports, existing_row, is_port_in_range,
}

abbrev pub at_port : Row → ℕ → Row
at_port r p = record r { host_port = some p }

-- Some row, or the list, has the port.
abbrev pub is_used : List ℕ → List Row → ℕ → Bool
is_used used rows q = mem_port q used || occurs (has_port (some q)) rows

-- The row that a successful allocation adds, from `low` on.
pub record Placed (r : Row) (used : List ℕ) (low left : ℕ) (rows : List Row) (p : ℕ) : Type 0 where
  pub from_low : low ≤ p
  pub below_end : p < low + left
  pub unused : is_used used rows p ≡ false
  pub new_id : tally (has_id r.id) rows ≡ 0
  pub creates : create_instance (at_port r p) rows ≡ ok (rows ++ at_port r p ∷ [])
  pub lowest : (q : ℕ) → low ≤ q → q < p → is_used used rows q ≡ true

abbrev pub Allocated : Row → List ℕ → ℕ → ℕ → List Row → List Row × Result Failure Row → Type 0
Allocated r used low left rows res =
    ((e : Failure) × (res ≡ (rows, err e)))
    ⊎ ((s : Row) × (res ≡ (rows, ok s)) × (existing_row r r.team_id rows ≡ some s))
    ⊎ ((p : ℕ) × (res ≡ (rows ++ at_port r p ∷ [], ok (at_port r p)))
        × Placed r used low left rows p)

create_instance-ok :
    (r : Row) (rows rows' : List Row)
    → create_instance r rows ≡ ok rows'
    → (rows' ≡ rows ++ r ∷ [])
      × (tally (has_id r.id) rows ≡ 0)
      × (occurs (has_port r.host_port) rows ≡ false)
unfolding create_instance
create_instance-ok r rows rows' h = ground arith

-- Where another port would do, only the port can have been refused.
refused_port :
    (r : Row) (low p : ℕ) (c : Refusal) (rows rows' : List Row)
    → create_instance (at_port r low) rows ≡ err c
    → create_instance (at_port r p) rows ≡ ok rows'
    → occurs (has_port (some low)) rows ≡ true
unfolding create_instance
refused_port r low p c rows rows' h k = ground arith

shared_owner :
    (r : Row) (rows : List Row) → create_instance r rows ≡ err shared_taken → r.team_id ≡ none
unfolding create_instance
shared_owner r rows h = elim (Option-cases r.team_id) [
  | inl e ↦ e
  | inr (t, e) ↦ ground (arith, e, h)
]

later_ports :
    (r : Row) (used : List ℕ) (low left : ℕ) (rows : List Row) (res : List Row × Result Failure Row)
    → ((p : ℕ)
        → create_instance (at_port r p) rows ≡ ok (rows ++ at_port r p ∷ [])
        → is_used used rows low ≡ true)
    → Allocated r used (suc low) left rows res
    → Allocated r used low (suc left) rows res
later_ports r used low left rows res skip (inl e) = inl e
later_ports r used low left rows res skip (inr (inl e)) = inr (inl e)
later_ports r used low left rows res skip (inr (inr (p, e, placed))) = inr (
    inr (
      p,
      e,
      record {
        from_low = omega (arith, placed.from_low);
        below_end = omega (arith, placed.below_end);
        unused = placed.unused;
        new_id = placed.new_id;
        creates = placed.creates;
        lowest = λ q a b. elim (dec_lt low q) [
          | yes h ↦ placed.lowest q (omega arith) b
          | no h ↦ let same : low ≡ q = omega arith in rw (← same) (skip p placed.creates)
        ];
      },
    ))

found_or_broken :
    (r : Row) (used : List ℕ) (low left : ℕ) (rows : List Row) (owner : Option ℕ)
    → r.team_id ≡ owner
    → Allocated r used low left rows (rows, or_fail (existing_row r owner rows) broken)
found_or_broken r used low left rows owner o = elim (Option-cases (existing_row r owner rows)) [
  | inl e ↦ inl (broken, rw e)
  | inr (s, e) ↦ inr (inl (s, rw e, ap (λ t. existing_row r t rows) o ∙ e))
]

insert-Allocated :
    (env : Env) (r : Row) (used : List ℕ) (left port : ℕ) (rows : List Row)
    → mem_port port used ≡ false
    → Allocated r used (suc port) left rows (allocate env r used left (suc port) rows)
    → (c : Result Refusal (List Row)) → create_instance (at_port r port) rows ≡ c
    → Allocated r used port
        (suc left)
        rows
        (inserted env (at_port r port) rows (allocate env r used left (suc port) rows) c)
insert-Allocated env r used left port rows m rest (ok rows') e =
    let (same, new, free) = create_instance-ok (at_port r port) rows rows' e in
    inr (
      inr (
        port,
        ground (arith, same),
        record {
          from_low = omega arith;
          below_end = omega arith;
          unused = ground (arith, m, free);
          new_id = new;
          creates = e ∙ ap (λ x. ok x) same;
          lowest = λ q a b. absurd (omega arith);
        },
      ))
insert-Allocated env r used left port rows m rest (err shared_taken) e =
    found_or_broken r used port (suc left) rows none (shared_owner (at_port r port) rows e)
insert-Allocated env r used left port rows m rest (err team_taken) e =
    found_or_broken r used port (suc left) rows r.team_id refl
insert-Allocated env r used left port rows m rest (err id_taken) e =
    later_ports r used port left rows _
      (λ p k. ground (arith, refused_port r port p id_taken rows _ e k)) rest
insert-Allocated env r used left port rows m rest (err port_taken) e =
    later_ports r used port left rows _
      (λ p k. ground (arith, refused_port r port p port_taken rows _ e k)) rest
insert-Allocated env r used left port rows m rest (err flag_taken) e =
    later_ports r used port left rows _
      (λ p k. ground (arith, refused_port r port p flag_taken rows _ e k)) rest

pub allocate-Allocated :
    (env : Env) (r : Row) (used : List ℕ) (left port : ℕ) (rows : List Row)
    → Allocated r used port left rows (allocate env r used left port rows)
unfolding allocate
allocate-Allocated env r used zero port rows = inl (no_ports, refl)
allocate-Allocated env r used (suc left) port rows =
    let rest = allocate-Allocated env r used left (suc port) rows in
    elim (Bool-cases (mem_port port used)) [
      | inl m ↦ rw m (later_ports r used port left rows _ (λ p k. ground (arith, m)) rest)
      | inr m ↦ elim (Bool-cases (env.faults create_row || not (is_port_in_range port))) [
        | inl f ↦ rw (m, f) (inl (broken, refl))
        | inr f ↦
            rw (m, f)
              (insert-Allocated env r used left port rows m rest
                (create_instance (at_port r port) rows) refl)
      ]
    ]

mem_port-used_ports :
    (q : ℕ) (rows : List Row) → mem_port q (used_ports rows) ≡ occurs (has_port (some q)) rows
unfolding used_ports
mem_port-used_ports q [] = refl
mem_port-used_ports q (r ∷ rows) = elim (Option-cases r.host_port) [
  | inl e ↦ ground (arith, e, mem_port-used_ports q rows)
  | inr (p, e) ↦ ground (arith, e, mem_port-used_ports q rows)
]

-- A row that an allocation on the listed ports comes to.
abbrev Lowest : ℕ → ℕ → Row → List Row → List Row × Result Failure Row → Type 0
Lowest low left r rows res =
    (rows' : List Row) (s : Row)
    → res ≡ (rows', ok s)
    → ((rows' ≡ rows) × (existing_row r r.team_id rows ≡ some s))
      ⊎ ((p : ℕ) × (rows' ≡ rows ++ s ∷ [])
          × (s.host_port ≡ some p)
          × (low ≤ p)
          × (p < low + left)
          × (occurs (has_port (some p)) rows ≡ false)
          × ((q : ℕ) → low ≤ q → q < p → occurs (has_port (some q)) rows ≡ true))

listed-Lowest :
    (low left : ℕ) (r : Row) (rows : List Row) (res : List Row × Result Failure Row)
    → Allocated r (used_ports rows) low left rows res
    → Lowest low left r rows res
listed-Lowest low left r rows res (inl (e, h)) rows' s k = cc
listed-Lowest low left r rows res (inr (inl (t, h, found))) rows' s k =
    inl (ground (arith, h, k), ground (arith, h, k, found))
listed-Lowest low left r rows res (inr (inr (p, h, placed))) rows' s k = inr (
  p,
  ground (arith, h, k),
  ground (arith, h, k),
  placed.from_low,
  placed.below_end,
  ground (arith, placed.unused),
  λ q a b. ground (arith, placed.lowest q a b, mem_port-used_ports q rows),
)

-- An allocation of a row that succeeds, on the ports as they are listed, leaves the rows as they
-- are and returns the row that the owner has already, or adds a row whose port is in the range,
-- is free, and is the lowest such port.
pub allocate_row_lowest :
    (env : Env) (r : Row) (rows rows' : List Row) (s : Row)
    → allocate_row env r (used_ports rows) rows ≡ (rows', ok s)
    → ((rows' ≡ rows) × (existing_row r r.team_id rows ≡ some s))
      ⊎ ((p : ℕ) × (rows' ≡ rows ++ s ∷ [])
          × (s.host_port ≡ some p)
          × (env.port_start ≤ p)
          × (p ≤ env.port_end)
          × (occurs (has_port (some p)) rows ≡ false)
          × ((q : ℕ) → env.port_start ≤ q → q < p → occurs (has_port (some q)) rows ≡ true))
unfolding allocate_row
allocate_row_lowest env r rows rows' s h = elim (Bool-cases (env.faults list_ports)) [
  | inl f ↦ ground (arith, f, h)
  | inr f ↦ elim (Option-cases env.new_id) [
    | inl n ↦ ground (arith, f, n, h)
    | inr (id, n) ↦
        let draft : Row = record r { id = id } in
        let left = suc env.port_end - env.port_start in
        let got : allocate env draft (used_ports rows) left env.port_start rows ≡ (rows', ok s) =
          ground (arith, f, n, h) in
        elim (listed-Lowest env.port_start left draft rows _
          (allocate-Allocated env draft (used_ports rows) left env.port_start rows) rows' s got) [
            | inl e ↦ inl e
            | inr (p, a, b, low, high, free, least) ↦
                inr (p, a, b, low, omega (arith, low, high), free, least)
          ]
  ]
]
