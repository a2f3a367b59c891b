-- ===== src/Events/Window.antt =====
-- The event's window stays well formed, and its phases follow one another in time.
use osctf.Prelude.{
  ℕ, ◌≤◌, ◌<◌, ◌≡◌, ◌≢◌, ◌↔◌, true, Option, none, some, List, [], ◌∷◌, arith, length, Bool,
  List-cases,
}
use osctf.Events.{
  Phase, pre, running, ended, Event, phase, frozen, UpdateInput, Query, violations, apply_update,
  update, ensure_default,
}

abbrev FreezeInside : ℕ → ℕ → Option ℕ → Type 0
FreezeInside starts ends none = Unit {0}
FreezeInside starts ends (some at) = (starts < at) × (at ≤ ends)

-- The table's CHECK constraints.
pub record IsWindow (e : Event) : Type 0 where
  pub ordered : e.starts_at < e.ends_at
  pub freeze_inside : FreezeInside e.starts_at e.ends_at e.freeze_at

abbrev NameFits : Option (List ℕ) → Type 0
NameFits none = Unit {0}
NameFits (some n) = (1 ≤ length n) × (length n ≤ 200)

violations_iff :
    (cur : Event) (inp : UpdateInput)
    → (violations cur inp ≡ []) ↔ (IsWindow (apply_update cur inp) × NameFits inp.new_name)
unfolding violations
violations_iff cur inp = ground arith

abbrev pub RowFits : Option Event → Type 0
RowFits none = Unit {0}
RowFits (some e) = IsWindow e

update-RowFits :
    (faults : Query → Bool) (row : Option Event) (inp : UpdateInput)
    → RowFits row
    → RowFits (update faults row inp).1
unfolding update
update-RowFits faults none inp v = ground arith
update-RowFits faults (some cur) inp v =
    ground (arith, violations_iff cur inp, List-cases (violations cur inp), v)

ensure_default-RowFits :
    (name description : List ℕ) (now : ℕ) (row : Option Event)
    → RowFits row
    → RowFits (ensure_default name description now row)
unfolding ensure_default
ensure_default-RowFits name description now none v = ground arith
ensure_default-RowFits name description now (some e) v = v

-- The administrator's calls and the boot's, in any order.
pub data Call : Type 0 where
  updates : (Query → Bool) → UpdateInput → Call
  boots : List ℕ → List ℕ → ℕ → Call

run : Option Event → List Call → Option Event
run row [] = row
run row (updates faults inp ∷ cs) = run (update faults row inp).1 cs
run row (boots name description now ∷ cs) = run (ensure_default name description now row) cs

-- After any sequence of event updates and boot-time seedings from a row that is absent or well
-- formed, the stored event is absent or well formed.
run-RowFits : (row : Option Event) (cs : List Call) → RowFits row → RowFits (run row cs)
unfolding run
run-RowFits row [] v = v
run-RowFits row (updates faults inp ∷ cs) v =
    run-RowFits (update faults row inp).1 cs (update-RowFits faults row inp v)
run-RowFits row (boots name description now ∷ cs) v =
    run-RowFits (ensure_default name description now row) cs
      (ensure_default-RowFits name description now row v)

abbrev pub rank : Phase → ℕ
rank pre = 0
rank running = 1
rank ended = 2

-- Between two instants in order, the phase of an event does not go back in the order pre,
-- running, ended.
phase_forward :
    (e : Event) (now later : ℕ) → now ≤ later → rank (phase now e) ≤ rank (phase later e)
unfolding phase
phase_forward e now later h = ground arith

-- Once a well-formed event is frozen it is frozen at every later instant, and it is never in the
-- phase before its start.
frozen_forward :
    (e : Event) (now later : ℕ)
    → IsWindow e
    → now ≤ later
    → frozen now e ≡ true
    → (frozen later e ≡ true) × (phase now e ≢ pre)
unfolding phase frozen
frozen_forward e now later v h k = ground arith
