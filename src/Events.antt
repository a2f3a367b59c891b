-- ===== src/Events.antt =====
-- internal/events/service.go: the single event, its window, its phase and its scoreboard freeze.
-- Instants are nanoseconds; the clock is an argument. Texts are lists of bytes.
pub mod Window
mod Tests
use osctf.Prelude.{
  ℕ, ◌+◌, ◌*◌, Bool, true, false, ◌&&◌, ◌||◌, not, Option, none, some, List, [], ◌∷◌, ◌++◌,
  if◌then◌else◌, ltb, length,
}

pub data Phase : Type 0 where
  pre running ended : Phase

-- `gen.Event`, less its id and its update stamp.
pub record Event : Type 0 where
  pub name : List ℕ
  pub description : List ℕ
  pub starts_at : ℕ
  pub ends_at : ℕ
  pub freeze_at : Option ℕ

-- `Service.Phase`
unfoldable pub phase : ℕ → Event → Phase
phase now e = if ltb now e.starts_at then pre else if ltb now e.ends_at then running else ended

abbrev frozen_from : ℕ → Option ℕ → Bool
frozen_from now none = false
frozen_from now (some at) = not (ltb now at)

-- `Service.Frozen`
unfoldable pub frozen : ℕ → Event → Bool
frozen now e = frozen_from now e.freeze_at

pub record UpdateInput : Type 0 where
  pub new_name : Option (List ℕ)
  pub new_description : Option (List ℕ)
  pub new_starts_at : Option ℕ
  pub new_ends_at : Option ℕ
  pub set_freeze : Bool
  pub new_freeze_at : Option ℕ

pub data Field : Type 0 where
  ends_at_field freeze_at_field name_field : Field

-- The two calls of `Update` to the database, each of which may fail.
pub data Query : Type 0 where
  gets_event writes_event : Query

pub data UpdateResult : Type 0 where
  updated : Event → UpdateResult
  invalid : List Field → UpdateResult
  failed : Query → UpdateResult
  not_found : UpdateResult

abbrev coalesce {ℓ} : {A : Type ℓ} → Option A → A → A
coalesce none a = a
coalesce (some b) a = b

abbrev bad_freeze : ℕ → ℕ → Option ℕ → Bool
bad_freeze starts ends none = false
bad_freeze starts ends (some at) = not (ltb starts at) || ltb ends at

abbrev bad_name : Option (List ℕ) → Bool
bad_name none = false
bad_name (some n) = ltb (length n) 1 || ltb 200 (length n)

abbrev add_if : Bool → Field → List Field → List Field
add_if b f fs = if b then f ∷ fs else fs

-- The window that an update leads to.
abbrev next_freeze : Event → UpdateInput → Option ℕ
next_freeze cur inp = if inp.set_freeze then inp.new_freeze_at else cur.freeze_at

-- The fields that `Update` rejects, in the order in which it adds them.
unfoldable pub violations : Event → UpdateInput → List Field
violations cur inp =
    let starts = coalesce inp.new_starts_at cur.starts_at in
    let ends = coalesce inp.new_ends_at cur.ends_at in
    let freeze = next_freeze cur inp in
    add_if (not (ltb starts ends)) ends_at_field (
      add_if (bad_freeze starts ends freeze) freeze_at_field
        (add_if (bad_name inp.new_name) name_field []))

-- `UpdateEvent`
abbrev pub apply_update : Event → UpdateInput → Event
apply_update cur inp = record {
  name = coalesce inp.new_name cur.name;
  description = coalesce inp.new_description cur.description;
  starts_at = coalesce inp.new_starts_at cur.starts_at;
  ends_at = coalesce inp.new_ends_at cur.ends_at;
  freeze_at = next_freeze cur inp;
}

abbrev written : (Query → Bool) → Event → UpdateInput → UpdateResult
written faults cur inp =
    if faults writes_event then failed writes_event else updated (apply_update cur inp)

abbrev checked : (Query → Bool) → Event → UpdateInput → List Field → UpdateResult
checked faults cur inp [] = written faults cur inp
checked faults cur inp (f ∷ fs) = invalid (f ∷ fs)

abbrev update_row : (Query → Bool) → Option Event → UpdateInput → UpdateResult
update_row faults none inp = not_found
update_row faults (some cur) inp = checked faults cur inp (violations cur inp)

-- `Service.Update`, on the table's one row; its second part is the row afterwards.
unfoldable pub update : (Query → Bool) → Option Event → UpdateInput → UpdateResult × Option Event
update faults row inp =
    elim (if faults gets_event then failed gets_event else update_row faults row inp) [
      | updated e ↦ (updated e, some e)
      | invalid fs ↦ (invalid fs, row)
      | failed q ↦ (failed q, row)
      | not_found ↦ (not_found, row)
    ]

abbrev day : ℕ
day = 24 * 3600 * 1000000000

-- `Service.EnsureDefault`; the name and the description are the placeholders' texts.
unfoldable pub ensure_default : List ℕ → List ℕ → ℕ → Option Event → Option Event
ensure_default name description now (some e) = some e
ensure_default name description now none = some (record {
  name = name;
  description = description;
  starts_at = now + 7 * day;
  ends_at = now + 9 * day;
  freeze_at = none;
})
