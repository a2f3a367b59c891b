-- ===== src/Events/Tests.antt =====
-- Runs of the event window, and each theorem at a concrete input.
use osctf.Prelude.{◌≡◌, refl, none, some, [], ◌∷◌, Bool, true, false}
use osctf.Events.{
  Event, violations, UpdateInput, update, invalid, freeze_at_field, Query, gets_event, writes_event,
  failed,
}

abbrev finals : Event
finals = record {
  name = 70 ∷ [];
  description = [];
  starts_at = 100;
  ends_at = 200;
  freeze_at = some 180;
}

abbrev extend : UpdateInput
extend = record {
  new_name = none;
  new_description = none;
  new_starts_at = none;
  new_ends_at = some 300;
  set_freeze = false;
  new_freeze_at = none;
}

abbrev answering : Query → Bool
answering q = false

-- Ends before the freeze that stands.
abbrev cut_short : UpdateInput
cut_short = record extend { new_ends_at = some 150 }

cut_short_refused : (update answering (some finals) cut_short).0 ≡ invalid (freeze_at_field ∷ [])
unfolding update violations
cut_short_refused = refl

-- A failing write is an error, and the row stays.
unwritten :
    update (λ q. elim q [ gets_event ↦ false | writes_event ↦ true ]) (some finals) extend
    ≡ (failed writes_event, some finals)
unfolding update violations
unwritten = refl
