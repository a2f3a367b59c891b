-- ===== src/Bus/Tests.antt =====
-- The steps of a subscriber at concrete inputs.
use Prim.Native.String.{String}
use osctf.Prelude.{ℕ, ◌+◌, ◌≤◌, ◌≡◌, refl, Bool, true, false, List, [], ◌∷◌, length}
use osctf.Bus.Subscriber.{
  DomainEvent, new_subscriber, Act, published, receives, returns, cancels, stops, drains, acts, act,
  offer, receive, handler_returns, cancel, stop, drain,
}
use osctf.Bus.Accounts.{Thinned, accepted, offers, acts-new_subscriber}

abbrev event : ℕ → DomainEvent
event n = record { name = "challenge.solved"; id = n ∷ []; occurred_at = n; data_fields = [] }

abbrev all : String → Bool
all name = true

-- Event 2 meets a full queue, and event 3 one that has been read since.
abbrev burst : List Act
burst =
    published (event 1)
    ∷ published (event 2)
    ∷ receives
    ∷ returns false
    ∷ published (event 3)
    ∷ receives
    ∷ returns false
    ∷ []

hole_in_the_middle : (acts 1 (new_subscriber all) burst).handled ≡ event 1 ∷ event 3 ∷ []
unfolding acts act offer receive handler_returns
hole_in_the_middle = refl

-- The handler of event 1 is cut off by the removal, and event 2 is drained.
abbrev removal : List Act
removal =
    published (event 1)
    ∷ receives
    ∷ published (event 2)
    ∷ cancels
    ∷ returns true
    ∷ stops
    ∷ drains
    ∷ []

cut_off_uncounted :
    let s = acts 8 (new_subscriber all) removal in
    (s.delivery_drops ≡ []) × (s.shutdown_drops ≡ event 2 ∷ [])
unfolding acts act offer receive handler_returns cancel stop drain
cut_off_uncounted = (refl, refl)

acts-new_subscriber_example :
    let s = acts 1 (new_subscriber all) burst in
    let offered = offers all [] burst in
    (length s.queue ≤ 1)
    × (Thinned (accepted s) offered)
    × (length offered ≡ length (accepted s) + length s.backpressure_drops)
acts-new_subscriber_example = acts-new_subscriber 1 all burst
