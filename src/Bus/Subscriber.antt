-- ===== src/Bus/Subscriber.antt =====
-- A subscriber of internal/events/bus.go, in the steps that its goroutine, the publishers and its
-- removal take. A publisher sends to the subscribers that it found when it began, so that it may
-- still send to one that is removed. Each counter of dropped deliveries keeps its events.
use Prim.Native.String.{String}
use osctf.Prelude.{
  ℕ, Bool, true, false, ◌&&◌, not, Option, none, some, List, [], ◌∷◌, ◌++◌, if◌then◌else◌, ltb,
  length,
}
use osctf.Submissions.Store.{Text}

-- `Event`
pub record DomainEvent : Type 0 where
  pub name : String
  pub id : Text
  pub occurred_at : ℕ
  pub data_fields : List (Text × Text)

pub record Subscriber : Type 0 where
  pub wants : String → Bool
  pub queue : List DomainEvent
  pub is_cancelled : Bool  -- its context
  pub in_flight : Option DomainEvent  -- what the handler is at
  pub is_stopped : Bool  -- its goroutine
  pub handled : List DomainEvent
  pub backpressure_drops : List DomainEvent
  pub shutdown_drops : List DomainEvent
  pub delivery_drops : List DomainEvent

-- `Subscribe`
abbrev pub new_subscriber : (String → Bool) → Subscriber
new_subscriber wants = record {
  wants = wants;
  queue = [];
  is_cancelled = false;
  in_flight = none;
  is_stopped = false;
  handled = [];
  backpressure_drops = [];
  shutdown_drops = [];
  delivery_drops = [];
}

-- The send of `Publish` to one subscriber.
unfoldable pub offer : ℕ → DomainEvent → Subscriber → Subscriber
offer depth e s =
    if not (s.wants e.name)
    then s
    else if ltb (length s.queue) depth
    then record s { queue = s.queue ++ e ∷ [] }
    else record s { backpressure_drops = s.backpressure_drops ++ e ∷ [] }

-- `Publish`
unfoldable publish_event : ℕ → DomainEvent → List Subscriber → List Subscriber
publish_event depth e [] = []
publish_event depth e (s ∷ subs) = offer depth e s ∷ publish_event depth e subs

abbrev pub receive_from : Subscriber → List DomainEvent → Subscriber
receive_from s [] = s
receive_from s (e ∷ queue) =
    if s.is_cancelled
    then record s { queue = queue; shutdown_drops = s.shutdown_drops ++ e ∷ []; is_stopped = true }
    else record s { queue = queue; in_flight = some e }

abbrev pub is_idle : Option DomainEvent → Bool
is_idle none = true
is_idle (some e) = false

-- The branch of the loop of `run` that receives, when the goroutine is not at a delivery.
unfoldable pub receive : Subscriber → Subscriber
receive s = if not s.is_stopped && is_idle s.in_flight then receive_from s s.queue else s

abbrev pub returned : Bool → Subscriber → Option DomainEvent → Subscriber
returned fails s none = s
returned fails s (some e) = record s {
  in_flight = none;
  handled = s.handled ++ e ∷ [];
  delivery_drops =
      if fails && not s.is_cancelled then s.delivery_drops ++ e ∷ [] else s.delivery_drops;
}

-- The handler returns.
unfoldable pub handler_returns : Bool → Subscriber → Subscriber
handler_returns fails s = returned fails s s.in_flight

-- The branch of the loop of `run` on the end of the context.
unfoldable pub stop : Subscriber → Subscriber
stop s = if s.is_cancelled && is_idle s.in_flight then record s { is_stopped = true } else s

-- `s.cancel()` of `remove`.
unfoldable pub cancel : Subscriber → Subscriber
cancel s = record s { is_cancelled = true }

-- The loop of `remove`, once the goroutine has returned.
unfoldable pub drain : Subscriber → Subscriber
drain s =
    if s.is_stopped
    then record s { queue = []; shutdown_drops = s.shutdown_drops ++ s.queue }
    else s

-- What happens to a subscriber.
pub data Act : Type 0 where
  published : DomainEvent → Act
  receives cancels stops drains : Act
  returns : Bool → Act

unfoldable pub act : ℕ → Act → Subscriber → Subscriber
act depth (published e) s = offer depth e s
act depth receives s = receive s
act depth cancels s = cancel s
act depth stops s = stop s
act depth drains s = drain s
act depth (returns fails) s = handler_returns fails s

-- Any sequence of them.
unfoldable pub acts : ℕ → Subscriber → List Act → Subscriber
acts depth s [] = s
acts depth s (a ∷ rest) = acts depth (act depth a s) rest
