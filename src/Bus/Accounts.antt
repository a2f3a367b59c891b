-- ===== src/Bus/Accounts.antt =====
-- Every event that is published to a subscriber of internal/events/bus.go is accounted for, and the
-- accepted ones keep their order.
use Prim.Native.String.{String}
use mathlib.Core.List.{append_assoc, append-nil}
use osctf.Prelude.{
  ℕ, ◌+◌, ◌≤◌, ◌≡◌, inl, inr, refl, sym, ap, ◌∙◌, Bool, true, false, ◌&&◌, ◌||◌, not, Option, none,
  some, List, [], ◌∷◌, ◌++◌, arith, if◌then◌else◌, ltb, length, length-append, Bool-cases,
}
use osctf.Bus.Subscriber.{
  DomainEvent, Subscriber, new_subscriber, offer, receive, receive_from, is_idle, handler_returns,
  returned, stop, cancel, drain, Act, published, receives, cancels, stops, drains, returns, act,
  acts,
}

module _ {ℓ} {A : Type ℓ} where
  -- A list is another one less some of its elements, in the same order.
  pub data Thinned : List A → List A → Type ℓ where
    nothing : Thinned [] []
    keeps : {xs ys : List A} (x : A) → Thinned xs ys → Thinned (xs ++ x ∷ []) (ys ++ x ∷ [])
    drops : {xs ys : List A} (x : A) → Thinned xs ys → Thinned xs (ys ++ x ∷ [])

abbrev flying : Option DomainEvent → List DomainEvent
flying none = []
flying (some e) = e ∷ []

-- What was accepted: handled, at the handler, dropped in the removal, or still queued.
abbrev pub accepted : Subscriber → List DomainEvent
accepted s = s.handled ++ (flying s.in_flight ++ (s.shutdown_drops ++ s.queue))

abbrev is_empty : List DomainEvent → Bool
is_empty [] = true
is_empty (e ∷ es) = false

pub record Accounted (depth : ℕ) (offered : List DomainEvent) (s : Subscriber) : Type 0 where
  pub bounded : length s.queue ≤ depth
  pub in_order : Thinned (accepted s) offered
  pub counted : length offered ≡ length (accepted s) + length s.backpressure_drops
  pub not_early : s.is_cancelled || is_empty s.shutdown_drops ≡ true
  pub not_stopped : s.is_cancelled || not s.is_stopped ≡ true

-- The events of a sequence that the subscriber wants.
abbrev offered_to : (String → Bool) → List DomainEvent → Act → List DomainEvent
offered_to wants offered (published e) = if wants e.name then offered ++ e ∷ [] else offered
offered_to wants offered _ = offered

abbrev pub offers : (String → Bool) → List DomainEvent → List Act → List DomainEvent
offers wants offered [] = offered
offers wants offered (a ∷ rest) = offers wants (offered_to wants offered a) rest

append_last :
    (h f d q : List DomainEvent) (e : DomainEvent)
    → h ++ (f ++ (d ++ (q ++ e ∷ []))) ≡ h ++ (f ++ (d ++ q)) ++ e ∷ []
append_last h f d q e =
    ap (λ x. h ++ (f ++ x)) (sym (append_assoc d q (e ∷ [])))
    ∙ ap (λ x. h ++ x) (sym (append_assoc f (d ++ q) (e ∷ [])))
    ∙ sym (append_assoc h (f ++ (d ++ q)) (e ∷ []))

offer-Accounted :
    (depth : ℕ) (offered : List DomainEvent) (s : Subscriber) (e : DomainEvent)
    → Accounted depth offered s
    → Accounted depth (offered_to s.wants offered (published e)) (offer depth e s)
unfolding offer
offer-Accounted depth offered s e a = elim (Bool-cases (s.wants e.name)) [
  | inr w ↦ rw w a
  | inl w ↦ elim (Bool-cases (ltb (length s.queue) depth)) [
    | inr f ↦
        rw (w, f)
          (record {
            bounded = a.bounded;
            in_order = drops e a.in_order;
            counted = omega (
              arith,
              a.counted,
              length-append offered (e ∷ []),
              length-append s.backpressure_drops (e ∷ []),
            );
            not_early = a.not_early;
            not_stopped = a.not_stopped;
          })
    | inl f ↦
        let last = append_last s.handled (flying s.in_flight) s.shutdown_drops s.queue e in
        rw (w, f)
          (record {
            bounded = ground (arith, f, length-append s.queue (e ∷ []));
            in_order = rw last (keeps e a.in_order);
            counted = rw last (
                omega (
                  arith,
                  a.counted,
                  length-append offered (e ∷ []),
                  length-append (accepted s) (e ∷ []),
                ));
            not_early = a.not_early;
            not_stopped = a.not_stopped;
          })
  ]
]

-- A step after which the same events are accepted, in the same order.
same-Accounted :
    (depth : ℕ) (offered : List DomainEvent) (s t : Subscriber)
    → Accounted depth offered s
    → accepted t ≡ accepted s
    → length t.queue ≤ length s.queue
    → t.backpressure_drops ≡ s.backpressure_drops
    → t.is_cancelled || is_empty t.shutdown_drops ≡ true
    → t.is_cancelled || not t.is_stopped ≡ true
    → Accounted depth offered t
same-Accounted depth offered s t a same short b early stopped = record {
  bounded = omega (arith, a.bounded, short);
  in_order = rw same a.in_order;
  counted = rw (same, b) a.counted;
  not_early = early;
  not_stopped = stopped;
}

if_split :
    {A : Type 0} (P : A → Type 0) (b : Bool) {x y : A}
    → (b ≡ true → P x)
    → (b ≡ false → P y)
    → P (if b then x else y)
if_split P true h k = h refl
if_split P false h k = k refl

empty_eq : (es : List DomainEvent) → is_empty es ≡ true → es ≡ []
empty_eq [] h = refl
empty_eq (e ∷ es) h = cc

receive_from-Accounted :
    (depth : ℕ) (offered : List DomainEvent) (s : Subscriber) (queue : List DomainEvent)
    → Accounted depth offered s
    → s.in_flight ≡ none
    → s.queue ≡ queue
    → Accounted depth offered (receive_from s queue)
receive_from-Accounted depth offered s [] a idle q = a
receive_from-Accounted depth offered s (e ∷ queue) a idle q =
    if_split (Accounted depth offered) s.is_cancelled
      (λ c.
        let after : Subscriber = record s {
          queue = queue;
          shutdown_drops = s.shutdown_drops ++ e ∷ [];
          is_stopped = true;
        } in
        same-Accounted depth offered s after a
          (ap (λ x. s.handled ++ (flying s.in_flight ++ x))
            (append_assoc s.shutdown_drops (e ∷ []) queue
              ∙ ap (λ x. s.shutdown_drops ++ x) (sym q)))
          (ground (arith, ap length q)) refl (ground (arith, c)) (ground (arith, c)))
      (λ c.
        let none_dropped : s.shutdown_drops ≡ [] =
          empty_eq s.shutdown_drops (ground (arith, c, a.not_early)) in
        same-Accounted depth offered s (record s { queue = queue; in_flight = some e }) a
          (ap (λ x. s.handled ++ x)
            (ap (λ x. e ∷ (x ++ queue)) none_dropped
              ∙ sym q
              ∙ sym (ap (λ x. x ++ s.queue) none_dropped)
              ∙ sym (ap (λ x. flying x ++ (s.shutdown_drops ++ s.queue)) idle)))
          (ground (arith, ap length q)) refl a.not_early a.not_stopped)

idle_none : (o : Option DomainEvent) → is_idle o ≡ true → o ≡ none
idle_none none h = refl
idle_none (some e) h = cc

returned-Accounted :
    (depth : ℕ) (offered : List DomainEvent) (fails : Bool) (s : Subscriber)
    (o : Option DomainEvent)
    → Accounted depth offered s
    → s.in_flight ≡ o
    → Accounted depth offered (returned fails s o)
returned-Accounted depth offered fails s none a f = a
returned-Accounted depth offered fails s (some e) a f =
    same-Accounted depth offered s (returned fails s (some e)) a
      (append_assoc s.handled (e ∷ []) (s.shutdown_drops ++ s.queue)
        ∙ sym (ap (λ x. s.handled ++ (flying x ++ (s.shutdown_drops ++ s.queue))) f))
      (omega arith) refl a.not_early a.not_stopped

act-Accounted :
    (depth : ℕ) (offered : List DomainEvent) (s : Subscriber) (a : Act)
    → Accounted depth offered s
    → Accounted depth (offered_to s.wants offered a) (act depth a s)
unfolding act receive handler_returns stop cancel drain
act-Accounted depth offered s (published e) h = offer-Accounted depth offered s e h
act-Accounted depth offered s receives h =
    if_split (Accounted depth offered) (not s.is_stopped && is_idle s.in_flight)
      (λ b.
        receive_from-Accounted depth offered s s.queue h (idle_none s.in_flight (ground (arith, b)))
          refl)
      (λ b. h)
act-Accounted depth offered s cancels h =
    same-Accounted depth offered s (record s { is_cancelled = true }) h refl (omega arith) refl refl
      refl
act-Accounted depth offered s stops h =
    if_split (Accounted depth offered) (s.is_cancelled && is_idle s.in_flight)
      (λ b.
        same-Accounted depth offered s (record s { is_stopped = true }) h refl (omega arith) refl
          (ground (arith, b)) (ground (arith, b)))
      (λ b. h)
act-Accounted depth offered s drains h =
    if_split (Accounted depth offered) s.is_stopped
      (λ b.
        same-Accounted depth offered s
          (record s { queue = []; shutdown_drops = s.shutdown_drops ++ s.queue }) h
          (ap (λ x. s.handled ++ (flying s.in_flight ++ x))
            (append-nil (s.shutdown_drops ++ s.queue)))
          (omega arith) refl (ground (arith, b, h.not_stopped)) (ground (arith, b, h.not_stopped)))
      (λ b. h)
act-Accounted depth offered s (returns fails) h =
    returned-Accounted depth offered fails s s.in_flight h refl

act-wants : (depth : ℕ) (a : Act) (s : Subscriber) → (act depth a s).wants ≡ s.wants
unfolding act offer receive handler_returns stop cancel drain
act-wants depth (published e) s = ground arith
act-wants depth receives s = from s.queue
  where
    from :
        (queue : List DomainEvent)
        → (if not s.is_stopped && is_idle s.in_flight then receive_from s queue else s).wants
          ≡ s.wants
    from [] = ground arith
    from (e ∷ queue) = ground arith
act-wants depth cancels s = refl
act-wants depth stops s = ground arith
act-wants depth drains s = ground arith
act-wants depth (returns fails) s = from s.in_flight
  where
    from : (o : Option DomainEvent) → (returned fails s o).wants ≡ s.wants
    from none = refl
    from (some e) = refl

acts-Accounted :
    (depth : ℕ) (wants : String → Bool) (offered : List DomainEvent) (s : Subscriber)
    (steps : List Act)
    → s.wants ≡ wants
    → Accounted depth offered s
    → Accounted depth (offers wants offered steps) (acts depth s steps)
unfolding acts
acts-Accounted depth wants offered s [] e h = h
acts-Accounted depth wants offered s (a ∷ rest) e h =
    acts-Accounted depth wants (offered_to wants offered a) (act depth a s) rest
      (act-wants depth a s ∙ e) (rw (← e) (act-Accounted depth offered s a h))

-- Whatever a new subscriber of the event bus meets (publications, receptions, returns of the
-- handler, failing or not, and the steps of its removal, in any order), its queue stays within
-- its depth, the events that it accepted (handled, at the handler, drained, queued) are the ones
-- offered to it less some, in the same order, and every offered event that is not among them is
-- counted as dropped for backpressure.
pub acts-new_subscriber :
    (depth : ℕ) (wants : String → Bool) (steps : List Act)
    → let s = acts depth (new_subscriber wants) steps in
      let offered = offers wants [] steps in
      (length s.queue ≤ depth)
      × (Thinned (accepted s) offered)
      × (length offered ≡ length (accepted s) + length s.backpressure_drops)
acts-new_subscriber depth wants steps =
    let h = acts-Accounted depth wants [] (new_subscriber wants) steps refl (record {
      bounded = omega arith;
      in_order = nothing;
      counted = refl;
      not_early = refl;
      not_stopped = refl;
    }) in
    (h.bounded, h.in_order, h.counted)
