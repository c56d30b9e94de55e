-- ===== src/Events/Bus/Subscribers.antt =====
-- What a live subscriber is told of the events that `Publish` of internal/events/events.go sends
-- it: each is in its channel, or is counted by a hint or by the gap that waits.
use adro.Prelude.{
  ℕ, ◌+◌, ◌≤◌, ◌≡◌, Bool, false, String, str_eq, List, [], ◌∷◌, none, some, if◌then◌else◌, length,
}
use adro.Prelude.Int.{pos_part, is_neg}
use adro.Prelude.Assoc.{lookup}
use adro.Orchestration.Projection.{Time}
use adro.Orchestration.Value.{Value}
use adro.Events.Envelope.{Envelope, Encoding}
use adro.Events.Bus.{Subscriber}
use adro.Events.Bus.Publish.{notify}

abbrev pub is_hint : Envelope → Bool
is_hint e = str_eq e.event_type "stream.gap.v1"

-- The number of events that an envelope in a channel stands for: that of a hint is in its payload.
unfoldable pub stands_for : Envelope → ℕ
unfolding lookup
stands_for e =
    if is_hint e
    then elim e.payload [
      | none ↦ 0
      | some fields ↦ elim (lookup "dropped_count" fields) [
        | some (Value.int64 n) ↦ pos_part n
        | _ ↦ 0
      ]
    ]
    else 1

unfoldable pub told : List Envelope → ℕ
unfolding stands_for
told [] = 0
told (e ∷ es) = stands_for e + told es

-- The events that a subscriber has been told of, or will be.
abbrev pub accounted : Subscriber → ℕ
accounted s = told s.queue + pos_part s.gap.count

-- The events are sent one after the other, with no read between them.
unfoldable pub notify_each : Encoding → String → Time → List Envelope → Subscriber → Subscriber
unfolding notify
notify_each enc fresh now [] s = s
notify_each enc fresh now (e ∷ es) s = notify_each enc fresh now es (notify enc fresh now e s)

-- A subscriber with room for the numbers, and no more in its channel than its buffer holds.
pub record IsSteady (s : Subscriber) : Type 0 where
  pub counts : is_neg s.gap.count ≡ false
  pub bounded : length s.queue ≤ s.buffer
