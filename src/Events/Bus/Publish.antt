-- ===== src/Events/Bus/Publish.antt =====
-- `Publish` and `Subscribe` of internal/events/events.go.
use adro.Prelude.{
  ℕ, suc, Bool, not, ◌&&◌, ◌||◌, String, str_eq, List, [], ◌∷◌, ◌++◌, Option, none, some,
  if◌then◌else◌, length, ltb, find, keep, ◌==◌, is_empty,
}
use adro.Prelude.Int.{ℤ, pos, add64, eqb_ℤ, is_pos, pos_part}
use adro.Orchestration.Projection.{Time}
use adro.Orchestration.Value.{Value}
use adro.Events.Envelope.{Envelope, Encoding, payload_hash, envelope_hash, clone_envelope}
use adro.Events.History.{max_sequence, last_hash, knows, fill_schema}
use adro.Events.Bus.{
  StreamGap, no_gap, Subscriber, Bus, World, BusError, unsupported_schema, not_encodable,
  payload_mismatch, envelope_mismatch, Io, provider_key, has_provider, rebuild_seen, prune_locked,
}
use adro.Events.Bus.File.{persist_locked}

pub data Admission : Type 0 where
  admitted : Envelope → Admission
  rejected : BusError → Admission

-- A copy of the event with an ID and a version. `fresh` is the ID that `domain.NewID` gives.
unfoldable pub prepare : Encoding → String → Envelope → Envelope
unfolding clone_envelope
prepare enc fresh event = fill_schema (
    clone_envelope enc
      (if str_eq event.event_id "" then record event { event_id = fresh } else event))

-- The tests of `Publish` on the event alone.
unfoldable pub admit : Encoding → String → Envelope → Admission
unfolding prepare payload_hash envelope_hash
admit enc fresh event =
    let e = prepare enc fresh event in
    let computed = payload_hash enc e.payload in
    let hashed : Envelope = record e { payload_hash = computed } in
    if not (eqb_ℤ e.schema_version (pos 1))
    then rejected unsupported_schema
    else if str_eq computed ""
    then rejected not_encodable
    else if not (str_eq e.payload_hash "") && not (str_eq e.payload_hash computed)
    then rejected payload_mismatch
    else if not (str_eq hashed.envelope_hash "")
        && not (str_eq hashed.envelope_hash (envelope_hash enc hashed))
    then rejected envelope_mismatch
    else admitted hashed

-- The event has been published before, under its ID or its provider's.
unfoldable pub is_duplicate : Bus → Envelope → Bool
unfolding knows has_provider
is_duplicate b e =
    knows e.event_id b.seen || (has_provider e && knows (provider_key e) b.seen_provider)

-- The event in its place after the history.
unfoldable pub place : Encoding → List Envelope → Envelope → Envelope
unfolding max_sequence envelope_hash
place enc events e =
    let placed : Envelope = record e {
      sequence = add64 (max_sequence events) (pos 1);
      previous_hash = if is_empty events then e.previous_hash else last_hash "" events;
    } in
    record placed { envelope_hash = envelope_hash enc placed }

unfoldable pub append_event : Encoding → Envelope → Bus → Bus
unfolding place has_provider
append_event enc e b = record b {
  events = b.events ++ place enc b.events e ∷ [];
  seen = e.event_id ∷ b.seen;
  seen_provider = if has_provider e then provider_key e ∷ b.seen_provider else b.seen_provider;
}

unfoldable pub has_room : Subscriber → Bool
has_room s = ltb (length s.queue) s.buffer

abbrev pub push : Envelope → Subscriber → Subscriber
push e s = record s { queue = s.queue ++ e ∷ [] }

-- The hint that a subscriber is sent before the first event after a gap.
unfoldable pub gap_event : Encoding → String → Time → StreamGap → Envelope
unfolding payload_hash envelope_hash
gap_event enc fresh now gap =
    let payload = some (
      ("dropped_count", Value.int64 gap.count)
      ∷ ("from_sequence", Value.int64 gap.from)
      ∷ ("to_sequence", Value.int64 gap.to)
      ∷ []) in
    let e : Envelope = record {
      event_id = fresh;
      schema_version = pos 0;
      sequence = gap.from;
      event_type = "stream.gap.v1";
      aggregate_type = "stream";
      aggregate_id = gap.aggregate_id;
      aggregate_version = pos 0;
      tenant_id = gap.tenant_id;
      workspace_id = gap.workspace_id;
      correlation_id = gap.correlation_id;
      causation_id = "";
      trace_parent = "";
      trace_state = "";
      provider = "";
      provider_event_id = "";
      occurred_at = now;
      classification = "system";
      payload_hash = payload_hash enc payload;
      previous_hash = "";
      envelope_hash = "";
      payload = payload;
    } in
    record e { envelope_hash = envelope_hash enc e }

-- One more event is missed.
unfoldable pub widen : Envelope → StreamGap → StreamGap
widen e gap =
    let counted : StreamGap = record gap { count = add64 gap.count (pos 1); to = e.sequence } in
    if eqb_ℤ gap.from (pos 0)
    then record counted {
      from = e.sequence;
      tenant_id = e.tenant_id;
      workspace_id = e.workspace_id;
      aggregate_id = e.aggregate_id;
      correlation_id = e.correlation_id;
    }
    else counted

unfoldable pub offer_event : Encoding → Envelope → Subscriber → Subscriber
unfolding has_room clone_envelope widen
offer_event enc e s =
    if has_room s then push (clone_envelope enc e) s else record s { gap = widen e s.gap }

-- `fresh` is the ID of the hint, if one is sent.
unfoldable pub notify : Encoding → String → Time → Envelope → Subscriber → Subscriber
unfolding has_room gap_event offer_event
notify enc fresh now e s =
    if is_pos s.gap.count
    then if has_room s
      then offer_event enc e
          (record s { queue = s.queue ++ gap_event enc fresh now s.gap ∷ []; gap = no_gap })
      else record s { gap = record s.gap { count = add64 s.gap.count (pos 1); to = e.sequence } }
    else offer_event enc e s

-- The event as the history has it: the merge may have given it another place.
unfoldable pub retained : Encoding → Envelope → List Envelope → Envelope
unfolding clone_envelope
retained enc e events = elim (find (λ r. str_eq r.event_id e.event_id) events) [
  | none ↦ e
  | some r ↦ clone_envelope enc r
]

-- `ids` gives the ID of the hint to a subscriber.
unfoldable pub notify_all :
    Encoding → (ids : ℕ → String) → Time → Envelope → List Subscriber → List Subscriber
unfolding notify
notify_all enc ids now e [] = []
notify_all enc ids now e (s ∷ subscribers) =
    notify enc (ids s.id) now e s ∷ notify_all enc ids now e subscribers

-- What follows the persistence of an event: its announcement, or the return to the events before.
unfoldable pub conclude :
    Encoding
    → (ids : ℕ → String) → Time
    → List Envelope
    → Envelope
    → World × Option BusError
    → World × Option BusError
unfolding rebuild_seen retained notify_all
conclude enc ids now before e (w, none) = (
  record w {
    bus = record w.bus {
      subscribers = notify_all enc ids now (retained enc e w.bus.events) w.bus.subscribers;
    };
  },
  none,
)
conclude enc ids now before e (w, some error) =
    (record w { bus = rebuild_seen (record w.bus { events = before }) }, some error)

unfoldable pub publish :
    Encoding → Io → Time → String → (ids : ℕ → String) → Envelope → World → World × Option BusError
unfolding admit is_duplicate append_event prune_locked persist_locked conclude place
publish enc io now fresh ids event w = elim (admit enc fresh event) [
  | rejected error ↦ (w, some error)
  | admitted e ↦
      if is_duplicate w.bus e
      then (w, none)
      else conclude enc ids now w.bus.events (place enc w.bus.events e)
          (persist_locked enc io (record w { bus = prune_locked now (append_event enc e w.bus) }))
]

-- `Subscribe`, and the function that it returns
unfoldable pub subscribe : ℤ → Bus → Bus × ℕ
subscribe buffer b = (
  record b {
    subscribers =
        record {
          id = b.next_sub_id;
          buffer = if is_pos buffer then pos_part buffer else 16;
          queue = [];
          gap = no_gap;
        }
        ∷ b.subscribers;
    next_sub_id = suc b.next_sub_id;
  },
  b.next_sub_id,
)

unfoldable pub unsubscribe : ℕ → Bus → Bus
unsubscribe id b = record b { subscribers = keep (λ s. not (s.id == id)) b.subscribers }
