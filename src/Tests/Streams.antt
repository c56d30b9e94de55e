-- ===== src/Tests/Streams.antt =====
-- Concrete histories of events: internal/events/events.go.
use adro.Prelude.{
  ℕ, ◌≡◌, ◌≢◌, refl, true, false, [], ◌∷◌, List, String, none, some, All, str_eq, eq_iff, arith,
  map, keep, inl, inr, if◌then◌else◌, Bool-cases,
}
use adro.Prelude.Int.{pos, add64}
use adro.Prelude.Text.{trim_space, ◌<>◌, is_blank}
use adro.Prelude.Assoc.{lookup, lookup_or}
use text.Mathlib.TextLemmas.{append-eq-nil_iff}
use adro.Events.Envelope.{
  Envelope, Encoding, EncodesAll, payload_hash, envelope_hash, clone_envelope,
}
use adro.Events.History.{knows, traced, merge_peer_events, validate_persisted_events}
use adro.Events.Chain.{IsSealed, IsHistory}
use adro.Events.Merge.{IsOurs, IsMerge, committed_events_survive}
use adro.Events.Bus.{Bus, World, Io, io_failed, event_ids}
use adro.Events.Bus.Publish.{publish}
use adro.Events.Bus.Replay.{of_aggregate}
use adro.Events.Bus.Pages.{HasDistinctIds, read_all, pages_cover_stream}
use adro.Events.Bus.Sound.{IsIndexed, IsSound, publish_keeps_history}
use adro.Events.Bus.Consumer.{ack, ack_loaded, write_ack, position}
use adro.Events.Bus.File.{reload_locked}
use adro.Events.Bus.Acks.{ack_start, IsAhead, ack_moves_forward, ack_error_keeps}

-- Envelopes encode to their IDs, and the digest is the text.
abbrev pub enc : Encoding
enc = record {
  marshal_payload = λ p. some "p";
  unmarshal_payload = λ s. some none;
  marshal_envelope = λ e. some e.event_id;
  sha256_hex = λ s. s;
  trace_valid = λ parent state. true;
}

false≢true : false ≢ true
false≢true h = ground arith

prefixed : (s : String) → str_eq ("sha256:" <> s) "" ≡ false
unfolding ◌<>◌
prefixed s = elim (Bool-cases (str_eq ("sha256:" <> s) "")) [
  | inr named ↦ named
  | inl blank ↦
      let empty =
        (append-eq-nil_iff {p = "sha256:"} {q = s}).0 ((eq_iff ("sha256:" <> s) "").0 blank) in
      absurd (false≢true ((eq_iff "sha256:" "").1 empty.0))
]

encodes : EncodesAll enc
unfolding envelope_hash
encodes e dated h = prefixed e.event_id

abbrev pub event : String → ℕ → String → Envelope
event id n previous = record {
  event_id = id;
  schema_version = pos 1;
  sequence = pos n;
  event_type = "run.finished";
  aggregate_type = "run";
  aggregate_id = "r1";
  aggregate_version = pos 1;
  tenant_id = "t";
  workspace_id = "w";
  correlation_id = "r1";
  causation_id = "";
  trace_parent = "";
  trace_state = "";
  provider = "";
  provider_event_id = "";
  occurred_at = 100;
  classification = "internal";
  payload_hash = "sha256:p";
  previous_hash = previous;
  envelope_hash = "";
  payload = none;
}

abbrev pub first : Envelope
first = record (event "a" 1 "") { envelope_hash = "sha256:a" }

abbrev pub second : Envelope
second = record (event "b" 2 "sha256:a") { envelope_hash = "sha256:b" }

abbrev pub bus : Bus
bus = record {
  state_path = "";
  events = first ∷ second ∷ [];
  seen = "a" ∷ "b" ∷ [];
  seen_provider = [];
  subscribers = [];
  next_sub_id = 0;
  revision = pos 0;
  acks = ("c", "a") ∷ [];
  delivery_attempts = [];
  retention = record { max_events = pos 2; max_age = pos 0 };
}

abbrev world : World
world = record { bus = bus; file = none }

IsSealed-first : IsSealed enc first
unfolding payload_hash envelope_hash traced is_blank ◌<>◌
IsSealed-first = record {
  identified = refl;
  schema = refl;
  traces = refl;
  payload = refl;
  whole = refl;
  hashed = refl;
}

IsSealed-second : IsSealed enc second
unfolding payload_hash envelope_hash traced is_blank ◌<>◌
IsSealed-second = record {
  identified = refl;
  schema = refl;
  traces = refl;
  payload = refl;
  whole = refl;
  hashed = refl;
}

pub history : IsHistory enc 1 bus.events
unfolding knows
history = record {
  positive = omega arith;
  fits = omega arith;
  chain = (IsSealed-first, refl, refl, tt, (IsSealed-second, refl, refl, refl, tt));
}

indexed : IsIndexed bus
unfolding event_ids
indexed id = refl

distinct : HasDistinctIds bus.events
unfolding knows event_ids
distinct = (refl, refl, (refl, refl, tt))

pages_cover_stream_example :
    read_all enc 3 "r1" "" (pos 1) bus
    ≡ some (map (clone_envelope enc) (keep (of_aggregate "r1") bus.events))
pages_cover_stream_example = pages_cover_stream enc "r1" (pos 1) bus distinct

-- The third event pushes the first out.
publish_keeps_history_example :
    let after = (publish enc Io.done 200 "new" (λ n. "hint") (event "c" 0 "") world).0.bus in
    IsSound enc after × (validate_persisted_events enc after.events ≡ (after.events, none))
unfolding is_blank traced
publish_keeps_history_example =
    publish_keeps_history enc Io.done 200 "new" (λ n. "hint") (event "c" 0 "") world 1 encodes refl
      history indexed (omega arith) (omega arith) refl refl

ours : All (IsOurs enc) (second ∷ event "d" 3 "x" ∷ [])
unfolding is_blank traced
ours = (
  record { identified = refl; schema = refl; dated = omega arith; traces = refl },
  (record { identified = refl; schema = refl; dated = omega arith; traces = refl }, tt),
)

stable : All (λ e. clone_envelope enc e ≡ e) bus.events
unfolding clone_envelope
stable = (refl, (refl, tt))

abbrev merged : List Envelope
merged = first ∷ second ∷ record (event "d" 3 "sha256:b") { envelope_hash = "sha256:d" } ∷ []

merges : merge_peer_events enc bus.events (second ∷ event "d" 3 "x" ∷ []) ≡ some merged
unfolding merge_peer_events ◌<>◌ add64
merges = refl

committed_events_survive_example : IsMerge enc bus.events (second ∷ event "d" 3 "x" ∷ []) merged
committed_events_survive_example =
    committed_events_survive enc 1 bus.events (second ∷ event "d" 3 "x" ∷ []) merged encodes history
      stable ours (omega arith) merges

-- Another process has written the file.
abbrev shared : World
shared = record {
  bus = record bus { state_path = "events.json" };
  file = some record {
    revision = pos 1;
    events = bus.events;
    acks = ("d", "b") ∷ [];
    delivery_attempts = [];
    retention = bus.retention;
  };
}

abbrev reloaded : Bus
reloaded = (reload_locked enc Io.done shared).0.bus

acknowledges : (ack enc Io.done Io.done "c " "b" shared).1 ≡ none
unfolding ack reload_locked validate_persisted_events ack_loaded write_ack lookup_or is_blank
    trim_space traced payload_hash envelope_hash ◌<>◌ add64
acknowledges = refl

ack_moves_forward_example :
    ((index : ℕ) × (position "b" reloaded.events ≡ some index) × IsAhead reloaded "c" index)
    × ((other : String)
        → lookup other (ack enc Io.done Io.done "c " "b" shared).0.bus.acks
          ≡ (if str_eq "c" other then some "b" else lookup other reloaded.acks))
unfolding trim_space
ack_moves_forward_example = ack_moves_forward enc Io.done Io.done "c " "b" shared refl acknowledges

-- The file cannot be written.
unwritten : (ack enc Io.done Io.unwritten "c" "b" shared).1 ≡ some io_failed
unfolding ack reload_locked validate_persisted_events ack_loaded write_ack lookup_or is_blank
    trim_space traced payload_hash envelope_hash ◌<>◌ add64
unwritten = refl

ack_error_keeps_example :
    lookup_or "" "c" (ack enc Io.done Io.unwritten "c" "b" shared).0.bus.acks
    ≡ lookup_or "" "c" (ack_start enc Io.done "c" "b" shared).bus.acks
ack_error_keeps_example =
    ack_error_keeps enc Io.done Io.unwritten "c" "b" "c" shared io_failed refl unwritten
