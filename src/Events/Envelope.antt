-- ===== src/Events/Envelope.antt =====
-- The event envelope and its hashes: internal/events/events.go.
use adro.Prelude.{◌<◌, String, Option, none, some, Bool, false, ◌≡◌, arith, str_eq}
use adro.Prelude.Int.{ℤ, pos}
use adro.Prelude.Text.{◌<>◌}
use adro.Orchestration.Value.{Fields}
use adro.Orchestration.Projection.{Time}

-- A nil payload is `none`.
pub record Envelope : Type 0 where
  pub event_id : String
  pub schema_version : ℤ
  pub sequence : ℤ
  pub event_type : String
  pub aggregate_type : String
  pub aggregate_id : String
  pub aggregate_version : ℤ
  pub tenant_id : String
  pub workspace_id : String
  pub correlation_id : String
  pub causation_id : String
  pub trace_parent : String
  pub trace_state : String
  pub provider : String
  pub provider_event_id : String
  pub occurred_at : Time
  pub classification : String
  pub payload_hash : String
  pub previous_hash : String
  pub envelope_hash : String
  pub payload : Option Fields

-- What the bus takes from encoding/json and crypto/sha256, and `ParseTraceParent` of
-- internal/telemetry as a test. An encoding that fails is `none`.
pub record Encoding : Type 0 where
  pub marshal_payload : Option Fields → Option String
  pub unmarshal_payload : String → Option (Option Fields)
  pub marshal_envelope : Envelope → Option String
  pub sha256_hex : String → String
  pub trace_valid : String → String → Bool

digest : Encoding → Option String → String
digest enc none = ""
digest enc (some encoded) = "sha256:" <> enc.sha256_hex encoded

unfoldable pub payload_hash : Encoding → Option Fields → String
unfolding digest
payload_hash enc payload = digest enc (enc.marshal_payload payload)

unfoldable pub envelope_hash : Encoding → Envelope → String
unfolding digest
envelope_hash enc e = digest enc (enc.marshal_envelope (record e { envelope_hash = "" }))

unfoldable pub clone_envelope : Encoding → Envelope → Envelope
clone_envelope enc e = elim e.payload [
  | none ↦ e
  | some payload ↦ elim (enc.marshal_payload (some payload)) [
    | none ↦ e
    | some encoded ↦ elim (enc.unmarshal_payload encoded) [
      | none ↦ e
      | some copy ↦ record e { payload = copy }
    ]
  ]
]

-- `New`, with the new ID and the time that it reads.
unfoldable pub new_envelope :
    Encoding
    → String
    → Time
    → (event_type aggregate_type aggregate_id tenant workspace : String) → ℤ
    → Option Fields
    → Envelope
unfolding payload_hash envelope_hash
new_envelope enc id now event_type aggregate_type aggregate_id tenant workspace version payload =
    let e : Envelope = record {
      event_id = id;
      schema_version = pos 1;
      sequence = pos 0;
      event_type = event_type;
      aggregate_type = aggregate_type;
      aggregate_id = aggregate_id;
      aggregate_version = version;
      tenant_id = tenant;
      workspace_id = workspace;
      correlation_id = aggregate_id;
      causation_id = "";
      trace_parent = "";
      trace_state = "";
      provider = "";
      provider_event_id = "";
      occurred_at = now;
      classification = "internal";
      payload_hash = payload_hash enc payload;
      previous_hash = "";
      envelope_hash = "";
      payload = payload;
    } in
    record e { envelope_hash = envelope_hash enc e }

-- The start of the year 10000, the first that the JSON text of a time cannot have, in nanoseconds
-- after Go's zero time.
abbrev pub year_10000 : Time
year_10000 = 315537897600000000000

-- An envelope whose payload has a hash and whose time is before the year 10000 encodes.
abbrev pub EncodesAll : Encoding → Type 0
EncodesAll enc =
    (e : Envelope)
    → e.occurred_at < year_10000
    → str_eq (payload_hash enc e.payload) "" ≡ false
    → str_eq (envelope_hash enc e) "" ≡ false

pub clone_fields :
    (enc : Encoding) (x : Envelope)
    → clone_envelope enc x ≡ record x { payload = (clone_envelope enc x).payload }
unfolding clone_envelope
clone_fields enc x = ground arith
