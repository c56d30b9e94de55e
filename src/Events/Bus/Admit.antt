-- ===== src/Events/Bus/Admit.antt =====
-- What an event has passed that `Publish` of internal/events/events.go takes.
use adro.Prelude.{
  ◌≡◌, ◌≢◌, refl, ap, Bool, true, false, not, ◌&&◌, String, str_eq, arith, if◌then◌else◌,
}
use adro.Prelude.Int.{ℤ, pos, eqb_ℤ, eq_of_parts}
use mathlib.Core.Path.{subst}
use adro.Events.Envelope.{Envelope, Encoding, clone_envelope, payload_hash, envelope_hash}
use adro.Events.Bus.{BusError}
use adro.Events.Bus.Publish.{admitted, rejected, admit, prepare}

-- The ID that `Publish` gives the event.
abbrev pub published_id : String → Envelope → String
published_id fresh e = if str_eq e.event_id "" then fresh else e.event_id

-- What the tests of `Publish` make of an event.
pub record IsAdmitted (enc : Encoding) (fresh : String) (event e : Envelope) : Type 0 where
  pub named : e.event_id ≡ published_id fresh event
  pub schema : e.schema_version ≡ pos 1
  pub parent : e.trace_parent ≡ event.trace_parent
  pub state : e.trace_state ≡ event.trace_state
  pub dated : e.occurred_at ≡ event.occurred_at
  pub payload : e.payload_hash ≡ payload_hash enc e.payload
  pub encodable : str_eq (payload_hash enc e.payload) "" ≡ false

eqb_ℤ→eq : (a b : ℤ) → eqb_ℤ a b ≡ true → a ≡ b
eqb_ℤ→eq a b h = ground (arith, eq_of_parts a b, h)

-- The copy has the event's fields, but for the ID, the version and the payload.
prepare_fields :
    (enc : Encoding) (fresh : String) (event : Envelope)
    → prepare enc fresh event ≡ record event {
      event_id = published_id fresh event;
      schema_version = (prepare enc fresh event).schema_version;
      payload = (prepare enc fresh event).payload;
    }
unfolding prepare clone_envelope
prepare_fields enc fresh event = ground arith

admitted-injective : (x e : Envelope) → admitted x ≡ admitted e → x ≡ e
admitted-injective x e h = cc

rejected≢admitted : {r : BusError} {e : Envelope} → rejected r ≢ admitted e
rejected≢admitted h = cc

after_tests :
    (a b c d : Bool) (q r s t : BusError) (x e : Envelope)
    → (if a
        then rejected q
        else if b
        then rejected r
        else if c
        then rejected s
        else if d
        then rejected t
        else admitted x)
      ≡ admitted e
    → (not a ≡ true) × (b ≡ false) × (x ≡ e)
after_tests true b c d q r s t x e h = absurd (rejected≢admitted h)
after_tests false true c d q r s t x e h = absurd (rejected≢admitted h)
after_tests false false true d q r s t x e h = absurd (rejected≢admitted h)
after_tests false false false true q r s t x e h = absurd (rejected≢admitted h)
after_tests false false false false q r s t x e h = (refl, refl, admitted-injective x e h)

pub admit-IsAdmitted :
    (enc : Encoding) (fresh : String) (event e : Envelope)
    → admit enc fresh event ≡ admitted e
    → IsAdmitted enc fresh event e
unfolding admit
admit-IsAdmitted enc fresh event e h =
    let p = prepare enc fresh event in
    let computed = payload_hash enc p.payload in
    let hashed : Envelope = record p { payload_hash = computed } in
    let (versioned, encodable, same) =
      after_tests (not (eqb_ℤ p.schema_version (pos 1))) (str_eq computed "")
        (not (str_eq p.payload_hash "") && not (str_eq p.payload_hash computed))
        (not (str_eq hashed.envelope_hash "")
          && not (str_eq hashed.envelope_hash (envelope_hash enc hashed)))
        _ _ _ _ hashed e h in
    subst (IsAdmitted enc fresh event) same record {
      named = ap (λ x. x.event_id) (prepare_fields enc fresh event);
      schema = eqb_ℤ→eq p.schema_version (pos 1) (ground (arith, versioned));
      parent = ap (λ x. x.trace_parent) (prepare_fields enc fresh event);
      state = ap (λ x. x.trace_state) (prepare_fields enc fresh event);
      dated = ap (λ x. x.occurred_at) (prepare_fields enc fresh event);
      payload = refl;
      encodable = encodable;
    }
