-- ===== src/Events/Chain.antt =====
-- The hash chain of the events, and what `validatePersistedEvents` of internal/events/events.go
-- accepts.
pub mod Grow
pub mod Shrink
use adro.Prelude.{
  ℕ, zero, suc, ◌+◌, ◌^◌, ◌≤◌, ◌<◌, ◌≡◌, refl, sym, ap, ◌∙◌, ◌⊎◌, inl, inr, Bool, true, false, not,
  ◌&&◌, ◌||◌, String, str_eq, List, [], ◌∷◌, ◌++◌, Option, none, some, arith, Bool-cases,
  if◌then◌else◌, length, any, all, eq_iff, is_empty,
}
use adro.Prelude.Int.{ℤ, pos, add64, add64-suc, eqb_ℤ, ltb_ℤ}
use adro.Prelude.Text.{is_blank}
use adro.Events.Envelope.{Envelope, Encoding, payload_hash, envelope_hash}
use adro.Events.History.{
  HistoryError, knows, traced, fill_schema, check_event, validate_from, number_legacy,
  base_sequence, validate_persisted_events, max_sequence, max_from, last_hash, seal,
}

-- The event has an ID, the schema's version, a trace context that parses, and its own hashes.
pub record IsSealed (enc : Encoding) (e : Envelope) : Type 0 where
  pub identified : is_blank e.event_id ≡ false
  pub schema : e.schema_version ≡ pos 1
  pub traces : (traced e && not (enc.trace_valid e.trace_parent e.trace_state)) ≡ false
  pub payload : e.payload_hash ≡ payload_hash enc e.payload
  pub whole : e.envelope_hash ≡ envelope_hash enc e
  pub hashed : str_eq e.envelope_hash "" ≡ false

-- The event names the hash of the one before it, if that is retained.
abbrev pub Follows : Option String → Envelope → Type 0
Follows none e = Unit
Follows (some hash) e = e.previous_hash ≡ hash

-- Sealed events with the numbers from `n`, each naming the hash before it, with IDs that are new.
abbrev pub IsChain : Encoding → ℕ → Option String → List String → List Envelope → Type 0
IsChain enc n previous seen [] = Unit
IsChain enc n previous seen (e ∷ es) =
    IsSealed enc e
    × (e.sequence ≡ pos n)
    × (knows e.event_id seen ≡ false)
    × Follows previous e
    × IsChain enc (suc n) (some e.envelope_hash) (e.event_id ∷ seen) es

-- A history that may have lost its first events, with numbers that fit.
pub record IsHistory (enc : Encoding) (base : ℕ) (events : List Envelope) : Type 0 where
  pub positive : 0 < base
  pub fits : base + length events < 2 ^ 63
  pub chain : IsChain enc base none [] events

no_mismatch : (blank : Bool) (a b : String) → a ≡ b → (not blank && not (str_eq a b)) ≡ false
no_mismatch blank a b h = ground (arith, (eq_iff a b).1 h)

Follows-chained :
    (chained : Bool) (previous : Option String) (e : Envelope)
    → Follows previous e
    → (chained && elim previous [ none ↦ false | some hash ↦ not (str_eq e.previous_hash hash) ])
      ≡ false
Follows-chained true none e h = refl
Follows-chained false none e h = refl
Follows-chained chained (some hash) e h = ground (arith, (eq_iff e.previous_hash hash).1 h)

check_event-sealed :
    (enc : Encoding) (chained : Bool) (n : ℕ) (seen : List String) (previous : Option String)
    (e : Envelope)
    → IsSealed enc e
    → e.sequence ≡ pos n
    → knows e.event_id seen ≡ false
    → Follows previous e
    → check_event enc chained (pos n) seen previous e ≡ (e, none)
unfolding check_event
check_event-sealed enc chained n seen previous e s numbered fresh follows =
    let here : eqb_ℤ e.sequence (pos n) ≡ true = rw numbered (ground arith) in
    let versioned : eqb_ℤ e.schema_version (pos 0) ≡ false = rw s.schema refl in
    let supported : eqb_ℤ e.schema_version (pos 1) ≡ true = rw s.schema refl in
    let payload =
      no_mismatch (str_eq e.payload_hash "") e.payload_hash (payload_hash enc e.payload)
        s.payload in
    let whole = (eq_iff e.envelope_hash (envelope_hash enc e)).1 s.whole in
    rw
      (
        check_event,
        versioned,
        here,
        s.identified,
        fresh,
        supported,
        payload,
        s.traces,
        s.hashed,
        whole,
        Follows-chained chained previous e follows,
      )
      refl

validate_from-chain :
    (enc : Encoding) (chained : Bool) (n : ℕ) (previous : Option String) (seen : List String)
    (es : List Envelope)
    → n + length es < 2 ^ 63
    → IsChain enc n previous seen es
    → validate_from enc chained (pos n) seen previous es ≡ (es, none)
unfolding validate_from
validate_from-chain enc chained n previous seen [] fits h = refl
validate_from-chain enc chained n previous seen (e ∷ es) fits (s, numbered, fresh, follows, rest) =
    let checked = check_event-sealed enc chained n seen previous e s numbered fresh follows in
    let later =
      validate_from-chain enc chained (suc n) (some e.envelope_hash) (e.event_id ∷ seen) es
        (omega (arith, fits)) rest in
    rw (validate_from, checked, checked, add64-suc n (omega (arith, fits)), later) refl

IsChain-numbered :
    (enc : Encoding) (n : ℕ) (previous : Option String) (seen : List String) (e : Envelope)
    (es : List Envelope)
    → 0 < n
    → IsChain enc n previous seen (e ∷ es)
    → (number_legacy (e ∷ es) ≡ e ∷ es) × (base_sequence (e ∷ es) ≡ pos n)
unfolding number_legacy
IsChain-numbered enc n previous seen e es positive (s, numbered, _, _, _) =
    let given : eqb_ℤ e.sequence (pos 0) ≡ false = rw numbered (ground (arith, positive)) in
    let high : ltb_ℤ e.sequence (pos 1) ≡ false = rw numbered (ground (arith, positive)) in
    (rw (number_legacy, given) refl, rw high numbered)

-- A history is accepted by the validation, and is as it was.
pub validate-IsHistory :
    (enc : Encoding) (base : ℕ) (events : List Envelope)
    → IsHistory enc base events
    → validate_persisted_events enc events ≡ (events, none)
unfolding validate_persisted_events number_legacy
validate-IsHistory enc base [] h = refl
validate-IsHistory enc base (e ∷ es) h =
    let (numbered, based) = IsChain-numbered enc base none [] e es h.positive h.chain in
    rw (validate_persisted_events, numbered, based)
      (validate_from-chain enc _ base none [] (e ∷ es) h.fits h.chain)
