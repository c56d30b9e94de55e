-- ===== src/Events/Bus/Sound.antt =====
-- `Publish` of internal/events/events.go keeps a valid history, on a bus with no file.
use adro.Prelude.{
  ℕ, suc, ◌+◌, ◌^◌, ◌≤◌, ◌<◌, ◌≡◌, refl, sym, ap, ◌∙◌, Bool, true, false, not, ◌&&◌, String, str_eq,
  List, [], ◌∷◌, ◌++◌, none, arith, if◌then◌else◌, length, Bool-cases, inl, inr, ◌⊎◌, ltb,
}
use adro.Prelude.Int.{is_pos, pos_part, add64-suc}
use adro.Prelude.Text.{is_blank}
use mathlib.Core.Path.{subst}
use adro.Orchestration.Projection.{Time}
use adro.Events.Envelope.{Envelope, Encoding, envelope_hash, EncodesAll, year_10000}
use adro.Events.History.{knows, traced, validate_persisted_events, max_sequence}
use adro.Events.Chain.{IsSealed, IsHistory, validate-IsHistory, Follows}
use adro.Events.Chain.Grow.{max_sequence-IsHistory, IsHistory-snoc, last_link-last_hash}
use adro.Events.Chain.Shrink.{IsHistory-drop}
use adro.Events.Bus.{
  Bus, World, BusError, Io, event_ids, older, horizon, prune_locked, rebuild_seen, drop,
}
use adro.Events.Bus.File.{persist_locked}
use adro.Events.Bus.Pages.{knows-append}
use adro.Events.Bus.Admit.{published_id, IsAdmitted, admit-IsAdmitted}
use adro.Events.Bus.Publish.{
  Admission, admitted, rejected, admit, is_duplicate, place, append_event, conclude, publish,
}

-- The map `seen` has the IDs of the history.
abbrev pub IsIndexed : Bus → Type 0
IsIndexed b = (id : String) → knows id b.seen ≡ knows id (event_ids b.events)

pub older-le : (now : Time) (age : ℕ) (es : List Envelope) → older now age es ≤ length es
unfolding older
older-le now age [] = omega arith
older-le now age (e ∷ es) = ground (arith, older-le now age es)

pub horizon-le : (b : Bus) (now : Time) → horizon b.retention now b.events ≤ length b.events
unfolding horizon older
horizon-le b now = ground (arith, older-le now (pos_part b.retention.max_age) b.events)

-- A bus whose history is valid and whose `seen` has its IDs.
abbrev pub IsSound : Encoding → Bus → Type 0
IsSound enc b = ((base : ℕ) × IsHistory enc base b.events) × IsIndexed b

module _ (enc : Encoding) (fresh : String) (event e : Envelope) (encodes : EncodesAll enc)
    (a : IsAdmitted enc fresh event e) (dated : event.occurred_at < year_10000)
    (named : is_blank (published_id fresh event) ≡ false)
    (traces : (traced event && not (enc.trace_valid event.trace_parent event.trace_state))
      ≡ false) where
  place-IsSealed : (es : List Envelope) → IsSealed enc (place enc es e)
  unfolding place envelope_hash traced
  place-IsSealed es = record {
    identified = ap is_blank a.named ∙ named;
    schema = a.schema;
    traces = rw (a.parent, a.state) traces;
    payload = a.payload;
    whole = refl;
    hashed = encodes (place enc es e) (rw a.dated dated) a.encodable;
  }

  place-IsHistory :
      (base : ℕ) (es : List Envelope)
      → IsHistory enc base es
      → base + suc (length es) < 2 ^ 63
      → knows e.event_id (event_ids es) ≡ false
      → (next : ℕ) × IsHistory enc next (es ++ place enc es e ∷ [])
  unfolding place max_sequence knows
  place-IsHistory base [] h fits new = (
    1,
    record {
      positive = omega arith;
      fits = omega arith;
      chain = (place-IsSealed [], add64-suc 0 (omega arith), refl, tt, tt);
    },
  )
  place-IsHistory base (x ∷ es) h fits new = (
    base,
    IsHistory-snoc enc base (x ∷ es) (place enc (x ∷ es) e) h fits (place-IsSealed (x ∷ es))
        (max_sequence-IsHistory enc base x es h) new
        (subst (λ l. Follows l (place enc (x ∷ es) e))
          (sym (last_link-last_hash x.envelope_hash es)) refl),
  )

append_event-IsIndexed :
    (enc : Encoding) (e : Envelope) (b : Bus) → IsIndexed b → IsIndexed (append_event enc e b)
unfolding append_event place knows event_ids
append_event-IsIndexed enc e b h id =
    ground (arith, h id, knows-append id b.events (place enc b.events e ∷ []))

rebuild_seen-IsIndexed : (b : Bus) → IsIndexed (rebuild_seen b)
unfolding rebuild_seen
rebuild_seen-IsIndexed b id = refl

pick_IsSound :
    (enc : Encoding) (b pruned : Bus) (unlimited some_old : Bool)
    → IsSound enc b
    → IsSound enc pruned
    → IsSound enc (if unlimited then b else if some_old then pruned else b)
pick_IsSound enc b pruned true some_old kept cut = kept
pick_IsSound enc b pruned false true kept cut = cut
pick_IsSound enc b pruned false false kept cut = kept

prune_locked-IsSound :
    (enc : Encoding) (now : Time) (b : Bus) → IsSound enc b → IsSound enc (prune_locked now b)
unfolding prune_locked rebuild_seen
prune_locked-IsSound enc now b ((base, history), indexed) =
    pick_IsSound enc b
      (rebuild_seen (record b { events = drop (horizon b.retention now b.events) b.events }))
      (not (is_pos b.retention.max_events) && not (is_pos b.retention.max_age))
      (ltb 0 (horizon b.retention now b.events)) ((base, history), indexed)
      (
        (
          base + horizon b.retention now b.events,
          IsHistory-drop enc (horizon b.retention now b.events) base b.events (horizon-le b now)
              history,
        ),
        rebuild_seen-IsIndexed
            (record b { events = drop (horizon b.retention now b.events) b.events }),
      )

Admission-cases :
    (a : Admission) → ((r : BusError) × (a ≡ rejected r)) ⊎ ((e : Envelope) × (a ≡ admitted e))
Admission-cases (rejected r) = inl (r, refl)
Admission-cases (admitted e) = inr (e, refl)

-- A bus with no file persists nothing.
pub persist_locked_unsaved :
    (enc : Encoding) (io : Io) (w : World)
    → str_eq w.bus.state_path "" ≡ true
    → persist_locked enc io w ≡ (w, none)
unfolding persist_locked
persist_locked_unsaved enc io w unsaved = rw (persist_locked, unsaved) refl

pruned_path : (now : Time) (b : Bus) → (prune_locked now b).state_path ≡ b.state_path
unfolding prune_locked rebuild_seen
pruned_path now b = ground arith

is_duplicate_not :
    (b : Bus) (e : Envelope)
    → IsIndexed b
    → is_duplicate b e ≡ false
    → knows e.event_id (event_ids b.events) ≡ false
unfolding is_duplicate
is_duplicate_not b e indexed h = ground (arith, h, indexed e.event_id)

concluded :
    (enc : Encoding) (ids : ℕ → String) (now : Time) (before : List Envelope) (e : Envelope)
    (w : World)
    → IsSound enc w.bus
    → IsSound enc (conclude enc ids now before e (w, none)).0.bus
unfolding conclude
concluded enc ids now before e w sound = sound

publish-IsSound :
    (enc : Encoding) (io : Io) (now : Time) (fresh : String) (ids : ℕ → String) (event : Envelope)
    (w : World) (base : ℕ)
    → EncodesAll enc
    → str_eq w.bus.state_path "" ≡ true
    → IsHistory enc base w.bus.events
    → IsIndexed w.bus
    → base + suc (length w.bus.events) < 2 ^ 63
    → event.occurred_at < year_10000
    → is_blank (published_id fresh event) ≡ false
    → (traced event && not (enc.trace_valid event.trace_parent event.trace_state)) ≡ false
    → IsSound enc (publish enc io now fresh ids event w).0.bus
unfolding publish append_event
publish-IsSound enc io now fresh ids event w base encodes unsaved history indexed fits dated named
      traces =
    elim (Admission-cases (admit enc fresh event)) [
      | inl (r, refused) ↦ rw (publish, refused) ((base, history), indexed)
      | inr (e, passed) ↦ elim (Bool-cases (is_duplicate w.bus e)) [
        | inl known ↦ rw (publish, passed, known) ((base, history), indexed)
        | inr new ↦
            let grown = append_event enc e w.bus in
            let v : World = record w { bus = prune_locked now grown } in
            let placed =
              place-IsHistory enc fresh event e encodes (admit-IsAdmitted enc fresh event e passed)
                dated named traces base w.bus.events history fits
                (is_duplicate_not w.bus e indexed new) in
            let sound : IsSound enc v.bus =
              prune_locked-IsSound enc now grown
                (placed, append_event-IsIndexed enc e w.bus indexed) in
            let saved =
              persist_locked_unsaved enc io v
                (ap (λ s. str_eq s "") (pruned_path now grown) ∙ unsaved) in
            rw (publish, passed, new)
              (subst
                (λ r.
                  IsSound enc
                    (conclude enc ids now w.bus.events (place enc w.bus.events e) r).0.bus)
                (sym saved) (concluded enc ids now w.bus.events (place enc w.bus.events e) v sound))
      ]
    ]

-- `Publish` on a bus with no file keeps the history valid, with retention: however it comes out, the
-- validation of a stored history accepts the events as they are, `seen` still has their IDs, and
-- so the hash chain, the numbers and the IDs are right. The bus starts with such a history and
-- room for its next number; the event has a time before the year 10000, an ID that is not blank
-- and a trace context that parses; and an envelope with such a time and an encodable payload
-- encodes.
pub publish_keeps_history :
    (enc : Encoding) (io : Io) (now : Time) (fresh : String) (ids : ℕ → String) (event : Envelope)
    (w : World) (base : ℕ)
    → EncodesAll enc
    → str_eq w.bus.state_path "" ≡ true
    → IsHistory enc base w.bus.events
    → IsIndexed w.bus
    → base + suc (length w.bus.events) < 2 ^ 63
    → event.occurred_at < year_10000
    → is_blank (published_id fresh event) ≡ false
    → (traced event && not (enc.trace_valid event.trace_parent event.trace_state)) ≡ false
    → let after = (publish enc io now fresh ids event w).0.bus in
      IsSound enc after × (validate_persisted_events enc after.events ≡ (after.events, none))
publish_keeps_history enc io now fresh ids event w base encodes unsaved history indexed fits dated
      named traces =
    let sound =
      publish-IsSound enc io now fresh ids event w base encodes unsaved history indexed fits dated
        named traces in
    (
      sound,
      validate-IsHistory enc sound.0.0 (publish enc io now fresh ids event w).0.bus.events
          sound.0.1,
    )
