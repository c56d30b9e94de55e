-- ===== src/Events/History.antt =====
-- The history of events: its validation, its merge with a peer's and its pruning, of
-- internal/events/events.go.
use adro.Prelude.{
  Bool, false, not, ◌&&◌, ◌||◌, String, str_eq, List, [], ◌∷◌, Option, none, some, if◌then◌else◌,
  ◌++◌, any, all,
}
use adro.Prelude.Int.{ℤ, pos, add64, ltb_ℤ, eqb_ℤ}
use adro.Prelude.Text.{is_blank}
use adro.Events.Envelope.{Envelope, Encoding, payload_hash, envelope_hash, clone_envelope}

pub data HistoryError : Type 0 where
  sequence_corruption empty_event_id duplicate_event_id unsupported_schema : HistoryError
  payload_hash_mismatch trace_context envelope_hash_mismatch : HistoryError
  previous_hash_mismatch payload_not_encodable : HistoryError

-- `maxSequence`, from the highest number so far.
unfoldable pub max_from : ℤ → List Envelope → ℤ
max_from highest [] = highest
max_from highest (e ∷ es) = max_from (if ltb_ℤ highest e.sequence then e.sequence else highest) es

unfoldable pub max_sequence : List Envelope → ℤ
unfolding max_from
max_sequence items = max_from (pos 0) items

unfoldable pub knows : String → List String → Bool
knows id seen = any (str_eq id) seen

unfoldable pub number_from : ℤ → List Envelope → List Envelope
number_from n [] = []
number_from n (e ∷ es) = record e { sequence = n } ∷ number_from (add64 n (pos 1)) es

-- A history in which no event has a number gets numbers from 1.
unfoldable pub number_legacy : List Envelope → List Envelope
unfolding number_from
number_legacy items =
    if all (λ e. eqb_ℤ e.sequence (pos 0)) items then number_from (pos 1) items else items

unfoldable pub traced : Envelope → Bool
traced e = not (str_eq e.trace_parent "") || not (str_eq e.trace_state "")

abbrev pub fill_schema : Envelope → Envelope
fill_schema e = if eqb_ℤ e.schema_version (pos 0) then record e { schema_version = pos 1 } else e

abbrev pub fill_hash : Encoding → Envelope → Envelope
fill_hash enc e =
    if str_eq e.envelope_hash "" then record e { envelope_hash = envelope_hash enc e } else e

-- The tests of one event. The event before it is given by its hash, and by `none` for the first.
-- An event that fails a test may have been given its default fields before.
unfoldable pub check_event :
    Encoding → Bool → ℤ → List String → Option String → Envelope → Envelope × Option HistoryError
unfolding payload_hash envelope_hash knows traced
check_event enc chained expected seen previous e =
    let f = fill_schema e in
    let g = fill_hash enc f in
    if not (eqb_ℤ e.sequence expected)
    then (e, some sequence_corruption)
    else if is_blank e.event_id
    then (e, some empty_event_id)
    else if knows e.event_id seen
    then (e, some duplicate_event_id)
    else if not (eqb_ℤ f.schema_version (pos 1))
    then (f, some unsupported_schema)
    else if not (str_eq f.payload_hash "")
        && not (str_eq f.payload_hash (payload_hash enc f.payload))
    then (f, some payload_hash_mismatch)
    else if traced f && not (enc.trace_valid f.trace_parent f.trace_state)
    then (f, some trace_context)
    else if not (str_eq f.envelope_hash "") && not (str_eq f.envelope_hash (envelope_hash enc f))
    then (f, some envelope_hash_mismatch)
    else if chained
        && elim previous [ none ↦ false | some hash ↦ not (str_eq e.previous_hash hash) ]
    then (g, some previous_hash_mismatch)
    else (g, none)

unfoldable pub validate_from :
    Encoding
    → Bool
    → ℤ
    → List String
    → Option String
    → List Envelope
    → List Envelope × Option HistoryError
unfolding check_event
validate_from enc chained expected seen previous [] = ([], none)
validate_from enc chained expected seen previous (e ∷ es) =
    let (f, failed) = check_event enc chained expected seen previous e in
    let (rest, later) =
      validate_from enc chained (add64 expected (pos 1)) (f.event_id ∷ seen) (some f.envelope_hash)
        es in
    elim failed as (λ _. List Envelope × Option HistoryError) [
      | none ↦ (f ∷ rest, later)
      | some error ↦ (f ∷ es, some error)
    ]

-- The number that the first event must have.
abbrev pub base_sequence : List Envelope → ℤ
base_sequence [] = pos 1
base_sequence (e ∷ es) = if ltb_ℤ e.sequence (pos 1) then pos 1 else e.sequence

-- `validatePersistedEvents`: the events as it leaves them in the slice, and its error.
unfoldable pub validate_persisted_events :
    Encoding → List Envelope → List Envelope × Option HistoryError
unfolding number_legacy validate_from
validate_persisted_events enc items =
    let numbered = number_legacy items in
    let chained = any (λ e. not (str_eq e.previous_hash "")) numbered in
    validate_from enc chained (base_sequence numbered) [] none numbered

-- An event in the place after the one with the number and the hash.
unfoldable pub seal : Encoding → ℤ → String → Envelope → Envelope
unfolding payload_hash envelope_hash
seal enc sequence previous e =
    let placed : Envelope = record e {
      sequence = sequence;
      previous_hash = previous;
      payload_hash = payload_hash enc e.payload;
    } in
    record placed { envelope_hash = envelope_hash enc placed }

unfoldable pub take_committed :
    Encoding → List String → List Envelope → Option (List Envelope × List String)
unfolding clone_envelope knows
take_committed enc seen [] = some ([], seen)
take_committed enc seen (e ∷ es) =
    let rest = take_committed enc (e.event_id ∷ seen) es in
    if str_eq e.event_id "" || knows e.event_id seen then none else elim rest [
      | none ↦ none
      | some (taken, known) ↦ some (clone_envelope enc e ∷ taken, known)
    ]

unfoldable pub rebase_local :
    Encoding → ℤ → String → List String → List Envelope → Option (List Envelope)
unfolding clone_envelope knows seal payload_hash
rebase_local enc sequence previous seen [] = some []
rebase_local enc sequence previous seen (e ∷ es) =
    let next = add64 sequence (pos 1) in
    let sealed = seal enc next previous (clone_envelope enc e) in
    let skipped = rebase_local enc sequence previous seen es in
    let rest = rebase_local enc next sealed.envelope_hash (e.event_id ∷ seen) es in
    if str_eq e.event_id ""
    then none
    else if knows e.event_id seen
    then skipped
    else if str_eq sealed.payload_hash ""
    then none
    else elim rest [ none ↦ none | some moved ↦ some (sealed ∷ moved) ]

abbrev pub last_hash : String → List Envelope → String
last_hash hash [] = hash
last_hash hash (e ∷ es) = last_hash e.envelope_hash es

-- `mergePeerEventsPreservingCommitted`; an error is `none`.
unfoldable pub merge_peer_events : Encoding → List Envelope → List Envelope → Option (List Envelope)
unfolding take_committed rebase_local max_sequence
merge_peer_events enc committed added = elim (take_committed enc [] committed) [
  | none ↦ none
  | some (taken, seen) ↦
      elim (rebase_local enc (max_sequence committed) (last_hash "" committed) seen added) [
        | none ↦ none
        | some moved ↦ some (taken ++ moved)
      ]
]
