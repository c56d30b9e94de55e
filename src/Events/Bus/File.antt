-- ===== src/Events/Bus/File.antt =====
-- The snapshot file of the event bus: `persistLocked`, `reloadLocked`, `SetRetention` and `Prune` of
-- internal/events/events.go.
use adro.Prelude.{
  Bool, true, false, not, ◌||◌, String, str_eq, [], ◌∷◌, Option, none, some, if◌then◌else◌,
}
use adro.Prelude.Int.{ℤ, pos, add64, ltb_ℤ, eqb_ℤ, is_neg}
use adro.Prelude.Assoc.{Assoc, lookup_or, insert}
use adro.Orchestration.Projection.{Time}
use adro.Events.Envelope.{Encoding}
use adro.Events.History.{validate_persisted_events, merge_peer_events}
use adro.Events.Bus.{
  Bus, World, Snapshot, RetentionPolicy, BusError, io_failed, merge_failed, invalid_history,
  negative_retention, Io, rebuild_seen, prune_locked,
}

unfoldable pub join_acks : Assoc String → Assoc String → Assoc String
join_acks [] acks = acks
join_acks ((consumer, cursor) ∷ rest) acks = join_acks rest (insert consumer cursor acks)

unfoldable pub join_attempts : Assoc ℤ → Assoc ℤ → Assoc ℤ
join_attempts [] attempts = attempts
join_attempts ((key, n) ∷ rest) attempts =
    join_attempts rest
      (if ltb_ℤ (lookup_or (pos 0) key attempts) n then insert key n attempts else attempts)

-- The bus after the merge of a file that another process has written.
unfoldable pub merge_file : Encoding → Snapshot → Bus → Bus × Option BusError
unfolding validate_persisted_events merge_peer_events join_acks join_attempts rebuild_seen
merge_file enc file b =
    let (events, failed) = validate_persisted_events enc file.events in
    elim failed as (λ _. Bus × Option BusError) [
      | some error ↦ (b, some (invalid_history error))
      | none ↦ elim (merge_peer_events enc events b.events) as (λ _. Bus × Option BusError) [
        | none ↦ (record b { events = [] }, some merge_failed)
        | some merged ↦ (
          rebuild_seen (record b {
            events = merged;
            acks = join_acks file.acks b.acks;
            delivery_attempts = join_attempts file.delivery_attempts b.delivery_attempts;
            revision = file.revision;
          }),
          none,
        )
      ]
    ]

unfoldable pub snapshot : Bus → Snapshot
snapshot b = record {
  revision = add64 b.revision (pos 1);
  events = b.events;
  acks = b.acks;
  delivery_attempts = b.delivery_attempts;
  retention = b.retention;
}

-- The bus is written over the file.
unfoldable pub write_file : Encoding → Io → World → World × Option BusError
unfolding validate_persisted_events snapshot
write_file enc io w =
    let (events, failed) = validate_persisted_events enc w.bus.events in
    let b : Bus = record w.bus { events = events } in
    let written = some (snapshot b) in
    elim failed as (λ _. World × Option BusError) [
      | some error ↦ (record w { bus = b }, some (invalid_history error))
      | none ↦ elim io as (λ _. World × Option BusError) [
        | Io.done ↦ (
          record { bus = record b { revision = add64 b.revision (pos 1) }; file = written },
          none,
        )
        | Io.unsynced ↦ (record { bus = b; file = written }, some io_failed)
        | _ ↦ (record w { bus = b }, some io_failed)
      ]
    ]

abbrev pub is_unreadable : Io → Bool
is_unreadable Io.unreadable = true
is_unreadable _ = false

-- The bus is written after the merge of a file at another revision.
unfoldable pub persist_over : Encoding → Io → World → Option Snapshot → World × Option BusError
unfolding merge_file write_file
persist_over enc io w none = write_file enc io w
persist_over enc io w (some file) =
    let (b, failed) = merge_file enc file w.bus in
    let merged : World = record w { bus = b } in
    if eqb_ℤ file.revision w.bus.revision
    then write_file enc io w
    else elim failed as (λ _. World × Option BusError) [
      | some error ↦ (merged, some error)
      | none ↦ write_file enc io merged
    ]

unfoldable pub persist_locked : Encoding → Io → World → World × Option BusError
unfolding persist_over
persist_locked enc io w =
    if str_eq w.bus.state_path ""
    then (w, none)
    else if is_unreadable io
    then (w, some io_failed)
    else persist_over enc io w w.file

-- `reloadLocked`: the file is taken over where its revision is higher.
unfoldable pub take_file : Encoding → World → Option Snapshot → World × Option BusError
unfolding validate_persisted_events rebuild_seen
take_file enc w none = (w, none)
take_file enc w (some file) =
    let (events, failed) = validate_persisted_events enc file.events in
    let b : Bus = record w.bus {
      events = events;
      acks = file.acks;
      delivery_attempts = file.delivery_attempts;
      revision = file.revision;
      retention = file.retention;
    } in
    if not (ltb_ℤ w.bus.revision file.revision)
    then (w, none)
    else elim failed as (λ _. World × Option BusError) [
      | some error ↦ (record w { bus = b }, some (invalid_history error))
      | none ↦ (record w { bus = rebuild_seen b }, none)
    ]

unfoldable pub reload_locked : Encoding → Io → World → World × Option BusError
unfolding take_file
reload_locked enc io w =
    if str_eq w.bus.state_path ""
    then (w, none)
    else if is_unreadable io
    then (w, some io_failed)
    else take_file enc w w.file

unfoldable pub set_retention :
    Encoding → Io → Time → RetentionPolicy → World → World × Option BusError
unfolding prune_locked persist_locked
set_retention enc io now policy w =
    if is_neg policy.max_events || is_neg policy.max_age
    then (w, some negative_retention)
    else persist_locked enc io
        (record w { bus = prune_locked now (record w.bus { retention = policy }) })

-- `Prune` with a time that is not zero
unfoldable pub prune : Encoding → Io → Time → World → World × Option BusError
unfolding prune_locked persist_locked
prune enc io now w = persist_locked enc io (record w { bus = prune_locked now w.bus })
