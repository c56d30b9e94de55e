-- ===== src/Events/Bus.antt =====
-- The state of the event bus, its retention and its snapshot file: internal/events/events.go.
pub mod File
pub mod Publish
pub mod Consumer
pub mod Replay
pub mod Collect
pub mod Pages
pub mod Scope
pub mod Admit
pub mod Sound
pub mod Retention
pub mod Subscribers
pub mod Ranges
pub mod Tokens
pub mod Acks
use adro.Prelude.{
  ℕ, zero, suc, ◌+◌, ◌-◌, Bool, true, false, not, ◌&&◌, ◌||◌, String, str_eq, List, [], ◌∷◌, Option,
  none, some, if◌then◌else◌, length, ltb,
}
use adro.Prelude.Int.{ℤ, pos, add64, ltb_ℤ, eqb_ℤ, is_pos, is_neg, pos_part}
use adro.Prelude.Text.{◌<>◌}
use adro.Prelude.Assoc.{Assoc, lookup_or, insert}
use adro.Orchestration.Projection.{Time}
use adro.Events.Envelope.{Envelope, Encoding}
use adro.Events.History.{HistoryError, validate_persisted_events, merge_peer_events}

-- An age is in nanoseconds.
pub record RetentionPolicy : Type 0 where
  pub max_events : ℤ
  pub max_age : ℤ

-- The events that a subscriber has missed.
pub record StreamGap : Type 0 where
  pub count : ℤ
  pub from : ℤ
  pub to : ℤ
  pub tenant_id : String
  pub workspace_id : String
  pub aggregate_id : String
  pub correlation_id : String

unfoldable pub no_gap : StreamGap
no_gap = record {
  count = pos 0;
  from = pos 0;
  to = pos 0;
  tenant_id = "";
  workspace_id = "";
  aggregate_id = "";
  correlation_id = "";
}

-- A subscriber's channel, oldest first, with its entry in `dropped`.
pub record Subscriber : Type 0 where
  pub id : ℕ
  pub buffer : ℕ
  pub queue : List Envelope
  pub gap : StreamGap

-- The maps `seen` and `seenProvider` are the lists of their keys.
pub record Bus : Type 0 where
  pub state_path : String
  pub events : List Envelope
  pub seen : List String
  pub seen_provider : List String
  pub subscribers : List Subscriber
  pub next_sub_id : ℕ
  pub revision : ℤ
  pub acks : Assoc String
  pub delivery_attempts : Assoc ℤ
  pub retention : RetentionPolicy

-- `persistedEvents`, as it reads from the snapshot file.
pub record Snapshot : Type 0 where
  pub revision : ℤ
  pub events : List Envelope
  pub acks : Assoc String
  pub delivery_attempts : Assoc ℤ
  pub retention : RetentionPolicy

-- The bus of one process, with the file, which other processes write too.
pub record World : Type 0 where
  pub bus : Bus
  pub file : Option Snapshot

pub data BusError : Type 0 where
  required unsupported_schema not_encodable payload_mismatch envelope_mismatch : BusError
  io_failed merge_failed invalid_cursor foreign_cursor not_retained moves_backwards : BusError
  negative_retention : BusError
  invalid_history : HistoryError → BusError

-- How the calls of the operating system in one operation come out: the lock or a read fails; the
-- write fails before the rename; the file is renamed and the sync of its directory fails; or none.
pub data Io : Type 0 where
  unreadable unwritten unsynced done : Io

-- The key of an event with a provider.
abbrev pub provider_key : Envelope → String
provider_key e = e.provider <> "\0" <> e.provider_event_id

unfoldable pub has_provider : Envelope → Bool
has_provider e = not (str_eq e.provider "") && not (str_eq e.provider_event_id "")

unfoldable pub event_ids : List Envelope → List String
event_ids [] = []
event_ids (e ∷ es) = e.event_id ∷ event_ids es

unfoldable pub provider_keys : List Envelope → List String
unfolding has_provider
provider_keys [] = []
provider_keys (e ∷ es) =
    let rest = provider_keys es in if has_provider e then provider_key e ∷ rest else rest

-- `rebuildSeen`, and `rebuildSeenLocked`, which is the same
unfoldable pub rebuild_seen : Bus → Bus
unfolding event_ids provider_keys
rebuild_seen b = record b { seen = event_ids b.events; seen_provider = provider_keys b.events }

-- The number of the first events that are older than the age.
unfoldable pub older : Time → ℕ → List Envelope → ℕ
older now age [] = 0
older now age (e ∷ es) =
    let rest = older now age es in if ltb (e.occurred_at + age) now then suc rest else 0

unfoldable pub drop : ℕ → List Envelope → List Envelope
drop zero es = es
drop (suc n) [] = []
drop (suc n) (e ∷ es) = drop n es

-- Where the retained events start.
unfoldable pub horizon : RetentionPolicy → Time → List Envelope → ℕ
unfolding older
horizon r now events =
    let start = if is_pos r.max_age then older now (pos_part r.max_age) events else 0 in
    if is_pos r.max_events && ltb (pos_part r.max_events) (length events - start)
    then length events - pos_part r.max_events
    else start

unfoldable pub prune_locked : Time → Bus → Bus
unfolding horizon drop rebuild_seen
prune_locked now b =
    let start = horizon b.retention now b.events in
    if not (is_pos b.retention.max_events) && not (is_pos b.retention.max_age)
    then b
    else if ltb 0 start
    then rebuild_seen (record b { events = drop start b.events })
    else b
