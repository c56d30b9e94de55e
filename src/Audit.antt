-- ===== src/Audit.antt =====
-- The audit ledger: internal/audit/ledger.go.
pub mod Chained
use adro.Prelude.{
  ℕ, suc, ◌+◌, Bool, true, false, ◌&&◌, ◌||◌, String, str_eq, List, [], ◌∷◌, ◌++◌, Option, none,
  some, if◌then◌else◌, length, is_empty,
}
use adro.Prelude.Int.{ℤ, pos, eqb_ℤ}
use adro.Orchestration.Projection.{Time}
use adro.Orchestration.Value.{Fields}

pub record AuditEvent : Type 0 where
  pub sequence : ℤ
  pub tenant_id : String
  pub workspace_id : String
  pub actor_type : String
  pub actor_id : String
  pub action : String
  pub correlation_id : String
  pub payload : Fields
  pub previous_hash : String
  pub content_hash : String
  pub created_at : Time

-- Only the events: `path` decides how `persistLocked` comes out.
pub record Ledger : Type 0 where
  pub events : List AuditEvent

pub data AuditError : Type 0 where
  required_fields not_encodable not_persisted : AuditError

pub data Appended : Type 0 where
  appended : AuditEvent → Appended
  failed : AuditError → Appended

-- `l.events[len(l.events)-1].ContentHash`, or the hash given for no events
abbrev pub last_content_hash : String → List AuditEvent → String
last_content_hash hash [] = hash
last_content_hash hash (e ∷ es) = last_content_hash e.content_hash es

-- The event in its place. Its first predecessor is as it was given.
unfoldable pub place_event : Time → List AuditEvent → AuditEvent → AuditEvent
place_event now events input = record input {
  sequence = pos (length events + 1);
  created_at = now;
  previous_hash = if is_empty events then input.previous_hash else last_content_hash "" events;
}

-- `Append`: `digest` is the hash of the JSON text of the fields above the content hash, and
-- `persisted` says whether the file was written, or is not wanted.
unfoldable pub append_event :
    (digest : AuditEvent → Option String)
    → (persisted : Bool) → Time
    → AuditEvent
    → Ledger
    → Ledger × Appended
unfolding place_event
append_event digest persisted now input l =
    let placed = place_event now l.events input in
    if str_eq input.tenant_id "" || str_eq input.actor_id "" || str_eq input.action ""
    then (l, failed required_fields)
    else elim (digest placed) as (λ _. Ledger × Appended) [
      | none ↦ (l, failed not_encodable)
      | some hash ↦
          let e : AuditEvent = record placed { content_hash = hash } in
          if persisted
          then (record { events = l.events ++ e ∷ [] }, appended e)
          else (l, failed not_persisted)
    ]

unfoldable pub verify_from : ℕ → String → List AuditEvent → Bool
verify_from n previous [] = true
verify_from n previous (e ∷ es) =
    eqb_ℤ e.sequence (pos n)
    && str_eq e.previous_hash previous
    && verify_from (suc n) e.content_hash es

-- `Verify`, true where it gives no error
unfoldable pub verify : Ledger → Bool
unfolding verify_from
verify l = verify_from 1 "" l.events
