-- ===== src/Tests/Ledgers.antt =====
-- A concrete audit ledger: internal/audit/ledger.go.
use adro.Prelude.{◌≡◌, refl, true, false, [], ◌∷◌, String, Option, some, map}
use adro.Prelude.Int.{pos}
use adro.Audit.{AuditEvent, Ledger, append_event, verify_from, verify}
use adro.Audit.Chained.{append_event-verify, verify_reads_no_contents}

abbrev digest : AuditEvent → Option String
digest e = some e.actor_id

abbrev entry : AuditEvent
entry = record {
  sequence = pos 1;
  tenant_id = "t";
  workspace_id = "w";
  actor_type = "user";
  actor_id = "ann";
  action = "approve";
  correlation_id = "";
  payload = [];
  previous_hash = "";
  content_hash = "ann";
  created_at = 5;
}

abbrev ledger : Ledger
ledger = record { events = entry ∷ [] }

ledger_valid : verify ledger ≡ true
unfolding verify
ledger_valid = refl

empty_valid : verify (record { events = [] }) ≡ true
unfolding verify
empty_valid = refl

-- The first event is given with a predecessor: it is appended, and the ledger is broken.
append_event-verify_example :
    verify
      (append_event digest true 9 (record entry { previous_hash = "x" }) (record { events = [] })).0
    ≡ false
unfolding append_event
append_event-verify_example =
    append_event-verify digest true 9 (record entry { previous_hash = "x" })
      (record { events = [] }) empty_valid

abbrev forged : AuditEvent → AuditEvent
forged e = record e { actor_id = "mallory"; action = "delete" }

verify_reads_no_contents_example :
    verify_from 1 "" (map forged ledger.events) ≡ verify_from 1 "" ledger.events
verify_reads_no_contents_example =
    verify_reads_no_contents forged 1 "" ledger.events (λ e. (refl, refl, refl))
