-- ===== src/Audit/Chained.antt =====
-- What `Append` and `Verify` of internal/audit/ledger.go promise of the chain.
use adro.Prelude.{
  ℕ, suc, ◌+◌, ◌≡◌, refl, ap, ◌∙◌, inl, inr, Bool, true, false, not, is_empty, ◌||◌, String, str_eq,
  List, [], ◌∷◌, ◌++◌, Option, arith, length, eq_iff, map, Bool-cases, Option-cases,
}
use adro.Prelude.Int.{pos}
use adro.Orchestration.Projection.{Time}
use adro.Audit.{
  AuditEvent, Ledger, Appended, appended, failed, last_content_hash, place_event, append_event,
  verify_from, verify,
}

-- A numbered event behind a chain is accepted where it names the last hash.
verify_from-snoc :
    (n : ℕ) (previous : String) (es : List AuditEvent) (e : AuditEvent)
    → verify_from n previous es ≡ true
    → e.sequence ≡ pos (n + length es)
    → verify_from n previous (es ++ e ∷ []) ≡ str_eq e.previous_hash (last_content_hash previous es)
unfolding verify_from
verify_from-snoc n previous [] e h numbered = ground (arith, numbered)
verify_from-snoc n previous (x ∷ es) e h numbered = ground (
  arith,
  h,
  verify_from-snoc (suc n) x.content_hash es e (ground (arith, h))
      (numbered ∙ ap pos (omega arith)),
)

-- The event names the last hash, unless it is the first and was given with another.
place_event-linked :
    (now : Time) (es : List AuditEvent) (input : AuditEvent)
    → str_eq (place_event now es input).previous_hash (last_content_hash "" es)
      ≡ (not (is_empty es) || str_eq input.previous_hash "")
unfolding place_event
place_event-linked now [] input = refl
place_event-linked now (e ∷ es) input =
    (eq_iff (last_content_hash "" (e ∷ es)) (last_content_hash "" (e ∷ es))).1 refl

abbrev pub is_failed : Appended → Bool
is_failed (appended e) = false
is_failed (failed error) = true

-- A ledger that `Verify` accepts is accepted after `Append` in these cases and no other: the append
-- failed, with a field missing, the event not encoded or the file not written; or the ledger had
-- events; or the event was given with no predecessor. So a first event that is given with a
-- predecessor is appended and breaks the chain.
pub append_event-verify :
    (digest : AuditEvent → Option String) (persisted : Bool) (now : Time) (input : AuditEvent)
    (l : Ledger)
    → verify l ≡ true
    → verify (append_event digest persisted now input l).0 ≡ (
        is_failed (append_event digest persisted now input l).1
        || not (is_empty l.events)
        || str_eq input.previous_hash "")
unfolding append_event verify place_event
append_event-verify digest persisted now input l h =
    elim (Bool-cases
      (str_eq input.tenant_id "" || str_eq input.actor_id "" || str_eq input.action "")) [
        | inl refused ↦ rw (append_event, refused) h
        | inr fine ↦ elim (Option-cases (digest (place_event now l.events input))) [
          | inl lost ↦ rw (append_event, fine, lost) h
          | inr (hash, done) ↦ elim (Bool-cases persisted) [
            | inl kept ↦
                rw (append_event, fine, done, kept)
                  (verify_from-snoc 1 "" l.events
                      (record (place_event now l.events input) { content_hash = hash }) h
                      (ap pos (omega arith))
                    ∙ place_event-linked now l.events input)
            | inr dropped ↦ rw (append_event, fine, done, dropped) h
          ]
        ]
      ]

-- `Verify` reads the numbers and the hashes alone: with any other field of any event changed, the
-- actor, the action or the payload too, it answers as before.
pub verify_reads_no_contents :
    (change : AuditEvent → AuditEvent) (n : ℕ) (previous : String) (es : List AuditEvent)
    → ((e : AuditEvent)
        → ((change e).sequence ≡ e.sequence)
          × ((change e).previous_hash ≡ e.previous_hash)
          × ((change e).content_hash ≡ e.content_hash))
    → verify_from n previous (map change es) ≡ verify_from n previous es
unfolding verify_from
verify_reads_no_contents change n previous [] same = refl
verify_reads_no_contents change n previous (e ∷ es) same =
    let (numbered, linked, hashed) = same e in
    rw (numbered, linked, hashed, verify_reads_no_contents change (suc n) e.content_hash es same)
      refl
