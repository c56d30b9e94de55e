-- ===== src/Events/Bus/Acks.antt =====
-- The acknowledgements that `Ack` of internal/events/events.go leaves. No other process writes the
-- file between its reload and its write.
mod Written
pub use Written.{IsAhead}
use Written.{none≢some, IsCurrent, ack_loaded_moves, ack_loaded_keeps}
use adro.Prelude.{
  Bool, ◌||◌, ℕ, ◌≤◌, ◌≡◌, ◌≢◌, refl, sym, ap, ◌∙◌, inl, inr, true, false, String, str_eq, Option,
  none, some, arith, if◌then◌else◌, eq_iff, Bool-cases, Option-cases,
}
use adro.Prelude.Int.{ℤ, eqb_ℤ, ltb_ℤ}
use adro.Prelude.Text.{trim_space, is_blank}
use adro.Prelude.Assoc.{Assoc, lookup, lookup_or, insert, delete, lookup-insert, lookup-delete}
use mathlib.Core.Path.{subst}
use adro.Events.Envelope.{Encoding}
use adro.Events.Bus.{Bus, World, Snapshot, BusError, Io, rebuild_seen}
use adro.Events.Bus.File.{
  persist_locked, is_unreadable, persist_over, write_file, take_file, reload_locked,
}
use adro.Events.History.{validate_persisted_events}
use adro.Events.Bus.Consumer.{
  position, moves_back, put_back_ack, write_ack, ack_loaded, ack, delivery_key,
}

-- The file is at a lower revision than the bus.
abbrev pub is_behind : World → Bool
is_behind w = elim w.file [ none ↦ false | some file ↦ ltb_ℤ file.revision w.bus.revision ]

eqb_ℤ-same : (a b : ℤ) → ltb_ℤ a b ≡ false → ltb_ℤ b a ≡ false → eqb_ℤ a b ≡ true
eqb_ℤ-same a b h k = ground (arith, h, k)

eqb_ℤ-refl : (a : ℤ) → eqb_ℤ a a ≡ true
eqb_ℤ-refl a = ground arith

take_file-revision :
    (enc : Encoding) (w : World) (file : Snapshot)
    → ltb_ℤ file.revision w.bus.revision ≡ false
    → (take_file enc w (some file)).1 ≡ none
    → eqb_ℤ file.revision (take_file enc w (some file)).0.bus.revision ≡ true
unfolding take_file rebuild_seen
take_file-revision enc w file ahead done = elim (Bool-cases (ltb_ℤ w.bus.revision file.revision)) [
  | inr old ↦ rw (take_file, old) (eqb_ℤ-same file.revision w.bus.revision ahead old)
  | inl newer ↦ elim (Option-cases (validate_persisted_events enc file.events).1) [
    | inl valid ↦ rw (take_file, newer, valid) (eqb_ℤ-refl file.revision)
    | inr (error, invalid) ↦ absurd (none≢some (sym (rw (take_file, newer, invalid) at done)))
  ]
]

take_file-file :
    (enc : Encoding) (w : World) (o : Option Snapshot) → (take_file enc w o).0.file ≡ w.file
unfolding take_file
take_file-file enc w o = ground arith

-- After a reload the file is at the bus's revision, if it was not behind.
reload_locked-IsCurrent :
    (enc : Encoding) (io : Io) (w : World)
    → is_behind w ≡ false
    → (reload_locked enc io w).1 ≡ none
    → IsCurrent (reload_locked enc io w).0
unfolding reload_locked
reload_locked-IsCurrent enc io w ahead done file saved there =
    elim (Bool-cases (str_eq w.bus.state_path "")) [
      | inl unsaved ↦ ground (arith, unsaved, rw (reload_locked, unsaved) at saved)
      | inr own ↦ elim (Bool-cases (is_unreadable io)) [
        | inl lost ↦ absurd (none≢some (sym (rw (reload_locked, own, lost) at done)))
        | inr readable ↦
            let here : w.file ≡ some file =
              sym (take_file-file enc w w.file) ∙ (rw (reload_locked, own, readable) at there) in
            rw (reload_locked, own, readable)
              (subst
                (λ o.
                  (take_file enc w o).1 ≡ none
                  → eqb_ℤ file.revision (take_file enc w o).0.bus.revision ≡ true)
                (sym here) (take_file-revision enc w file (rw here at ahead))
                (rw (reload_locked, own, readable) at done))
      ]
    ]

-- What an acknowledgement goes on from: what it has reloaded, if it gets so far.
abbrev pub ack_start : Encoding → Io → String → String → World → World
ack_start enc reading consumer event w =
    if is_blank consumer || is_blank event then w else (reload_locked enc reading w).0

ack_done :
    (enc : Encoding) (reading writing : Io) (consumer event : String) (w : World)
    → (ack enc reading writing consumer event w).1 ≡ none
    → ((is_blank consumer || is_blank event) ≡ false) × ((reload_locked enc reading w).1 ≡ none)
unfolding ack
ack_done enc reading writing consumer event w h =
    elim (Bool-cases (is_blank consumer || is_blank event)) [
      | inl blank ↦ absurd (none≢some (sym (rw (ack, blank) at h)))
      | inr named ↦ elim (Option-cases (reload_locked enc reading w).1) [
        | inl fine ↦ (named, fine)
        | inr (error, failed) ↦ absurd (none≢some (sym (rw (ack, named, failed) at h)))
      ]
    ]

-- An `Ack` that succeeds names, by its trimmed ID, an event that is retained after the reload, and
-- which is not before the one that the trimmed consumer had acknowledged, if that is retained; it is
-- then the consumer's, and every other consumer's reads as after the reload. The file is not at a
-- lower revision than the bus.
pub ack_moves_forward :
    (enc : Encoding) (reading writing : Io) (consumer event : String) (w : World)
    → is_behind w ≡ false
    → (ack enc reading writing consumer event w).1 ≡ none
    → let v = (reload_locked enc reading w).0 in
      ((index : ℕ) × (position (trim_space event) v.bus.events ≡ some index)
        × IsAhead v.bus (trim_space consumer) index)
      × ((other : String)
          → lookup other (ack enc reading writing consumer event w).0.bus.acks ≡ (
              if str_eq (trim_space consumer) other
              then some (trim_space event)
              else lookup other v.bus.acks))
unfolding ack
ack_moves_forward enc reading writing consumer event w ahead h =
    let v = (reload_locked enc reading w).0 in
    let (named, fine) = ack_done enc reading writing consumer event w h in
    let same : ack enc reading writing consumer event w
        ≡ ack_loaded enc writing (trim_space consumer) (trim_space event) v =
      rw (ack, named, fine) refl in
    let (found, moved) =
      ack_loaded_moves enc writing (trim_space consumer) (trim_space event) v
        (reload_locked-IsCurrent enc reading w ahead fine) (ap (λ r. r.1) (sym same) ∙ h) in
    (found, λ other. ap (λ r. lookup other r.0.bus.acks) same ∙ moved other)

-- An `Ack` that fails, at a test, in the reload or in the write of the file, leaves what every
-- consumer has acknowledged as it is after the reload, or as it was if an ID is blank: every lookup
-- reads the same, a missing one as blank. The file is not at a lower revision than the bus.
pub ack_error_keeps :
    (enc : Encoding) (reading writing : Io) (consumer event other : String) (w : World)
    (error : BusError)
    → is_behind w ≡ false
    → (ack enc reading writing consumer event w).1 ≡ some error
    → lookup_or "" other (ack enc reading writing consumer event w).0.bus.acks
      ≡ lookup_or "" other (ack_start enc reading consumer event w).bus.acks
unfolding ack
ack_error_keeps enc reading writing consumer event other w error ahead h =
    elim (Bool-cases (is_blank consumer || is_blank event)) [
      | inl blank ↦ rw (ack, blank) refl
      | inr named ↦ elim (Option-cases (reload_locked enc reading w).1) [
        | inr (_, failed) ↦ rw (ack, named, failed) refl
        | inl fine ↦
            rw (ack, named, fine)
              (ack_loaded_keeps enc writing (trim_space consumer) (trim_space event) other
                (reload_locked enc reading w).0 error
                (reload_locked-IsCurrent enc reading w ahead fine) (rw (ack, named, fine) at h))
      ]
    ]
