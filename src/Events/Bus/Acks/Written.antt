-- ===== src/Events/Bus/Acks/Written.antt =====
-- `Ack` of internal/events/events.go after its reload, on a file at the bus's revision.
use adro.Prelude.{
  ℕ, ◌≤◌, ◌≡◌, ◌≢◌, refl, sym, ap, ◌∙◌, inl, inr, true, false, String, str_eq, Option, none, some,
  arith, if◌then◌else◌, eq_iff, Bool-cases, Option-cases,
}
use adro.Prelude.Int.{eqb_ℤ}
use adro.Prelude.Assoc.{Assoc, lookup, lookup_or, insert, delete, lookup-insert, lookup-delete}
use adro.Events.Envelope.{Encoding}
use adro.Events.Bus.{Bus, World, Snapshot, BusError, Io}
use adro.Events.Bus.File.{persist_locked, persist_over, write_file}
use adro.Events.Bus.Consumer.{
  position, moves_back, put_back_ack, write_ack, ack_loaded, delivery_key,
}

pub none≢some : {A : Type 0} {x : A} → none ≢ some x
none≢some h = cc

-- The file of the bus is at the revision that the bus has read or written.
abbrev pub IsCurrent : World → Type 0
IsCurrent w =
    (file : Snapshot)
    → str_eq w.bus.state_path "" ≡ false
    → w.file ≡ some file
    → eqb_ℤ file.revision w.bus.revision ≡ true

write_file-acks :
    (enc : Encoding) (io : Io) (w : World) → (write_file enc io w).0.bus.acks ≡ w.bus.acks
unfolding write_file
write_file-acks enc io w = ground arith

persist_over-acks :
    (enc : Encoding) (io : Io) (w : World) (o : Option Snapshot)
    → ((file : Snapshot) → o ≡ some file → eqb_ℤ file.revision w.bus.revision ≡ true)
    → (persist_over enc io w o).0.bus.acks ≡ w.bus.acks
unfolding persist_over
persist_over-acks enc io w none current = write_file-acks enc io w
persist_over-acks enc io w (some file) current =
    rw (persist_over, current file refl) (write_file-acks enc io w)

persist_locked-acks :
    (enc : Encoding) (io : Io) (w : World)
    → IsCurrent w
    → (persist_locked enc io w).0.bus.acks ≡ w.bus.acks
unfolding persist_locked
persist_locked-acks enc io w current = elim (Bool-cases (str_eq w.bus.state_path "")) [
  | inl unsaved ↦ rw (persist_locked, unsaved) refl
  | inr saved ↦
      ground
        (arith, saved, persist_over-acks enc io w w.file (λ file there. current file saved there))
]

-- The index that the consumer had acknowledged, if it has one that is retained.
abbrev pub IsAhead : Bus → String → ℕ → Type 0
IsAhead b consumer index =
    (earlier : ℕ)
    → str_eq (lookup_or "" consumer b.acks) "" ≡ false
    → position (lookup_or "" consumer b.acks) b.events ≡ some earlier
    → earlier ≤ index

moves_back_not :
    (b : Bus) (consumer : String) (index : ℕ)
    → moves_back b consumer index ≡ false
    → IsAhead b consumer index
unfolding moves_back
moves_back_not b consumer index h earlier some_ there =
    ground (arith, rw (moves_back, some_, there) at h)

put_back_lookup :
    (consumer event other : String) (m : Assoc String)
    → lookup_or "" other (
        if str_eq (lookup_or "" consumer m) ""
        then delete consumer (insert consumer event m)
        else insert consumer (lookup_or "" consumer m) (insert consumer event m))
      ≡ lookup_or "" other m
unfolding lookup_or
put_back_lookup consumer event other m = ground (
  arith,
  lookup-insert consumer other event m,
  lookup-delete consumer other (insert consumer event m),
  lookup-insert consumer other (lookup_or "" consumer m) (insert consumer event m),
  eq_iff consumer other,
  eq_iff (lookup_or "" consumer m) "",
)

-- What one acknowledgement leaves of the others, and of its own.
module _ (enc : Encoding) (io : Io) (consumer event : String) (w : World)
    (current : IsCurrent w) where
  asked : World
  asked = record w {
    bus = record w.bus {
      acks = insert consumer event w.bus.acks;
      delivery_attempts = delete (delivery_key consumer event) w.bus.delivery_attempts;
    };
  }

  write_ack_done :
      (write_ack enc io consumer event w).1 ≡ none
      → (write_ack enc io consumer event w).0.bus.acks ≡ insert consumer event w.bus.acks
  unfolding write_ack asked
  write_ack_done done = elim (Option-cases (persist_locked enc io asked).1) [
    | inl fine ↦ rw (write_ack, fine) (persist_locked-acks enc io asked current)
    | inr (error, failed) ↦ absurd (none≢some (sym (rw (write_ack, failed) at done)))
  ]

  write_ack_failed :
      (error : BusError) (other : String)
      → (write_ack enc io consumer event w).1 ≡ some error
      → lookup_or "" other (write_ack enc io consumer event w).0.bus.acks
        ≡ lookup_or "" other w.bus.acks
  unfolding write_ack asked put_back_ack
  write_ack_failed error other h = elim (Option-cases (persist_locked enc io asked).1) [
    | inl fine ↦ absurd (none≢some (rw (write_ack, fine) refl ∙ h))
    | inr (error, failed) ↦
        rw (write_ack, failed, persist_locked-acks enc io asked current)
          (put_back_lookup consumer event other w.bus.acks)
  ]

ack_loaded_done :
    (enc : Encoding) (io : Io) (consumer event : String) (w : World)
    → (ack_loaded enc io consumer event w).1 ≡ none
    → (index : ℕ) × (position event w.bus.events ≡ some index)
      × (moves_back w.bus consumer index ≡ false)
      × ((write_ack enc io consumer event w).1 ≡ none)
      × ((ack_loaded enc io consumer event w).0 ≡ (write_ack enc io consumer event w).0)
unfolding ack_loaded
ack_loaded_done enc io consumer event w h = elim (Option-cases (position event w.bus.events)) [
  | inl lost ↦ absurd (none≢some (sym (rw (ack_loaded, lost) at h)))
  | inr (index, there) ↦ elim (Bool-cases (moves_back w.bus consumer index)) [
    | inl back ↦ absurd (none≢some (sym (rw (ack_loaded, there, back) at h)))
    | inr forth ↦ (
      index,
      there,
      forth,
      rw (ack_loaded, there, forth) at h,
      rw (ack_loaded, there, forth) refl,
    )
  ]
]

pub ack_loaded_moves :
    (enc : Encoding) (io : Io) (consumer event : String) (w : World)
    → IsCurrent w
    → (ack_loaded enc io consumer event w).1 ≡ none
    → ((index : ℕ) × (position event w.bus.events ≡ some index) × IsAhead w.bus consumer index)
      × ((other : String)
          → lookup other (ack_loaded enc io consumer event w).0.bus.acks
            ≡ (if str_eq consumer other then some event else lookup other w.bus.acks))
ack_loaded_moves enc io consumer event w current h =
    let (index, there, forth, done, same) = ack_loaded_done enc io consumer event w h in
    (
      (index, there, moves_back_not w.bus consumer index forth),
      λ other.
          ap (λ v. lookup other v.bus.acks) same
          ∙ ap (lookup other) (write_ack_done enc io consumer event w current done)
          ∙ lookup-insert consumer other event w.bus.acks,
    )

pub ack_loaded_keeps :
    (enc : Encoding) (io : Io) (consumer event other : String) (w : World) (error : BusError)
    → IsCurrent w
    → (ack_loaded enc io consumer event w).1 ≡ some error
    → lookup_or "" other (ack_loaded enc io consumer event w).0.bus.acks
      ≡ lookup_or "" other w.bus.acks
unfolding ack_loaded
ack_loaded_keeps enc io consumer event other w error current h =
    elim (Option-cases (position event w.bus.events)) [
      | inl lost ↦ rw (ack_loaded, lost) refl
      | inr (index, there) ↦ elim (Bool-cases (moves_back w.bus consumer index)) [
        | inl back ↦ rw (ack_loaded, there, back) refl
        | inr forth ↦
            rw (ack_loaded, there, forth)
              (write_ack_failed enc io consumer event w current error other
                (rw (ack_loaded, there, forth) at h))
      ]
    ]
