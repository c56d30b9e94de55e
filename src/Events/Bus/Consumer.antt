-- ===== src/Events/Bus/Consumer.antt =====
-- The consumers of the event bus: `Ack`, `AckScoped`, the deliveries and their tokens, of
-- internal/events/events.go.
use adro.Prelude.{
  ℕ, suc, Bool, false, not, ◌||◌, String, str_eq, List, [], ◌∷◌, Option, none, some, if◌then◌else◌,
  find, ltb, is_empty,
}
use adro.Prelude.Int.{ℤ, pos, add64, ltb_ℤ, eqb_ℤ}
use adro.Prelude.Text.{trim_space, is_blank, ◌<>◌}
use adro.Prelude.Assoc.{Assoc, lookup, lookup_or, insert, delete}
use Prim.Native.Char.{code}
use adro.Prelude.{◌==◌}
use adro.Events.Envelope.{Envelope, Encoding, clone_envelope}
use adro.Events.Bus.{
  Bus, World, BusError, required, not_retained, moves_backwards, invalid_cursor, Io,
}
use adro.Events.Bus.File.{persist_locked, reload_locked}
use adro.Events.Bus.Replay.{
  Page, page, unread, scoped_consumer_id, of_stream, replay, replay_scoped,
}

-- The place of the first event with the ID.
unfoldable pub position : String → List Envelope → Option ℕ
position id [] = none
position id (e ∷ es) =
    let later = position id es in
    if str_eq e.event_id id then some 0 else elim later [ none ↦ none | some n ↦ some (suc n) ]

abbrev pub delivery_key : String → String → String
delivery_key consumer event = consumer <> "\0" <> event

-- The consumer has acknowledged an event that is retained and later.
unfoldable pub moves_back : Bus → String → ℕ → Bool
unfolding position
moves_back b consumer index =
    let previous = lookup_or "" consumer b.acks in
    if str_eq previous ""
    then false
    else elim (position previous b.events) [ none ↦ false | some earlier ↦ ltb index earlier ]

unfoldable pub set_back {ℓ} : {V : Type ℓ} → String → Option V → Assoc V → Assoc V
set_back key none m = delete key m
set_back key (some old) m = insert key old m

-- The acknowledgement as it is put back: a blank one is deleted.
unfoldable pub put_back_ack : Bus → String → String → Bus → Bus
unfolding set_back
put_back_ack before consumer event b =
    let previous = lookup_or "" consumer before.acks in
    let key = delivery_key consumer event in
    record b {
      acks = if str_eq previous "" then delete consumer b.acks else insert consumer previous b.acks;
      delivery_attempts = set_back key (lookup key before.delivery_attempts) b.delivery_attempts;
    }

unfoldable pub write_ack : Encoding → Io → String → String → World → World × Option BusError
unfolding persist_locked put_back_ack
write_ack enc io consumer event w =
    let (v, failed) = persist_locked enc io (record w {
      bus = record w.bus {
        acks = insert consumer event w.bus.acks;
        delivery_attempts = delete (delivery_key consumer event) w.bus.delivery_attempts;
      };
    }) in
    elim failed as (λ _. World × Option BusError) [
      | none ↦ (v, none)
      | some error ↦ (record v { bus = put_back_ack w.bus consumer event v.bus }, some error)
    ]

-- `Ack` after the reload
unfoldable pub ack_loaded : Encoding → Io → String → String → World → World × Option BusError
unfolding position moves_back write_ack
ack_loaded enc io consumer event w =
    elim (position event w.bus.events) as (λ _. World × Option BusError) [
      | none ↦ (w, some not_retained)
      | some index ↦
          if moves_back w.bus consumer index
          then (w, some moves_backwards)
          else write_ack enc io consumer event w
    ]

unfoldable pub ack : Encoding → Io → Io → String → String → World → World × Option BusError
unfolding reload_locked ack_loaded
ack enc reading writing consumer event w =
    let (v, failed) = reload_locked enc reading w in
    if is_blank consumer || is_blank event
    then (w, some required)
    else elim failed as (λ _. World × Option BusError) [
      | some error ↦ (v, some error)
      | none ↦ ack_loaded enc writing (trim_space consumer) (trim_space event) v
    ]

-- `AckScoped` after its reload
unfoldable pub ack_scoped :
    Encoding
    → Io
    → Io
    → (consumer tenant workspace aggregate event : String) → World
    → World × Option BusError
unfolding ack
ack_scoped enc reading writing consumer tenant workspace aggregate event w =
    elim (find (λ e. str_eq e.event_id event) w.bus.events) as (λ _. World × Option BusError) [
      | none ↦ (w, some invalid_cursor)
      | some e ↦
          if of_stream tenant workspace aggregate e
          then ack enc reading writing (scoped_consumer_id consumer tenant workspace aggregate)
              event w
          else (w, some invalid_cursor)
    ]

unfoldable pub ack_token : Encoding → String → String → String
ack_token enc consumer event =
    event <> "." <> enc.sha256_hex (trim_space consumer <> "\0" <> trim_space event)

-- `strings.SplitN(s, ".", 2)` where there is a dot
unfoldable pub cut_dot : String → Option (String × String)
cut_dot String.[] = none
cut_dot (String.◌∷◌ c s) =
    let rest = cut_dot s in
    if code c == 46
    then some ("", s)
    else elim rest [ none ↦ none | some (head, tail) ↦ some (String.◌∷◌ c head, tail) ]

-- An invalid token is `none`.
unfoldable pub verify_ack_token : Encoding → String → String → Option String
unfolding ack_token cut_dot
verify_ack_token enc consumer token = elim (cut_dot (trim_space token)) [
  | none ↦ none
  | some (event, sum) ↦
      if str_eq event "" || str_eq sum "" || not (str_eq (ack_token enc consumer event) token)
      then none
      else some event
]

unfoldable pub ack_delivery : Encoding → Io → Io → String → String → World → World × Option BusError
unfolding verify_ack_token ack
ack_delivery enc reading writing consumer token w =
    elim (verify_ack_token enc (trim_space consumer) token) as (λ _. World × Option BusError) [
      | none ↦ (w, some invalid_cursor)
      | some event ↦ ack enc reading writing consumer event w
    ]

pub record Delivery : Type 0 where
  pub event : Envelope
  pub ack_token : String
  pub attempt : ℤ
  pub redelivered : Bool

-- The attempts and the deliveries of the events, in their order.
unfoldable pub number_deliveries :
    Encoding → String → Assoc ℤ → List Envelope → Assoc ℤ × List Delivery
unfolding ack_token clone_envelope
number_deliveries enc consumer attempts [] = (attempts, [])
number_deliveries enc consumer attempts (e ∷ es) =
    let key = delivery_key consumer e.event_id in
    let attempt = add64 (lookup_or (pos 0) key attempts) (pos 1) in
    let (counted, deliveries) = number_deliveries enc consumer (insert key attempt attempts) es in
    let delivery : Delivery = record {
      event = clone_envelope enc e;
      ack_token = ack_token enc consumer e.event_id;
      attempt = attempt;
      redelivered = ltb_ℤ (pos 1) attempt;
    } in
    (counted, delivery ∷ deliveries)

-- The attempts of the events before they are counted.
unfoldable pub attempts_before : String → Assoc ℤ → List Envelope → Assoc ℤ
attempts_before consumer attempts [] = []
attempts_before consumer attempts (e ∷ es) =
    (
      delivery_key consumer e.event_id,
      lookup_or (pos 0) (delivery_key consumer e.event_id) attempts,
    )
    ∷ attempts_before consumer attempts es

unfoldable pub put_back_attempts : Assoc ℤ → Assoc ℤ → Assoc ℤ
put_back_attempts [] attempts = attempts
put_back_attempts ((key, attempt) ∷ before) attempts =
    put_back_attempts before
      (if eqb_ℤ attempt (pos 0) then delete key attempts else insert key attempt attempts)

pub data Delivered : Type 0 where
  delivered : List Delivery → String → Delivered
  undelivered : BusError → Delivered

-- `recordDeliveries`, for events with distinct IDs
unfoldable pub record_deliveries :
    Encoding → Io → String → List Envelope → String → World → World × Delivered
unfolding attempts_before put_back_attempts number_deliveries persist_locked
record_deliveries enc io consumer items next w =
    let (attempts, deliveries) = number_deliveries enc consumer w.bus.delivery_attempts items in
    let before = attempts_before consumer w.bus.delivery_attempts items in
    let (v, failed) =
      persist_locked enc io (record w { bus = record w.bus { delivery_attempts = attempts } }) in
    let back : World = record v {
      bus = record v.bus { delivery_attempts = put_back_attempts before v.bus.delivery_attempts };
    } in
    if is_empty items then (w, delivered [] next) else elim failed as (λ _. World × Delivered) [
      | some error ↦ (back, undelivered error)
      | none ↦ (v, delivered deliveries next)
    ]

-- `Deliver` and `DeliverScoped`, from the page that they have read
unfoldable pub deliver_page : Encoding → Io → String → Page → World → World × Delivered
unfolding record_deliveries
deliver_page enc io consumer (unread error) w = (w, undelivered error)
deliver_page enc io consumer (page items next) w = record_deliveries enc io consumer items next w

unfoldable pub deliver :
    Encoding → Io → (consumer aggregate cursor : String) → ℤ → World → World × Delivered
unfolding deliver_page replay
deliver enc io consumer aggregate cursor limit w =
    if is_blank consumer
    then (w, undelivered required)
    else deliver_page enc io (trim_space consumer)
        (replay enc (trim_space consumer) aggregate cursor limit w.bus) w

unfoldable pub deliver_scoped :
    Encoding
    → Io
    → (consumer tenant workspace aggregate cursor : String) → ℤ
    → World
    → World × Delivered
unfolding deliver_page replay_scoped
deliver_scoped enc io consumer tenant workspace aggregate cursor limit w =
    if is_blank consumer
    then (w, undelivered required)
    else deliver_page enc io (scoped_consumer_id consumer tenant workspace aggregate)
        (replay_scoped enc consumer tenant workspace aggregate cursor limit w.bus) w
