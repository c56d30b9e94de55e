-- ===== src/Events/Bus/Replay.antt =====
-- The readers of the event bus: `ListChecked`, `Replay`, `ReplayScoped`, `ReplayRange` and the
-- counts of internal/events/events.go. Each is the part that runs after the reload.
use adro.Prelude.{
  ℕ, zero, suc, Bool, false, not, ◌&&◌, ◌||◌, String, str_eq, List, [], ◌∷◌, Option, none, some,
  if◌then◌else◌, length, keep, map, leb, ◌==◌,
}
use adro.Prelude.Int.{ℤ, pos, add64, ltb_ℤ, eqb_ℤ, is_pos, pos_part, ◌-ℤ◌}
use adro.Prelude.Text.{trim_space, is_blank, ◌<>◌}
use adro.Prelude.Assoc.{lookup, lookup_or}
use adro.Orchestration.Value.{Value}
use adro.Events.Envelope.{Envelope, Encoding, clone_envelope}
use adro.Events.Bus.{Bus, BusError, invalid_cursor, foreign_cursor}

pub data Page : Type 0 where
  page : List Envelope → String → Page
  unread : BusError → Page

-- The number of events on a page.
unfoldable pub page_limit : ℤ → ℕ
page_limit limit =
    if not (is_pos limit) || not (leb (pos_part limit) 250) then 100 else pos_part limit

abbrev pub of_aggregate : String → Envelope → Bool
of_aggregate aggregate e = str_eq aggregate "" || str_eq e.aggregate_id aggregate

-- A stream of a tenant, a workspace and an aggregate; a blank tenant or aggregate is every one.
abbrev pub of_stream : String → String → String → Envelope → Bool
of_stream tenant workspace aggregate e =
    str_eq e.workspace_id workspace
    && (str_eq tenant "" || str_eq e.tenant_id tenant)
    && of_aggregate aggregate e

pub data Cursor : Type 0 where
  after : List Envelope → Cursor
  lost foreign : Cursor

-- The events after the first with the ID, if it passes the test.
unfoldable pub seek : (Envelope → Bool) → String → List Envelope → Cursor
seek ours cursor [] = lost
seek ours cursor (e ∷ es) =
    if str_eq e.event_id cursor then if ours e then after es else foreign else seek ours cursor es

-- A blank cursor stands before the first event.
unfoldable pub start_at : (Envelope → Bool) → String → List Envelope → Cursor
unfolding seek
start_at ours cursor events = if str_eq cursor "" then after events else seek ours cursor events

-- The first events that pass the test, `room` of them at most.
unfoldable pub collect : Encoding → (Envelope → Bool) → ℕ → List Envelope → List Envelope
unfolding clone_envelope
collect enc ours zero es = []
collect enc ours (suc room) [] = []
collect enc ours (suc room) (e ∷ es) =
    let taken = collect enc ours room es in
    let others = collect enc ours (suc room) es in
    if ours e then clone_envelope enc e ∷ taken else others

abbrev pub last_id : String → List Envelope → String
last_id id [] = id
last_id id (e ∷ es) = last_id e.event_id es

-- The page of the events, and the cursor of the next where the page is full.
unfoldable pub read_page : Encoding → (Envelope → Bool) → ℕ → Cursor → Page
unfolding collect
read_page enc ours limit (after es) =
    let items = collect enc ours limit es in
    page items (if length items == limit then last_id "" items else "")
read_page enc ours limit lost = unread invalid_cursor
read_page enc ours limit foreign = unread foreign_cursor

unfoldable pub list_checked : Encoding → String → String → ℤ → Bus → Page
unfolding page_limit start_at read_page
list_checked enc aggregate cursor limit b =
    read_page enc (of_aggregate aggregate) (page_limit limit)
      (start_at (of_aggregate aggregate) cursor b.events)

-- `Replay`: a blank cursor is the consumer's acknowledgement.
unfoldable pub replay : Encoding → String → String → String → ℤ → Bus → Page
unfolding start_at list_checked
replay enc consumer aggregate cursor limit b =
    let effective =
      if is_blank cursor && not (is_blank consumer) then lookup_or "" consumer b.acks else cursor in
    elim (start_at (of_aggregate aggregate) effective b.events) [
      | after _ ↦ list_checked enc aggregate effective limit b
      | lost ↦ unread invalid_cursor
      | foreign ↦ unread foreign_cursor
    ]

abbrev pub scoped_consumer_id : String → String → String → String → String
scoped_consumer_id consumer tenant workspace aggregate =
    consumer <> "\0" <> tenant <> "\0" <> workspace <> "\0" <> aggregate

unfoldable pub replay_scoped :
    Encoding → (consumer tenant workspace aggregate cursor : String) → ℤ → Bus → Page
unfolding page_limit start_at read_page
replay_scoped enc consumer tenant workspace aggregate cursor limit b =
    let ours = of_stream tenant workspace aggregate in
    let given = trim_space cursor in
    let effective =
      if str_eq given "" && not (str_eq consumer "")
      then lookup_or "" (scoped_consumer_id consumer tenant workspace aggregate) b.acks
      else given in
    read_page enc ours (page_limit limit) (start_at ours effective b.events)

-- `ReplayRange` lets a blank workspace be every one.
abbrev pub in_scope : String → String → String → Envelope → Bool
in_scope tenant workspace aggregate e =
    (str_eq tenant "" || str_eq e.tenant_id tenant)
    && (str_eq workspace "" || str_eq e.workspace_id workspace)
    && of_aggregate aggregate e

abbrev pub in_range : ℤ → ℤ → Envelope → Bool
in_range from to e = not (ltb_ℤ e.sequence from) && not (ltb_ℤ to e.sequence)

unfoldable pub count_events : (Envelope → Bool) → List Envelope → ℕ
count_events test [] = 0
count_events test (e ∷ es) = let rest = count_events test es in if test e then suc rest else rest

-- `ReplayRange`, for numbers whose distance fits; an invalid cursor is `none`.
unfoldable pub replay_range :
    Encoding → (tenant workspace aggregate : String) → (from to : ℤ) → Bus → Option (List Envelope)
unfolding count_events clone_envelope
replay_range enc tenant workspace aggregate from to b =
    if ltb_ℤ from (pos 1) || ltb_ℤ to from
    then none
    else if not
        (eqb_ℤ (pos (count_events (in_range from to) b.events)) (add64 (to -ℤ from) (pos 1)))
    then none
    else some (
        map (clone_envelope enc)
          (keep (λ e. in_range from to e && in_scope tenant workspace aggregate e) b.events))

unfoldable pub count : String → Bus → ℕ
unfolding count_events
count aggregate b =
    if str_eq aggregate ""
    then length b.events
    else count_events (λ e. str_eq e.aggregate_id aggregate) b.events

unfoldable pub count_by_type : String → Bus → ℕ
unfolding count_events
count_by_type event_type b = count_events (λ e. str_eq e.event_type event_type) b.events

unfoldable pub dedupe_key_of : Envelope → Option String
dedupe_key_of e = elim e.payload [
  | none ↦ none
  | some fields ↦ elim (lookup "dedupe_key" fields) [ some (Value.text key) ↦ some key | _ ↦ none ]
]

unfoldable pub has_event : (event_type aggregate dedupe_key : String) → List Envelope → Bool
unfolding dedupe_key_of
has_event event_type aggregate dedupe_key [] = false
has_event event_type aggregate dedupe_key (e ∷ es) =
    (str_eq e.event_type event_type
      && str_eq e.aggregate_id aggregate
      && elim (dedupe_key_of e) [ none ↦ false | some key ↦ str_eq key dedupe_key ])
    || has_event event_type aggregate dedupe_key es
