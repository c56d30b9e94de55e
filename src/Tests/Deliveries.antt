-- ===== src/Tests/Deliveries.antt =====
-- Concrete readers of the events: internal/events/events.go.
use adro.Prelude.{
  ◌++◌, ◌≡◌, ◌↔◌, refl, true, false, [], ◌∷◌, List, none, some, All, arith, map, keep, length,
  if◌then◌else◌, leb, ltb, ◌&&◌, ◌+◌, ◌≤◌,
}
use adro.Prelude.Int.{pos}
use adro.Prelude.Text.{◌<>◌, trim_space}
use adro.Events.Envelope.{Envelope, Encoding, clone_envelope}
use adro.Events.Bus.{Bus, prune_locked, Subscriber, no_gap}
use adro.Events.Bus.Retention.{IsRetained, prune_locked_lem}
use adro.Events.Bus.Replay.{
  page, of_stream, in_range, in_scope, replay_scoped, replay_range, page_limit,
}
use adro.Events.Bus.Scope.{replay_scoped_stays_in_scope}
use adro.Events.Bus.Ranges.{replay_range_iff}
use adro.Events.Bus.Consumer.{ack_token, verify_ack_token}
use adro.Events.Bus.Tokens.{has_dot, verify_ack_token-ack_token}
use adro.Tests.Streams.{enc, first, second, bus, history}

abbrev hex_enc : Encoding
hex_enc = record enc { sha256_hex = λ s. "0f3a" }

undotted : has_dot "a" ≡ false
unfolding has_dot
undotted = refl

trimmed : trim_space (ack_token hex_enc "c" "a") ≡ ack_token hex_enc "c" "a"
unfolding ack_token trim_space ◌<>◌
trimmed = refl

verify_ack_token-ack_token_example :
    (verify_ack_token hex_enc "c" "a.beef" ≡ some "a") ↔ ("a.beef" ≡ ack_token hex_enc "c" "a")
verify_ack_token-ack_token_example =
    verify_ack_token-ack_token hex_enc "c" "a" "a.beef" undotted refl (λ text. refl) trimmed

abbrev slow : Subscriber
slow = record { id = 0; buffer = 1; queue = []; gap = no_gap }

abbrev sent : List Envelope
sent = first ∷ second ∷ []

replay_range_iff_example : replay_range enc "" "" "" (pos 2) (pos 3) bus ≡ (
    if leb 1 2 && ltb 3 (1 + length bus.events)
    then some (
        map
          (clone_envelope enc)
          (keep (λ e. in_range (pos 2) (pos 3) e && in_scope "" "" "" e) bus.events))
    else none)
replay_range_iff_example =
    replay_range_iff enc "" "" "" 1 2 3 bus history (omega arith) (omega arith) (omega arith)

reads : replay_scoped enc "" "" "w" "" "a" (pos 5) bus ≡ page (second ∷ []) ""
unfolding replay_scoped trim_space
reads = refl

replay_scoped_stays_in_scope_example :
    All (λ e. of_stream "" "w" "" e ≡ true) (second ∷ [])
    × (length (second ∷ []) ≤ page_limit (pos 5))
    × (length (second ∷ []) ≤ 250)
replay_scoped_stays_in_scope_example =
    replay_scoped_stays_in_scope enc "" "" "w" "" "a" (pos 5) bus (second ∷ []) "" reads

abbrev limited : Bus
limited = record bus { retention = record { max_events = pos 1; max_age = pos 0 } }

prune_locked_lem_example :
    ((front : List Envelope) × (limited.events ≡ front ++ (prune_locked 200 limited).events))
    × IsRetained limited (prune_locked 200 limited).events
prune_locked_lem_example = prune_locked_lem 200 limited
