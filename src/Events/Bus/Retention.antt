-- ===== src/Events/Bus/Retention.antt =====
-- What the retention of internal/events/events.go leaves: `pruneLocked`.
use adro.Prelude.{
  ℕ, zero, suc, ◌+◌, ◌≤◌, ◌≡◌, refl, ap, true, not, ◌&&◌, List, [], ◌∷◌, ◌++◌, arith, length, ltb,
  Bool-cases, inl, inr,
}
use adro.Prelude.Int.{is_pos, pos_part}
use adro.Orchestration.Projection.{Time}
use adro.Events.Envelope.{Envelope}
use adro.Events.Bus.{Bus, horizon, drop, prune_locked, rebuild_seen}
use adro.Events.Bus.Sound.{horizon-le, older-le}
use adro.Events.Chain.Shrink.{length-drop}

drop_front : (k : ℕ) (es : List Envelope) → (front : List Envelope) × (es ≡ front ++ drop k es)
unfolding drop
drop_front zero es = ([], refl)
drop_front (suc k) [] = ([], refl)
drop_front (suc k) (e ∷ es) =
    let (front, whole) = drop_front k es in (e ∷ front, ap (λ l. e ∷ l) whole)

-- The number of events is within the limit, if there is one.
abbrev pub IsRetained : Bus → List Envelope → Type 0
IsRetained b es = is_pos b.retention.max_events ≡ true → length es ≤ pos_part b.retention.max_events

horizon-IsRetained :
    (now : Time) (b : Bus)
    → is_pos b.retention.max_events ≡ true
    → length b.events ≤ pos_part b.retention.max_events + horizon b.retention now b.events
unfolding horizon
horizon-IsRetained now b limited =
    ground (arith, limited, older-le now (pos_part b.retention.max_age) b.events)

-- Pruning only ever drops events from the front, and leaves no more than the limit on their number,
-- where there is one: consumers lose the oldest events first, and never one from the middle.
pub prune_locked_lem :
    (now : Time) (b : Bus)
    → ((front : List Envelope) × (b.events ≡ front ++ (prune_locked now b).events))
      × IsRetained b (prune_locked now b).events
unfolding prune_locked rebuild_seen
prune_locked_lem now b =
    elim (Bool-cases (not (is_pos b.retention.max_events) && not (is_pos b.retention.max_age))) [
      | inl unlimited ↦
          rw (prune_locked, unlimited) (([], refl), λ limited. ground (arith, limited, unlimited))
      | inr limits ↦ elim (Bool-cases (ltb 0 (horizon b.retention now b.events))) [
        | inl old ↦
            rw (prune_locked, limits, old)
              (
                drop_front (horizon b.retention now b.events) b.events,
                λ limited. omega (
                  arith,
                  horizon-IsRetained now b limited,
                  length-drop (horizon b.retention now b.events) b.events (horizon-le b now),
                ),
              )
        | inr fresh ↦
            rw (prune_locked, limits, fresh)
              (([], refl), λ limited. ground (arith, fresh, horizon-IsRetained now b limited))
      ]
    ]
