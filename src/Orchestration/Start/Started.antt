-- ===== src/Orchestration/Start/Started.antt =====
-- What a start has passed and written: `StartAttempt` of internal/orchestration/transition.go.
pub use adro.Orchestration.Start.Written.{IsStarted, IsAllowed}
use adro.Prelude.{◌≡◌, ◌⊎◌, true, Option, String, str_eq}
use adro.Orchestration.Projection.{NodeAttempt, PlanProjection, TransitionInput}

-- The attempt that a start gives was there, with the input's key, and nothing is written; or it is new.
abbrev pub Outcome :
    PlanProjection → PlanProjection → String → TransitionInput → NodeAttempt → Type 0
Outcome p q node i b =
    ((q ≡ p) × (str_eq b.idempotency_key i.idempotency_key ≡ true)) ⊎ IsStarted p q node b
