-- ===== src/Events/Chain/Shrink.antt =====
-- A chain of events that has lost its first ones: `pruneLocked` of internal/events/events.go.
use adro.Prelude.{
  ℕ, zero, suc, ◌+◌, ◌≤◌, ◌≡◌, refl, false, String, List, [], ◌∷◌, Option, none, some, arith,
  length,
}
use mathlib.Core.Path.{subst}
use adro.Events.Envelope.{Envelope, Encoding}
use adro.Events.History.{knows}
use adro.Events.Bus.{drop}
use adro.Events.Chain.{IsChain, IsHistory}

-- What is unknown to one list is unknown to the other.
abbrev KnowsLess : List String → List String → Type 0
KnowsLess fewer more = (id : String) → knows id more ≡ false → knows id fewer ≡ false

KnowsLess-cons :
    (id : String) (fewer more : List String)
    → KnowsLess fewer more
    → KnowsLess (id ∷ fewer) (id ∷ more)
unfolding knows
KnowsLess-cons id fewer more h other unknown = ground (arith, h other)

IsChain-fewer :
    (enc : Encoding) (n : ℕ) (previous : Option String) (fewer more : List String)
    (es : List Envelope)
    → KnowsLess fewer more
    → IsChain enc n previous more es
    → IsChain enc n previous fewer es
IsChain-fewer enc n previous fewer more [] h c = tt
IsChain-fewer enc n previous fewer more (e ∷ es) h (s, numbered, fresh, follows, c) = (
  s,
  numbered,
  h e.event_id fresh,
  follows,
  IsChain-fewer enc (suc n) (some e.envelope_hash) (e.event_id ∷ fewer) (e.event_id ∷ more) es
      (KnowsLess-cons e.event_id fewer more h) c,
)

IsChain-start :
    (enc : Encoding) (n : ℕ) (previous : Option String) (seen : List String) (es : List Envelope)
    → IsChain enc n previous seen es
    → IsChain enc n none [] es
unfolding knows
IsChain-start enc n previous seen [] c = tt
IsChain-start enc n previous seen (e ∷ es) (s, numbered, fresh, follows, c) = (
  s,
  numbered,
  refl,
  tt,
  IsChain-fewer enc (suc n) (some e.envelope_hash) (e.event_id ∷ []) (e.event_id ∷ seen) es
      (KnowsLess-cons e.event_id [] seen (λ id unknown. refl)) c,
)

IsChain-drop :
    (enc : Encoding) (k n : ℕ) (previous : Option String) (seen : List String) (es : List Envelope)
    → IsChain enc n previous seen es
    → IsChain enc (n + k) none [] (drop k es)
unfolding drop
IsChain-drop enc zero n previous seen es c =
    subst (λ m. IsChain enc m none [] es) (omega arith) (IsChain-start enc n previous seen es c)
IsChain-drop enc (suc k) n previous seen [] c = tt
IsChain-drop enc (suc k) n previous seen (e ∷ es) (_, _, _, _, c) =
    subst (λ m. IsChain enc m none [] (drop k es)) (omega arith)
      (IsChain-drop enc k (suc n) (some e.envelope_hash) (e.event_id ∷ seen) es c)

pub length-drop : (k : ℕ) (es : List Envelope) → k ≤ length es → k + length (drop k es) ≡ length es
unfolding drop
length-drop zero es h = omega arith
length-drop (suc k) [] h = absurd (omega (arith, h))
length-drop (suc k) (e ∷ es) h = omega (arith, length-drop k es (omega (arith, h)))

-- A history without its first events is a history.
pub IsHistory-drop :
    (enc : Encoding) (k base : ℕ) (es : List Envelope)
    → k ≤ length es
    → IsHistory enc base es
    → IsHistory enc (base + k) (drop k es)
IsHistory-drop enc k base es h history = record {
  positive = omega (arith, history.positive);
  fits = omega (arith, history.fits, length-drop k es h);
  chain = IsChain-drop enc k base none [] es history.chain;
}
