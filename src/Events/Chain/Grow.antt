-- ===== src/Events/Chain/Grow.antt =====
-- A chain of events with one more: `Publish` of internal/events/events.go.
use adro.Prelude.{
  ℕ, suc, ◌+◌, ◌-◌, ◌^◌, ◌<◌, ◌≡◌, refl, ap, ◌∙◌, true, false, ◌||◌, String, str_eq, List, [], ◌∷◌,
  ◌++◌, Option, none, some, arith, if◌then◌else◌, length, length-append, ltb,
}
use adro.Prelude.Int.{pos, ltb_ℤ, add64, add64-suc}
use adro.Events.Envelope.{Envelope, Encoding}
use adro.Events.History.{knows, max_from, max_sequence, last_hash}
use adro.Events.Bus.{event_ids}
use adro.Events.Chain.{IsSealed, Follows, IsChain, IsHistory}

-- The hash that the next event must name.
abbrev pub last_link : Option String → List Envelope → Option String
last_link previous [] = previous
last_link previous (e ∷ es) = last_link (some e.envelope_hash) es

pub last_link-last_hash :
    (hash : String) (es : List Envelope) → last_link (some hash) es ≡ some (last_hash hash es)
last_link-last_hash hash [] = refl
last_link-last_hash hash (e ∷ es) = last_link-last_hash e.envelope_hash es

knows-eq : (a b : String) (seen : List String) → knows a (b ∷ seen) ≡ (str_eq a b || knows a seen)
unfolding knows
knows-eq a b seen = refl

IsChain-snoc :
    (enc : Encoding) (n : ℕ) (previous : Option String) (seen : List String) (es : List Envelope)
    (e : Envelope)
    → IsChain enc n previous seen es
    → IsSealed enc e
    → e.sequence ≡ pos (n + length es)
    → knows e.event_id seen ≡ false
    → knows e.event_id (event_ids es) ≡ false
    → Follows (last_link previous es) e
    → IsChain enc n previous seen (es ++ e ∷ [])
unfolding knows event_ids
IsChain-snoc enc n previous seen [] e c s numbered fresh new follows =
    (s, numbered ∙ ap pos (omega arith), fresh, follows, tt)
IsChain-snoc enc n previous seen (x ∷ es) e (sealed, numbers, unseen, link, c) s numbered fresh new
      follows =
    (
      sealed,
      numbers,
      unseen,
      link,
      IsChain-snoc enc (suc n) (some x.envelope_hash) (x.event_id ∷ seen) es e c s
          (numbered ∙ ap pos (omega arith)) (ground (arith, fresh, new)) (ground (arith, new))
          follows,
    )

max_from-chain :
    (enc : Encoding) (n m : ℕ) (previous : Option String) (seen : List String) (es : List Envelope)
    → m < n
    → IsChain enc n previous seen es
    → max_from (pos m) es ≡ (if ltb 0 (length es) then pos (n + length es - 1) else pos m)
unfolding max_from
max_from-chain enc n m previous seen [] h c = refl
max_from-chain enc n m previous seen (e ∷ es) h (_, numbered, _, _, c) =
    let higher : ltb_ℤ (pos m) e.sequence ≡ true = rw numbered (ground (arith, h)) in
    rw (max_from, higher, numbered)
      (ground (
        arith,
        max_from-chain enc (suc n) n (some e.envelope_hash) (e.event_id ∷ seen) es (omega arith) c,
      ))

-- The number that the next event of a history gets.
pub max_sequence-IsHistory :
    (enc : Encoding) (base : ℕ) (e : Envelope) (es : List Envelope)
    → IsHistory enc base (e ∷ es)
    → add64 (max_sequence (e ∷ es)) (pos 1) ≡ pos (base + length (e ∷ es))
unfolding max_sequence
max_sequence-IsHistory enc base e es h =
    let top : max_sequence (e ∷ es) ≡ pos (base + length (e ∷ es) - 1) =
      max_from-chain enc base 0 none [] (e ∷ es) h.positive h.chain ∙ ground arith in
    ap (λ z. add64 z (pos 1)) top
    ∙ add64-suc (base + length (e ∷ es) - 1) (omega (arith, h.fits))
    ∙ ap pos (omega arith)

module _ (enc : Encoding) (base : ℕ) (es : List Envelope) (e : Envelope) where
  pub IsHistory-snoc :
      IsHistory enc base es
      → base + suc (length es) < 2 ^ 63
      → IsSealed enc e
      → e.sequence ≡ pos (base + length es)
      → knows e.event_id (event_ids es) ≡ false
      → Follows (last_link none es) e
      → IsHistory enc base (es ++ e ∷ [])
  unfolding knows
  IsHistory-snoc h fits sealed numbered new follows = record {
    positive = h.positive;
    fits = omega (arith, fits, length-append es (e ∷ []));
    chain = IsChain-snoc enc base none [] es e h.chain sealed numbered refl new follows;
  }
