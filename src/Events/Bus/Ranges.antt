-- ===== src/Events/Bus/Ranges.antt =====
-- The ranges that `ReplayRange` of internal/events/events.go gives of a valid history.
use adro.Prelude.{
  ℕ, suc, ◌+◌, ◌-◌, ◌^◌, ◌≤◌, ◌<◌, ◌≡◌, refl, ap, ◌∙◌, Bool, true, false, not, ◌&&◌, String, List,
  [], ◌∷◌, Option, none, some, arith, if◌then◌else◌, length, map, keep, leb, ltb,
}
use adro.Prelude.Int.{pos, add64, ltb_ℤ, eqb_ℤ, ◌-ℤ◌, add64-suc}
use adro.Events.Envelope.{Envelope, Encoding, clone_envelope}
use adro.Events.Chain.{IsChain, IsHistory}
use adro.Events.Bus.{Bus}
use adro.Events.Bus.Replay.{in_scope, in_range, count_events, replay_range}

-- The number of the integers from `lo` to `hi` that are `n` or one of those after it.
abbrev overlap : ℕ → ℕ → ℕ → ℕ → ℕ
overlap lo hi n size =
    (if leb (n + size) (suc hi) then n + size else suc hi) - (if leb lo n then n else lo)

in_range-pos :
    (lo hi n : ℕ) (e : Envelope)
    → e.sequence ≡ pos n
    → in_range (pos lo) (pos hi) e ≡ (leb lo n && leb n hi)
in_range-pos lo hi n e h = rw h (ground arith)

count_events-chain :
    (enc : Encoding) (lo hi n : ℕ) (previous : Option String) (seen : List String)
    (es : List Envelope)
    → lo ≤ hi
    → IsChain enc n previous seen es
    → count_events (in_range (pos lo) (pos hi)) es ≡ overlap lo hi n (length es)
unfolding count_events
count_events-chain enc lo hi n previous seen [] ordered c = ground arith
count_events-chain enc lo hi n previous seen (e ∷ es) ordered (_, numbered, _, _, c) =
    rw
      (
        count_events,
        in_range-pos lo hi n e numbered,
        count_events-chain enc lo hi (suc n) (some e.envelope_hash) (e.event_id ∷ seen) es ordered
            c,
      )
      (ground (arith, ordered))

below : (lo hi : ℕ) → lo ≤ hi → pos hi -ℤ pos lo ≡ pos (hi - lo)
unfolding ◌-ℤ◌
below lo hi ordered = ground (arith, ordered)

if_not {ℓ} : {A : Type ℓ} (t : Bool) (x y : A) → (if not t then x else y) ≡ (if t then y else x)
if_not true x y = refl
if_not false x y = refl

-- The count is that of the whole range exactly where the whole range is there.
overlap_all :
    (lo hi base size : ℕ)
    → 0 < lo
    → lo ≤ hi
    → eqb_ℤ (pos (overlap lo hi base size)) (pos (suc (hi - lo)))
      ≡ (leb base lo && ltb hi (base + size))
overlap_all lo hi base size positive ordered = ground (arith, positive, ordered)

distance :
    (lo hi : ℕ)
    → lo ≤ hi
    → hi < 2 ^ 63
    → 0 < lo
    → add64 (pos hi -ℤ pos lo) (pos 1) ≡ pos (suc (hi - lo))
unfolding ◌-ℤ◌
distance lo hi ordered fits positive =
    ap (λ z. add64 z (pos 1)) (below lo hi ordered)
    ∙ add64-suc (hi - lo) (omega (arith, ordered, fits, positive))

-- A range of numbers is given exactly where all of it is retained: then the result is the events of
-- the scope with a number in the range, copied, in the order of the history; and a range that the
-- history has lost a part of, or has not come to, is refused. The history is valid.
pub replay_range_iff :
    (enc : Encoding) (tenant workspace aggregate : String) (base lo hi : ℕ) (b : Bus)
    → IsHistory enc base b.events
    → 0 < lo
    → lo ≤ hi
    → hi < 2 ^ 63
    → replay_range enc tenant workspace aggregate (pos lo) (pos hi) b ≡ (
        if leb base lo && ltb hi (base + length b.events)
        then some (
            map (clone_envelope enc) (
              keep
                (λ e. in_range (pos lo) (pos hi) e && in_scope tenant workspace aggregate e)
                b.events))
        else none)
unfolding replay_range
replay_range_iff enc tenant workspace aggregate base lo hi b h positive ordered fits =
    let first : ltb_ℤ (pos lo) (pos 1) ≡ false = ground (arith, positive) in
    let last : ltb_ℤ (pos hi) (pos lo) ≡ false = ground (arith, ordered) in
    rw
      (
        replay_range,
        first,
        last,
        count_events-chain enc lo hi base none [] b.events ordered h.chain,
        distance lo hi ordered fits positive,
        overlap_all lo hi base (length b.events) positive ordered,
      )
      (if_not (leb base lo && ltb hi (base + length b.events)) _ _)
