-- ===== src/Events/Merge.antt =====
-- The merge of a history with that of a peer: `mergePeerEventsPreservingCommitted` of
-- internal/events/events.go.
mod Rebase
pub use Rebase.{IsOurs, AllIn}
use Rebase.{none≢some, Names, IsPlaced, IsPlaced-history, rebase_local-IsHistory}
use adro.Prelude.{
  ℕ, suc, ◌+◌, ◌^◌, ◌<◌, ◌≡◌, ◌≢◌, refl, sym, ap, ◌∙◌, inl, inr, true, false, not, ◌&&◌, ◌||◌,
  String, str_eq, List, [], ◌∷◌, ◌++◌, Option, none, some, arith, length, eq_iff, length-append,
  Bool-cases, Option-cases, All,
}
use adro.Prelude.Int.{ℤ, pos, add64, add64-suc}
use adro.Prelude.Text.{is_blank}
use mathlib.Core.Path.{subst}
use mathlib.Core.List.{append_assoc, append-nil}
use mathlib.Core.Option.{some-injective}
use adro.Events.Envelope.{
  Envelope, Encoding, clone_envelope, envelope_hash, EncodesAll, clone_fields,
}
use adro.Events.History.{
  knows, traced, max_sequence, last_hash, seal, take_committed, rebase_local, merge_peer_events,
}
use adro.Events.Chain.{IsSealed, IsHistory, Follows}
use adro.Events.Chain.Grow.{max_sequence-IsHistory, IsHistory-snoc, last_link, last_link-last_hash}
use adro.Events.Bus.{event_ids}
use adro.Events.Bus.Pages.{knows-append}

take_committed_lem :
    (enc : Encoding) (seen : List String) (es taken : List Envelope) (known : List String)
    → All (λ e. clone_envelope enc e ≡ e) es
    → take_committed enc seen es ≡ some (taken, known)
    → (taken ≡ es) × ((id : String) → knows id known ≡ (knows id (event_ids es) || knows id seen))
unfolding take_committed knows event_ids
take_committed_lem enc seen [] taken known stable h =
    let both = some-injective ([], seen) (taken, known) h in
    (sym (ap (λ x. x.0) both), λ id. ap (λ x. knows id x.1) (sym both))
take_committed_lem enc seen (e ∷ es) taken known stable h =
    elim (Bool-cases (str_eq e.event_id "" || knows e.event_id seen)) [
      | inl refused ↦ absurd (none≢some (rw (take_committed, refused) at h))
      | inr fine ↦ elim (Option-cases (take_committed enc (e.event_id ∷ seen) es)) [
        | inl lost ↦ absurd (none≢some (rw (take_committed, fine, lost) at h))
        | inr ((rest, names), done) ↦
            let (same, known_) =
              take_committed_lem enc (e.event_id ∷ seen) es rest names stable.1 done in
            let both : ◌≡◌ {A = List Envelope × List String} (clone_envelope enc e ∷ rest, names)
                (taken, known) =
              some-injective (clone_envelope enc e ∷ rest, names) (taken, known)
                (rw (take_committed, fine, done) at h) in
            (
              sym (ap (λ x. x.0) both)
                  ∙ ap (λ l. l ++ rest) (ap (λ x. x ∷ []) stable.0)
                  ∙ ap (λ l. e ∷ l) same,
              λ id. ap (λ x. knows id x.1) (sym both) ∙ known_ id ∙ ground arith,
            )
      ]
    ]

-- What the merge leaves: the committed events as they are, with the others behind them, in one
-- valid history.
abbrev pub IsMerge : Encoding → List Envelope → List Envelope → List Envelope → Type 0
IsMerge enc committed added merged =
    ((moved : List Envelope) × (merged ≡ committed ++ moved))
    × ((base : ℕ) × IsHistory enc base merged)
    × AllIn added merged

rebased-IsMerge :
    (enc : Encoding) (base : ℕ) (committed added moved : List Envelope) (known : List String)
    → EncodesAll enc
    → IsHistory enc base committed
    → Names known committed
    → All (IsOurs enc) added
    → base + (length committed + length added) < 2 ^ 63
    → rebase_local enc (max_sequence committed) (last_hash "" committed) known added ≡ some moved
    → IsMerge enc committed added (committed ++ moved)
unfolding max_sequence
rebased-IsMerge enc base [] added moved known encodes h names ours fits done =
    let start : IsPlaced enc encodes 1 (pos 0) "" known [] = record {
      history = record { positive = omega arith; fits = omega arith; chain = tt };
      number = add64-suc 0 (omega arith);
      link = λ e same. tt;
      names = names;
    } in
    let (history, found) =
      rebase_local-IsHistory enc encodes 1 (pos 0) "" known [] added moved start ours
        (omega (arith, fits, h.positive)) done in
    ((moved, refl), (1, history), found)
rebased-IsMerge enc base (e ∷ es) added moved known encodes h names ours fits done =
    let (history, found) =
      rebase_local-IsHistory enc encodes base (max_sequence (e ∷ es)) (last_hash "" (e ∷ es)) known
        (e ∷ es) added moved (IsPlaced-history enc encodes base e es h known names) ours fits
        done in
    ((moved, refl), (base, history), found)

-- A merge that succeeds keeps the committed events, unchanged and in their order, as the front
-- of its result; it has every event of this process, by ID; and the result is a valid history,
-- with the numbers, the hash chain and the IDs of one. The committed events are a valid history
-- that copying does not change, there is room for the numbers, and the events of this process
-- have an ID that is not blank, the schema's version, a time before the year 10000 and a trace
-- context that parses; and an envelope with such a time and an encodable payload encodes.
pub committed_events_survive :
    (enc : Encoding) (base : ℕ) (committed added merged : List Envelope)
    → EncodesAll enc
    → IsHistory enc base committed
    → All (λ e. clone_envelope enc e ≡ e) committed
    → All (IsOurs enc) added
    → base + (length committed + length added) < 2 ^ 63
    → merge_peer_events enc committed added ≡ some merged
    → IsMerge enc committed added merged
unfolding merge_peer_events knows
committed_events_survive enc base committed added merged encodes h stable ours fits done =
    elim (Option-cases (take_committed enc [] committed)) [
      | inl lost ↦ absurd (none≢some (rw (merge_peer_events, lost) at done))
      | inr ((taken, known), took) ↦
          let (same, names) = take_committed_lem enc [] committed taken known stable took in
          elim (Option-cases
            (rebase_local enc (max_sequence committed) (last_hash "" committed) known added)) [
              | inl lost ↦ absurd (none≢some (rw (merge_peer_events, took, lost) at done))
              | inr (moved, rebased) ↦
                  let whole : taken ++ moved ≡ merged =
                    some-injective (taken ++ moved) merged
                      (rw (merge_peer_events, took, rebased) at done) in
                  subst (IsMerge enc committed added) (ap (λ l. l ++ moved) (sym same) ∙ whole) (
                    rebased-IsMerge enc base committed added moved known encodes h
                      (λ id. names id ∙ ground arith) ours fits rebased)
            ]
    ]
