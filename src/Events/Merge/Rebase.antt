-- ===== src/Events/Merge/Rebase.antt =====
-- The events of this process behind those of a peer: the second loop of
-- `mergePeerEventsPreservingCommitted` of internal/events/events.go.
use adro.Prelude.{
  ℕ, suc, ◌+◌, ◌^◌, ◌<◌, ◌≡◌, ◌≢◌, refl, sym, ap, ◌∙◌, inl, inr, true, false, not, ◌&&◌, String,
  str_eq, List, [], ◌∷◌, ◌++◌, Option, none, some, arith, length, eq_iff, length-append, Bool-cases,
  Option-cases, All,
}
use adro.Prelude.Int.{ℤ, pos, add64, add64-suc}
use adro.Prelude.Text.{is_blank}
use mathlib.Core.Path.{subst}
use mathlib.Core.List.{append_assoc, append-nil}
use mathlib.Core.Option.{some-injective}
use adro.Events.Envelope.{
  Envelope, Encoding, clone_envelope, envelope_hash, EncodesAll, year_10000, clone_fields,
}
use adro.Events.History.{knows, traced, max_sequence, last_hash, seal, rebase_local}
use adro.Events.Chain.{IsSealed, IsHistory, Follows}
use adro.Events.Chain.Grow.{max_sequence-IsHistory, IsHistory-snoc, last_link, last_link-last_hash}
use adro.Events.Bus.{event_ids}
use adro.Events.Bus.Pages.{knows-append}

pub none≢some : {A : Type 0} {x : A} → none ≢ some x
none≢some h = cc

-- An event of this process that the history can take.
pub record IsOurs (enc : Encoding) (e : Envelope) : Type 0 where
  pub identified : is_blank e.event_id ≡ false
  pub schema : e.schema_version ≡ pos 1
  pub dated : e.occurred_at < year_10000
  pub traces : (traced e && not (enc.trace_valid e.trace_parent e.trace_state)) ≡ false

-- A list of IDs that has those of the history, and no other.
abbrev pub Names : List String → List Envelope → Type 0
Names seen es = (id : String) → knows id seen ≡ knows id (event_ids es)

-- Every event of the first list is in the second, by its ID.
abbrev pub AllIn : List Envelope → List Envelope → Type 0
AllIn some_ all_ = All (λ e. knows e.event_id (event_ids all_) ≡ true) some_

seal-IsSealed :
    (enc : Encoding) (sequence : ℤ) (previous : String) (e : Envelope)
    → EncodesAll enc
    → IsOurs enc e
    → str_eq (seal enc sequence previous (clone_envelope enc e)).payload_hash "" ≡ false
    → IsSealed enc (seal enc sequence previous (clone_envelope enc e))
      × ((seal enc sequence previous (clone_envelope enc e)).event_id ≡ e.event_id)
unfolding seal envelope_hash traced
seal-IsSealed enc sequence previous e encodes ours encodable =
    let same = clone_fields enc e in
    (
      record {
        identified = rw same ours.identified;
        schema = rw same ours.schema;
        traces = rw same ours.traces;
        payload = refl;
        whole = refl;
        hashed =
            encodes (seal enc sequence previous (clone_envelope enc e)) (rw same ours.dated)
              encodable;
      },
      ap (λ x. x.event_id) same,
    )

module _ (enc : Encoding) (encodes : EncodesAll enc) (base : ℕ) where
  -- What the merge has to know of the events so far to place the next one.
  pub record IsPlaced (sequence : ℤ) (previous : String) (seen : List String) (es : List Envelope)
      : Type 0 where
    pub history : IsHistory enc base es
    pub number : add64 sequence (pos 1) ≡ pos (base + length es)
    pub link : (e : Envelope) → e.previous_hash ≡ previous → Follows (last_link none es) e
    pub names : Names seen es

  last_link-snoc :
      (previous : Option String) (es : List Envelope) (e : Envelope)
      → last_link previous (es ++ e ∷ []) ≡ some e.envelope_hash
  last_link-snoc previous [] e = refl
  last_link-snoc previous (x ∷ es) e = last_link-snoc (some x.envelope_hash) es e

  -- A history as `rebase_local` goes on from it.
  pub IsPlaced-history :
      (e : Envelope) (es : List Envelope)
      → IsHistory enc base (e ∷ es)
      → (seen : List String) → Names seen (e ∷ es)
      → IsPlaced (max_sequence (e ∷ es)) (last_hash "" (e ∷ es)) seen (e ∷ es)
  IsPlaced-history e es h seen names = record {
    history = h;
    number = max_sequence-IsHistory enc base e es h;
    link = λ x same. subst (λ l. Follows l x) (sym (last_link-last_hash e.envelope_hash es)) same;
    names = names;
  }

  module _ (sequence : ℤ) (previous : String) (seen : List String) (es : List Envelope)
      (e : Envelope) where
    sealed : Envelope
    unfolding seal
    sealed = seal enc (add64 sequence (pos 1)) previous (clone_envelope enc e)

    IsPlaced-seal :
        IsPlaced sequence previous seen es
        → IsOurs enc e
        → str_eq sealed.payload_hash "" ≡ false
        → knows e.event_id seen ≡ false
        → base + suc (length es) < 2 ^ 63
        → IsPlaced
            (add64 sequence (pos 1))
            sealed.envelope_hash
            (e.event_id ∷ seen)
            (es ++ sealed ∷ [])
    unfolding sealed seal knows event_ids
    IsPlaced-seal placed ours encodable new fits =
        let (s, named) =
          seal-IsSealed enc (add64 sequence (pos 1)) previous e encodes ours encodable in
        record {
          history =
              IsHistory-snoc enc base es sealed placed.history fits s placed.number
                (ap (λ i. knows i (event_ids es)) named ∙ sym (placed.names e.event_id) ∙ new)
                (placed.link sealed refl);
          number =
              (ap (λ z. add64 z (pos 1)) placed.number
                ∙ add64-suc (base + length es) (omega (arith, fits))
                ∙ ap pos (omega (arith, length-append es (sealed ∷ []))));
          link = λ x same. subst (λ l. Follows l x) (sym (last_link-snoc none es sealed)) same;
          names = λ id.
              ground
                (arith, placed.names id, knows-append id es (sealed ∷ []), ap (str_eq id) named);
        }

  knows-more :
      (id : String) (es moved : List Envelope)
      → knows id (event_ids es) ≡ true
      → knows id (event_ids (es ++ moved)) ≡ true
  knows-more id es moved h = ground (arith, knows-append id es moved, h)

  pub rebase_local-IsHistory :
      (sequence : ℤ) (previous : String) (seen : List String) (es added moved : List Envelope)
      → IsPlaced sequence previous seen es
      → All (IsOurs enc) added
      → base + (length es + length added) < 2 ^ 63
      → rebase_local enc sequence previous seen added ≡ some moved
      → IsHistory enc base (es ++ moved) × AllIn added (es ++ moved)
  unfolding rebase_local seal sealed knows event_ids
  rebase_local-IsHistory sequence previous seen es [] moved placed ours fits h = (
    subst (λ l. IsHistory enc base (es ++ l)) (some-injective [] moved h)
        (subst (IsHistory enc base) (sym (append-nil es)) placed.history),
    tt,
  )
  rebase_local-IsHistory sequence previous seen es (e ∷ added) moved placed (mine, ours) fits h =
      elim (Bool-cases (str_eq e.event_id "")) [
        | inl unnamed ↦ absurd (none≢some (rw (rebase_local, unnamed) at h))
        | inr named ↦ elim (Bool-cases (knows e.event_id seen)) [
          | inl old ↦
              let (history, found) =
                rebase_local-IsHistory sequence previous seen es added moved placed ours
                  (omega (arith, fits)) (rw (rebase_local, named, old) at h) in
              (
                history,
                (knows-more e.event_id es moved (sym (placed.names e.event_id) ∙ old), found),
              )
          | inr new ↦
              elim (Bool-cases (str_eq (sealed sequence previous seen es e).payload_hash "")) [
                | inl lost ↦ absurd (none≢some (rw (rebase_local, named, new, lost) at h))
                | inr encodable ↦
                    let x = sealed sequence previous seen es e in
                    elim (Option-cases (
                      rebase_local enc (add64 sequence (pos 1)) x.envelope_hash (e.event_id ∷ seen)
                        added)) [
                          | inl lost ↦
                              absurd
                                (none≢some (rw (rebase_local, named, new, encodable, lost) at h))
                          | inr (rest, done) ↦
                              let next =
                                IsPlaced-seal sequence previous seen es e placed mine encodable new
                                  (omega (arith, fits)) in
                              let (history, found) =
                                rebase_local-IsHistory (add64 sequence (pos 1)) x.envelope_hash
                                  (e.event_id ∷ seen) (es ++ x ∷ []) added rest next ours
                                  (omega (arith, fits, length-append es (x ∷ []))) done in
                              let whole : (es ++ x ∷ []) ++ rest ≡ es ++ moved =
                                append_assoc es (x ∷ []) rest
                                ∙ ap (λ l. es ++ l)
                                    (some-injective (x ∷ rest) moved
                                      (rw (rebase_local, named, new, encodable, done) at h)) in
                              (
                                subst (IsHistory enc base) whole history,
                                (
                                  subst (λ l. knows e.event_id (event_ids l) ≡ true) whole
                                      (knows-more e.event_id (es ++ x ∷ []) rest (
                                        sym (next.names e.event_id)
                                        ∙ ground (arith, eq_iff e.event_id e.event_id))),
                                  subst (AllIn added) whole found,
                                ),
                              )
                        ]
              ]
        ]
      ]
