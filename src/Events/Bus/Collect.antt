-- ===== src/Events/Bus/Collect.antt =====
-- What one page holds: the loops of `ListChecked` and `ReplayScoped` of internal/events/events.go.
use adro.Prelude.{
  ℕ, zero, suc, ◌<◌, ◌≡◌, refl, ap, ◌⊎◌, inl, inr, Bool, true, false, String, List, [], ◌∷◌, ◌++◌,
  arith, Bool-cases, length, keep, map,
}
use adro.Events.Envelope.{Envelope, Encoding, clone_envelope}
use adro.Events.Bus.Replay.{collect, last_id}

clone-event_id : (enc : Encoding) (e : Envelope) → (clone_envelope enc e).event_id ≡ e.event_id
unfolding clone_envelope
clone-event_id enc e = ground arith

-- The events up to one that passes, and those after it.
pub record IsSplit (enc : Encoding) (ours : Envelope → Bool) (n : ℕ) (es : List Envelope)
    : Type 0 where
  pub front : List Envelope
  pub final : Envelope
  pub rest : List Envelope
  pub split : es ≡ front ++ final ∷ rest
  pub passes : ours final ≡ true
  pub taken : collect enc ours n es ≡ map (clone_envelope enc) (keep ours (front ++ final ∷ []))
  pub full : length (collect enc ours n es) ≡ n
  pub ends : (id : String) → last_id id (collect enc ours n es) ≡ final.event_id

-- Every event that passes is on the page.
pub record IsWhole (enc : Encoding) (ours : Envelope → Bool) (n : ℕ) (es : List Envelope)
    : Type 0 where
  pub taken : collect enc ours n es ≡ map (clone_envelope enc) (keep ours es)
  pub short : length (collect enc ours n es) < n

module _ (enc : Encoding) (ours : Envelope → Bool) (e : Envelope) (es : List Envelope) where
  taken-first : ours e ≡ true → IsSplit enc ours 1 (e ∷ es)
  unfolding collect
  taken-first passes = record {
    front = [];
    final = e;
    rest = es;
    split = refl;
    passes = passes;
    taken = rw passes refl;
    full = rw passes refl;
    ends = λ id. rw (passes, clone-event_id enc e) refl;
  }

  module _ (n : ℕ) (passes : ours e ≡ true) where
    taken-IsSplit : IsSplit enc ours n es → IsSplit enc ours (suc n) (e ∷ es)
    unfolding collect
    taken-IsSplit s = record {
      front = e ∷ s.front;
      final = s.final;
      rest = s.rest;
      split = ap (λ l. e ∷ l) s.split;
      passes = s.passes;
      taken = rw (passes, s.taken) refl;
      full = rw (passes, s.full) refl;
      ends = λ id. rw passes (s.ends _);
    }

    taken-IsWhole : IsWhole enc ours n es → IsWhole enc ours (suc n) (e ∷ es)
    unfolding collect
    taken-IsWhole w = record {
      taken = rw (passes, w.taken) refl;
      short = rw passes (omega (arith, w.short));
    }

  module _ (n : ℕ) (other : ours e ≡ false) where
    skipped-IsSplit : IsSplit enc ours (suc n) es → IsSplit enc ours (suc n) (e ∷ es)
    unfolding collect
    skipped-IsSplit s = record {
      front = e ∷ s.front;
      final = s.final;
      rest = s.rest;
      split = ap (λ l. e ∷ l) s.split;
      passes = s.passes;
      taken = rw (other, s.taken) refl;
      full = rw other s.full;
      ends = λ id. rw other (s.ends id);
    }

    skipped-IsWhole : IsWhole enc ours (suc n) es → IsWhole enc ours (suc n) (e ∷ es)
    unfolding collect
    skipped-IsWhole w = record { taken = rw (other, w.taken) refl; short = rw other w.short }

pub collect-cases :
    (enc : Encoding) (ours : Envelope → Bool) (n : ℕ) (es : List Envelope)
    → IsSplit enc ours (suc n) es ⊎ IsWhole enc ours (suc n) es
unfolding collect
collect-cases enc ours n [] = inr (record { taken = refl; short = omega arith })
collect-cases enc ours zero (e ∷ es) = elim (Bool-cases (ours e)) [
  | inl passes ↦ inl (taken-first enc ours e es passes)
  | inr other ↦ elim (collect-cases enc ours zero es) [
    | inl s ↦ inl (skipped-IsSplit enc ours e es zero other s)
    | inr w ↦ inr (skipped-IsWhole enc ours e es zero other w)
  ]
]
collect-cases enc ours (suc n) (e ∷ es) = elim (Bool-cases (ours e)) [
  | inl passes ↦ elim (collect-cases enc ours n es) [
    | inl s ↦ inl (taken-IsSplit enc ours e es (suc n) passes s)
    | inr w ↦ inr (taken-IsWhole enc ours e es (suc n) passes w)
  ]
  | inr other ↦ elim (collect-cases enc ours (suc n) es) [
    | inl s ↦ inl (skipped-IsSplit enc ours e es (suc n) other s)
    | inr w ↦ inr (skipped-IsWhole enc ours e es (suc n) other w)
  ]
]
