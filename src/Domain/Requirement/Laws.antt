-- ===== src/Domain/Requirement/Laws.antt =====
-- What the table of statuses in internal/domain/domain.go allows.
use adro.Prelude.{
  ◌≡◌, refl, ◌⊎◌, inl, inr, Bool, true, false, List, [], ◌∷◌, arith, any, last_or, ◌||◌,
}
use adro.Domain.Requirement.{
  RequirementStatus, same, transition, received, released, cancelled, accepted, ready_for_human_qa,
  human_approval_needed,
}

-- A sequence of statuses, each entered from the one before it.
abbrev pub Chain : RequirementStatus → List RequirementStatus → Type 0
Chain s [] = Unit
Chain s (t ∷ ts) = (transition s t ≡ true) × Chain t ts

abbrev pub is_settled : RequirementStatus → Bool
is_settled s = same s accepted || same s released

abbrev pub is_human : RequirementStatus → Bool
is_human s = same s ready_for_human_qa || same s human_approval_needed

enter_settled :
    (s t : RequirementStatus)
    → transition s t ≡ true
    → is_settled s ≡ false
    → (same t accepted ≡ true) ⊎ (is_settled t ≡ false)
unfolding transition
enter_settled s t h n = ground arith

enter_accepted :
    (s t : RequirementStatus)
    → transition s t ≡ true
    → is_settled s || is_human s ≡ false
    → (is_human t ≡ true) ⊎ (is_settled t || is_human t ≡ false)
unfolding transition
enter_accepted s t h n = ground arith

final_step :
    (s t : RequirementStatus)
    → transition s t ≡ true
    → (same s released || same s cancelled) ≡ true
    → t ≡ s
unfolding transition
final_step s t h f = ground arith

-- The statuses that `transition` leads to in some number of steps.
pub data Reach (s : RequirementStatus) : RequirementStatus → Type 0 where
  here : Reach s s
  next : {t u : RequirementStatus} → Reach s t → transition t u ≡ true → Reach s u

-- A requirement that is released or cancelled keeps its status for ever.
pub final_absorbs :
    (s t : RequirementStatus) → (same s released || same s cancelled) ≡ true → Reach s t → t ≡ s
final_absorbs s t f here = refl
final_absorbs s t f (next {t = u} r h) =
    let e = final_absorbs s u f r in final_step s t (rw e at h) f

released_settled : is_settled released ≡ true
unfolding same
released_settled = refl

any_accepted :
    (s : RequirementStatus) (ts : List RequirementStatus)
    → is_settled s ≡ false
    → Chain s ts
    → last_or s ts ≡ released
    → any (λ t. same t accepted) ts ≡ true
any_accepted s [] n c e = cc (n, released_settled, e)
any_accepted s (t ∷ ts) n c e = elim (enter_settled s t c.0 n) [
  | inl a ↦ ground arith
  | inr b ↦ ground (arith, any_accepted t ts b c.1 e)
]

any_human :
    (s : RequirementStatus) (ts : List RequirementStatus)
    → is_settled s || is_human s ≡ false
    → Chain s ts
    → last_or s ts ≡ released
    → any is_human ts ≡ true
any_human s [] n c e = cc (n, released_settled, e)
any_human s (t ∷ ts) n c e = elim (enter_accepted s t c.0 n) [
  | inl a ↦ ground arith
  | inr b ↦ ground (arith, any_human t ts b c.1 e)
]

-- However a received requirement comes to be released, it was accepted on the way, and before or
-- after that it stood with a human: in READY_FOR_HUMAN_QA or HUMAN_APPROVAL_REQUIRED.
pub release_needs_human :
    (ts : List RequirementStatus)
    → Chain received ts
    → last_or received ts ≡ released
    → (any (λ t. same t accepted) ts ≡ true) × (any is_human ts ≡ true)
unfolding same
release_needs_human ts c e = (any_accepted received ts refl c e, any_human received ts refl c e)
