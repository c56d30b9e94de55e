-- ===== src/Events/Bus/Tokens.antt =====
-- The acknowledgement tokens of internal/events/events.go.
use adro.Prelude.{
  ◌≡◌, ◌≢◌, ◌↔◌, refl, sym, ap, ◌∙◌, inl, inr, none, not, Bool-cases, Option-cases, Bool, true,
  false, ◌||◌, String, str_eq, some, arith, eq_iff, ◌==◌,
}
use adro.Prelude.Text.{trim_space, ◌<>◌}
use Prim.Native.Char.{Char, code}
use Prim.Native.String.{◌++◌}
use text.Mathlib.TextLemmas.{cons-append, nil-append, append_assoc}
use mathlib.Core.Option.{some-injective}
use adro.Events.Envelope.{Encoding}
use adro.Events.Bus.Consumer.{ack_token, cut_dot, verify_ack_token}

none≢some : {A : Type 0} {x : A} → none ≢ some x
none≢some h = cc

-- A dot is in the text.
unfoldable pub has_dot : String → Bool
has_dot String.[] = false
has_dot (String.◌∷◌ c s) = code c == 46 || has_dot s

cut_dot-dot : (tail : String) → cut_dot ("." <> tail) ≡ some ("", tail)
unfolding cut_dot ◌<>◌
cut_dot-dot tail = rw (cons-append, nil-append) refl

cut_dot-cons :
    (c : Char) (s head tail : String)
    → code c == 46 ≡ false
    → cut_dot s ≡ some (head, tail)
    → cut_dot (String.◌∷◌ c s) ≡ some (String.◌∷◌ c head, tail)
unfolding cut_dot
cut_dot-cons c s head tail other h = rw (cut_dot, other, h) refl

cut_dot-append :
    (head tail : String)
    → has_dot head ≡ false
    → cut_dot (head <> ("." <> tail)) ≡ some (head, tail)
unfolding has_dot ◌<>◌
cut_dot-append String.[] tail h = rw nil-append (cut_dot-dot tail)
cut_dot-append (String.◌∷◌ c s) tail h = rw cons-append (
    cut_dot-cons c (s ++ ("." ++ tail)) s tail (ground (arith, h))
      (cut_dot-append s tail (ground (arith, h))))

-- The token that the bus gives to a consumer names its event: an event whose ID is not empty and has
-- no dot, where the token has no space around it and the digest is not empty.
given_verifies :
    (enc : Encoding) (consumer event : String)
    → has_dot event ≡ false
    → str_eq event "" ≡ false
    → ((text : String) → str_eq (enc.sha256_hex text) "" ≡ false)
    → trim_space (ack_token enc consumer event) ≡ ack_token enc consumer event
    → verify_ack_token enc consumer (ack_token enc consumer event) ≡ some event
unfolding verify_ack_token ack_token ◌<>◌
given_verifies enc consumer event undotted named hex trimmed =
    let sum = enc.sha256_hex (trim_space consumer <> "\0" <> trim_space event) in
    let cut : cut_dot (event <> "." <> sum) ≡ some (event, sum) =
      ap cut_dot (append_assoc event "." sum) ∙ cut_dot-append event sum undotted in
    let here : cut_dot (trim_space (ack_token enc consumer event)) ≡ some (event, sum) =
      ap cut_dot trimmed ∙ cut in
    let same : str_eq (ack_token enc consumer event) (ack_token enc consumer event) ≡ true =
      (eq_iff (ack_token enc consumer event) (ack_token enc consumer event)).1 refl in
    rw (verify_ack_token, here, named, hex (trim_space consumer <> "\0" <> trim_space event), same)
      refl

-- A token that is verified is the one that the bus gives for the event that it names.
verified_given :
    (enc : Encoding) (consumer event token : String)
    → verify_ack_token enc consumer token ≡ some event
    → token ≡ ack_token enc consumer event
unfolding verify_ack_token
verified_given enc consumer event token h = elim (Option-cases (cut_dot (trim_space token))) [
  | inl whole ↦ absurd (none≢some (rw (verify_ack_token, whole) at h))
  | inr ((head, sum), cut) ↦
      elim (Bool-cases
        (str_eq head "" || str_eq sum "" || not (str_eq (ack_token enc consumer head) token))) [
          | inl refused ↦ absurd (none≢some (rw (verify_ack_token, cut, refused) at h))
          | inr fine ↦
              let same : head ≡ event =
                some-injective head event (rw (verify_ack_token, cut, fine) at h) in
              sym ((eq_iff (ack_token enc consumer head) token).0 (ground (arith, fine)))
              ∙ ap (ack_token enc consumer) same
        ]
]

-- A token is verified for a consumer as that of an event exactly where it is the token that the bus
-- gives to the consumer for that event: with any other digest it is refused. The event's ID is not
-- empty and has no dot, its token has no space around it, and the digest is not empty.
pub verify_ack_token-ack_token :
    (enc : Encoding) (consumer event token : String)
    → has_dot event ≡ false
    → str_eq event "" ≡ false
    → ((text : String) → str_eq (enc.sha256_hex text) "" ≡ false)
    → trim_space (ack_token enc consumer event) ≡ ack_token enc consumer event
    → (verify_ack_token enc consumer token ≡ some event) ↔ (token ≡ ack_token enc consumer event)
verify_ack_token-ack_token enc consumer event token undotted named hex trimmed = (
  verified_given enc consumer event token,
  λ same.
      ap (verify_ack_token enc consumer) same
      ∙ given_verifies enc consumer event undotted named hex trimmed,
)
