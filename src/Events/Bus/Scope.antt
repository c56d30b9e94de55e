-- ===== src/Events/Bus/Scope.antt =====
-- What a page of a scoped stream holds: `ReplayScoped` of internal/events/events.go.
use adro.Prelude.{
  ℕ, zero, suc, ◌≤◌, ◌≡◌, ◌≢◌, inl, inr, true, String, List, [], ◌∷◌, arith, Bool-cases, length,
  All,
}
use adro.Prelude.Int.{ℤ}
use mathlib.Core.Path.{subst}
use adro.Events.Envelope.{Envelope, Encoding, clone_fields}
use adro.Events.Bus.{Bus, BusError}
use adro.Events.Bus.Replay.{
  page, unread, page_limit, of_stream, replay_scoped, Cursor, after, lost, foreign, collect,
  read_page,
}

collect-page :
    (enc : Encoding) (tenant workspace aggregate : String) (n : ℕ) (es : List Envelope)
    → let items = collect enc (of_stream tenant workspace aggregate) n es in
      All (λ e. of_stream tenant workspace aggregate e ≡ true) items × (length items ≤ n)
unfolding collect
collect-page enc tenant workspace aggregate zero es = (tt, omega arith)
collect-page enc tenant workspace aggregate (suc n) [] = (tt, omega arith)
collect-page enc tenant workspace aggregate (suc n) (e ∷ es) =
    elim (Bool-cases (of_stream tenant workspace aggregate e)) [
      | inl ours ↦
          let rest = collect-page enc tenant workspace aggregate n es in
          rw ours ((rw (clone_fields enc e) ours, rest.0), omega (arith, rest.1))
      | inr other ↦ rw other (collect-page enc tenant workspace aggregate (suc n) es)
    ]

page-injective : {xs ys : List Envelope} {m n : String} → page xs m ≡ page ys n → xs ≡ ys
page-injective h = cc

unread≢page : {e : BusError} {ys : List Envelope} {n : String} → unread e ≢ page ys n
unread≢page h = cc

read_page-stream :
    (enc : Encoding) (tenant workspace aggregate : String) (limit : ℕ) (c : Cursor)
    (items : List Envelope) (next : String)
    → read_page enc (of_stream tenant workspace aggregate) limit c ≡ page items next
    → All (λ e. of_stream tenant workspace aggregate e ≡ true) items × (length items ≤ limit)
unfolding read_page
read_page-stream enc tenant workspace aggregate limit (after es) items next h =
    subst (λ l. All (λ e. of_stream tenant workspace aggregate e ≡ true) l × (length l ≤ limit))
      (page-injective h) (collect-page enc tenant workspace aggregate limit es)
read_page-stream enc tenant workspace aggregate limit lost items next h = absurd (unread≢page h)
read_page-stream enc tenant workspace aggregate limit foreign items next h = absurd (unread≢page h)

-- A scoped page has events of its own workspace alone, and of its own tenant and aggregate where
-- these are given, whatever the cursor or the acknowledgement that it starts from; and it has no
-- more events than the limit, and never more than 250.
pub replay_scoped_stays_in_scope :
    (enc : Encoding) (consumer tenant workspace aggregate cursor : String) (limit : ℤ) (b : Bus)
    (items : List Envelope) (next : String)
    → replay_scoped enc consumer tenant workspace aggregate cursor limit b ≡ page items next
    → All (λ e. of_stream tenant workspace aggregate e ≡ true) items
      × (length items ≤ page_limit limit)
      × (length items ≤ 250)
unfolding replay_scoped page_limit
replay_scoped_stays_in_scope enc consumer tenant workspace aggregate cursor limit b items next h =
    let (ours, short) =
      read_page-stream enc tenant workspace aggregate (page_limit limit) _ items next h in
    (ours, short, ground (arith, short))
