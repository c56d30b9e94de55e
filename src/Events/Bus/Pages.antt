-- ===== src/Events/Bus/Pages.antt =====
-- Reading a stream page by page, as the clients of `ListChecked` of internal/events/events.go do.
use adro.Prelude.{
  ℕ, zero, suc, ◌<◌, ◌≡◌, refl, sym, ap, ◌∙◌, inl, inr, Bool, true, false, ◌||◌, String, str_eq,
  List, [], ◌∷◌, ◌++◌, Option, none, some, arith, Bool-cases, if◌then◌else◌, length, keep, map,
  eq_iff, length-append, ◌==◌,
}
use adro.Prelude.Int.{ℤ}
use mathlib.Core.List.{append_assoc}
use mathlib.Core.Path.{subst}
use adro.Events.Envelope.{Envelope, Encoding, clone_envelope}
use adro.Events.History.{knows}
use adro.Events.Bus.{Bus, event_ids}
use adro.Events.Bus.Collect.{collect-cases}
use adro.Events.Bus.Replay.{
  page, unread, page_limit, of_aggregate, after, seek, start_at, collect, read_page, list_checked,
}

-- The IDs are present and distinct.
abbrev pub HasDistinctIds : List Envelope → Type 0
HasDistinctIds [] = Unit
HasDistinctIds (e ∷ es) =
    (str_eq e.event_id "" ≡ false) × (knows e.event_id (event_ids es) ≡ false) × HasDistinctIds es

-- A client that asks for the page after each cursor until there is none, `fuel` times at most.
unfoldable pub read_all : Encoding → ℕ → String → String → ℤ → Bus → Option (List Envelope)
unfolding list_checked
read_all enc zero aggregate cursor limit b = none
read_all enc (suc fuel) aggregate cursor limit b =
    elim (list_checked enc aggregate cursor limit b) [
      | unread _ ↦ none
      | page items next ↦
          if str_eq next "" then some items else elim (read_all enc fuel aggregate next limit b) [
            | none ↦ none
            | some others ↦ some (items ++ others)
          ]
    ]

positive : (n : ℕ) → 0 < n → (m : ℕ) × (n ≡ suc m)
positive zero h = absurd (omega (arith, h))
positive (suc m) h = (m, refl)

page_limit-pos : (limit : ℤ) → 0 < page_limit limit
unfolding page_limit
page_limit-pos limit = ground arith

pub knows-append :
    (id : String) (xs ys : List Envelope)
    → knows id (event_ids (xs ++ ys)) ≡ (knows id (event_ids xs) || knows id (event_ids ys))
unfolding knows event_ids
knows-append id [] ys = refl
knows-append id (x ∷ xs) ys = ground (arith, knows-append id xs ys)

seek-append :
    (ours : Envelope → Bool) (e : Envelope) (front rest : List Envelope)
    → ours e ≡ true
    → knows e.event_id (event_ids front) ≡ false
    → seek ours e.event_id (front ++ e ∷ rest) ≡ after rest
unfolding seek knows event_ids
seek-append ours e [] rest passes fresh = ground (arith, eq_iff e.event_id e.event_id, passes)
seek-append ours e (x ∷ front) rest passes fresh = ground (
  arith,
  seek-append ours e front rest passes,
  eq_iff e.event_id x.event_id,
  eq_iff x.event_id e.event_id,
  fresh,
)

distinct-split :
    (front : List Envelope) (e : Envelope) (rest : List Envelope)
    → HasDistinctIds (front ++ e ∷ rest)
    → (knows e.event_id (event_ids front) ≡ false) × (str_eq e.event_id "" ≡ false)
unfolding knows event_ids
distinct-split [] e rest h = (refl, h.0)
distinct-split (x ∷ front) e rest h = ground (
  arith,
  distinct-split front e rest h.2,
  knows-append x.event_id front (e ∷ rest),
  eq_iff e.event_id x.event_id,
  eq_iff x.event_id e.event_id,
  h.1,
)

kept-append :
    (enc : Encoding) (ours : Envelope → Bool) (xs ys : List Envelope)
    → map (clone_envelope enc) (keep ours (xs ++ ys))
      ≡ map (clone_envelope enc) (keep ours xs) ++ map (clone_envelope enc) (keep ours ys)
kept-append enc ours [] ys = refl
kept-append enc ours (x ∷ xs) ys = elim (Bool-cases (ours x)) [
  | inl yes_ ↦ rw (yes_, kept-append enc ours xs ys) refl
  | inr no_ ↦ rw (no_, kept-append enc ours xs ys) refl
]

shorter :
    (front : List Envelope) (e : Envelope) (rest es : List Envelope) (fuel : ℕ)
    → es ≡ front ++ e ∷ rest
    → length es < suc fuel
    → length rest < fuel
shorter front e rest es fuel split enough =
    omega (arith, enough, ap length split, length-append front (e ∷ rest))

module _ (enc : Encoding) (aggregate : String) (limit : ℤ) (b : Bus) where
  -- The page at a cursor that stands before `es`.
  page_at :
      (cursor : String) (es : List Envelope)
      → start_at (of_aggregate aggregate) cursor b.events ≡ after es
      → list_checked enc aggregate cursor limit b
        ≡ read_page enc (of_aggregate aggregate) (page_limit limit) (after es)
  unfolding list_checked
  page_at cursor es h = ap (read_page enc (of_aggregate aggregate) (page_limit limit)) h

  read_all-from :
      (n fuel : ℕ) (cursor : String) (read es : List Envelope)
      → page_limit limit ≡ suc n
      → HasDistinctIds b.events
      → b.events ≡ read ++ es
      → start_at (of_aggregate aggregate) cursor b.events ≡ after es
      → length es < fuel
      → read_all enc fuel aggregate cursor limit b
        ≡ some (map (clone_envelope enc) (keep (of_aggregate aggregate) es))
  unfolding read_all read_page
  read_all-from n zero cursor read es size distinct whole here enough =
      absurd (omega (arith, enough))
  read_all-from n (suc fuel) cursor read es size distinct whole here enough =
      elim (collect-cases enc (of_aggregate aggregate) n es) [
        | inr w ↦
            let short : (length (collect enc (of_aggregate aggregate) (suc n) es) == suc n)
                ≡ false =
              ground (arith, w.short) in
            rw (read_all, page_at cursor es here, read_page, size, short, w.taken) refl
        | inl s ↦
            let full : (length (collect enc (of_aggregate aggregate) (suc n) es) == suc n) ≡ true =
              ground (arith, s.full) in
            let whole' : b.events ≡ (read ++ s.front) ++ s.final ∷ s.rest =
              whole
              ∙ ap (λ l. read ++ l) s.split
              ∙ sym (append_assoc read s.front (s.final ∷ s.rest)) in
            let fresh =
              distinct-split (read ++ s.front) s.final s.rest
                (subst HasDistinctIds whole' distinct) in
            let others =
              read_all-from n fuel s.final.event_id (read ++ s.front ++ s.final ∷ []) s.rest size
                distinct (whole' ∙ sym (append_assoc (read ++ s.front) (s.final ∷ []) s.rest))
                (rw (start_at, fresh.1, whole')
                  (seek-append (of_aggregate aggregate) s.final (read ++ s.front) s.rest s.passes
                    fresh.0))
                (shorter s.front s.final s.rest es fuel s.split enough) in
            rw
              (
                read_all,
                page_at cursor es here,
                read_page,
                size,
                full,
                s.ends "",
                fresh.1,
                others,
                size,
                s.taken,
              )
              (ap some (
                sym (kept-append enc (of_aggregate aggregate) (s.front ++ s.final ∷ []) s.rest)
                ∙ ap (λ l. map (clone_envelope enc) (keep (of_aggregate aggregate) l))
                    (append_assoc s.front (s.final ∷ []) s.rest ∙ sym s.split)))
      ]

-- A client that asks for page after page of a stream, each from the cursor that it got, comes to an
-- end after no more pages than there are events and one, and has then read every event of the
-- stream, each once and in the order of the history. This takes event IDs that are present and
-- distinct.
pub pages_cover_stream :
    (enc : Encoding) (aggregate : String) (limit : ℤ) (b : Bus)
    → HasDistinctIds b.events
    → read_all enc (suc (length b.events)) aggregate "" limit b
      ≡ some (map (clone_envelope enc) (keep (of_aggregate aggregate) b.events))
unfolding start_at
pages_cover_stream enc aggregate limit b distinct =
    let (n, size) = positive (page_limit limit) (page_limit-pos limit) in
    read_all-from enc aggregate limit b n (suc (length b.events)) "" [] b.events size distinct refl
      refl (omega arith)
